-- ===== src/Warehouse/History.antt =====
-- The warehouse over time: the requests of app/api/routers/warehouse_documents.py, each in the
-- session of app/persistence/db.py, which is rolled back when the service raises.
use ifg.Base.{ℕ, Option, List, [], ◌∷◌, refl}
use ifg.Base.Dict.{Dict}
use ifg.Base.Exec.{Exec, ◌>>◌, pure, transaction}
use ifg.Base.Keeps.{Keeps, Keeps-bind, Keeps-pure, Keeps-transaction}
use ifg.Warehouse.Rows.{Warehouse, Clock, DocumentBody, CatalogItem}
use ifg.Warehouse.Posting.{post_document}
use ifg.Warehouse.Documents.{create_document, update_document, cancel_document}
use ifg.Warehouse.Documents.Invariant.{
  IsWellFormed, create_document-Keeps, update_document-Keeps, cancel_document-Keeps,
  post_document-Keeps,
}
use ifg.Warehouse.Documents.Numbers.Unique.{IsNumbered}
use ifg.Warehouse.Documents.Numbers.Keeping.{
  create_document-IsNumbered, update_document-IsNumbered, cancel_document-IsNumbered,
  post_document-IsNumbered,
}

-- The endpoints that write.
pub data Request : Type 0 where
  create : DocumentBody → Option ℕ → Request
  update : ℕ → DocumentBody → Request
  post : Clock → ℕ → Request
  cancel : ℕ → Request

handle : Request → Exec Warehouse (Unit {0})
handle (create body by) = transaction (create_document body by) >> pure tt
handle (update id body) = transaction (update_document id body) >> pure tt
handle (post clock id) = transaction (post_document clock id) >> pure tt
handle (cancel id) = transaction (cancel_document id) >> pure tt

-- The state after a list of requests, whatever each of them answers.
pub serve : List Request → Warehouse → Warehouse
serve [] w = w
serve (r ∷ rs) w = serve rs (handle r w).1

-- No documents yet, and a catalogue.
pub empty_warehouse : Dict CatalogItem → Warehouse
empty_warehouse catalog = record {
  next_id = 0;
  documents = [];
  layers = [];
  movements = [];
  balances = [];
  sequences = [];
  catalog = catalog;
}

module _ {P : Warehouse → Type 0}
    (k_create : (body : DocumentBody) (by : Option ℕ) → Keeps P (create_document body by))
    (k_update : (id : ℕ) (body : DocumentBody) → Keeps P (update_document id body))
    (k_post : (clock : Clock) (id : ℕ) → Keeps P (post_document clock id))
    (k_cancel : (id : ℕ) → Keeps P (cancel_document id)) where
  answered : {A : Type 0} (m : Exec Warehouse A) → Keeps P m → Keeps P (transaction m >> pure tt)
  answered m k = Keeps-bind _ _ (Keeps-transaction m k) (λ _. Keeps-pure tt)

  handle-Keeps : (r : Request) → Keeps P (handle r)
  unfolding handle
  handle-Keeps (create body by) = answered _ (k_create body by)
  handle-Keeps (update id body) = answered _ (k_update id body)
  handle-Keeps (post clock id) = answered _ (k_post clock id)
  handle-Keeps (cancel id) = answered _ (k_cancel id)

  serve-Keeps : (rs : List Request) (w : Warehouse) → P w → P (serve rs w)
  unfolding serve
  serve-Keeps [] w h = h
  serve-Keeps (r ∷ rs) w h = serve-Keeps rs (handle r w).1 ((handle-Keeps r).at w h)

empty-IsWellFormed : (catalog : Dict CatalogItem) → IsWellFormed (empty_warehouse catalog)
unfolding empty_warehouse
empty-IsWellFormed catalog = record {
  consistent = record {
    sound = record {
      distinct = tt;
      below = tt;
      moves_below = tt;
      nonneg = tt;
      conserved = λ k l e. cc;
    };
    balanced = λ i. refl;
  };
  documents = tt;
}

empty-IsNumbered : (catalog : Dict CatalogItem) → IsNumbered (empty_warehouse catalog)
unfolding empty_warehouse
empty-IsNumbered catalog = record {
  keys = tt;
  issued = λ k d text e f. cc;
  unique = λ k k' d d' text e e' f f'. cc;
}

-- After any requests, in any order, some of them refused: every balance is the remaining quantity in
-- the layers, every layer has received what it still holds and what was consumed from it, nothing is
-- below zero, and no draft could break that.
pub serve-IsWellFormed :
    (catalog : Dict CatalogItem) (requests : List Request)
    → IsWellFormed (serve requests (empty_warehouse catalog))
serve-IsWellFormed catalog requests =
    serve-Keeps create_document-Keeps update_document-Keeps post_document-Keeps
      cancel_document-Keeps requests _ (empty-IsWellFormed catalog)

-- After any requests, no two documents bear one number, and every number given out came from the
-- sequence of its type and year.
pub serve-IsNumbered :
    (catalog : Dict CatalogItem) (requests : List Request)
    → IsNumbered (serve requests (empty_warehouse catalog))
serve-IsNumbered catalog requests =
    serve-Keeps create_document-IsNumbered update_document-IsNumbered post_document-IsNumbered
      cancel_document-IsNumbered requests _ (empty-IsNumbered catalog)
