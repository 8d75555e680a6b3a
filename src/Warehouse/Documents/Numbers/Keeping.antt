-- ===== src/Warehouse/Documents/Numbers/Keeping.antt =====
-- The four operations of WarehouseDocumentService keep the document numbers unique.
use ifg.Base.{ℕ, Option, some, none, ◌≡◌, refl, arith, Bool, true, false}
use ifg.Base.Dict.{lookup}
use ifg.Base.Exec.{
  Exec, ◌>>=◌, ◌>>◌, gets, pure, raise, raise_if, or_raise, invalid_warehouse_document, not_found,
}
use ifg.Base.Keeps.{
  Keeps, Keeps-pure, Keeps-raise, Keeps-gets_bind, Keeps-or_raise, Keeps-bind, bind-leads,
}
use ifg.Warehouse.Rows.{
  Warehouse, Document, Clock, DocStatus, draft, posted, cancelled, DocType, pz, wz, kk, transfer,
  DocumentBody,
}
use ifg.Warehouse.Repository.{allocate_next_sequence}
use ifg.Warehouse.Posting.{
  document_number, is_empty, post_by_type, post_draft, post_by_status, post_document,
  allocate_document_number, save_document,
}
use ifg.Warehouse.Posting.Frame.{IsFramed, post_by_type-IsFramed}
use ifg.Warehouse.Documents.{
  add_document, create_document, validate_items_for_type, validate_doc_header, parse_doc_type,
  update_document, replace_document, assert_mutable, cancel_document, cancel_by_status,
}
use ifg.Warehouse.Documents.Numbers.Unique.{
  IsNumbered, Numbering-append, Numbering-rewrite, Numbering-post, Numbering-later,
}

is_empty-document_number : (t : DocType) (y s : ℕ) → is_empty (document_number t y s) ≡ false
unfolding document_number
is_empty-document_number pz y s = refl
is_empty-document_number wz y s = refl
is_empty-document_number kk y s = refl
is_empty-document_number transfer y s = refl

-- The end of `post_document`, from the tables as posting has left them.
finish_post :
    (clock : Clock) (id : ℕ) (doc : Document) (w w' : Warehouse)
    → IsNumbered w
    → lookup id w.documents ≡ some doc
    → IsFramed w.next_id w.documents w.sequences w'
    → IsNumbered
        ((allocate_document_number doc.doc_type clock.year >>= λ number.
            raise_if (is_empty number) invalid_warehouse_document
            >> (save_document id
                  (record doc { number = some number; status = posted; posted_at = some clock.now })
                >> pure (record doc {
                  number = some number;
                  status = posted;
                  posted_at = some clock.now;
                })))
          w').1
unfolding ◌>>=◌ allocate_document_number
finish_post clock id doc w w' h found framed =
    rw
      (
        is_empty-document_number doc.doc_type clock.year
            (allocate_next_sequence doc.doc_type clock.year w'.sequences).0,
        framed.documents,
        framed.sequences,
      )
      (Numbering-post w.next_id w.documents w.sequences h id doc _ clock.year found refl refl
        w'.next_id framed.next)

post_draft-IsNumbered :
    (clock : Clock) (id : ℕ) (doc : Document) (w : Warehouse)
    → IsNumbered w
    → lookup id w.documents ≡ some doc
    → IsNumbered (post_draft clock id doc w).1
unfolding post_draft
post_draft-IsNumbered clock id doc w h found =
    bind-leads IsNumbered (post_by_type clock doc doc.doc_type) _
      (post_by_type-IsFramed w.next_id w.documents w.sequences clock doc doc.doc_type)
      (λ w' framed.
        rw (framed.documents, framed.sequences)
          (Numbering-later w.next_id w.documents w.sequences h w'.next_id framed.next))
      (λ _ w' framed. finish_post clock id doc w w' h found framed) w
      record { next = omega arith; documents = refl; sequences = refl }

post_by_status-IsNumbered :
    (clock : Clock) (id : ℕ) (doc : Document) (s : DocStatus) (w : Warehouse)
    → IsNumbered w
    → lookup id w.documents ≡ some doc
    → IsNumbered (post_by_status clock id doc s w).1
unfolding post_by_status pure raise
post_by_status-IsNumbered clock id doc draft w h found =
    post_draft-IsNumbered clock id doc w h found
post_by_status-IsNumbered clock id doc posted w h found = h
post_by_status-IsNumbered clock id doc cancelled w h found = h

-- The step after a look-up.
on_found :
    {A : Type 0} (w : Warehouse) (m : Document → Exec Warehouse A) {P : Document → Type 0}
    → ((doc : Document) → P doc → IsNumbered (m doc w).1)
    → IsNumbered w
    → (o : Option Document) → ((doc : Document) → o ≡ some doc → P doc)
    → IsNumbered ((or_raise o not_found >>= m) w).1
unfolding ◌>>=◌
on_found w m k h none found = h
on_found w m k h (some doc) found = k doc (found doc refl)

-- A method on a document that it looks up first.
on_document :
    {A : Type 0} (id : ℕ) (m : Document → Exec Warehouse A)
    → ((doc : Document) (w : Warehouse)
        → IsNumbered w
        → lookup id w.documents ≡ some doc
        → IsNumbered (m doc w).1)
    → Keeps IsNumbered
        (gets (λ w. lookup id w.documents) >>= λ found. or_raise found not_found >>= m)
on_document id m k =
    Keeps-gets_bind _ _
      λ w h. on_found w m (λ doc found. k doc w h found) h (lookup id w.documents) (λ doc e. e)

-- Posting keeps every document number unique: at any status of the document, and when it raises.
pub post_document-IsNumbered : (clock : Clock) (id : ℕ) → Keeps IsNumbered (post_document clock id)
unfolding post_document
post_document-IsNumbered clock id =
    on_document id _ (λ doc w h found. post_by_status-IsNumbered clock id doc doc.status w h found)

cancel_by_status-IsNumbered :
    (id : ℕ) (doc : Document) (s : DocStatus) (w : Warehouse)
    → IsNumbered w
    → lookup id w.documents ≡ some doc
    → IsNumbered (cancel_by_status id doc s w).1
unfolding cancel_by_status ◌>>=◌ assert_mutable
cancel_by_status-IsNumbered id doc cancelled w h found = h
cancel_by_status-IsNumbered id doc posted w h found = h
cancel_by_status-IsNumbered id doc draft w h found =
    Numbering-rewrite w.next_id w.documents w.sequences h id doc _ found refl refl w.next_id
      (omega arith)

pub cancel_document-IsNumbered : (id : ℕ) → Keeps IsNumbered (cancel_document id)
unfolding cancel_document
cancel_document-IsNumbered id =
    on_document id _ (λ doc w h found. cancel_by_status-IsNumbered id doc doc.status w h found)

replace_document-IsNumbered :
    (id : ℕ) (doc : Document) (body : DocumentBody) (w : Warehouse)
    → IsNumbered w
    → lookup id w.documents ≡ some doc
    → IsNumbered (replace_document id doc body w).1
unfolding replace_document
replace_document-IsNumbered id doc body w h found =
    Numbering-rewrite w.next_id w.documents w.sequences h id doc _ found refl refl _ (omega arith)

-- The checks of a body write nothing.
module _ {P : Warehouse → Type 0} where
  guard-Keeps : (b : Bool) → Keeps P (raise_if b invalid_warehouse_document)
  unfolding ◌>>=◌
  guard-Keeps true = record { at = λ s h. h }
  guard-Keeps false = record { at = λ s h. h }

  items-Keeps : (t : DocType) (body : DocumentBody) → Keeps P (validate_items_for_type t body.items)
  unfolding validate_items_for_type
  items-Keeps t body = Keeps-bind _ _ (guard-Keeps _) (λ _. guard-Keeps _)

  header-Keeps : (t : DocType) (body : DocumentBody) → Keeps P (validate_doc_header t body)
  unfolding validate_doc_header
  header-Keeps wz body = guard-Keeps _
  header-Keeps pz body = Keeps-pure tt
  header-Keeps kk body = Keeps-pure tt
  header-Keeps transfer body = Keeps-pure tt

  mutable-Keeps : (s : DocStatus) → Keeps P (assert_mutable s)
  unfolding assert_mutable
  mutable-Keeps draft = Keeps-pure tt
  mutable-Keeps posted = Keeps-raise invalid_warehouse_document
  mutable-Keeps cancelled = Keeps-raise invalid_warehouse_document

-- After a step that writes nothing, what follows starts from the same tables.
after_check :
    {A B : Type 0} (m : Exec Warehouse A) (f : A → Exec Warehouse B) (w : Warehouse)
    → Keeps (λ s. s ≡ w) m
    → IsNumbered w
    → ((a : A) → IsNumbered (f a w).1)
    → IsNumbered ((m >>= f) w).1
after_check m f w km h k = bind-leads IsNumbered m f km (λ s e. rw e h) (λ a s e. rw e (k a)) w refl

-- An update leaves the numbers alone.
pub update_document-IsNumbered :
    (id : ℕ) (body : DocumentBody) → Keeps IsNumbered (update_document id body)
unfolding update_document
update_document-IsNumbered id body = on_document id _ λ doc w h found.
    after_check _ _ w (mutable-Keeps doc.status) h λ _. after_check _ _ w (guard-Keeps _) h λ _.
      after_check _ _ w (items-Keeps doc.doc_type body) h λ _.
        after_check _ _ w (header-Keeps doc.doc_type body) h
          λ _. replace_document-IsNumbered id doc body w h found

add_document-IsNumbered :
    (t : DocType) (body : DocumentBody) (by : Option ℕ) (w : Warehouse)
    → IsNumbered w
    → IsNumbered (add_document t body by w).1
unfolding add_document
add_document-IsNumbered t body by w h =
    Numbering-append w.next_id w.documents w.sequences h _ _ (omega arith) refl

-- A new draft has no number.
pub create_document-IsNumbered :
    (body : DocumentBody) (by : Option ℕ) → Keeps IsNumbered (create_document body by)
unfolding create_document
create_document-IsNumbered body by =
    Keeps-or_raise (parse_doc_type body.doc_type) invalid_warehouse_document _ λ t _. record {
      at = λ w h. after_check _ _ w (guard-Keeps _) h λ _.
          after_check _ _ w (items-Keeps t body) h λ _.
            after_check _ _ w (header-Keeps t body) h λ _. add_document-IsNumbered t body by w h;
    }
