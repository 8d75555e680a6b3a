-- ===== src/Warehouse/Documents/Lifecycle.antt =====
-- The states of a document: a draft is posted or cancelled, once, and is then left alone.
use ifg.Base.{ℕ, some, ◌≡◌, ◌≢◌, refl, ap, ◌∙◌}
use ifg.Base.Dict.{lookup, lookup-insert_self}
use ifg.Base.Exec.{
  Exec, Result, ok, err, ◌>>=◌, ◌>>◌, or_raise, pure, gets, invalid_warehouse_document, not_found,
  invalid_status_transition,
}
use ifg.Base.Ensures.{
  Ensures, Ensures-bind, Ensures-pure, Ensures-guard, Ensures-raise, Ensures-or_raise, Ensures-gets,
}
use ifg.Warehouse.Rows.{
  Warehouse, Document, Clock, DocStatus, draft, posted, cancelled, DocumentBody,
}
use ifg.Warehouse.Posting.{
  post_by_type, post_draft, post_by_status, post_document, allocate_document_number, save_document,
  is_empty,
}
use ifg.Warehouse.Documents.{assert_mutable, update_document, cancel_by_status, cancel_document}

-- `doc` is what the table holds under its key, posted.
abbrev StoredPosted : ℕ → Document → Warehouse → Type 0
StoredPosted id doc w = (lookup id w.documents ≡ some doc) × (doc.status ≡ posted)

saved-StoredPosted :
    (id : ℕ) (doc : Document) (w : Warehouse)
    → doc.status ≡ posted
    → Ensures (StoredPosted id) (save_document id doc >> pure doc) w
unfolding ◌>>=◌
saved-StoredPosted id doc w h =
    Ensures-bind (save_document id doc) (λ _. pure doc) w
      λ _ _. Ensures-pure doc _ (lookup-insert_self id doc w.documents, h)

post_by_status-StoredPosted :
    (clock : Clock) (id : ℕ) (doc : Document) (s : DocStatus) (w : Warehouse)
    → lookup id w.documents ≡ some doc
    → doc.status ≡ s
    → Ensures (StoredPosted id) (post_by_status clock id doc s) w
unfolding post_by_status post_draft
post_by_status-StoredPosted clock id doc posted w e h = Ensures-pure doc w (e, h)
post_by_status-StoredPosted clock id doc cancelled w e h = Ensures-raise invalid_status_transition w
post_by_status-StoredPosted clock id doc draft w e h =
    Ensures-bind (post_by_type clock doc doc.doc_type) _ w λ _ _.
      Ensures-bind (allocate_document_number doc.doc_type clock.year) _ _ λ number _.
        Ensures-guard (is_empty number) invalid_warehouse_document _ _
          λ _. saved-StoredPosted id _ _ refl

post_document-StoredPosted :
    (clock : Clock) (id : ℕ) (w : Warehouse) → Ensures (StoredPosted id) (post_document clock id) w
unfolding post_document
post_document-StoredPosted clock id w =
    Ensures-gets (λ v. lookup id v.documents) _ w
      (Ensures-or_raise (lookup id w.documents) not_found _ w
        λ doc e. post_by_status-StoredPosted clock id doc doc.status w e refl)

-- The answers about a document that is no draft.
abbrev post_answer : Document → DocStatus → Result Document
post_answer doc posted = ok doc
post_answer doc _ = err invalid_status_transition

abbrev cancel_answer : Document → DocStatus → Result Document
cancel_answer doc posted = err invalid_warehouse_document
cancel_answer doc _ = ok doc

post_answer_posted : (doc : Document) (s : DocStatus) → s ≡ posted → post_answer doc s ≡ ok doc
post_answer_posted doc posted h = refl
post_answer_posted doc draft h = cc
post_answer_posted doc cancelled h = cc

not_draft : (s : DocStatus) → s ≡ posted → s ≢ draft
not_draft s h e = cc

-- What each operation does with a document that is no draft.
post_final :
    (clock : Clock) (id : ℕ) (doc : Document) (s : DocStatus) (w : Warehouse)
    → s ≢ draft
    → post_by_status clock id doc s w ≡ (post_answer doc s, w)
unfolding post_by_status ◌>>=◌
post_final clock id doc draft w h = absurd (h refl)
post_final clock id doc posted w h = refl
post_final clock id doc cancelled w h = refl

cancel_final :
    (id : ℕ) (doc : Document) (s : DocStatus) (w : Warehouse)
    → s ≢ draft
    → cancel_by_status id doc s w ≡ (cancel_answer doc s, w)
unfolding cancel_by_status assert_mutable ◌>>=◌
cancel_final id doc draft w h = absurd (h refl)
cancel_final id doc posted w h = refl
cancel_final id doc cancelled w h = refl

assert_final :
    {A : Type 0} (s : DocStatus) (m : Exec Warehouse A) (w : Warehouse)
    → s ≢ draft
    → (assert_mutable s >> m) w ≡ (err invalid_warehouse_document, w)
unfolding assert_mutable ◌>>=◌
assert_final draft m w h = absurd (h refl)
assert_final posted m w h = refl
assert_final cancelled m w h = refl

module _ (id : ℕ) (doc : Document) (w : Warehouse) (found : lookup id w.documents ≡ some doc) where
  -- A method that looks the document up goes on with it.
  pub with_found :
      {A : Type 0} (m : Document → Exec Warehouse A)
      → (gets (λ v. lookup id v.documents) >>= λ o. or_raise o not_found >>= m) w ≡ m doc w
  unfolding ◌>>=◌
  with_found m = rw (found, or_raise)

-- A document that is posted or cancelled is final: posting it, updating it and cancelling it all
-- leave every table as it is. Posting a posted one and cancelling a cancelled one return it, and
-- the other calls raise.
pub final_document :
    (clock : Clock) (id : ℕ) (body : DocumentBody) (doc : Document) (w : Warehouse)
    → lookup id w.documents ≡ some doc
    → doc.status ≢ draft
    → (post_document clock id w ≡ (post_answer doc doc.status, w))
      × (update_document id body w ≡ (err invalid_warehouse_document, w))
      × (cancel_document id w ≡ (cancel_answer doc doc.status, w))
unfolding post_document update_document cancel_document
final_document clock id body doc w found h = (
  with_found id doc w found _ ∙ post_final clock id doc doc.status w h,
  with_found id doc w found _ ∙ assert_final doc.status _ w h,
  with_found id doc w found _ ∙ cancel_final id doc doc.status w h,
)

-- Posting is idempotent: once a call has returned, a second one, at any time, returns the same
-- document and changes nothing.
pub post_document_twice :
    (clock clock' : Clock) (id : ℕ) (doc : Document) (w : Warehouse)
    → (post_document clock id w).0 ≡ ok doc
    → post_document clock' id (post_document clock id w).1 ≡ (ok doc, (post_document clock id w).1)
unfolding post_document
post_document_twice clock clock' id doc w e =
    let (stored, status) = (post_document-StoredPosted clock id w).holds doc e in
    with_found id doc (post_document clock id w).1 stored _
    ∙ post_final clock' id doc doc.status _ (not_draft doc.status status)
    ∙ ap (λ r. (r, (post_document clock id w).1)) (post_answer_posted doc doc.status status)
