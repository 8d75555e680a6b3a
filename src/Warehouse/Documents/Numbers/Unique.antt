-- ===== src/Warehouse/Documents/Numbers/Unique.antt =====
-- No two documents bear one number: `_allocate_document_number` with the atomic counter.
use ifg.Warehouse.Documents.Numbers.Sequence.{
  last_of, document_number-injective, allocate-next, last_of-allocate, same_type-eq, same_type_refl,
}
use native.Mathlib.Nat.{le_trans}
use ifg.Base.{
  ℕ, ◌+◌, ◌≤◌, ◌<◌, All-append, ◌&&◌, some, none, List, [], ◌∷◌, ◌++◌, ◌==◌, ◌≡◌, inl, inr, refl,
  sym, ◌∙◌, arith, Bool-cases,
}
use ifg.Base.Dict.{
  Dict, lookup, insert, lookup-insert_cases, lookup-append, Below, Below-le, Below-Lacks,
  Below-insert, lookup-Lacks, lookup-Below,
}
use ifg.Warehouse.Rows.{Document, DocType, NumberSeq, Warehouse}
use ifg.Warehouse.Repository.{allocate_next_sequence, same_type}
use ifg.Warehouse.Posting.{document_number}

-- Each number that a document bears has come out of the sequence of its type, and no other
-- document bears it.
pub record Numbering (n : ℕ) (ds : Dict Document) (sq : List NumberSeq) : Type 0 where
  pub keys : Below n ds
  pub issued :
      (k : ℕ) (d : Document) (text : List ℕ)
      → lookup k ds ≡ some d
      → d.number ≡ some text
      → (y : ℕ) × (s : ℕ) × (text ≡ document_number d.doc_type y s) × (s ≤ last_of d.doc_type y sq)
  pub unique :
      (k k' : ℕ) (d d' : Document) (text : List ℕ)
      → lookup k ds ≡ some d
      → lookup k' ds ≡ some d'
      → d.number ≡ some text
      → d'.number ≡ some text
      → k ≡ k'

abbrev pub IsNumbered : Warehouse → Type 0
IsNumbered w = Numbering w.next_id w.documents w.sequences

module _ (n : ℕ) (ds : Dict Document) (sq : List NumberSeq) (h : Numbering n ds sq) where
  -- More keys have been given out.
  pub Numbering-later : (m : ℕ) → n ≤ m → Numbering m ds sq
  Numbering-later m le = record {
    keys = Below-le n m ds le h.keys;
    issued = h.issued;
    unique = h.unique;
  }

  module _ (id : ℕ) (old new : Document) (found : lookup id ds ≡ some old)
      (number : new.number ≡ old.number) (type : new.doc_type ≡ old.doc_type) where
    -- The old row under the key has the same number and type.
    before :
        (k : ℕ) (d : Document)
        → lookup k (insert id new ds) ≡ some d
        → (o : Document) × (lookup k ds ≡ some o)
          × (d.number ≡ o.number)
          × (d.doc_type ≡ o.doc_type)
    before k d e = elim (lookup-insert_cases k id new ds e) [
      | inl (here, same) ↦ (old, ground arith, ground arith, ground arith)
      | inr (other, there) ↦ (d, there, refl, refl)
    ]

    -- A write that leaves number and type alone.
    pub Numbering-rewrite : (m : ℕ) → n ≤ m → Numbering m (insert id new ds) sq
    Numbering-rewrite m le = record {
      keys =
          Below-le n m (insert id new ds) le
            (Below-insert n id new ds h.keys (lookup-Below n id old ds h.keys found));
      issued = λ k d text e f.
          let (o, at, num, ty) = before k d e in
          let (y, s, made, last) = h.issued k o text at (sym num ∙ f) in
          (y, s, rw ty made, rw ty last);
      unique = λ k k' d d' text e e' f f'.
          let (o, at, num, ty) = before k d e in
          let (o', at', num', ty') = before k' d' e' in
          h.unique k k' o o' text at at' (sym num ∙ f) (sym num' ∙ f');
    }

  appended :
      (k : ℕ) (new d : Document) (text : List ℕ)
      → new.number ≡ none
      → lookup k (ds ++ (n, new) ∷ []) ≡ some d
      → d.number ≡ some text
      → lookup k ds ≡ some d
  appended k new d text fresh e f =
      let rows = lookup-append n k new ds (lookup-Lacks n ds (Below-Lacks n ds h.keys)) in
      ground arith

  -- A new draft bears no number.
  pub Numbering-append :
      (m : ℕ) (new : Document)
      → n + 1 ≤ m
      → new.number ≡ none
      → Numbering m (ds ++ (n, new) ∷ []) sq
  Numbering-append m new le fresh = record {
    keys =
        All-append (λ e. e.0 < m) ds ((n, new) ∷ []) (Below-le n m ds (omega arith) h.keys)
          (omega arith, tt);
    issued = λ k d text e f. h.issued k d text (appended k new d text fresh e f) f;
    unique = λ k k' d d' text e e' f f'.
        h.unique k k' d d' text (appended k new d text fresh e f)
          (appended k' new d' text fresh e' f') f f';
  }

  -- The sequences only grow.
  last_grows :
      (t u : DocType) (year y : ℕ)
      → last_of u y sq ≤ last_of u y (allocate_next_sequence t year sq).1
  last_grows t u year y =
      let moved = last_of-allocate t u year y sq in
      let next = allocate-next t year sq in
      elim (Bool-cases (same_type u t && y == year)) [
        | inl same ↦
            let same_t : u ≡ t = ground (arith, same_type-eq u t) in
            let same_y : y ≡ year = ground arith in grind arith
        | inr other ↦ grind arith
      ]

  -- Posting writes a number that no document bears yet.
  module _ (id : ℕ) (old new : Document) (year : ℕ) (found : lookup id ds ≡ some old)
      (number : new.number
        ≡ some (document_number old.doc_type year (allocate_next_sequence old.doc_type year sq).0))
      (type : new.doc_type ≡ old.doc_type) where
    fresh_number :
        (k : ℕ) (d : Document) (text : List ℕ)
        → lookup k ds ≡ some d
        → d.number ≡ some text
        → new.number ≡ some text
        → ⊥
    fresh_number k d text e f g =
        let (y, s, made, last) = h.issued k d text e f in
        let same : document_number d.doc_type y s
            ≡ document_number old.doc_type year (allocate_next_sequence old.doc_type year sq).0 =
          cc in
        let (t, yy, ss) =
          document_number-injective d.doc_type old.doc_type y year s
            (allocate_next_sequence old.doc_type year sq).0 same in
        let bound : s ≤ last_of old.doc_type year sq = rw (← t, ← yy) last in
        absurd (omega (arith, allocate-next old.doc_type year sq))

    pub Numbering-post :
        (m : ℕ)
        → n ≤ m
        → Numbering m (insert id new ds) (allocate_next_sequence old.doc_type year sq).1
    Numbering-post m le = record {
      keys =
          Below-le n m (insert id new ds) le
            (Below-insert n id new ds h.keys (lookup-Below n id old ds h.keys found));
      issued = λ k d text e f. elim (lookup-insert_cases k id new ds e) [
        | inl (here, same) ↦
            let moved = last_of-allocate old.doc_type old.doc_type year year sq in
            let self = same_type_refl old.doc_type in
            let same_t : d.doc_type ≡ old.doc_type = cc in
            (year, (allocate_next_sequence old.doc_type year sq).0, cc, rw same_t (ground arith))
        | inr (other, there) ↦
            let (y, s, made, last) = h.issued k d text there f in
            (y, s, made, le_trans last (last_grows old.doc_type d.doc_type year y))
      ];
      unique = λ k k' d d' text e e' f f'. elim (lookup-insert_cases k id new ds e) [
        | inl (here, same) ↦ elim (lookup-insert_cases k' id new ds e') [
          | inl (here', same') ↦ here ∙ sym here'
          | inr (other', there') ↦ absurd (fresh_number k' d' text there' f' (rw same at f))
        ]
        | inr (other, there) ↦ elim (lookup-insert_cases k' id new ds e') [
          | inl (here', same') ↦ absurd (fresh_number k d text there f (rw same' at f'))
          | inr (other', there') ↦ h.unique k k' d d' text there there' f f'
        ]
      ];
    }
