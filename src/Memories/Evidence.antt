-- ===== src/Memories/Evidence.antt =====
-- src/ssa/storage/memory_repository.py: the statement of add_evidence, and what it leaves.
use mathlib.Core.Path.{◌∙◌}
use zero_hdsc.Base.{
  String, ◌≡◌, refl, sym, ap, Bool, true, false, ◌&&◌, some, List, [], ◌∷◌, ◌++◌, arith, str_eq,
  eq_iff, eq_refl, ok, err, inl, inr, Error, ◌⊎◌, integrity_error, Bool-cases, Option-cases, find,
  find-append_some, find-append_new,
}
use zero_hdsc.Memories.{EvidenceRow, same_evidence, insert_evidence}

-- What an INSERT OR IGNORE comes to: the row is there, it comes in, or it is refused.
insert_evidence-cases :
    (foreign : Bool) (row : EvidenceRow) (evidence : List EvidenceRow)
    → ((insert_evidence foreign row evidence ≡ (ok tt, evidence))
        × ((r : EvidenceRow) × (find (same_evidence row) evidence ≡ some r)))
      ⊎ ((insert_evidence foreign row evidence ≡ (ok tt, evidence ++ row ∷ []))
          ⊎ ((e : Error) × (insert_evidence foreign row evidence ≡ (err e, evidence))))
unfolding insert_evidence
insert_evidence-cases foreign row evidence =
    elim (Option-cases (find (same_evidence row) evidence)) [
      | inl e ↦ elim (Bool-cases foreign) [
        | inl f ↦ inr (inl (rw (e, insert_evidence) (rw f refl)))
        | inr f ↦ inr (
            inr (
              integrity_error "FOREIGN KEY constraint failed",
              rw (e, insert_evidence) (rw f refl),
            ))
      ]
      | inr (r, e) ↦ inl (rw (e, insert_evidence) refl, (r, e))
    ]

module _ (known : String → Bool) where
  abbrev supports : String → EvidenceRow → Bool
  supports id e = str_eq e.memory_id id && known e.event_id

  -- A row of evidence names the memory and an event of the ledger.
  abbrev pub Evidenced : List EvidenceRow → String → Type 0
  Evidenced evidence id = (e : EvidenceRow) × (find (supports id) evidence ≡ some e)

  Evidenced-append :
      (evidence : List EvidenceRow) (x : EvidenceRow) (id : String)
      → Evidenced evidence id
      → Evidenced (evidence ++ x ∷ []) id
  Evidenced-append evidence x id (e, h) = (e, find-append_some (supports id) evidence x e h)

  Evidenced-last :
      (row : EvidenceRow) (evidence : List EvidenceRow)
      → known row.event_id ≡ true
      → Evidenced (evidence ++ row ∷ []) row.memory_id
  Evidenced-last row evidence k =
      let own : supports row.memory_id row ≡ true = rw (eq_refl row.memory_id, k) refl in
      elim (Option-cases (find (supports row.memory_id) evidence)) [
        | inl e ↦ (row, find-append_new (supports row.memory_id) evidence row e own)
        | inr found ↦ Evidenced-append evidence row row.memory_id found
      ]

  pub Evidenced-insert_evidence :
      (foreign : Bool) (row : EvidenceRow) (evidence : List EvidenceRow) (id : String)
      → Evidenced evidence id
      → Evidenced (insert_evidence foreign row evidence).1 id
  Evidenced-insert_evidence foreign row evidence id h =
      elim (insert_evidence-cases foreign row evidence) [
        | inl (e, _) ↦ rw e h
        | inr (inl e) ↦ rw e (Evidenced-append evidence row id h)
        | inr (inr (_, e)) ↦ rw e h
      ]

  -- A row that a lookup by a narrower condition finds.
  find-weaker :
      (p q : EvidenceRow → Bool) (evidence : List EvidenceRow) (r : EvidenceRow)
      → ((x : EvidenceRow) → p x ≡ true → q x ≡ true)
      → find p evidence ≡ some r
      → (e : EvidenceRow) × (find q evidence ≡ some e)
  unfolding find
  find-weaker p q [] r imp h = cc
  find-weaker p q (x ∷ evidence) r imp h = elim (Bool-cases (q x)) [
    | inl t ↦ (x, rw t refl)
    | inr f ↦
        let no : p x ≡ false = ground (arith, f, imp x) in
        let (e, k) = find-weaker p q evidence r imp (ground (arith, no, h)) in (e, rw f k)
  ]

  same_evidence-supports :
      (row : EvidenceRow)
      → known row.event_id ≡ true
      → (x : EvidenceRow) → same_evidence row x ≡ true
      → supports row.memory_id x ≡ true
  same_evidence-supports row k x h =
      let m : str_eq x.memory_id row.memory_id ≡ true = ground (arith, h) in
      let v : str_eq x.event_id row.event_id ≡ true = ground (arith, h) in
      let t : known x.event_id ≡ true = rw ((eq_iff x.event_id row.event_id).0 v) k in
      rw (m, t) refl

  -- What an INSERT OR IGNORE that raises nothing leaves.
  pub insert_evidence-Evidenced :
      (foreign : Bool) (row : EvidenceRow) (evidence : List EvidenceRow)
      → known row.event_id ≡ true
      → (insert_evidence foreign row evidence).0 ≡ ok tt
      → Evidenced (insert_evidence foreign row evidence).1 row.memory_id
  insert_evidence-Evidenced foreign row evidence k h =
      elim (insert_evidence-cases foreign row evidence) [
        | inl (e, (r, found)) ↦ rw e (
            find-weaker (same_evidence row) (supports row.memory_id) evidence r
              (same_evidence-supports row k) found)
        | inr (inl e) ↦ rw e (Evidenced-last row evidence k)
        | inr (inr (problem, e)) ↦ let wrong : err problem ≡ ok tt = ap (λ x. x.0) (sym e) ∙ h in cc
      ]
