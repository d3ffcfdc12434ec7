-- ===== src/Memories/Provenance.antt =====
-- src/ssa/storage/memory_repository.py: the evidence of the memories, over any calls.
use mathlib.Core.Path.{subst, ◌∙◌}
use zero_hdsc.Base.{
  ℕ, String, ◌≡◌, refl, sym, Bool, true, false, not, List, [], ◌∷◌, ◌++◌, arith, str_eq, Result, ok,
  err, inl, inr, Bool-cases, All, All-append, select, insert_row-cases, All-imp, All-update_where,
  and_then, and_then-ok, savepoint,
}
use zero_hdsc.Domain.Memories.{Memory}
use zero_hdsc.Rows.Memories.{memory_row}
use zero_hdsc.Memories.{
  Added, Outside, Memories, add_evidence, add_all_evidence, add_link, add_all_links, update_status,
  increment_access, indexed, insert, write_bundle, insert_bundle, has_any,
}
use zero_hdsc.Memories.Evidence.{Evidenced, insert_evidence-Evidenced}
use zero_hdsc.Memories.Calls.{
  Call, insert_bundle_of, add_evidence_of, add_link_of, update_status_of, increment_access_of,
  respond, run,
}
use zero_hdsc.Memories.Growth.{
  IsEvidenced, IsEvidenced-Grows, add_evidence-Grows, add_all_evidence-Grows, add_link-Grows,
  add_all_links-Grows,
}

has_any-head :
    (known : String → Bool) (id : String) (ids : List String)
    → has_any (select (λ x. not (known x)) (id ∷ ids)) ≡ false
    → known id ≡ true
unfolding select
has_any-head known id ids h = elim (Bool-cases (known id)) [
  | inl e ↦ e
  | inr e ↦ ground (arith, e, h)
]

module _ {ℓ} {F I : Type ℓ} (known : String → Bool) where
  add_evidence-Evidenced :
      (memory_id event_id relation : String) (t : Memories F I)
      → known event_id ≡ true
      → (add_evidence known memory_id event_id relation t).0 ≡ ok tt
      → Evidenced known (add_evidence known memory_id event_id relation t).1.evidence memory_id
  unfolding add_evidence
  add_evidence-Evidenced memory_id event_id relation t k h =
      insert_evidence-Evidenced known _ _ t.evidence k h

  add_all_evidence-Evidenced :
      (memory_id : String) (ids : List String) (t : Memories F I)
      → has_any ids ≡ true
      → has_any (select (λ x. not (known x)) ids) ≡ false
      → (add_all_evidence known memory_id ids t).0 ≡ ok tt
      → Evidenced known (add_all_evidence known memory_id ids t).1.evidence memory_id
  unfolding add_all_evidence
  add_all_evidence-Evidenced memory_id [] t some_id k h = cc
  add_all_evidence-Evidenced memory_id (id ∷ ids) t some_id k h =
      let first = add_evidence known memory_id id "supports" t in
      let (_, (done, (same, _))) =
        and_then-ok first (λ _ t'. add_all_evidence known memory_id ids t') tt h in
      rw same (
        (add_all_evidence-Grows known memory_id ids first.1).1 memory_id
          (add_evidence-Evidenced memory_id id "supports" t (has_any-head known id ids k) done))

module _ {ℓ} {F E I : Type ℓ} (o : Outside F E I) (known : String → Bool) where
  indexed-rows :
      (memory : Memory F) (result : Added I) (t : Memories F I)
      → ((indexed o memory result t).1.rows ≡ t.rows)
        × ((indexed o memory result t).1.evidence ≡ t.evidence)
  indexed-rows memory (Added.added index) t = (refl, refl)
  indexed-rows memory Added.operational_error t = (refl, refl)
  indexed-rows memory (Added.raised e) t = (refl, refl)

  insert-rows :
      (memory : Memory F) (embedding : E) (t : Memories F I) (m : Memory F)
      → (insert o memory embedding t).0 ≡ ok m
      → ((insert o memory embedding t).1.rows
          ≡ t.rows ++ memory_row (o.vec_rowid memory.id) memory ∷ [])
        × ((insert o memory embedding t).1.evidence ≡ t.evidence)
  unfolding insert
  insert-rows memory embedding t m h =
      let row = memory_row (o.vec_rowid memory.id) memory in
      elim (insert_row-cases (λ r. str_eq r.id memory.id) true row t.rows) [
        | inl e ↦ rw e (
            indexed-rows memory (o.add (o.vec_rowid memory.id) embedding t.index)
              (record t { rows = t.rows ++ row ∷ [] }))
        | inr (problem, e) ↦
            let wrong : err problem ≡ ok m =
              subst
                (λ x.
                  (and_then (x.0, record t { rows = x.1 })
                    (λ _ t'.
                      indexed o memory (o.add (o.vec_rowid memory.id) embedding t'.index) t')).0
                  ≡ ok m)
                e h in
            cc
      ]

  write_bundle-IsEvidenced :
      (memory : Memory F) (embedding : E) (ids : List String)
      (links : List (String × (String × (F × ℕ)))) (t : Memories F I) (m : Memory F)
      → has_any ids ≡ true
      → has_any (select (λ x. not (known x)) ids) ≡ false
      → (write_bundle o known memory embedding ids links t).0 ≡ ok m
      → IsEvidenced known t
      → IsEvidenced known (write_bundle o known memory embedding ids links t).1
  unfolding write_bundle memory_row
  write_bundle-IsEvidenced memory embedding ids links t m some_id all_known h old =
      let t1 = insert o memory embedding t in
      let t2 = add_all_evidence known memory.id ids t1.1 in
      let t3 = add_all_links o.is_weight memory.id links t2.1 in
      let (_, (inserted, (same1, h1))) = and_then-ok t1 _ m h in
      let (_, (supported, (same2, h2))) = and_then-ok t2 _ m h1 in
      let (_, (linked, (same3, h3))) = and_then-ok t3 _ m h2 in
      let (rows, evidence) = insert-rows memory embedding t _ inserted in
      let grown = add_all_evidence-Grows known memory.id ids t1.1 in
      let new = add_all_evidence-Evidenced known memory.id ids t1.1 some_id all_known supported in
      let kept : All (λ r. Evidenced known t2.1.evidence r.id) t.rows =
        All-imp _ _ t.rows
          (λ r k. grown.1 r.id (subst (λ e. Evidenced known e r.id) (sym evidence) k)) old in
      let all : IsEvidenced known t2.1 =
        subst (λ rs. All (λ r. Evidenced known t2.1.evidence r.id) rs) (sym (grown.0 ∙ rows))
          (All-append _ t.rows (memory_row (o.vec_rowid memory.id) memory ∷ []) kept (new, tt)) in
      rw (same1, same2, same3)
        (IsEvidenced-Grows known t2.1 t3.1
          (add_all_links-Grows known o.is_weight memory.id links t2.1) all)

  -- What a call under a savepoint keeps, where it keeps it unless it raises.
  savepoint-keeps {κ μ} :
      {A : Type κ} (P : Memories F I → Type μ) (t : Memories F I) (x : Result A × Memories F I)
      → P t
      → ((a : A) → x.0 ≡ ok a → P x.1)
      → P (savepoint t x).1
  savepoint-keeps P t (ok a, s) h k = k a refl
  savepoint-keeps P t (err e, s) h k = h

  insert_bundle-IsEvidenced :
      (memory : Memory F) (embedding : E) (ids : List String)
      (links : List (String × (String × (F × ℕ)))) (t : Memories F I)
      → IsEvidenced known t
      → IsEvidenced known (insert_bundle o known memory embedding ids links t).1
  unfolding insert_bundle
  insert_bundle-IsEvidenced memory embedding ids links t old = elim (Bool-cases (has_any ids)) [
    | inl s ↦ elim (Bool-cases (has_any (select (λ x. not (known x)) ids))) [
      | inl k ↦ rw (s, k) old
      | inr k ↦
          rw (s, k)
            (savepoint-keeps (IsEvidenced known) t
              (write_bundle o known memory embedding ids links t) old
              (λ m h. write_bundle-IsEvidenced memory embedding ids links t m s k h old))
    ]
    | inr s ↦ rw s old
  ]

  respond-IsEvidenced :
      (call : Call F E) (t : Memories F I)
      → IsEvidenced known t
      → IsEvidenced known (respond o known call t)
  unfolding respond update_status increment_access
  respond-IsEvidenced (insert_bundle_of memory embedding ids links) t h =
      insert_bundle-IsEvidenced memory embedding ids links t h
  respond-IsEvidenced (add_evidence_of memory_id event_id relation) t h =
      IsEvidenced-Grows known t (add_evidence known memory_id event_id relation t).1
        (add_evidence-Grows known memory_id event_id relation t) h
  respond-IsEvidenced (add_link_of source target link_type weight now) t h =
      IsEvidenced-Grows known t (add_link o.is_weight source target link_type weight now t).1
        (add_link-Grows known o.is_weight source target link_type weight now t) h
  respond-IsEvidenced (update_status_of id status now) t h =
      All-update_where (λ r. Evidenced known t.evidence r.id) _ _ (λ r k. k) t.rows h
  respond-IsEvidenced (increment_access_of id now) t h =
      All-update_where (λ r. Evidenced known t.evidence r.id) _ _ (λ r k. k) t.rows h

  -- From tables in which each memory has a row of evidence that names an event of the ledger, any
  -- calls of insert_bundle, add_evidence, add_link, update_status and increment_access, those that
  -- raise included, lead to tables in which each memory has one.
  pub run-IsEvidenced :
      (calls : List (Call F E)) (t : Memories F I)
      → IsEvidenced known t
      → IsEvidenced known (run o known calls t)
  unfolding run
  run-IsEvidenced [] t h = h
  run-IsEvidenced (call ∷ calls) t h =
      run-IsEvidenced calls (respond o known call t) (respond-IsEvidenced call t h)
