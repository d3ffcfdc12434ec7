-- ===== src/Memories/Growth.antt =====
-- src/ssa/storage/memory_repository.py: add_evidence and add_link take no evidence away.
use mathlib.Core.Path.{subst, ◌∙◌}
use zero_hdsc.Base.{
  ℕ, String, ◌≡◌, refl, sym, Bool, ◌&&◌, List, [], ◌∷◌, Result, ok, err, inl, inr, Bool-cases, All,
  All-imp, and_then,
}
use zero_hdsc.Memories.{
  Memories, add_evidence, add_all_evidence, add_link, add_all_links, exists_memory,
}
use zero_hdsc.Memories.Evidence.{Evidenced, Evidenced-insert_evidence}

module _ {ℓ} {F I : Type ℓ} (known : String → Bool) where
  -- Each memory has a row of evidence that names an event of the ledger.
  abbrev pub IsEvidenced : Memories F I → Type 0
  IsEvidenced t = All (λ r. Evidenced known t.evidence r.id) t.rows

  -- The memories stay, and with them their evidence.
  abbrev pub Grows : Memories F I → Memories F I → Type ℓ
  Grows t t' =
      (t'.rows ≡ t.rows)
      × ((id : String) → Evidenced known t.evidence id → Evidenced known t'.evidence id)

  Grows-trans : (a b c : Memories F I) → Grows a b → Grows b c → Grows a c
  Grows-trans a b c (rows, keeps) (rows', keeps') = (rows' ∙ rows, λ id h. keeps' id (keeps id h))

  Grows-and_then {κ μ} :
      {A : Type κ} {B : Type μ} (t : Memories F I) (x : Result A × Memories F I)
      (f : A → Memories F I → Result B × Memories F I)
      → Grows t x.1
      → ((a : A) → Grows x.1 (f a x.1).1)
      → Grows t (and_then x f).1
  Grows-and_then t (err e, s) f h k = h
  Grows-and_then t (ok a, s) f h k = Grows-trans t s (f a s).1 h (k a)

  pub IsEvidenced-Grows : (t t' : Memories F I) → Grows t t' → IsEvidenced t → IsEvidenced t'
  IsEvidenced-Grows t t' (rows, keeps) h =
      subst (λ rs. All (λ r. Evidenced known t'.evidence r.id) rs) (sym rows)
        (All-imp _ _ t.rows (λ r. keeps r.id) h)

  pub add_evidence-Grows :
      (memory_id event_id relation : String) (t : Memories F I)
      → Grows t (add_evidence known memory_id event_id relation t).1
  unfolding add_evidence
  add_evidence-Grows memory_id event_id relation t =
      (refl, λ id h. Evidenced-insert_evidence known _ _ t.evidence id h)

  pub add_all_evidence-Grows :
      (memory_id : String) (ids : List String) (t : Memories F I)
      → Grows t (add_all_evidence known memory_id ids t).1
  unfolding add_all_evidence
  add_all_evidence-Grows memory_id [] t = (refl, λ id h. h)
  add_all_evidence-Grows memory_id (event_id ∷ ids) t =
      let first = add_evidence known memory_id event_id "supports" t in
      Grows-and_then t first (λ _ t'. add_all_evidence known memory_id ids t')
        (add_evidence-Grows memory_id event_id "supports" t)
        (λ _. add_all_evidence-Grows memory_id ids first.1)

  pub add_link-Grows :
      (is_weight : F → Bool) (source target link_type : String) (weight : F) (now : ℕ)
      (t : Memories F I)
      → Grows t (add_link is_weight source target link_type weight now t).1
  unfolding add_link
  add_link-Grows is_weight source target link_type weight now t =
      elim (Bool-cases (is_weight weight)) [
        | inl w ↦ elim (Bool-cases (exists_memory t source && exists_memory t target)) [
          | inl e ↦ rw (w, e) (refl, λ id h. h)
          | inr e ↦ rw (w, e) (refl, λ id h. h)
        ]
        | inr w ↦ rw w (refl, λ id h. h)
      ]

  pub add_all_links-Grows :
      (is_weight : F → Bool) (source : String) (links : List (String × (String × (F × ℕ))))
      (t : Memories F I)
      → Grows t (add_all_links is_weight source links t).1
  unfolding add_all_links
  add_all_links-Grows is_weight source [] t = (refl, λ id h. h)
  add_all_links-Grows is_weight source ((target, (link_type, (weight, now))) ∷ links) t =
      let first = add_link is_weight source target link_type weight now t in
      Grows-and_then t first (λ _ t'. add_all_links is_weight source links t')
        (add_link-Grows is_weight source target link_type weight now t)
        (λ _. add_all_links-Grows is_weight source links first.1)
