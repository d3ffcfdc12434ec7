-- ===== src/SelfBeliefs/Appending.antt =====
-- insert_initial and append_if_version of src/ssa/storage/self_belief_repository.py add a version
-- at the end of its chain, or leave the store as it was.
use zero_hdsc.Base.{
  ℕ, ◌+◌, String, Bool, true, false, Option, none, some, List, [], ◌∷◌, ◌++◌, ◌≡◌, refl, sym, ap,
  ◌∙◌, arith, eq_iff, Result, Result-cases, ok, err, Error, find, select, Bool-cases, inl, inr,
  savepoint, after_check, insert_row-cases, ◌==◌,
}
use mathlib.Core.Path.{subst}
use zero_hdsc.Domain.SelfBeliefs.{SelfBelief}
use zero_hdsc.SelfBeliefs.{
  Store, insert_initial, append_if_version, insert_version, insert_new, insert_after, append_after,
  insert_all, latest, is_head, of_lineage, validate_initial, validate_successor, clashes,
  references_exist, evidence_rows,
}
use zero_hdsc.SelfBeliefs.Lineage.{
  IsInitial, IsSuccessor, IsChain, IsChain-append, head_of, newest-IsChain,
  validate_initial-IsInitial, validate_successor-IsSuccessor,
}

module _ {ℓ} {F : Type ℓ} where
  -- The versions of each lineage form a chain, in the order of their insertion.
  unfoldable pub IsSound : List (SelfBelief F) → Type 0
  IsSound rows = (lineage : String) → IsChain (select (of_lineage lineage) rows)

  -- What an operation of the repository does: it raises and leaves the store as it was, or the
  -- version comes in at the end, and `P` holds.
  pub data Outcome (P : Type ℓ) (b : SelfBelief F) (s : Store F)
      : Result (SelfBelief F) × Store F → Type ℓ where
    raises : (e : Error) → Outcome P b s (err e, s)
    adds : (s' : Store F) → P → s'.beliefs ≡ s.beliefs ++ b ∷ [] → Outcome P b s (ok b, s')

  -- What is known of the first version of a lineage when it comes in.
  pub record Starts (b : SelfBelief F) (s : Store F) : Type ℓ where
    pub initial : IsInitial b
    pub fresh : find (of_lineage b.lineage_id) s.beliefs ≡ none

  -- What is known of a next version when it comes in.
  pub record Continues (expected : ℕ) (b : SelfBelief F) (s : Store F) : Type ℓ where
    pub previous : SelfBelief F
    pub newest : latest s.beliefs b.lineage_id ≡ some previous
    pub version : previous.version ≡ expected
    pub next : IsSuccessor previous b

  -- What an operation that returns has done.
  pub returned :
      {P : Type ℓ} {b : SelfBelief F} {s : Store F} {r : Result (SelfBelief F) × Store F}
      → Outcome P b s r
      → (a : SelfBelief F) (s' : Store F) → r ≡ (ok a, s')
      → P × (s'.beliefs ≡ s.beliefs ++ b ∷ [])
  returned (raises e) a s' h = let no : err e ≡ ok a = ap (λ x. x.0) h in cc
  returned (adds s1 p e) a s' h =
      let same : s1 ≡ s' = ap (λ x. x.1) h in (p, ap (λ x. x.beliefs) (sym same) ∙ e)

  -- An operation that raises leaves the store as it was.
  pub unchanged :
      {P : Type ℓ} {b : SelfBelief F} {s : Store F} {r : Result (SelfBelief F) × Store F}
      → Outcome P b s r
      → (e : Error) (s' : Store F) → r ≡ (err e, s')
      → s' ≡ s
  unchanged (raises e1) e s' h = sym (ap (λ x. x.1) h)
  unchanged (adds s1 p k) e s' h = let no : ok _ ≡ err e = ap (λ x. x.0) h in cc

  pub select-append :
      (p : SelfBelief F → Bool) (rows : List (SelfBelief F)) (b : SelfBelief F)
      → p b ≡ true
      → select p (rows ++ b ∷ []) ≡ select p rows ++ b ∷ []
  unfolding select
  select-append p [] b h = rw h refl
  select-append p (r ∷ rows) b h = elim (Bool-cases (p r)) [
    | inl e ↦ rw (e, select-append p rows b h) refl
    | inr e ↦ rw (e, select-append p rows b h) refl
  ]

  select-append_other :
      (p : SelfBelief F → Bool) (rows : List (SelfBelief F)) (b : SelfBelief F)
      → p b ≡ false
      → select p (rows ++ b ∷ []) ≡ select p rows
  unfolding select
  select-append_other p [] b h = rw h refl
  select-append_other p (r ∷ rows) b h = ground (arith, select-append_other p rows b h)

  select-none :
      (p : SelfBelief F → Bool) (rows : List (SelfBelief F))
      → find p rows ≡ none
      → select p rows ≡ []
  unfolding find select
  select-none p [] h = refl
  select-none p (r ∷ rows) h = ground (arith, h, select-none p rows)

  append-IsSound :
      (rows : List (SelfBelief F)) (b : SelfBelief F)
      → IsSound rows
      → IsChain (select (of_lineage b.lineage_id) rows ++ b ∷ [])
      → IsSound (rows ++ b ∷ [])
  unfolding IsSound
  append-IsSound rows b h k lineage = elim (Bool-cases (of_lineage lineage b)) [
    | inl e ↦
        let same : b.lineage_id ≡ lineage = ground (arith, e, eq_iff b.lineage_id lineage) in
        rw (select-append (of_lineage lineage) rows b e)
          (subst (λ l. IsChain (select (of_lineage l) rows ++ b ∷ [])) same k)
    | inr e ↦ rw (select-append_other (of_lineage lineage) rows b e) (h lineage)
  ]

module _ {ℓ} {F : Type ℓ} (known : String → Bool) (P : Type ℓ) (b : SelfBelief F)
    (s : Store F) where
  insert_version-Outcome : P → Outcome P b s (savepoint s (insert_version known b s))
  unfolding insert_version
  insert_version-Outcome p =
      elim (insert_row-cases (clashes b) (references_exist known b s.beliefs) b s.beliefs) [
        | inl e ↦ elim (Result-cases (insert_all known (evidence_rows b) s.evidence).0) [
          | inl (u, f) ↦ rw (e, f) (adds _ p refl)
          | inr (problem, f) ↦ rw (e, f) (raises problem)
        ]
        | inr (problem, e) ↦ rw e (raises problem)
      ]

  insert_new-Outcome :
      (found : Option (SelfBelief F))
      → (found ≡ none → P)
      → Outcome P b s (savepoint s (insert_new known found b s))
  insert_new-Outcome none p = insert_version-Outcome (p refl)
  insert_new-Outcome (some old) p = raises _

  insert_after-Outcome :
      (found : Option (SelfBelief F)) (expected : ℕ)
      → P
      → Outcome P b s (savepoint s (insert_after known found expected b s))
  insert_after-Outcome none expected p = raises _
  insert_after-Outcome (some head) expected p = insert_version-Outcome p

  after_check-Outcome :
      (checked : Result (Unit {0})) (rest : Result (SelfBelief F) × Store F)
      → (checked ≡ ok tt → Outcome P b s rest)
      → Outcome P b s (after_check checked s rest)
  after_check-Outcome (ok u) rest h = h refl
  after_check-Outcome (err e) rest h = raises e

module _ {ℓ} {F : Type ℓ} where
  -- In a sound table, the newest version of a lineage ends its chain.
  pub newest-head :
      (lineage : String) (previous : SelfBelief F) (rows : List (SelfBelief F))
      → IsSound rows
      → latest rows lineage ≡ some previous
      → head_of (select (of_lineage lineage) rows) ≡ some previous
  unfolding IsSound latest
  newest-head lineage previous rows h e =
      sym (newest-IsChain (select (of_lineage lineage) rows) (h lineage)) ∙ e

module _ {ℓ} {F : Type ℓ} {b : SelfBelief F} {s : Store F} where
  initial_kept :
      IsSound s.beliefs
      → {r : Result (SelfBelief F) × Store F} → Outcome (Starts b s) b s r
      → IsSound r.1.beliefs
  initial_kept h (raises e) = h
  initial_kept h (adds s' p e) = rw e (
      append-IsSound s.beliefs b h
        (rw (select-none (of_lineage b.lineage_id) s.beliefs p.fresh) (p.initial, tt)))

  next_kept :
      {expected : ℕ}
      → IsSound s.beliefs
      → {r : Result (SelfBelief F) × Store F} → Outcome (Continues expected b s) b s r
      → IsSound r.1.beliefs
  unfolding IsSound
  next_kept h (raises e) = h
  next_kept h (adds s' p e) = rw e (
      append-IsSound s.beliefs b h (
        IsChain-append (select (of_lineage b.lineage_id) s.beliefs) p.previous b (h b.lineage_id)
          (newest-head b.lineage_id p.previous s.beliefs h p.newest) p.next))

module _ {ℓ} {F : Type ℓ} (known : String → Bool) where
  -- A first version comes in where the lineage has none.
  pub insert_initial-Outcome :
      (less : F → F → Bool) (most : F) (b : SelfBelief F) (s : Store F)
      → Outcome (Starts b s) b s (insert_initial known less most b s)
  unfolding insert_initial
  insert_initial-Outcome less most b s =
      after_check-Outcome known (Starts b s) b s (validate_initial less most b) _ (λ h.
        insert_new-Outcome known (Starts b s) b s (find (of_lineage b.lineage_id) s.beliefs)
          (λ f. record { initial = validate_initial-IsInitial less most b h; fresh = f }))

  append_after-Outcome :
      (found : Option (SelfBelief F)) (expected : ℕ) (b : SelfBelief F) (s : Store F)
      → latest s.beliefs b.lineage_id ≡ found
      → b.version ≡ expected + 1
      → Outcome (Continues expected b s) b s (append_after known found expected b s)
  append_after-Outcome none expected b s l v = raises _
  append_after-Outcome (some previous) expected b s l v =
      elim (Bool-cases (previous.version == expected)) [
        | inl e ↦ rw e (
            after_check-Outcome known (Continues expected b s) b s (validate_successor previous b) _
              (λ h.
                insert_after-Outcome known (Continues expected b s) b s
                  (find (is_head previous b.lineage_id expected s.beliefs) s.beliefs) expected
                  (let same : previous.version ≡ expected = ground (arith, e) in
                    record {
                      previous = previous;
                      newest = l;
                      version = same;
                      next = validate_successor-IsSuccessor previous b h (rw same v);
                    })))
        | inr e ↦ rw e (raises _)
      ]

  pub append_if_version-Outcome :
      (expected : ℕ) (b : SelfBelief F) (s : Store F)
      → Outcome (Continues expected b s) b s (append_if_version known expected b s)
  unfolding append_if_version
  append_if_version-Outcome expected b s = elim (Bool-cases (b.version == expected + 1)) [
    | inl v ↦
        rw v (
          append_after-Outcome (latest s.beliefs b.lineage_id) expected b s refl
            (ground (arith, v)))
    | inr v ↦ rw v (raises _)
  ]

  pub insert_initial-IsSound :
      (less : F → F → Bool) (most : F) (b : SelfBelief F) (s : Store F)
      → IsSound s.beliefs
      → IsSound (insert_initial known less most b s).1.beliefs
  insert_initial-IsSound less most b s h = initial_kept h (insert_initial-Outcome less most b s)

  pub append_if_version-IsSound :
      (expected : ℕ) (b : SelfBelief F) (s : Store F)
      → IsSound s.beliefs
      → IsSound (append_if_version known expected b s).1.beliefs
  append_if_version-IsSound expected b s h = next_kept h (append_if_version-Outcome expected b s)
