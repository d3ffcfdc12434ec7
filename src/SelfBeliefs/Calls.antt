-- ===== src/SelfBeliefs/Calls.antt =====
-- Any sequence of calls of SqliteSelfBeliefRepository, from the empty tables.
use zero_hdsc.Base.{
  is_in, ℕ, ◌+◌, String, Bool, true, false, some, List, [], ◌∷◌, ◌++◌, ◌≡◌, refl, sym, ap, ◌∙◌,
  ◌==◌, arith, Result, ok, err, Error, belief_conflict, select, All, eq_refl,
}
use mathlib.Core.Path.{subst}
use mathlib.Core.Option.{some-injective}
use zero_hdsc.Domain.SelfBeliefs.{SelfBelief}
use zero_hdsc.SelfBeliefs.{
  Store, is_subset, insert_initial, append_if_version, history, latest, of_lineage,
}
use zero_hdsc.SelfBeliefs.Lineage.{
  Follows, IsChain, head_of, last_of, oldest-IsChain, newest-IsChain,
}
use zero_hdsc.SelfBeliefs.Appending.{
  IsSound, returned, unchanged, select-append, insert_initial-Outcome, append_if_version-Outcome,
  insert_initial-IsSound, append_if_version-IsSound,
}

is_in-is_subset :
    (xs ys : List String)
    → ((x : String) → is_in x xs ≡ true → is_in x ys ≡ true)
    → is_subset xs ys ≡ true
unfolding is_in is_subset
is_in-is_subset [] ys h = refl
is_in-is_subset (x ∷ xs) ys h =
    let here : is_in x ys ≡ true = h x (rw (eq_refl x) refl) in
    rw here (is_in-is_subset xs ys (λ z k. h z (ground (arith, k))))

-- A call of the repository that writes.
pub data Call {ℓ} (F : Type ℓ) : Type ℓ where
  initial : SelfBelief F → Call F
  successor : ℕ → SelfBelief F → Call F

module _ {ℓ} {F : Type ℓ} where
  last-append :
      (a : SelfBelief F) (bs : List (SelfBelief F)) (b : SelfBelief F)
      → last_of a (bs ++ b ∷ []) ≡ b
  last-append a [] b = refl
  last-append a (x ∷ bs) b = last-append x bs b

  head-append : (bs : List (SelfBelief F)) (b : SelfBelief F) → head_of (bs ++ b ∷ []) ≡ some b
  head-append [] b = refl
  head-append (a ∷ bs) b = ap some (last-append a bs b)

  includes :
      (a : SelfBelief F) (bs : List (SelfBelief F)) (x : String)
      → Follows a bs
      → is_in x a.evidence_event_ids ≡ true
      → is_in x (last_of a bs).evidence_event_ids ≡ true
  includes a [] x h k = k
  includes a (b ∷ bs) x h k = includes b bs x h.1 (h.0.supported x k)

  abbrev pub Supports : SelfBelief F → SelfBelief F → Type 0
  Supports b a = is_subset a.evidence_event_ids b.evidence_event_ids ≡ true

  Supports-last_of :
      (a : SelfBelief F) (bs : List (SelfBelief F))
      → Follows a bs
      → All (Supports (last_of a bs)) (a ∷ bs)
  Supports-last_of a [] h =
      (is_in-is_subset a.evidence_event_ids a.evidence_event_ids (λ x k. k), tt)
  Supports-last_of a (b ∷ bs) h = (
    is_in-is_subset a.evidence_event_ids _ (λ x. includes a (b ∷ bs) x h),
    Supports-last_of b bs h.1,
  )

  IsChain-Supports :
      (bs : List (SelfBelief F)) (newest : SelfBelief F)
      → IsChain bs
      → head_of bs ≡ some newest
      → All (Supports newest) bs
  IsChain-Supports [] newest h e = tt
  IsChain-Supports (a ∷ bs) newest h e =
      subst (λ n. All (Supports n) (a ∷ bs)) (some-injective (last_of a bs) newest e)
        (Supports-last_of a bs h.1)

module _ {ℓ} {F : Type ℓ} (known : String → Bool) (less : F → F → Bool) (most : F) where
  abbrev pub respond : Call F → Store F → Result (SelfBelief F) × Store F
  respond (initial b) s = insert_initial known less most b s
  respond (successor expected b) s = append_if_version known expected b s

  abbrev pub apply : Call F → Store F → Store F
  apply c s = (respond c s).1

  abbrev pub run : List (Call F) → Store F → Store F
  run [] s = s
  run (c ∷ cs) s = run cs (apply c s)

  run_from-IsSound :
      (calls : List (Call F)) (s : Store F) → IsSound s.beliefs → IsSound (run calls s).beliefs
  run_from-IsSound [] s h = h
  run_from-IsSound (initial b ∷ cs) s h =
      run_from-IsSound cs (apply (initial b) s) (insert_initial-IsSound known less most b s h)
  run_from-IsSound (successor expected b ∷ cs) s h =
      run_from-IsSound cs (apply (successor expected b) s)
        (append_if_version-IsSound known expected b s h)

  -- The tables as they are after the calls.
  abbrev pub built : List (Call F) → Store F
  built calls = run calls (record { beliefs = []; evidence = [] })

  built-IsSound : (calls : List (Call F)) → IsSound (built calls).beliefs
  unfolding IsSound select
  built-IsSound calls = run_from-IsSound calls _ (λ lineage. tt)

  -- Whatever calls are made of the repository on empty tables, in any order and whether or not they
  -- raise, the history of each lineage is a chain. It starts with a candidate of version 1 without a
  -- predecessor, with at least two events. Each further version is one above the one before and
  -- linked to it, not earlier, changed by one of the allowed transitions, with all the events for and
  -- against it, and with another claim exactly where a challenged belief is revised. Each version
  -- has a cause, a model and a prompt version. The latest version is the last of the chain.
  pub history-IsChain :
      (calls : List (Call F)) (lineage : String)
      → IsChain (history (built calls).beliefs lineage)
        × (latest (built calls).beliefs lineage ≡ head_of (history (built calls).beliefs lineage))
  unfolding history latest IsSound
  history-IsChain calls lineage =
      let rows = select (of_lineage lineage) (built calls).beliefs in
      let chain : IsChain rows = built-IsSound calls lineage in
      rw (oldest-IsChain rows chain) (chain, newest-IsChain rows chain)

  -- A call that raises, of either operation, leaves both tables as they were.
  pub respond-atomic :
      (c : Call F) (s s' : Store F) (e : Error) → respond c s ≡ (err e, s') → s' ≡ s
  respond-atomic (initial b) s s' e h =
      unchanged (insert_initial-Outcome known less most b s) e s' h
  respond-atomic (successor expected b) s s' e h =
      unchanged (append_if_version-Outcome known expected b s) e s' h

  newest-append :
      (rows rows' : List (SelfBelief F)) (b : SelfBelief F)
      → IsSound rows'
      → rows' ≡ rows ++ b ∷ []
      → latest rows' b.lineage_id ≡ some b
  unfolding latest IsSound
  newest-append rows rows' b h e =
      newest-IsChain (select (of_lineage b.lineage_id) rows') (h b.lineage_id)
      ∙ rw e (
          rw (select-append (of_lineage b.lineage_id) rows b (eq_refl b.lineage_id))
            (head-append (select (of_lineage b.lineage_id) rows) b))

  -- Of two writers that read the same version of a lineage, the second one to append is refused:
  -- after an append that returned, on tables that any calls have built, one of another version with
  -- the same expected version raises the conflict and leaves the tables as the first one left them.
  pub append-conflict :
      (calls : List (Call F)) (expected : ℕ) (b c : SelfBelief F) (s' : Store F)
      → append_if_version known expected b (built calls) ≡ (ok b, s')
      → c.lineage_id ≡ b.lineage_id
      → c.version ≡ expected + 1
      → append_if_version known expected c s' ≡ (err (belief_conflict expected (expected + 1)), s')
  unfolding append_if_version
  append-conflict calls expected b c s' h l v =
      let done = returned (append_if_version-Outcome known expected b (built calls)) b s' h in
      let sound : IsSound s'.beliefs =
        subst (λ r. IsSound r.1.beliefs) h
          (append_if_version-IsSound known expected b (built calls) (built-IsSound calls)) in
      let newest : latest s'.beliefs c.lineage_id ≡ some b =
        rw l (newest-append (built calls).beliefs s'.beliefs b sound done.1) in
      let above : b.version ≡ expected + 1 = rw (sym done.0.version) done.0.next.version in
      let t1 : c.version == expected + 1 ≡ true = ground (arith, v) in
      let t2 : b.version == expected ≡ false = ground (arith, above) in
      rw (t1, newest, t2, above) refl

  -- Evidence is never lost: after any calls on empty tables, the events that support a version of a
  -- lineage all support its latest version.
  pub latest-keeps :
      (calls : List (Call F)) (lineage : String) (newest : SelfBelief F)
      → latest (built calls).beliefs lineage ≡ some newest
      → All
          (λ c. is_subset c.evidence_event_ids newest.evidence_event_ids ≡ true)
          (history (built calls).beliefs lineage)
  latest-keeps calls lineage newest h =
      let chain = history-IsChain calls lineage in
      IsChain-Supports (history (built calls).beliefs lineage) newest chain.0 (sym chain.1 ∙ h)
