-- ===== src/Learning/Versions.antt =====
-- Optimistic locking in src/ssa/storage/learning_repository.py: the versions of proposals, and the
-- savepoint of a decision.
use zero_hdsc.Base.{
  ℕ, ◌+◌, ◌==◌, String, Bool, true, false, ◌&&◌, List, [], ◌∷◌, ◌++◌, ◌≡◌, refl, sym, ap, ◌∙◌,
  arith, Result, Result-cases, ok, err, Error, changed, insert_row-cases, refers, update_where,
  updated, hit_one-table, value_error, rowcount-updated, update_where-updated, Bool-cases, inl, inr,
}
use zero_hdsc.Domain.Proposals.{LearningProposal, ConsolidationDecision}
use zero_hdsc.Learning.Proposals.{
  Reviews, update_proposal, append_decision, clashes, has_proposal, is_expected, updated_proposal,
}

module _ {ℓ} {F V : Type ℓ} where
  -- What `append_decision` does: it raises and leaves both tables as they were, or the decision comes
  -- in and the proposal is updated.
  pub data Decides (d : ConsolidationDecision F V) (expected : ℕ) (p : LearningProposal F V)
      (s : Reviews F V) : Result (LearningProposal F V) × Reviews F V → Type ℓ where
    raises : (e : Error) → Decides d expected p s (err e, s)
    decides :
        (a : LearningProposal F V)
        → (update_proposal expected p s.proposals).0 ≡ ok a
        → Decides d expected p s (
          ok a,
          record {
            proposals = (update_proposal expected p s.proposals).1;
            decisions = s.decisions ++ d ∷ [];
          },
        )

  pub append_decision-Decides :
      (known : String → String → Bool) (d : ConsolidationDecision F V) (expected : ℕ)
      (p : LearningProposal F V) (s : Reviews F V)
      → Decides d expected p s (append_decision known d expected p s)
  unfolding append_decision
  append_decision-Decides known d expected p s =
      elim (insert_row-cases (clashes d)
        (has_proposal s.proposals d.proposal_id && refers known "events" d.event_id) d
        s.decisions) [
          | inl e ↦ elim (Result-cases (update_proposal expected p s.proposals).0) [
            | inl (a, f) ↦ rw (e, f) (decides a f)
            | inr (problem, f) ↦ rw (e, f) (raises problem)
          ]
          | inr (problem, e) ↦ rw e (raises problem)
        ]

  Decides-unchanged :
      {d : ConsolidationDecision F V} {expected : ℕ} {p : LearningProposal F V} {s : Reviews F V}
      {r : Result (LearningProposal F V) × Reviews F V}
      → Decides d expected p s r
      → (e : Error) (s' : Reviews F V) → r ≡ (err e, s')
      → s' ≡ s
  Decides-unchanged (raises e1) e s' h = sym (ap (λ x. x.1) h)
  Decides-unchanged (decides a k) e s' h = let no : ok a ≡ err e = ap (λ x. x.0) h in cc

  -- A decision and the update of its proposal are written together: where `append_decision` raises,
  -- for a decision that is there already or a proposal that changed concurrently, it leaves both
  -- tables as they were.
  pub append_decision-atomic :
      (known : String → String → Bool) (d : ConsolidationDecision F V) (expected : ℕ)
      (p : LearningProposal F V) (s s' : Reviews F V) (e : Error)
      → append_decision known d expected p s ≡ (err e, s')
      → s' ≡ s
  append_decision-atomic known d expected p s s' e h =
      Decides-unchanged (append_decision-Decides known d expected p s) e s' h

  update_table :
      (expected : ℕ) (p : LearningProposal F V) (rows : List (LearningProposal F V))
      → p.version == expected + 1 ≡ true
      → (update_proposal expected p rows).1
        ≡ update_where (is_expected expected p) (updated_proposal p) rows
  unfolding update_proposal
  update_table expected p rows e = rw e (hit_one-table _ p _ _)

  -- What an update that returned has done.
  update_proposal-ok :
      (expected : ℕ) (p a : LearningProposal F V) (rows rows' : List (LearningProposal F V))
      → update_proposal expected p rows ≡ (ok a, rows')
      → (p.version ≡ expected + 1)
        × (rows' ≡ update_where (is_expected expected p) (updated_proposal p) rows)
  unfolding update_proposal
  update_proposal-ok expected p a rows rows' h = elim (Bool-cases (p.version == expected + 1)) [
    | inl e ↦ (ground (arith, e), sym (ap (λ x. x.1) h) ∙ update_table expected p rows e)
    | inr e ↦
        let raised : (update_proposal expected p rows).0
            ≡ err (value_error "learning proposal version must increment by one") =
          rw e refl in
        let got : (update_proposal expected p rows).0 ≡ ok a = ap (λ x. x.0) h in
        let no : ⊥ = cc in elim no [ ]
  ]

  -- No row is at the expected version after the update.
  passed_by :
      (expected : ℕ) (p q r : LearningProposal F V)
      → p.version ≡ expected + 1
      → q.id ≡ p.id
      → q.conversation_id ≡ p.conversation_id
      → is_expected expected q (updated (is_expected expected p) (updated_proposal p) r) ≡ false
  passed_by expected p q r v i c = elim (Bool-cases (is_expected expected p r)) [
    | inl e ↦ rw e (ground (arith, v))
    | inr e ↦ rw e (rw (i, c) e)
  ]

  -- Of two writers that read the same version of a proposal, the second one to write is refused:
  -- after an update that returned, one of the same proposal from the same expected version raises
  -- the conflict and leaves the table as the first one left it.
  pub update_proposal-conflict :
      (expected : ℕ) (p q : LearningProposal F V) (rows rows' : List (LearningProposal F V))
      → update_proposal expected p rows ≡ (ok p, rows')
      → q.id ≡ p.id
      → q.conversation_id ≡ p.conversation_id
      → q.version ≡ expected + 1
      → update_proposal expected q rows' ≡ (err (changed "learning proposal" q.id), rows')
  unfolding update_proposal
  update_proposal-conflict expected p q rows rows' h i c v =
      let (pv, e) = update_proposal-ok expected p p rows rows' h in
      let none_left : (r : LearningProposal F V)
          → is_expected expected q (updated (is_expected expected p) (updated_proposal p) r)
            ≡ false =
        λ r. passed_by expected p q r pv i c in
      let t : q.version == expected + 1 ≡ true = ground (arith, v) in
      rw
        (
          t,
          e,
          rowcount-updated (is_expected expected p) (is_expected expected q) (updated_proposal p)
              (updated_proposal q) rows none_left,
          update_where-updated (is_expected expected p) (is_expected expected q)
              (updated_proposal p) (updated_proposal q) rows none_left,
        )
        refl
