-- ===== src/Learning/Proposals.antt =====
-- SqliteLearningRepository of src/ssa/storage/learning_repository.py: the tables
-- `learning_proposals` and `consolidation_decisions`. `known` is the foreign keys to other tables.
use zero_hdsc.Base.{
  ℕ, ◌+◌, String, Bool, true, false, ◌&&◌, ◌||◌, Option, none, some, List, [], ◌∷◌, ltb, leb, ◌==◌,
  if◌then◌else◌, str_eq, take, Result, ok, err, and_then, savepoint, changed, value_error, find,
  select, update_where, rowcount, order_by, insert_row, returning, refers, hit_one,
}
use zero_hdsc.Domain.Runs.{ReflectionRun, ReflectionRunStatus}
use zero_hdsc.Domain.Proposals.{
  LearningProposal, LearningProposalStatus, LearningProposalType, ConsolidationDecision,
  proposal_status_value, proposal_type_value,
}
use zero_hdsc.Learning.Runs.{get_run, has_status}

module _ {ℓ} {F V : Type ℓ} where
  unfoldable pub get_proposal : List (LearningProposal F V) → String → Option (LearningProposal F V)
  get_proposal rows id = find (λ r. str_eq r.id id) rows

  unfoldable pub find_proposal_by_dedup :
      List (LearningProposal F V) → String → Option (LearningProposal F V)
  find_proposal_by_dedup rows key = find (λ r. str_eq r.dedup_key key) rows

  -- The insert that follows the lookup of the run.
  abbrev pub insert_for_run :
      Option (ReflectionRun F V)
      → LearningProposal F V
      → List (LearningProposal F V)
      → Result (LearningProposal F V) × List (LearningProposal F V)
  insert_for_run none proposal rows =
      (err (value_error "learning proposals require a completed reflection run"), rows)
  insert_for_run (some run) proposal rows =
      if has_status ReflectionRunStatus.completed run
      then if str_eq run.conversation_id proposal.conversation_id
        then returning proposal (insert_row (λ r. str_eq r.id proposal.id) true proposal rows)
        else (err (value_error "proposal conversation must match its reflection run"), rows)
      else (err (value_error "learning proposals require a completed reflection run"), rows)

  abbrev pub insert_new_proposal :
      List (ReflectionRun F V)
      → Option (LearningProposal F V)
      → LearningProposal F V
      → List (LearningProposal F V)
      → Result (LearningProposal F V) × List (LearningProposal F V)
  insert_new_proposal runs (some old) proposal rows = (ok old, rows)
  insert_new_proposal runs none proposal rows =
      insert_for_run (get_run runs proposal.run_id) proposal rows

  -- The unique dedup_key cannot fail after the lookup, nor the reference to the run.
  unfoldable pub insert_proposal :
      List (ReflectionRun F V)
      → LearningProposal F V
      → List (LearningProposal F V)
      → Result (LearningProposal F V) × List (LearningProposal F V)
  insert_proposal runs proposal rows =
      insert_new_proposal runs (find_proposal_by_dedup rows proposal.dedup_key) proposal rows

  unfoldable pub proposals_for_run :
      List (LearningProposal F V) → String → List (LearningProposal F V)
  proposals_for_run rows run =
      order_by (λ a b. ltb a.created_at_ms b.created_at_ms) (select (λ r. str_eq r.run_id run) rows)

  abbrev pub in_statuses : List LearningProposalStatus → LearningProposal F V → Bool
  in_statuses [] proposal = false
  in_statuses (s ∷ statuses) proposal =
      str_eq (proposal_status_value proposal.status) (proposal_status_value s)
      || in_statuses statuses proposal

  abbrev pub of_type : Option LearningProposalType → LearningProposal F V → Bool
  of_type none proposal = true
  of_type (some t) proposal =
      str_eq (proposal_type_value proposal.proposal_type) (proposal_type_value t)

  -- ORDER BY updated_at_ms DESC, rowid DESC
  unfoldable pub list_proposals :
      List (LearningProposal F V)
      → String
      → List LearningProposalStatus
      → Option LearningProposalType
      → ℕ
      → List (LearningProposal F V)
  list_proposals rows conversation statuses type limit = take limit (
      order_by (λ a b. leb b.updated_at_ms a.updated_at_ms)
        (select
          (λ r. str_eq r.conversation_id conversation && (in_statuses statuses r && of_type type r))
          rows))

  -- The columns that `update_proposal` leaves.
  abbrev pub updated_proposal : LearningProposal F V → LearningProposal F V → LearningProposal F V
  updated_proposal proposal r = record proposal {
    id = r.id;
    run_id = r.run_id;
    conversation_id = r.conversation_id;
    dedup_key = r.dedup_key;
    proposal_type = r.proposal_type;
    created_at_ms = r.created_at_ms;
  }

  abbrev pub is_expected : ℕ → LearningProposal F V → LearningProposal F V → Bool
  is_expected expected proposal r =
      str_eq r.id proposal.id
      && (str_eq r.conversation_id proposal.conversation_id && r.version == expected)

  unfoldable pub update_proposal :
      ℕ
      → LearningProposal F V
      → List (LearningProposal F V)
      → Result (LearningProposal F V) × List (LearningProposal F V)
  update_proposal expected proposal rows =
      if proposal.version == expected + 1
      then hit_one (rowcount (is_expected expected proposal) rows) proposal
          (changed "learning proposal" proposal.id)
          (update_where (is_expected expected proposal) (updated_proposal proposal) rows)
      else (err (value_error "learning proposal version must increment by one"), rows)

-- The two tables that a decision writes.
pub record Reviews {ℓ} (F V : Type ℓ) : Type ℓ where
  pub proposals : List (LearningProposal F V)
  pub decisions : List (ConsolidationDecision F V)

module _ {ℓ} {F V : Type ℓ} where
  -- PRIMARY KEY (id) and UNIQUE (proposal_id, decision_version)
  abbrev pub clashes : ConsolidationDecision F V → ConsolidationDecision F V → Bool
  clashes new old =
      str_eq old.id new.id
      || (str_eq old.proposal_id new.proposal_id && old.decision_version == new.decision_version)

  abbrev pub has_proposal : List (LearningProposal F V) → String → Bool
  has_proposal proposals id = elim (get_proposal proposals id) [ none ↦ false | some p ↦ true ]

  unfoldable pub append_decision :
      (String → String → Bool)
      → ConsolidationDecision F V
      → ℕ
      → LearningProposal F V
      → Reviews F V
      → Result (LearningProposal F V) × Reviews F V
  append_decision known decision expected proposal s =
      let (inserted, decisions) =
        insert_row (clashes decision)
          (has_proposal s.proposals decision.proposal_id && refers known "events" decision.event_id)
          decision s.decisions in
      savepoint s (
        and_then (inserted, record s { decisions = decisions })
          (λ _ s'.
            let (updated, proposals) = update_proposal expected proposal s'.proposals in
            (updated, record s' { proposals = proposals })))

  unfoldable pub decisions_for_proposal :
      List (ConsolidationDecision F V) → String → List (ConsolidationDecision F V)
  decisions_for_proposal rows proposal =
      order_by (λ a b. ltb a.decision_version b.decision_version)
        (select (λ r. str_eq r.proposal_id proposal) rows)
