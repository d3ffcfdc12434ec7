-- ===== src/Learning/Examples.antt =====
-- A concrete run of the learning tables: a run, a proposal, evidence and two competing updates.
use zero_hdsc.Base.{
  ℕ, String, Bool, true, none, some, [], ◌∷◌, ◌≡◌, refl, ok, err, changed, find, rowcount,
  update_where, insert_row,
}
use zero_hdsc.Domain.Events.{SourceKind}
use zero_hdsc.Domain.Runs.{ReflectionRun, ReflectionRunStatus, ReflectionTriggerKind}
use zero_hdsc.Domain.Proposals.{
  LearningProposal, LearningProposalStatus, LearningProposalType, ProposalEvidence,
  EvidenceReferenceKind, EvidenceRelation, ConsolidationDecision, ConsolidationDecisionKind,
}
use zero_hdsc.Learning.Proposals.{Reviews, update_proposal, append_decision, get_proposal}
use zero_hdsc.Learning.Evidence.{World}
use zero_hdsc.Learning.Calls.{run_inserted, proposal_inserted, evidence_added, run}
use zero_hdsc.Learning.Kept.{IsLinked}
use zero_hdsc.Learning.Linked.{empty, run-IsLinked}
use zero_hdsc.Learning.Versions.{append_decision-atomic, update_proposal-conflict}

abbrev known : String → String → Bool
known table id = true

abbrev world : World
world = record {
  has_event = λ id conversation. true;
  has_trace = λ id conversation. true;
  episodes = [];
  artifacts = [];
}

abbrev reflection : ReflectionRun ℕ String
reflection = record {
  id = "r1";
  conversation_id = "c1";
  correlation_id = "k1";
  dedup_key = "d1";
  trigger_kind = ReflectionTriggerKind.novel;
  priority_score = 1;
  score_components = "{}";
  status = ReflectionRunStatus.completed;
  source_episode_id = none;
  source_artifact_id = none;
  source_event_ids = "e1" ∷ [];
  source_trace_ids = [];
  reflection_text = some "text";
  critique_text = some "text";
  critic_score = some 1;
  model = none;
  prompt_version = none;
  error = none;
  started_at_ms = 5;
  completed_at_ms = some 6;
}

abbrev proposed : LearningProposal ℕ String
proposed = record {
  id = "p1";
  run_id = "r1";
  conversation_id = "c1";
  dedup_key = "d2";
  proposal_type = LearningProposalType.episode_note;
  status = LearningProposalStatus.candidate;
  title = "title";
  content = "content";
  payload = "{}";
  rationale = "why";
  confidence = 1;
  critic_score = 1;
  target_kind = none;
  target_id = none;
  rollback = "{}";
  version = 1;
  created_at_ms = 7;
  updated_at_ms = 7;
  applied_at_ms = none;
}

abbrev approved : LearningProposal ℕ String
approved = record proposed {
  status = LearningProposalStatus.approved;
  version = 2;
  updated_at_ms = 8;
}

abbrev rejected : LearningProposal ℕ String
rejected = record approved { status = LearningProposalStatus.rejected }

abbrev seen : ProposalEvidence ℕ
seen = record {
  proposal_id = "p1";
  reference_kind = EvidenceReferenceKind.event;
  reference_id = "e1";
  relation = EvidenceRelation.supports;
  provenance_kind = SourceKind.user_observed;
  trust_weight = 1;
  likelihood_ratio = 2;
  content_hash = "h";
  excerpt = none;
  recorded_at_ms = 9;
}

abbrev behind : Reviews ℕ String
behind = record { proposals = approved ∷ []; decisions = [] }

abbrev decision : ConsolidationDecision ℕ String
decision = record {
  id = "x1";
  proposal_id = "p1";
  decision_version = 1;
  decision = ConsolidationDecisionKind.approve;
  gate_score = 1;
  criteria = "{}";
  reason = "enough";
  rules_version = "1";
  model = none;
  prompt_version = none;
  event_id = none;
  created_at_ms = 9;
}

run-IsLinked_example : IsLinked world (
    run known world
      (run_inserted reflection ∷ proposal_inserted proposed ∷ evidence_added seen ∷ [])
      (empty known world))
run-IsLinked_example =
    run-IsLinked known world
      (run_inserted reflection ∷ proposal_inserted proposed ∷ evidence_added seen ∷ [])

updated_once : update_proposal 1 approved (proposed ∷ []) ≡ (ok approved, approved ∷ [])
unfolding update_proposal rowcount update_where
updated_once = refl

update_proposal-conflict_example :
    update_proposal 1 rejected (approved ∷ [])
    ≡ (err (changed "learning proposal" "p1"), approved ∷ [])
update_proposal-conflict_example =
    update_proposal-conflict 1 approved rejected (proposed ∷ []) (approved ∷ []) updated_once refl
      refl refl

-- The proposal has moved on: the decision is not written either.
refused :
    append_decision known decision 1 rejected behind
    ≡ (err (changed "learning proposal" "p1"), behind)
unfolding append_decision insert_row find get_proposal update_proposal rowcount
refused = refl

append_decision-atomic_example : behind ≡ behind
append_decision-atomic_example =
    append_decision-atomic known decision 1 rejected behind behind
      (changed "learning proposal" "p1") refused
