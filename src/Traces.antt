-- ===== src/Traces.antt =====
-- src/ssa/storage/lifecycle_repository.py: CausalTraceRepository, which only writes. `known` is the
-- foreign keys.
use zero_hdsc.Base.{
  ℕ, String, Bool, ◌&&◌, Option, List, str_eq, Result, insert_row, returning, refers,
}
use zero_hdsc.Rows.Json.{Json}

pub record CausalTraceRecord {ℓ} (V : Type ℓ) : Type ℓ where
  pub id : String
  pub correlation_id : String
  pub input_event_id : String
  pub appraisal_id : Option String
  pub old_state_id : Option String
  pub new_state_id : Option String
  pub old_relationship_id : Option String
  pub new_relationship_id : Option String
  pub memory_ids : List String
  pub goal_ids : List String
  pub decision : V
  pub output_event_id : Option String
  pub created_at_ms : ℕ

pub record TraceRow : Type 0 where
  pub id : String
  pub correlation_id : String
  pub input_event_id : String
  pub appraisal_id : Option String
  pub old_state_id : Option String
  pub new_state_id : Option String
  pub old_relationship_id : Option String
  pub new_relationship_id : Option String
  pub memory_ids_json : String
  pub goal_ids_json : String
  pub decision_json : String
  pub output_event_id : Option String
  pub created_at_ms : ℕ

module _ {ℓ} {V : Type ℓ} (json : Json V) where
  unfoldable pub trace_row : CausalTraceRecord V → TraceRow
  trace_row trace = record {
    id = trace.id;
    correlation_id = trace.correlation_id;
    input_event_id = trace.input_event_id;
    appraisal_id = trace.appraisal_id;
    old_state_id = trace.old_state_id;
    new_state_id = trace.new_state_id;
    old_relationship_id = trace.old_relationship_id;
    new_relationship_id = trace.new_relationship_id;
    memory_ids_json = json.dump_texts trace.memory_ids;
    goal_ids_json = json.dump_texts trace.goal_ids;
    decision_json = json.dumps trace.decision;
    output_event_id = trace.output_event_id;
    created_at_ms = trace.created_at_ms;
  }

  -- REFERENCES of the table `causal_traces`.
  abbrev references_exist : (String → String → Bool) → CausalTraceRecord V → Bool
  references_exist known trace =
      known "events" trace.input_event_id
      && (refers known "appraisals" trace.appraisal_id
          && (refers known "state_snapshots" trace.old_state_id
              && (refers known "state_snapshots" trace.new_state_id
                  && (refers known "relationship_snapshots" trace.old_relationship_id
                      && (refers known "relationship_snapshots" trace.new_relationship_id
                          && refers known "events" trace.output_event_id)))))

  unfoldable pub insert :
      (String → String → Bool)
      → CausalTraceRecord V
      → List TraceRow
      → Result (CausalTraceRecord V) × List TraceRow
  insert known trace rows =
      returning trace (
        insert_row (λ r. str_eq r.id trace.id) (references_exist known trace) (trace_row trace)
          rows)
