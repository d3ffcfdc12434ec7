-- ===== src/SelfBeliefs/Examples.antt =====
-- Concrete self-beliefs, with confidences in percent.
use zero_hdsc.Base.{
  is_in, ℕ, String, Bool, true, none, some, List, [], ◌∷◌, ◌≡◌, refl, ltb, ok, err, belief_conflict,
  lineage_exists, All, find, select, insert_row, insert_by, order_by,
}
use zero_hdsc.Domain.SelfBeliefs.{
  SelfBelief, SelfBeliefStatus, allowed, belief_status_value, relation_value, validate_transition,
}
use zero_hdsc.SelfBeliefs.{
  insert_initial, append_if_version, insert_version, insert_all, validate_initial,
  validate_successor, validate_audit_fields, latest, history, get, is_subset,
}
use zero_hdsc.SelfBeliefs.Queries.{list_current, find_current_by_claim}
use zero_hdsc.SelfBeliefs.Lineage.{IsChain, head_of}
use zero_hdsc.SelfBeliefs.Calls.{
  Call, initial, successor, built, history-IsChain, respond-atomic, append-conflict, latest-keeps,
}

abbrev known : String → Bool
known id = true

abbrev hopeful : SelfBelief ℕ
hopeful = record {
  id = "b1";
  lineage_id = "b1";
  claim = "I like rain";
  confidence = 50;
  status = SelfBeliefStatus.candidate;
  version = 1;
  evidence_event_ids = "e1" ∷ "e2" ∷ [];
  counterevidence_event_ids = [];
  previous_id = none;
  cause_event_id = some "e2";
  change_reason = "pattern";
  model = some "m";
  prompt_version = some "p1";
  candidate_since_ms = 10;
  activated_at_ms = none;
  created_at_ms = 10;
  updated_at_ms = 10;
}

abbrev settled : SelfBelief ℕ
settled = record hopeful {
  id = "b2";
  status = SelfBeliefStatus.active;
  version = 2;
  evidence_event_ids = "e1" ∷ "e2" ∷ "e3" ∷ [];
  previous_id = some "b1";
  activated_at_ms = some 20;
  updated_at_ms = 20;
}

-- Another second version.
abbrev rival : SelfBelief ℕ
rival = record settled { id = "b3" }

abbrev calls : List (Call ℕ)
calls = initial hopeful ∷ successor 1 rival ∷ initial hopeful ∷ []

abbrev started : List (Call ℕ)
started = initial hopeful ∷ []

history-IsChain_example :
    IsChain (history (built known ltb 60 calls).beliefs "b1")
    × (latest (built known ltb 60 calls).beliefs "b1"
        ≡ head_of (history (built known ltb 60 calls).beliefs "b1"))
history-IsChain_example = history-IsChain known ltb 60 calls "b1"

-- The belief's lineage is there already.
again :
    insert_initial known ltb 60 hopeful (built known ltb 60 calls)
    ≡ (err (lineage_exists "b1"), built known ltb 60 calls)
unfolding append_if_version latest order_by select insert_initial validate_initial
    belief_status_value validate_audit_fields find insert_version insert_row insert_all
    validate_successor validate_transition allowed is_subset get insert_by relation_value is_in
again = refl

respond-atomic_example : built known ltb 60 calls ≡ built known ltb 60 calls
respond-atomic_example =
    respond-atomic known ltb 60 (initial hopeful) (built known ltb 60 calls)
      (built known ltb 60 calls) (lineage_exists "b1") again

appended :
    append_if_version known 1 settled (built known ltb 60 started)
    ≡ (ok settled, (append_if_version known 1 settled (built known ltb 60 started)).1)
unfolding append_if_version latest order_by select insert_initial validate_initial
    belief_status_value validate_audit_fields find insert_version insert_row insert_all
    validate_successor validate_transition allowed is_subset get insert_by relation_value is_in
appended = refl

append-conflict_example :
    append_if_version known 1 rival
      (append_if_version known 1 settled (built known ltb 60 started)).1
    ≡ (
      err (belief_conflict 1 2),
      (append_if_version known 1 settled (built known ltb 60 started)).1,
    )
append-conflict_example = append-conflict known ltb 60 started 1 settled rival _ appended refl refl

newest : latest (built known ltb 60 calls).beliefs "b1" ≡ some rival
unfolding append_if_version latest order_by select insert_initial validate_initial
    belief_status_value validate_audit_fields find insert_version insert_row insert_all
    validate_successor validate_transition allowed is_subset get insert_by relation_value is_in
newest = refl

latest-keeps_example :
    All
      (λ c. is_subset c.evidence_event_ids rival.evidence_event_ids ≡ true)
      (history (built known ltb 60 calls).beliefs "b1")
latest-keeps_example = latest-keeps known ltb 60 calls "b1" rival newest

-- The current beliefs are the latest versions, and a text finds one by its claim.
current : list_current (hopeful ∷ rival ∷ []) [] none ≡ ok (rival ∷ [])
unfolding list_current order_by select find belief_status_value is_in insert_by
current = refl

by_claim : find_current_by_claim (λ s. s) (λ s. s) (hopeful ∷ rival ∷ []) "I like rain" ≡ some rival
unfolding find_current_by_claim order_by select find belief_status_value is_in insert_by
by_claim = refl
