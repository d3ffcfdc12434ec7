-- ===== src/Memories/Calls.antt =====
-- src/ssa/storage/memory_repository.py: the calls that the services make to change the tables. They
-- insert memories by insert_bundle only. `known` tells the events of the ledger, which has no new
-- events between the calls.
use zero_hdsc.Base.{ℕ, String, Bool, List, [], ◌∷◌}
use zero_hdsc.Domain.Memories.{Memory}
use zero_hdsc.Memories.{
  Outside, Memories, add_evidence, add_link, update_status, increment_access, insert_bundle,
}

-- What the services call to change the tables.
pub data Call {ℓ} (F E : Type ℓ) : Type ℓ where
  insert_bundle_of : Memory F → E → List String → List (String × (String × (F × ℕ))) → Call F E
  add_evidence_of : String → String → String → Call F E
  add_link_of : String → String → String → F → ℕ → Call F E
  update_status_of : String → String → ℕ → Call F E
  increment_access_of : String → ℕ → Call F E

module _ {ℓ} {F E I : Type ℓ} (o : Outside F E I) (known : String → Bool) where
  unfoldable pub respond : Call F E → Memories F I → Memories F I
  respond (insert_bundle_of memory embedding event_ids links) t =
      (insert_bundle o known memory embedding event_ids links t).1
  respond (add_evidence_of memory_id event_id relation) t =
      (add_evidence known memory_id event_id relation t).1
  respond (add_link_of source target link_type weight now) t =
      (add_link o.is_weight source target link_type weight now t).1
  respond (update_status_of id status now) t = update_status id status now t
  respond (increment_access_of id now) t = increment_access id now t

  unfoldable pub run : List (Call F E) → Memories F I → Memories F I
  run [] t = t
  run (call ∷ calls) t = run calls (respond call t)
