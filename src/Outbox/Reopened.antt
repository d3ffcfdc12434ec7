-- ===== src/Outbox/Reopened.antt =====
-- src/ssa/storage/lifecycle_repository.py: what `fail` does to a message of any status.
use zero_hdsc.Base.{
  ℕ, ◌<◌, ◌≤◌, String, ◌≡◌, refl, ◌∙◌, true, false, some, arith, leb, ok, find, find-update_where,
  find-eq_true,
}
use zero_hdsc.Domain.Outbox.{OutboxMessage, pending, outbox_status_value}
use zero_hdsc.Rows.Json.{Json}
use zero_hdsc.Rows.Outbox.{MessageRow}
use zero_hdsc.Outbox.{Outbox, has_id, claimable, failed_row, get, fail, fail_with}

claimable-failed_row :
    (error : String) (retry later : ℕ) (row : MessageRow)
    → retry ≤ later
    → claimable later (failed_row pending error retry row) ≡ true
unfolding outbox_status_value
claimable-failed_row error retry later row h = ground arith

-- A message with attempts left can be claimed from its retry time on once it is failed, whatever its
-- status was, and it keeps the event and the time of a delivery.
pub fail_reopens {ℓ} :
    {V : Type ℓ} (json : Json V) (id error : String) (retry later most : ℕ) (rows : Outbox)
    (row : MessageRow) (message : OutboxMessage V)
    → find (has_id id) rows ≡ some row
    → get json rows id ≡ ok (some message)
    → message.attempt_count < most
    → retry ≤ later
    → (r : MessageRow) × ((find (has_id id) (fail json id error retry most rows).1 ≡ some r)
        × ((claimable later r ≡ true)
            × ((r.delivered_at_ms ≡ row.delivered_at_ms)
                × (r.delivered_event_id ≡ row.delivered_event_id))))
unfolding fail find outbox_status_value fail_with
fail_reopens json id error retry later most rows row message found read left due =
    let remaining : leb most message.attempt_count ≡ false = ground (arith, left) in
    let e = find-eq_true (has_id id) rows row found in
    (
      failed_row pending error retry row,
      (
        rw (read, remaining)
            (find-update_where (has_id id) (has_id id) (failed_row pending error retry) rows
                (λ r. ground arith)
              ∙ rw (found, e) refl),
        (claimable-failed_row error retry later row due, (refl, refl)),
      ),
    )
