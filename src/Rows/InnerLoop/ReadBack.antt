-- ===== src/Rows/InnerLoop/ReadBack.antt =====
-- src/ssa/storage/lifecycle_repository.py: what is read back from a row of the state of the inner loop.
use zero_hdsc.Base.{refl, ◌≡◌, ok}
use zero_hdsc.Domain.InnerLoop.{InnerLoopState, mode_of-mode_value}
use zero_hdsc.Rows.InnerLoop.{state_row, row_to_state}

-- A state of the inner loop is read back from its row as it was.
pub row_to_state-state_row {ℓ} :
    {F : Type ℓ} (state : InnerLoopState F) → row_to_state (state_row state) ≡ ok state
unfolding row_to_state state_row
row_to_state-state_row state = rw (mode_of-mode_value state.mode) refl
