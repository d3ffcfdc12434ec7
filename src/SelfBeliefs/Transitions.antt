-- ===== src/SelfBeliefs/Transitions.antt =====
-- src/ssa/domain/self_belief.py: the transitions of a status.
use zero_hdsc.Base.{Bool, true, false, ◌&&◌, ◌≡◌, refl, ap, sym, ◌∙◌, eq_iff}
use mathlib.Core.Option.{some-injective}
use zero_hdsc.Domain.SelfBeliefs.{
  SelfBeliefStatus, candidate, active, challenged, revised, archived, allowed, belief_status_value,
  belief_status_of, belief_status_of-belief_status_value,
}
use zero_hdsc.SelfBeliefs.{same_status}

-- The transitions of a status.
pub data Moves : SelfBeliefStatus → SelfBeliefStatus → Type 0 where
  stays_candidate : Moves candidate candidate
  activates : Moves candidate active
  stays_active : Moves active active
  is_challenged : Moves active challenged
  stays_challenged : Moves challenged challenged
  is_revised : Moves challenged revised
  stays_revised : Moves revised revised
  is_challenged_again : Moves revised challenged
  drops : Moves candidate archived
  retires : Moves active archived
  gives_up : Moves challenged archived
  retires_revised : Moves revised archived

pub allowed-Moves : (a b : SelfBeliefStatus) → allowed a b ≡ true → Moves a b
unfolding allowed
allowed-Moves candidate candidate h = stays_candidate
allowed-Moves candidate active h = activates
allowed-Moves candidate challenged h = cc
allowed-Moves candidate revised h = cc
allowed-Moves candidate archived h = drops
allowed-Moves active candidate h = cc
allowed-Moves active active h = stays_active
allowed-Moves active challenged h = is_challenged
allowed-Moves active revised h = cc
allowed-Moves active archived h = retires
allowed-Moves challenged candidate h = cc
allowed-Moves challenged active h = cc
allowed-Moves challenged challenged h = stays_challenged
allowed-Moves challenged revised h = is_revised
allowed-Moves challenged archived h = gives_up
allowed-Moves revised candidate h = cc
allowed-Moves revised active h = cc
allowed-Moves revised challenged h = is_challenged_again
allowed-Moves revised revised h = stays_revised
allowed-Moves revised archived h = retires_revised
allowed-Moves archived candidate h = cc
allowed-Moves archived active h = cc
allowed-Moves archived challenged h = cc
allowed-Moves archived revised h = cc
allowed-Moves archived archived h = cc

-- A challenged belief becomes a revised one.
abbrev pub revises : SelfBeliefStatus → SelfBeliefStatus → Bool
revises challenged revised = true
revises old new = false

pub is_revision-revises :
    (a b : SelfBeliefStatus) → same_status a challenged && same_status b revised ≡ revises a b
unfolding belief_status_value
is_revision-revises candidate candidate = refl
is_revision-revises candidate active = refl
is_revision-revises candidate challenged = refl
is_revision-revises candidate revised = refl
is_revision-revises candidate archived = refl
is_revision-revises active candidate = refl
is_revision-revises active active = refl
is_revision-revises active challenged = refl
is_revision-revises active revised = refl
is_revision-revises active archived = refl
is_revision-revises challenged candidate = refl
is_revision-revises challenged active = refl
is_revision-revises challenged challenged = refl
is_revision-revises challenged revised = refl
is_revision-revises challenged archived = refl
is_revision-revises revised candidate = refl
is_revision-revises revised active = refl
is_revision-revises revised challenged = refl
is_revision-revises revised revised = refl
is_revision-revises revised archived = refl
is_revision-revises archived candidate = refl
is_revision-revises archived active = refl
is_revision-revises archived challenged = refl
is_revision-revises archived revised = refl
is_revision-revises archived archived = refl

pub same_status-path : (a b : SelfBeliefStatus) → same_status a b ≡ true → a ≡ b
same_status-path a b h = some-injective a b (
    sym (belief_status_of-belief_status_value a)
    ∙ (ap belief_status_of ((eq_iff (belief_status_value a) (belief_status_value b)).0 h)
        ∙ belief_status_of-belief_status_value b))
