-- ===== src/Snapshots/Examples.antt =====
-- A concrete state, its JSON and ids, and competing appends.
use zero_hdsc.Base.{
  ℕ, zero, suc, String, Bool, true, none, some, List, [], ◌∷◌, ◌≡◌, refl, sym, ap, ◌∙◌, ok, arith,
}
use zero_hdsc.Snapshots.{Codec, latest, append_if_version, append_relationship}
use zero_hdsc.Snapshots.Calls.{Append, run, replay}
use zero_hdsc.Snapshots.Log.{latest-run}
use zero_hdsc.Tools.{chars}

-- A state is a text, and its version the length.
abbrev texts : Codec String
texts = record { version = chars; updated_at_ms = λ s. 0; encode = λ s. s; decode = λ s. ok s }

unfoldable ids : ℕ → String
ids zero = ""
ids (suc n) = String.◌∷◌ "x" (ids n)

chars-ids : (n : ℕ) → chars (ids n) ≡ n
unfolding chars ids
chars-ids zero = refl
chars-ids (suc n) = omega (arith, chars-ids n)

ids_injective : (i j : ℕ) → ids i ≡ ids j → i ≡ j
ids_injective i j h = sym (chars-ids i) ∙ (ap chars h ∙ chars-ids j)

abbrev known : String → Bool
known id = true

-- Two writers have read the empty table; the second is refused.
abbrev appends : List (Append String)
appends =
    record { expected = 0; state = "a"; cause = "e1" }
    ∷ record { expected = 0; state = "b"; cause = "e2" }
    ∷ record { expected = 1; state = "ac"; cause = "e3" }
    ∷ []

replayed : replay texts ids known "State" (λ cause. ok tt) appends none ≡ some "ac"
unfolding chars
replayed = refl

latest-run_example :
    latest texts
      (run texts ids known "State" (λ cause. ok tt) appends (record { rows = []; issued = 0 })).rows
    ≡ ok (replay texts ids known "State" (λ cause. ok tt) appends none)
latest-run_example =
    latest-run texts ids known "State" (λ cause. ok tt) ids_injective (λ s. refl) appends

-- A relationship is not appended for a blank cause.
blank :
    (append_relationship texts (λ s. s) ids known 0 "a" "" (record { rows = []; issued = 0 })).1
    ≡ record { rows = []; issued = 0 }
unfolding append_if_version chars
blank = refl
