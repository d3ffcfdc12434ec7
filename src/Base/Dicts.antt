-- ===== src/Base/Dicts.antt =====
-- Python's `dict` with texts for keys, in order of insertion.
use Prim.Native.String.{String, compare}
use mathlib.Core.Path.{◌≡◌, refl}
use mathlib.Core.Bool.{Bool, true, false, ◌||◌}
use mathlib.Core.Option.{Option, none, some}
use mathlib.Core.List.{List, [], ◌∷◌}
use native.Mathlib.Omega.{arith}
use text.Mathlib.Text.{◌==◌, is_lt}
use text.Mathlib.TextEquality.{eq_iff}
use zero_hdsc.Base.Tests.{if◌then◌else◌}

-- a < b, by code points
abbrev pub str_less : String → String → Bool
str_less a b = is_lt (compare a b)

module _ {ℓ} {A : Type ℓ} where
  -- d.get(k)
  unfoldable pub dict_get : String → List (String × A) → Option A
  dict_get k [] = none
  dict_get k ((j, v) ∷ d) = if j == k then some v else dict_get k d

  -- d[k] = v
  unfoldable pub dict_set : String → A → List (String × A) → List (String × A)
  dict_set k v [] = (k, v) ∷ []
  dict_set k v ((j, w) ∷ d) = if j == k then (j, v) ∷ d else (j, w) ∷ dict_set k v d

  pub dict_get-dict_set :
      (k j : String) (v : A) (d : List (String × A))
      → dict_get j (dict_set k v d) ≡ (if k == j then some v else dict_get j d)
  unfolding dict_get dict_set
  dict_get-dict_set k j v [] = refl
  dict_get-dict_set k j v ((i, w) ∷ d) =
      ground (arith, eq_iff k j, eq_iff i k, eq_iff i j, dict_get-dict_set k j v d)

abbrev pub is_some {ℓ} : {A : Type ℓ} → Option A → Bool
is_some none = false
is_some (some a) = true

-- x in xs
unfoldable pub is_in : String → List String → Bool
is_in x [] = false
is_in x (y ∷ ys) = x == y || is_in x ys
