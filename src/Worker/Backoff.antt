-- ===== src/Worker/Backoff.antt =====
-- src/ssa/runtime/lifecycle.py: the delay before a retry, and the error of a missing handler.
use Prim.Native.String.{◌++◌ as str_append}
use native.Mathlib.Nat.{pow-suc}
use text.Mathlib.TextLemmas.{cons-append, append_assoc}
use zero_hdsc.Base.{
  min, leb, leb→le, Bool-cases, String, sym, ap, ◌∙◌, ◌⊎◌, inl, inr, ℕ, zero, suc, ◌-◌, ◌*◌, ◌^◌,
  ◌≤◌, ◌≡◌, refl, true, some, arith, not_registered, error_text,
}
use zero_hdsc.Jobs.{like_prefix, missing_handler, died_of_missing_handler}
use zero_hdsc.Worker.{retry_delay}

pow_mono : (a b : ℕ) → a ≤ b → 2 ^ a ≤ 2 ^ b
pow_mono zero zero h = omega arith
pow_mono zero (suc b) h = simp pow-suc (omega (arith, pow_mono zero b (omega arith)))
pow_mono (suc a) zero h = absurd (omega arith)
pow_mono (suc a) (suc b) h = simp pow-suc (omega (arith, pow_mono a b (omega arith)))

doubled_or_capped :
    (p : ℕ)
    → (min 3600000 (30000 * (p * 2)) ≡ 2 * min 3600000 (30000 * p))
      ⊎ (min 3600000 (30000 * (p * 2)) ≡ 3600000)
doubled_or_capped p = elim (Bool-cases (leb (60 * p) 3600)) [
  | inl h ↦ inl (let k = leb→le (60 * p) 3600 h in omega arith)
  | inr h ↦ inr (ground arith)
]

-- The delay is from half a minute to an hour, never falls with the attempts, and doubles with each
-- attempt after the first until it reaches the hour.
pub retry_delay_bounds :
    (attempts more : ℕ)
    → attempts ≤ more
    → (30000 ≤ retry_delay attempts)
      × (retry_delay attempts ≤ retry_delay more)
      × (retry_delay more ≤ 3600000)
      × ((retry_delay (suc (suc attempts)) ≡ 2 * retry_delay (suc attempts))
          ⊎ (retry_delay (suc (suc attempts)) ≡ 3600000))
unfolding retry_delay
retry_delay_bounds attempts more h =
    let e1 : suc (suc attempts) - 1 ≡ suc attempts = omega arith in
    let e2 : suc attempts - 1 ≡ attempts = omega arith in
    (
      omega (arith, pow_mono 0 (attempts - 1) (omega arith)),
      omega (arith, pow_mono (attempts - 1) (more - 1) (omega arith)),
      omega arith,
      rw (e1, e2, pow-suc) (doubled_or_capped (2 ^ attempts)),
    )

pub like_prefix-append : (p s : String) → like_prefix p (str_append p s) ≡ true
unfolding like_prefix
like_prefix-append String.[] s = refl
like_prefix-append (String.◌∷◌ c cs) s =
    rw (cons-append c cs s) (ground (arith, like_prefix-append cs s))

missing_handler-prefix :
    (r : String)
    → str_append "LookupError: no "
        (str_append "lifecycle handler" (str_append " registered for " r))
      ≡ str_append missing_handler (str_append " for " r)
missing_handler-prefix r =
    ap (λ x. str_append "LookupError: no " (str_append "lifecycle handler" x))
      (append_assoc " registered" " for " r)
    ∙ (ap (str_append "LookupError: no ")
          (sym (append_assoc "lifecycle handler" " registered" (str_append " for " r)))
        ∙ sym
            (append_assoc "LookupError: no " "lifecycle handler registered" (str_append " for " r)))

-- The error that the worker stores for a job whose type has no handler is one that `bootstrap`
-- takes for a missing handler when it revives dead jobs.
pub missing_handler_revivable :
    (repr : String → String) (job_type : String)
    → died_of_missing_handler (some (error_text repr (not_registered "lifecycle handler" job_type)))
      ≡ true
unfolding error_text
missing_handler_revivable repr job_type =
    let r = repr job_type in
    unfold died_of_missing_handler in
    rw (missing_handler-prefix r) (like_prefix-append missing_handler (str_append " for " r))
