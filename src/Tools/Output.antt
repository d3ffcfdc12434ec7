-- ===== src/Tools/Output.antt =====
-- The output that ToolKernel.execute in src/ssa/tools/kernel.py reports.
use Prim.Native.String.{◌++◌ as ◌^^◌}
use text.Mathlib.TextLemmas.{nil-append, cons-append}
use zero_hdsc.Base.{
  ℕ, zero, suc, ◌+◌, ◌≤◌, ◌<◌, String, true, false, Option, none, some, ◌≡◌, refl, ap, ◌∙◌, arith,
  ltb, Bool-cases, inl, inr,
}
use zero_hdsc.Tools.{
  Decoder, Attempt, returned, refused, broken, ToolOutcome, ToolExecutionResult, ToolCall,
  ToolCapability, Registry, get, chars, take_chars, attempt, execute, execute_with, conclude,
  success, failure,
}

chars-append : (s t : String) → chars (s ^^ t) ≡ chars s + chars t
unfolding chars
chars-append String.[] t = ap chars (nil-append t) ∙ omega arith
chars-append (String.◌∷◌ c s) t = ap chars (cons-append c s t) ∙ omega (arith, chars-append s t)

mark_chars : chars "\n...[truncated]" ≡ 15
unfolding chars
mark_chars = refl

take_chars-prefix :
    (n : ℕ) (s : String)
    → n ≤ chars s
    → (chars (take_chars n s) ≡ n) × ((rest : String) × (take_chars n s ^^ rest ≡ s))
unfolding chars take_chars
take_chars-prefix zero s h = (refl, (s, nil-append s))
take_chars-prefix (suc n) String.[] h = let no : ⊥ = omega arith in elim no [ ]
take_chars-prefix (suc n) (String.◌∷◌ c s) h =
    let (few, (rest, e)) = take_chars-prefix n s (omega arith) in
    (ap suc few, (rest, cons-append c (take_chars n s) rest ∙ ap (λ t. String.◌∷◌ c t) e))

-- What a result says of a text that a tool gave, under a limit: the text as it is, or its first
-- characters, as many as the limit, and a mark.
pub data Shows {ℓ} {V : Type ℓ} (limit : ℕ) (text : String) (result : ToolExecutionResult V)
    : Type 0 where
  whole :
      chars text ≤ limit
      → result.truncated ≡ false
      → result.outcome.output ≡ text
      → Shows limit text result
  cut :
      limit < chars text
      → result.truncated ≡ true
      → (kept rest : String) → kept ^^ rest ≡ text
      → chars kept ≡ limit
      → result.outcome.output ≡ kept ^^ "\n...[truncated]"
      → Shows limit text result

-- The output of a result, where the tool gave the text.
pub record IsBounded {ℓ} {V : Type ℓ} (limit : ℕ) (text : String) (result : ToolExecutionResult V)
    : Type 0 where
  pub bounded : chars result.outcome.output ≤ limit + 15
  pub counted : result.output_chars ≡ chars text
  pub shown : Shows limit text result

Shows-bounded {ℓ} :
    {V : Type ℓ} (limit : ℕ) (text : String) (result : ToolExecutionResult V)
    → Shows limit text result
    → chars result.outcome.output ≤ limit + 15
Shows-bounded limit text result (whole few t e) = rw e (omega (arith, few))
Shows-bounded limit text result (cut many t kept rest split length e) =
    let mark : chars "\n...[truncated]" ≡ 15 = mark_chars in
    rw (e, chars-append kept "\n...[truncated]") (omega (arith, mark, length))

success-Shows {ℓ} :
    {V : Type ℓ} (blank : V) (limit : ℕ) (call : ToolCall) (duration : ℕ) (outcome : ToolOutcome V)
    → Shows limit outcome.output (success blank limit call duration outcome)
success-Shows blank limit call duration outcome =
    elim (Bool-cases (ltb limit (chars outcome.output))) [
      | inl e ↦
          let (few, (rest, split)) = take_chars-prefix limit outcome.output (ground (arith, e)) in
          cut (ground (arith, e)) e (take_chars limit outcome.output) rest split few (rw e refl)
      | inr e ↦ whole (ground (arith, e)) e (rw e refl)
    ]

-- The text that an attempt gives: none where it raised.
abbrev pub text_of {ℓ} : {V : Type ℓ} → Attempt (ToolOutcome V) → String
text_of (returned outcome) = outcome.output
text_of (refused text) = ""
text_of (broken text) = ""

failure-IsBounded {ℓ} :
    {V : Type ℓ} (blank : V) (limit : ℕ) (call : ToolCall) (duration : ℕ) (error : String)
    → IsBounded limit "" (failure blank call duration error)
unfolding chars
failure-IsBounded blank limit call duration error = record {
  bounded = omega arith;
  counted = refl;
  shown = whole (omega arith) refl refl;
}

conclude-IsBounded {ℓ} :
    {V : Type ℓ} (blank : V) (limit : ℕ) (call : ToolCall) (duration : ℕ)
    (result : Attempt (ToolOutcome V))
    → IsBounded limit (text_of result) (conclude blank limit call duration result)
conclude-IsBounded blank limit call duration (returned outcome) = record {
  bounded = Shows-bounded limit outcome.output _ (success-Shows blank limit call duration outcome);
  counted = refl;
  shown = success-Shows blank limit call duration outcome;
}
conclude-IsBounded blank limit call duration (refused text) =
    failure-IsBounded blank limit call duration text
conclude-IsBounded blank limit call duration (broken text) =
    failure-IsBounded blank limit call duration ("tool execution failed: " ^^ text)

module _ {ℓ κ} {V : Type ℓ} {C : Type κ} (json : Decoder V) where
  -- What the tool of a call gives, where there is one.
  abbrev pub given_by : Option (ToolCapability V C) → ToolCall → C → String
  given_by none call context = ""
  given_by (some c) call context = text_of (attempt json c call context)

  abbrev pub given : Registry V C → ToolCall → C → String
  given r call context = given_by (get r call.name) call context

module _ {ℓ κ} {V : Type ℓ} {C : Type κ} (repr : String → String) (blank : V)
    (json : Decoder V) where
  execute_with-IsBounded :
      (limit : ℕ) (found : Option (ToolCapability V C)) (call : ToolCall) (context : C)
      (duration : ℕ)
      → IsBounded limit
          (given_by json found call context)
          (execute_with repr blank json limit found call context duration)
  execute_with-IsBounded limit none call context duration =
      failure-IsBounded blank limit call duration ("unknown tool " ^^ repr call.name)
  execute_with-IsBounded limit (some c) call context duration =
      conclude-IsBounded blank limit call duration (attempt json c call context)

  -- The output of a call, whatever its branch, has at most the kernel's maximum of characters and the
  -- 15 of the mark of a cut, and the result counts the characters that the tool gave. Where these
  -- are not above the maximum, the output is what the tool gave, not marked; where they are, it is
  -- marked as cut, and is the first characters of what the tool gave, as many as the maximum, and
  -- the mark. Where no tool returns an outcome, the text that it gave is the empty one.
  pub execute-IsBounded :
      (limit : ℕ) (r : Registry V C) (call : ToolCall) (context : C) (duration : ℕ)
      → IsBounded limit
          (given json r call context)
          (execute repr blank json limit r call context duration)
  unfolding execute
  execute-IsBounded limit r call context duration =
      execute_with-IsBounded limit (get r call.name) call context duration
