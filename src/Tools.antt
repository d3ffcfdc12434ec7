-- ===== src/Tools.antt =====
-- src/ssa/tools/registry.py and src/ssa/tools/kernel.py: the registry of tools and the dispatch of
-- their calls. JSON objects, numbers and the values of arguments are of a type `V`, the context of a call of
-- a type `C`. What a handler does beside its outcome is not modelled.
pub mod Dispatch
pub mod Output
mod Examples
use Prim.Native.String.{◌++◌ as ◌^^◌}
use zero_hdsc.Base.{
  ℕ, zero, suc, ◌+◌, String, Bool, true, false, not, Option, none, some, List, [], ◌∷◌, map, ltb,
  if◌then◌else◌, str_less, Result, ok, err, require, tool_taken, value_error, is_some, dict_get,
  dict_set, order_by,
}

-- What the body of the `try` of `execute` does: it returns, it raises a JSONDecodeError, a
-- ValidationError or another ValueError, or it raises another exception, with `str(exc)`.
pub data Attempt {ℓ} (A : Type ℓ) : Type ℓ where
  returned : A → Attempt A
  refused : String → Attempt A
  broken : String → Attempt A

-- One expression after another.
abbrev pub after {ℓ κ} : {A : Type ℓ} {B : Type κ} → Attempt A → (A → Attempt B) → Attempt B
after (returned a) next = next a
after (refused text) next = refused text
after (broken text) next = broken text

pub record ToolOutcome {ℓ} (V : Type ℓ) : Type ℓ where
  pub ok : Bool
  pub output : String
  pub error : Option String
  pub exit_code : Option V
  pub elevated : Bool
  pub metadata : V

pub record ToolExecutionResult {ℓ} (V : Type ℓ) : Type ℓ where
  pub outcome : ToolOutcome V
  pub call_id : String
  pub tool_name : String
  pub duration_ms : ℕ
  pub output_chars : ℕ
  pub truncated : Bool

-- The fields of ToolCall that the kernel reads.
pub record ToolCall : Type 0 where
  pub id : String
  pub name : String
  pub arguments : String

-- `validate` is the arguments model: model_validate, and model_dump of its result.
pub record ToolCapability {ℓ κ} (V : Type ℓ) (C : Type κ) : Type (ℓ ⊔ κ) where
  pub name : String
  pub description : String
  pub schema : V
  pub validate : V → Attempt V
  pub handler : V → C → Attempt (ToolOutcome V)

abbrev pub Registry {ℓ κ} : Type ℓ → Type κ → Type (ℓ ⊔ κ)
Registry V C = List (String × ToolCapability V C)

module _ {ℓ κ} {V : Type ℓ} {C : Type κ} where
  unfoldable pub register : ToolCapability V C → Registry V C → Result (Unit {0}) × Registry V C
  register c r =
      if is_some (dict_get c.name r)
      then (err (tool_taken c.name), r)
      else (ok tt, dict_set c.name c r)

  unfoldable pub get : Registry V C → String → Option (ToolCapability V C)
  get r name = dict_get name r

  -- tuple(sorted(self._capabilities))
  unfoldable pub names : Registry V C → List String
  names r = order_by str_less (map (λ e. e.0) r)

  -- self._capabilities[name] for each name, which is a key of the dictionary
  unfoldable pub of_names : Registry V C → List String → List (ToolCapability V C)
  of_names r [] = []
  of_names r (n ∷ ns) =
      let rest = of_names r ns in elim (dict_get n r) [ none ↦ rest | some c ↦ c ∷ rest ]

  -- `define` is to_llm_definition.
  unfoldable pub definitions : (ToolCapability V C → V) → Registry V C → List V
  definitions define r = map define (of_names r (names r))

-- len(text) and text[:n], by code points
unfoldable pub chars : String → ℕ
chars String.[] = 0
chars (String.◌∷◌ c s) = suc (chars s)

unfoldable pub take_chars : ℕ → String → String
take_chars zero s = String.[]
take_chars (suc n) String.[] = String.[]
take_chars (suc n) (String.◌∷◌ c s) = String.◌∷◌ c (take_chars n s)

-- ToolKernel.__init__
abbrev pub check_kernel : ℕ → Result (Unit {0})
check_kernel max_output_chars =
    require (not (ltb max_output_chars 1)) (value_error "max_output_chars must be positive")

module _ {ℓ} {V : Type ℓ} (blank : V) where
  -- The fields that ToolExecutionResult has by default.
  abbrev pub failure : ToolCall → ℕ → String → ToolExecutionResult V
  failure call duration error = record {
    outcome = record {
      ok = false;
      output = "";
      error = some error;
      exit_code = none;
      elevated = false;
      metadata = blank;
    };
    call_id = call.id;
    tool_name = call.name;
    duration_ms = duration;
    output_chars = 0;
    truncated = false;
  }

  -- What stands after the `try`.
  abbrev pub success : ℕ → ToolCall → ℕ → ToolOutcome V → ToolExecutionResult V
  success limit call duration outcome =
      let truncated = ltb limit (chars outcome.output) in
      record {
        outcome = record outcome {
          output =
              if truncated
              then take_chars limit outcome.output ^^ "\n...[truncated]"
              else outcome.output;
        };
        call_id = call.id;
        tool_name = call.name;
        duration_ms = duration;
        output_chars = chars outcome.output;
        truncated = truncated;
      }

  abbrev pub conclude : ℕ → ToolCall → ℕ → Attempt (ToolOutcome V) → ToolExecutionResult V
  conclude limit call duration (returned outcome) = success limit call duration outcome
  conclude limit call duration (refused text) = failure call duration text
  conclude limit call duration (broken text) =
      failure call duration ("tool execution failed: " ^^ text)

-- json.loads, and isinstance(decoded, dict).
pub record Decoder {ℓ} (V : Type ℓ) : Type ℓ where
  pub loads : String → Attempt V
  pub is_object : V → Bool

module _ {ℓ κ} {V : Type ℓ} {C : Type κ} where
  -- The body of the `try`.
  abbrev pub attempt : Decoder V → ToolCapability V C → ToolCall → C → Attempt (ToolOutcome V)
  attempt json c call context = after (json.loads call.arguments) (λ decoded.
      if json.is_object decoded
      then after (c.validate decoded) (λ arguments. c.handler arguments context)
      else refused "tool arguments must be a JSON object")

module _ {ℓ κ} {V : Type ℓ} {C : Type κ} (repr : String → String) (blank : V) where
  abbrev pub execute_with :
      Decoder V → ℕ → Option (ToolCapability V C) → ToolCall → C → ℕ → ToolExecutionResult V
  execute_with json limit none call context duration =
      failure blank call duration ("unknown tool " ^^ repr call.name)
  execute_with json limit (some c) call context duration =
      conclude blank limit call duration (attempt json c call context)

  -- `duration` is what the monotonic clock measures.
  unfoldable pub execute :
      Decoder V → ℕ → List (String × ToolCapability V C) → ToolCall → C → ℕ → ToolExecutionResult V
  execute json limit r call context duration =
      execute_with json limit (get r call.name) call context duration
