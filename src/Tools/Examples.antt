-- ===== src/Tools/Examples.antt =====
-- Concrete tools: one that echoes its arguments, and calls of it.
use zero_hdsc.Base.{ℕ, String, true, false, none, [], ◌∷◌, ◌≡◌, refl, str_eq, find, dict_get}
use zero_hdsc.Tools.{
  returned, refused, ToolCall, ToolCapability, Decoder, Registry, get, execute, chars, take_chars,
}
use zero_hdsc.Tools.Output.{IsBounded, given, execute-IsBounded}
use zero_hdsc.Tools.Dispatch.{Succeeds, execute-Succeeds, register_all, get-register_first}

abbrev echo : ToolCapability String ℕ
echo = record {
  name = "echo";
  description = "Echo";
  schema = "{}";
  validate = λ v. returned v;
  handler = λ v context. returned record {
    ok = true;
    output = v;
    error = none;
    exit_code = none;
    elevated = false;
    metadata = "{}";
  };
}

-- A second tool of the same name, which refuses all arguments.
abbrev deaf : ToolCapability String ℕ
deaf = record echo { validate = λ v. refused "no" }

abbrev tools : Registry String ℕ
tools = ("echo", echo) ∷ []

abbrev json : Decoder String
json = record { loads = λ text. returned text; is_object = λ v. true }

abbrev call : ToolCall
call = record { id = "1"; name = "echo"; arguments = "hello" }

-- A maximum of three characters cuts the output.
cut : (execute (λ s. s) "{}" json 3 tools call 0 7).outcome.output ≡ "hel\n...[truncated]"
unfolding execute get dict_get chars take_chars
cut = refl

execute-IsBounded_example :
    IsBounded 3 (given json tools call 0) (execute (λ s. s) "{}" json 3 tools call 0 7)
execute-IsBounded_example = execute-IsBounded (λ s. s) "{}" json 3 tools call 0 7

succeeded : (execute (λ s. s) "{}" json 3 tools call 0 7).outcome.ok ≡ true
unfolding execute get dict_get chars take_chars
succeeded = refl

execute-Succeeds_example : Succeeds json tools call 0
execute-Succeeds_example = execute-Succeeds (λ s. s) "{}" json 3 tools call 0 7 succeeded

get-register_first_example :
    get (register_all (echo ∷ deaf ∷ []) []) "echo"
    ≡ find (λ c. str_eq c.name "echo") (echo ∷ deaf ∷ [])
get-register_first_example = get-register_first (echo ∷ deaf ∷ []) "echo"
