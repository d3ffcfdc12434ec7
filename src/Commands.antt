-- ===== src/Commands.antt =====
-- src/ssa/commands/registry.py: slash commands. str.casefold, str.strip and str.lstrip are
-- parameters, given as a `Texts`; a dictionary is a list of its entries.
pub mod Defaults
pub mod Tokens
pub mod Refinement
pub mod Suggest
mod Examples
use Prim.Native.Char.{Char, code}
use text.Mathlib.Text.{starts_with}
use zero_hdsc.Base.{
  ℕ, zero, suc, String, Bool, true, false, not, ◌&&◌, ◌||◌, Option, none, some, List, [], ◌∷◌, map,
  ltb, leb, ◌==◌, if◌then◌else◌, str_eq, str_less, take, Result, ok, err, require, ◌>>=◌, ◌>>◌,
  value_error, token_taken, find, select, order_by, is_some, is_in, dict_get, dict_set,
}
use Prim.Native.String.{◌++◌}

pub record Texts : Type 0 where
  pub casefold : String → String
  pub strip : String → String
  pub lstrip : String → String

pub record CommandCapability : Type 0 where
  pub name : String
  pub description : String
  pub action : String
  pub argument_hint : String
  pub aliases : List String
  pub payload : String

-- [a-z0-9]
abbrev pub is_alphanumeric : Char → Bool
is_alphanumeric c =
    (leb b'a' (code c) && leb (code c) b'z') || (leb b'0' (code c) && leb (code c) b'9')

-- [a-z0-9-]{0,n}
unfoldable pub is_rest : ℕ → String → Bool
is_rest n String.[] = true
is_rest zero (String.◌∷◌ c s) = false
is_rest (suc n) (String.◌∷◌ c s) = (is_alphanumeric c || code c == b'-') && is_rest n s

-- _COMMAND_NAME.fullmatch(value) is not None
unfoldable pub is_command_name : String → Bool
unfolding is_rest
is_command_name String.[] = false
is_command_name (String.◌∷◌ c s) = is_alphanumeric c && is_rest 63 s

abbrev pub all_names : List String → Bool
all_names [] = true
all_names (v ∷ vs) = is_command_name v && all_names vs

-- CommandCapability.__post_init__
unfoldable pub check_capability : Texts → CommandCapability → Result (Unit {0})
check_capability t c = do
  require (all_names (c.name ∷ c.aliases))
      (value_error "command names and aliases must use lowercase letters, digits, or hyphens")
  require (not (str_eq (t.strip c.description) "") && not (str_eq (t.strip c.action) ""))
      (value_error "command description and action must not be empty")
  require (str_eq c.argument_hint "" || not (str_eq (t.strip c.argument_hint) ""))
      (value_error "command argument hint must not be blank")

abbrev pub requires_argument : CommandCapability → Bool
requires_argument c = not (str_eq c.argument_hint "")

unfoldable pub usage : CommandCapability → String
usage c = "/" ++ (c.name ++ (if requires_argument c then " " ++ c.argument_hint else ""))

pub record ParsedCommand : Type 0 where
  pub capability : CommandCapability
  pub argument : String

pub record CommandRegistry : Type 0 where
  pub commands : List (String × CommandCapability)
  pub tokens : List (String × String)

abbrev pub new_registry : CommandRegistry
new_registry = record { commands = []; tokens = [] }

abbrev pub tokens_of : CommandCapability → List String
tokens_of c = c.name ∷ c.aliases

-- next((token for token in tokens if token in self._tokens), None)
abbrev pub duplicate : CommandRegistry → CommandCapability → Option String
duplicate r c = find (λ t. is_some (dict_get t r.tokens)) (tokens_of c)

-- for token in tokens: self._tokens[token] = name
unfoldable pub set_tokens : String → List String → List (String × String) → List (String × String)
set_tokens name [] d = d
set_tokens name (t ∷ ts) d = set_tokens name ts (dict_set t name d)

abbrev pub register_unless :
    Option String → CommandCapability → CommandRegistry → Result (Unit {0}) × CommandRegistry
register_unless (some token) c r = (err (token_taken token), r)
register_unless none c r = (
  ok tt,
  record {
    commands = dict_set c.name c r.commands;
    tokens = set_tokens c.name (tokens_of c) r.tokens;
  },
)

unfoldable pub register : CommandCapability → CommandRegistry → Result (Unit {0}) × CommandRegistry
register c r = register_unless (duplicate r c) c r

-- removeprefix("/")
abbrev pub remove_slash : String → String
remove_slash String.[] = String.[]
remove_slash (String.◌∷◌ c s) = if code c == b'/' then s else String.◌∷◌ c s

-- The capability that a token names.
unfoldable pub lookup : CommandRegistry → String → Option CommandCapability
lookup r token = elim (dict_get token r.tokens) [
  | none ↦ none
  | some canonical ↦ dict_get canonical r.commands
]

unfoldable pub get : Texts → CommandRegistry → String → Option CommandCapability
get t r name = lookup r (remove_slash (t.casefold name))

-- partition(" "): what stands before the first space, and what after it
unfoldable pub before_space : String → String
before_space String.[] = String.[]
before_space (String.◌∷◌ c s) =
    let rest = before_space s in if code c == b' ' then String.[] else String.◌∷◌ c rest

unfoldable pub after_space : String → Option String
after_space String.[] = none
after_space (String.◌∷◌ c s) = let rest = after_space s in if code c == b' ' then some s else rest

-- value[1:] of a value that starts with "/"
abbrev pub command_text : String → Option String
command_text String.[] = none
command_text (String.◌∷◌ c s) = if code c == b'/' then some s else none

unfoldable pub parse : Texts → CommandRegistry → String → Option ParsedCommand
parse t r raw = elim (command_text (t.strip raw)) [
  | none ↦ none
  | some text ↦ elim (get t r (before_space text)) [
    | none ↦ none
    | some c ↦ some record {
      capability = c;
      argument = elim (after_space text) [ none ↦ "" | some s ↦ t.strip s ];
    }
  ]
]

-- any(alias.startswith(fragment) for alias in aliases)
unfoldable pub any_starts : String → List String → Bool
any_starts fragment [] = false
any_starts fragment (a ∷ aliases) = starts_with a fragment || any_starts fragment aliases

abbrev pub matches : String → CommandCapability → Bool
matches fragment c = starts_with c.name fragment || any_starts fragment c.aliases

-- key = (not name.startswith(fragment), name)
abbrev pub suggested_before : String → CommandCapability → CommandCapability → Bool
suggested_before fragment a b =
    (starts_with a.name fragment && not (starts_with b.name fragment))
    || (not (not (starts_with a.name fragment) && starts_with b.name fragment)
        && str_less a.name b.name)

abbrev pub values : List (String × CommandCapability) → List CommandCapability
values d = map (λ e. e.1) d

abbrev pub suggest_for : CommandRegistry → ℕ → String → List CommandCapability
suggest_for r limit fragment =
    if is_some (after_space fragment)
    then []
    else take limit
        (order_by (suggested_before fragment) (select (matches fragment) (values r.commands)))

abbrev pub suggest_text : Texts → CommandRegistry → ℕ → Option String → List CommandCapability
suggest_text t r limit none = []
suggest_text t r limit (some text) = suggest_for r limit (t.casefold text)

-- A limit below 1 suggests nothing, as the slice up to 0 does here.
unfoldable pub suggest : Texts → CommandRegistry → String → ℕ → List CommandCapability
suggest t r raw limit = suggest_text t r limit (command_text (t.lstrip raw))

-- Each name is a key of the dictionary.
unfoldable pub of_names : List (String × CommandCapability) → List String → List CommandCapability
of_names d [] = []
of_names d (n ∷ ns) =
    let rest = of_names d ns in elim (dict_get n d) [ none ↦ rest | some c ↦ c ∷ rest ]

unfoldable pub capabilities : CommandRegistry → List CommandCapability
capabilities r = of_names r.commands (order_by str_less (map (λ e. e.0) r.commands))
