-- ===== src/Base/Results.antt =====
-- Results of Python calls that may raise.
use Prim.Native.String.{String, ◌++◌}
use Prim.Native.Nat.{ℕ}
use mathlib.Core.Path.{◌≡◌, refl}
use mathlib.Core.Option.{Option, none, some}
use mathlib.Core.Logic.{◌⊎◌, inl, inr}
use mathlib.Core.Bool.{Bool, true, false}
use zero_hdsc.Base.Decimal.{decimal}

-- The exceptions that the modelled code raises, by where it raises them, and `raised`, any
-- exception of a callback, by its class name and its text.
pub data Error : Type 0 where
  unknown_row : String → String → Error  -- KeyError(f"unknown {kind} {id!r}")
  not_registered : String → String → Error  -- LookupError(f"no {kind} registered for {name!r}")
  no_such_initiative : String → Error  -- LookupError(f"initiative {id!r} does not exist")
  value_error : String → Error  -- ValueError(text)
  integrity_error : String → Error  -- sqlite3.IntegrityError
  duplicate_event : Error  -- DuplicateEventError
  -- ValueError(f"unknown {kind} evidence {id!r}")
  unknown_evidence : String → String → Error
  -- ValueError(f"Self-belief version must be {required}, got {version}")
  belief_version : ℕ → ℕ → Error
  -- SelfBeliefVersionConflict(f"Self-belief lineage {id!r} already exists")
  lineage_exists : String → Error
  -- SelfBeliefVersionConflict(f"Expected version {expected}, but current is {current}")
  belief_conflict : ℕ → ℕ → Error
  -- ValueError(f"{kind} version must be {required}, got {version}")
  snapshot_version : String → ℕ → ℕ → Error
  -- {kind}VersionConflict(f"Expected version {expected}, but current is {current}")
  snapshot_conflict : String → ℕ → ℕ → Error
  changed : String → String → Error  -- LearningVersionConflict(f"{kind} {id!r} changed concurrently")
  token_taken : String → Error  -- ValueError(f"slash-command token {token!r} is already registered")
  tool_taken : String → Error  -- ValueError(f"tool capability {name!r} is already registered")
  protocol_error : Error  -- DoubaoProtocolError
  struct_error : Error  -- struct.error
  raised : String → String → Error

-- f"{type(exc).__name__}: {exc}", over Python's `repr` of texts. The text of a KeyError is the
-- `repr` of its argument.
unfoldable pub error_text : (String → String) → Error → String
error_text repr (unknown_row kind id) =
    "KeyError: " ++ repr ("unknown " ++ (kind ++ (" " ++ repr id)))
error_text repr (not_registered kind name) =
    "LookupError: no " ++ (kind ++ (" registered for " ++ repr name))
error_text repr (no_such_initiative id) =
    "LookupError: initiative " ++ (repr id ++ " does not exist")
error_text repr (value_error text) = "ValueError: " ++ text
error_text repr (integrity_error text) = "IntegrityError: " ++ text
error_text repr duplicate_event = "DuplicateEventError"
error_text repr (unknown_evidence kind id) =
    "ValueError: unknown " ++ (kind ++ (" evidence " ++ repr id))
error_text repr (belief_version required version) =
    "ValueError: Self-belief version must be "
    ++ (decimal required ++ (", got " ++ decimal version))
error_text repr (lineage_exists id) =
    "SelfBeliefVersionConflict: Self-belief lineage " ++ (repr id ++ " already exists")
error_text repr (belief_conflict expected current) =
    "SelfBeliefVersionConflict: Expected version "
    ++ (decimal expected ++ (", but current is " ++ decimal current))
error_text repr (snapshot_version kind required version) =
    "ValueError: "
    ++ (kind ++ (" version must be " ++ (decimal required ++ (", got " ++ decimal version))))
error_text repr (snapshot_conflict kind expected current) =
    kind
    ++ ("VersionConflict: Expected version "
        ++ (decimal expected ++ (", but current is " ++ decimal current)))
error_text repr (changed kind id) =
    "LearningVersionConflict: " ++ (kind ++ (" " ++ (repr id ++ " changed concurrently")))
error_text repr (token_taken token) =
    "ValueError: slash-command token " ++ (repr token ++ " is already registered")
error_text repr (tool_taken name) =
    "ValueError: tool capability " ++ (repr name ++ " is already registered")
error_text repr protocol_error = "DoubaoProtocolError"
error_text repr struct_error = "error"
error_text repr (raised name text) = name ++ (": " ++ text)

pub data Result {ℓ} (A : Type ℓ) : Type ℓ where
  ok : A → Result A
  err : Error → Result A

-- What a lookup returns, or the exception that is raised where it returns nothing.
abbrev pub or_raise {ℓ} : {A : Type ℓ} → Option A → Error → Result A
or_raise none e = err e
or_raise (some a) e = ok a

pub Result-cases {ℓ} :
    {A : Type ℓ} (r : Result A) → ((a : A) × (r ≡ ok a)) ⊎ ((e : Error) × (r ≡ err e))
Result-cases (ok a) = inl (a, refl)
Result-cases (err e) = inr (e, refl)

-- `m >>= f` goes on with the value of `m`, and passes on what `m` raises.
infixl 5 ◌>>=◌
abbrev pub ◌>>=◌ {ℓ κ} : {A : Type ℓ} {B : Type κ} → Result A → (A → Result B) → Result B
err problem >>= next = err problem
ok value >>= next = next value

-- `if not test: raise e`
abbrev pub require : Bool → Error → Result (Unit {0})
require true e = ok tt
require false e = err e

-- One statement after another: what the first raises ends both.
abbrev pub and_then {ℓ κ μ} :
    {A : Type ℓ} {B : Type κ} {S : Type μ} → Result A × S → (A → S → Result B × S) → Result B × S
and_then (err e, s) next = (err e, s)
and_then (ok a, s) next = next a s

-- with self._savepoint(): what raises leaves the state as it was before.
abbrev pub savepoint {ℓ κ} : {A : Type ℓ} {S : Type κ} → S → Result A × S → Result A × S
savepoint before (ok a, after) = (ok a, after)
savepoint before (err e, after) = (err e, before)

-- What a check raises, or the state and the result of the rest.
abbrev pub after_check {ℓ κ} :
    {A : Type ℓ} {S : Type κ} → Result (Unit {0}) → S → Result A × S → Result A × S
after_check (ok _) s rest = rest
after_check (err e) s rest = (err e, s)

-- A statement that gives no value, and the rest.
infixl 5 ◌>>◌
abbrev pub ◌>>◌ {ℓ} : {A : Type ℓ} → Result (Unit {0}) → Result A → Result A
m >> k = m >>= λ _. k
