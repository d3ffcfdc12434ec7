-- ===== src/Tools/Dispatch.antt =====
-- What ToolKernel.execute in src/ssa/tools/kernel.py reports, and which of the registered tools it
-- calls.
use mathlib.Core.Path.{subst}
use zero_hdsc.Base.{
  ℕ, String, Bool, true, false, Option, none, some, List, [], ◌∷◌, ◌≡◌, refl, ◌∙◌, arith, eq_iff,
  if◌then◌else◌, str_eq, find, dict_get, dict_get-dict_set, Bool-cases, Option-cases, inl, inr,
}
use zero_hdsc.Tools.{
  Decoder, Attempt, returned, refused, broken, ToolOutcome, ToolCall, ToolCapability, Registry,
  register, get, attempt, execute, execute_with, conclude, after,
}

-- Success is only concluded from an outcome that says so.
conclude_ok {ℓ} :
    {V : Type ℓ} (blank : V) (limit : ℕ) (call : ToolCall) (duration : ℕ)
    (result : Attempt (ToolOutcome V))
    → (conclude blank limit call duration result).outcome.ok ≡ true
    → (outcome : ToolOutcome V) × (result ≡ returned outcome) × (outcome.ok ≡ true)
conclude_ok blank limit call duration (returned outcome) h = (outcome, refl, h)
conclude_ok blank limit call duration (refused text) h = cc
conclude_ok blank limit call duration (broken text) h = cc

after-returned {ℓ κ} :
    {A : Type ℓ} {B : Type κ} (x : Attempt A) (next : A → Attempt B) (b : B)
    → after x next ≡ returned b
    → (a : A) × ((x ≡ returned a) × (next a ≡ returned b))
after-returned (returned a) next b h = (a, (refl, h))
after-returned (refused text) next b h = cc
after-returned (broken text) next b h = cc

if_object {ℓ} :
    {B : Type ℓ} (t : Bool) (x : Attempt B) (b : B)
    → (if t then x else refused "tool arguments must be a JSON object") ≡ returned b
    → (t ≡ true) × (x ≡ returned b)
if_object true x b h = (refl, h)
if_object false x b h = cc

module _ {ℓ κ} {V : Type ℓ} {C : Type κ} (json : Decoder V) where
  -- A call that succeeds: a tool is registered under its name, its arguments are a JSON object
  -- that the model of the tool accepts, and the handler, called with what the model made of them,
  -- returned an outcome that says so.
  pub record Succeeds (r : Registry V C) (call : ToolCall) (context : C) : Type (ℓ ⊔ κ) where
    pub capability : ToolCapability V C
    pub decoded : V
    pub arguments : V
    pub outcome : ToolOutcome V
    pub registered : get r call.name ≡ some capability
    pub loaded : json.loads call.arguments ≡ returned decoded
    pub object : json.is_object decoded ≡ true
    pub accepted : capability.validate decoded ≡ returned arguments
    pub handled : capability.handler arguments context ≡ returned outcome
    pub succeeded : outcome.ok ≡ true

  attempt-Succeeds :
      (r : Registry V C) (c : ToolCapability V C) (call : ToolCall) (context : C)
      (outcome : ToolOutcome V)
      → get r call.name ≡ some c
      → attempt json c call context ≡ returned outcome
      → outcome.ok ≡ true
      → Succeeds r call context
  attempt-Succeeds r c call context outcome e h k =
      let (decoded, (loaded, rest)) = after-returned (json.loads call.arguments) _ outcome h in
      let (object, rest') = if_object (json.is_object decoded) _ outcome rest in
      let (arguments, (accepted, handled)) = after-returned (c.validate decoded) _ outcome rest' in
      record {
        capability = c;
        decoded = decoded;
        arguments = arguments;
        outcome = outcome;
        registered = e;
        loaded = loaded;
        object = object;
        accepted = accepted;
        handled = handled;
        succeeded = k;
      }

module _ {ℓ κ} {V : Type ℓ} {C : Type κ} (repr : String → String) (blank : V)
    (json : Decoder V) where
  execute_with-Succeeds :
      (limit : ℕ) (r : Registry V C) (found : Option (ToolCapability V C)) (call : ToolCall)
      (context : C) (duration : ℕ)
      → get r call.name ≡ found
      → (execute_with repr blank json limit found call context duration).outcome.ok ≡ true
      → Succeeds json r call context
  execute_with-Succeeds limit r none call context duration e h = cc
  execute_with-Succeeds limit r (some c) call context duration e h =
      let (outcome, handled, succeeded) =
        conclude_ok blank limit call duration (attempt json c call context) h in
      attempt-Succeeds json r c call context outcome e handled succeeded

  -- Only a tool can report success: where the result of a call says that it went well, a capability
  -- is registered under the name of the call, the arguments of the call are a JSON object that its
  -- model accepted, and its handler, called with what the model returned, returned an outcome that
  -- says so.
  pub execute-Succeeds :
      (limit : ℕ) (r : Registry V C) (call : ToolCall) (context : C) (duration : ℕ)
      → (execute repr blank json limit r call context duration).outcome.ok ≡ true
      → Succeeds json r call context
  unfolding execute
  execute-Succeeds limit r call context duration h =
      execute_with-Succeeds limit r (get r call.name) call context duration refl h

module _ {ℓ κ} {V : Type ℓ} {C : Type κ} where
  abbrev pub register_all : List (ToolCapability V C) → Registry V C → Registry V C
  register_all [] r = r
  register_all (c ∷ cs) r = register_all cs (register c r).1

  -- The first of two lookups that finds something.
  abbrev pub or_else :
      Option (ToolCapability V C) → Option (ToolCapability V C) → Option (ToolCapability V C)
  or_else none o = o
  or_else (some c) o = some c

  or_else-none : (o : Option (ToolCapability V C)) → o ≡ or_else o none
  or_else-none none = refl
  or_else-none (some c) = refl

  or_else_assoc :
      (a : Option (ToolCapability V C)) (b : Bool) (c : ToolCapability V C)
      (f : Option (ToolCapability V C))
      → or_else (or_else a (if b then some c else none)) f ≡ or_else a (if b then some c else f)
  or_else_assoc none true c f = refl
  or_else_assoc none false c f = refl
  or_else_assoc (some a) b c f = refl

  get-register :
      (c : ToolCapability V C) (r : Registry V C) (name : String)
      → dict_get name (register c r).1
        ≡ or_else (dict_get name r) (if str_eq c.name name then some c else none)
  unfolding register
  get-register c r name = elim (Option-cases (dict_get c.name r)) [
    | inl e ↦ rw e (
        dict_get-dict_set c.name name c r ∙ elim (Bool-cases (str_eq c.name name)) [
          | inl k ↦
              let same : c.name ≡ name = ground (arith, k, eq_iff c.name name) in
              let free : dict_get name r ≡ none = subst (λ x. dict_get x r ≡ none) same e in
              rw (k, free) refl
          | inr k ↦ rw k (or_else-none (dict_get name r))
        ])
    | inr (d, e) ↦ rw e (elim (Bool-cases (str_eq c.name name)) [
      | inl k ↦
          let same : c.name ≡ name = ground (arith, k, eq_iff c.name name) in
          let there : dict_get name r ≡ some d = subst (λ x. dict_get x r ≡ some d) same e in
          rw there refl
      | inr k ↦ rw k (or_else-none (dict_get name r))
    ])
  ]

  from_some :
      (cs : List (ToolCapability V C)) (r : Registry V C) (name : String)
      → dict_get name (register_all cs r)
        ≡ or_else (dict_get name r) (find (λ c. str_eq c.name name) cs)
  unfolding find
  from_some [] r name = or_else-none (dict_get name r)
  from_some (c ∷ cs) r name =
      from_some cs (register c r).1 name
      ∙ (rw (get-register c r name) (
          or_else_assoc (dict_get name r) (str_eq c.name name) c
            (find (λ x. str_eq x.name name) cs)))

  -- Registered or not, a later capability of a name does not replace an earlier one: after any
  -- registrations, `get` gives the first capability of the name.
  pub get-register_first :
      (cs : List (ToolCapability V C)) (name : String)
      → get (register_all cs []) name ≡ find (λ c. str_eq c.name name) cs
  unfolding get dict_get
  get-register_first cs name = from_some cs [] name
