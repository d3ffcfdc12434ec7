-- ===== src/Commands/Tokens.antt =====
-- What a capability that comes in changes in the two dictionaries of CommandRegistry in
-- src/ssa/commands/registry.py.
use zero_hdsc.Base.{
  String, Bool, true, false, Option, none, some, List, [], ◌∷◌, ◌≡◌, refl, sym, ◌∙◌, arith, eq_iff,
  eq_refl, if◌then◌else◌, str_eq, find, is_some, is_in, dict_get, dict_set, dict_get-dict_set,
  Bool-cases, Option-cases, inl, inr,
}
use mathlib.Core.Path.{subst}
use mathlib.Core.Option.{some-injective}
use zero_hdsc.Commands.{
  CommandCapability, CommandRegistry, tokens_of, duplicate, set_tokens, lookup,
}

-- Each token names an entry of `commands`, and the name of each entry is a token.
pub record IsSound (r : CommandRegistry) : Type 0 where
  pub named :
      (t n : String)
      → dict_get t r.tokens ≡ some n
      → (c : CommandCapability) × (dict_get n r.commands ≡ some c)
  pub taken : (n : String) → dict_get n r.tokens ≡ none → dict_get n r.commands ≡ none

dict_get-set_tokens :
    (name token : String) (ts : List String) (d : List (String × String))
    → dict_get token (set_tokens name ts d)
      ≡ (if is_in token ts then some name else dict_get token d)
unfolding set_tokens is_in
dict_get-set_tokens name token [] d = refl
dict_get-set_tokens name token (t ∷ ts) d =
    dict_get-set_tokens name token ts (dict_set t name d)
    ∙ ground (arith, dict_get-dict_set t token name d, eq_iff t token, eq_iff token t)

-- In a sound registry a token has a capability exactly where it is in the dictionary of tokens.
is_some-lookup :
    (r : CommandRegistry) (t : String)
    → IsSound r
    → is_some (lookup r t) ≡ is_some (dict_get t r.tokens)
unfolding lookup
is_some-lookup r t h = elim (Option-cases (dict_get t r.tokens)) [
  | inl e ↦ rw (e, lookup) refl
  | inr (n, e) ↦ let (c, f) = h.named t n e in rw (e, lookup, f) refl
]

lookup-named :
    (r : CommandRegistry) (t n : String)
    → dict_get t r.tokens ≡ some n
    → lookup r t ≡ dict_get n r.commands
unfolding lookup
lookup-named r t n e = rw (lookup, e) refl

lookup-unnamed : (r : CommandRegistry) (t : String) → dict_get t r.tokens ≡ none → lookup r t ≡ none
unfolding lookup
lookup-unnamed r t e = rw (lookup, e) refl

-- The search for a taken token is the same in the registry and in its meaning.
pub find-taken :
    (r : CommandRegistry) (ts : List String)
    → IsSound r
    → find (λ t. is_some (lookup r t)) ts ≡ find (λ t. is_some (dict_get t r.tokens)) ts
unfolding find
find-taken r [] h = refl
find-taken r (t ∷ ts) h = rw (is_some-lookup r t h, find-taken r ts h) refl

find-none :
    (q : String → Bool) (ts : List String) (t : String)
    → find q ts ≡ none
    → is_in t ts ≡ true
    → q t ≡ false
unfolding find is_in
find-none q [] t h k = cc
find-none q (x ∷ ts) t h k = elim (Bool-cases (q x)) [
  | inl e ↦ let no : ⊥ = ground (arith, e, h) in elim no [ ]
  | inr e ↦ elim (Bool-cases (str_eq t x)) [
    | inl f ↦ let same : t ≡ x = ground (arith, f, eq_iff t x) in rw same e
    | inr f ↦ find-none q ts t (ground (arith, e, h)) (ground (arith, f, k))
  ]
]

unset : (o : Option String) → is_some o ≡ false → o ≡ none
unset none h = refl
unset (some t) h = cc

-- The registry after a capability whose tokens are free.
abbrev pub added : CommandCapability → CommandRegistry → CommandRegistry
added c r = record {
  commands = dict_set c.name c r.commands;
  tokens = set_tokens c.name (tokens_of c) r.tokens;
}

module _ (c : CommandCapability) (r : CommandRegistry) (h : IsSound r)
    (free : duplicate r c ≡ none) where
  is_in-name : is_in c.name (tokens_of c) ≡ true
  unfolding is_in
  is_in-name = rw (eq_refl c.name) refl

  -- A text that is no token of the capability is not its name.
  other_name : (n : String) → is_in n (tokens_of c) ≡ false → str_eq c.name n ≡ false
  unfolding is_in
  other_name n i = ground (arith, i, eq_iff c.name n, eq_iff n c.name)

  -- The new name is no entry yet.
  fresh : dict_get c.name r.commands ≡ none
  fresh = h.taken c.name (
      unset (dict_get c.name r.tokens)
        (find-none (λ t. is_some (dict_get t r.tokens)) (tokens_of c) c.name free is_in-name))

  -- What the new tokens and the new entry name, and what the others named before.
  token_in :
      (t : String) → is_in t (tokens_of c) ≡ true → dict_get t (added c r).tokens ≡ some c.name
  token_in t i = dict_get-set_tokens c.name t (tokens_of c) r.tokens ∙ rw i refl

  token_out :
      (t : String)
      → is_in t (tokens_of c) ≡ false
      → dict_get t (added c r).tokens ≡ dict_get t r.tokens
  token_out t i = dict_get-set_tokens c.name t (tokens_of c) r.tokens ∙ rw i refl

  entry_in : dict_get c.name (added c r).commands ≡ some c
  entry_in = dict_get-dict_set c.name c.name c r.commands ∙ rw (eq_refl c.name) refl

  entry_out :
      (n : String)
      → str_eq c.name n ≡ false
      → dict_get n (added c r).commands ≡ dict_get n r.commands
  entry_out n i = dict_get-dict_set c.name n c r.commands ∙ rw i refl

  entry_kept :
      (n : String) (d : CommandCapability)
      → dict_get n r.commands ≡ some d
      → dict_get n (added c r).commands ≡ some d
  entry_kept n d f = elim (Bool-cases (str_eq c.name n)) [
    | inl i ↦
        let same : c.name ≡ n = ground (arith, i, eq_iff c.name n) in
        let nothing : dict_get n r.commands ≡ none =
          subst (λ x. dict_get x r.commands ≡ none) same fresh in
        let no : ⊥ = cc in elim no [ ]
    | inr i ↦ entry_out n i ∙ f
  ]

  added-named :
      (t n : String)
      → dict_get t (added c r).tokens ≡ some n
      → (d : CommandCapability) × (dict_get n (added c r).commands ≡ some d)
  added-named t n e = elim (Bool-cases (is_in t (tokens_of c))) [
    | inl i ↦
        let same : c.name ≡ n = some-injective c.name n (sym (token_in t i) ∙ e) in
        (c, subst (λ x. dict_get x (added c r).commands ≡ some c) same entry_in)
    | inr i ↦ let (d, f) = h.named t n (sym (token_out t i) ∙ e) in (d, entry_kept n d f)
  ]

  added-taken :
      (n : String) → dict_get n (added c r).tokens ≡ none → dict_get n (added c r).commands ≡ none
  added-taken n e = elim (Bool-cases (is_in n (tokens_of c))) [
    | inl i ↦ let set = token_in n i in let no : ⊥ = cc in elim no [ ]
    | inr i ↦ entry_out n (other_name n i) ∙ h.taken n (sym (token_out n i) ∙ e)
  ]

  pub added-IsSound : IsSound (added c r)
  added-IsSound = record { named = added-named; taken = added-taken }

  pub lookup-added :
      (token : String)
      → lookup (added c r) token ≡ (if is_in token (tokens_of c) then some c else lookup r token)
  lookup-added token = elim (Bool-cases (is_in token (tokens_of c))) [
    | inl i ↦ rw i (lookup-named (added c r) token c.name (token_in token i) ∙ entry_in)
    | inr i ↦ rw i (elim (Option-cases (dict_get token r.tokens)) [
      | inl e ↦
          lookup-unnamed (added c r) token (token_out token i ∙ e) ∙ sym (lookup-unnamed r token e)
      | inr (n, e) ↦
          let (d, f) = h.named token n e in
          lookup-named (added c r) token n (token_out token i ∙ e)
          ∙ (entry_kept n d f ∙ (sym f ∙ sym (lookup-named r token n e)))
    ])
  ]
