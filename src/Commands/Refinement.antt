-- ===== src/Commands/Refinement.antt =====
-- The two dictionaries of CommandRegistry in src/ssa/commands/registry.py as one function from
-- tokens to capabilities.
use zero_hdsc.Base.{
  String, Option, none, some, List, [], ◌∷◌, ◌≡◌, refl, sym, ap, ◌∙◌, if◌then◌else◌, find, is_some,
  is_in, dict_get, Option-cases, inl, inr,
}
use zero_hdsc.Commands.{
  CommandCapability, CommandRegistry, Texts, new_registry, tokens_of, duplicate, register, lookup,
  get, remove_slash,
}
use zero_hdsc.Commands.Tokens.{IsSound, find-taken, added-IsSound, lookup-added}

-- The abstract registry: what each token names.
abbrev pub Meaning : Type 0
Meaning = String → Option CommandCapability

-- A capability none of whose tokens is taken becomes what they name; else nothing changes.
abbrev pub assign : CommandCapability → Meaning → Meaning
assign c f = elim (find (λ t. is_some (f t)) (tokens_of c)) [
  | none ↦ λ token. if is_in token (tokens_of c) then some c else f token
  | some taken ↦ f
]

abbrev pub replay : List CommandCapability → Meaning → Meaning
replay [] f = f
replay (c ∷ cs) f = replay cs (assign c f)

abbrev pub register_all : List CommandCapability → CommandRegistry → CommandRegistry
register_all [] r = r
register_all (c ∷ cs) r = register_all cs (register c r).1

assign-free :
    (c : CommandCapability) (f : Meaning) (token : String)
    → find (λ t. is_some (f t)) (tokens_of c) ≡ none
    → assign c f token ≡ (if is_in token (tokens_of c) then some c else f token)
assign-free c f token e = rw (assign, e) refl

assign-taken :
    (c : CommandCapability) (f : Meaning) (token t : String)
    → find (λ x. is_some (f x)) (tokens_of c) ≡ some t
    → assign c f token ≡ f token
assign-taken c f token t e = rw (assign, e) refl

register-assign :
    (c : CommandCapability) (r : CommandRegistry)
    → IsSound r
    → IsSound (register c r).1
      × ((token : String) → lookup (register c r).1 token ≡ assign c (lookup r) token)
unfolding register
register-assign c r h = elim (Option-cases (duplicate r c)) [
  | inl e ↦ rw e (
    added-IsSound c r h e,
    λ token.
        lookup-added c r h e token
        ∙ sym (assign-free c (lookup r) token (find-taken r (tokens_of c) h ∙ e)),
  )
  | inr (t, e) ↦
      rw e (h, λ token. sym (assign-taken c (lookup r) token t (find-taken r (tokens_of c) h ∙ e)))
]

new-IsSound : IsSound new_registry
unfolding dict_get
new-IsSound = record { named = λ t n e. cc; taken = λ n e. refl }

nothing : lookup new_registry ≡ (λ token. none)
unfolding lookup dict_get
nothing = refl

run_refines :
    (cs : List CommandCapability) (r : CommandRegistry) (token : String)
    → IsSound r
    → lookup (register_all cs r) token ≡ replay cs (lookup r) token
run_refines [] r token h = refl
run_refines (c ∷ cs) r token h =
    let step = register-assign c r h in
    let same : lookup (register c r).1 ≡ assign c (lookup r) = λ i t. step.1 t i in
    run_refines cs (register c r).1 token step.0 ∙ ap (λ f. replay cs f token) same

-- Whatever capabilities are registered, taken ones included, `get` reads the two dictionaries as one
-- function: it is what a function from tokens to capabilities gives that starts with no token and
-- takes each capability in turn, unless one of its tokens is taken, for the case-folded name without
-- its slash.
pub get-register_all :
    (t : Texts) (cs : List CommandCapability) (name : String)
    → get t (register_all cs new_registry) name
      ≡ replay cs (λ token. none) (remove_slash (t.casefold name))
unfolding get
get-register_all t cs name =
    run_refines cs new_registry (remove_slash (t.casefold name)) new-IsSound
    ∙ ap (λ f. replay cs f (remove_slash (t.casefold name))) nothing
