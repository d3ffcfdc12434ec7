-- ===== src/Commands/Suggest.antt =====
-- The suggestions of CommandRegistry in src/ssa/commands/registry.py.
use Prim.Native.Char.{Char, code}
use text.Mathlib.Text.{starts_with}
use text.Mathlib.TextBridge.{IsPrefix}
use text.Mathlib.TextEquality.{starts_with_iff}
use mathlib.Core.Option
use mathlib.Core.Path.{subst}
use zero_hdsc.Base.{
  ℕ, ◌≤◌, String, true, false, none, some, List, [], ◌∷◌, ◌≡◌, ◌⊎◌, refl, sym, ◌∙◌, ap, arith,
  length, length-take, take, All, All-take, All-imp, Has, first_has, later_has, Has-select,
  Has-order_by, All-Has, take_all, length-order_by, length-select, ◌<◌, ltb, All-select,
  All-order_by, select, order_by, is_some, Bool-cases, Option-cases, inl, inr, ◌==◌,
}
use zero_hdsc.Commands.{
  CommandCapability, CommandRegistry, Texts, command_text, after_space, matches, any_starts, values,
  suggested_before, suggest, suggest_for,
}

-- The name or an alias of the capability starts with the fragment.
abbrev pub IsNamed : String → CommandCapability → Type 0
IsNamed fragment c = (token : String) × Has token (c.name ∷ c.aliases) × IsPrefix fragment token

-- The text after a slash.
pub data Slash : String → String → Type 0 where
  slash : (c : Char) (text : String) → code c ≡ b'/' → Slash (String.◌∷◌ c text) text

-- The capability is one that `suggest` may give: it is registered, and its name or an alias starts
-- with the case-folded text after the slash, which has no space.
pub record IsSuggestion (t : Texts) (r : CommandRegistry) (raw : String) (c : CommandCapability)
    : Type 0 where
  pub text : String
  pub typed : Slash (t.lstrip raw) text
  pub unspaced : is_some (after_space (t.casefold text)) ≡ false
  pub named : IsNamed (t.casefold text) c
  pub registered : Has c (values r.commands)

-- What becomes of a registered capability: it is given, or it is none that `suggest` may give, or
-- more capabilities are registered than the limit.
pub data Treats (t : Texts) (r : CommandRegistry) (raw : String) (limit : ℕ) (c : CommandCapability)
    : Type 0 where
  suggested : Has c (suggest t r raw limit) → Treats t r raw limit c
  unfit : ¬ IsSuggestion t r raw c → Treats t r raw limit c
  crowded : limit < length (values r.commands) → Treats t r raw limit c

any_starts-Has :
    (fragment : String) (aliases : List String)
    → any_starts fragment aliases ≡ true
    → (token : String) × Has token aliases × IsPrefix fragment token
unfolding any_starts
any_starts-Has fragment [] h = cc
any_starts-Has fragment (a ∷ aliases) h = elim (Bool-cases (starts_with a fragment)) [
  | inl e ↦ (a, first_has aliases, (starts_with_iff a fragment).0 e)
  | inr e ↦
      let (token, there, prefix) = any_starts-Has fragment aliases (ground (arith, e, h)) in
      (token, later_has a aliases there, prefix)
]

Has-any_starts :
    (fragment token : String) {aliases : List String}
    → Has token aliases
    → starts_with token fragment ≡ true
    → any_starts fragment aliases ≡ true
unfolding any_starts
Has-any_starts fragment token (first_has aliases) h = rw h refl
Has-any_starts fragment token (later_has a aliases there) h =
    elim (Bool-cases (starts_with a fragment)) [
      | inl e ↦ rw e refl
      | inr e ↦ rw e (Has-any_starts fragment token there h)
    ]

matches-IsNamed :
    (fragment : String) (c : CommandCapability) → matches fragment c ≡ true → IsNamed fragment c
unfolding any_starts
matches-IsNamed fragment c h = any_starts-Has fragment (c.name ∷ c.aliases) h

IsNamed-matches :
    (fragment : String) (c : CommandCapability) → IsNamed fragment c → matches fragment c ≡ true
unfolding any_starts
IsNamed-matches fragment c (token, there, prefix) =
    Has-any_starts fragment token there ((starts_with_iff token fragment).1 prefix)

Slash-command_text : {value text : String} → Slash value text → command_text value ≡ some text
Slash-command_text (slash c text e) = rw e refl

command_text-Slash : (value text : String) → command_text value ≡ some text → Slash value text
command_text-Slash String.[] text h = cc
command_text-Slash (String.◌∷◌ c s) text h = elim (Bool-cases (code c == b'/')) [
  | inl e ↦
      let same : s ≡ text = Option.some-injective s text (rw e at h) in
      subst (λ x. Slash (String.◌∷◌ c s) x) same (slash c s (ground (arith, e)))
  | inr e ↦ let no : none ≡ some text = rw e at h in cc
]

module _ (t : Texts) (r : CommandRegistry) (raw : String) where
  abbrev rest : String → List CommandCapability
  rest fragment =
      order_by (suggested_before fragment) (select (matches fragment) (values r.commands))

  suggest_for-All :
      (limit : ℕ) (text : String)
      → Slash (t.lstrip raw) text
      → All (IsSuggestion t r raw) (suggest_for r limit (t.casefold text))
  suggest_for-All limit text typed =
      let fragment = t.casefold text in
      elim (Bool-cases (is_some (after_space fragment))) [
        | inl e ↦ rw e tt
        | inr e ↦
            let Found =
              λ (c : CommandCapability). (matches fragment c ≡ true) × Has c (values r.commands) in
            rw e (
              All-take (IsSuggestion t r raw) limit _ (
                All-order_by (IsSuggestion t r raw) (suggested_before fragment) _ (
                  All-imp Found (IsSuggestion t r raw) _
                    (λ c h. record {
                      text = text;
                      typed = typed;
                      unspaced = e;
                      named = matches-IsNamed fragment c h.0;
                      registered = h.1;
                    })
                    (All-select (λ c. Has c (values r.commands)) (matches fragment)
                      (values r.commands) (All-Has (values r.commands))))))
      ]

  suggest-All : (limit : ℕ) → All (IsSuggestion t r raw) (suggest t r raw limit)
  unfolding suggest
  suggest-All limit = elim (Option-cases (command_text (t.lstrip raw))) [
    | inl e ↦ rw e tt
    | inr (text, e) ↦ rw e (suggest_for-All limit text (command_text-Slash (t.lstrip raw) text e))
  ]

  suggest-length : (limit : ℕ) → length (suggest t r raw limit) ≤ limit
  unfolding suggest
  suggest-length limit = elim (Option-cases (command_text (t.lstrip raw))) [
    | inl e ↦ rw e (omega arith)
    | inr (text, e) ↦ elim (Bool-cases (is_some (after_space (t.casefold text)))) [
      | inl k ↦ rw (e, k) (omega arith)
      | inr k ↦ rw (e, k) (rw (length-take limit (rest (t.casefold text))) (omega arith))
    ]
  ]

  -- A capability that may be given is given, where the limit takes all.
  Has-suggest :
      (limit : ℕ) (c : CommandCapability)
      → length (values r.commands) ≤ limit
      → IsSuggestion t r raw c
      → Has c (suggest t r raw limit)
  unfolding suggest
  Has-suggest limit c few h =
      let fragment = t.casefold h.text in
      let fitting = select (matches fragment) (values r.commands) in
      let ordered = order_by (suggested_before fragment) fitting in
      let all : take limit ordered ≡ ordered = take_all limit ordered (
        omega (
          arith,
          few,
          length-order_by (suggested_before fragment) fitting,
          length-select (matches fragment) (values r.commands),
        )) in
      rw (Slash-command_text h.typed, h.unspaced, all)
        (Has-order_by c (suggested_before fragment)
          (Has-select c (matches fragment) (IsNamed-matches fragment c h.named) h.registered))

  -- Whether a registered capability may be given, as the code finds it out.
  IsSuggestion-cases :
      (c : CommandCapability)
      → Has c (values r.commands)
      → IsSuggestion t r raw c ⊎ (¬ IsSuggestion t r raw c)
  IsSuggestion-cases c there = elim (Option-cases (command_text (t.lstrip raw))) [
    | inl e ↦ inr (λ h. let no : none ≡ some h.text = sym e ∙ Slash-command_text h.typed in cc)
    | inr (text, e) ↦
        let same : (h : IsSuggestion t r raw c) → text ≡ h.text =
          λ h. Option.some-injective text h.text (sym e ∙ Slash-command_text h.typed) in
        let fragment = t.casefold text in
        elim (Bool-cases (is_some (after_space fragment))) [
          | inl k ↦ inr (λ h.
              let no : true ≡ false =
                sym k ∙ (ap (λ x. is_some (after_space (t.casefold x))) (same h) ∙ h.unspaced) in
              cc)
          | inr k ↦ elim (Bool-cases (matches fragment c)) [
            | inl m ↦ inl (record {
              text = text;
              typed = command_text-Slash (t.lstrip raw) text e;
              unspaced = k;
              named = matches-IsNamed fragment c m;
              registered = there;
            })
            | inr m ↦ inr (λ h.
                let no : false ≡ true =
                  sym m
                  ∙ (ap (λ x. matches (t.casefold x) c) (same h)
                      ∙ IsNamed-matches (t.casefold h.text) c h.named) in
                cc)
          ]
        ]
  ]

  Has-Treats :
      (limit : ℕ) (c : CommandCapability) → Has c (values r.commands) → Treats t r raw limit c
  Has-Treats limit c there = elim (Bool-cases (ltb limit (length (values r.commands)))) [
    | inl e ↦ crowded (ground (arith, e))
    | inr e ↦ elim (IsSuggestion-cases c there) [
      | inl h ↦ suggested (Has-suggest limit c (ground (arith, e)) h)
      | inr h ↦ unfit h
    ]
  ]

-- Whatever text has been typed, `suggest` gives at most as many capabilities as the limit. Each is
-- registered, and its name or an alias starts with the case-folded text after the slash, which has
-- no space. Each registered capability of which this is true is given, unless more are registered
-- than the limit.
pub suggest-Suggests :
    (t : Texts) (r : CommandRegistry) (raw : String) (limit : ℕ)
    → (length (suggest t r raw limit) ≤ limit)
      × All (IsSuggestion t r raw) (suggest t r raw limit)
      × All (Treats t r raw limit) (values r.commands)
suggest-Suggests t r raw limit = (
  suggest-length t r raw limit,
  suggest-All t r raw limit,
  All-imp (λ c. Has c (values r.commands)) (Treats t r raw limit) (values r.commands)
      (Has-Treats t r raw limit) (All-Has (values r.commands)),
)
