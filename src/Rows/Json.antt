-- ===== src/Rows/Json.antt =====
-- Python's `json`, as the repositories use it: `_json`, which is `json.dumps`, and `json.loads`, on
-- the objects of the columns (of a type `V`) and on lists of texts.
use zero_hdsc.Base.{String, ◌≡◌, refl, false, List, Result, ok, if◌then◌else◌, str_eq}

pub record Json {ℓ} (V : Type ℓ) : Type ℓ where
  pub dumps : V → String
  pub loads : String → Result V
  pub dump_texts : List String → String
  pub load_texts : String → Result (List String)

-- text or default
unfoldable pub or_default : String → String → String
or_default text default = if str_eq text "" then default else text

-- The value is written as a text that is not empty, and the text is read as the value.
abbrev pub Reads {ℓ} : {V : Type ℓ} → Json V → V → Type ℓ
Reads json v = (str_eq (json.dumps v) "" ≡ false) × (json.loads (json.dumps v) ≡ ok v)

abbrev pub ReadsTexts {ℓ} : {V : Type ℓ} → Json V → List String → Type 0
ReadsTexts json texts =
    (str_eq (json.dump_texts texts) "" ≡ false)
    × (json.load_texts (json.dump_texts texts) ≡ ok texts)

module _ {ℓ} {V : Type ℓ} (json : Json V) where
  pub or_default-dumps :
      (v : V) (default : String)
      → str_eq (json.dumps v) "" ≡ false
      → or_default (json.dumps v) default ≡ json.dumps v
  unfolding or_default
  or_default-dumps v default h = rw h refl

  pub or_default-dump_texts :
      (texts : List String) (default : String)
      → str_eq (json.dump_texts texts) "" ≡ false
      → or_default (json.dump_texts texts) default ≡ json.dump_texts texts
  unfolding or_default
  or_default-dump_texts texts default h = rw h refl
