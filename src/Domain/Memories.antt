-- ===== src/Domain/Memories.antt =====
-- src/ssa/domain/memories.py and src/ssa/domain/enums.py: memories, with the
-- enumeration of their types and its texts. The floating-point numbers are of a type `F`.
use zero_hdsc.Base.{ℕ, String, Option, none, some, if◌then◌else◌, str_eq}
use zero_hdsc.Domain.Events.{SourceKind}

pub data MemoryType : Type 0 where
  episodic semantic relationship self promise unresolved reflection : MemoryType

-- MemoryType.value
unfoldable pub memory_type_value : MemoryType → String
memory_type_value MemoryType.episodic = "episodic"
memory_type_value MemoryType.semantic = "semantic"
memory_type_value MemoryType.relationship = "relationship"
memory_type_value MemoryType.self = "self"
memory_type_value MemoryType.promise = "promise"
memory_type_value MemoryType.unresolved = "unresolved"
memory_type_value MemoryType.reflection = "reflection"

-- MemoryType(text); `none` is a ValueError
unfoldable pub memory_type_of : String → Option MemoryType
memory_type_of text =
    if str_eq text "episodic"
    then some MemoryType.episodic
    else if str_eq text "semantic"
    then some MemoryType.semantic
    else if str_eq text "relationship"
    then some MemoryType.relationship
    else if str_eq text "self"
    then some MemoryType.self
    else if str_eq text "promise"
    then some MemoryType.promise
    else if str_eq text "unresolved"
    then some MemoryType.unresolved
    else if str_eq text "reflection"
    then some MemoryType.reflection
    else none

pub record Memory {ℓ} (F : Type ℓ) : Type ℓ where
  pub id : String
  pub memory_type : MemoryType
  pub source_kind : SourceKind
  pub content : String
  pub summary : Option String
  pub confidence : F
  pub importance : F
  pub valence : F
  pub arousal : F
  pub embedding_model : String
  pub embedding_dim : ℕ
  pub content_hash : String
  pub derived_by_model : Option String
  pub prompt_version : Option String
  pub status : String
  pub access_count : ℕ
  pub last_accessed_at_ms : Option ℕ
  pub created_at_ms : ℕ
  pub updated_at_ms : ℕ
