-- ===== src/Rows/Memories.antt =====
-- src/ssa/storage/memory_repository.py: the rows of memories. A text that names no member of an
-- enumeration raises a ValueError.
use zero_hdsc.Base.{ℕ, String, Option, some, Result, ok, or_raise, value_error, ◌>>=◌}
use zero_hdsc.Domain.Events.{source_kind_of, source_kind_value}
use zero_hdsc.Domain.Memories.{Memory, memory_type_of, memory_type_value}

pub record MemoryRow {ℓ} (F : Type ℓ) : Type ℓ where
  pub id : String
  pub memory_type : String
  pub source_kind : String
  pub content : String
  pub summary : Option String
  pub confidence : F
  pub importance : F
  pub valence : F
  pub arousal : F
  pub embedding_model : String
  pub embedding_dim : ℕ
  pub content_hash : String
  pub derived_by_model : Option String
  pub prompt_version : Option String
  pub status : String
  pub access_count : ℕ
  pub last_accessed_at_ms : Option ℕ
  pub vec_rowid : Option ℕ
  pub created_at_ms : ℕ
  pub updated_at_ms : ℕ

-- The parameters of the INSERT.
unfoldable pub memory_row {ℓ} : {F : Type ℓ} → ℕ → Memory F → MemoryRow F
memory_row vec_rowid memory = record {
  id = memory.id;
  memory_type = memory_type_value memory.memory_type;
  source_kind = source_kind_value memory.source_kind;
  content = memory.content;
  summary = memory.summary;
  confidence = memory.confidence;
  importance = memory.importance;
  valence = memory.valence;
  arousal = memory.arousal;
  embedding_model = memory.embedding_model;
  embedding_dim = memory.embedding_dim;
  content_hash = memory.content_hash;
  derived_by_model = memory.derived_by_model;
  prompt_version = memory.prompt_version;
  status = memory.status;
  access_count = memory.access_count;
  last_accessed_at_ms = memory.last_accessed_at_ms;
  vec_rowid = some vec_rowid;
  created_at_ms = memory.created_at_ms;
  updated_at_ms = memory.updated_at_ms;
}

unfoldable pub row_to_memory {ℓ} : {F : Type ℓ} → MemoryRow F → Result (Memory F)
row_to_memory row = do
  memory_type ← or_raise (memory_type_of row.memory_type) (value_error "")
  source_kind ← or_raise (source_kind_of row.source_kind) (value_error "")
  ok record {
    id = row.id;
    memory_type = memory_type;
    source_kind = source_kind;
    content = row.content;
    summary = row.summary;
    confidence = row.confidence;
    importance = row.importance;
    valence = row.valence;
    arousal = row.arousal;
    embedding_model = row.embedding_model;
    embedding_dim = row.embedding_dim;
    content_hash = row.content_hash;
    derived_by_model = row.derived_by_model;
    prompt_version = row.prompt_version;
    status = row.status;
    access_count = row.access_count;
    last_accessed_at_ms = row.last_accessed_at_ms;
    created_at_ms = row.created_at_ms;
    updated_at_ms = row.updated_at_ms;
  }
