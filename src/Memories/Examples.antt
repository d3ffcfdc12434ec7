-- ===== src/Memories/Examples.antt =====
-- src/ssa/storage/memory_repository.py: runs of the repository on concrete tables.
use zero_hdsc.Base.{
  ℕ, String, ◌≡◌, refl, Bool, none, List, [], ◌∷◌, str_eq, leb, find, insert_row, select,
  update_where,
}
use zero_hdsc.Domain.Events.{SourceKind, source_kind_value}
use zero_hdsc.Domain.Memories.{Memory, MemoryType, memory_type_value}
use zero_hdsc.Rows.Memories.{memory_row}
use zero_hdsc.Memories.{
  Outside, Added, Memories, insert, insert_bundle, write_bundle, add_evidence, add_all_evidence,
  insert_evidence, add_link, add_all_links, update_status,
}
use zero_hdsc.Memories.Queries.{get_evidence}
use zero_hdsc.Memories.Calls.{Call, respond, run}
use zero_hdsc.Memories.Growth.{IsEvidenced}
use zero_hdsc.Memories.Provenance.{run-IsEvidenced}

abbrev outside : Outside ℕ ℕ (List ℕ)
outside = record {
  add = λ rowid embedding index. Added.added (rowid ∷ index);
  nearest = λ embedding limit index. none;
  vec_rowid = λ id. 7;
  is_weight = λ weight. leb weight 1;
  similarity = λ distance. distance;
  repr_texts = λ texts. "[...]";
}

abbrev known : String → Bool
known id = str_eq id "event-1"

abbrev blue : Memory ℕ
blue = record {
  id = "m1";
  memory_type = MemoryType.semantic;
  source_kind = SourceKind.user_observed;
  content = "likes blue";
  summary = none;
  confidence = 1;
  importance = 1;
  valence = 0;
  arousal = 0;
  embedding_model = "model";
  embedding_dim = 512;
  content_hash = "hash";
  derived_by_model = none;
  prompt_version = none;
  status = "active";
  access_count = 0;
  last_accessed_at_ms = none;
  created_at_ms = 10;
  updated_at_ms = 10;
}

abbrev no_memories : Memories ℕ (List ℕ)
no_memories = record { rows = []; evidence = []; links = []; index = [] }

-- A bundle, the same once more, one with an event that is not there, and changes of the first.
abbrev calls : List (Call ℕ ℕ)
calls =
    Call.insert_bundle_of blue 0 ("event-1" ∷ []) []
    ∷ Call.insert_bundle_of blue 0 ("event-1" ∷ []) []
    ∷ Call.insert_bundle_of (record blue { id = "m2" }) 0 ("event-2" ∷ []) []
    ∷ Call.add_link_of "m1" "m1" "same" 1 20
    ∷ Call.update_status_of "m1" "archived" 30
    ∷ []

run-IsEvidenced_example : IsEvidenced known (run outside known calls no_memories)
run-IsEvidenced_example = run-IsEvidenced outside known calls no_memories tt

-- A link to a memory that is not there takes the memory and its evidence back.
link-rollback :
    (insert_bundle outside known blue 0
      ("event-1" ∷ [])
      (("m2", ("same", (1, 20))) ∷ [])
      no_memories).1
    ≡ no_memories
unfolding insert_bundle write_bundle insert insert_row find add_all_evidence add_evidence
    insert_evidence add_all_links add_link memory_row select memory_type_value source_kind_value
link-rollback = refl

get_evidence-run :
    get_evidence (run outside known calls no_memories).evidence "m1" ≡ ("event-1", "supports") ∷ []
unfolding run respond insert_bundle write_bundle insert insert_row find add_all_evidence
    add_evidence insert_evidence add_all_links add_link memory_row select memory_type_value
    source_kind_value get_evidence update_status update_where
get_evidence-run = refl
