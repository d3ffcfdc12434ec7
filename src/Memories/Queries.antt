-- ===== src/Memories/Queries.antt =====
-- src/ssa/storage/memory_repository.py: the queries of SqliteMemoryRepository.
use zero_hdsc.Base.{
  ℕ, String, Bool, true, Option, none, some, List, [], ◌∷◌, ◌&&◌, map, leb, ◌==◌, if◌then◌else◌,
  str_eq, Result, ok, ◌>>=◌, find, select, order_by, take, length, fetch_one, fetch_all,
}
use zero_hdsc.Domain.Memories.{Memory, MemoryType, memory_type_value}
use zero_hdsc.Rows.Memories.{MemoryRow, row_to_memory}
use zero_hdsc.Memories.{EvidenceRow, LinkRow, Memories, Outside}

abbrev at_rowid : Option ℕ → ℕ → Bool
at_rowid none vec_rowid = Bool.false
at_rowid (some n) vec_rowid = n == vec_rowid

abbrev pub is_of_type : Option MemoryType → MemoryType → Bool
is_of_type none actual = true
is_of_type (some wanted) actual = str_eq (memory_type_value actual) (memory_type_value wanted)

module _ {ℓ} {F : Type ℓ} where
  unfoldable pub get : List (MemoryRow F) → String → Result (Option (Memory F))
  get rows memory_id = fetch_one row_to_memory (find (λ r. str_eq r.id memory_id) rows)

  unfoldable pub find_by_content_hash : List (MemoryRow F) → String → Result (Option (Memory F))
  find_by_content_hash rows content_hash =
      fetch_one row_to_memory
        (find (λ r. str_eq r.content_hash content_hash && str_eq r.status "active") rows)

  unfoldable pub count : List (MemoryRow F) → ℕ
  count rows = length rows

  unfoldable pub count_by_type : List (MemoryRow F) → MemoryType → ℕ
  count_by_type rows memory_type =
      length (select (λ r. str_eq r.memory_type (memory_type_value memory_type)) rows)

  -- ORDER BY updated_at_ms DESC, rowid DESC: of two rows of one time, the later one comes first.
  abbrev pub latest_first : MemoryRow F → MemoryRow F → Bool
  latest_first a b = leb b.updated_at_ms a.updated_at_ms

  unfoldable pub all_active : List (MemoryRow F) → ℕ → Result (List (Memory F))
  all_active rows limit =
      fetch_all row_to_memory
        (take limit (order_by latest_first (select (λ r. str_eq r.status "active") rows)))

  abbrev pub has_vec_rowid : ℕ → MemoryRow F → Bool
  has_vec_rowid vec_rowid r = at_rowid r.vec_rowid vec_rowid

unfoldable pub get_evidence : List EvidenceRow → String → List (String × String)
get_evidence evidence memory_id =
    map (λ r. (r.event_id, r.relation)) (select (λ r. str_eq r.memory_id memory_id) evidence)

unfoldable pub get_links {ℓ} :
    {F : Type ℓ} → List (LinkRow F) → String → List (String × (String × F))
get_links links memory_id =
    map (λ r. (r.target_memory_id, (r.link_type, r.weight)))
      (select (λ r. str_eq r.source_memory_id memory_id) links)

module _ {ℓ} {F E I : Type ℓ} (o : Outside F E I) where
  -- The memory of one neighbour, where it is wanted.
  abbrev pub keep_similar :
      Option MemoryType → F → Memory F → List (Memory F × F) → List (Memory F × F)
  keep_similar memory_type distance memory rest =
      if is_of_type memory_type memory.memory_type && str_eq memory.status "active"
      then (memory, o.similarity distance) ∷ rest
      else rest

  abbrev pub similar_row :
      Option MemoryType
      → F
      → Option (MemoryRow F)
      → Result (List (Memory F × F))
      → Result (List (Memory F × F))
  similar_row memory_type distance none rest = rest
  similar_row memory_type distance (some row) rest = row_to_memory row >>= λ memory.
      rest >>= λ found. ok (keep_similar memory_type distance memory found)

  unfoldable pub similar_all :
      List (MemoryRow F) → Option MemoryType → List (ℕ × F) → Result (List (Memory F × F))
  similar_all rows memory_type [] = ok []
  similar_all rows memory_type ((vec_rowid, distance) ∷ near) =
      similar_row memory_type distance (find (has_vec_rowid vec_rowid) rows)
        (similar_all rows memory_type near)

  abbrev pub similar_of :
      List (MemoryRow F) → Option MemoryType → Option (List (ℕ × F)) → Result (List (Memory F × F))
  similar_of rows memory_type none = ok []
  similar_of rows memory_type (some near) = similar_all rows memory_type near

  unfoldable pub find_similar :
      E → Option MemoryType → ℕ → Memories F I → Result (List (Memory F × F))
  find_similar embedding memory_type limit t =
      similar_of t.rows memory_type (o.nearest embedding limit t.index)
