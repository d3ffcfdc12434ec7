-- ===== src/Memories.antt =====
-- src/ssa/storage/memory_repository.py: SqliteMemoryRepository, over the tables `memories`,
-- `memory_evidence` and `memory_links` and the vector table `memory_vec`, whose extension is a
-- parameter. A limit is not negative here.
mod Queries
mod Evidence
mod Calls
mod Growth
pub mod Provenance
mod Examples
use zero_hdsc.Base.{
  ℕ, ◌+◌, String, Bool, true, not, ◌&&◌, Option, none, some, List, [], ◌∷◌, ◌++◌, if◌then◌else◌,
  str_eq, Error, Result, ok, err, require, ◌>>◌, value_error, integrity_error, and_then, savepoint,
  after_check, is_some, find, select, insert_row, update_where,
}
use Prim.Native.String.{◌++◌ as str_append}
use zero_hdsc.Rows.Memories.{MemoryRow, memory_row}
use zero_hdsc.Domain.Memories.{Memory}

pub record EvidenceRow : Type 0 where
  pub memory_id : String
  pub event_id : String
  pub relation : String

pub record LinkRow {ℓ} (F : Type ℓ) : Type ℓ where
  pub source_memory_id : String
  pub target_memory_id : String
  pub link_type : String
  pub weight : F
  pub created_at_ms : ℕ

-- What an INSERT into the vector table comes to. An OperationalError is told apart, since the
-- repository suppresses it.
pub data Added {ℓ} (I : Type ℓ) : Type ℓ where
  added : I → Added I
  operational_error : Added I
  raised : Error → Added I

-- What the repository uses of sqlite-vec, of the hash of an id, of floats and of Python's repr.
pub record Outside {ℓ} (F E I : Type ℓ) : Type ℓ where
  pub add : ℕ → E → I → Added I
  pub nearest : E → ℕ → I → Option (List (ℕ × F))  -- `none` is an OperationalError
  pub vec_rowid : String → ℕ
  pub is_weight : F → Bool  -- BETWEEN 0 AND 1
  pub similarity : F → F  -- max(0.0, 1.0 - distance)
  pub repr_texts : List String → String

pub record Memories {ℓ} (F I : Type ℓ) : Type ℓ where
  pub rows : List (MemoryRow F)
  pub evidence : List EvidenceRow
  pub links : List (LinkRow F)
  pub index : I

-- PRIMARY KEY (memory_id, event_id, relation)
abbrev pub same_evidence : EvidenceRow → EvidenceRow → Bool
same_evidence new old =
    str_eq old.memory_id new.memory_id
    && (str_eq old.event_id new.event_id && str_eq old.relation new.relation)

-- INSERT OR IGNORE, which ignores no FOREIGN KEY.
unfoldable pub insert_evidence :
    Bool → EvidenceRow → List EvidenceRow → Result {0} Unit × List EvidenceRow
insert_evidence foreign row rows = elim (find (same_evidence row) rows) [
  | some _ ↦ (ok tt, rows)
  | none ↦
      if foreign
      then (ok tt, rows ++ row ∷ [])
      else (err (integrity_error "FOREIGN KEY constraint failed"), rows)
]

-- PRIMARY KEY (source_memory_id, target_memory_id, link_type)
abbrev pub same_link {ℓ} : {F : Type ℓ} → LinkRow F → LinkRow F → Bool
same_link new old =
    str_eq old.source_memory_id new.source_memory_id
    && (str_eq old.target_memory_id new.target_memory_id && str_eq old.link_type new.link_type)

module _ {ℓ} {F I : Type ℓ} where
  abbrev pub exists_memory : Memories F I → String → Bool
  exists_memory t id = is_some (find (λ r. str_eq r.id id) t.rows)

  -- `known` tells the events.
  unfoldable pub add_evidence :
      (String → Bool) → String → String → String → Memories F I → Result {0} Unit × Memories F I
  add_evidence known memory_id event_id relation t =
      let row : EvidenceRow = record {
        memory_id = memory_id;
        event_id = event_id;
        relation = relation;
      } in
      let (result, rows) =
        insert_evidence (exists_memory t memory_id && known event_id) row t.evidence in
      (result, record t { evidence = rows })

  unfoldable pub add_all_evidence :
      (String → Bool) → String → List String → Memories F I → Result {0} Unit × Memories F I
  add_all_evidence known memory_id [] t = (ok tt, t)
  add_all_evidence known memory_id (event_id ∷ ids) t =
      and_then (add_evidence known memory_id event_id "supports" t)
        (λ _ t'. add_all_evidence known memory_id ids t')

  -- INSERT OR REPLACE
  unfoldable pub add_link :
      (F → Bool) → String → String → String → F → ℕ → Memories F I → Result {0} Unit × Memories F I
  add_link is_weight source target link_type weight now t =
      let row : LinkRow F = record {
        source_memory_id = source;
        target_memory_id = target;
        link_type = link_type;
        weight = weight;
        created_at_ms = now;
      } in
      if not (is_weight weight)
      then (err (integrity_error "CHECK constraint failed"), t)
      else if exists_memory t source && exists_memory t target
      then (ok tt, record t { links = select (λ old. not (same_link row old)) t.links ++ row ∷ [] })
      else (err (integrity_error "FOREIGN KEY constraint failed"), t)

  unfoldable pub add_all_links :
      (F → Bool)
      → String
      → List (String × (String × (F × ℕ)))
      → Memories F I
      → Result {0} Unit × Memories F I
  add_all_links is_weight source [] t = (ok tt, t)
  add_all_links is_weight source ((target, (link_type, (weight, now))) ∷ links) t =
      and_then (add_link is_weight source target link_type weight now t)
        (λ _ t'. add_all_links is_weight source links t')

  unfoldable pub update_status : String → String → ℕ → Memories F I → Memories F I
  update_status id status now t = record t {
    rows =
        update_where (λ r. str_eq r.id id) (λ r. record r { status = status; updated_at_ms = now })
          t.rows;
  }

  unfoldable pub increment_access : String → ℕ → Memories F I → Memories F I
  increment_access id now t = record t {
    rows =
        update_where (λ r. str_eq r.id id)
          (λ r. record r { access_count = r.access_count + 1; last_accessed_at_ms = some now })
          t.rows;
  }

abbrev pub has_any : List String → Bool
has_any [] = Bool.false
has_any (_ ∷ _) = true

module _ {ℓ} {F E I : Type ℓ} (o : Outside F E I) where
  -- with suppress(sqlite3.OperationalError)
  abbrev pub indexed : Memory F → Added I → Memories F I → Result (Memory F) × Memories F I
  indexed memory (added index) t = (ok memory, record t { index = index })
  indexed memory operational_error t = (ok memory, t)
  indexed memory (raised e) t = (err e, t)

  unfoldable pub insert : Memory F → E → Memories F I → Result (Memory F) × Memories F I
  insert memory embedding t =
      let vec_rowid = o.vec_rowid memory.id in
      let (result, rows) =
        insert_row (λ r. str_eq r.id memory.id) true (memory_row vec_rowid memory) t.rows in
      and_then (result, record t { rows = rows })
        (λ _ t'. indexed memory (o.add vec_rowid embedding t'.index) t')

  -- The statements under the savepoint.
  unfoldable pub write_bundle :
      (String → Bool)
      → Memory F
      → E
      → List String
      → List (String × (String × (F × ℕ)))
      → Memories F I
      → Result (Memory F) × Memories F I
  write_bundle known memory embedding event_ids links t =
      and_then (insert memory embedding t) (λ _ t1.
        and_then (add_all_evidence known memory.id event_ids t1) (λ _ t2.
          and_then (add_all_links o.is_weight memory.id links t2) (λ _ t3. (ok memory, t3))))

  -- The checks before the savepoint.
  abbrev pub check_evidence : (String → Bool) → List String → Result {0} Unit
  check_evidence known event_ids =
      let missing = select (λ id. not (known id)) event_ids in
      require (has_any event_ids) (value_error "memory persistence requires evidence")
      >> require (not (has_any missing))
          (value_error (str_append "unknown memory evidence events: " (o.repr_texts missing)))

  unfoldable pub insert_bundle :
      (String → Bool)
      → Memory F
      → E
      → List String
      → List (String × (String × (F × ℕ)))
      → Memories F I
      → Result (Memory F) × Memories F I
  insert_bundle known memory embedding event_ids links t =
      after_check (check_evidence known event_ids) t
        (savepoint t (write_bundle known memory embedding event_ids links t))
