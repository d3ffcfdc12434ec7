-- ===== src/Offline.antt =====
-- src/ssa/storage/lifecycle_repository.py: OfflineAgencyRepository, over the tables
-- `offline_episodes` and `offline_artifacts`. `known` is the foreign keys.
use zero_hdsc.Base.{
  ℕ, String, Bool, false, ◌&&◌, Option, none, some, List, [], ◌∷◌, ◌++◌, ltb, leb, str_eq, take,
  Result, ok, err, ◌>>=◌, unknown_row, find, select, update_where, rowcount, order_by, insert_row,
  returning, refers, fetch_one, fetch_all, hit_one,
}
use zero_hdsc.Domain.Offline.{OfflineEpisode, OfflineArtifact}
use zero_hdsc.Rows.Json.{Json, or_default}
use zero_hdsc.Rows.Offline.{
  OfflineEpisodeRow, OfflineArtifactRow, episode_row, row_to_episode, artifact_row, row_to_artifact,
}

abbrev pub Episodes : Type 0
Episodes = List OfflineEpisodeRow

abbrev pub Artifacts : Type 0
Artifacts = List OfflineArtifactRow

unfoldable pub count_since : Episodes → String → ℕ → ℕ
count_since rows conversation since =
    rowcount (λ r. str_eq r.conversation_id conversation && leb since r.started_at_ms) rows

module _ {ℓ} {V : Type ℓ} (json : Json V) where
  unfoldable pub get_episode : Episodes → String → Result (Option OfflineEpisode)
  get_episode rows id = fetch_one (row_to_episode json) (find (λ r. str_eq r.id id) rows)

  unfoldable pub find_by_dedup : Episodes → String → Result (Option OfflineEpisode)
  find_by_dedup rows key = fetch_one (row_to_episode json) (find (λ r. str_eq r.dedup_key key) rows)

  -- The unique dedup_key cannot fail after the lookup.
  abbrev pub insert_with :
      Result (Option OfflineEpisode)
      → Result OfflineEpisode × Episodes
      → Episodes
      → Result OfflineEpisode × Episodes
  insert_with (err e) inserted rows = (err e, rows)
  insert_with (ok none) inserted rows = inserted
  insert_with (ok (some episode)) inserted rows = (ok episode, rows)

  unfoldable pub insert_episode :
      (String → String → Bool) → OfflineEpisode → Episodes → Result OfflineEpisode × Episodes
  insert_episode known episode rows =
      insert_with (find_by_dedup rows episode.dedup_key)
        (returning episode (
          insert_row (λ r. str_eq r.id episode.id)
            (refers known "goals" episode.goal_id && refers known "events" episode.event_id)
            (episode_row json episode) rows))
        rows

  -- The columns that `update_episode` leaves.
  abbrev pub updated_row : OfflineEpisode → OfflineEpisodeRow → OfflineEpisodeRow
  updated_row episode r = record (episode_row json episode) {
    id = r.id;
    conversation_id = r.conversation_id;
    correlation_id = r.correlation_id;
    dedup_key = r.dedup_key;
    started_at_ms = r.started_at_ms;
  }

  -- The goal and the event that the episode names are ones that the tables have.
  unfoldable pub update_episode : OfflineEpisode → Episodes → Result OfflineEpisode × Episodes
  update_episode episode rows =
      let mine = λ (r : OfflineEpisodeRow).
        str_eq r.id episode.id && str_eq r.conversation_id episode.conversation_id in
      hit_one (rowcount mine rows) episode (unknown_row "offline episode" episode.id)
        (update_where mine (updated_row episode) rows)

  -- ORDER BY started_at_ms DESC, rowid DESC: a later row stands before its equals.
  unfoldable pub recent_episodes : Episodes → String → ℕ → Result (List OfflineEpisode)
  recent_episodes rows conversation limit = fetch_all (row_to_episode json) (
      take limit (
        order_by (λ a b. leb b.started_at_ms a.started_at_ms)
          (select (λ r. str_eq r.conversation_id conversation) rows)))

  -- The ids of the rows, one row after the other; the code makes a set of them.
  unfoldable pub trace_ids : Episodes → Result (List String)
  trace_ids [] = ok []
  trace_ids (r ∷ rows) = json.load_texts (or_default r.source_trace_ids_json "[]") >>= λ ids.
      trace_ids rows >>= λ rest. ok (ids ++ rest)

  unfoldable pub used_trace_ids : Episodes → String → ℕ → Result (List String)
  used_trace_ids rows conversation limit = trace_ids (
      take limit (
        order_by (λ a b. ltb b.started_at_ms a.started_at_ms)
          (select (λ r. str_eq r.conversation_id conversation && str_eq r.status "completed")
            rows)))

module _ {ℓ} {V : Type ℓ} (json : Json V) where
  unfoldable pub insert_artifact :
      (String → String → Bool)
      → OfflineArtifact V
      → Artifacts
      → Result (OfflineArtifact V) × Artifacts
  insert_artifact known artifact rows = returning artifact (
      insert_row (λ r. str_eq r.id artifact.id) (known "offline_episodes" artifact.episode_id)
        (artifact_row json artifact) rows)

  unfoldable pub artifacts_for_episode : Artifacts → String → Result (List (OfflineArtifact V))
  artifacts_for_episode rows episode = fetch_all (row_to_artifact json) (
      order_by (λ a b. ltb a.created_at_ms b.created_at_ms)
        (select (λ r. str_eq r.episode_id episode) rows))

  unfoldable pub get_artifact : Artifacts → String → Result (Option (OfflineArtifact V))
  get_artifact rows id = fetch_one (row_to_artifact json) (find (λ r. str_eq r.id id) rows)

  -- JOIN on the primary key of the episodes: an artifact has at most one episode.
  abbrev is_completed : Episodes → String → OfflineArtifactRow → Bool
  is_completed episodes conversation artifact =
      elim (find (λ e. str_eq e.id artifact.episode_id) episodes) [
        | none ↦ false
        | some e ↦ str_eq e.conversation_id conversation && str_eq e.status "completed"
      ]

  unfoldable pub recent_artifacts :
      Episodes → Artifacts → String → ℕ → Result (List (OfflineArtifact V))
  recent_artifacts episodes rows conversation limit = fetch_all (row_to_artifact json) (
      take limit (
        order_by (λ a b. leb b.created_at_ms a.created_at_ms)
          (select (is_completed episodes conversation) rows)))
