-- ===== src/Learning/Runs.antt =====
-- SqliteLearningRepository of src/ssa/storage/learning_repository.py: the table `reflection_runs`.
-- `known` is the foreign keys. The parsing of rows is that of Rows/Runs and Rows/Offline.
use zero_hdsc.Base.{
  ℕ, String, Bool, true, false, not, ◌&&◌, ◌||◌, Option, none, some, List, [], ◌∷◌, ltb, leb,
  str_eq, take, Result, ok, ◌>>=◌, changed, find, select, update_where, rowcount, order_by,
  insert_row, returning, refers, fetch_all, hit_one,
}
use zero_hdsc.Domain.Runs.{ReflectionRun, ReflectionRunStatus, run_status_value}
use zero_hdsc.Domain.Offline.{OfflineEpisode, OfflineArtifact}
use zero_hdsc.Rows.Json.{Json}
use zero_hdsc.Rows.Offline.{OfflineEpisodeRow, OfflineArtifactRow, row_to_episode, row_to_artifact}
use zero_hdsc.Offline.{Episodes, Artifacts}

-- ORDER BY completed_at_ms, where NULL comes first
abbrev pub earlier : Option ℕ → Option ℕ → Bool
earlier none none = false
earlier none (some b) = true
earlier (some a) none = false
earlier (some a) (some b) = ltb a b

module _ {ℓ} {F V : Type ℓ} where
  abbrev pub has_status : ReflectionRunStatus → ReflectionRun F V → Bool
  has_status status run = str_eq (run_status_value run.status) (run_status_value status)

  unfoldable pub get_run : List (ReflectionRun F V) → String → Option (ReflectionRun F V)
  get_run rows id = find (λ r. str_eq r.id id) rows

  unfoldable pub find_run_by_dedup : List (ReflectionRun F V) → String → Option (ReflectionRun F V)
  find_run_by_dedup rows key = find (λ r. str_eq r.dedup_key key) rows

  abbrev pub insert_new_run :
      (String → String → Bool)
      → Option (ReflectionRun F V)
      → ReflectionRun F V
      → List (ReflectionRun F V)
      → Result (ReflectionRun F V) × List (ReflectionRun F V)
  insert_new_run known (some old) run rows = (ok old, rows)
  insert_new_run known none run rows = returning run (
      insert_row (λ r. str_eq r.id run.id)
        (refers known "offline_episodes" run.source_episode_id
          && refers known "offline_artifacts" run.source_artifact_id)
        run rows)

  -- The unique dedup_key cannot fail after the lookup.
  unfoldable pub insert_run :
      (String → String → Bool)
      → ReflectionRun F V
      → List (ReflectionRun F V)
      → Result (ReflectionRun F V) × List (ReflectionRun F V)
  insert_run known run rows = insert_new_run known (find_run_by_dedup rows run.dedup_key) run rows

  -- The columns that `update_run` leaves.
  abbrev pub updated_run : ReflectionRun F V → ReflectionRun F V → ReflectionRun F V
  updated_run run r = record run {
    id = r.id;
    conversation_id = r.conversation_id;
    correlation_id = r.correlation_id;
    dedup_key = r.dedup_key;
  }

  abbrev pub is_expected_run : ReflectionRunStatus → ReflectionRun F V → ReflectionRun F V → Bool
  is_expected_run expected run r =
      str_eq r.id run.id && (str_eq r.conversation_id run.conversation_id && has_status expected r)

  -- The episode and the artifact that the run names are ones that the tables have.
  unfoldable pub update_run :
      ReflectionRunStatus
      → ReflectionRun F V
      → List (ReflectionRun F V)
      → Result (ReflectionRun F V) × List (ReflectionRun F V)
  update_run expected run rows =
      hit_one (rowcount (is_expected_run expected run) rows) run (changed "reflection run" run.id)
        (update_where (is_expected_run expected run) (updated_run run) rows)

  abbrev pub in_statuses : List ReflectionRunStatus → ReflectionRun F V → Bool
  in_statuses [] run = false
  in_statuses (s ∷ statuses) run = has_status s run || in_statuses statuses run

  -- ORDER BY started_at_ms DESC, rowid DESC: a later row stands before its equals.
  unfoldable pub recent_runs :
      List (ReflectionRun F V) → String → List ReflectionRunStatus → ℕ → List (ReflectionRun F V)
  recent_runs rows conversation statuses limit = take limit (
      order_by (λ a b. leb b.started_at_ms a.started_at_ms)
        (select (λ r. str_eq r.conversation_id conversation && in_statuses statuses r) rows))

  -- LEFT JOIN with the proposals, `proposed run_id` telling whether a run has one.
  unfoldable pub completed_runs_without_proposals :
      (String → Bool) → List (ReflectionRun F V) → String → ℕ → List (ReflectionRun F V)
  completed_runs_without_proposals proposed rows conversation limit = take limit (
      order_by (λ a b. earlier a.completed_at_ms b.completed_at_ms)
        (select
          (λ r.
            str_eq r.conversation_id conversation
            && (has_status ReflectionRunStatus.completed r && not (proposed r.id)))
          rows))

  -- LEFT JOIN reflection_runs ON run.source_artifact_id = artifact.id
  abbrev pub is_processed : List (ReflectionRun F V) → String → Bool
  is_processed runs artifact =
      elim (find (λ r. elim r.source_artifact_id [ none ↦ false | some id ↦ str_eq id artifact ])
        runs) [ none ↦ false | some r ↦ true ]

-- The rows of a join: each artifact with its episode.
unfoldable pub joined : Episodes → Artifacts → List (OfflineEpisodeRow × OfflineArtifactRow)
joined episodes [] = []
joined episodes (a ∷ artifacts) =
    let rest = joined episodes artifacts in
    elim (find (λ e. str_eq e.id a.episode_id) episodes) [ none ↦ rest | some e ↦ (e, a) ∷ rest ]

-- The mapping of a row of the join.
abbrev pub aliased {ℓ} :
    {V : Type ℓ}
    → Json V
    → OfflineEpisodeRow × OfflineArtifactRow
    → Result (OfflineEpisode × OfflineArtifact V)
aliased json (e, a) = row_to_episode json e >>= λ episode.
    row_to_artifact json a >>= λ artifact. ok (episode, artifact)

unfoldable pub unprocessed_artifacts {ℓ} :
    {F V : Type ℓ}
    → Json V
    → List (ReflectionRun F V)
    → Episodes
    → Artifacts
    → String
    → ℕ
    → Result (List (OfflineEpisode × OfflineArtifact V))
unprocessed_artifacts json runs episodes artifacts conversation limit = fetch_all (aliased json) (
    take limit (
      order_by (λ x y. ltb x.1.created_at_ms y.1.created_at_ms)
        (select
          (λ x.
            str_eq x.0.conversation_id conversation
            && (str_eq x.0.status "completed" && not (is_processed runs x.1.id)))
          (joined episodes artifacts))))
