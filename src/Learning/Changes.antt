-- ===== src/Learning/Changes.antt =====
-- The links between the tables of src/ssa/storage/learning_repository.py where one table changes and
-- keeps its rows.
use zero_hdsc.Base.{List, All}
use zero_hdsc.Domain.Runs.{ReflectionRun}
use zero_hdsc.Domain.Proposals.{LearningProposal}
use zero_hdsc.Domain.Experiments.{BehaviorExperiment, OutcomeObservation}
use zero_hdsc.Learning.Evidence.{World, Store}
use zero_hdsc.Learning.Links.{RunsKept, ProposalsKept, ExperimentsKept, RunOf, PolicyOf}
use zero_hdsc.Learning.Kept.{
  IsLinked, OutcomesKept, kept_runs, kept_proposals, kept_experiments, kept_outcomes, links-kept,
}

module _ {ℓ} {F V : Type ℓ} (w : World) (s : Store F V) where
  pub runs-IsLinked :
      (rows : List (ReflectionRun F V))
      → RunsKept s.runs rows
      → IsLinked w s
      → IsLinked w (record s { runs = rows })
  runs-IsLinked rows k h =
      links-kept w s (record s { runs = rows })
        (record {
          runs = k;
          proposals = kept_proposals s.proposals;
          experiments = kept_experiments s.experiments;
          outcomes = kept_outcomes s.outcomes;
        })
        h.proposals h.experiments h.evidence

  pub proposals-IsLinked :
      (rows : List (LearningProposal F V))
      → ProposalsKept s.proposals rows
      → All (RunOf s.runs) rows
      → IsLinked w s
      → IsLinked w (record s { proposals = rows })
  proposals-IsLinked rows k l h =
      links-kept w s (record s { proposals = rows })
        (record {
          runs = kept_runs s.runs;
          proposals = k;
          experiments = kept_experiments s.experiments;
          outcomes = kept_outcomes s.outcomes;
        })
        l h.experiments h.evidence

  pub experiments-IsLinked :
      (rows : List (BehaviorExperiment F V))
      → ExperimentsKept s.experiments rows
      → All (PolicyOf s.proposals) rows
      → IsLinked w s
      → IsLinked w (record s { experiments = rows })
  experiments-IsLinked rows k l h =
      links-kept w s (record s { experiments = rows })
        (record {
          runs = kept_runs s.runs;
          proposals = kept_proposals s.proposals;
          experiments = k;
          outcomes = kept_outcomes s.outcomes;
        })
        h.proposals l h.evidence

  pub outcomes-IsLinked :
      (rows : List (OutcomeObservation F V))
      → OutcomesKept s.outcomes rows
      → IsLinked w s
      → IsLinked w (record s { outcomes = rows })
  outcomes-IsLinked rows k h =
      links-kept w s (record s { outcomes = rows })
        (record {
          runs = kept_runs s.runs;
          proposals = kept_proposals s.proposals;
          experiments = kept_experiments s.experiments;
          outcomes = k;
        })
        h.proposals h.experiments h.evidence
