-- ===== src/Tests/Orchestrator.antt =====
-- The orchestrator on a command that is approved and written.
use zilina_eirvah_edge_impl.Prelude.{ℕ, refl, true, none, some, [], ◌∷◌}
use zilina_eirvah_edge_impl.Prelude.Exceptions.{ok}
use zilina_eirvah_edge_impl.Contracts.Authorization.{AuthenticatedRequest}
use zilina_eirvah_edge_impl.Contracts.Envelope.{Status, Incoming}
use zilina_eirvah_edge_impl.Ledger.{completed_result}
use zilina_eirvah_edge_impl.Validator.{approval_result}
use zilina_eirvah_edge_impl.Orchestrator.{Stage, Settings, Env, World, run_pipeline}
use zilina_eirvah_edge_impl.Orchestrator.Evidence.{IsSound, run_pipeline-IsSound}
use zilina_eirvah_edge_impl.Orchestrator.Settled.{IsCalm, Settled, run_pipeline-settles}
use zilina_eirvah_edge_impl.Tests.{command, ingress_evidence, approval_evidence}

abbrev validation : Stage
validation = record { name = "validate"; subject = "act.work.validate" }

abbrev write : Stage
write = record { name = "write_signal"; subject = "act.work.write_signal" }

abbrev settings : Settings
settings = record { stages = validation ∷ write ∷ []; allow_writes = true }

abbrev answering : {A : Type 0} → A → Incoming A
answering a = record { correlation_id = 7; status = Status.ok; error = none; payload = ok a }

abbrev env : Env
env = record {
  validated = ok (ok (answering (approval_result (some approval_evidence))));
  written = ok (ok (answering (completed_result 20)));
  recorded = λ _. ok tt;
  published = λ _. ok tt;
}

abbrev request : AuthenticatedRequest ℕ
request = record { command = command; identity = ingress_evidence }

abbrev fresh : World ℕ
fresh = record {
  results = [];
  dead_letters = [];
  requests = [];
  metrics = [];
  records = 0;
  publications = 0;
}

env-IsCalm : IsCalm env
env-IsCalm = record {
  records = λ n. refl;
  publishes = λ n. refl;
  validates = λ h. cc h;
  writes = λ h. cc h;
}

run_pipeline-settles_example :
    Settled command [] (run_pipeline env settings (answering request) fresh)
run_pipeline-settles_example =
    run_pipeline-settles env settings (answering request) request validation write fresh env-IsCalm
      refl refl refl refl

run_pipeline-IsSound_example :
    IsSound env settings 7 command (run_pipeline env settings (answering request) fresh).1
run_pipeline-IsSound_example =
    run_pipeline-IsSound env settings (answering request) request fresh refl refl refl
