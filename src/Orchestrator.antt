-- ===== src/Orchestrator.antt =====
-- services/actuation-control-orchestrator/src/actuation_control_orchestrator/pipeline.py: one command
-- through validation and the write, to the result that is published. The replies of the two stages and
-- whether a publication or a record raises are the parameter `Env`. Logs are left out.
pub mod Evidence
pub mod Settled
use text.Mathlib.Text.{◌==◌ as str_eq}
use zilina_eirvah_edge_impl.Prelude.{
  ℕ, ◌+◌, String, Bool, true, false, not, ◌&&◌, ◌||◌, Option, none, some, List, [], ◌∷◌, ◌==◌,
  if◌then◌else◌, is_some,
}
use zilina_eirvah_edge_impl.Prelude.Dict.{Dict, contains}
use zilina_eirvah_edge_impl.Prelude.Exceptions.{Exc, exc_name, Result, ok, err}
use zilina_eirvah_edge_impl.Prelude.Exec.{Exec, pure, raise, modify, require, attempt, ◌>>=◌, ◌>>◌}
use zilina_eirvah_edge_impl.Contracts.Actuation.{
  ActuationRequest, SignedEvidence, Decision, ReasonCode, ValidationResult, Outcome, WriteResult,
}
use zilina_eirvah_edge_impl.Contracts.Authorization.{AuthenticatedRequest, ApprovedWriteRequest}
use zilina_eirvah_edge_impl.Contracts.Envelope.{Status, is_ok, Incoming}

pub record Stage : Type 0 where
  pub name : String
  pub subject : String

-- cfg.stages and the parameter allow_writes
pub record Settings : Type 0 where
  pub stages : List Stage
  pub allow_writes : Bool

-- What the results exchange is told of a command, by the field `decision`.
pub data Verdict : Type 0 where
  approve : (written_at : ℕ) → (replayed : Bool) → Verdict
  reject : (reason : String) → (retryable : Bool) → Verdict
  pending unknown : String → Verdict

-- The fields that a result adds to those of its request
abbrev pub added_fields : Verdict → List String
added_fields (Verdict.approve written_at replayed) = "decision" ∷ "written_at" ∷ "replayed" ∷ []
added_fields (Verdict.reject reason retryable) = "decision" ∷ "rejection_reason" ∷ "retryable" ∷ []
added_fields (Verdict.pending reason) = "decision" ∷ "outcome_reason" ∷ []
added_fields (Verdict.unknown reason) = "decision" ∷ "outcome_reason" ∷ []

-- One of the names is a key of the dictionary.
abbrev pub clashes : Dict String → List String → Bool
clashes [] names = false
clashes ((k, v) ∷ d) names = contains k names || clashes d names

pub record Published (F : Type 0) : Type 0 where
  pub request : ActuationRequest F
  pub verdict : Verdict

pub data Request (F : Type 0) : Type 0 where
  validate : (subject : String) → AuthenticatedRequest F → Request F
  write_signal : (subject : String) → ApprovedWriteRequest F → Request F

pub data Metric : Type 0 where
  inc_stage_timeout : String → Metric
  inc_rejected : String → Metric
  inc_replayed : Outcome → Metric
  inc_approved observe_e2e_latency inc_unknown inc_pending : Metric

-- A call of a stage raises, or a reply comes, which is an envelope or is not.
pub record Env : Type 0 where
  pub validated : Result (Result (Incoming ValidationResult))
  pub written : Result (Result (Incoming WriteResult))
  pub recorded : ℕ → Result (Unit {0})
  pub published : ℕ → Result (Unit {0})

pub record World (F : Type 0) : Type 0 where
  pub results : List (Published F)
  pub dead_letters : List (Published F)
  pub requests : List (Request F)
  pub metrics : List Metric
  pub records : ℕ
  pub publications : ℕ

-- next((s for s in cfg.stages if s.name == name), None)
abbrev pub stage_named : String → List Stage → Option Stage
stage_named name [] = none
stage_named name (s ∷ stages) = if str_eq s.name name then some s else stage_named name stages

-- `text or default`
abbrev pub or_text : Option String → String → String
or_text none default = default
or_text (some s) default = if str_eq s "" then default else s

abbrev pub code_name : Option ReasonCode → String
code_name none = "policy_reject"
code_name (some ReasonCode.out_of_range) = "out_of_range"
code_name (some ReasonCode.not_allowlisted) = "not_allowlisted"
code_name (some ReasonCode.no_policy) = "no_policy"
code_name (some ReasonCode.not_numeric) = "not_numeric"

-- The check of the validator's reply: anything wrong with it is one and the same exception.
abbrev pub read_validation : ℕ → Result (Incoming ValidationResult) → Option ValidationResult
read_validation id (err x) = none
read_validation id (ok reply) =
    if not (is_ok reply.status) || not (reply.correlation_id == id)
    then none
    else elim reply.payload [ ok v ↦ some v | err x ↦ none ]

abbrev pub is_completed : Outcome → Bool
is_completed Outcome.completed = true
is_completed Outcome.not_executed = false
is_completed Outcome.pending = false
is_completed Outcome.unknown = false
is_completed Outcome.conflict = false

-- The check of the writer's reply
abbrev pub read_write : ℕ → Result (Incoming WriteResult) → Option WriteResult
read_write id (err x) = none
read_write id (ok reply) = if not (reply.correlation_id == id) then none else elim reply.payload [
  | err x ↦ none
  | ok r ↦
      if is_completed r.outcome && (not (is_ok reply.status) || not (is_some r.written_at))
      then none
      else some r
]

module _ {F : Type 0} (env : Env) where
  unfoldable pub count_metric : Metric → Exec (World F) (Unit {0})
  count_metric m = modify (λ (w : World F). record w { metrics = m ∷ w.metrics })

  unfoldable pub record_command : Exec (World F) (Unit {0})
  record_command w = (env.recorded w.records, record w { records = w.records + 1 })

  unfoldable pub publish_result : Published F → Exec (World F) (Unit {0})
  publish_result p w = (
    env.published w.publications,
    record w { results = p ∷ w.results; publications = w.publications + 1 },
  )

  unfoldable pub publish_dead : Published F → Exec (World F) (Unit {0})
  publish_dead p w = (
    env.published w.publications,
    record w { dead_letters = p ∷ w.dead_letters; publications = w.publications + 1 },
  )

  module _ (req : ActuationRequest F) where
    -- The result of the request: a keyword that the request's extra fields have as well is given twice.
    unfoldable pub build_result : Verdict → Exec (World F) (Unit {0})
    build_result v = require (not (clashes req.extra (added_fields v))) Exc.type_error

    -- _emit_unsettled
    unfoldable pub emit_unsettled : Verdict → Metric → Exec (World F) (Unit {0})
    emit_unsettled verdict metric =
        build_result verdict
        >> count_metric metric
        >> publish_result (record { request = req; verdict = verdict })
        >> record_command

    abbrev pub emit_unknown : String → Exec (World F) (Unit {0})
    emit_unknown reason = emit_unsettled (Verdict.unknown reason) Metric.inc_unknown

    abbrev pub emit_pending : String → Exec (World F) (Unit {0})
    emit_pending reason = emit_unsettled (Verdict.pending reason) Metric.inc_pending

    -- _emit_reject, and the count of the rejection under its category
    unfoldable pub emit_reject : String → Bool → String → Exec (World F) (Unit {0})
    emit_reject reason retryable category =
        build_result (Verdict.reject reason retryable)
        >> publish_dead (record { request = req; verdict = Verdict.reject reason retryable })
        >> publish_result (record { request = req; verdict = Verdict.reject reason retryable })
        >> record_command
        >> count_metric (Metric.inc_rejected category)

    -- _emit_approve
    unfoldable pub emit_approve : ℕ → Bool → Exec (World F) (Unit {0})
    emit_approve written_at replayed =
        build_result (Verdict.approve written_at replayed)
        >> publish_result (record { request = req; verdict = Verdict.approve written_at replayed })
        >> record_command

    abbrev pub count_approval : Bool → Exec (World F) (Unit {0})
    count_approval true = pure tt
    count_approval false =
        count_metric Metric.inc_approved >> count_metric Metric.observe_e2e_latency

    abbrev pub count_replay : Bool → Outcome → Exec (World F) (Unit {0})
    count_replay true o = count_metric (Metric.inc_replayed o)
    count_replay false o = pure tt

    abbrev pub approve_written : Option ℕ → Bool → Exec (World F) (Unit {0})
    approve_written none replayed = raise Exc.assertion_error
    approve_written (some t) replayed = emit_approve t replayed >> count_approval replayed

    abbrev pub by_outcome : Outcome → WriteResult → Exec (World F) (Unit {0})
    by_outcome Outcome.unknown r = emit_unknown (or_text r.reason "unknown")
    by_outcome Outcome.pending r = emit_pending (or_text r.reason "pending")
    by_outcome Outcome.conflict r = emit_reject "command_id_reused" r.retryable "command_conflict"
    by_outcome Outcome.not_executed r =
        emit_reject (or_text r.reason "writer_refused") r.retryable "pre_write_failure"
    by_outcome Outcome.completed r = approve_written r.written_at r.replayed

    -- From the writer's reply on
    abbrev pub settle : Option WriteResult → Exec (World F) (Unit {0})
    settle none = emit_unknown "bad_write_reply"
    settle (some r) = count_replay r.replayed r.outcome >> by_outcome r.outcome r

    abbrev pub write_replied :
        ℕ → Result (Result (Incoming WriteResult)) → Exec (World F) (Unit {0})
    write_replied id (ok reply) = settle (read_write id reply)
    write_replied id (err Exc.request_timeout) =
        count_metric (Metric.inc_stage_timeout "write_signal") >> emit_unknown "write_timeout"
    write_replied id (err Exc.cancelled_error) = raise Exc.cancelled_error
    write_replied id (err x) = emit_unknown "write_transport_error"

    -- The stage write_signal
    abbrev pub write_stage : ℕ → SignedEvidence → Option Stage → Exec (World F) (Unit {0})
    write_stage id approval none = pure tt
    write_stage id approval (some stage) =
        modify (λ (w : World F). record w {
          requests =
              Request.write_signal stage.subject (record { command = req; approval = approval })
              ∷ w.requests;
        })
        >> write_replied id env.written

    module _ (settings : Settings) where
      -- The safety gate
      abbrev pub gate : Bool → ℕ → SignedEvidence → Exec (World F) (Unit {0})
      gate false id approval = emit_reject "writes_disabled" false "writes_disabled"
      gate true id approval = write_stage id approval (stage_named "write_signal" settings.stages)

      abbrev pub with_approval : ℕ → Option SignedEvidence → Exec (World F) (Unit {0})
      with_approval id none = emit_reject "missing_approval" false "missing_approval"
      with_approval id (some e) = gate settings.allow_writes id e

      abbrev pub by_decision : ℕ → Decision → ValidationResult → Exec (World F) (Unit {0})
      by_decision id Decision.reject v =
          emit_reject (or_text v.reason "rejected") false (code_name v.reason_code)
      by_decision id Decision.approve v = with_approval id v.approval

      abbrev pub decided : ℕ → Option ValidationResult → Exec (World F) (Unit {0})
      decided id none = emit_reject "bad_validate_reply" false "bad_validate_reply"
      decided id (some v) = by_decision id v.decision v

      abbrev pub validate_replied :
          ℕ → Result (Result (Incoming ValidationResult)) → Exec (World F) (Unit {0})
      validate_replied id (ok reply) = decided id (read_validation id reply)
      validate_replied id (err Exc.request_timeout) =
          count_metric (Metric.inc_stage_timeout "validate")
          >> emit_reject "validate_timeout" false "validate_timeout"
      validate_replied id (err Exc.cancelled_error) = raise Exc.cancelled_error
      validate_replied id (err x) = emit_reject (exc_name x) false (exc_name x)

  module _ (settings : Settings) where
    -- The stage validate
    abbrev pub validate_stage :
        ℕ → AuthenticatedRequest F → Option Stage → Exec (World F) (Unit {0})
    validate_stage id a none = pure tt
    validate_stage id a (some stage) =
        modify
          (λ (w : World F). record w { requests = Request.validate stage.subject a ∷ w.requests })
        >> validate_replied a.command settings id env.validated

    -- run_actuation_pipeline; a message that does not hold a command of its own identifier is dropped.
    unfoldable pub run_pipeline : Incoming (AuthenticatedRequest F) → Exec (World F) (Unit {0})
    run_pipeline msg = elim msg.payload [
      | err x ↦ pure tt
      | ok a ↦
          if not (a.command.correlation_id == msg.correlation_id)
          then pure tt
          else record_command
            >> validate_stage msg.correlation_id a (stage_named "validate" settings.stages)
    ]
