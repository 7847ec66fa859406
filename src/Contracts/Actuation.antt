-- ===== src/Contracts/Actuation.antt =====
-- libs/eirvah-contracts/src/eirvah_contracts/actuation.py: the requests,
-- the evidence that goes with them, the validator's decision and the writer's answer. Identifiers,
-- digests and signatures are only compared, and are numbers.
-- Instants are natural numbers in a fixed unit, the resolution of the clock.
use zilina_eirvah_edge_impl.Prelude.{ℕ, Bool, Option, String}
use zilina_eirvah_edge_impl.Prelude.Numbers.{Value}
use zilina_eirvah_edge_impl.Prelude.Dict.{Dict}

pub data Outcome : Type 0 where
  completed not_executed pending unknown conflict : Outcome

pub record WriteResult : Type 0 where
  pub outcome : Outcome
  pub written_at : Option ℕ
  pub reason : Option String
  pub retryable : Bool
  pub replayed : Bool

-- Literal["double", "int64", "bool", "string"] of contracts/signals.py
pub data SignalValueType : Type 0 where
  double_type int64_type bool_type string_type : SignalValueType

-- A `datetime`; one that is not aware has no UTC offset.
pub record Datetime : Type 0 where
  pub at : ℕ
  pub aware : Bool

pub record ActuationRequest (F : Type 0) : Type 0 where
  pub correlation_id : ℕ
  pub requester : String
  pub target_uns_topic : String
  pub requested_value : Value F
  pub value_type : SignalValueType
  pub reason : String
  pub requested_at : Datetime
  pub deadline : Option Datetime
  -- extra="allow": the other fields of the message, each with the text of its value
  pub extra : Dict String

pub data Purpose : Type 0 where
  ingress approval : Purpose

pub record SignedEvidence : Type 0 where
  pub purpose : Purpose
  pub command_digest : ℕ
  pub writer : String
  pub issued_at : ℕ
  pub signature : ℕ

pub data Decision : Type 0 where
  approve reject : Decision

-- RejectionReasonCode
pub data ReasonCode : Type 0 where
  out_of_range not_allowlisted no_policy not_numeric : ReasonCode

pub record ValidationResult : Type 0 where
  pub decision : Decision
  pub reason : Option String
  pub reason_code : Option ReasonCode
  pub approval : Option SignedEvidence
