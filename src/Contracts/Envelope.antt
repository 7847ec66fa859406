-- ===== src/Contracts/Envelope.antt =====
-- libs/eirvah-contracts/src/eirvah_contracts/envelope.py: the wrapper of every internal message. A
-- correlation identifier is a valid ULID, by number; `none` stands for a text that is not one, such
-- as "UNKNOWN". The message of an error is for people, and is left out.
use zilina_eirvah_edge_impl.Prelude.{ℕ, String, Bool, true, false, Option, none, some}
use zilina_eirvah_edge_impl.Prelude.Exceptions.{Exc, Result}

pub data Status : Type 0 where
  ok error : Status

abbrev pub is_ok : Status → Bool
is_ok Status.ok = true
is_ok Status.error = false

pub record NatsEnvelope (A : Type 0) : Type 0 where
  pub correlation_id : ℕ
  pub status : Status
  pub payload : Option A
  -- error.kind
  pub error : Option String

-- NATSEnvelope(correlation_id=…, payload=…): the validator of the identifier raises.
abbrev pub envelope :
    {A : Type 0} → Option ℕ → Status → Option A → Option String → Result (NatsEnvelope A)
envelope none status payload e = Result.err (Exc.other_error "ValidationError")
envelope (some id) status payload e =
    Result.ok (record { correlation_id = id; status = status; payload = payload; error = e })

-- An envelope that came in: its identifier, its status, its error, and what the payload validates to.
pub record Incoming (A : Type 0) : Type 0 where
  pub correlation_id : ℕ
  pub status : Status
  pub error : Option String
  pub payload : Result A

-- An envelope that was built, as it is read
abbrev pub payload_of : {A : Type 0} → Option A → Result A
payload_of none = Result.err (Exc.other_error "ValidationError")
payload_of (some a) = Result.ok a

abbrev pub received : {A : Type 0} → NatsEnvelope A → Incoming A
received reply = record {
  correlation_id = reply.correlation_id;
  status = reply.status;
  error = reply.error;
  payload = payload_of reply.payload;
}
