-- ===== src/Tests/Writer.antt =====
-- The writer on concrete messages: one that is written, one to a device that cannot be reached, and
-- one that is not approved.
use zilina_eirvah_edge_impl.Prelude.{
  ℕ, suc, zero, ◌≡◌, ◌⊎◌, refl, true, false, Option, none, some, [], ◌∷◌, All,
}
use zilina_eirvah_edge_impl.Prelude.Exceptions.{Result, ok}
use zilina_eirvah_edge_impl.Prelude.Exec.{◌>>=◌, modify, pure, raise, lift, gets, require, attempt}
use zilina_eirvah_edge_impl.Prelude.Numbers.{pos, int}
use zilina_eirvah_edge_impl.Prelude.Dict.{Dict}
use zilina_eirvah_edge_impl.Contracts.Actuation.{SignalValueType, WriteResult}
use zilina_eirvah_edge_impl.Contracts.Authorization.{
  ApprovedWriteRequest, require_key, command_digest, signature_of, verify_evidence,
}
use zilina_eirvah_edge_impl.Contracts.Authorization.Evidence.{InTime}
use zilina_eirvah_edge_impl.Contracts.Envelope.{Status, NatsEnvelope, Incoming}
use zilina_eirvah_edge_impl.Ledger
use zilina_eirvah_edge_impl.Ledger.{Ledger, prune, result_of, lookup, claim, mark_started, complete}
use zilina_eirvah_edge_impl.Ledger.{fail, failed_result}
use zilina_eirvah_edge_impl.Ledger.Invariant.{IsValid}
use zilina_eirvah_edge_impl.Ledger.Execution.{row_of}
use zilina_eirvah_edge_impl.Validator.{to_float}
use zilina_eirvah_edge_impl.Writer.World.{
  Env, World, now, record_command, on_ledger, send, read_ack,
}
use zilina_eirvah_edge_impl.Writer.Native.{
  NativeTarget, Protocol, encode_value, next_sequence, check_ack, poll, write_modbus, write_native,
  load_native_targets,
}
use zilina_eirvah_edge_impl.Writer.Handler.{
  Settings, verify_now, record_once, before_write, write_value, fail_claim, execute,
  claim_and_execute, process, respond, handle,
}
use zilina_eirvah_edge_impl.Writer.Order.{Marked}
use zilina_eirvah_edge_impl.Writer.Safety.{handle_in_order, not_executed_silent}
use zilina_eirvah_edge_impl.Writer.Approval.{Unapproved, Unapproved-silent}
use zilina_eirvah_edge_impl.Tests.{naturals, sums, key, command, approval_evidence}

abbrev settings : Settings
settings = record { approval_key = key; writer_id = "writer-1" }

abbrev answers : ℕ → Result (Option (ℕ × ℕ))
answers zero = ok (some (0, 0))
answers (suc n) = ok (some (4, 1))

abbrev reachable : Env
reachable = record {
  clock = λ _. 20;
  database_fails = λ _. false;
  recorded = λ _. ok tt;
  token = 5;
  random = 3;
  connects = ok true;
  acks = answers;
  writes = λ _. ok false;
  rounds = 3;
  opens = ok tt;
  closes = ok tt;
}

abbrev unreachable : Env
unreachable = record reachable { connects = ok false }

abbrev motor : NativeTarget ℕ
motor = record {
  protocol = Protocol.modbus;
  command_address = 100;
  operation = 2;
  value_type = SignalValueType.int64_type;
  scale = 10;
  minimum = 0;
  maximum = 100;
  db = 0;
}

abbrev natives : Dict (NativeTarget ℕ)
natives = ("plant/motor/speed", motor) ∷ []

abbrev approved : ApprovedWriteRequest ℕ
approved = record { command = command; approval = approval_evidence }

abbrev other_writer : ApprovedWriteRequest ℕ
other_writer = record {
  command = command;
  approval = record approval_evidence { writer = "writer-2" };
}

abbrev message : ApprovedWriteRequest ℕ → Incoming (ApprovedWriteRequest ℕ)
message a = record { correlation_id = 7; status = Status.ok; error = none; payload = ok a }

abbrev fresh : World ℕ
fresh = record {
  ledger = record { rows = []; retention_s = 1000 };
  frames = [];
  latest = 0;
  token = none;
  initiated = false;
  reads = 0;
  transactions = 0;
  records = 0;
  ack_reads = 0;
  device_writes = 0;
}

fresh-IsValid : IsValid fresh.ledger
fresh-IsValid = record { distinct = tt; consistent = tt }

abbrev run : Env → ApprovedWriteRequest ℕ → Result (NatsEnvelope WriteResult) × World ℕ
run env a = handle naturals sums settings env natives [] (ok (message a)) fresh

handle_in_order_example :
    IsValid (run reachable approved).1.ledger
    × (((run reachable approved).1.frames ≡ [])
        ⊎ Marked 7 (row_of 7 (run reachable approved).1.ledger))
    × All (λ f. InTime f.latest command.deadline) (run reachable approved).1.frames
handle_in_order_example =
    handle_in_order naturals sums settings reachable natives [] (message approved) approved fresh
      refl fresh-IsValid refl

abbrev unreached : NatsEnvelope WriteResult
unreached = record {
  correlation_id = 7;
  status = Status.ok;
  payload = some (failed_result false "ConnectionError");
  error = none;
}

run-unreachable : (run unreachable approved).0 ≡ ok unreached
unfolding handle respond process verify_now claim_and_execute execute write_value fail_claim
    before_write record_once write_native write_modbus encode_value to_float next_sequence poll
    check_ack now record_command on_ledger send read_ack lookup claim mark_started complete fail
    prune result_of verify_evidence command_digest signature_of require_key ◌>>=◌ modify pure raise
    lift gets require attempt
run-unreachable = refl

not_executed_silent_example : (run unreachable approved).1.frames ≡ []
not_executed_silent_example =
    not_executed_silent naturals sums settings unreachable natives [] (ok (message approved)) fresh
      unreached (failed_result false "ConnectionError") fresh-IsValid refl run-unreachable refl refl

-- The motor's command is completed, with one frame for the command and one for its sequence.
run-reachable :
    (reply : NatsEnvelope WriteResult) × ((run reachable approved).0 ≡ ok reply)
    × (reply.payload ≡ some (Ledger.completed_result 20))
unfolding handle respond process verify_now claim_and_execute execute write_value fail_claim
    before_write record_once write_native write_modbus encode_value to_float next_sequence poll
    check_ack now record_command on_ledger send read_ack lookup claim mark_started complete fail
    prune result_of verify_evidence command_digest signature_of require_key ◌>>=◌ modify pure raise
    lift gets require attempt
run-reachable = (_, refl, refl)

other_writer-Unapproved : Unapproved naturals sums settings reachable natives [] other_writer
unfolding verify_evidence
other_writer-Unapproved t allow_expired h = cc h

Unapproved-silent_example :
    ((run reachable other_writer).1.frames ≡ [])
    × ((reply : NatsEnvelope WriteResult)
        → (run reachable other_writer).0 ≡ ok reply
        → reply.status ≡ Status.error)
Unapproved-silent_example =
    Unapproved-silent naturals sums settings reachable natives [] (message other_writer)
      other_writer fresh refl other_writer-Unapproved fresh-IsValid refl

encode_40 : encode_value naturals motor (int (pos 40)) ≡ ok 400
unfolding encode_value to_float
encode_40 = refl

loaded : load_native_targets (("plant/motor/speed", motor) ∷ []) [] ≡ ok natives
unfolding load_native_targets
loaded = refl
