-- ===== src/Tests/Recovery.antt =====
-- The durable state at the borders, on concrete calls.
use zilina_eirvah_edge_impl.Prelude.{◌≡◌, refl, true, false, none, some, List, [], ◌∷◌, arith}
use zilina_eirvah_edge_impl.Prelude.Exceptions.{ok}
use zilina_eirvah_edge_impl.Recovery.Positions.{
  Database, Position, Call, step, Gives, next, AllAfter, positions_increase,
}
use zilina_eirvah_edge_impl.Recovery.Advance.{Store}
use zilina_eirvah_edge_impl.Recovery.Journal
use zilina_eirvah_edge_impl.Recovery.Journal.{Journal, commit, ack, head}
use zilina_eirvah_edge_impl.Recovery.Journal.Outbox.{head-commit}
use zilina_eirvah_edge_impl.Recovery.Consumer.{
  Event, Command, Row, Disposition, Decision, receive, settle, row_with_command,
}
use zilina_eirvah_edge_impl.Recovery.Consumer.Once.{
  CompletedRow, receive-again, settle-CompletedRow,
}

abbrev database : Database
database = record { epochs = λ p. some 3; sequences = λ p n. some 8 }

abbrev ninth : Position
ninth = record { producer = 1; node = 2; epoch = 3; sequence = 9 }

abbrev later_calls : List Call
later_calls =
    Call.next_call 1 3 2 none
    ∷ Call.begin_call 1
    ∷ Call.next_call 1 3 2 none
    ∷ Call.next_call 1 4 2 (some 4)
    ∷ []

Gives-ninth : Gives (Call.next_call 1 3 2 none) ninth database
unfolding Gives next
Gives-ninth = refl

positions_increase_example : AllAfter ninth later_calls (step (Call.next_call 1 3 2 none) database)
positions_increase_example =
    positions_increase ninth (Call.next_call 1 3 2 none) later_calls database Gives-ninth

abbrev store : Store
store = λ t. none

abbrev tenth : Position
tenth = record { producer = 1; node = 2; epoch = 3; sequence = 10 }

abbrev journal : Journal
journal = record {
  events =
      record { id = 1; body = 11; created = 5; received = true }
      ∷ record { id = 2; body = 22; created = 6; received = false }
      ∷ [];
  created = 2;
  received = 1;
  boots = 1;
  state = none;
  effects = [];
  capacity = 4;
}

journal-IsValid : Journal.IsValid journal
journal-IsValid = record { distinct = (refl, (refl, tt)); balance = refl; fits = omega arith }

head-journal : head journal ≡ some 22
unfolding head
head-journal = refl

head-commit_example : head (commit 9 (some (3, 33)) none 7 7 7 journal).1 ≡ some 22
head-commit_example = head-commit 9 (some (3, 33)) none 7 7 7 22 journal head-journal

abbrev failed : Event
failed = record {
  inspection_id = 4;
  session = 1;
  bottle_id = 30;
  passed = false;
  inspected_at = 100;
}

abbrev rejection : Command
rejection = record {
  correlation_id = 70;
  requester = 1;
  target_uns_topic = 2;
  requested_value = 30;
  value_type = 3;
}

abbrev failed_row : Row
failed_row = record {
  event = failed;
  digest = 30;
  received = 101;
  disposition = Disposition.pending;
  command = some rejection;
  result = none;
  last_sent = 0;
  baseline_count = some 0;
}

receive_failed :
    (receive (λ e. e.bottle_id) failed 101 10 (ok rejection) (some 0) []).0 ≡ ok failed_row
unfolding receive
receive_failed = refl

receive-again_example :
    receive
      (λ e. e.bottle_id)
      failed
      300
      10
      (ok (record rejection { correlation_id = 71 }))
      none
      (receive (λ e. e.bottle_id) failed 101 10 (ok rejection) (some 0) []).1
    ≡ (ok failed_row, (receive (λ e. e.bottle_id) failed 101 10 (ok rejection) (some 0) []).1)
receive-again_example =
    receive-again (λ e. e.bottle_id) failed 101 10 300 10 (ok rejection)
      (ok (record rejection { correlation_id = 71 })) (some 0) none [] failed_row tt receive_failed

abbrev completed_rows : List Row
completed_rows = record failed_row { disposition = Disposition.completed } ∷ []

settle-CompletedRow_example : CompletedRow (
    row_with_command 70
      (settle
        (record { command = rejection; decision = Decision.reject; written_at = none })
        completed_rows).1)
settle-CompletedRow_example =
    settle-CompletedRow 70
      (record { command = rejection; decision = Decision.reject; written_at = none }) completed_rows
      refl
