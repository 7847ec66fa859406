-- ===== src/Tests/Controls.antt =====
-- The controls on concrete commands.
use zilina_eirvah_edge_impl.Prelude.{ℕ, ◌≡◌, refl, true, false, List, [], ◌∷◌, arith}
use zilina_eirvah_edge_impl.Controls.{MotorControl, RejectControl, apply_reject, observe, shrink}
use zilina_eirvah_edge_impl.Controls.Reject.{IsValid, Event, rejections, Stays, step, rejected_once}
use zilina_eirvah_edge_impl.Controls.Inspection
use zilina_eirvah_edge_impl.Controls.Inspection.{InspectionStream}

abbrev motor : MotorControl
motor = record { max_speed = 100; setpoint = 40; running = true; faulted = false }

abbrev faulted_motor : MotorControl
faulted_motor = record { max_speed = 100; setpoint = 40; running = false; faulted = true }

abbrev one : ℕ
one = 1

abbrev shift : List (ℕ × ℕ)
shift = (2, 80) ∷ (4, 1) ∷ (1, 1) ∷ []

abbrev station : RejectControl
station = record { window = 2; count = 1; last_bottle = 5; present = 5 ∷ 6 ∷ []; rejected = 5 ∷ [] }

station-IsValid : IsValid station
station-IsValid = record {
  fits = omega arith;
  distinct = (refl, (refl, tt));
  once = (refl, tt);
  known = λ b e. ground arith;
  bounded = omega arith;
}

abbrev events : List Event
events = Event.command 1 5 ∷ Event.passes 6 ∷ Event.command 1 5 ∷ []

events-Stays : Stays 5 events station
unfolding Stays step observe shrink apply_reject
events-Stays = (refl, (refl, (refl, refl)))

rejected_once_example : rejections 5 events station ≡ 0
rejected_once_example = rejected_once 5 events station station-IsValid refl events-Stays

abbrev stream : InspectionStream
stream = record {
  session = 9;
  every_n_bottles = 2;
  fail_every_n_inspections = 3;
  inspected = 2;
  failed = 0;
  bottles = 5;
  sequence = 65535;
  snapshot = [];
}

stream-IsValid : Inspection.IsValid stream
stream-IsValid = record {
  nonzero = omega arith;
  fits = omega arith;
  sequence_fits = omega arith;
  bottle_interval = omega arith;
  fail_interval = omega arith;
  sampled = refl;
  failures = refl;
}
