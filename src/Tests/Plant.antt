-- ===== src/Tests/Plant.antt =====
-- The simulated devices on concrete registers, draws and commands.
use zilina_eirvah_edge_impl.Prelude.{
  ℕ, ◌+◌, ◌≡◌, ◌↔◌, refl, true, false, List, [], ◌∷◌, some, arith, ◌==◌, inl, inr, if◌then◌else◌,
  All,
}
use zilina_eirvah_edge_impl.Prelude.Exceptions.{Exc, ok, err}
use zilina_eirvah_edge_impl.Controls.{RejectControl, apply_motor}
use zilina_eirvah_edge_impl.Controls.Reject
use zilina_eirvah_edge_impl.Controls.Inspection.{InspectionStream}
use zilina_eirvah_edge_impl.Recovery.Journal
use zilina_eirvah_edge_impl.Recovery.Journal.{Journal}
use zilina_eirvah_edge_impl.Writer.Native.{next_sequence, check_ack}
use zilina_eirvah_edge_impl.Plant.{DataBlock, Random}
use zilina_eirvah_edge_impl.Plant.Modbus.{
  RegisterBlock, Device, Codec, Clock, Target, Runtime, tick, turn, answer, snapshot, start,
  apply_control,
}
use zilina_eirvah_edge_impl.Plant.Modbus.Protocol.{Answered}
use zilina_eirvah_edge_impl.Plant.Modbus.Traffic.{Move, Apart, loaded, run, delivered_once}
use zilina_eirvah_edge_impl.Plant.Modbus.Bounds.{Fits, IsValid, Stands, tick-IsValid, turn-full}
use zilina_eirvah_edge_impl.Plant.Modbus.Restart.{Restarted, start-answer}
use zilina_eirvah_edge_impl.Plant.S7
use zilina_eirvah_edge_impl.Tests.{timestamps}
use zilina_eirvah_edge_impl.Plant.S7.{acknowledged_once, tick_palletizer-position}

abbrev blocks : DataBlock
blocks = record {
  Store = ℕ → ℕ;
  empty = λ a. 0;
  get = λ a s. s a;
  set = λ b v s a. if a == b then v else s a;
  get-set = λ a b v s h k. refl;
}

abbrev random : Random
random = record {
  Generator = ℕ;
  randint = λ span g. (span + 3, g + 1);
  chance = λ g. (g == 5, g + 1);
}

abbrev station : RejectControl
station = record { window = 256; count = 0; last_bottle = 0; present = 7 ∷ 8 ∷ []; rejected = [] }

station-IsValid : Reject.IsValid station
station-IsValid = record {
  fits = omega arith;
  distinct = (refl, (refl, tt));
  once = tt;
  known = λ b e. absurd (cc e);
  bounded = omega arith;
}

abbrev block : RegisterBlock
block = record {
  fill_level_raw = 750;
  motor_state = 1;
  throughput_raw = 80;
  belt_speed_raw = 50;
  jam_detected = 0;
  bottle_count = 8;
  reject_count = 0;
  conveyor_active = 1;
  conveyor = record { max_speed = 80; setpoint = 50; running = true; faulted = false };
  valve = record { opened = true };
  reject = station;
}

block-Fits : Fits block
block-Fits = record {
  level = (omega arith, omega arith);
  state = omega arith;
  throughput = omega arith;
  belt = omega arith;
  jam = omega arith;
  bottle = omega arith;
  rejects = omega arith;
  active = omega arith;
  maximum = refl;
  conveyor_safe = record { in_range = omega arith; stopped = λ e. absurd (cc e) };
  reject_valid = station-IsValid;
}

abbrev stream : InspectionStream
stream = record {
  session = 9;
  every_n_bottles = 4;
  fail_every_n_inspections = 5;
  inspected = 2;
  failed = 0;
  bottles = 8;
  sequence = 2;
  snapshot = 0 ∷ 0 ∷ 0 ∷ 9 ∷ 2 ∷ 8 ∷ 1 ∷ 0 ∷ 0 ∷ 5 ∷ [];
}

abbrev device : Device ℕ
device = record { block = block; inspection = stream; acks = []; generator = 1 }

-- The device behind a reset of the count: a new setpoint and its acknowledgement
abbrev saved : Device ℕ
saved = record device {
  block = record block {
    conveyor = record { max_speed = 80; setpoint = 60; running = true; faulted = false };
  };
  acks = ("20", (5, 1)) ∷ [];
}

abbrev codec : Codec ℕ
codec = record {
  encode = λ d. 1;
  decode = λ text. saved;
  encode_effect = λ e. 2;
  identity = λ session sequence. session + sequence;
  encode_event = λ e. 3;
  decode_event = λ text. err Exc.type_error;
  times = timestamps;
}

abbrev journal : Journal
journal = record {
  events = record { id = 11; body = 3; created = 4; received = false } ∷ [];
  created = 1;
  received = 0;
  boots = 1;
  state = some 1;
  effects = [];
  capacity = 1;
}

journal-IsValid : Journal.IsValid journal
journal-IsValid = record { distinct = (refl, tt); balance = refl; fits = omega arith }

abbrev runtime : Runtime blocks random codec
runtime = record { device = device; journal = some journal; boots = 1; store = λ a. 0; log = [] }

abbrev clock : Clock
clock = record { milliseconds = 7000; event_at = 7; effect_at = λ a. 7; old_at = λ a. 7 }

runtime-IsValid : IsValid blocks random codec runtime
runtime-IsValid = record {
  block_fits = block-Fits;
  stream_valid = record {
    nonzero = omega arith;
    fits = omega arith;
    sequence_fits = omega arith;
    bottle_interval = omega arith;
    fail_interval = omega arith;
    sampled = refl;
    failures = refl;
  };
  journal_valid = journal-IsValid;
}

tick-IsValid_example : IsValid blocks random codec (tick blocks random codec clock runtime).1
tick-IsValid_example = tick-IsValid blocks random codec clock runtime runtime-IsValid

turn-full_example :
    Stands blocks random codec journal device (turn blocks random codec clock runtime).1
unfolding Journal.pending
turn-full_example = turn-full blocks random codec clock journal runtime refl (omega arith)

abbrev valve_command : List Move
valve_command = Move.ticks clock ∷ Move.writes 25 (1 ∷ 0 ∷ []) ∷ Move.writes 24 (9 ∷ []) ∷ []

valve_command-Apart : All (Apart Target.conveyor_target) valve_command
valve_command-Apart = (
  tt,
  (
    (omega arith, inr (omega arith), inl (omega arith)),
    ((omega arith, inr (omega arith), inl (omega arith)), tt),
  ),
)

saved_back :
    let d = (answer blocks random codec clock Target.conveyor_target 5 2 60 runtime).device in
    codec.decode (codec.encode (snapshot d)) ≡ snapshot d
unfolding answer apply_control apply_motor snapshot
saved_back = refl

abbrev pallets : S7.PalletizerBlock
pallets = record {
  layer_count = 9;
  pallet_complete = 0;
  cycles_per_hr = 12;
  ticks_since_layer = 11;
}

delivered_once_example :
    let r =
      loaded blocks random codec Target.conveyor_target 5 2 60 valve_command valve_command
        runtime in
    let q = run blocks random codec (Move.ticks clock ∷ valve_command) r in
    let status = (apply_control Target.conveyor_target 2 60 r.device.block).1 in
    Answered blocks random codec Target.conveyor_target 5 2 status runtime q
    × (check_ack 5 (q.store 50, q.store 51)
        ≡ (if status == 1 then ok true else err (Exc.value_error "device rejected command")))
unfolding next_sequence
delivered_once_example =
    delivered_once blocks random codec clock Target.conveyor_target 4 2 60 valve_command
      valve_command valve_command runtime (omega arith) refl (inl refl) valve_command-Apart
      valve_command-Apart valve_command-Apart

start-answer_example :
    let q = answer blocks random codec clock Target.conveyor_target 5 2 60 runtime in
    let r = start blocks random codec clock q.journal device in
    Restarted blocks random codec q.device r × (r.store 50 ≡ 5) × (r.store 51 ≡ 1)
unfolding apply_control apply_motor
start-answer_example =
    start-answer blocks random codec clock clock Target.conveyor_target 5 2 60 journal runtime
      device refl (omega arith) saved_back

abbrev line : S7.Runtime
line = record {
  capper = record {
    cap_presence = 1;
    rejects_per_min = 0;
    motor = record { max_speed = 1800; setpoint = 1500; running = true; faulted = false };
  };
  palletizer = pallets;
  commands = record {
    sequence = 3;
    operation = 1;
    value = 1;
    ack = 3;
    status = 1;
    running = 1;
    faulted = 0;
    setpoint = 1500;
    speed_word = 1500;
  };
  log = (1, 1) ∷ [];
}

abbrev quiet : S7.Draws
quiet = record { no_cap = false; rejects = false; forgets = false; cycles = 1 }

acknowledged_once_example :
    let a = apply_motor 1 0 line.capper.motor in
    let loaded = S7.tick_all (quiet ∷ []) (S7.write_payload 1 0 (S7.tick_all (quiet ∷ []) line)) in
    let q = S7.tick_all [] (S7.tick quiet (S7.write_sequence 8 loaded)) in
    (q.capper.motor ≡ a.0)
    × (q.log ≡ (1, 1) ∷ (1, a.1) ∷ [])
    × (check_ack 8 (q.commands.ack, q.commands.status)
        ≡ (if a.1 == 1 then ok true else err (Exc.value_error "device rejected command")))
unfolding next_sequence
acknowledged_once_example =
    acknowledged_once quiet 7 1 0 (quiet ∷ []) (quiet ∷ []) [] line (omega arith) (inr refl)

tick_palletizer-position_example :
    S7.IsValid (S7.tick_palletizer quiet pallets)
    × (S7.position (S7.tick_palletizer quiet pallets) ≡ 0)
    × (((S7.tick_palletizer quiet pallets).pallet_complete ≡ 1)
        ↔ (S7.position (S7.tick_palletizer quiet pallets) ≡ 0))
tick_palletizer-position_example =
    tick_palletizer-position quiet pallets
      (record { layers = omega arith; ticks = omega arith; cycles = (omega arith, omega arith) })
