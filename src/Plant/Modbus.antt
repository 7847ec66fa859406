-- ===== src/Plant/Modbus.antt =====
-- services/modbus-simulator/src/modbus_simulator/server.py: RegisterBlock and SimulatorRuntime.
-- The state that is saved, `Device`, stands apart from the registers and the journal.
pub mod Mailbox
pub mod Protocol
pub mod Delivery
pub mod Traffic
pub mod Bounds
pub mod Restart
use zilina_eirvah_edge_impl.Prelude.{
  ℕ, ◌+◌, ◌-◌, ◌*◌, ◌/◌, ◌%◌, ◌^◌, ◌≤◌, ◌<◌, ◌≡◌, max, min, String, Bool, true, false, not, ◌&&◌,
  ◌||◌, List, [], ◌∷◌, ◌++◌, Option, none, some, arith, ltb, leb, ◌==◌, if◌then◌else◌,
}
use zilina_eirvah_edge_impl.Prelude.Exceptions.{Exc, Result, ok, err}
use zilina_eirvah_edge_impl.Prelude.Dict.{Dict, lookup, insert}
use zilina_eirvah_edge_impl.Controls.{
  MotorControl, ValveControl, RejectControl, speed, apply_motor, apply_valve, apply_reject, observe,
}
use zilina_eirvah_edge_impl.Controls.Inspection.{InspectionStream}
use zilina_eirvah_edge_impl.Controls.Inspection
use zilina_eirvah_edge_impl.Contracts.Inspection.{
  BottleInspection, Timestamps, session_of, decode_inspection, encode_inspection,
}
use zilina_eirvah_edge_impl.Recovery.Journal.{Journal, pending, head, boot, commit, ack}
use zilina_eirvah_edge_impl.Plant.{DataBlock, Random, set_all}

-- RegisterBlock
pub record RegisterBlock : Type 0 where
  pub fill_level_raw : ℕ
  pub motor_state : ℕ
  pub throughput_raw : ℕ
  pub belt_speed_raw : ℕ
  pub jam_detected : ℕ
  pub bottle_count : ℕ
  pub reject_count : ℕ
  pub conveyor_active : ℕ
  pub conveyor : MotorControl
  pub valve : ValveControl
  pub reject : RejectControl

-- RegisterBlock.as_list
unfoldable pub as_list : RegisterBlock → List ℕ
as_list b =
    b.fill_level_raw ∷ b.motor_state ∷ b.throughput_raw ∷ b.belt_speed_raw ∷ b.jam_detected
    ∷ b.bottle_count ∷ b.reject_count ∷ b.conveyor_active ∷ []

-- int(b)
abbrev pub to_int : Bool → ℕ
to_int b = if b then 1 else 0

-- What the simulator saves, beside the generator: the block, the stream, and the acknowledgements by
-- str(address).
pub record Device (G : Type 0) : Type 0 where
  pub block : RegisterBlock
  pub inspection : InspectionStream
  pub acks : Dict (ℕ × ℕ)
  pub generator : G

-- The effect that is committed for a command
pub record Effect : Type 0 where
  pub target : ℕ
  pub sequence : ℕ
  pub operation : ℕ
  pub value : ℕ
  pub status : ℕ
  pub before_count : ℕ
  pub after_count : ℕ
  pub device_boot : ℕ

-- The texts of the journal as numbers
pub record Codec (G : Type 0) : Type 0 where
  pub encode : Device G → ℕ
  pub decode : ℕ → Device G
  pub encode_effect : Effect → ℕ
  -- the text "session:sequence", and the text of an event
  pub identity : ℕ → ℕ → ℕ
  pub encode_event : BottleInspection → ℕ
  pub decode_event : ℕ → Result BottleInspection
  pub times : Timestamps

-- The readings of the clock in one pass: for the stamp of an inspection, for an event, for the effects
-- and for what is old.
pub record Clock : Type 0 where
  pub milliseconds : ℕ
  pub event_at : ℕ
  pub effect_at : ℕ → ℕ
  pub old_at : ℕ → ℕ

-- sorted(items)
abbrev pub place : ℕ → List ℕ → List ℕ
place a [] = a ∷ []
place a (x ∷ xs) = let rest = place a xs in if leb a x then a ∷ x ∷ xs else x ∷ rest

abbrev pub sorted : List ℕ → List ℕ
sorted [] = []
sorted (x ∷ xs) = place x (sorted xs)

-- The three mailboxes
pub data Target : Type 0 where
  conveyor_target valve_target reject_target : Target

abbrev pub address_of : Target → ℕ
address_of Target.conveyor_target = 20
address_of Target.valve_target = 24
address_of Target.reject_target = 28

abbrev pub ack_of : Target → ℕ
ack_of Target.conveyor_target = 50
ack_of Target.valve_target = 52
ack_of Target.reject_target = 54

abbrev pub key_of : Target → String
key_of Target.conveyor_target = "20"
key_of Target.valve_target = "24"
key_of Target.reject_target = "28"

-- control.apply(operation, value)
unfoldable pub apply_control : Target → ℕ → ℕ → RegisterBlock → RegisterBlock × ℕ
apply_control Target.conveyor_target operation value b =
    let (control, status) = apply_motor operation value b.conveyor in
    (record b { conveyor = control }, status)
apply_control Target.valve_target operation value b =
    let (control, status) = apply_valve operation value b.valve in
    (record b { valve = control }, status)
apply_control Target.reject_target operation value b =
    let (control, status) = apply_reject operation value b.reject in
    (record b { reject = control }, status)

module _ (random : Random) where
  open random use {Generator, randint, chance}

  -- The level after the draw: max(500, min(950, level + draw)), of a draw from -20 to 20
  abbrev pub fill : RegisterBlock → Generator → ℕ × Generator
  fill b g =
      let (draw, g') = randint 20 g in
      if b.valve.opened
      then (max 500 (min 950 (b.fill_level_raw + draw - 20)), g')
      else (b.fill_level_raw, g)

  -- RegisterBlock.tick
  unfoldable pub tick_block : RegisterBlock → Generator → RegisterBlock × Generator
  tick_block b g =
      let (level, g1) = fill b g in
      let (jams, g2) = chance g1 in
      let conveyor = if jams then (apply_motor 4 1 b.conveyor).0 else b.conveyor in
      let belt = speed conveyor in
      let bottle = if belt == 0 then b.bottle_count else b.bottle_count % 65535 + 1 in
      let reject = if belt == 0 then b.reject else observe bottle b.reject in
      (
        record {
          fill_level_raw = level;
          motor_state = b.motor_state;
          throughput_raw = if b.valve.opened then 80 else 0;
          belt_speed_raw = belt;
          jam_detected = to_int conveyor.faulted;
          bottle_count = bottle;
          reject_count = reject.count;
          conveyor_active = to_int (ltb 0 belt);
          conveyor = conveyor;
          valve = b.valve;
          reject = reject;
        },
        g2,
      )

  -- One turn of the loop for the block and the stream; with a full outbox the belt stands still.
  unfoldable pub advance_device :
      Clock → Bool → Device Generator → Result (Unit {0}) × Device Generator
  advance_device clock true d = (
    ok tt,
    record d {
      block = record d.block { belt_speed_raw = 0; throughput_raw = 0; conveyor_active = 0 };
    },
  )
  advance_device clock false d =
      let (b, g) = tick_block d.block d.generator in
      let t = record d { block = b; generator = g } in
      let (stream, done) = Inspection.observe b.bottle_count clock.milliseconds d.inspection in
      if b.bottle_count == d.block.bottle_count
      then (ok tt, t)
      else (done, record t { inspection = stream })

-- SimulatorRuntime._snapshot: the set `_rejected` is saved as a sorted list.
unfoldable pub snapshot : {G : Type 0} → Device G → Device G
snapshot d = record d {
  block = record d.block {
    reject = record d.block.reject { rejected = sorted d.block.reject.rejected };
  };
}

-- What is restored of the saved state: a new session, from its first sequence on.
unfoldable pub restore : {G : Type 0} → Codec G → Option ℕ → Device G → Device G
restore codec none d = d
restore codec (some text) d =
    let old = codec.decode text in
    record old {
      inspection = record old.inspection {
        session = old.inspection.session % (2 ^ 64 - 1) + 1;
        sequence = 0;
      };
    }

-- The event of a turn: the published inspection, if there is a new one
abbrev pub event_of : Timestamps → ℕ → InspectionStream → Result (Option BottleInspection)
event_of times previous s =
    if s.inspected == previous then ok none else decode_inspection times s.snapshot

module _ (blocks : DataBlock) (random : Random) (codec : Codec random.Generator) where
  open blocks use {Store, get, set}
  open random use {Generator}

  -- The runtime: the device, its journal if it has one, the number of the boot, the registers, and the
  -- lines "device_command" of the log, each with the target, the operation and the outcome.
  pub record Runtime : Type 0 where
    pub device : Device Generator
    pub journal : Option Journal
    pub boots : ℕ
    pub store : Store
    pub log : List (ℕ × ℕ × ℕ)

  -- The receipt of an event, in registers 70 to 74
  abbrev pub receive_with : Option Journal → Runtime → Runtime
  receive_with none p = p
  receive_with (some j) p =
      let session =
        session_of (get 70 p.store) (get 71 p.store) (get 72 p.store) (get 73 p.store) in
      if not (session == 0) && not (get 74 p.store == 0)
      then record p { journal = some (ack (codec.identity session (get 74 p.store)) j).1 }
      else p

  unfoldable pub receive_ack : Runtime → Runtime
  receive_ack p = receive_with p.journal p

  -- The commit of an effect; without an event it cannot be refused.
  abbrev pub commit_effect : Clock → ℕ → Effect → Device Generator → Option Journal → Option Journal
  commit_effect clock at effect d none = none
  commit_effect clock at effect d (some j) =
      some
        (commit (codec.encode (snapshot d)) none (some (codec.encode_effect effect)) clock.event_at
          (clock.effect_at at) (clock.old_at at) j).1

  -- A command with a new sequence
  unfoldable pub answer : Clock → Target → ℕ → ℕ → ℕ → Runtime → Runtime
  answer clock target sequence operation value p =
      let (b, status) = apply_control target operation value p.device.block in
      let d = record p.device {
        block = record b { reject_count = b.reject.count };
        acks = insert (key_of target) (sequence, status) p.device.acks;
      } in
      record p {
        device = d;
        journal =
            commit_effect clock (address_of target)
              (record {
                target = address_of target;
                sequence = sequence;
                operation = operation;
                value = value;
                status = status;
                before_count = p.device.block.reject.count;
                after_count = b.reject.count;
                device_boot = p.boots;
              })
              d p.journal;
        store = set (ack_of target + 1) status (set (ack_of target) sequence p.store);
        log = p.log ++ (address_of target, operation, status) ∷ [];
      }

  unfoldable pub process_target : Clock → Target → Runtime → Runtime
  process_target clock target p =
      let sequence = get (address_of target) p.store in
      let answered =
        answer clock target sequence (get (address_of target + 1) p.store)
          (get (address_of target + 2) p.store) p in
      if not (sequence == 0) && not (sequence == get (ack_of target) p.store) then answered else p

  -- SimulatorRuntime._process_controls
  unfoldable pub process_controls : Clock → Runtime → Runtime
  process_controls clock p = process_target clock Target.reject_target (
      process_target clock Target.valve_target
        (process_target clock Target.conveyor_target (receive_ack p)))

  -- The registers of the block, of the controls and of the inspection
  unfoldable pub publish : Runtime → Runtime
  publish p =
      let b = p.device.block in
      let controls =
        to_int b.valve.opened
        ∷ to_int b.conveyor.running
        ∷ b.conveyor.setpoint
        ∷ b.reject.last_bottle
        ∷ [] in
      record p {
        store =
            set_all blocks 32 p.device.inspection.snapshot
              (set_all blocks 8 controls (set_all blocks 0 (as_list b) p.store));
      }

  abbrev pub publish_event :
      Result (Option BottleInspection) → Runtime → Result (Unit {0}) × Runtime
  publish_event (err e) p = (err e, p)
  publish_event (ok event) p =
      (ok tt, record p { store = set_all blocks 60 (encode_inspection event) p.store })

  abbrev pub read_head : Option ℕ → Result (Option BottleInspection)
  read_head none = ok none
  read_head (some text) = elim (codec.decode_event text) [ ok e ↦ ok (some e) | err e ↦ err e ]

  abbrev pub committed : Result (Unit {0}) × Journal → Runtime → Result (Unit {0}) × Runtime
  committed (err e, j) p = (err e, record p { journal = some j })
  committed (ok _, j) p =
      publish_event (read_head (head j)) (publish (record p { journal = some j }))

  abbrev pub identified : Option BottleInspection → Option (ℕ × ℕ)
  identified none = none
  identified (some e) = some (codec.identity e.session e.sequence, codec.encode_event e)

  abbrev pub commit_turn :
      Clock → Journal → Result (Option BottleInspection) → Runtime → Result (Unit {0}) × Runtime
  commit_turn clock j (err e) p = (err e, p)
  commit_turn clock j (ok event) p =
      committed
        (commit (codec.encode (snapshot p.device)) (identified event) none clock.event_at 0
          (clock.old_at 0) j)
        p

  -- The journal of a turn, and the registers
  abbrev pub record_turn : Clock → ℕ → Option Journal → Runtime → Result (Unit {0}) × Runtime
  record_turn clock previous none p = (ok tt, publish p)
  record_turn clock previous (some j) p =
      commit_turn clock j (event_of codec.times previous p.device.inspection) p

  abbrev pub advanced :
      Clock → Runtime → Result (Unit {0}) × Device Generator → Result (Unit {0}) × Runtime
  advanced clock p (err e, d) = (err e, record p { device = d })
  advanced clock p (ok _, d) =
      record_turn clock p.device.inspection.inspected p.journal (record p { device = d })

  abbrev pub is_full : Option Journal → Bool
  is_full none = false
  is_full (some j) = leb j.capacity (pending j)

  -- The rest of a turn, after the commands
  unfoldable pub turn : Clock → Runtime → Result (Unit {0}) × Runtime
  turn clock p = advanced clock p (advance_device random clock (is_full p.journal) p.device)

  -- One turn of SimulatorRuntime._tick_loop; what raises ends the loop.
  unfoldable pub tick : Clock → Runtime → Result (Unit {0}) × Runtime
  tick clock p = turn clock (process_controls clock p)

  abbrev pub put_ack : Target → Option (ℕ × ℕ) → Store → Store
  put_ack target none s = s
  put_ack target (some (sequence, status)) s =
      set_all blocks (ack_of target) (sequence ∷ status ∷ []) s

  -- SimulatorRuntime._build_context
  unfoldable pub build_context : Device Generator → Store
  build_context d = put_ack Target.reject_target (lookup (key_of Target.reject_target) d.acks) (
      put_ack Target.valve_target (lookup (key_of Target.valve_target) d.acks) (
        put_ack Target.conveyor_target (lookup (key_of Target.conveyor_target) d.acks)
          (set_all blocks 0 (as_list d.block) blocks.empty)))

  -- SimulatorRuntime._open_recovery and the start of `run`, on a new device and the journal on disk.
  unfoldable pub start : Clock → Option Journal → Device Generator → Runtime
  start clock none d = record {
    device = d;
    journal = none;
    boots = 0;
    store = build_context d;
    log = [];
  }
  start clock (some j) d =
      let (boots, j1) = boot j in
      let d1 = restore codec j1.state d in
      let j2 =
        (commit (codec.encode (snapshot d1)) none none clock.event_at 0 (clock.old_at 0) j1).1 in
      record { device = d1; journal = some j2; boots = boots; store = build_context d1; log = [] }
