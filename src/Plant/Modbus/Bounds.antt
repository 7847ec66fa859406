-- ===== src/Plant/Modbus/Bounds.antt =====
-- modbus_simulator/server.py: the device stays well-formed, its words fit in registers, and a full
-- outbox stops the belt.
use zilina_eirvah_edge_impl.Prelude.{
  if_holds, ℕ, ◌+◌, ◌≤◌, ◌%◌, ◌≡◌, refl, ◌∙◌, ap, Bool, true, false, Option, none, some, arith,
  ◌==◌, if◌then◌else◌,
}
use zilina_eirvah_edge_impl.Prelude.Exceptions.{Result, ok, err}
use zilina_eirvah_edge_impl.Controls.{MotorControl, apply_motor, speed, observe}
use zilina_eirvah_edge_impl.Controls.Motor.{IsSafe, apply_motor-IsSafe}
use zilina_eirvah_edge_impl.Controls.Reject
use zilina_eirvah_edge_impl.Controls.Reject.{apply_reject-IsValid}
use zilina_eirvah_edge_impl.Controls.Inspection
use zilina_eirvah_edge_impl.Controls.Inspection.{InspectionStream}
use zilina_eirvah_edge_impl.Recovery.Journal.{Journal, pending, commit}
use zilina_eirvah_edge_impl.Recovery.Journal
use zilina_eirvah_edge_impl.Recovery.Journal.Outbox.{count-delete_old, commit-IsValid, ack-IsValid}
use zilina_eirvah_edge_impl.Contracts.Inspection.{BottleInspection}
use zilina_eirvah_edge_impl.Plant.{DataBlock, Random}
use zilina_eirvah_edge_impl.Plant.Modbus.{
  RegisterBlock, Device, Effect, Codec, Clock, Target, address_of, apply_control, Runtime, fill,
  tick_block, advance_device, receive_with, receive_ack, answer, process_target, process_controls,
  publish, publish_event, read_head, committed, commit_turn, record_turn, advanced, is_full, turn,
  tick, commit_effect, event_of, snapshot, identified,
}

-- The controls are well-formed, and the words of the block are in their ranges.
pub record Fits (b : RegisterBlock) : Type 0 where
  pub level : (500 ≤ b.fill_level_raw) × (b.fill_level_raw ≤ 950)
  pub state : b.motor_state ≤ 1
  pub throughput : b.throughput_raw ≤ 80
  pub belt : b.belt_speed_raw ≤ 80
  pub jam : b.jam_detected ≤ 1
  pub bottle : b.bottle_count ≤ 65535
  pub rejects : b.reject_count ≤ 65535
  pub active : b.conveyor_active ≤ 1
  pub maximum : b.conveyor.max_speed ≡ 80
  pub conveyor_safe : IsSafe b.conveyor
  pub reject_valid : Reject.IsValid b.reject

max_speed-apply_motor :
    (operation value : ℕ) (m : MotorControl)
    → (apply_motor operation value m).0.max_speed ≡ m.max_speed
unfolding apply_motor
max_speed-apply_motor operation value m = ground arith

speed-bound : (m : MotorControl) → IsSafe m → m.max_speed ≡ 80 → speed m ≤ 80
unfolding speed
speed-bound m h e = ground (arith, h.in_range, e)

apply_control-Fits :
    (t : Target) (operation value : ℕ) (b : RegisterBlock)
    → Fits b
    → let c = (apply_control t operation value b).0 in
      Fits (record c { reject_count = c.reject.count })
unfolding apply_control
apply_control-Fits Target.conveyor_target operation value b h = record {
  level = h.level;
  state = h.state;
  throughput = h.throughput;
  belt = h.belt;
  jam = h.jam;
  bottle = h.bottle;
  rejects = h.reject_valid.bounded;
  active = h.active;
  maximum = max_speed-apply_motor operation value b.conveyor ∙ h.maximum;
  conveyor_safe = apply_motor-IsSafe operation value b.conveyor h.conveyor_safe;
  reject_valid = h.reject_valid;
}
apply_control-Fits Target.valve_target operation value b h = record {
  level = h.level;
  state = h.state;
  throughput = h.throughput;
  belt = h.belt;
  jam = h.jam;
  bottle = h.bottle;
  rejects = h.reject_valid.bounded;
  active = h.active;
  maximum = h.maximum;
  conveyor_safe = h.conveyor_safe;
  reject_valid = h.reject_valid;
}
apply_control-Fits Target.reject_target operation value b h =
    let r = apply_reject-IsValid operation value b.reject h.reject_valid in
    record {
      level = h.level;
      state = h.state;
      throughput = h.throughput;
      belt = h.belt;
      jam = h.jam;
      bottle = h.bottle;
      rejects = r.bounded;
      active = h.active;
      maximum = h.maximum;
      conveyor_safe = h.conveyor_safe;
      reject_valid = r;
    }

module _ (random : Random) where
  open random use {Generator}

  fill-bounds :
      (b : RegisterBlock) (g : Generator)
      → Fits b
      → (500 ≤ (fill random b g).0) × ((fill random b g).0 ≤ 950)
  fill-bounds b g h = ground (arith, h.level)

  tick_block-Fits : (b : RegisterBlock) (g : Generator) → Fits b → Fits (tick_block random b g).0
  unfolding tick_block
  tick_block-Fits b g h =
      let jams = (random.chance (fill random b g).1).0 in
      let c = if jams then (apply_motor 4 1 b.conveyor).0 else b.conveyor in
      let safe =
        if_holds IsSafe jams (apply_motor 4 1 b.conveyor).0 b.conveyor
          (apply_motor-IsSafe 4 1 b.conveyor h.conveyor_safe) h.conveyor_safe in
      let top =
        if_holds (λ m. m.max_speed ≡ 80) jams (apply_motor 4 1 b.conveyor).0 b.conveyor
          (max_speed-apply_motor 4 1 b.conveyor ∙ h.maximum) h.maximum in
      let still = speed c == 0 in
      let bottle = if still then b.bottle_count else b.bottle_count % 65535 + 1 in
      let r =
        if_holds Reject.IsValid still b.reject (observe bottle b.reject) h.reject_valid
          (Reject.observe-IsValid bottle b.reject h.reject_valid) in
      record {
        level = fill-bounds b g h;
        state = h.state;
        throughput = ground arith;
        belt = speed-bound c safe top;
        jam = ground arith;
        bottle = ground (arith, h.bottle);
        rejects = r.bounded;
        active = ground arith;
        maximum = top;
        conveyor_safe = safe;
        reject_valid = r;
      }

-- A journal, if there is one, is well-formed.
abbrev pub JournalValid : Option Journal → Type 0
JournalValid none = Unit {0}
JournalValid (some j) = Journal.IsValid j

module _ (blocks : DataBlock) (random : Random) (codec : Codec random.Generator) where
  open random use {Generator}

  pub record IsValid (p : Runtime blocks random codec) : Type 0 where
    pub block_fits : Fits p.device.block
    pub stream_valid : Inspection.IsValid p.device.inspection
    pub journal_valid : JournalValid p.journal

  receive_with-IsValid :
      (o : Option Journal) (p : Runtime blocks random codec)
      → JournalValid o
      → IsValid p
      → IsValid (receive_with blocks random codec o p)
  receive_with-IsValid none p k v = v
  receive_with-IsValid (some j) p k v =
      if_holds IsValid _ _ p
        (record {
          block_fits = v.block_fits;
          stream_valid = v.stream_valid;
          journal_valid = ack-IsValid _ j k;
        })
        v

  commit_effect-JournalValid :
      (clock : Clock) (at : ℕ) (effect : Effect) (d : Device Generator) (o : Option Journal)
      → JournalValid o
      → JournalValid (commit_effect blocks random codec clock at effect d o)
  commit_effect-JournalValid clock at effect d none k = k
  commit_effect-JournalValid clock at effect d (some j) k = commit-IsValid _ none _ _ _ _ j k

  answer-IsValid :
      (clock : Clock) (t : Target) (sequence operation value : ℕ) (p : Runtime blocks random codec)
      → IsValid p
      → IsValid (answer blocks random codec clock t sequence operation value p)
  unfolding answer
  answer-IsValid clock t sequence operation value p v = record {
    block_fits = apply_control-Fits t operation value p.device.block v.block_fits;
    stream_valid = v.stream_valid;
    journal_valid = commit_effect-JournalValid clock (address_of t) _ _ p.journal v.journal_valid;
  }

  process_target-IsValid :
      (clock : Clock) (t : Target) (p : Runtime blocks random codec)
      → IsValid p
      → IsValid (process_target blocks random codec clock t p)
  unfolding process_target
  process_target-IsValid clock t p v = if_holds IsValid _ _ p (answer-IsValid clock t _ _ _ p v) v

  process_controls-IsValid :
      (clock : Clock) (p : Runtime blocks random codec)
      → IsValid p
      → IsValid (process_controls blocks random codec clock p)
  unfolding process_controls receive_ack
  process_controls-IsValid clock p v = process_target-IsValid clock Target.reject_target _ (
      process_target-IsValid clock Target.valve_target _ (
        process_target-IsValid clock Target.conveyor_target _
          (receive_with-IsValid p.journal p v.journal_valid v)))

  -- A device that is well-formed
  DeviceValid : Device Generator → Type 0
  DeviceValid d = Fits d.block × Inspection.IsValid d.inspection

  advance_device-valid :
      (clock : Clock) (full : Bool) (d : Device Generator)
      → Fits d.block
      → Inspection.IsValid d.inspection
      → DeviceValid (advance_device random clock full d).1
  unfolding advance_device DeviceValid
  advance_device-valid clock true d h v = (
    record {
      level = h.level;
      state = h.state;
      throughput = omega arith;
      belt = omega arith;
      jam = h.jam;
      bottle = h.bottle;
      rejects = h.rejects;
      active = omega arith;
      maximum = h.maximum;
      conveyor_safe = h.conveyor_safe;
      reject_valid = h.reject_valid;
    },
    v,
  )
  advance_device-valid clock false d h v =
      let b = (tick_block random d.block d.generator).0 in
      let f = tick_block-Fits random d.block d.generator h in
      let u = Inspection.observe-IsValid b.bottle_count clock.milliseconds d.inspection v in
      if_holds {A = Result (Unit {0}) × Device Generator} (λ r. DeviceValid r.1)
        (b.bottle_count == d.block.bottle_count) _ _ (f, v) (f, u)

  publish_event-IsValid :
      (r : Result (Option BottleInspection)) (p : Runtime blocks random codec)
      → IsValid p
      → IsValid (publish_event blocks random codec r p).1
  publish_event-IsValid (err e) p v = v
  publish_event-IsValid (ok event) p v = record {
    block_fits = v.block_fits;
    stream_valid = v.stream_valid;
    journal_valid = v.journal_valid;
  }

  publish-IsValid :
      (p : Runtime blocks random codec) → IsValid p → IsValid (publish blocks random codec p)
  unfolding publish
  publish-IsValid p v = record {
    block_fits = v.block_fits;
    stream_valid = v.stream_valid;
    journal_valid = v.journal_valid;
  }

  committed-IsValid :
      (c : Result (Unit {0}) × Journal) (p : Runtime blocks random codec)
      → Journal.IsValid c.1
      → Fits p.device.block
      → Inspection.IsValid p.device.inspection
      → IsValid (committed blocks random codec c p).1
  committed-IsValid (err e, j) p k h v = record {
    block_fits = h;
    stream_valid = v;
    journal_valid = k;
  }
  committed-IsValid (ok _, j) p k h v =
      publish_event-IsValid _ _
        (publish-IsValid _ (record { block_fits = h; stream_valid = v; journal_valid = k }))

  commit_turn-IsValid :
      (clock : Clock) (j : Journal) (r : Result (Option BottleInspection))
      (p : Runtime blocks random codec)
      → Journal.IsValid j
      → IsValid p
      → IsValid (commit_turn blocks random codec clock j r p).1
  commit_turn-IsValid clock j (err e) p k v = v
  commit_turn-IsValid clock j (ok event) p k v =
      committed-IsValid _ p (commit-IsValid _ (identified blocks random codec event) none _ _ _ j k)
        v.block_fits v.stream_valid

  record_turn-IsValid :
      (clock : Clock) (previous : ℕ) (o : Option Journal) (p : Runtime blocks random codec)
      → JournalValid o
      → IsValid p
      → IsValid (record_turn blocks random codec clock previous o p).1
  record_turn-IsValid clock previous none p k v = publish-IsValid p v
  record_turn-IsValid clock previous (some j) p k v = commit_turn-IsValid clock j _ p k v

  advanced-IsValid :
      (clock : Clock) (p : Runtime blocks random codec) (r : Result (Unit {0}) × Device Generator)
      → JournalValid p.journal
      → DeviceValid r.1
      → IsValid (advanced blocks random codec clock p r).1
  unfolding DeviceValid
  advanced-IsValid clock p (err e, d) k (h, v) = record {
    block_fits = h;
    stream_valid = v;
    journal_valid = k;
  }
  advanced-IsValid clock p (ok _, d) k (h, v) =
      record_turn-IsValid clock _ p.journal _ k
        (record { block_fits = h; stream_valid = v; journal_valid = k })

  -- A turn of the loop, whether it ends well or raises, keeps a well-formed runtime so: the words of
  -- the block are in their ranges and the conveyor's speed is at most 80, a faulted conveyor does not
  -- run, the controls, the inspection stream and the journal are well-formed, so that the pending
  -- events fit in the outbox.
  pub tick-IsValid :
      (clock : Clock) (p : Runtime blocks random codec)
      → IsValid p
      → IsValid (tick blocks random codec clock p).1
  unfolding tick turn
  tick-IsValid clock p v =
      let q = process_controls blocks random codec clock p in
      let w = process_controls-IsValid clock p v in
      advanced-IsValid clock q _ w.journal_valid (
        advance_device-valid clock (is_full blocks random codec q.journal) q.device w.block_fits
          w.stream_valid)

  -- What a turn with a full outbox leaves of the device, and of the journal
  pub record Stands (j : Journal) (d : Device Generator) (q : Runtime blocks random codec)
      : Type 0 where
    pub stopped : q.device.block.belt_speed_raw ≡ 0
    pub idle : q.device.block.throughput_raw ≡ 0
    pub inactive : q.device.block.conveyor_active ≡ 0
    pub same_bottle : q.device.block.bottle_count ≡ d.block.bottle_count
    pub same_stream : q.device.inspection ≡ d.inspection
    pub same_pending : (k : Journal) × (q.journal ≡ some k) × (pending k ≡ pending j)

  publish_event-Stands :
      (j : Journal) (d : Device Generator) (r : Result (Option BottleInspection))
      (q : Runtime blocks random codec)
      → Stands j d q
      → Stands j d (publish_event blocks random codec r q).1
  publish_event-Stands j d (err e) q h = h
  publish_event-Stands j d (ok event) q h = record {
    stopped = h.stopped;
    idle = h.idle;
    inactive = h.inactive;
    same_bottle = h.same_bottle;
    same_stream = h.same_stream;
    same_pending = h.same_pending;
  }

  event_same : (s : InspectionStream) → event_of codec.times s.inspected s ≡ ok none
  event_same s = ground arith

  -- The device of a turn with a full outbox
  abbrev still : Device Generator → Device Generator
  still d = record d {
    block = record d.block { belt_speed_raw = 0; throughput_raw = 0; conveyor_active = 0 };
  }

  commit_turn-Stands :
      (clock : Clock) (j : Journal) (p : Runtime blocks random codec)
      → Stands j p.device
          (commit_turn blocks random codec clock j
            (ok none)
            (record p { device = still p.device })).1
  unfolding commit publish pending
  commit_turn-Stands clock j p =
      let d = still p.device in
      let k =
        (commit (codec.encode (snapshot d)) none none clock.event_at 0 (clock.old_at 0) j).1 in
      let q : Runtime blocks random codec = record p { device = d; journal = some k } in
      publish_event-Stands j p.device (read_head blocks random codec (Journal.head k))
        (publish blocks random codec q)
        (record {
          stopped = refl;
          idle = refl;
          inactive = refl;
          same_bottle = refl;
          same_stream = refl;
          same_pending = (k, refl, count-delete_old (clock.old_at 0) j.events);
        })

  record_turn-Stands :
      (clock : Clock) (o : Option Journal) (j : Journal) (p : Runtime blocks random codec)
      → o ≡ some j
      → Stands j p.device
          (record_turn blocks random codec clock p.device.inspection.inspected o
            (record p { device = still p.device })).1
  record_turn-Stands clock none j p e = absurd (cc e)
  record_turn-Stands clock (some i) j p e =
      let same : i ≡ j = cc e in
      rw (event_same p.device.inspection, same) (commit_turn-Stands clock j p)

  -- While the outbox is full, the rest of a turn stops the belt: no bottle passes, nothing is
  -- inspected, and no event becomes pending.
  pub turn-full :
      (clock : Clock) (j : Journal) (p : Runtime blocks random codec)
      → p.journal ≡ some j
      → j.capacity ≤ pending j
      → Stands j p.device (turn blocks random codec clock p).1
  unfolding turn advance_device pending
  turn-full clock j p e h =
      let full : is_full blocks random codec p.journal ≡ true =
        ap (is_full blocks random codec) e ∙ ground (arith, h) in
      rw full (record_turn-Stands clock p.journal j p e)
