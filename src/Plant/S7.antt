-- ===== src/Plant/S7.antt =====
-- services/s7-simulator/src/s7_simulator/server.py: CapperBlock, PalletizerBlock and
-- SimulatorRuntime. The data block of the commands is its nine words; what random.Random draws in a
-- turn is an argument. The torque, a floating-point number that nothing else reads, is left out.
use zilina_eirvah_edge_impl.Prelude.{
  ℕ, ◌+◌, ◌-◌, ◌*◌, ◌%◌, ◌≤◌, ◌<◌, ◌≡◌, ◌≢◌, ◌↔◌, refl, sym, ◌∙◌, ap, max, min, Bool, true, not,
  ◌&&◌, List, [], ◌∷◌, ◌++◌, arith, ltb, leb, ◌==◌, if◌then◌else◌, inr, ◌⊎◌,
}
use zilina_eirvah_edge_impl.Prelude.Exceptions.{Exc, ok, err}
use zilina_eirvah_edge_impl.Controls.{MotorControl, speed, apply_motor}
use zilina_eirvah_edge_impl.Writer.Native.{next_sequence, check_ack, next_sequence_fresh}
use zilina_eirvah_edge_impl.Plant.{check_ack-answered}

-- The draws of a turn: no cap is present, a reject is counted, one is forgotten, and
-- rng.randint(-1, 1) + 1
pub record Draws : Type 0 where
  pub no_cap : Bool
  pub rejects : Bool
  pub forgets : Bool
  pub cycles : ℕ

pub record CapperBlock : Type 0 where
  pub cap_presence : ℕ
  pub rejects_per_min : ℕ
  pub motor : MotorControl

-- CapperBlock.tick
unfoldable pub tick_capper : Draws → CapperBlock → CapperBlock
tick_capper draws c = record c {
  cap_presence = if draws.no_cap then 0 else 1;
  rejects_per_min =
      if draws.rejects
      then min (c.rejects_per_min + 1) 10
      else if ltb 0 c.rejects_per_min && draws.forgets
      then c.rejects_per_min - 1
      else c.rejects_per_min;
}

pub record PalletizerBlock : Type 0 where
  pub layer_count : ℕ
  pub pallet_complete : ℕ
  pub cycles_per_hr : ℕ
  pub ticks_since_layer : ℕ

-- PalletizerBlock.tick: max(8, min(16, cycles + draw)), of a draw from -1 to 1
unfoldable pub tick_palletizer : Draws → PalletizerBlock → PalletizerBlock
tick_palletizer draws p =
    let cycles = max 8 (min 16 (p.cycles_per_hr + draws.cycles - 1)) in
    let q = record p {
      pallet_complete = 0;
      cycles_per_hr = cycles;
      ticks_since_layer = p.ticks_since_layer + 1;
    } in
    if leb 12 q.ticks_since_layer
    then (if leb 10 (p.layer_count + 1)
        then record q { ticks_since_layer = 0; layer_count = 0; pallet_complete = 1 }
        else record q { ticks_since_layer = 0; layer_count = p.layer_count + 1 })
    else q

-- The words of the third data block: the mailbox, its acknowledgement, and the feedback of the motor
pub record CommandBlock : Type 0 where
  pub sequence : ℕ
  pub operation : ℕ
  pub value : ℕ
  pub ack : ℕ
  pub status : ℕ
  pub running : ℕ
  pub faulted : ℕ
  pub setpoint : ℕ
  pub speed_word : ℕ

-- The runtime; the log has the operation and the outcome of each line "device_command".
pub record Runtime : Type 0 where
  pub capper : CapperBlock
  pub palletizer : PalletizerBlock
  pub commands : CommandBlock
  pub log : List (ℕ × ℕ)

-- SimulatorRuntime._process_controls
unfoldable pub process_controls : Runtime → Runtime
process_controls r =
    let c = r.commands in
    let (motor, status) = apply_motor c.operation c.value r.capper.motor in
    if not (c.sequence == 0) && not (c.sequence == c.ack)
    then record r {
      capper = record r.capper { motor = motor };
      commands = record c { ack = c.sequence; status = status };
      log = r.log ++ (c.operation, status) ∷ [];
    }
    else r

-- SimulatorRuntime._sync_buffers, the words of the motor
unfoldable pub sync_buffers : Runtime → Runtime
sync_buffers r =
    let m = r.capper.motor in
    record r {
      commands = record r.commands {
        running = if m.running then 1 else 0;
        faulted = if m.faulted then 1 else 0;
        setpoint = m.setpoint;
        speed_word = speed m;
      };
    }

-- One turn of SimulatorRuntime._tick_loop
unfoldable pub tick : Draws → Runtime → Runtime
tick draws r =
    let q = process_controls r in
    sync_buffers (record q {
      capper = tick_capper draws q.capper;
      palletizer = tick_palletizer draws q.palletizer;
    })

-- The two frames of a client
abbrev pub write_payload : ℕ → ℕ → Runtime → Runtime
write_payload operation value r = record r {
  commands = record r.commands { operation = operation; value = value };
}

abbrev pub write_sequence : ℕ → Runtime → Runtime
write_sequence sequence r = record r { commands = record r.commands { sequence = sequence } }

unfoldable pub tick_all : List Draws → Runtime → Runtime
tick_all [] r = r
tick_all (draws ∷ rest) r = tick_all rest (tick draws r)

abbrev pub Idle : Runtime → Type 0
Idle r = (r.commands.sequence ≡ 0) ⊎ (r.commands.sequence ≡ r.commands.ack)

-- What the client and the log see is the same, and so is the motor.
pub record Same (p q : Runtime) : Type 0 where
  pub sequence_is : q.commands.sequence ≡ p.commands.sequence
  pub operation_is : q.commands.operation ≡ p.commands.operation
  pub value_is : q.commands.value ≡ p.commands.value
  pub ack_is : q.commands.ack ≡ p.commands.ack
  pub status_is : q.commands.status ≡ p.commands.status
  pub motor_is : q.capper.motor ≡ p.capper.motor
  pub log_is : q.log ≡ p.log

Idle-process_controls : (r : Runtime) → Idle r → process_controls r ≡ r
unfolding process_controls
Idle-process_controls r h = ground (arith, h)

Idle-tick : (draws : Draws) (r : Runtime) → Idle r → Same r (tick draws r)
unfolding tick sync_buffers tick_capper
Idle-tick draws r h = rw (Idle-process_controls r h) (record {
  sequence_is = refl;
  operation_is = refl;
  value_is = refl;
  ack_is = refl;
  status_is = refl;
  motor_is = refl;
  log_is = refl;
})

Idle-tick_all : (draws : List Draws) (r : Runtime) → Idle r → Same r (tick_all draws r)
unfolding tick_all
Idle-tick_all [] r h = record {
  sequence_is = refl;
  operation_is = refl;
  value_is = refl;
  ack_is = refl;
  status_is = refl;
  motor_is = refl;
  log_is = refl;
}
Idle-tick_all (d ∷ draws) r h =
    let s = Idle-tick d r h in
    let k = Idle-tick_all draws (tick d r) (ground (arith, s.sequence_is, s.ack_is, h)) in
    record {
      sequence_is = k.sequence_is ∙ s.sequence_is;
      operation_is = k.operation_is ∙ s.operation_is;
      value_is = k.value_is ∙ s.value_is;
      ack_is = k.ack_is ∙ s.ack_is;
      status_is = k.status_is ∙ s.status_is;
      motor_is = k.motor_is ∙ s.motor_is;
      log_is = k.log_is ∙ s.log_is;
    }

-- A command that waits is answered in one turn.
Waits-tick :
    (draws : Draws) (r : Runtime)
    → r.commands.sequence ≢ 0
    → r.commands.sequence ≢ r.commands.ack
    → let a = apply_motor r.commands.operation r.commands.value r.capper.motor in
      let q = tick draws r in
      (q.commands.sequence ≡ r.commands.sequence)
      × (q.commands.ack ≡ r.commands.sequence)
      × (q.commands.status ≡ a.1)
      × (q.capper.motor ≡ a.0)
      × (q.log ≡ r.log ++ (r.commands.operation, a.1) ∷ [])
unfolding tick process_controls sync_buffers tick_capper
Waits-tick draws r h k = ground (arith, h, k)

-- From an idle mailbox: a client writes the payload and then a new sequence, and the loop makes a
-- turn. With any turns before, between and after, the motor gets exactly one command, the log one
-- line, and the client's check of the acknowledgement returns for status 1 and raises for any other.
pub acknowledged_once :
    (draws : Draws) (draw operation value : ℕ) (before between after : List Draws) (r : Runtime)
    → draw < 65535
    → Idle r
    → let sequence = next_sequence draw r.commands.ack in
      let a = apply_motor operation value r.capper.motor in
      let loaded = tick_all between (write_payload operation value (tick_all before r)) in
      let q = tick_all after (tick draws (write_sequence sequence loaded)) in
      (q.capper.motor ≡ a.0)
      × (q.log ≡ r.log ++ (operation, a.1) ∷ [])
      × (check_ack sequence (q.commands.ack, q.commands.status)
          ≡ (if a.1 == 1 then ok true else err (Exc.value_error "device rejected command")))
acknowledged_once draws draw operation value before between after r small i =
    let sequence = next_sequence draw r.commands.ack in
    let (fresh, low, high) = next_sequence_fresh draw r.commands.ack small in
    let r1 = tick_all before r in
    let s1 = Idle-tick_all before r i in
    let r2 = write_payload operation value r1 in
    let i2 : Idle r2 = ground (arith, s1.sequence_is, s1.ack_is, i) in
    let s3 = Idle-tick_all between r2 i2 in
    let r3 = tick_all between r2 in
    let r4 = write_sequence sequence r3 in
    let ack_same = s3.ack_is ∙ s1.ack_is in
    let w = Waits-tick draws r4 (omega (arith, low)) (λ e. fresh (e ∙ ack_same)) in
    let r5 = tick draws r4 in
    let s6 = Idle-tick_all after r5 (inr (w.0 ∙ sym w.1)) in
    let command =
      ap (λ x. apply_motor x r3.commands.value r3.capper.motor) s3.operation_is
      ∙ ap (λ x. apply_motor operation x r3.capper.motor) s3.value_is
      ∙ ap (λ x. apply_motor operation value x) (s3.motor_is ∙ s1.motor_is) in
    let a = apply_motor operation value r.capper.motor in
    (
      s6.motor_is ∙ w.3 ∙ ap (λ x. x.0) command,
      s6.log_is
          ∙ w.4
          ∙ ap (λ x. r3.log ++ (r3.commands.operation, x.1) ∷ []) command
          ∙ ap (λ x. r3.log ++ (x, a.1) ∷ []) s3.operation_is
          ∙ ap (λ l. l ++ (operation, a.1) ∷ []) (s3.log_is ∙ s1.log_is),
      check_ack-answered sequence a.1 _ _ (s6.ack_is ∙ w.1)
          (s6.status_is ∙ w.2 ∙ ap (λ x. x.1) command),
    )

-- The palletizer's counters are in range.
pub record IsValid (p : PalletizerBlock) : Type 0 where
  pub layers : p.layer_count < 10
  pub ticks : p.ticks_since_layer < 12
  pub cycles : (8 ≤ p.cycles_per_hr) × (p.cycles_per_hr ≤ 16)

-- The turns since the last full pallet
abbrev pub position : PalletizerBlock → ℕ
position p = p.layer_count * 12 + p.ticks_since_layer

-- A turn keeps the palletizer's counters in range and moves its position on by one, modulo 120; a
-- pallet is complete exactly in the turn in which the position comes back to 0.
pub tick_palletizer-position :
    (draws : Draws) (p : PalletizerBlock)
    → IsValid p
    → let q = tick_palletizer draws p in
      IsValid q
      × (position q ≡ (position p + 1) % 120)
      × ((q.pallet_complete ≡ 1) ↔ (position q ≡ 0))
unfolding tick_palletizer
tick_palletizer-position draws p v = (
  record {
    layers = ground (arith, v.layers);
    ticks = ground (arith, v.ticks);
    cycles = (ground arith, ground arith);
  },
  ground (arith, v.layers, v.ticks),
  (λ e. ground (arith, v.layers, v.ticks, e), λ e. ground (arith, v.layers, v.ticks, e)),
)
