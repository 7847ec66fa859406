-- ===== src/Plant/Modbus/Protocol.antt =====
-- modbus_simulator/server.py and native.py: the command protocol. The writer puts the payload, then
-- the sequence; the device answers in its next turn.
use zilina_eirvah_edge_impl.Prelude.{
  if_holds, ℕ, ◌+◌, ◌*◌, ◌≤◌, ◌<◌, ◌≡◌, ◌≢◌, refl, ◌∙◌, [], ◌∷◌, ◌++◌, arith,
}
use zilina_eirvah_edge_impl.Plant.{DataBlock, Random, get-set_same, get-set_other}
use zilina_eirvah_edge_impl.Plant.Modbus.{
  Codec, Clock, Target, address_of, ack_of, apply_control, Runtime, answer, process_target,
}
use zilina_eirvah_edge_impl.Plant.Modbus.Mailbox.{
  of_target, of_target-other, of_target-same, Idle, Same,
}

ack_fits : (t : Target) → ack_of t + 1 < 79
ack_fits Target.conveyor_target = omega arith
ack_fits Target.valve_target = omega arith
ack_fits Target.reject_target = omega arith

abbrev pub index : Target → ℕ
index Target.conveyor_target = 0
index Target.valve_target = 1
index Target.reject_target = 2

pub at :
    (t : Target) → (address_of t ≡ 20 + 4 * index t) × (ack_of t ≡ 50 + 2 * index t) × (index t ≤ 2)
at Target.conveyor_target = (refl, refl, omega arith)
at Target.valve_target = (refl, refl, omega arith)
at Target.reject_target = (refl, refl, omega arith)

module _ (blocks : DataBlock) (random : Random) (codec : Codec random.Generator) where
  open blocks use {get, get-set}
  open random use {Generator}

  -- Registers that the answer to a target's command does not set
  get-answer :
      (clock : Clock) (t : Target) (a sequence operation value : ℕ)
      (p : Runtime blocks random codec)
      → a < 79
      → a ≢ ack_of t
      → a ≢ ack_of t + 1
      → get a (answer blocks random codec clock t sequence operation value p).store ≡ get a p.store
  unfolding answer
  get-answer clock t a sequence operation value p h n m =
      get-set_other blocks a (ack_of t + 1) _ _ h (ack_fits t) m
      ∙ get-set_other blocks a (ack_of t) sequence p.store h (omega (arith, ack_fits t)) n

  pub get-process_target :
      (clock : Clock) (t : Target) (a : ℕ) (p : Runtime blocks random codec)
      → a < 79
      → a ≢ ack_of t
      → a ≢ ack_of t + 1
      → get a (process_target blocks random codec clock t p).store ≡ get a p.store
  unfolding process_target
  get-process_target clock t a p h n m =
      if_holds (λ q. get a q.store ≡ get a p.store) _ _ p (get-answer clock t a _ _ _ p h n m) refl

  of_target-answer :
      (clock : Clock) (t : Target) (a sequence operation value : ℕ)
      (p : Runtime blocks random codec)
      → a ≢ address_of t
      → of_target a (answer blocks random codec clock t sequence operation value p).log
        ≡ of_target a p.log
  unfolding answer
  of_target-answer clock t a sequence operation value p n =
      of_target-other a (address_of t) operation _ p.log n

  -- A pass over another target's mailbox
  pub Same-process_target :
      (clock : Clock) (t u : Target) (p : Runtime blocks random codec)
      → index t ≢ index u
      → Same blocks random codec t p (process_target blocks random codec clock u p)
  unfolding process_target
  Same-process_target clock t u p n = record {
    sequence =
        get-process_target clock u (address_of t) p (omega (arith, at t))
          (omega (arith, at t, at u)) (omega (arith, at t, at u));
    operation =
        get-process_target clock u (address_of t + 1) p (omega (arith, at t))
          (omega (arith, at t, at u)) (omega (arith, at t, at u));
    value =
        get-process_target clock u (address_of t + 2) p (omega (arith, at t))
          (omega (arith, at t, at u)) (omega (arith, at t, at u));
    acked =
        get-process_target clock u (ack_of t) p (omega (arith, at t)) (omega (arith, at t, at u, n))
          (omega (arith, at t, at u, n));
    status =
        get-process_target clock u (ack_of t + 1) p (omega (arith, at t))
          (omega (arith, at t, at u, n)) (omega (arith, at t, at u, n));
    logged =
        if_holds (λ q. of_target (address_of t) q.log ≡ of_target (address_of t) p.log) _ _ p
          (of_target-answer clock u (address_of t) _ _ _ p (omega (arith, at t, at u, n))) refl;
  }

  -- What a pass over a target's own mailbox does: nothing when it is idle, one answer otherwise
  pub Idle-process_target :
      (clock : Clock) (t : Target) (p : Runtime blocks random codec)
      → Idle blocks random codec t p
      → process_target blocks random codec clock t p ≡ p
  unfolding process_target
  Idle-process_target clock t p h = ground (arith, h)

  -- A command waits in the mailbox of a target.
  pub record Waits (t : Target) (sequence operation value : ℕ) (p : Runtime blocks random codec)
      : Type 0 where
    pub sequence_is : get (address_of t) p.store ≡ sequence
    pub operation_is : get (address_of t + 1) p.store ≡ operation
    pub value_is : get (address_of t + 2) p.store ≡ value
    pub nonzero : sequence ≢ 0
    pub new : sequence ≢ get (ack_of t) p.store

  -- It was answered once, with a status.
  pub record Answered (t : Target) (sequence operation status : ℕ)
      (p q : Runtime blocks random codec) : Type 0 where
    pub sequence_is : get (address_of t) q.store ≡ sequence
    pub acked : get (ack_of t) q.store ≡ sequence
    pub status_is : get (ack_of t + 1) q.store ≡ status
    pub logged :
        of_target (address_of t) q.log
        ≡ of_target (address_of t) p.log ++ (address_of t, operation, status) ∷ []

  pub Waits-process_target :
      (clock : Clock) (t : Target) (sequence operation value : ℕ) (p : Runtime blocks random codec)
      → Waits t sequence operation value p
      → process_target blocks random codec clock t p
        ≡ answer blocks random codec clock t sequence operation value p
  unfolding process_target
  Waits-process_target clock t sequence operation value p h =
      rw (h.sequence_is, h.operation_is, h.value_is) (ground (arith, h.nonzero, h.new))

  pub answer-Answered :
      (clock : Clock) (t : Target) (sequence operation value : ℕ) (p : Runtime blocks random codec)
      → Waits t sequence operation value p
      → Answered t sequence operation
          (apply_control t operation value p.device.block).1
          p
          (answer blocks random codec clock t sequence operation value p)
  unfolding answer
  answer-Answered clock t sequence operation value p h = record {
    sequence_is =
        get-answer clock t (address_of t) sequence operation value p (omega (arith, at t))
          (omega (arith, at t)) (omega (arith, at t))
        ∙ h.sequence_is;
    acked =
        get-set_other blocks (ack_of t) (ack_of t + 1) _ _ (omega (arith, at t))
          (omega (arith, at t)) (omega arith)
        ∙ get-set_same blocks (ack_of t) sequence p.store (omega (arith, at t));
    status_is = get-set_same blocks (ack_of t + 1) _ _ (omega (arith, at t));
    logged = of_target-same (address_of t) operation _ p.log;
  }
