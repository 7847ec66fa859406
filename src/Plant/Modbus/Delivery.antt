-- ===== src/Plant/Modbus/Delivery.antt =====
-- modbus_simulator/server.py and native.py: a command that a writer puts in a mailbox is applied once
-- and acknowledged, whatever other clients and turns of the loop come in between.
use zilina_eirvah_edge_impl.Prelude.{
  if_holds, ℕ, ◌+◌, ◌≡◌, ◌≢◌, refl, sym, ◌∙◌, ap, [], ◌∷◌, ◌++◌, Option, none, some, arith, ◌⊎◌,
  inl, inr,
}
use zilina_eirvah_edge_impl.Recovery.Journal.{Journal}
use zilina_eirvah_edge_impl.Plant.{DataBlock, Random}
use zilina_eirvah_edge_impl.Plant.Modbus.{
  RegisterBlock, Codec, Clock, Target, address_of, ack_of, apply_control, Runtime, receive_with,
  receive_ack, answer, process_target, process_controls,
}
use zilina_eirvah_edge_impl.Plant.Modbus.Mailbox.{
  of_target, SameControl, Idle, Same, Same-refl, Same-trans,
}
use zilina_eirvah_edge_impl.Plant.Modbus.Protocol.{
  index, Waits, Answered, Same-process_target, Idle-process_target, Waits-process_target,
  answer-Answered,
}

-- The status of a command depends on its own control only.
status-SameControl :
    (t : Target) (operation value : ℕ) (b c : RegisterBlock)
    → SameControl t b c
    → (apply_control t operation value b).1 ≡ (apply_control t operation value c).1
unfolding apply_control
status-SameControl Target.conveyor_target operation value b c h = rw h refl
status-SameControl Target.valve_target operation value b c h = rw h refl
status-SameControl Target.reject_target operation value b c h = rw h refl

module _ (blocks : DataBlock) (random : Random) (codec : Codec random.Generator) where
  open blocks use {get, get-set}
  open random use {Generator}

  SameControl-answer :
      (clock : Clock) (t u : Target) (sequence operation value : ℕ)
      (p : Runtime blocks random codec)
      → index t ≢ index u
      → SameControl t
          (answer blocks random codec clock u sequence operation value p).device.block
          p.device.block
  unfolding answer apply_control
  SameControl-answer clock Target.conveyor_target Target.conveyor_target s o v p n = absurd (n refl)
  SameControl-answer clock Target.conveyor_target Target.valve_target s o v p n = refl
  SameControl-answer clock Target.conveyor_target Target.reject_target s o v p n = refl
  SameControl-answer clock Target.valve_target Target.conveyor_target s o v p n = refl
  SameControl-answer clock Target.valve_target Target.valve_target s o v p n = absurd (n refl)
  SameControl-answer clock Target.valve_target Target.reject_target s o v p n = refl
  SameControl-answer clock Target.reject_target Target.conveyor_target s o v p n = refl
  SameControl-answer clock Target.reject_target Target.valve_target s o v p n = refl
  SameControl-answer clock Target.reject_target Target.reject_target s o v p n = absurd (n refl)

  SameControl-refl : (t : Target) (b : RegisterBlock) → SameControl t b b
  SameControl-refl Target.conveyor_target b = refl
  SameControl-refl Target.valve_target b = refl
  SameControl-refl Target.reject_target b = refl

  SameControl-process_target :
      (clock : Clock) (t u : Target) (p : Runtime blocks random codec)
      → index t ≢ index u
      → SameControl t (process_target blocks random codec clock u p).device.block p.device.block
  unfolding process_target
  SameControl-process_target clock t u p n =
      if_holds (λ q. SameControl t q.device.block p.device.block) _ _ p
        (SameControl-answer clock t u _ _ _ p n) (SameControl-refl t p.device.block)

  pub device-receive_with :
      (o : Option Journal) (p : Runtime blocks random codec)
      → (receive_with blocks random codec o p).device ≡ p.device
  device-receive_with none p = refl
  device-receive_with (some j) p = if_holds (λ q. q.device ≡ p.device) _ _ p refl refl

  registers-receive_with :
      (o : Option Journal) (p : Runtime blocks random codec)
      → ((receive_with blocks random codec o p).store ≡ p.store)
        × ((receive_with blocks random codec o p).log ≡ p.log)
  registers-receive_with none p = (refl, refl)
  registers-receive_with (some j) p = (
    if_holds (λ q. q.store ≡ p.store) _ _ p refl refl,
    if_holds (λ q. q.log ≡ p.log) _ _ p refl refl,
  )

  Same-receive_with :
      (o : Option Journal) (t : Target) (p : Runtime blocks random codec)
      → Same blocks random codec t p (receive_with blocks random codec o p)
  Same-receive_with o t p =
      let (s, l) = registers-receive_with o p in
      record {
        sequence = ap (get (address_of t)) s;
        operation = ap (get (address_of t + 1)) s;
        value = ap (get (address_of t + 2)) s;
        acked = ap (get (ack_of t)) s;
        status = ap (get (ack_of t + 1)) s;
        logged = ap (of_target (address_of t)) l;
      }

  pub Idle-Same :
      (t : Target) (p q : Runtime blocks random codec)
      → Same blocks random codec t p q
      → Idle blocks random codec t p
      → Idle blocks random codec t q
  Idle-Same t p q h i = ground (arith, h.sequence, h.acked, i)

  pub Waits-Same :
      (t : Target) (sequence operation value : ℕ) (p q : Runtime blocks random codec)
      → Same blocks random codec t p q
      → Waits blocks random codec t sequence operation value p
      → Waits blocks random codec t sequence operation value q
  Waits-Same t sequence operation value p q h w = record {
    sequence_is = h.sequence ∙ w.sequence_is;
    operation_is = h.operation ∙ w.operation_is;
    value_is = h.value ∙ w.value_is;
    nonzero = w.nonzero;
    new = λ e. w.new (e ∙ h.acked);
  }

  -- What is answered stays so while the target's registers and log stay the same, before and after.
  pub Answered-Same :
      (t : Target) (sequence operation status : ℕ) (p p' q q' : Runtime blocks random codec)
      → Same blocks random codec t p p'
      → Same blocks random codec t q q'
      → Answered blocks random codec t sequence operation status p' q
      → Answered blocks random codec t sequence operation status p q'
  Answered-Same t sequence operation status p p' q q' h k a = record {
    sequence_is = k.sequence ∙ a.sequence_is;
    acked = k.acked ∙ a.acked;
    status_is = k.status ∙ a.status_is;
    logged = k.logged ∙ a.logged ∙ ap (λ l. l ++ (address_of t, operation, status) ∷ []) h.logged;
  }

  same_or_other : (t u : Target) → (t ≡ u) ⊎ (index t ≢ index u)
  same_or_other Target.conveyor_target Target.conveyor_target = inl refl
  same_or_other Target.conveyor_target Target.valve_target = inr (omega arith)
  same_or_other Target.conveyor_target Target.reject_target = inr (omega arith)
  same_or_other Target.valve_target Target.conveyor_target = inr (omega arith)
  same_or_other Target.valve_target Target.valve_target = inl refl
  same_or_other Target.valve_target Target.reject_target = inr (omega arith)
  same_or_other Target.reject_target Target.conveyor_target = inr (omega arith)
  same_or_other Target.reject_target Target.valve_target = inr (omega arith)
  same_or_other Target.reject_target Target.reject_target = inl refl

  process_target-Idle :
      (clock : Clock) (t u : Target) (p : Runtime blocks random codec)
      → Idle blocks random codec t p
      → Same blocks random codec t p (process_target blocks random codec clock u p)
  process_target-Idle clock t u p i = elim (same_or_other t u) [
    | inl e ↦
        rw (sym e, Idle-process_target blocks random codec clock t p i)
          (Same-refl blocks random codec t p)
    | inr n ↦ Same-process_target blocks random codec clock t u p n
  ]

  -- A pass leaves an idle mailbox and its control alone.
  pub Idle-process_controls :
      (clock : Clock) (t : Target) (p : Runtime blocks random codec)
      → Idle blocks random codec t p
      → Same blocks random codec t p (process_controls blocks random codec clock p)
  unfolding process_controls receive_ack
  Idle-process_controls clock t p i =
      let p0 = receive_with blocks random codec p.journal p in
      let h0 = Same-receive_with p.journal t p in
      let p1 = process_target blocks random codec clock Target.conveyor_target p0 in
      let h1 =
        Same-trans blocks random codec t p p0 p1 h0
          (process_target-Idle clock t Target.conveyor_target p0 (Idle-Same t p p0 h0 i)) in
      let p2 = process_target blocks random codec clock Target.valve_target p1 in
      let h2 =
        Same-trans blocks random codec t p p1 p2 h1
          (process_target-Idle clock t Target.valve_target p1 (Idle-Same t p p1 h1 i)) in
      Same-trans blocks random codec t p p2 _ h2
        (process_target-Idle clock t Target.reject_target p2 (Idle-Same t p p2 h2 i))

  -- The first pass over its own mailbox, from a runtime that agrees with `p`
  answer_from :
      (clock : Clock) (t : Target) (sequence operation value : ℕ)
      (p q : Runtime blocks random codec)
      → Same blocks random codec t p q
      → SameControl t q.device.block p.device.block
      → Waits blocks random codec t sequence operation value p
      → Answered blocks random codec t sequence operation
          (apply_control t operation value p.device.block).1
          p
          (process_target blocks random codec clock t q)
  answer_from clock t sequence operation value p q h c w =
      let x = Waits-Same t sequence operation value p q h w in
      let a = answer-Answered blocks random codec clock t sequence operation value q x in
      let s = status-SameControl t operation value q.device.block p.device.block c in
      rw (Waits-process_target blocks random codec clock t sequence operation value q x, sym s)
        (Answered-Same t sequence operation _ p q _ _ h (Same-refl blocks random codec t _) a)

  -- A mailbox that was answered is idle again.
  pub Answered-Idle :
      (t : Target) (sequence operation status : ℕ) (p q : Runtime blocks random codec)
      → Answered blocks random codec t sequence operation status p q
      → Idle blocks random codec t q
  Answered-Idle t sequence operation status p q a = inr (a.sequence_is ∙ sym a.acked)

  -- The next mailbox, after the answer
  answer_step :
      (clock : Clock) (t u : Target) (sequence operation status : ℕ)
      (p q : Runtime blocks random codec)
      → Answered blocks random codec t sequence operation status p q
      → Answered blocks random codec t sequence operation status p
          (process_target blocks random codec clock u q)
  answer_step clock t u sequence operation status p q a =
      Answered-Same t sequence operation status p p q _ (Same-refl blocks random codec t p)
        (process_target-Idle clock t u q (Answered-Idle t sequence operation status p q a)) a

  SameControl-receive :
      (t : Target) (p : Runtime blocks random codec)
      → SameControl t (receive_with blocks random codec p.journal p).device.block p.device.block
  SameControl-receive t p = rw (device-receive_with p.journal p) (SameControl-refl t p.device.block)

  -- A pass answers the command that waits in a mailbox, once, with the status of its control.
  pub Waits-process_controls :
      (clock : Clock) (t : Target) (sequence operation value : ℕ) (p : Runtime blocks random codec)
      → Waits blocks random codec t sequence operation value p
      → Answered blocks random codec t sequence operation
          (apply_control t operation value p.device.block).1
          p
          (process_controls blocks random codec clock p)
  unfolding process_controls receive_ack
  Waits-process_controls clock Target.conveyor_target s o v p w =
      let t = Target.conveyor_target in
      let p0 = receive_with blocks random codec p.journal p in
      let h0 = Same-receive_with p.journal t p in
      let a = answer_from clock t s o v p p0 h0 (SameControl-receive t p) w in
      answer_step clock t Target.reject_target s o _ p _
        (answer_step clock t Target.valve_target s o _ p _ a)
  Waits-process_controls clock Target.valve_target s o v p w =
      let t = Target.valve_target in
      let p0 = receive_with blocks random codec p.journal p in
      let h0 = Same-receive_with p.journal t p in
      let p1 = process_target blocks random codec clock Target.conveyor_target p0 in
      let h1 =
        Same-process_target blocks random codec clock t Target.conveyor_target p0 (omega arith) in
      let c1 = SameControl-process_target clock t Target.conveyor_target p0 (omega arith) in
      let a =
        answer_from clock t s o v p p1 (Same-trans blocks random codec t p p0 p1 h0 h1)
          (c1 ∙ SameControl-receive t p) w in
      answer_step clock t Target.reject_target s o _ p _ a
  Waits-process_controls clock Target.reject_target s o v p w =
      let t = Target.reject_target in
      let p0 = receive_with blocks random codec p.journal p in
      let h0 = Same-receive_with p.journal t p in
      let p1 = process_target blocks random codec clock Target.conveyor_target p0 in
      let h1 =
        Same-process_target blocks random codec clock t Target.conveyor_target p0 (omega arith) in
      let c1 = SameControl-process_target clock t Target.conveyor_target p0 (omega arith) in
      let p2 = process_target blocks random codec clock Target.valve_target p1 in
      let h2 =
        Same-process_target blocks random codec clock t Target.valve_target p1 (omega arith) in
      let c2 = SameControl-process_target clock t Target.valve_target p1 (omega arith) in
      answer_from clock t s o v p p2
        (Same-trans blocks random codec t p p1 p2 (Same-trans blocks random codec t p p0 p1 h0 h1)
          h2)
        (c2 ∙ c1 ∙ SameControl-receive t p) w
