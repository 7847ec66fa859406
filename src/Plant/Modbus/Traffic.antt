-- ===== src/Plant/Modbus/Traffic.antt =====
-- modbus_simulator/server.py and native.py, _write_modbus: the writer's two frames, among any turns of
-- the loop and frames of other clients that leave its mailbox and its acknowledgement alone.
use zilina_eirvah_edge_impl.Prelude.{
  if_holds, ℕ, ◌+◌, ◌≤◌, ◌<◌, ◌≡◌, ◌≢◌, refl, ◌∙◌, ap, true, List, [], ◌∷◌, ◌++◌, arith, ◌==◌,
  if◌then◌else◌, length, ◌⊎◌, All,
}
use zilina_eirvah_edge_impl.Prelude.Exceptions.{Exc, ok, err}
use zilina_eirvah_edge_impl.Writer.Native.{next_sequence, check_ack, next_sequence_fresh}
use zilina_eirvah_edge_impl.Plant.{
  DataBlock, Random, check_ack-answered, set_all, get-set_all, get-set_same, get-set_other,
}
use zilina_eirvah_edge_impl.Plant.Modbus.{
  Codec, Clock, Target, address_of, ack_of, apply_control, Runtime, receive_ack, answer,
  process_target, process_controls, turn, tick,
}
use zilina_eirvah_edge_impl.Plant.Modbus.Mailbox.{
  of_target, Ten, Idle, Same, Same-refl, Same-trans, Quiet-Same, turn-Quiet, turn-Ten,
}
use zilina_eirvah_edge_impl.Plant.Modbus.Protocol.{at, Waits, Answered}
use zilina_eirvah_edge_impl.Plant.Modbus.Delivery.{
  device-receive_with, Idle-Same, Answered-Same, Idle-process_controls, Answered-Idle,
  Waits-process_controls,
}

-- A turn of the loop, or a frame of a client
pub data Move : Type 0 where
  ticks : Clock → Move
  writes : ℕ → List ℕ → Move

-- A frame that does not touch the mailbox or the acknowledgement of a target
abbrev pub Apart : Target → Move → Type 0
Apart t (Move.ticks clock) = Unit {0}
Apart t (Move.writes a ws) =
    (a + length ws ≤ 79)
    × ((a + length ws ≤ address_of t) ⊎ (address_of t + 3 ≤ a))
    × ((a + length ws ≤ ack_of t) ⊎ (ack_of t + 2 ≤ a))

module _ (blocks : DataBlock) (random : Random) (codec : Codec random.Generator) where
  open blocks use {get}

  abbrev pub step : Move → Runtime blocks random codec → Runtime blocks random codec
  step (Move.ticks clock) p = (tick blocks random codec clock p).1
  step (Move.writes a ws) p = record p { store = set_all blocks a ws p.store }

  unfoldable pub run : List Move → Runtime blocks random codec → Runtime blocks random codec
  run [] p = p
  run (m ∷ ms) p = run ms (step m p)

  Ten-process_target :
      (clock : Clock) (t : Target) (p : Runtime blocks random codec)
      → Ten p.device
      → Ten (process_target blocks random codec clock t p).device
  unfolding process_target answer
  Ten-process_target clock t p n = if_holds (λ q. Ten q.device) _ _ p n n

  Ten-process_controls :
      (clock : Clock) (p : Runtime blocks random codec)
      → Ten p.device
      → Ten (process_controls blocks random codec clock p).device
  unfolding process_controls receive_ack
  Ten-process_controls clock p n = Ten-process_target clock Target.reject_target _ (
      Ten-process_target clock Target.valve_target _ (
        Ten-process_target clock Target.conveyor_target _
          (rw (device-receive_with blocks random codec p.journal p) n)))

  Ten-step : (m : Move) (p : Runtime blocks random codec) → Ten p.device → Ten (step m p).device
  unfolding tick
  Ten-step (Move.ticks clock) p n =
      turn-Ten blocks random codec clock _ (Ten-process_controls clock p n)
  Ten-step (Move.writes a ws) p n = n

  Same-writes :
      (t : Target) (a : ℕ) (ws : List ℕ) (p : Runtime blocks random codec)
      → Apart t (Move.writes a ws)
      → Same blocks random codec t p (step (Move.writes a ws) p)
  Same-writes t a ws p (f, o, k) =
      let frame : (x : ℕ)
          → x < 79
          → (x < a) ⊎ (a + length ws ≤ x)
          → get x (set_all blocks a ws p.store) ≡ get x p.store =
        λ x h l. get-set_all blocks x a ws p.store h f l in
      record {
        sequence = frame (address_of t) (omega (arith, at t)) (ground (arith, o));
        operation = frame (address_of t + 1) (omega (arith, at t)) (ground (arith, o));
        value = frame (address_of t + 2) (omega (arith, at t)) (ground (arith, o));
        acked = frame (ack_of t) (omega (arith, at t)) (ground (arith, k));
        status = frame (ack_of t + 1) (omega (arith, at t)) (ground (arith, k));
        logged = refl;
      }

  Idle-step :
      (t : Target) (m : Move) (p : Runtime blocks random codec)
      → Ten p.device
      → Apart t m
      → Idle blocks random codec t p
      → Same blocks random codec t p (step m p)
  unfolding tick
  Idle-step t (Move.ticks clock) p n a i =
      let q = process_controls blocks random codec clock p in
      Same-trans blocks random codec t p q _ (Idle-process_controls blocks random codec clock t p i)
        (Quiet-Same blocks random codec t q _
          (turn-Quiet blocks random codec clock q (Ten-process_controls clock p n)))
  Idle-step t (Move.writes a ws) p n h i = Same-writes t a ws p h

  -- Moves that leave an idle mailbox to itself change nothing that its client sees.
  Idle-run :
      (t : Target) (ms : List Move) (p : Runtime blocks random codec)
      → Ten p.device
      → All (Apart t) ms
      → Idle blocks random codec t p
      → Same blocks random codec t p (run ms p) × Ten (run ms p).device
  unfolding run
  Idle-run t [] p n a i = (Same-refl blocks random codec t p, n)
  Idle-run t (m ∷ ms) p n (a, rest) i =
      let h = Idle-step t m p n a i in
      let (k, n') =
        Idle-run t ms (step m p) (Ten-step m p n) rest (Idle-Same blocks random codec t p _ h i) in
      (Same-trans blocks random codec t p _ _ h k, n')

  -- Between the payload and the sequence
  record Loaded (t : Target) (operation value : ℕ) (p q : Runtime blocks random codec)
      : Type 0 where
    pub sequence_is : get (address_of t) q.store ≡ get (address_of t) p.store
    pub operation_is : get (address_of t + 1) q.store ≡ operation
    pub value_is : get (address_of t + 2) q.store ≡ value
    pub acked : get (ack_of t) q.store ≡ get (ack_of t) p.store
    pub logged : of_target (address_of t) q.log ≡ of_target (address_of t) p.log

  payload-Loaded :
      (t : Target) (operation value : ℕ) (p : Runtime blocks random codec)
      → Loaded t operation value p
          (step (Move.writes (address_of t + 1) (operation ∷ value ∷ [])) p)
  payload-Loaded t operation value p =
      let last = address_of t + 1 + 1 in
      let s = blocks.set (address_of t + 1) operation p.store in
      let other : (x : ℕ)
          → x < 79
          → x ≢ address_of t + 1
          → x ≢ last
          → get x (blocks.set last value s) ≡ get x p.store =
        λ x h n m.
          get-set_other blocks x last value s h (omega (arith, at t)) m
          ∙ get-set_other blocks x (address_of t + 1) operation p.store h (omega (arith, at t)) n in
      record {
        sequence_is = other (address_of t) (omega (arith, at t)) (omega arith) (omega arith);
        operation_is =
            get-set_other blocks (address_of t + 1) last value s (omega (arith, at t))
              (omega (arith, at t)) (omega arith)
            ∙ get-set_same blocks (address_of t + 1) operation p.store (omega (arith, at t));
        value_is =
            ap (λ x. get x (blocks.set last value s)) (omega arith)
            ∙ get-set_same blocks last value s (omega (arith, at t));
        acked = other (ack_of t) (omega (arith, at t)) (omega (arith, at t)) (omega (arith, at t));
        logged = refl;
      }

  Loaded-Same :
      (t : Target) (operation value : ℕ) (p p' q q' : Runtime blocks random codec)
      → Same blocks random codec t p p'
      → Same blocks random codec t q q'
      → Loaded t operation value p' q
      → Loaded t operation value p q'
  Loaded-Same t operation value p p' q q' h k l = record {
    sequence_is = k.sequence ∙ l.sequence_is ∙ h.sequence;
    operation_is = k.operation ∙ l.operation_is;
    value_is = k.value ∙ l.value_is;
    acked = k.acked ∙ l.acked ∙ h.acked;
    logged = k.logged ∙ l.logged ∙ h.logged;
  }

  Loaded-Idle :
      (t : Target) (operation value : ℕ) (p q : Runtime blocks random codec)
      → Loaded t operation value p q
      → Idle blocks random codec t p
      → Idle blocks random codec t q
  Loaded-Idle t operation value p q l i = ground (arith, l.sequence_is, l.acked, i)

  -- The sequence is the last thing that is put in.
  sequence-Waits :
      (t : Target) (sequence operation value : ℕ) (p q : Runtime blocks random codec)
      → Loaded t operation value p q
      → sequence ≢ 0
      → sequence ≢ get (ack_of t) p.store
      → Waits blocks random codec t sequence operation value
          (step (Move.writes (address_of t) (sequence ∷ [])) q)
  sequence-Waits t sequence operation value p q l nonzero fresh = record {
    sequence_is = get-set_same blocks (address_of t) sequence q.store (omega (arith, at t));
    operation_is =
        get-set_other blocks (address_of t + 1) (address_of t) sequence q.store
          (omega (arith, at t)) (omega (arith, at t)) (omega arith)
        ∙ l.operation_is;
    value_is =
        get-set_other blocks (address_of t + 2) (address_of t) sequence q.store
          (omega (arith, at t)) (omega (arith, at t)) (omega arith)
        ∙ l.value_is;
    nonzero = nonzero;
    new = λ e. fresh (
        e
        ∙ get-set_other blocks (ack_of t) (address_of t) sequence q.store (omega (arith, at t))
            (omega (arith, at t)) (omega (arith, at t))
        ∙ l.acked);
  }

  -- The runtime after the writer's two frames, with other moves before and between them
  abbrev pub loaded :
      Target
      → ℕ
      → ℕ
      → ℕ
      → List Move
      → List Move
      → Runtime blocks random codec
      → Runtime blocks random codec
  loaded t sequence operation value before between p =
      step (Move.writes (address_of t) (sequence ∷ [])) (
        run between (step (Move.writes (address_of t + 1) (operation ∷ value ∷ [])) (run before p)))

  -- From an idle mailbox: a writer reads the acknowledgement, draws a sequence, puts the payload and
  -- then the sequence, and the loop makes a turn. Whatever turns of the loop come before, between and
  -- after, and whatever frames of other clients that touch neither the mailbox nor the acknowledgement
  -- registers of this target, the command is answered exactly once, with the status that its control
  -- gives it when the turn begins, and the writer's check of the acknowledgement returns for status 1
  -- and raises for any other.
  pub delivered_once :
      (clock : Clock) (t : Target) (draw operation value : ℕ) (before between after : List Move)
      (p : Runtime blocks random codec)
      → draw < 65535
      → Ten p.device
      → Idle blocks random codec t p
      → All (Apart t) before
      → All (Apart t) between
      → All (Apart t) after
      → let sequence = next_sequence draw (get (ack_of t) p.store) in
        let r = loaded t sequence operation value before between p in
        let q = run (Move.ticks clock ∷ after) r in
        let status = (apply_control t operation value r.device.block).1 in
        Answered blocks random codec t sequence operation status p q
        × (check_ack sequence (get (ack_of t) q.store, get (ack_of t + 1) q.store)
            ≡ (if status == 1 then ok true else err (Exc.value_error "device rejected command")))
  unfolding run tick
  delivered_once clock t draw operation value before between after p small n i hb hm ha =
      let previous = get (ack_of t) p.store in
      let sequence = next_sequence draw previous in
      let fresh = next_sequence_fresh draw previous small in
      let p1 = run before p in
      let (s1, n1) = Idle-run t before p n hb i in
      let i1 = Idle-Same blocks random codec t p p1 s1 i in
      let p2 = step (Move.writes (address_of t + 1) (operation ∷ value ∷ [])) p1 in
      let l2 = payload-Loaded t operation value p1 in
      let (s3, n3) = Idle-run t between p2 n1 hm (Loaded-Idle t operation value p1 p2 l2 i1) in
      let p3 = run between p2 in
      let l3 = Loaded-Same t operation value p p1 p2 p3 s1 s3 l2 in
      let r = step (Move.writes (address_of t) (sequence ∷ [])) p3 in
      let w = sequence-Waits t sequence operation value p p3 l3 (omega (arith, fresh.1)) fresh.0 in
      let status = (apply_control t operation value r.device.block).1 in
      let c = process_controls blocks random codec clock r in
      let a = Waits-process_controls blocks random codec clock t sequence operation value r w in
      let n4 = Ten-process_controls clock r n3 in
      let d = (turn blocks random codec clock c).1 in
      let s5 = Quiet-Same blocks random codec t c d (turn-Quiet blocks random codec clock c n4) in
      let i5 =
        Idle-Same blocks random codec t c d s5
          (Answered-Idle blocks random codec t sequence operation status r c a) in
      let (s6, n6) = Idle-run t after d (turn-Ten blocks random codec clock c n4) ha i5 in
      let q = run after d in
      let b =
        Answered-Same blocks random codec t sequence operation status r r c q
          (Same-refl blocks random codec t r) (Same-trans blocks random codec t c d q s5 s6) a in
      (
        record {
          sequence_is = b.sequence_is;
          acked = b.acked;
          status_is = b.status_is;
          logged = b.logged ∙ ap (λ l. l ++ (address_of t, operation, status) ∷ []) l3.logged;
        },
        check_ack-answered sequence status _ _ b.acked b.status_is,
      )
