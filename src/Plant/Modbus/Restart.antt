-- ===== src/Plant/Modbus/Restart.antt =====
-- modbus_simulator/server.py: _open_recovery and _build_context, on the journal as the commit of an
-- effect left it.
use zilina_eirvah_edge_impl.Prelude.{
  ℕ, ◌+◌, ◌-◌, ◌%◌, ◌^◌, ◌<◌, ◌≡◌, ◌≢◌, refl, ◌∙◌, ap, Option, none, some, arith,
}
use zilina_eirvah_edge_impl.Prelude.Dict.{lookup, insert, lookup-insert, choose}
use text.Mathlib.Text.{◌==◌ as str_eq}
use zilina_eirvah_edge_impl.Recovery.Journal.{Journal, commit, boot}
use zilina_eirvah_edge_impl.Plant.{DataBlock, Random, set_all, get-set_same, get-set_other}
use zilina_eirvah_edge_impl.Plant.Modbus.{
  Device, Codec, Clock, Effect, Target, address_of, ack_of, key_of, apply_control, Runtime,
  commit_effect, answer, snapshot, restore, start, build_context, put_ack, as_list,
}
use zilina_eirvah_edge_impl.Plant.Modbus.Protocol.{at}

own_key :
    (t : Target) (x : Option (ℕ × ℕ)) (y : ℕ × ℕ)
    → choose (str_eq (key_of t) (key_of t)) (some y) x ≡ some y
own_key Target.conveyor_target x y = refl
own_key Target.valve_target x y = refl
own_key Target.reject_target x y = refl

module _ (blocks : DataBlock) (random : Random) (codec : Codec random.Generator) where
  open blocks use {get, set, Store}
  open random use {Generator}

  put_ack-other :
      (a : ℕ) (u : Target) (o : Option (ℕ × ℕ)) (s : Store)
      → a < 79
      → a ≢ ack_of u
      → a ≢ ack_of u + 1
      → get a (put_ack blocks random codec u o s) ≡ get a s
  put_ack-other a u none s h n m = refl
  put_ack-other a u (some (sequence, status)) s h n m =
      get-set_other blocks a (ack_of u + 1) status (set (ack_of u) sequence s) h
        (omega (arith, at u)) m
      ∙ get-set_other blocks a (ack_of u) sequence s h (omega (arith, at u)) n

  put_ack-same :
      (t : Target) (sequence status : ℕ) (o : Option (ℕ × ℕ)) (s : Store)
      → o ≡ some (sequence, status)
      → (get (ack_of t) (put_ack blocks random codec t o s) ≡ sequence)
        × (get (ack_of t + 1) (put_ack blocks random codec t o s) ≡ status)
  put_ack-same t sequence status none s e = absurd (cc e)
  put_ack-same t sequence status (some (x, y)) s e = (
    get-set_other blocks (ack_of t) (ack_of t + 1) y (set (ack_of t) x s) (omega (arith, at t))
          (omega (arith, at t)) (omega arith)
        ∙ get-set_same blocks (ack_of t) x s (omega (arith, at t))
        ∙ ground (arith, e),
    get-set_same blocks (ack_of t + 1) y (set (ack_of t) x s) (omega (arith, at t))
        ∙ ground (arith, e),
  )

  -- The registers of a new context hold the acknowledgements that the device remembers.
  build_context-acks :
      (t : Target) (sequence status : ℕ) (d : Device Generator)
      → lookup (key_of t) d.acks ≡ some (sequence, status)
      → (get (ack_of t) (build_context blocks random codec d) ≡ sequence)
        × (get (ack_of t + 1) (build_context blocks random codec d) ≡ status)
  unfolding build_context
  build_context-acks Target.conveyor_target sequence status d e =
      let s =
        put_ack-same Target.conveyor_target sequence status (lookup "20" d.acks)
          (set_all blocks 0 (as_list d.block) blocks.empty) e in
      (
        put_ack-other 50 Target.reject_target _ _ (omega arith) (omega arith) (omega arith)
            ∙ put_ack-other 50 Target.valve_target _ _ (omega arith) (omega arith) (omega arith)
            ∙ s.0,
        put_ack-other 51 Target.reject_target _ _ (omega arith) (omega arith) (omega arith)
            ∙ put_ack-other 51 Target.valve_target _ _ (omega arith) (omega arith) (omega arith)
            ∙ s.1,
      )
  build_context-acks Target.valve_target sequence status d e =
      let s =
        put_ack-same Target.valve_target sequence status (lookup "24" d.acks)
          (put_ack blocks random codec Target.conveyor_target (lookup "20" d.acks)
            (set_all blocks 0 (as_list d.block) blocks.empty))
          e in
      (
        put_ack-other 52 Target.reject_target _ _ (omega arith) (omega arith) (omega arith) ∙ s.0,
        put_ack-other 53 Target.reject_target _ _ (omega arith) (omega arith) (omega arith) ∙ s.1,
      )
  build_context-acks Target.reject_target sequence status d e =
      put_ack-same Target.reject_target sequence status (lookup "28" d.acks) _ e

  -- What a restart brings back
  pub record Restarted (d : Device Generator) (r : Runtime blocks random codec) : Type 0 where
    pub block_is : r.device.block ≡ (snapshot d).block
    pub acks_are : r.device.acks ≡ d.acks
    pub new_session : r.device.inspection.session ≢ d.inspection.session
    pub first_sequence : r.device.inspection.sequence ≡ 0
    pub stream_is :
        r.device.inspection
        ≡ record d.inspection { session = d.inspection.session % (2 ^ 64 - 1) + 1; sequence = 0 }

  new_session-lem : (n : ℕ) → n < 2 ^ 64 → n % (2 ^ 64 - 1) + 1 ≢ n
  new_session-lem n h = omega (arith, h)

  -- A device in its next session
  abbrev renewed : Device Generator → Device Generator
  renewed d = record d {
    inspection = record d.inspection {
      session = d.inspection.session % (2 ^ 64 - 1) + 1;
      sequence = 0;
    };
  }

  restore-saved :
      (o : Option ℕ) (d new : Device Generator)
      → o ≡ some (codec.encode (snapshot d))
      → codec.decode (codec.encode (snapshot d)) ≡ snapshot d
      → restore codec o new ≡ renewed (snapshot d)
  unfolding restore
  restore-saved none d new e r = absurd (cc e)
  restore-saved (some text) d new e r =
      let same : text ≡ codec.encode (snapshot d) = cc e in rw (same, r) refl

  -- Some journal whose saved state is that of a device
  abbrev Saves : Device Generator → Option Journal → Type 0
  Saves d o = (k : Journal) × (o ≡ some k) × (k.state ≡ some (codec.encode (snapshot d)))

  commit_effect-Saves :
      (clock : Clock) (a : ℕ) (effect : Effect) (d : Device Generator) (o : Option Journal)
      (j : Journal)
      → o ≡ some j
      → Saves d (commit_effect blocks random codec clock a effect d o)
  unfolding commit
  commit_effect-Saves clock a effect d none j e = absurd (cc e)
  commit_effect-Saves clock a effect d (some i) j e = (_, refl, refl)

  start-saved :
      (clock : Clock) (t : Target) (sequence status : ℕ) (o : Option Journal)
      (d new : Device Generator)
      → Saves d o
      → codec.decode (codec.encode (snapshot d)) ≡ snapshot d
      → d.inspection.session < 2 ^ 64
      → lookup (key_of t) d.acks ≡ some (sequence, status)
      → let r = start blocks random codec clock o new in
        Restarted d r × (get (ack_of t) r.store ≡ sequence) × (get (ack_of t + 1) r.store ≡ status)
  unfolding start boot snapshot
  start-saved clock t sequence status none d new (k, e, s) r small a = absurd (cc e)
  start-saved clock t sequence status (some i) d new (k, e, s) r small a =
      let same : i ≡ k = cc e in
      let saved = ap (λ (x : Journal). x.state) same ∙ s in
      let f = restore-saved i.state d new saved r in
      let g = build_context-acks t sequence status (renewed (snapshot d)) a in
      (
        rw f (record {
          block_is = refl;
          acks_are = refl;
          new_session = new_session-lem d.inspection.session small;
          first_sequence = refl;
          stream_is = refl;
        }),
        rw f g.0,
        rw f g.1,
      )

  -- A command is answered, and the simulator stops behind the commit of its effect and before the next
  -- commit; the state that it saved reads back as it was saved. When it starts again on its journal, the
  -- acknowledgement registers have the sequence and the status of the command; the device's words and its controls are those that the command left,
  -- with the rejected bottles in order, and its stream of inspections, the counters included, is the
  -- one that the command left, but in another session, from its first sequence on.
  pub start-answer :
      (clock later : Clock) (t : Target) (sequence operation value : ℕ) (j : Journal)
      (p : Runtime blocks random codec) (new : Device Generator)
      → p.journal ≡ some j
      → p.device.inspection.session < 2 ^ 64
      → (let d = (answer blocks random codec clock t sequence operation value p).device in
          codec.decode (codec.encode (snapshot d)) ≡ snapshot d)
      → let q = answer blocks random codec clock t sequence operation value p in
        let r = start blocks random codec later q.journal new in
        Restarted q.device r
        × (get (ack_of t) r.store ≡ sequence)
        × (get (ack_of t + 1) r.store ≡ (apply_control t operation value p.device.block).1)
  unfolding answer
  start-answer clock later t sequence operation value j p new e small r =
      let b = apply_control t operation value p.device.block in
      let d : Device Generator = record p.device {
        block = record b.0 { reject_count = b.0.reject.count };
        acks = insert (key_of t) (sequence, b.1) p.device.acks;
      } in
      start-saved later t sequence b.1 _ d new
        (commit_effect-Saves clock (address_of t) _ d p.journal j e) r small
        (lookup-insert (key_of t) (key_of t) (sequence, b.1) p.device.acks ∙ own_key t _ _)
