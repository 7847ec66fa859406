-- ===== src/Plant/Modbus/Mailbox.antt =====
-- modbus_simulator/server.py: a command mailbox through a pass of _process_controls, a turn of the
-- loop, and any turns and writes of other clients.
use zilina_eirvah_edge_impl.Prelude.{
  ℕ, ◌+◌, ◌≤◌, ◌<◌, ◌≡◌, ◌≢◌, refl, ◌∙◌, ap, Bool, true, false, List, [], ◌∷◌, ◌++◌, Option, none,
  some, arith, ◌==◌, if◌then◌else◌, length, ◌⊎◌, inl, inr,
}
use zilina_eirvah_edge_impl.Prelude.Exceptions.{Result, ok, err}
use zilina_eirvah_edge_impl.Controls.Inspection
use zilina_eirvah_edge_impl.Controls.Inspection.{InspectionStream}
use zilina_eirvah_edge_impl.Contracts.Inspection.{BottleInspection, encode_inspection}
use zilina_eirvah_edge_impl.Recovery.Journal.{Journal, head}
use zilina_eirvah_edge_impl.Plant.{DataBlock, Random, set_all, get-set_all}
use zilina_eirvah_edge_impl.Plant.Modbus.{
  RegisterBlock, Device, Codec, Clock, Target, address_of, ack_of, advance_device, Runtime, publish,
  publish_event, read_head, committed, commit_turn, record_turn, advanced, is_full, turn, as_list,
  to_int, tick_block,
}

-- The lines of the log that are about a target
abbrev pub of_target : ℕ → List (ℕ × ℕ × ℕ) → List (ℕ × ℕ × ℕ)
of_target a [] = []
of_target a ((b, operation, status) ∷ log) =
    let rest = of_target a log in if a == b then (b, operation, status) ∷ rest else rest

-- A line about another target, and one about this target
pub of_target-other :
    (a b operation status : ℕ) (log : List (ℕ × ℕ × ℕ))
    → a ≢ b
    → of_target a (log ++ (b, operation, status) ∷ []) ≡ of_target a log
of_target-other a b operation status [] n = ground arith
of_target-other a b operation status ((c, o, x) ∷ log) n =
    ground (arith, of_target-other a b operation status log n)

pub of_target-same :
    (a operation status : ℕ) (log : List (ℕ × ℕ × ℕ))
    → of_target a (log ++ (a, operation, status) ∷ [])
      ≡ of_target a log ++ (a, operation, status) ∷ []
of_target-same a operation status [] = ground arith
of_target-same a operation status ((c, o, x) ∷ log) =
    ground (arith, of_target-same a operation status log)

-- The control of a target is the same in two blocks.
abbrev pub SameControl : Target → RegisterBlock → RegisterBlock → Type 0
SameControl Target.conveyor_target b c = b.conveyor ≡ c.conveyor
SameControl Target.valve_target b c = b.valve ≡ c.valve
SameControl Target.reject_target b c = b.reject ≡ c.reject

-- The published inspection has its ten words.
abbrev pub Ten : {G : Type 0} → Device G → Type 0
Ten d = length d.inspection.snapshot ≡ 10

module _ (blocks : DataBlock) (random : Random) (codec : Codec random.Generator) where
  open blocks use {get, get-set}
  open random use {Generator}

  -- Nothing is waiting in the mailbox of a target.
  abbrev pub Idle : Target → Runtime blocks random codec → Type 0
  Idle t p =
      (get (address_of t) p.store ≡ 0) ⊎ (get (address_of t) p.store ≡ get (ack_of t) p.store)

  -- What a target's client and log see is the same.
  pub record Same (t : Target) (p q : Runtime blocks random codec) : Type 0 where
    pub sequence : get (address_of t) q.store ≡ get (address_of t) p.store
    pub operation : get (address_of t + 1) q.store ≡ get (address_of t + 1) p.store
    pub value : get (address_of t + 2) q.store ≡ get (address_of t + 2) p.store
    pub acked : get (ack_of t) q.store ≡ get (ack_of t) p.store
    pub status : get (ack_of t + 1) q.store ≡ get (ack_of t + 1) p.store
    pub logged : of_target (address_of t) q.log ≡ of_target (address_of t) p.log

  pub Same-refl : (t : Target) (p : Runtime blocks random codec) → Same t p p
  Same-refl t p = record {
    sequence = refl;
    operation = refl;
    value = refl;
    acked = refl;
    status = refl;
    logged = refl;
  }

  pub Same-trans :
      (t : Target) (p q r : Runtime blocks random codec) → Same t p q → Same t q r → Same t p r
  Same-trans t p q r h k = record {
    sequence = k.sequence ∙ h.sequence;
    operation = k.operation ∙ h.operation;
    value = k.value ∙ h.value;
    acked = k.acked ∙ h.acked;
    status = k.status ∙ h.status;
    logged = k.logged ∙ h.logged;
  }

  -- Same registers from 12 to 31 and 42 to 59, same log
  pub record Quiet (p q : Runtime blocks random codec) : Type 0 where
    pub low : (a : ℕ) → 12 ≤ a → a < 32 → get a q.store ≡ get a p.store
    pub high : (a : ℕ) → 42 ≤ a → a < 60 → get a q.store ≡ get a p.store
    pub log : q.log ≡ p.log
    pub ten : Ten q.device

  pub Quiet-Same : (t : Target) (p q : Runtime blocks random codec) → Quiet p q → Same t p q
  Quiet-Same Target.conveyor_target p q h = record {
    sequence = h.low 20 (omega arith) (omega arith);
    operation = h.low 21 (omega arith) (omega arith);
    value = h.low 22 (omega arith) (omega arith);
    acked = h.high 50 (omega arith) (omega arith);
    status = h.high 51 (omega arith) (omega arith);
    logged = ap (of_target 20) h.log;
  }
  Quiet-Same Target.valve_target p q h = record {
    sequence = h.low 24 (omega arith) (omega arith);
    operation = h.low 25 (omega arith) (omega arith);
    value = h.low 26 (omega arith) (omega arith);
    acked = h.high 52 (omega arith) (omega arith);
    status = h.high 53 (omega arith) (omega arith);
    logged = ap (of_target 24) h.log;
  }
  Quiet-Same Target.reject_target p q h = record {
    sequence = h.low 28 (omega arith) (omega arith);
    operation = h.low 29 (omega arith) (omega arith);
    value = h.low 30 (omega arith) (omega arith);
    acked = h.high 54 (omega arith) (omega arith);
    status = h.high 55 (omega arith) (omega arith);
    logged = ap (of_target 28) h.log;
  }

  -- A block of words outside of the mailboxes
  set_all-Quiet :
      (b : ℕ) (ws : List ℕ) (p q : Runtime blocks random codec)
      → (b + length ws ≤ 12) ⊎ ((32 ≤ b) × (b + length ws ≤ 42)) ⊎ ((60 ≤ b) × (b + length ws ≤ 79))
      → Quiet p q
      → Quiet p (record q { store = set_all blocks b ws q.store })
  set_all-Quiet b ws p q o h = record {
    low = λ a k l.
        get-set_all blocks a b ws q.store (omega arith) (omega arith) (ground arith) ∙ h.low a k l;
    high = λ a k l.
        get-set_all blocks a b ws q.store (omega arith) (omega arith) (ground arith) ∙ h.high a k l;
    log = h.log;
    ten = h.ten;
  }

  publish-Quiet :
      (p q : Runtime blocks random codec) → Quiet p q → Quiet p (publish blocks random codec q)
  unfolding publish as_list
  publish-Quiet p q h =
      let b = q.device.block in
      let controls : List ℕ =
        to_int b.valve.opened
        ∷ to_int b.conveyor.running
        ∷ b.conveyor.setpoint
        ∷ b.reject.last_bottle
        ∷ [] in
      let h1 = set_all-Quiet 0 (as_list b) p q (inl (omega arith)) h in
      let h2 = set_all-Quiet 8 controls p _ (inl (omega arith)) h1 in
      set_all-Quiet 32 q.device.inspection.snapshot p _
        (inr (inl (omega arith, omega (arith, h.ten)))) h2

  publish_event-Quiet :
      (r : Result (Option BottleInspection)) (p q : Runtime blocks random codec)
      → Quiet p q
      → Quiet p (publish_event blocks random codec r q).1
  unfolding encode_inspection
  publish_event-Quiet (err e) p q h = h
  publish_event-Quiet (ok none) p q h =
      set_all-Quiet 60 (encode_inspection none) p q (inr (inr (omega arith, omega arith))) h
  publish_event-Quiet (ok (some e)) p q h =
      set_all-Quiet 60 (encode_inspection (some e)) p q (inr (inr (omega arith, omega arith))) h

  committed-Quiet :
      (c : Result (Unit {0}) × Journal) (p q : Runtime blocks random codec)
      → Quiet p q
      → Quiet p (committed blocks random codec c q).1
  committed-Quiet (err e, j) p q h = record { low = h.low; high = h.high; log = h.log; ten = h.ten }
  committed-Quiet (ok _, j) p q h =
      publish_event-Quiet (read_head blocks random codec (head j)) p
        (publish blocks random codec (record q { journal = some j }))
        (publish-Quiet p (record q { journal = some j })
          (record { low = h.low; high = h.high; log = h.log; ten = h.ten }))

  commit_turn-Quiet :
      (clock : Clock) (j : Journal) (r : Result (Option BottleInspection))
      (p q : Runtime blocks random codec)
      → Quiet p q
      → Quiet p (commit_turn blocks random codec clock j r q).1
  commit_turn-Quiet clock j (err e) p q h = h
  commit_turn-Quiet clock j (ok event) p q h = committed-Quiet _ p q h

  record_turn-Quiet :
      (clock : Clock) (previous : ℕ) (o : Option Journal) (p q : Runtime blocks random codec)
      → Quiet p q
      → Quiet p (record_turn blocks random codec clock previous o q).1
  record_turn-Quiet clock previous none p q h = publish-Quiet p q h
  record_turn-Quiet clock previous (some j) p q h = commit_turn-Quiet clock j _ p q h

  advanced-Quiet :
      (clock : Clock) (p : Runtime blocks random codec) (r : Result (Unit {0}) × Device Generator)
      → Ten r.1
      → Quiet p (advanced blocks random codec clock p r).1
  advanced-Quiet clock p (err e, d) n = record {
    low = λ a h k. refl;
    high = λ a h k. refl;
    log = refl;
    ten = n;
  }
  advanced-Quiet clock p (ok _, d) n =
      record_turn-Quiet clock p.device.inspection.inspected p.journal p (record p { device = d })
        (record { low = λ a h k. refl; high = λ a h k. refl; log = refl; ten = n })

  observe-Ten :
      (bottle milliseconds : ℕ) (s : InspectionStream)
      → length s.snapshot ≡ 10
      → length (Inspection.observe bottle milliseconds s).0.snapshot ≡ 10
  unfolding Inspection.observe
  observe-Ten bottle milliseconds s h = ground (arith, h)

  advance_device-Ten :
      (clock : Clock) (full : Bool) (d : Device Generator)
      → Ten d
      → Ten (advance_device random clock full d).1
  unfolding advance_device
  advance_device-Ten clock true d h = h
  advance_device-Ten clock false d h =
      let b = (tick_block random d.block d.generator).0 in
      ground (arith, h, observe-Ten b.bottle_count clock.milliseconds d.inspection h)

  -- The rest of a turn, after the commands, leaves every mailbox alone.
  pub turn-Quiet :
      (clock : Clock) (p : Runtime blocks random codec)
      → Ten p.device
      → Quiet p (turn blocks random codec clock p).1
  unfolding turn
  turn-Quiet clock p n =
      advanced-Quiet clock p
        (advance_device random clock (is_full blocks random codec p.journal) p.device)
        (advance_device-Ten clock (is_full blocks random codec p.journal) p.device n)

  pub turn-Ten :
      (clock : Clock) (p : Runtime blocks random codec)
      → Ten p.device
      → Ten (turn blocks random codec clock p).1.device
  turn-Ten clock p n = (turn-Quiet clock p n).ten
