-- ===== src/Recovery/Positions.antt =====
-- recovery.py, ProducerPositions: the positions that producers give to what they send. The database is
-- shared; an object keeps the epoch that it began. Its tables are functions of their keys.
use zilina_eirvah_edge_impl.Prelude.{
  ℕ, ◌+◌, ◌≤◌, ◌<◌, ◌≡◌, ◌⊎◌, inl, inr, refl, ◌∙◌, Bool, false, not, ◌&&◌, ◌||◌, Option, none, some,
  List, [], ◌∷◌, ◌==◌, eq_option, if◌then◌else◌, arith, Bool-cases, Option-cases,
}
use zilina_eirvah_edge_impl.Prelude.Exceptions.{Exc, Result, ok, err}

-- The tables producer_epoch and producer_sequence
pub record Database : Type 0 where
  pub epochs : ℕ → Option ℕ
  pub sequences : ℕ → ℕ → Option ℕ

pub record Position : Type 0 where
  pub producer : ℕ
  pub node : ℕ
  pub epoch : ℕ
  pub sequence : ℕ

-- int(row[0]) + 1 if row else 1
abbrev pub following : Option ℕ → ℕ
following none = 1
following (some n) = n + 1

-- ProducerPositions.begin_epoch: the new epoch, which the object keeps, and the database.
unfoldable pub begin_epoch : ℕ → Database → ℕ × Database
begin_epoch producer db =
    let epoch = following (db.epochs producer) in
    (
      epoch,
      record {
        epochs = λ p. if p == producer then some epoch else db.epochs p;
        sequences = λ p node. if p == producer then none else db.sequences p node;
      },
    )

-- expected_epoch is not None and expected_epoch != self.epoch
abbrev pub unexpected : Option ℕ → ℕ → Bool
unexpected none epoch = false
unexpected (some e) epoch = not (e == epoch)

-- ProducerPositions.next, of an object that keeps `epoch`
unfoldable pub next : ℕ → ℕ → ℕ → Option ℕ → Database → Result Position × Database
next producer epoch node expected db =
    if not (eq_option (db.epochs producer) epoch) || unexpected expected epoch
    then (err (Exc.runtime_error "producer generation fenced"), db)
    else (let sequence = following (db.sequences producer node) in
        (
          ok (record { producer = producer; node = node; epoch = epoch; sequence = sequence }),
          record db {
            sequences =
                λ p n. if p == producer && n == node then some sequence else db.sequences p n;
          },
        ))

-- A call by any object on the database, with the epoch that the object keeps.
pub data Call : Type 0 where
  begin_call : (producer : ℕ) → Call
  next_call : (producer epoch node : ℕ) → Option ℕ → Call

unfoldable pub step : Call → Database → Database
step (Call.begin_call producer) db = (begin_epoch producer db).1
step (Call.next_call producer epoch node expected) db = (next producer epoch node expected db).1

-- The call gives out this position.
unfoldable pub Gives : Call → Position → Database → Type 0
Gives (Call.begin_call producer) q db = ⊥
Gives (Call.next_call producer epoch node expected) q db =
    (next producer epoch node expected db).0 ≡ ok q

-- By epoch, and by sequence within an epoch.
abbrev pub Before : Position → Position → Type 0
Before p q = (p.epoch < q.epoch) ⊎ ((p.epoch ≡ q.epoch) × (p.sequence < q.sequence))

-- The database is past position `p`.
abbrev pub Past : Position → Database → Type 0
Past p db =
    (e : ℕ) × (db.epochs p.producer ≡ some e)
    × ((p.epoch < e)
        ⊎ ((p.epoch ≡ e)
            × ((n : ℕ) × (db.sequences p.producer p.node ≡ some n) × (p.sequence ≤ n))))

-- Every position that the calls give to the producer and node of `p` is after `p`.
unfoldable pub AllAfter : Position → List Call → Database → Type 0
unfolding step Gives
AllAfter p [] db = Unit {0}
AllAfter p (c ∷ calls) db =
    ((q : Position) → Gives c q db → q.producer ≡ p.producer → q.node ≡ p.node → Before p q)
    × AllAfter p calls (step c db)

-- Giving out a position never lowers a sequence.
next-raises :
    (producer epoch node : ℕ) (expected : Option ℕ) (db : Database) (j k n : ℕ)
    → db.sequences j k ≡ some n
    → (m : ℕ) × ((next producer epoch node expected db).1.sequences j k ≡ some m) × (n ≤ m)
unfolding next
next-raises producer epoch node expected db j k n found =
    elim (Option-cases ((next producer epoch node expected db).1.sequences j k)) [
      | inl absent ↦ absurd (ground (arith, found))
      | inr (m, e) ↦ (m, e, ground (arith, found))
    ]

next-epochs :
    (producer epoch node : ℕ) (expected : Option ℕ) (db : Database) (j : ℕ)
    → (next producer epoch node expected db).1.epochs j ≡ db.epochs j
unfolding next
next-epochs producer epoch node expected db j = ground arith

step-Past : (p : Position) (c : Call) (db : Database) → Past p db → Past p (step c db)
unfolding step begin_epoch
step-Past p (Call.begin_call producer) db (e, here, order) =
    elim (Bool-cases (p.producer == producer)) [
      | inl same ↦ (
        following (db.epochs producer),
        ground (arith, same),
        inl (ground (arith, same, here, order)),
      )
      | inr other ↦ (e, ground (arith, other, here), ground (arith, other, order))
    ]
step-Past p (Call.next_call producer epoch node expected) db (e, here, inl older) =
    (e, next-epochs producer epoch node expected db p.producer ∙ here, inl older)
step-Past p (Call.next_call producer epoch node expected) db (e, here, inr (same, (n, found, le))) =
    let (m, now_at, more) = next-raises producer epoch node expected db p.producer p.node n found in
    (
      e,
      next-epochs producer epoch node expected db p.producer ∙ here,
      inr (same, (m, now_at, omega (arith, le, more))),
    )

Gives-Before :
    (p q : Position) (c : Call) (db : Database)
    → Past p db
    → Gives c q db
    → q.producer ≡ p.producer
    → q.node ≡ p.node
    → Before p q
unfolding Gives next
Gives-Before p q (Call.begin_call producer) db h g s t = absurd g
Gives-Before p q (Call.next_call producer epoch node expected) db (e, here, order) g s t =
    ground (arith, here, order, g, s, t)

Gives-Past : (q : Position) (c : Call) (db : Database) → Gives c q db → Past q (step c db)
unfolding Gives step next
Gives-Past q (Call.begin_call producer) db g = absurd g
Gives-Past q (Call.next_call producer epoch node expected) db g =
    (q.epoch, ground (arith, g), inr (refl, (q.sequence, ground (arith, g), omega arith)))

after-Past : (p : Position) (calls : List Call) (db : Database) → Past p db → AllAfter p calls db
unfolding AllAfter
after-Past p [] db h = tt
after-Past p (c ∷ calls) db h =
    (λ q. Gives-Before p q c db h, after-Past p calls (step c db) (step-Past p c db h))

-- When a call has given out a position, then in any sequence of later calls by any objects, restarts
-- and objects of earlier epochs included, every position that is given out for the same producer and
-- node is after it: in a later epoch, or in the same epoch with a larger sequence.
pub positions_increase :
    (p : Position) (c : Call) (calls : List Call) (db : Database)
    → Gives c p db
    → AllAfter p calls (step c db)
positions_increase p c calls db g = after-Past p calls (step c db) (Gives-Past p c db g)
