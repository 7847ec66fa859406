-- ===== src/Recovery/Journal.antt =====
-- recovery.py, SourceJournal: the outbox of a producer. A reading of the clock is an argument; the
-- state and the effects that are stored are the numbers of their texts.
pub mod Outbox
use zilina_eirvah_edge_impl.Prelude.{
  ℕ, suc, ◌+◌, ◌≤◌, ◌<◌, ◌≡◌, refl, Bool, true, false, not, ◌&&◌, ◌||◌, Option, none, some, List,
  [], ◌∷◌, ◌++◌, ◌==◌, ltb, leb, if◌then◌else◌, arith, All, Option-cases, Bool-cases, inl, inr,
}
use zilina_eirvah_edge_impl.Prelude.Exceptions.{Exc, Result, ok, err}
use zilina_eirvah_edge_impl.Sql.{delete, update, count, insert, select, Distinct}

-- A row of source_events, in the order of `serial`
pub record Event : Type 0 where
  pub id : ℕ
  pub body : ℕ
  pub created : ℕ
  pub received : Bool

-- The tables, and the counters of source_meta
pub record Journal : Type 0 where
  pub events : List Event
  pub created : ℕ
  pub received : ℕ
  pub boots : ℕ
  pub state : Option ℕ
  pub effects : List (ℕ × ℕ)
  pub capacity : ℕ

abbrev pub id_of : Event → ℕ
id_of e = e.id

-- received=0
abbrev pub is_pending : Event → Bool
is_pending e = not e.received

-- SourceJournal.pending
unfoldable pub pending : Journal → ℕ
pending j = count is_pending j.events

-- ORDER BY serial LIMIT 1, of the rows that are not received
abbrev pub first_pending : List Event → Option ℕ
first_pending [] = none
first_pending (e ∷ es) = if is_pending e then some e.body else first_pending es

-- SourceJournal.head
unfoldable pub head : Journal → Option ℕ
head j = first_pending j.events

-- SourceJournal.boot
unfoldable pub boot : Journal → ℕ × Journal
boot j = (j.boots + 1, record j { boots = j.boots + 1 })

-- The event of a commit, against the row with its identity
abbrev pub add_event : ℕ → ℕ → ℕ → Option Event → Journal → Result Journal
add_event id body at (some old) j =
    if not (old.body == body)
    then err (Exc.value_error "immutable source event identity conflict")
    else ok j
add_event id body at none j =
    if leb j.capacity (count is_pending j.events)
    then err (Exc.runtime_error "source outbox capacity reached")
    else ok (record j {
      events = insert (record { id = id; body = body; created = at; received = false }) j.events;
      created = j.created + 1;
    })

abbrev pub with_event : Option (ℕ × ℕ) → ℕ → Journal → Result Journal
with_event none at j = ok j
with_event (some (id, body)) at j = add_event id body at (select id_of id j.events) j

-- received=1 AND created<now-86400
abbrev pub is_old : ℕ → Event → Bool
is_old now e = e.received && ltb (e.created + 86400) now

abbrev pub add_effect : Option ℕ → ℕ → List (ℕ × ℕ) → List (ℕ × ℕ)
add_effect none at effects = effects
add_effect (some effect) at effects = effects ++ (at, effect) ∷ []

-- The rest of a commit, once the event is in
abbrev pub commit_rest :
    ℕ → Option ℕ → ℕ → ℕ → Journal → Result Journal → Result (Unit {0}) × Journal
commit_rest state effect at' at'' j (err e) = (err e, j)
commit_rest state effect at' at'' j (ok k) = (
  ok tt,
  record k {
    events = delete (is_old at'') k.events;
    state = some state;
    effects = add_effect effect at' k.effects;
  },
)

-- SourceJournal.commit; what raises is rolled back. `at`, `at'` and `at''` are the readings of the
-- clock for the event, for the effect and for what is old.
unfoldable pub commit :
    ℕ → Option (ℕ × ℕ) → Option ℕ → ℕ → ℕ → ℕ → Journal → Result (Unit {0}) × Journal
commit state event effect at at' at'' j =
    commit_rest state effect at' at'' j (with_event event at j)

abbrev pub has_id : ℕ → Event → Bool
has_id id e = e.id == id

abbrev pub receive : Event → Event
receive e = record e { received = true }

abbrev pub ack_row : ℕ → Option Event → Journal → Bool × Journal
ack_row id none j = (false, j)
ack_row id (some e) j =
    if not e.received
    then (
      true,
      record j { events = update (has_id id) receive j.events; received = j.received + 1 },
    )
    else (true, j)

-- SourceJournal.ack
unfoldable pub ack : ℕ → Journal → Bool × Journal
ack id j = ack_row id (select id_of id j.events) j

pub record Stats : Type 0 where
  pub created : ℕ
  pub received : ℕ
  pub boots : ℕ
  pub pending : ℕ

-- SourceJournal.stats, without the identity of the database
unfoldable pub stats : Journal → Stats
unfolding pending
stats j = record {
  created = j.created;
  received = j.received;
  boots = j.boots;
  pending = pending j;
}

-- Identities are distinct, what is created and not yet received is pending, and the pending events
-- fit in the capacity.
pub record IsValid (j : Journal) : Type 0 where
  pub distinct : Distinct id_of j.events
  pub balance : j.created ≡ j.received + count is_pending j.events
  pub fits : count is_pending j.events ≤ j.capacity
