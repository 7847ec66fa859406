-- ===== src/Recovery/Consumer.antt =====
-- recovery.py, ConsumerStore: the inspections that a consumer has received, and the command that each
-- failed inspection leads to. Instants are natural numbers of seconds, `digest` is SHA-256 of the
-- canonical text of an event, and the text of a result is its record.
pub mod Once
use zilina_eirvah_edge_impl.Prelude.{
  ℕ, zero, suc, ◌+◌, Bool, true, false, not, ◌&&◌, ◌||◌, Option, none, some, List, [], ◌∷◌, ◌==◌,
  ltb, leb, if◌then◌else◌, is_some, eq_option,
}
use zilina_eirvah_edge_impl.Prelude.Exceptions.{Exc, Result, ok, err, ◌>>=◌}
use zilina_eirvah_edge_impl.Sql.{delete, update, count, insert, select}

-- An inspection; `session` is the part of its identity before the colon.
pub record Event : Type 0 where
  pub inspection_id : ℕ
  pub session : ℕ
  pub bottle_id : ℕ
  pub passed : Bool
  pub inspected_at : ℕ

pub record Command : Type 0 where
  pub correlation_id : ℕ
  pub requester : ℕ
  pub target_uns_topic : ℕ
  pub requested_value : ℕ
  pub value_type : ℕ

pub data Decision : Type 0 where
  approve reject pending unknown other : Decision

-- What comes back for a command.
pub record Answer : Type 0 where
  pub command : Command
  pub decision : Decision
  pub written_at : Option ℕ

pub data Disposition : Type 0 where
  future expired passed pending bottle_duplicate completed refused unknown : Disposition

abbrev pub is_pending : Disposition → Bool
is_pending Disposition.pending = true
is_pending Disposition.future = false
is_pending Disposition.expired = false
is_pending Disposition.passed = false
is_pending Disposition.bottle_duplicate = false
is_pending Disposition.completed = false
is_pending Disposition.refused = false
is_pending Disposition.unknown = false

abbrev pub is_completed : Disposition → Bool
is_completed Disposition.completed = true
is_completed Disposition.pending = false
is_completed Disposition.future = false
is_completed Disposition.expired = false
is_completed Disposition.passed = false
is_completed Disposition.bottle_duplicate = false
is_completed Disposition.refused = false
is_completed Disposition.unknown = false

-- A row of the table inspections, in the order of `serial`; a result that the store makes itself is
-- `none` in `some`.
pub record Row : Type 0 where
  pub event : Event
  pub digest : ℕ
  pub received : ℕ
  pub disposition : Disposition
  pub command : Option Command
  pub result : Option (Option Answer)
  pub last_sent : ℕ
  pub baseline_count : Option ℕ

abbrev pub id_of : Row → ℕ
id_of r = r.event.inspection_id

-- command_id=?
abbrev pub has_command : ℕ → Row → Bool
has_command id r = elim r.command [ none ↦ false | some c ↦ c.correlation_id == id ]

abbrev pub row_pending : Row → Bool
row_pending r = is_pending r.disposition

-- The disposition of an inspection by its age and its outcome
abbrev pub by_age : Event → ℕ → ℕ → Disposition
by_age e now max_age =
    if ltb now e.inspected_at
    then Disposition.future
    else if leb (e.inspected_at + max_age) now
    then Disposition.expired
    else if e.passed
    then Disposition.passed
    else Disposition.pending

-- A row received within max_age + 10 that is of the same bottle in the same session
abbrev pub is_same_bottle : Event → ℕ → ℕ → Row → Bool
is_same_bottle e now max_age r =
    leb now (r.received + max_age + 10)
    && (r.event.session == e.session && r.event.bottle_id == e.bottle_id)

abbrev pub any_row : (Row → Bool) → List Row → Bool
any_row p [] = false
any_row p (r ∷ rows) = p r || any_row p rows

abbrev pub disposition_of : Event → ℕ → ℕ → List Row → Disposition
disposition_of e now max_age rows =
    if is_pending (by_age e now max_age) && any_row (is_same_bottle e now max_age) rows
    then Disposition.bottle_duplicate
    else by_age e now max_age

-- The command of a pending inspection: at most 128 are open.
abbrev pub command_of : Bool → Result Command → List Row → Result (Option Command)
command_of false factory rows = ok none
command_of true factory rows =
    if leb 128 (count row_pending rows)
    then err (Exc.runtime_error "consumer command outbox capacity reached")
    else (factory >>= λ c. ok (some c))

-- command_id is UNIQUE
abbrev pub is_taken : Option Command → List Row → Bool
is_taken none rows = false
is_taken (some c) rows = any_row (has_command c.correlation_id) rows

-- disposition!='pending' AND received<now-86400
abbrev pub is_old : ℕ → Row → Bool
is_old now r = not (row_pending r) && ltb (r.received + 86400) now

abbrev pub found : Option Row → Result Row
found none = err Exc.type_error
found (some r) = ok r

abbrev pub keep_row : Row → ℕ → Option Command → List Row → Result (Row × List Row)
keep_row r now command rows =
    if is_taken command rows
    then err (Exc.other_error "IntegrityError")
    else (let kept = delete (is_old now) (insert r rows) in
        found (select id_of (id_of r) kept) >>= λ r'. ok (r', kept))

abbrev pub add_row :
    (Event → ℕ) → Event → ℕ → ℕ → Result Command → Option ℕ → List Row → Result (Row × List Row)
add_row digest e now max_age factory baseline rows =
    command_of (is_pending (disposition_of e now max_age rows)) factory rows >>= λ command.
    keep_row
      (record {
        event = e;
        digest = digest e;
        received = now;
        disposition = disposition_of e now max_age rows;
        command = command;
        result = none;
        last_sent = 0;
        baseline_count = baseline;
      })
      now command rows

abbrev pub receive_row :
    (Event → ℕ)
    → Event
    → ℕ
    → ℕ
    → Result Command
    → Option ℕ
    → Option Row
    → List Row
    → Result (Row × List Row)
receive_row digest e now max_age factory baseline none rows =
    add_row digest e now max_age factory baseline rows
receive_row digest e now max_age factory baseline (some old) rows =
    if not (old.digest == digest e)
    then err (Exc.value_error "inspection identity conflict")
    else ok (old, rows)

abbrev pub committed : Result (Row × List Row) → List Row → Result Row × List Row
committed (ok (r, rows')) rows = (ok r, rows')
committed (err x) rows = (err x, rows)

-- ConsumerStore.receive; what raises is rolled back.
unfoldable pub receive :
    (Event → ℕ) → Event → ℕ → ℕ → Result Command → Option ℕ → List Row → Result Row × List Row
receive digest e now max_age factory baseline rows =
    committed
      (receive_row digest e now max_age factory baseline (select id_of e.inspection_id rows) rows)
      rows

-- ConsumerStore.find
unfoldable pub find : ℕ → List Row → Option Row
find id rows = select id_of id rows

-- disposition='pending' AND received<now-86400
abbrev pub is_lost : ℕ → Row → Bool
is_lost now r = row_pending r && ltb (r.received + 86400) now

abbrev pub lose : Row → Row
lose r = record r { disposition = Disposition.unknown; result = some none }

-- disposition='pending' AND last_sent<now-1.0
abbrev pub is_due : ℕ → Row → Bool
is_due now r = row_pending r && ltb (r.last_sent + 1) now

-- WHERE p ORDER BY serial LIMIT n
abbrev pub first_rows : (Row → Bool) → ℕ → List Row → List Row
first_rows p zero rows = []
first_rows p (suc n) [] = []
first_rows p (suc n) (r ∷ rows) =
    let skipped = first_rows p (suc n) rows in if p r then r ∷ first_rows p n rows else skipped

-- ConsumerStore.ready: the first 128 rows that are due
unfoldable pub ready : ℕ → List Row → List Row × List Row
ready now rows =
    let kept = update (is_lost now) lose rows in (first_rows (is_due now) 128 kept, kept)

abbrev pub is_row : ℕ → Row → Bool
is_row id r = id_of r == id

-- ConsumerStore.sent
unfoldable pub sent : ℕ → ℕ → List Row → List Row
sent id now rows = update (is_row id) (λ r. record r { last_sent = now }) rows

-- The fields that bind a result to its command
abbrev pub is_bound : Command → Command → Bool
is_bound a c =
    a.requester == c.requester
    && (a.target_uns_topic == c.target_uns_topic
        && (a.requested_value == c.requested_value && a.value_type == c.value_type))

abbrev pub dispose : Disposition → Answer → Row → Row
dispose d a r = record r { disposition = d; result = some (some a) }

-- The last checks of `settle`, with the disposition that the decision leads to
abbrev pub settle_as : Disposition → Answer → Row → List Row → Result (Unit {0}) × List Row
settle_as d a r rows =
    if is_completed r.disposition && not (is_completed d)
    then (err (Exc.value_error "completed outcome cannot be overwritten"), rows)
    else (ok tt, update (has_command a.command.correlation_id) (dispose d a) rows)

abbrev pub settle_by : Decision → Answer → Row → List Row → Result (Unit {0}) × List Row
settle_by Decision.pending a r rows = (ok tt, rows)
settle_by Decision.other a r rows = (err (Exc.value_error "unknown result type"), rows)
settle_by Decision.approve a r rows =
    if not (is_some a.written_at)
    then (err (Exc.value_error "completion acknowledgement missing"), rows)
    else settle_as Disposition.completed a r rows
settle_by Decision.reject a r rows = settle_as Disposition.refused a r rows
settle_by Decision.unknown a r rows = settle_as Disposition.unknown a r rows

-- SELECT * FROM inspections WHERE command_id=?
abbrev pub row_with_command : ℕ → List Row → Option Row
row_with_command id [] = none
row_with_command id (r ∷ rows) = if has_command id r then some r else row_with_command id rows

-- The checks against the stored command
abbrev pub settle_command : Answer → Row → Option Command → List Row → Result (Unit {0}) × List Row
settle_command a r none rows = (err Exc.type_error, rows)
settle_command a r (some c) rows =
    if not (is_bound a.command c)
    then (err (Exc.value_error "result binding mismatch"), rows)
    else settle_by a.decision a r rows

abbrev pub settle_row : Answer → Option Row → List Row → Result (Unit {0}) × List Row
settle_row a none rows = (ok tt, rows)
settle_row a (some r) rows = settle_command a r r.command rows

-- ConsumerStore.settle
unfoldable pub settle : Answer → List Row → Result (Unit {0}) × List Row
settle a rows = settle_row a (row_with_command a.command.correlation_id rows) rows
