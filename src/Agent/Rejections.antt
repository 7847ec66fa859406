-- ===== src/Agent/Rejections.antt =====
-- inspection.py, RejectionTracker: the rejections that were asked for, until each has an outcome. The
-- dictionary `pending` is a list in order of insertion; identifiers are numbers, instants are numbers
-- of seconds. What the journal of evidence is told is left out.
pub mod Outcomes
use zilina_eirvah_edge_impl.Prelude.{
  ℕ, ◌+◌, Bool, true, false, not, ◌&&◌, Option, none, some, List, [], ◌∷◌, ◌++◌, ◌==◌, ltb, leb,
  if◌then◌else◌, is_some, length,
}
use zilina_eirvah_edge_impl.Prelude.Exceptions.{Exc, Result, ok, err}
use zilina_eirvah_edge_impl.Sql.{delete, update, insert, select}

pub record PendingRejection : Type 0 where
  pub correlation_id : ℕ
  pub requested_at : ℕ
  pub deadline : Option ℕ
  pub inspection_id : ℕ
  pub bottle_id : ℕ
  pub baseline_count : ℕ
  pub acknowledged : Bool

pub data Verdict : Type 0 where
  unknown not_confirmed confirmed : Verdict

pub record Outcome : Type 0 where
  pub inspection_id : ℕ
  pub verdict : Verdict

-- A value that a device reported, and when it was observed.
pub record Feedback : Type 0 where
  pub value : ℕ
  pub observed_at : ℕ

pub record Tracker : Type 0 where
  pub capacity : ℕ
  pub pending : List PendingRejection
  pub bottle : Option Feedback
  pub count : Option Feedback

pub data Kind : Type 0 where
  bottle_kind count_kind : Kind

-- result["decision"]
pub data Decision : Type 0 where
  approve pending unknown other : Decision

abbrev pub id_of : PendingRejection → ℕ
id_of p = p.correlation_id

abbrev pub has_id : ℕ → PendingRejection → Bool
has_id k p = p.correlation_id == k

-- self.pending[k] = p
abbrev pub put : PendingRejection → List PendingRejection → List PendingRejection
put p rows =
    if is_some (select id_of p.correlation_id rows)
    then update (has_id p.correlation_id) (λ _. p) rows
    else insert p rows

-- RejectionTracker.add
unfoldable pub add : PendingRejection → Tracker → Result (Unit {0}) × Tracker
add p t =
    if leb t.capacity (length t.pending)
    then (err (Exc.value_error "rejection tracker at capacity"), t)
    else (ok tt, record t { pending = put p t.pending })

-- entry.request.deadline or entry.request.requested_at
abbrev pub due : PendingRejection → ℕ
due p = elim p.deadline [ none ↦ p.requested_at | some d ↦ d ]

abbrev pub is_expired : ℕ → PendingRejection → Bool
is_expired now p = ltb (due p + 10) now

-- The outcomes of the rejections that pass a test, in order
abbrev pub outcomes_of : (PendingRejection → Bool) → Verdict → List PendingRejection → List Outcome
outcomes_of test v [] = []
outcomes_of test v (p ∷ rows) =
    let rest = outcomes_of test v rows in
    if test p then record { inspection_id = p.inspection_id; verdict = v } ∷ rest else rest

-- The rejections that pass a test leave with an outcome.
abbrev pub leave : (PendingRejection → Bool) → Verdict → Tracker → List Outcome × Tracker
leave test v t = (outcomes_of test v t.pending, record t { pending = delete test t.pending })

-- RejectionTracker.expire
unfoldable pub expire : ℕ → Tracker → List Outcome × Tracker
expire now t = leave (is_expired now) Verdict.unknown t

-- The feedback confirms that the bottle was rejected after the request.
abbrev pub is_confirmed : Feedback → Feedback → PendingRejection → Bool
is_confirmed bottle count p =
    p.acknowledged
    && (bottle.value == p.bottle_id
        && (ltb p.baseline_count count.value
            && (leb p.requested_at bottle.observed_at && leb p.requested_at count.observed_at)))

abbrev pub confirm_by : Option Feedback → Option Feedback → Tracker → List Outcome × Tracker
confirm_by none c t = ([], t)
confirm_by (some b) none t = ([], t)
confirm_by (some b) (some c) t = leave (is_confirmed b c) Verdict.confirmed t

-- RejectionTracker._confirm
unfoldable pub confirm : Tracker → List Outcome × Tracker
confirm t = confirm_by t.bottle t.count t

-- outcomes + self._confirm()
abbrev pub then_confirm : List Outcome × Tracker → List Outcome × Tracker
then_confirm (outcomes, t) = let (more, t') = confirm t in (outcomes ++ more, t')

abbrev pub after : List Outcome → List Outcome × Tracker → List Outcome × Tracker
after outcomes (more, t) = (outcomes ++ more, t)

abbrev pub acknowledge : PendingRejection → PendingRejection
acknowledge p = record p { acknowledged = true }

-- The entry `key` leaves with an outcome.
abbrev pub leave_with : ℕ → Verdict → Tracker → List Outcome × Tracker
leave_with key v t = leave (has_id key) v t

abbrev pub by_decision : ℕ → Decision → Option ℕ → Tracker → List Outcome × Tracker
by_decision key Decision.pending written_at t = ([], t)
by_decision key Decision.unknown written_at t = then_confirm (leave_with key Verdict.unknown t)
by_decision key Decision.other written_at t = then_confirm (leave_with key Verdict.not_confirmed t)
by_decision key Decision.approve none t = then_confirm (leave_with key Verdict.not_confirmed t)
by_decision key Decision.approve (some at) t =
    then_confirm ([], record t { pending = update (has_id key) acknowledge t.pending })

abbrev pub answered :
    Option PendingRejection → ℕ → Decision → Option ℕ → Tracker → List Outcome × Tracker
answered none key d written_at t = ([], t)
answered (some p) key d written_at t = by_decision key d written_at t

-- RejectionTracker.result, of an answer with a text as its identifier
unfoldable pub result : ℕ → Decision → Option ℕ → ℕ → Tracker → List Outcome × Tracker
result key d written_at now t =
    let (outcomes, t') = expire now t in
    after outcomes (answered (select id_of key t'.pending) key d written_at t')

-- previous is None or observed_at >= previous[1]
abbrev pub newer : Option Feedback → Feedback → Option Feedback
newer none f = some f
newer (some old) f = if leb old.observed_at f.observed_at then some f else some old

abbrev pub observe : Kind → Feedback → Tracker → Tracker
observe Kind.bottle_kind f t = record t { bottle = newer t.bottle f }
observe Kind.count_kind f t = record t { count = newer t.count f }

-- RejectionTracker.feedback
unfoldable pub feedback : Kind → Feedback → ℕ → Tracker → List Outcome × Tracker
feedback kind f now t =
    let (outcomes, t') = expire now t in after outcomes (confirm (observe kind f t'))
