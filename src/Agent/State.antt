-- ===== src/Agent/State.antt =====
-- state.py, StateTracker: which observations the agent takes as the state of a topic. Topics and values
-- are only compared, and are numbers; a value's number tells its type too. `binding` is the text of a
-- value and its time, by number. Instants are numbers of seconds. The store is that of ConsumerStore.
pub mod Fresh
use zilina_eirvah_edge_impl.Prelude.{
  ℕ, ◌+◌, ◌≤◌, ◌≡◌, refl, Bool, true, false, not, ◌&&◌, ◌||◌, Option, none, some, ◌==◌, ltb,
  if◌then◌else◌, arith,
}
use zilina_eirvah_edge_impl.Prelude.Exceptions.{Exc, Result, ok, err}
use zilina_eirvah_edge_impl.Contracts.Actuation.{Datetime}
use zilina_eirvah_edge_impl.Contracts.Telemetry.{Quality}
use zilina_eirvah_edge_impl.Recovery.Positions.{Position}
use zilina_eirvah_edge_impl.Recovery.Advance
use zilina_eirvah_edge_impl.Recovery.Advance.{Store, advance}

pub data Reason : Type 0 where
  not_observed accepted invalid_time bad_quality future stale missing_position : Reason
  out_of_order duplicate timestamp_conflict : Reason
  refused : Advance.Answer → Reason

pub record Latest : Type 0 where
  pub at : ℕ
  pub value : ℕ

pub record Tracker : Type 0 where
  pub max_age : ℕ
  pub require_position : Bool
  pub store : Option Store
  pub positions : ℕ → Option Position
  pub latest : ℕ → Option Latest
  pub last_decision : Reason

abbrev pub is_good : Quality → Bool
is_good Quality.good = true
is_good Quality.uncertain = false
is_good Quality.bad = false

abbrev pub is_none {ℓ} : {A : Type ℓ} → Option A → Bool
is_none none = true
is_none (some _) = false

abbrev pub is_accepted : Reason → Bool
is_accepted Reason.accepted = true
is_accepted _ = false

-- The tests before the position is looked at: the first that fails
abbrev pub early : Tracker → Datetime → Datetime → Quality → Bool → Option Reason
early t at now quality without_position =
    if not at.aware || not now.aware
    then some Reason.invalid_time
    else if not (is_good quality)
    then some Reason.bad_quality
    else if ltb now.at at.at
    then some Reason.future
    else if ltb (at.at + t.max_age) now.at
    then some Reason.stale
    else if t.require_position && without_position
    then some Reason.missing_position
    else none

-- The order of an observation without a position, after the latest one
abbrev pub by_time : Option Latest → ℕ → ℕ → Reason
by_time none at value = Reason.accepted
by_time (some old) at value =
    if ltb at old.at
    then Reason.out_of_order
    else if not (at == old.at)
    then Reason.accepted
    else if value == old.value
    then Reason.duplicate
    else Reason.timestamp_conflict

-- What is kept of an observation with this reason
abbrev pub decide : Reason → ℕ → ℕ → ℕ → Tracker → Bool × Tracker
decide reason topic value at t = (
  is_accepted reason,
  record t {
    latest = λ s.
        if is_accepted reason && s == topic
        then some (record { at = at; value = value })
        else t.latest s;
    last_decision = reason;
  },
)

abbrev pub store_reason : Advance.Answer → Reason
store_reason Advance.Answer.accepted = Reason.accepted
store_reason a = Reason.refused a

abbrev pub by_store :
    (ℕ → ℕ → ℕ) → Option Store → ℕ → ℕ → ℕ → Position → Tracker → Result Bool × Tracker
by_store binding none topic value at p t =
    (err (Exc.runtime_error "durable position guard required"), t)
by_store binding (some db) topic value at p t =
    let (answer, db') = advance topic p (binding value at) db in
    let reason = store_reason answer in
    let (b, t') = decide reason topic value at t in
    (
      ok b,
      record t' {
        store = some db';
        positions = λ s. if is_accepted reason && s == topic then some p else t.positions s;
      },
    )

abbrev pub by_position :
    (ℕ → ℕ → ℕ) → Option (Result Position) → ℕ → ℕ → ℕ → Tracker → Result Bool × Tracker
by_position binding none topic value at t =
    let (b, t') = decide (by_time (t.latest topic) at value) topic value at t in (ok b, t')
by_position binding (some (err x)) topic value at t = (err x, t)
by_position binding (some (ok p)) topic value at t = by_store binding t.store topic value at p t

abbrev pub after_early :
    Option Reason
    → (ℕ → ℕ → ℕ)
    → Option (Result Position)
    → ℕ
    → ℕ
    → ℕ
    → Tracker
    → Result Bool × Tracker
after_early none binding position topic value at t = by_position binding position topic value at t
after_early (some reason) binding position topic value at t =
    let (b, t') = decide reason topic value at t in (ok b, t')

-- StateTracker.update; the position is given as what it validates to.
unfoldable pub update_state :
    (ℕ → ℕ → ℕ)
    → ℕ
    → ℕ
    → Datetime
    → Datetime
    → Quality
    → Option (Result Position)
    → Tracker
    → Result Bool × Tracker
update_state binding topic value at now quality position t =
    after_early (early t at now quality (is_none position)) binding position topic value at.at t

pub data Freshness : Type 0 where
  fresh outdated unknown : Freshness

-- The fields of a snapshot; a topic without an observation has no more than its status.
pub record Snapshot : Type 0 where
  pub status : Freshness
  pub observation : Option Latest
  pub position : Option Position

-- The status of an observation by its age; without an aware now it has none.
abbrev pub freshness : ℕ → Datetime → Latest → Freshness
freshness max_age now l =
    if not now.aware || ltb now.at l.at
    then Freshness.unknown
    else if ltb (l.at + max_age) now.at
    then Freshness.outdated
    else Freshness.fresh

abbrev pub snapshot_of : Option Latest → Option Position → ℕ → Datetime → Snapshot
snapshot_of none position max_age now = record {
  status = Freshness.unknown;
  observation = none;
  position = none;
}
snapshot_of (some l) position max_age now = record {
  status = freshness max_age now l;
  observation = some l;
  position = position;
}

-- StateTracker.snapshot
unfoldable pub snapshot : ℕ → Datetime → Tracker → Snapshot
snapshot topic now t = snapshot_of (t.latest topic) (t.positions topic) t.max_age now
