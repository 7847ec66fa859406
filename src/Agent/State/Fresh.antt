-- ===== src/Agent/State/Fresh.antt =====
-- state.py, StateTracker: an observation that is taken is fresh, and the snapshot says so.
use zilina_eirvah_edge_impl.Prelude.{
  ℕ, ◌+◌, ◌≤◌, ◌≡◌, refl, Bool, true, false, Option, none, some, arith,
}
use zilina_eirvah_edge_impl.Prelude.Exceptions.{Result, ok, err}
use zilina_eirvah_edge_impl.Contracts.Actuation.{Datetime}
use zilina_eirvah_edge_impl.Recovery.Positions.{Position}
use zilina_eirvah_edge_impl.Recovery.Advance.{Store}
use zilina_eirvah_edge_impl.Contracts.Telemetry.{Quality}
use zilina_eirvah_edge_impl.Agent.State.{
  Reason, Tracker, is_none, is_accepted, early, by_store, by_position, after_early, update_state,
  Freshness, snapshot,
}

-- An observation that is fit to be taken.
pub record IsFresh (t : Tracker) (at now : Datetime) (quality : Quality) : Type 0 where
  pub at_aware : at.aware ≡ true
  pub now_aware : now.aware ≡ true
  pub of_quality : quality ≡ Quality.good
  pub not_future : at.at ≤ now.at
  pub not_stale : now.at ≤ at.at + t.max_age

early-IsFresh :
    (t : Tracker) (at now : Datetime) (quality : Quality) (b : Bool)
    → early t at now quality b ≡ none
    → IsFresh t at now quality
early-IsFresh t at now Quality.uncertain b h = absurd (ground (arith, h))
early-IsFresh t at now Quality.bad b h = absurd (ground (arith, h))
early-IsFresh t at now Quality.good b h = record {
  at_aware = ground (arith, h);
  now_aware = ground (arith, h);
  of_quality = refl;
  not_future = ground (arith, h);
  not_stale = ground (arith, h);
}

early_rejects :
    (t : Tracker) (at now : Datetime) (quality : Quality) (b : Bool) (r : Reason)
    → early t at now quality b ≡ some r
    → is_accepted r ≡ false
early_rejects t at now quality b r h = ground (arith, h)

position_latest :
    (binding : ℕ → ℕ → ℕ) (position : Option (Result Position)) (topic value at : ℕ) (t : Tracker)
    → (by_position binding position topic value at t).0 ≡ ok true
    → (by_position binding position topic value at t).1.latest topic
      ≡ some (record { at = at; value = value })
position_latest binding none topic value at t h = ground (arith, h)
position_latest binding (some (err x)) topic value at t h = absurd (cc h)
position_latest binding (some (ok p)) topic value at t h = go t.store h
  where
    go :
        (s : Option Store)
        → (by_store binding s topic value at p t).0 ≡ ok true
        → (by_store binding s topic value at p t).1.latest topic
          ≡ some (record { at = at; value = value })
    go none k = absurd (cc k)
    go (some db) k = ground (arith, k)

taken-IsFresh :
    (binding : ℕ → ℕ → ℕ) (topic value : ℕ) (at now : Datetime) (quality : Quality)
    (position : Option (Result Position)) (t : Tracker)
    → (update_state binding topic value at now quality position t).0 ≡ ok true
    → IsFresh t at now quality
      × ((update_state binding topic value at now quality position t).1.latest topic
          ≡ some (record { at = at.at; value = value }))
unfolding update_state
taken-IsFresh binding topic value at now quality position t h =
    go (early t at now quality (is_none position)) refl h
  where
    go :
        (o : Option Reason)
        → early t at now quality (is_none position) ≡ o
        → (after_early o binding position topic value at.at t).0 ≡ ok true
        → IsFresh t at now quality
          × ((after_early o binding position topic value at.at t).1.latest topic
              ≡ some (record { at = at.at; value = value }))
    go none e k = (
      early-IsFresh t at now quality (is_none position) e,
      position_latest binding position topic value at.at t k,
    )
    go (some r) e k =
        absurd (ground (arith, early_rejects t at now quality (is_none position) r e, k))

by_store-max_age :
    (binding : ℕ → ℕ → ℕ) (db : Option Store) (topic value at : ℕ) (p : Position) (t : Tracker)
    → (by_store binding db topic value at p t).1.max_age ≡ t.max_age
by_store-max_age binding none topic value at p t = refl
by_store-max_age binding (some db) topic value at p t = refl

after_early-max_age :
    (o : Option Reason) (binding : ℕ → ℕ → ℕ) (position : Option (Result Position))
    (topic value at : ℕ) (t : Tracker)
    → (after_early o binding position topic value at t).1.max_age ≡ t.max_age
after_early-max_age (some r) binding position topic value at t = refl
after_early-max_age none binding none topic value at t = refl
after_early-max_age none binding (some (err x)) topic value at t = refl
after_early-max_age none binding (some (ok p)) topic value at t =
    by_store-max_age binding t.store topic value at p t

IsFresh-snapshot :
    (t u : Tracker) (topic value : ℕ) (at now : Datetime) (quality : Quality)
    → IsFresh t at now quality
    → u.latest topic ≡ some (record { at = at.at; value = value })
    → u.max_age ≡ t.max_age
    → (snapshot topic now u).status ≡ Freshness.fresh
unfolding snapshot
IsFresh-snapshot t u topic value at now quality f l m =
    ground (arith, l, m, f.now_aware, f.not_future, f.not_stale)

-- When the tracker takes an observation of a topic, with a position or without, the observation has an
-- aware time that is not after now and not older than the maximal age, its quality is good, and it
-- is the latest one of the topic from then on; a snapshot of the topic at that time shows it as fresh.
pub update-IsFresh :
    (binding : ℕ → ℕ → ℕ) (topic value : ℕ) (at now : Datetime) (quality : Quality)
    (position : Option (Result Position)) (t : Tracker)
    → (update_state binding topic value at now quality position t).0 ≡ ok true
    → IsFresh t at now quality
      × ((update_state binding topic value at now quality position t).1.latest topic
          ≡ some (record { at = at.at; value = value }))
      × ((snapshot topic now (update_state binding topic value at now quality position t).1).status
          ≡ Freshness.fresh)
unfolding update_state
update-IsFresh binding topic value at now quality position t h =
    let (fit, last) = taken-IsFresh binding topic value at now quality position t h in
    let same =
      after_early-max_age (early t at now quality (is_none position)) binding position topic value
        at.at t in
    (fit, last, IsFresh-snapshot t _ topic value at now quality fit last same)
