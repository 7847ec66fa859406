-- ===== src/Tests/Agent.antt =====
-- The agent on concrete observations and rejections.
use zilina_eirvah_edge_impl.Prelude.{ℕ, ◌≡◌, refl, true, false, none, some, [], ◌∷◌, All}
use zilina_eirvah_edge_impl.Prelude.Exceptions.{ok}
use zilina_eirvah_edge_impl.Contracts.Telemetry.{Quality}
use zilina_eirvah_edge_impl.Agent.State
use zilina_eirvah_edge_impl.Agent.State.{Reason, Freshness, update_state, snapshot}
use zilina_eirvah_edge_impl.Agent.State.Fresh.{IsFresh, update-IsFresh}
use zilina_eirvah_edge_impl.Agent.Rejections.{
  PendingRejection, Tracker, Kind, Decision, Feedback, observe, result, feedback,
}
use zilina_eirvah_edge_impl.Agent.Rejections.Outcomes.{
  Balanced, Proven, result-Balanced, feedback-Proven,
}
use zilina_eirvah_edge_impl.Contracts.Actuation.{Datetime}

abbrev rejection : PendingRejection
rejection = record {
  correlation_id = 70;
  requested_at = 100;
  deadline = some 110;
  inspection_id = 4;
  bottle_id = 30;
  baseline_count = 2;
  acknowledged = true;
}

abbrev tracker : Tracker
tracker = record {
  capacity = 4;
  pending = rejection ∷ [];
  bottle = none;
  count = some (record { value = 3; observed_at = 104 });
}

result-Balanced_example : Balanced tracker (result 70 Decision.unknown none 105 tracker)
result-Balanced_example = result-Balanced 70 Decision.unknown none 105 tracker

abbrev passing : Feedback
passing = record { value = 30; observed_at = 105 }

feedback-Proven_example :
    All
      (Proven tracker.pending
        (observe Kind.bottle_kind passing tracker).bottle
        (observe Kind.bottle_kind passing tracker).count)
      (feedback Kind.bottle_kind passing 106 tracker).0
feedback-Proven_example = feedback-Proven Kind.bottle_kind passing 106 tracker

abbrev state : State.Tracker
state = record {
  max_age = 10;
  require_position = false;
  store = none;
  positions = λ t. none;
  latest = λ t. none;
  last_decision = Reason.not_observed;
}

abbrev aware : ℕ → Datetime
aware n = record { at = n; aware = true }

taken : (update_state (λ v a. v) 5 8 (aware 100) (aware 104) Quality.good none state).0 ≡ ok true
unfolding update_state
taken = refl

update-IsFresh_example :
    IsFresh state (aware 100) (aware 104) Quality.good
    × ((update_state (λ v a. v) 5 8 (aware 100) (aware 104) Quality.good none state).1.latest 5
        ≡ some (record { at = 100; value = 8 }))
    × ((snapshot 5
          (aware 104)
          (update_state (λ v a. v) 5 8 (aware 100) (aware 104) Quality.good none state).1).status
        ≡ Freshness.fresh)
update-IsFresh_example =
    update-IsFresh (λ v a. v) 5 8 (aware 100) (aware 104) Quality.good none state taken
