-- ===== src/Tests/Mode.antt =====
-- The production mode rule on four speeds.
use zilina_eirvah_edge_impl.Prelude.{ℕ, true, none, some, List, [], ◌∷◌}
use zilina_eirvah_edge_impl.Contracts.Telemetry.{Quality}
use zilina_eirvah_edge_impl.Agent.Mode.{
  Mode, Settings, ModeRule, Seen, asked, Alternates, asked-Alternates,
}
use zilina_eirvah_edge_impl.Tests.{naturals}

abbrev settings : Settings ℕ
settings = record {
  enabled = true;
  max_observation_age = 5;
  high_speed_min = 60;
  normal_speed_max = 50;
  high_setpoint = 90;
  normal_setpoint = 40;
  target_uns_topic = "uniza/zilina/packaging/line_1/conveyor/speed";
  zero_speed = 0;
  top_speed = 80;
}

abbrev seen_at : ℕ → ℕ → Seen naturals settings
seen_at speed at = record {
  id = at;
  reason = "conveyor speed";
  speed = some speed;
  observed_at = record { at = at; aware = true };
  now = record { at = at; aware = true };
  quality = Quality.good;
}

abbrev speeds : List (Seen naturals settings)
speeds = seen_at 70 1 ∷ seen_at 55 2 ∷ seen_at 65 3 ∷ seen_at 30 4 ∷ []

abbrev rule : ModeRule
rule = record { last_mode = some Mode.normal; latest_at = none }

asked-Alternates_example :
    Alternates naturals settings (some Mode.normal) (asked naturals settings speeds rule)
asked-Alternates_example = asked-Alternates naturals settings speeds rule
