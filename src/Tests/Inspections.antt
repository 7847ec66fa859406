-- ===== src/Tests/Inspections.antt =====
-- The inspection rule on a failed bottle that comes twice.
use zilina_eirvah_edge_impl.Prelude.{ℕ, ◌≡◌, refl, true, false, none, [], ◌∷◌, List, arith}
use zilina_eirvah_edge_impl.Contracts.Inspection.{BottleInspection}
use zilina_eirvah_edge_impl.Agent.Inspections.{InspectionRule, Reason, decide, update}
use zilina_eirvah_edge_impl.Agent.Inspections.Once.{run, accepted_once}
use zilina_eirvah_edge_impl.Agent.Inspections.Bounds.{Bounded, decide-Bounded}

abbrev failed_bottle : BottleInspection
failed_bottle = record {
  session = 9;
  sequence = 4;
  bottle_id = 31;
  passed = false;
  inspected_at = 5000000;
}

abbrev other_bottle : BottleInspection
other_bottle = record {
  session = 9;
  sequence = 6;
  bottle_id = 33;
  passed = true;
  inspected_at = 6000000;
}

abbrev rule : InspectionRule
rule = record {
  settings = record {
    inspection_enabled = true;
    inspection_max_age = 10000000;
    reject_target_uns_topic = "uniza/zilina/packaging/line_1/reject/station/command";
  };
  capacity = 2;
  seen = [];
  bottles = [];
  heads = [];
  last_decision = record {
    accepted = false;
    reason = Reason.not_observed;
    missing_sequences = 0;
    late_sequence = false;
  };
}

abbrev others : List (BottleInspection × ℕ)
others = (other_bottle, 6500000) ∷ (failed_bottle, 6600000) ∷ []

accepted_first : (decide failed_bottle 5500000 rule).last_decision.accepted ≡ true
unfolding decide
accepted_first = refl

accepted_once_example :
    let q = run others (decide failed_bottle 5500000 rule) in
    ((decide failed_bottle 8000000 q).last_decision.accepted ≡ false)
    × ((update {F = ℕ} 1 (λ session sequence. "9:4") failed_bottle 8000000 q).0 ≡ none)
accepted_once_example =
    accepted_once 1 (λ session sequence. "9:4") failed_bottle 5500000 8000000 others rule
      accepted_first (omega arith, (omega arith, tt))

decide-Bounded_example : Bounded (decide failed_bottle 5500000 rule)
decide-Bounded_example =
    decide-Bounded failed_bottle 5500000 rule
      (record { seen = omega arith; bottles = omega arith; paired = refl; heads = omega arith })
