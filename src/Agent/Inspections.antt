-- ===== src/Agent/Inspections.antt =====
-- inspection.py, InspectionRule: which inspections the agent takes, and the rejections that it asks
-- for. The three dictionaries are lists of entries, each under two numbers: a session with a sequence,
-- with a bottle, or with 0. Instants and ages are numbers of microseconds.
pub mod Once
pub mod Bounds
use Prim.Native.String.{◌++◌ as ◌<>◌}
use zilina_eirvah_edge_impl.Prelude.{
  ℕ, ◌+◌, ◌-◌, ◌≤◌, ◌<◌, ◌≡◌, refl, String, Bool, true, false, not, ◌&&◌, ◌||◌, Option, none, some,
  List, [], ◌∷◌, ◌==◌, ltb, leb, if◌then◌else◌, arith, length, is_some,
}
use zilina_eirvah_edge_impl.Prelude.Numbers.{Value, int, pos}
use zilina_eirvah_edge_impl.Contracts.Actuation.{ActuationRequest, SignalValueType, Datetime}
use zilina_eirvah_edge_impl.Contracts.Inspection.{BottleInspection}

-- An entry of a dictionary, with the time under which it is kept
pub record Entry (A : Type 0) : Type 0 where
  pub session : ℕ
  pub key : ℕ
  pub kept_at : ℕ
  pub item : A

pub data Reason : Type 0 where
  disabled future stale invalid_identity duplicate identity_conflict sequence_regression capacity
        bottle_duplicate passed failed not_observed :
      Reason

-- last_decision
pub record Decision : Type 0 where
  pub accepted : Bool
  pub reason : Reason
  pub missing_sequences : ℕ
  pub late_sequence : Bool

-- The newest sequence of a session, and the time of its inspection
pub record Head : Type 0 where
  pub sequence : ℕ
  pub inspected_at : ℕ

pub record Settings : Type 0 where
  pub inspection_enabled : Bool
  pub inspection_max_age : ℕ
  pub reject_target_uns_topic : String

pub record InspectionRule : Type 0 where
  pub settings : Settings
  pub capacity : ℕ
  pub seen : List (Entry BottleInspection)
  pub bottles : List (Entry (Unit {0}))
  pub heads : List (Entry Head)
  pub last_decision : Decision

module _ {A : Type 0} where
  -- d.get(key)
  abbrev pub find : ℕ → ℕ → List (Entry A) → Option A
  find session key [] = none
  find session key (e ∷ d) =
      if e.session == session && e.key == key then some e.item else find session key d

  -- d[key] = entry
  abbrev pub put : Entry A → List (Entry A) → List (Entry A)
  put new [] = new ∷ []
  put new (e ∷ d) =
      let rest = put new d in
      if e.session == new.session && e.key == new.key then new ∷ d else e ∷ rest

  -- The entries since now - age
  abbrev pub since : ℕ → ℕ → List (Entry A) → List (Entry A)
  since now age [] = []
  since now age (e ∷ d) =
      let rest = since now age d in if leb now (e.kept_at + age) then e ∷ rest else rest

abbrev pub same_inspection : BottleInspection → BottleInspection → Bool
same_inspection a b =
    a.session == b.session
    && (a.sequence == b.sequence
        && (a.bottle_id == b.bottle_id
            && ((if a.passed then b.passed else not b.passed) && a.inspected_at == b.inspected_at)))

abbrev pub refusal : Reason → ℕ → Bool → Decision
refusal reason gap late = record {
  accepted = false;
  reason = reason;
  missing_sequences = gap;
  late_sequence = late;
}

-- timedelta(seconds=inspection_max_age_s + 10)
abbrev pub horizon : InspectionRule → ℕ
horizon r = r.settings.inspection_max_age + 10000000

-- max(0, sequence - head - 1), and 0 without a head
abbrev pub gap_of : Option Head → ℕ → ℕ
gap_of none sequence = 0
gap_of (some h) sequence = sequence - h.sequence - 1

abbrev pub is_late : Option Head → ℕ → Bool
is_late none sequence = false
is_late (some h) sequence = leb sequence h.sequence

abbrev pub is_regression : Option Head → BottleInspection → Bool
is_regression none e = false
is_regression (some h) e = leb e.sequence h.sequence && ltb h.inspected_at e.inspected_at

-- The new head of a session: a late sequence keeps the old one.
abbrev pub head_of : Option Head → BottleInspection → Head
head_of none e = record { sequence = e.sequence; inspected_at = e.inspected_at }
head_of (some h) e =
    if leb e.sequence h.sequence
    then h
    else record { sequence = e.sequence; inspected_at = e.inspected_at }

-- The part behind the head: the bottle, the capacity, and the admission
abbrev pub admit : BottleInspection → ℕ → ℕ → Bool → InspectionRule → InspectionRule
admit e now gap late r =
    if is_some (find e.session e.bottle_id r.bottles)
    then record r { last_decision = refusal Reason.bottle_duplicate gap late }
    else if leb r.capacity (length r.seen)
    then record r { last_decision = refusal Reason.capacity gap late }
    else record r {
      seen = put (record { session = e.session; key = e.sequence; kept_at = now; item = e }) r.seen;
      bottles =
          put (record { session = e.session; key = e.bottle_id; kept_at = now; item = tt })
            r.bottles;
      last_decision = record {
        accepted = true;
        reason = if e.passed then Reason.passed else Reason.failed;
        missing_sequences = gap;
        late_sequence = late;
      };
    }

abbrev pub by_head : Option Head → BottleInspection → ℕ → InspectionRule → InspectionRule
by_head head e now r =
    if is_regression head e
    then record r { last_decision = refusal Reason.sequence_regression 0 false }
    else if not (is_some head) && leb r.capacity (length r.heads)
    then record r { last_decision = refusal Reason.capacity 0 false }
    else admit e now (gap_of head e.sequence) (is_late head e.sequence) (record r {
      heads =
          put (record { session = e.session; key = 0; kept_at = now; item = head_of head e })
            r.heads;
    })

abbrev pub by_previous :
    Option BottleInspection → BottleInspection → ℕ → InspectionRule → InspectionRule
by_previous (some old) e now r = record r {
  last_decision =
      refusal (if same_inspection old e then Reason.duplicate else Reason.identity_conflict) 0
        false;
}
by_previous none e now r = by_head (find e.session 0 r.heads) e now r

abbrev pub prune : ℕ → InspectionRule → InspectionRule
prune now r = record r {
  seen = since now (horizon r) r.seen;
  bottles = since now (horizon r) r.bottles;
  heads = since now (horizon r) r.heads;
}

-- The memory of the rule after an update
unfoldable pub decide : BottleInspection → ℕ → InspectionRule → InspectionRule
decide e now r =
    if not r.settings.inspection_enabled
    then record r { last_decision = refusal Reason.disabled 0 false }
    else if ltb now e.inspected_at
    then record r { last_decision = refusal Reason.future 0 false }
    else if not (ltb now (e.inspected_at + r.settings.inspection_max_age))
    then record r { last_decision = refusal Reason.stale 0 false }
    else if e.sequence == 0
    then record (prune now r) { last_decision = refusal Reason.invalid_identity 0 false }
    else by_previous (find e.session e.sequence (since now (horizon r) r.seen)) e now (prune now r)

-- The request for a failed bottle, with a new identifier and the text of the inspection's identity
abbrev pub rejection_of :
    {F : Type 0} → ℕ → (ℕ → ℕ → String) → BottleInspection → ℕ → InspectionRule → ActuationRequest F
rejection_of id identity e now r = record {
  correlation_id = id;
  requester = "decision-agent-stub";
  target_uns_topic = r.settings.reject_target_uns_topic;
  requested_value = int (pos e.bottle_id);
  value_type = SignalValueType.int64_type;
  reason = "failed bottle inspection " <> identity e.session e.sequence;
  requested_at = record { at = now; aware = true };
  extra = [];
  deadline = some (record { at = e.inspected_at + r.settings.inspection_max_age; aware = true });
}

-- InspectionRule.update: the request, if there is one, and the rule
unfoldable pub update :
    {F : Type 0}
    → ℕ
    → (ℕ → ℕ → String)
    → BottleInspection
    → ℕ
    → InspectionRule
    → Option (ActuationRequest F) × InspectionRule
update id identity e now r =
    let q = decide e now r in
    (
      if q.last_decision.accepted && not e.passed
          then some (rejection_of id identity e now r)
          else none,
      q,
    )
