-- ===== src/Agent/Mode.antt =====
-- decision-agent-stub, service.py: ProductionModeRule, which follows the speed of the conveyor with two
-- setpoints. An instant is a number of seconds with whether it is aware; a speed that is no number is
-- `none`; the numbers 0 and 0.8 are parameters, as all floating-point numbers are.
use zilina_eirvah_edge_impl.Prelude.{
  ℕ, ◌+◌, ◌≤◌, arith, ◌≡◌, ◌⊎◌, sym, refl, String, Bool, true, false, not, ◌&&◌, ◌||◌, Option, none,
  some, List, [], ◌∷◌, ltb, leb, if◌then◌else◌, Bool-cases, inl, inr,
}
use zilina_eirvah_edge_impl.Prelude.Numbers.{Floats, double}
use zilina_eirvah_edge_impl.Contracts.Actuation.{ActuationRequest, SignalValueType, Datetime}
use zilina_eirvah_edge_impl.Contracts.Telemetry.{Quality}
use zilina_eirvah_edge_impl.Agent.State.{is_good}

pub data Mode : Type 0 where
  high normal : Mode

abbrev pub is_mode : Mode → Option Mode → Bool
is_mode m none = false
is_mode Mode.high (some Mode.high) = true
is_mode Mode.high (some Mode.normal) = false
is_mode Mode.normal (some Mode.high) = false
is_mode Mode.normal (some Mode.normal) = true

pub record Settings (F : Type 0) : Type 0 where
  pub enabled : Bool
  pub max_observation_age : ℕ
  pub high_speed_min : F
  pub normal_speed_max : F
  pub high_setpoint : F
  pub normal_setpoint : F
  pub target_uns_topic : String
  -- 0 and 0.8
  pub zero_speed : F
  pub top_speed : F

-- ProductionModeRule: `_last_mode` and `_latest_at`
pub record ModeRule : Type 0 where
  pub last_mode : Option Mode
  pub latest_at : Option ℕ

abbrev pub is_before : ℕ → Option ℕ → Bool
is_before at none = false
is_before at (some latest) = ltb at latest

module _ (floats : Floats) (settings : Settings floats.Float) where
  open floats use {Float, le, is_finite}

  -- The mode of a speed; between the bands there is none.
  abbrev pub mode_of : Float → Option Mode
  mode_of speed =
      if le settings.high_speed_min speed
      then some Mode.high
      else if le speed settings.normal_speed_max
      then some Mode.normal
      else none

  abbrev pub select_mode : Option Mode → ModeRule → Option Mode × ModeRule
  select_mode none r = (none, r)
  select_mode (some m) r =
      if is_mode m r.last_mode then (none, r) else (some m, record r { last_mode = some m })

  abbrev pub is_speed : Option Float → Bool
  is_speed none = false
  is_speed (some x) = is_finite x && (le settings.zero_speed x && le x settings.top_speed)

  abbrev pub by_speed : Option Float → ℕ → ModeRule → Option Mode × ModeRule
  by_speed none at r = (none, r)
  by_speed (some x) at r = select_mode (mode_of x) (record r { latest_at = some at })

  -- The guards, each of which returns None
  abbrev pub is_skipped : Option Float → Datetime → Datetime → Quality → ModeRule → Bool
  is_skipped speed observed_at now quality r =
      (not settings.enabled || not (is_good quality))
      || (not (is_speed speed)
          || ((not observed_at.aware || not now.aware)
              || (not (
                    leb observed_at.at now.at
                    && leb now.at (observed_at.at + settings.max_observation_age))
                  || is_before observed_at.at r.latest_at)))

  -- The mode that is asked for
  unfoldable pub choose_mode :
      Option Float → Datetime → Datetime → Quality → ModeRule → Option Mode × ModeRule
  choose_mode speed observed_at now quality r =
      if is_skipped speed observed_at now quality r
      then (none, r)
      else by_speed speed observed_at.at r

  abbrev pub setpoint_of : Mode → Float
  setpoint_of Mode.high = settings.high_setpoint
  setpoint_of Mode.normal = settings.normal_setpoint

  abbrev pub request_for : ℕ → String → Datetime → Option Mode → Option (ActuationRequest Float)
  request_for id reason now none = none
  request_for id reason now (some m) = some (record {
    correlation_id = id;
    requester = "decision-agent-stub";
    target_uns_topic = settings.target_uns_topic;
    requested_value = double (setpoint_of m);
    value_type = SignalValueType.double_type;
    reason = reason;
    requested_at = now;
    extra = [];
    deadline = some (record now { at = now.at + 10 });
  })

  -- ProductionModeRule.update, with a new identifier and the text of the reason
  unfoldable pub update_mode :
      ℕ
      → String
      → Option Float
      → Datetime
      → Datetime
      → Quality
      → ModeRule
      → Option (ActuationRequest Float) × ModeRule
  update_mode id reason speed observed_at now quality r =
      let (m, q) = choose_mode speed observed_at now quality r in (request_for id reason now m, q)

  -- An observation, with the identifier and the reason of a request
  pub record Seen : Type 0 where
    pub id : ℕ
    pub reason : String
    pub speed : Option Float
    pub observed_at : Datetime
    pub now : Datetime
    pub quality : Quality

  -- A request with its observation
  abbrev pub Asked : Type 0
  Asked = Seen × ActuationRequest Float

  abbrev pub extend : Seen → Option (ActuationRequest Float) → List Asked → List Asked
  extend s none ms = ms
  extend s (some req) ms = (s, req) ∷ ms

  -- The requests that a sequence of observations makes, in order, each with its observation
  unfoldable pub asked : List Seen → ModeRule → List Asked
  asked [] r = []
  asked (s ∷ ss) r =
      let (m, q) = update_mode s.id s.reason s.speed s.observed_at s.now s.quality r in
      extend s m (asked ss q)

  -- The speed lies in the band of a mode.
  abbrev pub InBand : Mode → Float → Type 0
  InBand Mode.high x = le settings.high_speed_min x ≡ true
  InBand Mode.normal x =
      (le settings.high_speed_min x ≡ false) × (le x settings.normal_speed_max ≡ true)

  -- The observation calls for a mode: its speed is in the mode's band, it is good and recent.
  pub record CallsFor (m : Mode) (s : Seen) : Type 0 where
    pub enabled : settings.enabled ≡ true
    pub good : is_good s.quality ≡ true
    pub measured : Float
    pub speed_is : s.speed ≡ some measured
    pub in_band : InBand m measured
    pub not_future : s.observed_at.at ≤ s.now.at
    pub recent : s.now.at ≤ s.observed_at.at + settings.max_observation_age

  abbrev pub SetpointIs : Mode → ActuationRequest Float → Type 0
  SetpointIs Mode.high req = req.requested_value ≡ double settings.high_setpoint
  SetpointIs Mode.normal req = req.requested_value ≡ double settings.normal_setpoint

  -- A request to the rule's target for the setpoint of a mode, which the observation calls for
  pub record AsksFor (m : Mode) (s : Seen) (req : ActuationRequest Float) : Type 0 where
    pub called : CallsFor m s
    pub setpoint : SetpointIs m req
    pub target : req.target_uns_topic ≡ settings.target_uns_topic
    pub identified : req.correlation_id ≡ s.id
    pub requested : req.requested_at ≡ s.now

  -- Each request is for the setpoint of another mode than that of the request before it.
  abbrev pub Alternates : Option Mode → List Asked → Type 0
  Alternates last [] = Unit {0}
  Alternates last ((s, req) ∷ reqs) =
      (m : Mode) × (is_mode m last ≡ false) × AsksFor m s req × Alternates (some m) reqs

  -- A choice asks for nothing and leaves the last mode, or asks for another mode.
  abbrev Turns : (Mode → Type 0) → ModeRule → Option Mode × ModeRule → Type 0
  Turns P r (m, q) =
      ((m ≡ none) × (q.last_mode ≡ r.last_mode))
      ⊎ ((k : Mode) × (m ≡ some k) × (q.last_mode ≡ some k) × (is_mode k r.last_mode ≡ false) × P k)

  select_mode-Turns :
      (P : Mode → Type 0) (m : Option Mode) (r : ModeRule)
      → ((k : Mode) → m ≡ some k → P k)
      → Turns P r (select_mode m r)
  select_mode-Turns P none r h = inl (refl, refl)
  select_mode-Turns P (some m) r h = elim (Bool-cases (is_mode m r.last_mode)) [
    | inl same ↦ rw same (inl (refl, refl))
    | inr other ↦ rw other (inr (m, refl, refl, other, h m refl))
  ]

  mode_of-InBand : (x : Float) (k : Mode) → mode_of x ≡ some k → InBand k x
  mode_of-InBand x Mode.high h = ground (arith, h)
  mode_of-InBand x Mode.normal h = (ground (arith, h), ground (arith, h))

  by_speed-Turns :
      (P : Mode → Type 0) (speed : Option Float) (at : ℕ) (r : ModeRule)
      → ((k : Mode) (x : Float) → speed ≡ some x → InBand k x → P k)
      → Turns P r (by_speed speed at r)
  by_speed-Turns P none at r h = inl (refl, refl)
  by_speed-Turns P (some x) at r h =
      select_mode-Turns P (mode_of x) _ (λ k e. h k x refl (mode_of-InBand x k e))

  choose_mode-Turns :
      (s : Seen) (r : ModeRule)
      → Turns (λ m. CallsFor m s) r (choose_mode s.speed s.observed_at s.now s.quality r)
  unfolding choose_mode
  choose_mode-Turns s r = elim (Bool-cases (is_skipped s.speed s.observed_at s.now s.quality r)) [
    | inl skipped ↦ rw skipped (inl (refl, refl))
    | inr taken ↦ rw taken (
        by_speed-Turns (λ m. CallsFor m s) s.speed s.observed_at.at r
          (λ k x e b. record {
            enabled = ground (arith, taken);
            good = ground (arith, taken);
            measured = x;
            speed_is = e;
            in_band = b;
            not_future = ground (arith, taken);
            recent = ground (arith, taken);
          }))
  ]

  request_for-AsksFor :
      (s : Seen) (m : Mode) (reqs : List Asked) (last : Option Mode)
      → CallsFor m s
      → is_mode m last ≡ false
      → Alternates (some m) reqs
      → Alternates last (extend s (request_for s.id s.reason s.now (some m)) reqs)
  request_for-AsksFor s Mode.high reqs last c g h = (
    Mode.high,
    g,
    record { called = c; setpoint = refl; target = refl; identified = refl; requested = refl },
    h,
  )
  request_for-AsksFor s Mode.normal reqs last c g h = (
    Mode.normal,
    g,
    record { called = c; setpoint = refl; target = refl; identified = refl; requested = refl },
    h,
  )

  -- Whatever is observed, in whatever order and with whatever quality: each request of the rule goes to
  -- its target, for the high setpoint or for the normal one, on a good and recent observation whose
  -- speed is in the band of that setpoint; and no two requests in a row are for the setpoint of the
  -- same mode, nor is the first for that of the mode that the rule had.
  pub asked-Alternates : (ss : List Seen) (r : ModeRule) → Alternates r.last_mode (asked ss r)
  unfolding asked update_mode
  asked-Alternates [] r = tt
  asked-Alternates (s ∷ ss) r =
      let q = (choose_mode s.speed s.observed_at s.now s.quality r).1 in
      step (choose_mode s.speed s.observed_at s.now s.quality r) (choose_mode-Turns s r)
        (asked-Alternates ss q)
    where
      step :
          (c : Option Mode × ModeRule)
          → Turns (λ m. CallsFor m s) r c
          → Alternates c.1.last_mode (asked ss c.1)
          → Alternates r.last_mode (extend s (request_for s.id s.reason s.now c.0) (asked ss c.1))
      step (m, q) (inl (e, f)) h = rw (e, sym f) h
      step (m, q) (inr (k, e, f, g, c)) h =
          rw e (request_for-AsksFor s k (asked ss q) r.last_mode c g (rw (sym f) h))
