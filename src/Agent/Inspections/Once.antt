-- ===== src/Agent/Inspections/Once.antt =====
-- inspection.py, InspectionRule: an inspection is taken once.
use zilina_eirvah_edge_impl.Prelude.{
  ℕ, ◌+◌, ◌≤◌, ◌<◌, ◌≡◌, refl, ap, ◌∙◌, String, Bool, true, false, ◌&&◌, ◌||◌, Option, none, some,
  List, [], ◌∷◌, ◌==◌, leb, arith, is_some, All, Bool-cases, inl, inr,
}
use native.Mathlib.Decide.{dec_le}
use zilina_eirvah_edge_impl.Contracts.Inspection.{BottleInspection}
use zilina_eirvah_edge_impl.Agent.Inspections.{
  Entry, Head, InspectionRule, find, put, since, horizon, head_of, gap_of, is_late, admit, by_head,
  by_previous, prune, decide, update,
}

module _ {A : Type 0} where
  -- An entry under two numbers, kept since `t` or later
  abbrev pub holds : ℕ → ℕ → ℕ → List (Entry A) → Bool
  holds s k t [] = false
  holds s k t (e ∷ d) = ((e.session == s && e.key == k) && leb t e.kept_at) || holds s k t d

  find-holds : (s k t : ℕ) (d : List (Entry A)) → holds s k t d ≡ true → is_some (find s k d) ≡ true
  find-holds s k t [] h = absurd (cc h)
  find-holds s k t (e ∷ d) h = ground (arith, h, find-holds s k t d)

  holds-since :
      (s k t now age : ℕ) (d : List (Entry A))
      → now ≤ t + age
      → holds s k t d ≡ true
      → holds s k t (since now age d) ≡ true
  holds-since s k t now age [] h e = e
  holds-since s k t now age (x ∷ d) h e = ground (arith, h, e, holds-since s k t now age d h)

  holds-put :
      (s k t : ℕ) (new : Entry A) (d : List (Entry A))
      → is_some (find new.session new.key d) ≡ false
      → holds s k t d ≡ true
      → holds s k t (put new d) ≡ true
  holds-put s k t new [] h e = absurd (cc e)
  holds-put s k t new (x ∷ d) h e = ground (arith, h, e, holds-put s k t new d)

  holds-new :
      (new : Entry A) (d : List (Entry A))
      → is_some (find new.session new.key d) ≡ false
      → holds new.session new.key new.kept_at (put new d) ≡ true
  holds-new new [] h = ground arith
  holds-new new (x ∷ d) h = ground (arith, h, holds-new new d)

-- The entry of an inspection, kept since `t` or later
abbrev Remembers : ℕ → ℕ → ℕ → InspectionRule → Type 0
Remembers s k t r = holds s k t r.seen ≡ true

admit-Remembers :
    (s k t : ℕ) (e : BottleInspection) (now gap : ℕ) (late : Bool) (r : InspectionRule)
    → is_some (find e.session e.sequence r.seen) ≡ false
    → Remembers s k t r
    → Remembers s k t (admit e now gap late r)
admit-Remembers s k t e now gap late r n h =
    let new : Entry BottleInspection = record {
      session = e.session;
      key = e.sequence;
      kept_at = now;
      item = e;
    } in
    ground (arith, h, holds-put s k t new r.seen n h)

by_head-Remembers :
    (s k t : ℕ) (head : Option Head) (e : BottleInspection) (now : ℕ) (r : InspectionRule)
    → is_some (find e.session e.sequence r.seen) ≡ false
    → Remembers s k t r
    → Remembers s k t (by_head head e now r)
by_head-Remembers s k t head e now r n h =
    let q : InspectionRule = record r {
      heads =
          put (record { session = e.session; key = 0; kept_at = now; item = head_of head e })
            r.heads;
    } in
    ground (
      arith,
      h,
      admit-Remembers s k t e now (gap_of head e.sequence) (is_late head e.sequence) q n h,
    )

by_previous-Remembers :
    (s k t : ℕ) (o : Option BottleInspection) (e : BottleInspection) (now : ℕ) (r : InspectionRule)
    → find e.session e.sequence r.seen ≡ o
    → Remembers s k t r
    → Remembers s k t (by_previous o e now r)
by_previous-Remembers s k t (some old) e now r f h = h
by_previous-Remembers s k t none e now r f h =
    by_head-Remembers s k t (find e.session 0 r.heads) e now r (ap is_some f) h

-- Any update within the horizon of an entry keeps it.
decide-Remembers :
    (s k t : ℕ) (e : BottleInspection) (now : ℕ) (r : InspectionRule)
    → now ≤ t + horizon r
    → Remembers s k t r
    → Remembers s k t (decide e now r)
unfolding decide
decide-Remembers s k t e now r small h =
    let kept = holds-since s k t now (horizon r) r.seen small h in
    ground (
      arith,
      h,
      kept,
      by_previous-Remembers s k t (find e.session e.sequence (since now (horizon r) r.seen)) e now
          (prune now r) refl kept,
    )

-- The second time, an inspection is refused.
refused_again :
    (e : BottleInspection) (t now : ℕ) (r : InspectionRule)
    → now ≤ t + horizon r
    → Remembers e.session e.sequence t r
    → (decide e now r).last_decision.accepted ≡ false
unfolding decide
refused_again e t now r small h =
    let kept = holds-since e.session e.sequence t now (horizon r) r.seen small h in
    let known = find-holds e.session e.sequence t (since now (horizon r) r.seen) kept in
    ground (
      arith,
      by_previous-refuses (find e.session e.sequence (since now (horizon r) r.seen)) e now
          (prune now r) known,
    )
  where
    by_previous-refuses :
        (o : Option BottleInspection) (e : BottleInspection) (now : ℕ) (r : InspectionRule)
        → is_some o ≡ true
        → (by_previous o e now r).last_decision.accepted ≡ false
    by_previous-refuses none e now r h = absurd (cc h)
    by_previous-refuses (some old) e now r h = refl

by_previous-accepts :
    (o : Option BottleInspection) (e : BottleInspection) (now : ℕ) (r : InspectionRule)
    → find e.session e.sequence r.seen ≡ o
    → (by_previous o e now r).last_decision.accepted ≡ true
    → Remembers e.session e.sequence now (by_previous o e now r)
by_previous-accepts (some old) e now r f h = absurd (cc h)
by_previous-accepts none e now r f h =
    let new : Entry BottleInspection = record {
      session = e.session;
      key = e.sequence;
      kept_at = now;
      item = e;
    } in
    ground (arith, h, holds-new new r.seen (ap is_some f))

-- What is accepted is fresh, and is remembered.
decide-accepts :
    (e : BottleInspection) (now : ℕ) (r : InspectionRule)
    → (decide e now r).last_decision.accepted ≡ true
    → (e.inspected_at ≤ now)
      × (now < e.inspected_at + r.settings.inspection_max_age)
      × Remembers e.session e.sequence now (decide e now r)
unfolding decide
decide-accepts e now r h =
    let o = find e.session e.sequence (since now (horizon r) r.seen) in
    let f = by_previous-accepts o e now (prune now r) refl in
    (ground (arith, h), ground (arith, h), ground (arith, h, f))

settings-decide :
    (e : BottleInspection) (now : ℕ) (r : InspectionRule) → (decide e now r).settings ≡ r.settings
unfolding decide
settings-decide e now r =
    let o = find e.session e.sequence (since now (horizon r) r.seen) in
    ground (arith, by_previous-settings o)
  where
    by_previous-settings :
        (o : Option BottleInspection) → (by_previous o e now (prune now r)).settings ≡ r.settings
    by_previous-settings none = ground arith
    by_previous-settings (some old) = refl

-- Updates, one after another, each with its time
unfoldable pub run : List (BottleInspection × ℕ) → InspectionRule → InspectionRule
run [] r = r
run ((e, now) ∷ us) r = run us (decide e now r)

settings-run :
    (us : List (BottleInspection × ℕ)) (r : InspectionRule) → (run us r).settings ≡ r.settings
unfolding run
settings-run [] r = refl
settings-run ((e, now) ∷ us) r = settings-run us (decide e now r) ∙ settings-decide e now r

run-Remembers :
    (s k t bound : ℕ) (us : List (BottleInspection × ℕ)) (r : InspectionRule)
    → All (λ u. u.1 ≤ bound) us
    → bound ≤ t + horizon r
    → Remembers s k t r
    → Remembers s k t (run us r)
unfolding run
run-Remembers s k t bound [] r a b h = h
run-Remembers s k t bound ((e, now) ∷ us) r (a, rest) b h =
    let age = ap (λ x. x.inspection_max_age) (settings-decide e now r) in
    run-Remembers s k t bound us (decide e now r) rest (omega (arith, b, age))
      (decide-Remembers s k t e now r (omega (arith, a, b)) h)

-- An inspection that the rule accepted is never accepted again, and asks for no second rejection: not
-- at any later time `now`, and whatever other inspections came in between, at times up to `now`.
pub accepted_once :
    {F : Type 0} (id : ℕ) (identity : ℕ → ℕ → String) (e : BottleInspection) (first now : ℕ)
    (us : List (BottleInspection × ℕ)) (r : InspectionRule)
    → (decide e first r).last_decision.accepted ≡ true
    → All (λ u. u.1 ≤ now) us
    → let q = run us (decide e first r) in
      ((decide e now q).last_decision.accepted ≡ false)
      × ((update {F = F} id identity e now q).0 ≡ none)
unfolding update
accepted_once {F = F} id identity e first now us r h a =
    let (early, late, m) = decide-accepts e first r h in
    let q0 = decide e first r in
    let q = run us q0 in
    let age = ap (λ x. x.inspection_max_age) (settings-run us q0 ∙ settings-decide e first r) in
    let age0 = ap (λ x. x.inspection_max_age) (settings-decide e first r) in
    let no : (decide e now q).last_decision.accepted ≡ false =
      elim (dec_le now (first + horizon q0)) [
        | yes inside ↦
            let n = run-Remembers e.session e.sequence first now us q0 a inside m in
            refused_again e first now q (omega (arith, inside, age, age0)) n
        | no outside ↦ elim (Bool-cases (decide e now q).last_decision.accepted) [
          | inr refused ↦ refused
          | inl again ↦
              let (_, fresh, _) = decide-accepts e now q again in
              absurd (omega (arith, outside, fresh, early, age, age0))
        ]
      ] in
    (no, ground (arith, no))
