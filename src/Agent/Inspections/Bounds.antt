-- ===== src/Agent/Inspections/Bounds.antt =====
-- inspection.py, InspectionRule: the memory is bounded.
use zilina_eirvah_edge_impl.Prelude.{
  if◌then◌else◌, ℕ, ◌+◌, ◌≤◌, ◌≡◌, refl, sym, ap, ◌∙◌, ◌++◌, ltb, if_holds, Bool, true, false, not,
  ◌&&◌, Option, none, some, List, [], ◌∷◌, ◌==◌, leb, arith, length, is_some, Bool-cases, inl, inr,
}
use zilina_eirvah_edge_impl.Contracts.Inspection.{BottleInspection}
use zilina_eirvah_edge_impl.Agent.Inspections.{
  Entry, Head, Decision, InspectionRule, is_regression, find, put, since, horizon, head_of, gap_of,
  is_late, admit, by_head, by_previous, prune, decide,
}

-- The times under which entries are kept
abbrev pub times : {A : Type 0} → List (Entry A) → List ℕ
times [] = []
times (e ∷ d) = e.kept_at ∷ times d

-- The memory of the rule: at most `capacity` inspections, as many bottles, each kept with an inspection,
-- and as many sessions
pub record Bounded (r : InspectionRule) : Type 0 where
  pub seen : length r.seen ≤ r.capacity
  pub bottles : length r.bottles ≤ r.capacity
  pub paired : times r.bottles ≡ times r.seen
  pub heads : length r.heads ≤ r.capacity

abbrev times_since : ℕ → ℕ → List ℕ → List ℕ
times_since now age [] = []
times_since now age (t ∷ ts) =
    let rest = times_since now age ts in if leb now (t + age) then t ∷ rest else rest

module _ {A : Type 0} where
  length-since : (now age : ℕ) (d : List (Entry A)) → length (since now age d) ≤ length d
  length-since now age [] = omega arith
  length-since now age (e ∷ d) = ground (arith, length-since now age d)

  length-put : (new : Entry A) (d : List (Entry A)) → length (put new d) ≤ length d + 1
  length-put new [] = omega arith
  length-put new (e ∷ d) = ground (arith, length-put new d)

  length-put_known :
      (new : Entry A) (d : List (Entry A))
      → is_some (find new.session new.key d) ≡ true
      → length (put new d) ≡ length d
  length-put_known new [] h = absurd (cc h)
  length-put_known new (e ∷ d) h = ground (arith, h, length-put_known new d)

module _ {A : Type 0} where
  length-times : (d : List (Entry A)) → length (times d) ≡ length d
  length-times [] = refl
  length-times (e ∷ d) = omega (arith, length-times d)

  times-since :
      (now age : ℕ) (d : List (Entry A)) → times (since now age d) ≡ times_since now age (times d)
  times-since now age [] = refl
  times-since now age (e ∷ d) = ground (arith, times-since now age d)

  times-put :
      (new : Entry A) (d : List (Entry A))
      → is_some (find new.session new.key d) ≡ false
      → times (put new d) ≡ times d ++ new.kept_at ∷ []
  times-put new [] h = refl
  times-put new (e ∷ d) h = ground (arith, h, times-put new d)

-- As many bottles as inspections, when they are kept under the same times
length-paired :
    {A B : Type 0} (d : List (Entry A)) (c : List (Entry B))
    → times c ≡ times d
    → length c ≡ length d
length-paired d c h = sym (length-times c) ∙ ap length h ∙ length-times d

-- A decision alone leaves the memory as it is.
kept : {d : Decision} (r : InspectionRule) → Bounded r → Bounded (record r { last_decision = d })
kept r b = record { seen = b.seen; bottles = b.bottles; paired = b.paired; heads = b.heads }

admit-Bounded :
    (e : BottleInspection) (now gap : ℕ) (late : Bool) (r : InspectionRule)
    → is_some (find e.session e.sequence r.seen) ≡ false
    → Bounded r
    → Bounded (admit e now gap late r)
admit-Bounded e now gap late r fresh b =
    let new : Entry BottleInspection = record {
      session = e.session;
      key = e.sequence;
      kept_at = now;
      item = e;
    } in
    let bottle : Entry (Unit {0}) = record {
      session = e.session;
      key = e.bottle_id;
      kept_at = now;
      item = tt;
    } in
    elim (Bool-cases (is_some (find e.session e.bottle_id r.bottles))) [
      | inl known ↦ rw known (kept r b)
      | inr unknown ↦ elim (Bool-cases (leb r.capacity (length r.seen))) [
        | inl full ↦ rw (unknown, full) (kept r b)
        | inr room ↦
            let paired : times (put bottle r.bottles) ≡ times (put new r.seen) =
              times-put bottle r.bottles unknown
              ∙ ap (λ l. l ++ now ∷ []) b.paired
              ∙ sym (times-put new r.seen fresh) in
            let few : length (put new r.seen) ≤ r.capacity =
              ground (arith, room, length-put new r.seen) in
            rw (unknown, room)
              (record {
                seen = few;
                bottles =
                    omega
                      (arith, few, length-paired (put new r.seen) (put bottle r.bottles) paired);
                paired = paired;
                heads = b.heads;
              })
      ]
    ]

by_head-Bounded :
    (head : Option Head) (e : BottleInspection) (now : ℕ) (r : InspectionRule)
    → find e.session 0 r.heads ≡ head
    → is_some (find e.session e.sequence r.seen) ≡ false
    → Bounded r
    → Bounded (by_head head e now r)
by_head-Bounded head e now r f fresh b =
    let new : Entry Head = record {
      session = e.session;
      key = 0;
      kept_at = now;
      item = head_of head e;
    } in
    let q : InspectionRule = record r { heads = put new r.heads } in
    elim (Bool-cases (is_regression head e)) [
      | inl regression ↦ rw regression (kept r b)
      | inr w ↦ elim (Bool-cases (not (is_some head) && leb r.capacity (length r.heads))) [
        | inl refused ↦ rw (w, refused) (kept r b)
        | inr room ↦
            let known : is_some head ≡ true → length (put new r.heads) ≡ length r.heads =
              λ k. length-put_known new r.heads (ap is_some f ∙ k) in
            let full : length (put new r.heads) ≤ r.capacity =
              ground (arith, room, b.heads, length-put new r.heads, known) in
            rw (w, room)
              (admit-Bounded e now (gap_of head e.sequence) (is_late head e.sequence) q fresh
                (record { seen = b.seen; bottles = b.bottles; paired = b.paired; heads = full }))
      ]
    ]

by_previous-Bounded :
    (o : Option BottleInspection) (e : BottleInspection) (now : ℕ) (r : InspectionRule)
    → find e.session e.sequence r.seen ≡ o
    → Bounded r
    → Bounded (by_previous o e now r)
by_previous-Bounded (some old) e now r f b = kept r b
by_previous-Bounded none e now r f b =
    by_head-Bounded (find e.session 0 r.heads) e now r refl (ap is_some f) b

prune-Bounded : (now : ℕ) (r : InspectionRule) → Bounded r → Bounded (prune now r)
prune-Bounded now r b =
    let paired : times (since now (horizon r) r.bottles) ≡ times (since now (horizon r) r.seen) =
      times-since now (horizon r) r.bottles
      ∙ ap (times_since now (horizon r)) b.paired
      ∙ sym (times-since now (horizon r) r.seen) in
    record {
      seen = omega (arith, b.seen, length-since now (horizon r) r.seen);
      bottles = omega (arith, b.bottles, length-since now (horizon r) r.bottles);
      paired = paired;
      heads = omega (arith, b.heads, length-since now (horizon r) r.heads);
    }

-- The memory of the rule (the inspections, the bottles and the sessions) stays within its capacity, with
-- each bottle kept as long as its inspection, at an update with whatever inspection and time.
pub decide-Bounded :
    (e : BottleInspection) (now : ℕ) (r : InspectionRule) → Bounded r → Bounded (decide e now r)
unfolding decide
decide-Bounded e now r b =
    let o = find e.session e.sequence (since now (horizon r) r.seen) in
    if_holds Bounded (not r.settings.inspection_enabled) _ _ (kept r b) (
      if_holds Bounded (ltb now e.inspected_at) _ _ (kept r b) (
        if_holds Bounded (not (ltb now (e.inspected_at + r.settings.inspection_max_age))) _ _
          (kept r b)
          (if_holds Bounded (e.sequence == 0) _ _ (kept (prune now r) (prune-Bounded now r b))
            (by_previous-Bounded o e now (prune now r) refl (prune-Bounded now r b)))))
