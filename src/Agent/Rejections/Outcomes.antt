-- ===== src/Agent/Rejections/Outcomes.antt =====
-- inspection.py, RejectionTracker: each rejection leaves with one outcome, and a confirmed one with its
-- evidence.
use zilina_eirvah_edge_impl.Prelude.{
  ℕ, ◌+◌, ◌≤◌, ◌<◌, ◌≡◌, refl, Bool, true, Option, none, some, List, [], ◌∷◌, arith, length,
  length-append, All, All-append, Bool-cases, if_holds, ◌⊎◌, inl, inr,
}
use zilina_eirvah_edge_impl.Sql.{delete, update, select}
use zilina_eirvah_edge_impl.Agent.Rejections.{
  PendingRejection, Verdict, Outcome, Feedback, Tracker, Kind, Decision, id_of, has_id, is_expired,
  outcomes_of, leave, expire, is_confirmed, confirm_by, confirm, after, acknowledge, by_decision,
  answered, result, observe, feedback,
}

-- As many rejections have left as there are outcomes.
abbrev pub Balanced : Tracker → List Outcome × Tracker → Type 0
Balanced t (outcomes, t') = length outcomes + length t'.pending ≡ length t.pending

leave_length :
    (test : PendingRejection → Bool) (v : Verdict) (rows : List PendingRejection)
    → length (outcomes_of test v rows) + length (delete test rows) ≡ length rows
leave_length test v [] = refl
leave_length test v (p ∷ rows) = ground (arith, leave_length test v rows)

length-update :
    (test : PendingRejection → Bool) (f : PendingRejection → PendingRejection)
    (rows : List PendingRejection)
    → length (update test f rows) ≡ length rows
length-update test f [] = refl
length-update test f (p ∷ rows) = ground (arith, length-update test f rows)

confirm_by-Balanced : (b c : Option Feedback) (t : Tracker) → Balanced t (confirm_by b c t)
confirm_by-Balanced none c t = omega arith
confirm_by-Balanced (some b) none t = omega arith
confirm_by-Balanced (some b) (some c) t =
    leave_length (is_confirmed b c) Verdict.confirmed t.pending

confirm-Balanced : (t : Tracker) → Balanced t (confirm t)
unfolding confirm
confirm-Balanced t = confirm_by-Balanced t.bottle t.count t

append-Balanced :
    (t t' : Tracker) (outcomes : List Outcome) (x : List Outcome × Tracker)
    → length outcomes + length t'.pending ≡ length t.pending
    → Balanced t' x
    → Balanced t (after outcomes x)
append-Balanced t t' outcomes (more, t'') h k = omega (arith, length-append outcomes more, h, k)

by_decision-Balanced :
    (key : ℕ) (d : Decision) (written_at : Option ℕ) (t : Tracker)
    → Balanced t (by_decision key d written_at t)
by_decision-Balanced key Decision.pending written_at t = omega arith
by_decision-Balanced key Decision.unknown written_at t =
    let t' = (leave (has_id key) Verdict.unknown t).1 in
    append-Balanced t t' (outcomes_of (has_id key) Verdict.unknown t.pending) (confirm t')
      (leave_length (has_id key) Verdict.unknown t.pending) (confirm-Balanced t')
by_decision-Balanced key Decision.other written_at t =
    let t' = (leave (has_id key) Verdict.not_confirmed t).1 in
    append-Balanced t t' (outcomes_of (has_id key) Verdict.not_confirmed t.pending) (confirm t')
      (leave_length (has_id key) Verdict.not_confirmed t.pending) (confirm-Balanced t')
by_decision-Balanced key Decision.approve none t =
    let t' = (leave (has_id key) Verdict.not_confirmed t).1 in
    append-Balanced t t' (outcomes_of (has_id key) Verdict.not_confirmed t.pending) (confirm t')
      (leave_length (has_id key) Verdict.not_confirmed t.pending) (confirm-Balanced t')
by_decision-Balanced key Decision.approve (some at) t =
    let t' : Tracker = record t { pending = update (has_id key) acknowledge t.pending } in
    append-Balanced t t' [] (confirm t')
      (omega (arith, length-update (has_id key) acknowledge t.pending)) (confirm-Balanced t')

answered-Balanced :
    (o : Option PendingRejection) (key : ℕ) (d : Decision) (written_at : Option ℕ) (t : Tracker)
    → Balanced t (answered o key d written_at t)
answered-Balanced none key d written_at t = omega arith
answered-Balanced (some p) key d written_at t = by_decision-Balanced key d written_at t

-- Whatever answer comes for whatever request, and whenever, the outcomes that are given are as many as
-- the rejections that leave the tracker.
pub result-Balanced :
    (key : ℕ) (d : Decision) (written_at : Option ℕ) (now : ℕ) (t : Tracker)
    → Balanced t (result key d written_at now t)
unfolding result expire
result-Balanced key d written_at now t =
    let t' = (leave (is_expired now) Verdict.unknown t).1 in
    append-Balanced t t' (outcomes_of (is_expired now) Verdict.unknown t.pending)
      (answered (select id_of key t'.pending) key d written_at t')
      (leave_length (is_expired now) Verdict.unknown t.pending)
      (answered-Balanced (select id_of key t'.pending) key d written_at t')

-- One of the entries
abbrev pub Among : PendingRejection → List PendingRejection → Type 0
Among p [] = ⊥
Among p (q ∷ rows) = (p ≡ q) ⊎ Among p rows

-- What stands behind an outcome that says that the bottle was rejected: one of the entries `pending`.
pub record Evidence (pending : List PendingRejection) (bottle count : Option Feedback) (o : Outcome)
    : Type 0 where
  pub entry : PendingRejection
  pub awaited : Among entry pending
  pub of_entry : entry.inspection_id ≡ o.inspection_id
  pub acknowledged : entry.acknowledged ≡ true
  pub last_bottle : Feedback
  pub last_count : Feedback
  pub from_bottle : bottle ≡ some last_bottle
  pub from_count : count ≡ some last_count
  pub same_bottle : last_bottle.value ≡ entry.bottle_id
  pub counted : entry.baseline_count < last_count.value
  pub bottle_after : entry.requested_at ≤ last_bottle.observed_at
  pub count_after : entry.requested_at ≤ last_count.observed_at

abbrev pub Proven : List PendingRejection → Option Feedback → Option Feedback → Outcome → Type 0
Proven pending bottle count o = o.verdict ≡ Verdict.confirmed → Evidence pending bottle count o

Among-delete :
    (p : PendingRejection) (test : PendingRejection → Bool) (rows : List PendingRejection)
    → Among p (delete test rows)
    → Among p rows
Among-delete p test [] h = h
Among-delete p test (q ∷ rows) h =
    if_holds (λ l. Among p l → Among p (q ∷ rows)) (test q) (delete test rows)
      (q ∷ delete test rows) (λ k. inr (Among-delete p test rows k))
      (λ k. elim k [ inl e ↦ inl e | inr m ↦ inr (Among-delete p test rows m) ]) h

module _ (pending : List PendingRejection) where
  unknown-Proven :
      (bottle count : Option Feedback) (test : PendingRejection → Bool)
      (rows : List PendingRejection)
      → All (Proven pending bottle count) (outcomes_of test Verdict.unknown rows)
  unknown-Proven bottle count test [] = tt
  unknown-Proven bottle count test (p ∷ rows) = elim (Bool-cases (test p)) [
    | inl here ↦ rw here (λ e. absurd (cc e), unknown-Proven bottle count test rows)
    | inr later ↦ rw later (unknown-Proven bottle count test rows)
  ]

  confirmed-Proven :
      (b c : Feedback) (rows : List PendingRejection)
      → ((p : PendingRejection) → Among p rows → Among p pending)
      → All
          (Proven pending (some b) (some c))
          (outcomes_of (is_confirmed b c) Verdict.confirmed rows)
  confirmed-Proven b c [] within = tt
  confirmed-Proven b c (p ∷ rows) within =
      let others = confirmed-Proven b c rows (λ q h. within q (inr h)) in
      elim (Bool-cases (is_confirmed b c p)) [
        | inl here ↦ rw here (
          λ e. record {
            entry = p;
            awaited = within p (inl refl);
            of_entry = refl;
            acknowledged = ground (arith, here);
            last_bottle = b;
            last_count = c;
            from_bottle = refl;
            from_count = refl;
            same_bottle = ground (arith, here);
            counted = ground (arith, here);
            bottle_after = ground (arith, here);
            count_after = ground (arith, here);
          },
          others,
        )
        | inr later ↦ rw later others
      ]

  confirm_by-Proven :
      (b c : Option Feedback) (t : Tracker)
      → ((p : PendingRejection) → Among p t.pending → Among p pending)
      → All (Proven pending b c) (confirm_by b c t).0
  confirm_by-Proven none c t within = tt
  confirm_by-Proven (some b) none t within = tt
  confirm_by-Proven (some b) (some c) t within = confirmed-Proven b c t.pending within

-- When feedback comes, each outcome that says that a bottle was rejected is that of a rejection that
-- was pending in the tracker and that the writer has acknowledged, the last bottle that the device
-- reported is its bottle, the last count is above the one before the request, and both were observed
-- at the request or later.
pub feedback-Proven :
    (kind : Kind) (f : Feedback) (now : ℕ) (t : Tracker)
    → All
        (Proven t.pending (observe kind f t).bottle (observe kind f t).count)
        (feedback kind f now t).0
unfolding feedback expire confirm
feedback-Proven Kind.bottle_kind f now t =
    let u = observe Kind.bottle_kind f (leave (is_expired now) Verdict.unknown t).1 in
    All-append _ _ _ (unknown-Proven t.pending u.bottle u.count (is_expired now) t.pending) (
      confirm_by-Proven t.pending u.bottle u.count u
        (λ p. Among-delete p (is_expired now) t.pending))
feedback-Proven Kind.count_kind f now t =
    let u = observe Kind.count_kind f (leave (is_expired now) Verdict.unknown t).1 in
    All-append _ _ _ (unknown-Proven t.pending u.bottle u.count (is_expired now) t.pending) (
      confirm_by-Proven t.pending u.bottle u.count u
        (λ p. Among-delete p (is_expired now) t.pending))
