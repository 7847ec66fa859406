-- ===== src/Controls/Inspection.antt =====
-- libs/eirvah-controls/src/eirvah_controls/inspection.py: the sampled inspection of bottles. The
-- time is milliseconds since 1970, `int(now.timestamp() * 1000)`, of an aware timestamp.
use zilina_eirvah_edge_impl.Prelude.{
  ℕ, ◌+◌, ◌-◌, ◌*◌, ◌/◌, ◌%◌, ◌^◌, ◌≤◌, ◌<◌, ◌≡◌, sym, ap, ◌∙◌, Bool, not, ◌&&◌, ◌||◌, List, [],
  ◌∷◌, arith, ltb, leb, ◌==◌, if◌then◌else◌,
}
use native.Mathlib.Decide.{dec_lt}
use native.Mathlib.Nat.{
  div-add-mod, mul-add-div, mod-eq_of_lt, div-eq_of_lt, mod_self, div_self, mod-add-mod, mod-lt,
}
use zilina_eirvah_edge_impl.Prelude.Exceptions.{Exc, Result, ok, err}

pub record InspectionStream : Type 0 where
  pub session : ℕ
  pub every_n_bottles : ℕ
  pub fail_every_n_inspections : ℕ
  pub inspected : ℕ
  pub failed : ℕ
  pub bottles : ℕ
  pub sequence : ℕ
  pub snapshot : List ℕ

-- InspectionStream.__post_init__, on the arguments of the constructor
unfoldable pub create : ℕ → ℕ → ℕ → Result InspectionStream
create session every_n_bottles fail_every_n_inspections =
    if not (ltb 0 session && ltb session (2 ^ 64))
    then err (Exc.value_error "inspection session must be a nonzero unsigned 64-bit identity")
    else if ltb every_n_bottles 1 || ltb fail_every_n_inspections 1
    then err (Exc.value_error "inspection intervals must be positive")
    else ok (record {
      session = session;
      every_n_bottles = every_n_bottles;
      fail_every_n_inspections = fail_every_n_inspections;
      inspected = 0;
      failed = 0;
      bottles = 0;
      sequence = 0;
      snapshot = 0 ∷ 0 ∷ 0 ∷ 0 ∷ 0 ∷ 0 ∷ 0 ∷ 0 ∷ 0 ∷ 0 ∷ [];
    })

-- (x >> shift) & 65535
abbrev pub word_at : ℕ → ℕ → ℕ
word_at shift x = x / 2 ^ shift % 65536

abbrev pub snapshot_of : ℕ → ℕ → ℕ → Bool → ℕ → List ℕ
snapshot_of session sequence bottle_id failed timestamp_ms =
    word_at 48 session
    ∷ word_at 32 session
    ∷ word_at 16 session
    ∷ word_at 0 session
    ∷ sequence
    ∷ bottle_id
    ∷ (if failed then 2 else 1)
    ∷ word_at 32 timestamp_ms
    ∷ word_at 16 timestamp_ms
    ∷ word_at 0 timestamp_ms
    ∷ []

-- The next identity: the sequence wraps to 1 in a new session.
abbrev pub advance : InspectionStream → InspectionStream
advance s =
    if ltb 65535 (s.sequence + 1)
    then record s { sequence = 1; session = s.session % (2 ^ 64 - 1) + 1 }
    else record s { sequence = s.sequence + 1 }

-- The inspection of every n-th bottle. What is written before the raise stays written.
abbrev pub inspect : ℕ → ℕ → InspectionStream → InspectionStream × Result (Unit {0})
inspect bottle_id timestamp_ms s =
    let t = advance (record s { inspected = s.inspected + 1 }) in
    let bad = t.inspected % t.fail_every_n_inspections == 0 in
    let u = record t { failed = t.failed + (if bad then 1 else 0) } in
    if not (ltb timestamp_ms (2 ^ 48))
    then (u, err (Exc.value_error "inspection timestamp does not fit the wire representation"))
    else (
      record u { snapshot = snapshot_of u.session u.sequence bottle_id bad timestamp_ms },
      ok tt,
    )

-- InspectionStream.observe
unfoldable pub observe : ℕ → ℕ → InspectionStream → InspectionStream × Result (Unit {0})
observe bottle_id timestamp_ms s =
    if not (leb 1 bottle_id && leb bottle_id 65535)
    then (s, err (Exc.value_error "inspection requires a valid bottle ID and aware timestamp"))
    else (let t = record s { bottles = s.bottles + 1 } in
        if not (t.bottles % t.every_n_bottles == 0)
        then (t, ok tt)
        else inspect bottle_id timestamp_ms t)

-- Identities fit their fields, the counters agree with the sampling intervals, and the published
-- snapshot has ten words.
pub record IsValid (s : InspectionStream) : Type 0 where
  pub nonzero : 0 < s.session
  pub fits : s.session < 2 ^ 64
  pub sequence_fits : s.sequence ≤ 65535
  pub bottle_interval : 0 < s.every_n_bottles
  pub fail_interval : 0 < s.fail_every_n_inspections
  pub sampled : s.inspected ≡ s.bottles / s.every_n_bottles
  pub failures : s.failed ≡ s.inspected / s.fail_every_n_inspections

-- A counter that moves when `n` reaches the next multiple of `k` counts the multiples.
div-suc : (n k : ℕ) → 0 < k → (n + 1) / k ≡ n / k + (if (n + 1) % k == 0 then 1 else 0)
div-suc n k h =
    let m : (n + 1) % k ≡ (n % k + 1) % k = sym (mod-add-mod n k 1) in
    let e : k * (n / k) + (n % k + 1) ≡ n + 1 = omega (arith, div-add-mod n k) in
    let f : (n + 1) / k ≡ n / k + (n % k + 1) / k =
      sym (ap (λ t. t / k) e) ∙ mul-add-div h (n / k) (n % k + 1) in
    elim (dec_lt (n % k + 1) k) [
      | yes below ↦ ground (arith, m, f, mod-eq_of_lt below, div-eq_of_lt below)
      | no above ↦
          let full : n % k + 1 ≡ k = omega (arith, mod-lt n h) in
          ground (
            arith,
            m ∙ ap (λ t. t % k) full ∙ mod_self k,
            f ∙ ap (λ t. n / k + t / k) full,
            div_self h,
          )
    ]

pub create-IsValid :
    (session every fail : ℕ) (s : InspectionStream) → create session every fail ≡ ok s → IsValid s
unfolding create
create-IsValid session every fail s e = grind (arith)

-- Observing any bottle at any time keeps a well-formed stream so, also when it raises: the session is
-- a nonzero 64-bit number, the sequence fits in a register, one inspection has been made for each
-- full interval of bottles, and one has failed for each full interval of inspections.
pub observe-IsValid :
    (bottle_id timestamp_ms : ℕ) (s : InspectionStream)
    → IsValid s
    → IsValid (observe bottle_id timestamp_ms s).0
unfolding observe
observe-IsValid bottle_id timestamp_ms s v = record {
  nonzero = ground arith;
  fits = ground arith;
  sequence_fits = ground arith;
  bottle_interval = ground arith;
  fail_interval = ground arith;
  sampled = ground (arith, div-suc s.bottles s.every_n_bottles v.bottle_interval, v.sampled);
  failures = ground (arith, div-suc s.inspected s.fail_every_n_inspections v.fail_interval);
}
