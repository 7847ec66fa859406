-- ===== src/Controls/Reject.antt =====
-- eirvah_controls/__init__.py: the reject station.
use zilina_eirvah_edge_impl.Prelude.{
  ℕ, ◌+◌, ◌≤◌, ◌≡◌, ◌≢◌, ◌⊎◌, ◌&&◌, min, refl, Bool, true, false, List, [], ◌∷◌, ◌++◌, arith, ltb,
  ◌==◌, length, if◌then◌else◌, Bool-cases, inl, inr,
}
use zilina_eirvah_edge_impl.Controls.{
  RejectControl, contains, discard, shrink, observe, apply_reject,
}

-- No bottle is listed twice.
abbrev pub Distinct : List ℕ → Type 0
Distinct [] = Unit {0}
Distinct (b ∷ bs) = (contains b bs ≡ false) × Distinct bs

-- The window is kept, the rejected bottles are among the present ones, and neither is listed twice.
pub record IsValid (r : RejectControl) : Type 0 where
  pub fits : length r.present ≤ r.window
  pub distinct : Distinct r.present
  pub once : Distinct r.rejected
  pub known : (b : ℕ) → contains b r.rejected ≡ true → contains b r.present ≡ true
  pub bounded : r.count ≤ 65535

contains-discard :
    (a b : ℕ) (xs : List ℕ) → contains a (discard b xs) ≡ (if a == b then false else contains a xs)
contains-discard a b [] = ground arith
contains-discard a b (x ∷ xs) = ground (arith, contains-discard a b xs)

Distinct-discard : (b : ℕ) (xs : List ℕ) → Distinct xs → Distinct (discard b xs)
Distinct-discard b [] h = tt
Distinct-discard b (x ∷ xs) h = ground (arith, Distinct-discard b xs h.1, contains-discard x b xs)

contains-append :
    (a b : ℕ) (xs : List ℕ) → contains a (xs ++ b ∷ []) ≡ (if a == b then true else contains a xs)
contains-append a b [] = ground arith
contains-append a b (x ∷ xs) = ground (arith, contains-append a b xs)

Distinct-append :
    (b : ℕ) (xs : List ℕ) → contains b xs ≡ false → Distinct xs → Distinct (xs ++ b ∷ [])
Distinct-append b [] e h = (refl, tt)
Distinct-append b (x ∷ xs) e h = ground (arith, Distinct-append b xs, contains-append x b xs, h)

-- What `shrink` keeps of two lists where the rejected bottles are among the present ones.
abbrev Kept : ℕ → List ℕ × List ℕ → Type 0
Kept window (present, rejected) =
    (length present ≤ window)
    × Distinct present
    × Distinct rejected
    × ((b : ℕ) → contains b rejected ≡ true → contains b present ≡ true)

still_known :
    (b : ℕ) (present rejected : List ℕ)
    → ((a : ℕ) → contains a rejected ≡ true → contains a (b ∷ present) ≡ true)
    → (a : ℕ) → contains a (discard b rejected) ≡ true
    → contains a present ≡ true
still_known b present rejected h a e = ground (arith, h a, contains-discard a b rejected)

shrink-Kept :
    (window : ℕ) (present rejected : List ℕ)
    → Distinct present
    → Distinct rejected
    → ((b : ℕ) → contains b rejected ≡ true → contains b present ≡ true)
    → Kept window (shrink window present rejected)
unfolding shrink
shrink-Kept window [] rejected d o k = (ground arith, tt, o, k)
shrink-Kept window (b ∷ present) rejected d o k =
    elim (Bool-cases (ltb window (length (b ∷ present)))) [
      | inl over ↦ rw over (
          shrink-Kept window present (discard b rejected) d.1 (Distinct-discard b rejected o)
            (still_known b present rejected k))
      | inr fits ↦ rw fits (ground arith, d, o, k)
    ]

observe-Kept :
    (bottle_id : ℕ) (r : RejectControl)
    → IsValid r
    → Kept r.window ((observe bottle_id r).present, (observe bottle_id r).rejected)
unfolding observe
observe-Kept bottle_id r v = elim (Bool-cases (contains bottle_id r.present)) [
  | inl seen ↦ rw seen (shrink-Kept r.window r.present r.rejected v.distinct v.once v.known)
  | inr new ↦ rw new (
      shrink-Kept r.window (r.present ++ bottle_id ∷ []) r.rejected
        (Distinct-append bottle_id r.present new v.distinct) v.once
        (λ b e. ground (arith, v.known b e, contains-append b bottle_id r.present)))
]

pub observe-IsValid :
    (bottle_id : ℕ) (r : RejectControl) → IsValid r → IsValid (observe bottle_id r)
unfolding observe
observe-IsValid bottle_id r v =
    let (f, d, o, k) = observe-Kept bottle_id r v in
    record { fits = f; distinct = d; once = o; known = k; bounded = v.bounded }

pub apply_reject-IsValid :
    (operation value : ℕ) (r : RejectControl)
    → IsValid r
    → IsValid (apply_reject operation value r).0
unfolding apply_reject
apply_reject-IsValid operation value r v = record {
  fits = ground arith;
  distinct = ground arith;
  once = ground arith;
  known = λ b e. ground (arith, v.known b);
  bounded = ground arith;
}

-- What happens at the station: a bottle passes, or a command comes.
pub data Event : Type 0 where
  passes : ℕ → Event
  command : (operation value : ℕ) → Event

unfoldable pub step : Event → RejectControl → RejectControl
step (passes b) r = observe b r
step (command operation value) r = (apply_reject operation value r).0

-- The event rejects bottle `b`.
unfoldable pub rejects : ℕ → Event → RejectControl → Bool
rejects b (passes a) r = false
rejects b (command operation value) r = value == b && (apply_reject operation value r).1 == 1

unfoldable pub rejections : ℕ → List Event → RejectControl → ℕ
unfolding step rejects
rejections b [] r = 0
rejections b (e ∷ events) r = (if rejects b e r then 1 else 0) + rejections b events (step e r)

-- Bottle `b` is among the present ones throughout.
unfoldable pub Stays : ℕ → List Event → RejectControl → Type 0
unfolding step
Stays b [] r = contains b r.present ≡ true
Stays b (e ∷ events) r = (contains b r.present ≡ true) × Stays b events (step e r)

shrink-among :
    (window b : ℕ) (present rejected : List ℕ)
    → contains b (shrink window present rejected).0 ≡ true
    → contains b present ≡ true
unfolding shrink
shrink-among window b [] rejected p = p
shrink-among window b (a ∷ present) rejected p =
    ground (arith, shrink-among window b present (discard a rejected))

-- The window drops from the front: what is dropped is not present any more.
shrink-keeps :
    (window b : ℕ) (present rejected : List ℕ)
    → contains b (shrink window present rejected).0 ≡ true
    → Distinct present
    → contains b rejected ≡ true
    → contains b (shrink window present rejected).1 ≡ true
unfolding shrink
shrink-keeps window b [] rejected p d e = ground arith
shrink-keeps window b (a ∷ present) rejected p d e =
    elim (Bool-cases (ltb window (length (a ∷ present)))) [
      | inl over ↦ rw over (
          shrink-keeps window b present (discard a rejected) (rw over at p) d.1 (
            ground (
              arith,
              contains-discard b a rejected,
              shrink-among window b present (discard a rejected) (rw over at p),
              d.0,
            )))
      | inr fits ↦ rw fits e
    ]

step-keeps :
    (b : ℕ) (e : Event) (r : RejectControl)
    → IsValid r
    → contains b (step e r).present ≡ true
    → contains b r.rejected ≡ true
    → contains b (step e r).rejected ≡ true
unfolding step observe apply_reject
step-keeps b (passes a) r v p e = elim (Bool-cases (contains a r.present)) [
  | inl seen ↦ rw seen (shrink-keeps r.window b r.present r.rejected (rw seen at p) v.distinct e)
  | inr new ↦ rw new (
      shrink-keeps r.window b (r.present ++ a ∷ []) r.rejected (rw new at p)
        (Distinct-append a r.present new v.distinct) e)
]
step-keeps b (command operation value) r v p e = ground arith

-- Whatever happens, a bottle that passes or a command that comes, a well-formed station stays well
-- formed: the present bottles fit in the window, rejected bottles are present ones, none is listed
-- twice, and the counter fits in a register.
pub step-IsValid : (e : Event) (r : RejectControl) → IsValid r → IsValid (step e r)
unfolding step
step-IsValid (passes b) r v = observe-IsValid b r v
step-IsValid (command operation value) r v = apply_reject-IsValid operation value r v

rejects-false :
    (b : ℕ) (e : Event) (r : RejectControl) → contains b r.rejected ≡ true → rejects b e r ≡ false
unfolding rejects apply_reject
rejects-false b (passes a) r h = refl
rejects-false b (command operation value) r h = ground arith

present_after :
    (b : ℕ) (events : List Event) (r : RejectControl)
    → Stays b events r
    → contains b r.present ≡ true
unfolding Stays
present_after b [] r s = s
present_after b (e ∷ events) r s = s.0

-- From a well-formed station, a bottle that has been rejected is not rejected again by any sequence
-- of passing bottles and commands, as long as it stays among the present ones.
pub rejected_once :
    (b : ℕ) (events : List Event) (r : RejectControl)
    → IsValid r
    → contains b r.rejected ≡ true
    → Stays b events r
    → rejections b events r ≡ 0
unfolding rejections Stays
rejected_once b [] r v h s = refl
rejected_once b (e ∷ events) r v h s =
    let rest =
      rejected_once b events (step e r) (step-IsValid e r v)
        (step-keeps b e r v (present_after b events (step e r) s.1) h) s.1 in
    let not_now : rejects b e r ≡ false = rejects-false b e r h in rw not_now (omega (arith, rest))

-- A rejection that is applied marks its bottle, which was present and unmarked, and moves the
-- counter up by one unless it stands at 65535; any other command leaves the station as it was.
pub apply_reject-cases :
    (operation value : ℕ) (r : RejectControl)
    → (((apply_reject operation value r).1 ≡ 1)
        × (contains value r.present ≡ true)
        × (contains value r.rejected ≡ false)
        × (contains value (apply_reject operation value r).0.rejected ≡ true)
        × ((apply_reject operation value r).0.count ≡ min 65535 (r.count + 1)))
      ⊎ (((apply_reject operation value r).1 ≢ 1) × ((apply_reject operation value r).0 ≡ r))
unfolding apply_reject
apply_reject-cases operation value r = ground arith
