-- ===== src/Controls.antt =====
-- libs/eirvah-controls/src/eirvah_controls/__init__.py: the simulated devices' controls. Operations
-- and values are the unsigned words of the command mailbox. Status: 1 applied, 2 invalid command or
-- value, 3 state or identity precondition failed, 4 duplicate bottle rejection.
pub mod Motor
pub mod Reject
pub mod Inspection
use zilina_eirvah_edge_impl.Prelude.{
  ℕ, ◌+◌, ◌-◌, min, Bool, true, false, not, ◌&&◌, ◌||◌, List, [], ◌∷◌, ◌++◌, ltb, leb, ◌==◌,
  if◌then◌else◌, length,
}

pub record MotorControl : Type 0 where
  pub max_speed : ℕ
  pub setpoint : ℕ
  pub running : Bool
  pub faulted : Bool

-- MotorControl.speed
unfoldable pub speed : MotorControl → ℕ
speed m = if m.running && not m.faulted then m.setpoint else 0

-- MotorControl.apply: the new control and the status.
unfoldable pub apply_motor : ℕ → ℕ → MotorControl → MotorControl × ℕ
apply_motor operation value m =
    if operation == 2
    then (if not (leb value m.max_speed) then (m, 2) else (record m { setpoint = value }, 1))
    else if operation == 1
    then (if not (value == 0 || value == 1)
        then (m, 2)
        else if not (value == 0) && m.faulted
        then (m, 3)
        else (record m { running = not (value == 0) }, 1))
    else if operation == 3
    then (if not (value == 1)
        then (m, 2)
        else if not m.faulted
        then (m, 3)
        else (record m { faulted = false; running = false }, 1))
    else if operation == 4 && value == 1
    then (record m { faulted = true; running = false }, 1)
    else (m, 2)

pub record ValveControl : Type 0 where
  pub opened : Bool

-- ValveControl.apply
unfoldable pub apply_valve : ℕ → ℕ → ValveControl → ValveControl × ℕ
apply_valve operation value v =
    if not (operation == 1) || not (value == 0 || value == 1)
    then (v, 2)
    else (record { opened = not (value == 0) }, 1)

-- The deque `_present`, oldest first, and the set `_rejected` as a list.
pub record RejectControl : Type 0 where
  pub window : ℕ
  pub count : ℕ
  pub last_bottle : ℕ
  pub present : List ℕ
  pub rejected : List ℕ

-- `value in items`
abbrev pub contains : ℕ → List ℕ → Bool
contains a [] = false
contains a (x ∷ xs) = a == x || contains a xs

-- `_rejected.discard(value)`
abbrev pub discard : ℕ → List ℕ → List ℕ
discard a [] = []
discard a (x ∷ xs) = let rest = discard a xs in if a == x then rest else x ∷ rest

-- while len(self._present) > self.window: self._rejected.discard(self._present.popleft())
unfoldable pub shrink : ℕ → List ℕ → List ℕ → List ℕ × List ℕ
shrink window [] rejected = ([], rejected)
shrink window (b ∷ present) rejected =
    let rest = shrink window present (discard b rejected) in
    if ltb window (length (b ∷ present)) then rest else (b ∷ present, rejected)

-- RejectControl.observe
unfoldable pub observe : ℕ → RejectControl → RejectControl
unfolding shrink
observe bottle_id r =
    let present = if contains bottle_id r.present then r.present else r.present ++ bottle_id ∷ [] in
    let (kept, rejected) = shrink r.window present r.rejected in
    record r { present = kept; rejected = rejected }

-- RejectControl.apply
unfoldable pub apply_reject : ℕ → ℕ → RejectControl → RejectControl × ℕ
apply_reject operation value r =
    if not (operation == 1) || not (leb 1 value && leb value 65535)
    then (r, 2)
    else if not (contains value r.present)
    then (r, 3)
    else if contains value r.rejected
    then (r, 4)
    else (
      record r {
        rejected = value ∷ r.rejected;
        count = min 65535 (r.count + 1);
        last_bottle = value;
      },
      1,
    )
