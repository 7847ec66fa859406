-- ===== src/Controls/Motor.antt =====
-- eirvah_controls/__init__.py: the motor and the valve under any commands.
use zilina_eirvah_edge_impl.Prelude.{ℕ, ◌≤◌, ◌≡◌, ◌⊎◌, true, false, List, [], ◌∷◌, arith}
use zilina_eirvah_edge_impl.Controls.{MotorControl, speed, apply_motor}

-- The setpoint is in range, and a faulted motor does not run.
pub record IsSafe (m : MotorControl) : Type 0 where
  pub in_range : m.setpoint ≤ m.max_speed
  pub stopped : m.faulted ≡ true → m.running ≡ false

pub apply_motor-IsSafe :
    (operation value : ℕ) (m : MotorControl) → IsSafe m → IsSafe (apply_motor operation value m).0
unfolding apply_motor
apply_motor-IsSafe operation value m h = record {
  in_range = ground arith;
  stopped = ground (arith, h.stopped);
}

-- The commands of a mailbox, one after another.
unfoldable pub apply_all : List (ℕ × ℕ) → MotorControl → MotorControl
unfolding apply_motor
apply_all [] m = m
apply_all ((operation, value) ∷ commands) m = apply_all commands (apply_motor operation value m).0

apply_all-IsSafe :
    (commands : List (ℕ × ℕ)) (m : MotorControl) → IsSafe m → IsSafe (apply_all commands m)
unfolding apply_all
apply_all-IsSafe [] m h = h
apply_all-IsSafe ((operation, value) ∷ commands) m h =
    apply_all-IsSafe commands _ (apply_motor-IsSafe operation value m h)

max_speed-apply_all :
    (commands : List (ℕ × ℕ)) (m : MotorControl) → (apply_all commands m).max_speed ≡ m.max_speed
unfolding apply_all apply_motor
max_speed-apply_all [] m = ground arith
max_speed-apply_all ((operation, value) ∷ commands) m =
    ground (arith, max_speed-apply_all commands (apply_motor operation value m).0)

-- From a safe motor, after any commands, the speed is at most the motor's maximum, and a faulted
-- motor stands still.
pub speed_bounds :
    (commands : List (ℕ × ℕ)) (m : MotorControl)
    → IsSafe m
    → (speed (apply_all commands m) ≤ m.max_speed)
      × ((apply_all commands m).faulted ≡ true → speed (apply_all commands m) ≡ 0)
unfolding speed
speed_bounds commands m h =
    let safe = apply_all-IsSafe commands m h in
    (
      ground (arith, max_speed-apply_all commands m, safe.in_range),
      λ f. ground (arith, safe.stopped f),
    )

-- A motor command is applied, with status 1, or it changes nothing and the status says why: 2 for a
-- command or value that is not one, 3 exactly for a start of a faulted motor or a reset of one that
-- is not faulted.
pub apply_motor-status :
    (operation value : ℕ) (m : MotorControl)
    → ((apply_motor operation value m).1 ≡ 1)
      ⊎ (((apply_motor operation value m).0 ≡ m) × ((apply_motor operation value m).1 ≡ 2))
      ⊎ (((apply_motor operation value m).0 ≡ m)
          × ((apply_motor operation value m).1 ≡ 3)
          × (((operation ≡ 1) × (value ≡ 1) × (m.faulted ≡ true))
              ⊎ ((operation ≡ 3) × (value ≡ 1) × (m.faulted ≡ false))))
unfolding apply_motor
apply_motor-status operation value m = ground arith

-- A faulted motor stays faulted, and at rest, through any one command but the reset: operation 3
-- with value 1, which leaves it at rest too.
pub apply_motor-faulted :
    (operation value : ℕ) (m : MotorControl)
    → IsSafe m
    → m.faulted ≡ true
    → (speed (apply_motor operation value m).0 ≡ 0)
      × (((apply_motor operation value m).0.faulted ≡ true) ⊎ ((operation ≡ 3) × (value ≡ 1)))
unfolding apply_motor speed
apply_motor-faulted operation value m h f = ground (arith, h.stopped f)
