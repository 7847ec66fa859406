-- ===== src/Plant.antt =====
-- services/modbus-simulator and services/s7-simulator: the simulated devices, with the command
-- mailboxes that the writer of native.py fills. This module has what both stand on: holding
-- registers, a generator of random numbers, and what a client and a device do to each other.
pub mod Modbus
pub mod S7
use zilina_eirvah_edge_impl.Prelude.{
  ℕ, true, false, ◌+◌, ◌≤◌, ◌<◌, ◌≡◌, ◌≢◌, refl, ◌∙◌, Bool, List, [], ◌∷◌, ◌==◌, if◌then◌else◌,
  length, arith, ◌⊎◌,
}
use zilina_eirvah_edge_impl.Prelude.Exceptions.{Exc, Result, ok, err}
use zilina_eirvah_edge_impl.Writer.Native.{check_ack}

-- The holding registers of the Modbus library: a word at each address below 79, read and written.
pub record DataBlock : Type 1 where
  pub Store : Type 0
  -- all registers at zero
  pub empty : Store
  pub get : ℕ → Store → ℕ
  pub set : ℕ → ℕ → Store → Store
  pub get-set :
      (a b v : ℕ) (s : Store)
      → a < 79
      → b < 79
      → get a (set b v s) ≡ (if a == b then v else get a s)

-- Python's random.Random: `randint span` is rng.randint(-span, span) + span, and `chance` is
-- rng.random() < jam_probability.
pub record Random : Type 1 where
  pub Generator : Type 0
  pub randint : ℕ → Generator → ℕ × Generator
  pub chance : Generator → Bool × Generator

-- What a writer makes of an acknowledgement with its own sequence
pub check_ack-answered :
    (sequence status a b : ℕ)
    → a ≡ sequence
    → b ≡ status
    → check_ack sequence (a, b)
      ≡ (if status == 1 then ok true else err (Exc.value_error "device rejected command"))
unfolding check_ack
check_ack-answered sequence status a b e f = ground (arith, e, f)

module _ (blocks : DataBlock) where
  open blocks use {Store, get, set, get-set}

  -- setValues
  abbrev pub set_all : ℕ → List ℕ → Store → Store
  set_all a [] s = s
  set_all a (w ∷ ws) s = set_all (a + 1) ws (set a w s)

  -- A block of words changes no register outside of it.
  pub get-set_all :
      (a b : ℕ) (ws : List ℕ) (s : Store)
      → a < 79
      → b + length ws ≤ 79
      → (a < b) ⊎ (b + length ws ≤ a)
      → get a (set_all b ws s) ≡ get a s
  get-set_all a b [] s h k o = refl
  get-set_all a b (w ∷ ws) s h k o =
      ground (arith, get-set_all a (b + 1) ws (set b w s), get-set a b w s)

  pub get-set_same : (a v : ℕ) (s : Store) → a < 79 → get a (set a v s) ≡ v
  get-set_same a v s h = ground (arith, get-set a a v s h h)

  pub get-set_other :
      (a b v : ℕ) (s : Store) → a < 79 → b < 79 → a ≢ b → get a (set b v s) ≡ get a s
  get-set_other a b v s h k n = ground (arith, get-set a b v s h k, n)
