-- ===== src/Prelude/Dict.antt =====
-- Python's `dict` with text keys, in order of insertion.
use Prim.Native.String.{String}
use mathlib.Core.Path.{◌≡◌}
use mathlib.Core.Bool.{Bool, true, false}
use mathlib.Core.Option.{Option, none, some}
use mathlib.Core.List.{List, [], ◌∷◌}
use native.Mathlib.Omega.{arith}
use text.Mathlib.Text.{◌==◌ as str_eq}
use text.Mathlib.TextEquality.{eq_iff}

abbrev pub Dict {ℓ} : Type ℓ → Type ℓ
Dict V = List (String × V)

abbrev pub choose {ℓ} : {A : Type ℓ} → Bool → A → A → A
choose true x y = x
choose false x y = y

module _ {ℓ} {V : Type ℓ} where
  -- d.get(k)
  abbrev pub lookup : String → Dict V → Option V
  lookup k [] = none
  lookup k ((j, v) ∷ d) = choose (str_eq k j) (some v) (lookup k d)

  -- d[k] = v
  abbrev pub insert : String → V → Dict V → Dict V
  insert k v [] = (k, v) ∷ []
  insert k v ((j, w) ∷ d) = choose (str_eq k j) ((j, v) ∷ d) ((j, w) ∷ insert k v d)

  pub lookup-insert :
      (k j : String) (v : V) (d : Dict V)
      → lookup j (insert k v d) ≡ choose (str_eq j k) (some v) (lookup j d)
  lookup-insert k j v [] = ground arith
  lookup-insert k j v ((i, w) ∷ d) =
      ground (arith, lookup-insert k j v d, eq_iff k i, eq_iff j k, eq_iff j i)

-- `k in items`
abbrev pub contains : String → List String → Bool
contains k [] = false
contains k (x ∷ xs) = choose (str_eq k x) true (contains k xs)
