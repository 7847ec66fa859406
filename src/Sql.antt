-- ===== src/Sql.antt =====
-- Tables of the embedded SQL database, as the services use them: rows in order of insertion, and
-- the SELECT, INSERT, UPDATE and DELETE statements on them. `key` reads the primary key of a row.
use zilina_eirvah_edge_impl.Prelude.{
  ℕ, ◌+◌, ◌≡◌, refl, Bool, true, false, Option, none, some, List, [], ◌∷◌, ◌++◌, arith, ◌==◌,
  if◌then◌else◌, All, Bool-cases, inl, inr,
}
use mathlib.Core.Path.{subst}

module _ {R : Type 0} where
  -- DELETE FROM t WHERE p
  abbrev pub delete : (R → Bool) → List R → List R
  delete p [] = []
  delete p (r ∷ rows) = let rest = delete p rows in if p r then rest else r ∷ rest

  -- UPDATE t SET f WHERE p
  abbrev pub update : (R → Bool) → (R → R) → List R → List R
  update p f [] = []
  update p f (r ∷ rows) = (if p r then f r else r) ∷ update p f rows

  -- The rowcount of an UPDATE, and SELECT count(*) FROM t WHERE p
  abbrev pub count : (R → Bool) → List R → ℕ
  count p [] = 0
  count p (r ∷ rows) = (if p r then 1 else 0) + count p rows

  -- INSERT INTO t VALUES r, at the end
  abbrev pub insert : R → List R → List R
  insert r rows = rows ++ r ∷ []

  pub All-delete :
      (P : R → Type 0) (p : R → Bool) (rows : List R) → All P rows → All P (delete p rows)
  All-delete P p [] h = tt
  All-delete P p (r ∷ rows) h = ground (arith, All-delete P p rows h.1)

  pub All-update :
      (P : R → Type 0) (p : R → Bool) (f : R → R) (rows : List R)
      → ((r : R) → P r → p r ≡ true → P (f r))
      → All P rows
      → All P (update p f rows)
  All-update P p f [] k h = tt
  All-update P p f (r ∷ rows) k h = (elim_row (p r) refl, All-update P p f rows k h.1)
    where
      elim_row : (b : Bool) → p r ≡ b → P (if b then f r else r)
      elim_row true e = k r h.0 e
      elim_row false e = h.0

module _ {R : Type 0} (key : R → ℕ) where
  -- SELECT * FROM t WHERE key = k
  abbrev pub select : ℕ → List R → Option R
  select k [] = none
  select k (r ∷ rows) = if key r == k then some r else select k rows

  -- The primary key: no two rows share it.
  abbrev pub Distinct : List R → Type 0
  Distinct [] = Unit {0}
  Distinct (r ∷ rows) = (select (key r) rows ≡ none) × Distinct rows

  abbrev pub without : (R → Bool) → Option R → Option R
  without p none = none
  without p (some r) = if p r then none else some r

  abbrev pub changed : (R → Bool) → (R → R) → Option R → Option R
  changed p f none = none
  changed p f (some r) = some (if p r then f r else r)

  pub select-none-delete :
      (k : ℕ) (p : R → Bool) (rows : List R)
      → select k rows ≡ none
      → select k (delete p rows) ≡ none
  select-none-delete k p [] h = refl
  select-none-delete k p (r ∷ rows) h = ground (arith, select-none-delete k p rows)

  pub select-delete :
      (k : ℕ) (p : R → Bool) (rows : List R)
      → Distinct rows
      → select k (delete p rows) ≡ without p (select k rows)
  select-delete k p [] h = refl
  select-delete k p (r ∷ rows) h =
      ground (arith, select-delete k p rows h.1, select-none-delete k p rows)

  pub Distinct-delete : (p : R → Bool) (rows : List R) → Distinct rows → Distinct (delete p rows)
  Distinct-delete p [] h = tt
  Distinct-delete p (r ∷ rows) h =
      ground (arith, Distinct-delete p rows h.1, select-none-delete (key r) p rows h.0)

  pub select-insert :
      (k : ℕ) (r : R) (rows : List R)
      → select k (insert r rows)
        ≡ elim (select k rows) [ none ↦ (if key r == k then some r else none) | some s ↦ some s ]
  select-insert k r [] = ground arith
  select-insert k r (s ∷ rows) = ground (arith, select-insert k r rows)

  pub Distinct-insert :
      (r : R) (rows : List R)
      → Distinct rows
      → select (key r) rows ≡ none
      → Distinct (insert r rows)
  Distinct-insert r [] h e = (refl, tt)
  Distinct-insert r (s ∷ rows) h e =
      ground (arith, Distinct-insert r rows h.1, select-insert (key s) r rows)

  pub select-All :
      (P : R → Type 0) (k : ℕ) (r : R) (rows : List R) → All P rows → select k rows ≡ some r → P r
  select-All P k r [] h e = absurd (cc)
  select-All P k r (s ∷ rows) h e = elim (Bool-cases (key s == k)) [
    | inl here ↦ let e' : s ≡ r = cc (rw here at e) in subst P e' h.0
    | inr later ↦ select-All P k r rows h.1 (rw later at e)
  ]

  pub key-select : (k : ℕ) (r : R) (rows : List R) → select k rows ≡ some r → key r ≡ k
  key-select k r [] e = absurd (cc)
  key-select k r (s ∷ rows) e = ground (arith, key-select k r rows)

  module _ (p : R → Bool) (f : R → R) (same : (r : R) → key (f r) ≡ key r) where
    pub select-update :
        (k : ℕ) (rows : List R) → select k (update p f rows) ≡ changed p f (select k rows)
    select-update k [] = refl
    select-update k (r ∷ rows) = ground (arith, select-update k rows, same r)

    pub Distinct-update : (rows : List R) → Distinct rows → Distinct (update p f rows)
    Distinct-update [] h = tt
    Distinct-update (r ∷ rows) h =
        ground (arith, Distinct-update rows h.1, same r, select-update (key r) rows)

  -- A statement that names the key changes one row at most.
  pub count-select-none :
      (k : ℕ) (p : R → Bool) (rows : List R)
      → ((r : R) → p r ≡ true → key r ≡ k)
      → select k rows ≡ none
      → count p rows ≡ 0
  count-select-none k p [] own h = refl
  count-select-none k p (r ∷ rows) own h = ground (arith, own r, count-select-none k p rows own)

  pub count-select :
      (k : ℕ) (p : R → Bool) (rows : List R)
      → ((r : R) → p r ≡ true → key r ≡ k)
      → Distinct rows
      → count p rows ≡ elim (select k rows) [ none ↦ 0 | some r ↦ (if p r then 1 else 0) ]
  count-select k p [] own h = refl
  count-select k p (r ∷ rows) own h =
      ground (arith, own r, count-select k p rows own h.1, count-select-none k p rows own)
