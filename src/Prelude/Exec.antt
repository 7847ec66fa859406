-- ===== src/Prelude/Exec.antt =====
-- Methods that change a state and may raise: what was written before a raise stays written. Their
-- properties are triples of a precondition, a postcondition on what returns, and one on what raises.
use zilina_eirvah_edge_impl.Prelude.{◌≡◌, refl, Bool, true, false}
use zilina_eirvah_edge_impl.Prelude.Exceptions.{Exc, Result, ok, err}

abbrev pub Exec : Type 0 → Type 0 → Type 0
Exec S A = S → Result A × S

module _ {S A : Type 0} where
  unfoldable pub pure : A → Exec S A
  pure a s = (ok a, s)

  unfoldable pub raise : Exc → Exec S A
  raise e s = (err e, s)

  unfoldable pub lift : Result A → Exec S A
  lift r s = (r, s)

  unfoldable pub gets : (S → A) → Exec S A
  gets f s = (ok (f s), s)

unfoldable pub modify : {S : Type 0} → (S → S) → Exec S (Unit {0})
modify f s = (ok tt, f s)

-- raise e, if the test fails
unfoldable pub require : {S : Type 0} → Bool → Exc → Exec S (Unit {0})
require true e s = (ok tt, s)
require false e s = (err e, s)

module _ {S A B : Type 0} where
  abbrev continue : Result A → (A → Exec S B) → Exec S B
  continue (ok a) f s = f a s
  continue (err e) f s = (err e, s)

  abbrev resume : Result A → (A → Exec S B) → (Exc → Exec S B) → Exec S B
  resume (ok a) f g s = f a s
  resume (err e) f g s = g e s

  infixl 10 ◌>>=◌ ◌>>◌
  unfoldable pub ◌>>=◌ : Exec S A → (A → Exec S B) → Exec S B
  ◌>>=◌ m f s = continue (m s).0 f (m s).1

  abbrev pub ◌>>◌ : Exec S A → Exec S B → Exec S B
  m >> n = m >>= λ _. n

  -- try: a = m; except e: g(e); else: f(a)
  unfoldable pub attempt : Exec S A → (A → Exec S B) → (Exc → Exec S B) → Exec S B
  attempt m f g s = resume (m s).0 f g (m s).1

-- What holds after a call, by how it ended.
abbrev pub Ends : {S A : Type 0} → (A → S → Type 0) → (Exc → S → Type 0) → Result A × S → Type 0
Ends Q E (ok a, s) = Q a s
Ends Q E (err e, s) = E e s

pub record Triple {S A : Type 0} (P : S → Type 0) (m : Exec S A) (Q : A → S → Type 0)
    (E : Exc → S → Type 0) : Type 0 where
  pub at : (s : S) → P s → Ends Q E (m s)

module _ {S A : Type 0} {P : S → Type 0} {Q : A → S → Type 0} {E : Exc → S → Type 0} where
  pub Triple-pure : (a : A) → ((s : S) → P s → Q a s) → Triple P (pure a) Q E
  unfolding pure
  Triple-pure a h = record { at = h }

  pub Triple-raise : (e : Exc) → ((s : S) → P s → E e s) → Triple P (raise e) Q E
  unfolding raise
  Triple-raise e h = record { at = h }

  pub Triple-lift :
      (r : Result A)
      → ((a : A) (s : S) → r ≡ ok a → P s → Q a s)
      → ((e : Exc) (s : S) → P s → E e s)
      → Triple P (lift r) Q E
  unfolding lift
  Triple-lift (ok a) h k = record { at = λ s p. h a s refl p }
  Triple-lift (err e) h k = record { at = λ s p. k e s p }

  pub Triple-gets : (f : S → A) → ((s : S) → P s → Q (f s) s) → Triple P (gets f) Q E
  unfolding gets
  Triple-gets f h = record { at = h }

  -- A weaker conclusion from a stronger premise.
  pub Triple-weaken :
      (m : Exec S A) (P' : S → Type 0) (Q' : A → S → Type 0) (E' : Exc → S → Type 0)
      → ((s : S) → P s → P' s)
      → ((a : A) (s : S) → Q' a s → Q a s)
      → ((e : Exc) (s : S) → E' e s → E e s)
      → Triple P' m Q' E'
      → Triple P m Q E
  Triple-weaken m P' Q' E' p q e t = record { at = λ s h. go s (m s) (t.at s (p s h)) }
    where
      go : (s : S) (x : Result A × S) → Ends Q' E' x → Ends Q E x
      go s (ok a, s') h = q a s' h
      go s (err x, s') h = e x s' h

pub Triple-modify :
    {S : Type 0} {P : S → Type 0} {Q : Unit {0} → S → Type 0} {E : Exc → S → Type 0} (f : S → S)
    → ((s : S) → P s → Q tt (f s))
    → Triple P (modify f) Q E
unfolding modify
Triple-modify f h = record { at = h }

pub Triple-require :
    {S : Type 0} {P : S → Type 0} {Q : Unit {0} → S → Type 0} {E : Exc → S → Type 0} (b : Bool)
    (e : Exc)
    → ((s : S) → b ≡ true → P s → Q tt s)
    → ((s : S) → P s → E e s)
    → Triple P (require b e) Q E
unfolding require
Triple-require true e h k = record { at = λ s p. h s refl p }
Triple-require false e h k = record { at = λ s p. k s p }

module _ {S A B : Type 0} {P : S → Type 0} {R : B → S → Type 0} {E : Exc → S → Type 0} where
  pub Triple-bind :
      (m : Exec S A) (f : A → Exec S B) (Q : A → S → Type 0)
      → Triple P m Q E
      → ((a : A) → Triple (Q a) (f a) R E)
      → Triple P (m >>= f) R E
  unfolding ◌>>=◌
  Triple-bind m f Q t k = record { at = λ s p. go (m s) (t.at s p) }
    where
      go : (x : Result A × S) → Ends Q E x → Ends R E (continue x.0 f x.1)
      go (ok a, s) h = (k a).at s h
      go (err e, s) h = h

  pub Triple-attempt :
      (m : Exec S A) (f : A → Exec S B) (g : Exc → Exec S B) (Q : A → S → Type 0)
      (E' : Exc → S → Type 0)
      → Triple P m Q E'
      → ((a : A) → Triple (Q a) (f a) R E)
      → ((e : Exc) → Triple (E' e) (g e) R E)
      → Triple P (attempt m f g) R E
  unfolding attempt
  Triple-attempt m f g Q E' t k l = record { at = λ s p. go (m s) (t.at s p) }
    where
      go : (x : Result A × S) → Ends Q E' x → Ends R E (resume x.0 f g x.1)
      go (ok a, s) h = (k a).at s h
      go (err e, s) h = (l e).at s h
