-- ===== src/Prelude/Exceptions.antt =====
-- Python's exceptions as values, and calls that return or raise.
use Prim.Native.String.{String}
use zilina_eirvah_edge_impl.Prelude.{◌≡◌, refl, Bool, true, false, not, if◌then◌else◌}

-- The classes that the services raise or tell apart, with the messages that they carry.
pub data Exc : Type 0 where
  value_error runtime_error connection_error timeout_error : String → Exc
  type_error assertion_error cancelled_error database_error request_timeout : Exc
  -- any other class, by its name
  other_error : String → Exc

-- asyncio.CancelledError, which is no Exception
abbrev pub is_cancelled : Exc → Bool
is_cancelled Exc.cancelled_error = true
is_cancelled _ = false

-- type(exc).__name__
abbrev pub exc_name : Exc → String
exc_name (Exc.value_error m) = "ValueError"
exc_name (Exc.runtime_error m) = "RuntimeError"
exc_name (Exc.connection_error m) = "ConnectionError"
exc_name (Exc.timeout_error m) = "TimeoutError"
exc_name Exc.type_error = "TypeError"
exc_name Exc.assertion_error = "AssertionError"
exc_name Exc.cancelled_error = "CancelledError"
exc_name Exc.database_error = "OperationalError"
exc_name Exc.request_timeout = "RequestTimeout"
exc_name (Exc.other_error n) = n

pub data Result {ℓ} (A : Type ℓ) : Type ℓ where
  ok : A → Result A
  err : Exc → Result A

-- m; then `f` of what it returned
module _ {ℓ κ} {A : Type ℓ} {B : Type κ} where
  infixl 5 ◌>>=◌
  abbrev pub ◌>>=◌ : Result A → (A → Result B) → Result B
  err e >>= f = err e
  ok a >>= f = f a

infixl 5 ◌>>◌
abbrev pub ◌>>◌ {ℓ} : {B : Type ℓ} → Result (Unit {0}) → Result B → Result B
check >> next = check >>= λ _. next

-- What returned is what both parts of a sequence returned.
pub >>=-inv {ℓ κ} :
    {A : Type ℓ} {B : Type κ} (m : Result A) (f : A → Result B) (b : B)
    → (m >>= f) ≡ ok b
    → (a : A) × (m ≡ ok a) × (f a ≡ ok b)
>>=-inv (ok a) f b h = (a, refl, h)
>>=-inv (err e) f b h = absurd (cc)

-- What returned has passed the check before it.
pub check-inv {ℓ} :
    {A : Type ℓ} (b : Bool) (e : Exc) (m : Result A) (a : A)
    → (if not b then err e else m) ≡ ok a
    → (b ≡ true) × (m ≡ ok a)
check-inv true e m a h = (refl, h)
check-inv false e m a h = absurd (cc)
