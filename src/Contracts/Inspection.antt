-- ===== src/Contracts/Inspection.antt =====
-- libs/eirvah-contracts/src/eirvah_contracts/inspection.py: an inspection result and its ten
-- registers. The identity "%016x:%04x" of the source is the pair of numbers that its text spells;
-- the aware time is microseconds since 1970, as a `datetime` holds them. The registers are unsigned.
-- The time of a number of milliseconds goes through a floating-point number, and is a parameter.
pub mod Registers
pub mod Receipts
use zilina_eirvah_edge_impl.Prelude.{
  ℕ, ◌+◌, ◌*◌, ◌/◌, ◌%◌, ◌^◌, ◌≤◌, ◌<◌, ◌≡◌, refl, Bool, true, false, not, ◌&&◌, ◌||◌, List, [],
  ◌∷◌, Option, none, some, arith, ltb, leb, ◌==◌, if◌then◌else◌, All,
}
use zilina_eirvah_edge_impl.Prelude.Exceptions.{Exc, Result, ok, err, ◌>>=◌}

pub record BottleInspection : Type 0 where
  pub session : ℕ
  pub sequence : ℕ
  pub bottle_id : ℕ
  pub passed : Bool
  pub inspected_at : ℕ

-- The field constraints of the model: two hexadecimal numbers of 16 and 4 digits, and the bottle.
abbrev pub is_valid : BottleInspection → Bool
is_valid e =
    ltb e.session (2 ^ 64) && (ltb e.sequence 65536 && (leb 1 e.bottle_id && leb e.bottle_id 65535))

abbrev pub all_words : List ℕ → Bool
all_words [] = true
all_words (w ∷ ws) = leb w 65535 && all_words ws

abbrev pub validated : BottleInspection → Result (Option BottleInspection)
validated e = if is_valid e then ok (some e) else err (Exc.other_error "ValidationError")

-- sum(registers[i] << (48 - i * 16) for i in range(4))
unfoldable pub session_of : ℕ → ℕ → ℕ → ℕ → ℕ
session_of a b c d = a * 2 ^ 48 + b * 2 ^ 32 + c * 2 ^ 16 + d

-- (registers[7] << 32) | (registers[8] << 16) | registers[9], of three words
unfoldable pub millis_of : ℕ → ℕ → ℕ → ℕ
millis_of e f g = e * 2 ^ 32 + f * 2 ^ 16 + g

-- datetime.fromtimestamp(millis / 1000, UTC) in microseconds; it raises past the year 9999.
pub record Timestamps : Type 0 where
  pub from_millis : ℕ → Result ℕ

-- The checks on the parts of a snapshot whose words are in range.
abbrev pub decode_parts : Timestamps → ℕ → ℕ → ℕ → ℕ → ℕ → Result (Option BottleInspection)
decode_parts times session sequence bottle status millis =
    if status == 0
    then ok none
    else if not (status == 1 || status == 2) || (session == 0 || sequence == 0)
    then err (Exc.value_error "invalid inspection identity/status")
    else times.from_millis millis >>= λ at. validated (record {
      session = session;
      sequence = sequence;
      bottle_id = bottle;
      passed = status == 1;
      inspected_at = at;
    })

-- decode_inspection
unfoldable pub decode_inspection : Timestamps → List ℕ → Result (Option BottleInspection)
decode_inspection times (a ∷ b ∷ c ∷ d ∷ sequence ∷ bottle ∷ status ∷ e ∷ f ∷ g ∷ []) =
    if not (all_words (a ∷ b ∷ c ∷ d ∷ sequence ∷ bottle ∷ status ∷ e ∷ f ∷ g ∷ []))
    then err (Exc.value_error "invalid inspection snapshot")
    else decode_parts times (session_of a b c d) sequence bottle status (millis_of e f g)
decode_inspection times _ = err (Exc.value_error "invalid inspection snapshot")

-- (x >> shift) & 65535
unfoldable pub word_at : ℕ → ℕ → ℕ
word_at shift x = x / 2 ^ shift % 65536

-- encode_inspection
unfoldable pub encode_inspection : Option BottleInspection → List ℕ
encode_inspection none = 0 ∷ 0 ∷ 0 ∷ 0 ∷ 0 ∷ 0 ∷ 0 ∷ 0 ∷ 0 ∷ 0 ∷ []
encode_inspection (some e) =
    word_at 48 e.session
    ∷ word_at 32 e.session
    ∷ word_at 16 e.session
    ∷ word_at 0 e.session
    ∷ e.sequence
    ∷ e.bottle_id
    ∷ (if e.passed then 1 else 2)
    ∷ word_at 32 (e.inspected_at / 1000)
    ∷ word_at 16 (e.inspected_at / 1000)
    ∷ word_at 0 (e.inspected_at / 1000)
    ∷ []
