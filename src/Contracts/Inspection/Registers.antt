-- ===== src/Contracts/Inspection/Registers.antt =====
-- contracts/inspection.py: the registers of an inspection and the inspection in the registers.
use zilina_eirvah_edge_impl.Prelude.{
  ℕ, ◌*◌, ◌/◌, ◌%◌, ◌^◌, ◌≤◌, ◌<◌, ◌≡◌, refl, Bool, true, false, not, [], ◌∷◌, Option, some, arith,
  leb, if◌then◌else◌, Bool-cases, ◌∙◌, inl, inr,
}
use mathlib.Core.Path.{ap, ap₂, sym}
use zilina_eirvah_edge_impl.Prelude.Exceptions.{Exc, Result, ok, err}
use zilina_eirvah_edge_impl.Contracts.Inspection.{
  BottleInspection, Timestamps, is_valid, all_words, session_of, millis_of, decode_parts,
  decode_inspection, encode_inspection, word_at,
}

words_of_session :
    (n : ℕ) → n < 2 ^ 64 → session_of (word_at 48 n) (word_at 32 n) (word_at 16 n) (word_at 0 n) ≡ n
unfolding session_of word_at
words_of_session n h = omega arith

words_of_millis : (n : ℕ) → n < 2 ^ 48 → millis_of (word_at 32 n) (word_at 16 n) (word_at 0 n) ≡ n
unfolding millis_of word_at
words_of_millis n h = omega arith

word_at-leb : (shift n : ℕ) → leb (word_at shift n) 65535 ≡ true
unfolding word_at
word_at-leb shift n = let below : n / 2 ^ shift % 65536 ≤ 65535 = omega arith in ground arith

encode-all_words :
    (e : BottleInspection) → is_valid e ≡ true → all_words (encode_inspection (some e)) ≡ true
unfolding encode_inspection
encode-all_words e v = ground (
  arith,
  word_at-leb 48 e.session,
  word_at-leb 32 e.session,
  word_at-leb 16 e.session,
  word_at-leb 0 e.session,
  word_at-leb 32 (e.inspected_at / 1000),
  word_at-leb 16 (e.inspected_at / 1000),
  word_at-leb 0 (e.inspected_at / 1000),
)

-- Below 2 ^ 33 seconds, a time in seconds as a double has a whole millisecond's microseconds.
pub record IsExact (times : Timestamps) : Type 0 where
  pub exact : (m : ℕ) → m < 2 ^ 33 * 1000 → times.from_millis m ≡ ok (m * 1000)

module _ (times : Timestamps) where
  decode_parts-lem :
      (e : BottleInspection) (millis : ℕ)
      → is_valid e ≡ true
      → 0 < e.session
      → 0 < e.sequence
      → times.from_millis millis ≡ ok e.inspected_at
      → decode_parts times e.session e.sequence e.bottle_id (if e.passed then 1 else 2) millis
        ≡ ok (some e)
  decode_parts-lem e millis v s q w = elim (Bool-cases e.passed) [
    | inl p ↦ rw (p, w) (ground (arith, p))
    | inr p ↦ rw (p, w) (ground (arith, p))
  ]

if_checked : {A : Type 0} (b : Bool) (x y z : A) → b ≡ true → y ≡ z → (if not b then x else y) ≡ z
if_checked true x y z e h = h
if_checked false x y z e h = absurd (cc)

-- A valid inspection with a nonzero session and sequence, taken at a whole millisecond before 2 ^ 33
-- seconds, comes back from its registers, where the times of whole milliseconds before 2 ^ 33 seconds are exact.
pub decode-encode :
    (times : Timestamps) (e : BottleInspection)
    → IsExact times
    → is_valid e ≡ true
    → 0 < e.session
    → 0 < e.sequence
    → e.inspected_at % 1000 ≡ 0
    → e.inspected_at / 1000 < 2 ^ 33 * 1000
    → decode_inspection times (encode_inspection (some e)) ≡ ok (some e)
unfolding decode_inspection encode_inspection
decode-encode times e x v s q w t =
    let fits : e.session < 2 ^ 64 = ground arith in
    let millis : e.inspected_at ≡ e.inspected_at / 1000 * 1000 = omega arith in
    if_checked (all_words (encode_inspection (some e))) _ _ _ (encode-all_words e v) (
      ap₂ (λ m n. decode_parts times m e.sequence e.bottle_id (if e.passed then 1 else 2) n)
        (words_of_session e.session fits)
        (words_of_millis (e.inspected_at / 1000) (omega (arith, t)))
      ∙ decode_parts-lem times e (e.inspected_at / 1000) v s q
          (x.exact (e.inspected_at / 1000) t ∙ ap ok (sym millis)))

-- What a decoded inspection says of the ten words.
abbrev Decoded : ℕ → ℕ → ℕ → ℕ → ℕ → BottleInspection → Type 0
Decoded session sequence bottle status millis e =
    (e.session ≡ session)
    × (e.sequence ≡ sequence)
    × (e.bottle_id ≡ bottle)
    × ((if e.passed then 1 else 2) ≡ status)
    × (e.inspected_at ≡ millis * 1000)

decode_parts-inv :
    (times : Timestamps) (session sequence bottle status millis : ℕ) (e : BottleInspection)
    → IsExact times
    → millis < 2 ^ 33 * 1000
    → decode_parts times session sequence bottle status millis ≡ ok (some e)
    → Decoded session sequence bottle status millis e
decode_parts-inv times session sequence bottle status millis e exact small x =
    let at = exact.exact millis small in
    (
      ground (arith, at, x),
      ground (arith, at, x),
      ground (arith, at, x),
      ground (arith, at, x),
      ground (arith, at, x),
    )

session_of_words :
    (a b c d : ℕ)
    → a ≤ 65535
    → b ≤ 65535
    → c ≤ 65535
    → d ≤ 65535
    → (word_at 48 (session_of a b c d) ≡ a)
      × (word_at 32 (session_of a b c d) ≡ b)
      × (word_at 16 (session_of a b c d) ≡ c)
      × (word_at 0 (session_of a b c d) ≡ d)
unfolding session_of word_at
session_of_words a b c d p q r s = (omega arith, omega arith, omega arith, omega arith)

millis_of_words :
    (f g h : ℕ)
    → f ≤ 65535
    → g ≤ 65535
    → h ≤ 65535
    → (word_at 32 (millis_of f g h * 1000 / 1000) ≡ f)
      × (word_at 16 (millis_of f g h * 1000 / 1000) ≡ g)
      × (word_at 0 (millis_of f g h * 1000 / 1000) ≡ h)
unfolding millis_of word_at
millis_of_words f g h p q r = (omega arith, omega arith, omega arith)

if_inv :
    (b : Bool) (x : Exc) (y z : Result (Option BottleInspection))
    → (if not b then err x else y) ≡ z
    → (e : BottleInspection) → z ≡ ok (some e)
    → (b ≡ true) × (y ≡ z)
if_inv true x y z h e k = (refl, h)
if_inv false x y z h e k = cc

all_words-le :
    (a b c d sequence bottle status f g h : ℕ)
    → all_words (a ∷ b ∷ c ∷ d ∷ sequence ∷ bottle ∷ status ∷ f ∷ g ∷ h ∷ []) ≡ true
    → (a ≤ 65535)
      × (b ≤ 65535)
      × (c ≤ 65535)
      × (d ≤ 65535)
      × (f ≤ 65535)
      × (g ≤ 65535)
      × (h ≤ 65535)
all_words-le a b c d sequence bottle status f g h e = ground arith

-- Ten words that decode to an inspection before 2 ^ 33 seconds are the registers of that inspection.
pub encode-decode :
    (times : Timestamps) (a b c d sequence bottle status f g h : ℕ) (e : BottleInspection)
    → IsExact times
    → millis_of f g h < 2 ^ 33 * 1000
    → decode_inspection times (a ∷ b ∷ c ∷ d ∷ sequence ∷ bottle ∷ status ∷ f ∷ g ∷ h ∷ [])
      ≡ ok (some e)
    → encode_inspection (some e) ≡ a ∷ b ∷ c ∷ d ∷ sequence ∷ bottle ∷ status ∷ f ∷ g ∷ h ∷ []
unfolding decode_inspection encode_inspection
encode-decode times a b c d sequence bottle status f g h e exact small x =
    let (p, y) =
      if_inv (all_words (a ∷ b ∷ c ∷ d ∷ sequence ∷ bottle ∷ status ∷ f ∷ g ∷ h ∷ [])) _ _
        (ok (some e)) x e refl in
    let (es, eq, eb, ep, et) =
      decode_parts-inv times (session_of a b c d) sequence bottle status (millis_of f g h) e exact
        small y in
    let bounds = all_words-le a b c d sequence bottle status f g h p in
    let (w3, w2, w1, w0) = session_of_words a b c d bounds.0 bounds.1 bounds.2 bounds.3 in
    let (m2, m1, m0) = millis_of_words f g h bounds.4 bounds.5 bounds.6 in
    rw (es, et, eq, eb, ep, w3, w2, w1, w0, m2, m1, m0)
