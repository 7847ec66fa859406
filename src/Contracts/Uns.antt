-- ===== src/Contracts/Uns.antt =====
-- libs/eirvah-contracts/src/eirvah_contracts/uns.py: the seven levels of a topic. A text is its list
-- of characters.
use zilina_eirvah_edge_impl.Prelude.{
  ◌≡◌, refl, ap, ◌∙◌, Bool, Bool-cases, inl, inr, true, false, not, ◌&&◌, ◌||◌, List, [], ◌∷◌, leb,
  ◌==◌, if◌then◌else◌, arith,
}
use Prim.Native.String.{String, count, ◌++◌ as ◌<>◌, [] as empty, ◌∷◌ as ◌:::◌}
use Prim.Native.String.append
use Prim.Native.Char.{Char, code}
use zilina_eirvah_edge_impl.Prelude.Exceptions.{Exc, Result, ok, err}

-- UNSPath
pub record UnsPath : Type 0 where
  pub enterprise : String
  pub site : String
  pub area : String
  pub line : String
  pub cell : String
  pub equipment : String
  pub measurement : String

-- [a-z0-9_]
abbrev pub is_segment_char : Char → Bool
is_segment_char c =
    (leb 97 (code c) && leb (code c) 122) || ((leb 48 (code c) && leb (code c) 57) || code c == 95)

abbrev pub all_segment_chars : String → Bool
all_segment_chars empty = true
all_segment_chars (c ::: s) = is_segment_char c && all_segment_chars s

-- _is_segment
unfoldable pub is_segment : String → Bool
is_segment empty = false
is_segment (c ::: s) = is_segment_char c && all_segment_chars s

-- A field of UNSPath: a segment of at most 128 characters
unfoldable pub is_field : String → Bool
is_field s = is_segment s && leb (count s) 128

unfoldable pub all_fields : List String → Bool
all_fields [] = true
all_fields (s ∷ ss) = is_field s && all_fields ss

abbrev pub levels : UnsPath → List String
levels p = p.enterprise ∷ p.site ∷ p.area ∷ p.line ∷ p.cell ∷ p.equipment ∷ p.measurement ∷ []

-- UNSPath(…) of seven texts
unfoldable pub uns_path :
    String → String → String → String → String → String → String → Result UnsPath
uns_path a b c d e f g =
    if all_fields (a ∷ b ∷ c ∷ d ∷ e ∷ f ∷ g ∷ [])
    then ok (record {
      enterprise = a;
      site = b;
      area = c;
      line = d;
      cell = e;
      equipment = f;
      measurement = g;
    })
    else err (Exc.other_error "ValidationError")

-- "/".join(parts)
unfoldable pub join : List String → String
join [] = ""
join (s ∷ []) = s
join (s ∷ t ∷ ss) = s <> ("/" <> join (t ∷ ss))

-- build_uns_topic
unfoldable pub build_uns_topic : UnsPath → String
build_uns_topic p = join (levels p)

-- topic.split("/")
abbrev pub push : Char → List String → List String
push c [] = (c ::: "") ∷ []
push c (s ∷ ss) = (c ::: s) ∷ ss

unfoldable pub split : String → List String
split empty = "" ∷ []
split (c ::: s) = let rest = split s in if code c == 47 then "" ∷ rest else push c rest

abbrev pub all_segments : List String → Bool
all_segments [] = true
all_segments (s ∷ ss) = is_segment s && all_segments ss

-- The parse, of the parts of a topic
unfoldable pub parse_parts : List String → Result UnsPath
parse_parts (a ∷ b ∷ c ∷ d ∷ e ∷ f ∷ g ∷ []) =
    if not (all_segments (a ∷ b ∷ c ∷ d ∷ e ∷ f ∷ g ∷ []))
    then err (Exc.value_error "UNS topic contains an invalid segment")
    else uns_path a b c d e f g
parse_parts _ = err (Exc.value_error "UNS topic must have exactly 7 segments")

-- parse_uns_topic
unfoldable pub parse_uns_topic : String → Result UnsPath
parse_uns_topic topic = parse_parts (split topic)

append-one : (c : Char) (s : String) → (c ::: empty) <> s ≡ c ::: s
append-one c s = append.cons c empty s ∙ ap (λ t. c ::: t) (append.nil s)

split-slash : (s : String) → split ("/" <> s) ≡ "" ∷ split s
unfolding split
split-slash s = ap split (append-one "/" s)

split-none : (s : String) → all_segment_chars s ≡ true → split s ≡ s ∷ []
unfolding split
split-none empty h = refl
split-none (c ::: s) h = ground (arith, split-none s)

split-push :
    (c : Char) (s : String) (x : String) (xs : List String)
    → is_segment_char c ≡ true
    → split s ≡ x ∷ xs
    → split (c ::: s) ≡ (c ::: x) ∷ xs
unfolding split
split-push c s x xs h e = ground (arith, h, e)

both : (a b : Bool) → (a && b) ≡ true → (a ≡ true) × (b ≡ true)
both true b h = (refl, h)
both false b h = absurd (cc h)

-- A text without a slash is the first part of what follows it behind a slash.
split-append : (s t : String) → all_segment_chars s ≡ true → split (s <> ("/" <> t)) ≡ s ∷ split t
split-append empty t h = ap split (append.nil ("/" <> t)) ∙ split-slash t
split-append (c ::: s) t h =
    let (x, y) = both (is_segment_char c) (all_segment_chars s) h in
    ap split (append.cons c s ("/" <> t))
    ∙ split-push c (s <> ("/" <> t)) s (split t) x (split-append s t y)

is_field-chars :
    (s : String) → is_field s ≡ true → (is_segment s ≡ true) × (all_segment_chars s ≡ true)
unfolding is_field is_segment
is_field-chars empty h = absurd (cc h)
is_field-chars (c ::: s) h = let (x, y) = both _ _ h in (x, x)

-- Parts that are segments come back from the join.
split-join :
    (s : String) (ss : List String)
    → all_fields (s ∷ ss) ≡ true
    → (split (join (s ∷ ss)) ≡ s ∷ ss) × (all_segments (s ∷ ss) ≡ true)
unfolding join all_fields
split-join s [] h =
    let (f, _) = both (is_field s) true h in
    let (seg, chars) = is_field-chars s f in (split-none s chars, ground (arith, seg))
split-join s (t ∷ ss) h =
    let (f, r) = both (is_field s) (all_fields (t ∷ ss)) h in
    let (seg, chars) = is_field-chars s f in
    let (back, segs) = split-join t ss r in
    (split-append s (join (t ∷ ss)) chars ∙ ap (λ l. s ∷ l) back, ground (arith, seg, segs))

uns_path-valid :
    (a b c d e f g : String) (p : UnsPath)
    → uns_path a b c d e f g ≡ ok p
    → (all_fields (levels p) ≡ true) × (levels p ≡ a ∷ b ∷ c ∷ d ∷ e ∷ f ∷ g ∷ [])
unfolding uns_path
uns_path-valid a b c d e f g p h = elim (Bool-cases (all_fields (a ∷ b ∷ c ∷ d ∷ e ∷ f ∷ g ∷ []))) [
  | inl y ↦ ground (arith, h, y)
  | inr n ↦ ground (arith, h, n)
]

-- A path that was built from any seven texts is what its topic parses to.
pub parse-build :
    (a b c d e f g : String) (p : UnsPath)
    → uns_path a b c d e f g ≡ ok p
    → parse_uns_topic (build_uns_topic p) ≡ ok p
unfolding parse_uns_topic build_uns_topic parse_parts uns_path
parse-build a b c d e f g p h =
    let (valid, parts) = uns_path-valid a b c d e f g p h in
    let (back, segs) =
      split-join p.enterprise (p.site ∷ p.area ∷ p.line ∷ p.cell ∷ p.equipment ∷ p.measurement ∷ [])
        valid in
    rw (back, segs, valid) refl
