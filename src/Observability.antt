-- ===== src/Observability.antt =====
-- libs/eirvah-observability/src/eirvah_observability/execution.py: EvidenceBuffer. A record that cannot
-- be written as JSON is `none`; the journal file, its checkpoints and the clock are left out, but for
-- whether there is a directory.
use mathlib.Core.List.{append_assoc}
use zilina_eirvah_edge_impl.Prelude.{
  ℕ, ◌+◌, ◌-◌, ◌≤◌, ◌<◌, ◌≡◌, refl, sym, ap, ◌∙◌, Bool, true, not, ◌&&◌, Option, none, some, List,
  [], ◌∷◌, ◌++◌, ltb, leb, if◌then◌else◌, arith, length, if_holds,
}
use zilina_eirvah_edge_impl.Prelude.Exceptions.{Exc, Result, ok, err}

-- A record with its `record_seq`
pub record Stored (A : Type 0) : Type 0 where
  pub record_seq : ℕ
  pub content : A

pub record EvidenceBuffer (A : Type 0) : Type 0 where
  pub records : List (Stored A)
  pub seq : ℕ
  pub capacity : ℕ
  pub has_directory : Bool

pub record Snapshot (A : Type 0) : Type 0 where
  pub record_seq : ℕ
  pub first_available_seq : ℕ
  pub complete : Bool
  pub records : List (Stored A)

module _ {A : Type 0} where
  -- EvidenceBuffer(capacity, directory)
  abbrev pub created : ℕ → Bool → EvidenceBuffer A
  created capacity has_directory = record {
    records = [];
    seq = 0;
    capacity = capacity;
    has_directory = has_directory;
  }

  -- deque(maxlen=capacity).append: the oldest record goes.
  abbrev pub drop_first : List (Stored A) → List (Stored A)
  drop_first [] = []
  drop_first (r ∷ rs) = rs

  abbrev pub push : ℕ → Stored A → List (Stored A) → List (Stored A)
  push capacity new rs =
      if ltb capacity (length (rs ++ new ∷ [])) then drop_first (rs ++ new ∷ []) else rs ++ new ∷ []

  -- EvidenceBuffer.append: the number is taken also when the record cannot be written.
  unfoldable pub append : Option A → EvidenceBuffer A → Result (Stored A) × EvidenceBuffer A
  append none b = (
    err (Exc.value_error "Out of range float values are not JSON compliant"),
    record b { seq = b.seq + 1 },
  )
  append (some a) b =
      let new : Stored A = record { record_seq = b.seq + 1; content = a } in
      (ok new, record b { seq = b.seq + 1; records = push b.capacity new b.records })

  abbrev pub after_seq : ℕ → List (Stored A) → List (Stored A)
  after_seq after [] = []
  after_seq after (r ∷ rs) =
      let rest = after_seq after rs in if ltb after r.record_seq then r ∷ rest else rest

  abbrev pub first_of : ℕ → List (Stored A) → ℕ
  first_of seq [] = seq + 1
  first_of seq (r ∷ rs) = r.record_seq

  -- EvidenceBuffer.snapshot, of a cursor that is not negative
  unfoldable pub snapshot : ℕ → EvidenceBuffer A → Snapshot A
  snapshot after b =
      let first = first_of b.seq b.records in
      record {
        record_seq = b.seq;
        first_available_seq = first;
        complete =
            (leb (first - 1) after && leb after b.seq)
            && not (b.has_directory && ltb b.capacity b.seq);
        records = after_seq after b.records;
      }

  -- Appends, one after another, with all records that were ever stored
  abbrev pub stored : Result (Stored A) → List (Stored A) → List (Stored A)
  stored (ok new) history = history ++ new ∷ []
  stored (err e) history = history

  unfoldable pub append_all :
      List (Option A) → EvidenceBuffer A → List (Stored A) → EvidenceBuffer A × List (Stored A)
  append_all [] b history = (b, history)
  append_all (o ∷ os) b history = let (r, c) = append o b in append_all os c (stored r history)

  -- Numbers that rise, from `low` on and up to `seq`
  abbrev pub Rises : ℕ → ℕ → List (Stored A) → Type 0
  Rises low seq [] = low ≤ seq + 1
  Rises low seq (r ∷ rs) = (low ≤ r.record_seq) × Rises (r.record_seq + 1) seq rs

  -- Numbers below `low`
  abbrev pub Below : ℕ → List (Stored A) → Type 0
  Below low [] = Unit {0}
  Below low (r ∷ rs) = (r.record_seq < low) × Below low rs

  -- The history is what was dropped, all of it before the first record, and the records.
  pub record Follows (b : EvidenceBuffer A) (history : List (Stored A)) : Type 0 where
    pub dropped : List (Stored A)
    pub low : ℕ
    pub split : history ≡ dropped ++ b.records
    pub before : Below low dropped
    pub rising : Rises low b.seq b.records

  after_seq-Below :
      (low after : ℕ) (rs more : List (Stored A))
      → low ≤ after + 1
      → Below low rs
      → after_seq after (rs ++ more) ≡ after_seq after more
  after_seq-Below low after [] more h b = refl
  after_seq-Below low after (r ∷ rs) more h b =
      ground (arith, h, b.0, after_seq-Below low after rs more h b.1)

  Below-add :
      (low next : ℕ) (r : Stored A) (rs : List (Stored A))
      → low ≤ next
      → r.record_seq < next
      → Below low rs
      → Below next (rs ++ r ∷ [])
  Below-add low next r [] h k b = (k, tt)
  Below-add low next r (x ∷ rs) h k b = (omega (arith, h, b.0), Below-add low next r rs h k b.1)

  Rises-add :
      (low seq : ℕ) (new : Stored A) (rs : List (Stored A))
      → new.record_seq ≡ seq + 1
      → Rises low seq rs
      → Rises low (seq + 1) (rs ++ new ∷ [])
  Rises-add low seq new [] e h = (omega (arith, e, h), omega (arith, e))
  Rises-add low seq new (r ∷ rs) e h = (h.0, Rises-add (r.record_seq + 1) seq new rs e h.1)

  Rises-more : (low seq : ℕ) (rs : List (Stored A)) → Rises low seq rs → Rises low (seq + 1) rs
  Rises-more low seq [] h = omega (arith, h)
  Rises-more low seq (r ∷ rs) h = (h.0, Rises-more (r.record_seq + 1) seq rs h.1)

  -- The first record goes over to the dropped ones.
  drop-Follows :
      (b : EvidenceBuffer A) (history dropped : List (Stored A)) (low : ℕ) (rs : List (Stored A))
      → history ≡ dropped ++ rs
      → Below low dropped
      → Rises low (b.seq + 1) rs
      → Follows (record b { records = drop_first rs; seq = b.seq + 1 }) history
  drop-Follows b history dropped low [] e k h = record {
    dropped = dropped;
    low = low;
    split = e;
    before = k;
    rising = h;
  }
  drop-Follows b history dropped low (r ∷ rs) e k h = record {
    dropped = dropped ++ r ∷ [];
    low = r.record_seq + 1;
    split = e ∙ sym (append_assoc dropped (r ∷ []) rs);
    before = Below-add low (r.record_seq + 1) r dropped (omega (arith, h.0)) (omega arith) k;
    rising = h.1;
  }

  append-Follows :
      (o : Option A) (b : EvidenceBuffer A) (history : List (Stored A))
      → Follows b history
      → let (r, c) = append o b in Follows c (stored r history)
  unfolding append
  append-Follows none b history h = record {
    dropped = h.dropped;
    low = h.low;
    split = h.split;
    before = h.before;
    rising = Rises-more h.low b.seq b.records h.rising;
  }
  append-Follows (some a) b history h =
      let new : Stored A = record { record_seq = b.seq + 1; content = a } in
      let all = b.records ++ new ∷ [] in
      let rising = Rises-add h.low b.seq new b.records refl h.rising in
      let split : history ++ new ∷ [] ≡ h.dropped ++ all =
        ap (λ l. l ++ new ∷ []) h.split ∙ append_assoc h.dropped b.records (new ∷ []) in
      let taken : EvidenceBuffer A = record b { records = all; seq = b.seq + 1 } in
      if_holds (λ rs. Follows (record b { records = rs; seq = b.seq + 1 }) (history ++ new ∷ []))
        (ltb b.capacity (length all)) (drop_first all) all
        (drop-Follows b (history ++ new ∷ []) h.dropped h.low all split h.before rising)
        (record {
          dropped = h.dropped;
          low = h.low;
          split = split;
          before = h.before;
          rising = rising;
        })

  run-Follows :
      (os : List (Option A)) (b : EvidenceBuffer A) (history : List (Stored A))
      → Follows b history
      → let (c, all) = append_all os b history in Follows c all
  unfolding append_all
  run-Follows [] b history h = h
  run-Follows (o ∷ os) b history h = run-Follows os _ _ (append-Follows o b history h)

  low-first : (low seq : ℕ) (rs : List (Stored A)) → Rises low seq rs → low ≤ first_of seq rs
  low-first low seq [] h = h
  low-first low seq (r ∷ rs) h = h.0

  -- From an empty buffer, after any appends, some of which may have raised: a snapshot that says that
  -- it is complete has every record after its cursor that was ever stored, and nothing else.
  pub snapshot-append_all :
      (os : List (Option A)) (capacity after : ℕ) (has_directory : Bool)
      → (snapshot after (append_all os (created capacity has_directory) []).0).complete ≡ true
      → (snapshot after (append_all os (created capacity has_directory) []).0).records
        ≡ after_seq after (append_all os (created capacity has_directory) []).1
  unfolding snapshot
  snapshot-append_all os capacity after has_directory h =
      let empty = created capacity has_directory in
      let (b, history) = append_all os empty [] in
      let f =
        run-Follows os empty []
          (record { dropped = []; low = 0; split = refl; before = tt; rising = omega arith }) in
      let first = low-first f.low b.seq b.records f.rising in
      sym (
        ap (after_seq after) f.split
        ∙ after_seq-Below f.low after f.dropped b.records (ground (arith, first, h)) f.before)
