-- ===== src/Ledger/Execution.antt =====
-- ledger.py: a command whose device write may have been issued is never admitted again.
use zilina_eirvah_edge_impl.Prelude.{
  ℕ, suc, ◌+◌, max, ◌≤◌, String, ◌≡◌, refl, Bool, true, false, Option, none, some, List, [], ◌∷◌,
  arith, ◌==◌, All, All-map, Bool-cases, inl, inr,
}
use zilina_eirvah_edge_impl.Sql.{
  select, Distinct, select-delete, select-update, select-insert, key-select,
}
use zilina_eirvah_edge_impl.Ledger.{
  State, Row, Ledger, id_of, is_active, is_started, is_stale, prune, lookup, named, prepare,
  new_row, claim, holds_claim, has_started, start, mark_started, settle, completed_result, complete,
  failed_result, failed_state, fail, fail_row, first, owned, recovery_reason, recover_rows, recover,
  readings, where_rows, transaction,
}
use zilina_eirvah_edge_impl.Ledger.Invariant.{IsValid, recover_rows-IsValid}

-- A device write of the command may have been issued.
abbrev pub may_have_written : State → Bool
may_have_written State.started = true
may_have_written State.completed = true
may_have_written State.unknown = true
may_have_written State.preparing = false
may_have_written State.retryable = false

-- The row of command `k`, with digest `d`, records that a write may have been issued, and is kept
-- until `h` at least.
abbrev pub Executed : ℕ → ℕ → ℕ → Option Row → Type 0
Executed k d h none = ⊥
Executed k d h (some r) =
    (r.command_id ≡ k) × (r.digest ≡ d) × (may_have_written r.state ≡ true) × (h ≤ r.keep_until)

abbrev pub row_of : ℕ → Ledger → Option Row
row_of k s = select id_of k s.rows

module _ (k d h : ℕ) where
  pub prune-Executed :
      (now : ℕ) (s : Ledger)
      → now ≤ h
      → IsValid s
      → Executed k d h (row_of k s)
      → Executed k d h (select id_of k (prune now s.rows))
  unfolding prune
  prune-Executed now s le v e =
      ground (arith, select-delete id_of k (is_stale now) s.rows v.distinct)

  pub lookup-Executed :
      (j e now : ℕ) (s : Ledger)
      → now ≤ h
      → IsValid s
      → Executed k d h (row_of k s)
      → Executed k d h (row_of k (lookup j e now s).1)
  unfolding lookup
  lookup-Executed j e now s le v x = ground (arith, prune-Executed now s le v x)

  -- A claim of another command leaves the row alone; a claim of this one gets no token.
  pub claim-Executed :
      (j e deadline token now now' : ℕ) (s : Ledger)
      → now ≤ h
      → IsValid s
      → Executed k d h (row_of k s)
      → Executed k d h (row_of k (claim j e deadline token now now' s).1)
  unfolding claim
  claim-Executed j e deadline token now now' s le v x =
      let kept = prune now s.rows in
      let keep_until = max now' deadline + s.retention_s in
      ground (
        arith,
        prune-Executed now s le v x,
        select-insert id_of k (new_row j e token keep_until) kept,
        select-update id_of (named j) (prepare token keep_until) (λ r. refl) k kept,
      )

  pub mark_started-Executed :
      (j token now : ℕ) (s : Ledger)
      → Executed k d h (row_of k s)
      → Executed k d h (row_of k (mark_started j token now s).1)
  unfolding mark_started
  mark_started-Executed j token now s x =
      ground (arith, select-update id_of (holds_claim j token) (start now) (λ r. refl) k s.rows)

  pub complete-Executed :
      (j token written_at now : ℕ) (s : Ledger)
      → Executed k d h (row_of k s)
      → Executed k d h (row_of k (complete j token written_at now s).1)
  unfolding complete
  complete-Executed j token written_at now s x = ground (
    arith,
    select-update id_of (has_started j token)
        (settle State.completed (completed_result written_at) (now + s.retention_s)) (λ r. refl) k
        s.rows,
  )

pub first-eq-select :
    (j token : ℕ) (r : Row) (rows : List Row)
    → Distinct id_of rows
    → first (owned j token) rows ≡ some r
    → select id_of j rows ≡ some r
first-eq-select j token r [] h e = cc
first-eq-select j token r (s ∷ rows) h e =
    ground (arith, first-eq-select j token r rows h.1, key-select id_of j r rows)

module _ (k d h : ℕ) where
  fail_row-Executed :
      (j : ℕ) (reason : String) (keep_until : ℕ) (o : Option Row) (s : Ledger)
      → ((r : Row) → o ≡ some r → select id_of j s.rows ≡ some r)
      → Executed k d h (row_of k s)
      → Executed k d h (row_of k (transaction (fail_row j reason keep_until o) s).1)
  fail_row-Executed j reason keep_until none s own x = x
  fail_row-Executed j reason keep_until (some r) s own x = ground (
    arith,
    own r refl,
    select-update id_of (named j)
        (settle (failed_state (is_started r.state)) (failed_result (is_started r.state) reason)
          keep_until)
        (λ r. refl) k s.rows,
  )

  pub fail-Executed :
      (j token : ℕ) (reason : String) (now : ℕ) (s : Ledger)
      → IsValid s
      → Executed k d h (row_of k s)
      → Executed k d h (row_of k (fail j token reason now s).1)
  unfolding fail
  fail-Executed j token reason now s v x =
      fail_row-Executed j reason (now + s.retention_s) (first (owned j token) s.rows) s
        (λ r e. first-eq-select j token r s.rows v.distinct e) x

-- Every selected row of command `k` was read in state 'started'.
abbrev Begun : ℕ → Row → Type 0
Begun k r = r.command_id ≡ k → is_started r.state ≡ true

pub where_rows-All :
    (P Q : Row → Type 0) (p : Row → Bool) (rows : List Row)
    → ((r : Row) → p r ≡ true → P r → Q r)
    → All P rows
    → All Q (where_rows p rows)
where_rows-All P Q p [] f h = tt
where_rows-All P Q p (r ∷ rows) f h = ground (arith, f r, where_rows-All P Q p rows f h.1)

All-absent :
    (k : ℕ) (rows : List Row) → select id_of k rows ≡ none → All (λ r. ¬ (r.command_id ≡ k)) rows
All-absent k [] e = tt
All-absent k (r ∷ rows) e = ground (arith, All-absent k rows)

-- With distinct keys, a row of command `k` in the table is the one that is selected.
pub All-selected :
    (k : ℕ) (rows : List Row)
    → Distinct id_of rows
    → All (λ r. r.command_id ≡ k → select id_of k rows ≡ some r) rows
All-selected k [] h = tt
All-selected k (r ∷ rows) h = elim (Bool-cases (r.command_id == k)) [
  | inl here ↦ rw here (
    λ e. refl,
    All-map (λ q. ¬ (q.command_id ≡ k)) _ rows (λ q n e. absurd (n e))
        (All-absent k rows (let e : r.command_id ≡ k = ground arith in rw (← e) h.0)),
  )
  | inr other ↦ (
    λ e. absurd (ground arith),
    All-map (λ q. q.command_id ≡ k → select id_of k rows ≡ some q) _ rows (λ q f e. rw other (f e))
        (All-selected k rows h.1),
  )
]

module _ (k d h : ℕ) where
  recover_rows-Executed :
      (clock : ℕ → ℕ) (n retention : ℕ) (selected rows : List Row)
      → All (Begun k) selected
      → Executed k d h (select id_of k rows)
      → Executed k d h (select id_of k (recover_rows clock n retention selected rows))
  unfolding recover_rows
  recover_rows-Executed clock n retention [] rows b x = x
  recover_rows-Executed clock n retention (r ∷ selected) rows b x =
      recover_rows-Executed clock (suc n) retention selected _ b.1 (
        ground (
          arith,
          b.0,
          select-update id_of (named r.command_id)
              (settle (failed_state (is_started r.state))
                (failed_result (is_started r.state) (recovery_reason (is_started r.state)))
                (clock n + retention))
              (λ r. refl) k rows,
        ))

  started_of_Executed :
      (o : Option Row) (r : Row)
      → is_active r.state ≡ true
      → (r.command_id ≡ k → o ≡ some r)
      → Executed k d h o
      → Begun k r
  started_of_Executed o r a f x e = ground (arith, f e)

  pub recover-Executed :
      (clock : ℕ → ℕ) (s : Ledger)
      → ((n : ℕ) → clock n ≤ h)
      → IsValid s
      → Executed k d h (row_of k s)
      → Executed k d h (row_of k (recover clock s))
  unfolding recover
  recover-Executed clock s early v x =
      let selected = where_rows (λ r. is_active r.state) s.rows in
      prune-Executed k d h (clock (readings selected)) _ (early (readings selected))
        (recover_rows-IsValid clock 0 s.retention_s selected s v)
        (recover_rows-Executed clock 0 s.retention_s selected s.rows
          (where_rows-All _ (Begun k) (λ r. is_active r.state) s.rows
            (λ r a f. started_of_Executed (row_of k s) r a f x) (All-selected k s.rows v.distinct))
          x)
