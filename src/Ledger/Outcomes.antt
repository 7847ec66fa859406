-- ===== src/Ledger/Outcomes.antt =====
-- ledger.py: what the methods return, and what a later call finds.
use zilina_eirvah_edge_impl.Prelude.{
  ℕ, ◌+◌, ◌≤◌, String, ◌≡◌, refl, List, [], ◌∷◌, All, All-map, none, some, arith, Bool, true, false,
  ◌⊎◌, inl, inr, max, is_some, ◌==◌, if◌then◌else◌, Option-cases, suc,
}
use mathlib.Core.Path.{subst}
use zilina_eirvah_edge_impl.Prelude.Exceptions.{ok}
use zilina_eirvah_edge_impl.Sql.{
  select, key-select, select-delete, select-update, select-insert, count-select, Distinct, delete,
  All-delete, Distinct-update, update, select-All,
}
use zilina_eirvah_edge_impl.Contracts.Actuation.{Outcome, WriteResult}
use zilina_eirvah_edge_impl.Ledger.{
  State, Ledger, Row, lookup, claim, complete, completed_result, fail, recover, recover_rows,
  where_rows, failed_state, prune, id_of, result_of, is_stale, is_active, is_started, has_started,
  settle, first, owned, pending_result, conflict_result, new_row, named, prepare, failed_result,
}
use zilina_eirvah_edge_impl.Ledger.Invariant.{IsValid, claim-IsValid, IsConsistent}
use zilina_eirvah_edge_impl.Ledger.Execution.{row_of, first-eq-select}

has_started-id : (k token : ℕ) (r : Row) → has_started k token r ≡ true → id_of r ≡ k
has_started-id k token r e = ground arith

-- In a well-formed ledger, completing a started command with its token succeeds, and until its
-- retention has passed a lookup with its digest returns the same answer, marked replayed.
pub complete-lookup :
    (k d token written_at now now' : ℕ) (r : Row) (s : Ledger)
    → IsValid s
    → row_of k s ≡ some r
    → r.digest ≡ d
    → r.token ≡ some token
    → r.state ≡ State.started
    → now' ≤ now + s.retention_s
    → ((complete k token written_at now s).0 ≡ ok (completed_result written_at))
      × ((lookup k d now' (complete k token written_at now s).1).0
          ≡ ok (some (record (completed_result written_at) { replayed = true })))
unfolding complete lookup
complete-lookup k d token written_at now now' r s v e ed et es le =
    let change = settle State.completed (completed_result written_at) (now + s.retention_s) in
    let rows = update (has_started k token) change s.rows in
    ground (
      arith,
      key-select id_of k r s.rows e,
      count-select id_of k (has_started k token) s.rows (has_started-id k token) v.distinct,
      select-update id_of (has_started k token) change (λ r. refl) k s.rows,
      select-delete id_of k (is_stale now') rows
          (Distinct-update id_of (has_started k token) change (λ r. refl) s.rows v.distinct),
    )

-- What a granted claim leaves behind.
claim_granted-row :
    (k d deadline token now now' : ℕ) (s : Ledger)
    → IsValid s
    → (claim k d deadline token now now' s).0 ≡ ok (record { token = some token; result = none })
    → (r : Row) × (row_of k (claim k d deadline token now now' s).1 ≡ some r)
      × (r.digest ≡ d)
      × (r.state ≡ State.preparing)
      × (r.token ≡ some token)
unfolding claim prune result_of
claim_granted-row k d deadline token now now' s v g =
    let kept = delete (is_stale now) s.rows in
    let keep_until = max now' deadline + s.retention_s in
    elim (Option-cases (select id_of k kept)) [
      | inl fresh ↦ (
        new_row k d token keep_until,
        ground (arith, select-insert id_of k (new_row k d token keep_until) kept),
        refl,
        refl,
        refl,
      )
      | inr (r, e) ↦ (
        prepare token keep_until r,
        ground (
          arith,
          key-select id_of k r kept e,
          select-update id_of (named k) (prepare token keep_until) (λ r. refl) k kept,
        ),
        ground arith,
        refl,
        refl,
      )
    ]

-- A claim of a command that is being executed is refused.
claim_busy :
    (k e deadline token now now' : ℕ) (r : Row) (s : Ledger)
    → IsValid s
    → row_of k s ≡ some r
    → is_active r.state ≡ true
    → (claim k e deadline token now now' s).0
      ≡ ok (record {
        token = none;
        result = some (if r.digest == e then pending_result else conflict_result);
      })
unfolding claim prune result_of
claim_busy k e deadline token now now' r s v f a =
    ground (arith, select-delete id_of k (is_stale now) s.rows v.distinct)

-- In a well-formed ledger, when a claim of a command has been granted, the next claim of the
-- command, at whatever time, with whatever digest and deadline, is refused: as pending for the same
-- digest and as a conflict for another.
pub claim_exclusive :
    (k d deadline token now now' : ℕ) (e deadline' token' t t' : ℕ) (s : Ledger)
    → IsValid s
    → (claim k d deadline token now now' s).0 ≡ ok (record { token = some token; result = none })
    → (claim k e deadline' token' t t' (claim k d deadline token now now' s).1).0
      ≡ ok (record {
        token = none;
        result = some (if d == e then pending_result else conflict_result);
      })
claim_exclusive k d deadline token now now' e deadline' token' t t' s v g =
    let (r, found, same, prep, tok) = claim_granted-row k d deadline token now now' s v g in
    subst
      (λ x.
        (claim k e deadline' token' t t' (claim k d deadline token now now' s).1).0
        ≡ ok (record {
          token = none;
          result = some (if x == e then pending_result else conflict_result);
        }))
      same
      (claim_busy k e deadline' token' t t' r _ (claim-IsValid k d deadline token now now' s v)
        found (rw prep))

select-eq-first :
    (k token : ℕ) (r : Row) (rows : List Row)
    → select id_of k rows ≡ some r
    → r.token ≡ some token
    → first (owned k token) rows ≡ some r
select-eq-first k token r [] e t = e
select-eq-first k token r (q ∷ rows) e t = ground (arith, select-eq-first k token r rows)

-- In a well-formed ledger, `fail` for the token of a command answers that the command was not
-- executed, and may be retried, exactly if its claim was never marked started; for a started
-- command it answers that the outcome is unknown, not to be retried.
pub fail_classifies :
    (k token now : ℕ) (reason : String) (r : Row) (s : Ledger)
    → IsValid s
    → row_of k s ≡ some r
    → r.token ≡ some token
    → ((r.state ≡ State.preparing)
        × ((fail k token reason now s).0 ≡ ok (failed_result false reason)))
      ⊎ ((r.state ≡ State.started)
          × ((fail k token reason now s).0 ≡ ok (failed_result true reason)))
unfolding fail
fail_classifies k token now reason r s v e et = ground (
  arith,
  select-eq-first k token r s.rows e et,
  select-All id_of IsConsistent k r s.rows v.consistent e,
)

-- Every active row is among the selected ones.
abbrev Covered : List Row → Row → Type 0
Covered selected r = is_active r.state ≡ true → is_some (select id_of r.command_id selected) ≡ true

Covered-settle :
    (r : Row) (selected : List Row) (b : Bool) (w : WriteResult) (keep_until : ℕ) (rows : List Row)
    → All (Covered (r ∷ selected)) rows
    → All
        (Covered selected)
        (update (named r.command_id) (settle (failed_state b) w keep_until) rows)
Covered-settle r selected b w keep_until [] h = tt
Covered-settle r selected b w keep_until (q ∷ rows) h =
    (ground (arith, h.0), Covered-settle r selected b w keep_until rows h.1)

recover_rows-settles :
    (clock : ℕ → ℕ) (n retention : ℕ) (selected rows : List Row)
    → All (Covered selected) rows
    → All (λ r. is_active r.state ≡ false) (recover_rows clock n retention selected rows)
unfolding recover_rows
recover_rows-settles clock n retention [] rows h =
    All-map (Covered []) _ rows (λ r c. ground (arith, c)) h
recover_rows-settles clock n retention (r ∷ selected) rows h =
    recover_rows-settles clock (suc n) retention selected _
      (Covered-settle r selected (is_started r.state) _ (clock n + retention) rows h)

Covered-where_rows :
    (k : ℕ) (rows : List Row) (r : Row)
    → select id_of k rows ≡ some r
    → is_active r.state ≡ true
    → is_some (select id_of k (where_rows (λ r. is_active r.state) rows)) ≡ true
Covered-where_rows k [] r e a = cc
Covered-where_rows k (q ∷ rows) r e a = ground (arith, Covered-where_rows k rows r)

All-of_selected :
    (P : Row → Type 0) (rows : List Row)
    → Distinct id_of rows
    → ((r : Row) → select id_of r.command_id rows ≡ some r → P r)
    → All P rows
All-of_selected P [] d f = tt
All-of_selected P (r ∷ rows) d f =
    (f r (ground arith), All-of_selected P rows d.1 (λ q e. f q (ground arith)))

-- After the recovery at startup of a well-formed ledger, no command is left being prepared or
-- started, whatever the clock reads.
pub recover-settles :
    (clock : ℕ → ℕ) (s : Ledger)
    → IsValid s
    → All (λ r. is_active r.state ≡ false) (recover clock s).rows
unfolding recover prune
recover-settles clock s v = All-delete _ _ _ (
    recover_rows-settles clock 0 s.retention_s (where_rows (λ r. is_active r.state) s.rows) s.rows (
      All-of_selected (Covered (where_rows (λ r. is_active r.state) s.rows)) s.rows v.distinct
        (λ r e a. Covered-where_rows r.command_id s.rows r e a)))

-- In a well-formed ledger, `fail` answers that a command was not executed only if its row does not
-- say that a write may have been issued.
pub fail_not_executed :
    (k token now : ℕ) (reason : String) (w : WriteResult) (s : Ledger)
    → IsValid s
    → (fail k token reason now s).0 ≡ ok w
    → w.outcome ≡ Outcome.not_executed
    → (r : Row) × (row_of k s ≡ some r) × (r.state ≡ State.preparing)
unfolding fail
fail_not_executed k token now reason w s v h o =
    elim (Option-cases (first (owned k token) s.rows)) [
      | inl absent ↦ absurd (ground arith)
      | inr (r, e) ↦ (r, first-eq-select k token r s.rows v.distinct e, ground arith)
    ]
