-- ===== src/Ledger/Invariant.antt =====
-- ledger.py: the invariant of the table of commands, and that every method keeps it.
use zilina_eirvah_edge_impl.Prelude.{
  ℕ, suc, ◌+◌, max, String, ◌≡◌, refl, Bool, true, false, Option, none, some, List, [], ◌∷◌, arith,
  is_some, All, All-append,
}
use zilina_eirvah_edge_impl.Sql.{
  update, insert, select, Distinct, All-delete, All-update, Distinct-delete, Distinct-update,
  Distinct-insert,
}
use zilina_eirvah_edge_impl.Contracts.Actuation.{Outcome, WriteResult}
use zilina_eirvah_edge_impl.Ledger.{
  State, Row, Ledger, transaction, id_of, is_active, is_started, prune, lookup, named, prepare,
  new_row, claim, holds_claim, has_started, start, mark_started, settle, completed_result, complete,
  failed_result, failed_state, fail, fail_row, first, owned, recovery_reason, recover_rows, recover,
  readings, where_rows,
}

-- An active command holds a token and no result; a settled one has a result that says how it ended.
abbrev pub Consistent : State → Option ℕ → Option WriteResult → Type 0
Consistent State.preparing (some t) none = Unit {0}
Consistent State.started (some t) none = Unit {0}
Consistent State.completed none (some w) =
    (w.outcome ≡ Outcome.completed) × (is_some w.written_at ≡ true) × (w.retryable ≡ false)
Consistent State.retryable none (some w) = (w.outcome ≡ Outcome.not_executed) × (w.retryable ≡ true)
Consistent State.unknown none (some w) = (w.outcome ≡ Outcome.unknown) × (w.retryable ≡ false)
Consistent _ _ _ = ⊥

abbrev pub IsConsistent : Row → Type 0
IsConsistent r = Consistent r.state r.token r.result

pub record IsValid (s : Ledger) : Type 0 where
  pub distinct : Distinct id_of s.rows
  pub consistent : All IsConsistent s.rows

prune-IsValid : (now : ℕ) (s : Ledger) → IsValid s → IsValid (record s { rows = prune now s.rows })
unfolding prune
prune-IsValid now s v = record {
  distinct = Distinct-delete id_of _ s.rows v.distinct;
  consistent = All-delete IsConsistent _ s.rows v.consistent;
}

pub lookup-IsValid :
    (command_id digest now : ℕ) (s : Ledger)
    → IsValid s
    → IsValid (lookup command_id digest now s).1
unfolding lookup
lookup-IsValid command_id digest now s v = ground (arith, prune-IsValid now s v)

module _ (p : Row → Bool) (f : Row → Row) (same : (r : Row) → id_of (f r) ≡ id_of r) where
  update-IsValid :
      (s : Ledger)
      → ((r : Row) → IsConsistent r → p r ≡ true → IsConsistent (f r))
      → IsValid s
      → IsValid (record s { rows = update p f s.rows })
  update-IsValid s keep v = record {
    distinct = Distinct-update id_of p f same s.rows v.distinct;
    consistent = All-update IsConsistent p f s.rows keep v.consistent;
  }

insert-IsValid :
    (r : Row) (s : Ledger)
    → IsConsistent r
    → select id_of r.command_id s.rows ≡ none
    → IsValid s
    → IsValid (record s { rows = insert r s.rows })
insert-IsValid r s c e v = record {
  distinct = Distinct-insert id_of r s.rows v.distinct e;
  consistent = All-append IsConsistent s.rows (r ∷ []) v.consistent (c, tt);
}

pub claim-IsValid :
    (command_id digest deadline token now now' : ℕ) (s : Ledger)
    → IsValid s
    → IsValid (claim command_id digest deadline token now now' s).1
unfolding claim
claim-IsValid command_id digest deadline token now now' s v = ground (
  arith,
  prune-IsValid now s v,
  insert-IsValid (new_row command_id digest token (max now' deadline + s.retention_s))
      (record s { rows = prune now s.rows }),
  update-IsValid (named command_id) (prepare token (max now' deadline + s.retention_s)) (λ r. refl)
      (record s { rows = prune now s.rows }) (λ r c e. tt),
)

start-IsConsistent :
    (now command_id token : ℕ) (r : Row)
    → IsConsistent r
    → holds_claim command_id token r ≡ true
    → IsConsistent (start now r)
start-IsConsistent now command_id token r c e = ground arith

pub mark_started-IsValid :
    (command_id token now : ℕ) (s : Ledger)
    → IsValid s
    → IsValid (mark_started command_id token now s).1
unfolding mark_started
mark_started-IsValid command_id token now s v = ground (
  arith,
  update-IsValid (holds_claim command_id token) (start now) (λ r. refl) s
      (start-IsConsistent now command_id token) v,
)

pub complete-IsValid :
    (command_id token written_at now : ℕ) (s : Ledger)
    → IsValid s
    → IsValid (complete command_id token written_at now s).1
unfolding complete
complete-IsValid command_id token written_at now s v = ground (
  arith,
  update-IsValid (has_started command_id token)
      (settle State.completed (completed_result written_at) (now + s.retention_s)) (λ r. refl) s
      (λ r c e. (refl, refl, refl)) v,
)

settle_failed-IsConsistent :
    (b : Bool) (reason : String) (keep_until : ℕ) (r : Row)
    → IsConsistent (settle (failed_state b) (failed_result b reason) keep_until r)
settle_failed-IsConsistent true reason keep_until r = (refl, refl)
settle_failed-IsConsistent false reason keep_until r = (refl, refl)

settle_failed-IsValid :
    (command_id : ℕ) (b : Bool) (reason : String) (keep_until : ℕ) (s : Ledger)
    → IsValid s
    → IsValid (record s {
      rows =
          update
            (named command_id)
            (settle (failed_state b) (failed_result b reason) keep_until)
            s.rows;
    })
settle_failed-IsValid command_id b reason keep_until s v =
    update-IsValid (named command_id) _ (λ r. refl) s
      (λ r c e. settle_failed-IsConsistent b reason keep_until r) v

fail_row-IsValid :
    (command_id : ℕ) (reason : String) (keep_until : ℕ) (o : Option Row) (s : Ledger)
    → IsValid s
    → IsValid (transaction (fail_row command_id reason keep_until o) s).1
fail_row-IsValid command_id reason keep_until none s v = v
fail_row-IsValid command_id reason keep_until (some r) s v =
    ground (arith, settle_failed-IsValid command_id (is_started r.state) reason keep_until s v)

pub fail-IsValid :
    (command_id token : ℕ) (reason : String) (now : ℕ) (s : Ledger)
    → IsValid s
    → IsValid (fail command_id token reason now s).1
unfolding fail
fail-IsValid command_id token reason now s v =
    fail_row-IsValid command_id reason (now + s.retention_s) (first (owned command_id token) s.rows)
      s v

pub recover_rows-IsValid :
    (clock : ℕ → ℕ) (n retention : ℕ) (selected : List Row) (s : Ledger)
    → IsValid s
    → IsValid (record s { rows = recover_rows clock n retention selected s.rows })
unfolding recover_rows
recover_rows-IsValid clock n retention [] s v = v
recover_rows-IsValid clock n retention (r ∷ selected) s v =
    recover_rows-IsValid clock (suc n) retention selected _ (
      settle_failed-IsValid r.command_id (is_started r.state) (recovery_reason (is_started r.state))
        (clock n + retention) s v)

pub recover-IsValid : (clock : ℕ → ℕ) (s : Ledger) → IsValid s → IsValid (recover clock s)
unfolding recover
recover-IsValid clock s v =
    let selected = where_rows (λ r. is_active r.state) s.rows in
    prune-IsValid (clock (readings selected)) _
      (recover_rows-IsValid clock 0 s.retention_s selected s v)
