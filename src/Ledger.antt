-- ===== src/Ledger.antt =====
-- services/actuation-signal-publisher/src/actuation_signal_publisher/ledger.py: the durable ledger of
-- commands. A method runs in one transaction, so that it returns with new rows or raises with the
-- old ones. Command identifiers, digests and tokens are only compared, and are numbers; each reading
-- of the clock and each random token is an argument; the JSON of a result is the result.
pub mod Invariant
pub mod Execution
pub mod Trace
pub mod Outcomes
use zilina_eirvah_edge_impl.Prelude.{
  ℕ, ◌+◌, max, String, Bool, true, false, not, ◌&&◌, ◌||◌, Option, none, some, List, [], ◌∷◌, ltb,
  ◌==◌, if◌then◌else◌, eq_option, suc,
}
use zilina_eirvah_edge_impl.Prelude.Exceptions.{Exc, Result, ok, err, ◌>>=◌}
use zilina_eirvah_edge_impl.Sql.{delete, update, count, insert, select}
use zilina_eirvah_edge_impl.Contracts.Actuation.{Outcome, WriteResult}

-- The CHECK constraint on the column `state`
pub data State : Type 0 where
  preparing started completed retryable unknown : State

pub record Row : Type 0 where
  pub command_id : ℕ
  pub digest : ℕ
  pub state : State
  pub token : Option ℕ
  pub result : Option WriteResult
  pub started_at : Option ℕ
  pub keep_until : ℕ

pub record Ledger : Type 0 where
  pub rows : List Row
  pub retention_s : ℕ

pub record Claim : Type 0 where
  pub token : Option ℕ
  pub result : Option WriteResult

abbrev pub id_of : Row → ℕ
id_of r = r.command_id

-- state IN ('preparing','started')
abbrev pub is_active : State → Bool
is_active State.preparing = true
is_active State.started = true
is_active State.completed = false
is_active State.retryable = false
is_active State.unknown = false

abbrev pub is_started : State → Bool
is_started State.started = true
is_started State.preparing = false
is_started State.completed = false
is_started State.retryable = false
is_started State.unknown = false

abbrev pub is_retryable : State → Bool
is_retryable State.retryable = true
is_retryable State.preparing = false
is_retryable State.started = false
is_retryable State.completed = false
is_retryable State.unknown = false

-- CommandLedger._transaction: a body that raises is rolled back.
abbrev pub transaction :
    {A : Type 0} → (List Row → Result (A × List Row)) → Ledger → Result A × Ledger
transaction body s = elim (body s.rows) [
  | ok (a, rows) ↦ (ok a, record s { rows = rows })
  | err e ↦ (err e, s)
]

-- WHERE state IN ('completed','retryable','unknown') AND keep_until < now
abbrev pub is_stale : ℕ → Row → Bool
is_stale now r = not (is_active r.state) && ltb r.keep_until now

unfoldable pub prune : ℕ → List Row → List Row
prune now rows = delete (is_stale now) rows

abbrev pub conflict_result : WriteResult
conflict_result = record {
  outcome = Outcome.conflict;
  written_at = none;
  reason = some "command_id_reused";
  retryable = false;
  replayed = true;
}

abbrev pub pending_result : WriteResult
pending_result = record {
  outcome = Outcome.pending;
  written_at = none;
  reason = some "execution_in_progress";
  retryable = false;
  replayed = true;
}

-- CommandLedger._result: parsing a result that is NULL raises.
unfoldable pub result_of : Row → ℕ → Result WriteResult
result_of r digest =
    if not (r.digest == digest)
    then ok conflict_result
    else if is_active r.state
    then ok pending_result
    else elim r.result [
      | none ↦ err (Exc.other_error "ValidationError")
      | some w ↦ ok (record w { replayed = true })
    ]

abbrev pub replay_row : Option Row → ℕ → Result (Option WriteResult)
replay_row none digest = ok none
replay_row (some r) digest = result_of r digest >>= λ w. ok (some w)

unfoldable pub lookup : ℕ → ℕ → ℕ → Ledger → Result (Option WriteResult) × Ledger
unfolding prune result_of
lookup command_id digest now = transaction λ rows.
    let kept = prune now rows in
    replay_row (select id_of command_id kept) digest >>= λ w. ok (w, kept)

abbrev pub prepare : ℕ → ℕ → Row → Row
prepare token keep_until r = record r {
  state = State.preparing;
  token = some token;
  result = none;
  started_at = none;
  keep_until = max r.keep_until keep_until;
}

abbrev pub new_row : ℕ → ℕ → ℕ → ℕ → Row
new_row command_id digest token keep_until = record {
  command_id = command_id;
  digest = digest;
  state = State.preparing;
  token = some token;
  result = none;
  started_at = none;
  keep_until = keep_until;
}

abbrev pub named : ℕ → Row → Bool
named command_id r = r.command_id == command_id

-- The body of `claim` once the row of the command is read; `keep_until` is
-- max(self.clock(), deadline) + self.retention_s.
abbrev pub claim_row : ℕ → ℕ → ℕ → ℕ → Option Row → List Row → Result (Claim × List Row)
claim_row command_id digest token keep_until none rows = ok (
  record { token = some token; result = none },
  insert (new_row command_id digest token keep_until) rows,
)
claim_row command_id digest token keep_until (some r) rows =
    if not (r.digest == digest) || not (is_retryable r.state)
    then (result_of r digest >>= λ w. ok (record { token = none; result = some w }, rows))
    else ok (
      record { token = some token; result = none },
      update (named command_id) (prepare token keep_until) rows,
    )

-- `token` is secrets.token_hex(16); `now` and `now'` are the two readings of the clock.
unfoldable pub claim : ℕ → ℕ → ℕ → ℕ → ℕ → ℕ → Ledger → Result Claim × Ledger
unfolding prune result_of
claim command_id digest deadline token now now' s =
    transaction
      (λ rows.
        let kept = prune now rows in
        claim_row command_id digest token (max now' deadline + s.retention_s)
          (select id_of command_id kept) kept)
      s

-- WHERE command_id=? AND token=? AND state IN ('preparing','started')
abbrev pub holds_claim : ℕ → ℕ → Row → Bool
holds_claim command_id token r =
    named command_id r && (eq_option r.token token && is_active r.state)

-- WHERE command_id=? AND token=? AND state='started'
abbrev pub has_started : ℕ → ℕ → Row → Bool
has_started command_id token r =
    named command_id r && (eq_option r.token token && is_started r.state)

-- COALESCE(started_at, now)
abbrev pub coalesce : Option ℕ → ℕ → Option ℕ
coalesce none now = some now
coalesce (some t) now = some t

abbrev pub start : ℕ → Row → Row
start now r = record r { state = State.started; started_at = coalesce r.started_at now }

unfoldable pub mark_started : ℕ → ℕ → ℕ → Ledger → Result (Unit {0}) × Ledger
mark_started command_id token now = transaction λ rows.
    if count (holds_claim command_id token) rows == 1
    then ok (tt, update (holds_claim command_id token) (start now) rows)
    else err (Exc.value_error "command claim is no longer active")

-- SET state=?, token=NULL, result=?, keep_until=MAX(keep_until,?)
abbrev pub settle : State → WriteResult → ℕ → Row → Row
settle state result keep_until r = record r {
  state = state;
  token = none;
  result = some result;
  keep_until = max r.keep_until keep_until;
}

abbrev pub completed_result : ℕ → WriteResult
completed_result written_at = record {
  outcome = Outcome.completed;
  written_at = some written_at;
  reason = none;
  retryable = false;
  replayed = false;
}

unfoldable pub complete : ℕ → ℕ → ℕ → ℕ → Ledger → Result WriteResult × Ledger
complete command_id token written_at now s =
    transaction
      (λ rows.
        if count (has_started command_id token) rows == 1
        then ok (
          completed_result written_at,
          update (has_started command_id token)
              (settle State.completed (completed_result written_at) (now + s.retention_s)) rows,
        )
        else err (Exc.value_error "command completion has no active initiation record"))
      s

-- The result of a command that did not complete, by whether a device write may have been issued.
abbrev pub failed_result : Bool → String → WriteResult
failed_result begun reason = record {
  outcome = if begun then Outcome.unknown else Outcome.not_executed;
  written_at = none;
  reason = some reason;
  retryable = not begun;
  replayed = false;
}

abbrev pub failed_state : Bool → State
failed_state begun = if begun then State.unknown else State.retryable

-- WHERE command_id=? AND token=?
abbrev pub owned : ℕ → ℕ → Row → Bool
owned command_id token r = named command_id r && eq_option r.token token

-- The first row that a SELECT with this condition returns
abbrev pub first : (Row → Bool) → List Row → Option Row
first p [] = none
first p (r ∷ rows) = if p r then some r else first p rows

abbrev pub fail_row : ℕ → String → ℕ → Option Row → List Row → Result (WriteResult × List Row)
fail_row command_id reason keep_until none rows =
    err (Exc.value_error "command claim is no longer active")
fail_row command_id reason keep_until (some r) rows =
    if is_active r.state
    then ok (
      failed_result (is_started r.state) reason,
      update (named command_id)
          (settle (failed_state (is_started r.state)) (failed_result (is_started r.state) reason)
            keep_until)
          rows,
    )
    else err (Exc.value_error "command claim is no longer active")

unfoldable pub fail : ℕ → ℕ → String → ℕ → Ledger → Result WriteResult × Ledger
fail command_id token reason now s =
    transaction
      (λ rows.
        fail_row command_id reason (now + s.retention_s) (first (owned command_id token) rows) rows)
      s

-- The rows that a SELECT with this condition returns
abbrev pub where_rows : (Row → Bool) → List Row → List Row
where_rows p [] = []
where_rows p (r ∷ rows) = let rest = where_rows p rows in if p r then r ∷ rest else rest

abbrev pub recovery_reason : Bool → String
recovery_reason begun = if begun then "recovered_after_start" else "recovered_before_write"

-- The loop of `recover` over the selected rows; `clock n` is the n-th reading of the clock.
unfoldable pub recover_rows : (ℕ → ℕ) → ℕ → ℕ → List Row → List Row → List Row
recover_rows clock n retention [] rows = rows
recover_rows clock n retention (r ∷ selected) rows = recover_rows clock (suc n) retention selected (
    update (named r.command_id)
      (settle (failed_state (is_started r.state))
        (failed_result (is_started r.state) (recovery_reason (is_started r.state)))
        (clock n + retention))
      rows)

abbrev pub readings : List Row → ℕ
readings [] = 0
readings (r ∷ rows) = suc (readings rows)

unfoldable pub recover : (ℕ → ℕ) → Ledger → Ledger
unfolding prune recover_rows
recover clock s =
    let selected = where_rows (λ r. is_active r.state) s.rows in
    record s {
      rows = prune (clock (readings selected)) (recover_rows clock 0 s.retention_s selected s.rows);
    }
