-- ===== src/Ledger/Trace.antt =====
-- ledger.py: any sequence of calls on the ledger, by any callers.
use zilina_eirvah_edge_impl.Prelude.{
  ℕ, ◌+◌, ◌≤◌, String, ◌≡◌, refl, List, [], ◌∷◌, All, arith, Bool, false, is_some, ◌&&◌, ◌==◌,
  if◌then◌else◌, Bool-cases, inl, inr,
}
use zilina_eirvah_edge_impl.Prelude.Exceptions.{Result, ok, err}
use zilina_eirvah_edge_impl.Ledger.{
  Ledger, Claim, lookup, claim, mark_started, complete, fail, recover, result_of,
}
use zilina_eirvah_edge_impl.Ledger.Invariant.{
  IsValid, lookup-IsValid, claim-IsValid, mark_started-IsValid, complete-IsValid, fail-IsValid,
  recover-IsValid,
}
use zilina_eirvah_edge_impl.Ledger.Execution.{
  Executed, row_of, prune-Executed, lookup-Executed, claim-Executed, mark_started-Executed,
  complete-Executed, fail-Executed, recover-Executed,
}

-- A call of one method with its arguments; what the clock and the random source return is part of
-- the call.
pub data Call : Type 0 where
  lookup_call : (command_id digest now : ℕ) → Call
  claim_call : (command_id digest deadline token now now' : ℕ) → Call
  mark_started_call : (command_id token now : ℕ) → Call
  complete_call : (command_id token written_at now : ℕ) → Call
  fail_call : (command_id token : ℕ) → String → (now : ℕ) → Call
  recover_call : (ℕ → ℕ) → Call

unfoldable pub step : Call → Ledger → Ledger
step (Call.lookup_call j e now) s = (lookup j e now s).1
step (Call.claim_call j e deadline token now now') s = (claim j e deadline token now now' s).1
step (Call.mark_started_call j token now) s = (mark_started j token now s).1
step (Call.complete_call j token written_at now) s = (complete j token written_at now s).1
step (Call.fail_call j token reason now) s = (fail j token reason now s).1
step (Call.recover_call clock) s = recover clock s

-- The claim was granted: the caller holds a token and may go on to the device.
abbrev pub granted : Result Claim → Bool
granted (ok c) = is_some c.token
granted (err e) = false

-- The call grants a claim of command `k`.
unfoldable pub grants : ℕ → Call → Ledger → Bool
grants k (Call.claim_call j e deadline token now now') s =
    (j == k) && granted (claim j e deadline token now now' s).0
grants k (Call.lookup_call j e now) s = false
grants k (Call.mark_started_call j token now) s = false
grants k (Call.complete_call j token written_at now) s = false
grants k (Call.fail_call j token reason now) s = false
grants k (Call.recover_call clock) s = false

-- The readings of the clock that decide what is pruned are not after `h`.
abbrev pub Until : ℕ → Call → Type 0
Until h (Call.lookup_call j e now) = now ≤ h
Until h (Call.claim_call j e deadline token now now') = now ≤ h
Until h (Call.recover_call clock) = (n : ℕ) → clock n ≤ h
Until h (Call.mark_started_call j token now) = Unit {0}
Until h (Call.complete_call j token written_at now) = Unit {0}
Until h (Call.fail_call j token reason now) = Unit {0}

unfoldable pub run : List Call → Ledger → Ledger
unfolding step
run [] s = s
run (c ∷ calls) s = run calls (step c s)

unfoldable pub grants_in : ℕ → List Call → Ledger → ℕ
unfolding step grants
grants_in k [] s = 0
grants_in k (c ∷ calls) s = (if grants k c s then 1 else 0) + grants_in k calls (step c s)

pub step-IsValid : (c : Call) (s : Ledger) → IsValid s → IsValid (step c s)
unfolding step
step-IsValid (Call.lookup_call j e now) s v = lookup-IsValid j e now s v
step-IsValid (Call.claim_call j e deadline token now now') s v =
    claim-IsValid j e deadline token now now' s v
step-IsValid (Call.mark_started_call j token now) s v = mark_started-IsValid j token now s v
step-IsValid (Call.complete_call j token written_at now) s v =
    complete-IsValid j token written_at now s v
step-IsValid (Call.fail_call j token reason now) s v = fail-IsValid j token reason now s v
step-IsValid (Call.recover_call clock) s v = recover-IsValid clock s v

-- Whatever calls are made, in whatever order and at whatever times, the ledger stays well formed.
pub run-IsValid : (calls : List Call) (s : Ledger) → IsValid s → IsValid (run calls s)
unfolding run
run-IsValid [] s v = v
run-IsValid (c ∷ calls) s v = run-IsValid calls (step c s) (step-IsValid c s v)

module _ (k d h : ℕ) where
  claim_refused :
      (e deadline token now now' : ℕ) (s : Ledger)
      → now ≤ h
      → IsValid s
      → Executed k d h (row_of k s)
      → granted (claim k e deadline token now now' s).0 ≡ false
  unfolding claim result_of
  claim_refused e deadline token now now' s le v x =
      ground (arith, prune-Executed k d h now s le v x)

  step-Executed :
      (c : Call) (s : Ledger)
      → Until h c
      → IsValid s
      → Executed k d h (row_of k s)
      → Executed k d h (row_of k (step c s))
  unfolding step
  step-Executed (Call.lookup_call j e now) s u v x = lookup-Executed k d h j e now s u v x
  step-Executed (Call.claim_call j e deadline token now now') s u v x =
      claim-Executed k d h j e deadline token now now' s u v x
  step-Executed (Call.mark_started_call j token now) s u v x =
      mark_started-Executed k d h j token now s x
  step-Executed (Call.complete_call j token written_at now) s u v x =
      complete-Executed k d h j token written_at now s x
  step-Executed (Call.fail_call j token reason now) s u v x =
      fail-Executed k d h j token reason now s v x
  step-Executed (Call.recover_call clock) s u v x = recover-Executed k d h clock s u v x

  no_grant :
      (c : Call) (s : Ledger)
      → Until h c
      → IsValid s
      → Executed k d h (row_of k s)
      → grants k c s ≡ false
  unfolding grants
  no_grant (Call.claim_call j e deadline token now now') s u v x = elim (Bool-cases (j == k)) [
    | inl same ↦
        let here : k ≡ j = ground arith in
        rw same (rw (← here) (claim_refused e deadline token now now' s u v x))
    | inr other ↦ rw other
  ]
  no_grant (Call.lookup_call j e now) s u v x = refl
  no_grant (Call.mark_started_call j token now) s u v x = refl
  no_grant (Call.complete_call j token written_at now) s u v x = refl
  no_grant (Call.fail_call j token reason now) s u v x = refl
  no_grant (Call.recover_call clock) s u v x = refl

-- From a well-formed ledger where a device write of command `k` may have been issued: through any
-- sequence of calls by any callers, restarts included, whose readings of the clock stay within the
-- retention of the row, `k` is never granted a claim again, and its row still says that a write
-- may have been issued, for the same digest.
pub no_second_execution :
    (k d h : ℕ) (calls : List Call) (s : Ledger)
    → All (Until h) calls
    → IsValid s
    → Executed k d h (row_of k s)
    → (grants_in k calls s ≡ 0) × Executed k d h (row_of k (run calls s))
unfolding grants_in run
no_second_execution k d h [] s u v x = (refl, x)
no_second_execution k d h (c ∷ calls) s u v x =
    let rest =
      no_second_execution k d h calls (step c s) u.1 (step-IsValid c s v)
        (step-Executed k d h c s u.0 v x) in
    let refused : grants k c s ≡ false = no_grant k d h c s u.0 v x in
    (rw refused (omega (arith, rest.0)), rest.1)
