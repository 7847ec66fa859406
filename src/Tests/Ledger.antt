-- ===== src/Tests/Ledger.antt =====
-- The ledger of commands on concrete calls.
use zilina_eirvah_edge_impl.Prelude.{
  ◌≡◌, ◌⊎◌, refl, true, false, none, some, List, [], ◌∷◌, All, arith,
}
use zilina_eirvah_edge_impl.Prelude.Exceptions.{ok}
use zilina_eirvah_edge_impl.Ledger.{
  State, Row, Ledger, lookup, claim, complete, fail, recover, prune, completed_result,
  failed_result, conflict_result, is_active,
}
use zilina_eirvah_edge_impl.Ledger.Invariant.{IsValid}
use zilina_eirvah_edge_impl.Ledger.Execution.{Executed, row_of}
use zilina_eirvah_edge_impl.Ledger.Trace.{Call, run, grants_in, run-IsValid, no_second_execution}
use zilina_eirvah_edge_impl.Ledger.Outcomes.{
  complete-lookup, claim_exclusive, fail_classifies, recover-settles,
}

abbrev started_row : Row
started_row = record {
  command_id = 7;
  digest = 107;
  state = State.started;
  token = some 5;
  result = none;
  started_at = some 20;
  keep_until = 1050;
}

abbrev empty : Ledger
empty = record { rows = []; retention_s = 1000 }

abbrev busy : Ledger
busy = record { rows = started_row ∷ []; retention_s = 1000 }

empty-IsValid : IsValid empty
empty-IsValid = record { distinct = tt; consistent = tt }

busy-IsValid : IsValid busy
busy-IsValid = record { distinct = (refl, tt); consistent = (tt, tt) }

-- The service starts again and the command is claimed twice more, with and without a lookup before.
abbrev again : List Call
again =
    Call.recover_call (λ _. 40)
    ∷ Call.claim_call 7 107 50 6 41 41
    ∷ Call.lookup_call 7 107 42
    ∷ Call.claim_call 7 107 50 8 43 43
    ∷ []

no_second_execution_example :
    (grants_in 7 again busy ≡ 0) × Executed 7 107 500 (row_of 7 (run again busy))
no_second_execution_example =
    no_second_execution 7 107 500 again busy
      (λ _. omega arith, (omega arith, (omega arith, (omega arith, tt)))) busy-IsValid
      (refl, refl, refl, omega arith)

run-IsValid_example : IsValid (run again busy)
run-IsValid_example = run-IsValid again busy busy-IsValid

complete-lookup_example :
    ((complete 7 5 30 31 busy).0 ≡ ok (completed_result 30))
    × ((lookup 7 107 900 (complete 7 5 30 31 busy).1).0
        ≡ ok (some (record (completed_result 30) { replayed = true })))
complete-lookup_example =
    complete-lookup 7 107 5 30 31 900 started_row busy busy-IsValid refl refl refl refl
      (omega arith)

claim-empty : (claim 7 107 50 5 20 20 empty).0 ≡ ok (record { token = some 5; result = none })
unfolding claim prune
claim-empty = refl

claim_exclusive_example :
    (claim 7 108 60 6 21 21 (claim 7 107 50 5 20 20 empty).1).0
    ≡ ok (record { token = none; result = some conflict_result })
claim_exclusive_example =
    claim_exclusive 7 107 50 5 20 20 108 60 6 21 21 empty empty-IsValid claim-empty

fail_classifies_example :
    ((State.started ≡ State.preparing)
      × ((fail 7 5 "TimeoutError" 30 busy).0 ≡ ok (failed_result false "TimeoutError")))
    ⊎ ((State.started ≡ State.started)
        × ((fail 7 5 "TimeoutError" 30 busy).0 ≡ ok (failed_result true "TimeoutError")))
fail_classifies_example =
    fail_classifies 7 5 30 "TimeoutError" started_row busy busy-IsValid refl refl

recover-settles_example : All (λ r. is_active r.state ≡ false) (recover (λ _. 40) busy).rows
recover-settles_example = recover-settles (λ _. 40) busy busy-IsValid
