-- ===== src/Writer/Process.antt =====
-- The writer: the `try` of the handler, from the check of the identifiers to the result.
use zilina_eirvah_edge_impl.Prelude.{
  ℕ, ◌≡◌, Bool, true, false, Option, none, some, [], if◌then◌else◌,
}
use zilina_eirvah_edge_impl.Prelude.Exec.{
  pure, Triple, Triple-pure, Triple-raise, Triple-lift, Triple-require, Triple-bind, Triple-attempt,
  Triple-weaken,
}
use zilina_eirvah_edge_impl.Prelude.Numbers.{Floats}
use zilina_eirvah_edge_impl.Prelude.Dict.{Dict}
use zilina_eirvah_edge_impl.Contracts.Actuation.{
  ActuationRequest, SignedEvidence, Outcome, WriteResult,
}
use zilina_eirvah_edge_impl.Contracts.Authorization.{Crypto}
use zilina_eirvah_edge_impl.Writer.World.{Env, World, now}
use zilina_eirvah_edge_impl.Writer.Native.{NativeTarget, WriteTarget}
use zilina_eirvah_edge_impl.Writer.Handler.{Settings}
use zilina_eirvah_edge_impl.Writer.Order.{On, InOrder, now-On}
use zilina_eirvah_edge_impl.Ledger.Invariant.{lookup-IsValid, claim-IsValid}
use zilina_eirvah_edge_impl.Writer.Handler.{
  claim_and_execute, or_replayed, the_result, process, needs_claim, timestamp,
}
use zilina_eirvah_edge_impl.Writer.Settle.{Silent, Silent-InOrder}
use zilina_eirvah_edge_impl.Writer.Execute.{Silent-Found, claimed-Found, verify-Silent, ledger-Ends}

module _ (floats : Floats) (crypto : Crypto floats.Float) (settings : Settings) (env : Env)
    (native_targets : Dict (NativeTarget floats.Float)) (targets : Dict WriteTarget) where
  open floats use {Float}

  module _ (id : ℕ) (req : ActuationRequest floats.Float) (e : SignedEvidence) where
    abbrev pub Quiet : World Float → Type 0
    Quiet = On Silent

    abbrev pub Ordered : World Float → Type 0
    Ordered = On (InOrder id req.deadline)

    abbrev pub Good : WriteResult → World Float → Type 0
    Good r w = Ordered w × (r.outcome ≡ Outcome.not_executed → w.frames ≡ [])

    abbrev GoodOption : Option WriteResult → World Float → Type 0
    GoodOption none w = Ordered w
    GoodOption (some r) w = Good r w

    Quiet-Ordered : (w : World Float) → Quiet w → Ordered w
    Quiet-Ordered w p = Silent-InOrder id req.deadline w.ledger w.frames w.token p

    now-Quiet : Triple Quiet (now env) (λ _. Quiet) (λ _. Quiet)
    now-Quiet = Triple-weaken _ _ _ _ (λ w p. p) (λ _ w p. p.0) (λ _ w p. p) (now-On env Silent)

    claim_and_execute-Good :
        (digest : ℕ)
        → Triple Quiet
            (claim_and_execute floats crypto settings env native_targets targets id req e digest)
            GoodOption
            (λ _. Ordered)
    unfolding claim_and_execute
    claim_and_execute-Good digest =
        Triple-bind _ _ (λ _. Quiet)
          (Triple-bind _ _ (λ _. Quiet)
            (verify-Silent floats crypto settings env native_targets targets id req e false)
            λ _. Triple-require _ _ (λ w _ p. p) Quiet-Ordered)
          λ _.
            Triple-attempt _ _ _ (λ _. Quiet) (λ _. Quiet)
              (Triple-bind _ _ (λ _. Quiet) now-Quiet
                λ t.
                  Triple-bind _ _ (λ _. Quiet) now-Quiet
                    λ t'.
                      ledger-Ends floats crypto settings env native_targets targets id req e _
                        (λ s v.
                          claim-IsValid id digest (timestamp req.deadline) env.token t t' s v))
              (λ c. claimed-Found floats crypto settings env native_targets targets id req e c)
              λ _. Triple-raise _ Quiet-Ordered

    or_replayed-Good :
        (digest : ℕ) (result : Option WriteResult)
        → Triple Quiet
            (or_replayed floats crypto settings env native_targets targets id req e digest result)
            GoodOption
            (λ _. Ordered)
    or_replayed-Good digest result = go (needs_claim result)
      where
        go :
            (b : Bool)
            → Triple Quiet
                (if b
                  then claim_and_execute floats crypto settings env native_targets targets id req e
                      digest
                  else pure result)
                GoodOption
                (λ _. Ordered)
        go true = claim_and_execute-Good digest
        go false = Triple-pure _ (λ w p.
            Silent-Found floats crypto settings env native_targets targets id req e result w p)

    the_result-Good :
        (result : Option WriteResult)
        → Triple
            (GoodOption result)
            (the_result floats crypto settings env native_targets targets id req e result)
            Good
            (λ _. Ordered)
    the_result-Good none = Triple-raise _ (λ w p. p)
    the_result-Good (some r) = Triple-pure _ (λ w p. p)

    pub process-Good :
        Triple Quiet
          (process floats crypto settings env native_targets targets id req e)
          Good
          (λ _. Ordered)
    unfolding process
    process-Good =
        Triple-bind _ _ (λ _. Quiet)
          (Triple-bind _ _ (λ _. Quiet) (Triple-require _ _ (λ w _ p. p) Quiet-Ordered)
            λ _. verify-Silent floats crypto settings env native_targets targets id req e true)
          λ _.
            Triple-bind _ _ (λ _. Quiet) (Triple-lift _ (λ a w _ p. p) (λ x w p. Quiet-Ordered w p))
              λ digest.
                Triple-bind _ _ GoodOption
                  (Triple-attempt _ _ _ (λ _. Quiet) (λ _. Quiet)
                    (Triple-bind _ _ (λ _. Quiet) now-Quiet
                      λ t.
                        ledger-Ends floats crypto settings env native_targets targets id req e _
                          (λ s v. lookup-IsValid id digest t s v))
                    (or_replayed-Good digest) λ _. Triple-raise _ Quiet-Ordered)
                  the_result-Good
