-- ===== src/Writer/Execute.antt =====
-- The writer: from a silent world, a claimed command is executed in order.
use zilina_eirvah_edge_impl.Prelude.{ℕ, ◌≡◌, refl, Bool, Option, none, some, []}
use zilina_eirvah_edge_impl.Prelude.Exceptions.{Exc, exc_name, Result, ok, err}
use zilina_eirvah_edge_impl.Prelude.Exec.{
  pure, ◌>>=◌, Triple, Ends, Triple-pure, Triple-raise, Triple-lift, Triple-modify, Triple-bind,
  Triple-attempt, Triple-weaken,
}
use zilina_eirvah_edge_impl.Prelude.Numbers.{Floats}
use zilina_eirvah_edge_impl.Prelude.Dict.{Dict}
use zilina_eirvah_edge_impl.Contracts.Actuation.{
  ActuationRequest, SignedEvidence, Outcome, WriteResult,
}
use zilina_eirvah_edge_impl.Contracts.Authorization.{Crypto}
use zilina_eirvah_edge_impl.Ledger
use zilina_eirvah_edge_impl.Ledger.{Ledger, Row, id_of, is_active, holds_claim, start}
use zilina_eirvah_edge_impl.Ledger.Invariant.{IsValid}
use zilina_eirvah_edge_impl.Writer.World.{Env, World, now, record_command, on_ledger}
use zilina_eirvah_edge_impl.Writer.Native.{NativeTarget, WriteTarget}
use zilina_eirvah_edge_impl.Writer.Handler.{Settings, verify_now, write_value}
use zilina_eirvah_edge_impl.Writer.Order.{On, InOrder, Held, now-On, record-On, on_ledger-On}
use zilina_eirvah_edge_impl.Ledger.{State, Claim}
use zilina_eirvah_edge_impl.Writer.Handler.{write_failed, execute, claimed}
use zilina_eirvah_edge_impl.Writer.Settle.{
  Silent, Silent-InOrder, Settled, write_target-Stays, fail_claim-Settled, complete-Ends,
}

module _ (floats : Floats) (crypto : Crypto floats.Float) (settings : Settings) (env : Env)
    (native_targets : Dict (NativeTarget floats.Float)) (targets : Dict WriteTarget) (id : ℕ)
    (req : ActuationRequest floats.Float) (e : SignedEvidence) where
  open floats use {Float}

  abbrev pub OnHeld : World Float → Type 0
  OnHeld = On (Held id req.deadline)

  abbrev pub OnOrder : World Float → Type 0
  OnOrder = On (InOrder id req.deadline)

  abbrev pub OnSilent : World Float → Type 0
  OnSilent = On Silent

  -- In order, and silent if the result says that the command was not executed.
  abbrev pub Done : WriteResult → World Float → Type 0
  Done r w = OnOrder w × (r.outcome ≡ Outcome.not_executed → w.frames ≡ [])

  pub Silent-Done : (r : WriteResult) (w : World Float) → OnSilent w → Done r w
  Silent-Done r w p = (Silent-InOrder id req.deadline w.ledger w.frames w.token p, λ _. p.1)

  pub Silent-OnOrder : (w : World Float) → OnSilent w → OnOrder w
  Silent-OnOrder w p = Silent-InOrder id req.deadline w.ledger w.frames w.token p

  pub write_failed-Done :
      (token : ℕ) (x : Exc)
      → Triple OnHeld
          (write_failed floats crypto settings env native_targets targets id req e token x)
          Done
          (λ _. OnOrder)
  write_failed-Done token Exc.cancelled_error =
      Triple-bind _ _ (λ _. OnHeld)
        (Triple-bind _ _ (λ _. OnHeld)
          (Triple-weaken _ _ _ _ (λ w p. p) (λ _ w p. p.0) (λ _ w p. p.0)
            (fail_claim-Settled floats crypto settings env native_targets targets id req e token
              "execution_cancelled"))
          λ _.
            Triple-weaken _ _ _ _ (λ w p. p) (λ _ w p. p) (λ _ w p. p.0)
              (record-On env (Held id req.deadline)))
        λ _. Triple-raise _ (λ w p. p.0)
  write_failed-Done token x =
      Triple-weaken _ _ _ _ (λ w p. p) (λ _ w p. (p.0.0, p.1)) (λ _ w p. p.0)
        (fail_claim-Settled floats crypto settings env native_targets targets id req e token
          (exc_name x))

  now-Held : Triple OnHeld (now env) (λ _. OnHeld) (λ _. OnOrder)
  now-Held =
      Triple-weaken _ _ _ _ (λ w p. p) (λ _ w p. p.0) (λ _ w p. p.0)
        (now-On env (Held id req.deadline))

  record-Held : Triple OnHeld (record_command env) (λ _. OnHeld) (λ _. OnOrder)
  record-Held =
      Triple-weaken _ _ _ _ (λ w p. p) (λ _ w p. p) (λ _ w p. p.0)
        (record-On env (Held id req.deadline))

  -- From a silent world, the execution of a claimed command ends in order.
  pub execute-Done :
      (token : ℕ)
      → Triple OnSilent
          (execute floats crypto settings env native_targets targets id req e token)
          Done
          (λ _. OnOrder)
  unfolding execute write_value
  execute-Done token =
      Triple-bind _ _ (λ _. OnHeld)
        (Triple-bind _ _ (λ _. OnHeld)
          (Triple-modify _ (λ w p. (
            Silent-InOrder id req.deadline w.ledger w.frames (some token) p,
            λ (absent : some token ≡ none). cc absent,
          )))
          λ _. record-Held)
        λ _.
          Triple-attempt _ _ _ (λ _. OnHeld) (λ _. OnHeld)
            (write_target-Stays floats crypto settings env native_targets targets id req e token _
              _)
            (λ _.
              Triple-bind _ _ (λ _. OnHeld) record-Held
                λ _.
                  Triple-bind _ _ (λ _. OnHeld) now-Held
                    λ written_at.
                      Triple-bind _ _ (λ _. OnHeld) now-Held
                        λ t.
                          Triple-weaken _ _ _ _ (λ w p. p) (λ _ w p. (p.0.0, p.1)) (λ _ w p. p.0)
                            (on_ledger-On env (Held id req.deadline)
                              (Settled floats crypto settings env native_targets targets id req e)
                              (Ledger.complete id token written_at t)
                              (λ w p.
                                complete-Ends floats crypto settings env native_targets targets id
                                  req e token written_at t w _ p refl)))
            (write_failed-Done token)

  -- What the command's `try` has, when it has a result or none.
  abbrev pub Found : Option WriteResult → World Float → Type 0
  Found none w = OnOrder w
  Found (some r) w = Done r w

  pub Silent-Found : (o : Option WriteResult) (w : World Float) → OnSilent w → Found o w
  Silent-Found none w p = Silent-OnOrder w p
  Silent-Found (some r) w p = Silent-Done r w p

  pub claimed-Found :
      (c : Claim)
      → Triple OnSilent
          (claimed floats crypto settings env native_targets targets id req e c)
          Found
          (λ _. OnOrder)
  claimed-Found c = go c.token
    where
      go :
          (token : Option ℕ)
          → Triple OnSilent
              (elim token [
                | none ↦ pure c.result
                | some t ↦
                    execute floats crypto settings env native_targets targets id req e t >>= λ r.
                    pure (some r)
              ])
              Found
              (λ _. OnOrder)
      go none = Triple-pure _ (λ w p. Silent-Found c.result w p)
      go (some t) = Triple-bind _ _ Done (execute-Done t) λ r. Triple-pure _ (λ w p. p)

  pub verify-Silent :
      (allow_expired : Bool)
      → Triple OnSilent
          (verify_now floats crypto settings env native_targets targets id req e allow_expired)
          (λ _. OnSilent)
          (λ _. OnOrder)
  unfolding verify_now
  verify-Silent allow_expired =
      Triple-bind _ _ (λ t. OnSilent)
        (Triple-weaken _ _ _ _ (λ w p. p) (λ _ w p. p.0) Silent-from (now-On env Silent))
        λ t. Triple-lift _ (λ a w _ p. p) Silent-from
    where
      Silent-from : (x : Exc) (w : World Float) → OnSilent w → OnOrder w
      Silent-from x w p = Silent-OnOrder w p

  pub ledger-Ends :
      {A : Type 0} (body : Ledger → Result A × Ledger)
      → ((s : Ledger) → IsValid s → IsValid (body s).1)
      → Triple OnSilent (on_ledger env body) (λ _. OnSilent) (λ _. OnSilent)
  ledger-Ends {A} body keep =
      on_ledger-On env Silent (λ _. Silent) body (λ w p. go w _ (keep w.ledger p.0) p.1)
    where
      go :
          (w : World Float) (x : Result A × Ledger)
          → IsValid x.1
          → w.frames ≡ []
          → Ends
              (λ a (s : Ledger). Silent s w.frames w.token)
              (λ _ (s : Ledger). Silent s w.frames w.token)
              x
      go w (ok a, s) v f = (v, f)
      go w (err y, s) v f = (v, f)
