-- ===== src/Writer/Settle.antt =====
-- The writer: how the write of a claimed command is settled in the ledger.
use zilina_eirvah_edge_impl.Prelude.{
  sym, ℕ, String, ◌≡◌, ◌≢◌, ◌⊎◌, inl, inr, refl, Option, none, some, List, [], arith, All,
}
use mathlib.Core.Path.{subst}
use zilina_eirvah_edge_impl.Prelude.Exceptions.{Result, ok, err}
use zilina_eirvah_edge_impl.Prelude.Exec.{
  Exec, Triple, Ends, Triple-raise, Triple-lift, Triple-bind, Triple-weaken,
}
use zilina_eirvah_edge_impl.Prelude.Numbers.{Floats}
use zilina_eirvah_edge_impl.Prelude.Dict.{Dict}
use zilina_eirvah_edge_impl.Contracts.Actuation.{
  ActuationRequest, SignedEvidence, Outcome, WriteResult, Datetime,
}
use zilina_eirvah_edge_impl.Contracts.Authorization.{Crypto}
use zilina_eirvah_edge_impl.Ledger
use zilina_eirvah_edge_impl.Ledger.{Ledger, Row, id_of, is_active, holds_claim, start}
use zilina_eirvah_edge_impl.Ledger.Invariant.{IsValid}
use zilina_eirvah_edge_impl.Ledger.Execution.{Executed, row_of}
use zilina_eirvah_edge_impl.Writer.World.{Env, World, Sent}
use zilina_eirvah_edge_impl.Writer.Native.{NativeTarget, WriteTarget, write_native}
use zilina_eirvah_edge_impl.Writer.Handler.{Settings, before_write, write_target}
use zilina_eirvah_edge_impl.Writer.Order.{
  Marked, Marked-map, Facts, On, InOrder, Held, now-On, on_ledger-On, Timed,
}
use zilina_eirvah_edge_impl.Ledger.{State, Claim}
use zilina_eirvah_edge_impl.Ledger.Invariant.{complete-IsValid, fail-IsValid}
use zilina_eirvah_edge_impl.Ledger.Execution.{complete-Executed, fail-Executed}
use zilina_eirvah_edge_impl.Ledger.Outcomes.{fail_not_executed}
use zilina_eirvah_edge_impl.Writer.Handler.{fail_claim}
use zilina_eirvah_edge_impl.Writer.Writes.{
  before_write-Timed, by_protocol-Keeping, write_opcua-Keeping,
}

-- No frame has gone out.
abbrev pub Silent : {F : Type 0} → Facts F
Silent s frames token = IsValid s × (frames ≡ [])

pub Silent-InOrder :
    {F : Type 0} (id : ℕ) (deadline : Option Datetime) (s : Ledger) (frames : List (Sent F))
    (token : Option ℕ)
    → Silent s frames token
    → InOrder id deadline s frames token
Silent-InOrder id deadline s frames token (v, none_sent) =
    (v, inl none_sent, λ _. none_sent, subst (All _) (sym none_sent) tt)

pub still-Marked :
    {F : Type 0} (id : ℕ) (s s' : Ledger) (frames : List (Sent F))
    → ((d : ℕ) → Executed id d 0 (row_of id s) → Executed id d 0 (row_of id s'))
    → (frames ≡ []) ⊎ Marked id (row_of id s)
    → (frames ≡ []) ⊎ Marked id (row_of id s')
still-Marked id s s' frames f (inl e) = inl e
still-Marked id s s' frames f (inr m) = inr (Marked-map id _ _ f m)

not_executed_ne :
    (id token written_at t : ℕ) (s : Ledger) (a : WriteResult)
    → (Ledger.complete id token written_at t s).0 ≡ ok a
    → a.outcome ≢ Outcome.not_executed
unfolding Ledger.complete
not_executed_ne id token written_at t s a h = ground arith

module _ (floats : Floats) (crypto : Crypto floats.Float) (settings : Settings) (env : Env)
    (native_targets : Dict (NativeTarget floats.Float)) (targets : Dict WriteTarget) (id : ℕ)
    (req : ActuationRequest floats.Float) (e : SignedEvidence) where
  open floats use {Float}

  -- A result that says that the command was not executed comes when no frame has gone out.
  abbrev pub Truthful : WriteResult → Facts Float
  Truthful r s frames token = r.outcome ≡ Outcome.not_executed → frames ≡ []

  abbrev pub Settled : WriteResult → Facts Float
  Settled r s frames token = Held id req.deadline s frames token × Truthful r s frames token

  abbrev pub HeldOn : World Float → Type 0
  HeldOn = On (Held id req.deadline)

  abbrev pub InOrderOn : World Float → Type 0
  InOrderOn = On (InOrder id req.deadline)

  abbrev pub Stays : {A : Type 0} → Exec (World Float) A → Type 0
  Stays m = Triple HeldOn m (λ _. HeldOn) (λ _. HeldOn)

  before_of : (token : ℕ) → Exec (World Float) (Unit {0})
  before_of token = before_write floats crypto settings env native_targets targets id req e token

  ready_of :
      (token : ℕ) → Triple HeldOn (before_of token) (λ _. Timed env id req.deadline) (λ _. HeldOn)
  unfolding before_of
  ready_of token =
      before_write-Timed floats crypto settings env native_targets targets id req e token

  pub write_target-Stays :
      (token : ℕ) (n : Option (NativeTarget Float)) (t : Option WriteTarget)
      → Stays (write_target floats crypto settings env native_targets targets id req e token n t)
  unfolding write_native before_of
  write_target-Stays token (some target) t =
      Triple-bind _ _ (λ _. HeldOn) (Triple-lift _ (λ a w _ p. p) (λ x w p. p))
        λ raw.
          by_protocol-Keeping env id req.deadline (before_of token) (ready_of token) target.protocol
            target raw
  write_target-Stays token none (some target) =
      write_opcua-Keeping env id req.deadline (before_of token) (ready_of token) target
        req.requested_value
  write_target-Stays token none none = Triple-raise _ (λ w p. p)

  fail-Ends :
      (token t : ℕ) (reason : String) (w : World Float) (r : Result WriteResult)
      → HeldOn w
      → (Ledger.fail id token reason t w.ledger).0 ≡ r
      → Ends
          (λ a (s : Ledger). Settled a s w.frames w.token)
          (λ _ (s : Ledger). Held id req.deadline s w.frames w.token)
          (r, (Ledger.fail id token reason t w.ledger).1)
  fail-Ends token t reason w r ((v, m, held, timely), some_token) h = go r h
    where
      kept : Held id req.deadline (Ledger.fail id token reason t w.ledger).1 w.frames w.token
      kept = (
        (
          fail-IsValid id token reason t w.ledger v,
          still-Marked id w.ledger (Ledger.fail id token reason t w.ledger).1 w.frames
              (λ d x. fail-Executed id d 0 id token reason t w.ledger v x) m,
          held,
          timely,
        ),
        some_token,
      )

      silent :
          (a : WriteResult)
          → (Ledger.fail id token reason t w.ledger).0 ≡ ok a
          → (w.frames ≡ []) ⊎ Marked id (row_of id w.ledger)
          → a.outcome ≡ Outcome.not_executed
          → w.frames ≡ []
      silent a f (inl none_sent) o = none_sent
      silent a f (inr mark) o =
          let (row, found, preparing) = fail_not_executed id token t reason a w.ledger v f o in
          absurd (ground (arith, found, preparing, mark))

      go :
          (r : Result WriteResult)
          → (Ledger.fail id token reason t w.ledger).0 ≡ r
          → Ends
              (λ a (s : Ledger). Settled a s w.frames w.token)
              (λ _ (s : Ledger). Held id req.deadline s w.frames w.token)
              (r, (Ledger.fail id token reason t w.ledger).1)
      go (ok a) f = (kept, silent a f m)
      go (err x) f = kept

  pub fail_claim-Settled :
      (token : ℕ) (reason : String)
      → Triple HeldOn
          (fail_claim floats crypto settings env native_targets targets id req e token reason)
          (λ r. On (Settled r))
          (λ _. HeldOn)
  unfolding fail_claim
  fail_claim-Settled token reason =
      Triple-bind _ _ (λ _. HeldOn)
        (Triple-weaken _ _ _ _ (λ w p. p) (λ _ w p. p.0) (λ _ w p. p)
          (now-On env (Held id req.deadline)))
        λ t.
          on_ledger-On env (Held id req.deadline) Settled _
            (λ w p. fail-Ends token t reason w _ p refl)

  pub complete-Ends :
      (token written_at t : ℕ) (w : World Float) (r : Result WriteResult)
      → HeldOn w
      → (Ledger.complete id token written_at t w.ledger).0 ≡ r
      → Ends
          (λ a (s : Ledger). Settled a s w.frames w.token)
          (λ _ (s : Ledger). Held id req.deadline s w.frames w.token)
          (r, (Ledger.complete id token written_at t w.ledger).1)
  complete-Ends token written_at t w r ((v, m, held, timely), some_token) h = go r h
    where
      kept :
          Held id req.deadline (Ledger.complete id token written_at t w.ledger).1 w.frames w.token
      kept = (
        (
          complete-IsValid id token written_at t w.ledger v,
          still-Marked id w.ledger (Ledger.complete id token written_at t w.ledger).1 w.frames
              (λ d x. complete-Executed id d 0 id token written_at t w.ledger x) m,
          held,
          timely,
        ),
        some_token,
      )

      go :
          (r : Result WriteResult)
          → (Ledger.complete id token written_at t w.ledger).0 ≡ r
          → Ends
              (λ a (s : Ledger). Settled a s w.frames w.token)
              (λ _ (s : Ledger). Held id req.deadline s w.frames w.token)
              (r, (Ledger.complete id token written_at t w.ledger).1)
      go (ok a) f = (kept, λ o. absurd (not_executed_ne id token written_at t w.ledger a f o))
      go (err x) f = kept
