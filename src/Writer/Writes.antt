-- ===== src/Writer/Writes.antt =====
-- The writer: `before_write` and the protocols. Each frame follows a check of the approval and a
-- committed mark of the command.
use zilina_eirvah_edge_impl.Prelude.{
  ℕ, ◌≡◌, ◌⊎◌, inl, inr, refl, Bool, true, false, Option, List, [], if◌then◌else◌,
}
use zilina_eirvah_edge_impl.Prelude.Exceptions.{Exc, Result, ok, err}
use zilina_eirvah_edge_impl.Prelude.Exec.{
  Exec, pure, lift, modify, ◌>>◌, Triple, Ends, Triple-pure, Triple-raise, Triple-lift, Triple-gets,
  Triple-modify, Triple-require, Triple-bind, Triple-attempt, Triple-weaken,
}
use zilina_eirvah_edge_impl.Prelude.Numbers.{Floats, Value}
use zilina_eirvah_edge_impl.Prelude.Dict.{Dict}
use zilina_eirvah_edge_impl.Contracts.Actuation.{
  ActuationRequest, SignedEvidence, Purpose, Datetime,
}
use zilina_eirvah_edge_impl.Contracts.Authorization.{Crypto}
use zilina_eirvah_edge_impl.Contracts.Authorization.Evidence.{InTime, verify-Proves}
use zilina_eirvah_edge_impl.Ledger
use zilina_eirvah_edge_impl.Ledger.{Ledger, Row, id_of, is_active, holds_claim, start}
use zilina_eirvah_edge_impl.Ledger.Invariant.{IsValid, mark_started-IsValid}
use zilina_eirvah_edge_impl.Ledger.Execution.{row_of, mark_started-Executed}
use zilina_eirvah_edge_impl.Writer.World.{Env, World, Frame, Sent, record_command, on_ledger, send}
use zilina_eirvah_edge_impl.Writer.Native.{
  NativeTarget, WriteTarget, Protocol, modbus, s7, write_opcua, write_modbus, write_s7, by_protocol,
  next_sequence,
}
use zilina_eirvah_edge_impl.Writer.Handler.{Settings, verify_now, record_once, before_write}
use zilina_eirvah_edge_impl.Writer.Order.{
  Marked, Marked-map, mark_started-Marked, Facts, On, Held, Going, now-On, record-On, read_ack-On,
  poll-On, on_ledger-On, Timed, send-Going,
}

module _ (floats : Floats) (crypto : Crypto floats.Float) (settings : Settings) (env : Env)
    (native_targets : Dict (NativeTarget floats.Float)) (targets : Dict WriteTarget) (id : ℕ)
    (req : ActuationRequest floats.Float) (e : SignedEvidence) where
  open floats use {Float}

  -- A check of the approval, where it passes, leaves a clock that has not passed the deadline.
  pub verify_now-On :
      (P : Facts Float)
      → Triple
          (On P)
          (verify_now floats crypto settings env native_targets targets id req e false)
          (λ _ w. On P w × InTime w.latest req.deadline)
          (λ _. On P)
  unfolding verify_now
  verify_now-On P =
      Triple-bind _ _ (λ t w. On P w × (w.latest ≡ t)) (now-On env P)
        λ t.
          Triple-lift _
            (λ _ w ok_evidence p.
              let proof =
                verify-Proves crypto req e settings.approval_key Purpose.approval settings.writer_id
                  t false ok_evidence in
              (p.0, rw p.1 (proof.timely refl)))
            (λ x w p. p.0)

  record_once-On :
      (P : Facts Float)
      → Triple
          (On P)
          (record_once floats crypto settings env native_targets targets id req e)
          (λ _. On P)
          (λ _. On P)
  unfolding record_once
  record_once-On P =
      Triple-bind _ _ (λ _. On P) (Triple-gets _ (λ w p. p)) λ initiated. once initiated
    where
      once :
          (b : Bool)
          → Triple
              (On P)
              (if b
                then pure tt
                else (record_command env
                    >> modify (λ (w : World Float). record w { initiated = true })))
              (λ _. On P)
              (λ _. On P)
      once true = Triple-pure tt (λ w p. p)
      once false = Triple-bind _ _ (λ _. On P) (record-On env P) λ _. Triple-modify _ (λ w p. p)

  marked_order :
      (s s' : Ledger) (frames : List (Sent Float)) (token : Option ℕ)
      → IsValid s'
      → ((frames ≡ []) ⊎ Marked id (row_of id s'))
      → Held id req.deadline s frames token
      → Held id req.deadline s' frames token
  marked_order s s' frames token v m ((_, _, held, timely), some_token) =
      ((v, m, held, timely), some_token)

  mark-Ends :
      (token t : ℕ) (w : World Float) (r : Result (Unit {0}))
      → On (Held id req.deadline) w
      → (Ledger.mark_started id token t w.ledger).0 ≡ r
      → Ends
          (λ _ (s : Ledger). Going id req.deadline s w.frames w.token)
          (λ _ (s : Ledger). Held id req.deadline s w.frames w.token)
          (r, (Ledger.mark_started id token t w.ledger).1)
  mark-Ends token t w (ok a) p h =
      let m = mark_started-Marked id token t w.ledger p.0.0 h in
      (
        marked_order w.ledger _ w.frames w.token (mark_started-IsValid id token t w.ledger p.0.0)
            (inr m) p,
        m,
      )
  mark-Ends token t w (err x) p h =
      marked_order w.ledger _ w.frames w.token (mark_started-IsValid id token t w.ledger p.0.0)
        (still p.0.1) p
    where
      still :
          (w.frames ≡ []) ⊎ Marked id (row_of id w.ledger)
          → (w.frames ≡ []) ⊎ Marked id (row_of id (Ledger.mark_started id token t w.ledger).1)
      still (inl none_sent) = inl none_sent
      still (inr m) =
          inr (Marked-map id _ _ (λ d x. mark_started-Executed id d 0 id token t w.ledger x) m)

  mark-Going :
      (token t : ℕ)
      → Triple
          (On (Held id req.deadline))
          (on_ledger env (Ledger.mark_started id token t))
          (λ _. On (Going id req.deadline {F = Float}))
          (λ _. On (Held id req.deadline {F = Float}))
  mark-Going token t =
      on_ledger-On env (Held id req.deadline) (λ _. Going id req.deadline)
        (Ledger.mark_started id token t) (λ w p. mark-Ends token t w _ p refl)

  -- What goes before each frame: where it returns, the frame may go out.
  pub before_write-Timed :
      (token : ℕ)
      → Triple
          (On (Held id req.deadline))
          (before_write floats crypto settings env native_targets targets id req e token)
          (λ _. Timed env id req.deadline)
          (λ _. On (Held id req.deadline))
  unfolding before_write
  before_write-Timed token =
      Triple-bind _ _ (λ _. On (Going id req.deadline))
        (Triple-bind _ _ (λ _. On (Going id req.deadline))
          (Triple-bind _ _ (λ _. On (Held id req.deadline))
            (Triple-weaken _ _ _ _ (λ w p. p) (λ _ w p. p.0) (λ _ w p. p)
              (verify_now-On (Held id req.deadline)))
            λ _.
              Triple-bind _ _ (λ _. On (Held id req.deadline))
                (Triple-weaken _ _ _ _ (λ w p. p) (λ _ w p. p.0) (λ _ w p. p)
                  (now-On env (Held id req.deadline)))
                λ t. mark-Going token t)
          λ _.
            Triple-weaken _ _ _ _ (λ w p. p) (λ _ w p. p) (λ _ w p. p.0)
              (record_once-On (Going id req.deadline)))
        λ _.
          Triple-weaken _ _ _ _ (λ w p. p) (λ _ w p. p) (λ _ w p. p.0)
            (verify_now-On (Going id req.deadline))

-- The protocols, with any `before` that makes a frame ready.
module _ {F : Type 0} (env : Env) (id : ℕ) (deadline : Option Datetime)
    (before : Exec (World F) (Unit {0}))
    (ready : Triple
      (On (Held id deadline))
      before
      (λ _. Timed env id deadline)
      (λ _. On (Held id deadline))) where
  abbrev pub Keeping : {A : Type 0} → Exec (World F) A → Type 0
  Keeping m =
      Triple (On (Held id deadline)) m (λ _. On (Held id deadline)) (λ _. On (Held id deadline))

  pub then_Keeping :
      {A : Type 0} (m : Exec (World F) (Unit {0})) (n : Exec (World F) A)
      → Keeping m
      → Keeping n
      → Keeping (m >> n)
  then_Keeping m n k l = Triple-bind m _ (λ _. On (Held id deadline)) k λ _. l

  write_frame : (f : Frame F) (x : Exc) → Keeping (before >> send env f x)
  write_frame f x =
      Triple-bind _ _ (λ _. Timed env id deadline) ready
        λ _.
          Triple-weaken _ _ _ _ (λ w p. p) (λ _ w p. p.0) (λ _ w p. p.0)
            (send-Going env id deadline f x)

  pub lift-Keeping : {A : Type 0} (r : Result A) → Keeping (lift r)
  lift-Keeping r = Triple-lift r (λ a w _ p. p) (λ x w p. p)

  write_modbus-Keeping :
      (target : NativeTarget F) (raw : ℕ) → Keeping (write_modbus env before target raw)
  unfolding write_modbus
  write_modbus-Keeping target raw =
      Triple-bind _ _ (λ _. On (Held id deadline)) (lift-Keeping env.connects)
        λ connected. then_Keeping _ _ (Triple-require connected _ (λ w _ p. p) (λ w p. p)) (
          Triple-bind _ _ (λ _. On (Held id deadline)) (read_ack-On env _ _)
            λ first.
              then_Keeping _ _ (then_Keeping _ _ (write_frame _ _) (write_frame _ _))
                (poll-On env (Held id deadline) _ _ env.rounds (next_sequence env.random first.0)))

  write_s7-Keeping : (target : NativeTarget F) (raw : ℕ) → Keeping (write_s7 env before target raw)
  unfolding write_s7
  write_s7-Keeping target raw =
      Triple-bind _ _ (λ _. On (Held id deadline)) (lift-Keeping env.connects)
        λ connected.
          Triple-bind _ _ (λ _. On (Held id deadline)) (read_ack-On env (Held id deadline) _)
            λ first.
              then_Keeping _ _ (then_Keeping _ _ (write_frame _ _) (write_frame _ _))
                (poll-On env (Held id deadline) _ _ env.rounds (next_sequence env.random first.0))

  pub by_protocol-Keeping :
      (p : Protocol) (target : NativeTarget F) (raw : ℕ)
      → Keeping (by_protocol env before p target raw)
  by_protocol-Keeping modbus target raw = write_modbus-Keeping target raw
  by_protocol-Keeping s7 target raw = write_s7-Keeping target raw

  pub write_opcua-Keeping :
      (target : WriteTarget) (value : Value F) → Keeping (write_opcua env before target value)
  unfolding write_opcua
  write_opcua-Keeping target value = then_Keeping _ _ (lift-Keeping env.opens) (
      Triple-attempt _ _ _ (λ _. On (Held id deadline)) (λ _. On (Held id deadline))
        (write_frame _ _) (λ _. lift-Keeping env.closes)
        λ x. then_Keeping _ _ (lift-Keeping env.closes) (Triple-raise x (λ w p. p)))
