-- ===== src/Writer/Order.antt =====
-- The writer: the ledger says that a write may have been issued before any frame goes out, and each
-- frame goes out while the approval holds.
use zilina_eirvah_edge_impl.Prelude.{
  ℕ, zero, suc, ◌+◌, String, ◌≡◌, ◌≢◌, ◌⊎◌, inl, inr, refl, Bool, true, false, Option, none, some,
  List, [], if◌then◌else◌, arith, All, Option-cases,
}
use zilina_eirvah_edge_impl.Prelude.Exceptions.{Exc, Result, ok, err}
use zilina_eirvah_edge_impl.Prelude.Exec.{
  pure, Triple, Ends, Triple-pure, Triple-raise, Triple-lift, Triple-modify, Triple-require,
  Triple-bind,
}
use zilina_eirvah_edge_impl.Sql.{select, count-select, select-update, key-select}
use zilina_eirvah_edge_impl.Contracts.Actuation.{Datetime}
use zilina_eirvah_edge_impl.Contracts.Authorization.Evidence.{InTime}
use zilina_eirvah_edge_impl.Ledger
use zilina_eirvah_edge_impl.Ledger.{Ledger, Row, id_of, is_active, holds_claim, start}
use zilina_eirvah_edge_impl.Ledger.Invariant.{IsValid}
use zilina_eirvah_edge_impl.Ledger.Execution.{Executed, row_of, may_have_written}
use zilina_eirvah_edge_impl.Writer.World.{
  Env, World, Frame, Sent, now, record_command, on_ledger, or_database_error, send, read_ack,
  acknowledged,
}
use zilina_eirvah_edge_impl.Writer.Native.{poll}

-- The ledger's row of the command says that a write may have been issued.
abbrev pub Marked : ℕ → Option Row → Type 0
Marked id none = ⊥
Marked id (some r) = (r.command_id ≡ id) × (may_have_written r.state ≡ true)

Marked-Executed : (id : ℕ) (o : Option Row) → Marked id o → (d : ℕ) × Executed id d 0 o
Marked-Executed id none m = absurd m
Marked-Executed id (some r) m = (r.digest, (m.0, refl, m.1, omega arith))

Executed-Marked : (id d h : ℕ) (o : Option Row) → Executed id d h o → Marked id o
Executed-Marked id d h none x = absurd x
Executed-Marked id d h (some r) x = (x.0, x.2)

pub Marked-map :
    (id : ℕ) (o p : Option Row)
    → ((d : ℕ) → Executed id d 0 o → Executed id d 0 p)
    → Marked id o
    → Marked id p
Marked-map id o p f m = let (d, x) = Marked-Executed id o m in Executed-Marked id d 0 p (f d x)

holds_claim-id : (k token : ℕ) (r : Row) → holds_claim k token r ≡ true → id_of r ≡ k
holds_claim-id k token r e = ground arith

-- Marking a claim started, when it succeeds, marks the command.
pub mark_started-Marked :
    (id token t : ℕ) (s : Ledger)
    → IsValid s
    → (Ledger.mark_started id token t s).0 ≡ ok tt
    → Marked id (row_of id (Ledger.mark_started id token t s).1)
unfolding Ledger.mark_started
mark_started-Marked id token t s v h = elim (Option-cases (select id_of id s.rows)) [
  | inl absent ↦ absurd (
      ground (
        arith,
        count-select id_of id (holds_claim id token) s.rows (holds_claim-id id token) v.distinct,
      ))
  | inr (r, e) ↦ ground (
    arith,
    count-select id_of id (holds_claim id token) s.rows (holds_claim-id id token) v.distinct,
    select-update id_of (holds_claim id token) (start t) (λ r. refl) id s.rows,
    key-select id_of id r s.rows e,
  )
]

-- What the ledger, the frames so far and the token of the handler satisfy.
abbrev pub Facts : Type 0 → Type 1
Facts F = Ledger → List (Sent F) → Option ℕ → Type 0

abbrev pub On : {F : Type 0} → Facts F → World F → Type 0
On P w = P w.ledger w.frames w.token

module _ (id : ℕ) (deadline : Option Datetime) where
  -- Frames have gone out only for a marked command, only under a claim, and each in time.
  abbrev pub InOrder : {F : Type 0} → Facts F
  InOrder s frames token =
      IsValid s
      × ((frames ≡ []) ⊎ Marked id (row_of id s))
      × (token ≡ none → frames ≡ [])
      × All (λ f. InTime f.latest deadline) frames

  abbrev pub Held : {F : Type 0} → Facts F
  Held s frames token = InOrder s frames token × (token ≢ none)

  -- A frame may go out.
  abbrev pub Going : {F : Type 0} → Facts F
  Going s frames token = Held s frames token × Marked id (row_of id s)

module _ {F : Type 0} (env : Env) (P : Facts F) where
  pub now-On : Triple (On P) (now env) (λ t w. On P w × (w.latest ≡ t)) (λ _. On P)
  unfolding now
  now-On = record { at = λ w p. (p, refl) }

  keeps-record :
      (r : Result (Unit {0})) (w : World F) → On P w → Ends (λ _. On P) (λ _. On P) (r, w)
  keeps-record (ok a) w p = p
  keeps-record (err e) w p = p

  pub record-On : Triple (On P) (record_command env) (λ _. On P) (λ _. On P)
  unfolding record_command
  record-On = record {
    at = λ w p. keeps-record (env.recorded w.records) (record w { records = w.records + 1 }) p;
  }

  acks-go :
      (r : Result (Option (ℕ × ℕ))) (w : World F) → On P w → Ends (λ _. On P) (λ _. On P) (r, w)
  acks-go (ok a) w p = p
  acks-go (err e) w p = p

  acknowledged-On :
      (e : Exc) (o : Option (ℕ × ℕ)) → Triple (On P) (acknowledged env e o) (λ _. On P) (λ _. On P)
  acknowledged-On e none = Triple-raise e (λ w p. p)
  acknowledged-On e (some a) = Triple-pure a (λ w p. p)

  pub read_ack-On : (e : Exc) → Triple (On P) (read_ack env e) (λ _. On P) (λ _. On P)
  unfolding read_ack
  read_ack-On e =
      Triple-bind _ _ (λ _. On P)
        (record {
          at = λ w p. acks-go (env.acks w.ack_reads) (record w { ack_reads = w.ack_reads + 1 }) p;
        })
        (acknowledged-On e)

  pub poll-On :
      (e : Exc) (timeout : String) (rounds sequence : ℕ)
      → Triple (On P) (poll env e timeout rounds sequence) (λ _. On P) (λ _. On P)
  unfolding poll
  poll-On e timeout zero sequence = Triple-raise _ (λ w p. p)
  poll-On e timeout (suc rounds) sequence =
      Triple-bind _ _ (λ _. On P) (read_ack-On e)
        λ ack.
          Triple-bind _ _ (λ _. On P) (Triple-lift _ (λ a w _ p. p) (λ x w p. p))
            λ done. again done (poll-On e timeout rounds sequence)
    where
      again :
          (done : Bool)
          → Triple (On P) (poll env e timeout rounds sequence) (λ _. On P) (λ _. On P)
          → Triple
              (On P)
              (if done then pure tt else poll env e timeout rounds sequence)
              (λ _. On P)
              (λ _. On P)
      again true t = Triple-pure tt (λ w p. p)
      again false t = t

  -- A method of the ledger leaves `Q` if it returns, and `P` if it raises or if the database fails.
  pub on_ledger-On :
      {A : Type 0} (Q : A → Facts F) (body : Ledger → Result A × Ledger)
      → ((w : World F)
          → On P w
          → Ends
              (λ a (s : Ledger). Q a s w.frames w.token)
              (λ _ (s : Ledger). P s w.frames w.token)
              (body w.ledger))
      → Triple (On P) (on_ledger env body) (λ a. On (Q a)) (λ _. On P)
  unfolding on_ledger
  on_ledger-On {A} Q body keep = record { at = λ w p. go w (env.database_fails w.transactions) p }
    where
      split :
          (w : World F) (x : Result A × Ledger)
          → Ends
              (λ a (s : Ledger). Q a s w.frames w.token)
              (λ _ (s : Ledger). P s w.frames w.token)
              x
          → Ends
              (λ a. On (Q a))
              (λ _. On P)
              (x.0, record w { ledger = x.1; transactions = w.transactions + 1 })
      split w (ok a, s) h = h
      split w (err e, s) h = h

      go :
          (w : World F) (b : Bool)
          → On P w
          → let x = or_database_error b body w.ledger in
            Ends
              (λ a. On (Q a))
              (λ _. On P)
              (x.0, record w { ledger = x.1; transactions = w.transactions + 1 })
      go w true p = p
      go w false p = split w (body w.ledger) (keep w p)

module _ {F : Type 0} (env : Env) (id : ℕ) (deadline : Option Datetime) where
  abbrev pub Timed : World F → Type 0
  Timed w = On (Going id deadline) w × InTime w.latest deadline

  writes-go :
      (r : Result Bool) (w : World F)
      → On (Going id deadline) w
      → Ends (λ _. On (Going id deadline)) (λ _. On (Going id deadline)) (r, w)
  writes-go (ok b) w p = p
  writes-go (err e) w p = p

  pub send-Going :
      (f : Frame F) (e : Exc)
      → Triple Timed (send env f e) (λ _. On (Going id deadline)) (λ _. On (Going id deadline))
  unfolding send
  send-Going f e =
      Triple-bind _ _ (λ _. On (Going id deadline))
        (Triple-modify _ (λ w p.
          let ((order, held), mark) = p.0 in
          (
            ((order.0, inr mark, λ none_held. absurd (held none_held), (p.1, order.3)), held),
            mark,
          )))
        λ _.
          Triple-bind _ _ (λ _. On (Going id deadline))
            (record {
              at = λ w p.
                  writes-go (env.writes w.device_writes)
                    (record w { device_writes = w.device_writes + 1 }) p;
            })
            λ refused. Triple-require _ e (λ w _ p. p) (λ w p. p)
