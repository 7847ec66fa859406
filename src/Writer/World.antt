-- ===== src/Writer/World.antt =====
-- The state of the writer during one message, and the calls that leave it: the clock, the ledger's
-- database, the journal of evidence and the device. What these return is the parameter `Env`; the
-- state counts the calls, so that each call has its own answer.
use zilina_eirvah_edge_impl.Prelude.{
  ℕ, ◌+◌, String, Bool, true, false, not, Option, none, some, List, ◌∷◌,
}
use zilina_eirvah_edge_impl.Prelude.Exceptions.{Exc, Result, ok, err}
use zilina_eirvah_edge_impl.Prelude.Exec.{Exec, pure, raise, modify, require, ◌>>=◌, ◌>>◌}
use zilina_eirvah_edge_impl.Prelude.Numbers.{Value}
use zilina_eirvah_edge_impl.Ledger.{Ledger}

pub record Env : Type 0 where
  -- the readings of the clock
  pub clock : ℕ → ℕ
  -- whether a transaction of the database fails, and is rolled back
  pub database_fails : ℕ → Bool
  -- what the journal of evidence returns
  pub recorded : ℕ → Result (Unit {0})
  -- secrets.token_hex(16) and secrets.randbelow(65535)
  pub token : ℕ
  pub random : ℕ
  -- the connection to a native device, its acknowledgements, and whether a write is answered with an
  -- error; `none` is an answer with isError()
  pub connects : Result Bool
  pub acks : ℕ → Result (Option (ℕ × ℕ))
  pub writes : ℕ → Result Bool
  -- the polls that fit in the timeout
  pub rounds : ℕ
  -- an OPC UA session: opening it up to the node, and closing it
  pub opens : Result (Unit {0})
  pub closes : Result (Unit {0})

-- What goes out to a device: registers at an address, words at an offset of a data block, or a value
-- at a node.
pub data Frame (F : Type 0) : Type 0 where
  registers : ℕ → List ℕ → Frame F
  block : ℕ → ℕ → List ℕ → Frame F
  node : List String → Value F → Frame F

-- A frame with the reading of the clock that was the latest when it went out.
pub record Sent (F : Type 0) : Type 0 where
  pub frame : Frame F
  pub latest : ℕ

pub record World (F : Type 0) : Type 0 where
  pub ledger : Ledger
  pub frames : List (Sent F)
  pub latest : ℕ
  -- the variables of the handler that its closures and its `except` block read
  pub token : Option ℕ
  pub initiated : Bool
  -- the calls so far
  pub reads : ℕ
  pub transactions : ℕ
  pub records : ℕ
  pub ack_reads : ℕ
  pub device_writes : ℕ

abbrev pub or_database_error :
    {A : Type 0} → Bool → (Ledger → Result A × Ledger) → Ledger → Result A × Ledger
or_database_error true body s = (err Exc.database_error, s)
or_database_error false body s = body s

module _ {F : Type 0} (env : Env) where
  -- current_time(), datetime.now(UTC), time.time()
  unfoldable pub now : Exec (World F) ℕ
  now w = (ok (env.clock w.reads), record w { reads = w.reads + 1; latest = env.clock w.reads })

  -- record_command
  unfoldable pub record_command : Exec (World F) (Unit {0})
  record_command w = (env.recorded w.records, record w { records = w.records + 1 })

  -- A method of the ledger, whose database may fail.
  unfoldable pub on_ledger : {A : Type 0} → (Ledger → Result A × Ledger) → Exec (World F) A
  on_ledger body w =
      let (r, s) = or_database_error (env.database_fails w.transactions) body w.ledger in
      (r, record w { ledger = s; transactions = w.transactions + 1 })

  -- A frame goes out, and the device answers; an error in the answer is raised.
  unfoldable pub send : Frame F → Exc → Exec (World F) (Unit {0})
  send f e =
      modify
        (λ (w : World F). record w { frames = record { frame = f; latest = w.latest } ∷ w.frames })
      >> ((λ w. (env.writes w.device_writes, record w { device_writes = w.device_writes + 1 }))
          >>= λ refused. require (not refused) e)

  abbrev pub acknowledged : Exc → Option (ℕ × ℕ) → Exec (World F) (ℕ × ℕ)
  acknowledged e none = raise e
  acknowledged e (some ack) = pure ack

  unfoldable pub read_ack : Exc → Exec (World F) (ℕ × ℕ)
  read_ack e = (λ w. (env.acks w.ack_reads, record w { ack_reads = w.ack_reads + 1 })) >>= λ ack.
      acknowledged e ack
