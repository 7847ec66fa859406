-- ===== src/Recovery/Consumer/Once.antt =====
-- recovery.py, ConsumerStore: each inspection leads to one command at most, and a completed one stays
-- completed.
use zilina_eirvah_edge_impl.Prelude.{
  ℕ, ◌≡◌, refl, true, not, ◌&&◌, Option, none, some, List, [], ◌∷◌, is_some, arith, Bool-cases, inl,
  inr,
}
use zilina_eirvah_edge_impl.Prelude.Exceptions.{Result, ok, err, ◌>>=◌}
use zilina_eirvah_edge_impl.Sql.{
  delete, update, insert, select, Distinct, select-delete, select-insert, Distinct-insert,
}
use zilina_eirvah_edge_impl.Recovery.Consumer.{
  Event, Command, Decision, Answer, Disposition, Row, is_pending, is_completed, id_of, has_command,
  disposition_of, command_of, is_old, keep_row, receive_row, committed, receive, is_bound, dispose,
  settle_as, settle_by, row_with_command, settle_command, settle_row, settle,
}

-- What is kept of a new row is the row itself.
keep_row-new :
    (r r' : Row) (now : ℕ) (c : Option Command) (rows rows' : List Row)
    → Distinct id_of rows
    → select id_of (id_of r) rows ≡ none
    → r.received ≡ now
    → keep_row r now c rows ≡ ok (r', rows')
    → (select id_of (id_of r) rows' ≡ some r) × (r' ≡ r)
keep_row-new r r' now c rows rows' d absent at h =
    let still : select id_of (id_of r) (delete (is_old now) (insert r rows)) ≡ some r = ground (
      arith,
      absent,
      at,
      select-insert id_of (id_of r) r rows,
      select-delete id_of (id_of r) (is_old now) (insert r rows)
          (Distinct-insert id_of r rows d absent),
    ) in
    (ground (arith, h, still), ground (arith, h, still))

add_row-new :
    (digest : Event → ℕ) (e : Event) (now max_age : ℕ) (c : Result (Option Command))
    (baseline : Option ℕ) (d : Disposition) (rows : List Row) (r : Row) (rows' : List Row)
    → Distinct id_of rows
    → select id_of e.inspection_id rows ≡ none
    → (elim c [
      | err x ↦ err x
      | ok command ↦
          keep_row
            (record {
              event = e;
              digest = digest e;
              received = now;
              disposition = d;
              command = command;
              result = none;
              last_sent = 0;
              baseline_count = baseline;
            })
            now
            command
            rows
    ])
      ≡ ok (r, rows')
    → (select id_of e.inspection_id rows' ≡ some r) × (r.digest ≡ digest e)
add_row-new digest e now max_age (err x) baseline d rows r rows' v absent h = absurd (cc)
add_row-new digest e now max_age (ok command) baseline d rows r rows' v absent h =
    let made : Row = record {
      event = e;
      digest = digest e;
      received = now;
      disposition = d;
      command = command;
      result = none;
      last_sent = 0;
      baseline_count = baseline;
    } in
    let (there, same) = keep_row-new made r now command rows rows' v absent refl h in
    (rw same there, rw same refl)

-- What was received is found again, with the digest of its event.
receive_row-found :
    (digest : Event → ℕ) (e : Event) (now max_age : ℕ) (factory : Result Command)
    (baseline : Option ℕ) (o : Option Row) (rows : List Row) (r : Row) (rows' : List Row)
    → Distinct id_of rows
    → select id_of e.inspection_id rows ≡ o
    → receive_row digest e now max_age factory baseline o rows ≡ ok (r, rows')
    → (select id_of e.inspection_id rows' ≡ some r) × (r.digest ≡ digest e)
receive_row-found digest e now max_age factory baseline (some old) rows r rows' v s h =
    (ground (arith, s, h), ground (arith, h))
receive_row-found digest e now max_age factory baseline none rows r rows' v s h =
    add_row-new digest e now max_age
      (command_of (is_pending (disposition_of e now max_age rows)) factory rows) baseline
      (disposition_of e now max_age rows) rows r rows' v s
      (go (command_of (is_pending (disposition_of e now max_age rows)) factory rows) h)
  where
    made : Option Command → Row
    made command = record {
      event = e;
      digest = digest e;
      received = now;
      disposition = disposition_of e now max_age rows;
      command = command;
      result = none;
      last_sent = 0;
      baseline_count = baseline;
    }

    go :
        (c : Result (Option Command))
        → (c >>= λ command. keep_row (made command) now command rows) ≡ ok (r, rows')
        → (elim c [ err x ↦ err x | ok command ↦ keep_row (made command) now command rows ])
          ≡ ok (r, rows')
    go (err x) k = k
    go (ok command) k = k

committed-inv :
    (x : Result (Row × List Row)) (rows : List Row) (r : Row)
    → (committed x rows).0 ≡ ok r
    → x ≡ ok (r, (committed x rows).1)
committed-inv (ok (r', rows')) rows r h = ground (arith, h)
committed-inv (err y) rows r h = absurd (cc)

-- When an inspection has been received, from a table with distinct identities, receiving it again, at
-- any time and with any factory of commands, returns the stored row and changes nothing: there is no
-- second command.
pub receive-again :
    (digest : Event → ℕ) (e : Event) (now max_age now' max_age' : ℕ)
    (factory factory' : Result Command) (baseline baseline' : Option ℕ) (rows : List Row) (r : Row)
    → Distinct id_of rows
    → (receive digest e now max_age factory baseline rows).0 ≡ ok r
    → receive digest e now' max_age' factory' baseline'
        (receive digest e now max_age factory baseline rows).1
      ≡ (ok r, (receive digest e now max_age factory baseline rows).1)
unfolding receive
receive-again digest e now max_age now' max_age' factory factory' baseline baseline' rows r v h =
    let (there, same) =
      receive_row-found digest e now max_age factory baseline (select id_of e.inspection_id rows)
        rows r _ v refl (committed-inv _ rows r h) in
    ground (arith, there, same)

has_command-dispose :
    (k : ℕ) (d : Disposition) (a : Answer) (r : Row)
    → has_command k (dispose d a r) ≡ has_command k r
has_command-dispose k d a r = refl

both_commands : (j k : ℕ) (r : Row) → has_command j r ≡ true → has_command k r ≡ true → j ≡ k
both_commands j k r p q = ground (arith, p, q)

-- A command's row is completed.
abbrev pub CompletedRow : Option Row → Type 0
CompletedRow none = ⊥
CompletedRow (some r) = is_completed r.disposition ≡ true

completed_kept :
    (k j : ℕ) (d : Disposition) (a : Answer) (rows : List Row)
    → (j ≡ k → is_completed d ≡ true)
    → CompletedRow (row_with_command k rows)
    → CompletedRow (row_with_command k (update (has_command j) (dispose d a) rows))
completed_kept k j d a [] f h = h
completed_kept k j d a (r ∷ rows) f h = elim (Bool-cases (has_command k r)) [
  | inl here ↦ elim (Bool-cases (has_command j r)) [
    | inl both ↦ rw (both, here) (f (both_commands j k r both here))
    | inr other ↦ rw (other, here) (rw here at h)
  ]
  | inr later ↦ elim (Bool-cases (has_command j r)) [
    | inl hit ↦ rw (hit, later) (completed_kept k j d a rows f (rw later at h))
    | inr other ↦ rw (other, later) (completed_kept k j d a rows f (rw later at h))
  ]
]

settle_as-kept :
    (k : ℕ) (d : Disposition) (a : Answer) (r : Row) (rows : List Row)
    → row_with_command a.command.correlation_id rows ≡ some r
    → CompletedRow (row_with_command k rows)
    → CompletedRow (row_with_command k (settle_as d a r rows).1)
settle_as-kept k d a r rows s h =
    elim (Bool-cases (is_completed r.disposition && not (is_completed d))) [
      | inl refused ↦ rw refused h
      | inr allowed ↦ rw allowed (
          completed_kept k a.command.correlation_id d a rows
            (λ same. ground (arith, s, h, same, allowed)) h)
    ]

settle_by-kept :
    (k : ℕ) (x : Decision) (a : Answer) (r : Row) (rows : List Row)
    → row_with_command a.command.correlation_id rows ≡ some r
    → CompletedRow (row_with_command k rows)
    → CompletedRow (row_with_command k (settle_by x a r rows).1)
settle_by-kept k Decision.pending a r rows s h = h
settle_by-kept k Decision.other a r rows s h = h
settle_by-kept k Decision.approve a r rows s h = elim (Bool-cases (is_some a.written_at)) [
  | inl there ↦ rw there (settle_as-kept k Disposition.completed a r rows s h)
  | inr missing ↦ rw missing h
]
settle_by-kept k Decision.reject a r rows s h = settle_as-kept k Disposition.refused a r rows s h
settle_by-kept k Decision.unknown a r rows s h = settle_as-kept k Disposition.unknown a r rows s h

settle_command-kept :
    (k : ℕ) (a : Answer) (r : Row) (c : Option Command) (rows : List Row)
    → row_with_command a.command.correlation_id rows ≡ some r
    → CompletedRow (row_with_command k rows)
    → CompletedRow (row_with_command k (settle_command a r c rows).1)
settle_command-kept k a r none rows s h = h
settle_command-kept k a r (some c) rows s h = elim (Bool-cases (is_bound a.command c)) [
  | inl bound ↦ rw bound (settle_by-kept k a.decision a r rows s h)
  | inr unbound ↦ rw unbound h
]

settle_row-kept :
    (k : ℕ) (a : Answer) (o : Option Row) (rows : List Row)
    → row_with_command a.command.correlation_id rows ≡ o
    → CompletedRow (row_with_command k rows)
    → CompletedRow (row_with_command k (settle_row a o rows).1)
settle_row-kept k a none rows s h = h
settle_row-kept k a (some r) rows s h = settle_command-kept k a r r.command rows s h

-- A command that is completed stays completed, whatever answer is settled, for this command or for
-- another, and whether it is accepted or raises.
pub settle-CompletedRow :
    (k : ℕ) (a : Answer) (rows : List Row)
    → CompletedRow (row_with_command k rows)
    → CompletedRow (row_with_command k (settle a rows).1)
unfolding settle
settle-CompletedRow k a rows h =
    settle_row-kept k a (row_with_command a.command.correlation_id rows) rows refl h
