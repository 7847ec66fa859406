-- ===== src/Recovery/Journal/Outbox.antt =====
-- recovery.py, SourceJournal: the outbox loses and reorders nothing.
use zilina_eirvah_edge_impl.Prelude.{
  ℕ, ◌+◌, ◌≡◌, refl, ◌∙◌, Bool, false, Option, none, some, List, [], ◌∷◌, if◌then◌else◌, arith,
  Bool-cases, inl, inr,
}
use zilina_eirvah_edge_impl.Prelude.Exceptions.{Result, ok, err}
use zilina_eirvah_edge_impl.Sql.{
  delete, update, count, insert, select, Distinct, Distinct-delete, Distinct-insert,
  Distinct-update,
}
use zilina_eirvah_edge_impl.Recovery.Journal.{
  Event, Journal, IsValid, id_of, is_pending, first_pending, head, add_event, with_event, is_old,
  commit_rest, commit, has_id, receive, ack_row, ack,
}

count-insert :
    (p : Event → Bool) (e : Event) (es : List Event)
    → count p (insert e es) ≡ count p es + (if p e then 1 else 0)
count-insert p e [] = ground arith
count-insert p e (x ∷ es) = ground (arith, count-insert p e es)

pub count-delete_old :
    (now : ℕ) (es : List Event) → count is_pending (delete (is_old now) es) ≡ count is_pending es
count-delete_old now [] = refl
count-delete_old now (e ∷ es) = ground (arith, count-delete_old now es)

unchanged_others :
    (id : ℕ) (es : List Event)
    → select id_of id es ≡ none
    → count is_pending (update (has_id id) receive es) ≡ count is_pending es
unchanged_others id [] h = refl
unchanged_others id (e ∷ es) h = ground (arith, unchanged_others id es)

count-receive :
    (id : ℕ) (e : Event) (es : List Event)
    → Distinct id_of es
    → select id_of id es ≡ some e
    → e.received ≡ false
    → count is_pending es ≡ count is_pending (update (has_id id) receive es) + 1
count-receive id e [] d h r = absurd (cc)
count-receive id e (x ∷ es) d h r =
    ground (arith, count-receive id e es d.1, unchanged_others id es, d.0)

add-IsValid :
    (id body at : ℕ) (o : Option Event) (j k : Journal)
    → select id_of id j.events ≡ o
    → IsValid j
    → add_event id body at o j ≡ ok k
    → IsValid k
add-IsValid id body at (some old) j k s v h = ground (arith, v)
add-IsValid id body at none j k s v h =
    let e : Event = record { id = id; body = body; created = at; received = false } in
    ground (
      arith,
      Distinct-insert id_of e j.events v.distinct,
      count-insert is_pending e j.events,
      v.balance,
      v.fits,
    )

with_event-IsValid :
    (event : Option (ℕ × ℕ)) (at : ℕ) (j k : Journal)
    → IsValid j
    → with_event event at j ≡ ok k
    → IsValid k
with_event-IsValid none at j k v h = ground (arith, v)
with_event-IsValid (some (id, body)) at j k v h =
    add-IsValid id body at (select id_of id j.events) j k refl v h

commit_rest-IsValid :
    (state : ℕ) (effect : Option ℕ) (at' at'' : ℕ) (j : Journal) (r : Result Journal)
    → IsValid j
    → ((k : Journal) → r ≡ ok k → IsValid k)
    → IsValid (commit_rest state effect at' at'' j r).1
commit_rest-IsValid state effect at' at'' j (err e) v h = v
commit_rest-IsValid state effect at' at'' j (ok k) v h =
    let u = h k refl in
    record {
      distinct = Distinct-delete id_of (is_old at'') k.events u.distinct;
      balance = ground (arith, count-delete_old at'' k.events, u.balance);
      fits = ground (arith, count-delete_old at'' k.events, u.fits);
    }

-- A commit, whatever it holds and whether it is refused or not, keeps a well-formed journal so:
-- identities are distinct, the created counter is the received counter and the pending events
-- together, and the pending events fit in the capacity.
pub commit-IsValid :
    (state : ℕ) (event : Option (ℕ × ℕ)) (effect : Option ℕ) (at at' at'' : ℕ) (j : Journal)
    → IsValid j
    → IsValid (commit state event effect at at' at'' j).1
unfolding commit
commit-IsValid state event effect at at' at'' j v =
    commit_rest-IsValid state effect at' at'' j (with_event event at j) v
      (λ k h. with_event-IsValid event at j k v h)

ack_row-IsValid :
    (id : ℕ) (o : Option Event) (j : Journal)
    → select id_of id j.events ≡ o
    → IsValid j
    → IsValid (ack_row id o j).1
ack_row-IsValid id none j s v = v
ack_row-IsValid id (some e) j s v = elim (Bool-cases e.received) [
  | inl done ↦ rw done v
  | inr open_event ↦ rw open_event (record {
    distinct = Distinct-update id_of (has_id id) receive (λ r. refl) j.events v.distinct;
    balance = ground (arith, count-receive id e j.events v.distinct s open_event, v.balance);
    fits = ground (arith, count-receive id e j.events v.distinct s open_event, v.fits);
  })
]

-- An acknowledgement of any identity keeps a well-formed journal so.
pub ack-IsValid : (id : ℕ) (j : Journal) → IsValid j → IsValid (ack id j).1
unfolding ack
ack-IsValid id j v = ack_row-IsValid id (select id_of id j.events) j refl v

first_pending-insert :
    (e : Event) (body : ℕ) (es : List Event)
    → first_pending es ≡ some body
    → first_pending (insert e es) ≡ some body
first_pending-insert e body [] h = absurd (cc)
first_pending-insert e body (x ∷ es) h = ground (arith, first_pending-insert e body es)

first_pending-delete_old :
    (now : ℕ) (es : List Event) → first_pending (delete (is_old now) es) ≡ first_pending es
first_pending-delete_old now [] = refl
first_pending-delete_old now (e ∷ es) = ground (arith, first_pending-delete_old now es)

add-head :
    (id body at b : ℕ) (o : Option Event) (j k : Journal)
    → add_event id body at o j ≡ ok k
    → first_pending j.events ≡ some b
    → first_pending k.events ≡ some b
add-head id body at b (some old) j k h f = ground (arith, f)
add-head id body at b none j k h f = ground (
  arith,
  f,
  first_pending-insert (record { id = id; body = body; created = at; received = false }) b j.events,
)

with_event-head :
    (event : Option (ℕ × ℕ)) (at b : ℕ) (j k : Journal)
    → with_event event at j ≡ ok k
    → first_pending j.events ≡ some b
    → first_pending k.events ≡ some b
with_event-head none at b j k h f = ground (arith, f)
with_event-head (some (id, body)) at b j k h f =
    add-head id body at b (select id_of id j.events) j k h f

commit_rest-head :
    (state : ℕ) (effect : Option ℕ) (at' at'' b : ℕ) (j : Journal) (r : Result Journal)
    → first_pending j.events ≡ some b
    → ((k : Journal) → r ≡ ok k → first_pending k.events ≡ some b)
    → first_pending (commit_rest state effect at' at'' j r).1.events ≡ some b
commit_rest-head state effect at' at'' b j (err e) f h = f
commit_rest-head state effect at' at'' b j (ok k) f h =
    first_pending-delete_old at'' k.events ∙ h k refl

-- A commit never displaces the head of the outbox: the event that is to be sent next stays the next
-- one, whatever else is committed.
pub head-commit :
    (state : ℕ) (event : Option (ℕ × ℕ)) (effect : Option ℕ) (at at' at'' b : ℕ) (j : Journal)
    → head j ≡ some b
    → head (commit state event effect at at' at'' j).1 ≡ some b
unfolding head commit
head-commit state event effect at at' at'' b j h =
    commit_rest-head state effect at' at'' b j (with_event event at j) h
      (λ k e. with_event-head event at b j k e h)
