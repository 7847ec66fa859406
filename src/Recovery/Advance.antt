-- ===== src/Recovery/Advance.antt =====
-- recovery.py, ConsumerStore.advance: which positions of a topic a consumer accepts.
use zilina_eirvah_edge_impl.Prelude.{
  ℕ, ◌≡◌, ◌↔◌, refl, Bool, true, false, not, Option, none, some, List, [], ◌∷◌, ◌==◌, ltb,
  if◌then◌else◌, arith,
}
use zilina_eirvah_edge_impl.Recovery.Positions.{Position, Before}

-- A row of the table positions; the producer of a position stands for its text "producer/node".
pub record Bound : Type 0 where
  pub position : Position
  pub binding : ℕ

-- The table positions, by topic.
abbrev pub Store : Type 0
Store = ℕ → Option Bound

pub data Answer : Type 0 where
  accepted producer_conflict old_epoch out_of_order duplicate position_conflict : Answer

abbrev pub same_source : Position → Position → Bool
same_source p q = if p.producer == q.producer then p.node == q.node else false

-- The checks against the row of the topic
abbrev pub judge : Option Bound → Position → ℕ → Answer
judge none p binding = Answer.accepted
judge (some old) p binding =
    if not (same_source old.position p)
    then Answer.producer_conflict
    else if ltb p.epoch old.position.epoch
    then Answer.old_epoch
    else if not (p.epoch == old.position.epoch)
    then Answer.accepted
    else if ltb p.sequence old.position.sequence
    then Answer.out_of_order
    else if not (p.sequence == old.position.sequence)
    then Answer.accepted
    else if old.binding == binding
    then Answer.duplicate
    else Answer.position_conflict

abbrev pub is_accepted : Answer → Bool
is_accepted Answer.accepted = true
is_accepted Answer.producer_conflict = false
is_accepted Answer.old_epoch = false
is_accepted Answer.out_of_order = false
is_accepted Answer.duplicate = false
is_accepted Answer.position_conflict = false

-- ConsumerStore.advance
unfoldable pub advance : ℕ → Position → ℕ → Store → Answer × Store
advance topic p binding db =
    let answer = judge (db topic) p binding in
    (
      answer,
      if is_accepted answer
          then (λ t. if t == topic then some (record { position = p; binding = binding }) else db t)
          else db,
    )

-- The position is the first of its topic, or comes from the same source and is after the last one.
abbrev pub IsNext : Option Bound → Position → Type 0
IsNext none p = Unit {0}
IsNext (some old) p =
    (old.position.producer ≡ p.producer) × (old.position.node ≡ p.node) × Before old.position p

judge_iff :
    (o : Option Bound) (p : Position) (binding : ℕ)
    → (judge o p binding ≡ Answer.accepted) ↔ IsNext o p
judge_iff none p binding = (λ h. tt, λ h. refl)
judge_iff (some old) p binding = (λ h. ground arith, λ h. ground arith)

-- A consumer accepts a position of a topic exactly if it has none yet, or the position comes from the
-- same producer and node and is after the last accepted one; the accepted position becomes the
-- topic's last one, a position that is not accepted changes nothing, and other topics keep theirs.
pub advance-accepts :
    (topic : ℕ) (p : Position) (binding : ℕ) (db : Store)
    → (((advance topic p binding db).0 ≡ Answer.accepted) ↔ IsNext (db topic) p)
      × ((advance topic p binding db).0 ≡ Answer.accepted
          → (advance topic p binding db).1 topic
            ≡ some (record { position = p; binding = binding }))
      × (((advance topic p binding db).0 ≡ Answer.accepted → ⊥)
          → (advance topic p binding db).1 topic ≡ db topic)
      × ((t : ℕ) → (t ≡ topic → ⊥) → (advance topic p binding db).1 t ≡ db t)
unfolding advance
advance-accepts topic p binding db = (
  judge_iff (db topic) p binding,
  λ h. ground (arith, h),
  λ h. ground (arith, h),
  λ t h. ground (arith, h),
)

-- The calls of a consumer, each with what it is told.
unfoldable pub AllAccepted : ℕ → List (Position × ℕ) → Store → Type 0
unfolding advance
AllAccepted topic [] db = Unit {0}
AllAccepted topic ((p, b) ∷ rest) db =
    ((advance topic p b db).0 ≡ Answer.accepted) × AllAccepted topic rest (advance topic p b db).1

-- Each position of the list comes after the one before it, from one source.
abbrev pub Ascending : Position → List (Position × ℕ) → Type 0
Ascending p [] = Unit {0}
Ascending p ((q, b) ∷ rest) =
    (p.producer ≡ q.producer) × (p.node ≡ q.node) × Before p q × Ascending q rest

accepted_from :
    (topic : ℕ) (p : Position) (b : ℕ) (rest : List (Position × ℕ)) (db : Store)
    → db topic ≡ some (record { position = p; binding = b })
    → Ascending p rest
    → AllAccepted topic rest db
unfolding AllAccepted
accepted_from topic p b [] db e h = tt
accepted_from topic p b ((q, c) ∷ rest) db e (s, n, order, later) =
    let facts = advance-accepts topic q c db in
    let ok_now : (advance topic q c db).0 ≡ Answer.accepted = facts.0.1 (rw e (s, n, order)) in
    (ok_now, accepted_from topic q c rest (advance topic q c db).1 (facts.1 ok_now) later)

-- On a topic without a position, a consumer accepts every position of a list in which each comes
-- after the one before, from one producer and node, whatever they are bound to.
pub advance-Ascending :
    (topic : ℕ) (p : Position) (b : ℕ) (rest : List (Position × ℕ)) (db : Store)
    → db topic ≡ none
    → Ascending p rest
    → AllAccepted topic ((p, b) ∷ rest) db
unfolding AllAccepted
advance-Ascending topic p b rest db e h =
    let facts = advance-accepts topic p b db in
    let ok_now : (advance topic p b db).0 ≡ Answer.accepted = facts.0.1 (rw e tt) in
    (ok_now, accepted_from topic p b rest (advance topic p b db).1 (facts.1 ok_now) h)
