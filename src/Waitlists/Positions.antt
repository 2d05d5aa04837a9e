-- ===== src/Waitlists/Positions.antt =====
-- WaitlistService._position: places in a queue and its order.
use event_platform_backend.Prelude.{
  ℕ, ◌≡◌, ◌≢◌, ◌⊎◌, inl, inr, sym, ◌<◌, ◌≤◌, refl, Bool, true, false, some, List, [], ◌∷◌, String,
  arith, count_where, All, str_eq_iff, ◌&&◌,
}
use event_platform_backend.Models.Waitlists.{WaitlistEntry, is_waiting}
use event_platform_backend.Store.{Db, waitlist_entry_key}
use event_platform_backend.Table.{get, IsKeyed}
use event_platform_backend.Waitlists.Repository.{
  before, waits_for, next_waiting, count_waiting_before,
}
use event_platform_backend.Waitlists.Notices.{position}
use event_platform_backend.Waitlists.Fifo.{First, next_waiting-First}

-- Counting is monotone in the condition, and strictly so at a row that only the weaker one counts.
module _ (p q : WaitlistEntry → Bool) (sub : (x : WaitlistEntry) → p x ≡ true → q x ≡ true) where
  count_where_mono : (t : List WaitlistEntry) → count_where p t ≤ count_where q t
  count_where_mono [] = omega arith
  count_where_mono (x ∷ t) = ground (arith, sub x, count_where_mono t)

  count_where_lt :
      (i : ℕ) (t : List WaitlistEntry) (e : WaitlistEntry)
      → get i t ≡ some e
      → p e ≡ false
      → q e ≡ true
      → count_where p t < count_where q t
  count_where_lt i [] e g np qe = absurd (cc g)
  count_where_lt i (x ∷ t) e g np qe =
      ground (arith, sub x, count_where_mono t, count_where_lt i t e)

-- Two entries of one queue.
pub record SameQueue (d : Db) (a b : WaitlistEntry) : Type 0 where
  pub a_stored : get a.id d.waitlist_entries ≡ some a
  pub b_stored : get b.id d.waitlist_entries ≡ some b
  pub event : a.event_id ≡ b.event_id
  pub kind : a.participation_type ≡ b.participation_type
  pub a_waits : is_waiting a.status ≡ true
  pub b_waits : is_waiting b.status ≡ true

before_trans : (x a b : WaitlistEntry) → before x a ≡ true → before a b ≡ true → before x b ≡ true
before_trans x a b h k = ground arith

count_before_lt :
    (d : Db) (a b : WaitlistEntry)
    → SameQueue d a b
    → before a b ≡ true
    → count_waiting_before a d < count_waiting_before b d
unfolding count_waiting_before
count_before_lt d a b s h =
    count_where_lt (λ e. waits_for a.event_id a.participation_type e && before e a)
      (λ e. waits_for b.event_id b.participation_type e && before e b)
      (λ x w. rw (← s.event, ← s.kind) (ground (arith, before_trans x a b))) a.id d.waitlist_entries
      a s.a_stored (ground arith)
      (rw (← s.event, ← s.kind)
        (ground (arith, (str_eq_iff a.participation_type a.participation_type).1 refl, s.a_waits)))

-- In one queue, who comes before has the smaller place.
pub place_lt :
    (d : Db) (a b : WaitlistEntry) (m n : ℕ)
    → SameQueue d a b
    → before a b ≡ true
    → position a d ≡ some m
    → position b d ≡ some n
    → m < n
unfolding position
place_lt d a b m n s h p q = ground (arith, count_before_lt d a b s h, s.a_waits, s.b_waits)

before_total : (a b : WaitlistEntry) → a.id ≢ b.id → (before a b ≡ true) ⊎ (before b a ≡ true)
before_total a b h = ground arith

-- Two waiting entries of one queue never share a place.
pub places_differ :
    (d : Db) (a b : WaitlistEntry) → SameQueue d a b → a.id ≢ b.id → position a d ≢ position b d
unfolding position
places_differ d a b s h e = elim (before_total a b h) [
  | inl p ↦ ground (arith, count_before_lt d a b s p, s.a_waits, s.b_waits)
  | inr p ↦ ground (arith, count_before_lt d b a (flip s) p, s.a_waits, s.b_waits)
]
  where
    flip : SameQueue d a b → SameQueue d b a
    flip q = record {
      a_stored = q.b_stored;
      b_stored = q.a_stored;
      event = sym q.event;
      kind = sym q.kind;
      a_waits = q.b_waits;
      b_waits = q.a_waits;
    }

none_before :
    (event_id : ℕ) (participation_type : String) (e : WaitlistEntry) (t : List WaitlistEntry)
    → All (λ x. waits_for event_id participation_type x ≡ true → before x e ≡ false) t
    → count_where (λ x. waits_for event_id participation_type x && before x e) t ≡ 0
none_before event_id participation_type e [] h = refl
none_before event_id participation_type e (x ∷ t) h =
    ground (arith, h.0, none_before event_id participation_type e t h.1)

same_names :
    (event_id : ℕ) (participation_type : String) (e : WaitlistEntry)
    → waits_for event_id participation_type e ≡ true
    → (e.event_id ≡ event_id)
      × (e.participation_type ≡ participation_type)
      × (is_waiting e.status ≡ true)
same_names event_id participation_type e h =
    ground (arith, str_eq_iff e.participation_type participation_type)

-- The entry that next_waiting gives has place 1.
pub next_waiting_place :
    (event_id : ℕ) (participation_type : String) (d : Db) (e : WaitlistEntry)
    → IsKeyed d.waitlist_entries
    → next_waiting event_id participation_type d ≡ some e
    → position e d ≡ some 1
unfolding position count_waiting_before
next_waiting_place event_id participation_type d e v h =
    let first : First (waits_for event_id participation_type) d.waitlist_entries e =
      next_waiting-First event_id participation_type d e v h in
    let (same_event, same_type, waits) = same_names event_id participation_type e first.meets in
    rw (same_event, same_type, waits)
      (ground (arith, none_before event_id participation_type e d.waitlist_entries first.least))
