-- ===== src/Tickets/Entries.antt =====
-- TicketService.check_in (app/modules/tickets/service.py): why a ticket is let in and what that writes,
-- in terms of the tables; the steps that a check-in is made of, followed in these terms.
use event_platform_backend.Prelude.{
  ℕ, ◌≡◌, ◌⊎◌, refl, ap, true, false, Option, none, some, String, str_eq,
}
use event_platform_backend.Models.Registrations.{Registration, RegistrationStatus}
use event_platform_backend.Models.Tickets.{
  Ticket, CheckIn, CheckInSource, online, offline, is_enterable,
}
use event_platform_backend.Permissions.{user_has_scoped_role, get_active_assignments}
use event_platform_backend.Registrations.Repository.{get_registration, update_registration}
use event_platform_backend.Session.{Session, ok, pure, query, lift, scalar_one_or_none, ◌>>=◌}
use event_platform_backend.Session.Frames.{Quiet, Quiet-bind, Quiet-pure, quiet_rules}
use event_platform_backend.Session.Stores.{Triple-lift}
use event_platform_backend.Session.Triples.{
  Triple, Triple-pure, Triple-if, Triple-post, after_query,
}
use event_platform_backend.Session.Views.{facts, Quiet-now}
use event_platform_backend.Session.Worlds.{World, world, Ignores-world}
use event_platform_backend.Store.{Db, ticket_key}
use event_platform_backend.Tickets.Entry.{
  Scan, find_batch, is_other_operation, is_over, synced_at, entered, new_check_in,
}
use event_platform_backend.Tickets.Gate.{
  get_ticket, can_check_in_ticket, policy_of, zone_denied, zone_invalid, used_up, before_start,
  after_end, other_day, event_row, end_of, unpaid, admissible, add_check_in, violates_unique,
  check_ins_of_batch,
}
use event_platform_backend.Tickets.Repository.{update_ticket}

-- The event has an end that is ahead at `t`, and the ticket's window and days hold `u`.
pub record InTime (iso_date : ℕ → String) (ticket : Ticket) (d : Db) (t u : ℕ) : Type 0 where
  pub not_over : is_over (end_of (event_row ticket.event_id d)) t ≡ false
  pub started : before_start ticket.valid_from u ≡ false
  pub not_ended : after_end ticket.valid_until u ≡ false
  pub on_day : other_day ticket.valid_dates (iso_date u) ≡ false

-- Why a ticket is let in.
pub record MayEnter (iso_date : ℕ → String) (ticket_id actor_id : ℕ) (scan : Scan) (d : Db)
    (ticket : Ticket) (g : Registration) (t u : ℕ) : Type 0 where
  pub found : get_ticket ticket_id d ≡ some ticket
  pub staff : can_check_in_ticket actor_id ticket d ≡ true
  pub zone_allowed : zone_denied (policy_of ticket d) scan.access_zone_id ≡ false
  pub zone_valid : zone_invalid ticket.event_id scan.access_zone_id d ≡ false
  pub not_used_up : used_up (policy_of ticket d) ticket ≡ false
  pub enterable : is_enterable ticket.status ≡ true
  pub in_time : InTime iso_date ticket d t u
  pub paid : unpaid ticket.payment_id d ≡ false
  pub registered : admissible (get_registration ticket.registration_id d) ≡ some g

-- The tables with the entry.
abbrev pub with_entry : Ticket → Registration → ℕ → CheckIn → ℕ → Db → Db
with_entry ticket g actor_id c t d =
    update_registration g.id
      (λ h. record h { status = RegistrationStatus.checked_in; checked_in_at = some t })
      (update_ticket ticket.id (entered t actor_id) (add_check_in c d))

-- The check-in `c` is the one new row, and everything is stored.
abbrev pub Entered : (ℕ → String) → ℕ → ℕ → Scan → World → CheckIn → Session → Type 0
Entered iso_date ticket_id actor_id scan T c s =
    (ticket : Ticket) × (g : Registration) × (i : ℕ) × (j : ℕ) × (k : ℕ) × (n : ℕ)
    × (synced : Option ℕ) × MayEnter iso_date ticket_id actor_id scan T.0 ticket g (T.3 i) (T.3 j)
    × (c ≡ new_check_in (T.2 n) ticket actor_id scan synced)
    × (violates_unique c T.0.check_ins ≡ false)
    × (world s ≡ (
      with_entry ticket g actor_id c (T.3 k) T.0,
      with_entry ticket g actor_id c (T.3 k) T.0,
      T.2,
      T.3,
    ))

-- The stored tables are those of `T`.
abbrev pub Stored : World → Session → Type 0
Stored T s = facts s.durable ≡ T.1

-- What the lookup of an offline operation finds: a row of its key.
abbrev pub Looked : Option String → Db → Option CheckIn → Type 0
Looked o d none = Unit
Looked o d (some c) =
    (batch : String) × ((o ≡ some batch)
      × (scalar_one_or_none (check_ins_of_batch batch d) ≡ ok (some c)))

-- The answer is the actor's own earlier check-in of the ticket under the same operation key, and
-- nothing is stored.
abbrev pub Replayed : ℕ → ℕ → Scan → World → CheckIn → Session → Type 0
Replayed ticket_id actor_id scan T c s =
    (is_other_operation ticket_id actor_id c ≡ false)
    × (Looked scan.offline_batch_id T.0 (some c) ⊎ Looked scan.offline_batch_id T.1 (some c))
    × Stored T s

pub stored : (T : World) (s : Session) → world s ≡ T → Stored T s
stored T s h = ap (λ (x : World). x.1) h

pub Quiet-synced_at : (source : CheckInSource) → Quiet world (synced_at source)
unfolding synced_at
Quiet-synced_at online = search quiet_rules
Quiet-synced_at offline =
    Quiet-bind world _ _ (Quiet-now world Ignores-world) λ t. Quiet-pure world _

pub find_batch-Triple :
    (o : Option String) (U : World) (E : Session → Type 0)
    → ((s : Session) → world s ≡ U → E s)
    → Triple (λ s. world s ≡ U) (find_batch o) (λ r s. Looked o U.0 r × (world s ≡ U)) E
unfolding find_batch check_ins_of_batch
find_batch-Triple none U E down = Triple-pure none λ s h. (tt, h)
find_batch-Triple (some b) U E down =
    Triple-if (str_eq b "") (pure none)
      (query (check_ins_of_batch b) >>= λ rows. lift (scalar_one_or_none rows))
      (λ empty. Triple-pure none λ s h. (tt, h))
      λ given.
        after_query world U (check_ins_of_batch b) (λ d. check_ins_of_batch b d.0) _ (λ s. refl)
          (Triple-post _ (λ r s h. (looked r h.0, h.1)) (Triple-lift down _))
  where
    looked :
        (r : Option CheckIn)
        → scalar_one_or_none (check_ins_of_batch b U.0) ≡ ok r
        → Looked (some b) U.0 r
    looked none h = tt
    looked (some c) h = (b, (refl, h))

pub facts-add_check_in :
    (c : CheckIn) (d : Db) → facts (add_check_in c d) ≡ add_check_in c (facts d)
unfolding add_check_in
facts-add_check_in c d = refl

pub facts-update_registration :
    (i : ℕ) (f : Registration → Registration) (d : Db)
    → facts (update_registration i f d) ≡ update_registration i f (facts d)
unfolding update_registration
facts-update_registration i f d = refl

pub facts-zone_invalid :
    (e : ℕ) (z : Option ℕ) (d : Db) → zone_invalid e z d ≡ zone_invalid e z (facts d)
unfolding zone_invalid
facts-zone_invalid e none d = refl
facts-zone_invalid e (some i) d = refl

pub facts-unpaid : (p : Option ℕ) (d : Db) → unpaid p d ≡ unpaid p (facts d)
unfolding unpaid
facts-unpaid none d = refl
facts-unpaid (some i) d = refl

pub facts-can_check_in_ticket :
    (actor : ℕ) (t : Ticket) (d : Db)
    → can_check_in_ticket actor t d ≡ can_check_in_ticket actor t (facts d)
unfolding can_check_in_ticket user_has_scoped_role get_active_assignments
facts-can_check_in_ticket actor t d = refl
