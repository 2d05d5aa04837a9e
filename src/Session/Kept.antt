-- ===== src/Session/Kept.antt =====
-- The stored tables together with a part `b` of those that the session sees, and the writes that
-- leave both alone.
use event_platform_backend.Prelude.{ℕ, ◌≡◌, refl, ap, List, String, Option}
use event_platform_backend.Models.Events.{Event}
use event_platform_backend.Models.Notifications.{Notification, AuditLog}
use event_platform_backend.Models.Registrations.{Registration}
use event_platform_backend.Models.Tickets.{Ticket}
use event_platform_backend.Models.Waitlists.{WaitlistEntry}
use event_platform_backend.Registrations.Repository.{update_registration}
use event_platform_backend.Registrations.Window.{update_event}
use event_platform_backend.Session.{Session, Action, modify}
use event_platform_backend.Session.Frames.{Frame, Quiet-Frame}
use event_platform_backend.Session.Views.{
  Ignores, lasting, Quiet-now, Quiet-uuid4, Quiet-token_hex, Quiet-lock, Quiet-capacity_lock,
  Quiet-audit,
}
use event_platform_backend.Session.{
  LockKey, now, uuid4, token_hex, acquire_advisory_lock, acquire_event_capacity_lock,
  write_audit_log,
}
use event_platform_backend.Store.{Db}
use event_platform_backend.Tickets.Repository.{add_ticket, update_ticket}
use event_platform_backend.Waitlists.Repository.{update_entry}

abbrev pub kept : {B : Type 0} → (Db → B) → Session → Db × B
kept b s = (s.durable, b s.db)

pub record Keeps {B : Type 0} (b : Db → B) (f : Db → Db) : Type 0 where
  pub same : (d : Db) → b (f d) ≡ b d

-- `b` reads none of the tables that the waitlist service writes.
pub record Listed {B : Type 0} (b : Db → B) : Type 0 where
  pub notifications : (d : Db) (x : List Notification) → b (record d { notifications = x }) ≡ b d
  pub audit_logs : (d : Db) (x : List AuditLog) → b (record d { audit_logs = x }) ≡ b d
  pub waitlist_entries :
      (d : Db) (x : List WaitlistEntry) → b (record d { waitlist_entries = x }) ≡ b d

-- `b` reads none of the tables that the registration, ticket and waitlist services write.
pub record Operational {B : Type 0} (b : Db → B) : Type 0 where
  pub unlisted : Listed b
  pub registrations : (d : Db) (x : List Registration) → b (record d { registrations = x }) ≡ b d
  pub tickets : (d : Db) (x : List Ticket) → b (record d { tickets = x }) ≡ b d
  pub events : (d : Db) (x : List Event) → b (record d { events = x }) ≡ b d

-- Nothing of the tables at all.
pub Operational-nothing : Operational (λ _. tt)
Operational-nothing = record {
  unlisted = record {
    notifications = λ d x. refl;
    audit_logs = λ d x. refl;
    waitlist_entries = λ d x. refl;
  };
  registrations = λ d x. refl;
  tickets = λ d x. refl;
  events = λ d x. refl;
}

pub Operational-Listed : {B : Type 0} {b : Db → B} → Operational b → Listed b
Operational-Listed o = o.unlisted

module _ {B : Type 0} (b : Db → B) where
  pub Frame-write : (f : Db → Db) → Keeps b f → Frame (kept b) (modify f)
  unfolding modify
  Frame-write f h = record { at = λ s. λ i. (s.durable, h.same s.db i) }

  pub Frame-lasting : {A : Type 0} (m : Action A) → Frame (kept b) m → Frame lasting m
  Frame-lasting m h = record { at = λ s. ap (λ (x : Db × B). x.0) (h.at s) }

module _ {B : Type 0} (b : Db → B) (o : Listed b) where
  pub Ignores-kept : Ignores (kept b)
  Ignores-kept = record {
    notifications = λ s x. λ i. (s.durable, o.notifications s.db x i);
    audit_logs = λ s x. λ i. (s.durable, o.audit_logs s.db x i);
    readings = λ s n. refl;
    drawn = λ s n. refl;
    tokens = λ s n. refl;
    locks = λ s l. refl;
  }

  pub Keeps-update_entry : (i : ℕ) (f : WaitlistEntry → WaitlistEntry) → Keeps b (update_entry i f)
  unfolding update_entry
  Keeps-update_entry i f = record { same = λ d. o.waitlist_entries d _ }

  pub Kept-now : Frame (kept b) now
  Kept-now = Quiet-Frame (Quiet-now (kept b) Ignores-kept)

  pub Kept-uuid4 : Frame (kept b) uuid4
  Kept-uuid4 = Quiet-Frame (Quiet-uuid4 (kept b) Ignores-kept)

  pub Kept-token_hex : Frame (kept b) token_hex
  Kept-token_hex = Quiet-Frame (Quiet-token_hex (kept b) Ignores-kept)

  pub Kept-lock : (l : LockKey) → Frame (kept b) (acquire_advisory_lock l)
  Kept-lock l = Quiet-Frame (Quiet-lock (kept b) Ignores-kept l)

  pub Kept-capacity_lock : (i : ℕ) → Frame (kept b) (acquire_event_capacity_lock i)
  Kept-capacity_lock i = Quiet-Frame (Quiet-capacity_lock (kept b) Ignores-kept i)

  pub Kept-audit :
      (t : String) (id : ℕ) (action : String) (actor : Option ℕ)
      → Frame (kept b) (write_audit_log t id action actor)
  Kept-audit t id action actor = Quiet-Frame (Quiet-audit (kept b) Ignores-kept t id action actor)

module _ {B : Type 0} (b : Db → B) (o : Operational b) where
  pub Keeps-update_registration :
      (i : ℕ) (f : Registration → Registration) → Keeps b (update_registration i f)
  unfolding update_registration
  Keeps-update_registration i f = record { same = λ d. o.registrations d _ }

  pub Keeps-update_ticket : (i : ℕ) (f : Ticket → Ticket) → Keeps b (update_ticket i f)
  Keeps-update_ticket i f = record { same = λ d. o.tickets d _ }

  pub Keeps-add_ticket : (t : Ticket) → Keeps b (add_ticket t)
  Keeps-add_ticket t = record { same = λ d. o.tickets d _ }

  pub Keeps-update_event : (i : ℕ) (f : Event → Event) → Keeps b (update_event i f)
  unfolding update_event
  Keeps-update_event i f = record { same = λ d. o.events d _ }

pub ruleset kept_rules = (
  Operational-Listed, Frame-write, Keeps-update_entry, Keeps-update_registration,
  Keeps-update_ticket, Keeps-add_ticket, Keeps-update_event, Kept-now, Kept-uuid4, Kept-token_hex,
  Kept-lock, Kept-capacity_lock, Kept-audit,
)
