-- ===== src/Waitlists/Quiet.antt =====
-- Which parts of the waitlist service leave the tables alone.
use event_platform_backend.Prelude.{
  ℕ, zero, suc, ◌+◌, ◌≡◌, refl, Bool, true, false, List, [], ◌∷◌, String, Option, none, some,
  if◌then◌else◌, ltb, length,
}
use event_platform_backend.Models.Events.{Event, EventConfiguration}
use event_platform_backend.Models.Waitlists.{WaitlistEntry}
use event_platform_backend.Models.Notifications.{NoticeKind, Notification, position_changed}
use event_platform_backend.Session.{Session}
use event_platform_backend.Guardians.{ensure_child}
use event_platform_backend.Session.Frames.{
  Frame, Quiet, Quiet-pure, Quiet-if, Quiet-bind, quiet_rules, frame_rules,
}
use event_platform_backend.Store.{Db}
use event_platform_backend.Waitlists.Repository.{add_entry, update_entry, count_waiting_before}
use event_platform_backend.Session.Triples.{Triple, Triple-pure, after_query}
use event_platform_backend.Session.Views.{Ignores, Quiet-now, Rows, rows, facts}
use event_platform_backend.Notifications.{has_notification, create_notification}
use event_platform_backend.Waitlists.Notices.{key_instant, notify, position}
use event_platform_backend.Waitlists.Service.{event_config, both_found, out}
use event_platform_backend.Waitlists.Service.{availability_of}
use event_platform_backend.Waitlists.Operations.Join.{check_team, captains}
use event_platform_backend.Waitlists.Operations.Leave.{notify_each, position_rounds}

module _ {V : Type 0} (v : Session → V) (i : Ignores v) where
  noticed :
      (b : Bool) (s : Session) (ns : List Notification)
      → v (record s { db = if b then s.db else record s.db { notifications = ns } }) ≡ v s
  noticed true s ns = refl
  noticed false s ns = i.notifications s ns

  Quiet-create_notification : (n : Notification) → Quiet v (create_notification n)
  unfolding create_notification
  Quiet-create_notification n = record {
    leaves = λ s. noticed (has_notification n.dedupe_key s.db.notifications) s _;
    returns = λ s. (tt, refl);
  }

  Quiet-key_instant : (k : NoticeKind) → Quiet v (key_instant k)
  unfolding key_instant
  Quiet-key_instant position_changed = search (quiet_rules, Quiet-now v i)
  Quiet-key_instant _ = search quiet_rules

  pub Quiet-notify : (e : WaitlistEntry) (k : NoticeKind) → Quiet v (notify e k)
  unfolding notify
  Quiet-notify e k = search (quiet_rules, Quiet-key_instant, Quiet-create_notification)

  pub Quiet-notify_each : (es : List WaitlistEntry) (k : NoticeKind) → Quiet v (notify_each es k)
  unfolding notify_each
  Quiet-notify_each [] k = search quiet_rules
  Quiet-notify_each (e ∷ es) k = search (quiet_rules, Quiet-notify e k, Quiet-notify_each es k)

  pub Quiet-out : (e : WaitlistEntry) → Quiet v (out e)
  unfolding out
  Quiet-out e = search quiet_rules

  pub Quiet-availability_of :
      (id : ℕ) (event : Event) (config : EventConfiguration) (t : ℕ)
      → Quiet v (availability_of id event config t)
  unfolding availability_of
  Quiet-availability_of id event config t = search quiet_rules

  pub Quiet-position_rounds :
      (fuel id : ℕ) (t : String) (page : ℕ) → Quiet v (position_rounds fuel id t page)
  unfolding position_rounds
  Quiet-position_rounds zero id t page = search quiet_rules
  Quiet-position_rounds (suc fuel) id t page = Quiet-bind v _ _ (search quiet_rules) λ found.
      Quiet-bind v _ _ (search (Quiet-notify_each)) λ _.
        Quiet-if v (ltb (length found.0) 100) _ _ (Quiet-pure v tt)
          (Quiet-position_rounds fuel id t (page + 1))

  Frame-both_found :
      (event : Option Event) (config : Option EventConfiguration)
      → Frame v (both_found event config)
  unfolding both_found
  Frame-both_found none config = search frame_rules
  Frame-both_found (some event) none = search frame_rules
  Frame-both_found (some event) (some config) = search frame_rules

  pub Frame-event_config : (id : ℕ) → Frame v (event_config id)
  unfolding event_config
  Frame-event_config id = search (frame_rules, Frame-both_found)

  Frame-captains : (actor id : ℕ) (team : Option ℕ) → Frame v (captains actor id team)
  unfolding captains
  Frame-captains actor id none = search frame_rules
  Frame-captains actor id (some team) = search frame_rules

  pub Frame-check_team :
      (actor id : ℕ) (t : String) (team : Option ℕ) → Frame v (check_team actor id t team)
  unfolding check_team
  Frame-check_team actor id t team = search (frame_rules, Frame-captains)

  pub Frame-ensure_child : (actor : ℕ) (child : Option ℕ) → Frame v (ensure_child actor child)
  unfolding ensure_child
  Frame-ensure_child actor none = search frame_rules
  Frame-ensure_child actor (some c) = search frame_rules depth 9

pub facts-update_entry :
    (id : ℕ) (f : WaitlistEntry → WaitlistEntry) (d : Db)
    → facts (update_entry id f d) ≡ update_entry id f (facts d)
unfolding update_entry
facts-update_entry id f d = refl

-- WaitlistOut of an entry, at the end of an operation.
pub out-Triple :
    (e : WaitlistEntry) (T : Rows) (E : Session → Type 0)
    → Triple
        (λ s. rows s ≡ T)
        (out e)
        (λ o s. (o ≡ record { entry = e; place = position e T.0 }) × (rows s ≡ T))
        E
unfolding out position count_waiting_before
out-Triple e T E =
    after_query rows T _ (λ d. position e d.0) _ (λ s. refl) (Triple-pure _ (λ s h. (refl, h)))

pub facts-add_entry : (e : WaitlistEntry) (d : Db) → facts (add_entry e d) ≡ add_entry e (facts d)
unfolding add_entry
facts-add_entry e d = refl
