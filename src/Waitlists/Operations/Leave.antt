-- ===== src/Waitlists/Operations/Leave.antt =====
-- WaitlistService.leave (app/modules/waitlists/service.py).
use event_platform_backend.Prelude.{
  ℕ, zero, suc, ◌+◌, ◌&&◌, not, Option, none, some, List, [], ◌∷◌, String, ◌==◌, ltb, if◌then◌else◌,
  length,
}
use event_platform_backend.Models.Waitlists.{WaitlistEntry, waiting, left, is_active_waitlist}
use event_platform_backend.Models.Notifications.{NoticeKind}
use event_platform_backend.Store.{team_key}
use event_platform_backend.Session.{
  Action, pure, raise, raise_if, query, now, commit, acquire_event_capacity_lock, write_audit_log,
  ◌>>=◌, ◌>>◌,
}
use event_platform_backend.Session.Errors.{
  waitlist_not_found, waitlist_permission, waitlist_validation,
}
use event_platform_backend.Waitlists.Repository.{get_entry, waiting_page, no_filter}
use event_platform_backend.Waitlists.Notices.{notify}
use event_platform_backend.Waitlists.Service.{can_manage, change_entry, WaitlistOut, out}

unfoldable pub notify_each : List WaitlistEntry → NoticeKind → Action (Unit {0})
notify_each [] kind = pure tt
notify_each (e ∷ es) kind = do notify e kind; notify_each es kind

-- The loop of leave: a page of at most 100 entries is told of its new positions in each round.
unfoldable pub position_rounds : ℕ → ℕ → String → ℕ → Action (Unit {0})
position_rounds zero event_id participation_type page = pure tt
position_rounds (suc fuel) event_id participation_type page = do
  found ← query (
      waiting_page
        (record no_filter {
          event_ids = some (event_id ∷ []);
          status = some waiting;
          participation_type = some participation_type;
        })
        page 100)
  let remaining = found.0
  notify_each remaining NoticeKind.position_changed
  if ltb (length remaining) 100
      then pure tt
      else position_rounds fuel event_id participation_type (page + 1)

abbrev pub leave_entry : ℕ → WaitlistEntry → WaitlistEntry
leave_entry t e = record e { status = left; left_at = some t }

-- leave, from the row that it found.
unfoldable pub leave_found : ℕ → ℕ → Option WaitlistEntry → Action WaitlistOut
unfolding position_rounds change_entry
leave_found actor_id entry_id none = raise (waitlist_not_found "Waitlist entry not found.")
leave_found actor_id entry_id (some entry) = do
  manages ← query (can_manage actor_id entry.event_id)
  raise_if (not (entry.user_id == actor_id) && not manages)
      (waitlist_permission "You cannot modify this waitlist entry.")
  raise_if (not (is_active_waitlist entry.status))
      (waitlist_validation "This waitlist entry is no longer active.")
  acquire_event_capacity_lock entry.event_id
  t ← now
  change_entry entry_id (leave_entry t) entry
  rounds ← query (λ d. suc (length d.waitlist_entries))
  position_rounds rounds entry.event_id entry.participation_type 1
  write_audit_log "waitlist" entry_id "left" (some actor_id)
  notify (leave_entry t entry) NoticeKind.left
  commit
  out (leave_entry t entry)

unfoldable pub leave : ℕ → ℕ → Action WaitlistOut
unfolding leave_found
leave actor_id entry_id = do found ← query (get_entry entry_id); leave_found actor_id entry_id found
