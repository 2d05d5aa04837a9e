-- ===== src/Waitlists/Operations/Retry.antt =====
-- WaitlistService.retry (app/modules/waitlists/service.py).
use event_platform_backend.Prelude.{ℕ, Bool, true, false, not, Option, none, some}
use event_platform_backend.Models.Waitlists.{WaitlistEntry, waiting, is_expired}
use event_platform_backend.Models.Notifications.{NoticeKind}
use event_platform_backend.Store.{team_key}
use event_platform_backend.ConfigEngine.{RegistrationAvailability, limited, full}
use event_platform_backend.Session.{
  Action, raise, raise_if, query, now, commit, acquire_event_capacity_lock, write_audit_log, ◌>>=◌,
  ◌>>◌,
}
use event_platform_backend.Session.Errors.{
  waitlist_not_found, waitlist_permission, waitlist_validation,
}
use event_platform_backend.Waitlists.Repository.{get_entry}
use event_platform_backend.Waitlists.Notices.{notify}
use event_platform_backend.Waitlists.Service.{
  availability_of, change_entry, can_manage, event_config, WaitlistOut, out,
}

abbrev pub needs_offer : RegistrationAvailability → Bool
needs_offer full = true
needs_offer limited = true
needs_offer _ = false

abbrev pub rejoin : ℕ → WaitlistEntry → WaitlistEntry
rejoin t e = record e {
  status = waiting;
  joined_at = t;
  expired_at = none;
  promoted_at = none;
  promotion_expires_at = none;
}

-- retry, from the row that it found.
unfoldable pub retry_found : ℕ → ℕ → Option WaitlistEntry → Action WaitlistOut
unfolding availability_of change_entry
retry_found actor_id entry_id none = raise (waitlist_not_found "Waitlist entry not found.")
retry_found actor_id entry_id (some entry) = do
  manages ← query (can_manage actor_id entry.event_id)
  raise_if (not manages) (waitlist_permission "You cannot retry this waitlist entry.")
  raise_if (not (is_expired entry.status))
      (waitlist_validation "Only expired waitlist offers can be retried.")
  acquire_event_capacity_lock entry.event_id
  both ← event_config entry.event_id
  t ← now
  availability ← availability_of entry.event_id both.0 both.1 t
  raise_if (not (needs_offer availability))
      (waitlist_validation "This event no longer needs a waitlist offer.")
  joined ← now
  change_entry entry_id (rejoin joined) entry
  write_audit_log "waitlist" entry_id "retry" (some actor_id)
  notify (rejoin joined entry) NoticeKind.joined
  commit
  out (rejoin joined entry)

unfoldable pub retry : ℕ → ℕ → Action WaitlistOut
unfolding retry_found
retry actor_id entry_id = do found ← query (get_entry entry_id); retry_found actor_id entry_id found
