-- ===== src/Waitlists/Notices.antt =====
-- WaitlistService._notify (app/modules/waitlists/service.py).
use event_platform_backend.Prelude.{
  ℕ, ◌+◌, Bool, true, false, Option, none, some, String, if◌then◌else◌,
}
use event_platform_backend.Models.Notifications.{
  NoticeKind, DedupeKey, joined, promoted, promotion_expired, left, position_changed, closed,
}
use event_platform_backend.Models.Waitlists.{WaitlistEntry, is_waiting}
use event_platform_backend.Store.{Db}
use event_platform_backend.Notifications.{create_notification}
use event_platform_backend.Session.{Action, pure, query, now, ◌>>=◌}
use event_platform_backend.Waitlists.Repository.{count_waiting_before}

pub title : NoticeKind → String
title joined = "You joined the waitlist"
title promoted = "A place is available"
title promotion_expired = "Your waitlist offer expired"
title left = "You left the waitlist"
title position_changed = "Your waitlist position changed"
title closed = "The event waitlist is closed"

pub body : NoticeKind → String
body joined = "You are now in the event waitlist. We will notify you if a place becomes available."
body promoted = "A place is available. Complete registration before your promotion offer expires."
body promotion_expired =
    "Your waitlist promotion expired. You may join the waitlist again if it is still open."
body left = "You have been removed from the event waitlist."
body position_changed = "Your position changed because another waitlist entry was removed."
body closed = "Registration for this event has closed, so this waitlist is no longer active."

-- WaitlistService._position
unfoldable pub position : WaitlistEntry → Db → Option ℕ
position entry d = if is_waiting entry.status then some (count_waiting_before entry d + 1) else none

abbrev is_position_changed : NoticeKind → Bool
is_position_changed position_changed = true
is_position_changed _ = false

-- The instant in the key of a "position_changed" notice.
unfoldable pub key_instant : NoticeKind → Action (Option ℕ)
unfolding now
key_instant position_changed = do t ← now; pure (some t)
key_instant kind = pure none

unfoldable pub notify : WaitlistEntry → NoticeKind → Action (Unit {0})
unfolding key_instant create_notification title body
notify entry kind = do
  at ← key_instant kind
  place ← query (λ d. if is_position_changed kind then position entry d else none)
  create_notification (record {
    event_id = entry.event_id;
    recipient_user_id = entry.user_id;
    title = title kind;
    body = body kind;
    position = place;
    dedupe_key = DedupeKey.waitlist entry.id kind at;
  })
