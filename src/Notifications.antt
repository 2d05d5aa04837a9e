-- ===== src/Notifications.antt =====
-- app/modules/notifications: the repository of the inbox rows, and the warning that an event fills up.
pub mod Warnings
use event_platform_backend.Prelude.{
  ℕ, Bool, true, false, ◌&&◌, List, [], ◌∷◌, ◌==◌, opt_eq, if◌then◌else◌,
}
use event_platform_backend.Models.Notifications.{
  NoticeKind, DedupeKey, waitlist, capacity_warning, Notification, joined, promoted,
  promotion_expired, left, position_changed, closed,
}
use event_platform_backend.Table.{add}
use event_platform_backend.Session.{Action, modify}

abbrev pub kind_code : NoticeKind → ℕ
kind_code joined = 0
kind_code promoted = 1
kind_code promotion_expired = 2
kind_code left = 3
kind_code position_changed = 4
kind_code closed = 5

-- Equality of two dedupe keys, which are texts with these parts.
abbrev pub same_key : DedupeKey → DedupeKey → Bool
same_key (waitlist i k a) (waitlist j l b) = i == j && kind_code k == kind_code l && opt_eq a b
same_key (capacity_warning i k) (capacity_warning j l) = i == j && k == l
same_key _ _ = false

-- get_by_dedupe_key(key) is not None
pub has_notification : DedupeKey → List Notification → Bool
has_notification key [] = false
has_notification key (n ∷ ns) = if same_key n.dedupe_key key then true else has_notification key ns

-- NotificationRepository.create, whose result the modelled callers do not use.
unfoldable pub create_notification : Notification → Action (Unit {0})
unfolding has_notification modify
create_notification n = modify λ d.
    if has_notification n.dedupe_key d.notifications
    then d
    else record d { notifications = add n d.notifications }
