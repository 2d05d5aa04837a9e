-- ===== src/Notifications/Warnings.antt =====
-- NotificationService.queue_capacity_warning (app/modules/notifications/service.py).
use event_platform_backend.Prelude.{
  ℕ, Bool, true, not, ◌&&◌, none, List, [], ◌∷◌, String, ◌==◌, str_eq, select, some, if◌then◌else◌,
}
use event_platform_backend.Models.Notifications.{capacity_warning, NotificationPreference}
use event_platform_backend.Models.Registrations.{Registration, is_active_registration}
use event_platform_backend.Store.{Db, preference_key}
use event_platform_backend.Table.{add, get}
use event_platform_backend.Notifications.{has_notification, create_notification}
use event_platform_backend.Session.{Action, pure, query, ◌>>=◌, ◌>>◌}

-- The column of a preference that a type of notification reads.
abbrev pub preference_for : String → NotificationPreference → Bool
preference_for notification_type p =
    if str_eq notification_type "event_reminder"
    then p.event_reminders
    else if str_eq notification_type "registration_confirmation"
    then p.registration_updates
    else if str_eq notification_type "payment_update"
    then p.registration_updates
    else if str_eq notification_type "cancellation_refund"
    then p.cancellation_refund_updates
    else if str_eq notification_type "event_change"
    then p.event_changes
    else if str_eq notification_type "feedback_reminder"
    then p.event_reminders
    else if str_eq notification_type "marketing"
    then p.marketing_notifications
    else p.operational_notifications

-- _preference_enabled
pub preference_enabled : ℕ → String → Db → Bool
preference_enabled user_id notification_type d = elim (get user_id d.preferences) [
  | none ↦ true
  | some p ↦ preference_for notification_type p
]

-- list(dict.fromkeys(ids)): each id once, in the order of the first occurrences.
pub first_occurrences : List ℕ → List ℕ
first_occurrences [] = []
first_occurrences (x ∷ xs) = x ∷ select (λ y. not (y == x)) (first_occurrences xs)

-- The users of the active registrations, those of the newest first.
users_newest_first : List Registration → List ℕ
users_newest_first [] = []
users_newest_first (r ∷ rs) = add r.user_id (users_newest_first rs)

unfoldable pub warning_recipients : ℕ → Db → List ℕ
unfolding first_occurrences users_newest_first
warning_recipients event_id d = first_occurrences (
    users_newest_first
      (select (λ r. r.event_id == event_id && is_active_registration r.status) d.registrations))

abbrev wants_warning : ℕ → ℕ → Db → Bool
wants_warning event_id user_id d =
    not (has_notification (capacity_warning event_id user_id) d.notifications)
    && preference_enabled user_id "operational" d

unfoldable pub warn_each : ℕ → List ℕ → Action (Unit {0})
unfolding create_notification preference_enabled
warn_each event_id [] = pure tt
warn_each event_id (user_id ∷ rest) = do
  wanted ← query (wants_warning event_id user_id)
  if wanted
      then create_notification (record {
        event_id = event_id;
        recipient_user_id = user_id;
        title = "Limited seats available";
        body = "Limited seats available — Register now!";
        position = none;
        dedupe_key = capacity_warning event_id user_id;
      })
      else pure tt
  warn_each event_id rest

unfoldable pub queue_capacity_warning : ℕ → Action (Unit {0})
unfolding warning_recipients warn_each
queue_capacity_warning event_id = do
  recipients ← query (warning_recipients event_id)
  warn_each event_id recipients
