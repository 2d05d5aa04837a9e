-- ===== src/Waitlists/Service.antt =====
-- WaitlistService (app/modules/waitlists/service.py): what its operations share.
use event_platform_backend.Prelude.{
  ℕ, zero, suc, ◌+◌, ◌*◌, Bool, ◌||◌, Option, none, some, List, [], ◌∷◌, ltb, if◌then◌else◌, length,
  min, max, pos, negsuc,
}
use event_platform_backend.Models.Events.{
  Event, EventConfiguration, Details, RawInt, absent, number, not_a_number,
}
use event_platform_backend.Models.Waitlists.{WaitlistEntry, waiting, promoted, expired, closed}
use event_platform_backend.Models.Notifications.{NoticeKind}
use event_platform_backend.Store.{Db}
use event_platform_backend.Permissions.{
  user_has_global_role, user_has_scoped_role, platform_admins, managers,
}
use event_platform_backend.Events.{get_event, get_configuration}
use event_platform_backend.Registrations.Repository.{count_active_for_event}
use event_platform_backend.ConfigEngine.{
  RegistrationAvailability, parse_registration_end_at, calculate_registration_availability,
}
use event_platform_backend.Session.{
  Action, pure, raise, raise_if, query, modify, write_audit_log, ◌>>=◌, ◌>>◌,
}
use event_platform_backend.Session.Errors.{waitlist_validation, value_error, integrity_error}
use event_platform_backend.Waitlists.Repository.{
  update_entry, add_entry, is_taken, expired_promotions, waiting_page, PageFilter, no_filter,
}
use event_platform_backend.Waitlists.Notices.{notify, position}

-- _global
unfoldable pub is_global : ℕ → Db → Bool
is_global actor_id d = user_has_global_role actor_id platform_admins d

-- _can_manage
unfoldable pub can_manage : ℕ → ℕ → Db → Bool
unfolding is_global
can_manage actor_id event_id d =
    is_global actor_id d || user_has_scoped_role actor_id managers event_id platform_admins d

unfoldable pub both_found :
    Option Event → Option EventConfiguration → Action (Event × EventConfiguration)
both_found (some event) (some config) = pure (event, config)
both_found _ _ = raise (waitlist_validation "Event configuration was not found.")

-- _event_config
unfoldable pub event_config : ℕ → Action (Event × EventConfiguration)
unfolding both_found
event_config event_id = do
  event ← query (get_event event_id)
  config ← query (get_configuration event_id)
  both_found event config

-- The flush of an entry that `f` changed, under the unique constraint of its table.
unfoldable pub change_entry :
    ℕ → (WaitlistEntry → WaitlistEntry) → WaitlistEntry → Action (Unit {0})
change_entry entry_id f entry = do
  taken ← query (is_taken (f entry))
  raise_if taken integrity_error
  modify (update_entry entry_id f)

-- WaitlistRepository.create, with its flush.
unfoldable pub insert_entry : WaitlistEntry → Action (Unit {0})
insert_entry entry = do
  taken ← query (is_taken entry)
  raise_if taken integrity_error
  modify (add_entry entry)

abbrev pub expire : ℕ → WaitlistEntry → WaitlistEntry
expire now e = record e { status = expired; expired_at = some now }

unfoldable pub expire_each : ℕ → List WaitlistEntry → Action (Unit {0})
unfolding change_entry
expire_each now [] = pure tt
expire_each now (e ∷ es) = do
  change_entry e.id (expire now) e
  write_audit_log "waitlist" e.id "expired" none
  notify (expire now e) NoticeKind.promotion_expired
  expire_each now es

-- _expire_locked
unfoldable pub expire_locked : ℕ → Action (List WaitlistEntry)
unfolding expire_each
expire_locked now = do due ← query (expired_promotions now); expire_each now due; pure due

abbrev pub close : WaitlistEntry → WaitlistEntry
close e = record e { status = closed }

unfoldable pub close_each : List WaitlistEntry → Action (Unit {0})
unfolding change_entry
close_each [] = pure tt
close_each (e ∷ es) = do
  change_entry e.id close e
  write_audit_log "waitlist" e.id "closed" none
  notify (close e) NoticeKind.closed
  close_each es

abbrev pub waiting_of : ℕ → PageFilter
waiting_of event_id = record no_filter { event_ids = some (event_id ∷ []); status = some waiting }

-- A round of _close_waiting, on the page that it read.
unfoldable pub close_page : (ℕ → Action ℕ) → ℕ → List WaitlistEntry → Action ℕ
unfolding close_each
close_page next done [] = pure done
close_page next done (e ∷ es) =
    close_each (e ∷ es)
    >> (if ltb (length (e ∷ es)) 100
        then pure (done + length (e ∷ es))
        else next (done + length (e ∷ es)))

-- The loop of _close_waiting: a page of at most 100 is closed in each round.
unfoldable pub close_rounds : ℕ → ℕ → ℕ → Action ℕ
unfolding close_page
close_rounds zero event_id done = pure done
close_rounds (suc fuel) event_id done = do
  page ← query (waiting_page (waiting_of event_id) 1 100)
  close_page (close_rounds fuel event_id) done page.0

-- _close_waiting: the entries bound the rounds.
unfoldable pub close_waiting : ℕ → Action ℕ
unfolding close_rounds
close_waiting event_id = do
  rounds ← query (λ d. suc (length d.waitlist_entries))
  close_rounds rounds event_id 0

-- WaitlistOut: the row with its position.
pub record WaitlistOut : Type 0 where
  pub entry : WaitlistEntry
  pub place : Option ℕ

-- _out
unfoldable pub out : WaitlistEntry → Action WaitlistOut
out entry = do place ← query (position entry); pure (record { entry = entry; place = place })

-- PROMOTION_MINUTES
abbrev pub promotion_minutes : ℕ
promotion_minutes = 1440

-- max(1, min(timeout, 7 * 24 * 60))
abbrev pub clamp_minutes : ℕ → ℕ
clamp_minutes timeout = max 1 (min timeout 10080)

unfoldable pub timeout_of : RawInt → Action ℕ
timeout_of absent = pure (clamp_minutes promotion_minutes)
timeout_of (number (pos n)) = pure (clamp_minutes n)
timeout_of (number (negsuc n)) = pure 1
timeout_of not_a_number = raise value_error

-- The length of an offer, in minutes.
unfoldable pub promotion_timeout : Option Details → Action ℕ
unfolding timeout_of
promotion_timeout none = timeout_of absent
promotion_timeout (some details) = timeout_of details.waitlist_promotion_timeout_minutes

abbrev pub microseconds : ℕ → ℕ
microseconds minutes = minutes * 60000000

abbrev pub promote : ℕ → ℕ → WaitlistEntry → WaitlistEntry
promote now minutes e = record e {
  status = promoted;
  promoted_at = some now;
  promotion_expires_at = some (now + microseconds minutes);
}

-- `availability` of join, promote_next and retry.
unfoldable pub availability_of :
    ℕ → Event → EventConfiguration → ℕ → Action RegistrationAvailability
availability_of event_id event config t = do
  active ← query (count_active_for_event event_id)
  pure (
      calculate_registration_availability event.status config.capacity active
        (parse_registration_end_at config.details) t)
