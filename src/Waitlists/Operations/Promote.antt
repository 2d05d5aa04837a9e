-- ===== src/Waitlists/Operations/Promote.antt =====
-- WaitlistService.promote_next and expire_and_promote (app/modules/waitlists/service.py).
use event_platform_backend.Prelude.{
  ℕ, ◌+◌, ◌||◌, Option, none, some, List, [], ◌∷◌, ◌++◌, String, ltb, if◌then◌else◌, length, head?,
  ℤ,
}
use event_platform_backend.Models.Events.{Event, EventConfiguration}
use event_platform_backend.Models.Waitlists.{WaitlistEntry, waiting}
use event_platform_backend.Models.Notifications.{NoticeKind}
use event_platform_backend.Store.{Db, team_key}
use event_platform_backend.ConfigEngine.{RegistrationAvailability, full, closed}
use event_platform_backend.Session.{
  Action, pure, query, now, commit, acquire_event_capacity_lock, write_audit_log, ◌>>=◌, ◌>>◌,
}
use event_platform_backend.Waitlists.Repository.{
  waiting_page, next_waiting, event_ids_with_waiting, no_filter,
}
use event_platform_backend.Waitlists.Notices.{notify}
use event_platform_backend.Waitlists.Service.{
  availability_of, event_config, change_entry, expire_locked, close_waiting, promote,
  promotion_timeout,
}

-- The first of the queue, of one participation type or across all of them.
unfoldable pub next_entry : ℕ → Option String → Db → Option WaitlistEntry
next_entry event_id none d =
    head?
      (waiting_page (record no_filter { event_ids = some (event_id ∷ []); status = some waiting }) 1
        1 d).0
next_entry event_id (some participation_type) d = next_waiting event_id participation_type d

-- The tail of promote_next, from the entry that it found.
unfoldable pub offer : EventConfiguration → ℕ → Option WaitlistEntry → Action (Option WaitlistEntry)
unfolding change_entry
offer config t none = pure none
offer config t (some entry) = do
  minutes ← promotion_timeout config.details
  change_entry entry.id (promote t minutes) entry
  write_audit_log "waitlist" entry.id "promoted" none
  notify (promote t minutes entry) NoticeKind.promoted
  pure (some (promote t minutes entry))

-- promote_next, by the availability that it computed.
unfoldable pub promote_when :
    RegistrationAvailability
    → ℕ
    → EventConfiguration
    → ℕ
    → Option String
    → Action (Option WaitlistEntry)
unfolding next_entry offer
promote_when closed event_id config t participation_type = close_waiting event_id >> pure none
promote_when full event_id config t participation_type = pure none
promote_when _ event_id config t participation_type = do
  entry ← query (next_entry event_id participation_type)
  offer config t entry

-- promote_next, once the offers that ran out are expired and the configuration is read.
unfoldable pub promote_within :
    ℕ → Event → EventConfiguration → ℕ → Option String → Option ℤ → Action (Option WaitlistEntry)
unfolding availability_of promote_when
promote_within event_id event config t participation_type none = pure none
promote_within event_id event config t participation_type (some capacity) = do
  availability ← availability_of event_id event config t
  promote_when availability event_id config t participation_type

unfoldable pub promote_next : ℕ → Option String → Action (Option WaitlistEntry)
unfolding promote_within
promote_next event_id participation_type = do
  acquire_event_capacity_lock event_id
  t ← now
  expire_locked t
  found ← event_config event_id
  promote_within event_id found.0 found.1 t participation_type found.1.capacity

abbrev count_some : Option WaitlistEntry → ℕ → ℕ
count_some none n = n
count_some (some e) n = n + 1

unfoldable pub promote_each : List ℕ → ℕ → Action ℕ
promote_each [] n = pure n
promote_each (event_id ∷ rest) n = do
  entry ← promote_next event_id none
  promote_each rest (count_some entry n)

pub event_ids : List WaitlistEntry → List ℕ
event_ids [] = []
event_ids (e ∷ es) = e.event_id ∷ event_ids es

-- `enumerate` is the order in which Python walks the set that these ids make up.
unfoldable pub expire_and_promote : (List ℕ → List ℕ) → Action ℕ
unfolding promote_each event_ids
expire_and_promote enumerate = do
  t ← now
  expired ← expire_locked t
  waiting_ids ← query event_ids_with_waiting
  promoted ← promote_each (enumerate (waiting_ids ++ event_ids expired)) 0
  if (ltb 0 (length expired) || ltb 0 promoted) then commit else pure tt
  pure promoted
