-- ===== src/Waitlists/Operations/Join.antt =====
-- WaitlistService.join (app/modules/waitlists/service.py).
use event_platform_backend.Prelude.{
  ℕ, Bool, true, false, ◌&&◌, ◌||◌, not, Option, none, some, List, [], ◌∷◌, String, ◌==◌, str_eq,
  opt_eq, if◌then◌else◌,
}
use event_platform_backend.Models.People.{Team}
use event_platform_backend.Models.Waitlists.{WaitlistEntry, waiting}
use event_platform_backend.Models.Notifications.{NoticeKind}
use event_platform_backend.Store.{team_key}
use event_platform_backend.Table.{get}
use event_platform_backend.ConfigEngine.{RegistrationAvailability, full}
use event_platform_backend.Guardians.{ensure_child}
use event_platform_backend.Session.{
  Action, raise, raise_if, lift, query, now, uuid4, commit, scalar_one_or_none,
  acquire_event_capacity_lock, write_audit_log, ◌>>=◌, ◌>>◌,
}
use event_platform_backend.Session.Errors.{waitlist_conflict, waitlist_validation}
use event_platform_backend.Waitlists.Repository.{find_active}
use event_platform_backend.Waitlists.Notices.{notify}
use event_platform_backend.Waitlists.Service.{
  availability_of, event_config, insert_entry, WaitlistOut, out,
}

-- A configured participation type.
abbrev pub enabled : List String → String → Bool
enabled [] t = false
enabled (x ∷ xs) t = str_eq x t || enabled xs t

leads_team : Option Team → ℕ → ℕ → Bool
leads_team none event_id actor_id = false
leads_team (some team) event_id actor_id =
    team.event_id == event_id && team.captain_user_id == actor_id

unfoldable pub captains : ℕ → ℕ → Option ℕ → Action (Unit {0})
unfolding leads_team
captains actor_id event_id none =
    raise (waitlist_validation "A team waitlist entry must reference a team.")
captains actor_id event_id (some team_id) = do
  team ← query (λ d. get team_id d.teams)
  raise_if (not (leads_team team event_id actor_id))
      (waitlist_validation "You cannot join this team's event waitlist.")

-- The checks of a team reference in join.
unfoldable pub check_team : ℕ → ℕ → String → Option ℕ → Action (Unit {0})
unfolding captains
check_team actor_id event_id participation_type team_id =
    if str_eq participation_type "team"
    then captains actor_id event_id team_id
    else raise_if (not (opt_eq team_id none))
        (waitlist_validation "Only team entries may reference a team.")

abbrev pub is_full : RegistrationAvailability → Bool
is_full full = true
is_full _ = false

abbrev pub new_entry : ℕ → ℕ → ℕ → String → Option ℕ → Option ℕ → ℕ → WaitlistEntry
new_entry id actor_id event_id participation_type child_id team_id t = record {
  id = id;
  event_id = event_id;
  user_id = actor_id;
  child_id = child_id;
  team_id = team_id;
  participation_type = participation_type;
  status = waiting;
  joined_at = t;
  promoted_at = none;
  promotion_expires_at = none;
  left_at = none;
  expired_at = none;
}

-- The end of join, with the primary key of the new row.
unfoldable pub join_as : ℕ → ℕ → String → Option ℕ → Option ℕ → ℕ → ℕ → Action WaitlistOut
unfolding insert_entry
join_as actor_id event_id participation_type child_id team_id t id = do
  let entry : WaitlistEntry = new_entry id actor_id event_id participation_type child_id team_id t
  insert_entry entry
  write_audit_log "waitlist" id "joined" (some actor_id)
  notify entry NoticeKind.joined
  commit
  out entry

-- The end of join, from the active entry that find_active gave.
unfoldable pub join_unless :
    ℕ → ℕ → String → Option ℕ → Option ℕ → ℕ → Option WaitlistEntry → Action WaitlistOut
unfolding join_as
join_unless actor_id event_id participation_type child_id team_id t (some existing) =
    raise (waitlist_conflict "You are already on this waitlist.")
join_unless actor_id event_id participation_type child_id team_id t none = do
  id ← uuid4
  join_as actor_id event_id participation_type child_id team_id t id

unfoldable pub join : ℕ → ℕ → String → Option ℕ → Option ℕ → Action WaitlistOut
unfolding check_team availability_of join_unless
join actor_id event_id participation_type child_id team_id = do
  found ← event_config event_id
  raise_if (not (enabled found.1.participation_types participation_type))
      (waitlist_validation "This participation type is not enabled for the event.")
  ensure_child actor_id child_id
  check_team actor_id event_id participation_type team_id
  t ← now
  acquire_event_capacity_lock event_id
  availability ← availability_of event_id found.0 found.1 t
  raise_if (not (is_full availability)) (
      waitlist_validation
        "The event is accepting registrations; join the waitlist after it reaches capacity.")
  rows ← query (
      find_active (record {
        event_id = event_id;
        user_id = actor_id;
        child_id = child_id;
        team_id = team_id;
        participation_type = participation_type;
      }))
  existing ← lift (scalar_one_or_none rows)
  join_unless actor_id event_id participation_type child_id team_id t existing
