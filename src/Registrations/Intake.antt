-- ===== src/Registrations/Intake.antt =====
-- The request of create_registration (app/modules/registrations/schemas.py) and its reference to a team.
use event_platform_backend.Prelude.{
  ℕ, Bool, false, not, ◌&&◌, Option, none, some, List, [], ◌∷◌, String, ◌==◌, str_eq, length,
  if◌then◌else◌, ℤ, pos,
}
use event_platform_backend.Models.People.{Team}
use event_platform_backend.Store.{team_key, registration_key}
use event_platform_backend.Table.{get}
use event_platform_backend.ConfigEngine.Rules.{Date}
use event_platform_backend.ConfigEngine.Service.{Submission}
use event_platform_backend.Registrations.Window.{is_some}
use event_platform_backend.Session.{Action, raise, raise_if, query, ◌>>=◌}
use event_platform_backend.Session.Errors.{invalid_registration_state}

-- An element of `participants`.
pub record ParticipantIn : Type 0 where
  pub user_id : Option ℕ
  pub full_name : String
  pub date_of_birth : Option Date
  pub is_captain : Bool

-- The arguments of create_registration besides the event and the actor.
pub record RegistrationIn : Type 0 where
  pub sent : Submission
  pub child_id : Option ℕ
  pub team_id : Option ℕ
  pub participants : List ParticipantIn
  pub team_member_count : Option ℤ

abbrev pub is_team : RegistrationIn → Bool
is_team r = str_eq r.sent.participation_type "team"

abbrev pub is_captains_team : ℕ → ℕ → Option Team → Bool
is_captains_team actor_id event_id none = false
is_captains_team actor_id event_id (some team) =
    team.event_id == event_id && team.captain_user_id == actor_id

unfoldable pub check_captain : ℕ → ℕ → Option ℕ → Action (Unit {0})
check_captain actor_id event_id none =
    raise (invalid_registration_state "A team registration must reference a team.")
check_captain actor_id event_id (some team_id) = do
  team ← query (λ d. get team_id d.teams)
  raise_if (not (is_captains_team actor_id event_id team))
      (invalid_registration_state "You cannot register this team for the event.")

unfoldable pub check_team_reference : ℕ → ℕ → RegistrationIn → Action (Unit {0})
unfolding check_captain
check_team_reference actor_id event_id r =
    if is_team r
    then check_captain actor_id event_id r.team_id
    else raise_if (is_some r.team_id)
        (invalid_registration_state "Only team registrations may reference a team.")

-- len(participants) or 1
abbrev pub participant_count : List ParticipantIn → ℤ
participant_count [] = pos 1
participant_count (p ∷ ps) = pos (length (p ∷ ps))

-- The size that the rule engine is told: that of a team, or none.
abbrev pub team_size_of : RegistrationIn → Option ℤ
team_size_of r =
    if is_team r
    then elim r.team_member_count [
      | none ↦ some (participant_count r.participants)
      | some n ↦ some n
    ]
    else none
