-- ===== src/Registrations/Decision.antt =====
-- RegistrationService (app/modules/registrations/service.py): who may see a registration, and its
-- approval or rejection.
use event_platform_backend.Prelude.{
  ℕ, Bool, true, false, not, Option, none, some, String, ◌==◌, if◌then◌else◌,
}
use event_platform_backend.Models.Events.{EventConfiguration}
use event_platform_backend.Models.Registrations.{
  Registration, RegistrationStatus, started, submitted, pending_verification, pending_payment,
  approved, rejected,
}
use event_platform_backend.Models.Tickets.{BarcodePayload}
use event_platform_backend.Store.{Db}
use event_platform_backend.Permissions.{user_has_scoped_role, platform_admins, managers}
use event_platform_backend.Events.{get_configuration}
use event_platform_backend.Registrations.Repository.{get_registration, update_registration}
use event_platform_backend.Registrations.Window.{get_registration_or_raise}
use event_platform_backend.Tickets.Issue.{issue_ticket_for_registration}
use event_platform_backend.Session.{
  Action, pure, raise_if, query, modify, commit, write_audit_log, ◌>>=◌, ◌>>◌,
}
use event_platform_backend.Session.Errors.{registration_scope, already_in}

-- The role that opens a registration to others than its owner.
unfoldable pub manages_event : ℕ → ℕ → Db → Bool
manages_event actor_id event_id d =
    user_has_scoped_role actor_id managers event_id platform_admins d

pub can_manage_registration : ℕ → Registration → Db → Bool
unfolding manages_event
can_manage_registration actor_id g d =
    if g.user_id == actor_id then true else manages_event actor_id g.event_id d

unfoldable pub get_registration_visible_to_actor : ℕ → ℕ → Action Registration
unfolding get_registration_or_raise can_manage_registration
get_registration_visible_to_actor actor_id registration_id = do
  g ← get_registration_or_raise registration_id
  allowed ← query (can_manage_registration actor_id g)
  raise_if (not allowed) (registration_scope "You cannot access this registration.")
  pure g

-- The statuses that decide_registration takes.
abbrev pub is_undecided : RegistrationStatus → Bool
is_undecided pending_verification = true
is_undecided pending_payment = true
is_undecided submitted = true
is_undecided started = true
is_undecided _ = false

abbrev pub decided : Bool → ℕ → Option String → Registration → Registration
decided true actor_id reason g = record g {
  status = approved;
  approved_by = some actor_id;
  rejected_by = none;
  rejection_reason = none;
}
decided false actor_id reason g = record g {
  status = rejected;
  rejected_by = some actor_id;
  rejection_reason = reason;
}

-- fee_amount is None or 0
abbrev pub is_free : EventConfiguration → Bool
is_free config = elim config.fee_amount [ none ↦ true | some fee ↦ fee == 0 ]

module _ (sign : BarcodePayload → String) where
  -- The ticket of a registration to a free event.
  unfoldable pub issue_if_free : Registration → Option EventConfiguration → Action (Unit {0})
  issue_if_free g none = pure tt
  issue_if_free g (some config) =
      if is_free config then issue_ticket_for_registration sign g else pure tt

  unfoldable pub issue_if_approved : Bool → Registration → Action (Unit {0})
  unfolding issue_if_free
  issue_if_approved false g = pure tt
  issue_if_approved true g = do
    config ← query (get_configuration g.event_id)
    issue_if_free g config

  -- decide_registration, from the registration that the actor sees.
  unfoldable pub decide_visible :
      ℕ → ℕ → Bool → Option String → Registration → Action (Option Registration)
  unfolding issue_if_approved
  decide_visible registration_id actor_id approve reason g = do
    raise_if (not (is_undecided g.status)) (already_in g.status "changed")
    modify (update_registration registration_id (decided approve actor_id reason))
    write_audit_log "registration" registration_id (if approve then "approved" else "rejected")
        (some actor_id)
    issue_if_approved approve (decided approve actor_id reason g)
    commit
    query (get_registration registration_id)

  unfoldable pub decide_registration : ℕ → ℕ → Bool → Option String → Action (Option Registration)
  unfolding get_registration_visible_to_actor decide_visible
  decide_registration registration_id actor_id approve reason = do
    g ← get_registration_visible_to_actor actor_id registration_id
    decide_visible registration_id actor_id approve reason g
