-- ===== src/Tickets/Issue.antt =====
-- TicketService (app/modules/tickets/service.py): the issue of tickets. `sign` is HMAC-SHA256 under
-- the barcode secret.
use event_platform_backend.Prelude.{
  ℕ, Option, none, some, List, [], ◌∷◌, String, concat, ◌==◌, select,
}
use event_platform_backend.Models.Registrations.{Registration, RegistrationParticipant, confirmed}
use event_platform_backend.Models.Tickets.{Ticket, AccessPolicy, BarcodePayload, issued}
use event_platform_backend.Store.{Db}
use event_platform_backend.Registrations.Repository.{update_registration}
use event_platform_backend.Tickets.Repository.{
  list_by_registration_id, list_by_participant_id, general_policies, add_ticket,
}
use event_platform_backend.Session.{
  Action, pure, query, lift, modify, now, uuid4, token_hex, scalar_one_or_none, write_audit_log,
  ◌>>=◌, ◌>>◌,
}

-- What _create_ticket is asked for.
pub record TicketRequest : Type 0 where
  pub event_id : ℕ
  pub registration_id : ℕ
  pub payment_id : Option ℕ
  pub user_id : ℕ
  pub participant_id : Option ℕ

-- The rows among which an existing ticket is looked for.
unfoldable pub existing_tickets : TicketRequest → Db → List Ticket
unfolding list_by_registration_id list_by_participant_id
existing_tickets r d = elim r.participant_id [
  | none ↦ list_by_registration_id r.registration_id d
  | some participant_id ↦ list_by_participant_id participant_id d
]

abbrev pub policy_type : Option AccessPolicy → String
policy_type none = "general"
policy_type (some p) = p.access_type

-- The value of a column of the policy, if there is one.
abbrev pub of_policy : {A : Type 0} → Option AccessPolicy → (AccessPolicy → Option A) → Option A
of_policy none f = none
of_policy (some p) f = f p

module _ (sign : BarcodePayload → String) where
  abbrev pub new_ticket : ℕ → TicketRequest → String → Option AccessPolicy → ℕ → Ticket
  new_ticket id r code policy t =
      let payload : BarcodePayload = record {
        ticket_code = code;
        event_id = r.event_id;
        registration_id = r.registration_id;
        payment_id = r.payment_id;
      } in
      record {
        id = id;
        event_id = r.event_id;
        registration_id = r.registration_id;
        participant_id = r.participant_id;
        payment_id = r.payment_id;
        user_id = r.user_id;
        ticket_code = code;
        barcode_payload = payload;
        barcode_signature = sign payload;
        access_type = policy_type policy;
        access_policy_id = of_policy policy (λ p. some p.id);
        valid_from = of_policy policy (λ p. p.valid_from);
        valid_until = of_policy policy (λ p. p.valid_until);
        valid_dates = of_policy policy (λ p. p.valid_dates);
        entry_count = 0;
        status = issued;
        issued_at = some t;
        checked_in_at = none;
        checked_in_by = none;
      }

  -- _create_ticket, from the ticket that exists.
  unfoldable pub create_unless : TicketRequest → Option Ticket → Action Ticket
  create_unless r (some ticket) = pure ticket
  create_unless r none = do
    token ← token_hex
    policies ← query (general_policies r.event_id)
    policy ← lift (scalar_one_or_none policies)
    t ← now
    id ← uuid4
    modify (add_ticket (new_ticket id r (concat "TKT-" token) policy t))
    modify (update_registration r.registration_id λ g. record g { status = confirmed })
    write_audit_log "ticket" id "issued" (some r.user_id)
    pure (new_ticket id r (concat "TKT-" token) policy t)

  -- _create_ticket
  unfoldable pub create_ticket : TicketRequest → Action Ticket
  unfolding existing_tickets create_unless
  create_ticket r = do
    rows ← query (existing_tickets r)
    existing ← lift (scalar_one_or_none rows)
    create_unless r existing

  -- participant.user_id or fallback_user_id
  abbrev pub holder : Option ℕ → ℕ → ℕ
  holder none fallback = fallback
  holder (some user_id) fallback = user_id

  -- The loop over the participants of a team; `none` where there are none.
  unfoldable pub create_each :
      Registration → Option ℕ → ℕ → List RegistrationParticipant → Action (Unit {0})
  unfolding create_ticket
  create_each g payment_id fallback [] = pure tt
  create_each g payment_id fallback (p ∷ ps) = do
    create_ticket (record {
      event_id = g.event_id;
      registration_id = g.id;
      payment_id = payment_id;
      user_id = holder p.user_id fallback;
      participant_id = some p.id;
    })
    create_each g payment_id fallback ps

  -- The participants for whom tickets are issued one by one: those of a team.
  abbrev pub team_participants :
      Registration → List RegistrationParticipant → List RegistrationParticipant
  team_participants g ps = elim g.team_id [ none ↦ [] | some t ↦ ps ]

  unfoldable pub issue_for :
      Registration → Option ℕ → ℕ → List RegistrationParticipant → Action (Unit {0})
  unfolding create_each
  issue_for g payment_id fallback [] = do
    create_ticket (record {
      event_id = g.event_id;
      registration_id = g.id;
      payment_id = payment_id;
      user_id = fallback;
      participant_id = none;
    })
    pure tt
  issue_for g payment_id fallback (p ∷ ps) = do
    create_each g payment_id fallback (p ∷ ps)
    modify (update_registration g.id λ h. record h { status = confirmed })

  -- _issue_registration_tickets, whose ticket the callers in registrations do not use.
  unfoldable pub issue_registration_tickets : Registration → Option ℕ → ℕ → Action (Unit {0})
  unfolding issue_for
  issue_registration_tickets g payment_id fallback = do
    participants ← query (λ d. select (λ p. p.registration_id == g.id) d.participants)
    issue_for g payment_id fallback (team_participants g participants)

  unfoldable pub issue_ticket_for_registration : Registration → Action (Unit {0})
  unfolding issue_registration_tickets
  issue_ticket_for_registration g = issue_registration_tickets g none g.user_id
