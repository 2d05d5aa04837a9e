-- ===== src/Tickets/Gate.antt =====
-- The tests that TicketService (app/modules/tickets/service.py) makes at the gate, and the queries of
-- app/modules/tickets/repository.py that it uses.
use event_platform_backend.Prelude.{
  ℕ, Bool, true, false, not, ◌&&◌, ◌||◌, Option, none, some, List, [], ◌∷◌, String, str_eq, ◌==◌,
  ltb, leb, select, if◌then◌else◌, reaches, contains_id,
}
use event_platform_backend.Models.Events.{Event}
use event_platform_backend.Models.Payments.{is_verified}
use event_platform_backend.Models.Rbac.{
  RoleName, event_manager, event_coordinator, staff_lead, staff_member,
}
use event_platform_backend.Models.Registrations.{
  Registration, RegistrationStatus, confirmed, refund_failed, checked_in,
}
use event_platform_backend.Models.Tickets.{Ticket, AccessPolicy, AccessZone, CheckIn, is_used}
use event_platform_backend.Permissions.{user_has_scoped_role, platform_admins}
use event_platform_backend.Payments.Repository.{opt_str_eq}
use event_platform_backend.Store.{
  Db, event_key, payment_key, ticket_key, access_policy_key, access_zone_key, check_in_key,
}
use event_platform_backend.Table.{get, update, add}
use event_platform_backend.Session.{Action, query, or_raise, ◌>>=◌}
use event_platform_backend.Session.Errors.{ticket_not_found}

unfoldable pub get_ticket : ℕ → Db → Option Ticket
get_ticket ticket_id d = get ticket_id d.tickets

unfoldable pub get_ticket_or_raise : ℕ → Action Ticket
unfolding get_ticket
get_ticket_or_raise ticket_id = do
  row ← query (get_ticket ticket_id)
  or_raise row (ticket_not_found "Ticket not found.")

-- The roles that work at the gate.
abbrev pub gate_roles : RoleName → Bool
gate_roles event_manager = true
gate_roles event_coordinator = true
gate_roles staff_lead = true
gate_roles staff_member = true
gate_roles _ = false

unfoldable pub can_check_in_ticket : ℕ → Ticket → Db → Bool
can_check_in_ticket actor_id ticket d =
    user_has_scoped_role actor_id gate_roles ticket.event_id platform_admins d

unfoldable can_access_ticket : ℕ → Ticket → Db → Bool
can_access_ticket actor_id ticket d =
    if ticket.user_id == actor_id
    then true
    else user_has_scoped_role actor_id gate_roles ticket.event_id platform_admins d

-- The access policy of the ticket, if it names one that exists.
unfoldable pub policy_of : Ticket → Db → Option AccessPolicy
policy_of ticket d = elim ticket.access_policy_id [ none ↦ none | some i ↦ get i d.access_policies ]

abbrev zone_listed : Option ℕ → List ℕ → Bool
zone_listed none ids = false
zone_listed (some i) ids = contains_id ids i

abbrev is_empty : List ℕ → Bool
is_empty [] = true
is_empty (x ∷ xs) = false

-- policy and policy.allowed_zone_ids and (zone is None or zone is not one of them)
abbrev pub zone_denied : Option AccessPolicy → Option ℕ → Bool
zone_denied none zone_id = false
zone_denied (some p) zone_id =
    not (is_empty p.allowed_zone_ids) && not (zone_listed zone_id p.allowed_zone_ids)

abbrev usable : ℕ → Option AccessZone → Bool
usable event_id none = false
usable event_id (some z) = z.event_id == event_id && z.is_active

-- A zone is given that is not an active zone of the event.
unfoldable pub zone_invalid : ℕ → Option ℕ → Db → Bool
zone_invalid event_id none d = false
zone_invalid event_id (some i) d = not (usable event_id (get i d.access_zones))

-- policy is None or not policy.allows_reentry or entry_count >= policy.max_entries
abbrev pub no_reentry : Option AccessPolicy → ℕ → Bool
no_reentry none count = true
no_reentry (some p) count = not p.allows_reentry || reaches count p.max_entries

-- A ticket that has been used and may not be used again.
abbrev pub used_up : Option AccessPolicy → Ticket → Bool
used_up policy t = is_used t.status && no_reentry policy t.entry_count

-- bound and now < bound
abbrev pub before_start : Option ℕ → ℕ → Bool
before_start none now = false
before_start (some t) now = ltb now t

-- bound and now >= bound
abbrev pub after_end : Option ℕ → ℕ → Bool
after_end none now = false
after_end (some t) now = leb t now

abbrev listed : String → List String → Bool
listed s [] = false
listed s (x ∷ xs) = str_eq x s || listed s xs

-- valid_dates and the day of `now` is not one of them. `day` is the text of its date.
abbrev pub other_day : Option (List String) → String → Bool
other_day none day = false
other_day (some []) day = false
other_day (some (x ∷ xs)) day = not (listed day (x ∷ xs))

-- db.get(Event, id): whether deleted or not.
unfoldable pub event_row : ℕ → Db → Option Event
event_row event_id d = get event_id d.events

abbrev pub end_of : Option Event → Option ℕ
end_of none = none
end_of (some e) = e.end_date

-- payment_id is not None and the payment is missing or not verified
unfoldable pub unpaid : Option ℕ → Db → Bool
unpaid none d = false
unpaid (some i) d = elim (get i d.payments) [ none ↦ true | some p ↦ not (is_verified p.status) ]

abbrev pub is_admissible : RegistrationStatus → Bool
is_admissible confirmed = true
is_admissible refund_failed = true
is_admissible checked_in = true
is_admissible _ = false

-- The registration, where it exists and admits its holder.
abbrev pub admissible : Option Registration → Option Registration
admissible none = none
admissible (some g) = if is_admissible g.status then some g else none

-- CheckInRepository.get_by_offline_batch_id, before scalar_one_or_none.
unfoldable pub check_ins_of_batch : String → Db → List CheckIn
check_ins_of_batch batch d = select (λ c. opt_str_eq c.offline_batch_id (some batch)) d.check_ins

-- CheckInRepository.create, before the unique indexes are looked at.
unfoldable pub add_check_in : CheckIn → Db → Db
add_check_in c d = record d { check_ins = add c d.check_ins }

unfoldable pub update_check_in : ℕ → (CheckIn → CheckIn) → Db → Db
update_check_in i f d = record d { check_ins = update i f d.check_ins }

clashes : CheckIn → CheckIn → Bool
clashes c x =
    (x.ticket_id == c.ticket_id && x.entry_number == c.entry_number)
    || same_batch c.offline_batch_id
  where
    same_batch : Option String → Bool
    same_batch none = false
    same_batch (some b) = opt_str_eq x.offline_batch_id (some b)

-- uq_checkin_ticket_entry or uq_checkins_offline_batch_id is violated: an IntegrityError.
unfoldable pub violates_unique : CheckIn → List CheckIn → Bool
unfolding clashes
violates_unique c [] = false
violates_unique c (x ∷ xs) = clashes c x || violates_unique c xs

-- CheckInRepository.get_by_ticket_id: the row of the highest entry number.
abbrev highest : Option CheckIn → List CheckIn → Option CheckIn
highest best [] = best
highest none (x ∷ xs) = highest (some x) xs
highest (some b) (x ∷ xs) = elim (ltb b.entry_number x.entry_number) [
  | true ↦ highest (some x) xs
  | false ↦ highest (some b) xs
]

unfoldable pub latest_check_in : ℕ → Db → Option CheckIn
latest_check_in ticket_id d = highest none (select (λ c. c.ticket_id == ticket_id) d.check_ins)
