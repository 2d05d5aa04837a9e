-- ===== src/Scenario.antt =====
-- Rows and sessions for the tests: one event with two seats and its waitlist.
use event_platform_backend.Prelude.{true, ℕ, ◌+◌, false, none, some, List, [], ◌∷◌, pos}
use event_platform_backend.Models.Events.{Event, EventConfiguration, registration_open}
use event_platform_backend.Models.Rbac.{RoleAssignment, super_admin, active}
use event_platform_backend.Models.Registrations.{Registration, confirmed}
use event_platform_backend.Models.Payments.{PaymentStatus}
use event_platform_backend.Models.Waitlists.{
  WaitlistStatus, WaitlistEntry, waiting, promoted, expired,
}
use event_platform_backend.Store.{Db, empty_db}
use event_platform_backend.Session.{Session}

abbrev pub open_event : Event
open_event = record {
  id = 1;
  status = registration_open;
  start_date = 100;
  end_date = none;
  deleted_at = none;
  organizer_user_id = none;
}

abbrev pub capacity_of_two : EventConfiguration
capacity_of_two = record {
  id = 2;
  event_id = 1;
  participation_types = "individual" ∷ [];
  fee_amount = none;
  currency = "INR";
  capacity = some (pos 2);
  volunteer_open = true;
  approval_required = false;
  discount_rules = none;
  details = none;
  rules = record { min_age = none; max_age = none; team_size = none; required_documents = [] };
}

abbrev pub seat : ℕ → ℕ → Registration
seat id user_id = record {
  id = id;
  event_id = 1;
  user_id = user_id;
  child_id = none;
  team_id = none;
  participation_type = "individual";
  status = confirmed;
  submitted_at = none;
  approved_by = none;
  rejected_by = none;
  rejection_reason = none;
  checked_in_at = none;
  cancellation_deadline_at = none;
  cancellation_requested_at = none;
  cancelled_at = none;
  cancelled_by = none;
  cancellation_reason = none;
}

abbrev pub on_list : ℕ → ℕ → WaitlistStatus → ℕ → WaitlistEntry
on_list id user_id status joined_at = record {
  id = id;
  event_id = 1;
  user_id = user_id;
  child_id = none;
  team_id = none;
  participation_type = "individual";
  status = status;
  joined_at = joined_at;
  promoted_at = none;
  promotion_expires_at = none;
  left_at = none;
  expired_at = none;
}

abbrev pub ann : WaitlistEntry
ann = on_list 10 7 waiting 120

abbrev pub bob : WaitlistEntry
bob = on_list 11 8 waiting 110

-- His offer has run out.
abbrev pub col : WaitlistEntry
col = record (on_list 12 9 promoted 100) { promoted_at = some 130; promotion_expires_at = some 140 }

abbrev pub dan : WaitlistEntry
dan = on_list 13 6 expired 90

abbrev pub admin : RoleAssignment
admin = record {
  id = 30;
  user_id = 4;
  role = super_admin;
  event_id = none;
  status = active;
  revoked_at = none;
}

abbrev pub seats : List Registration → Db
seats registrations = record empty_db {
  events = open_event ∷ [];
  configurations = capacity_of_two ∷ [];
  assignments = admin ∷ [];
  registrations = registrations;
  waitlist_entries = ann ∷ bob ∷ col ∷ dan ∷ [];
}

abbrev pub session : Db → Session
session d = record {
  db = d;
  durable = d;
  locks = [];
  clock = λ n. 200 + n;
  readings = 0;
  uuids = λ n. 1000 + n;
  drawn = 0;
  tokens = λ n. "token";
  tokens_drawn = 0;
}

-- Both seats are taken.
abbrev pub sold_out : Session
sold_out = session (seats (seat 20 5 ∷ seat 21 6 ∷ []))

-- One seat is free.
abbrev pub one_left : Session
one_left = session (seats (seat 20 5 ∷ []))

-- The payment of the first seat.
abbrev pub paid_seat : Session
paid_seat = session (record (seats (seat 20 5 ∷ seat 21 6 ∷ [])) {
  payments =
      record {
        id = 40;
        event_id = 1;
        registration_id = 20;
        user_id = 5;
        amount = 5000;
        currency = "INR";
        status = PaymentStatus.verified;
        gateway_order_id = some "order_1";
        gateway_payment_id = some "pay_1";
        gateway_signature = some "signature";
        discount_code = none;
        verified_at = some 150;
        captured_at = some 150;
        reconciliation_status = "verified";
        reconciliation_attempts = 0;
        last_reconciled_at = none;
        reconciliation_error = none;
        created_at = 140;
      }
      ∷ [];
})
