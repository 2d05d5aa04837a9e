-- ===== src/Store.antt =====
-- The database as one session sees it: a table for each model that the modelled services use.
use event_platform_backend.Prelude.{List, []}
use event_platform_backend.Models.Events.{Event, EventConfiguration, EventFieldSchema}
use event_platform_backend.Models.Schedule.{Venue, ScheduleItem}
use event_platform_backend.Models.Rbac.{RoleAssignment}
use event_platform_backend.Models.People.{ChildProfile, GuardianChildRelationship, Team, User}
use event_platform_backend.Models.Registrations.{Registration, RegistrationParticipant}
use event_platform_backend.Models.Payments.{Payment, Refund, DiscountCode, PaymentWebhookInbox}
use event_platform_backend.Models.Tickets.{
  Ticket, AccessPolicy, AccessZone, CheckIn, TicketTransfer,
}
use event_platform_backend.Models.Waitlists.{WaitlistEntry}
use event_platform_backend.Models.Notifications.{Notification, AuditLog, NotificationPreference}
use event_platform_backend.Table.{Keyed}

pub record Db : Type 0 where
  pub events : List Event
  pub configurations : List EventConfiguration
  pub field_schemas : List EventFieldSchema
  pub venues : List Venue
  pub schedule_items : List ScheduleItem
  pub assignments : List RoleAssignment
  pub users : List User
  pub children : List ChildProfile
  pub relationships : List GuardianChildRelationship
  pub teams : List Team
  pub registrations : List Registration
  pub participants : List RegistrationParticipant
  pub payments : List Payment
  pub refunds : List Refund
  pub discount_codes : List DiscountCode
  pub webhook_inbox : List PaymentWebhookInbox
  pub tickets : List Ticket
  pub access_policies : List AccessPolicy
  pub access_zones : List AccessZone
  pub check_ins : List CheckIn
  pub ticket_transfers : List TicketTransfer
  pub waitlist_entries : List WaitlistEntry
  pub notifications : List Notification
  pub preferences : List NotificationPreference
  pub audit_logs : List AuditLog

abbrev pub empty_db : Db
empty_db = record {
  events = [];
  configurations = [];
  field_schemas = [];
  venues = [];
  schedule_items = [];
  assignments = [];
  users = [];
  children = [];
  relationships = [];
  teams = [];
  registrations = [];
  participants = [];
  payments = [];
  refunds = [];
  discount_codes = [];
  webhook_inbox = [];
  tickets = [];
  access_policies = [];
  access_zones = [];
  check_ins = [];
  ticket_transfers = [];
  waitlist_entries = [];
  notifications = [];
  preferences = [];
  audit_logs = [];
}

instance abbrev pub event_key : Keyed Event
event_key = record { key = λ e. e.id }

-- `event_id` is unique in event_configurations.
instance abbrev pub configuration_key : Keyed EventConfiguration
configuration_key = record { key = λ c. c.event_id }

instance abbrev pub venue_key : Keyed Venue
venue_key = record { key = λ v. v.id }

instance abbrev pub schedule_item_key : Keyed ScheduleItem
schedule_item_key = record { key = λ i. i.id }

instance abbrev pub child_key : Keyed ChildProfile
child_key = record { key = λ c. c.id }

instance abbrev pub team_key : Keyed Team
team_key = record { key = λ t. t.id }

instance abbrev pub registration_key : Keyed Registration
registration_key = record { key = λ r. r.id }

instance abbrev pub waitlist_entry_key : Keyed WaitlistEntry
waitlist_entry_key = record { key = λ e. e.id }

instance abbrev pub payment_key : Keyed Payment
payment_key = record { key = λ p. p.id }

instance abbrev pub ticket_key : Keyed Ticket
ticket_key = record { key = λ t. t.id }

instance abbrev pub refund_key : Keyed Refund
refund_key = record { key = λ r. r.id }

instance abbrev pub webhook_inbox_key : Keyed PaymentWebhookInbox
webhook_inbox_key = record { key = λ w. w.id }

instance abbrev pub assignment_key : Keyed RoleAssignment
assignment_key = record { key = λ a. a.id }

instance abbrev pub user_key : Keyed User
user_key = record { key = λ u. u.id }

instance abbrev pub participant_key : Keyed RegistrationParticipant
participant_key = record { key = λ p. p.id }

instance abbrev pub access_policy_key : Keyed AccessPolicy
access_policy_key = record { key = λ p. p.id }

instance abbrev pub access_zone_key : Keyed AccessZone
access_zone_key = record { key = λ z. z.id }

instance abbrev pub check_in_key : Keyed CheckIn
check_in_key = record { key = λ c. c.id }

instance abbrev pub ticket_transfer_key : Keyed TicketTransfer
ticket_transfer_key = record { key = λ t. t.id }

instance abbrev pub preference_key : Keyed NotificationPreference
preference_key = record { key = λ p. p.user_id }

instance abbrev pub field_schema_key : Keyed EventFieldSchema
field_schema_key = record { key = λ f. f.id }
