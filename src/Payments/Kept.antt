-- ===== src/Payments/Kept.antt =====
-- The processing of a webhook (app/modules/payments/service.py) and the tables that it does not
-- write: what is stored, and whatever reads neither payments nor refunds nor the tables of the
-- registration, ticket and waitlist services.
use event_platform_backend.Prelude.{ℕ, ◌≡◌, ap, false, Option, none, some, List, [], ◌∷◌, String}
use event_platform_backend.Models.Events.{Event, EventConfiguration}
use event_platform_backend.Models.Payments.{
  Payment, Refund, PaymentEntity, RefundEntity, WebhookPayload,
}
use event_platform_backend.Models.Registrations.{Registration}
use event_platform_backend.Models.Tickets.{Ticket}
use event_platform_backend.Payments.Gateway.{Platform, TouchesNoTable, storage}
use event_platform_backend.Payments.Repository.{update_payment, update_refund, refresh_payment}
use event_platform_backend.Payments.Settlement.{
  or_now, reopen_closed, settle_full, settle_part, apply_processed_refund,
}
use event_platform_backend.Payments.Verification.{
  commit_if, issue_ticket_for_payment, accept_payment, refuse_payment, verify_fresh, verify_payment,
}
use event_platform_backend.Payments.RefundEvents.{
  RefundEvent, paid_out, opened, refused, other, fail_registration, apply_refund_event,
  process_refund, process_refund_webhook,
}
use event_platform_backend.Payments.Webhooks.{process_payment_webhook, process_webhook_payload}
use event_platform_backend.Registrations.Cancellation.{cancel_each}
use event_platform_backend.Session.{Action}
use event_platform_backend.Session.Frames.{Frame, Frame-bind, frame_rules}
use event_platform_backend.Session.Kept.{
  kept, Keeps, Operational, Frame-write, Keeps-update_ticket, kept_rules,
}
use event_platform_backend.Store.{Db}
use event_platform_backend.Tickets.Durable.{Kept-issue_registration_tickets}
use event_platform_backend.Waitlists.Durable.{Kept-promote_next}

-- `b` reads neither the payments nor the refunds.
pub record Unpaid {B : Type 0} (b : Db → B) : Type 0 where
  pub operational : Operational b
  pub payments : (d : Db) (x : List Payment) → b (record d { payments = x }) ≡ b d
  pub refunds : (d : Db) (x : List Refund) → b (record d { refunds = x }) ≡ b d

module _ {B : Type 0} (b : Db → B) where
  pub Kept-storage : {A : Type 0} (m : Action A) → Frame storage m → Frame (kept b) m
  Kept-storage m h = record { at = λ s. ap (λ (x : Db × Db × (ℕ → ℕ)). (x.1, b x.0)) (h.at s) }

module _ {B : Type 0} (b : Db → B) (o : Operational b) where
  Kept-cancel_each : (ts : List Ticket) → Frame (kept b) (cancel_each ts)
  unfolding cancel_each
  Kept-cancel_each [] = search frame_rules
  Kept-cancel_each (t ∷ ts) =
      Frame-bind (kept b) _ _ (Frame-write b _ (Keeps-update_ticket b o _ _))
        λ _. Kept-cancel_each ts

  Kept-or_now : (t : Option ℕ) → Frame (kept b) (or_now t)
  unfolding or_now
  Kept-or_now none = search kept_rules
  Kept-or_now (some t) = search frame_rules

  Kept-reopen_closed :
      (i : ℕ) (c : Option EventConfiguration) (e : Option Event)
      → Frame (kept b) (reopen_closed i c e)
  unfolding reopen_closed
  Kept-reopen_closed i (some c) (some e) = search (frame_rules, kept_rules) depth 12
  Kept-reopen_closed i none e = search frame_rules
  Kept-reopen_closed i (some c) none = search frame_rules

  Kept-fail_registration : (g : Option Registration) → Frame (kept b) (fail_registration g)
  unfolding fail_registration
  Kept-fail_registration none = search frame_rules
  Kept-fail_registration (some g) = search (frame_rules, kept_rules)

module _ {B : Type 0} (b : Db → B) (u : Unpaid b) where
  Keeps-update_payment : (i : ℕ) (f : Payment → Payment) → Keeps b (update_payment i f)
  unfolding update_payment
  Keeps-update_payment i f = record { same = λ d. u.payments d _ }

  Keeps-update_refund : (i : ℕ) (f : Refund → Refund) → Keeps b (update_refund i f)
  unfolding update_refund
  Keeps-update_refund i f = record { same = λ d. u.refunds d _ }

  Kept-settle_full :
      (p : Payment) (g : Registration) (actor : Option ℕ) → Frame (kept b) (settle_full p g actor)
  unfolding settle_full
  Kept-settle_full p g actor =
      let o : Operational b = u.operational in
      search
        (
          frame_rules, kept_rules, Keeps-update_payment, Kept-cancel_each, Kept-or_now,
          Kept-reopen_closed, Kept-promote_next,
        )
        depth 24

  Kept-settle_part : (p : Payment) (g : Registration) → Frame (kept b) (settle_part p g)
  unfolding settle_part
  Kept-settle_part p g =
      let o : Operational b = u.operational in
      search (frame_rules, kept_rules, Keeps-update_payment) depth 12

  Kept-apply_processed_refund :
      (p : Payment) (actor : Option ℕ) → Frame (kept b) (apply_processed_refund p actor)
  unfolding apply_processed_refund
  Kept-apply_processed_refund p actor =
      search (frame_rules, Kept-settle_full, Kept-settle_part) depth 12

  Kept-apply_refund_event :
      (e : RefundEvent) (r : Refund) (p : Payment) (entity : RefundEntity) (name : String)
      → Frame (kept b) (apply_refund_event e r p entity name)
  unfolding apply_refund_event
  Kept-apply_refund_event paid_out r p entity name =
      let o : Operational b = u.operational in
      search (frame_rules, kept_rules, Keeps-update_refund, Kept-apply_processed_refund) depth 12
  Kept-apply_refund_event refused r p entity name =
      let o : Operational b = u.operational in
      search (frame_rules, kept_rules, Keeps-update_refund, Kept-fail_registration) depth 12
  Kept-apply_refund_event opened r p entity name =
      search (frame_rules, Frame-write, Keeps-update_refund)
  Kept-apply_refund_event other r p entity name =
      search (frame_rules, Frame-write, Keeps-update_refund)

  Kept-process_refund :
      (r : Refund) (p : Payment) (entity : RefundEntity) (id name : String)
      → Frame (kept b) (process_refund r p entity id name)
  unfolding process_refund
  Kept-process_refund r p entity id name =
      let o : Operational b = u.operational in
      search (frame_rules, kept_rules, Keeps-update_refund, Kept-apply_refund_event) depth 24

  Kept-process_refund_webhook :
      (entity : RefundEntity) (name : String) → Frame (kept b) (process_refund_webhook entity name)
  unfolding process_refund_webhook
  Kept-process_refund_webhook entity name = search (frame_rules, Kept-process_refund) depth 24

module _ {B : Type 0} (b : Db → B) (u : Unpaid b) (platform : Platform)
    (quiet : TouchesNoTable platform.gateway) where
  Kept-accept_payment :
      (p : Payment) (id signature : String)
      → Frame (kept b) (accept_payment platform p id signature false)
  unfolding accept_payment issue_ticket_for_payment commit_if refresh_payment
  Kept-accept_payment p id signature =
      let o : Operational b = u.operational in
      search (frame_rules, kept_rules, Keeps-update_payment, Kept-issue_registration_tickets) depth
        24

  Kept-refuse_payment : (p : Payment) → Frame (kept b) (refuse_payment platform p false)
  unfolding refuse_payment commit_if
  Kept-refuse_payment p = search (frame_rules, Frame-write, Keeps-update_payment) depth 12

  Kept-verify_fresh :
      (p : Payment) (id signature : String)
      → Frame (kept b) (verify_fresh platform p id signature false)
  unfolding verify_fresh
  Kept-verify_fresh p id signature =
      search
        (frame_rules, Kept-storage, quiet.verify_payment, Kept-accept_payment, Kept-refuse_payment)
        depth 16

  Kept-verify_payment :
      (i : ℕ) (id signature : String)
      → Frame (kept b) (verify_payment platform i id signature false)
  unfolding verify_payment refresh_payment
  Kept-verify_payment i id signature =
      let o : Operational b = u.operational in
      search (frame_rules, kept_rules, Kept-verify_fresh) depth 12

  Kept-process_payment_webhook :
      (entity : PaymentEntity) → Frame (kept b) (process_payment_webhook platform entity)
  unfolding process_payment_webhook
  Kept-process_payment_webhook entity = search (frame_rules, Kept-verify_payment) depth 24

  pub Kept-process_webhook_payload :
      (payload : WebhookPayload) → Frame (kept b) (process_webhook_payload platform payload)
  unfolding process_webhook_payload
  Kept-process_webhook_payload payload =
      search (frame_rules, Kept-process_payment_webhook, Kept-process_refund_webhook) depth 12
