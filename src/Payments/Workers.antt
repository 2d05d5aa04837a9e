-- ===== src/Payments/Workers.antt =====
-- The calls that the workers make (app/modules/payments/service.py): the reconciliation of refunds,
-- of what has gone stale, and the retry of failed webhooks.
use event_platform_backend.Prelude.{
  ℕ, ◌+◌, ◌-◌, ◌*◌, not, ◌&&◌, ◌||◌, Option, none, some, List, [], ◌∷◌, String, concat, ◌==◌, ltb,
  min, max, select, take, if◌then◌else◌,
}
use event_platform_backend.Models.Payments.{
  Payment, Refund, RefundStatus, PaymentWebhookInbox, WebhookProcessingStatus, is_initiated,
  is_processing_refund,
}
use event_platform_backend.Store.{Db}
use event_platform_backend.Payments.Gateway.{Platform, GatewayRefundSnapshot}
use event_platform_backend.Payments.Repository.{
  get_payment, get_refund, update_refund, refresh_refund, get_by_event_id, update_inbox,
  list_failed, opt_str_eq,
}
use event_platform_backend.Payments.Reconciliation.{reconcile_payment}
use event_platform_backend.Payments.Settlement.{or_now, apply_processed_refund}
use event_platform_backend.Payments.RefundEvents.{fail_registration, status_in, truthy}
use event_platform_backend.Payments.Webhooks.{record_failure, process_webhook_payload}
use event_platform_backend.Registrations.Repository.{get_registration}
use event_platform_backend.Session.{
  Result, ok, err, Action, pure, raise, query, modify, now, commit, rollback, attempt, LockKey,
  acquire_advisory_lock, ◌>>=◌, ◌>>◌,
}

-- What the snapshot says of the refund.
pub data RefundReport : Type 0 where
  mismatch paid_out refused unsettled : RefundReport

abbrev pub refund_report : Refund → Payment → GatewayRefundSnapshot → RefundReport
refund_report r p s =
    if not (opt_str_eq (some s.payment_id) p.gateway_payment_id) || not (s.amount == r.amount)
    then mismatch
    else if status_in (some s.status) ("processed" ∷ "completed" ∷ [])
    then paid_out
    else if status_in (some s.status) ("failed" ∷ "cancelled" ∷ [])
    then refused
    else unsettled

unfoldable apply_refund_report :
    Refund → Payment → GatewayRefundSnapshot → RefundReport → Action (Unit {0})
unfolding fail_registration
apply_refund_report r p s mismatch = modify (
    update_refund r.id λ x. record x {
      reconciliation_error = some "Provider refund does not match the local refund request.";
    })
apply_refund_report r p s paid_out = do
  t ← or_now r.processed_at
  modify (
      update_refund r.id λ x. record x {
        status = RefundStatus.processed;
        processed_at = some t;
        reconciliation_error = none;
      })
  apply_processed_refund p none
apply_refund_report r p s refused = do
  modify (
      update_refund r.id λ x. record x {
        status = RefundStatus.failed;
        failure_reason = some (concat "Provider refund status: " s.status);
        reconciliation_error = none;
      })
  g ← query (get_registration p.registration_id)
  fail_registration g
apply_refund_report r p s unsettled = pure tt

unfoldable apply_refund_snapshot :
    Refund → Payment → Option GatewayRefundSnapshot → Action (Unit {0})
unfolding apply_refund_report
apply_refund_snapshot r p none = modify (
    update_refund r.id
      λ x. record x { reconciliation_error = some "Provider has not returned a refund state." })
apply_refund_snapshot r p (some s) = apply_refund_report r p s (refund_report r p s)

-- max(1, min(limit, batch_size))
abbrev pub clamp : ℕ → ℕ → ℕ
clamp limit batch_size = max 1 (min limit batch_size)

insert_created : Payment → List Payment → List Payment
insert_created p [] = p ∷ []
insert_created p (q ∷ qs) =
    let rest = insert_created p qs in if ltb p.created_at q.created_at then p ∷ q ∷ qs else q ∷ rest

-- ORDER BY created_at
sort_created : List Payment → List Payment → List Payment
unfolding insert_created
sort_created [] sorted = sorted
sort_created (p ∷ ps) sorted = sort_created ps (insert_created p sorted)

-- The initiated payments that were made before the instant.
unfoldable stale_payments : ℕ → ℕ → Db → List Payment
unfolding sort_created
stale_payments cutoff limit d =
    take limit
      (sort_created (select (λ p. is_initiated p.status && ltb p.created_at cutoff) d.payments) [])

unfoldable open_refunds : ℕ → Db → List Refund
open_refunds limit d = take limit (select (λ r. is_processing_refund r.status) d.refunds)

module _ (platform : Platform) where
  -- The try block of reconcile_refund.
  unfoldable reconcile_refund_found : Refund → Payment → String → Action Refund
  unfolding apply_refund_snapshot refresh_refund
  reconcile_refund_found r p gateway_refund_id = do
    snapshot ← platform.gateway.fetch_refund gateway_refund_id
    apply_refund_snapshot r p snapshot
    commit
    refresh_refund r.id

  -- Its except clause.
  unfoldable conclude_refund_check : ℕ → Result Refund → Action (Option Refund)
  conclude_refund_check refund_id (ok r) = pure (some r)
  conclude_refund_check refund_id (err e) = do
    rollback
    row ← query (get_refund refund_id)
    record_failure row
    raise e
    where
      record_failure : Option Refund → Action (Unit {0})
      record_failure none = pure tt
      record_failure (some r) = do
        modify (
            update_refund r.id
              λ x. record x { reconciliation_error = some (platform.excerpt e 1000) })
        commit

  unfoldable reconcile_refund_row : Refund → Option Payment → Option String → Action (Option Refund)
  unfolding reconcile_refund_found conclude_refund_check
  reconcile_refund_row r (some p) (some gateway_refund_id) = do
    t ← now
    modify (
        update_refund r.id λ x. record x {
          reconciliation_attempts = x.reconciliation_attempts + 1;
          last_reconciled_at = some t;
        })
    result ← attempt (reconcile_refund_found r p gateway_refund_id)
    conclude_refund_check r.id result
  reconcile_refund_row r _ _ = pure (some r)

  unfoldable reconcile_refund_of : Option Refund → Action (Option Refund)
  unfolding reconcile_refund_row
  reconcile_refund_of none = pure none
  reconcile_refund_of (some r) = do
    p ← query (get_payment r.payment_id)
    reconcile_refund_row r p (truthy r.gateway_refund_id)

  unfoldable reconcile_refund : ℕ → Action (Option Refund)
  unfolding reconcile_refund_of
  reconcile_refund refund_id = do
    acquire_advisory_lock (LockKey.refund_reconciliation refund_id)
    row ← query (get_refund refund_id)
    reconcile_refund_of row

  unfoldable reconcile_payments : List Payment → ℕ → Action ℕ
  unfolding reconcile_payment
  reconcile_payments [] count = pure count
  reconcile_payments (p ∷ ps) count = do
    reconcile_payment platform p.id
    reconcile_payments ps (count + 1)

  unfoldable reconcile_stale_payments_once : ℕ → Action ℕ
  unfolding stale_payments reconcile_payments
  reconcile_stale_payments_once limit = do
    t ← now
    rows ←
        query
          (stale_payments (t - platform.stale_seconds * 1000000) (clamp limit platform.batch_size))
    reconcile_payments rows 0

  unfoldable reconcile_refunds : List Refund → ℕ → Action ℕ
  unfolding reconcile_refund
  reconcile_refunds [] count = pure count
  reconcile_refunds (r ∷ rs) count = do reconcile_refund r.id; reconcile_refunds rs (count + 1)

  unfoldable reconcile_stale_refunds_once : ℕ → Action ℕ
  unfolding open_refunds reconcile_refunds
  reconcile_stale_refunds_once limit = do
    rows ← query (open_refunds (clamp limit platform.batch_size))
    reconcile_refunds rows 0

  -- The end of the try block of the retry, and its except clause; whether it succeeded.
  unfoldable conclude_retry : ℕ → String → Result Payment → Action ℕ
  unfolding record_failure
  conclude_retry inbox_id provider_event_id (ok p) = do
    t ← now
    modify (
        update_inbox inbox_id λ w. record w {
          processing_status = WebhookProcessingStatus.processed;
          processed_at = some t;
        })
    commit
    pure 1
  conclude_retry inbox_id provider_event_id (err e) = do
    rollback
    inbox ← get_by_event_id provider_event_id
    record_failure platform e inbox
    pure 0

  unfoldable retry_each : List PaymentWebhookInbox → ℕ → Action ℕ
  unfolding process_webhook_payload conclude_retry
  retry_each [] count = pure count
  retry_each (w ∷ ws) count = do
    acquire_advisory_lock (LockKey.payment_webhook w.provider_event_id)
    modify (
        update_inbox w.id λ x. record x {
          processing_status = WebhookProcessingStatus.processing;
          attempts = x.attempts + 1;
          failure_reason = none;
        })
    commit
    result ← attempt (process_webhook_payload platform w.payload)
    done ← conclude_retry w.id w.provider_event_id result
    retry_each ws (count + done)

  unfoldable retry_failed_webhooks_once : ℕ → Action ℕ
  unfolding list_failed retry_each
  retry_failed_webhooks_once limit = do rows ← query (list_failed limit); retry_each rows 0
