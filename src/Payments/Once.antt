-- ===== src/Payments/Once.antt =====
-- PaymentService.handle_gateway_webhook (app/modules/payments/service.py): what the tables hold
-- when it returns and when it raises.
use event_platform_backend.Prelude.{
  ℕ, ◌+◌, ◌≡◌, refl, sym, ap, ◌∙◌, Option, none, some, List, [], ◌∷◌, String, select,
}
use event_platform_backend.Models.Payments.{
  Payment, PaymentWebhookInbox, WebhookProcessingStatus, is_processed, is_failed,
}
use event_platform_backend.Payments.Gateway.{Platform}
use event_platform_backend.Payments.Inbox.{
  inbox_of, outside_inbox, Recorded, by_event, OneRow, update-OneRow,
}
use event_platform_backend.Payments.Kept.{Unpaid}
use event_platform_backend.Payments.Repository.{inbox_rows, get_by_event_id, update_inbox}
use event_platform_backend.Payments.Webhooks.{record_failure, conclude}
use event_platform_backend.Session.{
  Session, Result, ok, err, Action, scalar_one_or_none, raise, modify, commit, ◌>>=◌, ◌>>◌,
}
use event_platform_backend.Session.Errors.{Error}
use event_platform_backend.Session.Kept.{kept, Operational, Ignores-kept}
use event_platform_backend.Session.Stores.{after_rollback, Triple-lift}
use event_platform_backend.Session.Triples.{
  Triple, Triple-bind, Triple-given, after-Quiet, after_query,
}
use event_platform_backend.Session.Views.{tables, Committed, Quiet-now}
use event_platform_backend.Store.{Db, webhook_inbox_key}
use event_platform_backend.Table.{update}

pub Operational-inbox_of : Operational inbox_of
Operational-inbox_of = record {
  unlisted = record {
    notifications = λ d x. refl;
    audit_logs = λ d x. refl;
    waitlist_entries = λ d x. refl;
  };
  registrations = λ d x. refl;
  tickets = λ d x. refl;
  events = λ d x. refl;
}

pub Unpaid-inbox_of : Unpaid inbox_of
Unpaid-inbox_of = record {
  operational = Operational-inbox_of;
  payments = λ d x. refl;
  refunds = λ d x. refl;
}

module _ (event_id : String) {A : Type 0} (d l : Db) where
  -- What the lookup of the event reads.
  pub after_get_by_event_id :
      {R : A → Session → Type 0} {E : Session → Type 0} (k : Option PaymentWebhookInbox → Action A)
      → ((s : Session) → tables s ≡ (d, l) → E s)
      → ((o : Option PaymentWebhookInbox)
          → scalar_one_or_none (inbox_rows event_id d) ≡ ok o
          → Triple (λ s. tables s ≡ (d, l)) (k o) R E)
      → Triple (λ s. tables s ≡ (d, l)) (get_by_event_id event_id >>= k) R E
  unfolding get_by_event_id inbox_rows
  after_get_by_event_id k down next =
      Triple-bind
        {Q = λ o s. (scalar_one_or_none (inbox_rows event_id d) ≡ ok o) × (tables s ≡ (d, l))} _ _
        (after_query tables (d, l) _ (λ x. inbox_rows event_id x.0) _ (λ s. refl)
          (Triple-lift down _))
        λ o. Triple-given _ (next o)

  -- The lookup of an event that has one row.
  pub after_one :
      {R : A → Session → Type 0} {E : Session → Type 0} (w : PaymentWebhookInbox)
      (k : Option PaymentWebhookInbox → Action A)
      → inbox_rows event_id d ≡ w ∷ []
      → Triple (λ s. tables s ≡ (d, l)) (k (some w)) R E
      → Triple (λ s. tables s ≡ (d, l)) (get_by_event_id event_id >>= k) R E
  unfolding get_by_event_id ◌>>=◌
  after_one w k only next = record {
    run = λ s h.
        let found : inbox_rows event_id s.db ≡ w ∷ [] =
          ap (λ (x : Db × Db). inbox_rows event_id x.0) h ∙ only in
        rw found (next.run s h);
  }

abbrev failed_with : String → PaymentWebhookInbox → PaymentWebhookInbox
failed_with reason w = record w {
  processing_status = WebhookProcessingStatus.failed;
  failure_reason = some reason;
}

abbrev processed_at : ℕ → PaymentWebhookInbox → PaymentWebhookInbox
processed_at t w = record w {
  processing_status = WebhookProcessingStatus.processed;
  processed_at = some t;
  failure_reason = none;
}

abbrev pub begun : PaymentWebhookInbox → PaymentWebhookInbox
begun w = record w {
  processing_status = WebhookProcessingStatus.processing;
  attempts = w.attempts + 1;
}

outside-update_inbox :
    (n : ℕ) (f : PaymentWebhookInbox → PaymentWebhookInbox) (d : Db)
    → outside_inbox (update_inbox n f d) ≡ outside_inbox d
unfolding update_inbox
outside-update_inbox n f d = refl

-- The event is recorded as processed, and everything that the session wrote is stored.
abbrev pub Handled : String → Session → Type 0
Handled event_id s = Committed s × Recorded event_id is_processed s.db

-- The event is recorded as failed, and nothing else is left of its processing: the other tables are
-- those of `d`.
abbrev pub Refused : String → Db → Session → Type 0
Refused event_id d s =
    Committed s × Recorded event_id is_failed s.db × (outside_inbox s.db ≡ outside_inbox d)

module _ (platform : Platform) (event_id : String) (d : Db) where
  conclude_ok-Triple :
      (n : ℕ) (p : Payment) (l : Db) (ws : List PaymentWebhookInbox)
      → OneRow event_id n ws
      → Triple
          (λ s. kept inbox_of s ≡ (l, ws))
          (conclude platform n event_id (ok p))
          (λ _. Handled event_id)
          (Refused event_id d)
  unfolding conclude modify update_inbox commit ◌>>=◌ inbox_rows
  conclude_ok-Triple n p l ws one =
      after-Quiet (kept inbox_of) (l, ws) _ _
        (Quiet-now (kept inbox_of) (Ignores-kept inbox_of Operational-inbox_of.unlisted))
        λ t. record {
          run = λ s h. (
            refl,
            (
              processed_at t one.0,
              ap
                    (λ (x : Db × List PaymentWebhookInbox).
                      select (by_event event_id) (update n (processed_at t) x.1))
                    h
                  ∙ update-OneRow event_id n (processed_at t) ws (λ x. refl) one,
              refl,
            ),
          );
        }

  record_failure-Triple :
      (e : Error) (l : Db) (o : Option PaymentWebhookInbox) (w : PaymentWebhookInbox)
      → inbox_rows event_id l ≡ w ∷ []
      → o ≡ some w
      → outside_inbox l ≡ outside_inbox d
      → Triple
          (λ s. tables s ≡ (l, l))
          (record_failure platform e o >> raise e)
          (λ (_ : Payment). Handled event_id)
          (Refused event_id d)
  unfolding record_failure modify update_inbox commit ◌>>=◌ inbox_rows
  record_failure-Triple e l none w only found same = absurd (cc found)
  record_failure-Triple e l (some v) w only found same = record {
    run = λ s h.
        let f : PaymentWebhookInbox → PaymentWebhookInbox = failed_with (platform.excerpt e 1000) in
        let seen : s.db ≡ l = ap (λ (x : Db × Db). x.0) h in
        let is_w : v ≡ w = cc found in
        (
          refl,
          (
            f w,
            ap (λ (x : Db). select (by_event event_id) (update v.id f x.webhook_inbox)) seen
                ∙ update-OneRow event_id v.id f l.webhook_inbox (λ x. refl)
                    (w, only, ap (λ (x : PaymentWebhookInbox). x.id) (sym is_w)),
            refl,
          ),
          ap outside_inbox seen ∙ same,
        );
  }

  conclude_err-Triple :
      (n : ℕ) (e : Error) (l : Db) (w : PaymentWebhookInbox) (ws : List PaymentWebhookInbox)
      → inbox_rows event_id l ≡ w ∷ []
      → outside_inbox l ≡ outside_inbox d
      → Triple
          (λ s. kept inbox_of s ≡ (l, ws))
          (conclude platform n event_id (err e))
          (λ _. Handled event_id)
          (Refused event_id d)
  unfolding conclude
  conclude_err-Triple n e l w ws only same =
      after_rollback l _ (λ s h. ap (λ (x : Db × List PaymentWebhookInbox). x.0) h)
        (after_one event_id l l w _ only (record_failure-Triple e l (some w) w only refl same))

  pub conclude-Triple :
      (n : ℕ) (r : Result Payment) (l : Db)
      → OneRow event_id n l.webhook_inbox
      → outside_inbox l ≡ outside_inbox d
      → Triple
          (λ s. kept inbox_of s ≡ (l, l.webhook_inbox))
          (conclude platform n event_id r)
          (λ _. Handled event_id)
          (Refused event_id d)
  unfolding inbox_rows
  conclude-Triple n (ok p) l one same = conclude_ok-Triple n p l l.webhook_inbox one
  conclude-Triple n (err e) l one same = conclude_err-Triple n e l one.0 l.webhook_inbox one.1 same
