-- ===== src/Payments/Atomic.antt =====
-- PaymentService.handle_gateway_webhook (app/modules/payments/service.py): what the tables hold
-- when it returns and when it raises.
use event_platform_backend.Prelude.{
  ℕ, ◌≡◌, ◌⊎◌, inl, inr, refl, sym, ap, ◌∙◌, subst, true, Option, none, some, [], ◌∷◌, String,
}
use event_platform_backend.Models.Payments.{
  Payment, PaymentWebhookInbox, WebhookPayload, is_processed,
}
use event_platform_backend.Payments.Gateway.{Platform, TouchesNoTable}
use event_platform_backend.Payments.Inbox.{
  inbox_of, outside_inbox, Recorded, OneRow, scalar_one_or_none-none, scalar_one_or_none-some,
  update-OneRow, add-OneRow,
}
use event_platform_backend.Payments.Kept.{Kept-process_webhook_payload}
use event_platform_backend.Payments.Once.{
  Unpaid-inbox_of, after_get_by_event_id, after_one, begun, Handled, Refused, conclude-Triple,
}
use event_platform_backend.Payments.Repository.{inbox_rows, add_inbox, update_inbox}
use event_platform_backend.Payments.RefundEvents.{truthy, either_text, payment_for_webhook_payload}
use event_platform_backend.Payments.Webhooks.{
  conclude, receive, begin_processing, was_processed, process_webhook_payload, handle_received,
  handle_gateway_webhook,
}
use event_platform_backend.Session.{Session, Result, ok, err, scalar_one_or_none, attempt, ◌>>=◌}
use event_platform_backend.Session.Frames.{Frame, frame_rules}
use event_platform_backend.Session.Kept.{kept}
use event_platform_backend.Session.Stores.{
  Steps-tables-modify, Steps-tables-commit, Quiet-tables-now, Quiet-tables-uuid4,
  Quiet-tables-key_lock, after_attempt, after_or_raise,
}
use event_platform_backend.Session.Triples.{
  Ends, Triple, Triple-bind, Triple-pure, Triple-post, Triple-err, Triple-some, Triple-Frame,
  Triple-given, Triple-if, Triple-Steps, after_step, after-Quiet, after_guard,
}
use event_platform_backend.Session.Views.{tables, Committed}
use event_platform_backend.Store.{Db, webhook_inbox_key}

lookup-Frame : (payload : WebhookPayload) → Frame tables (payment_for_webhook_payload payload)
unfolding payment_for_webhook_payload
lookup-Frame payload = search frame_rules

-- What is left when the call raises: nothing, or the record of the failure.
abbrev pub Raised : String → Db → Session → Type 0
Raised event_id d s = (tables s ≡ (d, d)) ⊎ Refused event_id d s

module _ (platform : Platform) (quiet : TouchesNoTable platform.gateway) (event_id name : String)
    (payload : WebhookPayload) (d : Db) where
  pub process-Triple :
      (n : ℕ) (e : Db)
      → OneRow event_id n e.webhook_inbox
      → outside_inbox e ≡ outside_inbox d
      → Triple
          (λ s. tables s ≡ (e, e))
          (begin_processing platform n >>= λ _.
            attempt (process_webhook_payload platform payload) >>= λ result.
            conclude platform n event_id result)
          (λ _. Handled event_id)
          (Refused event_id d)
  unfolding begin_processing update_inbox
  process-Triple n e one same =
      let e' : Db = update_inbox n begun e in
      let one' : OneRow event_id n e'.webhook_inbox =
        (begun one.0, update-OneRow event_id n begun e.webhook_inbox (λ x. refl) one, one.2) in
      Triple-bind {Q = λ _ s. tables s ≡ (e', e')} _ _
        (after_step tables (e, e) _ _ _ (Steps-tables-modify _)
          λ _. Triple-Steps _ Steps-tables-commit)
        λ _.
          after_attempt (kept inbox_of) (e', e'.webhook_inbox) _ _
            (Kept-process_webhook_payload inbox_of Unpaid-inbox_of platform quiet payload)
            (λ s h. ap (λ (x : Db × Db). (x.1, x.0.webhook_inbox)) h)
            λ r. conclude-Triple platform event_id d n r e' one' same

  abbrev Ready : ℕ → Session → Type 0
  Ready n s =
      (e : Db) × ((OneRow event_id n e.webhook_inbox × (outside_inbox e ≡ outside_inbox d))
        × (tables s ≡ (e, e)))

  receive-Triple :
      (o : Option PaymentWebhookInbox) (E : Session → Type 0)
      → scalar_one_or_none (inbox_rows event_id d) ≡ ok o
      → Triple (λ s. tables s ≡ (d, d)) (receive platform event_id name payload o) Ready E
  unfolding receive inbox_rows add_inbox
  receive-Triple (some w) E found =
      Triple-pure w.id λ s h. (d, (((w, scalar_one_or_none-some _ w found, refl), refl), h))
  receive-Triple none E found =
      after-Quiet tables (d, d) _ _ Quiet-tables-now
        λ t.
          after-Quiet tables (d, d) _ _ Quiet-tables-uuid4
            λ id.
              after_step tables (d, d) _ _ _ (Steps-tables-modify _)
                λ _. after_step tables _ _ _ _ Steps-tables-commit λ _. Triple-pure id λ s h. (
                  _,
                  (
                    (
                      add-OneRow event_id _ d.webhook_inbox (scalar_one_or_none-none _ found) refl,
                      refl,
                    ),
                    h,
                  ),
                )

  recorded :
      (o : Option PaymentWebhookInbox) (s : Session)
      → was_processed platform o ≡ true
      → scalar_one_or_none (inbox_rows event_id d) ≡ ok o
      → tables s ≡ (d, d)
      → Handled event_id s
  recorded none s h found same = absurd (cc h)
  recorded (some w) s h found same =
      let seen : s.db ≡ d = ap (λ (x : Db × Db). x.0) same in
      (
        ap (λ (x : Db × Db). x.1) same ∙ sym seen,
        (w, ap (inbox_rows event_id) seen ∙ scalar_one_or_none-some _ w found, h),
      )

  received-Triple :
      (o : Option PaymentWebhookInbox)
      → scalar_one_or_none (inbox_rows event_id d) ≡ ok o
      → Triple
          (λ s. tables s ≡ (d, d))
          (handle_received platform event_id name payload o)
          (λ _. Handled event_id)
          (Raised event_id d)
  unfolding handle_received
  received-Triple o found =
      Triple-if _ _ _
        (λ h.
          Triple-post _ (λ p s same. recorded o s h found same)
            (Triple-Frame tables (d, d) (λ s same. inl same) _ (lookup-Frame payload)))
        λ h.
          Triple-err _ (λ s refused. inr refused)
            (Triple-bind {Q = Ready} _ _ (receive-Triple o (Refused event_id d) found)
              λ n. Triple-some _ λ e. Triple-given _ λ both. process-Triple n e both.0 both.1)

-- The id that a webhook's event is recorded by.
abbrev pub event_of : WebhookPayload → Option String
event_of payload = truthy (either_text payload.id payload.event_id)

abbrev pub Ended : WebhookPayload → Session → Type 0
Ended payload s = (event_id : String) × ((event_of payload ≡ some event_id) × Handled event_id s)

abbrev pub GivenUp : WebhookPayload → Db → Session → Type 0
GivenUp payload d s =
    (tables s ≡ (d, d))
    ⊎ ((event_id : String) × ((event_of payload ≡ some event_id) × Refused event_id d s))

given_up :
    (event_id : String) (payload : WebhookPayload) (d : Db) (s : Session)
    → event_of payload ≡ some event_id
    → Raised event_id d s
    → GivenUp payload d s
given_up event_id payload d s e (inl same) = inl same
given_up event_id payload d s e (inr refused) = inr (event_id, (e, refused))

module _ (platform : Platform) (quiet : TouchesNoTable platform.gateway) (body signature : String)
    (payload : WebhookPayload) (d : Db) where
  handle-Triple :
      Triple
        (λ s. tables s ≡ (d, d))
        (handle_gateway_webhook platform body signature payload)
        (λ _. Ended payload)
        (GivenUp payload d)
  unfolding handle_gateway_webhook
  handle-Triple =
      after_guard (λ s h. inl h) _ _ _
        λ signed.
          after_or_raise (λ s h. inl h) _ _ _
            λ event_id known.
              after_or_raise (λ s h. inl h) _ _ _
                λ name named.
                  after-Quiet tables (d, d) _ _ (Quiet-tables-key_lock _)
                    λ _.
                      after_get_by_event_id event_id d d _ (λ s h. inl h)
                        λ o found.
                          Triple-err _ (λ s h. given_up event_id payload d s known h)
                            (Triple-post _ (λ p s h. (event_id, (known, h)))
                              (received-Triple platform quiet event_id name payload d o found))

-- A webhook of the provider, from a session that holds no writes: a call that returns has recorded
-- the event as processed and stored all of its work; a call that raises has changed no table, or it
-- has recorded the event as failed and left every table but the inbox as it was, as seen and as stored.
pub gateway_webhook_atomic :
    (platform : Platform) (body signature : String) (payload : WebhookPayload) (s : Session)
    → TouchesNoTable platform.gateway
    → Committed s
    → Ends
        (λ _. Ended payload)
        (GivenUp payload s.db)
        (handle_gateway_webhook platform body signature payload s)
gateway_webhook_atomic platform body signature payload s quiet clean =
    (handle-Triple platform quiet body signature payload s.db).run s (λ i. (s.db, clean i))

ended : {A : Type 0} (P : Session → Type 0) (x : Result A × Session) → Ends (λ _. P) P x → P x.1
ended P (ok a, s) h = h
ended P (err e, s) h = h

module _ (platform : Platform) (body signature : String) (payload : WebhookPayload)
    (event_id : String) (known : event_of payload ≡ some event_id) (d : Db) where
  again-Triple :
      Recorded event_id is_processed d
      → Triple
          (λ s. tables s ≡ (d, d))
          (handle_gateway_webhook platform body signature payload)
          (λ _ s. tables s ≡ (d, d))
          (λ s. tables s ≡ (d, d))
  unfolding handle_gateway_webhook handle_received
  again-Triple (w, only, processed) =
      after_guard (λ s h. h) _ _ _
        λ signed.
          after_or_raise (λ s h. h) _ _ _
            λ other given.
              after_or_raise (λ s h. h) _ _ _
                λ name named.
                  after-Quiet tables (d, d) _ _ (Quiet-tables-key_lock _)
                    λ _.
                      after_one other d d w _
                        (subst (λ x. inbox_rows x d ≡ w ∷ []) (cc (known, given)) only)
                        (rw processed
                          (Triple-Frame tables (d, d) (λ s h. h) _ (lookup-Frame payload)))

-- Once a webhook has been processed, a further delivery of it changes no table, whatever its body and
-- its signature: the provider's retries have no effect.
pub webhook_once :
    (platform : Platform) (body signature : String) (payload : WebhookPayload) (s s' : Session)
    (p : Payment)
    → TouchesNoTable platform.gateway
    → Committed s
    → handle_gateway_webhook platform body signature payload s ≡ (ok p, s')
    → (body' signature' : String)
    → tables (handle_gateway_webhook platform body' signature' payload s').1 ≡ tables s'
webhook_once platform body signature payload s s' p quiet clean first body' signature' =
    let (event_id, (known, (stored, processed))) : Ended payload s' =
      subst (Ends (λ _. Ended payload) (GivenUp payload s.db)) first
        (gateway_webhook_atomic platform body signature payload s quiet clean) in
    let same : tables s' ≡ (s'.db, s'.db) = λ i. (s'.db, stored i) in
    ended (λ t. tables t ≡ (s'.db, s'.db)) _
      ((again-Triple platform body' signature' payload event_id known s'.db processed).run s' same)
    ∙ sym same
