-- ===== src/Payments/Inbox.antt =====
-- PaymentService.handle_gateway_webhook (app/modules/payments/service.py): what the tables hold
-- when it returns and when it raises.
use event_platform_backend.Prelude.{
  ℕ, ◌≡◌, refl, ap, ◌∙◌, Bool, true, none, some, List, [], ◌∷◌, String, str_eq, str_eq_iff, ==_refl,
  select, if◌then◌else◌,
}
use event_platform_backend.Models.Payments.{PaymentWebhookInbox, WebhookProcessingStatus}
use event_platform_backend.Payments.Repository.{inbox_rows}
use event_platform_backend.Session.{ok, scalar_one_or_none}
use event_platform_backend.Store.{Db, webhook_inbox_key}
use event_platform_backend.Table.{update, add}
use event_platform_backend.Table.Laws.{select-update, select-add}

abbrev pub inbox_of : Db → List PaymentWebhookInbox
inbox_of d = d.webhook_inbox

-- Every table but the inbox.
abbrev pub outside_inbox : Db → Db
outside_inbox d = record d { webhook_inbox = [] }

-- The inbox has one row of the event, whose status meets `p`.
abbrev pub Recorded : String → (WebhookProcessingStatus → Bool) → Db → Type 0
Recorded event_id p d =
    (w : PaymentWebhookInbox) × (inbox_rows event_id d ≡ w ∷ []) × (p w.processing_status ≡ true)

abbrev pub by_event : String → PaymentWebhookInbox → Bool
by_event event_id w = str_eq w.provider_event_id event_id

-- The inbox rows hold one of the event, whose id is `n`.
abbrev pub OneRow : String → ℕ → List PaymentWebhookInbox → Type 0
OneRow event_id n ws =
    (w : PaymentWebhookInbox) × (select (by_event event_id) ws ≡ w ∷ []) × (w.id ≡ n)

pub scalar_one_or_none-none : {A : Type 0} (xs : List A) → scalar_one_or_none xs ≡ ok none → xs ≡ []
scalar_one_or_none-none [] h = refl
scalar_one_or_none-none (x ∷ []) h = absurd (cc h)
scalar_one_or_none-none (x ∷ y ∷ xs) h = absurd (cc h)

pub scalar_one_or_none-some :
    {A : Type 0} (xs : List A) (x : A) → scalar_one_or_none xs ≡ ok (some x) → xs ≡ x ∷ []
scalar_one_or_none-some [] x h = absurd (cc h)
scalar_one_or_none-some (y ∷ []) x h = cc h
scalar_one_or_none-some (y ∷ z ∷ xs) x h = absurd (cc h)

update-one :
    (n : ℕ) (f : PaymentWebhookInbox → PaymentWebhookInbox) (w : PaymentWebhookInbox)
    → w.id ≡ n
    → update n f (w ∷ []) ≡ f w ∷ []
update-one n f w h = rw (h, ==_refl n) refl

module _ (event_id : String) where
  pub update-OneRow :
      (n : ℕ) (f : PaymentWebhookInbox → PaymentWebhookInbox) (ws : List PaymentWebhookInbox)
      → ((x : PaymentWebhookInbox) → by_event event_id (f x) ≡ by_event event_id x)
      → (one : OneRow event_id n ws) → select (by_event event_id) (update n f ws) ≡ f one.0 ∷ []
  update-OneRow n f ws h (w, only, named) =
      select-update (by_event event_id) n f ws h ∙ ap (update n f) only ∙ update-one n f w named

  pub add-OneRow :
      (w : PaymentWebhookInbox) (ws : List PaymentWebhookInbox)
      → select (by_event event_id) ws ≡ []
      → w.provider_event_id ≡ event_id
      → OneRow event_id w.id (add w ws)
  add-OneRow w ws h e = (w, select-add (by_event event_id) w ws ∙ added, refl)
    where
      added :
          (if by_event event_id w
            then add w (select (by_event event_id) ws)
            else select (by_event event_id) ws)
          ≡ w ∷ []
      added = rw (h, (str_eq_iff w.provider_event_id event_id).1 e) refl
