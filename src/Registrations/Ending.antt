-- ===== src/Registrations/Ending.antt =====
-- RegistrationService.cancel_registration (app/modules/registrations/service.py): what becomes of the
-- registration.
use event_platform_backend.Prelude.{ℕ, ◌≡◌, refl, ap, sym, subst, Option, some, String}
use event_platform_backend.Models.Registrations.{Registration}
use event_platform_backend.Registrations.Atomic.{get_registration_or_raise-Triple}
use event_platform_backend.Registrations.Cancellation.{cancel_registration}
use event_platform_backend.Registrations.Cancelled.{at_own_id}
use event_platform_backend.Registrations.Cancelling.{MayCancel, cancel_atomic}
use event_platform_backend.Registrations.Repository.{get_registration}
use event_platform_backend.Registrations.Rows.{Present}
use event_platform_backend.Session.{Session, Result, ok, err}
use event_platform_backend.Session.Triples.{
  Ends, Triple, Triple-bind, Triple-err, Triple-pre, Triple-post, Triple-given, after-Quiet,
}
use event_platform_backend.Session.Views.{Committed, tables, Quiet-tables-lock}
use event_platform_backend.Store.{Db, registration_key}
use event_platform_backend.Table.{get}
use event_platform_backend.Table.Laws.{key-get}
use event_platform_backend.Registrations.Outcomes.{Closed, Free}
use event_platform_backend.Registrations.Closings.{found-Triple}

module _ (registration_id actor_id : ℕ) (reason : Option String) (d l : Db) where
  cancel-Triple :
      Triple
        (λ s. tables s ≡ (d, l))
        (cancel_registration registration_id actor_id reason)
        (λ _ s. Closed registration_id s.durable)
        Free
  unfolding cancel_registration get_registration
  cancel-Triple =
      Triple-bind _ _
        (Triple-err _ (λ s h. tt) (get_registration_or_raise-Triple registration_id d l))
        λ first. Triple-given _ λ _.
          after-Quiet tables (d, l) _ _ (Quiet-tables-lock first.event_id)
            λ _.
              Triple-bind _ _
                (Triple-err _ (λ s h. tt) (get_registration_or_raise-Triple registration_id d l))
                λ g. Triple-given _ λ found.
                  let own : g.id ≡ registration_id =
                    key-get registration_id d.registrations {x = g} found in
                  Triple-post _ (λ o s h. subst (λ i. Closed i s.durable) own h)
                    (Triple-pre _ (λ s h. present g found s (ap (λ (x : Db × Db). x.0) h))
                      (found-Triple g actor_id reason))
    where
      present :
          (g : Registration)
          → get registration_id d.registrations ≡ some g
          → (s : Session) → s.db ≡ d
          → Present g.id s.db
      present g found s here = record {
        row = g;
        stored =
            subst (λ x. get g.id x.registrations ≡ some g) (sym here)
              (at_own_id registration_id g d found);
        meets = tt;
      }

both-Ends :
    {A : Type 0} (P Q R : A → Session → Type 0) (E : Session → Type 0) (x : Result A × Session)
    → ((a : A) (s : Session) → P a s → Q a s → R a s)
    → Ends P Free x
    → Ends Q E x
    → Ends R E x
both-Ends P Q R E (ok a, s) join h k = join a s h k
both-Ends P Q R E (err e, s) join h k = k

-- A cancellation is made only by the owner or a manager of the event, of a registration in one of
-- the cancellable statuses, and all that the session wrote is then stored. Either the registration is
-- cancelled and every ticket of it is cancelled or revoked; or it is refund_pending, its one payment
-- is verified, and the refund added last is one of that payment that awaits approval. A cancellation
-- that raises stores nothing.
pub cancel_settled :
    (registration_id actor_id : ℕ) (reason : Option String) (s : Session)
    → Ends
        (λ _ t.
          ((g : Registration) × MayCancel registration_id actor_id s.db g)
          × Committed t
          × Closed registration_id t.durable)
        (λ t. t.durable ≡ s.durable)
        (cancel_registration registration_id actor_id reason s)
cancel_settled registration_id actor_id reason s =
    both-Ends (λ _ t. Closed registration_id t.durable) _ _ _
      (cancel_registration registration_id actor_id reason s) (λ o t closed k. (k.0, k.1, closed))
      ((cancel-Triple registration_id actor_id reason s.db s.durable).run s refl)
      (cancel_atomic registration_id actor_id reason s)
