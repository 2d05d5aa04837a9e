-- ===== src/Registrations/Atomic.antt =====
-- RegistrationService.decide_registration (app/modules/registrations/service.py): who may make a
-- decision, and what of it is stored.
use event_platform_backend.Prelude.{
  ℕ, ◌≡◌, refl, ap, Bool, true, false, Option, none, some, String, not-eq_false,
}
use event_platform_backend.Models.Events.{EventConfiguration}
use event_platform_backend.Models.Registrations.{Registration}
use event_platform_backend.Models.Tickets.{BarcodePayload}
use event_platform_backend.Store.{Db}
use event_platform_backend.Session.{Session, or_raise}
use event_platform_backend.Session.Errors.{Error}
use event_platform_backend.Session.Frames.{Frame, Frame-bind, Frame-query, frame_rules}
use event_platform_backend.Session.Triples.{
  Triple, Triple-bind, Triple-pure, Triple-raise, Triple-err, Triple-post, Triple-pre, Triple-given,
  after-Frame, after_query, after_guard, Ends,
}
use event_platform_backend.Session.Views.{
  lasting, Frame-modify, Frame-audit, Committed, tables, commit-Triple,
}
use event_platform_backend.Registrations.Repository.{get_registration}
use event_platform_backend.Registrations.Window.{get_registration_or_raise}
use event_platform_backend.Registrations.Decision.{
  can_manage_registration, get_registration_visible_to_actor, is_undecided, issue_if_free,
  issue_if_approved, decide_visible, decide_registration,
}
use event_platform_backend.Tickets.Durable.{Frame-issue_ticket_for_registration}

module _ (sign : BarcodePayload → String) where
  Frame-issue_if_free :
      (g : Registration) (c : Option EventConfiguration) → Frame lasting (issue_if_free sign g c)
  unfolding issue_if_free
  Frame-issue_if_free g none = search frame_rules
  Frame-issue_if_free g (some c) = search (frame_rules, Frame-issue_ticket_for_registration sign)

  pub Frame-issue_if_approved :
      (approve : Bool) (g : Registration) → Frame lasting (issue_if_approved sign approve g)
  unfolding issue_if_approved
  Frame-issue_if_approved false g = search frame_rules
  Frame-issue_if_approved true g =
      Frame-bind lasting _ _ (Frame-query lasting _) (Frame-issue_if_free g)

-- Why the registration `g` may be decided.
pub record MayDecide (registration_id actor_id : ℕ) (d : Db) (g : Registration) : Type 0 where
  pub found : get_registration registration_id d ≡ some g
  pub visible : can_manage_registration actor_id g d ≡ true
  pub undecided : is_undecided g.status ≡ true

-- The registration of an id, from the tables `d`.
module _ (registration_id : ℕ) (d l : Db) where
  or_raise-Triple :
      (o : Option Registration) (e : Error)
      → get_registration registration_id d ≡ o
      → Triple
          (λ s. tables s ≡ (d, l))
          (or_raise o e)
          (λ g s. (get_registration registration_id d ≡ some g) × (tables s ≡ (d, l)))
          (λ s. tables s ≡ (d, l))
  or_raise-Triple none e found = Triple-raise e (λ s h. h)
  or_raise-Triple (some g) e found = Triple-pure g (λ s h. (found, h))

  pub get_registration_or_raise-Triple :
      Triple
        (λ s. tables s ≡ (d, l))
        (get_registration_or_raise registration_id)
        (λ g s. (get_registration registration_id d ≡ some g) × (tables s ≡ (d, l)))
        (λ s. tables s ≡ (d, l))
  unfolding get_registration_or_raise
  get_registration_or_raise-Triple =
      after_query tables (d, l) _ (λ x. get_registration registration_id x.0) _ (λ s. refl)
        (or_raise-Triple _ _ refl)

module _ (registration_id actor_id : ℕ) (d l : Db) where
  pub visible-Triple :
      Triple
        (λ s. tables s ≡ (d, l))
        (get_registration_visible_to_actor actor_id registration_id)
        (λ g s.
          ((get_registration registration_id d ≡ some g)
            × (can_manage_registration actor_id g d ≡ true))
          × (tables s ≡ (d, l)))
        (λ s. tables s ≡ (d, l))
  unfolding get_registration_visible_to_actor
  visible-Triple = Triple-bind _ _ (get_registration_or_raise-Triple registration_id d l) λ g.
      Triple-given _ λ found.
        after_query tables (d, l) _ (λ x. can_manage_registration actor_id g x.0) _ (λ s. refl)
          (after_guard (λ s h. h) _ _ _
            λ visible. Triple-pure g (λ s h. ((found, not-eq_false _ visible), h)))

module _ (sign : BarcodePayload → String) (registration_id actor_id : ℕ) (approve : Bool)
    (reason : Option String) (d l : Db) where
  abbrev pub Decides : Option Registration → Session → Type 0
  Decides o s = ((g : Registration) × MayDecide registration_id actor_id d g) × Committed s

  abbrev pub Stays : Session → Type 0
  Stays s = s.durable ≡ l

  decide_visible-Triple :
      (g : Registration)
      → get_registration registration_id d ≡ some g
      → can_manage_registration actor_id g d ≡ true
      → Triple
          (λ s. tables s ≡ (d, l))
          (decide_visible sign registration_id actor_id approve reason g)
          Decides
          Stays
  unfolding decide_visible
  decide_visible-Triple g found visible =
      Triple-pre _ (λ s h. ap (λ (x : Db × Db). x.1) h)
        (after_guard (λ s h. h) _ _ _
          λ undecided.
            after-Frame lasting l (λ s h. h) _ _ (Frame-modify _)
              λ _.
                after-Frame lasting l (λ s h. h) _ _ (Frame-audit _ _ _ _)
                  λ _.
                    after-Frame lasting l (λ s h. h) _ _ (Frame-issue_if_approved sign approve _)
                      λ _.
                        Triple-post _
                          (λ o s h. (
                            (
                              g,
                              record {
                                found = found;
                                visible = visible;
                                undecided = not-eq_false _ undecided;
                              },
                            ),
                            h,
                          ))
                          (commit-Triple Stays _))

  decide-Triple :
      Triple
        (λ s. tables s ≡ (d, l))
        (decide_registration sign registration_id actor_id approve reason)
        Decides
        Stays
  unfolding decide_registration
  decide-Triple =
      Triple-bind _ _
        (Triple-err _ (λ s h. ap (λ (x : Db × Db). x.1) h)
          (visible-Triple registration_id actor_id d l))
        λ g. Triple-given _ λ both. decide_visible-Triple g both.0 both.1

-- A decision is made only on a registration that the actor owns or manages and that was started,
-- submitted or pending, and it is stored with everything that it caused; a refused one stores nothing.
pub decide_atomic :
    (sign : BarcodePayload → String) (registration_id actor_id : ℕ) (approve : Bool)
    (reason : Option String) (s : Session)
    → Ends
        (λ _ t. ((g : Registration) × MayDecide registration_id actor_id s.db g) × Committed t)
        (λ t. t.durable ≡ s.durable)
        (decide_registration sign registration_id actor_id approve reason s)
decide_atomic sign registration_id actor_id approve reason s =
    (decide-Triple sign registration_id actor_id approve reason s.db s.durable).run s refl
