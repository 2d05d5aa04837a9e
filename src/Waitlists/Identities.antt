-- ===== src/Waitlists/Identities.antt =====
-- uq_waitlist_active_identity (app/modules/waitlists/models.py) in the flush of an entry.
use event_platform_backend.Prelude.{
  ℕ, ◌≡◌, ◌≢◌, refl, true, none, List, [], ◌∷◌, arith, count_where,
}
use event_platform_backend.Models.Waitlists.{WaitlistEntry}
use event_platform_backend.Session.{Session, Action, ◌>>=◌}
use event_platform_backend.Session.Triples.{
  Triple, Triple-bind, Triple-Steps, after_query, after_raise_if,
}
use event_platform_backend.Session.Views.{Rows, rows, Steps-modify}
use event_platform_backend.Store.{Db}
use event_platform_backend.Waitlists.Quiet.{facts-update_entry, facts-add_entry}
use event_platform_backend.Waitlists.Repository.{update_entry, add_entry, is_taken, has_values_of}
use event_platform_backend.Waitlists.Service.{change_entry, insert_entry}

-- An entry for a child and a team: the constraint binds no other.
abbrev pub NamesBoth : WaitlistEntry → Type 0
NamesBoth e = (e.child_id ≢ none) × (e.team_id ≢ none)

free_child :
    (e : WaitlistEntry) (t : List WaitlistEntry)
    → e.child_id ≡ none
    → count_where (has_values_of e) t ≡ 0
free_child e [] h = refl
free_child e (x ∷ t) h = ground (arith, free_child e t h)

free_team :
    (e : WaitlistEntry) (t : List WaitlistEntry)
    → e.team_id ≡ none
    → count_where (has_values_of e) t ≡ 0
free_team e [] h = refl
free_team e (x ∷ t) h = ground (arith, free_team e t h)

pub taken-NamesBoth : (e : WaitlistEntry) (d : Db) → is_taken e d ≡ true → NamesBoth e
unfolding is_taken
taken-NamesBoth e d h = (
  λ q. absurd (ground (arith, free_child e d.waitlist_entries q)),
  λ q. absurd (ground (arith, free_team e d.waitlist_entries q)),
)

module _ (T : Rows) {B : Type 0} {R : B → Session → Type 0} {E : Session → Type 0} where
  -- What follows the flush of a changed entry, and of a new one.
  pub after_change :
      (id : ℕ) (f : WaitlistEntry → WaitlistEntry) (e : WaitlistEntry) (k : Unit {0} → Action B)
      → (is_taken (f e) T.0 ≡ true → (s : Session) → rows s ≡ T → E s)
      → ((u : Unit {0}) → Triple (λ s. rows s ≡ (update_entry id f T.0, T.1, T.2)) (k u) R E)
      → Triple (λ s. rows s ≡ T) (change_entry id f e >>= k) R E
  unfolding change_entry is_taken
  after_change id f e k down next =
      Triple-bind {Q = λ _ s. rows s ≡ (update_entry id f T.0, T.1, T.2)} _ _
        (after_query rows T _ (λ d. is_taken (f e) d.0) _ (λ s. refl)
          (after_raise_if _ _ _ down
            λ free. Triple-Steps _ (Steps-modify (update_entry id f) (facts-update_entry id f))))
        next

  pub after_insert :
      (e : WaitlistEntry) (k : Unit {0} → Action B)
      → (is_taken e T.0 ≡ true → (s : Session) → rows s ≡ T → E s)
      → ((u : Unit {0}) → Triple (λ s. rows s ≡ (add_entry e T.0, T.1, T.2)) (k u) R E)
      → Triple (λ s. rows s ≡ T) (insert_entry e >>= k) R E
  unfolding insert_entry is_taken
  after_insert e k down next =
      Triple-bind {Q = λ _ s. rows s ≡ (add_entry e T.0, T.1, T.2)} _ _
        (after_query rows T _ (λ d. is_taken e d.0) _ (λ s. refl)
          (after_raise_if _ _ _ down
            λ free. Triple-Steps _ (Steps-modify (add_entry e) (facts-add_entry e))))
        next
