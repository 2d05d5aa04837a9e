-- ===== src/Waitlists/Listing.antt =====
-- WaitlistService.page_manageable (app/modules/waitlists/service.py): whose entries a manager sees.
use event_platform_backend.Prelude.{
  ℕ, ◌≡◌, ◌⊎◌, inl, inr, refl, sym, ap, ◌∙◌, if◌then◌else◌, Bool, true, false, ◌&&◌, Option, none,
  some, List, [], ◌∷◌, arith, select, All, ◌-◌, ◌*◌,
}
use event_platform_backend.Models.Waitlists.{WaitlistEntry}
use event_platform_backend.Store.{Db}
use event_platform_backend.Table.Keys.{All-take, All-drop}
use event_platform_backend.Permissions.{
  user_has_global_role, get_active_assignments, user_scoped_event_ids, managers,
}
use event_platform_backend.Session.{Session}
use event_platform_backend.Session.Triples.{
  Triple, Triple-bind, Triple-pure, Triple-given, after_query, after_guard, Ends,
}
use event_platform_backend.Session.Views.{Rows, rows, facts}
use event_platform_backend.Waitlists.Repository.{PageFilter, passes, matches, waiting_page}
use event_platform_backend.Prelude.{contains_id}
use event_platform_backend.Waitlists.Service.{WaitlistOut, is_global}
use event_platform_backend.Waitlists.Operations.Pages.{manageable_scope, out_each, page_manageable}
use event_platform_backend.Waitlists.Fifo.{All-sort_fifo}
use event_platform_backend.Waitlists.Quiet.{out-Triple}

-- An entry that the actor may see in the listing.
abbrev pub IsManageable : ℕ → Db → WaitlistEntry → Type 0
IsManageable actor_id d e =
    (is_global actor_id d ≡ true)
    ⊎ (contains_id (user_scoped_event_ids actor_id managers d) e.event_id ≡ true)

first_true : (a b c d e g : Bool) → a && b && c && d && e && g ≡ true → a ≡ true
first_true a b c d e g h = ground arith

All-if :
    (P : WaitlistEntry → Type 0) (b : Bool) (x : WaitlistEntry) (rest : List WaitlistEntry)
    → (b ≡ true → P x)
    → All P rest
    → All P (if b then x ∷ rest else rest)
All-if P true x rest h k = (h refl, k)
All-if P false x rest h k = k

module _ (actor_id : ℕ) (T : Rows) where
  out_each-Triple :
      (es : List WaitlistEntry)
      → All (IsManageable actor_id T.0) es
      → Triple
          (λ s. rows s ≡ T)
          (out_each es)
          (λ os s. All (λ (o : WaitlistOut). IsManageable actor_id T.0 o.entry) os × (rows s ≡ T))
          (λ s. rows s ≡ T)
  unfolding out_each
  out_each-Triple [] h = Triple-pure _ (λ s same. (tt, same))
  out_each-Triple (e ∷ es) h = Triple-bind _ _ (out-Triple e T _) λ o. Triple-given _ λ made.
      Triple-bind _ _ (out_each-Triple es h.1)
        λ os. Triple-given _ λ rest. Triple-pure _ λ s same. ((rw made h.0, rest), same)

  -- The scope of the listing.
  abbrev IsScope : Option (List ℕ) → Type 0
  IsScope scope =
      ((is_global actor_id T.0 ≡ true) × (scope ≡ none))
      ⊎ (scope ≡ some (user_scoped_event_ids actor_id managers T.0))

  manageable_scope-Triple :
      (b : Bool) (o : Option ℕ)
      → is_global actor_id T.0 ≡ b
      → Triple
          (λ s. rows s ≡ T)
          (manageable_scope b o (user_scoped_event_ids actor_id managers T.0))
          (λ scope s. IsScope scope × (rows s ≡ T))
          (λ s. rows s ≡ T)
  unfolding manageable_scope
  manageable_scope-Triple true o everywhere = Triple-pure _ (λ s h. (inl (everywhere, refl), h))
  manageable_scope-Triple false none everywhere = Triple-pure _ (λ s h. (inr refl, h))
  manageable_scope-Triple false (some e) everywhere =
      after_guard (λ s h. h) _ _ _ λ inside. Triple-pure _ (λ s h. (inr refl, h))

  scoped : PageFilter → Option (List ℕ) → PageFilter
  scoped f scope = record f { event_ids = scope; user_id = none }

  matches-IsManageable :
      (f : PageFilter) (scope : Option (List ℕ)) (e : WaitlistEntry)
      → IsScope scope
      → matches (scoped f scope) e ≡ true
      → IsManageable actor_id T.0 e
  unfolding scoped
  matches-IsManageable f scope e (inl g) m = inl g.0
  matches-IsManageable f scope e (inr g) m =
      inr
        (sym (ap (λ o. passes o (λ ids. contains_id ids e.event_id)) g) ∙ first_true _ _ _ _ _ _ m)

  select-IsManageable :
      (f : PageFilter) (scope : Option (List ℕ)) (rs : List WaitlistEntry)
      → IsScope scope
      → All (IsManageable actor_id T.0) (select (matches (scoped f scope)) rs)
  select-IsManageable f scope [] k = tt
  select-IsManageable f scope (x ∷ rs) k =
      All-if (IsManageable actor_id T.0) _ x _ (matches-IsManageable f scope x k)
        (select-IsManageable f scope rs k)

  page-Triple :
      (f : PageFilter) (page page_size : ℕ)
      → Triple
          (λ s. rows s ≡ T)
          (page_manageable actor_id f page page_size)
          (λ r s. All (λ (o : WaitlistOut). IsManageable actor_id T.0 o.entry) r.0 × (rows s ≡ T))
          (λ s. rows s ≡ T)
  unfolding page_manageable waiting_page is_global user_has_global_role user_scoped_event_ids
      get_active_assignments scoped
  page-Triple f page page_size =
      after_query rows T _ (λ d. is_global actor_id d.0) _ (λ s. refl)
        (after_query rows T _ (λ d. user_scoped_event_ids actor_id managers d.0) _ (λ s. refl)
          (Triple-bind _ _ (manageable_scope-Triple _ f.event_id refl) λ scope. Triple-given _ λ k.
            after_query rows T _ (λ d. waiting_page (scoped f scope) page page_size d.0) _
              (λ s. refl)
              (Triple-bind _ _
                (out_each-Triple _ (
                  All-take (IsManageable actor_id T.0) page_size _ (
                    All-drop (IsManageable actor_id T.0) ((page - 1) * page_size) _ (
                      All-sort_fifo (IsManageable actor_id T.0) _
                        (select-IsManageable f scope T.0.waitlist_entries k)))))
                λ os. Triple-given _ λ h. Triple-pure _ (λ s same. (h, same)))))

-- page_manageable shows a manager entries of the managed events only, whatever the filter asks for,
-- and to everyone else but a platform administrator nothing; it writes nothing.
pub page_manageable_scope :
    (actor_id : ℕ) (f : PageFilter) (page page_size : ℕ) (s : Session)
    → Ends
        (λ r t.
          All (λ (o : WaitlistOut). IsManageable actor_id (facts s.db) o.entry) r.0
          × (rows t ≡ rows s))
        (λ t. rows t ≡ rows s)
        (page_manageable actor_id f page page_size s)
page_manageable_scope actor_id f page page_size s =
    (page-Triple actor_id (rows s) f page page_size).run s refl
