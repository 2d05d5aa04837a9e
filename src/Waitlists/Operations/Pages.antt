-- ===== src/Waitlists/Operations/Pages.antt =====
-- WaitlistService.list_mine and page_manageable (app/modules/waitlists/service.py).
use event_platform_backend.Prelude.{ℕ, Bool, true, false, not, Option, none, some, List, [], ◌∷◌}
use event_platform_backend.Models.Waitlists.{WaitlistEntry}
use event_platform_backend.Store.{team_key}
use event_platform_backend.Permissions.{user_scoped_event_ids, managers}
use event_platform_backend.Session.{Action, pure, raise_if, query, ◌>>=◌, ◌>>◌}
use event_platform_backend.Session.Errors.{waitlist_permission}
use event_platform_backend.Waitlists.Repository.{waiting_page, PageFilter, no_filter}
use event_platform_backend.Prelude.{contains_id}
use event_platform_backend.Waitlists.Service.{is_global, WaitlistOut, out}

unfoldable pub out_each : List WaitlistEntry → Action (List WaitlistOut)
out_each [] = pure []
out_each (e ∷ es) = do o ← out e; os ← out_each es; pure (o ∷ os)

unfoldable pub list_mine : ℕ → ℕ → ℕ → Action (List WaitlistOut × ℕ)
unfolding out_each
list_mine actor_id page page_size = do
  found ← query (waiting_page (record no_filter { user_id = some actor_id }) page page_size)
  items ← out_each found.0
  pure (items, found.1)

-- page_manageable, whose scope is None for a platform administrator.
unfoldable pub manageable_scope : Bool → Option ℕ → List ℕ → Action (Option (List ℕ))
manageable_scope true event_id ids = pure none
manageable_scope false none ids = pure (some ids)
manageable_scope false (some e) ids =
    raise_if (not (contains_id ids e))
      (waitlist_permission "You don't have permission to manage this event waitlist.")
    >> pure (some ids)

unfoldable pub page_manageable : ℕ → PageFilter → ℕ → ℕ → Action (List WaitlistOut × ℕ)
unfolding manageable_scope out_each
page_manageable actor_id f page page_size = do
  everywhere ← query (is_global actor_id)
  ids ← query (user_scoped_event_ids actor_id managers)
  scope ← manageable_scope everywhere f.event_id ids
  found ← query (waiting_page (record f { event_ids = scope; user_id = none }) page page_size)
  items ← out_each found.0
  pure (items, found.1)
