-- ===== src/Tickets/Policies.antt =====
-- TicketService (app/modules/tickets/service.py): the access zones and access policies of an event.
use event_platform_backend.Prelude.{
  ℕ, Bool, not, ◌&&◌, Option, none, some, List, [], ◌∷◌, String, ◌==◌, select, length, contains_id,
  if◌then◌else◌, ℤ,
}
use event_platform_backend.Models.Tickets.{AccessPolicy, AccessZone}
use event_platform_backend.Session.{
  Action, pure, raise_if, query, lift, modify, uuid4, commit, scalar_one_or_none, ◌>>=◌, ◌>>◌,
}
use event_platform_backend.Session.Errors.{invalid_ticket_state}
use event_platform_backend.Store.{Db, access_policy_key}
use event_platform_backend.Table.{update, add}
use event_platform_backend.Tickets.Care.{policies_of}

abbrev pub add_zone : AccessZone → Db → Db
add_zone z d = record d { access_zones = add z d.access_zones }

abbrev pub add_policy : AccessPolicy → Db → Db
add_policy p d = record d { access_policies = add p d.access_policies }

-- Assignments to the attributes of a policy of the session.
abbrev pub update_policy : ℕ → (AccessPolicy → AccessPolicy) → Db → Db
update_policy i f d = record d { access_policies = update i f d.access_policies }

-- `code` and `name` are the texts after strip().
unfoldable pub create_zone : ℕ → String → String → Bool → Action AccessZone
create_zone event_id code name is_active = do
  id ← uuid4
  let zone_row : AccessZone = record {
    id = id;
    event_id = event_id;
    code = code;
    name = name;
    is_active = is_active;
  }
  modify (add_zone zone_row)
  commit
  pure zone_row

-- The payload of upsert_policy; a date is its isoformat().
pub record PolicyFields : Type 0 where
  pub access_type : String
  pub allowed_zone_ids : List ℕ
  pub allows_reentry : Bool
  pub max_entries : ℤ
  pub valid_from : Option ℕ
  pub valid_until : Option ℕ
  pub valid_dates : Option (List String)

-- [...] if payload.valid_dates else None
abbrev pub dates_or_none : Option (List String) → Option (List String)
dates_or_none none = none
dates_or_none (some []) = none
dates_or_none (some (x ∷ xs)) = some (x ∷ xs)

-- The values of an upsert, written to a row.
abbrev pub with_values : PolicyFields → AccessPolicy → AccessPolicy
with_values f p = record p {
  access_type = f.access_type;
  allowed_zone_ids = f.allowed_zone_ids;
  allows_reentry = f.allows_reentry;
  max_entries = f.max_entries;
  valid_from = f.valid_from;
  valid_until = f.valid_until;
  valid_dates = dates_or_none f.valid_dates;
}

abbrev pub new_policy : ℕ → ℕ → PolicyFields → AccessPolicy
new_policy id event_id f = record {
  id = id;
  event_id = event_id;
  access_type = f.access_type;
  allowed_zone_ids = f.allowed_zone_ids;
  allows_reentry = f.allows_reentry;
  max_entries = f.max_entries;
  valid_from = f.valid_from;
  valid_until = f.valid_until;
  valid_dates = dates_or_none f.valid_dates;
}

-- len(set(ids))
abbrev pub distinct_count : List ℕ → ℕ
distinct_count ids = length (distinct ids)
  where
    distinct : List ℕ → List ℕ
    distinct [] = []
    distinct (x ∷ xs) = let rest = distinct xs in if contains_id xs x then rest else x ∷ rest

-- The active zones of the event among those that the payload names.
unfoldable usable_zones : ℕ → List ℕ → Db → List AccessZone
usable_zones event_id ids d =
    select (λ z. z.event_id == event_id && contains_id ids z.id && z.is_active) d.access_zones

-- if payload.allowed_zone_ids: for an empty list both counts are 0.
unfoldable pub check_zones : ℕ → List ℕ → Action (Unit {0})
unfolding usable_zones
check_zones event_id [] = pure tt
check_zones event_id (x ∷ xs) = do
  zones ← query (usable_zones event_id (x ∷ xs))
  raise_if (not (length zones == distinct_count (x ∷ xs)))
      (invalid_ticket_state "Access policy contains an inactive or cross-event zone.")

unfoldable pub store_policy : ℕ → PolicyFields → Option AccessPolicy → Action AccessPolicy
store_policy event_id fields none = do
  id ← uuid4
  modify (add_policy (new_policy id event_id fields))
  commit
  pure (new_policy id event_id fields)
store_policy event_id fields (some p) = do
  modify (update_policy p.id (with_values fields))
  commit
  pure (with_values fields p)

unfoldable pub upsert_policy : ℕ → PolicyFields → Action AccessPolicy
unfolding policies_of check_zones store_policy
upsert_policy event_id fields = do
  rows ← query (policies_of event_id fields.access_type)
  found ← lift (scalar_one_or_none rows)
  check_zones event_id fields.allowed_zone_ids
  store_policy event_id fields found
