-- ===== src/Registrations/Repository.antt =====
-- app/modules/registrations/repository.py
use event_platform_backend.Prelude.{
  ℕ, ◌&&◌, ◌==◌, count_where, Option, List, String, opt_eq, str_eq, select,
}
use event_platform_backend.Models.Registrations.{Registration, is_active_registration}
use event_platform_backend.Store.{Db, registration_key}
use event_platform_backend.Table.{get, update}

unfoldable pub count_active_for_event : ℕ → Db → ℕ
count_active_for_event event_id d =
    count_where (λ r. r.event_id == event_id && is_active_registration r.status) d.registrations

-- RegistrationRepository.get_by_id
unfoldable pub get_registration : ℕ → Db → Option Registration
get_registration registration_id d = get registration_id d.registrations

-- Assignments to the attributes of a registration of the session.
unfoldable pub update_registration : ℕ → (Registration → Registration) → Db → Db
update_registration registration_id f d = record d {
  registrations = update registration_id f d.registrations;
}

-- The rows of find_duplicate, before scalar_one_or_none.
unfoldable pub find_duplicate : ℕ → ℕ → Option ℕ → String → Db → List Registration
find_duplicate event_id user_id child_id participation_type d =
    select
      (λ r.
        r.event_id == event_id
        && r.user_id == user_id
        && opt_eq r.child_id child_id
        && str_eq r.participation_type participation_type
        && is_active_registration r.status)
      d.registrations
