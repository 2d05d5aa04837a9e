-- ===== src/Registrations/Seats.antt =====
-- The seats that the registrations of an event take, and what a write to a registration does to them
-- (app/modules/registrations/repository.py, count_active_for_event).
use event_platform_backend.Prelude.{
  ℕ, ◌+◌, ◌≡◌, ◌≤◌, Bool, true, false, ◌&&◌, ◌==◌, Option, none, some, ◌⊎◌, inl, inr, refl, arith,
  ℤ, pos, negsuc, count_where, Bool-cases, Option-cases, List, [], subst,
}
use event_platform_backend.ConfigEngine.Availability.{SeatsLeft}
use event_platform_backend.Events.{get_configuration}
use event_platform_backend.Models.Events.{EventConfiguration}
use event_platform_backend.Models.Registrations.{Registration, is_active_registration}
use event_platform_backend.Registrations.Creation.{add_registration}
use event_platform_backend.Registrations.Repository.{count_active_for_event, update_registration}
use event_platform_backend.Store.{Db, registration_key, configuration_key}
use event_platform_backend.Table.{get, update, add, IsKeyed}
use event_platform_backend.Table.Laws.{
  bit, KeepsKey, count_where-update, count_where-update-none, count_where-add, update-IsKeyed,
  add-IsKeyed,
}

-- Not more than the capacity, which admits nobody where it is negative.
abbrev pub Fits : Option ℤ → ℕ → Type 0
Fits none n = Unit
Fits (some (pos c)) n = n ≤ c
Fits (some (negsuc c)) n = n ≡ 0

-- Registrations have different ids, and the active ones of an event fit into its capacity.
pub record WithinCapacity (d : Db) : Type 0 where
  pub keyed : IsKeyed d.registrations
  pub within :
      (event_id : ℕ) (c : EventConfiguration)
      → get_configuration event_id d ≡ some c
      → Fits c.capacity (count_active_for_event event_id d)

-- The event has a seat left, if it has a configuration.
abbrev pub Room : ℕ → Db → Type 0
Room event_id d =
    (c : EventConfiguration)
    → get_configuration event_id d ≡ some c
    → SeatsLeft c.capacity (count_active_for_event event_id d)

abbrev is_seat : ℕ → Registration → Bool
is_seat event_id r = r.event_id == event_id && is_active_registration r.status

fewer : (capacity : Option ℤ) (m n : ℕ) → m ≤ n → Fits capacity n → Fits capacity m
fewer capacity m n h f = ground arith

one_more : (capacity : Option ℤ) (n : ℕ) → SeatsLeft capacity n → Fits capacity (n + 1)
one_more capacity n h = ground arith

-- `f` makes no inactive registration active.
abbrev pub NoRevival : (Registration → Registration) → Registration → Type 0
NoRevival f g = is_active_registration (f g).status ≡ true → is_active_registration g.status ≡ true

seats_le :
    (event_id i : ℕ) (f : Registration → Registration) (t : List Registration)
    → ((g : Registration) → (f g).event_id ≡ g.event_id)
    → ((g : Registration) → get i t ≡ some g → NoRevival f g)
    → IsKeyed t
    → count_where (is_seat event_id) (update i f t) ≤ count_where (is_seat event_id) t
seats_le event_id i f t same no_revival v = elim (Option-cases (get i t)) [
  | inl e ↦ rw (count_where-update-none (is_seat event_id) i f t e) (omega arith)
  | inr (g, e) ↦
      (let moved : _ = count_where-update (is_seat event_id) i f t {e = g} v e in
        let less : bit (is_seat event_id (f g)) ≤ bit (is_seat event_id g) =
          rw (same g) (ground (arith, no_revival g e)) in
        omega (arith, moved, less))
]

pub update-WithinCapacity :
    (i : ℕ) (f : Registration → Registration) (d : Db)
    → KeepsKey f
    → ((g : Registration) → (f g).event_id ≡ g.event_id)
    → ((g : Registration) → get i d.registrations ≡ some g → NoRevival f g)
    → WithinCapacity d
    → WithinCapacity (update_registration i f d)
unfolding update_registration get_configuration count_active_for_event
update-WithinCapacity i f d keeps same no_revival h = record {
  keyed = update-IsKeyed i f d.registrations keeps h.keyed;
  within = λ event_id c found.
      fewer c.capacity _ _ (seats_le event_id i f d.registrations same no_revival h.keyed)
        (h.within event_id c found);
}

pub add-WithinCapacity :
    (g : Registration) (d : Db)
    → get g.id d.registrations ≡ none
    → Room g.event_id d
    → WithinCapacity d
    → WithinCapacity (add_registration g d)
unfolding add_registration get_configuration count_active_for_event
add-WithinCapacity g d free room h = record {
  keyed = add-IsKeyed g d.registrations free h.keyed;
  within = λ event_id c found. counted event_id c found (Bool-cases (g.event_id == event_id));
}
  where
    counted :
        (event_id : ℕ) (c : EventConfiguration)
        → get event_id d.configurations ≡ some c
        → ((g.event_id == event_id) ≡ true) ⊎ ((g.event_id == event_id) ≡ false)
        → Fits c.capacity (count_where (is_seat event_id) (add g d.registrations))
    counted event_id c found (inl here) =
        let added : _ = count_where-add (is_seat event_id) g d.registrations in
        let same : g.event_id ≡ event_id = ground arith in
        let left : SeatsLeft c.capacity (count_where (is_seat event_id) d.registrations) =
          subst
            (λ e.
              get e d.configurations ≡ some c
              → SeatsLeft c.capacity (count_where (is_seat e) d.registrations))
            same (room c) found in
        let one : bit (is_seat event_id g) ≤ 1 = ground arith in
        fewer c.capacity _ _ (omega (arith, added, one)) (one_more c.capacity _ left)
    counted event_id c found (inr away) =
        let added : _ = count_where-add (is_seat event_id) g d.registrations in
        let none : bit (is_seat event_id g) ≡ 0 = rw away refl in
        fewer c.capacity _ _ (omega (arith, added, none)) (h.within event_id c found)

-- Tables without registrations.
pub empty-WithinCapacity : (d : Db) → d.registrations ≡ [] → WithinCapacity d
unfolding count_active_for_event
empty-WithinCapacity d none_yet = record {
  keyed = rw none_yet tt;
  within = λ event_id c found. rw none_yet (nobody c.capacity);
}
  where
    nobody : (capacity : Option ℤ) → Fits capacity 0
    nobody capacity = ground arith
