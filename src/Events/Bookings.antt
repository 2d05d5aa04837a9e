-- ===== src/Events/Bookings.antt =====
-- Double bookings of venues and resources (app/modules/events/service.py, _validate_schedule with
-- find_overlapping), and the writes that make none.
use mathlib.Core.List.{Memᴰ}
use event_platform_backend.Prelude.{
  ℕ, ◌≡◌, refl, ap, sym, subst, ◌∙◌, true, false, Option, none, some, [], String, str_eq,
  str_eq_iff, ◌==◌, ltb, inl, inr, ==_refl, Bool-cases, arith, select,
}
use event_platform_backend.Events.{get_event}
use event_platform_backend.Events.Calendar.{add_item, update_item, remove_item}
use event_platform_backend.Events.Schedule.{
  scope_key, is_scoped, is_live_event, ends_after, in_venue, on_resource, is_excluded, is_conflict,
  find_overlapping,
}
use event_platform_backend.Models.Schedule.{ScheduleItem, is_cancelled_item}
use event_platform_backend.Payments.Repository.{opt_str_eq}
use event_platform_backend.Store.{Db, schedule_item_key}
use event_platform_backend.Table.Members.{Memᴰ-add, unselected, Memᴰ-update, Memᴰ-remove}

-- Two different items that are in force, with the same venue and the same resource, at least one of
-- which is given, and that overlap. An item is in force unless it is cancelled or its event is gone.
pub record DoubleBooked (d : Db) (x y : ScheduleItem) : Type 0 where
  pub distinct : (x.id == y.id) ≡ false
  pub live : is_live_event (get_event x.event_id d) ≡ true
  pub live' : is_live_event (get_event y.event_id d) ≡ true
  pub kept : is_cancelled_item x.status ≡ false
  pub kept' : is_cancelled_item y.status ≡ false
  pub scoped : is_scoped x.venue_id (scope_key x.resource_key) ≡ true
  pub same_venue : y.venue_id ≡ x.venue_id
  pub same_resource : scope_key y.resource_key ≡ scope_key x.resource_key
  pub meets : ends_after x.end_time y.start_time ≡ true
  pub met : ends_after y.end_time x.start_time ≡ true

pub swapped : (d : Db) (x y : ScheduleItem) → DoubleBooked d x y → DoubleBooked d y x
swapped d x y b = record {
  distinct = ground (arith, b.distinct);
  live = b.live';
  live' = b.live;
  kept = b.kept';
  kept' = b.kept;
  scoped = rw (b.same_venue, b.same_resource) b.scoped;
  same_venue = sym b.same_venue;
  same_resource = sym b.same_resource;
  meets = b.met;
  met = b.meets;
}

-- No two items of the tables are booked together.
pub record NoDoubleBooking (d : Db) : Type 0 where
  pub apart :
      (x y : ScheduleItem)
      → Memᴰ x d.schedule_items
      → Memᴰ y d.schedule_items
      → DoubleBooked d x y
      → ⊥

venue_in : (v : Option ℕ) (i : ScheduleItem) → i.venue_id ≡ v → in_venue v i ≡ true
venue_in none i e = refl
venue_in (some v) i e = rw e (==_refl v)

resource_on :
    (k : Option String) (i : ScheduleItem) → scope_key i.resource_key ≡ k → on_resource k i ≡ true
resource_on none i e = refl
resource_on (some j) i e = named i.resource_key e
  where
    named : (o : Option String) → scope_key o ≡ some j → opt_str_eq o (some j) ≡ true
    named none h = absurd (cc h)
    named (some t) h = elim (Bool-cases (str_eq t "")) [
      | inl blank ↦ absurd (cc (h, blank))
      | inr given ↦
          (let whole : some t ≡ some j = sym (rw given refl) ∙ h in (str_eq_iff t j).1 (cc whole))
    ]

-- Two items that are booked together are in conflict in the sense of find_overlapping.
conflict :
    (d : Db) (x y : ScheduleItem) (s e : ℕ) (excluded : Option ℕ)
    → x.start_time ≡ s
    → x.end_time ≡ some e
    → is_excluded excluded y ≡ false
    → DoubleBooked d x y
    → is_conflict x.venue_id (scope_key x.resource_key) s e excluded d y ≡ true
unfolding is_conflict
conflict d x y s e excluded starts ends apart b =
    let before : ltb y.start_time e ≡ true =
      sym (ap (λ u. ends_after u y.start_time) ends) ∙ b.meets in
    let after : ends_after y.end_time s ≡ true = sym (ap (ends_after y.end_time) starts) ∙ b.met in
    rw
      (
        b.live',
        b.kept',
        before,
        after,
        apart,
        venue_in x.venue_id y b.same_venue,
        resource_on (scope_key x.resource_key) y b.same_resource,
      )
      refl

-- Where find_overlapping finds nothing for an item, it is booked together with no other.
pub free :
    (d : Db) (x y : ScheduleItem) (s e : ℕ) (excluded : Option ℕ)
    → x.start_time ≡ s
    → x.end_time ≡ some e
    → is_excluded excluded y ≡ false
    → find_overlapping x.venue_id x.resource_key s e excluded d ≡ []
    → Memᴰ y d.schedule_items
    → DoubleBooked d x y
    → ⊥
unfolding find_overlapping
free d x y s e excluded starts ends apart none_found m b =
    let looked : select (is_conflict x.venue_id (scope_key x.resource_key) s e excluded d)
          d.schedule_items
        ≡ [] =
      sym (rw b.scoped refl) ∙ none_found in
    absurd (
      cc
        (conflict d x y s e excluded starts ends apart b, unselected _ y d.schedule_items looked m))

-- No event that is gone in `d` is there in `d'`.
abbrev pub NoneRevived : Db → Db → Type 0
NoneRevived d d' =
    (i : ℕ) → is_live_event (get_event i d') ≡ true → is_live_event (get_event i d) ≡ true

booked_before :
    (d d' : Db) (x y : ScheduleItem) → NoneRevived d d' → DoubleBooked d' x y → DoubleBooked d x y
booked_before d d' x y r b = record {
  distinct = b.distinct;
  live = r x.event_id b.live;
  live' = r y.event_id b.live';
  kept = b.kept;
  kept' = b.kept';
  scoped = b.scoped;
  same_venue = b.same_venue;
  same_resource = b.same_resource;
  meets = b.meets;
  met = b.met;
}

-- A write that leaves the items alone and revives no event.
pub left-NoDoubleBooking :
    (d d' : Db)
    → d'.schedule_items ≡ d.schedule_items
    → NoneRevived d d'
    → NoDoubleBooking d
    → NoDoubleBooking d'
left-NoDoubleBooking d d' same r none_booked = record {
  apart = λ x y mx my b.
      none_booked.apart x y (subst (Memᴰ x) same mx) (subst (Memᴰ y) same my)
        (booked_before d d' x y r b);
}

-- The removal of a row.
pub removed-NoDoubleBooking :
    (i : ℕ) (d : Db) → NoDoubleBooking d → NoDoubleBooking (remove_item i d)
unfolding get_event
removed-NoDoubleBooking i d none_booked = record {
  apart = λ x y mx my b.
      none_booked.apart x y (Memᴰ-remove x i d.schedule_items mx)
        (Memᴰ-remove y i d.schedule_items my) (booked_before d (remove_item i d) x y (λ j h. h) b);
}

-- A new row that is booked together with no old one.
pub added-NoDoubleBooking :
    (new : ScheduleItem) (d : Db)
    → ((y : ScheduleItem) → Memᴰ y d.schedule_items → DoubleBooked d new y → ⊥)
    → NoDoubleBooking d
    → NoDoubleBooking (add_item new d)
unfolding get_event
added-NoDoubleBooking new d apart none_booked = record {
  apart = λ x y mx my b.
      let old : DoubleBooked d x y = booked_before d (add_item new d) x y (λ j h. h) b in
      elim (Memᴰ-add x new d.schedule_items mx) [
        | inl ox ↦ elim (Memᴰ-add y new d.schedule_items my) [
          | inl oy ↦ none_booked.apart x y ox oy old
          | inr e ↦ apart x ox (subst (λ u. DoubleBooked d u x) e (swapped d x y old))
        ]
        | inr e ↦ elim (Memᴰ-add y new d.schedule_items my) [
          | inl oy ↦ apart y oy (subst (λ u. DoubleBooked d u y) e old)
          | inr e' ↦
              (let one : x.id ≡ y.id = ap (λ u. u.id) (e ∙ sym e') in
                let equal : (x.id == y.id) ≡ true = rw one (==_refl y.id) in
                absurd (cc (old.distinct, equal)))
        ]
      ];
}

-- A write to the rows with one id that keeps their id, where no new row is booked with another one.
pub updated-NoDoubleBooking :
    (i : ℕ) (f : ScheduleItem → ScheduleItem) (d : Db)
    → ((z : ScheduleItem) → (f z).id ≡ z.id)
    → ((z y : ScheduleItem)
        → (z.id == i) ≡ true
        → Memᴰ y d.schedule_items
        → (y.id == i) ≡ false
        → DoubleBooked d (f z) y
        → ⊥)
    → NoDoubleBooking d
    → NoDoubleBooking (update_item i f d)
unfolding get_event
updated-NoDoubleBooking i f d same apart none_booked = record {
  apart = λ x y mx my b.
      let old : DoubleBooked d x y = booked_before d (update_item i f d) x y (λ j h. h) b in
      elim (Memᴰ-update x i f d.schedule_items mx) [
        | inl (ox, nx) ↦ elim (Memᴰ-update y i f d.schedule_items my) [
          | inl (oy, ny) ↦ none_booked.apart x y ox oy old
          | inr (z, (oz, (iz, e))) ↦
              apart z x iz ox nx (subst (λ u. DoubleBooked d u x) e (swapped d x y old))
        ]
        | inr (z, (oz, (iz, e))) ↦ elim (Memᴰ-update y i f d.schedule_items my) [
          | inl (oy, ny) ↦ apart z y iz oy ny (subst (λ u. DoubleBooked d u y) e old)
          | inr (w, (ow, (iw, e'))) ↦
              (let ids : z.id ≡ w.id = ground arith in
                let one : x.id ≡ y.id =
                  ap (λ u. u.id) e ∙ same z ∙ ids ∙ sym (ap (λ u. u.id) e' ∙ same w) in
                let equal : (x.id == y.id) ≡ true = rw one (==_refl y.id) in
                absurd (cc (old.distinct, equal)))
        ]
      ];
}
