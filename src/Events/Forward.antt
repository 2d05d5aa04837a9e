-- ===== src/Events/Forward.antt =====
-- The status machine of an event (ALLOWED_TRANSITIONS in app/modules/events/models.py) under the
-- operations on events.
use event_platform_backend.Prelude.{
  ℕ, ◌≡◌, ◌≤◌, refl, sym, ap, subst, ◌∙◌, true, Option, none, some, arith, ◌==◌, if◌then◌else◌,
  Bool-cases, inl, inr, ==_refl,
}
use event_platform_backend.Events.{get_event, not_deleted}
use event_platform_backend.Events.Status.{allowed}
use event_platform_backend.Models.Events.{
  Event, EventStatus, draft, configured, published, registration_open, registration_closed, live,
  completed, archived,
}
use event_platform_backend.Registrations.Window.{update_event, with_status}
use event_platform_backend.Store.{Db, event_key}
use event_platform_backend.Table.{get}
use event_platform_backend.Table.Laws.{get-update, on_some, key-get}

-- The phases of an event: within one it can go back and forth.
abbrev pub phase : EventStatus → ℕ
phase draft = 0
phase configured = 0
phase published = 1
phase registration_open = 2
phase registration_closed = 2
phase live = 3
phase completed = 4
phase archived = 5

pub allowed-phase : (a b : EventStatus) → allowed a b ≡ true → phase a ≤ phase b
allowed-phase draft b h = ground arith
allowed-phase configured b h = ground arith
allowed-phase published b h = grind arith
allowed-phase registration_open b h = grind arith
allowed-phase registration_closed b h = ground arith
allowed-phase live b h = ground arith
allowed-phase completed b h = ground arith
allowed-phase archived b h = ground arith

-- The row of an event in phase `n` or a later one.
pub record Reached (n : ℕ) (o : Option Event) : Type 0 where
  pub row : Event
  pub found : o ≡ some row
  pub later : n ≤ phase row.status

-- Every event of `d` is still there in `d'`, in the same phase or a later one.
pub record Forward (d d' : Db) : Type 0 where
  pub at :
      (i : ℕ) (e : Event) → get i d.events ≡ some e → Reached (phase e.status) (get i d'.events)

-- A write to the event with one id that keeps the id and brings the row no phase back.
module _ (d₀ d : Db) (i : ℕ) (f : Event → Event) (keyed : (e : Event) → (f e).id ≡ e.id)
    (on : (e : Event) → get i d.events ≡ some e → phase e.status ≤ phase (f e).status) where
  moved_on :
      (n j : ℕ)
      → Reached n (get j d.events)
      → Reached n (if i == j then on_some f (get j d.events) else get j d.events)
  moved_on n j r = elim (Bool-cases (i == j)) [
    | inl here ↦
        (let same : i ≡ j = ground arith in
          let found : get i d.events ≡ some r.row = ap (λ k. get k d.events) same ∙ r.found in
          let further : phase r.row.status ≤ phase (f r.row).status = on r.row found in
          record {
            row = f r.row;
            found = rw (here, r.found) refl;
            later = ground (arith, r.later);
          })
    | inr away ↦ record { row = r.row; found = rw away r.found; later = r.later }
  ]

  pub update-Forward : Forward d₀ d → Forward d₀ (update_event i f d)
  unfolding update_event
  update-Forward h = record {
    at = λ j e q.
        subst (Reached (phase e.status)) (sym (get-update j i f d.events keyed))
          (moved_on (phase e.status) j (h.at j e q));
  }

-- The row of the event is the one in hand.
pub record Current (event : Event) (d : Db) : Type 0 where
  pub only : (e : Event) → get event.id d.events ≡ some e → e ≡ event

pub found-Current : (i : ℕ) (event : Event) (d : Db) → get_event i d ≡ some event → Current event d
unfolding get_event
found-Current i event d h = record {
  only = λ e q.
      let row : get i d.events ≡ some event = there (get i d.events) h in
      let same : event.id ≡ i = key-get i d.events row in
      let both : some e ≡ some event = sym q ∙ ap (λ k. get k d.events) same ∙ row in cc both;
}
  where
    there : (o : Option Event) → not_deleted o ≡ some event → o ≡ some event
    there none q = q
    there (some e) q = dated e.deleted_at q
      where
        dated :
            (t : Option ℕ)
            → elim t [ none ↦ some e | some u ↦ none ] ≡ some event
            → some e ≡ some event
        dated none q = q
        dated (some u) q = absurd (cc q)

pub closed-Current :
    (event : Event) (status : EventStatus) (d : Db)
    → Current event d
    → Current (with_status status event) (update_event event.id (with_status status) d)
unfolding update_event
closed-Current event status d c = record {
  only = λ e q. moved_row (get event.id d.events) e c.only (
      sym (rw (==_refl event.id) refl)
      ∙ sym (get-update event.id event.id (with_status status) d.events λ x. refl)
      ∙ q);
}
  where
    moved_row :
        (o : Option Event) (e : Event)
        → ((x : Event) → o ≡ some x → x ≡ event)
        → on_some (with_status status) o ≡ some e
        → e ≡ with_status status event
    moved_row none e one q = absurd (cc q)
    moved_row (some x) e one q =
        let same : x ≡ event = one x refl in
        let new : some (with_status status x) ≡ some e = q in
        let back : with_status status x ≡ e = cc new in sym back ∙ ap (with_status status) same
