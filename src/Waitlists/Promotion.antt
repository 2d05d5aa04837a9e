-- ===== src/Waitlists/Promotion.antt =====
-- WaitlistService.promote_next: whom it offers a place, for how long, and what else it writes.
use event_platform_backend.Prelude.{
  ℕ, ◌≡◌, ◌≢◌, inl, inr, refl, Option, none, some, String, arith, ap, ℤ, pos, negsuc,
}
use event_platform_backend.Models.Events.{
  Event, EventConfiguration, Details, RawInt, absent, number, not_a_number,
}
use event_platform_backend.Models.Waitlists.{WaitlistEntry}
use event_platform_backend.Store.{Db, waitlist_entry_key}
use event_platform_backend.Table.{IsKeyed}
use event_platform_backend.ConfigEngine.{RegistrationAvailability, opened, limited, full, closed}
use event_platform_backend.ConfigEngine.Availability.{TakesRegistrations}
use event_platform_backend.Session.{Session, ok}
use event_platform_backend.Session.Triples.{
  Triple, Triple-bind, Triple-pure, Triple-raise, Triple-post, Triple-err, Triple-given,
  Triple-some, after-Quiet, after_query, Ends, Ends-ok,
}
use event_platform_backend.Session.Views.{
  Rows, rows, Ignores-rows, after_now, Quiet-capacity_lock, Quiet-audit,
}
use event_platform_backend.Waitlists.Repository.{update_entry}
use event_platform_backend.Waitlists.Service.{
  close_waiting, expire_locked, promote, promotion_timeout, timeout_of, clamp_minutes,
  promotion_minutes,
}
use event_platform_backend.Waitlists.Operations.Promote.{
  next_entry, offer, promote_when, promote_within, promote_next,
}
use event_platform_backend.Waitlists.Identities.{after_change}
use event_platform_backend.Waitlists.Quiet.{Quiet-notify}
use event_platform_backend.Waitlists.Reading.{
  Configured, availability, after_event_config, after_availability,
}
use event_platform_backend.Waitlists.Fifo.{First}
use event_platform_backend.Waitlists.Expiring.{Expires, expire_locked-Triple, First-Expires}
use event_platform_backend.Waitlists.ClosingLoop.{close_waiting-Triple}
use event_platform_backend.Waitlists.Outcomes.{
  in_queue, in_queue-waits, next_entry-First, next_entry-facts, IsOfferLength, Outcome, Promotes,
  Uncommitted,
}

clamp_minutes_lem : (n : ℕ) → IsOfferLength (clamp_minutes n)
clamp_minutes_lem n = (ground arith, ground arith)

module _ (P : Session → Type 0) where
  timeout_of-Triple : (r : RawInt) → Triple P (timeout_of r) (λ m s. IsOfferLength m × P s) P
  unfolding timeout_of
  timeout_of-Triple absent = Triple-pure _ (λ s h. (clamp_minutes_lem promotion_minutes, h))
  timeout_of-Triple (number (pos n)) = Triple-pure _ (λ s h. (clamp_minutes_lem n, h))
  timeout_of-Triple (number (negsuc n)) = Triple-pure _ (λ s h. ((ground arith, ground arith), h))
  timeout_of-Triple not_a_number = Triple-raise _ (λ s h. h)

  promotion_timeout-Triple :
      (details : Option Details)
      → Triple P (promotion_timeout details) (λ m s. IsOfferLength m × P s) P
  unfolding promotion_timeout
  promotion_timeout-Triple none = timeout_of-Triple absent
  promotion_timeout-Triple (some details) =
      timeout_of-Triple details.waitlist_promotion_timeout_minutes

module _ (event_id : ℕ) (k : Option String) (T : Rows) (t : ℕ) (event : Event)
    (config : EventConfiguration) (configured : Configured event_id T.0 event config) where
  -- What the tail of the call makes of the rows `T`.
  Tail : Option WaitlistEntry → Session → Type 0
  Tail o s = (d : Db) × Outcome event_id k t T.0 o d × (rows s ≡ (d, T.1, T.2))

  offer-Triple :
      (o : Option WaitlistEntry)
      → next_entry event_id k T.0 ≡ o
      → IsKeyed T.0.waitlist_entries
      → config.capacity ≢ none
      → TakesRegistrations (availability event_id T.0 event config t)
      → Triple (λ s. rows s ≡ T) (offer config t o) Tail (Uncommitted T)
  unfolding offer Tail
  offer-Triple none found v limited_capacity takes = Triple-pure _ λ s h. (
    T.0,
    inr (
        inl (record {
          event = event;
          config = config;
          configured = configured;
          reason = inr (inr found);
          answer = refl;
          written = refl;
        })),
    h,
  )
  offer-Triple (some entry) found v limited_capacity takes =
      Triple-bind (promotion_timeout config.details) _
        (Triple-err _ (λ s q. ap (λ (x : Rows). x.1) q)
          (promotion_timeout-Triple (λ s. rows s ≡ T) config.details))
        λ minutes. Triple-given _ λ length.
          let T' : Rows = (update_entry entry.id (promote t minutes) T.0, T.1, T.2) in
          after_change T entry.id (promote t minutes) entry _
            (λ taken s h. ap (λ (x : Rows). x.1) h)
            λ _. after-Quiet rows T' _ _ (Quiet-audit rows Ignores-rows _ _ _ _) λ _.
              after-Quiet rows T' _ _ (Quiet-notify rows Ignores-rows _ _) λ _. Triple-pure _ λ s h.
                (
                  T'.0,
                  inl (record {
                    event = event;
                    config = config;
                    configured = configured;
                    limited_capacity = limited_capacity;
                    takes = takes;
                    entry = entry;
                    first = next_entry-First event_id k T.0 entry v found;
                    minutes = minutes;
                    offer_length = length;
                    answer = refl;
                    written = refl;
                  }),
                  h,
                )

  promote_when-Triple :
      (a : RegistrationAvailability)
      → availability event_id T.0 event config t ≡ a
      → IsKeyed T.0.waitlist_entries
      → config.capacity ≢ none
      → Triple (λ s. rows s ≡ T) (promote_when a event_id config t k) Tail (Uncommitted T)
  unfolding promote_when Tail
  promote_when-Triple closed window v limited_capacity =
      Triple-bind (close_waiting event_id) _
        (close_waiting-Triple event_id T _ (λ e sel both s d h. ap (λ (x : Rows). x.1) h) v)
        λ _. Triple-pure _ λ s h. (
          h.0,
          inr (
              inr (record {
                event = event;
                config = config;
                configured = configured;
                window = window;
                answer = refl;
                written = h.1;
              })),
          h.2,
        )
  promote_when-Triple full window v limited_capacity = Triple-pure _ λ s h. (
    T.0,
    inr (
        inl (record {
          event = event;
          config = config;
          configured = configured;
          reason = inr (inl window);
          answer = refl;
          written = refl;
        })),
    h,
  )
  promote_when-Triple opened window v limited_capacity =
      after_query rows T _ (λ d. next_entry event_id k d.0) _ (next_entry-facts event_id k)
        (offer-Triple _ refl v limited_capacity (inl window))
  promote_when-Triple limited window v limited_capacity =
      after_query rows T _ (λ d. next_entry event_id k d.0) _ (next_entry-facts event_id k)
        (offer-Triple _ refl v limited_capacity (inr window))

  promote_within-Triple :
      (capacity : Option ℤ)
      → config.capacity ≡ capacity
      → IsKeyed T.0.waitlist_entries
      → Triple
          (λ s. rows s ≡ T)
          (promote_within event_id event config t k capacity)
          Tail
          (Uncommitted T)
  unfolding promote_within Tail
  promote_within-Triple none unlimited v = Triple-pure _ λ s h. (
    T.0,
    inr (
        inl (record {
          event = event;
          config = config;
          configured = configured;
          reason = inl unlimited;
          answer = refl;
          written = refl;
        })),
    h,
  )
  promote_within-Triple (some capacity) known v =
      after_availability T event_id event config t _
        (promote_when-Triple _ refl v (λ unlimited. cc))

module _ (event_id : ℕ) (k : Option String) (T : Rows) where
  promote_next-Triple :
      IsKeyed T.0.waitlist_entries
      → Triple (λ s. rows s ≡ T) (promote_next event_id k) (Promotes event_id k T) (Uncommitted T)
  unfolding promote_next Tail
  promote_next-Triple v =
      after-Quiet rows T _ _ (Quiet-capacity_lock rows Ignores-rows event_id) λ _.
        after_now T _ λ i.
          let t : ℕ = T.2.clock i in
          Triple-bind (expire_locked t) _
            (expire_locked-Triple t T _ (λ e sel both s d h. ap (λ (x : Rows). x.1) h) v)
            λ _. Triple-some {P = λ d s. Expires t T.0 d × (rows s ≡ (d, T.1, T.2))} _ λ d.
              Triple-given _ λ x.
                let T' : Rows = (d, T.1, T.2) in
                after_event_config T' (λ s h. ap (λ (y : Rows). y.1) h) event_id _
                  λ b configured.
                    Triple-post _ (λ o s y. (i, d, y.0, x, y.1, y.2))
                      (promote_within-Triple event_id k T' t b.0 b.1 configured _ refl x.keyed)

-- A run of promote_next, from a table whose ids differ. The due offers expire first. Then, by the
-- availability of the event after that: if it takes registrations, the entry that is first in the
-- queue, if any, is offered a place; if it is full or of unlimited capacity, nothing more is written;
-- if it is closed, all of the event's waiting entries are closed. Nothing is committed, also when
-- the call raises.
pub promote_next_effect :
    (event_id : ℕ) (k : Option String) (s : Session)
    → IsKeyed s.db.waitlist_entries
    → Ends (Promotes event_id k (rows s)) (Uncommitted (rows s)) (promote_next event_id k s)
promote_next_effect event_id k s v = (promote_next-Triple event_id k (rows s) v).run s refl

some_entry : {A : Type 0} → A → Option A → A
some_entry x none = x
some_entry x (some y) = y

-- An entry that promote_next returns is the promotion, for a minute to a week, of the entry that
-- was first in the queue when the call began, whatever offers expired in between.
pub promote_next_fair :
    (event_id : ℕ) (k : Option String) (s : Session) (e' : WaitlistEntry)
    → IsKeyed s.db.waitlist_entries
    → (promote_next event_id k s).0 ≡ ok (some e')
    → (e : WaitlistEntry) × (t : ℕ) × (m : ℕ) × First (in_queue event_id k) s.db.waitlist_entries e
      × IsOfferLength m
      × (e' ≡ promote t m e)
unfolding some_entry
promote_next_fair event_id k s e' v returned =
    let (i, d, d', x, outcome, same) =
      Ends-ok (Promotes event_id k (rows s)) _ _ _ (promote_next_effect event_id k s v) returned in
    elim outcome [
      | inl o ↦ (
        o.entry,
        s.clock i,
        o.minutes,
        First-Expires _ (s.clock i) (rows s).0 d o.entry (in_queue-waits event_id k) v x o.first,
        o.offer_length,
        ap (some_entry e') o.answer,
      )
      | inr (inl o) ↦ absurd (cc o.answer)
      | inr (inr o) ↦ absurd (cc o.answer)
    ]
