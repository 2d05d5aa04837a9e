-- ===== src/Waitlists/Outcomes.antt =====
-- What a run of WaitlistService.promote_next (app/modules/waitlists/service.py) may end in.
use event_platform_backend.Prelude.{
  ℕ, ◌≡◌, ◌≢◌, ◌≤◌, ◌⊎◌, refl, Bool, true, Option, none, some, List, [], ◌∷◌, String, arith, select,
  head?, take,
}
use event_platform_backend.Models.Events.{Event, EventConfiguration}
use event_platform_backend.Models.Waitlists.{WaitlistEntry, is_waiting}
use event_platform_backend.Store.{Db, waitlist_entry_key}
use event_platform_backend.Table.{IsKeyed}
use event_platform_backend.ConfigEngine.{full, closed}
use event_platform_backend.ConfigEngine.Availability.{TakesRegistrations}
use event_platform_backend.Session.{Session}
use event_platform_backend.Session.Views.{Rows, rows, facts}
use event_platform_backend.Waitlists.Repository.{
  matches, waits_for, sort_fifo, waiting_page, next_waiting, update_entry,
}
use event_platform_backend.Waitlists.Service.{promote, waiting_of}
use event_platform_backend.Waitlists.Operations.Promote.{next_entry}
use event_platform_backend.Waitlists.Reading.{Configured, availability}
use event_platform_backend.Waitlists.Fifo.{First, First-selected}
use event_platform_backend.Waitlists.Expiring.{Expires}
use event_platform_backend.Waitlists.ClosingLoop.{Closes}

-- The queue that a call serves: one participation type, or all of the event.
abbrev pub in_queue : ℕ → Option String → WaitlistEntry → Bool
in_queue event_id none = matches (waiting_of event_id)
in_queue event_id (some participation_type) = waits_for event_id participation_type

pub in_queue-waits :
    (event_id : ℕ) (k : Option String) (e : WaitlistEntry)
    → in_queue event_id k e ≡ true
    → is_waiting e.status ≡ true
in_queue-waits event_id none e h = ground arith
in_queue-waits event_id (some participation_type) e h = ground arith

pub next_entry-First :
    (event_id : ℕ) (k : Option String) (d : Db) (e : WaitlistEntry)
    → IsKeyed d.waitlist_entries
    → next_entry event_id k d ≡ some e
    → First (in_queue event_id k) d.waitlist_entries e
unfolding next_entry waiting_page next_waiting
next_entry-First event_id none d e v h =
    First-selected (matches (waiting_of event_id)) d.waitlist_entries e v
      (one_row (sort_fifo (select (matches (waiting_of event_id)) d.waitlist_entries)) h)
  where
    one_row : (xs : List WaitlistEntry) → head? (take 1 xs) ≡ some e → head? xs ≡ some e
    one_row [] q = q
    one_row (x ∷ xs) q = q
next_entry-First event_id (some participation_type) d e v h =
    First-selected (waits_for event_id participation_type) d.waitlist_entries e v h

-- The choice is made from the tables that are in view.
pub next_entry-facts :
    (event_id : ℕ) (k : Option String) (s : Session)
    → next_entry event_id k s.db ≡ next_entry event_id k (facts s.db)
unfolding next_entry waiting_page next_waiting
next_entry-facts event_id none s = refl
next_entry-facts event_id (some participation_type) s = refl

-- Length of an offer in minutes: a minute at least, a week at most.
abbrev pub IsOfferLength : ℕ → Type 0
IsOfferLength m = (1 ≤ m) × (m ≤ 10080)

module _ (event_id : ℕ) (k : Option String) where
  -- A place is offered to `e`, out of the tables `d` in which the due offers have expired.
  pub record Offered (t : ℕ) (d : Db) (o : Option WaitlistEntry) (d' : Db) : Type 0 where
    pub event : Event
    pub config : EventConfiguration
    pub configured : Configured event_id d event config
    pub limited_capacity : config.capacity ≢ none
    pub takes : TakesRegistrations (availability event_id d event config t)
    pub entry : WaitlistEntry
    pub first : First (in_queue event_id k) d.waitlist_entries entry
    pub minutes : ℕ
    pub offer_length : IsOfferLength minutes
    pub answer : o ≡ some (promote t minutes entry)
    pub written : d' ≡ update_entry entry.id (promote t minutes) d

  -- Nothing is offered, for one of three reasons.
  pub record Withheld (t : ℕ) (d : Db) (o : Option WaitlistEntry) (d' : Db) : Type 0 where
    pub event : Event
    pub config : EventConfiguration
    pub configured : Configured event_id d event config
    pub reason :
        (config.capacity ≡ none)
        ⊎ (availability event_id d event config t ≡ full)
        ⊎ (next_entry event_id k d ≡ none)
    pub answer : o ≡ none
    pub written : d' ≡ d

  -- The window is closed, and the queue with it.
  pub record Shut (t : ℕ) (d : Db) (o : Option WaitlistEntry) (d' : Db) : Type 0 where
    pub event : Event
    pub config : EventConfiguration
    pub configured : Configured event_id d event config
    pub window : availability event_id d event config t ≡ closed
    pub answer : o ≡ none
    pub written : Closes event_id d d'

  abbrev pub Outcome : ℕ → Db → Option WaitlistEntry → Db → Type 0
  Outcome t d o d' = Offered t d o d' ⊎ Withheld t d o d' ⊎ Shut t d o d'

  abbrev pub Promotes : Rows → Option WaitlistEntry → Session → Type 0
  Promotes T o s =
      (i : ℕ) × (d : Db) × (d' : Db) × Expires (T.2.clock i) T.0 d
      × Outcome (T.2.clock i) d o d'
      × (rows s ≡ (d', T.1, T.2))

-- Nothing was committed since the rows `T`.
abbrev pub Uncommitted : Rows → Session → Type 0
Uncommitted T s = (rows s).1 ≡ T.1
