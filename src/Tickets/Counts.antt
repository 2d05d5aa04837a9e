-- ===== src/Tickets/Counts.antt =====
-- The statuses and the entry counts of the tickets (app/modules/tickets/service.py).
use event_platform_backend.Prelude.{
  ℕ, zero, suc, ◌+◌, ◌≡◌, ◌≤◌, refl, arith, Bool, true, false, Option, none, some, List, [], ◌∷◌,
  String, All, ◌==◌, if◌then◌else◌,
}
use event_platform_backend.Models.Registrations.{Registration}
use event_platform_backend.Models.Tickets.{
  Ticket, TicketStatus, active, issued, used, checked_in, CheckIn, CheckInSource, online, offline,
}
use event_platform_backend.Registrations.Repository.{update_registration}
use event_platform_backend.Session.{write_audit_log}
use event_platform_backend.Session.Invariants.{Holds, Safe, Holds-modify, holds_rules}
use event_platform_backend.Store.{Db, ticket_key}
use event_platform_backend.Table.{update, add}
use event_platform_backend.Tickets.Entry.{
  Scan, entered, find_batch, synced_at, answer_duplicate, record_entry, enter, check_times, admit,
  admit_or_replay, check_in,
}
use event_platform_backend.Tickets.Gate.{add_check_in, update_check_in, get_ticket_or_raise}
use event_platform_backend.Tickets.Repository.{add_ticket, update_ticket}

-- What the status of a ticket says of its entries.
abbrev pub CountsBy : TicketStatus → ℕ → Type 0
CountsBy active n = n ≡ 0
CountsBy issued n = n ≡ 0
CountsBy checked_in n = n ≡ 1
CountsBy used n = 2 ≤ n
CountsBy _ n = Unit

abbrev pub Counts : Ticket → Type 0
Counts t = CountsBy t.status t.entry_count

-- All the tickets of the tables.
abbrev pub AllCount : Db → Type 0
AllCount d = All Counts d.tickets

All-update :
    (i : ℕ) (f : Ticket → Ticket) (ts : List Ticket)
    → ((t : Ticket) → Counts t → Counts (f t))
    → All Counts ts
    → All Counts (update i f ts)
All-update i f [] h p = tt
All-update i f (t ∷ ts) h p = (by_key (t.id == i), All-update i f ts h p.1)
  where
    by_key : (b : Bool) → Counts (if b then f t else t)
    by_key true = h t p.0
    by_key false = p.0

All-add : (t : Ticket) (ts : List Ticket) → Counts t → All Counts ts → All Counts (add t ts)
All-add t [] h p = (h, tt)
All-add t (x ∷ ts) h p = (p.0, All-add t ts h p.1)

pub Safe-update_ticket :
    (i : ℕ) (f : Ticket → Ticket)
    → ((t : Ticket) → Counts t → Counts (f t))
    → Safe AllCount (update_ticket i f)
Safe-update_ticket i f h = record { keeps = λ d p. All-update i f d.tickets h p }

pub Safe-add_ticket : (t : Ticket) → Counts t → Safe AllCount (add_ticket t)
Safe-add_ticket t h = record { keeps = λ d p. All-add t d.tickets h p }

pub Safe-update_registration :
    (i : ℕ) (f : Registration → Registration) → Safe AllCount (update_registration i f)
unfolding update_registration
Safe-update_registration i f = record { keeps = λ d p. p }

pub Safe-add_check_in : (c : CheckIn) → Safe AllCount (add_check_in c)
unfolding add_check_in
Safe-add_check_in c = record { keeps = λ d p. p }

pub Safe-update_check_in : (i : ℕ) (f : CheckIn → CheckIn) → Safe AllCount (update_check_in i f)
unfolding update_check_in
Safe-update_check_in i f = record { keeps = λ d p. p }

pub Safe-same : (f : Db → Db) → ((d : Db) → (f d).tickets ≡ d.tickets) → Safe AllCount f
Safe-same f h = record { keeps = λ d p. rw (h d) p }

pub Counts-audit :
    (t : String) (id : ℕ) (action : String) (actor : Option ℕ)
    → Holds AllCount (write_audit_log t id action actor)
unfolding write_audit_log
Counts-audit t id action actor = Holds-modify AllCount _ (record { keeps = λ d p. p })

-- One more entry: the first makes CHECKED_IN, a later one USED.
pub entered-Counts : (at actor : ℕ) (t : Ticket) → Counts t → Counts (entered at actor t)
entered-Counts at actor t h = by_count t.entry_count
  where
    by_count :
        (n : ℕ) → CountsBy (if n == 0 then TicketStatus.checked_in else TicketStatus.used) (n + 1)
    by_count zero = refl
    by_count (suc n) = ground arith

pub ruleset count_rules = (
  Safe-update_ticket, Safe-add_ticket, Safe-update_registration, Safe-add_check_in,
  Safe-update_check_in, Counts-audit, entered-Counts,
)

Counts-find_batch : (o : Option String) → Holds AllCount (find_batch o)
unfolding find_batch
Counts-find_batch none = search holds_rules
Counts-find_batch (some b) = search holds_rules

Counts-synced_at : (source : CheckInSource) → Holds AllCount (synced_at source)
unfolding synced_at
Counts-synced_at online = search holds_rules
Counts-synced_at offline = search holds_rules

Counts-answer_duplicate :
    (i actor : ℕ) (o : Option CheckIn) → Holds AllCount (answer_duplicate i actor o)
unfolding answer_duplicate
Counts-answer_duplicate i actor none = search holds_rules
Counts-answer_duplicate i actor (some c) = search holds_rules

Counts-record_entry :
    (t : Ticket) (g : Registration) (actor : ℕ) (scan : Scan) (c : CheckIn)
    → Holds AllCount (record_entry t g actor scan c)
unfolding record_entry
Counts-record_entry t g actor scan c = search (holds_rules, count_rules) depth 24

Counts-enter :
    (t : Ticket) (g : Registration) (actor : ℕ) (scan : Scan)
    → Holds AllCount (enter t g actor scan)
unfolding enter
Counts-enter t g actor scan =
    search
      (
        holds_rules, Counts-synced_at, Counts-find_batch, Counts-answer_duplicate,
        Counts-record_entry,
      )
      depth 16

module _ (iso_date : ℕ → String) where
  Counts-check_times : (t : Ticket) → Holds AllCount (check_times iso_date t)
  unfolding check_times
  Counts-check_times t = search holds_rules depth 24

  Counts-admit :
      (t : Ticket) (actor : ℕ) (scan : Scan) → Holds AllCount (admit iso_date t actor scan)
  unfolding admit
  Counts-admit t actor scan = search (holds_rules, Counts-check_times, Counts-enter) depth 30

  Counts-admit_or_replay :
      (t : Ticket) (actor : ℕ) (scan : Scan) (o : Option CheckIn)
      → Holds AllCount (admit_or_replay iso_date t actor scan o)
  unfolding admit_or_replay
  Counts-admit_or_replay t actor scan none = Counts-admit t actor scan
  Counts-admit_or_replay t actor scan (some c) = search holds_rules

  pub Counts-check_in :
      (i actor : ℕ) (scan : Scan) → Holds AllCount (check_in iso_date i actor scan)
  unfolding check_in get_ticket_or_raise
  Counts-check_in i actor scan =
      search (holds_rules, Counts-find_batch, Counts-admit_or_replay) depth 16
