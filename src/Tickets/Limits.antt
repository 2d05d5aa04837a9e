-- ===== src/Tickets/Limits.antt =====
-- TicketService.check_in (app/modules/tickets/service.py): how often one ticket is let in.
use event_platform_backend.Prelude.{
  ℕ, ◌+◌, ◌≡◌, ◌⊎◌, inl, inr, refl, ap, subst, arith, Bool, true, false, not, ◌&&◌, ◌||◌, Option,
  none, some, String, ℤ, pos, leb_int, reaches,
}
use event_platform_backend.Models.Tickets.{
  Ticket, TicketStatus, AccessPolicy, CheckIn, active, issued, used, checked_in, expired, is_used,
  is_enterable,
}
use event_platform_backend.Session.{Session, ok}
use event_platform_backend.Session.Triples.{Ends}
use event_platform_backend.Session.Views.{facts}
use event_platform_backend.Session.Worlds.{world}
use event_platform_backend.Store.{ticket_key}
use event_platform_backend.Table.Keys.{get-All}
use event_platform_backend.Tickets.Entries.{Entered, Replayed, Stored}
use event_platform_backend.Tickets.Admission.{check_in_effect}
use event_platform_backend.Tickets.Counts.{Counts, CountsBy, AllCount}
use event_platform_backend.Tickets.Entry.{Scan, check_in}
use event_platform_backend.Tickets.Gate.{get_ticket, policy_of, no_reentry}

-- The entry `n` of a ticket under its policy: the first, or one that a policy of re-entry allows.
abbrev pub WithinLimit : Option AccessPolicy → ℕ → Type 0
WithinLimit policy n =
    (n ≡ 1)
    ⊎ ((p : AccessPolicy) × ((policy ≡ some p)
          × (p.allows_reentry ≡ true)
          × (leb_int (pos n) p.max_entries ≡ true)))

reentry :
    (policy : Option AccessPolicy) (count : ℕ)
    → no_reentry policy count ≡ false
    → WithinLimit policy (count + 1)
reentry none count h = absurd (cc h)
reentry (some p) count h =
    inr (p, (refl, allowed p.allows_reentry h, below p.max_entries (room _ h)))
  where
    allowed : (b : Bool) → not b || reaches count p.max_entries ≡ false → b ≡ true
    allowed true h = refl
    allowed false h = absurd (cc h)

    room :
        (b : Bool) → b || reaches count p.max_entries ≡ false → reaches count p.max_entries ≡ false
    room true h = absurd (cc h)
    room false h = h

    below : (m : ℤ) → reaches count m ≡ false → leb_int (pos (count + 1)) m ≡ true
    below m h = ground arith

by_status :
    (status : TicketStatus) (policy : Option AccessPolicy) (count : ℕ)
    → is_enterable status ≡ true
    → is_used status && no_reentry policy count ≡ false
    → CountsBy status count
    → WithinLimit policy (count + 1)
by_status active policy count e u h = inl (ap (λ n. n + 1) h)
by_status issued policy count e u h = inl (ap (λ n. n + 1) h)
by_status used policy count e u h = reentry policy count u
by_status checked_in policy count e u h = reentry policy count u
by_status expired policy count e u h = absurd (cc e)
by_status TicketStatus.cancelled policy count e u h = absurd (cc e)
by_status TicketStatus.revoked policy count e u h = absurd (cc e)

-- Where the stored tickets agree with their entry counts, each accepted check-in is the ticket's first
-- entry, or its access policy allows re-entry and at least that many entries; an answered repetition of
-- an offline operation is no new entry.
pub check_in-WithinLimit :
    (iso_date : ℕ → String) (ticket_id actor_id : ℕ) (scan : Scan) (s s' : Session) (c : CheckIn)
    → AllCount s.db
    → check_in iso_date ticket_id actor_id scan s ≡ (ok c, s')
    → ((t : Ticket) × ((get_ticket ticket_id (facts s.db) ≡ some t)
          × WithinLimit (policy_of t (facts s.db)) c.entry_number))
      ⊎ Replayed ticket_id actor_id scan (world s) c s'
unfolding get_ticket
check_in-WithinLimit iso_date ticket_id actor_id scan s s' c counts returned = limited (
    subst
      (Ends
        (λ c t.
          Entered iso_date ticket_id actor_id scan (world s) c t
          ⊎ Replayed ticket_id actor_id scan (world s) c t)
        (Stored (world s)))
      returned (check_in_effect iso_date ticket_id actor_id scan s))
  where
    limited :
        Entered iso_date ticket_id actor_id scan (world s) c s'
          ⊎ Replayed ticket_id actor_id scan (world s) c s'
        → ((t : Ticket) × ((get_ticket ticket_id (facts s.db) ≡ some t)
              × WithinLimit (policy_of t (facts s.db)) c.entry_number))
          ⊎ Replayed ticket_id actor_id scan (world s) c s'
    limited (inr again) = inr again
    limited (inl (t, g, i, j, k, n, synced, may, made, unique, same)) = inl (
      t,
      (
        may.found,
        rw (ap (λ (x : CheckIn). x.entry_number) made) (
            by_status t.status (policy_of t (facts s.db)) t.entry_count may.enterable
              may.not_used_up (get-All Counts s.db.tickets ticket_id t counts may.found)),
      ),
    )
