-- ===== src/Tickets/Admission.antt =====
-- TicketService.check_in (app/modules/tickets/service.py): who is let in, and what that writes.
use event_platform_backend.Prelude.{
  ℕ, ◌≡◌, ◌⊎◌, inl, inr, refl, ap, subst, ◌∙◌, Bool, true, false, Option, none, some, String,
  not-eq_false,
}
use event_platform_backend.Models.Registrations.{Registration}
use event_platform_backend.Models.Tickets.{Ticket, CheckIn}
use event_platform_backend.Registrations.Repository.{get_registration}
use event_platform_backend.Session.{Session, raise_if, or_raise}
use event_platform_backend.Session.Errors.{invalid_ticket_state, ticket_not_found}
use event_platform_backend.Session.Stores.{after_or_raise}
use event_platform_backend.Session.Triples.{
  Ends, Triple, Triple-bind, Triple-pure, Triple-raise, Triple-if, Triple-given, Triple-some,
  after_step, after-Quiet, after_query, after_guard,
}
use event_platform_backend.Session.Views.{Quiet-audit}
use event_platform_backend.Session.Worlds.{
  World, world, Ignores-world, Steps-world-modify, Steps-world-commit, Steps-world-rollback,
  after_reading, after_draw,
}
use event_platform_backend.Store.{ticket_key}
use event_platform_backend.Table.Laws.{key-get}
use event_platform_backend.Tickets.Entry.{
  Scan, is_other_operation, is_over, new_check_in, answer_duplicate, record_entry, enter,
  check_times, admit, admit_or_replay, check_in,
}
use event_platform_backend.Tickets.Gate.{
  get_ticket, get_ticket_or_raise, can_check_in_ticket, policy_of, zone_invalid, before_start,
  after_end, other_day, event_row, end_of, unpaid, violates_unique,
}
use event_platform_backend.Tickets.Entries.{
  InTime, MayEnter, Entered, Stored, Looked, Replayed, stored, Quiet-synced_at, find_batch-Triple,
  facts-add_check_in, facts-update_registration, facts-zone_invalid, facts-unpaid,
  facts-can_check_in_ticket,
}

module _ (iso_date : ℕ → String) (ticket_id actor_id : ℕ) (scan : Scan) (T : World) where
  abbrev Admits : CheckIn → Session → Type 0
  Admits c s =
      Entered iso_date ticket_id actor_id scan T c s ⊎ Replayed ticket_id actor_id scan T c s

  answer_duplicate-Triple :
      (U : World) (o : Option CheckIn)
      → U.1 ≡ T.1
      → Looked scan.offline_batch_id T.1 o
      → Triple (λ s. world s ≡ U) (answer_duplicate ticket_id actor_id o) Admits (Stored T)
  unfolding answer_duplicate
  answer_duplicate-Triple U none same seen = Triple-raise _ λ s h. ap (λ (x : World). x.1) h ∙ same
  answer_duplicate-Triple U (some c) same seen =
      Triple-if _ _ _ (λ other. Triple-raise _ λ s h. ap (λ (x : World). x.1) h ∙ same)
        λ own. Triple-pure c λ s h. inr (own, inr seen, ap (λ (x : World). x.1) h ∙ same)

  enter-Triple :
      (ticket : Ticket) (g : Registration) (i j : ℕ)
      → ticket.id ≡ ticket_id
      → MayEnter iso_date ticket_id actor_id scan T.0 ticket g (T.3 i) (T.3 j)
      → Triple (λ s. world s ≡ T) (enter ticket g actor_id scan) Admits (Stored T)
  unfolding enter record_entry
  enter-Triple ticket g i j named may =
      after-Quiet world T _ _ (Quiet-synced_at scan.source) λ synced. after_draw T _ λ n.
        let c : CheckIn = new_check_in (T.2 n) ticket actor_id scan synced in
        after_query world T _ (λ d. violates_unique c d.0.check_ins) _ (λ s. refl)
          (Triple-if _ _ _
            (λ clash. after_step world T _ _ _ Steps-world-rollback λ _.
              Triple-bind _ _
                (find_batch-Triple scan.offline_batch_id _ (Stored T)
                  (λ s h. ap (λ (x : World). x.1) h))
                λ o. Triple-given _ λ seen. rw named (answer_duplicate-Triple _ o refl seen))
            λ free. after_step world T _ _ _ (Steps-world-modify _ (facts-add_check_in c)) λ _.
              after_reading _ _ λ k.
                after_step world _ _ _ _ (Steps-world-modify _ (λ d. refl)) λ _.
                  after_step world _ _ _ _ (Steps-world-modify _ (facts-update_registration _ _))
                    λ _. after-Quiet world _ _ _ (Quiet-audit world Ignores-world _ _ _ _) λ _.
                      after_step world _ _ _ _ Steps-world-commit λ _.
                        Triple-pure c
                          λ s h. inl (ticket, g, i, j, k, n, synced, may, refl, free, h))

  times-Triple :
      (ticket : Ticket)
      → Triple
          (λ s. world s ≡ T)
          (check_times iso_date ticket)
          (λ _ s.
            (i : ℕ) × ((j : ℕ) × (InTime iso_date ticket T.0 (T.3 i) (T.3 j) × (world s ≡ T))))
          (Stored T)
  unfolding check_times event_row
  times-Triple ticket =
      after_query world T _ (λ d. event_row ticket.event_id d.0) _ (λ s. refl)
        (after_reading T _ λ i. after_guard (stored T) _ _ _ λ not_over. after_reading T _ λ j.
          after_guard (stored T) _ _ _ λ started.
            after_guard (stored T) _ _ _ λ not_ended. last i j not_over started not_ended _ refl)
    where
      last :
          (i j : ℕ)
          → is_over (end_of (event_row ticket.event_id T.0)) (T.3 i) ≡ false
          → before_start ticket.valid_from (T.3 j) ≡ false
          → after_end ticket.valid_until (T.3 j) ≡ false
          → (b : Bool) → other_day ticket.valid_dates (iso_date (T.3 j)) ≡ b
          → Triple
              (λ s. world s ≡ T)
              (raise_if b (invalid_ticket_state "This pass is not valid on this date."))
              (λ _ s.
                (i : ℕ) × ((j : ℕ) × (InTime iso_date ticket T.0 (T.3 i) (T.3 j) × (world s ≡ T))))
              (Stored T)
      last i j not_over started not_ended true on_day = Triple-raise _ (stored T)
      last i j not_over started not_ended false on_day = Triple-pure tt λ s h. (
        i,
        (
          j,
          (
            record {
              not_over = not_over;
              started = started;
              not_ended = not_ended;
              on_day = on_day;
            },
            h,
          ),
        ),
      )

  admit-Triple :
      (ticket : Ticket)
      → ticket.id ≡ ticket_id
      → get_ticket ticket_id T.0 ≡ some ticket
      → can_check_in_ticket actor_id ticket T.0 ≡ true
      → Triple (λ s. world s ≡ T) (admit iso_date ticket actor_id scan) Admits (Stored T)
  unfolding admit policy_of get_registration
  admit-Triple ticket named found staff =
      after_query world T _ (λ d. policy_of ticket d.0) _ (λ s. refl)
        (after_guard (stored T) _ _ _ λ zone_allowed.
          after_query world T _ (λ d. zone_invalid ticket.event_id scan.access_zone_id d.0) _
            (λ s. facts-zone_invalid ticket.event_id scan.access_zone_id s.db)
            (after_guard (stored T) _ _ _ λ zone_valid. after_guard (stored T) _ _ _ λ not_used_up.
              after_guard (stored T) _ _ _ λ enterable. Triple-bind _ _ (times-Triple ticket) λ _.
                Triple-some _ λ i. Triple-some _ λ j. Triple-given _ λ in_time.
                  after_query world T _ (λ d. unpaid ticket.payment_id d.0) _
                    (λ s. facts-unpaid ticket.payment_id s.db)
                    (after_guard (stored T) _ _ _ λ paid.
                      after_query world T _ (λ d. get_registration ticket.registration_id d.0) _
                        (λ s. refl)
                        (after_or_raise (stored T) _ _ _ λ g registered.
                          enter-Triple ticket g i j named (record {
                            found = found;
                            staff = staff;
                            zone_allowed = zone_allowed;
                            zone_valid = zone_valid;
                            not_used_up = not_used_up;
                            enterable = not-eq_false _ enterable;
                            in_time = in_time;
                            paid = paid;
                            registered = registered;
                          })))))

  replay-Triple :
      (ticket : Ticket) (o : Option CheckIn)
      → ticket.id ≡ ticket_id
      → get_ticket ticket_id T.0 ≡ some ticket
      → can_check_in_ticket actor_id ticket T.0 ≡ true
      → Looked scan.offline_batch_id T.0 o
      → Triple
          (λ s. world s ≡ T)
          (admit_or_replay iso_date ticket actor_id scan o)
          Admits
          (Stored T)
  unfolding admit_or_replay
  replay-Triple ticket none named found staff seen = admit-Triple ticket named found staff
  replay-Triple ticket (some c) named found staff seen =
      Triple-if _ _ _ (λ other. Triple-raise _ (stored T))
        λ own. Triple-pure c λ s h.
          inr
            (subst (λ i. is_other_operation i actor_id c ≡ false) named own, inl seen, stored T s h)

  check_in-Triple :
      Triple (λ s. world s ≡ T) (check_in iso_date ticket_id actor_id scan) Admits (Stored T)
  unfolding check_in get_ticket_or_raise get_ticket
  check_in-Triple =
      Triple-bind {Q = λ t s. (get_ticket ticket_id T.0 ≡ some t) × (world s ≡ T)} _ _
        (after_query world T _ (λ d. get_ticket ticket_id d.0) _ (λ s. refl) (row _ refl))
        λ ticket. Triple-given _ λ found.
          after_query world T _ (λ d. can_check_in_ticket actor_id ticket d.0) _
            (λ s. facts-can_check_in_ticket actor_id ticket s.db)
            (after_guard (stored T) _ _ _ λ allowed.
              Triple-bind _ _ (find_batch-Triple scan.offline_batch_id T (Stored T) (stored T)) λ o.
                Triple-given _ λ seen.
                  replay-Triple ticket o (key-get ticket_id T.0.tickets found) found
                    (not-eq_false _ allowed) seen)
    where
      row :
          (o : Option Ticket)
          → get_ticket ticket_id T.0 ≡ o
          → Triple
              (λ s. world s ≡ T)
              (or_raise o (ticket_not_found "Ticket not found."))
              (λ t s. (get_ticket ticket_id T.0 ≡ some t) × (world s ≡ T))
              (Stored T)
      row none found = Triple-raise _ (stored T)
      row (some t) found = Triple-pure t λ s h. (found, h)

-- A check-in that returns has let the ticket in under all the rules of the gate, at readings of the
-- clock, and has stored one new row with the next entry number, the entry on the ticket and the
-- registration as checked in; or it answers an offline operation of the same actor and ticket that
-- was done before, and stores nothing. A check-in that raises stores nothing.
pub check_in_effect :
    (iso_date : ℕ → String) (ticket_id actor_id : ℕ) (scan : Scan) (s : Session)
    → Ends
        (λ c t.
          Entered iso_date ticket_id actor_id scan (world s) c t
          ⊎ Replayed ticket_id actor_id scan (world s) c t)
        (Stored (world s))
        (check_in iso_date ticket_id actor_id scan s)
check_in_effect iso_date ticket_id actor_id scan s =
    (check_in-Triple iso_date ticket_id actor_id scan (world s)).run s refl
