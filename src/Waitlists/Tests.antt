-- ===== src/Waitlists/Tests.antt =====
-- Runs of the waitlist service at concrete sessions.
use event_platform_backend.Prelude.{All, [], ◌∷◌, ℕ, ◌≡◌, ◌≢◌, ◌⊎◌, ◌<◌, refl, none, some, arith}
use event_platform_backend.Scenario.{sold_out, one_left, ann, bob}
use event_platform_backend.Models.Waitlists.{WaitlistEntry}
use event_platform_backend.Store.{Db, waitlist_entry_key}
use event_platform_backend.Table.{IsKeyed}
use event_platform_backend.Session.{ok, ◌>>=◌}
use event_platform_backend.Session.{acquire_event_capacity_lock, now, modify, write_audit_log}
use event_platform_backend.Events.{get_event, get_configuration}
use event_platform_backend.ConfigEngine.{
  calculate_registration_availability, parse_registration_end_at,
}
use event_platform_backend.Registrations.Repository.{count_active_for_event}
use event_platform_backend.Session.Triples.{Ends}
use event_platform_backend.Session.Views.{rows, facts, streams, Committed}
use event_platform_backend.Waitlists.Repository.{
  no_filter, event_ids_with_waiting, next_waiting, expired_promotions, update_entry, waiting_page,
  waits_for, count_waiting_before, matches, is_taken,
}
use event_platform_backend.Waitlists.Notices.{position, notify}
use event_platform_backend.Waitlists.Service.{
  WaitlistOut, out, close_waiting, waiting_of, change_entry, promote, expire_locked, event_config,
  promotion_timeout,
}
use event_platform_backend.Waitlists.Operations.Pages.{page_manageable, list_mine}
use event_platform_backend.Waitlists.Operations.Leave.{position_rounds}
use event_platform_backend.Waitlists.Rounds.{position_rounds_enough}
use event_platform_backend.Waitlists.Operations.Promote.{promote_next, expire_and_promote}
use event_platform_backend.Waitlists.Listing.{IsManageable, page_manageable_scope}
use event_platform_backend.Waitlists.Expiring.{Blocked}
use event_platform_backend.Waitlists.Durable.{expire_and_promote_atomic}
use event_platform_backend.Waitlists.Fifo.{First, next_waiting-First}
use event_platform_backend.Waitlists.Positions.{
  SameQueue, place_lt, places_differ, next_waiting_place,
}
use event_platform_backend.Waitlists.ClosingLoop.{Closes, close_waiting_effect}
use event_platform_backend.Waitlists.Outcomes.{Promotes, Uncommitted, IsOfferLength, in_queue}
use event_platform_backend.Waitlists.Promotion.{promote_next_effect, promote_next_fair}

stored_entries-IsKeyed : IsKeyed sold_out.db.waitlist_entries
stored_entries-IsKeyed = (refl, (refl, (refl, (refl, tt))))

promote_next_effect_example :
    Ends
      (Promotes 1 none (rows one_left))
      (Uncommitted (rows one_left))
      (promote_next 1 none one_left)
promote_next_effect_example = promote_next_effect 1 none one_left stored_entries-IsKeyed

-- Bob joined first; Col's offer expires on the way.
promote_next_run : (promote_next 1 none one_left).0 ≡ ok (some (promote 200 1440 bob))
unfolding promote_next ◌>>=◌ acquire_event_capacity_lock now expire_locked expired_promotions modify
    write_audit_log notify event_config get_event update_entry get_configuration
    calculate_registration_availability parse_registration_end_at count_active_for_event
    waiting_page promotion_timeout change_entry is_taken
promote_next_run = refl

promote_next_fair_example :
    (e : WaitlistEntry) × (t : ℕ) × (m : ℕ) × First (in_queue 1 none) one_left.db.waitlist_entries e
    × IsOfferLength m
    × (promote 200 1440 bob ≡ promote t m e)
promote_next_fair_example =
    promote_next_fair 1 none one_left (promote 200 1440 bob) stored_entries-IsKeyed promote_next_run

close_waiting_effect_example :
    Ends
      (λ _ u.
        (d : Db) × Closes 1 (facts sold_out.db) d
        × (rows u ≡ (d, facts sold_out.durable, streams sold_out)))
      (Blocked (matches (waiting_of 1)) (rows sold_out))
      (close_waiting 1 sold_out)
close_waiting_effect_example = close_waiting_effect 1 sold_out stored_entries-IsKeyed

next_waiting-First_example : First (waits_for 1 "individual") sold_out.db.waitlist_entries bob
unfolding next_waiting
next_waiting-First_example =
    next_waiting-First 1 "individual" sold_out.db bob stored_entries-IsKeyed refl

ann_and_bob : SameQueue sold_out.db bob ann
ann_and_bob = record {
  a_stored = refl;
  b_stored = refl;
  event = refl;
  kind = refl;
  a_waits = refl;
  b_waits = refl;
}

place_lt_example : 1 < 2
unfolding position count_waiting_before
place_lt_example = place_lt sold_out.db bob ann 1 2 ann_and_bob refl refl refl

places_differ_example : position bob sold_out.db ≢ position ann sold_out.db
places_differ_example = places_differ sold_out.db bob ann ann_and_bob (ground arith)

next_waiting_place_example : position bob sold_out.db ≡ some 1
unfolding next_waiting
next_waiting_place_example =
    next_waiting_place 1 "individual" sold_out.db bob stored_entries-IsKeyed refl

expire_and_promote_atomic_example :
    Ends
      (λ n t. Committed t ⊎ ((n ≡ 0) × (t.durable ≡ one_left.durable)))
      (λ t. t.durable ≡ one_left.durable)
      (expire_and_promote (λ ids. ids) one_left)
expire_and_promote_atomic_example = expire_and_promote_atomic (λ ids. ids) one_left

page_manageable_scope_example :
    Ends
      (λ r t.
        All (λ (o : WaitlistOut). IsManageable 4 (facts sold_out.db) o.entry) r.0
        × (rows t ≡ rows sold_out))
      (λ t. rows t ≡ rows sold_out)
      (page_manageable 4 no_filter 1 25 sold_out)
page_manageable_scope_example = page_manageable_scope 4 no_filter 1 25 sold_out

-- Ann is second in the queue.
list_mine_run : (list_mine 7 1 25 sold_out).0 ≡ ok (record { entry = ann; place = some 2 } ∷ [], 1)
unfolding list_mine waiting_page out position count_waiting_before ◌>>=◌
list_mine_run = refl

event_ids_with_waiting_run : event_ids_with_waiting sold_out.db ≡ 1 ∷ []
unfolding event_ids_with_waiting
event_ids_with_waiting_run = refl

position_rounds_enough_example :
    position_rounds 50 1 "individual" 1 sold_out ≡ position_rounds 5 1 "individual" 1 sold_out
position_rounds_enough_example = position_rounds_enough 1 "individual" 50 sold_out (omega arith)
