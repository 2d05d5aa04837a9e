-- ===== src/Tickets/Lifecycle.antt =====
-- The requests that change tickets (app/modules/tickets/service.py), in any order, and what they keep
-- true of the tickets.
use event_platform_backend.Prelude.{
  ℕ, ◌≡◌, refl, Bool, true, false, Option, none, some, List, [], ◌∷◌, String,
}
use event_platform_backend.Models.Tickets.{
  Ticket, TicketStatus, CheckIn, BarcodePayload, TicketTransfer, AccessPolicy, AccessZone,
}
use event_platform_backend.Session.{Session, Action, pure, ◌>>◌}
use event_platform_backend.Session.Invariants.{Holds, Safe, Holds-bind, holds_rules}
use event_platform_backend.Store.{Db}
use event_platform_backend.Tickets.Care.{
  revoke_ticket, reassign_ticket, check_out, assign_access_type, replace_ticket, replaced,
  with_policy,
}
use event_platform_backend.Tickets.Counts.{
  Counts, AllCount, Safe-same, count_rules, Counts-check_in,
}
use event_platform_backend.Tickets.Entry.{Scan, check_in}
use event_platform_backend.Tickets.Gate.{get_ticket_or_raise}
use event_platform_backend.Tickets.Issue.{TicketRequest, create_unless, create_ticket}
use event_platform_backend.Tickets.Scanning.{
  OfflineScan, offline_scan, resolve_by_scan_payload, sync_offline_checkins, sign_payload,
}
use event_platform_backend.Tickets.Policies.{
  PolicyFields, add_zone, add_policy, update_policy, create_zone, check_zones, store_policy,
  upsert_policy,
}
use event_platform_backend.Tickets.Transfers.{
  add_transfer, update_transfer, update_participant, initiate_transfer, hand_participant, hand_over,
  respond_transfer, withdraw, cancel_transfer, cancel_transfer_as_staff,
}

Safe-add_transfer : (t : TicketTransfer) → Safe AllCount (add_transfer t)
Safe-add_transfer t = Safe-same _ λ d. refl

Safe-update_transfer :
    (i : ℕ) (f : TicketTransfer → TicketTransfer) → Safe AllCount (update_transfer i f)
Safe-update_transfer i f = Safe-same _ λ d. refl

module _ (sign : BarcodePayload → String) where
  Counts-create_unless :
      (r : TicketRequest) (o : Option Ticket) → Holds AllCount (create_unless sign r o)
  unfolding create_unless
  Counts-create_unless r (some t) = search holds_rules
  Counts-create_unless r none = search (holds_rules, count_rules) depth 24

  Counts-create_ticket : (r : TicketRequest) → Holds AllCount (create_ticket sign r)
  unfolding create_ticket
  Counts-create_ticket r = search (holds_rules, Counts-create_unless) depth 9

  Counts-replace : (i actor : ℕ) → Holds AllCount (replace_ticket sign i actor)
  unfolding replace_ticket get_ticket_or_raise
  Counts-replace i actor = search (holds_rules, count_rules, replaced-Counts) depth 24
    where
      replaced-Counts : (code : String) (t : Ticket) → Counts t → Counts (replaced sign code t)
      replaced-Counts code t h = refl

Counts-revoke : (i actor : ℕ) → Holds AllCount (revoke_ticket i actor)
unfolding revoke_ticket get_ticket_or_raise
Counts-revoke i actor = search (holds_rules, count_rules, revoked-Counts) depth 24
  where
    revoked-Counts : (t : Ticket) → Counts t → Counts (record t { status = TicketStatus.revoked })
    revoked-Counts t h = tt

held-Counts : (user : ℕ) (t : Ticket) → Counts t → Counts (record t { user_id = user })
held-Counts user t h = h

Counts-reassign : (i user actor : ℕ) → Holds AllCount (reassign_ticket i user actor)
unfolding reassign_ticket get_ticket_or_raise
Counts-reassign i user actor = search (holds_rules, count_rules, held-Counts) depth 24

Counts-check_out : (i actor : ℕ) → Holds AllCount (check_out i actor)
unfolding check_out get_ticket_or_raise
Counts-check_out i actor = search (holds_rules, count_rules) depth 24

Counts-assign :
    (i : ℕ) (type : String) (actor : ℕ) → Holds AllCount (assign_access_type i type actor)
unfolding assign_access_type get_ticket_or_raise
Counts-assign i type actor = search (holds_rules, count_rules, policy-Counts) depth 24
  where
    policy-Counts : (p : AccessPolicy) (t : Ticket) → Counts t → Counts (with_policy p t)
    policy-Counts p t h = h

Counts-initiate : (i actor to : ℕ) → Holds AllCount (initiate_transfer i actor to)
unfolding initiate_transfer
Counts-initiate i actor to = search (holds_rules, count_rules, Safe-add_transfer) depth 30

Counts-hand_participant : (actor : ℕ) (o : Option ℕ) → Holds AllCount (hand_participant actor o)
unfolding hand_participant
Counts-hand_participant actor none = search holds_rules
Counts-hand_participant actor (some i) = search (holds_rules, safe_participant)
  where
    safe_participant : Safe AllCount (update_participant i λ p. record p { user_id = some actor })
    safe_participant = Safe-same _ λ d. refl

Counts-hand_over :
    (accept : Bool) (actor : ℕ) (t : Ticket) → Holds AllCount (hand_over accept actor t)
unfolding hand_over
Counts-hand_over false actor t = search holds_rules
Counts-hand_over true actor t =
    search (holds_rules, count_rules, held-Counts, Counts-hand_participant) depth 9

Counts-respond : (i actor : ℕ) (accept : Bool) → Holds AllCount (respond_transfer i actor accept)
unfolding respond_transfer
Counts-respond i actor accept =
    search (holds_rules, count_rules, Safe-update_transfer, Counts-hand_over) depth 30

Counts-withdraw :
    (t : TicketTransfer) (action : String) (actor : ℕ) → Holds AllCount (withdraw t action actor)
unfolding withdraw
Counts-withdraw t action actor = search (holds_rules, count_rules, Safe-update_transfer) depth 12

Counts-cancel : (i actor : ℕ) → Holds AllCount (cancel_transfer i actor)
unfolding cancel_transfer
Counts-cancel i actor = search (holds_rules, Counts-withdraw) depth 12

Counts-cancel_as_staff :
    (i event actor : ℕ) → Holds AllCount (cancel_transfer_as_staff i event actor)
unfolding cancel_transfer_as_staff
Counts-cancel_as_staff i event actor = search (holds_rules, Counts-withdraw) depth 12

-- The requests.
Counts-create_zone :
    (event : ℕ) (code name : String) (is_active : Bool)
    → Holds AllCount (create_zone event code name is_active)
unfolding create_zone
Counts-create_zone event code name is_active = search (holds_rules, safe_zone) depth 12
  where
    safe_zone : (z : AccessZone) → Safe AllCount (add_zone z)
    safe_zone z = Safe-same _ λ d. refl

Counts-check_zones : (event : ℕ) (ids : List ℕ) → Holds AllCount (check_zones event ids)
unfolding check_zones
Counts-check_zones event [] = search holds_rules
Counts-check_zones event (x ∷ xs) = search holds_rules

Counts-store_policy :
    (event : ℕ) (fields : PolicyFields) (o : Option AccessPolicy)
    → Holds AllCount (store_policy event fields o)
unfolding store_policy
Counts-store_policy event fields none = search (holds_rules, safe_add) depth 12
  where
    safe_add : (p : AccessPolicy) → Safe AllCount (add_policy p)
    safe_add p = Safe-same _ λ d. refl
Counts-store_policy event fields (some p) = search (holds_rules, safe_update) depth 12
  where
    safe_update : (i : ℕ) (f : AccessPolicy → AccessPolicy) → Safe AllCount (update_policy i f)
    safe_update i f = Safe-same _ λ d. refl

Counts-upsert_policy :
    (event : ℕ) (fields : PolicyFields) → Holds AllCount (upsert_policy event fields)
unfolding upsert_policy
Counts-upsert_policy event fields =
    search (holds_rules, Counts-check_zones, Counts-store_policy) depth 12

pub data TicketRequestKind : Type 0 where
  issue : TicketRequest → TicketRequestKind
  scan_in : ℕ → ℕ → Scan → TicketRequestKind
  sync : ℕ → List OfflineScan → TicketRequestKind
  leave revoke replace : ℕ → ℕ → TicketRequestKind
  reassign initiate staff_cancel : ℕ → ℕ → ℕ → TicketRequestKind
  assign : ℕ → String → ℕ → TicketRequestKind
  respond : ℕ → ℕ → Bool → TicketRequestKind
  cancel : ℕ → ℕ → TicketRequestKind
  set_zone : ℕ → String → String → Bool → TicketRequestKind
  set_policy : ℕ → PolicyFields → TicketRequestKind

module _ (hmac : List String → String) (str_id iso_date : ℕ → String) where
  Counts-resolve :
      (parts : List String) (signature : String)
      → Holds AllCount (resolve_by_scan_payload hmac str_id parts signature)
  unfolding resolve_by_scan_payload
  Counts-resolve parts signature = search holds_rules depth 16

  Counts-sync :
      (actor : ℕ) (scans : List OfflineScan) (done : List CheckIn)
      → Holds AllCount (sync_offline_checkins hmac str_id iso_date actor scans done)
  unfolding sync_offline_checkins
  Counts-sync actor [] done = search holds_rules
  Counts-sync actor (s ∷ rest) done = Holds-bind AllCount _ _ (Counts-resolve _ _) λ t.
      Holds-bind AllCount _ _ (Counts-check_in iso_date _ _ (offline_scan s))
        λ c. Counts-sync actor rest _

  abbrev pub perform : TicketRequestKind → Action (Unit {0})
  perform (issue r) = create_ticket (sign_payload hmac str_id) r >> pure tt
  perform (scan_in i actor scan) = check_in iso_date i actor scan >> pure tt
  perform (sync actor scans) = sync_offline_checkins hmac str_id iso_date actor scans [] >> pure tt
  perform (leave i actor) = check_out i actor >> pure tt
  perform (revoke i actor) = revoke_ticket i actor >> pure tt
  perform (replace i actor) = replace_ticket (sign_payload hmac str_id) i actor >> pure tt
  perform (reassign i user actor) = reassign_ticket i user actor >> pure tt
  perform (initiate i actor to) = initiate_transfer i actor to >> pure tt
  perform (staff_cancel i event actor) = cancel_transfer_as_staff i event actor >> pure tt
  perform (assign i type actor) = assign_access_type i type actor >> pure tt
  perform (respond i actor accept) = respond_transfer i actor accept >> pure tt
  perform (cancel i actor) = cancel_transfer i actor >> pure tt
  perform (set_zone event code name is_active) = create_zone event code name is_active >> pure tt
  perform (set_policy event fields) = upsert_policy event fields >> pure tt

  perform-Holds : (r : TicketRequestKind) → Holds AllCount (perform r)
  perform-Holds (issue r) = search (holds_rules, Counts-create_ticket)
  perform-Holds (scan_in i actor scan) = search (holds_rules, Counts-check_in)
  perform-Holds (sync actor scans) = search (holds_rules, Counts-sync)
  perform-Holds (leave i actor) = search (holds_rules, Counts-check_out)
  perform-Holds (revoke i actor) = search (holds_rules, Counts-revoke)
  perform-Holds (replace i actor) = search (holds_rules, Counts-replace)
  perform-Holds (reassign i user actor) = search (holds_rules, Counts-reassign)
  perform-Holds (initiate i actor to) = search (holds_rules, Counts-initiate)
  perform-Holds (staff_cancel i event actor) = search (holds_rules, Counts-cancel_as_staff)
  perform-Holds (assign i type actor) = search (holds_rules, Counts-assign)
  perform-Holds (respond i actor accept) = search (holds_rules, Counts-respond)
  perform-Holds (cancel i actor) = search (holds_rules, Counts-cancel)
  perform-Holds (set_zone event code name is_active) = search (holds_rules, Counts-create_zone)
  perform-Holds (set_policy event fields) = search (holds_rules, Counts-upsert_policy)

  -- A request in a session of its own, which begins with what is stored; the clock and the streams
  -- are arbitrary. `Reachable l` says that requests lead from tables without tickets to `l`.
  pub data Reachable : Db → Type 0 where
    start : (d : Db) → d.tickets ≡ [] → Reachable d
    request :
        (s : Session) (r : TicketRequestKind)
        → Reachable s.durable
        → s.db ≡ s.durable
        → Reachable (perform r s).1.durable

  -- However the requests on tickets follow each other, and whether they succeed or are refused, what is
  -- stored agrees: an active or issued ticket has no entry, a checked-in one has one, a used one has
  -- two or more.
  pub ticket_counts : (l : Db) → Reachable l → AllCount l
  ticket_counts l (start d none_yet) = rw none_yet tt
  ticket_counts l (request s r before fresh) =
      let stored : AllCount s.durable = ticket_counts s.durable before in
      ((perform-Holds r).at s (rw fresh stored, stored)).1
