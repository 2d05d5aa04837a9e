-- ===== src/Tickets/Barcodes.antt =====
-- TicketService._create_ticket and resolve_by_scan_payload (app/modules/tickets/service.py): the barcode
-- that is printed and the one that is scanned.
use event_platform_backend.Prelude.{
  ℕ, ◌≡◌, refl, sym, ap, ◌∙◌, subst, Bool, true, none, List, [], ◌∷◌, String, str_eq, str_eq_iff,
  select,
}
use event_platform_backend.Models.Registrations.{Registration}
use event_platform_backend.Models.Tickets.{Ticket, BarcodePayload}
use event_platform_backend.Registrations.Repository.{update_registration}
use event_platform_backend.Session.{Session, ok, modify, ◌>>=◌}
use event_platform_backend.Session.Frames.{Quiet, Frame-query, Frame-lift}
use event_platform_backend.Session.Triples.{
  Ends, Triple, Triple-pure, Steps, after_step, after-Frame, after-Quiet,
}
use event_platform_backend.Session.Views.{
  Ignores, Quiet-now, Quiet-uuid4, Quiet-token_hex, Quiet-audit,
}
use event_platform_backend.Store.{Db, ticket_key}
use event_platform_backend.Table.{add}
use event_platform_backend.Table.Laws.{select-add}
use event_platform_backend.Tickets.Issue.{
  TicketRequest, existing_tickets, create_unless, create_ticket,
}
use event_platform_backend.Tickets.Repository.{add_ticket}
use event_platform_backend.Tickets.Scanning.{
  payload_parts, sign_payload, tickets_of_code, verify_barcode_payload, resolve_by_scan_payload,
}

abbrev tickets_in : Session → List Ticket
tickets_in s = s.db.tickets

Ignores-tickets_in : Ignores tickets_in
Ignores-tickets_in = record {
  notifications = λ s n. refl;
  audit_logs = λ s n. refl;
  readings = λ s n. refl;
  drawn = λ s n. refl;
  locks = λ s n. refl;
  tokens = λ s n. refl;
}

Steps-add_ticket : (t : Ticket) → Steps tickets_in (add t) (modify (add_ticket t))
unfolding modify
Steps-add_ticket t = record { moves = λ s. refl; returns = λ s. (tt, refl) }

Quiet-update_registration :
    (i : ℕ) (f : Registration → Registration) → Quiet tickets_in (modify (update_registration i f))
unfolding modify update_registration
Quiet-update_registration i f = record { leaves = λ s. refl; returns = λ s. (tt, refl) }

module _ (hmac : List String → String) (str_id : ℕ → String) where
  -- The barcode of the ticket names its code and its event, and is signed.
  abbrev Printed : Ticket → Type 0
  Printed t =
      (t.barcode_payload.ticket_code ≡ t.ticket_code)
      × (t.barcode_payload.event_id ≡ t.event_id)
      × (t.barcode_signature ≡ hmac (payload_parts str_id t.barcode_payload))

  abbrev Issues : List Ticket → Ticket → Session → Type 0
  Issues ts t s = Printed t × (s.db.tickets ≡ add t ts)

  module _ (r : TicketRequest) (ts : List Ticket) where
    create_unless-Triple :
        Triple
          (λ s. tickets_in s ≡ ts)
          (create_unless (sign_payload hmac str_id) r none)
          (Issues ts)
          (λ _. Unit)
    unfolding create_unless sign_payload
    create_unless-Triple =
        after-Quiet tickets_in ts _ _ (Quiet-token_hex tickets_in Ignores-tickets_in) λ token.
          after-Frame tickets_in ts (λ s h. tt) _ _ (Frame-query tickets_in _)
            λ policies.
              after-Frame tickets_in ts (λ s h. tt) _ _ (Frame-lift tickets_in _)
                λ policy.
                  after-Quiet tickets_in ts _ _ (Quiet-now tickets_in Ignores-tickets_in) λ t.
                    after-Quiet tickets_in ts _ _ (Quiet-uuid4 tickets_in Ignores-tickets_in) λ id.
                      after_step tickets_in ts _ _ _ (Steps-add_ticket _) λ _.
                        after-Quiet tickets_in _ _ _ (Quiet-update_registration _ _) λ _.
                          after-Quiet tickets_in _ _ _
                            (Quiet-audit tickets_in Ignores-tickets_in _ _ _ _)
                            λ _. Triple-pure _ λ s h. ((refl, refl, refl), h)

  create_ticket-Issues :
      (r : TicketRequest) (s : Session)
      → existing_tickets r s.db ≡ []
      → Ends (Issues s.db.tickets) (λ _. Unit) (create_ticket (sign_payload hmac str_id) r s)
  unfolding create_ticket ◌>>=◌
  create_ticket-Issues r s none_yet = rw none_yet ((create_unless-Triple r s.db.tickets).run s refl)

  -- What the scan of a printed barcode answers, where the code is the ticket's alone.
  scan-Printed :
      (t : Ticket) (s : Session)
      → Printed t
      → tickets_of_code t.ticket_code s.db ≡ t ∷ []
      → resolve_by_scan_payload hmac str_id
          (payload_parts str_id t.barcode_payload)
          t.barcode_signature
          s
        ≡ (ok t, s)
  unfolding resolve_by_scan_payload verify_barcode_payload ◌>>=◌
  scan-Printed t s (code, event, signed) only =
      let p : BarcodePayload = t.barcode_payload in
      let good : str_eq (hmac (payload_parts str_id p)) t.barcode_signature ≡ true =
        (str_eq_iff _ _).1 (sym signed) in
      let found : tickets_of_code p.ticket_code s.db ≡ t ∷ [] =
        ap (λ x. tickets_of_code x s.db) code ∙ only in
      let same : str_eq (str_id p.event_id) (str_id t.event_id) ≡ true =
        (str_eq_iff _ _).1 (ap str_id event) in
      rw (good, found, same) refl

  only_code :
      (t : Ticket) (d d' : Db)
      → tickets_of_code t.ticket_code d ≡ []
      → d'.tickets ≡ add t d.tickets
      → tickets_of_code t.ticket_code d' ≡ t ∷ []
  unfolding tickets_of_code
  only_code t d d' free added =
      let q : Ticket → Bool = λ x. str_eq x.ticket_code t.ticket_code in
      let own : q t ≡ true = (str_eq_iff t.ticket_code t.ticket_code).1 refl in
      ap (select q) added ∙ select-add q t d.tickets ∙ rw (own, free) refl

-- A new ticket whose code no other ticket has can be scanned: its signed barcode resolves to the ticket
-- itself, and scanning changes nothing.
pub issued_barcode_resolves :
    (hmac : List String → String) (str_id : ℕ → String) (r : TicketRequest) (s s' : Session)
    (t : Ticket)
    → existing_tickets r s.db ≡ []
    → create_ticket (sign_payload hmac str_id) r s ≡ (ok t, s')
    → tickets_of_code t.ticket_code s.db ≡ []
    → resolve_by_scan_payload hmac str_id
        (payload_parts str_id t.barcode_payload)
        t.barcode_signature
        s'
      ≡ (ok t, s')
issued_barcode_resolves hmac str_id r s s' t none_yet created free =
    let (printed, added) : Issues hmac str_id s.db.tickets t s' =
      subst (Ends (Issues hmac str_id s.db.tickets) (λ _. Unit)) created
        (create_ticket-Issues hmac str_id r s none_yet) in
    scan-Printed hmac str_id t s' printed (only_code hmac str_id t s.db s'.db free added)
