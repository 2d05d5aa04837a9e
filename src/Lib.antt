-- ===== src/Lib.antt =====
-- The event platform's backend, in the part that decides who gets a seat.
--
-- Parts and files (paths are the repository's):
--   Models, Store, Table   the rows of app/modules/*/models.py, in tables: a list for each, in the
--                          order of insertion. `get`, `update` and `add` are what SQLAlchemy's get,
--                          attribute assignment and add do on the rows of one session.
--   Session                one request (app/database.py, app/core/concurrency.py, app/core/audit.py):
--                          a service method is an Action, a function from a session to a result and a
--                          session. `db` is what the session sees, `durable` what a commit stored.
--     Frames, Triples, Views, Kept, Stores, Invariants, Checked, Inside, Worlds   the rules by which the proofs follow
--                          a method: actions that leave a view of the session alone, total correctness
--                          of a method, tables and invariants that every outcome of a method keeps.
--   Permissions            app/core/permissions.py.
--   ConfigEngine           app/modules/config_engine/registration_state.py; Rules has the two pure
--                          functions of app/modules/config_engine/service.py, Service its
--                          validate_registration, Configuration the writing and showing of a
--                          configuration, Dates the date of an instant. Availability, Eligibility and
--                          Shown are about these.
--   Notifications          app/modules/notifications/repository.py; Warnings is the warning of
--                          app/modules/notifications/service.py that an event fills up.
--   Events                 the lookups of app/modules/events/repository.py and config_engine. Status is the
--                          status of an event, its reading and deletion in app/modules/events/service.py,
--                          Schedule the checks of its schedule, Calendar the operations on it, Venues those
--                          on its venues, Manager the change of its manager. Bookings,
--                          Checks, Validation, Timetable, Forward and Lifecycle are about these.
--   Guardians              the check of app/modules/guardians/service.py.
--   Tickets                app/modules/tickets/service.py with the queries of repository.py: Issue is
--                          the issue of tickets, Gate the tests of the gate, Entry check_in, Scanning the
--                          resolving and judging of a scanned barcode and the offline batch, Care the
--                          desk's operations, Transfers the transfers between users, Policies the zones
--                          and policies of an event. Durable, Counts,
--                          Lifecycle, Entries, Admission, Limits and Barcodes are about these.
--   Payments               app/modules/payments/service.py: Repository has the queries, Pricing the
--                          price, Initiation the order, Settlement the effect of a processed refund,
--                          Verification the acceptance of a payment, RefundEvents and Webhooks the
--                          provider's events with the inbox, Refunds the request of a refund, Approval its approval,
--                          Reconciliation and Workers the periodic comparison with the provider. Gateway is
--                          the interface of the provider; Razorpay fills it with the client of
--                          app/integrations/payment_gateway_client.py. Requests, Bounds, Durable, Kept,
--                          Inbox, Once, Atomic and Client are about these.
--   Registrations          app/modules/registrations: Repository has the queries, Window the checks of
--                          a new registration with the closing and reopening of an event, Intake the
--                          request and Creation create_registration, Decision approval and rejection,
--                          Cancellation cancel_registration, which calls Payments and Waitlists.
--                          Reopening, Openings, Guards, Atomic, Cancelling, Accepting, Acceptance, Rows, Voiding, Asking,
--                          Outcomes, Closings and Ending are about these; Seats, Seated, Issuing, Filling,
--                          Submitting, Deciding, Releasing, Refunding, Settling, Cancelled and Capacity
--                          are about the capacity of an event.
--   Waitlists              app/modules/waitlists: Repository has the queries, Notices the method
--                          _notify, Service what the methods share, Operations the methods. Quiet,
--                          Identities, Rounds, Fifo, Positions, Reading, Leaving, Joining, Retrying, Closing,
--                          ClosingLoop, Expiring, Outcomes, Promotion, Listing and Durable are about
--                          these.
--   Scenario               rows and sessions for the modules named Tests.
--
-- How code corresponds to the model. A method keeps its name; a method of several parts is a
-- function for each part, composed as the code composes them. `raise` is `err` and leaves the
-- session as it is, which is not rolled back. A UUID is a number, and new ones are drawn from the
-- stream `uuids`; an instant is in microseconds since the year 1, in UTC, and the clock is the
-- stream `clock`, about which nothing is assumed. A JSON value is taken apart by what the code
-- tells apart (RawDate, RawInt). The test registered / capacity >= 0.8 is 4 * capacity <= 5 *
-- registered. Amounts of money are in hundredths, also those of a request, which the code takes with
-- more decimals. A dedupe key, a barcode payload and an error's text are the parts that they are made
-- of. What a search term matches (ILIKE), the order in which
-- Python walks a set, HMAC, the text of a UUID (str_id) and of a date (iso_date), the provider's HTTP
-- service and the rounding of a Numeric column (Platform) are parameters.
--
-- Bounds. The loops of _close_waiting and of leave run on fuel, one round more than the table has
-- rows: a round of the former closes at least one row or is the last, and a round of the latter
-- reads a page of rows that no earlier one read.
--
-- Not modelled: sessions that run at once, other than that an advisory lock is taken where the code
-- takes it; before_value and after_value of the audit log; the delivery of notifications; the
-- qualification of a referral that a check-in starts after its commit, and the notices that a transfer
-- and a change of an event's status send after theirs; the lists and pages of tickets and payments;
-- routers, schemas and the services that no module above names. Of the constraints of the
-- database, the unique ones of a check-in, of a registration and of a waitlist entry and the foreign
-- keys of a configuration and of a form are modelled, with the IntegrityError that they raise.
-- date.today() is taken in UTC. A row keeps the attributes that it was read with, whatever a rollback
-- expires.
pub mod Prelude
pub mod Models
pub mod Table
pub mod Store
pub mod Session
pub mod Permissions
pub mod ConfigEngine
pub mod Events
pub mod Guardians
pub mod Notifications
pub mod Scenario
pub mod Tickets
pub mod Payments
pub mod Registrations
pub mod Waitlists
