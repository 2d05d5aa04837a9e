-- ===== src/Session.antt =====
-- One request's database session (app/database.py), and the actions that run in it. A service
-- method is an `Action`: it returns or raises, and the session comes back either way. Uncommitted
-- writes are visible in `db` and become `durable` at a commit; the clock and the generator of
-- primary keys are streams that the environment fixes.
pub mod Errors
pub mod Frames
pub mod Triples
pub mod Views
pub mod Kept
pub mod Stores
pub mod Invariants
pub mod Checked
pub mod Inside
pub mod Worlds
use Errors.{Error, multiple_results_found}
use event_platform_backend.Prelude.{
  ℕ, ◌+◌, Bool, Option, none, some, List, [], ◌∷◌, String, if◌then◌else◌,
}
use event_platform_backend.Models.Notifications.{AuditLog}
use event_platform_backend.Store.{Db}
use event_platform_backend.Table.{add}

pub data Result (A : Type 0) : Type 0 where
  ok : A → Result A
  err : Error → Result A

-- The keys of the advisory locks (app/core/concurrency.py).
pub data LockKey : Type 0 where
  registration_capacity ticket_transfer payment_initiation payment_verification refund : ℕ → LockKey
  payment_reconciliation refund_reconciliation : ℕ → LockKey
  payment_webhook resource : String → LockKey
  venue : ℕ → LockKey

pub record Session : Type 0 where
  pub db : Db
  pub durable : Db
  pub locks : List LockKey
  pub clock : ℕ → ℕ
  pub readings : ℕ
  pub uuids : ℕ → ℕ
  pub drawn : ℕ
  pub tokens : ℕ → String
  pub tokens_drawn : ℕ

abbrev pub Action : Type 0 → Type 0
Action A = Session → Result A × Session

module _ {A : Type 0} where
  pub pure : A → Action A
  pure a s = (ok a, s)

  pub raise : Error → Action A
  raise e s = (err e, s)

  pub lift : Result A → Action A
  lift r s = (r, s)

  -- A query: it reads the session's database and changes nothing.
  pub query : (Db → A) → Action A
  query f s = (ok (f s.db), s)

module _ {A B : Type 0} where
  abbrev pub continue : Result A → (A → Action B) → Action B
  continue (ok a) f s = f a s
  continue (err e) f s = (err e, s)

  infixl 5 ◌>>=◌ ◌>>◌
  -- Opening this opens `pure`, `raise`, `lift` and `query` too.
  unfoldable pub ◌>>=◌ : Action A → (A → Action B) → Action B
  unfolding pure raise lift query
  ◌>>=◌ m f s = let (r, s') = m s in continue r f s'

  abbrev pub ◌>>◌ : Action A → Action B → Action B
  m >> n = m >>= λ _. n

-- if condition: raise error
abbrev pub raise_if : Bool → Error → Action (Unit {0})
raise_if c e = if c then raise e else pure tt

abbrev pub or_raise : {A : Type 0} → Option A → Error → Action A
or_raise none e = raise e
or_raise (some a) e = pure a

-- Result.scalar_one_or_none() of SQLAlchemy, on the rows that a query returned.
abbrev pub scalar_one_or_none : {A : Type 0} → List A → Result (Option A)
scalar_one_or_none [] = ok none
scalar_one_or_none (x ∷ []) = ok (some x)
scalar_one_or_none (x ∷ y ∷ r) = err multiple_results_found

-- Writes that stay in the transaction.
unfoldable pub modify : (Db → Db) → Action (Unit {0})
modify f s = (ok tt, record s { db = f s.db })

-- datetime.now(timezone.utc)
unfoldable pub now : Action ℕ
now s = (ok (s.clock s.readings), record s { readings = s.readings + 1 })

-- uuid.uuid4(), drawn when a row is flushed.
unfoldable pub uuid4 : Action ℕ
uuid4 s = (ok (s.uuids s.drawn), record s { drawn = s.drawn + 1 })

-- secrets.token_hex()
unfoldable pub token_hex : Action String
token_hex s = (ok (s.tokens s.tokens_drawn), record s { tokens_drawn = s.tokens_drawn + 1 })

-- await db.commit(): the writes last, and the transaction's advisory locks are released.
unfoldable pub commit : Action (Unit {0})
commit s = (ok tt, record s { durable = s.db; locks = [] })

-- await db.rollback()
unfoldable pub rollback : Action (Unit {0})
rollback s = (ok tt, record s { db = s.durable; locks = [] })

-- try: the result, an exception among them, as a value.
unfoldable pub attempt : {A : Type 0} → Action A → Action (Result A)
attempt m s = let (r, s') = m s in (ok r, s')

-- Blocks until the lock is held; another session's commit or rollback has then released it.
unfoldable pub acquire_advisory_lock : LockKey → Action (Unit {0})
acquire_advisory_lock l s = (ok tt, record s { locks = l ∷ s.locks })

unfoldable pub acquire_event_capacity_lock : ℕ → Action (Unit {0})
unfolding acquire_advisory_lock
acquire_event_capacity_lock event_id = acquire_advisory_lock (registration_capacity event_id)

-- app/core/audit.py
unfoldable pub write_audit_log : String → ℕ → String → Option ℕ → Action (Unit {0})
unfolding modify
write_audit_log entity_type entity_id action actor_user_id = modify λ d. record d {
  audit_logs =
      add
        (record {
          entity_type = entity_type;
          entity_id = entity_id;
          action = action;
          actor_user_id = actor_user_id;
        })
        d.audit_logs;
}
