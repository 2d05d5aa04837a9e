-- ===== src/Session/Stores.antt =====
-- What commits, rollbacks and attempts do to the tables as seen and as stored.
use event_platform_backend.Prelude.{◌≡◌, refl, ap, Option}
use event_platform_backend.Session.{
  Session, Result, ok, err, Action, lift, modify, commit, rollback, attempt, now, uuid4, or_raise,
  LockKey, acquire_advisory_lock, ◌>>=◌,
}
use event_platform_backend.Prelude.{none, some}
use event_platform_backend.Session.Errors.{Error}
use event_platform_backend.Session.Frames.{Frame, Quiet}
use event_platform_backend.Session.Triples.{Ends, Triple, Steps}
use event_platform_backend.Session.Views.{tables}
use event_platform_backend.Store.{Db}

pub Steps-tables-modify : (f : Db → Db) → Steps tables (λ T. (f T.0, T.1)) (modify f)
unfolding modify
Steps-tables-modify f = record { moves = λ s. refl; returns = λ s. (tt, refl) }

pub Steps-tables-commit : Steps tables (λ T. (T.0, T.0)) commit
unfolding commit
Steps-tables-commit = record { moves = λ s. refl; returns = λ s. (tt, refl) }

pub Quiet-tables-now : Quiet tables now
unfolding now
Quiet-tables-now = record { leaves = λ s. refl; returns = λ s. (s.clock s.readings, refl) }

pub Quiet-tables-uuid4 : Quiet tables uuid4
unfolding uuid4
Quiet-tables-uuid4 = record { leaves = λ s. refl; returns = λ s. (s.uuids s.drawn, refl) }

pub Quiet-tables-key_lock : (l : LockKey) → Quiet tables (acquire_advisory_lock l)
unfolding acquire_advisory_lock
Quiet-tables-key_lock l = record { leaves = λ s. refl; returns = λ s. (tt, refl) }

attempted :
    {A : Type 0} (P E : Session → Type 0) (r : Result A) (s : Session)
    → P s
    → Ends (λ (_ : Result A) t. P t) E (ok r, s)
attempted P E r s h = h

module _ {V : Type 0} (v : Session → V) {A B : Type 0} {P : Session → Type 0} (T : V)
    {R : B → Session → Type 0} {E : Session → Type 0} where
  -- What follows an attempt of an action that leaves a view alone.
  pub after_attempt :
      (m : Action A) (k : Result A → Action B)
      → Frame v m
      → ((s : Session) → P s → v s ≡ T)
      → ((r : Result A) → Triple (λ s. v s ≡ T) (k r) R E)
      → Triple P (attempt m >>= k) R E
  unfolding attempt ◌>>=◌
  after_attempt m k h down next = record {
    run = λ s p. (next (m s).0).run (m s).1 (λ i. after_lem s p i);
  }
    where
      after_lem : (s : Session) → P s → v (m s).1 ≡ T
      after_lem s p = cc (h.at s, down s p)

module _ {A B : Type 0} {P : Session → Type 0} {R : B → Session → Type 0} {E : Session → Type 0}
    (down : (s : Session) → P s → E s) where
  -- What follows a result, or a lookup that raises where it finds nothing.
  pub after_lift :
      (r : Result A) (k : A → Action B)
      → ((a : A) → r ≡ ok a → Triple P (k a) R E)
      → Triple P (lift r >>= k) R E
  unfolding ◌>>=◌
  after_lift (ok a) k h = record { run = (h a refl).run }
  after_lift (err e) k h = record { run = down }

  pub after_or_raise :
      (o : Option A) (e : Error) (k : A → Action B)
      → ((a : A) → o ≡ some a → Triple P (k a) R E)
      → Triple P (or_raise o e >>= k) R E
  unfolding ◌>>=◌
  after_or_raise (some a) e k h = record { run = (h a refl).run }
  after_or_raise none e k h = record { run = down }

module _ {B : Type 0} {P : Session → Type 0} {R : B → Session → Type 0} {E : Session → Type 0} where
  -- What follows a rollback, which keeps only what is stored.
  pub after_rollback :
      (l : Db) (k : Unit {0} → Action B)
      → ((s : Session) → P s → s.durable ≡ l)
      → Triple (λ s. tables s ≡ (l, l)) (k tt) R E
      → Triple P (rollback >>= k) R E
  unfolding rollback ◌>>=◌
  after_rollback l k h next = record {
    run =
        λ s p. next.run (record s { db = s.durable; locks = _ }) (ap (λ (x : Db). (x, x)) (h s p));
  }

module _ {A : Type 0} {P E : Session → Type 0} (down : (s : Session) → P s → E s) where
  -- A result, by what it is.
  pub Triple-lift : (r : Result A) → Triple P (lift r) (λ a s. (r ≡ ok a) × P s) E
  unfolding lift
  Triple-lift (ok a) = record { run = λ s h. (refl, h) }
  Triple-lift (err e) = record { run = down }
