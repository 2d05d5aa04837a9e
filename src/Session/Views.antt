-- ===== src/Session/Views.antt =====
-- Views of a session that see no notification, no audit entry, no lock and not how often the clock was
-- read: whatever only changes those is quiet for them.
use event_platform_backend.Prelude.{ℕ, ◌+◌, ◌≡◌, refl, ap, List, [], String, Option}
use event_platform_backend.Models.Notifications.{Notification, AuditLog}
use event_platform_backend.Store.{Db}
use event_platform_backend.Session.{
  Session, Action, LockKey, ◌>>=◌, ◌>>◌, pure, modify, now, uuid4, token_hex, commit, query,
  acquire_advisory_lock, acquire_event_capacity_lock, write_audit_log,
}
use event_platform_backend.Session.Frames.{Frame, Quiet, Quiet-Frame}
use event_platform_backend.Session.Triples.{Steps, Triple}

pub record Ignores {V : Type 0} (v : Session → V) : Type 0 where
  pub notifications :
      (s : Session) (n : List Notification)
      → v (record s { db = record s.db { notifications = n } }) ≡ v s
  pub audit_logs :
      (s : Session) (a : List AuditLog) → v (record s { db = record s.db { audit_logs = a } }) ≡ v s
  pub readings : (s : Session) (n : ℕ) → v (record s { readings = n }) ≡ v s
  pub drawn : (s : Session) (n : ℕ) → v (record s { drawn = n }) ≡ v s
  pub tokens : (s : Session) (n : ℕ) → v (record s { tokens_drawn = n }) ≡ v s
  pub locks : (s : Session) (l : List LockKey) → v (record s { locks = l }) ≡ v s

-- The database without what nothing in the modelled code decides by.
abbrev pub facts : Db → Db
facts d = record d { notifications = []; audit_logs = [] }

-- What the environment fixes: the primary keys that are drawn and the readings of the clock.
pub record Streams : Type 0 where
  pub uuids : ℕ → ℕ
  pub clock : ℕ → ℕ

abbrev pub streams : Session → Streams
streams s = record { uuids = s.uuids; clock = s.clock }

-- What the session sees, what lasts, and the streams.
abbrev pub Rows : Type 0
Rows = Db × Db × Streams

abbrev pub rows : Session → Rows
rows s = (facts s.db, facts s.durable, streams s)

abbrev pub lasting : Session → Db
lasting s = s.durable

pub Ignores-rows : Ignores rows
Ignores-rows = record {
  notifications = λ s n. refl;
  audit_logs = λ s n. refl;
  readings = λ s n. refl;
  drawn = λ s n. refl;
  locks = λ s n. refl;
  tokens = λ s n. refl;
}

pub Ignores-lasting : Ignores lasting
Ignores-lasting = record {
  notifications = λ s n. refl;
  audit_logs = λ s n. refl;
  readings = λ s n. refl;
  drawn = λ s n. refl;
  locks = λ s n. refl;
  tokens = λ s n. refl;
}

module _ {V : Type 0} (v : Session → V) (i : Ignores v) where
  pub Quiet-now : Quiet v now
  unfolding now
  Quiet-now = record {
    leaves = λ s. i.readings s (s.readings + 1);
    returns = λ s. (s.clock s.readings, refl);
  }

  pub Quiet-uuid4 : Quiet v uuid4
  unfolding uuid4
  Quiet-uuid4 = record {
    leaves = λ s. i.drawn s (s.drawn + 1);
    returns = λ s. (s.uuids s.drawn, refl);
  }

  pub Quiet-token_hex : Quiet v token_hex
  unfolding token_hex
  Quiet-token_hex = record {
    leaves = λ s. i.tokens s (s.tokens_drawn + 1);
    returns = λ s. (s.tokens s.tokens_drawn, refl);
  }

  pub Quiet-lock : (l : LockKey) → Quiet v (acquire_advisory_lock l)
  unfolding acquire_advisory_lock
  Quiet-lock l = record { leaves = λ s. i.locks s _; returns = λ s. (tt, refl) }

  pub Quiet-capacity_lock : (event_id : ℕ) → Quiet v (acquire_event_capacity_lock event_id)
  unfolding acquire_event_capacity_lock
  Quiet-capacity_lock event_id = record { leaves = λ s. i.locks s _; returns = λ s. (tt, refl) }

  pub Quiet-audit :
      (t : String) (id : ℕ) (action : String) (actor : Option ℕ)
      → Quiet v (write_audit_log t id action actor)
  unfolding write_audit_log
  Quiet-audit t id action actor = record {
    leaves = λ s. i.audit_logs s _;
    returns = λ s. (tt, refl);
  }

-- A write to the tables that are in view.
pub Steps-modify :
    (f : Db → Db)
    → ((d : Db) → facts (f d) ≡ f (facts d))
    → Steps rows (λ T. (f T.0, T.1, T.2)) (modify f)
unfolding modify
Steps-modify f h = record {
  moves = λ s. λ i. (h s.db i, facts s.durable, streams s);
  returns = λ s. (tt, refl);
}

pub Steps-commit : Steps rows (λ T. (T.0, T.0, T.2)) commit
unfolding commit
Steps-commit = record { moves = λ s. refl; returns = λ s. (tt, refl) }

pub Quiet-modify : (f : Db → Db) → Quiet lasting (modify f)
unfolding modify
Quiet-modify f = record { leaves = λ s. refl; returns = λ s. (tt, refl) }

-- What follows the draw of a primary key.
pub after_uuid4 :
    (T : Rows) {B : Type 0} {R : B → Session → Type 0} {E : Session → Type 0} (f : ℕ → Action B)
    → ((n : ℕ) → Triple (λ s. rows s ≡ T) (f (T.2.uuids n)) R E)
    → Triple (λ s. rows s ≡ T) (uuid4 >>= f) R E
unfolding uuid4 ◌>>=◌
after_uuid4 T f k = record {
  run = λ s h.
      let same : s.uuids s.drawn ≡ T.2.uuids s.drawn = ap (λ (x : Rows). x.2.uuids s.drawn) h in
      rw same ((k s.drawn).run (record s { drawn = s.drawn + 1 }) h);
}

-- What follows a reading of the clock.
pub after_now :
    (T : Rows) {B : Type 0} {R : B → Session → Type 0} {E : Session → Type 0} (f : ℕ → Action B)
    → ((i : ℕ) → Triple (λ s. rows s ≡ T) (f (T.2.clock i)) R E)
    → Triple (λ s. rows s ≡ T) (now >>= f) R E
unfolding now ◌>>=◌
after_now T f k = record {
  run = λ s h.
      let same : s.clock s.readings ≡ T.2.clock s.readings =
        ap (λ (x : Rows). x.2.clock s.readings) h in
      rw same ((k s.readings).run (record s { readings = s.readings + 1 }) h);
}

-- The rows and how often the clock was read.
abbrev pub Moment : Type 0
Moment = Rows × ℕ

abbrev pub moment : Session → Moment
moment s = (rows s, s.readings)

-- What follows the next reading of the clock.
pub after_next_now :
    (T : Rows) (n : ℕ) {B : Type 0} {R : B → Session → Type 0} {E : Session → Type 0}
    (f : ℕ → Action B)
    → Triple (λ s. moment s ≡ (T, n + 1)) (f (T.2.clock n)) R E
    → Triple (λ s. moment s ≡ (T, n)) (now >>= f) R E
unfolding now ◌>>=◌
after_next_now T n f k = record {
  run = λ s h.
      let same : s.clock s.readings ≡ T.2.clock n = ap (λ (x : Moment). x.0.2.clock x.1) h in
      rw same
        (k.run (record s { readings = s.readings + 1 }) (ap (λ (x : Moment). (x.0, x.1 + 1)) h));
}

-- Nothing but a commit changes what lasts.
pub Frame-modify : (f : Db → Db) → Frame lasting (modify f)
Frame-modify f = Quiet-Frame (Quiet-modify f)

pub Frame-now : Frame lasting now
Frame-now = Quiet-Frame (Quiet-now lasting Ignores-lasting)

pub Frame-uuid4 : Frame lasting uuid4
Frame-uuid4 = Quiet-Frame (Quiet-uuid4 lasting Ignores-lasting)

pub Frame-token_hex : Frame lasting token_hex
Frame-token_hex = Quiet-Frame (Quiet-token_hex lasting Ignores-lasting)

pub Frame-lock : (l : LockKey) → Frame lasting (acquire_advisory_lock l)
Frame-lock l = Quiet-Frame (Quiet-lock lasting Ignores-lasting l)

pub Frame-capacity_lock : (event_id : ℕ) → Frame lasting (acquire_event_capacity_lock event_id)
Frame-capacity_lock event_id = Quiet-Frame (Quiet-capacity_lock lasting Ignores-lasting event_id)

pub Frame-audit :
    (t : String) (id : ℕ) (action : String) (actor : Option ℕ)
    → Frame lasting (write_audit_log t id action actor)
Frame-audit t id action actor = Quiet-Frame (Quiet-audit lasting Ignores-lasting t id action actor)

pub ruleset durable_rules = (
  Frame-modify, Frame-now, Frame-uuid4, Frame-token_hex, Frame-lock, Frame-capacity_lock,
  Frame-audit,
)

-- Everything that the session wrote is stored.
abbrev pub Committed : Session → Type 0
Committed s = s.durable ≡ s.db

module _ {A : Type 0} (E : Session → Type 0) where
  -- A commit and a last query.
  pub commit-Triple :
      {P : Session → Type 0} (q : Db → A) → Triple P (commit >> query q) (λ _. Committed) E
  unfolding commit ◌>>=◌
  commit-Triple q = record { run = λ s h. refl }

  pub commit-pure-Triple :
      {P : Session → Type 0} (a : A) → Triple P (commit >> pure a) (λ _. Committed) E
  unfolding commit ◌>>=◌
  commit-pure-Triple a = record { run = λ s h. refl }

-- The tables as seen and as stored.
abbrev pub tables : Session → Db × Db
tables s = (s.db, s.durable)

pub Quiet-tables-lock : (event_id : ℕ) → Quiet tables (acquire_event_capacity_lock event_id)
unfolding acquire_event_capacity_lock
Quiet-tables-lock event_id = record { leaves = λ s. refl; returns = λ s. (tt, refl) }
