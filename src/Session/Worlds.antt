-- ===== src/Session/Worlds.antt =====
-- The view of a session that knows the clock too: the tables as seen and as stored, without
-- notifications and audit entries, the stream of the primary keys and the readings of the clock.
use event_platform_backend.Prelude.{ℕ, ◌+◌, ◌≡◌, refl, ap}
use event_platform_backend.Session.{Session, Action, modify, now, uuid4, commit, rollback, ◌>>=◌}
use event_platform_backend.Session.Triples.{Steps, Triple}
use event_platform_backend.Session.Views.{Ignores, facts}
use event_platform_backend.Store.{Db}

abbrev pub World : Type 0
World = Db × Db × (ℕ → ℕ) × (ℕ → ℕ)

abbrev pub world : Session → World
world s = (facts s.db, facts s.durable, s.uuids, s.clock)

pub Ignores-world : Ignores world
Ignores-world = record {
  notifications = λ s n. refl;
  audit_logs = λ s n. refl;
  readings = λ s n. refl;
  drawn = λ s n. refl;
  locks = λ s n. refl;
  tokens = λ s n. refl;
}

pub Steps-world-modify :
    (f : Db → Db)
    → ((d : Db) → facts (f d) ≡ f (facts d))
    → Steps world (λ T. (f T.0, T.1, T.2, T.3)) (modify f)
unfolding modify
Steps-world-modify f h = record {
  moves = λ s. λ i. (h s.db i, facts s.durable, s.uuids, s.clock);
  returns = λ s. (tt, refl);
}

pub Steps-world-commit : Steps world (λ T. (T.0, T.0, T.2, T.3)) commit
unfolding commit
Steps-world-commit = record { moves = λ s. refl; returns = λ s. (tt, refl) }

pub Steps-world-rollback : Steps world (λ T. (T.1, T.1, T.2, T.3)) rollback
unfolding rollback
Steps-world-rollback = record { moves = λ s. refl; returns = λ s. (tt, refl) }

module _ (T : World) {B : Type 0} {R : B → Session → Type 0} {E : Session → Type 0}
    (f : ℕ → Action B) where
  -- What follows a reading of the clock, and the draw of a primary key.
  pub after_reading :
      ((n : ℕ) → Triple (λ s. world s ≡ T) (f (T.3 n)) R E)
      → Triple (λ s. world s ≡ T) (now >>= f) R E
  unfolding now ◌>>=◌
  after_reading k = record {
    run = λ s h.
        let same : s.clock s.readings ≡ T.3 s.readings = ap (λ (x : World). x.3 s.readings) h in
        rw same ((k s.readings).run (record s { readings = s.readings + 1 }) h);
  }

  pub after_draw :
      ((n : ℕ) → Triple (λ s. world s ≡ T) (f (T.2 n)) R E)
      → Triple (λ s. world s ≡ T) (uuid4 >>= f) R E
  unfolding uuid4 ◌>>=◌
  after_draw k = record {
    run = λ s h.
        let same : s.uuids s.drawn ≡ T.2 s.drawn = ap (λ (x : World). x.2 s.drawn) h in
        rw same ((k s.drawn).run (record s { drawn = s.drawn + 1 }) h);
  }
