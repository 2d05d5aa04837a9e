-- ===== src/Session/Checked.antt =====
-- Writes that keep a predicate on the tables because of a test that the action has made before them.
use event_platform_backend.Prelude.{ℕ}
use event_platform_backend.Session.{Result, ok, err, Session, Action, modify, uuid4, ◌>>=◌, ◌>>◌}
use event_platform_backend.Session.Invariants.{Both, Holds}
use event_platform_backend.Session.Triples.{Ends, Triple}
use event_platform_backend.Store.{Db}

module _ (I : Db → Type 0) {A : Type 0} where
  Both-Ends : (r : Result A) (s : Session) → Both I s → Ends (λ _. Both I) (Both I) (r, s)
  Both-Ends (ok a) s p = p
  Both-Ends (err e) s p = p

  Ends-Both : (r : Result A) (s : Session) → Ends (λ _. Both I) (Both I) (r, s) → Both I s
  Ends-Both (ok a) s p = p
  Ends-Both (err e) s p = p

  pub Triple-Holds : {m : Action A} → Holds I m → Triple (Both I) m (λ _. Both I) (Both I)
  Triple-Holds {m = m} h = record { run = λ s p. Both-Ends (m s).0 (m s).1 (h.at s p) }

  pub Holds-Triple : {m : Action A} → Triple (Both I) m (λ _. Both I) (Both I) → Holds I m
  Holds-Triple {m = m} t = record { at = λ s p. Ends-Both (m s).0 (m s).1 (t.run s p) }

  -- A write of a row with a new key, after a test that established `C`.
  pub Triple-new :
      (C : Db → Type 0) (f : ℕ → Db → Db) (m : ℕ → Action A)
      → ((id : ℕ) (d : Db) → I d → C d → I (f id d))
      → ((id : ℕ) → Holds I (m id))
      → Triple
          (λ s. Both I s × C s.db)
          (uuid4 >>= λ id. modify (f id) >> m id)
          (λ _. Both I)
          (Both I)
  unfolding ◌>>=◌ uuid4 modify
  Triple-new C f m keeps h = record {
    run = λ s p. (Triple-Holds (h (s.uuids s.drawn))).run _ (keeps _ s.db p.0.0 p.1, p.0.1);
  }

  -- A write to rows, after a test that established `C`.
  pub Triple-write :
      (C : Db → Type 0) (f : Db → Db) (m : Action A)
      → ((d : Db) → I d → C d → I (f d))
      → Holds I m
      → Triple (λ s. Both I s × C s.db) (modify f >> m) (λ _. Both I) (Both I)
  unfolding ◌>>=◌ modify
  Triple-write C f m keeps h = record {
    run = λ s p. (Triple-Holds h).run _ (keeps s.db p.0.0 p.1, p.0.1);
  }
