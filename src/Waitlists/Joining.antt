-- ===== src/Waitlists/Joining.antt =====
-- WaitlistService.join: what an accepted call writes, and what a refusal leaves behind.
use event_platform_backend.Prelude.{ℕ, ◌≡◌, true, Option, [], String}
use event_platform_backend.Models.Events.{Event, EventConfiguration}
use event_platform_backend.Models.Waitlists.{WaitlistEntry}
use event_platform_backend.Store.{Db}
use event_platform_backend.ConfigEngine.{full}
use event_platform_backend.Session.{Session}
use event_platform_backend.Session.Views.{Rows, rows}
use event_platform_backend.Waitlists.Repository.{Identity, find_active, add_entry}
use event_platform_backend.Waitlists.Notices.{position}
use event_platform_backend.Waitlists.Service.{WaitlistOut}
use event_platform_backend.Waitlists.Operations.Join.{new_entry, enabled}
use event_platform_backend.Waitlists.Reading.{Configured, availability}

module _ (actor_id event_id : ℕ) (participation_type : String) (child_id team_id : Option ℕ) where
  abbrev pub identity : Identity
  identity = record {
    event_id = event_id;
    user_id = actor_id;
    child_id = child_id;
    team_id = team_id;
    participation_type = participation_type;
  }

  -- Why a call may join at the instant `t`.
  pub record MayJoin (d : Db) (t : ℕ) : Type 0 where
    pub event : Event
    pub config : EventConfiguration
    pub configured : Configured event_id d event config
    pub type_enabled : enabled config.participation_types participation_type ≡ true
    pub event_full : availability event_id d event config t ≡ full
    pub not_on_it : find_active identity d ≡ []

  abbrev pub entry_of : ℕ → ℕ → WaitlistEntry
  entry_of id t = new_entry id actor_id event_id participation_type child_id team_id t

  abbrev pub Joined : Rows → WaitlistOut → Session → Type 0
  Joined T o s =
      (i : ℕ) × (n : ℕ) × MayJoin T.0 (T.2.clock i)
      × (let e : WaitlistEntry = entry_of (T.2.uuids n) (T.2.clock i) in
          (o ≡ record { entry = e; place = position e (add_entry e T.0) })
          × (rows s ≡ (add_entry e T.0, add_entry e T.0, T.2)))
