-- ===== src/Waitlists/Retrying.antt =====
-- WaitlistService.retry: who may retry, what it writes, and what a refusal leaves behind.
use event_platform_backend.Prelude.{ℕ, ◌≡◌, ◌⊎◌, true, some}
use event_platform_backend.Models.Events.{Event, EventConfiguration}
use event_platform_backend.Models.Waitlists.{WaitlistEntry, is_expired}
use event_platform_backend.Store.{Db}
use event_platform_backend.ConfigEngine.{full, limited}
use event_platform_backend.Session.{Session}
use event_platform_backend.Session.Views.{Rows, rows}
use event_platform_backend.Waitlists.Repository.{get_entry, update_entry}
use event_platform_backend.Waitlists.Notices.{position}
use event_platform_backend.Waitlists.Service.{WaitlistOut, can_manage}
use event_platform_backend.Waitlists.Operations.Retry.{rejoin}
use event_platform_backend.Waitlists.Reading.{Configured, availability}

-- Why a call may put the entry `e` back at the instant `t`.
pub record MayRetry (actor_id entry_id : ℕ) (d : Db) (e : WaitlistEntry) (t : ℕ) : Type 0 where
  pub found : get_entry entry_id d ≡ some e
  pub allowed : can_manage actor_id e.event_id d ≡ true
  pub ran_out : is_expired e.status ≡ true
  pub event : Event
  pub config : EventConfiguration
  pub configured : Configured e.event_id d event config
  pub needed :
      (availability e.event_id d event config t ≡ full)
      ⊎ (availability e.event_id d event config t ≡ limited)

abbrev pub Retried : ℕ → ℕ → Rows → WaitlistOut → Session → Type 0
Retried actor_id entry_id T o s =
    (e : WaitlistEntry) × (i : ℕ) × (j : ℕ) × MayRetry actor_id entry_id T.0 e (T.2.clock i)
    × (o ≡ record {
      entry = rejoin (T.2.clock j) e;
      place = position (rejoin (T.2.clock j) e) (update_entry entry_id (rejoin (T.2.clock j)) T.0);
    })
    × (rows s ≡ (
      update_entry entry_id (rejoin (T.2.clock j)) T.0,
      update_entry entry_id (rejoin (T.2.clock j)) T.0,
      T.2,
    ))
