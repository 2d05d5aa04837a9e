-- ===== src/Waitlists/Leaving.antt =====
-- WaitlistService.leave: who may leave, what it writes, and what a refusal leaves behind.
use event_platform_backend.Prelude.{ℕ, ◌≡◌, true, false, not, ◌&&◌, ◌==◌, none, some}
use event_platform_backend.Models.Waitlists.{WaitlistEntry, is_active_waitlist}
use event_platform_backend.Store.{Db}
use event_platform_backend.Session.{Session}
use event_platform_backend.Session.Views.{Rows, rows}
use event_platform_backend.Waitlists.Repository.{get_entry, update_entry}
use event_platform_backend.Waitlists.Service.{can_manage, WaitlistOut}
use event_platform_backend.Waitlists.Operations.Leave.{leave_entry}

-- The entry that `entry_id` names may be given up by this account.
pub record MayLeave (actor_id entry_id : ℕ) (d : Db) (e : WaitlistEntry) : Type 0 where
  pub found : get_entry entry_id d ≡ some e
  pub allowed : (not (e.user_id == actor_id) && not (can_manage actor_id e.event_id d)) ≡ false
  pub active : is_active_waitlist e.status ≡ true

abbrev pub Left : ℕ → ℕ → Rows → WaitlistOut → Session → Type 0
Left actor_id entry_id T o s =
    (e : WaitlistEntry) × (i : ℕ) × MayLeave actor_id entry_id T.0 e
    × (o ≡ record { entry = leave_entry (T.2.clock i) e; place = none })
    × (rows s ≡ (
      update_entry entry_id (leave_entry (T.2.clock i)) T.0,
      update_entry entry_id (leave_entry (T.2.clock i)) T.0,
      T.2,
    ))
