-- ===== src/Agent/Disk.antt =====
-- evt_modules/evtagent/disk/agent.disk.c: the agent for disks.
pub mod Laws
use fms.Base.{ℕ, Bool, ◌&&◌, Option, ◌==◌, if◌then◌else◌}
use fms.Text.{Text, codes, contains}
use fms.Event.{
  Event, event_list, agent_todo, list_repaired_failed, list_repaired_success, fmd_create_listevent,
}

-- The two calls that slow a hot disk down: throttle_read_disk and getprocid returned 0.
pub record DiskControl : Type 0 where
  pub throttle_read_disk : Text → Bool
  pub getprocid : Text → Bool

module _ (control : DiskControl) where
  open control use {throttle_read_disk, getprocid}

  unfoldable pub handle_disk_fault_event : Event → ℕ
  handle_disk_fault_event e =
      if contains (codes "over-temperature") e.ev_class
      then (if throttle_read_disk e.dev_name && getprocid e.dev_name
          then list_repaired_success
          else list_repaired_failed)
      else if contains (codes "space-insufficient") e.ev_class
      then list_repaired_success
      else if contains (codes "unhealthy") e.ev_class
      then list_repaired_success
      else list_repaired_failed

  -- `disk_handle_event` at the time `now`. `action` is 1 from the start, so every event is answered.
  unfoldable pub disk_handle_event : ℕ → Event → Event × Option Event
  disk_handle_event now e =
      if e.ev_flag == agent_todo
      then (
        record e { event_type = event_list },
        fmd_create_listevent now (record e { event_type = event_list }) (handle_disk_fault_event e),
      )
      else (e, fmd_create_listevent now e 0)
