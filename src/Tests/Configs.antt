-- ===== src/Tests/Configs.antt =====
-- Runs of the .esc files, of a source's list and of the disk agent.
use fms.Base.{ℕ, ◌*◌, ◌≡◌, refl, ◌≢◌, ◌⊎◌, true, false, some, List, [], ◌∷◌, ◌++◌, arith}
use fms.Text.{codes}
use fms.Event.{Event, Nvlist, agent_todo, list_repaired_failed, list_repaired_success}
use fms.Event.Answer.{IsAnswer}
use fms.Esc.{Esc, esc_line}
use fms.Esc.Engine.{esc_line-engine}
use fms.Agent.Disk.{DiskControl, disk_handle_event}
use fms.Agent.Disk.Laws.{disk_answers}
use fms.Tests.{cache_error}

abbrev no_entries : Esc
no_entries = record { list_event = []; list_serd = []; list_fault = [] }

esc_line-engine_example :
    esc_line no_entries (codes "engine " ++ ((codes "ereport.cpu.tlb_ce {N=24, T=72}") ++ 10 ∷ []))
    ≡ some (record no_entries {
      list_serd = (record { eclass = codes "ereport.cpu.tlb_ce"; n = 24; t = 72 * 3600 }) ∷ [];
    })
esc_line-engine_example =
    esc_line-engine no_entries (codes "ereport.cpu.tlb_ce") b'2' b'7' (codes "4") (codes "2")
      (ground arith) (ground arith) (ground arith) (ground arith) (ground arith) (omega arith)
      (omega arith) (omega arith)

abbrev entries : List Nvlist
entries =
    (record { name = codes "disk"; value = []; dev_id = 0; evt_id = 1; private = 0 })
    ∷ (record {
      name = codes "cpu";
      value = codes "ereport.cpu.tlb_ce";
      dev_id = 3;
      evt_id = 2;
      private = 0;
    })
    ∷ []

abbrev control : DiskControl
control = record { throttle_read_disk = λ name. true; getprocid = λ name. false }

abbrev disk_fault : Event
disk_fault = record cache_error {
  dev_name = codes "sda";
  ev_class = codes "ereport.disk.over-temperature";
  ev_flag = agent_todo;
}

disk_answers_example :
    (result : ℕ) × (a : Event) × ((disk_handle_event control 150 disk_fault).1 ≡ some a)
    × IsAnswer 150 disk_fault (codes "disk.over-temperature") result a
    × (disk_fault.ev_flag ≡ agent_todo
        → (result ≡ list_repaired_success) ⊎ (result ≡ list_repaired_failed))
    × (disk_fault.ev_flag ≢ agent_todo → result ≡ 0)
disk_answers_example =
    disk_answers control 150 disk_fault (codes "ereport") (codes "disk.over-temperature")
      (ground arith) refl
