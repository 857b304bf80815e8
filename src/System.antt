-- ===== src/System.antt =====
-- fms/fmd_queue.c, lib/libcase/fmd_case.c and evt_modules/evtlib/evt_agent.c together: the cases
-- and the events that stand in the rings of the agents, as the queue thread and the agent threads
-- change them. The queue thread takes one report at a time or goes through the handled events; an
-- agent finishes one event.
pub mod Added
pub mod Cells
pub mod Held
pub mod Safe
pub mod Report
use fms.Base.{ℕ, suc, ◌+◌, ◌^◌, ◌<◌, ◌≡◌, ◌≢◌, none, some, List, [], ◌∷◌, ◌++◌, All}
use fms.Text.{Text}
use fms.Event.{Event, agent_todo}
use fms.Esc.{Esc}
use fms.Case.{Case, Clock}
use fms.Case.Insert.{Inserted}
use fms.Case.Remove.{fmd_case_find_and_delete}
use fms.Queue.{put_to_agents, fmd_proc_event}
use fms.Agent.{give_back}

-- The events of a list that `put_to_agents` puts into some agent's ring.
unfoldable pub deliver : List (List Text) → List Event → List Event
deliver agents [] = []
deliver agents (e ∷ es) =
    let rest = deliver agents es in
    elim (put_to_agents e.ev_class agents) [
      | none ↦ rest
      | some none ↦ rest
      | some (some i) ↦ e ∷ rest
    ]

-- `flying` are the events in the rings and in the hands of the agents; `reports` counts the reports
-- taken so far.
pub record System : Type 0 where
  pub cases : List Case
  pub flying : List Event
  pub reports : ℕ

abbrev pub new_system : System
new_system = record { cases = []; flying = []; reports = 0 }

module _ (esc : Esc) (agents : List (List Text)) where
  -- The allocator returns an address at which no case stands, and fewer than 2^31 reports come. An
  -- agent may take any event in flight.
  pub data Step (s : System) : System → Type 0 where
    report :
        (clock : Clock) (addr : ℕ) (e : Event) (r : Inserted)
        → All (λ c. c.addr ≢ addr) s.cases
        → suc s.reports < 2 ^ 31
        → fmd_proc_event esc clock addr e s.cases ≡ some r
        → Step s (record {
          cases = r.cases;
          flying = s.flying ++ deliver agents r.puts;
          reports = suc s.reports;
        })
    finish :
        (before after : List Event) (e : Event) (ds : List Case)
        → s.flying ≡ before ++ e ∷ after
        → give_back e s.cases ≡ some ds
        → Step s (record s { cases = ds; flying = before ++ after })
    delete :
        (e : Event) (ds : List Case)
        → fmd_case_find_and_delete e s.cases ≡ some ds
        → Step s (record s { cases = ds })

  pub data Reach : System → Type 0 where
    start : Reach new_system
    later : {s t : System} → Reach s → Step s t → Reach t
