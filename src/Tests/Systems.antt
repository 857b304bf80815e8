-- ===== src/Tests/Systems.antt =====
-- A run of the cases and the agents together: one report is taken, and the agent for processors
-- has it in its ring.
use fms.Base.{◌≡◌, refl, some, List, [], ◌∷◌, ◌++◌, arith}
use fms.Text.{Text, codes, str_eq, has_prefix, strncmp_eq, strchr, strrchr}
use fms.Event.{Event, agent_tolog}
use fms.Esc.{Esc}
use fms.Case.{
  Case, fmd_case_new, fmd_case_canfire, count_again, count_and_fire, fmd_event_add, add_to_known,
  add_case_list, atomic_inc,
}
use fms.Case.Insert.{
  Inserted, is_fault_class, find_serd, mark_fault, mark_serd, mark_report, classify,
  fmd_case_insert,
}
use fms.Queue.{fmd_sub_matches, subscribes, put_to_agents, event_disp_dest, fmd_proc_event}
use fms.Agent.{give_back}
use fms.System.{deliver, System, report, Reach, start, later}
use fms.System.Held.{IsSystem}
use fms.System.Report.{Reach-IsSystem, Reach-give_back}
use fms.Tests.{clock, cache_error}

abbrev no_entries : Esc
no_entries = record { list_event = []; list_serd = []; list_fault = [] }

abbrev agents : List (List Text)
agents = (codes "ereport.cpu.*" ∷ []) ∷ []

abbrev inserted : Inserted
inserted = fmd_case_insert no_entries clock 500 (record cache_error { ev_flag = agent_tolog }) []

one_report : fmd_proc_event no_entries clock 500 cache_error [] ≡ some inserted
unfolding fmd_proc_event event_disp_dest has_prefix
one_report = refl

abbrev after_report : System
after_report = record {
  cases = inserted.cases;
  flying = [] ++ deliver agents inserted.puts;
  reports = 1;
}

reached : Reach no_entries agents after_report
reached = later start (report clock 500 cache_error inserted tt (omega arith) one_report)

-- The report as its agent gets it.
abbrev logged : Event
logged = record cache_error {
  ev_flag = agent_tolog;
  p_case = some 500;
  ev_count = 1;
  ev_create = 101;
  ev_last_occur = 101;
}

in_flight : after_report.flying ≡ [] ++ logged ∷ []
unfolding deliver fmd_case_insert classify mark_fault mark_serd mark_report is_fault_class find_serd
    add_case_list add_to_known fmd_case_new fmd_event_add count_again count_and_fire
    fmd_case_canfire atomic_inc put_to_agents subscribes fmd_sub_matches strchr strrchr str_eq
    strncmp_eq has_prefix
in_flight = refl

Reach-IsSystem_example : IsSystem after_report
Reach-IsSystem_example = Reach-IsSystem no_entries agents reached

Reach-give_back_example : (ds : List Case) × (give_back logged after_report.cases ≡ some ds)
Reach-give_back_example = Reach-give_back no_entries agents [] [] logged reached in_flight
