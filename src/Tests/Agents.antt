-- ===== src/Tests/Agents.antt =====
-- Runs of the agents.
use fms.Base.{
  ◌++◌, All, ◌≤◌, ◌≡◌, refl, ◌↔◌, true, false, none, some, List, [], ◌∷◌, arith, if◌then◌else◌, All,
}
use fms.Text.{Text, codes, str_eq}
use fms.Event.{
  Event, agent_todo, mode_auto, list_isolated_success, list_repaired_failed, list_repaired_success,
}
use fms.Agent.{agent_ring_put}
use fms.Agent.Handled.{Put, agent_ring_put-Put}
use fms.Agent.Conf.{
  Parsed, key_evt_handle_mode, set_evt_handle_mode, update_conf, parse_config, joined,
}
use fms.Agent.Conf.RoundTrip.{update_conf-parse_config, IsLine}
use fms.Agent.Cpumem.{Platform, do_cpu_offline, fault_result}
use fms.Agent.Cpumem.Laws.{cache_escalation}
use fms.Tests.{cache_error}

agent_ring_put-Put_example :
    Put cache_error (cache_error ∷ []) (agent_ring_put cache_error (cache_error ∷ []))
agent_ring_put-Put_example = agent_ring_put-Put cache_error (cache_error ∷ [])

abbrev conf_lines : List Text
conf_lines =
    (codes "# the agent for processors" ++ 10 ∷ [])
    ∷ (codes "event_handle_mode manual" ++ 10 ∷ [])
    ∷ []

conf_lines-IsLine : All IsLine conf_lines
conf_lines-IsLine = (
  (codes "# the agent for processors", refl, ground arith, omega arith),
  ((codes "event_handle_mode manual", refl, ground arith, omega arith), tt),
)

abbrev unread : Parsed
unread = record { mode = 0; errcount = 0 }

auto_mode : set_evt_handle_mode (codes "auto") ≡ some mode_auto
unfolding set_evt_handle_mode str_eq
auto_mode = refl

update_conf_example :
    (out : Text) × (update_conf key_evt_handle_mode (codes "auto") (joined conf_lines)
      ≡ some (mode_auto, out))
    × ((parse_config unread out).mode ≡ mode_auto)
update_conf_example =
    update_conf-parse_config unread (codes "auto") mode_auto conf_lines auto_mode conf_lines-IsLine

-- Processors 3 and 7 share the cache; both can be taken offline.
abbrev platform : Platform
platform = record {
  cache_flush = λ cpu. true;
  mempage_flags = λ addr. none;
  soft_offline_page = λ addr. false;
  cpuinfo = some (1 ∷ 3 ∷ 7 ∷ []);
  online_file = λ cpu. true;
  write_offline = λ cpu. true;
  cache_cpus = λ cpu level type. some (3 ∷ 7 ∷ []);
  fault_data = λ address. some (record { cpu = 3; clevel = 2; ctype = 2; addr = 0; flags = 0 });
}

-- The second fault of a cache.
abbrev cache_fault : Event
cache_fault = record cache_error { ev_refs = 2; ev_flag = agent_todo; handle_mode = mode_auto }

cache_escalation_example :
    (cache_fault.ev_refs ≡ 1
      → fault_result platform cache_fault
        ≡ (if platform.cache_flush 3 then list_repaired_success else list_repaired_failed))
    × (cache_fault.ev_refs ≡ 2
        → (fault_result platform cache_fault ≡ list_isolated_success)
          ↔ All (λ i. do_cpu_offline platform i ≡ true) (3 ∷ 7 ∷ []))
    × (3 ≤ cache_fault.ev_refs → fault_result platform cache_fault ≡ list_repaired_failed)
cache_escalation_example =
    cache_escalation platform cache_fault (codes "ereport.cpu") []
      (record { cpu = 3; clevel = 2; ctype = 2; addr = 0; flags = 0 }) (3 ∷ 7 ∷ []) (ground arith)
      refl refl refl refl

-- The name of the second disk begins with that of the first.
