-- ===== src/Tests.antt =====
-- Concrete runs of the theorems: a ring that carries two pointers, a case of one processor with its
-- engine, a subscription list, a configuration file and an agent's fault.
mod Rings
mod Cases
mod Queues
mod Agents
mod Sources
mod Tables
mod Topologies
mod Scans
mod Modules
mod Records
mod Caches
mod Systems
mod Configs
mod Database
use fms.Base.{[]}
use fms.Text.{Text, codes}
use fms.Event.{Event, zero_event, event_serd}
use fms.Case.{Case, Clock}

abbrev pub clock : Clock
clock = record {
  at_create = 100;
  at_add = 101;
  at_occur = 101;
  at_check = 102;
  at_first_fire = 103;
  at_fire = 103;
}

-- A cache error of processor 3, of a class that a SERD engine with N = 2 and T = 3600 counts.
abbrev pub cache_error : Event
cache_error = record zero_event {
  dev_name = codes "cpu";
  dev_id = 3;
  evt_id = 12;
  ev_class = codes "ereport.cpu.cache";
  event_type = event_serd;
  serd_n = 2;
  serd_t = 3600;
  ev_create = 99;
}

abbrev pub cpu_case : Case
cpu_case = record {
  addr = 500;
  dev_name = codes "cpu";
  dev_id = 3;
  last_eclass = codes "ereport.cpu.tlb";
  cs_flag = 0;
  cs_total_count = 0;
  cs_fire_counts = 0;
  cs_create = 90;
  cs_first_fire = 0;
  cs_last_fire = 0;
  m_event_using = 0;
  cs_event = [];
}
