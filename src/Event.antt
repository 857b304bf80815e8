-- ===== src/Event.antt =====
-- include/fmd_event.h and lib/libfmd/fmd_event.c: the event record, the values of its fields, and
-- the two functions that make an event from a raw report and from a handled event.
pub mod Answer
use fms.Base.{ℕ, ◌++◌, Option, none, some}
use fms.Text.{Text, codes, strchr}

-- `event_type`
abbrev pub event_report : ℕ
event_report = 0x0200

abbrev pub event_serd : ℕ
event_serd = 0x0201

abbrev pub event_fault : ℕ
event_fault = 0x0202

abbrev pub event_list : ℕ
event_list = 0x0203

-- `ev_flag`
abbrev pub agent_todo : ℕ
agent_todo = 0x0301

abbrev pub agent_tolog : ℕ
agent_tolog = 0x0302

-- `agent_result`
abbrev pub list_isolated_failed : ℕ
list_isolated_failed = 0x0101

abbrev pub list_isolated_success : ℕ
list_isolated_success = 0x0102

abbrev pub list_repaired_failed : ℕ
list_repaired_failed = 0x0103

abbrev pub list_repaired_success : ℕ
list_repaired_success = 0x0104

abbrev pub list_repaired_manual : ℕ
list_repaired_manual = 0x0105

-- `handle_mode`
abbrev pub mode_manual : ℕ
mode_manual = 0

abbrev pub mode_auto : ℕ
mode_auto = 1

abbrev pub mode_define : ℕ
mode_define = 2

-- `fmd_event_t` without the list links. `p_case` is the address of a case, `none` for NULL; the
-- private data of a source is an address that the daemon only passes on. Counters and times are
-- numbers from 0 on.
pub record Event : Type 0 where
  pub dev_name : Text
  pub dev_id : ℕ
  pub evt_id : ℕ
  pub ev_class : Text
  pub event_type : ℕ
  pub serd_n : ℕ
  pub serd_t : ℕ
  pub repaired_n : ℕ
  pub repaired_t : ℕ
  pub ev_create : ℕ
  pub ev_last_occur : ℕ
  pub ev_count : ℕ
  pub ev_refs : ℕ
  pub ev_flag : ℕ
  pub agent_result : ℕ
  pub p_case : Option ℕ
  pub handle_mode : ℕ
  pub private : ℕ

-- What `def_calloc` returns: every field zero. The names are set before they are read.
abbrev pub zero_event : Event
zero_event = record {
  dev_name = codes "";
  dev_id = 0;
  evt_id = 0;
  ev_class = codes "";
  event_type = 0;
  serd_n = 0;
  serd_t = 0;
  repaired_n = 0;
  repaired_t = 0;
  ev_create = 0;
  ev_last_occur = 0;
  ev_count = 0;
  ev_refs = 0;
  ev_flag = 0;
  agent_result = 0;
  p_case = none;
  handle_mode = 0;
  private = 0;
}

-- `nvlist_t`: what a source reports.
pub record Nvlist : Type 0 where
  pub name : Text
  pub value : Text
  pub dev_id : ℕ
  pub evt_id : ℕ
  pub private : ℕ

-- `fmd_create_ereport` at the time `now`.
unfoldable pub fmd_create_ereport : ℕ → Text → Nvlist → Event
fmd_create_ereport now eclass nvl = record zero_event {
  dev_name = nvl.name;
  dev_id = nvl.dev_id;
  evt_id = nvl.evt_id;
  ev_create = now;
  ev_class = eclass;
  private = nvl.private;
  repaired_n = 10;
  repaired_t = 120;
}

-- `fmd_create_listevent` at the time `now`: the class keeps what follows its first dot. `none` is
-- the class without a dot, where the format reads NULL. The new class is taken to fit its buffer of
-- 128 bytes.
unfoldable pub fmd_create_listevent : ℕ → Event → ℕ → Option Event
fmd_create_listevent now e action = elim (strchr e.ev_class b'.') [
  | none ↦ none
  | some tail ↦ some (record zero_event {
    dev_name = e.dev_name;
    ev_create = now;
    ev_class = codes "list" ++ tail;
    agent_result = action;
    dev_id = e.dev_id;
    evt_id = e.evt_id;
    repaired_n = e.repaired_n;
    repaired_t = e.repaired_t;
    ev_refs = e.ev_refs;
    private = e.private;
  })
]
