-- ===== src/Case/Insert.antt =====
-- lib/libcase/fmd_case.c, fmd_case_insert: an event is classified by the .esc entries, handed to
-- the event database, put under its case and sent to the agents.
use fms.Base.{ℕ, Bool, false, ◌||◌, Option, none, some, List, [], ◌∷◌, ◌++◌, ◌==◌, if◌then◌else◌}
use fms.Text.{Text, codes, has_prefix}
use fms.Event.{Event, event_report, event_serd, event_fault}
use fms.Esc.{Esc, Serd}
use fms.Case.{Case, Clock, add_case_list}

-- The loop over `list_fault`: does an entry begin the class?
unfoldable pub is_fault_class : Text → List Text → Bool
is_fault_class cls [] = false
is_fault_class cls (p ∷ ps) = has_prefix p cls || is_fault_class cls ps

-- The loop over `list_serd`: the first entry that begins the class.
unfoldable pub find_serd : Text → List Serd → Option Serd
find_serd cls [] = none
find_serd cls (s ∷ ss) = if has_prefix s.eclass cls then some s else find_serd cls ss

unfoldable pub mark_fault : Esc → Event → Event
mark_fault esc e =
    if is_fault_class e.ev_class esc.list_fault then record e { event_type = event_fault } else e

-- The N of the engine, a uint32_t, becomes an int: it is the same number below 2^31.
unfoldable pub mark_serd : Esc → Event → Event
mark_serd esc e = elim (find_serd e.ev_class esc.list_serd) [
  | none ↦ e
  | some s ↦ record e { serd_n = s.n; serd_t = s.t; event_type = event_serd }
]

unfoldable pub mark_report : Event → Event
mark_report e = if e.event_type == 0 then record e { event_type = event_report } else e

-- The first part of `fmd_case_insert`.
unfoldable pub classify : Esc → Event → Event
unfolding mark_fault mark_serd mark_report
classify esc e = mark_report (mark_serd esc (mark_fault esc e))

-- lib/libcase/ev_record.c, `g_store_handler`: the handlers that store an event.
pub data Store : Type 0 where
  cpu_event mem_event disk_event : Store

-- `ras_events_handle`: the handler for a device, `none` for the return value -1.
unfoldable pub ras_events_handle : Text → Option Store
ras_events_handle name =
    if has_prefix (codes "cpu") name
    then some cpu_event
    else if has_prefix (codes "mem") name
    then some mem_event
    else if has_prefix (codes "disk") name
    then some disk_event
    else none

-- What `fmd_case_insert` does: the new cases, the handler that stores the classified event, and
-- the calls of `put_to_agents` in order, the faults before the event itself.
pub record Inserted : Type 0 where
  pub cases : List Case
  pub stored : Option Store
  pub puts : List Event

unfoldable pub fmd_case_insert : Esc → Clock → ℕ → Event → List Case → Inserted
fmd_case_insert esc clock addr e cs =
    let marked = classify esc e in
    let (ds, sent, out) = add_case_list clock addr marked cs in
    record { cases = ds; stored = ras_events_handle e.dev_name; puts = out ++ (sent ∷ []) }
