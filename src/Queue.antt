-- ===== src/Queue.antt =====
-- fms/fmd_queue.c: the queue thread. It takes each report to its case, sends events to the agent
-- that subscribes to their class, and now and then goes through the list of handled events.
pub mod Match
pub mod Repair
use fms.Base.{
  ℕ, suc, ◌+◌, ◌-◌, ◌%◌, Bool, true, false, ◌&&◌, Option, none, some, List, [], ◌∷◌, length, ltb,
  leb, ◌==◌, if◌then◌else◌,
}
use fms.Text.{Text, codes, str_eq, has_prefix, strncmp_eq, strchr, strrchr}
use fms.Event.{Event, agent_tolog, list_isolated_failed, list_isolated_success}
use fms.Esc.{Esc, ◌>>=◌}
use fms.Case.{Case, Clock}
use fms.Case.Insert.{Inserted, fmd_case_insert}
use fms.Case.Remove.{fmd_case_find_and_delete}

-- `fmd_sub_matches`: both names are read from their first dot on. `none` is a name without a dot,
-- where the code passes NULL to the comparison.
unfoldable pub fmd_sub_matches : Text → Text → Option Bool
fmd_sub_matches eclass sub = do
  p_sub_head ← strchr sub b'.'
  p_class_head ← strchr eclass b'.'
  p ← strrchr sub b'.'
  if str_eq p (codes ".*")
      then some (strncmp_eq (length p_sub_head - length p) p_class_head p_sub_head)
      else some (str_eq p_class_head p_sub_head)

-- The inner loop of `put_to_agents`: does the class match one of an agent's subscriptions?
unfoldable pub subscribes : Text → List Text → Option Bool
subscribes eclass [] = some false
subscribes eclass (s ∷ ss) =
    fmd_sub_matches eclass s >>= λ hit. if hit then some true else subscribes eclass ss

-- The outer loop: the place in `list_agent` of the agent that gets the event, given the
-- subscriptions of each agent; `some none` if no agent subscribes.
unfoldable pub put_to_agents : Text → List (List Text) → Option (Option ℕ)
put_to_agents eclass [] = some none
put_to_agents eclass (a ∷ rest) = subscribes eclass a >>= λ hit.
    if hit
    then some (some 0)
    else (put_to_agents eclass rest >>= λ found.
        some (elim found [ none ↦ none | some i ↦ some (suc i) ]))

-- `event_disp_dest`: a report is to be logged; `none` is the return value -1.
unfoldable pub event_disp_dest : Event → Option Event
event_disp_dest e =
    if has_prefix (codes "ereport.") e.ev_class
    then some (record e { ev_flag = agent_tolog })
    else none

-- `fmd_proc_event`: `none` for an event that is lost.
unfoldable pub fmd_proc_event : Esc → Clock → ℕ → Event → List Case → Option Inserted
fmd_proc_event esc clock addr e cs =
    event_disp_dest e >>= λ e'. some (fmd_case_insert esc clock addr e' cs)

-- `agent_result & LIST_RESULT_MASK`
abbrev pub is_failed : Event → Bool
is_failed e = e.agent_result % 2 == 1

-- The test "event had been repaired" on signed numbers, at the time `now`.
abbrev pub is_repaired : ℕ → Event → Bool
is_repaired now e = leb (e.repaired_t + e.ev_create) now && ltb e.ev_refs e.repaired_n

-- The cases after a call of `fmd_case_find_and_delete`, and whether it returned 0.
abbrev pub delete_case : Event → List Case → List Case × Bool
delete_case e cs = elim (fmd_case_find_and_delete e cs) [
  | none ↦ (cs, false)
  | some ds ↦ (ds, true)
]

-- One round of the loop of `queue_delete_proc`: the cases, and whether the event stays in the list.
unfoldable pub queue_delete_one : ℕ → Event → List Case → List Case × Bool
queue_delete_one now e cs =
    if is_failed e
    then (if e.agent_result == list_isolated_failed then delete_case e cs else (cs, true))
    else if e.agent_result == list_isolated_success
    then ((delete_case e cs).0, true)
    else if is_repaired now e
    then ((delete_case e cs).0, false)
    else (cs, true)

-- `queue_delete_proc` on the list of handled events; `clock i` is the time that the round on the
-- i-th event reads.
unfoldable pub queue_delete_proc : (ℕ → ℕ) → List Event → List Case → List Event × List Case
queue_delete_proc clock [] cs = ([], cs)
queue_delete_proc clock (e ∷ es) cs =
    let (ds, stays) = queue_delete_one (clock 0) e cs in
    let (rest, final) = queue_delete_proc (λ i. clock (suc i)) es ds in
    (if stays then e ∷ rest else rest, final)
