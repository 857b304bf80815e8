-- ===== src/Case/Remove.antt =====
-- lib/libcase/fmd_case.c, fmd_case_find_and_delete: what is done to the cases of a device when an
-- agent has isolated it or an event is taken for repaired.
use fms.Base.{ℕ, true, false, Option, none, some, List, [], ◌∷◌, ◌++◌, ◌==◌}
use fms.Event.{Event, list_isolated_success}
use fms.Case.{Case, atomic_is_positive, is_case_of}

-- The loop over `cs_event`: the events without the first one of that id, `none` if no event has
-- it.
unfoldable pub drop_event : ℕ → List Event → Option (List Event)
drop_event id [] = none
drop_event id (x ∷ xs) = elim (x.evt_id == id) [
  | true ↦ some xs
  | false ↦ elim (drop_event id xs) [ none ↦ none | some ys ↦ some (x ∷ ys) ]
]

-- What happens at a free case of the device: `none` goes on to the next case. An isolated device
-- loses its case. Otherwise the event goes. The code then frees the case if `list_empty(pos)`
-- holds; but `pos` is the case's own link in `fmd.list_case`, whose neighbour is another link or
-- the head, so that test fails and the case stays.
unfoldable pub delete_at : Event → Case → Option (List Case)
delete_at e c = elim (e.agent_result == list_isolated_success) [
  | true ↦ some []
  | false ↦ elim (drop_event e.evt_id c.cs_event) [
    | none ↦ none
    | some events ↦ some (record c { cs_event = events } ∷ [])
  ]
]

-- A case that an agent still uses is passed over, and so is the case of another device.
unfoldable pub visit : Event → Case → Option (List Case)
unfolding delete_at
visit e c = elim (atomic_is_positive c.m_event_using) [
  | true ↦ none
  | false ↦ elim (is_case_of e c) [ true ↦ delete_at e c | false ↦ none ]
]

-- `fmd_case_find_and_delete`: the new cases, `none` for the return value -1, which leaves them as
-- they were.
unfoldable pub fmd_case_find_and_delete : Event → List Case → Option (List Case)
fmd_case_find_and_delete e [] = none
fmd_case_find_and_delete e (c ∷ cs) = elim (visit e c) [
  | some ds ↦ some (ds ++ cs)
  | none ↦ elim (fmd_case_find_and_delete e cs) [ none ↦ none | some ds ↦ some (c ∷ ds) ]
]
