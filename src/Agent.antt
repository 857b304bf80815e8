-- ===== src/Agent.antt =====
-- evt_modules/evtlib/evt_agent.c: what every agent thread does. It takes an event from its ring,
-- lets its handler work on it and puts the handler's answer into the list of handled events.
pub mod Conf
pub mod Cpumem
pub mod Disk
pub mod Handled
use fms.Base.{ℕ, ◌+◌, Bool, ◌&&◌, Option, none, some, List, [], ◌∷◌, ◌==◌, if◌then◌else◌}
use fms.Text.{Text, codes, has_prefix}
use fms.Event.{Event, agent_todo}
use fms.Case.{Case, atomic_dec}

-- The test of `agent_ring_put`: the name of the entry begins with the name of the new event.
unfoldable pub is_entry_of : Event → Event → Bool
is_entry_of e p =
    has_prefix e.dev_name p.dev_name
    && p.dev_id == e.dev_id
    && p.evt_id == e.evt_id
    && p.agent_result == e.agent_result

-- `agent_ring_put` on the list of handled events: the first entry of the event counts once more, or
-- the event becomes the last entry.
unfoldable pub agent_ring_put : Event → List Event → List Event
agent_ring_put e [] = record e { ev_count = 1 } ∷ []
agent_ring_put e (p ∷ ps) =
    if is_entry_of e p
    then record p { ev_create = e.ev_create; ev_refs = e.ev_refs; ev_count = p.ev_count + 1 } ∷ ps
    else p ∷ agent_ring_put e ps

-- `atomic_dec(&pp_case->m_event_using)` for the case at an address; `none` if no case is there.
unfoldable pub release_case : ℕ → List Case → Option (List Case)
release_case a [] = none
release_case a (c ∷ cs) =
    if c.addr == a
    then some (record c { m_event_using = atomic_dec c.m_event_using } ∷ cs)
    else elim (release_case a cs) [ none ↦ none | some ds ↦ some (c ∷ ds) ]

-- What `do_agent` does to the cases after the handler: an event that is not to be acted on gives
-- its case free. `none` is an access through `p_case` where no case is.
unfoldable pub give_back : Event → List Case → Option (List Case)
give_back e cs =
    if e.ev_flag == agent_todo
    then some cs
    else elim e.p_case [ none ↦ none | some a ↦ release_case a cs ]

-- What one round of the loop of `do_agent` leaves: the cases and the handled events.
pub record Round : Type 0 where
  pub cases : List Case
  pub handled : List Event

-- One round of the loop of `do_agent` on an event. The handler returns the event as it leaves it
-- and its answer.
module _ (evt_handle : Event → Event × Option Event) where
  put_answer : Option Event → List Event → List Event
  put_answer none handled = handled
  put_answer (some answer) handled = agent_ring_put answer handled

  unfoldable pub do_agent : ℕ → Event → List Case → List Event → Option Round
  unfolding put_answer
  do_agent mode e cs handled =
      let (left, answer) = evt_handle (record e { handle_mode = mode }) in
      elim (give_back left cs) [
        | none ↦ none
        | some ds ↦ some (record { cases = ds; handled = put_answer answer handled })
      ]
