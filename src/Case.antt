-- ===== src/Case.antt =====
-- lib/libcase/fmd_case.c: the cases of faulty devices, the events gathered under them, and the
-- decision to fire a case, which sends a fault event to an agent.
pub mod Insert
pub mod Remove
pub mod Inv
pub mod Cases
pub mod Delete
pub mod Fire
pub mod Faults
pub mod Database
use fms.Base.{
  ℕ, ◌+◌, ◌-◌, ◌%◌, ◌^◌, Bool, true, false, ◌&&◌, Option, none, some, List, [], ◌∷◌, ltb, leb, ◌==◌,
  if◌then◌else◌,
}
use fms.Text.{Text, codes, str_eq, has_prefix}
use fms.Event.{
  Event, zero_event, event_report, event_serd, event_fault, agent_todo, list_isolated_success,
}
use fms.Esc.{Esc, Serd}

-- `cs_flag`
abbrev pub case_create : ℕ
case_create = 0

abbrev pub case_fired : ℕ
case_fired = 1

-- `fmd_case_t`, with its address. `cs_event` is newest first. `m_event_using` is an atomic 32-bit
-- counter.
pub record Case : Type 0 where
  pub addr : ℕ
  pub dev_name : Text
  pub dev_id : ℕ
  pub last_eclass : Text
  pub cs_flag : ℕ
  pub cs_total_count : ℕ
  pub cs_fire_counts : ℕ
  pub cs_create : ℕ
  pub cs_first_fire : ℕ
  pub cs_last_fire : ℕ
  pub m_event_using : ℕ
  pub cs_event : List Event

-- include/atomic_64.h: `incl` and `decl` on a 32-bit word, and the test that it is positive.
unfoldable pub atomic_inc : ℕ → ℕ
atomic_inc v = (v + 1) % 2 ^ 32

unfoldable pub atomic_dec : ℕ → ℕ
atomic_dec v = (v + 2 ^ 32 - 1) % 2 ^ 32

unfoldable pub atomic_is_positive : ℕ → Bool
atomic_is_positive v = ltb 0 v && ltb v (2 ^ 31)

-- What the calls of time(NULL) return while one event is inserted: in `fmd_case_create`, at the
-- two stamps of a new event, in `fmd_case_canfire`, and at the two stamps of a firing.
pub record Clock : Type 0 where
  pub at_create : ℕ
  pub at_add : ℕ
  pub at_occur : ℕ
  pub at_check : ℕ
  pub at_first_fire : ℕ
  pub at_fire : ℕ

-- `fmd_case_create`; `addr` is the address that the allocator returns. The class is taken to fit the
-- buffer of 128 bytes of `last_eclass`.
unfoldable pub fmd_case_new : Clock → ℕ → Event → Case
fmd_case_new clock addr e = record {
  addr = addr;
  dev_name = e.dev_name;
  dev_id = e.dev_id;
  last_eclass = e.ev_class;
  cs_flag = case_create;
  cs_total_count = 0;
  cs_fire_counts = 0;
  cs_create = clock.at_create;
  cs_first_fire = 0;
  cs_last_fire = 0;
  m_event_using = 0;
  cs_event = [];
}

-- `fmd_case_fire`: the new state of the case, and the fault event for `put_to_agents`.
unfoldable pub fmd_case_fire : Clock → Case → Event → Case × Event
fmd_case_fire clock c e = (
  record c {
    cs_first_fire = if c.cs_fire_counts == 0 then clock.at_first_fire else c.cs_first_fire;
    cs_last_fire = clock.at_fire;
    cs_fire_counts = c.cs_fire_counts + 1;
    cs_flag = case_fired;
  },
  record zero_event {
    dev_name = e.dev_name;
    ev_class = e.ev_class;
    dev_id = e.dev_id;
    evt_id = e.evt_id;
    private = e.private;
    repaired_n = e.repaired_n;
    repaired_t = e.repaired_t;
    ev_flag = agent_todo;
    event_type = event_fault;
    ev_refs = c.cs_fire_counts + 1;
  },
)

-- `fmd_case_canfire`. The test `T > now - ev_create` is on signed numbers: `now < T + ev_create`.
unfoldable pub fmd_case_canfire : ℕ → Event → Bool
fmd_case_canfire now e =
    if e.event_type == event_fault
    then true
    else leb e.serd_n e.ev_count && ltb now (e.serd_t + e.ev_create)

-- The loop over `cs_event`: the first event with the new event's id counts one more occurrence and
-- is returned beside the updated list; `none` if there is no such event.
unfoldable pub count_again : Event → List Event → Option (Event × List Event)
count_again e [] = none
count_again e (x ∷ xs) = elim (x.evt_id == e.evt_id) [
  | true ↦ some (
    record x { ev_count = x.ev_count + 1; ev_last_occur = e.ev_create },
    record x { ev_count = x.ev_count + 1; ev_last_occur = e.ev_create } ∷ xs,
  )
  | false ↦ elim (count_again e xs) [ none ↦ none | some (hit, ys) ↦ some (hit, x ∷ ys) ]
]

-- The event as `fmd_event_add` leaves it when the case has no event with its id.
abbrev pub stamped : Clock → Event → Event
stamped clock e = record e {
  ev_count = e.ev_count + 1;
  ev_create = clock.at_add;
  ev_last_occur = clock.at_occur;
}

-- What follows the loop of `fmd_event_add`: `p` is the event that is counted and `e` the new one.
unfoldable pub count_and_fire : Clock → Case → Event → Event → Case × List Event
unfolding atomic_inc fmd_case_canfire
count_and_fire clock c p e =
    let c' = record c {
      cs_total_count = c.cs_total_count + 1;
      m_event_using = atomic_inc c.m_event_using;
    } in
    if fmd_case_canfire clock.at_check p
    then (let (d, fault) = fmd_case_fire clock c' e in (d, fault ∷ []))
    else (c', [])

-- `fmd_event_add`: the case, the event as it then stands, and the fault events to send. The class is
-- taken to fit `last_eclass`.
unfoldable pub fmd_event_add : Clock → Case → Event → Case × Event × List Event
fmd_event_add clock c e =
    let owned = record e { p_case = some c.addr } in
    elim (count_again owned c.cs_event) [
      | some (p, events) ↦
          (let (d, out) = count_and_fire clock (record c { cs_event = events }) p owned in
            (d, owned, out))
      | none ↦
          (let fresh = stamped clock owned in
            let (d, out) =
              count_and_fire clock
                (record c { cs_event = fresh ∷ c.cs_event; last_eclass = e.ev_class }) fresh
                fresh in
            (d, fresh, out))
    ]

-- The test of a case against an event: the same device.
unfoldable pub is_case_of : Event → Case → Bool
is_case_of e c = str_eq c.dev_name e.dev_name && c.dev_id == e.dev_id

-- The loop of `add_case_list`: the first case of the event's device takes the event; `none` if
-- there is no such case.
unfoldable pub add_to_known : Clock → Event → List Case → Option (List Case × Event × List Event)
add_to_known clock e [] = none
add_to_known clock e (c ∷ cs) = elim (is_case_of e c) [
  | true ↦ (let (d, e', out) = fmd_event_add clock c e in some (d ∷ cs, e', out))
  | false ↦ elim (add_to_known clock e cs) [
    | none ↦ none
    | some (ds, e', out) ↦ some (c ∷ ds, e', out)
  ]
]

-- `add_case_list`; a new case goes to the front.
unfoldable pub add_case_list : Clock → ℕ → Event → List Case → List Case × Event × List Event
add_case_list clock addr e cs = elim (add_to_known clock e cs) [
  | some r ↦ r
  | none ↦
      (let (d, e', out) = fmd_event_add clock (fmd_case_new clock addr e) e in (d ∷ cs, e', out))
]
