-- ===== src/Case/Faults.antt =====
-- lib/libcase/fmd_case.c: what one report of an event does to the counters of its case, and what
-- the fault event says that the case sends when it fires.
use fms.Base.{
  suc, ◌≡◌, refl, ◌⊎◌, inl, inr, true, false, Option, none, some, List, [], ◌∷◌, arith, Bool-cases,
  Option-cases,
}
use fms.Event.{Event, event_report, event_serd, event_fault, agent_todo}
use fms.Esc.{Esc, Serd}
use fms.Case.{
  Case, Clock, case_fired, atomic_inc, fmd_case_fire, fmd_case_canfire, count_again, stamped,
  count_and_fire, fmd_event_add,
}
use fms.Case.Inv.{owned_by, with_new, fmd_event_add-known, fmd_event_add-new}
use fms.Case.Insert.{is_fault_class, find_serd, classify}

-- The fault event of a case that has fired on the report.
abbrev pub IsFaultOf : Case → Event → Event → Type 0
IsFaultOf c e f =
    (f.ev_class ≡ e.ev_class)
    × (f.dev_name ≡ e.dev_name)
    × (f.dev_id ≡ e.dev_id)
    × (f.evt_id ≡ e.evt_id)
    × (f.ev_flag ≡ agent_todo)
    × (f.event_type ≡ event_fault)
    × (f.ev_refs ≡ c.cs_fire_counts)
    × (f.p_case ≡ none)

-- What counting a report does to a case `c`, giving the case `d` and the fault events `out`.
abbrev pub Counted : Case → Event → Case → List Event → Type 0
Counted c e d out =
    (d.cs_total_count ≡ suc c.cs_total_count)
    × (d.m_event_using ≡ atomic_inc c.m_event_using)
    × (((out ≡ []) × (d.cs_fire_counts ≡ c.cs_fire_counts) × (d.cs_flag ≡ c.cs_flag))
        ⊎ ((f : Event) × (out ≡ f ∷ [])
            × (d.cs_fire_counts ≡ suc c.cs_fire_counts)
            × (d.cs_flag ≡ case_fired)
            × IsFaultOf d e f))

count_and_fire-Counted :
    (clock : Clock) (c : Case) (p e : Event)
    → Counted c e (count_and_fire clock c p e).0 (count_and_fire clock c p e).1
unfolding count_and_fire fmd_case_fire
count_and_fire-Counted clock c p e = elim (Bool-cases (fmd_case_canfire clock.at_check p)) [
  | inr h ↦ rw h (omega arith, refl, inl (refl, refl, refl))
  | inl h ↦ rw h (
    omega arith,
    refl,
    inr (_, refl, omega arith, refl, (refl, refl, refl, refl, refl, refl, refl, refl)),
  )
]

-- Every report adds one to the total and to the uses of its case. Either the case does not fire and
-- sends nothing, or it fires once more and sends one fault event: of the report's class and device,
-- to be acted on, and numbered by the firings of the case.
pub fmd_event_add-Counted :
    (clock : Clock) (c : Case) (e : Event)
    → let (d, _, out) = fmd_event_add clock c e in Counted c e d out
fmd_event_add-Counted clock c e = step (count_again (owned_by c e) c.cs_event) refl
  where
    step :
        (r : Option (Event × List Event))
        → count_again (owned_by c e) c.cs_event ≡ r
        → let (d, _, out) = fmd_event_add clock c e in Counted c e d out
    step none h =
        let fresh = stamped clock (owned_by c e) in
        rw (fmd_event_add-new clock c e h)
          (count_and_fire-Counted clock (with_new clock c e) fresh fresh)
    step (some (p, ys)) h =
        rw (fmd_event_add-known clock c e p ys h)
          (count_and_fire-Counted clock (record c { cs_event = ys }) p (owned_by c e))

-- The event type that the entries give to a class, for an event that has none yet.
pub classify_type :
    (esc : Esc) (e : Event)
    → e.event_type ≡ 0
    → ((s : Serd) × (find_serd e.ev_class esc.list_serd ≡ some s)
        × (classify esc e ≡ record e { event_type = event_serd; serd_n = s.n; serd_t = s.t }))
      ⊎ ((find_serd e.ev_class esc.list_serd ≡ none)
          × (is_fault_class e.ev_class esc.list_fault ≡ true)
          × (classify esc e ≡ record e { event_type = event_fault }))
      ⊎ ((find_serd e.ev_class esc.list_serd ≡ none)
          × (is_fault_class e.ev_class esc.list_fault ≡ false)
          × (classify esc e ≡ record e { event_type = event_report }))
unfolding classify
classify_type esc e z = elim (Option-cases (find_serd e.ev_class esc.list_serd)) [
  | inr (s, h) ↦ inl (s, h, ground arith)
  | inl h ↦ elim (Bool-cases (is_fault_class e.ev_class esc.list_fault)) [
    | inl k ↦ inr (inl (h, k, ground arith))
    | inr k ↦ inr (inr (h, k, ground arith))
  ]
]
