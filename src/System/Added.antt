-- ===== src/System/Added.antt =====
-- What the insertion of a report does to the use counters of the cases.
use fms.Base.{
  ℕ, ◌≡◌, refl, ap, ◌⊎◌, inl, inr, Option, none, some, List, [], ◌∷◌, ◌++◌, Bool-cases, All,
}
use fms.Event.{Event, agent_todo}
use fms.Case.{
  Case, Clock, atomic_inc, fmd_case_new, fmd_case_fire, fmd_case_canfire, count_again, stamped,
  count_and_fire, fmd_event_add, is_case_of, add_to_known, add_case_list,
}
use fms.Case.Inv.{owned_by, with_new, fmd_event_add-known, fmd_event_add-new}

-- The use counter of a case goes up by one, and its address stays.
abbrev pub Bumped : Case → Case → Type 0
Bumped c d = (d.addr ≡ c.addr) × (d.m_event_using ≡ atomic_inc c.m_event_using)

abbrev AllTodo : List Event → Type 0
AllTodo = All (λ x. x.ev_flag ≡ agent_todo)

count_and_fire-Bumped :
    (clock : Clock) (c : Case) (p e : Event)
    → Bumped c (count_and_fire clock c p e).0 × AllTodo (count_and_fire clock c p e).1
unfolding count_and_fire fmd_case_fire
count_and_fire-Bumped clock c p e = elim (Bool-cases (fmd_case_canfire clock.at_check p)) [
  | inl h ↦ rw h ((refl, refl), (refl, tt))
  | inr h ↦ rw h ((refl, refl), tt)
]

-- What `fmd_event_add` makes of the case, of the event and of the faults it sends.
abbrev EventAdded : Case → Event → Case × Event × List Event → Type 0
EventAdded c e (d, sent, out) =
    Bumped c d × (sent.p_case ≡ some c.addr) × (sent.ev_flag ≡ e.ev_flag) × AllTodo out

fmd_event_add-EventAdded :
    (clock : Clock) (c : Case) (e : Event) → EventAdded c e (fmd_event_add clock c e)
fmd_event_add-EventAdded clock c e = step (count_again (owned_by c e) c.cs_event) refl
  where
    step :
        (r : Option (Event × List Event))
        → count_again (owned_by c e) c.cs_event ≡ r
        → EventAdded c e (fmd_event_add clock c e)
    step none h =
        let fresh = stamped clock (owned_by c e) in
        let (b, t) = count_and_fire-Bumped clock (with_new clock c e) fresh fresh in
        rw (fmd_event_add-new clock c e h) (b, refl, refl, t)
    step (some (p, ys)) h =
        let (b, t) = count_and_fire-Bumped clock (record c { cs_event = ys }) p (owned_by c e) in
        rw (fmd_event_add-known clock c e p ys h) (b, refl, refl, t)

-- One case of the list takes the event.
abbrev TakenBy : Event → List Case → List Case × Event × List Event → Type 0
TakenBy e cs (ds, sent, out) =
    (before after : List Case) × (c d : Case) × (cs ≡ before ++ c ∷ after)
    × (ds ≡ before ++ d ∷ after)
    × EventAdded c e (d, sent, out)

abbrev TakenIf : Event → List Case → Option (List Case × Event × List Event) → Type 0
TakenIf e cs none = Unit
TakenIf e cs (some r) = TakenBy e cs r

add_to_known-TakenIf :
    (clock : Clock) (e : Event) (cs : List Case) → TakenIf e cs (add_to_known clock e cs)
unfolding add_to_known
add_to_known-TakenIf clock e [] = tt
add_to_known-TakenIf clock e (c ∷ cs) = elim (Bool-cases (is_case_of e c)) [
  | inl h ↦
      rw (add_to_known, h)
        ([], cs, c, (fmd_event_add clock c e).0, refl, refl, fmd_event_add-EventAdded clock c e)
  | inr h ↦
      rw (add_to_known, h) (skip_one (add_to_known clock e cs) (add_to_known-TakenIf clock e cs))
]
  where
    skip_one :
        (r : Option (List Case × Event × List Event))
        → TakenIf e cs r
        → TakenIf e (c ∷ cs) (elim r [ none ↦ none | some (ds, e', out) ↦ some (c ∷ ds, e', out) ])
    skip_one none t = tt
    skip_one (some (ds, e', out)) (before, after, x, y, p, q, a) =
        (c ∷ before, after, x, y, ap (◌∷◌ c) p, ap (◌∷◌ c) q, a)

-- A known case takes the event, or a new case at the address does.
abbrev pub Added : ℕ → Event → List Case → List Case × Event × List Event → Type 0
Added addr e cs r =
    TakenBy e cs r
    ⊎ ((c d : Case) × (c.addr ≡ addr)
        × (c.m_event_using ≡ 0)
        × (r.0 ≡ d ∷ cs)
        × EventAdded c e (d, r.1, r.2))

pub add_case_list-Added :
    (clock : Clock) (addr : ℕ) (e : Event) (cs : List Case)
    → Added addr e cs (add_case_list clock addr e cs)
unfolding add_case_list fmd_case_new
add_case_list-Added clock addr e cs =
    step (add_to_known clock e cs) refl (add_to_known-TakenIf clock e cs)
  where
    step :
        (r : Option (List Case × Event × List Event))
        → add_to_known clock e cs ≡ r
        → TakenIf e cs r
        → Added addr e cs (add_case_list clock addr e cs)
    step none h t =
        rw (add_case_list, h)
          (inr (
            fmd_case_new clock addr e,
            (fmd_event_add clock (fmd_case_new clock addr e) e).0,
            refl,
            refl,
            refl,
            fmd_event_add-EventAdded clock (fmd_case_new clock addr e) e,
          ))
    step (some r) h t = rw (add_case_list, h) (inl t)
