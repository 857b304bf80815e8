-- ===== src/System/Report.antt =====
-- A report keeps the invariant of the use counters, so each reachable state has it.
use fms.Base.{
  ℕ, suc, ◌^◌, ◌≤◌, ◌<◌, ◌≡◌, refl, ap, ◌∙◌, subst, ◌≢◌, ◌⊎◌, inl, inr, true, false, Option, none,
  some, List, [], ◌∷◌, ◌++◌, arith, ltb, ◌==◌, Bool-cases, All,
}
use fms.Text.{Text}
use fms.Event.{Event, agent_todo}
use fms.Esc.{Esc}
use fms.Case.{Case, Clock, atomic_inc, add_case_list}
use fms.Case.Insert.{Inserted, classify, fmd_case_insert}
use fms.Queue.{fmd_proc_event, event_disp_dest}
use fms.Agent.{give_back}
use fms.System.{deliver, System, Step, report, finish, delete, Reach, start, later}
use fms.System.Added.{Bumped, Added, add_case_list-Added}
use fms.System.Cells.{
  Apart, Lives, Apart-swap, All-change, Lives-swap, released, release_case-Lives, All-at, others,
  Lives-fresh, Lives-at,
}
use fms.System.Held.{
  holds, holds-append, IsBound, Covered, IsSystem, holds-deliver, IsBound-deliver, holds_sent,
}
use fms.System.Safe.{
  finish-IsSystem, delete-IsSystem, give_back-Lives, give_back_todo, held_here, dropped,
}

-- What `fmd_proc_event` does to the cases, and what it sends.
abbrev Reported : Clock → ℕ → List Case → Inserted → Type 0
Reported clock addr cs r =
    (e : Event) × (sent : Event) × (out : List Event) × (ds : List Case) × (r.cases ≡ ds)
    × (r.puts ≡ out ++ (sent ∷ []))
    × Added addr e cs (ds, sent, out)

fmd_case_insert-Reported :
    (esc : Esc) (clock : Clock) (addr : ℕ) (e : Event) (cs : List Case)
    → Reported clock addr cs (fmd_case_insert esc clock addr e cs)
unfolding fmd_case_insert
fmd_case_insert-Reported esc clock addr e cs =
    let r = add_case_list clock addr (classify esc e) cs in
    (classify esc e, r.1, r.2, r.0, refl, refl, add_case_list-Added clock addr (classify esc e) cs)

fmd_proc_event-Reported :
    (esc : Esc) (clock : Clock) (addr : ℕ) (e : Event) (cs : List Case) (r : Inserted)
    → fmd_proc_event esc clock addr e cs ≡ some r
    → Reported clock addr cs r
unfolding fmd_proc_event
fmd_proc_event-Reported esc clock addr e cs r h = step (event_disp_dest e) refl
  where
    step : (o : Option Event) → event_disp_dest e ≡ o → Reported clock addr cs r
    step none p = absurd (ground (arith, p, h))
    step (some e') p =
        let same : fmd_case_insert esc clock addr e' cs ≡ r = ground (arith, p, h) in
        subst (Reported clock addr cs) same (fmd_case_insert-Reported esc clock addr e' cs)

atomic_inc_small : (u n : ℕ) → u ≤ n → n < 2 ^ 31 → atomic_inc u ≡ suc u
unfolding atomic_inc
atomic_inc_small u n l h = omega arith

All-append : (P : Event → Type 0) (xs ys : List Event) → All P xs → All P ys → All P (xs ++ ys)
All-append P [] ys h k = k
All-append P (x ∷ xs) ys h k = (h.0, All-append P xs ys h.1 k)

All-todo : (xs : List Event) → All (λ x. x.ev_flag ≡ agent_todo) xs → All IsBound xs
All-todo [] h = tt
All-todo (x ∷ xs) h = (inl h.0, All-todo xs h.1)

module _ (esc : Esc) (agents : List (List Text)) (s : System) (v : IsSystem s) where
  -- The events in flight after a report for the case at the address `b`.
  more :
      (b : ℕ) (out : List Event) (sent : Event)
      → All (λ x. x.ev_flag ≡ agent_todo) out
      → sent.p_case ≡ some b
      → (a : ℕ)
      → (holds a (s.flying ++ deliver agents (out ++ sent ∷ [])) ≤ suc (holds a s.flying))
        × (a ≢ b → holds a (s.flying ++ deliver agents (out ++ sent ∷ [])) ≡ holds a s.flying)
  more b out sent t p a =
      let (one, other) = holds_sent a b out sent t p in
      let few = holds-deliver a agents (out ++ sent ∷ []) in
      let sum = holds-append a s.flying (deliver agents (out ++ sent ∷ [])) in
      (omega (arith, one, few, sum), λ n. omega (arith, other n, few, sum))

  IsBound-more :
      (b : ℕ) (out : List Event) (sent : Event)
      → All (λ x. x.ev_flag ≡ agent_todo) out
      → sent.p_case ≡ some b
      → All IsBound (s.flying ++ deliver agents (out ++ sent ∷ []))
  IsBound-more b out sent t p = All-append _ s.flying (deliver agents (out ++ sent ∷ [])) v.bound (
      IsBound-deliver agents (out ++ sent ∷ [])
        (All-append _ out (sent ∷ []) (All-todo out t) (inr (b, p), tt)))

  abbrev After : List Event → Event → List Case → Type 0
  After out sent ds = IsSystem (record {
    cases = ds;
    flying = s.flying ++ deliver agents (out ++ sent ∷ []);
    reports = suc s.reports;
  })

  known_case :
      (before after : List Case) (c d : Case) (out : List Event) (sent : Event)
      → suc s.reports < 2 ^ 31
      → s.cases ≡ before ++ c ∷ after
      → Bumped c d
      → sent.p_case ≡ some c.addr
      → All (λ x. x.ev_flag ≡ agent_todo) out
      → After out sent (before ++ d ∷ after)
  known_case before after c d out sent few e (same, inc) p t =
      let grow = more c.addr out sent t p in
      record {
        apart = Apart-swap before after c d same (subst Apart e v.apart);
        covered =
            All-change before after c d (subst Apart e v.apart)
              (λ x ne k. (omega (arith, (grow x.addr).1 ne, k.0), omega (arith, k.1)))
              (λ k.
                let up = atomic_inc_small c.m_event_using s.reports k.1 v.few in
                (
                  rw same (omega (arith, (grow c.addr).0, k.0, up, inc)),
                  omega (arith, k.1, up, inc),
                ))
              (subst (All (Covered s.flying s.reports)) e v.covered);
        lives = λ a k. elim (Bool-cases (a == c.addr)) [
          | inl h ↦ (let at : a ≡ d.addr = ground (arith, same) in rw at (Lives-at before after d))
          | inr h ↦
              Lives-swap a before after c d same
                (subst (Lives a) e (v.lives a (omega (arith, (grow a).1 (ground arith), k))))
        ];
        bound = IsBound-more c.addr out sent t p;
        few = few;
      }

  new_place :
      (addr : ℕ) (d : Case) (out : List Event) (sent : Event)
      → suc s.reports < 2 ^ 31
      → All (λ c. c.addr ≢ addr) s.cases
      → d.addr ≡ addr
      → d.m_event_using ≡ 1
      → sent.p_case ≡ some addr
      → All (λ x. x.ev_flag ≡ agent_todo) out
      → After out sent (d ∷ s.cases)
  new_place addr d out sent few fresh at one p t =
      let grow = more addr out sent t p in
      record {
        apart = (rw at fresh, v.apart);
        covered = (
          (rw at (omega (arith, (grow addr).0, none_held, one)), omega (arith, one)),
          others s.cases addr
              (λ x ne k. (omega (arith, (grow x.addr).1 ne, k.0), omega (arith, k.1))) fresh
              v.covered,
        );
        lives = λ a k. elim (Bool-cases (a == addr)) [
          | inl h ↦ inl (ground (arith, at))
          | inr h ↦ inr (v.lives a (omega (arith, (grow a).1 (ground arith), k)))
        ];
        bound = IsBound-more addr out sent t p;
        few = few;
      }
    where
      none_held : holds addr s.flying ≡ 0
      none_held = elim (Bool-cases (ltb 0 (holds addr s.flying))) [
        | inl h ↦ absurd (Lives-fresh addr s.cases fresh (v.lives addr (ground arith)))
        | inr h ↦ ground arith
      ]

  report-IsSystem :
      (clock : Clock) (addr : ℕ) (e : Event) (r : Inserted)
      → All (λ c. c.addr ≢ addr) s.cases
      → suc s.reports < 2 ^ 31
      → fmd_proc_event esc clock addr e s.cases ≡ some r
      → IsSystem (record {
        cases = r.cases;
        flying = s.flying ++ deliver agents r.puts;
        reports = suc s.reports;
      })
  report-IsSystem clock addr e r fresh few h =
      let (e', sent, out, ds, same, puts, added) =
        fmd_proc_event-Reported esc clock addr e s.cases r h in
      rw (same, puts) (place e' sent out ds added)
    where
      place :
          (e' sent : Event) (out : List Event) (ds : List Case)
          → Added addr e' s.cases (ds, sent, out)
          → After out sent ds
      place e' sent out ds (inl (before, after, c, d, at, made, (bumped, p, _, t))) =
          rw made (known_case before after c d out sent few at bumped p t)
      place e' sent out ds (inr (c, d, at, unused, made, ((same, inc), p, _, t))) =
          let up = atomic_inc_small c.m_event_using s.reports (omega arith) v.few in
          rw made (
            new_place addr d out sent few fresh (same ∙ at) (omega (arith, up, inc, unused))
              (p ∙ ap some at) t)

module _ (esc : Esc) (agents : List (List Text)) where
  Step-IsSystem : {s t : System} → IsSystem s → Step esc agents s t → IsSystem t
  Step-IsSystem {s} v (report clock addr e r fresh few h) =
      report-IsSystem esc agents s v clock addr e r fresh few h
  Step-IsSystem {s} v (finish before after e ds fl g) = finish-IsSystem s before after e ds fl g v
  Step-IsSystem {s} v (delete e ds g) = delete-IsSystem s e ds g v

  -- In every reachable state the use counter of a case is at least the number of the events in
  -- flight that name it, and at most the number of the reports; no two cases stand at one address,
  -- and a case stands at each address that an event in flight will be counted down on. A step takes
  -- a report only if fewer than 2^31 have come and a new case gets an address that is not in use.
  pub Reach-IsSystem : {s : System} → Reach esc agents s → IsSystem s
  Reach-IsSystem start = record {
    apart = tt;
    covered = tt;
    lives = λ a k. absurd (omega (arith, k));
    bound = tt;
    few = omega arith;
  }
  Reach-IsSystem (later r st) = Step-IsSystem (Reach-IsSystem r) st

  -- In every reachable state an agent that finishes an event in flight finds the case that the
  -- event names: no case is freed before the last agent has given it free. A step takes a report
  -- only if fewer than 2^31 have come and a new case gets an address that is not in use.
  pub Reach-give_back :
      {s : System} (before after : List Event) (e : Event)
      → Reach esc agents s
      → s.flying ≡ before ++ e ∷ after
      → (ds : List Case) × (give_back e s.cases ≡ some ds)
  Reach-give_back {s} before after e r fl = by_flag (Bool-cases (e.ev_flag == agent_todo))
    where
      v : IsSystem s
      v = Reach-IsSystem r

      named :
          (a : ℕ)
          → e.ev_flag ≢ agent_todo
          → e.p_case ≡ some a
          → (ds : List Case) × (give_back e s.cases ≡ some ds)
      named a n p =
          let here = held_here e a n p in
          let one : 0 < holds a s.flying =
            rw fl (rw (dropped before after e a) (rw here (omega arith))) in
          let (bs, cs, c, _, _, found) = release_case-Lives a s.cases (v.lives a one) in
          (bs ++ released c ∷ cs, give_back-Lives e a s.cases n p ∙ found)

      by_flag :
          (e.ev_flag == agent_todo ≡ true) ⊎ (e.ev_flag == agent_todo ≡ false)
          → (ds : List Case) × (give_back e s.cases ≡ some ds)
      by_flag (inl h) = (s.cases, give_back_todo e s.cases (ground arith))
      by_flag (inr h) = elim (All-at _ before after e (subst (All IsBound) fl v.bound)) [
        | inl t ↦ absurd (ground (arith, t))
        | inr (a, p) ↦ named a (ground arith) p
      ]
