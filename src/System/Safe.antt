-- ===== src/System/Safe.antt =====
-- An agent that finishes an event, and the queue thread when it deletes, keep the invariant.
use fms.Base.{
  ℕ, ◌+◌, ◌^◌, ◌≤◌, ◌<◌, ◌≡◌, refl, sym, ap, ◌∙◌, subst, ◌≢◌, ◌⊎◌, inl, inr, true, false, some,
  List, [], ◌∷◌, ◌++◌, arith, ◌==◌, if◌then◌else◌, Bool-cases, All,
}
use fms.Event.{Event, agent_todo}
use fms.Case.{Case, atomic_dec, atomic_is_positive}
use fms.Case.Remove.{fmd_case_find_and_delete}
use fms.Case.Delete.{Deleted, Stopped, find_and_delete-Deleted}
use fms.Agent.{give_back, release_case}
use fms.System.{System}
use fms.System.Cells.{
  Apart, Lives, Apart-swap, All-change, Lives-swap, Apart-drop, Lives-drop, released,
  release_case-Lives, All-at, All-swap, All-drop,
}
use fms.System.Held.{is_held, holds, holds-append, IsBound, Covered, IsSystem}

All-mono : {P Q : Case → Type 0} (cs : List Case) → ((x : Case) → P x → Q x) → All P cs → All Q cs
All-mono [] f h = tt
All-mono (c ∷ cs) f h = (f c h.0, All-mono cs f h.1)

-- Fewer events in flight, or more reports, cover the same cases.
Covered-less :
    (fl fl' : List Event) (n : ℕ) (c : Case)
    → holds c.addr fl' ≤ holds c.addr fl
    → Covered fl n c
    → Covered fl' n c
Covered-less fl fl' n c h v = (omega (arith, h, v.0), v.1)

-- An agent finds the case of any event it has taken.
pub give_back-Lives :
    (e : Event) (a : ℕ) (cs : List Case)
    → e.ev_flag ≢ agent_todo
    → e.p_case ≡ some a
    → give_back e cs ≡ release_case a cs
unfolding give_back
give_back-Lives e a cs n p = ground (arith, p)

pub give_back_todo :
    (e : Event) (cs : List Case) → e.ev_flag ≡ agent_todo → give_back e cs ≡ some cs
unfolding give_back
give_back_todo e cs h = ground arith

pub dropped :
    (before after : List Event) (e : Event) (a : ℕ)
    → holds a (before ++ e ∷ after) ≡ (if is_held a e then 1 else 0) + holds a (before ++ after)
dropped before after e a =
    omega (arith, holds-append a before (e ∷ after), holds-append a before after)

pub held_here :
    (e : Event) (a : ℕ) → e.ev_flag ≢ agent_todo → e.p_case ≡ some a → is_held a e ≡ true
held_here e a n p = ground (arith, p)

Covered-released :
    (before after : List Event) (e : Event) (n : ℕ) (c : Case)
    → n < 2 ^ 31
    → is_held c.addr e ≡ true
    → Covered (before ++ e ∷ after) n c
    → Covered (before ++ after) n (released c)
unfolding atomic_dec
Covered-released before after e n c few h v =
    let d = dropped before after e c.addr in
    let one : holds c.addr (before ++ e ∷ after) ≡ 1 + holds c.addr (before ++ after) =
      rw d (rw h refl) in
    (omega (arith, one, v.0, v.1), omega (arith, one, v.0, v.1))

unheld : (u n : ℕ) → u ≤ n → n < 2 ^ 31 → atomic_is_positive u ≡ false → u ≡ 0
unfolding atomic_is_positive
unheld u n l few h = ground arith

-- An agent finishes an event: its case is counted down, if the event counts at all.
pub finish-IsSystem :
    (s : System) (before after : List Event) (e : Event) (ds : List Case)
    → s.flying ≡ before ++ e ∷ after
    → give_back e s.cases ≡ some ds
    → IsSystem s
    → IsSystem (record s { cases = ds; flying = before ++ after })
finish-IsSystem s before after e ds fl g v = by_flag (Bool-cases (e.ev_flag == agent_todo))
  where
    less : (a : ℕ) → holds a (before ++ after) ≤ holds a s.flying
    less a = omega (arith, ap (holds a) fl, dropped before after e a)

    bound_rest : All IsBound (before ++ after)
    bound_rest = All-drop _ before after e (subst (All IsBound) fl v.bound)

    todo : e.ev_flag ≡ agent_todo → IsSystem (record s { cases = ds; flying = before ++ after })
    todo h =
        let same : ds ≡ s.cases = ground (arith, give_back_todo e s.cases h, g) in
        record {
          apart = rw same v.apart;
          covered =
              rw same (All-mono s.cases (λ x k. (omega (arith, less x.addr, k.0), k.1)) v.covered);
          lives = λ a k. rw same (v.lives a (omega (arith, less a)));
          bound = bound_rest;
          few = v.few;
        }

    settle :
        (bs cs : List Case) (c : Case)
        → s.cases ≡ bs ++ c ∷ cs
        → is_held c.addr e ≡ true
        → ds ≡ bs ++ released c ∷ cs
        → IsSystem (record s { cases = ds; flying = before ++ after })
    settle bs cs c at here result = record {
      apart = rw result (Apart-swap bs cs c (released c) refl (subst Apart at v.apart));
      covered = rw result (
          All-change bs cs c (released c) (subst Apart at v.apart)
            (λ x ne k. (omega (arith, less x.addr, k.0), k.1))
            (λ k.
              Covered-released before after e s.reports c v.few here
                (subst (λ f. Covered f s.reports c) fl k))
            (subst (All (Covered s.flying s.reports)) at v.covered));
      lives = λ b k. rw result (
          Lives-swap b bs cs c (released c) refl
            (subst (Lives b) at (v.lives b (omega (arith, less b)))));
      bound = bound_rest;
      few = v.few;
    }

    counted :
        (a : ℕ)
        → e.ev_flag ≢ agent_todo
        → e.p_case ≡ some a
        → IsSystem (record s { cases = ds; flying = before ++ after })
    counted a n p =
        let here = held_here e a n p in
        let one : 0 < holds a s.flying =
          rw fl (rw (dropped before after e a) (rw here (omega arith))) in
        let (bs, cs, c, at, same, found) = release_case-Lives a s.cases (v.lives a one) in
        settle bs cs c at (subst (λ k. is_held k e ≡ true) (sym same) here)
          (ground (arith, give_back-Lives e a s.cases n p, found, g))

    by_flag :
        (e.ev_flag == agent_todo ≡ true) ⊎ (e.ev_flag == agent_todo ≡ false)
        → IsSystem (record s { cases = ds; flying = before ++ after })
    by_flag (inl h) = todo (ground arith)
    by_flag (inr h) = elim (All-at _ before after e (subst (All IsBound) fl v.bound)) [
      | inl t ↦ absurd (ground (arith, t))
      | inr (a, p) ↦ counted a (ground arith) p
    ]

-- The queue thread deletes a case, or an event of a case.
pub delete-IsSystem :
    (s : System) (e : Event) (ds : List Case)
    → fmd_case_find_and_delete e s.cases ≡ some ds
    → IsSystem s
    → IsSystem (record s { cases = ds })
delete-IsSystem s e ds g v =
    let (before, x, after, new, e1, e2, _, stopped) =
      subst (Deleted e s.cases) g (find_and_delete-Deleted e s.cases) in
    change before x after new e1 e2 stopped
  where
    change :
        (before : List Case) (x : Case) (after new : List Case)
        → s.cases ≡ before ++ x ∷ after
        → ds ≡ before ++ (new ++ after)
        → Stopped e x new
        → IsSystem (record s { cases = ds })
    change before x after new e1 e2 (_, free, how) =
        let cover = subst (All (Covered s.flying s.reports)) e1 v.covered in
        let (used, most) = All-at _ before after x cover in
        let zero_use = unheld x.m_event_using s.reports most v.few free in
        elim how [
          | inl (_, gone) ↦
              (let result : ds ≡ before ++ after = e2 ∙ ap (λ n. before ++ (n ++ after)) gone in
                record {
                  apart = rw result (Apart-drop before after x (subst Apart e1 v.apart));
                  covered = rw result (All-drop _ before after x cover);
                  lives = λ a k. rw result (
                      Lives-drop a before after x
                        (λ h.
                          absurd (omega (arith, used, zero_use, ap (λ b. holds b s.flying) h, k)))
                        (subst (Lives a) e1 (v.lives a k)));
                  bound = v.bound;
                  few = v.few;
                })
          | inr (_, ys, _, kept) ↦
              (let result : ds ≡ before ++ (record x { cs_event = ys } ∷ after) =
                  e2 ∙ ap (λ n. before ++ (n ++ after)) kept in
                record {
                  apart = rw result (
                      Apart-swap before after x (record x { cs_event = ys }) refl
                        (subst Apart e1 v.apart));
                  covered =
                      rw result
                        (All-swap _ before after x (record x { cs_event = ys }) (used, most) cover);
                  lives = λ a k. rw result (
                      Lives-swap a before after x (record x { cs_event = ys }) refl
                        (subst (Lives a) e1 (v.lives a k)));
                  bound = v.bound;
                  few = v.few;
                })
        ]
