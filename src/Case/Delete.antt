-- ===== src/Case/Delete.antt =====
-- lib/libcase/fmd_case.c, fmd_case_find_and_delete: which case and which event go, and what stays.
use fms.Base.{
  ℕ, suc, ◌≤◌, ◌≡◌, refl, ap, subst, ◌≢◌, ◌⊎◌, inl, inr, true, false, Option, none, some, List, [],
  ◌∷◌, ◌++◌, arith, ◌==◌, ==_iff, Bool-cases, length, length-append, All,
}
use fms.Case.Cases.{is_case_of_iff}
use fms.Event.{Event, list_isolated_success}
use fms.Case.{Case, atomic_is_positive, is_case_of}
use fms.Case.Inv.{IsCases, Other, Owned, ids, OneEach, Unused, occurrences}
use fms.Case.Remove.{drop_event, delete_at, visit, fmd_case_find_and_delete}

-- What is true of the events that are left when one is missing.
abbrev Dropped : ℕ → List Event → List Event → Type 0
Dropped n xs ys =
    ((k : ℕ) → Unused k (ids xs) → Unused k (ids ys))
    × (OneEach (ids xs) → OneEach (ids ys) × Unused n (ids ys))
    × ((c : Case) → All (Owned c) xs → All (Owned c) ys)
    × (occurrences ys ≤ occurrences xs)
    × (suc (length ys) ≡ length xs)

-- The first event of that id is missing, and no other.
abbrev pub Without : ℕ → List Event → List Event → Type 0
Without n xs ys =
    (before : List Event) × (x : Event) × (after : List Event) × (xs ≡ before ++ x ∷ after)
    × (ys ≡ before ++ after)
    × (x.evt_id ≡ n)
    × Unused n (ids before)

abbrev Left : ℕ → List Event → Option (List Event) → Type 0
Left n xs none = Unused n (ids xs)
Left n xs (some ys) = Without n xs ys

drop_event-Left : (n : ℕ) (xs : List Event) → Left n xs (drop_event n xs)
unfolding drop_event
drop_event-Left n [] = tt
drop_event-Left n (x ∷ xs) = elim (Bool-cases (x.evt_id == n)) [
  | inl h ↦ rw (h, drop_event) ([], x, xs, refl, refl, (==_iff x.evt_id n).0 h, tt)
  | inr h ↦ miss h (drop_event n xs) refl (drop_event-Left n xs)
]
  where
    miss :
        x.evt_id == n ≡ false
        → (r : Option (List Event)) → drop_event n xs ≡ r
        → Left n xs r
        → Left n (x ∷ xs) (drop_event n (x ∷ xs))
    miss h none q d = rw (h, drop_event, q) (ground arith, d)
    miss h (some ys) q (before, y, after, e1, e2, k, u) =
        rw (h, drop_event, q)
          (x ∷ before, y, after, ap (◌∷◌ x) e1, ap (◌∷◌ x) e2, k, (ground arith, u))

-- What the loss of one event keeps.
Without-Dropped :
    (n : ℕ) (before : List Event) (x : Event) (after : List Event)
    → x.evt_id ≡ n
    → Unused n (ids before)
    → Dropped n (before ++ x ∷ after) (before ++ after)
Without-Dropped n [] x after h u =
    (λ k u. u.1, λ o. (o.1, subst (λ m. Unused m (ids after)) h o.0), λ c o. o.1, omega arith, refl)
Without-Dropped n (y ∷ before) x after h u =
    let d = Without-Dropped n before x after h u.1 in
    (
      λ k v. (v.0, d.0 k v.1),
      λ o. ((d.0 y.evt_id o.0, (d.1 o.1).0), (u.0, (d.1 o.1).1)),
      λ c o. (o.0, d.2 c o.1),
      omega (arith, d.3),
      ap suc d.4,
    )

-- The case is the one of the device of the event.
abbrev pub OfDevice : Event → Case → Type 0
OfDevice e c = (c.dev_name ≡ e.dev_name) × (c.dev_id ≡ e.dev_id)

-- A case that `fmd_case_find_and_delete` passes over: of another device, or in use by an agent, or
-- without the event although the device is not isolated.
abbrev pub Passed : Event → Case → Type 0
Passed e c =
    (¬ OfDevice e c)
    ⊎ (atomic_is_positive c.m_event_using ≡ true)
    ⊎ ((e.agent_result ≢ list_isolated_success) × Unused e.evt_id (ids c.cs_event))

-- A case that it stops at, with what stands in the case's place afterwards.
abbrev pub Stopped : Event → Case → List Case → Type 0
Stopped e c ds =
    OfDevice e c
    × (atomic_is_positive c.m_event_using ≡ false)
    × (((e.agent_result ≡ list_isolated_success) × (ds ≡ []))
        ⊎ ((e.agent_result ≢ list_isolated_success)
            × (ys : List Event) × Without e.evt_id c.cs_event ys
            × (ds ≡ record c { cs_event = ys } ∷ [])))

abbrev Visited : Event → Case → Option (List Case) → Type 0
Visited e c none = Passed e c
Visited e c (some ds) = Stopped e c ds

visit-Visited : (e : Event) (c : Case) → Visited e c (visit e c)
unfolding visit delete_at
visit-Visited e c = elim (Bool-cases (atomic_is_positive c.m_event_using)) [
  | inl busy ↦ rw (busy, visit) (inr (inl busy))
  | inr idle ↦ elim (Bool-cases (is_case_of e c)) [
    | inr other ↦
        rw (idle, visit, other) (inl (λ d. absurd (ground (arith, (is_case_of_iff e c).1 d))))
    | inl same ↦ elim (Bool-cases (e.agent_result == list_isolated_success)) [
      | inl gone ↦
          rw (idle, visit, same, gone, delete_at)
            ((is_case_of_iff e c).0 same, idle, inl (ground arith, refl))
      | inr kept ↦
          dropped idle same kept (drop_event e.evt_id c.cs_event) refl
            (drop_event-Left e.evt_id c.cs_event)
    ]
  ]
]
  where
    dropped :
        atomic_is_positive c.m_event_using ≡ false
        → is_case_of e c ≡ true
        → e.agent_result == list_isolated_success ≡ false
        → (r : Option (List Event)) → drop_event e.evt_id c.cs_event ≡ r
        → Left e.evt_id c.cs_event r
        → Visited e c (visit e c)
    dropped idle same kept none q d =
        rw (idle, visit, same, kept, delete_at, q) (inr (inr (ground arith, d)))
    dropped idle same kept (some ys) q d =
        rw (idle, visit, same, kept, delete_at, q)
          ((is_case_of_iff e c).0 same, idle, inr (ground arith, ys, d, refl))

-- What `fmd_case_find_and_delete` returns.
abbrev pub Deleted : Event → List Case → Option (List Case) → Type 0
Deleted e cs none = All (Passed e) cs
Deleted e cs (some ds) =
    (before : List Case) × (c : Case) × (after : List Case) × (new : List Case) × (cs
      ≡ before ++ c ∷ after)
    × (ds ≡ before ++ (new ++ after))
    × All (Passed e) before
    × Stopped e c new

-- `fmd_case_find_and_delete` stops at the first case of the device that no agent uses and that has
-- the event, or at the first unused one if the device is isolated. It then takes away that whole
-- case if the device is isolated, and if not only the first event of that id under it; all other
-- events and cases stay. It returns -1
-- exactly when it passes over every case.
pub find_and_delete-Deleted :
    (e : Event) (cs : List Case) → Deleted e cs (fmd_case_find_and_delete e cs)
unfolding fmd_case_find_and_delete
find_and_delete-Deleted e [] = tt
find_and_delete-Deleted e (c ∷ cs) =
    first (visit e c) refl (visit-Visited e c) (fmd_case_find_and_delete e cs) refl
      (find_and_delete-Deleted e cs)
  where
    first :
        (r : Option (List Case))
        → visit e c ≡ r
        → Visited e c r
        → (s : Option (List Case)) → fmd_case_find_and_delete e cs ≡ s
        → Deleted e cs s
        → Deleted e (c ∷ cs) (fmd_case_find_and_delete e (c ∷ cs))
    first (some ds) p v s q d = rw (p, fmd_case_find_and_delete) ([], c, cs, ds, refl, refl, tt, v)
    first none p v none q d = rw (p, fmd_case_find_and_delete, q) (v, d)
    first none p v (some ds) q (before, x, after, new, e1, e2, passed, stopped) =
        rw (p, fmd_case_find_and_delete, q)
          (c ∷ before, x, after, new, ap (◌∷◌ c) e1, ap (◌∷◌ c) e2, (v, passed), stopped)

-- A successful deletion that is not for an isolated device frees no case: there are as many cases
-- as before, also if the event was the last one of its case.
pub find_and_delete_keeps_cases :
    (e : Event) (cs ds : List Case)
    → e.agent_result ≢ list_isolated_success
    → fmd_case_find_and_delete e cs ≡ some ds
    → length ds ≡ length cs
find_and_delete_keeps_cases e cs ds h q =
    let (before, x, after, new, e1, e2, _, stopped) =
      subst (Deleted e cs) q (find_and_delete-Deleted e cs) in
    elim (stopped.2) [
      | inl (iso, _) ↦ absurd (h iso)
      | inr (_, ys, _, e3) ↦ omega (
        arith,
        ap length e1,
        ap length e2,
        ap length e3,
        length-append before (x ∷ after),
        length-append before (new ++ after),
        length-append new after,
      )
    ]

-- The loss of a case, or of an event under it, keeps the cases well formed.
IsCases-replace :
    (e : Event) (before : List Case) (c : Case) (after new : List Case)
    → Stopped e c new
    → IsCases (before ++ c ∷ after)
    → IsCases (before ++ (new ++ after))
      × ((b : Case)
          → All (Other b) (before ++ c ∷ after)
          → All (Other b) (before ++ (new ++ after)))
IsCases-replace e [] c after new (_, _, inl (_, g)) v = rw g (v.2, λ b o. o.1)
IsCases-replace e [] c after new (_, _, inr (_, ys, (b, x, a, e1, e2, k, u), g)) v =
    let d : Dropped e.evt_id c.cs_event ys = rw (e1, e2) (Without-Dropped e.evt_id b x a k u) in
    rw g (
      (
        record {
          one_each = (d.1 v.0.one_each).0;
          owned = d.2 c v.0.owned;
          total = omega (arith, d.3, v.0.total);
          fired = v.0.fired;
        },
        v.1,
        v.2,
      ),
      λ b o. o,
    )
IsCases-replace e (x ∷ before) c after new st v =
    let (ok, others) = IsCases-replace e before c after new st v.2 in
    ((v.0, others x v.1, ok), λ b o. (o.0, others b o.1))

pub find_and_delete-IsCases :
    (e : Event) (cs ds : List Case)
    → IsCases cs
    → fmd_case_find_and_delete e cs ≡ some ds
    → IsCases ds
find_and_delete-IsCases e cs ds v q =
    let (before, x, after, new, e1, e2, _, stopped) =
      subst (Deleted e cs) q (find_and_delete-Deleted e cs) in
    rw e2 (IsCases-replace e before x after new stopped (subst IsCases e1 v)).0
