-- ===== src/Queue/Repair.antt =====
-- fms/fmd_queue.c, queue_delete_proc: what becomes of handled events and of their cases.
use fms.Base.{
  ℕ, suc, ◌+◌, ◌%◌, ◌≤◌, ◌<◌, ◌≡◌, refl, ◌⊎◌, inl, inr, Bool, true, false, ◌≢◌, if◌then◌else◌,
  Option, none, some, List, [], ◌∷◌, arith, ◌==◌, Bool-cases,
}
use fms.Event.{Event, list_isolated_failed, list_isolated_success}
use fms.Case.{Case}
use fms.Case.Inv.{IsCases}
use fms.Case.Delete.{Deleted, find_and_delete-Deleted, find_and_delete-IsCases}
use fms.Case.Remove.{fmd_case_find_and_delete}
use fms.Queue.{is_failed, is_repaired, delete_case, queue_delete_one, queue_delete_proc}

delete_case-IsCases : (e : Event) (cs : List Case) → IsCases cs → IsCases (delete_case e cs).0
delete_case-IsCases e cs v = step (fmd_case_find_and_delete e cs) refl
  where
    step :
        (r : Option (List Case)) → fmd_case_find_and_delete e cs ≡ r → IsCases (delete_case e cs).0
    step none h = rw (h, delete_case) v
    step (some ds) h = rw (h, delete_case) (find_and_delete-IsCases e cs ds v h)

queue_delete_one-IsCases :
    (now : ℕ) (e : Event) (cs : List Case) → IsCases cs → IsCases (queue_delete_one now e cs).0
unfolding queue_delete_one
queue_delete_one-IsCases now e cs v =
    let d = delete_case-IsCases e cs v in
    elim (Bool-cases (is_failed e)) [
      | inl f ↦ elim (Bool-cases (e.agent_result == list_isolated_failed)) [
        | inl g ↦ rw (f, g) d
        | inr g ↦ rw (f, g) v
      ]
      | inr f ↦ elim (Bool-cases (e.agent_result == list_isolated_success)) [
        | inl g ↦ rw (f, g) d
        | inr g ↦ elim (Bool-cases (is_repaired now e)) [
          | inl k ↦ rw (f, g, k) d
          | inr k ↦ rw (f, g, k) v
        ]
      ]
    ]

-- A pass over the handled events keeps the cases well formed.
pub queue_delete_proc-IsCases :
    (clock : ℕ → ℕ) (es : List Event) (cs : List Case)
    → IsCases cs
    → IsCases (queue_delete_proc clock es cs).1
unfolding queue_delete_proc
queue_delete_proc-IsCases clock [] cs v = v
queue_delete_proc-IsCases clock (e ∷ es) cs v =
    queue_delete_proc-IsCases (λ i. clock (suc i)) es (queue_delete_one (clock 0) e cs).0
      (queue_delete_one-IsCases (clock 0) e cs v)

-- What `fmd_case_find_and_delete` makes of the cases, and whether it finds something.
abbrev pub Deletion : Event → List Case → List Case → Bool → Type 0
Deletion e cs ds b =
    ((b ≡ true) × Deleted e cs (some ds)) ⊎ ((b ≡ false) × (ds ≡ cs) × Deleted e cs none)

delete_case-Deletion :
    (e : Event) (cs : List Case) → Deletion e cs (delete_case e cs).0 (delete_case e cs).1
delete_case-Deletion e cs = step (fmd_case_find_and_delete e cs) refl (find_and_delete-Deleted e cs)
  where
    step :
        (r : Option (List Case))
        → fmd_case_find_and_delete e cs ≡ r
        → Deleted e cs r
        → Deletion e cs (delete_case e cs).0 (delete_case e cs).1
    step none h d = rw (h, delete_case) (inr (refl, refl, d))
    step (some ds) h d = rw (h, delete_case) (inl (refl, d))

-- The time of the repair has passed, and the event was repaired less than `repaired_n` times.
abbrev pub IsDue : ℕ → Event → Type 0
IsDue now e = (e.repaired_t + e.ev_create ≤ now) × (e.ev_refs < e.repaired_n)

-- What a round at the time `now` does with the event and the cases, by the result of the agent. A
-- failed isolation deletes and keeps the event if something was found; another failure only keeps
-- it. A success of isolation deletes and keeps it. Any other event is deleted and dropped if it is
-- due, and only kept if not.
abbrev pub Treated : ℕ → Event → List Case → List Case → Bool → Type 0
Treated now e cs ds kept =
    ((e.agent_result ≡ list_isolated_failed) × Deletion e cs ds kept)
    ⊎ ((e.agent_result % 2 ≡ 1)
        × (e.agent_result ≢ list_isolated_failed)
        × (ds ≡ cs)
        × (kept ≡ true))
    ⊎ ((e.agent_result ≡ list_isolated_success) × (kept ≡ true) × ((b : Bool) × Deletion e cs ds b))
    ⊎ ((e.agent_result % 2 ≡ 0)
        × (e.agent_result ≢ list_isolated_success)
        × ((IsDue now e × (kept ≡ false) × ((b : Bool) × Deletion e cs ds b))
            ⊎ ((¬ IsDue now e) × (kept ≡ true) × (ds ≡ cs))))

queue_delete_one-Treated :
    (now : ℕ) (e : Event) (cs : List Case)
    → Treated now e cs (queue_delete_one now e cs).0 (queue_delete_one now e cs).1
unfolding queue_delete_one
queue_delete_one-Treated now e cs =
    let d = delete_case-Deletion e cs in
    elim (Bool-cases (is_failed e)) [
      | inl f ↦ elim (Bool-cases (e.agent_result == list_isolated_failed)) [
        | inl g ↦ rw (f, g) (inl (ground arith, d))
        | inr g ↦ rw (f, g) (inr (inl (ground arith, ground arith, refl, refl)))
      ]
      | inr f ↦ elim (Bool-cases (e.agent_result == list_isolated_success)) [
        | inl g ↦ rw (f, g) (inr (inr (inl (ground arith, refl, ((delete_case e cs).1, d)))))
        | inr g ↦ elim (Bool-cases (is_repaired now e)) [
          | inl k ↦
              rw (f, g, k)
                (inr (
                  inr (
                    inr
                      (even f, ground arith, inl (ground arith, refl, ((delete_case e cs).1, d))))))
          | inr k ↦
              rw (f, g, k)
                (inr (
                  inr (
                    inr (
                      even f,
                      ground arith,
                      inr ((λ due. absurd (ground (arith, due))), refl, refl),
                    ))))
        ]
      ]
    ]
  where
    even : is_failed e ≡ false → e.agent_result % 2 ≡ 0
    even f = let odd : e.agent_result % 2 ≢ 1 = ground (arith, f) in omega (arith, odd)

-- The rounds of a pass, one for each event at the time that it reads: the list and the cases at the
-- end.
abbrev pub Passes : (ℕ → ℕ) → List Event → List Case → List Event → List Case → Type 0
Passes clock [] cs out final = (out ≡ []) × (final ≡ cs)
Passes clock (e ∷ es) cs out final =
    (ds : List Case) × (kept : Bool) × (rest : List Event) × Treated (clock 0) e cs ds kept
    × Passes (λ i. clock (suc i)) es ds rest final
    × (out ≡ (if kept then e ∷ rest else rest))

-- A pass over the handled events treats each of them once, in order, with the cases that the events
-- before it left: what is deleted and what stays is decided by the result of the agent, and for an
-- event that is neither failed nor isolated by its time and the number of its repairs.
pub queue_delete_proc-Passes :
    (clock : ℕ → ℕ) (es : List Event) (cs : List Case)
    → Passes clock es cs (queue_delete_proc clock es cs).0 (queue_delete_proc clock es cs).1
unfolding queue_delete_proc
queue_delete_proc-Passes clock [] cs = (refl, refl)
queue_delete_proc-Passes clock (e ∷ es) cs =
    let one = queue_delete_one (clock 0) e cs in
    let later = λ (i : ℕ). clock (suc i) in
    (
      one.0,
      one.1,
      (queue_delete_proc later es one.0).0,
      queue_delete_one-Treated (clock 0) e cs,
      queue_delete_proc-Passes later es one.0,
      refl,
    )
