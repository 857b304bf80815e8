-- ===== src/Topology/Refines.antt =====
-- The tree of the processors of lib/libtopo/topo_tree.c is well formed and has their threads, each once.
use fms.Base.{ℕ, ◌≡◌, refl, ◌↔◌, inl, inr, List, [], ◌∷◌, arith, Bool-cases, All}
use fms.Topology.{
  TopoCpu, Thread, Core, Chip, Chassis, has_child, change_child, put, new_thread, add_thread,
  add_core, add_chip, boards, fill_chassis, add_cpu, traverse_cpus,
}
use fms.Topology.Node.{Any, Distinct, put-IsForest}
use fms.Topology.Cpus.{
  chips, IsStated, IsCore, IsChip, IsChassis, IsTree, InChassis, IsAt, boards-chips,
  traverse_cpus-Any,
}

All-Unit : (ts : List Thread) → All (λ t. Unit {0}) ts
All-Unit [] = tt
All-Unit (t ∷ ts) = (tt, All-Unit ts)

change_child-unchanged :
    (key : Thread → ℕ) (k : ℕ) (ts : List Thread) → change_child key k (λ t. t) ts ≡ ts
unfolding change_child
change_child-unchanged key k [] = refl
change_child-unchanged key k (t ∷ ts) = ground (arith, change_child-unchanged key k ts)

add_thread-IsStated : (c : TopoCpu) (ts : List Thread) → IsStated ts → IsStated (add_thread c ts)
unfolding add_thread new_thread put has_child
add_thread-IsStated c [] s = refl
add_thread-IsStated c (t ∷ ts) s =
    elim (Bool-cases (has_child (λ t. t.tn_value) c.processor (t ∷ ts))) [
      | inl y ↦ rw y (rw (change_child-unchanged (λ t. t.tn_value) c.processor (t ∷ ts)) s)
      | inr n ↦ rw n (refl, s)
    ]

new_thread-tn_value : (v : ℕ) (ts : List Thread) → (new_thread v ts).tn_value ≡ v
unfolding new_thread
new_thread-tn_value v [] = refl
new_thread-tn_value v (t ∷ ts) = refl

add_thread-IsCore :
    (c : TopoCpu) (v : ℕ) (ts : List Thread)
    → IsCore (record { tn_value = v; ht_head = ts })
    → IsCore (record { tn_value = v; ht_head = add_thread c ts })
unfolding add_thread new_thread
add_thread-IsCore c v ts (d, s) = (
  (put-IsForest (λ t. t.tn_value) c.processor (λ t. Unit) (new_thread c.processor ts) (λ t. t) ts
      (λ t. refl) (new_thread-tn_value c.processor ts) (λ t u. tt) tt (d, All-Unit ts)).0,
  add_thread-IsStated c ts s,
)

add_core-IsForest :
    (c : TopoCpu) (os : List Core)
    → Distinct (λ o. o.tn_value) os × All IsCore os
    → Distinct (λ o. o.tn_value) (add_core c os) × All IsCore (add_core c os)
unfolding add_core
add_core-IsForest c os =
    put-IsForest (λ o. o.tn_value) c.cpu_core IsCore _ _ os (λ o. refl) refl
      (λ o h. add_thread-IsCore c o.tn_value o.ht_head h)
      (add_thread-IsCore c c.cpu_core [] (tt, tt))

add_chip-IsForest :
    (c : TopoCpu) (hs : List Chip)
    → Distinct (λ h. h.tn_value) hs × All IsChip hs
    → Distinct (λ h. h.tn_value) (add_chip c hs) × All IsChip (add_chip c hs)
unfolding add_chip
add_chip-IsForest c hs =
    put-IsForest (λ h. h.tn_value) c.cpu_socket IsChip _ _ hs (λ h. refl) refl
      (λ h w. add_core-IsForest c h.core_head w) (add_core-IsForest c [] (tt, tt))

add_cpu-IsTree : (c : TopoCpu) (root : List Chassis) → IsTree root → IsTree (add_cpu c root)
unfolding add_cpu fill_chassis boards
add_cpu-IsTree c root =
    put-IsForest (λ ch. ch.tn_value) c.cpu_chassis IsChassis _ _ root (λ ch. refl) refl
      (λ ch w.
        let f = add_chip-IsForest c (chips ch) (w.1, w.2) in
        (ground arith, rw (boards-chips c ch) f.0, rw (boards-chips c ch) f.1))
      (let f = add_chip-IsForest c [] (tt, tt) in (ground arith, f.0, f.1))

traverse_cpus-IsTree :
    (cs : List TopoCpu) (root : List Chassis) → IsTree root → IsTree (traverse_cpus cs root)
unfolding traverse_cpus
traverse_cpus-IsTree [] root w = w
traverse_cpus-IsTree (c ∷ cs) root w =
    traverse_cpus-IsTree cs (add_cpu c root) (add_cpu-IsTree c root w)

-- The loop over the processors makes a tree in which the children of each node have different
-- values and the first thread of each core is linked and the others are bound, and whose threads
-- are, below their chassis, chip and core, exactly those of the processors.
pub traverse_cpus-refines :
    (cs : List TopoCpu)
    → IsTree (traverse_cpus cs [])
      × ((chassis socket core thread : ℕ)
          → Any (InChassis chassis socket core thread) (traverse_cpus cs [])
            ↔ Any (IsAt chassis socket core thread) cs)
traverse_cpus-refines cs = (
  traverse_cpus-IsTree cs [] (tt, tt),
  λ chassis socket core thread. ground (arith, traverse_cpus-Any chassis socket core thread cs []),
)
