-- ===== src/Topology/Loops.antt =====
-- The loops of fmd_topo_tree of lib/libtopo/topo_tree.c over devices that need a place in the tree.
use fms.Base.{
  ◌≡◌, refl, subst, ◌≢◌, ◌↔◌, inl, inr, Option, none, some, List, [], ◌∷◌, arith, Option-cases, All,
}
use fms.Topology.{Chip, Chassis}
use fms.Topology.Node.{Any, Distinct}
use fms.Topology.Cpus.{chips}
use fms.Topology.Devices.{
  TopoPci, TopoMem, pci_chassis_step, add_pci, mem_chip_step, mem_chassis_step, add_mem, traverse,
}
use fms.Topology.Update.{update_iff}
use fms.Topology.Places.{
  IsPlaced, HasChassis, HasChip, SamePlaces, pci_step-Leaves, mem_step-Leaves, update-SamePlaces,
  update-IsPlaced,
}

Any-swap :
    {A : Type 0} (P Q R : A → Type 0) (xs : List A)
    → All R xs
    → ((x : A) → R x → P x ↔ Q x)
    → Any P xs ↔ Any Q xs
Any-swap P Q R [] a h = ground arith
Any-swap P Q R (x ∷ xs) a h = ground (arith, h x a.0, Any-swap P Q R xs a.1 h)

All-refl : (hs : List Chip) → All (λ h. h.tn_value ≡ h.tn_value) hs
All-refl [] = tt
All-refl (h ∷ hs) = (refl, All-refl hs)

pub SamePlaces-trans : (a b c : List Chassis) → SamePlaces a b → SamePlaces b c → SamePlaces a c
SamePlaces-trans a b c p q = (
  λ k. ground (arith, p.0 k, q.0 k),
  λ k s. ground (arith, p.1 k s, q.1 k s),
  λ k s o t. ground (arith, p.2 k s o t, q.2 k s o t),
)

pub add_pci_iff :
    (p : TopoPci) (root : List Chassis)
    → IsPlaced root
    → (add_pci p root ≢ none) ↔ HasChassis p.pci_chassis root
unfolding add_pci pci_chassis_step
add_pci_iff p root (d, a) =
    let u = update_iff (λ ch. ch.tn_value) p.pci_chassis (pci_chassis_step p) root d in
    let w =
      Any-swap (λ ch. (ch.tn_value ≡ p.pci_chassis) × (pci_chassis_step p ch ≢ none))
        (λ ch. ch.tn_value ≡ p.pci_chassis)
        (λ ch. (ch.mb ≢ none) × Distinct (λ h. h.tn_value) (chips ch)) root a
        (λ ch r. ground arith) in
    (λ n. w.0 (u.0 n), λ n. u.1 (w.1 n))

mem_step_iff :
    (m : TopoMem) (ch : Chassis)
    → (ch.mb ≢ none) × Distinct (λ h. h.tn_value) (chips ch)
    → (mem_chassis_step m ch ≢ none) ↔ Any (λ h. h.tn_value ≡ m.mem_socket) (chips ch)
unfolding mem_chassis_step mem_chip_step
mem_step_iff m ch (n, d) =
    let u = update_iff (λ h. h.tn_value) m.mem_socket (mem_chip_step m) (chips ch) d in
    let w =
      Any-swap (λ h. (h.tn_value ≡ m.mem_socket) × (mem_chip_step m h ≢ none))
        (λ h. h.tn_value ≡ m.mem_socket) (λ h. h.tn_value ≡ h.tn_value) (chips ch)
        (All-refl (chips ch)) (λ h r. ground arith) in
    ground (arith, u, w)

pub add_mem_iff :
    (m : TopoMem) (root : List Chassis)
    → IsPlaced root
    → (add_mem m root ≢ none) ↔ HasChip m.mem_chassis m.mem_socket root
unfolding add_mem
add_mem_iff m root (d, a) =
    let u = update_iff (λ ch. ch.tn_value) m.mem_chassis (mem_chassis_step m) root d in
    let w =
      Any-swap (λ ch. (ch.tn_value ≡ m.mem_chassis) × (mem_chassis_step m ch ≢ none))
        (λ ch. (ch.tn_value ≡ m.mem_chassis) × Any (λ h. h.tn_value ≡ m.mem_socket) (chips ch))
        (λ ch. (ch.mb ≢ none) × Distinct (λ h. h.tn_value) (chips ch)) root a
        (λ ch r. ground (arith, mem_step_iff m ch r)) in
    (λ n. w.0 (u.0 n), λ n. u.1 (w.1 n))

-- A loop over devices, each of which needs a place of the tree.
module _ {D : Type 0} (add : D → List Chassis → Option (List Chassis))
    (Need : D → List Chassis → Type 0)
    (adds : (d : D) (root : List Chassis) → IsPlaced root → (add d root ≢ none) ↔ Need d root)
    (keeps : (d : D) (root r : List Chassis)
      → add d root ≡ some r
      → SamePlaces r root × (IsPlaced root → IsPlaced r))
    (same : (d : D) (root r : List Chassis) → SamePlaces r root → Need d r ↔ Need d root) where
  All-Need :
      (ds : List D) (root r : List Chassis)
      → SamePlaces r root
      → All (λ d. Need d r) ds ↔ All (λ d. Need d root) ds
  All-Need [] root r s = (λ a. a, λ a. a)
  All-Need (d ∷ ds) root r s = ground (arith, same d root r s, All-Need ds root r s)

  pub traverse_iff :
      (ds : List D) (root : List Chassis)
      → IsPlaced root
      → (traverse add ds root ≢ none) ↔ All (λ d. Need d root) ds
  unfolding traverse
  traverse_iff [] root p = ground arith
  traverse_iff (d ∷ ds) root p =
      let a = adds d root p in
      elim (Option-cases (add d root)) [
        | inl n ↦ ground (arith, n, a)
        | inr (r, s) ↦
            let k = keeps d root r s in
            let w = traverse_iff ds r (k.1 p) in
            let v = All-Need ds root r k.0 in ground (arith, s, a, w, v)
      ]

  pub traverse-keeps :
      (ds : List D) (root r : List Chassis)
      → traverse add ds root ≡ some r
      → SamePlaces r root × (IsPlaced root → IsPlaced r)
  unfolding traverse
  traverse-keeps [] root r e =
      subst (λ x. SamePlaces x root × (IsPlaced root → IsPlaced x)) (ground arith)
        ((λ k. (λ a. a, λ a. a), λ k s. (λ a. a, λ a. a), λ k s o t. (λ a. a, λ a. a)), λ p. p)
  traverse-keeps (d ∷ ds) root r e = elim (Option-cases (add d root)) [
    | inl n ↦ absurd (ground (arith, n))
    | inr (x, s) ↦
        let k = keeps d root x s in
        let t : traverse add ds x ≡ some r = ground (arith, s) in
        let w = traverse-keeps ds x r t in (SamePlaces-trans r x root w.0 k.0, λ p. w.1 (k.1 p))
  ]

pub add_pci-keeps :
    (p : TopoPci) (root r : List Chassis)
    → add_pci p root ≡ some r
    → SamePlaces r root × (IsPlaced root → IsPlaced r)
unfolding add_pci
add_pci-keeps p root r e = (
  update-SamePlaces p.pci_chassis (pci_chassis_step p) (pci_step-Leaves p) root r e,
  update-IsPlaced p.pci_chassis (pci_chassis_step p) (pci_step-Leaves p) root r e,
)

pub add_mem-keeps :
    (m : TopoMem) (root r : List Chassis)
    → add_mem m root ≡ some r
    → SamePlaces r root × (IsPlaced root → IsPlaced r)
unfolding add_mem
add_mem-keeps m root r e = (
  update-SamePlaces m.mem_chassis (mem_chassis_step m) (mem_step-Leaves m) root r e,
  update-IsPlaced m.mem_chassis (mem_chassis_step m) (mem_step-Leaves m) root r e,
)
