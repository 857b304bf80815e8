-- ===== src/Topology/Places.antt =====
-- What the PCI devices and the memory leave alone in the tree of lib/libtopo/topo_tree.c.
use fms.Base.{ℕ, ◌≡◌, ◌≢◌, ◌↔◌, inl, inr, Option, none, some, List, arith, Option-cases, All}
use fms.Topology.{Chip, Chassis}
use fms.Topology.Node.{Any, Distinct}
use fms.Topology.Cpus.{chips, InChip, InChassis}
use fms.Topology.Devices.{
  TopoPci, TopoMem, update, pci_chassis_step, mem_chip_step, mem_chassis_step,
}
use fms.Topology.Update.{update-Any, update-All, update-Distinct}

-- What the devices leave as it is: the values of the chassis differ, and so do those of the chips
-- of a chassis; each chassis has a motherboard.
abbrev pub IsPlaced : List Chassis → Type 0
IsPlaced root =
    Distinct (λ ch. ch.tn_value) root
    × All (λ ch. (ch.mb ≢ none) × Distinct (λ h. h.tn_value) (chips ch)) root

abbrev pub HasChassis : ℕ → List Chassis → Type 0
HasChassis k = Any (λ ch. ch.tn_value ≡ k)

abbrev pub HasChip : ℕ → ℕ → List Chassis → Type 0
HasChip k s = Any (λ ch. (ch.tn_value ≡ k) × Any (λ h. h.tn_value ≡ s) (chips ch))

-- The trees have the same chassis, chips and threads.
abbrev pub SamePlaces : List Chassis → List Chassis → Type 0
SamePlaces r root =
    ((k : ℕ) → HasChassis k r ↔ HasChassis k root)
    × ((k s : ℕ) → HasChip k s r ↔ HasChip k s root)
    × ((k s o t : ℕ) → Any (InChassis k s o t) r ↔ Any (InChassis k s o t) root)

pci_step-chips :
    (p : TopoPci) (x y : Chassis)
    → pci_chassis_step p x ≡ some y
    → (y.tn_value ≡ x.tn_value) × (chips y ≡ chips x) × (y.mb ≢ none)
unfolding pci_chassis_step
pci_step-chips p x y e = elim (Option-cases x.mb) [
  | inl n ↦ absurd (ground (arith, n))
  | inr (mb, s) ↦ ground (arith, s)
]

-- What a step leaves of a chassis.
abbrev pub Leaves : Chassis → Chassis → Type 0
Leaves x y =
    (y.tn_value ≡ x.tn_value)
    × ((s : ℕ) → Any (λ h. h.tn_value ≡ s) (chips y) ↔ Any (λ h. h.tn_value ≡ s) (chips x))
    × ((k s o t : ℕ) → Any (InChip k s o t) (chips y) ↔ Any (InChip k s o t) (chips x))
    × ((x.mb ≢ none) × Distinct (λ h. h.tn_value) (chips x)
        → (y.mb ≢ none) × Distinct (λ h. h.tn_value) (chips y))

pub pci_step-Leaves : (p : TopoPci) (x y : Chassis) → pci_chassis_step p x ≡ some y → Leaves x y
pci_step-Leaves p x y e =
    let h = pci_step-chips p x y e in
    rw h.1 (h.0, λ s. (λ a. a, λ a. a), λ k s o t. (λ a. a, λ a. a), λ w. (h.2, w.1))

mem_step-chips :
    (m : TopoMem) (x y : Chassis)
    → mem_chassis_step m x ≡ some y
    → (y.tn_value ≡ x.tn_value)
      × (update (λ h. h.tn_value) m.mem_socket (mem_chip_step m) (chips x) ≡ some (chips y))
      × (y.mb ≢ none)
unfolding mem_chassis_step
mem_step-chips m x y e = elim (Option-cases x.mb) [
  | inl n ↦ absurd (ground (arith, n))
  | inr (mb, s) ↦
      elim (Option-cases (update (λ h. h.tn_value) m.mem_socket (mem_chip_step m) mb.chip_head)) [
        | inl n ↦ absurd (ground (arith, s, n))
        | inr (hs, u) ↦ ground (arith, s, u)
      ]
]

pub mem_step-Leaves : (m : TopoMem) (x y : Chassis) → mem_chassis_step m x ≡ some y → Leaves x y
unfolding mem_chip_step
mem_step-Leaves m x y e =
    let h = mem_step-chips m x y e in
    let same : (P : Chip → Type 0)
        → ((a b : Chip) → mem_chip_step m a ≡ some b → P b ↔ P a)
        → Any P (chips y) ↔ Any P (chips x) =
      λ P w.
        update-Any (λ h. h.tn_value) m.mem_socket (mem_chip_step m) P (chips x) (chips y) w h.1 in
    (
      h.0,
      λ s. same (λ h. h.tn_value ≡ s) (λ a b c. ground arith),
      λ k s o t. same (InChip k s o t) (λ a b c. ground arith),
      λ w. (
        h.2,
        update-Distinct (λ h. h.tn_value) m.mem_socket (mem_chip_step m) (chips x) (chips y)
            (λ a b c. ground arith) h.1 w.1,
      ),
    )

module _ (k : ℕ) (f : Chassis → Option Chassis)
    (h : (x y : Chassis) → f x ≡ some y → Leaves x y) where
  pub update-SamePlaces :
      (root r : List Chassis) → update (λ ch. ch.tn_value) k f root ≡ some r → SamePlaces r root
  update-SamePlaces root r e =
      let same : (P : Chassis → Type 0)
          → ((x y : Chassis) → f x ≡ some y → P y ↔ P x)
          → Any P r ↔ Any P root =
        λ P w. update-Any (λ ch. ch.tn_value) k f P root r w e in
      (
        λ c. same (λ ch. ch.tn_value ≡ c) (λ x y u. ground (arith, h x y u)),
        λ c s.
            same (λ ch. (ch.tn_value ≡ c) × Any (λ h. h.tn_value ≡ s) (chips ch))
              (λ x y u. ground (arith, h x y u, (h x y u).1 s)),
        λ c s o t. same (InChassis c s o t) (λ x y u. ground (arith, h x y u, (h x y u).2 c s o t)),
      )

  pub update-IsPlaced :
      (root r : List Chassis)
      → update (λ ch. ch.tn_value) k f root ≡ some r
      → IsPlaced root
      → IsPlaced r
  update-IsPlaced root r e (d, a) = (
    update-Distinct (λ ch. ch.tn_value) k f root r (λ x y u. (h x y u).0) e d,
    update-All (λ ch. ch.tn_value) k f
        (λ ch. (ch.mb ≢ none) × Distinct (λ h. h.tn_value) (chips ch)) root r (λ x y u. (h x y u).3)
        e a,
  )
