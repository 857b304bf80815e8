-- ===== src/Topology/Whole.antt =====
-- When fmd_topo_tree of lib/libtopo/topo_tree.c fails, and which threads its tree has.
use fms.Base.{ℕ, ◌≡◌, ◌≢◌, ◌↔◌, inl, inr, none, some, List, [], ◌∷◌, arith, Option-cases, All}
use fms.Topology.{TopoCpu, Chassis, traverse_cpus}
use fms.Topology.Node.{Any, Distinct}
use fms.Topology.Cpus.{chips, InChassis, IsAt, IsChassis, IsTree}
use fms.Topology.Devices.{TopoPci, TopoMem, add_pci, add_mem, traverse, fmd_topo_tree}
use fms.Topology.Refines.{traverse_cpus-refines}
use fms.Topology.Chips.{cpus-HasChassis, cpus-HasChip}
use fms.Topology.Loops.{
  add_pci_iff, add_mem_iff, add_pci-keeps, add_mem-keeps, SamePlaces-trans, traverse_iff,
  traverse-keeps,
}
use fms.Topology.Places.{IsPlaced, HasChassis, HasChip, SamePlaces}

IsTree-IsPlaced : (root : List Chassis) → IsTree root → IsPlaced root
IsTree-IsPlaced root (d, a) = (d, go root a)
  where
    go :
        (xs : List Chassis)
        → All IsChassis xs
        → All (λ ch. (ch.mb ≢ none) × Distinct (λ h. h.tn_value) (chips ch)) xs
    go [] u = tt
    go (x ∷ xs) u = ((u.0.0, u.0.1), go xs u.1)

All-swap :
    {A : Type 0} (P Q : A → Type 0) (xs : List A) → ((x : A) → P x ↔ Q x) → All P xs ↔ All Q xs
All-swap P Q [] h = (λ a. a, λ a. a)
All-swap P Q (x ∷ xs) h = ground (arith, h x, All-swap P Q xs h)

module _ (cpus : List TopoCpu) (pcis : List TopoPci) (mems : List TopoMem) where
  placed : IsPlaced (traverse_cpus cpus [])
  placed = IsTree-IsPlaced (traverse_cpus cpus []) (traverse_cpus-refines cpus).0

  pcis-keep :
      (r : List Chassis)
      → traverse add_pci pcis (traverse_cpus cpus []) ≡ some r
      → SamePlaces r (traverse_cpus cpus []) × (IsPlaced (traverse_cpus cpus []) → IsPlaced r)
  pcis-keep r e =
      traverse-keeps add_pci (λ p. HasChassis p.pci_chassis) add_pci_iff add_pci-keeps
        (λ p x y s. s.0 p.pci_chassis) pcis (traverse_cpus cpus []) r e

  pcis_iff :
      (traverse add_pci pcis (traverse_cpus cpus []) ≢ none)
      ↔ All (λ p. Any (λ c. c.cpu_chassis ≡ p.pci_chassis) cpus) pcis
  pcis_iff =
      let w =
        traverse_iff add_pci (λ p. HasChassis p.pci_chassis) add_pci_iff add_pci-keeps
          (λ p x y s. s.0 p.pci_chassis) pcis (traverse_cpus cpus []) placed in
      let v =
        All-swap (λ p. HasChassis p.pci_chassis (traverse_cpus cpus []))
          (λ p. Any (λ c. c.cpu_chassis ≡ p.pci_chassis) cpus) pcis
          (λ p. ground (arith, cpus-HasChassis p.pci_chassis cpus [])) in
      (λ n. v.0 (w.0 n), λ a. w.1 (v.1 a))

  mems_iff :
      (r : List Chassis)
      → SamePlaces r (traverse_cpus cpus [])
      → IsPlaced r
      → (traverse add_mem mems r ≢ none)
        ↔ All
            (λ m. Any (λ c. (c.cpu_chassis ≡ m.mem_chassis) × (c.cpu_socket ≡ m.mem_socket)) cpus)
            mems
  mems_iff r s p =
      let w =
        traverse_iff add_mem (λ m. HasChip m.mem_chassis m.mem_socket) add_mem_iff add_mem-keeps
          (λ m x y t. t.1 m.mem_chassis m.mem_socket) mems r p in
      let v =
        All-swap (λ m. HasChip m.mem_chassis m.mem_socket r)
          (λ m. Any (λ c. (c.cpu_chassis ≡ m.mem_chassis) × (c.cpu_socket ≡ m.mem_socket)) cpus)
          mems
          (λ m. ground (
            arith,
            s.1 m.mem_chassis m.mem_socket,
            cpus-HasChip m.mem_chassis m.mem_socket cpus [],
          )) in
      (λ n. v.0 (w.0 n), λ a. w.1 (v.1 a))

  -- The tree is made exactly if each PCI device stands in the chassis of a processor and each
  -- memory module at the chip of a processor; else the function returns -1.
  pub fmd_topo_tree_iff : (fmd_topo_tree cpus pcis mems ≢ none) ↔ (
      All (λ p. Any (λ c. c.cpu_chassis ≡ p.pci_chassis) cpus) pcis
      × All
          (λ m. Any (λ c. (c.cpu_chassis ≡ m.mem_chassis) × (c.cpu_socket ≡ m.mem_socket)) cpus)
          mems)
  unfolding fmd_topo_tree
  fmd_topo_tree_iff = elim (Option-cases (traverse add_pci pcis (traverse_cpus cpus []))) [
    | inl n ↦ ground (arith, n, pcis_iff)
    | inr (r, s) ↦ let k = pcis-keep r s in ground (arith, s, pcis_iff, mems_iff r k.0 (k.1 placed))
  ]

  -- The PCI devices and the memory leave the processors alone: the chassis of the tree have
  -- different values and a motherboard, and the threads are exactly those of the processors.
  pub fmd_topo_tree-threads :
      (root : List Chassis)
      → fmd_topo_tree cpus pcis mems ≡ some root
      → IsPlaced root × ((k s o t : ℕ) → Any (InChassis k s o t) root ↔ Any (IsAt k s o t) cpus)
  unfolding fmd_topo_tree
  fmd_topo_tree-threads root e =
      elim (Option-cases (traverse add_pci pcis (traverse_cpus cpus []))) [
        | inl n ↦ absurd (ground (arith, n))
        | inr (r, s) ↦
            let k = pcis-keep r s in
            let w =
              traverse-keeps add_mem (λ m. HasChip m.mem_chassis m.mem_socket) add_mem_iff
                add_mem-keeps (λ m x y t. t.1 m.mem_chassis m.mem_socket) mems r root
                (ground (arith, s)) in
            let same = SamePlaces-trans root r (traverse_cpus cpus []) w.0 k.0 in
            (
              w.1 (k.1 placed),
              λ c d o t. ground (arith, same.2 c d o t, (traverse_cpus-refines cpus).1 c d o t),
            )
      ]
