-- ===== src/Topology/Devices.antt =====
-- lib/libtopo/topo_tree.c: the loops of fmd_topo_tree over the PCI devices and the memory.
use fms.Base.{ℕ, ◌+◌, ◌-◌, ◌%◌, ◌^◌, ◌&&◌, Option, none, some, List, [], ◌∷◌, ◌==◌, if◌then◌else◌}
use fms.Text.{Text}
use fms.Topology.{
  TopoCpu, Dimm, Memcontroller, Chip, Subslot, Subbridge, Func, Slot, Hostbridge, Chassis, put,
  traverse_cpus,
}

-- `topo_pci_t` without its system and board, which are 0.
pub record TopoPci : Type 0 where
  pub pci_chassis : ℕ
  pub pci_hostbridge : ℕ
  pub pci_slot : ℕ
  pub pci_func : ℕ
  pub pci_subdomain : ℕ
  pub pci_subbus : ℕ
  pub pci_subslot : ℕ
  pub pci_subfunc : ℕ
  pub pci_topoclass : ℕ
  pub pci_name : Option Text
  pub dev_icon : Option Text

-- `topo_mem_t` without its system, board and class, which are constant.
pub record TopoMem : Type 0 where
  pub start : ℕ
  pub end : ℕ
  pub mem_chassis : ℕ
  pub mem_socket : ℕ
  pub mem_controller : ℕ
  pub mem_dimm : ℕ

-- What is done to the first child with the value `k`; `none` without one, or where it fails.
unfoldable pub update : {A : Type 0} → (A → ℕ) → ℕ → (A → Option A) → List A → Option (List A)
update key k f [] = none
update key k f (x ∷ xs) =
    if key x == k
    then elim (f x) [ none ↦ none | some y ↦ some (y ∷ xs) ]
    else elim (update key k f xs) [ none ↦ none | some ys ↦ some (x ∷ ys) ]

unfoldable pub add_subslot : TopoPci → List Subslot → List Subslot
add_subslot p =
    put (λ s. s.tn_value) p.pci_subslot (record { tn_value = p.pci_subslot; func_head = [] })
      (λ s. record s { func_head = put (λ f. f) p.pci_subfunc p.pci_subfunc (λ f. f) s.func_head })

unfoldable pub add_subbridge : TopoPci → List Subbridge → List Subbridge
add_subbridge p =
    put (λ b. b.tn_value) p.pci_subbus (record { tn_value = p.pci_subbus; slot_head = [] })
      (λ b. record b { slot_head = add_subslot p b.slot_head })

-- A device without a secondary bus ends here.
unfoldable pub add_func : TopoPci → List Func → List Func
add_func p =
    put (λ f. f.tn_value) p.pci_func (record { tn_value = p.pci_func; hb_head = [] })
      (λ f.
        if p.pci_subbus == 0 && p.pci_subdomain == 0
        then f
        else record f { hb_head = add_subbridge p f.hb_head })

unfoldable pub add_slot : TopoPci → List Slot → List Slot
add_slot p =
    put (λ s. s.tn_value) p.pci_slot (record { tn_value = p.pci_slot; func_head = [] })
      (λ s. record s { func_head = add_func p s.func_head })

unfoldable pub add_hostbridge : TopoPci → List Hostbridge → List Hostbridge
add_hostbridge p =
    put (λ b. b.tn_value) p.pci_hostbridge (record { tn_value = p.pci_hostbridge; slot_head = [] })
      (λ b. record b { slot_head = add_slot p b.slot_head })

-- What a PCI device does to its chassis, which must have a motherboard.
unfoldable pub pci_chassis_step : TopoPci → Chassis → Option Chassis
pci_chassis_step p ch = elim ch.mb [
  | none ↦ none
  | some mb ↦ some (record ch { mb = some (record mb { hb_head = add_hostbridge p mb.hb_head }) })
]

unfoldable pub add_pci : TopoPci → List Chassis → Option (List Chassis)
add_pci p = update (λ ch. ch.tn_value) p.pci_chassis (pci_chassis_step p)

-- A module that is there keeps the size that it was found with first.
unfoldable pub add_dimm : TopoMem → List Dimm → List Dimm
add_dimm m =
    put (λ d. d.tn_value) m.mem_dimm
      (record { tn_value = m.mem_dimm; size = (m.end + 2 ^ 64 - m.start) % 2 ^ 64 }) (λ d. d)

unfoldable pub add_memcontroller : TopoMem → List Memcontroller → List Memcontroller
add_memcontroller m =
    put (λ c. c.tn_value) m.mem_controller (record { tn_value = m.mem_controller; dimm_head = [] })
      (λ c. record c { dimm_head = add_dimm m c.dimm_head })

unfoldable pub mem_chip_step : TopoMem → Chip → Option Chip
mem_chip_step m h = some (record h { mctl_head = add_memcontroller m h.mctl_head })

unfoldable pub mem_chassis_step : TopoMem → Chassis → Option Chassis
mem_chassis_step m ch = elim ch.mb [
  | none ↦ none
  | some mb ↦ elim (update (λ h. h.tn_value) m.mem_socket (mem_chip_step m) mb.chip_head) [
    | none ↦ none
    | some hs ↦ some (record ch { mb = some (record mb { chip_head = hs }) })
  ]
]

unfoldable pub add_mem : TopoMem → List Chassis → Option (List Chassis)
add_mem m = update (λ ch. ch.tn_value) m.mem_chassis (mem_chassis_step m)

-- A loop that returns -1 at the first device that has no place.
unfoldable pub traverse :
    {A : Type 0}
    → (A → List Chassis → Option (List Chassis))
    → List A
    → List Chassis
    → Option (List Chassis)
traverse add [] root = some root
traverse add (d ∷ ds) root = elim (add d root) [ none ↦ none | some r ↦ traverse add ds r ]

-- `fmd_topo_tree`: the tree, or `none` for -1.
unfoldable pub fmd_topo_tree : List TopoCpu → List TopoPci → List TopoMem → Option (List Chassis)
fmd_topo_tree cpus pcis mems = elim (traverse add_pci pcis (traverse_cpus cpus [])) [
  | none ↦ none
  | some root ↦ traverse add_mem mems root
]
