-- ===== src/Topology.antt =====
-- lib/libtopo/topo_tree.c: the tree that fmd_topo_tree builds, its loop over the processors, with
-- include/topo_tree.h and include/fmd_topo.h. The pointers to the first child of a node (`chip`,
-- `core`, `ht`, `hb`, `slot`, `func`, `mctl`, `dimm`) are NULL exactly while the list of its children
-- is empty.
use fms.Base.{ℕ, Bool, false, ◌||◌, Option, none, some, List, [], ◌∷◌, ◌==◌, if◌then◌else◌}
pub mod Node
pub mod Cpus
pub mod Refines
pub mod Devices
pub mod Update
pub mod Places
pub mod Chips
pub mod Loops
pub mod Whole
pub mod Scan

-- `topo_cpu_t` without its system and class, which are constant.
pub record TopoCpu : Type 0 where
  pub processor : ℕ
  pub flag : ℕ
  pub cpu_chassis : ℕ
  pub cpu_board : ℕ
  pub cpu_socket : ℕ
  pub cpu_core : ℕ
  pub cpu_thread : ℕ

abbrev pub topo_node_bound : ℕ
topo_node_bound = 4

abbrev pub topo_node_linked : ℕ
topo_node_linked = 8

-- `thread_t` with its node.
pub record Thread : Type 0 where
  pub tn_value : ℕ
  pub tn_state : ℕ

pub record Core : Type 0 where
  pub tn_value : ℕ
  pub ht_head : List Thread

-- `dimm_t` with its node, and the memory controller.
pub record Dimm : Type 0 where
  pub tn_value : ℕ
  pub size : ℕ

pub record Memcontroller : Type 0 where
  pub tn_value : ℕ
  pub dimm_head : List Dimm

pub record Chip : Type 0 where
  pub tn_value : ℕ
  pub core_head : List Core
  pub mctl_head : List Memcontroller

-- The slots and functions of a bus. A host bridge that a function leads to has slots whose
-- functions lead no further; of such a function there is only the value.
pub record Subslot : Type 0 where
  pub tn_value : ℕ
  pub func_head : List ℕ

pub record Subbridge : Type 0 where
  pub tn_value : ℕ
  pub slot_head : List Subslot

pub record Func : Type 0 where
  pub tn_value : ℕ
  pub hb_head : List Subbridge

pub record Slot : Type 0 where
  pub tn_value : ℕ
  pub func_head : List Func

pub record Hostbridge : Type 0 where
  pub tn_value : ℕ
  pub slot_head : List Slot

pub record Motherboard : Type 0 where
  pub tn_value : ℕ
  pub chip_head : List Chip
  pub hb_head : List Hostbridge

-- `chassis_t`; `sb` is the number of the system board.
pub record Chassis : Type 0 where
  pub tn_value : ℕ
  pub mb : Option Motherboard
  pub sb : Option ℕ

module _ {A : Type 0} (key : A → ℕ) (k : ℕ) where
  -- The search of a list of children for the value `k`.
  unfoldable pub has_child : List A → Bool
  has_child [] = false
  has_child (x ∷ xs) = key x == k || has_child xs

  -- What is done to the first child with that value.
  unfoldable pub change_child : (A → A) → List A → List A
  change_child fill [] = []
  change_child fill (x ∷ xs) = if key x == k then fill x ∷ xs else x ∷ change_child fill xs

  -- The child with the value `k`, or the new one in front, and what is then done to it.
  unfoldable pub put : A → (A → A) → List A → List A
  put new fill xs = if has_child xs then change_child fill xs else fill new ∷ xs

-- `topo_thread_alloc`, and the state that a thread gets which is not the first of its core.
unfoldable pub new_thread : ℕ → List Thread → Thread
new_thread v [] = record { tn_value = v; tn_state = topo_node_linked }
new_thread v (t ∷ ts) = record { tn_value = v; tn_state = topo_node_bound }

unfoldable pub add_thread : TopoCpu → List Thread → List Thread
add_thread c ts = put (λ t. t.tn_value) c.processor (new_thread c.processor ts) (λ t. t) ts

unfoldable pub add_core : TopoCpu → List Core → List Core
add_core c =
    put (λ o. o.tn_value) c.cpu_core (record { tn_value = c.cpu_core; ht_head = [] })
      (λ o. record o { ht_head = add_thread c o.ht_head })

unfoldable pub add_chip : TopoCpu → List Chip → List Chip
add_chip c =
    put (λ h. h.tn_value) c.cpu_socket
      (record { tn_value = c.cpu_socket; core_head = []; mctl_head = [] })
      (λ h. record h { core_head = add_core c h.core_head })

-- The boards: the first processor of a chassis makes the motherboard, the second one the system
-- board.
unfoldable pub boards : TopoCpu → Chassis → Motherboard × Option ℕ
boards c ch = elim ch.mb [
  | none ↦ (record { tn_value = c.cpu_board; chip_head = []; hb_head = [] }, ch.sb)
  | some mb ↦ elim ch.sb [ none ↦ (mb, some 1) | some s ↦ (mb, some s) ]
]

-- What a processor does to its chassis.
unfoldable pub fill_chassis : TopoCpu → Chassis → Chassis
fill_chassis c ch =
    let b = boards c ch in
    record ch { mb = some (record b.0 { chip_head = add_chip c b.0.chip_head }); sb = b.1 }

unfoldable pub add_cpu : TopoCpu → List Chassis → List Chassis
add_cpu c =
    put (λ ch. ch.tn_value) c.cpu_chassis
      (record { tn_value = c.cpu_chassis; mb = none; sb = none }) (fill_chassis c)

-- The first loop of `fmd_topo_tree`, over `list_cpu`.
unfoldable pub traverse_cpus : List TopoCpu → List Chassis → List Chassis
traverse_cpus [] root = root
traverse_cpus (c ∷ cs) root = traverse_cpus cs (add_cpu c root)
