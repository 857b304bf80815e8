-- ===== src/Topology/Scan/Start.antt =====
-- lib/libtopo/fmd_topo.c: _fmd_topo, with fmd_topo_dmi of lib/libtopo/dmi.c and topo_tree_create of
-- lib/libtopo/topo_tree.c.
use fms.Base.{
  ℕ, zero, suc, ◌+◌, ◌*◌, ◌^◌, Bool, true, false, ◌&&◌, Option, none, some, List, [], ◌==◌,
}
use fms.Text.{Text, codes}
use fms.Topology.{TopoCpu, Chassis}
use fms.Topology.Devices.{TopoPci, TopoMem, fmd_topo_tree}
use fms.Topology.Scan.{FileSystem, Outcome, done, failed, undefined}
use fms.Topology.Scan.Cpu.{fmd_topo_walk_cpu, fmd_topo_cpu, set_threads}
use fms.Topology.Scan.Table.{DmiData, dmi_table}
use fms.Topology.Scan.Memory.{fmd_topo_walk_mem}
use fms.Topology.Scan.Pci.{PciLists, fmd_topo_pci}

-- What lies outside the library: the file system, sprintf of the name of a PCI device, qsort, and
-- what mmap of /dev/mem gives at an address, `none` for MAP_FAILED.
pub record Machine : Type 0 where
  pub fs : FileSystem
  pub bus_name : TopoPci → Text
  pub qsort : List ℕ → List ℕ
  pub mmap : ℕ → Option (ℕ → ℕ)

-- The signature _DMI_.
unfoldable pub is_dmi_anchor : (ℕ → ℕ) → Bool
is_dmi_anchor buf =
    buf 0 == b'_' && buf 1 == b'D' && buf 2 == b'M' && buf 3 == b'I' && buf 4 == b'_'

-- `dmi_table` of the table that an anchor points to.
unfoldable pub anchored_table : (ℕ → Option (ℕ → ℕ)) → (ℕ → ℕ) → Option (Option DmiData)
anchored_table mmap buf =
    let base = buf 11 * 2 ^ 24 + buf 10 * 2 ^ 16 + buf 9 * 256 + buf 8 in
    elim (mmap base) [ none ↦ some none | some bytes ↦ dmi_table bytes (buf 7 * 256 + buf 6) ]

module _ (m : Machine) (cpus : List TopoCpu) where
  -- The loop of `fmd_topo_dmi` from the address `fp` on, for `n` rounds.
  unfoldable pub search_anchor : ℕ → ℕ → List TopoMem → Outcome (List TopoMem)
  search_anchor zero fp mems = done mems
  search_anchor (suc n) fp mems = elim (m.mmap fp) [
    | none ↦ failed mems
    | some buf ↦ elim (is_dmi_anchor buf) [
      | false ↦ search_anchor n (fp + 16) mems
      | true ↦ elim (anchored_table m.mmap buf) [
        | none ↦ undefined
        | some none ↦ failed mems
        | some (some pdmi) ↦ elim (fmd_topo_walk_mem m.qsort pdmi cpus mems) [
          | none ↦ undefined
          | some l ↦ done l
        ]
      ]
    ]
  ]

  -- `fmd_topo_dmi` on a system without /sys/firmware/efi/systab: the addresses from 0xE0000 to
  -- 0x100000.
  unfoldable pub fmd_topo_dmi : List TopoMem → Outcome (List TopoMem)
  fmd_topo_dmi mems = search_anchor 8193 0xE0000 mems

-- `fmd_topo_t`
pub record Topo : Type 0 where
  pub list_cpu : List TopoCpu
  pub list_mem : List TopoMem
  pub pci : PciLists

-- The processors: those of the nodes, and where a node has another name or there are no nodes, also
-- those of the directory of all processors.
unfoldable pub find_cpus : FileSystem → List TopoCpu
find_cpus fs =
    let nodes = fmd_topo_cpu fs (codes "/sys/devices/system/node") (codes "node") [] in
    elim nodes.0 [
      | true ↦ set_threads nodes.1
      | false ↦ set_threads (fmd_topo_walk_cpu fs (codes "/sys/devices/system/cpu") 0 nodes.1)
    ]

-- `_fmd_topo`
unfoldable pub fmd_topo : Machine → Outcome Topo
fmd_topo m =
    let cpus = find_cpus m.fs in
    let empty : PciLists = record { list_pci = []; list_pci_bridge = []; list_storage = [] } in
    elim (fmd_topo_dmi m cpus []) [
      | undefined ↦ undefined
      | failed mems ↦ failed (record { list_cpu = cpus; list_mem = mems; pci = empty })
      | done mems ↦ elim (fmd_topo_pci m.fs m.bus_name (codes "/sys/bus/pci/devices") empty) [
        | undefined ↦ undefined
        | failed l ↦ failed (record { list_cpu = cpus; list_mem = mems; pci = l })
        | done l ↦ done (record { list_cpu = cpus; list_mem = mems; pci = l })
      ]
    ]

-- `topo_tree_create`, `none` for -1.
unfoldable pub topo_tree_create : Topo → Option (List Chassis)
topo_tree_create t = fmd_topo_tree t.list_cpu t.pci.list_pci t.list_mem
