-- ===== src/Topology/Scan/Storage.antt =====
-- lib/libtopo/storage.c: the disks behind a PCI device.
use fms.Base.{
  ℕ, ◌%◌, true, false, Option, none, some, List, [], ◌∷◌, ◌++◌, ltb, leb, if◌then◌else◌, length,
  get_or,
}
use fms.Text.{Text, codes, has_prefix, strchr}
use fms.Topology.Devices.{TopoPci}
use fms.Topology.Scan.{FileSystem, join, Outcome, done, failed, undefined, each_in}
use fms.Topology.Scan.Cpu.{advance}
use fms.Topology.Scan.Numbers.{is_colon, numbers}

-- `topo_storage_t` without its system and board, which are 0.
pub record TopoStorage : Type 0 where
  pub storage_chassis : ℕ
  pub storage_hostbridge : ℕ
  pub storage_slot : ℕ
  pub storage_func : ℕ
  pub storage_host : ℕ
  pub storage_channel : ℕ
  pub storage_target : ℕ
  pub storage_lun : ℕ
  pub storage_topoclass : ℕ
  pub storage_name : Text
  pub dev_icon : Option Text

-- sprintf(dir, "%s/%s", ...) into 100 bytes, with what is done in that directory.
unfoldable pub in_dir : {A : Type 0} → Text → Text → (Text → Outcome A) → Outcome A
in_dir dir name k = if ltb (length (join dir name)) 100 then k (join dir name) else undefined

module _ (fs : FileSystem) where
  -- The names in a directory that are not hidden, behind those that there are.
  unfoldable pub add_name : Text → List Text → Outcome (List Text)
  add_name p names = done (names ++ p ∷ [])

  -- The loop over the directory of a disk: the names that are stored.
  unfoldable pub block_name : Text → Text → List Text → Outcome (List Text)
  block_name dir3 p3 names = elim (has_prefix (codes "block") p3) [
    | false ↦ done names
    | true ↦ elim (strchr p3 b':') [
      | some t ↦ done (names ++ advance 6 p3 ∷ [])
      | none ↦ in_dir dir3 p3 λ dir4. each_in fs add_name dir4 names
    ]
  ]

  -- What is stored for a disk; a list whose entry is added twice is not one any more.
  unfoldable pub store :
      (List TopoStorage → Outcome (List TopoStorage))
      → (Text → TopoStorage)
      → List Text
      → List TopoStorage
      → Outcome (List TopoStorage)
  store result pstr [] l = result l
  store result pstr (n ∷ []) l = result (pstr n ∷ l)
  store result pstr (n ∷ m ∷ ns) l = undefined

  module _ (ppci : TopoPci) where
    -- `pstr` with the numbers of its name.
    unfoldable pub storage_at : List ℕ → Text → TopoStorage
    storage_at up name = record {
      storage_chassis = ppci.pci_chassis;
      storage_hostbridge = ppci.pci_hostbridge;
      storage_slot = ppci.pci_slot;
      storage_func = ppci.pci_func;
      storage_host = get_or up 0 0 % 256;
      storage_channel = get_or up 1 0 % 256;
      storage_target = get_or up 2 0 % 256;
      storage_lun = get_or up 3 0 % 256;
      storage_topoclass = ppci.pci_topoclass;
      storage_name = name;
      dev_icon = ppci.dev_icon;
    }

    -- A directory of a target: a disk if its name has a colon.
    unfoldable pub scan_disk : Text → Text → List TopoStorage → Outcome (List TopoStorage)
    scan_disk dir2 p2 l = elim (leb 20 (length p2)) [
      | true ↦ undefined
      | false ↦ elim (strchr p2 b':') [
        | none ↦ done l
        | some t ↦ elim (numbers is_colon 4 p2) [
          | none ↦ undefined
          | some up ↦ in_dir dir2 p2 λ dir3. elim (each_in fs (block_name dir3) dir3 []) [
            | done names ↦ store done (storage_at up) names l
            | failed names ↦ store failed (storage_at up) names l
            | undefined ↦ undefined
          ]
        ]
      ]
    ]

    unfoldable pub scan_target : Text → Text → List TopoStorage → Outcome (List TopoStorage)
    scan_target dir1 p1 l = elim (has_prefix (codes "target") p1) [
      | false ↦ done l
      | true ↦ in_dir dir1 p1 λ dir2. each_in fs (scan_disk dir2) dir2 l
    ]

    unfoldable pub scan_host : Text → Text → List TopoStorage → Outcome (List TopoStorage)
    scan_host dir p l = elim (has_prefix (codes "host") p) [
      | false ↦ done l
      | true ↦ in_dir dir p λ dir1. each_in fs (scan_target dir1) dir1 l
    ]

    -- `fmd_scan_pci_storage`, where sprintf writes `%04x:%02x:%02x.%x` by `bus_name`.
    unfoldable pub fmd_topo_walk_storage :
        (TopoPci → Text) → List TopoStorage → Outcome (List TopoStorage)
    fmd_topo_walk_storage bus_name l =
        in_dir (codes "/sys/bus/pci/devices") (bus_name ppci)
          λ dir. each_in fs (scan_host dir) dir l
