-- ===== src/Topology/Scan/Pci.antt =====
-- lib/libtopo/pci.c and lib/libtopo/network.c: the PCI devices, and the names of the network devices
-- among them.
use fms.Base.{
  ℕ, ◌+◌, ◌*◌, ◌/◌, ◌%◌, Bool, true, false, ◌&&◌, ◌||◌, Option, none, some, List, [], ◌∷◌, map, ltb,
  leb, ◌==◌, if◌then◌else◌, length, get_or,
}
use fms.Text.{Text, codes, str_eq, strchr}
use fms.Topology.Devices.{TopoPci}
use fms.Topology.Scan.{FileSystem, join, is_hidden, Outcome, done, failed, undefined, each_in}
use fms.Topology.Scan.Numbers.{is_bus_delim, numbers}
use fms.Topology.Scan.Storage.{TopoStorage, fmd_topo_walk_storage}

-- The lists of `fmd_topo_t` that the PCI devices are put into.
pub record PciLists : Type 0 where
  pub list_pci : List TopoPci
  pub list_pci_bridge : List TopoPci
  pub list_storage : List TopoStorage

-- `pdev.config` behind the two calls of read.
unfoldable pub config_byte : Text → ℕ → ℕ
config_byte content i = if ltb (length content) 256 && leb 64 i then 0 else get_or content i 0

unfoldable pub get_conf_word : (ℕ → ℕ) → ℕ → ℕ
get_conf_word config pos = if ltb 256 pos then 0 else config pos + 256 * config (pos + 1)

abbrev pub pci_class_device : ℕ
pci_class_device = 0x0a

abbrev pub pci_secondary_bus : ℕ
pci_secondary_bus = 0x19

abbrev pub pci_class_bridge_pci : ℕ
pci_class_bridge_pci = 0x0604

abbrev pub topo_storage : ℕ
topo_storage = 4

-- The switch over `dclass >> 8`: `pci_topoclass`, by its number in topoclass_t.
unfoldable pub class_of : ℕ → ℕ
class_of dclass =
    let base = dclass / 256 in
    if base == 1
    then topo_storage
    else if base == 2
    then 7
    else if base == 5
    then 2
    else if base == 6
    then 1
    else if base == 3
    then 8
    else if base == 8
    then 0
    else if base == 9
    then 9
    else if base == 0x0b
    then 3
    else 11

-- `dev_icon`
unfoldable pub icon_of : ℕ → Option Text
icon_of dclass =
    if dclass == 0x0100
    then some (codes "scsi")
    else if dclass == 0x0101
    then some (codes "ide")
    else if dclass == 0x0600
    then some (codes "host")
    else if dclass == 0x0601
    then some (codes "isa")
    else if dclass == pci_class_bridge_pci
    then some (codes "pci")
    else none

-- The device with what its configuration says.
unfoldable pub classify_pci : (ℕ → ℕ) → TopoPci → TopoPci
classify_pci config p =
    let dclass = get_conf_word config pci_class_device in
    let c : TopoPci = record p { pci_topoclass = class_of dclass; dev_icon = icon_of dclass } in
    if dclass == pci_class_bridge_pci
    then record c { pci_subdomain = 0; pci_subbus = get_conf_word config pci_secondary_bus % 256 }
    else c

-- strcmp("pci", dev_icon) == 0
unfoldable pub is_bridge : TopoPci → Bool
is_bridge p = elim p.dev_icon [ none ↦ false | some icon ↦ str_eq (codes "pci") icon ]

-- `topo_pci_t` behind memset, with the numbers of a name.
unfoldable pub pci_at : List ℕ → TopoPci
pci_at p = record {
  pci_chassis = get_or p 0 0 % 256;
  pci_hostbridge = get_or p 1 0 % 256;
  pci_slot = get_or p 2 0 % 256;
  pci_func = get_or p 3 0 % 16;
  pci_subdomain = 0;
  pci_subbus = 0;
  pci_subslot = 0;
  pci_subfunc = 0;
  pci_topoclass = 0;
  pci_name = none;
  dev_icon = none;
}

module _ (fs : FileSystem) (bus_name : TopoPci → Text) where
  -- The end of `fmd_scan_pci_dev`: the list that the device is put into. An error of the search for
  -- disks is ignored.
  unfoldable pub add_pci_dev : TopoPci → PciLists → Outcome PciLists
  add_pci_dev p l = elim (is_bridge p) [
    | true ↦ done (record l { list_pci_bridge = p ∷ l.list_pci_bridge })
    | false ↦ elim (p.pci_topoclass == topo_storage) [
      | true ↦ elim (fmd_topo_walk_storage fs p bus_name l.list_storage) [
        | done s ↦ done (record l { list_storage = s })
        | failed s ↦ done (record l { list_storage = s })
        | undefined ↦ undefined
      ]
      | false ↦ done (record l { list_pci = p ∷ l.list_pci })
    ]
  ]

  unfoldable pub fmd_topo_walk_pci : Text → Text → PciLists → Outcome PciLists
  fmd_topo_walk_pci dir file l = elim (ltb (length file) 50) [
    | false ↦ undefined
    | true ↦ elim (numbers is_bus_delim 4 file) [
      | none ↦ undefined
      | some p ↦ elim (fs.content (join (join dir file) (codes "config"))) [
        | none ↦ done l
        | some content ↦ add_pci_dev (classify_pci (config_byte content) (pci_at p)) l
      ]
    ]
  ]

-- What a bridge makes of a device on its secondary bus. `pci_subslot` has three bits and
-- `pci_subfunc` two.
unfoldable pub behind_bridge : TopoPci → TopoPci → TopoPci
behind_bridge b s =
    if s.pci_hostbridge == b.pci_subbus && s.pci_chassis == b.pci_subdomain
    then record s {
      pci_chassis = b.pci_chassis;
      pci_hostbridge = b.pci_hostbridge;
      pci_subslot = s.pci_slot % 8;
      pci_subfunc = s.pci_func % 4;
      pci_slot = b.pci_slot;
      pci_func = b.pci_func;
      pci_subdomain = b.pci_subdomain;
      pci_subbus = b.pci_subbus;
    }
    else s

-- The loops of `fmd_topo_walk_subpci` over the bridges and the devices.
unfoldable pub fmd_topo_walk_subpci : List TopoPci → List TopoPci → List TopoPci
fmd_topo_walk_subpci [] pcis = pcis
fmd_topo_walk_subpci (b ∷ bs) pcis = fmd_topo_walk_subpci bs (map (behind_bridge b) pcis)

-- The first name with a colon, in `fmd_topo_walk_net`.
unfoldable pub driver_name : List Text → Option Text
driver_name [] = none
driver_name (p ∷ ps) = elim (is_hidden p) [
  | true ↦ driver_name ps
  | false ↦ elim (strchr p b':') [ some t ↦ some p | none ↦ driver_name ps ]
]

-- `item`, 0 where there is no such name; `none` for a write behind `filename`.
unfoldable pub net_item : Option Text → Option (List ℕ)
net_item none = some []
net_item (some p) = if ltb (length p) 50 then numbers is_bus_delim 50 p else none

unfoldable pub name_pci : List ℕ → Text → TopoPci → TopoPci
name_pci item file p =
    if get_or item 0 0 == p.pci_chassis
      && get_or item 1 0 == p.pci_hostbridge
      && get_or item 2 0 == p.pci_slot
      && get_or item 3 0 == p.pci_func
    then record p { pci_name = some file }
    else p

module _ (fs : FileSystem) where
  unfoldable pub fmd_topo_walk_net : Text → Text → List TopoPci → Outcome (List TopoPci)
  fmd_topo_walk_net dir file pcis = elim (fs.names (join (join dir file) (codes "device/driver"))) [
    | none ↦ failed pcis
    | some ps ↦ elim (net_item (driver_name ps)) [
      | none ↦ undefined
      | some item ↦ done (map (name_pci item file) pcis)
    ]
  ]

  -- The body of the loop of `fmd_topo_net`, which ignores an error.
  unfoldable pub net_device : Text → Text → List TopoPci → Outcome (List TopoPci)
  net_device dir p pcis = elim (get_or p 0 0 == b'e' || get_or p 0 0 == b'w') [
    | false ↦ done pcis
    | true ↦ elim (fmd_topo_walk_net dir p pcis) [
      | done l ↦ done l
      | failed l ↦ done l
      | undefined ↦ undefined
    ]
  ]

  unfoldable pub fmd_topo_net : Text → List TopoPci → Outcome (List TopoPci)
  fmd_topo_net dir pcis = each_in fs (net_device dir) dir pcis

  unfoldable pub fmd_topo_pci : (TopoPci → Text) → Text → PciLists → Outcome PciLists
  fmd_topo_pci bus_name dir l = elim (each_in fs (fmd_topo_walk_pci fs bus_name dir) dir l) [
    | undefined ↦ undefined
    | failed l' ↦ failed l'
    | done l' ↦ elim (fmd_topo_net (codes "/sys/class/net") l'.list_pci) [
      | undefined ↦ undefined
      | failed pcis ↦ failed (record l' { list_pci = pcis })
      | done pcis ↦ done (record l' { list_pci = fmd_topo_walk_subpci l'.list_pci_bridge pcis })
    ]
  ]
