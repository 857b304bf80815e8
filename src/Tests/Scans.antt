-- ===== src/Tests/Scans.antt =====
-- Runs of the search for the devices of the topology tree.
use fms.Base.{
  ℕ, ◌%◌, ◌≡◌, refl, ◌≢◌, ◌↔◌, ◌⊎◌, none, some, List, [], ◌∷◌, ◌++◌, map, arith, ◌==◌,
  if◌then◌else◌, get_or, replicate, All, Among,
}
use fms.Text.{Text, codes, str_eq, has_prefix, is_digit, atoi, contains, is_space, skip_while}
use fms.Agent.Cpumem.CpuMap.{hex_from, is_xdigit, xdigit, unprefixed}
use fms.Agent.Cpumem.CpuMap.RoundTrip.{IsWord}
use fms.Topology.{TopoCpu}
use fms.Topology.Node.{Any}
use fms.Topology.Devices.{TopoPci}
use fms.Topology.Scan.{FileSystem, done, each, each_in, is_hidden}
use fms.Topology.Scan.Cpu.{
  fmd_topo_read_cpu, is_cpu_name, advance, walk_name, walk_names, fmd_topo_walk_cpu, all_digits,
  walk_nodes, fmd_topo_cpu, cpu_sibling, find_sibling, mark_sibling, mark_at, mark_threads,
  set_threads,
}
use fms.Topology.Scan.Table.{
  out_of_fuel, DmiData, sign_extend, range, u16, s32, device_size, bytes_read, read_entry,
  skip_strings, table_from, dmi_table,
}
use fms.Topology.Scan.Memory.{
  max_chassis, has_socket, knows_socket, collect_sockets, at, max_dimm, find_range, topo_mem,
  walk_dimms, walk_sockets, walk_chassis, fmd_topo_walk_mem,
}
use fms.Topology.Scan.Placed.{IsSocket, first_socket, collect_sockets_iff}
use fms.Topology.Scan.Numbers.{strtol_from, strtol16, tokens, is_bus_delim, numbers}
use fms.Topology.Scan.Pci.{
  config_byte, get_conf_word, class_of, icon_of, classify_pci, is_bridge, pci_at, add_pci_dev,
  fmd_topo_walk_pci, behind_bridge, fmd_topo_walk_subpci, driver_name, net_item, name_pci,
  fmd_topo_walk_net, net_device, fmd_topo_net, fmd_topo_pci,
}
use fms.Topology.Scan.Names.{bus_id, pci_at-bus_id}
use fms.Topology.Scan.Bridges.{SamePlace, walk_subpci-SamePlace}
use fms.Topology.Scan.Rounds.{table_from_ends}
use fms.Topology.Scan.Start.{
  Machine, Topo, is_dmi_anchor, anchored_table, search_anchor, fmd_topo_dmi, find_cpus, fmd_topo,
  topo_tree_create,
}
use fms.Topology.Scan.Whole.{topo_tree_create_iff}

abbrev cpu_of : ℕ → ℕ → TopoCpu
cpu_of processor socket = record {
  processor = processor;
  flag = 0;
  cpu_chassis = 0;
  cpu_board = 0;
  cpu_socket = socket;
  cpu_core = 0;
  cpu_thread = 0;
}

-- The second socket stands first in the list, so the first one is not found.
abbrev two_sockets : List TopoCpu
two_sockets = cpu_of 1 1 ∷ cpu_of 0 0 ∷ []

sockets_run : collect_sockets 0 two_sockets [] ≡ some (1 ∷ [])
unfolding collect_sockets has_socket knows_socket
sockets_run = refl

abbrev first : ℕ
first = 0

collect_sockets_iff_example :
    Among first (1 ∷ [])
    ↔ (IsSocket 0 first two_sockets × ((first ≢ 0) ⊎ (first_socket 0 two_sockets ≡ some 0)))
collect_sockets_iff_example = collect_sockets_iff 0 two_sockets (1 ∷ []) sockets_run first

threads_run : map (λ c. c.cpu_thread) (set_threads (cpu_of 5 0 ∷ cpu_of 1 0 ∷ [])) ≡ 1 ∷ 0 ∷ []
unfolding set_threads mark_threads mark_at mark_sibling find_sibling cpu_sibling advance
threads_run = refl

hex_words : All IsWord (codes "0000" ∷ codes "02" ∷ codes "1f" ∷ codes "3" ∷ [])
unfolding is_xdigit is_digit
hex_words = (
  ((refl, (refl, (refl, (refl, tt)))), omega arith, omega arith),
  (
    ((refl, (refl, tt)), omega arith, omega arith),
    (((refl, (refl, tt)), omega arith, omega arith), (((refl, tt), omega arith, omega arith), tt)),
  ),
)

pci_at-bus_id_example :
    (p : List ℕ) × (numbers is_bus_delim 4
        (bus_id (codes "0000") (codes "02") (codes "1f") (codes "3"))
      ≡ some p)
    × ((pci_at p).pci_chassis ≡ hex_from 0 (codes "0000") % 256)
    × ((pci_at p).pci_hostbridge ≡ hex_from 0 (codes "02") % 256)
    × ((pci_at p).pci_slot ≡ hex_from 0 (codes "1f") % 256)
    × ((pci_at p).pci_func ≡ hex_from 0 (codes "3") % 16)
pci_at-bus_id_example = pci_at-bus_id (codes "0000") (codes "02") (codes "1f") (codes "3") hex_words

abbrev root_bridge : TopoPci
root_bridge = record (pci_at []) { pci_slot = 28; pci_subbus = 2 }

abbrev network_card : TopoPci
network_card = record (pci_at []) { pci_hostbridge = 2; pci_slot = 9 }

abbrev second_card : TopoPci
second_card = record (pci_at []) { pci_hostbridge = 2; pci_slot = 17 }

walk_subpci-SamePlace_example :
    (s1 t1 : TopoPci) × (fmd_topo_walk_subpci
        ([] ++ root_bridge ∷ [])
        (network_card ∷ second_card ∷ [])
      ≡ s1 ∷ t1 ∷ [])
    × (SamePlace s1 t1 ↔ ((9 % 8 ≡ 17 % 8) × ((pci_at []).pci_func % 4 ≡ (pci_at []).pci_func % 4)))
walk_subpci-SamePlace_example =
    walk_subpci-SamePlace [] [] root_bridge network_card second_card tt tt
      (unfold pci_at in (refl, refl)) (unfold pci_at in (refl, refl)) tt

-- A table with one array of one device, and its range.
abbrev table_bytes : List ℕ
table_bytes =
    16 ∷ 15 ∷ 1 ∷ 0 ∷ 0 ∷ 3 ∷ 0 ∷ 0 ∷ 0 ∷ 0 ∷ 0 ∷ 0 ∷ 0 ∷ 1 ∷ 0 ∷ 0 ∷ 0 ∷ 17 ∷ 14 ∷ 2 ∷ 0 ∷ 1 ∷ 0
    ∷ 0 ∷ 0 ∷ 0 ∷ 0 ∷ 0 ∷ 0 ∷ 0 ∷ 16 ∷ 0 ∷ 0 ∷ 20 ∷ 15 ∷ 3 ∷ 0 ∷ 0 ∷ 0 ∷ 0 ∷ 0 ∷ 255 ∷ 255 ∷ 15 ∷ 0
    ∷ 2 ∷ 0 ∷ 0 ∷ 0 ∷ 0 ∷ []

abbrev anchor_bytes : List ℕ
anchor_bytes = codes "_DMI_" ++ 0 ∷ 50 ∷ 0 ∷ 0 ∷ 16 ∷ 0 ∷ 0 ∷ 3 ∷ []

abbrev no_data : DmiData
no_data = record {
  processor_list = [];
  array_list = [];
  device_list = [];
  array_addr_list = [];
  device_addr_list = [];
}

table_from_ends_example : table_from (λ i. get_or table_bytes i 0) 50 51 0 no_data ≢ out_of_fuel
table_from_ends_example =
    table_from_ends (λ i. get_or table_bytes i 0) 50 51 0 no_data (omega arith) (omega arith)

abbrev display_config : Text
display_config = replicate 10 0 ++ (0 ∷ 3 ∷ replicate 52 0)

abbrev sysfs : FileSystem
sysfs = record {
  names = λ dir.
      if str_eq dir (codes "/sys/devices/system/node")
      then some (codes "node0" ∷ [])
      else if str_eq dir (codes "/sys/devices/system/node/node0")
      then some (codes "cpu0" ∷ codes "cpulist" ∷ [])
      else if str_eq dir (codes "/sys/bus/pci/devices")
      then some (codes "0000:00:02.0" ∷ [])
      else if str_eq dir (codes "/sys/class/net")
      then some []
      else none;
  content =
      λ file. if contains (codes "config") file then some display_config else some (codes "0");
}

abbrev machine : Machine
machine = record {
  fs = sysfs;
  bus_name = λ p. [];
  qsort = λ l. l;
  mmap = λ fp. some (λ i. get_or (if fp == 0xE0000 then anchor_bytes else table_bytes) i 0);
}

abbrev topo : Topo
topo = record {
  list_cpu = cpu_of 0 0 ∷ [];
  list_mem =
      (record {
        start = 0;
        end = 0x0fffff;
        mem_chassis = 0;
        mem_socket = 0;
        mem_controller = 0;
        mem_dimm = 0;
      })
      ∷ [];
  pci = record {
    list_pci = (record (pci_at []) { pci_slot = 2; pci_topoclass = 8 }) ∷ [];
    list_pci_bridge = [];
    list_storage = [];
  };
}

search_runs : fmd_topo machine ≡ done topo
unfolding fmd_topo find_cpus fmd_topo_cpu walk_nodes is_hidden all_digits is_digit advance
    has_prefix fmd_topo_walk_cpu walk_names walk_name is_cpu_name fmd_topo_read_cpu atoi set_threads
    mark_threads mark_at mark_sibling find_sibling cpu_sibling str_eq contains fmd_topo_dmi
    search_anchor is_dmi_anchor anchored_table dmi_table table_from bytes_read read_entry
    skip_strings u16 s32 sign_extend range device_size fmd_topo_walk_mem walk_chassis walk_sockets
    walk_dimms topo_mem at max_dimm find_range collect_sockets has_socket knows_socket max_chassis
    fmd_topo_pci each_in each fmd_topo_walk_pci numbers tokens is_bus_delim strtol16 strtol_from
    skip_while is_space hex_from is_xdigit xdigit unprefixed config_byte get_conf_word classify_pci
    class_of icon_of is_bridge pci_at add_pci_dev fmd_topo_net net_device fmd_topo_walk_net
    driver_name net_item name_pci fmd_topo_walk_subpci behind_bridge
search_runs = refl

topo_tree_create_iff_example :
    (topo_tree_create topo ≢ none)
    ↔ All (λ p. Any (λ c. c.cpu_chassis ≡ p.pci_chassis) topo.list_cpu) topo.pci.list_pci
topo_tree_create_iff_example = topo_tree_create_iff machine topo search_runs
