-- ===== src/Topology/Scan/Memory.antt =====
-- lib/libtopo/dmi.c: fmd_topo_walk_mem, which gives the memory devices of the SMBIOS table to the
-- sockets of the processors. What qsort makes of the handles is a parameter.
use fms.Base.{
  ℕ, zero, suc, ◌+◌, ◌*◌, ◌%◌, Bool, true, false, not, ◌&&◌, ◌||◌, Option, none, some, List, [],
  ◌∷◌, ◌++◌, map, ltb, leb, ◌==◌, if◌then◌else◌, length,
}
use fms.Topology.{TopoCpu}
use fms.Topology.Devices.{TopoMem}
use fms.Topology.Scan.Table.{MemArray, DeviceAddr, DmiData}

-- `max_chassis`
unfoldable pub max_chassis : ℕ → List TopoCpu → ℕ
max_chassis m [] = m
max_chassis m (c ∷ cs) = max_chassis (if ltb m c.cpu_chassis then c.cpu_chassis else m) cs

-- The value is among the first `max_socket` ones.
unfoldable pub has_socket : ℕ → List ℕ → Bool
has_socket s [] = false
has_socket s (x ∷ xs) = x == s || has_socket s xs

-- The search for a socket, which also looks at `socket[max_socket]`: -1 in the first place, and 0 in
-- the others.
unfoldable pub knows_socket : ℕ → List ℕ → Bool
knows_socket s [] = false
knows_socket s (x ∷ xs) = has_socket s (x ∷ xs) || s == 0

-- `socket[0]` to `socket[max_socket - 1]` behind the loop over the processors; `none` for an access
-- behind the 16 places of `socket`.
unfoldable pub collect_sockets : ℕ → List TopoCpu → List ℕ → Option (List ℕ)
collect_sockets i [] ss = some ss
collect_sockets i (c ∷ cs) ss = elim (c.cpu_chassis == i && not (has_socket c.cpu_socket ss)) [
  | false ↦ collect_sockets i cs ss
  | true ↦ elim (leb 16 (length ss)) [
    | true ↦ none
    | false ↦
        collect_sockets i cs (if knows_socket c.cpu_socket ss then ss else ss ++ c.cpu_socket ∷ [])
  ]
]

-- An element of an array, `none` behind its end.
unfoldable pub at : List ℕ → ℕ → Option ℕ
at [] n = none
at (x ∷ xs) zero = some x
at (x ∷ xs) (suc n) = at xs n

-- `max_dimm`: the devices of the last array with the handle.
unfoldable pub max_dimm : ℕ → ℕ → List MemArray → ℕ
max_dimm handle m [] = m
max_dimm handle m (a ∷ as') = max_dimm handle (if handle == a.handle then a.devices else m) as'

-- `start` and `end`: of the last range of the device.
unfoldable pub find_range : ℕ → ℕ × ℕ → List DeviceAddr → ℕ × ℕ
find_range handle r [] = r
find_range handle r (d ∷ ds) =
    find_range handle (if handle == d.device_handle then (d.start, d.end) else r) ds

module _ (device_handle array_handle : List ℕ) (pdmi : DmiData) (i : ℕ) where
  -- The device `k` of a socket, with the handle that it has in the table.
  unfoldable pub topo_mem : ℕ → ℕ → ℕ → TopoMem
  topo_mem socket k handle = record {
    start = (find_range handle (0, 0) pdmi.device_addr_list).0;
    end = (find_range handle (0, 0) pdmi.device_addr_list).1;
    mem_chassis = i % 256;
    mem_socket = socket % 256;
    mem_controller = 0;
    mem_dimm = k % 256;
  }

  -- The loop over the devices of a socket, for `n` of them from `k` on: `num` and `list_mem`.
  unfoldable pub walk_dimms : ℕ → ℕ → ℕ → ℕ × List TopoMem → Option (ℕ × List TopoMem)
  walk_dimms socket zero k s = some s
  walk_dimms socket (suc n) k (num, mems) = elim (at device_handle num) [
    | none ↦ none
    | some handle ↦ walk_dimms socket n (k + 1) (num + 1, topo_mem socket k handle ∷ mems)
  ]

  -- The loop over the sockets; `one_each` is the test on `num_a`.
  unfoldable pub walk_sockets : Bool → List ℕ → ℕ × List TopoMem → Option (ℕ × List TopoMem)
  walk_sockets one_each [] s = some s
  walk_sockets one_each (socket ∷ ss) s = elim (at array_handle (if one_each then socket else i)) [
    | none ↦ none
    | some handle ↦ elim (walk_dimms socket (max_dimm handle 0 pdmi.array_list) 0 s) [
      | none ↦ none
      | some s' ↦ walk_sockets one_each ss s'
    ]
  ]

-- The loop over the chassis, for `n` of them from `i` on.
unfoldable pub walk_chassis :
    List ℕ → List ℕ → DmiData → List TopoCpu → ℕ → ℕ → ℕ × List TopoMem → Option (ℕ × List TopoMem)
walk_chassis device_handle array_handle pdmi cpus zero i s = some s
walk_chassis device_handle array_handle pdmi cpus (suc n) i s = elim (collect_sockets i cpus []) [
  | none ↦ none
  | some ss ↦
      elim (walk_sockets device_handle array_handle pdmi i
        (length array_handle == length ss * (max_chassis 0 cpus + 1)) ss s) [
          | none ↦ none
          | some s' ↦ walk_chassis device_handle array_handle pdmi cpus n (i + 1) s'
        ]
]

-- `fmd_topo_walk_mem`: `list_mem` afterwards.
unfoldable pub fmd_topo_walk_mem :
    (List ℕ → List ℕ) → DmiData → List TopoCpu → List TopoMem → Option (List TopoMem)
fmd_topo_walk_mem qsort pdmi cpus mems =
    elim (walk_chassis (qsort (map (λ d. d.handle) pdmi.device_list))
      (qsort (map (λ a. a.handle) pdmi.array_list)) pdmi cpus (max_chassis 0 cpus + 1) 0
      (0, mems)) [ none ↦ none | some (num, ms) ↦ some ms ]
