-- ===== src/Topology/Scan/Cpu.antt =====
-- lib/libtopo/cpu.c: the processors, and the loop of _fmd_topo in lib/libtopo/fmd_topo.c that numbers
-- the threads of a core.
use fms.Base.{
  ℕ, zero, suc, ◌+◌, ◌%◌, Bool, true, false, not, ◌&&◌, ◌||◌, Option, none, some, List, [], ◌∷◌,
  ltb, ◌==◌, if◌then◌else◌, length, get_or, set, take,
}
use fms.Text.{Text, codes, has_prefix, is_digit, atoi}
use fms.Topology.{TopoCpu}
use fms.Topology.Scan.{FileSystem, join, is_hidden}

-- `fmd_topo_read_cpu`
unfoldable pub fmd_topo_read_cpu : FileSystem → Text → ℕ → ℕ → Option TopoCpu
fmd_topo_read_cpu fs dir nodeid processorid =
    elim (fs.content (join dir (codes "topology/physical_package_id"))) [
      | none ↦ none
      | some socket ↦ elim (fs.content (join dir (codes "topology/core_id"))) [
        | none ↦ none
        | some core ↦ some (record {
          processor = processorid;
          flag = 0;
          cpu_chassis = nodeid % 256;
          cpu_board = 0;
          cpu_socket = atoi (take 8 socket) % 256;
          cpu_core = atoi (take 8 core) % 256;
          cpu_thread = 0;
        })
      ]
    ]

-- The names of processors: "cpu" and a digit, and behind it nothing or a digit.
unfoldable pub is_cpu_name : Text → Bool
is_cpu_name p =
    has_prefix (codes "cpu") p
    && is_digit (get_or p 3 0)
    && (get_or p 4 0 == 0 || is_digit (get_or p 4 0))

-- A list from the place `n` on.
unfoldable pub advance : {A : Type 0} → ℕ → List A → List A
advance zero s = s
advance (suc n) [] = []
advance (suc n) (c ∷ s) = advance n s

-- A round of the loop of `fmd_topo_walk_cpu`: a processor is put in front of the list.
unfoldable pub walk_name : FileSystem → Text → ℕ → Text → List TopoCpu → List TopoCpu
walk_name fs dir nodeid p cpus = elim (is_hidden p || not (is_cpu_name p)) [
  | true ↦ cpus
  | false ↦ elim (fmd_topo_read_cpu fs (join dir p) nodeid (atoi (advance 3 p))) [
    | none ↦ cpus
    | some c ↦ c ∷ cpus
  ]
]

unfoldable pub walk_names : FileSystem → Text → ℕ → List Text → List TopoCpu → List TopoCpu
walk_names fs dir nodeid [] cpus = cpus
walk_names fs dir nodeid (p ∷ ps) cpus =
    walk_names fs dir nodeid ps (walk_name fs dir nodeid p cpus)

unfoldable pub fmd_topo_walk_cpu : FileSystem → Text → ℕ → List TopoCpu → List TopoCpu
fmd_topo_walk_cpu fs dir nodeid cpus = elim (fs.names dir) [
  | none ↦ cpus
  | some ps ↦ walk_names fs dir nodeid ps cpus
]

-- The loop over the digits of a node's name.
unfoldable pub all_digits : Text → Bool
all_digits [] = true
all_digits (c ∷ s) = is_digit c && all_digits s

-- The loop of `fmd_topo_cpu`: false is NODE_ID_INVALD.
unfoldable pub walk_nodes :
    FileSystem → Text → Text → List Text → List TopoCpu → Bool × List TopoCpu
walk_nodes fs dir prefix [] cpus = (true, cpus)
walk_nodes fs dir prefix (p ∷ ps) cpus = elim (is_hidden p || not (has_prefix prefix p)) [
  | true ↦ walk_nodes fs dir prefix ps cpus
  | false ↦ elim (all_digits (advance (length prefix) p)) [
    | false ↦ (false, cpus)
    | true ↦
        walk_nodes fs dir prefix ps
          (fmd_topo_walk_cpu fs (join dir p) (atoi (advance (length prefix) p)) cpus)
  ]
]

-- `fmd_topo_cpu`: false is a negative result.
unfoldable pub fmd_topo_cpu : FileSystem → Text → Text → List TopoCpu → Bool × List TopoCpu
fmd_topo_cpu fs dir prefix cpus = elim (fs.names dir) [
  | none ↦ (false, cpus)
  | some ps ↦ walk_nodes fs dir prefix ps cpus
]

unfoldable pub cpu_sibling : TopoCpu → TopoCpu → Bool
cpu_sibling a b =
    a.cpu_chassis == b.cpu_chassis && a.cpu_socket == b.cpu_socket && a.cpu_core == b.cpu_core

-- The inner loop, from the place `j` on: the first sibling of the processor `c` at the place `i`.
unfoldable pub find_sibling : ℕ → TopoCpu → ℕ → List TopoCpu → Option (ℕ × TopoCpu)
find_sibling i c j [] = none
find_sibling i c j (d ∷ ds) = elim (j == i || c.flag == 1 || not (cpu_sibling c d)) [
  | true ↦ find_sibling i c (j + 1) ds
  | false ↦ some (j, d)
]

-- What is stored for the processor at the place `i`.
unfoldable pub mark_sibling : ℕ → TopoCpu → List TopoCpu → List TopoCpu
mark_sibling i c cpus = elim (find_sibling i c 0 cpus) [
  | none ↦ cpus
  | some (j, d) ↦
      if ltb c.processor d.processor
      then set (set cpus i (record c { flag = 1 })) j (record d { cpu_thread = 1; flag = 1 })
      else set (set cpus i (record c { cpu_thread = 1; flag = 1 })) j (record d { flag = 1 })
]

-- A round of the outer loop, at the place `i`.
unfoldable pub mark_at : ℕ → List TopoCpu → List TopoCpu
mark_at i cpus = elim (advance i cpus) [ [] ↦ cpus | ◌∷◌ c rest ↦ mark_sibling i c cpus ]

-- The outer loop, for `n` places from `i` on.
unfoldable pub mark_threads : ℕ → ℕ → List TopoCpu → List TopoCpu
mark_threads zero i cpus = cpus
mark_threads (suc n) i cpus = mark_threads n (i + 1) (mark_at i cpus)

-- The loop over `list_cpu`.
unfoldable pub set_threads : List TopoCpu → List TopoCpu
set_threads cpus = mark_threads (length cpus) 0 cpus
