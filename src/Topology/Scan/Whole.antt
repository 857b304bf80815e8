-- ===== src/Topology/Scan/Whole.antt =====
-- The search of lib/libtopo/fmd_topo.c and the tree of lib/libtopo/topo_tree.c together.
use fms.Base.{
  ℕ, zero, suc, ◌+◌, ◌≡◌, sym, subst, ◌≢◌, ◌↔◌, inl, inr, not, ◌||◌, none, some, List, [], ◌∷◌,
  arith, Bool-cases, Option-cases, length, All,
}
use fms.Text.{Text, codes, atoi, has_prefix}
use fms.Topology.{TopoCpu}
use fms.Topology.Node.{Any}
use fms.Topology.Devices.{TopoMem}
use fms.Topology.Whole.{fmd_topo_tree_iff}
use fms.Topology.Scan.{FileSystem, done, is_hidden, join, Outcome-cases}
use fms.Topology.Scan.Cpu.{
  fmd_topo_read_cpu, is_cpu_name, advance, walk_name, walk_names, fmd_topo_walk_cpu, all_digits,
  walk_nodes, fmd_topo_cpu, set_threads,
}
use fms.Topology.Scan.Threads.{SameCpus, set_threads-SameCpus}
use fms.Topology.Scan.Memory.{fmd_topo_walk_mem}
use fms.Topology.Scan.Placed.{IsByteCpu, AtSocket, walk_mem-AtSocket}
use fms.Topology.Scan.Pci.{fmd_topo_pci}
use fms.Topology.Scan.Start.{
  Machine, Topo, anchored_table, is_dmi_anchor, search_anchor, fmd_topo_dmi, find_cpus, fmd_topo,
  topo_tree_create,
}

read_cpu-IsByteCpu :
    (fs : FileSystem) (dir : Text) (nodeid processorid : ℕ) (c : TopoCpu)
    → fmd_topo_read_cpu fs dir nodeid processorid ≡ some c
    → IsByteCpu c
unfolding fmd_topo_read_cpu
read_cpu-IsByteCpu fs dir nodeid processorid c e = ground arith

walk_name-All :
    (fs : FileSystem) (dir : Text) (nodeid : ℕ) (p : Text) (cpus : List TopoCpu)
    → All IsByteCpu cpus
    → All IsByteCpu (walk_name fs dir nodeid p cpus)
unfolding walk_name
walk_name-All fs dir nodeid p cpus a = elim (Bool-cases (is_hidden p || not (is_cpu_name p))) [
  | inl t ↦ rw (t, walk_name) a
  | inr f ↦ elim (Option-cases (fmd_topo_read_cpu fs (join dir p) nodeid (atoi (advance 3 p)))) [
    | inl n ↦ rw (f, n, walk_name) a
    | inr (c, e) ↦
        rw (f, e, walk_name) (read_cpu-IsByteCpu fs (join dir p) nodeid (atoi (advance 3 p)) c e, a)
  ]
]

walk_names-All :
    (fs : FileSystem) (dir : Text) (nodeid : ℕ) (ps : List Text) (cpus : List TopoCpu)
    → All IsByteCpu cpus
    → All IsByteCpu (walk_names fs dir nodeid ps cpus)
unfolding walk_names
walk_names-All fs dir nodeid [] cpus a = a
walk_names-All fs dir nodeid (p ∷ ps) cpus a =
    walk_names-All fs dir nodeid ps (walk_name fs dir nodeid p cpus)
      (walk_name-All fs dir nodeid p cpus a)

walk_cpu-All :
    (fs : FileSystem) (dir : Text) (nodeid : ℕ) (cpus : List TopoCpu)
    → All IsByteCpu cpus
    → All IsByteCpu (fmd_topo_walk_cpu fs dir nodeid cpus)
unfolding fmd_topo_walk_cpu
walk_cpu-All fs dir nodeid cpus a = elim (Option-cases (fs.names dir)) [
  | inl n ↦ rw (n, fmd_topo_walk_cpu) a
  | inr (ps, e) ↦ rw (e, fmd_topo_walk_cpu) (walk_names-All fs dir nodeid ps cpus a)
]

walk_nodes-All :
    (fs : FileSystem) (dir prefix : Text) (ps : List Text) (cpus : List TopoCpu)
    → All IsByteCpu cpus
    → All IsByteCpu (walk_nodes fs dir prefix ps cpus).1
unfolding walk_nodes
walk_nodes-All fs dir prefix [] cpus a = a
walk_nodes-All fs dir prefix (p ∷ ps) cpus a =
    elim (Bool-cases (is_hidden p || not (has_prefix prefix p))) [
      | inl t ↦ rw (t, walk_nodes) (walk_nodes-All fs dir prefix ps cpus a)
      | inr f ↦ elim (Bool-cases (all_digits (advance (length prefix) p))) [
        | inr n ↦ rw (f, n, walk_nodes) a
        | inl d ↦
            let node = atoi (advance (length prefix) p) in
            rw (f, d, walk_nodes)
              (walk_nodes-All fs dir prefix ps (fmd_topo_walk_cpu fs (join dir p) node cpus)
                (walk_cpu-All fs (join dir p) node cpus a))
      ]
    ]

cpus-All : (fs : FileSystem) (dir prefix : Text) → All IsByteCpu (fmd_topo_cpu fs dir prefix []).1
unfolding fmd_topo_cpu
cpus-All fs dir prefix = elim (Option-cases (fs.names dir)) [
  | inl n ↦ rw (n, fmd_topo_cpu) tt
  | inr (ps, e) ↦ rw (e, fmd_topo_cpu) (walk_nodes-All fs dir prefix ps [] tt)
]

SameCpus-All : (a b : List TopoCpu) → SameCpus a b → All IsByteCpu b → All IsByteCpu a
SameCpus-All [] b s h = tt
SameCpus-All (c ∷ a) [] s h = absurd s
SameCpus-All (c ∷ a) (d ∷ b) s h = (omega (arith, s.1, s.3, h.0), SameCpus-All a b s.5 h.1)

find_cpus-IsByteCpu : (fs : FileSystem) → All IsByteCpu (find_cpus fs)
unfolding find_cpus
find_cpus-IsByteCpu fs =
    let nodes = fmd_topo_cpu fs (codes "/sys/devices/system/node") (codes "node") [] in
    let a : All IsByteCpu nodes.1 = cpus-All fs (codes "/sys/devices/system/node") (codes "node") in
    let all = fmd_topo_walk_cpu fs (codes "/sys/devices/system/cpu") 0 nodes.1 in
    elim (Bool-cases nodes.0) [
      | inl t ↦
          rw (t, find_cpus)
            (SameCpus-All (set_threads nodes.1) nodes.1 (set_threads-SameCpus nodes.1) a)
      | inr f ↦
          rw (f, find_cpus)
            (SameCpus-All (set_threads all) all (set_threads-SameCpus all)
              (walk_cpu-All fs (codes "/sys/devices/system/cpu") 0 nodes.1 a))
    ]

search-AtSocket :
    (m : Machine) (cpus : List TopoCpu) (n fp : ℕ) (r : List TopoMem)
    → All IsByteCpu cpus
    → search_anchor m cpus n fp [] ≡ done r
    → All (AtSocket cpus) r
unfolding search_anchor
search-AtSocket m cpus zero fp r b e =
    let p : [] ≡ r = ground arith in subst (All (AtSocket cpus)) p tt
search-AtSocket m cpus (suc n) fp r b e = elim (Option-cases (m.mmap fp)) [
  | inl x ↦ absurd (ground (arith, x))
  | inr (buf, x) ↦ elim (Bool-cases (is_dmi_anchor buf)) [
    | inr y ↦ search-AtSocket m cpus n (fp + 16) r b (ground (arith, x, y))
    | inl y ↦ elim (Option-cases (anchored_table m.mmap buf)) [
      | inl z ↦ absurd (ground (arith, x, y, z))
      | inr (none, z) ↦ absurd (ground (arith, x, y, z))
      | inr (some pdmi, z) ↦ elim (Option-cases (fmd_topo_walk_mem m.qsort pdmi cpus [])) [
        | inl w ↦ absurd (ground (arith, x, y, z, w))
        | inr (l, w) ↦
            let p : l ≡ r = ground (arith, x, y, z, w) in
            subst (All (AtSocket cpus)) p (walk_mem-AtSocket m.qsort pdmi cpus l b w)
      ]
    ]
  ]
]

All-map :
    {A : Type 0} (P Q : A → Type 0) (xs : List A) → ((x : A) → P x → Q x) → All P xs → All Q xs
All-map P Q [] h a = tt
All-map P Q (x ∷ xs) h a = (h x a.0, All-map P Q xs h a.1)

fmd_topo-parts :
    (m : Machine) (t : Topo)
    → fmd_topo m ≡ done t
    → (t.list_cpu ≡ find_cpus m.fs) × (fmd_topo_dmi m (find_cpus m.fs) [] ≡ done t.list_mem)
unfolding fmd_topo
fmd_topo-parts m t e = elim (Outcome-cases (fmd_topo_dmi m (find_cpus m.fs) [])) [
  | inr (inr u) ↦ absurd (ground (arith, u))
  | inr (inl (mems, u)) ↦ absurd (ground (arith, u))
  | inl (mems, u) ↦
      let l =
        fmd_topo_pci m.fs m.bus_name (codes "/sys/bus/pci/devices")
          (record { list_pci = []; list_pci_bridge = []; list_storage = [] }) in
      elim (Outcome-cases l) [
        | inr (inr v) ↦ absurd (ground (arith, u, v))
        | inr (inl (x, v)) ↦ absurd (ground (arith, u, v))
        | inl (x, v) ↦
            let d : done (record { list_cpu = find_cpus m.fs; list_mem = mems; pci = x }) ≡ done t =
              ground (arith, u, v) in
            ground (arith, u, d)
      ]
]

-- When the search has found the devices, the tree of them is made exactly if each PCI device that
-- is not a bridge or a controller of disks stands in the chassis of a processor: the memory always
-- finds its chip.
pub topo_tree_create_iff :
    (m : Machine) (t : Topo)
    → fmd_topo m ≡ done t
    → (topo_tree_create t ≢ none)
      ↔ All (λ p. Any (λ c. c.cpu_chassis ≡ p.pci_chassis) t.list_cpu) t.pci.list_pci
unfolding topo_tree_create fmd_topo_dmi
topo_tree_create_iff m t e =
    let h = fmd_topo-parts m t e in
    let b : All IsByteCpu t.list_cpu = subst (All IsByteCpu) (sym h.0) (find_cpus-IsByteCpu m.fs) in
    let d : search_anchor m t.list_cpu 8193 0xE0000 [] ≡ done t.list_mem = rw h.0 h.1 in
    let a = search-AtSocket m t.list_cpu 8193 0xE0000 t.list_mem b d in
    let w = fmd_topo_tree_iff t.list_cpu t.pci.list_pci t.list_mem in
    (λ n. (w.0 n).0, λ p. w.1 (p, a))
