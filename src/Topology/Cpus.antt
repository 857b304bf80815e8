-- ===== src/Topology/Cpus.antt =====
-- Which threads the tree of lib/libtopo/topo_tree.c has: those of the processors.
use fms.Base.{ℕ, ◌≡◌, ◌≢◌, ◌↔◌, ◌⊎◌, none, some, List, [], ◌∷◌, arith, All}
use fms.Topology.{
  TopoCpu, topo_node_bound, topo_node_linked, Thread, Core, Chip, Chassis, new_thread, add_thread,
  add_core, add_chip, boards, fill_chassis, add_cpu, traverse_cpus,
}
use fms.Topology.Node.{Any, Distinct, put-Any}

abbrev pub chips : Chassis → List Chip
chips ch = elim ch.mb [ none ↦ [] | some mb ↦ mb.chip_head ]

-- The first thread of a core is linked, the others are bound.
abbrev pub IsStated : List Thread → Type 0
IsStated [] = Unit
IsStated (t ∷ []) = t.tn_state ≡ topo_node_linked
IsStated (t ∷ u ∷ ts) = (t.tn_state ≡ topo_node_bound) × IsStated (u ∷ ts)

abbrev pub IsCore : Core → Type 0
IsCore o = Distinct (λ t. t.tn_value) o.ht_head × IsStated o.ht_head

abbrev pub IsChip : Chip → Type 0
IsChip h = Distinct (λ o. o.tn_value) h.core_head × All IsCore h.core_head

abbrev pub IsChassis : Chassis → Type 0
IsChassis ch = (ch.mb ≢ none) × Distinct (λ h. h.tn_value) (chips ch) × All IsChip (chips ch)

-- The children of each node have different values, each chassis has a motherboard, and the threads have their states.
abbrev pub IsTree : List Chassis → Type 0
IsTree root = Distinct (λ ch. ch.tn_value) root × All IsChassis root

pub boards-chips : (c : TopoCpu) (ch : Chassis) → (boards c ch).0.chip_head ≡ chips ch
unfolding boards
boards-chips c ch = ground arith

module _ (chassis socket core thread : ℕ) where
  abbrev pub InCore : Core → Type 0
  InCore o = (o.tn_value ≡ core) × Any (λ t. t.tn_value ≡ thread) o.ht_head

  abbrev pub InChip : Chip → Type 0
  InChip h = (h.tn_value ≡ socket) × Any InCore h.core_head

  abbrev pub InChassis : Chassis → Type 0
  InChassis ch = (ch.tn_value ≡ chassis) × Any InChip (chips ch)

  -- The processor is the thread of that place.
  abbrev pub IsAt : TopoCpu → Type 0
  IsAt c =
      (c.cpu_chassis ≡ chassis)
      × (c.cpu_socket ≡ socket)
      × (c.cpu_core ≡ core)
      × (c.processor ≡ thread)

  add_thread-Any :
      (c : TopoCpu) (ts : List Thread)
      → Any (λ t. t.tn_value ≡ thread) (add_thread c ts)
        ↔ (Any (λ t. t.tn_value ≡ thread) ts ⊎ (c.processor ≡ thread))
  unfolding add_thread new_thread
  add_thread-Any c ts =
      put-Any (λ t. t.tn_value) c.processor (λ t. t.tn_value ≡ thread) (c.processor ≡ thread)
        (new_thread c.processor ts) (λ t. t) ts (λ t e. ground arith)
        (elim ts [ [] ↦ ground arith | ◌∷◌ t rest ↦ ground arith ])

  add_core-Any :
      (c : TopoCpu) (os : List Core)
      → Any InCore (add_core c os)
        ↔ (Any InCore os ⊎ ((c.cpu_core ≡ core) × (c.processor ≡ thread)))
  unfolding add_core
  add_core-Any c os =
      put-Any (λ o. o.tn_value) c.cpu_core InCore ((c.cpu_core ≡ core) × (c.processor ≡ thread)) _ _
        os (λ o e. ground (arith, add_thread-Any c o.ht_head)) (ground (arith, add_thread-Any c []))

  add_chip-Any :
      (c : TopoCpu) (hs : List Chip)
      → Any InChip (add_chip c hs)
        ↔ (Any InChip hs ⊎ ((c.cpu_socket ≡ socket) × (c.cpu_core ≡ core) × (c.processor ≡ thread)))
  unfolding add_chip
  add_chip-Any c hs =
      put-Any (λ h. h.tn_value) c.cpu_socket InChip
        ((c.cpu_socket ≡ socket) × (c.cpu_core ≡ core) × (c.processor ≡ thread)) _ _ hs
        (λ h e. ground (arith, add_core-Any c h.core_head)) (ground (arith, add_core-Any c []))

  add_cpu-Any :
      (c : TopoCpu) (root : List Chassis)
      → Any InChassis (add_cpu c root) ↔ (Any InChassis root ⊎ IsAt c)
  unfolding add_cpu fill_chassis boards
  add_cpu-Any c root =
      put-Any (λ ch. ch.tn_value) c.cpu_chassis InChassis (IsAt c) _ _ root
        (λ ch e. rw (boards-chips c ch) (ground (arith, add_chip-Any c (chips ch))))
        (ground (arith, add_chip-Any c []))

  pub traverse_cpus-Any :
      (cs : List TopoCpu) (root : List Chassis)
      → Any InChassis (traverse_cpus cs root) ↔ (Any InChassis root ⊎ Any IsAt cs)
  unfolding traverse_cpus
  traverse_cpus-Any [] root = ground arith
  traverse_cpus-Any (c ∷ cs) root =
      ground (arith, add_cpu-Any c root, traverse_cpus-Any cs (add_cpu c root))
