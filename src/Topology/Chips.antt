-- ===== src/Topology/Chips.antt =====
-- Which chassis and chips the processors make in the tree of lib/libtopo/topo_tree.c.
use fms.Base.{ℕ, ◌≡◌, ◌↔◌, ◌⊎◌, none, List, [], ◌∷◌, arith}
use fms.Topology.{TopoCpu, Chip, Chassis, add_chip, boards, fill_chassis, add_cpu, traverse_cpus}
use fms.Topology.Node.{Any, put-Any}
use fms.Topology.Cpus.{chips, boards-chips}
use fms.Topology.Places.{HasChassis, HasChip}

-- The places that the processors make.
pub cpus-HasChassis :
    (k : ℕ) (cs : List TopoCpu) (root : List Chassis)
    → HasChassis k (traverse_cpus cs root) ↔ (HasChassis k root ⊎ Any (λ c. c.cpu_chassis ≡ k) cs)
unfolding traverse_cpus add_cpu fill_chassis
cpus-HasChassis k [] root = ground arith
cpus-HasChassis k (c ∷ cs) root =
    let one =
      put-Any (λ ch. ch.tn_value) c.cpu_chassis (λ ch. ch.tn_value ≡ k) (c.cpu_chassis ≡ k)
        (record { tn_value = c.cpu_chassis; mb = none; sb = none }) (fill_chassis c) root
        (λ ch e. ground arith) (ground arith) in
    ground (arith, one, cpus-HasChassis k cs (add_cpu c root))

add_chip-socket :
    (s : ℕ) (c : TopoCpu) (hs : List Chip)
    → Any (λ h. h.tn_value ≡ s) (add_chip c hs)
      ↔ (Any (λ h. h.tn_value ≡ s) hs ⊎ (c.cpu_socket ≡ s))
unfolding add_chip
add_chip-socket s c hs =
    put-Any (λ h. h.tn_value) c.cpu_socket (λ h. h.tn_value ≡ s) (c.cpu_socket ≡ s) _ _ hs
      (λ h e. ground arith) (ground arith)

add_cpu-HasChip :
    (k s : ℕ) (c : TopoCpu) (root : List Chassis)
    → HasChip k s (add_cpu c root) ↔ (HasChip k s root ⊎ ((c.cpu_chassis ≡ k) × (c.cpu_socket ≡ s)))
unfolding add_cpu fill_chassis boards
add_cpu-HasChip k s c root =
    put-Any (λ ch. ch.tn_value) c.cpu_chassis
      (λ ch. (ch.tn_value ≡ k) × Any (λ h. h.tn_value ≡ s) (chips ch))
      ((c.cpu_chassis ≡ k) × (c.cpu_socket ≡ s)) _ _ root
      (λ ch e. rw (boards-chips c ch) (ground (arith, add_chip-socket s c (chips ch))))
      (ground (arith, add_chip-socket s c []))

pub cpus-HasChip :
    (k s : ℕ) (cs : List TopoCpu) (root : List Chassis)
    → HasChip k s (traverse_cpus cs root)
      ↔ (HasChip k s root ⊎ Any (λ c. (c.cpu_chassis ≡ k) × (c.cpu_socket ≡ s)) cs)
unfolding traverse_cpus
cpus-HasChip k s [] root = ground arith
cpus-HasChip k s (c ∷ cs) root =
    ground (arith, add_cpu-HasChip k s c root, cpus-HasChip k s cs (add_cpu c root))
