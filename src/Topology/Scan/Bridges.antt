-- ===== src/Topology/Scan/Bridges.antt =====
-- Where fmd_scan_pci_dev and fmd_topo_walk_subpci of lib/libtopo/pci.c put a device.
use fms.Base.{ℕ, ◌%◌, ◌≡◌, refl, sym, ap, ◌∙◌, ◌↔◌, true, List, [], ◌∷◌, ◌++◌, map, arith, All}
use fms.Text.{str_eq}
use fms.Topology.Devices.{TopoPci}
use fms.Topology.Scan.Pci.{
  get_conf_word, icon_of, classify_pci, is_bridge, behind_bridge, fmd_topo_walk_subpci,
}

-- The device is on the secondary bus of the bridge.
abbrev pub IsBehind : TopoPci → TopoPci → Type 0
IsBehind b s = (s.pci_hostbridge ≡ b.pci_subbus) × (s.pci_chassis ≡ b.pci_subdomain)

-- The place that the tree gives to a device, and where a device of the secondary bus stands.
abbrev pub Stands : TopoPci → TopoPci → TopoPci → Type 0
Stands b s t =
    (t.pci_chassis ≡ b.pci_chassis)
    × (t.pci_hostbridge ≡ b.pci_hostbridge)
    × (t.pci_slot ≡ b.pci_slot)
    × (t.pci_func ≡ b.pci_func)
    × (t.pci_subbus ≡ b.pci_subbus)
    × (t.pci_subslot ≡ s.pci_slot % 8)
    × (t.pci_subfunc ≡ s.pci_func % 4)

-- The bridges, one after the other.
abbrev pub through : List TopoPci → TopoPci → TopoPci
through [] s = s
through (b ∷ bs) s = through bs (behind_bridge b s)

walk_subpci-map : (bs pcis : List TopoPci) → fmd_topo_walk_subpci bs pcis ≡ map (through bs) pcis
unfolding fmd_topo_walk_subpci
walk_subpci-map [] pcis = sym (map_self pcis)
  where
    map_self : (l : List TopoPci) → map (λ s. s) l ≡ l
    map_self [] = refl
    map_self (x ∷ l) = ap (λ r. x ∷ r) (map_self l)
walk_subpci-map (b ∷ bs) pcis = walk_subpci-map bs (map (behind_bridge b) pcis) ∙ map_map pcis
  where
    map_map :
        (l : List TopoPci) → map (through bs) (map (behind_bridge b) l) ≡ map (through (b ∷ bs)) l
    map_map [] = refl
    map_map (x ∷ l) = ap (λ r. through bs (behind_bridge b x) ∷ r) (map_map l)

-- Bridges with another secondary bus leave a device where it is.
through-others :
    (bs : List TopoPci) (s : TopoPci) → All (λ b. IsBehind b s → ⊥) bs → through bs s ≡ s
unfolding behind_bridge
through-others [] s a = refl
through-others (b ∷ bs) s a =
    let same : behind_bridge b s ≡ s = ground (arith, a.0) in rw same (through-others bs s a.1)

through-append :
    (before later : List TopoPci) (s : TopoPci)
    → through (before ++ later) s ≡ through later (through before s)
through-append [] later s = refl
through-append (b ∷ before) later s = through-append before later (behind_bridge b s)

through-Stands :
    (before later : List TopoPci) (b s : TopoPci)
    → All (λ c. IsBehind c s → ⊥) before
    → IsBehind b s
    → All (λ c. IsBehind c b → ⊥) later
    → Stands b s (through (before ++ b ∷ later) s)
unfolding behind_bridge
through-Stands before later b s h i l =
    let stands : Stands b s (behind_bridge b s) = ground (arith, i) in
    let others : through later (behind_bridge b s) ≡ behind_bridge b s =
      through-others later (behind_bridge b s) (moved later l stands) in
    rw (through-append before (b ∷ later) s) (rw (through-others before s h) (rw others stands))
  where
    moved :
        (l : List TopoPci)
        → All (λ c. IsBehind c b → ⊥) l
        → Stands b s (behind_bridge b s)
        → All (λ c. IsBehind c (behind_bridge b s) → ⊥) l
    moved [] a w = tt
    moved (c ∷ l) a w = ((λ q. a.0 (sym w.1 ∙ q.0, sym w.0 ∙ q.1)), moved l a.1 w)

-- The devices have the same place in the tree.
abbrev pub SamePlace : TopoPci → TopoPci → Type 0
SamePlace s t =
    (s.pci_chassis ≡ t.pci_chassis)
    × (s.pci_hostbridge ≡ t.pci_hostbridge)
    × (s.pci_slot ≡ t.pci_slot)
    × (s.pci_func ≡ t.pci_func)
    × (s.pci_subbus ≡ t.pci_subbus)
    × (s.pci_subslot ≡ t.pci_subslot)
    × (s.pci_subfunc ≡ t.pci_subfunc)

Stands-SamePlace :
    (b s t s1 t1 : TopoPci)
    → Stands b s s1
    → Stands b t t1
    → SamePlace s1 t1 ↔ ((s.pci_slot % 8 ≡ t.pci_slot % 8) × (s.pci_func % 4 ≡ t.pci_func % 4))
Stands-SamePlace b s t s1 t1 h k = (
  λ p. (sym h.5 ∙ p.5 ∙ k.5, sym h.6 ∙ p.6 ∙ k.6),
  λ q. (
    h.0 ∙ sym k.0,
    h.1 ∙ sym k.1,
    h.2 ∙ sym k.2,
    h.3 ∙ sym k.3,
    h.4 ∙ sym k.4,
    h.5 ∙ q.0 ∙ sym k.5,
    h.6 ∙ q.1 ∙ sym k.6,
  ),
)

-- Two devices on the secondary bus of a bridge are put to one place in the tree exactly if their
-- slots agree in the low three bits and their functions in the low two: when the devices are behind
-- none of the bridges before that one in the list, and the bridge itself is behind none of the later
-- ones.
pub walk_subpci-SamePlace :
    (before later : List TopoPci) (b s t : TopoPci)
    → All (λ c. IsBehind c s → ⊥) before
    → All (λ c. IsBehind c t → ⊥) before
    → IsBehind b s
    → IsBehind b t
    → All (λ c. IsBehind c b → ⊥) later
    → (s1 t1 : TopoPci) × (fmd_topo_walk_subpci (before ++ b ∷ later) (s ∷ t ∷ []) ≡ s1 ∷ t1 ∷ [])
      × (SamePlace s1 t1 ↔ ((s.pci_slot % 8 ≡ t.pci_slot % 8) × (s.pci_func % 4 ≡ t.pci_func % 4)))
walk_subpci-SamePlace before later b s t hs ht is it l =
    let bs = before ++ b ∷ later in
    (
      through bs s,
      through bs t,
      walk_subpci-map bs (s ∷ t ∷ []),
      Stands-SamePlace b s t (through bs s) (through bs t) (through-Stands before later b s hs is l)
          (through-Stands before later b t ht it l),
    )

-- The devices of the class 0x0604, and no others, are put into the list of the bridges.
pub is_bridge_iff :
    (config : ℕ → ℕ) (p : TopoPci)
    → (is_bridge (classify_pci config p) ≡ true) ↔ (get_conf_word config 0x0a ≡ 0x0604)
unfolding is_bridge classify_pci icon_of str_eq
is_bridge_iff config p = ground arith
