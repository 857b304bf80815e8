-- ===== src/Topology/Scan/Placed.antt =====
-- The memory that fmd_topo_walk_mem of lib/libtopo/dmi.c finds stands at sockets of processors.
use fms.Base.{
  ℕ, zero, suc, ◌+◌, ◌*◌, ◌%◌, ◌<◌, ◌≡◌, refl, subst, ◌≢◌, ◌↔◌, ◌⊎◌, inl, inr, Bool, true, not,
  ◌&&◌, Option, none, some, List, [], ◌∷◌, ◌++◌, map, arith, leb, ◌==◌, if◌then◌else◌, Bool-cases,
  Option-cases, length, All, Among,
}
use fms.Topology.{TopoCpu}
use fms.Topology.Node.{Any}
use fms.Topology.Devices.{TopoMem}
use fms.Topology.Scan.Table.{DmiData}
use fms.Topology.Scan.Memory.{
  max_chassis, has_socket, knows_socket, collect_sockets, at, max_dimm, topo_mem, walk_dimms,
  walk_sockets, walk_chassis, fmd_topo_walk_mem,
}

abbrev pub IsSocket : ℕ → ℕ → List TopoCpu → Type 0
IsSocket i s = Any (λ c. (c.cpu_chassis ≡ i) × (c.cpu_socket ≡ s))

-- The socket of the first processor of a chassis.
abbrev pub first_socket : ℕ → List TopoCpu → Option ℕ
first_socket i [] = none
first_socket i (c ∷ cs) = if c.cpu_chassis == i then some c.cpu_socket else first_socket i cs

has_socket_iff : (s : ℕ) (ss : List ℕ) → (has_socket s ss ≡ true) ↔ Among s ss
unfolding has_socket
has_socket_iff s [] = ground arith
has_socket_iff s (x ∷ xs) = ground (arith, has_socket_iff s xs)

Among-append : (s x : ℕ) (ss : List ℕ) → Among s (ss ++ x ∷ []) ↔ (Among s ss ⊎ (x ≡ s))
Among-append s x [] = ground arith
Among-append s x (y ∷ ss) = ground (arith, Among-append s x ss)

-- With a socket collected, the others are collected but for the number 0.
collect_more :
    (i : ℕ) (cs : List TopoCpu) (x : ℕ) (ss out : List ℕ)
    → collect_sockets i cs (x ∷ ss) ≡ some out
    → (s : ℕ) → Among s out ↔ (Among s (x ∷ ss) ⊎ ((s ≢ 0) × IsSocket i s cs))
unfolding collect_sockets knows_socket
collect_more i [] x ss out e s = ground arith
collect_more i (c ∷ cs) x ss out e s =
    let l = x ∷ ss in
    elim (Bool-cases (c.cpu_chassis == i && not (has_socket c.cpu_socket l))) [
      | inl t ↦ elim (Bool-cases (leb 16 (length l))) [
        | inl u ↦ absurd (ground (arith, t, u))
        | inr u ↦ elim (Bool-cases (c.cpu_socket == 0)) [
          | inl z ↦
              let q : collect_sockets i cs l ≡ some out = ground (arith, t, u, z) in
              ground (arith, t, z, collect_more i cs x ss out q s)
          | inr z ↦
              let q : collect_sockets i cs (x ∷ ss ++ c.cpu_socket ∷ []) ≡ some out =
                ground (arith, t, u, z) in
              ground (
                arith,
                t,
                z,
                collect_more i cs x (ss ++ c.cpu_socket ∷ []) out q s,
                Among-append s c.cpu_socket l,
              )
        ]
      ]
      | inr f ↦
          let q : collect_sockets i cs l ≡ some out = ground (arith, f) in
          ground (arith, f, has_socket_iff c.cpu_socket l, collect_more i cs x ss out q s)
    ]

-- The sockets of a chassis are collected from its processors. The number 0 is missing if it is not
-- that of the first processor.
pub collect_sockets_iff :
    (i : ℕ) (cs : List TopoCpu) (out : List ℕ)
    → collect_sockets i cs [] ≡ some out
    → (s : ℕ) → Among s out ↔ (IsSocket i s cs × ((s ≢ 0) ⊎ (first_socket i cs ≡ some 0)))
unfolding collect_sockets has_socket knows_socket
collect_sockets_iff i [] out e s = ground arith
collect_sockets_iff i (c ∷ cs) out e s = elim (Bool-cases (c.cpu_chassis == i)) [
  | inl t ↦
      let q : collect_sockets i cs (c.cpu_socket ∷ []) ≡ some out = ground (arith, t) in
      let m = collect_more i cs c.cpu_socket [] out q s in ground (arith, t, m)
  | inr f ↦
      let q : collect_sockets i cs [] ≡ some out = ground (arith, f) in
      ground (arith, f, collect_sockets_iff i cs out q s)
]

abbrev pub AtSocket : List TopoCpu → TopoMem → Type 0
AtSocket cpus m = IsSocket m.mem_chassis m.mem_socket cpus

module _ (device_handle array_handle : List ℕ) (pdmi : DmiData) (cpus : List TopoCpu) (i : ℕ) where
  walk_dimms-All :
      (socket n k num : ℕ) (mems : List TopoMem) (r : ℕ × List TopoMem)
      → IsSocket (i % 256) (socket % 256) cpus
      → All (AtSocket cpus) mems
      → walk_dimms device_handle array_handle pdmi i socket n k (num, mems) ≡ some r
      → All (AtSocket cpus) r.1
  unfolding walk_dimms topo_mem
  walk_dimms-All socket zero k num mems r h a e = ground arith
  walk_dimms-All socket (suc n) k num mems r h a e = elim (Option-cases (at device_handle num)) [
    | inl x ↦ absurd (ground (arith, x))
    | inr (handle, x) ↦
        walk_dimms-All socket n (k + 1) (num + 1)
          (topo_mem device_handle array_handle pdmi i socket k handle ∷ mems) r h (h, a)
          (ground (arith, x))
  ]

  walk_sockets-All :
      (one_each : Bool) (ss : List ℕ) (s r : ℕ × List TopoMem)
      → All (λ t. IsSocket (i % 256) (t % 256) cpus) ss
      → All (AtSocket cpus) s.1
      → walk_sockets device_handle array_handle pdmi i one_each ss s ≡ some r
      → All (AtSocket cpus) r.1
  unfolding walk_sockets
  walk_sockets-All one_each [] s r h a e = ground arith
  walk_sockets-All one_each (socket ∷ ss) s r h a e =
      elim (Option-cases (at array_handle (if one_each then socket else i))) [
        | inl x ↦ absurd (ground (arith, x))
        | inr (handle, x) ↦
            let n = max_dimm handle 0 pdmi.array_list in
            elim (Option-cases (walk_dimms device_handle array_handle pdmi i socket n 0 s)) [
              | inl y ↦ absurd (ground (arith, x, y))
              | inr (s', y) ↦
                  walk_sockets-All one_each ss s' r h.1
                    (walk_dimms-All socket n 0 s.0 s.1 s' h.0 a y) (ground (arith, x, y))
            ]
      ]

-- The bit fields of a processor hold bytes.
abbrev pub IsByteCpu : TopoCpu → Type 0
IsByteCpu c = (c.cpu_chassis < 256) × (c.cpu_socket < 256)

IsSocket-lt :
    (i s : ℕ) (cs : List TopoCpu) → All IsByteCpu cs → IsSocket i s cs → (i < 256) × (s < 256)
IsSocket-lt i s [] b h = absurd h
IsSocket-lt i s (c ∷ cs) b h = elim h [
  | inl p ↦ omega (arith, b.0, p)
  | inr r ↦ IsSocket-lt i s cs b.1 r
]

Among-All : (P : ℕ → Type 0) (xs : List ℕ) → ((s : ℕ) → Among s xs → P s) → All P xs
Among-All P [] h = tt
Among-All P (x ∷ xs) h = (h x (inl refl), Among-All P xs (λ s m. h s (inr m)))

-- The sockets as they are stored in a bit field.
collected-All :
    (i : ℕ) (cpus : List TopoCpu) (ss : List ℕ)
    → All IsByteCpu cpus
    → collect_sockets i cpus [] ≡ some ss
    → All (λ t. IsSocket (i % 256) (t % 256) cpus) ss
collected-All i cpus ss b e =
    Among-All (λ t. IsSocket (i % 256) (t % 256) cpus) ss
      λ s m.
        let h = ((collect_sockets_iff i cpus ss e s).0 m).0 in
        let lt = IsSocket-lt i s cpus b h in
        let p : i ≡ i % 256 = omega (arith, lt) in
        let q : s ≡ s % 256 = omega (arith, lt) in
        subst (λ j. IsSocket j (s % 256) cpus) p (subst (λ t. IsSocket i t cpus) q h)

walk_chassis-All :
    (device_handle array_handle : List ℕ) (pdmi : DmiData) (cpus : List TopoCpu) (n i : ℕ)
    (s r : ℕ × List TopoMem)
    → All IsByteCpu cpus
    → All (AtSocket cpus) s.1
    → walk_chassis device_handle array_handle pdmi cpus n i s ≡ some r
    → All (AtSocket cpus) r.1
unfolding walk_chassis
walk_chassis-All device_handle array_handle pdmi cpus zero i s r b a e = ground arith
walk_chassis-All device_handle array_handle pdmi cpus (suc n) i s r b a e =
    elim (Option-cases (collect_sockets i cpus [])) [
      | inl x ↦ absurd (ground (arith, x))
      | inr (ss, x) ↦
          let one_each = length array_handle == length ss * (max_chassis 0 cpus + 1) in
          elim (Option-cases (walk_sockets device_handle array_handle pdmi i one_each ss s)) [
            | inl y ↦ absurd (ground (arith, x, y))
            | inr (s', y) ↦
                let a' =
                  walk_sockets-All device_handle array_handle pdmi cpus i one_each ss s s'
                    (collected-All i cpus ss b x) a y in
                walk_chassis-All device_handle array_handle pdmi cpus n (i + 1) s' r b a'
                  (ground (arith, x, y))
          ]
    ]

-- Each memory device that `fmd_topo_walk_mem` puts into the list stands at the chassis and the
-- socket of a processor.
pub walk_mem-AtSocket :
    (qsort : List ℕ → List ℕ) (pdmi : DmiData) (cpus : List TopoCpu) (mems : List TopoMem)
    → All IsByteCpu cpus
    → fmd_topo_walk_mem qsort pdmi cpus [] ≡ some mems
    → All (AtSocket cpus) mems
unfolding fmd_topo_walk_mem
walk_mem-AtSocket qsort pdmi cpus mems b e =
    let dh = qsort (map (λ d. d.handle) pdmi.device_list) in
    let ah = qsort (map (λ a. a.handle) pdmi.array_list) in
    elim (Option-cases (walk_chassis dh ah pdmi cpus (max_chassis 0 cpus + 1) 0 (0, []))) [
      | inl x ↦ absurd (ground (arith, x))
      | inr (r, x) ↦
          let a = walk_chassis-All dh ah pdmi cpus (max_chassis 0 cpus + 1) 0 (0, []) r b tt x in
          let p : r.1 ≡ mems = ground (arith, x) in subst (All (AtSocket cpus)) p a
    ]
