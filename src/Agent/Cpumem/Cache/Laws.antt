-- ===== src/Agent/Cpumem/Cache/Laws.antt =====
-- What the table of caches holds, and which processors share a cache.
use fms.Base.{
  ◌/◌, ◌%◌, ◌⊎◌, ℕ, zero, suc, ◌+◌, ◌-◌, ◌*◌, ◌^◌, ◌≤◌, ◌<◌, ◌≡◌, refl, ap, ◌∙◌, ◌≢◌, ◌↔◌, inl, inr,
  true, Option, none, some, List, [], ◌∷◌, map, arith, ltb, leb, ◌==◌, if◌then◌else◌, Bool-cases,
  length, set, replicate, length-append, length-replicate, length-set, All, Among,
}
use fms.Text.{Text}
use fms.Agent.Cpumem.CpuMap.{hex_from, cpumap_len, parse_cpumap, set_bits, test_bit}
use fms.Agent.Cpumem.CpuMap.RoundTrip.{IsWord, render, parse_cpumap-render, length-map}
use fms.Agent.Cpumem.Cache.{
  Cache, Caches, CpuDir, IndexDir, more_cpus, room, cpu_caches, put_caches, read_dirs, mask_cpus,
  read_cache,
}

-- The loop takes the processors of the bits that are set, each in its range.
pub set_bits_iff :
    (n lo i : ℕ) (words : List ℕ)
    → Among i (set_bits n lo words) ↔ ((lo ≤ i) × (i < lo + n) × (test_bit i words ≡ true))
unfolding set_bits
set_bits_iff zero lo i words = ground arith
set_bits_iff (suc n) lo i words = ground (arith, set_bits_iff n (lo + 1) i words)

-- The bit of a number that is written as words of 32 bits, the lowest first.
abbrev pub HasBit : ℕ → List ℕ → Type 0
HasBit i [] = ⊥
HasBit i (v ∷ vs) = ((i < 32) × (v / 2 ^ i % 2 ≡ 1)) ⊎ ((32 ≤ i) × HasBit (i - 32) vs)

test_bit-HasBit :
    (i : ℕ) (words : List ℕ)
    → ((i < 32 * length words) × (test_bit i words ≡ true)) ↔ HasBit i words
unfolding test_bit
test_bit-HasBit i [] = (λ h. omega (arith, h.0), λ h. absurd h)
test_bit-HasBit i (v ∷ vs) = elim (Bool-cases (ltb i 32)) [
  | inl h ↦
      let small : i < 32 = ground (arith, h) in
      let m : i % 32 ≡ i = omega (arith, small) in
      let q : i / 32 ≡ 0 = omega (arith, small) in
      let room : i < 32 * length (v ∷ vs) = omega (arith, small) in
      rw (m, q) (ground (arith, h, room))
  | inr h ↦
      let le : 32 ≤ i = ground (arith, h) in
      let m : i % 32 ≡ (i - 32) % 32 = omega (arith, le) in
      let q : i / 32 ≡ suc ((i - 32) / 32) = omega (arith, le) in
      let r : (i < 32 * length (v ∷ vs)) ↔ (i - 32 < 32 * length vs) =
        (λ b. omega (arith, b, le), λ b. omega (arith, b, le)) in
      let ih = test_bit-HasBit (i - 32) vs in rw (m, q) (ground (arith, le, r, ih))
]

-- The bits of a cache's mask are those of the words of its file: for a file of the form that the
-- kernel writes, `cpu_offine_on_cache` goes through the processors whose bits are set in the number
-- that its words of 32 bits make.
pub mask_cpus_iff :
    (d : IndexDir) (w : Text) (vs : List Text)
    → IsWord w
    → All IsWord vs
    → length (w ∷ vs) < 2 ^ 30
    → d.shared_cpu_map ≡ render w vs
    → (i : ℕ) → Among i (mask_cpus (read_cache d)) ↔ HasBit i (map (hex_from 0) (w ∷ vs))
unfolding mask_cpus read_cache
mask_cpus_iff d w vs h hs lt e i =
    let p = parse_cpumap-render w vs h hs lt in
    let q = set_bits_iff (cpumap_len (render w vs) * 8) 0 i (parse_cpumap (render w vs)) in
    let l : length (parse_cpumap (render w vs)) ≡ length (w ∷ vs) =
      ap length p.0 ∙ length-map (hex_from 0) (w ∷ vs) in
    let n : cpumap_len (render w vs) * 8 ≡ 32 * length (map (hex_from 0) (w ∷ vs)) =
      omega (arith, p.1, l, length-map (hex_from 0) (w ∷ vs)) in
    rw e (ground (arith, q, p.0, n, test_bit-HasBit i (map (hex_from 0) (w ∷ vs))))

-- The length of the table when a processor has been put into it, if it can be.
abbrev pub grown : ℕ → ℕ → ℕ
grown len cpu = if leb len cpu then (if len == 0 then 8 else 2 * len) else len

-- No processor is behind the end of the table when it has grown once.
abbrev pub Fits : ℕ → List CpuDir → Type 0
Fits len [] = Unit
Fits len (d ∷ ds) = (d.cpu < grown len d.cpu) × Fits (grown len d.cpu) ds

length-more_cpus :
    (caches : Caches)
    → length (more_cpus caches) ≡ (if length caches == 0 then 8 else 2 * length caches)
unfolding more_cpus
length-more_cpus caches = ground (
  arith,
  length-append caches (replicate (length caches * 2 - length caches) none),
  length-replicate {A = Option (List Cache)} (length caches * 2 - length caches) none,
  length-append caches (replicate (4 * 2 - length caches) none),
  length-replicate {A = Option (List Cache)} (4 * 2 - length caches) none,
)

length-room : (caches : Caches) (cpu : ℕ) → length (room caches cpu) ≡ grown (length caches) cpu
unfolding room
length-room caches cpu = ground (arith, length-more_cpus caches)

put_caches-room :
    (caches : Caches) (cpu : ℕ) (cs : List Cache)
    → cpu < grown (length caches) cpu
    → put_caches cpu cs (room caches cpu) ≡ some (set (room caches cpu) cpu (some cs))
unfolding put_caches
put_caches-room caches cpu cs h = ground (arith, length-room caches cpu)

put_caches-overrun :
    (caches : Caches) (cpu : ℕ) (cs : List Cache)
    → grown (length caches) cpu ≤ cpu
    → put_caches cpu cs (room caches cpu) ≡ none
unfolding put_caches
put_caches-overrun caches cpu cs h = ground (arith, length-room caches cpu)

-- `read_caches` stays in the table exactly if the processors come in an order in which each fits;
-- else it writes behind its end.
pub read_dirs-Fits :
    (ds : List CpuDir) (caches : Caches)
    → ((read_dirs ds caches ≢ none) → Fits (length caches) ds)
      × (Fits (length caches) ds → (out : Caches) × (read_dirs ds caches ≡ some out))
unfolding read_dirs
read_dirs-Fits [] caches = (λ h. tt, λ h. (caches, refl))
read_dirs-Fits (d ∷ ds) caches =
    let caches1 = set (room caches d.cpu) d.cpu (some (cpu_caches d)) in
    let l : length caches1 ≡ grown (length caches) d.cpu =
      length-set (room caches d.cpu) d.cpu (some (cpu_caches d)) ∙ length-room caches d.cpu in
    let ih = read_dirs-Fits ds caches1 in
    (
      λ h. elim (Bool-cases (ltb d.cpu (grown (length caches) d.cpu))) [
        | inl b ↦ ground (arith, h, b, l, put_caches-room caches d.cpu (cpu_caches d), ih.0)
        | inr b ↦ absurd (h (ground (arith, b, put_caches-overrun caches d.cpu (cpu_caches d))))
      ],
      λ f.
          let f1 : Fits (length caches1) ds = rw l f.1 in
          let r = ih.1 f1 in
          (r.0, ground (arith, put_caches-room caches d.cpu (cpu_caches d) f.0, r.1)),
    )
