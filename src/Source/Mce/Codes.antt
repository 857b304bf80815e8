-- ===== src/Source/Mce/Codes.antt =====
-- Which decoding an error code gets, and what decode_mca makes of a status.
use fms.Base.{
  ◌-◌, ◌/◌, ◌%◌, ◌^◌, ℕ, ◌≤◌, ◌<◌, ◌≡◌, refl, ◌∙◌, ◌≢◌, ◌⊎◌, inl, inr, not, ◌&&◌, Option, none,
  some, arith, ltb, ◌==◌, Bool-cases, bit,
}
use fms.Source.Mce.Laws.{
  IsCpuMsg, IsKind, Gives, IsMemMsg, decode_base-some, decode_hierarchy-some, decode_tlb-some,
  decode_cache-some, decode_bus-some, decode_memory_controller-some,
}
use fms.Text.{Text, codes}
use fms.Source.Mce.{
  entry, base_mnemonics, Msg, Printf, decode_base, decode_hierarchy, decode_tlb, decode_cache,
  decode_memory_controller,
}
use fms.Source.Mce.Decode.{decode_internal, decode_bus, decode_code}

-- The codes that some test of `decode_mca` knows.
abbrev pub Known : ℕ → Type 0
Known mca =
    (mca < 7)
    ⊎ ((12 ≤ mca) × (mca < 32))
    ⊎ ((128 ≤ mca) × (mca < 512))
    ⊎ ((1024 ≤ mca) × (mca < 4096))

module _ (printf : Printf) (status misc cpu socket mca : ℕ) (m : Msg) where
  pub code_cache :
      256 ≤ mca
      → mca < 512
      → decode_code printf status misc cpu socket mca m ≡ decode_cache status mca m
  unfolding decode_code
  code_cache lo hi = ground arith

  code_tlb :
      16 ≤ mca
      → mca < 32
      → decode_code printf status misc cpu socket mca m ≡ decode_tlb status mca m
  unfolding decode_code
  code_tlb lo hi = ground arith

  code_hierarchy :
      12 ≤ mca
      → mca < 16
      → decode_code printf status misc cpu socket mca m ≡ decode_hierarchy status mca m
  unfolding decode_code
  code_hierarchy lo hi = ground arith

  code_base : mca < 7 → decode_code printf status misc cpu socket mca m ≡ decode_base status mca m
  unfolding decode_code
  code_base hi = ground arith

  pub code_memory :
      128 ≤ mca
      → mca < 256
      → decode_code printf status misc cpu socket mca m
        ≡ decode_memory_controller printf mca status m
  unfolding decode_code
  code_memory lo hi = ground arith

  code_internal :
      1024 ≤ mca
      → mca < 2048
      → decode_code printf status misc cpu socket mca m ≡ some (decode_internal printf status mca m)
  unfolding decode_code
  code_internal lo hi = ground arith

  code_bus :
      2048 ≤ mca
      → mca < 4096
      → decode_code printf status misc cpu socket mca m
        ≡ decode_bus printf status misc cpu socket mca m
  unfolding decode_code
  code_bus lo hi = ground arith

  pub code_unknown : ¬ Known mca → decode_code printf status misc cpu socket mca m ≡ some m
  unfolding decode_code
  code_unknown n = ground arith

-- A message that names its part of the machine and has a mnemonic and a description.
abbrev pub IsUsable : Msg → Type 0
IsUsable m =
    ((m.name ≡ codes "cpu") ⊎ (m.name ≡ codes "memory")) × (m.mnemonic ≢ none) × (m.desc ≢ none)

kind-IsUsable : (kind : Text) (status : ℕ) (m : Msg) → IsKind kind status m → IsUsable m
kind-IsUsable kind status m (n, k, d) = (inl n, (λ e. absurd (ground (arith, k, e))), d)

cpu-IsUsable : (kind : Text) (status l t : ℕ) (m : Msg) → IsCpuMsg kind status l t m → IsUsable m
cpu-IsUsable kind status l t m v =
    (inl v.of_cpu, λ e. absurd (ground (arith, v.of_kind, e)), v.has_desc)

memory-IsUsable : (status : ℕ) (m : Msg) → IsMemMsg status m → IsUsable m
memory-IsUsable status m v = (
  inr v.of_memory,
  λ e. elim (Bool-cases (bit 58 status && not (bit 61 status))) [
    | inl h ↦ absurd (ground (arith, v.of_page h, e))
    | inr h ↦ absurd (ground (arith, v.no_page h, e))
  ],
  v.has_desc,
)

-- What a known code says: a simple error has the mnemonic of its table; a cache, the caches of a
-- level, and a TLB have their level and type; memory; an internal error; or a bus.
abbrev pub Describes : ℕ → ℕ → Msg → Type 0
Describes status mca m =
    ((mca < 7) × ((kind : Text) × (entry base_mnemonics mca ≡ some kind) × IsKind kind status m))
    ⊎ ((12 ≤ mca) × (mca < 16) × IsCpuMsg (codes "cache") status (mca % 4) (2 ^ 32 - 1) m)
    ⊎ ((16 ≤ mca) × (mca < 32) × IsCpuMsg (codes "tlb") status (mca % 4) (mca / 4 % 4) m)
    ⊎ ((128 ≤ mca) × (mca < 256) × IsMemMsg status m)
    ⊎ ((256 ≤ mca) × (mca < 512) × IsCpuMsg (codes "cache") status (mca % 4) (mca / 4 % 4) m)
    ⊎ ((mca ≡ 1024) × IsKind (codes "internal_timer") status m)
    ⊎ ((1024 < mca) × (mca < 2048) × IsKind (codes "internal_unclassified") status m)
    ⊎ ((2048 ≤ mca) × (mca < 4096) × IsKind (codes "bus") status m)

pub Describes-IsUsable : (status mca : ℕ) (m : Msg) → Describes status mca m → IsUsable m
Describes-IsUsable status mca m (inl (lt, (kind, e, k))) = kind-IsUsable kind status m k
Describes-IsUsable status mca m (inr (inl (lo, hi, v))) = cpu-IsUsable _ _ _ _ m v
Describes-IsUsable status mca m (inr (inr (inl (lo, hi, v)))) = cpu-IsUsable _ _ _ _ m v
Describes-IsUsable status mca m (inr (inr (inr (inl (lo, hi, v))))) = memory-IsUsable status m v
Describes-IsUsable status mca m (inr (inr (inr (inr (inl (lo, hi, v)))))) = cpu-IsUsable _ _ _ _ m v
Describes-IsUsable status mca m (inr (inr (inr (inr (inr (inl (e, v))))))) =
    kind-IsUsable (codes "internal_timer") status m v
Describes-IsUsable status mca m (inr (inr (inr (inr (inr (inr (inl (lo, hi, v)))))))) =
    kind-IsUsable (codes "internal_unclassified") status m v
Describes-IsUsable status mca m (inr (inr (inr (inr (inr (inr (inr (lo, hi, v)))))))) =
    kind-IsUsable (codes "bus") status m v

internal-Describes :
    (printf : Printf) (status mca : ℕ) (m : Msg)
    → 1024 ≤ mca
    → mca < 2048
    → Describes status mca (decode_internal printf status mca m)
unfolding decode_internal
internal-Describes printf status mca m lo hi = elim (Bool-cases (mca == 0x400)) [
  | inl h ↦
      rw h (inr (inr (inr (inr (inr (inl (ground (arith, h), (refl, refl, λ e. absurd (cc)))))))))
  | inr h ↦
      let ne : mca ≢ 1024 = ground (arith, h) in
      let more : 1024 < mca = omega (arith, ne, lo) in
      rw h (inr (inr (inr (inr (inr (inr (inl (more, hi, (refl, refl, λ e. absurd (cc))))))))))
]

Gives-weaken :
    (o o' : Option Msg) (P Q : Msg → Type 0)
    → o' ≡ o
    → ((m : Msg) → P m → Q m)
    → Gives o P
    → Gives o' Q
Gives-weaken o o' P Q e f (m, q, r) = (m, e ∙ q, f m r)

-- A known code is decoded to a message that describes it.
pub Known-Describes :
    (printf : Printf) (status misc cpu socket mca : ℕ) (m : Msg)
    → Known mca
    → Gives (decode_code printf status misc cpu socket mca m) (Describes status mca)
Known-Describes printf status misc cpu socket mca m (inl h) =
    Gives-weaken _ _ _ _ (code_base printf status misc cpu socket mca m h) (λ x v. inl (h, v))
      (decode_base-some status mca m h)
Known-Describes printf status misc cpu socket mca m (inr (inl (lo, hi))) =
    elim (Bool-cases (ltb mca 16)) [
      | inl h ↦
          let lt : mca < 16 = ground (arith, h) in
          Gives-weaken _ _ _ _ (code_hierarchy printf status misc cpu socket mca m lo lt)
            (λ x v. inr (inl (lo, lt, v))) (decode_hierarchy-some status mca m)
      | inr h ↦
          let le : 16 ≤ mca = ground (arith, h) in
          Gives-weaken _ _ _ _ (code_tlb printf status misc cpu socket mca m le hi)
            (λ x v. inr (inr (inl (le, hi, v)))) (decode_tlb-some status mca m)
    ]
Known-Describes printf status misc cpu socket mca m (inr (inr (inl (lo, hi)))) =
    elim (Bool-cases (ltb mca 256)) [
      | inl h ↦
          let lt : mca < 256 = ground (arith, h) in
          Gives-weaken _ _ _ _ (code_memory printf status misc cpu socket mca m lo lt)
            (λ x v. inr (inr (inr (inl (lo, lt, v)))))
            (decode_memory_controller-some printf status mca m)
      | inr h ↦
          let le : 256 ≤ mca = ground (arith, h) in
          Gives-weaken _ _ _ _ (code_cache printf status misc cpu socket mca m le hi)
            (λ x v. inr (inr (inr (inr (inl (le, hi, v)))))) (decode_cache-some status mca m)
    ]
Known-Describes printf status misc cpu socket mca m (inr (inr (inr (lo, hi)))) =
    elim (Bool-cases (ltb mca 2048)) [
      | inl h ↦
          let lt : mca < 2048 = ground (arith, h) in
          (
            decode_internal printf status mca m,
            code_internal printf status misc cpu socket mca m lo lt,
            internal-Describes printf status mca m lo lt,
          )
      | inr h ↦
          let le : 2048 ≤ mca = ground (arith, h) in
          Gives-weaken _ _ _ _ (code_bus printf status misc cpu socket mca m le hi)
            (λ x v. inr (inr (inr (inr (inr (inr (inr (le, hi, v))))))))
            (decode_bus-some printf status misc cpu socket mca m)
    ]
