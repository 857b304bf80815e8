-- ===== src/Source/Mce/Laws.antt =====
-- What decode_mca makes of the error codes.
use fms.Base.{
  ℕ, zero, suc, ◌+◌, ◌-◌, ◌/◌, ◌%◌, ◌^◌, ◌<◌, ◌≡◌, refl, ◌≢◌, true, false, not, ◌&&◌, Option, none,
  some, List, [], ◌∷◌, ◌++◌, arith, if◌then◌else◌, length, bit,
}
use fms.Text.{Text, codes}
use fms.Esc.{◌>>=◌}
use fms.Source.Mce.Names.{
  entry, get_tt_str, get_ll_str, get_pp_str, get_t_str, get_ii_str, base_mnemonics, base_descs,
  mmm_mnemonic, mmm_desc,
}
use fms.Source.Mce.{
  Msg, status_uc, Printf, decode_base, decode_hierarchy, decode_tlb, decode_cache,
  decode_memory_controller,
}
use fms.Source.Mce.Decode.{decode_bus}

get_ll_str-some : (i : ℕ) → i < 4 → (x : Text) × (get_ll_str i ≡ some x)
unfolding get_ll_str
get_ll_str-some zero h = (_, refl)
get_ll_str-some (suc zero) h = (_, refl)
get_ll_str-some (suc (suc zero)) h = (_, refl)
get_ll_str-some (suc (suc (suc zero))) h = (_, refl)
get_ll_str-some (suc (suc (suc (suc i)))) h = absurd (omega arith)

get_tt_str-some : (i : ℕ) → i < 4 → (x : Text) × (get_tt_str i ≡ some x)
unfolding get_tt_str
get_tt_str-some zero h = (_, refl)
get_tt_str-some (suc zero) h = (_, refl)
get_tt_str-some (suc (suc zero)) h = (_, refl)
get_tt_str-some (suc (suc (suc zero))) h = (_, refl)
get_tt_str-some (suc (suc (suc (suc i)))) h = absurd (omega arith)

get_pp_str-some : (i : ℕ) → i < 4 → (x : Text) × (get_pp_str i ≡ some x)
unfolding get_pp_str
get_pp_str-some zero h = (_, refl)
get_pp_str-some (suc zero) h = (_, refl)
get_pp_str-some (suc (suc zero)) h = (_, refl)
get_pp_str-some (suc (suc (suc zero))) h = (_, refl)
get_pp_str-some (suc (suc (suc (suc i)))) h = absurd (omega arith)

get_ii_str-some : (i : ℕ) → i < 4 → (x : Text) × (get_ii_str i ≡ some x)
unfolding get_ii_str
get_ii_str-some zero h = (_, refl)
get_ii_str-some (suc zero) h = (_, refl)
get_ii_str-some (suc (suc zero)) h = (_, refl)
get_ii_str-some (suc (suc (suc zero))) h = (_, refl)
get_ii_str-some (suc (suc (suc (suc i)))) h = absurd (omega arith)

get_t_str-some : (i : ℕ) → i < 2 → (x : Text) × (get_t_str i ≡ some x)
unfolding get_t_str
get_t_str-some zero h = (_, refl)
get_t_str-some (suc zero) h = (_, refl)
get_t_str-some (suc (suc i)) h = absurd (omega arith)

some-ne : {A : Type 0} (a : A) → some a ≢ none
some-ne a = ground arith

-- A step of a chain that finds its argument goes on.
bind-some :
    {A : Type 0} (P : Msg → Type 0) (o : Option A) (a : A) (f : A → Option Msg)
    → o ≡ some a
    → (m : Msg) × (f a ≡ some m) × P m
    → (m : Msg) × ((o >>= f) ≡ some m) × P m
bind-some P o a f p (m, q, r) = (m, rw p q, r)

entry-some : (xs : List Text) (i : ℕ) → i < length xs → (x : Text) × (entry xs i ≡ some x)
entry-some [] i h = absurd (omega arith)
entry-some (x ∷ xs) zero h = (x, refl)
entry-some (x ∷ xs) (suc i) h = entry-some xs i (omega arith)

-- A message of the processor about one of its caches or TLBs.
pub record IsCpuMsg (kind : Text) (status level type : ℕ) (m : Msg) : Type 0 where
  pub of_cpu : m.name ≡ codes "cpu"
  pub of_kind : m.mnemonic ≡ some (kind ++ status_uc status)
  pub at_level : m.clevel ≡ level
  pub of_type : m.ctype ≡ type
  pub has_desc : m.desc ≢ none

abbrev pub Gives : Option Msg → (Msg → Type 0) → Type 0
Gives o P = (m : Msg) × (o ≡ some m) × P m

-- A message of the processor with that mnemonic, which says whether the error is uncorrected.
abbrev pub IsKind : Text → ℕ → Msg → Type 0
IsKind kind status m =
    (m.name ≡ codes "cpu") × (m.mnemonic ≡ some (kind ++ status_uc status)) × (m.desc ≢ none)

pub decode_base-some :
    (status mca : ℕ) (m : Msg)
    → mca < 7
    → Gives
        (decode_base status mca m)
        (λ x. (kind : Text) × (entry base_mnemonics mca ≡ some kind) × IsKind kind status x)
unfolding decode_base
decode_base-some status mca m h =
    let (d, p) = entry-some base_descs mca h in
    let (n, q) = entry-some base_mnemonics mca h in
    bind-some _ _ d _ p (bind-some _ _ n _ q (_, refl, (n, q, (refl, refl, some-ne _))))

pub decode_hierarchy-some :
    (status mca : ℕ) (m : Msg)
    → Gives (decode_hierarchy status mca m) (IsCpuMsg (codes "cache") status (mca % 4) (2 ^ 32 - 1))
unfolding decode_hierarchy
decode_hierarchy-some status mca m =
    let (l, p) = get_ll_str-some (mca % 4) (omega arith) in
    bind-some _ _ l _ p (
      _,
      refl,
      record {
        of_cpu = refl;
        of_kind = refl;
        at_level = refl;
        of_type = refl;
        has_desc = some-ne _;
      },
    )

pub decode_tlb-some :
    (status mca : ℕ) (m : Msg)
    → Gives (decode_tlb status mca m) (IsCpuMsg (codes "tlb") status (mca % 4) (mca / 4 % 4))
unfolding decode_tlb
decode_tlb-some status mca m =
    let (l, p) = get_ll_str-some (mca % 4) (omega arith) in
    let (t, q) = get_tt_str-some (mca / 4 % 4) (omega arith) in
    bind-some _ _ t _ q (
      bind-some _ _ l _ p (
        _,
        refl,
        record {
          of_cpu = refl;
          of_kind = refl;
          at_level = refl;
          of_type = refl;
          has_desc = some-ne _;
        },
      ))

pub decode_cache-some :
    (status mca : ℕ) (m : Msg)
    → Gives (decode_cache status mca m) (IsCpuMsg (codes "cache") status (mca % 4) (mca / 4 % 4))
unfolding decode_cache
decode_cache-some status mca m =
    let (l, p) = get_ll_str-some (mca % 4) (omega arith) in
    let (t, q) = get_tt_str-some (mca / 4 % 4) (omega arith) in
    bind-some _ _ t _ q (
      bind-some _ _ l _ p (
        _,
        refl,
        record {
          of_cpu = refl;
          of_kind = refl;
          at_level = refl;
          of_type = refl;
          has_desc = some-ne _;
        },
      ))

pub decode_bus-some :
    (printf : Printf) (status misc cpu socket mca : ℕ) (m : Msg)
    → Gives (decode_bus printf status misc cpu socket mca m) (IsKind (codes "bus") status)
unfolding decode_bus
decode_bus-some printf status misc cpu socket mca m =
    let (l, p) = get_ll_str-some (mca % 4) (omega arith) in
    let (pp, q) = get_pp_str-some (mca / 2 ^ 9 % 4) (omega arith) in
    let (ii, r) = get_ii_str-some (mca / 4 % 4) (omega arith) in
    let (t, u) = get_t_str-some (mca / 2 ^ 8 % 2) (omega arith) in
    bind-some _ _ l _ p (
      bind-some _ _ pp _ q
        (bind-some _ _ ii _ r (bind-some _ _ t _ u (_, refl, (refl, refl, some-ne _)))))

-- A message about memory; a page error is one with a valid address that was corrected.
pub record IsMemMsg (status : ℕ) (m : Msg) : Type 0 where
  pub of_memory : m.name ≡ codes "memory"
  pub has_desc : m.desc ≢ none
  pub of_page :
      bit 58 status && not (bit 61 status) ≡ true
      → (m.mnemonic ≡ some (codes "mempage")) × (bit 0 m.flags ≡ true)
  pub no_page :
      bit 58 status && not (bit 61 status) ≡ false
      → m.mnemonic ≡ some (codes "mem" ++ status_uc status)

flag_set : (f : ℕ) → bit 0 (if bit 0 f then f else f + 1) ≡ true
flag_set f = ground arith

pub decode_memory_controller-some :
    (printf : Printf) (status mca : ℕ) (m : Msg)
    → Gives (decode_memory_controller printf mca status m) (IsMemMsg status)
unfolding decode_memory_controller
decode_memory_controller-some printf status mca m =
    let (r, p) = entry-some mmm_mnemonic (mca / 16 % 8) (omega arith) in
    let (d, q) = entry-some mmm_desc (mca / 16 % 8) (omega arith) in
    bind-some _ _ r _ p (
      bind-some _ _ d _ q (
        _,
        refl,
        record {
          of_memory = refl;
          has_desc = some-ne _;
          of_page = λ h. (rw h refl, rw h (flag_set m.flags));
          no_page = λ h. rw h refl;
        },
      ))
