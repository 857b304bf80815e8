-- ===== src/Source/Dmi/Sane.antt =====
-- What dmi_sanity_check of dmi.c accepts.
use Prim.Native.Nat.{compare}
use fms.Base.{
  ℕ, ◌+◌, ◌^◌, ◌≤◌, ◌<◌, ◌≡◌, ◌≢◌, ◌↔◌, ◌⊎◌, inl, inr, true, false, Option, none, some, List, [],
  ◌∷◌, map, arith, Option-cases, length, All,
}
use fms.Text.{Text, str_eq}
use fms.Source.Dmi.Ranges.{
  Range, dmi_get_memdev_addr64, s64_neg, s64_pos, cmp_addrs, Dmi, count_ranges, is_among,
  unique_locators, locator, sane_ranges, dmi_sanity_check,
}

-- For addresses other than 0 the comparison of the code, by way of signed numbers, is that of the
-- 64-bit numbers, the start of the one with the end of the other.
pub cmp_addrs-compare :
    (a b : Range)
    → 0 < a.s_addr
    → a.s_addr < 2 ^ 64
    → 0 < b.e_addr
    → b.e_addr < 2 ^ 64
    → cmp_addrs a b ≡ compare a.s_addr b.e_addr
unfolding cmp_addrs s64_neg s64_pos
cmp_addrs-compare a b h1 h2 h3 h4 = ground arith

-- Each range ends before the next one starts.
abbrev pub Separate : Range → List Range → Type 0
Separate r [] = Unit
Separate r (r1 ∷ rs) = (r.e_addr < r1.s_addr) × Separate r1 rs

-- The loop over the ranges ends with the number of steps between ranges.
pub count_ranges_iff :
    (r : Range) (rs : List Range) (n m : ℕ)
    → (count_ranges r rs n ≡ some m) ↔ (Separate r rs × (m ≡ n + length rs))
unfolding count_ranges
count_ranges_iff r [] n m = ground arith
count_ranges_iff r (r1 ∷ rs) n m =
    ground (arith, count_ranges_iff r1 rs (n + 1) m, count_ranges_iff r1 rs n m)

-- All are there, differ from each other and from those of the first list.
abbrev pub Fresh : List Text → List (Option Text) → Type 0
Fresh seen [] = Unit
Fresh seen (none ∷ ls) = ⊥
Fresh seen (some l ∷ ls) = All (λ b. str_eq b l ≡ false) seen × Fresh (l ∷ seen) ls

is_among_iff :
    (l : Text) (seen : List Text) → (is_among l seen ≡ false) ↔ All (λ b. str_eq b l ≡ false) seen
unfolding is_among
is_among_iff l [] = ground arith
is_among_iff l (b ∷ seen) = ground (arith, is_among_iff l seen)

pub unique_locators_iff :
    (seen : List Text) (ls : List (Option Text)) → (unique_locators seen ls ≡ true) ↔ Fresh seen ls
unfolding unique_locators
unique_locators_iff seen [] = ground arith
unique_locators_iff seen (none ∷ ls) = ground arith
unique_locators_iff seen (some l ∷ ls) =
    ground (arith, is_among_iff l seen, unique_locators_iff (l ∷ seen) ls)

-- The ranges of the table as the code reads them.
abbrev pub ranges : Dmi → List Range
ranges d = map (dmi_get_memdev_addr64 d.table) d.dmi_ranges

-- There is a range, and they are apart; two ranges serve at most two devices.
abbrev pub IsSeparated : ℕ → List Range → Type 0
IsSeparated dimms [] = ⊥
IsSeparated dimms (r ∷ rs) = Separate r rs × ((length rs ≢ 1) ⊎ (dimms ≤ 2))

sane_ranges_iff :
    (rs : List Range) (dimms : ℕ) → (sane_ranges rs dimms ≡ true) ↔ IsSeparated dimms rs
unfolding sane_ranges
sane_ranges_iff [] dimms = ground arith
sane_ranges_iff (r ∷ rs) dimms = elim (Option-cases (count_ranges r rs 0)) [
  | inl n ↦ ground (arith, n, count_ranges_iff r rs 0 (length rs))
  | inr (m, e) ↦ ground (arith, e, count_ranges_iff r rs 0 m, count_ranges_iff r rs 0 (length rs))
]

-- `dmi_sanity_check` accepts exactly if there is a range, each range ends before the next one
-- starts, two ranges come with at most two devices, and each device has a locator of its own.
pub dmi_sanity_check_iff :
    (d : Dmi)
    → (dmi_sanity_check d ≡ true)
      ↔ (IsSeparated (length d.dmi_dimms) (ranges d) × Fresh [] (map (locator d.table) d.dmi_dimms))
unfolding dmi_sanity_check
dmi_sanity_check_iff d = ground (
  arith,
  sane_ranges_iff (ranges d) (length d.dmi_dimms),
  unique_locators_iff [] (map (locator d.table) d.dmi_dimms),
)
