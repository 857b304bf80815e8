-- ===== src/Source/Dmi/Ranges.antt =====
-- evt_modules/evtsrc/cpumem/dmi.c: the address ranges of the memory devices, the check that they are
-- sane and the search for the device of an address.
use Prim.Native.Nat.{Ordering}
use fms.Base.{
  ℕ, zero, suc, ◌+◌, ◌-◌, ◌*◌, ◌/◌, ◌%◌, ◌^◌, Bool, true, false, ◌&&◌, ◌||◌, not, Option, none,
  some, List, [], ◌∷◌, map, length, ltb, leb, ◌==◌, if◌then◌else◌,
}
use fms.Text.{Text, str_eq}
use fms.Source.Dmi.{
  checksum, dmi_memory_array, dmi_memory_device, dmi_memory_array_addr, dmi_memory_mapped_addr,
  number_at, Table, entry_length, Handles, handle_slots, fill_handles, dmi_collect, dmi_getstring,
}

-- A range as the code reads it: the start and the inclusive end, 64-bit numbers.
pub record Range : Type 0 where
  pub s_addr : ℕ
  pub e_addr : ℕ

-- The addresses of an entry, in KB where they fit into 32 bits.
unfoldable pub addr64 : ℕ → ℕ → ℕ → ℕ → Bool → Range
addr64 sa ea start_addr64 end_addr64 long =
    if long && sa == 0xffff_ffff
    then record { s_addr = start_addr64; e_addr = end_addr64 }
    else record {
      s_addr = (sa / 4 * 2 ^ 12 + sa % 4 * 2 ^ 10) % 2 ^ 64;
      e_addr = (ea / 4 * 2 ^ 12 + ea % 4 * 2 ^ 10 + 0x3ff) % 2 ^ 64;
    }

unfoldable pub dmi_get_memdev_addr64 : Table → ℕ → Range
dmi_get_memdev_addr64 t e =
    addr64 (number_at t.byte 4 (e + 4)) (number_at t.byte 4 (e + 8)) (number_at t.byte 8 (e + 19))
      (number_at t.byte 8 (e + 27)) (leb 0x23 (entry_length t e))

-- The structure holds the partition width in four bytes, so the long addresses stand at 18 and 26.
unfoldable pub dmi_get_memarray_addr64 : Table → ℕ → Range
dmi_get_memarray_addr64 t e =
    addr64 (number_at t.byte 4 (e + 4)) (number_at t.byte 4 (e + 8)) (number_at t.byte 8 (e + 18))
      (number_at t.byte 8 (e + 26)) (leb 0x1f (entry_length t e))

-- (s64)x < 0 and (s64)x > 0, for x below 2^64.
unfoldable pub s64_neg : ℕ → Bool
s64_neg x = leb (2 ^ 63) x

unfoldable pub s64_pos : ℕ → Bool
s64_pos x = not (x == 0) && ltb x (2 ^ 63)

-- `cmp_range` and `cmp_arr_range` on the two ranges: `lt` for -1, `eq` for 0 and `gt` for 1.
unfoldable pub cmp_addrs : Range → Range → Ordering
cmp_addrs a b =
    if s64_neg a.s_addr && s64_pos b.e_addr
    then Ordering.gt
    else if s64_pos a.s_addr && s64_neg b.e_addr
    then Ordering.lt
    else (let res = (a.s_addr + 2 ^ 64 - b.e_addr) % 2 ^ 64 in
        if s64_pos res then Ordering.gt else if s64_neg res then Ordering.lt else Ordering.eq)

unfoldable pub cmp_range : Table → ℕ → ℕ → Ordering
cmp_range t a b = cmp_addrs (dmi_get_memdev_addr64 t a) (dmi_get_memdev_addr64 t b)

unfoldable pub cmp_arr_range : Table → ℕ → ℕ → Ordering
cmp_arr_range t a b = cmp_addrs (dmi_get_memarray_addr64 t a) (dmi_get_memarray_addr64 t b)

-- What `opendmi` sets up from the table.
pub record Dmi : Type 0 where
  pub table : Table
  pub handle_to_entry : Handles
  pub dmi_ranges : List ℕ
  pub dmi_dimms : List ℕ
  pub dmi_arrays : List ℕ
  pub dmi_array_ranges : List ℕ

-- `collect_dmi_dimms` after `fill_handles`, with the C library's qsort.
unfoldable pub collect_dmi_dimms : ((ℕ → ℕ → Ordering) → List ℕ → List ℕ) → Table → Option Dmi
collect_dmi_dimms qsort t = elim (fill_handles t) [
  | none ↦ none
  | some h ↦ some record {
    table = t;
    handle_to_entry = h;
    dmi_ranges = qsort (cmp_range t) (dmi_collect t dmi_memory_mapped_addr 14);
    dmi_dimms = dmi_collect t dmi_memory_device 17;
    dmi_arrays = dmi_collect t dmi_memory_array 5;
    dmi_array_ranges = qsort (cmp_arr_range t) (dmi_collect t dmi_memory_array_addr 14);
  }
]

-- The loop of `dmi_sanity_check` over neighbouring ranges: `numranges`, or `none` where it returns.
unfoldable pub count_ranges : Range → List Range → ℕ → Option ℕ
count_ranges r [] numranges = some numranges
count_ranges r (r1 ∷ rs) numranges = elim (leb r1.s_addr r.e_addr) [
  | true ↦ none
  | false ↦ count_ranges r1 rs (if leb r.e_addr r1.s_addr then numranges + 1 else numranges)
]

-- Whether one of the locators of the earlier devices is `loc`.
unfoldable pub is_among : Text → List Text → Bool
is_among loc [] = false
is_among loc (b ∷ bs) = str_eq b loc || is_among loc bs

-- The loop over the locators; `seen` holds those of the devices before, and `none` stands for NULL.
unfoldable pub unique_locators : List Text → List (Option Text) → Bool
unique_locators seen [] = true
unique_locators seen (none ∷ locs) = false
unique_locators seen (some loc ∷ locs) = elim (is_among loc seen) [
  | true ↦ false
  | false ↦ unique_locators (loc ∷ seen) locs
]

-- The locator of a memory device, the string whose number stands at 16.
unfoldable pub locator : Table → ℕ → Option Text
locator t e = dmi_getstring t e (t.byte (e + 16))

-- The part of `dmi_sanity_check` on the ranges.
unfoldable pub sane_ranges : List Range → ℕ → Bool
sane_ranges [] numdmi_dimms = false
sane_ranges (r ∷ rs) numdmi_dimms = elim (count_ranges r rs 0) [
  | none ↦ false
  | some numranges ↦ not (numranges == 1 && ltb 2 numdmi_dimms)
]

unfoldable pub dmi_sanity_check : Dmi → Bool
dmi_sanity_check d =
    sane_ranges (map (dmi_get_memdev_addr64 d.table) d.dmi_ranges) (length d.dmi_dimms)
    && unique_locators [] (map (locator d.table) d.dmi_dimms)

-- The test of `dmi_find_addr`, which skips the other ranges.
unfoldable pub in_range : ℕ → Range → Bool
in_range addr r = not (ltb addr r.s_addr || leb r.e_addr addr)

-- The handle of the device that a range belongs to.
unfoldable pub dev_handle : Table → ℕ → ℕ
dev_handle t e = number_at t.byte 2 (e + 12)

-- The loop of `dmi_find_addr`: the devices, or `none` for a read behind `handle_to_entry`.
unfoldable pub find_from : Dmi → ℕ → List ℕ → Option (List ℕ)
find_from d addr [] = some []
find_from d addr (da ∷ rest) = elim (in_range addr (dmi_get_memdev_addr64 d.table da)) [
  | false ↦ find_from d addr rest
  | true ↦ elim (ltb (dev_handle d.table da) handle_slots) [
    | false ↦ none
    | true ↦ elim (d.handle_to_entry (dev_handle d.table da)) [
      | none ↦ find_from d addr rest
      | some dev ↦ elim (find_from d addr rest) [ none ↦ none | some devs ↦ some (dev ∷ devs) ]
    ]
  ]
]

unfoldable pub dmi_find_addr : Dmi → ℕ → Option (List ℕ)
dmi_find_addr d addr = find_from d addr d.dmi_ranges

-- `dmi_decodeaddr`: the new value of `memdev`.
unfoldable pub dmi_decodeaddr : Dmi → ℕ → Option (Option ℕ)
dmi_decodeaddr d addr = elim (dmi_find_addr d addr) [
  | none ↦ none
  | some [] ↦ some none
  | some (dev ∷ devs) ↦ some (some dev)
]

-- `checkdmi`, for what `opendmi` returns: the new value of `do_dmi`.
unfoldable pub checkdmi : Option Dmi → Bool
checkdmi none = false
checkdmi (some d) = dmi_sanity_check d

-- The search of `opendmi` for the anchor in the segment, `n` more paragraphs from `p` on.
unfoldable pub find_anchor : (ℕ → ℕ) → ℕ → ℕ → Option ℕ
find_anchor byte zero p = none
find_anchor byte (suc n) p =
    if byte p == b'_'
      && byte (p + 1) == b'S'
      && byte (p + 2) == b'M'
      && byte (p + 3) == b'_'
      && checksum byte p (byte (p + 5)) == 0
    then some p
    else find_anchor byte n (p + 16)

-- The segment has 0x10000 bytes.
unfoldable pub find_entry_point : (ℕ → ℕ) → Option ℕ
find_entry_point byte = find_anchor byte (0x10000 / 16) 0
