-- ===== src/Tests/Tables.antt =====
-- Runs on an SMBIOS table of one memory device and the range of its addresses.
use fms.Base.{
  ◌⊎◌, ℕ, ◌+◌, ◌≤◌, ◌<◌, ◌≡◌, refl, ◌↔◌, inl, true, Option, none, some, List, [], ◌∷◌, ◌++◌, arith,
  ◌==◌, if◌then◌else◌, get_or, All,
}
use fms.Text.{codes}
use fms.Source.Dmi.{
  number_at, Table, entry_type, entry_length, entry_handle, skip_string, string_end, last_string,
  check_entry, fill_from, fill_handles, collects, collect_from, dmi_collect, string_from, text_at,
  dmi_getstring, handle_slots,
}
use fms.Source.Dmi.Ranges.{
  addr64, dmi_get_memdev_addr64, Dmi, count_ranges, is_among, unique_locators, locator, sane_ranges,
  dmi_sanity_check, dev_handle, dmi_decodeaddr,
}
use fms.Source.Dmi.Entries.{dmi_getstring-inside}
use fms.Source.Dmi.Sane.{IsSeparated, Fresh, ranges, dmi_sanity_check_iff}
use fms.Source.Dmi.Lookup.{IsDeviceOf, EndsAt, dmi_decodeaddr_iff}

abbrev memdev_bytes : List ℕ
memdev_bytes =
    17 ∷ 17 ∷ 16 ∷ 0 ∷ 0 ∷ 0 ∷ 0 ∷ 0 ∷ 64 ∷ 0 ∷ 64 ∷ 0 ∷ 0 ∷ 4 ∷ 9 ∷ 0 ∷ 1 ∷ 68 ∷ 48 ∷ 0 ∷ 0 ∷ []

abbrev range_bytes : List ℕ
range_bytes =
    20 ∷ 19 ∷ 32 ∷ 0 ∷ 1 ∷ 0 ∷ 0 ∷ 0 ∷ 3 ∷ 0 ∷ 0 ∷ 0 ∷ 16 ∷ 0 ∷ 0 ∷ 0 ∷ 0 ∷ 0 ∷ 0 ∷ 0 ∷ 0 ∷ []

abbrev table : Table
table = record {
  byte = λ i. get_or (memdev_bytes ++ range_bytes) i 0;
  dmi_length = 42;
  numentries = 2;
}

abbrev dmi : Dmi
dmi = record {
  table = table;
  handle_to_entry = λ k. if k == 16 then some 0 else if k == 32 then some 21 else none;
  dmi_ranges = 21 ∷ [];
  dmi_dimms = 0 ∷ [];
  dmi_arrays = [];
  dmi_array_ranges = [];
}

check_runs : check_entry table (some 0) ≡ some (some 21)
unfolding check_entry entry_length last_string string_end skip_string
check_runs = refl

collect_runs : dmi_collect table 20 14 ≡ 21 ∷ []
unfolding dmi_collect collect_from collects entry_type number_at check_entry entry_length
    last_string string_end skip_string
collect_runs = refl

locator_runs : dmi_getstring table 0 1 ≡ some (codes "D0")
unfolding dmi_getstring string_from text_at entry_length
locator_runs = refl

fill_runs : elim (fill_handles table) [ none ↦ none | some h ↦ h 32 ] ≡ some 21
unfolding fill_handles fill_from entry_handle number_at check_entry entry_length last_string
    string_end skip_string
fill_runs = refl

sane_runs : dmi_sanity_check dmi ≡ true
unfolding dmi_sanity_check sane_ranges dmi_get_memdev_addr64 addr64 number_at entry_length
    count_ranges unique_locators is_among locator dmi_getstring string_from
sane_runs = refl

dmi_getstring-inside_example :
    (s q : ℕ) × (some 21 ≡ some q)
    × (0 + entry_length table 0 ≤ s)
    × (s + 2 + 1 < q)
    × (codes "D0" ≡ text_at table 2 s)
    × (table.byte (s + 2) ≡ 0)
dmi_getstring-inside_example =
    dmi_getstring-inside table 0 0 (some 21) (codes "D0") check_runs locator_runs

dmi_sanity_check_iff_example :
    (dmi_sanity_check dmi ≡ true) ↔ (IsSeparated 1 (ranges dmi) × Fresh [] (locator table 0 ∷ []))
dmi_sanity_check_iff_example = dmi_sanity_check_iff dmi

ordered : All (λ r. r.s_addr ≤ r.e_addr) (ranges dmi)
unfolding dmi_get_memdev_addr64 addr64 number_at entry_length
ordered = omega arith

handles_fit : All (λ e. dev_handle table e < handle_slots) (21 ∷ [])
unfolding dev_handle number_at
handles_fit = omega arith

dmi_decodeaddr_iff_example :
    (EndsAt 2048 (ranges dmi) × (dmi_decodeaddr dmi 2048 ≡ some none))
    ⊎ ((¬ EndsAt 2048 (ranges dmi))
        × ((m : Option ℕ) × (dmi_decodeaddr dmi 2048 ≡ some m)
            × ((dev : ℕ) → (m ≡ some dev) ↔ IsDeviceOf dmi 2048 dev (21 ∷ []))))
dmi_decodeaddr_iff_example = dmi_decodeaddr_iff dmi 2048 sane_runs ordered handles_fit

ends : EndsAt 4095 (ranges dmi)
unfolding dmi_get_memdev_addr64 addr64 number_at entry_length
ends = inl refl
