-- ===== src/Source/Adm.antt =====
-- evt_modules/evtsrc/adm/evtsrc.adm.c: the answers to the administration tool, with
-- include/fmd_fmadm.h. An int that the tool sends is not negative.
pub mod Pages
pub mod Lists
pub mod Whole
use fms.Base.{
  ℕ, ◌+◌, ◌%◌, ◌^◌, Bool, true, false, ◌&&◌, Option, none, some, List, [], ◌∷◌, ◌++◌, ltb, leb,
  ◌==◌, if◌then◌else◌, length,
}
use fms.Text.{Text, codes, contains}
use fms.Event.{Event}
use fms.Case.{Case, case_create, case_fired}

-- FAF_NUM
abbrev pub faf_num : ℕ
faf_num = 20

abbrev pub case_closed : ℕ
case_closed = 2

-- `faf_case_t`, the fields that are set.
pub record FafCase : Type 0 where
  pub fafc_fault : Text
  pub fafc_state : ℕ
  pub fafc_count : ℕ
  pub fafc_create : ℕ
  pub fafc_fire : ℕ

-- The test of both loops, on the number of the event: the first one has the number 1.
unfoldable pub in_page : ℕ → ℕ → Bool
in_page num tmp = ltb num tmp && leb tmp (num + faf_num)

-- `tmp` and `case_num` of `fmd_resv_caselist`.
pub record Count : Type 0 where
  pub tmp : ℕ
  pub case_num : ℕ

unfoldable pub count_event : ℕ → Count → Count
count_event num c = record {
  tmp = c.tmp + 1;
  case_num = if in_page num (c.tmp + 1) then c.case_num + 1 else c.case_num;
}

unfoldable pub resv_events : ℕ → List Event → Count → Count
resv_events num [] c = c
resv_events num (e ∷ es) c = resv_events num es (count_event num c)

unfoldable pub resv_cases : ℕ → List Case → Count → Count
resv_cases num [] c = c
resv_cases num (k ∷ ks) c = resv_cases num ks (resv_events num k.cs_event c)

-- `fmd_resv_caselist`: the number of sections, of the cases or of the repaired events.
unfoldable pub fmd_resv_caselist : ℕ → ℕ → List Case → List Event → ℕ
fmd_resv_caselist num index cases repaired =
    let start : Count = record { tmp = 0; case_num = 0 } in
    if index == 1
    then (resv_cases num cases start).case_num
    else (resv_events num repaired start).case_num

-- The text of an entry, where sprintf writes `%ld` by `dec`; `fafc_fault` holds 127 bytes, and
-- `none` is a text that is longer.
unfoldable pub faf_fault : (ℕ → Text) → Event → Option Text
faf_fault dec e =
    let text =
      if contains (codes "disk") e.ev_class
      then e.dev_name ++ (codes ":" ++ e.ev_class)
      else e.dev_name ++ (dec e.dev_id ++ (codes ":" ++ e.ev_class)) in
    if ltb (length text) 128 then some text else none

-- The state of an entry, or `none` for another flag.
unfoldable pub faf_state : ℕ → Option ℕ
faf_state flag =
    if flag == case_create
    then some 0
    else if flag == case_fired
    then some 1
    else if flag == case_closed
    then some 2
    else none

unfoldable pub faf_entry : Event → Text → ℕ → FafCase
faf_entry e fault state = record {
  fafc_fault = fault;
  fafc_state = state;
  fafc_count = e.ev_count % 2 ^ 32;
  fafc_create = e.ev_create;
  fafc_fire = e.ev_last_occur;
}

-- The entry of an event of a case with the flag, and of a repaired event, whose state stays 0.
unfoldable pub case_entry : (ℕ → Text) → ℕ → Event → Option FafCase
case_entry dec flag e = elim (faf_fault dec e) [
  | none ↦ none
  | some fault ↦ elim (faf_state flag) [ none ↦ none | some state ↦ some (faf_entry e fault state) ]
]

unfoldable pub repaired_entry : (ℕ → Text) → Event → Option FafCase
repaired_entry dec e = elim (faf_fault dec e) [
  | none ↦ none
  | some fault ↦ some (faf_entry e fault 0)
]

-- `tmp_num` of `fmd_get_caselist` and the entries so far.
pub record Filled : Type 0 where
  pub tmp_num : ℕ
  pub sections : List FafCase

-- An inner loop; `none` where the function returns NULL or writes behind `fafc_fault`.
unfoldable pub fill_events : (Event → Option FafCase) → ℕ → List Event → Filled → Option Filled
fill_events entry num [] f = some f
fill_events entry num (e ∷ es) f = elim (in_page num (f.tmp_num + 1)) [
  | true ↦ elim (entry e) [
    | none ↦ none
    | some s ↦
        fill_events entry num es
          (record { tmp_num = f.tmp_num + 1; sections = f.sections ++ (s ∷ []) })
  ]
  | false ↦ fill_events entry num es (record f { tmp_num = f.tmp_num + 1 })
]

unfoldable pub fill_cases : (ℕ → Text) → ℕ → List Case → Filled → Option Filled
fill_cases dec num [] f = some f
fill_cases dec num (k ∷ ks) f = elim (fill_events (case_entry dec k.cs_flag) num k.cs_event f) [
  | none ↦ none
  | some g ↦ fill_cases dec num ks g
]

-- `fmd_get_caselist`: the sections of the message, `none` for NULL. `fafh_secnum` is what
-- `fmd_resv_caselist` counts.
unfoldable pub fmd_get_caselist :
    (ℕ → Text) → ℕ → ℕ → List Case → List Event → Option (List FafCase)
fmd_get_caselist dec num index cases repaired =
    let start : Filled = record { tmp_num = 0; sections = [] } in
    elim (if index == 1
      then fill_cases dec num cases start
      else fill_events (repaired_entry dec) num repaired start) [
        | none ↦ none
        | some f ↦ some f.sections
      ]
