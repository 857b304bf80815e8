-- ===== src/Source/Mce/Names.antt =====
-- evt_modules/evtsrc/cpumem/p4.c: the words for the fields of an error code.
use fms.Base.{
  ℕ, zero, suc, Option, none, some, List, [], ◌∷◌, ltb, leb, ◌==◌, if◌then◌else◌, length,
}
use fms.Text.{Text, codes}

-- A table access; `none` is a read past the table.
abbrev pub entry : List Text → ℕ → Option Text
entry [] i = none
entry (x ∷ xs) zero = some x
entry (x ∷ xs) (suc i) = entry xs i

unfoldable pub get_tt_str : ℕ → Option Text
get_tt_str t =
    let tt = codes "Instruction" ∷ codes "Data" ∷ codes "Generic" ∷ codes "Unknown" ∷ [] in
    if leb (length tt) t then some (codes "UNKNOWN") else entry tt t

-- The test lets the index 4 pass.
unfoldable pub get_ll_str : ℕ → Option Text
get_ll_str ll =
    let levels = codes "Level-0" ∷ codes "Level-1" ∷ codes "Level-2" ∷ codes "Level-3" ∷ [] in
    if ltb (length levels) ll then some (codes "UNKNOWN") else entry levels ll

-- The loop over the values of RRRR.
unfoldable pub find_value : ℕ → List (ℕ × Text) → Option Text
find_value v [] = none
find_value v ((value, str) ∷ rest) = if value == v then some str else find_value v rest

unfoldable pub get_rrrr_str : ℕ → Text
unfolding find_value
get_rrrr_str rrrr =
    elim (find_value rrrr (
      (0, codes "Generic")
      ∷ (1, codes "Read")
      ∷ (2, codes "Write")
      ∷ (3, codes "Data-Read")
      ∷ (4, codes "Data-Write")
      ∷ (5, codes "Instruction-Fetch")
      ∷ (6, codes "Prefetch")
      ∷ (7, codes "Eviction")
      ∷ (8, codes "Snoop")
      ∷ [])) [ none ↦ codes "UNKNOWN" | some str ↦ str ]

unfoldable pub get_pp_str : ℕ → Option Text
get_pp_str pp =
    let sides =
      codes "Local-CPU-originated-request"
      ∷ codes "Responed-to-request"
      ∷ codes "Observed-error-as-third-party"
      ∷ codes "Generic"
      ∷ [] in
    if leb (length sides) pp then some (codes "UNKNOWN") else entry sides pp

unfoldable pub get_t_str : ℕ → Option Text
get_t_str t =
    let times = codes "Request-did-not-timeout" ∷ codes "Request-timed-out" ∷ [] in
    if leb (length times) t then some (codes "UNKNOWN") else entry times t

unfoldable pub get_ii_str : ℕ → Option Text
get_ii_str i =
    let kinds =
      codes "Memory-access" ∷ codes "Reserved" ∷ codes "IO" ∷ codes "Other-transaction" ∷ [] in
    if leb (length kinds) i then some (codes "UNKNOWN") else entry kinds i

abbrev pub base_mnemonics : List Text
base_mnemonics =
    codes "none"
    ∷ codes "unclassified"
    ∷ codes "mrom_parity"
    ∷ codes "external"
    ∷ codes "frc"
    ∷ codes "internal_parity"
    ∷ codes "smm_hcav"
    ∷ []

abbrev pub base_descs : List Text
base_descs =
    codes "No Error"
    ∷ codes "Unclassified"
    ∷ codes "Microcode ROM parity error"
    ∷ codes "External error"
    ∷ codes "FRC error"
    ∷ codes "Internal parity error"
    ∷ codes "SMM Handler Code Access Violation"
    ∷ []

abbrev pub mmm_mnemonic : List Text
mmm_mnemonic =
    codes "GEN"
    ∷ codes "RD"
    ∷ codes "WR"
    ∷ codes "AC"
    ∷ codes "MS"
    ∷ codes "RES5"
    ∷ codes "RES6"
    ∷ codes "RES7"
    ∷ []

abbrev pub mmm_desc : List Text
mmm_desc =
    codes "Generic undefined request"
    ∷ codes "Memory read error"
    ∷ codes "Memory write error"
    ∷ codes "Address/Command error"
    ∷ codes "Memory scrubbing error"
    ∷ codes "Reserved 5"
    ∷ codes "Reserved 6"
    ∷ codes "Reserved 7"
    ∷ []
