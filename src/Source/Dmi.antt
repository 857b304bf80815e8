-- ===== src/Source/Dmi.antt =====
-- evt_modules/evtsrc/cpumem/dmi.c: the walk over the entries of the SMBIOS table, and
-- evt_modules/evtlib/cpumem.c: dmi_getstring. A pointer into the table is its distance from
-- `entries`, and `none` is NULL.
pub mod Ranges
pub mod Entries
pub mod Visited
pub mod Sane
pub mod Lookup
use fms.Base.{
  ℕ, zero, suc, ◌+◌, ◌-◌, ◌*◌, ◌%◌, Bool, true, false, ◌&&◌, not, Option, none, some, List, [], ◌∷◌,
  ltb, leb, ◌==◌, if◌then◌else◌,
}
use fms.Text.{Text}

-- `entries` with what is mapped behind it, `dmi_length` and `numentries`.
pub record Table : Type 0 where
  pub byte : ℕ → ℕ
  pub dmi_length : ℕ
  pub numentries : ℕ

-- The sum of `len` bytes as an unsigned char.
unfoldable pub sum_bytes : (ℕ → ℕ) → ℕ → ℕ → ℕ → ℕ
sum_bytes byte zero i csum = csum
sum_bytes byte (suc n) i csum = sum_bytes byte n (i + 1) ((csum + byte i) % 256)

-- `checksum` of the bytes from `p` on. The length is a char, and no byte is added if it is negative.
unfoldable pub checksum : (ℕ → ℕ) → ℕ → ℕ → ℕ
checksum byte p len = if ltb len 128 then sum_bytes byte len p 0 else 0

-- Little-endian numbers of `n` bytes.
unfoldable pub number_at : (ℕ → ℕ) → ℕ → ℕ → ℕ
number_at byte zero i = 0
number_at byte (suc n) i = byte i + 256 * number_at byte n (i + 1)

abbrev pub dmi_memory_array : ℕ
dmi_memory_array = 16

abbrev pub dmi_memory_device : ℕ
dmi_memory_device = 17

abbrev pub dmi_memory_array_addr : ℕ
dmi_memory_array_addr = 19

abbrev pub dmi_memory_mapped_addr : ℕ
dmi_memory_mapped_addr = 20

-- `handle_to_entry`: what each of its slots holds, `none` for NULL.
abbrev pub Handles : Type 0
Handles = ℕ → Option ℕ

abbrev pub handle_slots : ℕ
handle_slots = 0xffff

abbrev pub put_handle : ℕ → ℕ → Handles → Handles
put_handle handle e h = λ k. if k == handle then some e else h k

module _ (t : Table) where
  open t use {byte, dmi_length, numentries}

  -- The header of an entry.
  unfoldable pub entry_type : ℕ → ℕ
  entry_type e = byte e

  unfoldable pub entry_length : ℕ → ℕ
  entry_length e = byte (e + 1)

  unfoldable pub entry_handle : ℕ → ℕ
  entry_handle e = number_at byte 2 (e + 2)

  -- while (s < end - 1 && *s) s++, for `n` bytes from `s` to `end - 1`.
  unfoldable pub skip_string : ℕ → ℕ → ℕ
  skip_string zero s = s
  skip_string (suc n) s = elim (byte s == 0) [ true ↦ s | false ↦ skip_string n (s + 1) ]

  -- One round of that loop from `s` on.
  unfoldable pub string_end : ℕ → ℕ
  string_end s = skip_string (dmi_length - 1 - s) s

  -- The do loop of `check_entry`, on fuel for its rounds: where it ends, or `none` for a truncated
  -- entry.
  unfoldable pub last_string : ℕ → ℕ → Option ℕ
  last_string zero s = none
  last_string (suc fuel) s = elim (leb dmi_length (string_end s + 1)) [
    | true ↦ none
    | false ↦ elim (byte (string_end s + 1) == 0) [
      | true ↦ some (string_end s + 1)
      | false ↦ last_string fuel (string_end s + 1)
    ]
  ]

  -- `check_entry`: `none` where it returns 0, and else `*next`.
  unfoldable pub check_entry : Option ℕ → Option (Option ℕ)
  check_entry none = none
  check_entry (some e) =
      elim (last_string (dmi_length - (e + entry_length e)) (e + entry_length e)) [
        | none ↦ none
        | some s ↦ some (if leb dmi_length s then none else some (s + 1))
      ]

  -- The loop of `fill_handles`, for `n` more entries. `handle_to_entry` has 0xffff slots: `none`
  -- stands for a write behind its end.
  unfoldable pub fill_from : ℕ → Option ℕ → Handles → Option Handles
  fill_from zero e h = some h
  fill_from (suc n) none h = some h
  fill_from (suc n) (some e) h = elim (check_entry (some e)) [
    | none ↦ some h
    | some next ↦ elim (ltb (entry_handle e) handle_slots) [
      | true ↦ fill_from n next (put_handle (entry_handle e) e h)
      | false ↦ none
    ]
  ]

  unfoldable pub fill_handles : Option Handles
  fill_handles = fill_from numentries (some 0) (λ k. none)

  -- The tests of `dmi_collect` on an entry; the size of a memory device stands at 12.
  unfoldable pub collects : ℕ → ℕ → ℕ → Bool
  collects type minsize e =
      if not (entry_type e == type)
      then false
      else if ltb (entry_length e) minsize
      then false
      else not (type == dmi_memory_device && number_at byte 2 (e + 12) == 0)

  -- The loop of `dmi_collect`, for `n` more entries.
  unfoldable pub collect_from : ℕ → ℕ → ℕ → Option ℕ → List ℕ
  collect_from zero type minsize e = []
  collect_from (suc n) type minsize none = []
  collect_from (suc n) type minsize (some e) = elim (check_entry (some e)) [
    | none ↦ []
    | some next ↦
        let rest = collect_from n type minsize next in
        if collects type minsize e then e ∷ rest else rest
  ]

  unfoldable pub dmi_collect : ℕ → ℕ → List ℕ
  dmi_collect type minsize = collect_from numentries type minsize (some 0)

  -- The do loop of `dmi_getstring`: the place of the string, or `none` for NULL. That the string
  -- ends before the table does is up to `check_entry`.
  unfoldable pub string_from : ℕ → ℕ → Option ℕ
  string_from zero s = some s
  string_from (suc number) s =
      if byte (string_end s + 1) == 0 then none else string_from number (string_end s + 1)

  -- The bytes of a string.
  unfoldable pub text_at : ℕ → ℕ → Text
  text_at zero s = []
  text_at (suc n) s = if byte s == 0 then [] else byte s ∷ text_at n (s + 1)

  unfoldable pub dmi_getstring : ℕ → ℕ → Option Text
  dmi_getstring e zero = some []
  dmi_getstring e (suc number) = elim (string_from number (e + entry_length e)) [
    | none ↦ none
    | some s ↦ some (text_at (dmi_length - s) s)
  ]
