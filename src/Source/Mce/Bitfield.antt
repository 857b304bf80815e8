-- ===== src/Source/Mce/Bitfield.antt =====
-- evt_modules/evtsrc/cpumem/bitfield.c: decode_bitfield, which makes a message for each field of a
-- status that says something.
use fms.Base.{
  ℕ, zero, suc, ◌+◌, ◌-◌, ◌*◌, ◌/◌, ◌%◌, ◌^◌, Bool, true, false, Option, none, some, List, [], ◌∷◌,
  ◌++◌, ltb, leb, ◌==◌, if◌then◌else◌, get_or, set,
}
use fms.Text.{Text, codes}
use fms.Source.Mce.Names.{find_value}
use fms.Source.Mce.{Msg, zero_msg, mce_msg_maxnum, Msgs, status_uc, Printf}

-- `struct field`: the strings at their indexes, all below `stringlen`; the others are NULL.
pub record Field : Type 0 where
  pub start_bit : ℕ
  pub str : List (ℕ × Text)
  pub stringlen : ℕ

-- The loop of `bitmask`, whose mask has at most 64 bits.
unfoldable pub mask_from : ℕ → ℕ → ℕ → ℕ
mask_from zero mask i = mask
mask_from (suc fuel) mask i = elim (ltb mask i) [
  | true ↦ mask_from fuel ((mask * 2 + 1) % 2 ^ 64) i
  | false ↦ mask
]

unfoldable pub bitmask : ℕ → ℕ
bitmask i = mask_from 64 1 i

-- The value of a field: the bits of a mask of ones.
unfoldable pub field_value : ℕ → Field → ℕ
field_value status f = status / 2 ^ f.start_bit % (bitmask (f.stringlen - 1) + 1)

-- The string of a field, or `none` where the loop goes on to the next one. The text for a value
-- without a string is shorter than `tmp`.
unfoldable pub field_text : Printf → Bool → ℕ → Field → Option Text
field_text printf is_mnemonic status f =
    elim (if ltb (field_value status f) f.stringlen
      then find_value (field_value status f) f.str
      else none) [
        | some s ↦ some s
        | none ↦
            if field_value status f == 0
            then none
            else if is_mnemonic
            then some (codes "unknown")
            else some (
                codes "<"
                ++ (printf.dec f.start_bit
                    ++ (codes ":" ++ (printf.hex (field_value status f) ++ codes ">"))))
      ]

-- What is written into a message; `buf` is empty for NULL.
unfoldable pub write_field : Bool → ℕ → Text → Text → Text → Msg → Msg
write_field is_mnemonic status type buf s m =
    if is_mnemonic
    then record m { name = codes "cpu"; mnemonic = some (type ++ status_uc status) }
    else record m { desc = some (buf ++ s) }

-- The loop of `decode_bitfield`, with `mn` in `mm_num`.
unfoldable pub decode_fields : Printf → Bool → ℕ → Text → Text → List Field → Msgs → Msgs
decode_fields printf is_mnemonic status type buf [] ms = ms
decode_fields printf is_mnemonic status type buf (f ∷ fs) ms =
    elim (field_text printf is_mnemonic status f) [
      | none ↦ decode_fields printf is_mnemonic status type buf fs ms
      | some s ↦ elim (leb mce_msg_maxnum ms.mm_num) [
        | true ↦ ms
        | false ↦ decode_fields printf is_mnemonic status type buf fs record {
          mm =
              set ms.mm ms.mm_num
                (write_field is_mnemonic status type buf s (get_or ms.mm ms.mm_num zero_msg));
          mm_num = ms.mm_num + 1;
        }
      ]
    ]

-- `decode_bitfield`: the count of the messages is left alone for mnemonics.
unfoldable pub decode_bitfield : Printf → Bool → ℕ → Text → Text → List Field → Msgs → Msgs
decode_bitfield printf is_mnemonic status type buf fields ms =
    let out = decode_fields printf is_mnemonic status type buf fields ms in
    if is_mnemonic then record out { mm_num = ms.mm_num } else out
