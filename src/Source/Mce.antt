-- ===== src/Source/Mce.antt =====
-- evt_modules/evtsrc/cpumem/p4.c: the decoding of the error code of a machine check.
pub mod Names
pub mod Decode
pub mod Bitfield
pub mod Tables
pub mod Haswell
pub mod Fields
pub mod Model
pub mod Record
pub mod Readable
pub mod Events
pub mod Laws
pub mod Codes
pub mod Messages
use fms.Base.{
  ℕ, ◌+◌, ◌-◌, ◌/◌, ◌%◌, ◌^◌, Bool, not, ◌&&◌, Option, none, some, List, ◌++◌, ◌==◌, if◌then◌else◌,
  bit,
}
use fms.Text.{Text, codes}
use fms.Esc.{◌>>=◌}
use fms.Source.Mce.Names.{
  entry, get_tt_str, get_ll_str, get_rrrr_str, get_pp_str, get_t_str, get_ii_str, base_mnemonics,
  base_descs, mmm_mnemonic, mmm_desc,
}

-- `struct mc_msg`. `mnemonic` and `desc` are `none` for NULL. `mem_ch` is a byte and `clevel` and
-- `ctype` are 32-bit words, where -1 has all bits set.
pub record Msg : Type 0 where
  pub name : Text
  pub id : ℕ
  pub mnemonic : Option Text
  pub desc : Option Text
  pub mem_ch : ℕ
  pub clevel : ℕ
  pub ctype : ℕ
  pub flags : ℕ

abbrev pub zero_msg : Msg
zero_msg = record {
  name = codes "";
  id = 0;
  mnemonic = none;
  desc = none;
  mem_ch = 0;
  clevel = 0;
  ctype = 0;
  flags = 0;
}

-- MCE_MSG_MAXNUM
abbrev pub mce_msg_maxnum : ℕ
mce_msg_maxnum = 64

-- The array of messages, and how many of them are in use.
pub record Msgs : Type 0 where
  pub mm : List Msg
  pub mm_num : ℕ

-- FMS_MCI_STATUS_UC; bit 61 is MCI_STATUS_UC.
abbrev pub status_uc : ℕ → Text
status_uc status = if bit 61 status then codes "_uc" else codes "_ce"

-- `test_prefix`
abbrev pub test_prefix : ℕ → ℕ → Bool
test_prefix nr value = value / 2 ^ nr == 1

-- EXTRACT
abbrev pub extract : ℕ → ℕ → ℕ → ℕ
extract v a b = v / 2 ^ a % 2 ^ (b - a + 1)

-- The error code of a status: its low 16 bits without bit 12.
unfoldable pub error_code : ℕ → ℕ
error_code status = let mca = status % 2 ^ 16 in if bit 12 mca then mca - 2 ^ 12 else mca

-- What asprintf writes for a number: `%d` (or `%u`), `%x` and `%02x`.
pub record Printf : Type 0 where
  pub dec : ℕ → Text
  pub hex : ℕ → Text
  pub hex2 : ℕ → Text

-- A message of the processor.
abbrev pub cpu_msg : ℕ → Text → Text → Msg → Msg
cpu_msg status mnemonic desc m = record m {
  name = codes "cpu";
  mnemonic = some (mnemonic ++ status_uc status);
  desc = some desc;
}

-- The branch for simple codes, with `fms_decode_base_mca`.
unfoldable pub decode_base : ℕ → ℕ → Msg → Option Msg
decode_base status mca m = do
  desc ← entry base_descs mca
  mnemonic ← entry base_mnemonics mca
  some (cpu_msg status mnemonic desc m)

unfoldable pub decode_hierarchy : ℕ → ℕ → Msg → Option Msg
decode_hierarchy status mca m = do
  level ← get_ll_str (mca % 4)
  some
      (record (cpu_msg status (codes "cache") (level ++ codes " Generic cache hierarchy error") m) {
        clevel = mca % 4;
        ctype = 2 ^ 32 - 1;
        id = mca % 4 + 12;
      })

unfoldable pub decode_tlb : ℕ → ℕ → Msg → Option Msg
decode_tlb status mca m = do
  type ← get_tt_str (mca / 4 % 4)
  level ← get_ll_str (mca % 4)
  some (record (cpu_msg status (codes "tlb") (type ++ codes " TLB " ++ level ++ codes " Error") m) {
    clevel = mca % 4;
    ctype = mca / 4 % 4;
    id = mca % 16;
  })

unfoldable pub decode_cache : ℕ → ℕ → Msg → Option Msg
decode_cache status mca m = do
  type ← get_tt_str (mca / 4 % 4)
  level ← get_ll_str (mca % 4)
  some
      (record (cpu_msg status (codes "cache")
        (type
          ++ codes " CACHE "
          ++ level
          ++ codes " "
          ++ get_rrrr_str (mca / 16 % 16)
          ++ codes " Error")
        m) { clevel = mca % 4; ctype = mca / 4 % 4; id = mca % 16 })

-- `decode_memory_controller`; bit 58 of the status is MCI_STATUS_ADDRV, bit 0 of the flags is
-- FMS_CPUMEM_PAGE_ERROR.
unfoldable pub decode_memory_controller : Printf → ℕ → ℕ → Msg → Option Msg
decode_memory_controller printf mca status m = do
  request ← entry mmm_mnemonic (mca / 16 % 8)
  desc ← entry mmm_desc (mca / 16 % 8)
  let unspecified = mca % 16 == 15
  let channel = if unspecified then codes "unspecified" else printf.dec (mca % 16)
  let page = bit 58 status && not (bit 61 status)
  some (record m {
    name = codes "memory";
    desc = some (
        codes "MEMORY CONTROLLER "
        ++ request
        ++ codes "_CHANNEL"
        ++ channel
        ++ codes "_ERR; "
        ++ desc);
    mnemonic = some (if page then codes "mempage" else codes "mem" ++ status_uc status);
    flags = if page then (if bit 0 m.flags then m.flags else m.flags + 1) else m.flags;
    mem_ch = if unspecified then 255 else mca % 16;
  })
