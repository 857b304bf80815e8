-- ===== src/Source/Mce/Decode.antt =====
-- evt_modules/evtsrc/cpumem/p4.c: decode_mca, which picks the decoding by the leading bit of the
-- error code, and decode_thermal.
use fms.Base.{
  ℕ, ◌+◌, ◌/◌, ◌%◌, ◌^◌, Bool, true, false, ◌&&◌, Option, some, ◌++◌, ltb, leb, ◌==◌, if◌then◌else◌,
  get_or, set, bit,
}
use fms.Text.{Text, codes}
use fms.Esc.{◌>>=◌}
use fms.Source.Mce.Names.{get_ll_str, get_rrrr_str, get_pp_str, get_t_str, get_ii_str}
use fms.Source.Mce.{
  Msg, zero_msg, mce_msg_maxnum, Msgs, test_prefix, extract, error_code, Printf, cpu_msg,
  decode_base, decode_hierarchy, decode_tlb, decode_cache, decode_memory_controller,
}

unfoldable pub decode_internal : Printf → ℕ → ℕ → Msg → Msg
decode_internal printf status mca m =
    if mca == 0x400
    then cpu_msg status (codes "internal_timer") (codes "Internal Timer error") m
    else cpu_msg status (codes "internal_unclassified")
        (codes "Internal unclassified error: " ++ printf.hex mca) m

-- What the status of an IO error adds to the description; bit 59 is MCI_STATUS_MISCV.
unfoldable pub root_port : Printf → ℕ → ℕ → ℕ → Text → Text
root_port printf status misc mca desc =
    if bit 59 status && mca == 0x0e0b
    then desc
      ++ codes "; IO MCA reported by root port "
      ++ printf.hex (extract misc 32 39)
      ++ codes ":"
      ++ printf.hex2 (extract misc 24 31)
      ++ codes ":"
      ++ printf.hex2 (extract misc 19 23)
      ++ codes "."
      ++ printf.hex (extract misc 16 18)
    else desc

unfoldable pub decode_bus : Printf → ℕ → ℕ → ℕ → ℕ → ℕ → Msg → Option Msg
decode_bus printf status misc cpu socket mca m = do
  level ← get_ll_str (mca % 4)
  pp ← get_pp_str (mca / 2 ^ 9 % 4)
  ii ← get_ii_str (mca / 4 % 4)
  timeout ← get_t_str (mca / 2 ^ 8 % 2)
  let words =
      level
      ++ codes " "
      ++ pp
      ++ codes " "
      ++ get_rrrr_str (mca / 16 % 16)
      ++ codes " "
      ++ ii
      ++ codes " "
      ++ timeout
  let desc =
      codes "BUS error: " ++ printf.dec socket ++ codes " " ++ printf.dec cpu ++ codes " " ++ words
  some (record (cpu_msg status (codes "bus") (root_port printf status misc mca desc) m) {
    id = mca % 4;
  })

-- The chain of tests of `decode_mca` on the message in use. A code that no test knows leaves the
-- message as it is.
unfoldable pub decode_code : Printf → ℕ → ℕ → ℕ → ℕ → ℕ → Msg → Option Msg
decode_code printf status misc cpu socket mca m =
    if ltb mca 7
    then decode_base status mca m
    else if mca / 4 == 3
    then decode_hierarchy status mca m
    else if test_prefix 4 mca
    then decode_tlb status mca m
    else if test_prefix 8 mca
    then decode_cache status mca m
    else if test_prefix 10 mca
    then some (decode_internal printf status mca m)
    else if test_prefix 11 mca
    then decode_bus printf status misc cpu socket mca m
    else if test_prefix 7 mca
    then decode_memory_controller printf mca status m
    else some m

-- `decode_mca`: whether it returned 0 (and not -1), and the messages.
unfoldable pub decode_mca : Printf → ℕ → ℕ → ℕ → ℕ → Msgs → Option (Bool × Msgs)
decode_mca printf status misc cpu socket ms =
    if error_code status == 0
    then some (false, ms)
    else if leb mce_msg_maxnum ms.mm_num
    then some (false, ms)
    else do
      m ←
          decode_code printf status misc cpu socket (error_code status)
            (get_or ms.mm ms.mm_num zero_msg)
      some (true, record { mm = set ms.mm ms.mm_num m; mm_num = ms.mm_num + 1 })

-- `decode_thermal`, which writes the name and the id into the first message.
unfoldable pub decode_thermal : Printf → ℕ → ℕ → Msgs → Msgs
decode_thermal printf status cpu ms =
    if leb mce_msg_maxnum ms.mm_num
    then ms
    else (let hot = bit 0 status in
        let named = set ms.mm 0 (record (get_or ms.mm 0 zero_msg) { name = codes "cpu" }) in
        let written = set named ms.mm_num (record (get_or named ms.mm_num zero_msg) {
          mnemonic = some (if hot then codes "tmp_high" else codes "tmp_low");
          desc = some (
              codes "Processor "
              ++ printf.dec cpu
              ++ (if hot
                  then codes " heated above trip temperature. Throttling enabled."
                  else codes " below trip temperature. Throttling disabled."));
        }) in
        record {
          mm =
              if hot
              then set written 0 (record (get_or written 0 zero_msg) { id = 1 })
              else written;
          mm_num = ms.mm_num + 1;
        })
