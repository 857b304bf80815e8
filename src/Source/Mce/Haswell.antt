-- ===== src/Source/Mce/Haswell.antt =====
-- evt_modules/evtsrc/cpumem/haswell.c: hsw_decode_model.
use fms.Base.{ℕ, true, false, ◌&&◌, ◌||◌, [], ◌++◌, leb, ◌==◌, if◌then◌else◌}
use fms.Text.{Text, codes}
use fms.Source.Mce.{Msgs, error_code, extract, Printf}
use fms.Source.Mce.Bitfield.{decode_bitfield}
use fms.Source.Mce.Tables.{fms_pcu_mc4, pcu_mc4, fms_qpi_mc, qpi_mc, fms_memctrl_mc9, memctrl_mc9}

-- `buf` of the bank 4.
unfoldable pub pcu_buf : ℕ → Text
pcu_buf status =
    (let mca = error_code status in
      if mca == 0x402 || mca == 0x403
      then codes "Internal errors "
      else if mca == 0x406
      then codes "Intel TXT errors "
      else if mca == 0x407
      then codes "Other UBOX Internal errors "
      else [])
    ++ (if extract status 16 19 == 0 then [] else codes "PCU internal error ")

-- `hsw_decode_model`
unfoldable pub hsw_decode_model : Printf → ℕ → ℕ → Msgs → Msgs
hsw_decode_model printf bank status ms =
    if bank == 4
    then decode_bitfield printf false status [] (pcu_buf status) pcu_mc4
        (decode_bitfield printf true status (codes "pcu") (pcu_buf status) fms_pcu_mc4 ms)
    else if bank == 5 || bank == 20 || bank == 21
    then decode_bitfield printf false status [] [] qpi_mc
        (decode_bitfield printf true status (codes "qpi") [] fms_qpi_mc ms)
    else if leb 9 bank && leb bank 16
    then decode_bitfield printf false status [] [] memctrl_mc9
        (decode_bitfield printf true status (codes "mc") [] fms_memctrl_mc9 ms)
    else ms
