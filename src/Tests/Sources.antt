-- ===== src/Tests/Sources.antt =====
-- Runs of the decoding of machine checks.
use fms.Base.{
  ℕ, ◌+◌, ◌*◌, ◌^◌, ◌≤◌, ◌<◌, ◌≡◌, refl, ◌≢◌, ◌⊎◌, true, false, some, [], ◌∷◌, arith, get_or,
  replicate,
}
use fms.Text.{codes}
use fms.Source.Mce.{Msg, zero_msg, mce_msg_maxnum, Msgs, error_code, Printf}
use fms.Source.Mce.Decode.{decode_mca}
use fms.Source.Mce.Laws.{IsCpuMsg}
use fms.Source.Mce.Codes.{Known, Describes}
use fms.Source.Mce.Messages.{with_msg, next_msg, decode_mca_lem, decode_mca_cache}

abbrev printf : Printf
printf = record {
  dec = λ n. (n + 48) ∷ [];
  hex = λ n. (n + 48) ∷ [];
  hex2 = λ n. 48 ∷ (n + 48) ∷ [];
}

abbrev no_msgs : Msgs
no_msgs = record { mm = replicate 64 zero_msg; mm_num = 0 }

-- A data read error of the data cache of level 1.
abbrev cache_status : ℕ
cache_status = 256 + 16 * 3 + 4 * 1 + 1

-- A read error of channel 2, with bit 58 for a valid address.
abbrev memory_status : ℕ
memory_status = 2 ^ 58 + 128 + 16 + 2

decode_mca_example :
    (((error_code cache_status ≡ 0) ⊎ (mce_msg_maxnum ≤ no_msgs.mm_num))
      × (decode_mca printf cache_status 0 3 0 no_msgs ≡ some (false, no_msgs)))
    ⊎ ((error_code cache_status ≢ 0)
        × (no_msgs.mm_num < mce_msg_maxnum)
        × ((m : Msg) × (decode_mca printf cache_status 0 3 0 no_msgs
              ≡ some (true, with_msg no_msgs m))
            × ((Known (error_code cache_status)
                  × Describes cache_status (error_code cache_status) m)
                ⊎ ((¬ Known (error_code cache_status)) × (m ≡ next_msg no_msgs)))))
decode_mca_example = decode_mca_lem printf cache_status 0 3 0 no_msgs

decode_mca_cache_example :
    (out : Msgs) × (decode_mca printf cache_status 0 3 0 no_msgs ≡ some (true, out))
    × (out.mm_num ≡ 1)
    × IsCpuMsg (codes "cache") cache_status 1 1 (get_or out.mm 0 zero_msg)
decode_mca_cache_example =
    decode_mca_cache printf cache_status 0 3 0 no_msgs 3 1 1 (unfold error_code in refl)
      (omega arith) (omega arith) (omega arith) (omega arith) (omega arith)
