-- ===== src/Tests/Records.antt =====
-- Runs on records of /dev/mcelog.
use fms.Base.{◌+◌, ◌*◌, ◌^◌, ◌≡◌, refl, [], ◌∷◌}
use fms.Source.Mce.{Printf}
use fms.Source.Mce.Bitfield.{
  decode_bitfield, decode_fields, field_text, field_value, bitmask, mask_from,
}
use fms.Source.Mce.Tables.{qpi, fms_qpi}
use fms.Source.Mce.Names.{find_value}
use fms.Source.Mce.Haswell.{hsw_decode_model}
use fms.Source.Mce.Record.{Mce, no_msgs, cpu_family, cpu_model}

abbrev digits : Printf
digits = record {
  dec = λ n. (n + 48) ∷ [];
  hex = λ n. (n + 48) ∷ [];
  hex2 = λ n. 48 ∷ (n + 48) ∷ [];
}

-- An error of a link of the processor 3, with a data read error of its cache.
abbrev link_record : Mce
link_record = record {
  status = 2 ^ 61 + 0x10 * 2 ^ 16 + 256 + 16 * 3 + 4 * 1 + 1;
  misc = 0;
  addr = 0x5000;
  mcgstatus = 0;
  ip = 0;
  tsc = 0;
  time = 7;
  cpuvendor = 0;
  cpuid = 0x306f2;
  cs = 0;
  bank = 5;
  cpu = 0;
  extcpu = 3;
  socketid = 0;
  apicid = 0;
  mcgcap = 0;
}

family_runs : cpu_family 0x306f2 ≡ 6
unfolding cpu_family
family_runs = refl

model_runs : cpu_model 0x306f2 ≡ 0x3f
unfolding cpu_model cpu_family
model_runs = refl

link_runs : (hsw_decode_model digits 5 (0x10 * 2 ^ 16) no_msgs).mm_num ≡ 1
unfolding hsw_decode_model decode_bitfield decode_fields field_text field_value bitmask mask_from
    find_value qpi fms_qpi
link_runs = refl
