-- ===== src/Source/Mce/Record.antt =====
-- evt_modules/evtsrc/cpumem/cpumem_evtsrc.c: what is made of a record of /dev/mcelog, with
-- decode_intel_mc of p4.c, and evt_modules/evtlib/cpumem.c: parse_cpuid.
use fms.Base.{
  ℕ, zero, suc, ◌+◌, ◌-◌, ◌*◌, ◌/◌, ◌%◌, ◌^◌, Bool, true, false, not, ◌&&◌, ◌||◌, Option, none,
  some, List, [], ◌∷◌, ◌++◌, ltb, leb, ◌==◌, if◌then◌else◌, length, get_or, take, replicate, bit,
}
use Prim.Native.Nat.{bit_or}
use fms.Esc.{◌>>=◌}
use fms.Text.{Text, codes, str_eq}
use fms.Event.{Nvlist}
use fms.Source.Intel.{CpuType, cpu_generic, cpu_atom, cpu_haswell_epex, select_intel_cputype}
use fms.Source.Dmi.Ranges.{Dmi, dmi_decodeaddr}
use fms.Source.Mce.{Msg, zero_msg, mce_msg_maxnum, Msgs, Printf}
use fms.Source.Mce.Decode.{decode_mca, decode_thermal}
use fms.Source.Mce.Haswell.{hsw_decode_model}

-- `struct mce`
pub record Mce : Type 0 where
  pub status : ℕ
  pub misc : ℕ
  pub addr : ℕ
  pub mcgstatus : ℕ
  pub ip : ℕ
  pub tsc : ℕ
  pub time : ℕ
  pub cpuvendor : ℕ
  pub cpuid : ℕ
  pub cs : ℕ
  pub bank : ℕ
  pub cpu : ℕ
  pub extcpu : ℕ
  pub socketid : ℕ
  pub apicid : ℕ
  pub mcgcap : ℕ

-- `struct fms_cpumem`; `memdev` is the entry of the memory device, `none` for NULL.
pub record CpumemData : Type 0 where
  pub socketid : ℕ
  pub cpu : ℕ
  pub status : ℕ
  pub misc : ℕ
  pub addr : ℕ
  pub maddr : ℕ
  pub mcgstatus : ℕ
  pub ip : ℕ
  pub tsc : ℕ
  pub time : ℕ
  pub apicid : ℕ
  pub cpuid : ℕ
  pub mcgcap : ℕ
  pub mnemonic : Text
  pub desc : Text
  pub memdev : Option ℕ
  pub flags : ℕ
  pub cs : ℕ
  pub bank : ℕ
  pub cpuvendor : ℕ
  pub mem_ch : ℕ
  pub clevel : ℕ
  pub ctype : ℕ
  pub fname : Text
  pub dev_id : ℕ
  pub fid : ℕ
  pub cputype : CpuType

-- The family and the model in a processor id, `parse_cpuid`.
unfoldable pub cpu_family : ℕ → ℕ
cpu_family cpuid =
    let family = cpuid / 2 ^ 8 % 16 in
    if family == 0xf then family + cpuid / 2 ^ 20 % 256 else family

unfoldable pub cpu_model : ℕ → ℕ
cpu_model cpuid =
    let model = cpuid / 16 % 16 in
    if cpu_family cpuid == 6 || cpu_family cpuid == 0xf
    then model + cpuid / 2 ^ 16 % 16 * 16
    else model

-- `setup_cpuid`; X86_VENDOR_INTEL is 0.
unfoldable pub setup_cpuid : ℕ → ℕ → CpuType
setup_cpuid cpuvendor cpuid =
    if cpuvendor == 0
    then select_intel_cputype (cpu_family cpuid) (cpu_model cpuid)
    else cpu_generic

-- `mce_cpuid`: the global `cputype` afterwards.
unfoldable pub mce_cpuid : Mce → CpuType → CpuType
mce_cpuid m cputype = if m.cpuid == 0 then cputype else setup_cpuid m.cpuvendor m.cpuid

-- CASE_INTEL_CPUS, among the members of `enum cputype` other than CPU_K8.
unfoldable pub is_intel_cpu : CpuType → Bool
is_intel_cpu cpu_generic = false
is_intel_cpu cpu_atom = false
is_intel_cpu t = true

unfoldable pub is_haswell_epex : CpuType → Bool
is_haswell_epex cpu_haswell_epex = true
is_haswell_epex t = false

-- MCE_THERMAL_BANK
abbrev pub mce_thermal_bank : ℕ
mce_thermal_bank = 128

unfoldable pub mce_cpu : Mce → ℕ
mce_cpu m = if m.extcpu == 0 then m.cpu else m.extcpu

-- `socket`, -1 for a record that is too short; the field stands at 72.
unfoldable pub mce_socket : Mce → ℕ → ℕ
mce_socket m size = if ltb 72 size then m.socketid else 2 ^ 32 - 1

-- The messages before `decode_mci`.
unfoldable pub decode_model : Printf → Mce → CpuType → Msgs → Msgs
decode_model printf m cputype ms =
    if is_haswell_epex cputype then hsw_decode_model printf m.bank m.status ms else ms

-- `decode_intel_mc`; `none` is a read past a table.
unfoldable pub decode_intel_mc : Printf → Mce → CpuType → ℕ → Msgs → Option Msgs
decode_intel_mc printf m cputype size ms =
    if m.bank == mce_thermal_bank
    then some (decode_thermal printf m.status (mce_cpu m) ms)
    else elim (decode_mca printf m.status m.misc (mce_cpu m) (mce_socket m size)
        (decode_model printf m cputype ms)) [ none ↦ none | some r ↦ some r.1 ]

-- `resolveaddr`: the new value of `memdev`; `dmi` is there if `do_dmi` is set.
unfoldable pub resolveaddr : Option Dmi → ℕ → Option (Option ℕ)
resolveaddr none addr = some none
resolveaddr (some d) addr = if addr == 0 then some none else dmi_decodeaddr d addr

abbrev pub page_size : ℕ
page_size = 4096

-- MCI_STATUS_UC is bit 61, MCG_TES_P is bit 11; the tracking state is in the bits 53 and 54.
unfoldable pub is_yellow : Mce → Bool
is_yellow m =
    (m.mcgcap == 0 || bit 11 m.mcgcap) && not (bit 61 m.status) && m.status / 2 ^ 53 % 4 == 2

-- The flags: FMS_CPUMEM_PAGE_ERROR is 1, FMS_CPUMEM_UC is 2, FMS_CPUMEM_YELLOW is 4.
unfoldable pub data_flags : Mce → Msg → ℕ
data_flags m msg =
    (if bit 0 msg.flags then 1 else 0)
    + (if bit 61 m.status then 2 else 0)
    + (if is_yellow m then 4 else 0)

-- strncpy(dst, src, n) into cleared memory.
unfoldable pub strncpy : ℕ → Text → Text
strncpy n s = take n s

-- The body of the loop of `dump_mce` for a message with the mnemonic and the description that are
-- given. The fields of a record that is too short stay 0: `cpuid` stands at 60, `socketid` at 72,
-- `apicid` at 76.
unfoldable pub fill_data : Mce → ℕ → CpuType → Msg → Text → Text → Option ℕ → CpumemData
fill_data m size t msg mnemonic desc memdev =
    let cpu = mce_cpu m in
    let page = m.addr / page_size * page_size in
    record {
      socketid = if leb 72 size then m.socketid else 0;
      cpu = cpu;
      status = m.status;
      misc = m.misc;
      addr = m.addr;
      maddr = if bit 0 msg.flags then page else 0;
      mcgstatus = m.mcgstatus;
      ip = m.ip;
      tsc = m.tsc;
      time = m.time;
      apicid = if leb 76 size then m.apicid else 0;
      cpuid = if leb 60 size then m.cpuid else 0;
      mcgcap = if leb 60 size then m.mcgcap else 0;
      mnemonic = strncpy 127 mnemonic;
      desc = strncpy 1023 desc;
      memdev = memdev;
      flags = data_flags m msg;
      cs = m.cs;
      bank = m.bank;
      cpuvendor = if leb 60 size && not (m.cpuid == 0) then m.cpuvendor else 0;
      mem_ch = msg.mem_ch;
      clevel = msg.clevel;
      ctype = msg.ctype;
      fname = msg.name;
      dev_id = if str_eq msg.name (codes "cpu") then cpu else 0;
      fid = if bit 0 msg.flags then page else bit_or msg.id (cpu * 2 ^ 32);
      cputype = t;
    }

-- `none` is a NULL that strncpy reads, or a read behind `handle_to_entry`.
unfoldable pub dump_msg : Option Dmi → Mce → ℕ → CpuType → Msg → Option CpumemData
dump_msg dmi m size t msg = do
  memdev ← resolveaddr dmi m.addr
  mnemonic ← msg.mnemonic
  desc ← msg.desc
  some (fill_data m size t msg mnemonic desc memdev)

-- That loop, for `n` more messages from `i` on.
unfoldable pub dump_msgs : Option Dmi → Mce → ℕ → CpuType → Msgs → ℕ → ℕ → Option (List CpumemData)
dump_msgs dmi m size t ms zero i = some []
dump_msgs dmi m size t ms (suc n) i = do
  first ← dump_msg dmi m size t (get_or ms.mm i zero_msg)
  rest ← dump_msgs dmi m size t ms n (i + 1)
  some (first ∷ rest)

abbrev pub no_msgs : Msgs
no_msgs = record { mm = replicate mce_msg_maxnum zero_msg; mm_num = 0 }

-- `dump_mce`: the array `*fc`.
unfoldable pub dump_mce : Printf → Option Dmi → Mce → ℕ → CpuType → Option (List CpumemData)
dump_mce printf dmi m size t = do
  ms ← if is_intel_cpu t then decode_intel_mc printf m t size no_msgs else some no_msgs
  dump_msgs dmi m size t ms ms.mm_num 0

-- The class in `process_mcefd`: FM_EREPORT_CLASS and FM_FAULT_CLASS are both "ereport", and
-- `fullclass` holds 127 bytes.
unfoldable pub full_class : CpumemData → Text
full_class d = take 127 (
    if bit 2 d.flags
    then codes "ereport" ++ (codes ".cpu." ++ d.mnemonic)
    else codes "ereport" ++ (codes ".cpu." ++ d.mnemonic))

-- `cpumem_fm_event_post`, for the copy of the data at the address `cm`.
unfoldable pub cpumem_fm_event_post : ℕ → CpumemData → Nvlist
cpumem_fm_event_post cm d = record {
  name = d.fname;
  value = full_class d;
  dev_id = d.dev_id;
  evt_id = d.fid;
  private = cm;
}

-- The inner loop of `process_mcefd`; `alloc k` is the address of the k-th copy.
unfoldable pub post_data : (ℕ → ℕ) → ℕ → List CpumemData → List Nvlist
post_data alloc k [] = []
post_data alloc k (d ∷ ds) = cpumem_fm_event_post (alloc k) d ∷ post_data alloc (k + 1) ds

-- The outer loop of `process_mcefd` with `mce_prepare`, for records that are read at the time `now`.
unfoldable pub process_mcefd :
    Printf → Option Dmi → (ℕ → ℕ) → ℕ → ℕ → ℕ → List Mce → CpuType → Option (List Nvlist)
process_mcefd printf dmi alloc now size k [] t = some []
process_mcefd printf dmi alloc now size k (m ∷ ms) t = do
  ds ←
      dump_mce printf dmi (record m { time = if m.time == 0 then now else m.time }) size
        (mce_cpuid m t)
  rest ← process_mcefd printf dmi alloc now size (k + length ds) ms (mce_cpuid m t)
  some (post_data alloc k ds ++ rest)
