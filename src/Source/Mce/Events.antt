-- ===== src/Source/Mce/Events.antt =====
-- Which records of /dev/mcelog become events: cpumem_evtsrc.c and what it calls.
use fms.Base.{ℕ, ◌≡◌, ◌⊎◌, Option, bit}
use fms.Text.{Text, codes}
use fms.Source.Dmi.Ranges.{Dmi}
use fms.Source.Mce.Record.{Mce, CpumemData, mce_cpu}

-- What a datum says of its record.
pub record IsReport (m : Mce) (memdev : Option ℕ) (d : CpumemData) : Type 0 where
  pub of_part : ((d.fname ≡ codes "cpu") × (d.dev_id ≡ mce_cpu m)) ⊎ (d.fname ≡ codes "memory")
  pub of_cpu : d.cpu ≡ mce_cpu m
  pub of_status : d.status ≡ m.status
  pub of_addr : d.addr ≡ m.addr
  pub of_memdev : d.memdev ≡ memdev
  pub uncorrected : bit 1 d.flags ≡ bit 61 m.status
