-- ===== src/Source/Mce/Tables.antt =====
-- evt_modules/evtsrc/cpumem/haswell.c: the tables of one processor model.
use fms.Base.{ℕ, List, [], ◌∷◌}
use fms.Text.{Text, codes}
use fms.Source.Mce.Bitfield.{Field}

-- SBITFIELD
abbrev pub sbitfield : ℕ → Text → Field
sbitfield start_bit string = record { start_bit = start_bit; str = (1, string) ∷ []; stringlen = 2 }

-- `fms_pcu_1`, the strings at their indexes.
unfoldable pub fms_pcu_1 : List (ℕ × Text)
fms_pcu_1 =
    (0x00, codes "pcu_none")
    ∷ (0x09, codes "pcu_mmct")
    ∷ (0x0d, codes "pcu_mifsst")
    ∷ (0x0e, codes "pcu_mcust")
    ∷ (0x13, codes "pcu_mdtt")
    ∷ (0x15, codes "pcu_mdcrat")
    ∷ (0x1e, codes "pcu_mvimlfim")
    ∷ (0x25, codes "pcu_msct")
    ∷ (0x29, codes "pcu_mvvmlfs")
    ∷ (0x2b, codes "pcu_mpwhcd")
    ∷ (0x2c, codes "pcu_mpwhcu")
    ∷ (0x39, codes "pcu_mpwhcus")
    ∷ (0x44, codes "pcu_mcvf")
    ∷ (0x45, codes "pcu_mimn")
    ∷ (0x46, codes "pcu_mvrdf")
    ∷ (0x47, codes "pcu_memnpc")
    ∷ (0x48, codes "pcu_msrrimf")
    ∷ (0x49, codes "pcu_mswrvmf")
    ∷ (0x4b, codes "pcu_mbvtd0")
    ∷ (0x4c, codes "pcu_mbvtd1")
    ∷ (0x4d, codes "pcu_mbvtd2")
    ∷ (0x4e, codes "pcu_mbvtd3")
    ∷ (0x4f, codes "pcu_msce")
    ∷ (0x52, codes "pcu_mfcovf")
    ∷ (0x53, codes "pcu_mfcocf")
    ∷ (0x57, codes "pcu_msprf")
    ∷ (0x58, codes "pcu_msirf")
    ∷ (0x59, codes "pcu_msarf")
    ∷ (0x60, codes "pcu_miprep")
    ∷ (0x61, codes "pcu_mipreq")
    ∷ (0x62, codes "pcu_miprsq")
    ∷ (0x63, codes "pcu_miprsp")
    ∷ (0x64, codes "pcu_mipsc")
    ∷ (0x67, codes "pcu_mhirbat")
    ∷ (0x68, codes "pcu_mirst")
    ∷ (0x69, codes "pcu_mhfcd")
    ∷ (0x6a, codes "pcu_mmpct")
    ∷ (0x70, codes "pcu_mwtps")
    ∷ (0x71, codes "pcu_mwtpcm")
    ∷ (0x72, codes "pcu_mwtpsm")
    ∷ (0x7c, codes "pcu_mbrcis")
    ∷ (0x7d, codes "pcu_mmtota")
    ∷ (0x81, codes "pcu_mrdtth")
    ∷ []

abbrev pub fms_pcu_mc4 : List Field
fms_pcu_mc4 = record { start_bit = 24; str = fms_pcu_1; stringlen = 0x82 } ∷ []

-- `fms_qpi`, the strings at their indexes.
unfoldable pub fms_qpi : List (ℕ × Text)
fms_qpi =
    (0x02, codes "qpi_plddba")
    ∷ (0x03, codes "qpi_pldlbr")
    ∷ (0x10, codes "qpi_lldcefr")
    ∷ (0x11, codes "qpi_relasoce")
    ∷ (0x12, codes "qpi_uoup")
    ∷ (0x13, codes "qpi_llce")
    ∷ (0x15, codes "qpi_ruuv")
    ∷ (0x20, codes "qpi_pldqir")
    ∷ (0x21, codes "qpi_lfdsh")
    ∷ (0x22, codes "qpi_pdir")
    ∷ (0x23, codes "qpi_lfcf")
    ∷ (0x30, codes "qpi_rdcea")
    ∷ (0x31, codes "qpi_rdcew")
    ∷ []

abbrev pub fms_qpi_mc : List Field
fms_qpi_mc = record { start_bit = 16; str = fms_qpi; stringlen = 0x32 } ∷ []

-- `pcu_1`, the strings at their indexes.
unfoldable pub pcu_1 : List (ℕ × Text)
pcu_1 =
    (0x00, codes "No Error")
    ∷ (0x09, codes "MC_MESSAGE_CHANNEL_TIMEOUT")
    ∷ (0x0d, codes "MC_IMC_FORCE_SR_S3_TIMEOUT")
    ∷ (0x0e, codes "MC_CPD_UNCPD_SD_TIMEOUT")
    ∷ (0x13, codes "MC_DMI_TRAINING_TIMEOUT")
    ∷ (0x15, codes "MC_DMI_CPU_RESET_ACK_TIMEOUT")
    ∷ (0x1e, codes "MC_VR_ICC_MAX_LT_FUSED_ICC_MAX")
    ∷ (0x25, codes "MC_SVID_COMMAN_TIMEOUT")
    ∷ (0x29, codes "MC_VR_VOUT_MAC_LT_FUSED_SVID")
    ∷ (0x2b, codes "MC_PKGC_WATCHDOG_HANG_CBZ_DOWN")
    ∷ (0x2c, codes "MC_PKGC_WATCHDOG_HANG_CBZ_UP")
    ∷ (0x39, codes "MC_PKGC_WATCHDOG_HANG_C3_UP_SF")
    ∷ (0x44, codes "MC_CRITICAL_VR_FAILED")
    ∷ (0x45, codes "MC_ICC_MAX_NOTSUPPORTED")
    ∷ (0x46, codes "MC_VID_RAMP_DOWN_FAILED")
    ∷ (0x47, codes "MC_EXCL_MODE_NO_PMREQ_CMP")
    ∷ (0x48, codes "MC_SVID_READ_REG_ICC_MAX_FAILED")
    ∷ (0x49, codes "MC_SVID_WRITE_REG_VOUT_MAX_FAILED")
    ∷ (0x4b, codes "MC_BOOT_VID_TIMEOUT_DRAM_0")
    ∷ (0x4c, codes "MC_BOOT_VID_TIMEOUT_DRAM_1")
    ∷ (0x4d, codes "MC_BOOT_VID_TIMEOUT_DRAM_2")
    ∷ (0x4e, codes "MC_BOOT_VID_TIMEOUT_DRAM_3")
    ∷ (0x4f, codes "MC_SVID_COMMAND_ERROR")
    ∷ (0x52, codes "MC_FIVR_CATAS_OVERVOL_FAULT")
    ∷ (0x53, codes "MC_FIVR_CATAS_OVERCUR_FAULT")
    ∷ (0x57, codes "MC_SVID_PKGC_REQUEST_FAILED")
    ∷ (0x58, codes "MC_SVID_IMON_REQUEST_FAILED")
    ∷ (0x59, codes "MC_SVID_ALERT_REQUEST_FAILED")
    ∷ (0x60, codes "MC_INVALID_PKGS_REQ_PCH")
    ∷ (0x61, codes "MC_INVALID_PKGS_REQ_QPI")
    ∷ (0x62, codes "MC_INVALID_PKGS_RSP_QPI")
    ∷ (0x63, codes "MC_INVALID_PKGS_RSP_PCH")
    ∷ (0x64, codes "MC_INVALID_PKG_STATE_CONFIG")
    ∷ (0x67, codes "MC_HA_IMC_RW_BLOCK_ACK_TIMEOUT")
    ∷ (0x68, codes "MC_IMC_RW_SMBUS_TIMEOUT")
    ∷ (0x69, codes "MC_HA_FAILSTS_CHANGE_DETECTED")
    ∷ (0x6a, codes "MC_MSGCH_PMREQ_CMP_TIMEOUT")
    ∷ (0x70, codes "MC_WATCHDOG_TIMEOUT_PKGC_SLAVE")
    ∷ (0x71, codes "MC_WATCHDOG_TIMEOUT_PKGC_MASTER")
    ∷ (0x72, codes "MC_WATCHDOG_TIMEOUT_PKGS_MASTER")
    ∷ (0x7c, codes "MC_BIOS_RST_CPL_INVALID_SEQ")
    ∷ (0x7d, codes "MC_MORE_THAN_ONE_TXT_AGENT")
    ∷ (0x81, codes "MC_RECOVERABLE_DIE_THERMAL_TOO_HOT")
    ∷ []

abbrev pub pcu_mc4 : List Field
pcu_mc4 = record { start_bit = 24; str = pcu_1; stringlen = 0x82 } ∷ []

-- `qpi`, the strings at their indexes.
unfoldable pub qpi : List (ℕ × Text)
qpi =
    (0x02, codes "Intel QPI physical layer detected drift buffer alarm")
    ∷ (0x03, codes "Intel QPI physical layer detected latency buffer rollover")
    ∷ (0x10, codes "Intel QPI link layer detected control error from R3QPI")
    ∷ (0x11, codes "Rx entered LLR abort state on CRC error")
    ∷ (0x12, codes "Unsupported or undefined packet")
    ∷ (0x13, codes "Intel QPI link layer control error")
    ∷ (0x15, codes "RBT used un-initialized value")
    ∷ (
      0x20,
      codes "Intel QPI physical layer detected a QPI in-band reset but aborted initialization",
    )
    ∷ (0x21, codes "Link failover data self healing")
    ∷ (0x22, codes "Phy detected in-band reset (no width change)")
    ∷ (0x23, codes "Link failover clock failover")
    ∷ (0x30, codes "Rx detected CRC error - successful LLR after Phy re-init")
    ∷ (0x31, codes "Rx detected CRC error - successful LLR wihout Phy re-init")
    ∷ []

abbrev pub qpi_mc : List Field
qpi_mc = record { start_bit = 16; str = qpi; stringlen = 0x32 } ∷ []

abbrev pub fms_memctrl_mc9 : List Field
fms_memctrl_mc9 =
    sbitfield 16 (codes "mc_d3addr_parity")
    ∷ sbitfield 17 (codes "mc_uha_wd")
    ∷ sbitfield 18 (codes "mc_uha_dbe")
    ∷ sbitfield 19 (codes "mc_cps")
    ∷ sbitfield 20 (codes "mc_ups")
    ∷ sbitfield 21 (codes "mc_cspare")
    ∷ sbitfield 22 (codes "mc_uspare")
    ∷ sbitfield 23 (codes "mc_memrd")
    ∷ sbitfield 24 (codes "mc_wdb_parity")
    ∷ sbitfield 25 (codes "mc_d4caddr_parity")
    ∷ []

abbrev pub memctrl_mc9 : List Field
memctrl_mc9 =
    sbitfield 16 (codes "DDR3 address parity error")
    ∷ sbitfield 17 (codes "Uncorrected HA write data error")
    ∷ sbitfield 18 (codes "Uncorrected HA data byte enable error")
    ∷ sbitfield 19 (codes "Corrected patrol scrub error")
    ∷ sbitfield 20 (codes "Uncorrected patrol scrub error")
    ∷ sbitfield 21 (codes "Corrected spare error")
    ∷ sbitfield 22 (codes "Uncorrected spare error")
    ∷ sbitfield 23 (codes "Corrected memory read error")
    ∷ sbitfield 24 (codes "iMC write data buffer parity error")
    ∷ sbitfield 25 (codes "DDR4 command address parity error")
    ∷ []
