-- ===== src/Source/Intel.antt =====
-- evt_modules/evtsrc/cpumem/intel.c: the type of an Intel processor.
use fms.Base.{
  ℕ, ◌<◌, ◌≡◌, ◌≢◌, ◌↔◌, inl, inr, Bool, true, false, ◌||◌, arith, ltb, ◌==◌, if◌then◌else◌,
  Bool-cases,
}

-- `enum cputype`, the members that the function returns
pub data CpuType : Type 0 where
  cpu_generic cpu_p6old cpu_core2 cpu_p4 cpu_nehalem cpu_dunnington cpu_tulsa cpu_intel cpu_xeon75xx
        cpu_sandy_bridge cpu_sandy_bridge_ep cpu_ivy_bridge cpu_ivy_bridge_epex cpu_haswell
        cpu_haswell_epex cpu_broadwell cpu_knights_landing cpu_atom :
      CpuType

-- What follows the chain of tests on family 6.
unfoldable pub other_cputype : ℕ → CpuType
other_cputype family =
    if ltb 6 family then cpu_intel else if family == 6 then cpu_p6old else cpu_generic

-- The chain of tests on family 6.
unfoldable pub family6_cputype : ℕ → CpuType
unfolding other_cputype
family6_cputype model =
    if ltb model 0xf
    then cpu_p6old
    else if model == 0xf || model == 0x17
    then cpu_core2
    else if model == 0x1d
    then cpu_dunnington
    else if model == 0x1a || model == 0x2c || model == 0x1e || model == 0x25
    then cpu_nehalem
    else if model == 0x2e || model == 0x2f
    then cpu_xeon75xx
    else if model == 0x2a
    then cpu_sandy_bridge
    else if model == 0x2d
    then cpu_sandy_bridge_ep
    else if model == 0x3a
    then cpu_ivy_bridge
    else if model == 0x3e
    then cpu_ivy_bridge_epex
    else if model == 0x3c || model == 0x45 || model == 0x46
    then cpu_haswell
    else if model == 0x3f
    then cpu_haswell_epex
    else if model == 0x3d || model == 0x4f || model == 0x56
    then cpu_broadwell
    else if model == 0x57
    then cpu_knights_landing
    else if model == 0x1c
        || model == 0x26
        || model == 0x27
        || model == 0x35
        || model == 0x36
        || model == 0x37
        || model == 0x4a
        || model == 0x4c
        || model == 0x4d
        || model == 0x5a
        || model == 0x5d
    then cpu_atom
    else if ltb 0x1a model
    then cpu_intel
    else other_cputype 6

unfoldable pub select_intel_cputype : ℕ → ℕ → CpuType
select_intel_cputype family model =
    if family == 15
    then (if model == 6 then cpu_tulsa else cpu_p4)
    else if family == 6
    then family6_cputype model
    else other_cputype family

either :
    (b : Bool) (x y : CpuType)
    → x ≢ cpu_generic
    → y ≢ cpu_generic
    → (if b then x else y) ≢ cpu_generic
either true x y h k = h
either false x y h k = k

family6_known : (model : ℕ) → family6_cputype model ≢ cpu_generic
unfolding family6_cputype other_cputype
family6_known model = either _ cpu_p6old _ (ground arith) (
    either _ cpu_core2 _ (ground arith) (
      either _ cpu_dunnington _ (ground arith) (
        either _ cpu_nehalem _ (ground arith) (
          either _ cpu_xeon75xx _ (ground arith) (
            either _ cpu_sandy_bridge _ (ground arith) (
              either _ cpu_sandy_bridge_ep _ (ground arith) (
                either _ cpu_ivy_bridge _ (ground arith) (
                  either _ cpu_ivy_bridge_epex _ (ground arith) (
                    either _ cpu_haswell _ (ground arith) (
                      either _ cpu_haswell_epex _ (ground arith) (
                        either _ cpu_broadwell _ (ground arith) (
                          either _ cpu_knights_landing _ (ground arith) (
                            either _ cpu_atom _ (ground arith) (
                              either _ cpu_intel cpu_p6old (ground arith)
                                (ground arith)))))))))))))))

-- A processor is of the generic type, for which no error is decoded, exactly if its family is below
-- 6.
pub select_intel_cputype_iff :
    (family model : ℕ) → (select_intel_cputype family model ≡ cpu_generic) ↔ (family < 6)
unfolding select_intel_cputype other_cputype
select_intel_cputype_iff family model = elim (Bool-cases (family == 6)) [
  | inl h ↦
      (let six : family ≡ 6 = ground arith in
        rw six (λ e. absurd (family6_known model e), λ l. absurd (omega arith)))
  | inr h ↦ ground arith
]
