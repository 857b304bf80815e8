-- ===== src/Source/Mce/Readable.antt =====
-- The messages that decode_intel_mc of p4.c leaves can be read, but for a record of an unknown code.
use fms.Base.{
  ℕ, zero, suc, ◌≤◌, ◌<◌, ◌≡◌, refl, ap, ◌∙◌, ◌≢◌, ◌⊎◌, inl, inr, none, some, arith, ◌==◌,
  Bool-cases, length, get_or, replicate, length-replicate, get_or-set_self, get_or-set_ne, bit,
}
use fms.Source.Intel.{CpuType}
use fms.Source.Mce.{Msg, zero_msg, mce_msg_maxnum, Msgs, error_code, Printf}
use fms.Source.Mce.Decode.{decode_thermal}
use fms.Source.Mce.Codes.{Known, IsUsable, Describes-IsUsable}
use fms.Source.Mce.Messages.{with_msg, next_msg, decode_mca_lem}
use fms.Source.Mce.Fields.{ℕ-cases}
use fms.Source.Mce.Model.{IsDescribed, Adds, Adds-refl, hsw_decode_model-Adds}
use fms.Source.Mce.Record.{
  Mce, is_haswell_epex, mce_thermal_bank, mce_cpu, mce_socket, decode_model, decode_intel_mc,
  no_msgs,
}

described-IsUsable : (m : Msg) → IsDescribed m → IsUsable m
described-IsUsable m d = (inl d.of_cpu, d.has_mnemonic, d.has_desc)

-- The messages in use can all be read.
abbrev pub Usable : Msgs → Type 0
Usable ms = (j : ℕ) → j < ms.mm_num → IsUsable (get_or ms.mm j zero_msg)

-- A message in use has no mnemonic.
abbrev pub Broken : Msgs → Type 0
Broken ms = (j : ℕ) × (j < ms.mm_num) × ((get_or ms.mm j zero_msg).mnemonic ≡ none)

no_msgs-zero : (n j : ℕ) → get_or (replicate n zero_msg) j zero_msg ≡ zero_msg
no_msgs-zero zero j = refl
no_msgs-zero (suc n) zero = refl
no_msgs-zero (suc n) (suc j) = no_msgs-zero n j

-- The record has an error code, or is of the thermal bank.
abbrev pub Heard : Mce → Type 0
Heard m = (error_code m.status ≢ 0) ⊎ (m.bank ≡ mce_thermal_bank)

-- A record with an error code that no test of `decode_mca` knows.
abbrev pub Unknown : Mce → Type 0
Unknown m =
    (m.bank ≢ mce_thermal_bank) × (error_code m.status ≢ 0) × (¬ Known (error_code m.status))

module _ (printf : Printf) (m : Mce) (t : CpuType) (size : ℕ) where
  ms1 : Msgs
  ms1 = decode_model printf m t no_msgs

  ms1-Adds : Adds no_msgs ms1
  unfolding ms1 decode_model
  ms1-Adds = elim (Bool-cases (is_haswell_epex t)) [
    | inl h ↦ rw h (
        hsw_decode_model-Adds printf m.bank m.status no_msgs (length-replicate 64 zero_msg)
          (omega arith))
    | inr h ↦ rw h (Adds-refl no_msgs (omega arith))
  ]

  ms1-Usable : Usable ms1
  ms1-Usable j h = described-IsUsable _ (ms1-Adds.described j (omega arith) h)

  with_msg-Usable : (msg : Msg) → IsUsable msg → Usable (with_msg ms1 msg)
  with_msg-Usable msg u j h =
      let room : ms1.mm_num < length ms1.mm =
        omega (arith, ms1-Adds.same_length, length-replicate 64 zero_msg, ms1-Adds.few) in
      elim (ℕ-cases j ms1.mm_num (omega arith)) [
        | inl e ↦ rw e (rw (get_or-set_self ms1.mm ms1.mm_num msg zero_msg room) u)
        | inr lt ↦
            let n : ms1.mm_num ≢ j = λ e. omega arith in
            rw (get_or-set_ne ms1.mm msg zero_msg n) (ms1-Usable j lt)
      ]

  next_msg-zero : next_msg ms1 ≡ zero_msg
  next_msg-zero = ms1-Adds.keeps ms1.mm_num (inr (omega arith)) ∙ no_msgs-zero 64 ms1.mm_num

  with_msg-zero : Broken (with_msg ms1 (next_msg ms1))
  with_msg-zero =
      let room : ms1.mm_num < length ms1.mm =
        omega (arith, ms1-Adds.same_length, length-replicate 64 zero_msg, ms1-Adds.few) in
      (
        ms1.mm_num,
        omega arith,
        rw (get_or-set_self ms1.mm ms1.mm_num (next_msg ms1) zero_msg room)
            (ap (λ (x : Msg). x.mnemonic) next_msg-zero),
      )

  thermal-Usable : Usable (decode_thermal printf m.status (mce_cpu m) no_msgs)
  unfolding decode_thermal
  thermal-Usable zero h = elim (Bool-cases (bit 0 m.status)) [
    | inl e ↦ rw e (inl refl, ground arith, ground arith)
    | inr e ↦ rw e (inl refl, ground arith, ground arith)
  ]
  thermal-Usable (suc j) h = absurd (omega arith)

  thermal-num : (decode_thermal printf m.status (mce_cpu m) no_msgs).mm_num ≡ 1
  unfolding decode_thermal
  thermal-num = refl

  -- `decode_intel_mc` leaves messages that can all be read, but for a record of an unknown code, which
  -- gives a message without a mnemonic.
  pub decode_intel_mc-Usable :
      (ms : Msgs) × (decode_intel_mc printf m t size no_msgs ≡ some ms)
      × (ms.mm_num ≤ mce_msg_maxnum)
      × (Heard m → 0 < ms.mm_num)
      × ((Usable ms × (¬ Unknown m)) ⊎ (Broken ms × Unknown m))
  unfolding decode_intel_mc
  decode_intel_mc-Usable = elim (Bool-cases (m.bank == mce_thermal_bank)) [
    | inl b ↦ (
      decode_thermal printf m.status (mce_cpu m) no_msgs,
      ground (arith, b),
      omega (arith, thermal-num),
      λ k. omega (arith, thermal-num),
      inl (thermal-Usable, λ u. u.0 (ground (arith, b))),
    )
    | inr b ↦ elim (decode_mca_lem printf m.status m.misc (mce_cpu m) (mce_socket m size) ms1) [
      | inl (why, e) ↦ (
        ms1,
        unfold ms1 in ground (arith, b, e),
        ms1-Adds.at_most,
        λ k. absurd (ground (arith, b, why, k, ms1-Adds.few)),
        inl (ms1-Usable, λ u. ground (arith, why, u.1, ms1-Adds.few)),
      )
      | inr (h, l, (msg, e, (inl (k, u)))) ↦ (
        with_msg ms1 msg,
        unfold ms1 in ground (arith, b, e),
        omega arith,
        λ k. omega arith,
        inl (with_msg-Usable msg (Describes-IsUsable m.status _ msg u), λ n. n.2 k),
      )
      | inr (h, l, (msg, e, (inr (n, v)))) ↦ (
        with_msg ms1 msg,
        unfold ms1 in ground (arith, b, e),
        omega arith,
        λ k. omega arith,
        inr (rw v with_msg-zero, (λ c. ground (arith, b, c), h, n)),
      )
    ]
  ]
