-- ===== src/Source/Mce/Model.antt =====
-- The messages that hsw_decode_model of haswell.c adds: each gets a mnemonic from one table and its
-- description from another.
use fms.Base.{
  ℕ, ◌+◌, ◌≤◌, ◌<◌, ◌≡◌, refl, sym, ap, ◌∙◌, subst, ◌≢◌, ◌↔◌, ◌⊎◌, inl, inr, Bool, true, false,
  none, List, [], ◌∷◌, arith, ◌==◌, if◌then◌else◌, Option-cases, length, get_or, length-keep,
}
use fms.Text.{Text, codes}
use fms.Source.Mce.{Msg, zero_msg, mce_msg_maxnum, Msgs, Printf}
use fms.Source.Mce.Names.{find_value}
use fms.Source.Mce.Bitfield.{
  Field, field_value, field_text, write_field, decode_fields, decode_bitfield,
}
use fms.Source.Mce.Tables.{
  fms_pcu_1, pcu_1, fms_qpi, qpi, fms_pcu_mc4, pcu_mc4, fms_qpi_mc, qpi_mc, fms_memctrl_mc9,
  memctrl_mc9,
}
use fms.Source.Mce.Haswell.{pcu_buf, hsw_decode_model}
use fms.Source.Mce.Fields.{present, spoken, decode_fields-IsWritten}

-- A message of the processor with a mnemonic and a description.
pub record IsDescribed (m : Msg) : Type 0 where
  pub of_cpu : m.name ≡ codes "cpu"
  pub has_mnemonic : m.mnemonic ≢ none
  pub has_desc : m.desc ≢ none

-- The messages of `out` are those of `ms` and further ones, which are complete.
pub record Adds (ms out : Msgs) : Type 0 where
  pub same_length : length out.mm ≡ length ms.mm
  pub grows : ms.mm_num ≤ out.mm_num
  pub at_most : out.mm_num ≤ mce_msg_maxnum
  pub few : out.mm_num ≤ ms.mm_num + 10
  pub keeps :
      (j : ℕ)
      → (j < ms.mm_num) ⊎ (out.mm_num ≤ j)
      → get_or out.mm j zero_msg ≡ get_or ms.mm j zero_msg
  pub described : (j : ℕ) → ms.mm_num ≤ j → j < out.mm_num → IsDescribed (get_or out.mm j zero_msg)

-- Two fields of the same bits, of tables that agree on whether 0 has a string.
abbrev pub Agree : Field → Field → Type 0
Agree f g =
    (f.start_bit ≡ g.start_bit)
    × (f.stringlen ≡ g.stringlen)
    × (0 < f.stringlen)
    × ((find_value 0 f.str ≡ none) ↔ (find_value 0 g.str ≡ none))

abbrev pub Agrees : List Field → List Field → Type 0
Agrees [] [] = Unit
Agrees [] (g ∷ gs) = ⊥
Agrees (f ∷ fs) [] = ⊥
Agrees (f ∷ fs) (g ∷ gs) = Agree f g × Agrees fs gs

written-IsDescribed :
    (status : ℕ) (type buf buf1 s s1 : Text) (m : Msg)
    → IsDescribed (write_field false status [] buf1 s1 (write_field true status type buf s m))
unfolding write_field
written-IsDescribed status type buf buf1 s s1 m = record {
  of_cpu = refl;
  has_mnemonic = λ e. ground (arith, e);
  has_desc = λ e. ground (arith, e);
}

module _ (printf : Printf) (status : ℕ) where
  both :
      (type buf buf1 : Text) (names descs : List Field) (ms : Msgs)
      → length ms.mm ≡ mce_msg_maxnum
      → ms.mm_num ≤ mce_msg_maxnum
      → length names ≤ 10
      → spoken printf true status type buf names ≡ spoken printf false status [] buf1 descs
      → Adds ms (
          decode_bitfield printf false status [] buf1 descs
            (decode_bitfield printf true status type buf names ms))
  unfolding decode_bitfield
  both type buf buf1 names descs ms l h ten e =
      let out = decode_fields printf true status type buf names ms in
      let ms1 : Msgs = record out { mm_num = ms.mm_num } in
      let w = decode_fields-IsWritten printf true status type buf names ms l h in
      let v = decode_fields-IsWritten printf false status [] buf1 descs ms1 (w.same_length ∙ l) h in
      let n : (decode_fields printf false status [] buf1 descs ms1).mm_num ≡ out.mm_num =
        ground (arith, w.no_overflow, w.full, v.no_overflow, v.full, e) in
      let few_spoken : out.mm_num ≤ ms.mm_num + spoken printf true status type buf names =
        ground (arith, w.no_overflow, w.full, w.at_most) in
      record {
        same_length = v.same_length ∙ w.same_length;
        grows = v.grows;
        at_most = v.at_most;
        few = omega (arith, few_spoken, length-keep (present printf true status type buf) names);
        keeps = λ j k. elim k [
          | inl b ↦ v.below j b ∙ w.below j b
          | inr a ↦ v.above j a ∙ w.above j (omega arith)
        ];
        described = λ j lo hi.
            let i = w.inside j lo (omega arith) in
            let d = v.inside j lo hi in
            subst IsDescribed (sym (d.1 ∙ ap (write_field false status [] buf1 d.0) i.1))
              (written-IsDescribed status type buf buf1 i.0 d.0 (get_or ms.mm j zero_msg));
      }

  present_iff :
      (is_mnemonic : Bool) (type buf : Text) (f : Field)
      → 0 < f.stringlen
      → (present printf is_mnemonic status type buf f ≡ false)
        ↔ ((field_value status f ≡ 0) × (find_value 0 f.str ≡ none))
  unfolding field_text
  present_iff true type buf f p = elim (Option-cases (find_value (field_value status f) f.str)) [
    | inl e ↦ ground (arith, e)
    | inr (s, e) ↦ ground (arith, e)
  ]
  present_iff false type buf f p = elim (Option-cases (find_value (field_value status f) f.str)) [
    | inl e ↦ ground (arith, e)
    | inr (s, e) ↦ ground (arith, e)
  ]

  -- Such fields say something both or neither.
  present-same :
      (type buf type1 buf1 : Text) (f g : Field)
      → Agree f g
      → present printf true status type buf f ≡ present printf false status type1 buf1 g
  present-same type buf type1 buf1 f g a =
      let v : field_value status f ≡ field_value status g =
        unfold field_value in ground (arith, a.0, a.1) in
      let p : 0 < g.stringlen = omega (arith, a.1, a.2) in
      ground (arith, v, a.3, present_iff true type buf f a.2, present_iff false type1 buf1 g p)

  spoken-same :
      (type buf type1 buf1 : Text) (fs gs : List Field)
      → Agrees fs gs
      → spoken printf true status type buf fs ≡ spoken printf false status type1 buf1 gs
  spoken-same type buf type1 buf1 [] [] a = refl
  spoken-same type buf type1 buf1 [] (g ∷ gs) a = absurd a
  spoken-same type buf type1 buf1 (f ∷ fs) [] a = absurd a
  spoken-same type buf type1 buf1 (f ∷ fs) (g ∷ gs) a =
      ground
        (arith, present-same type buf type1 buf1 f g a.0, spoken-same type buf type1 buf1 fs gs a.1)

pcu-Agrees : Agrees fms_pcu_mc4 pcu_mc4
unfolding find_value fms_pcu_1 pcu_1
pcu-Agrees = (
  (refl, refl, omega arith, (λ e. absurd (ground (arith, e)), λ e. absurd (ground (arith, e)))),
  tt,
)

qpi-Agrees : Agrees fms_qpi_mc qpi_mc
unfolding find_value fms_qpi qpi
qpi-Agrees = ((refl, refl, omega arith, (λ e. refl, λ e. refl)), tt)

memctrl-Agrees : Agrees fms_memctrl_mc9 memctrl_mc9
unfolding find_value
memctrl-Agrees = ground arith

pub Adds-refl : (ms : Msgs) → ms.mm_num ≤ mce_msg_maxnum → Adds ms ms
Adds-refl ms h = record {
  same_length = refl;
  grows = omega arith;
  at_most = h;
  few = omega arith;
  keeps = λ j k. refl;
  described = λ j lo hi. absurd (omega arith);
}

Adds-if : (ms : Msgs) {x y : Msgs} (b : Bool) → Adds ms x → Adds ms y → Adds ms (if b then x else y)
Adds-if ms true a c = a
Adds-if ms false a c = c

-- `hsw_decode_model` adds messages of the processor that all have a mnemonic and a description, and
-- leaves the others alone; there are never more than 64.
pub hsw_decode_model-Adds :
    (printf : Printf) (bank status : ℕ) (ms : Msgs)
    → length ms.mm ≡ mce_msg_maxnum
    → ms.mm_num ≤ mce_msg_maxnum
    → Adds ms (hsw_decode_model printf bank status ms)
unfolding hsw_decode_model
hsw_decode_model-Adds printf bank status ms l h =
    let pcu =
      both printf status (codes "pcu") (pcu_buf status) (pcu_buf status) fms_pcu_mc4 pcu_mc4 ms l h
        (omega arith)
        (spoken-same printf status (codes "pcu") (pcu_buf status) [] (pcu_buf status) fms_pcu_mc4
          pcu_mc4 pcu-Agrees) in
    let link =
      both printf status (codes "qpi") [] [] fms_qpi_mc qpi_mc ms l h (omega arith)
        (spoken-same printf status (codes "qpi") [] [] [] fms_qpi_mc qpi_mc qpi-Agrees) in
    let memory =
      both printf status (codes "mc") [] [] fms_memctrl_mc9 memctrl_mc9 ms l h (omega arith) (
        spoken-same printf status (codes "mc") [] [] [] fms_memctrl_mc9 memctrl_mc9
          memctrl-Agrees) in
    Adds-if ms (bank == 4) pcu (Adds-if ms _ link (Adds-if ms _ memory (Adds-refl ms h)))
