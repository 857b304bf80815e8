-- ===== src/Source/Mce/Fields.antt =====
-- Which messages decode_bitfield of bitfield.c writes.
use fms.Base.{
  ℕ, suc, ◌+◌, ◌≤◌, ◌<◌, ◌≡◌, refl, sym, ap, ◌∙◌, subst, ◌⊎◌, inl, inr, Bool, true, false, none,
  some, List, [], ◌∷◌, arith, ◌==◌, Bool-cases, Option-cases, length, get_or, set, length-set,
  get_or-set_self, get_or-set_ne, keep,
}
use fms.Text.{Text}
use fms.Source.Mce.{zero_msg, mce_msg_maxnum, Msgs, Printf}
use fms.Source.Mce.Bitfield.{Field, field_text, write_field, decode_fields}

-- The greatest number or a smaller one.
pub ℕ-cases : (a b : ℕ) → a ≤ b → (a ≡ b) ⊎ (a < b)
ℕ-cases a b h = elim (Bool-cases (a == b)) [
  | inl e ↦ inl (ground arith)
  | inr e ↦ inr (ground arith)
]

module _ (printf : Printf) (is_mnemonic : Bool) (status : ℕ) (type buf : Text) where
  -- The fields that say something.
  abbrev pub present : Field → Bool
  present f = elim (field_text printf is_mnemonic status f) [ none ↦ false | some s ↦ true ]

  abbrev pub spoken : List Field → ℕ
  spoken fs = length (keep present fs)

  -- The message that the loop writes next.
  written : Text → Msgs → Msgs
  written s ms = record {
    mm =
        set ms.mm ms.mm_num
          (write_field is_mnemonic status type buf s (get_or ms.mm ms.mm_num zero_msg));
    mm_num = ms.mm_num + 1;
  }

  fields : List Field → Msgs → Msgs
  fields fs ms = decode_fields printf is_mnemonic status type buf fs ms

  fields-silent :
      (f : Field) (fs : List Field) (ms : Msgs)
      → field_text printf is_mnemonic status f ≡ none
      → fields (f ∷ fs) ms ≡ fields fs ms
  unfolding decode_fields fields
  fields-silent f fs ms e = ground (arith, e)

  fields-full : (fs : List Field) (ms : Msgs) → mce_msg_maxnum ≤ ms.mm_num → fields fs ms ≡ ms
  unfolding decode_fields fields
  fields-full [] ms h = refl
  fields-full (f ∷ fs) ms h = elim (Option-cases (field_text printf is_mnemonic status f)) [
    | inl e ↦ ground (arith, e, fields-full fs ms h)
    | inr (s, e) ↦ ground (arith, e, h)
  ]

  fields-spoken :
      (f : Field) (fs : List Field) (ms : Msgs) (s : Text)
      → field_text printf is_mnemonic status f ≡ some s
      → ms.mm_num < mce_msg_maxnum
      → fields (f ∷ fs) ms ≡ fields fs (written s ms)
  unfolding decode_fields fields written
  fields-spoken f fs ms s e h = ground (arith, e, h)

  -- What the loop makes of the messages: those from the old count to the new one are written, for
  -- one field each, and the others are left alone.
  pub record IsWritten (ms out : Msgs) (n : ℕ) : Type 0 where
    pub same_length : length out.mm ≡ length ms.mm
    pub grows : ms.mm_num ≤ out.mm_num
    pub at_most : out.mm_num ≤ mce_msg_maxnum
    pub no_overflow : ms.mm_num + n ≤ mce_msg_maxnum → out.mm_num ≡ ms.mm_num + n
    pub full : mce_msg_maxnum ≤ ms.mm_num + n → out.mm_num ≡ mce_msg_maxnum
    pub below : (j : ℕ) → j < ms.mm_num → get_or out.mm j zero_msg ≡ get_or ms.mm j zero_msg
    pub above : (j : ℕ) → out.mm_num ≤ j → get_or out.mm j zero_msg ≡ get_or ms.mm j zero_msg
    pub inside :
        (j : ℕ)
        → ms.mm_num ≤ j
        → j < out.mm_num
        → (s : Text) × (get_or out.mm j zero_msg
            ≡ write_field is_mnemonic status type buf s (get_or ms.mm j zero_msg))

  IsWritten-refl :
      (ms : Msgs) (n : ℕ)
      → ms.mm_num ≤ mce_msg_maxnum
      → (n ≡ 0) ⊎ (ms.mm_num ≡ mce_msg_maxnum)
      → IsWritten ms ms n
  IsWritten-refl ms n h z = record {
    same_length = refl;
    grows = omega arith;
    at_most = h;
    no_overflow = λ k. ground arith;
    full = λ k. ground arith;
    below = λ j k. refl;
    above = λ j k. refl;
    inside = λ j k l. absurd (omega arith);
  }

  IsWritten-step :
      (ms out : Msgs) (n : ℕ) (s : Text)
      → length ms.mm ≡ mce_msg_maxnum
      → ms.mm_num < mce_msg_maxnum
      → IsWritten (written s ms) out n
      → IsWritten ms out (suc n)
  unfolding written
  IsWritten-step ms out n s l h w = record {
    same_length = w.same_length ∙ length-set ms.mm ms.mm_num _;
    grows = omega (arith, w.grows);
    at_most = w.at_most;
    no_overflow = λ k. omega (arith, w.no_overflow (omega arith));
    full = λ k. omega (arith, w.full (omega arith));
    below = λ j k. w.below j (omega arith) ∙ get_or-set_ne ms.mm _ zero_msg (λ e. omega arith);
    above = λ j k. w.above j k ∙ get_or-set_ne ms.mm _ zero_msg (λ e. omega (arith, w.grows));
    inside = λ j k g. elim (ℕ-cases ms.mm_num j k) [
      | inl e ↦ (
        s,
        rw (sym e) (
            w.below ms.mm_num (omega arith)
            ∙ get_or-set_self ms.mm ms.mm_num _ zero_msg (omega arith)),
      )
      | inr lt ↦
          let i = w.inside j (omega arith) g in
          let v : get_or
                (set ms.mm ms.mm_num
                  (write_field is_mnemonic status type buf s (get_or ms.mm ms.mm_num zero_msg)))
                j zero_msg
              ≡ get_or ms.mm j zero_msg =
            get_or-set_ne ms.mm _ zero_msg (λ e. omega arith) in
          (i.0, i.1 ∙ ap (write_field is_mnemonic status type buf i.0) v)
    ];
  }

  pub decode_fields-IsWritten :
      (fs : List Field) (ms : Msgs)
      → length ms.mm ≡ mce_msg_maxnum
      → ms.mm_num ≤ mce_msg_maxnum
      → IsWritten ms (decode_fields printf is_mnemonic status type buf fs ms) (spoken fs)
  unfolding fields
  decode_fields-IsWritten [] ms l h = unfold decode_fields in IsWritten-refl ms 0 h (inl refl)
  decode_fields-IsWritten (f ∷ fs) ms l h =
      elim (Option-cases (field_text printf is_mnemonic status f)) [
        | inl e ↦
            let n : spoken (f ∷ fs) ≡ spoken fs = ground (arith, e) in
            let v = fields-silent f fs ms e in
            rw v (subst (IsWritten ms (fields fs ms)) (sym n) (decode_fields-IsWritten fs ms l h))
        | inr (s, e) ↦
            let n : spoken (f ∷ fs) ≡ suc (spoken fs) = ground (arith, e) in
            elim (ℕ-cases ms.mm_num mce_msg_maxnum h) [
              | inl k ↦ rw (fields-full (f ∷ fs) ms (omega arith)) (IsWritten-refl ms _ h (inr k))
              | inr k ↦
                  let v = fields-spoken f fs ms s e k in
                  let w =
                    decode_fields-IsWritten fs (written s ms)
                      (unfold written in length-set ms.mm ms.mm_num _ ∙ l)
                      (unfold written in omega arith) in
                  rw v (
                    subst (IsWritten ms (fields fs (written s ms))) (sym n)
                      (IsWritten-step ms (fields fs (written s ms)) (spoken fs) s l k w))
            ]
      ]
