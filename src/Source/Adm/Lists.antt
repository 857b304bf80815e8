-- ===== src/Source/Adm/Lists.antt =====
-- What fmd_get_caselist of evtsrc.adm.c sends, and that the pages together are all of it.
use fms.Base.{
  ℕ, ◌+◌, ◌≡◌, refl, sym, ap, ◌∙◌, ◌≢◌, inl, inr, Option, some, List, [], ◌∷◌, arith, ◌==◌,
  Bool-cases, Option-cases, length, take, length-append,
}
use fms.Text.{Text}
use fms.Event.{Event}
use fms.Case.{Case}
use fms.Source.Adm.{
  faf_num, FafCase, Count, count_event, resv_events, resv_cases, fmd_resv_caselist, repaired_entry,
  Filled, fmd_get_caselist,
}
use fms.Source.Adm.Pages.{
  window, drop, window-drop, window-append, gather, tagged, flat, length-tagged, tag_entry, added,
  fill_events-gather, fill_cases-gather,
}

resv_events_lem :
    (num : ℕ) (es : List Event) (c : Count)
    → ((resv_events num es c).case_num ≡ c.case_num + length (window num c.tmp es))
      × ((resv_events num es c).tmp ≡ c.tmp + length es)
unfolding resv_events window count_event
resv_events_lem num [] c = (omega arith, omega arith)
resv_events_lem num (e ∷ es) c = ground (arith, resv_events_lem num es (count_event num c))

length-window :
    (num tmp flag : ℕ) (es : List Event)
    → length (window num tmp (tagged flag es)) ≡ length (window num tmp es)
unfolding window
length-window num tmp flag [] = refl
length-window num tmp flag (e ∷ es) = ground (arith, length-window num (tmp + 1) flag es)

resv_cases_lem :
    (num : ℕ) (ks : List Case) (c : Count)
    → (resv_cases num ks c).case_num ≡ c.case_num + length (window num c.tmp (flat ks))
unfolding resv_cases
resv_cases_lem num [] c = unfold window in omega arith
resv_cases_lem num (k ∷ ks) c =
    let es = tagged k.cs_flag k.cs_event in
    let first = resv_events_lem num k.cs_event c in
    let ih = resv_cases_lem num ks (resv_events num k.cs_event c) in
    let w = ap length (window-append num c.tmp es (flat ks)) in
    let a = length-append (window num c.tmp es) (window num (c.tmp + length es) (flat ks)) in
    let t = length-window num c.tmp k.cs_flag k.cs_event in
    let m = length-tagged k.cs_flag k.cs_event in
    let v : (resv_events num k.cs_event c).tmp ≡ c.tmp + length es = omega (arith, first.1, m) in
    let z = ap (λ (i : ℕ). length (window num i (flat ks))) v in
    omega (arith, first.0, ih, w, a, t, z)

length-gather :
    {A B : Type 0} (f : A → Option B) (xs : List A) (ys : List B)
    → gather f xs ≡ some ys
    → length ys ≡ length xs
length-gather f [] ys e = ground (arith, e)
length-gather f (x ∷ xs) ys e = elim (Option-cases (f x)) [
  | inl n ↦ ground (arith, n, e)
  | inr (u, n) ↦ elim (Option-cases (gather f xs)) [
    | inl g ↦ ground (arith, n, g, e)
    | inr (us, g) ↦ ground (arith, n, g, e, length-gather f xs us g)
  ]
]

module _ (dec : ℕ → Text) (num : ℕ) (cases : List Case) (repaired : List Event) where
  pub sent_cases :
      fmd_get_caselist dec num 1 cases repaired
      ≡ gather (tag_entry dec) (take faf_num (drop num (flat cases)))
  unfolding fmd_get_caselist added
  sent_cases =
      let start : Filled = record { tmp_num = 0; sections = [] } in
      let f = fill_cases-gather dec num cases start in
      let w = ap (gather (tag_entry dec)) (window-drop num num 0 (flat cases) (omega arith)) in
      elim (Option-cases (gather (tag_entry dec) (take faf_num (drop num (flat cases))))) [
        | inl n ↦ ground (arith, f, w, n)
        | inr (ss, n) ↦ ground (arith, f, w, n)
      ]

  pub sent_repaired :
      (index : ℕ)
      → index ≢ 1
      → fmd_get_caselist dec num index cases repaired
        ≡ gather (repaired_entry dec) (take faf_num (drop num repaired))
  unfolding fmd_get_caselist added
  sent_repaired index h =
      let start : Filled = record { tmp_num = 0; sections = [] } in
      let f = fill_events-gather (repaired_entry dec) num repaired start in
      let w = ap (gather (repaired_entry dec)) (window-drop num num 0 repaired (omega arith)) in
      elim (Option-cases (gather (repaired_entry dec) (take faf_num (drop num repaired)))) [
        | inl n ↦ ground (arith, f, w, n)
        | inr (ss, n) ↦ ground (arith, f, w, n)
      ]

  room_cases :
      fmd_resv_caselist num 1 cases repaired ≡ length (take faf_num (drop num (flat cases)))
  unfolding fmd_resv_caselist
  room_cases = omega (
    arith,
    resv_cases_lem num cases (record { tmp = 0; case_num = 0 }),
    ap length (window-drop num num 0 (flat cases) (omega arith)),
  )

  room_repaired :
      (index : ℕ)
      → index ≢ 1
      → fmd_resv_caselist num index cases repaired ≡ length (take faf_num (drop num repaired))
  unfolding fmd_resv_caselist
  room_repaired index h =
      let start : Count = record { tmp = 0; case_num = 0 } in
      let w = ap length (window-drop num num 0 repaired (omega arith)) in
      ground (arith, resv_events_lem num repaired start, w)

  -- A message holds the entries of up to 20 events behind the first `num`: of the events of the
  -- cases for the index 1, else of the repaired events. It is not sent if one of them has none. The
  -- number of its sections is what `fmd_resv_caselist` made room for.
  pub fmd_get_caselist_lem :
      (index : ℕ)
      → (fmd_get_caselist dec num 1 cases repaired
          ≡ gather (tag_entry dec) (take faf_num (drop num (flat cases))))
        × (index ≢ 1
            → fmd_get_caselist dec num index cases repaired
              ≡ gather (repaired_entry dec) (take faf_num (drop num repaired)))
        × ((out : List FafCase)
            → fmd_get_caselist dec num index cases repaired ≡ some out
            → fmd_resv_caselist num index cases repaired ≡ length out)
  fmd_get_caselist_lem index = (
    sent_cases,
    sent_repaired index,
    λ out e. elim (Bool-cases (index == 1)) [
      | inl b ↦
          let i : index ≡ 1 = ground (arith, b) in
          let e1 : fmd_get_caselist dec num 1 cases repaired ≡ some out = rw (← i) e in
          rw i
            (omega (arith, room_cases, length-gather (tag_entry dec) _ out (sym sent_cases ∙ e1)))
      | inr b ↦
          let i : index ≢ 1 = ground (arith, b) in
          omega (
            arith,
            room_repaired index i,
            length-gather (repaired_entry dec) _ out (sym (sent_repaired index i) ∙ e),
          )
    ],
  )
