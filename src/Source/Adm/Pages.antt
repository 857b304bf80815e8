-- ===== src/Source/Adm/Pages.antt =====
-- The administration tool gets every event once, page by page.
use fms.Base.{
  ℕ, zero, suc, ◌+◌, ◌≤◌, ◌≡◌, refl, ap, inl, inr, Option, none, some, List, [], ◌∷◌, ◌++◌,
  append_assoc, append-nil, arith, if◌then◌else◌, Bool-cases, Option-cases, length, take,
  length-append,
}
use fms.Text.{Text}
use fms.Event.{Event}
use fms.Case.{Case}
use fms.Source.Adm.{faf_num, FafCase, in_page, case_entry, Filled, fill_events, fill_cases}

module _ {A : Type 0} where
  -- The entries of a list in the page behind the first `num`, the first of them with the number `tmp + 1`.
  unfoldable pub window : ℕ → ℕ → List A → List A
  window num tmp [] = []
  window num tmp (x ∷ xs) =
      if in_page num (tmp + 1) then x ∷ window num (tmp + 1) xs else window num (tmp + 1) xs

  abbrev pub drop : ℕ → List A → List A
  drop zero xs = xs
  drop (suc n) [] = []
  drop (suc n) (x ∷ xs) = drop n xs

  window-past : (num tmp : ℕ) (xs : List A) → num + faf_num ≤ tmp → window num tmp xs ≡ []
  unfolding window in_page
  window-past num tmp [] h = refl
  window-past num tmp (x ∷ xs) h = ground (arith, window-past num (tmp + 1) xs)

  window-take :
      (n num tmp : ℕ) (xs : List A)
      → num ≤ tmp
      → tmp + n ≡ num + faf_num
      → window num tmp xs ≡ take n xs
  unfolding window in_page
  window-take zero num tmp xs h e = window-past num tmp xs (omega arith)
  window-take (suc n) num tmp [] h e = refl
  window-take (suc n) num tmp (x ∷ xs) h e = ground (arith, window-take n num (tmp + 1) xs)

  pub window-drop :
      (k num tmp : ℕ) (xs : List A) → tmp + k ≡ num → window num tmp xs ≡ take faf_num (drop k xs)
  unfolding window in_page
  window-drop zero num tmp xs e = window-take faf_num num tmp xs (omega arith) (omega arith)
  window-drop (suc k) num tmp [] e = refl
  window-drop (suc k) num tmp (x ∷ xs) e = ground (arith, window-drop k num (tmp + 1) xs)

  pub window-append :
      (num tmp : ℕ) (xs ys : List A)
      → window num tmp (xs ++ ys) ≡ window num tmp xs ++ window num (tmp + length xs) ys
  unfolding window
  window-append num tmp [] ys = ap (λ (t : ℕ). window num t ys) (omega arith)
  window-append num tmp (x ∷ xs) ys =
      let e : tmp + 1 + length xs ≡ tmp + suc (length xs) = omega arith in
      ground (arith, window-append num (tmp + 1) xs ys, e)

module _ {A B : Type 0} (f : A → Option B) where
  -- All the values, or `none` if one of them is missing.
  abbrev pub gather : List A → Option (List B)
  gather [] = some []
  gather (x ∷ xs) = elim (f x) [
    | none ↦ none
    | some y ↦ elim (gather xs) [ none ↦ none | some ys ↦ some (y ∷ ys) ]
  ]

  pub gather-append :
      (xs ys : List A)
      → gather (xs ++ ys) ≡ elim (gather xs) [
        | none ↦ none
        | some us ↦ elim (gather ys) [ none ↦ none | some vs ↦ some (us ++ vs) ]
      ]
  gather-append [] ys = elim (Option-cases (gather ys)) [
    | inl e ↦ ground (arith, e)
    | inr (v, e) ↦ ground (arith, e)
  ]
  gather-append (x ∷ xs) ys =
      let ih = gather-append xs ys in
      elim (Option-cases (f x)) [
        | inl e ↦ ground (arith, e)
        | inr (u, e) ↦ elim (Option-cases (gather xs)) [
          | inl g ↦ ground (arith, e, g, ih)
          | inr (us, g) ↦ elim (Option-cases (gather ys)) [
            | inl h ↦ ground (arith, e, g, h, ih)
            | inr (vs, h) ↦ ground (arith, e, g, h, ih)
          ]
        ]
      ]

-- The events of the cases with the flags of their cases.
abbrev pub tagged : ℕ → List Event → List (ℕ × Event)
tagged flag [] = []
tagged flag (e ∷ es) = (flag, e) ∷ tagged flag es

abbrev pub flat : List Case → List (ℕ × Event)
flat [] = []
flat (k ∷ ks) = tagged k.cs_flag k.cs_event ++ flat ks

-- What a loop makes of the entries so far.
unfoldable pub added : Filled → ℕ → Option (List FafCase) → Option Filled
added f n none = none
added f n (some ss) = some record { tmp_num = f.tmp_num + n; sections = f.sections ++ ss }

pub fill_events-gather :
    (entry : Event → Option FafCase) (num : ℕ) (es : List Event) (f : Filled)
    → fill_events entry num es f ≡ added f (length es) (gather entry (window num f.tmp_num es))
unfolding fill_events added window
fill_events-gather entry num [] f = ground (arith, append-nil f.sections)
fill_events-gather entry num (e ∷ es) f =
    let w = window num (f.tmp_num + 1) es in
    elim (Bool-cases (in_page num (f.tmp_num + 1))) [
      | inr p ↦
          let ih = fill_events-gather entry num es (record f { tmp_num = f.tmp_num + 1 }) in
          elim (Option-cases (gather entry w)) [
            | inl g ↦ ground (arith, p, ih, g)
            | inr (ss, g) ↦ ground (arith, p, ih, g)
          ]
      | inl p ↦ elim (Option-cases (entry e)) [
        | inl n ↦ ground (arith, p, n)
        | inr (s, n) ↦
            let ih =
              fill_events-gather entry num es
                (record { tmp_num = f.tmp_num + 1; sections = f.sections ++ (s ∷ []) }) in
            elim (Option-cases (gather entry w)) [
              | inl g ↦ ground (arith, p, n, ih, g)
              | inr (ss, g) ↦ ground (arith, p, n, ih, g, append_assoc f.sections (s ∷ []) ss)
            ]
      ]
    ]

pub length-tagged : (flag : ℕ) (es : List Event) → length (tagged flag es) ≡ length es
length-tagged flag [] = refl
length-tagged flag (e ∷ es) = ap suc (length-tagged flag es)

-- The entry of an event with the flag of its case.
abbrev pub tag_entry : (ℕ → Text) → ℕ × Event → Option FafCase
tag_entry dec (flag, e) = case_entry dec flag e

module _ (dec : ℕ → Text) (num : ℕ) where
  pub gather-tagged :
      (flag tmp : ℕ) (es : List Event)
      → gather (tag_entry dec) (window num tmp (tagged flag es))
        ≡ gather (case_entry dec flag) (window num tmp es)
  unfolding window
  gather-tagged flag tmp [] = refl
  gather-tagged flag tmp (e ∷ es) = ground (arith, gather-tagged flag (tmp + 1) es)

  pub fill_cases-gather :
      (ks : List Case) (f : Filled)
      → fill_cases dec num ks f
        ≡ added f (length (flat ks)) (gather (tag_entry dec) (window num f.tmp_num (flat ks)))
  unfolding fill_cases added
  fill_cases-gather [] f = unfold window in ground (arith, append-nil f.sections)
  fill_cases-gather (k ∷ ks) f =
      let es = tagged k.cs_flag k.cs_event in
      let first = fill_events-gather (case_entry dec k.cs_flag) num k.cs_event f in
      let same = gather-tagged k.cs_flag f.tmp_num k.cs_event in
      let w = window-append num f.tmp_num es (flat ks) in
      let g =
        gather-append (tag_entry dec) (window num f.tmp_num es)
          (window num (f.tmp_num + length es) (flat ks)) in
      let l = length-append es (flat ks) in
      let m = length-tagged k.cs_flag k.cs_event in
      elim (Option-cases (gather (tag_entry dec) (window num f.tmp_num es))) [
        | inl n ↦ ground (arith, first, same, w, g, n)
        | inr (ss, n) ↦
            let ih =
              fill_cases-gather ks
                (record { tmp_num = f.tmp_num + length es; sections = f.sections ++ ss }) in
            elim (Option-cases
              (gather (tag_entry dec) (window num (f.tmp_num + length es) (flat ks)))) [
                | inl h ↦ ground (arith, first, same, w, g, n, h, ih, m)
                | inr (us, h) ↦
                    ground (arith, first, same, w, g, n, h, ih, l, m, append_assoc f.sections ss us)
              ]
      ]
