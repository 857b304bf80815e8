-- ===== src/Source/Adm/Whole.antt =====
-- The pages that the administration tool gets are together all of the list.
use fms.Base.{
  ℕ, zero, suc, ◌+◌, ◌*◌, ◌≤◌, ◌≡◌, refl, sym, ap, ◌∙◌, ◌≢◌, inl, inr, Option, none, some, List, [],
  ◌∷◌, ◌++◌, arith, Option-cases, length, take,
}
use fms.Text.{Text}
use fms.Event.{Event}
use fms.Case.{Case}
use fms.Source.Adm.{faf_num, FafCase, repaired_entry, fmd_get_caselist}
use fms.Source.Adm.Pages.{drop, gather, gather-append, flat, tag_entry}
use fms.Source.Adm.Lists.{sent_cases, sent_repaired}

-- The messages for 0, 20, 40 and so on, one after the other.
unfoldable pub messages : (ℕ → Option (List FafCase)) → ℕ → ℕ → Option (List FafCase)
messages get zero num = some []
messages get (suc k) num = elim (get num) [
  | none ↦ none
  | some ss ↦ elim (messages get k (num + faf_num)) [ none ↦ none | some us ↦ some (ss ++ us) ]
]

module _ {A : Type 0} where
  take-drop : (n m p : ℕ) (xs : List A) → n + m ≡ p → take n xs ++ take m (drop n xs) ≡ take p xs
  take-drop zero m p xs e = let v : m ≡ p = omega arith in ap (λ (i : ℕ). take i xs) v
  take-drop (suc n) m zero xs e = absurd (omega arith)
  take-drop (suc n) zero (suc p) [] e = refl
  take-drop (suc n) (suc m) (suc p) [] e = refl
  take-drop (suc n) m (suc p) (x ∷ xs) e =
      ap (λ (l : List A). x ∷ l) (take-drop n m p xs (omega arith))

  drop-drop : (n m p : ℕ) (xs : List A) → n + m ≡ p → drop m (drop n xs) ≡ drop p xs
  drop-drop zero m p xs e = let v : m ≡ p = omega arith in ap (λ (i : ℕ). drop i xs) v
  drop-drop (suc n) m zero xs e = absurd (omega arith)
  drop-drop (suc n) zero (suc p) [] e = refl
  drop-drop (suc n) (suc m) (suc p) [] e = refl
  drop-drop (suc n) m (suc p) (x ∷ xs) e = drop-drop n m p xs (omega arith)

  take_all : (n : ℕ) (xs : List A) → length xs ≤ n → take n xs ≡ xs
  take_all zero [] h = refl
  take_all zero (x ∷ xs) h = absurd (omega arith)
  take_all (suc n) [] h = refl
  take_all (suc n) (x ∷ xs) h = ap (λ (l : List A). x ∷ l) (take_all n xs (omega arith))

  messages-gather :
      (f : A → Option FafCase) (get : ℕ → Option (List FafCase)) (xs : List A)
      → ((n : ℕ) → get n ≡ gather f (take faf_num (drop n xs)))
      → (k num : ℕ) → messages get k num ≡ gather f (take (20 * k) (drop num xs))
  unfolding messages
  messages-gather f get xs h zero num = refl
  messages-gather f get xs h (suc k) num =
      let ih = messages-gather f get xs h k (num + faf_num) in
      let first = take faf_num (drop num xs) in
      let rest = take (20 * k) (drop (num + faf_num) xs) in
      let d = drop-drop num faf_num (num + faf_num) xs refl in
      let t = take-drop faf_num (20 * k) (20 * suc k) (drop num xs) (omega arith) in
      let s : first ++ rest ≡ take (20 * suc k) (drop num xs) =
        ap (λ (l : List A). first ++ take (20 * k) l) (sym d) ∙ t in
      let g = sym (ap (gather f) s) ∙ gather-append f first rest in
      let q = h num in
      elim (Option-cases (gather f first)) [
        | inl n ↦ ground (arith, q, g, n)
        | inr (ss, n) ↦ elim (Option-cases (gather f rest)) [
          | inl r ↦ ground (arith, q, g, n, r, ih)
          | inr (us, r) ↦ ground (arith, q, g, n, r, ih)
        ]
      ]

-- The messages for 0, 20, 40 and so on hold the entries of all events of the cases, each once and in
-- the order of the lists, and of all repaired events, when there are enough of them; they are not
-- sent if one of the events has no entry. The lists do not change between the messages.
pub messages_whole :
    (dec : ℕ → Text) (cases : List Case) (repaired : List Event) (index k : ℕ)
    → index ≢ 1
    → (length (flat cases) ≤ 20 * k
        → messages (λ num. fmd_get_caselist dec num 1 cases repaired) k 0
          ≡ gather (tag_entry dec) (flat cases))
      × (length repaired ≤ 20 * k
          → messages (λ num. fmd_get_caselist dec num index cases repaired) k 0
            ≡ gather (repaired_entry dec) repaired)
messages_whole dec cases repaired index k i = (
  λ h.
      messages-gather (tag_entry dec) _ (flat cases) (λ n. sent_cases dec n cases repaired) k 0
      ∙ ap (gather (tag_entry dec)) (take_all (20 * k) (flat cases) h),
  λ h.
      messages-gather (repaired_entry dec) _ repaired
        (λ n. sent_repaired dec n cases repaired index i) k 0
      ∙ ap (gather (repaired_entry dec)) (take_all (20 * k) repaired h),
)
