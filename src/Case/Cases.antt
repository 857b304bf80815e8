-- ===== src/Case/Cases.antt =====
-- lib/libcase/fmd_case.c: add_case_list and fmd_case_find_and_delete keep the cases well formed.
use fms.Base.{
  ℕ, ◌≡◌, refl, sym, ◌∙◌, ◌↔◌, inl, inr, true, false, Option, none, some, List, [], ◌∷◌, arith,
  Bool-cases, All,
}
use fms.Text.{str_eq_iff}
use fms.Event.{Event}
use fms.Case.{Case, Clock, fmd_case_new, fmd_event_add, is_case_of, add_to_known, add_case_list}
use fms.Case.Inv.{IsCase, IsCases, Other, SameCase, fmd_event_add-IsCase}

-- The test of a case reads the two fields that name a device.
pub is_case_of_iff :
    (e : Event) (c : Case)
    → (is_case_of e c ≡ true) ↔ ((c.dev_name ≡ e.dev_name) × (c.dev_id ≡ e.dev_id))
unfolding is_case_of
is_case_of_iff e c = (
  λ h. ((str_eq_iff c.dev_name e.dev_name).0 (ground arith), ground arith),
  λ h. ground (arith, (str_eq_iff c.dev_name e.dev_name).1 h.0),
)

Other-SameCase : (b c d : Case) → SameCase c d → Other b c → Other b d
Other-SameCase b c d s o = λ n i. o (n ∙ s.1) (i ∙ s.2)

Other-SameCase_left :
    (c d : Case) (cs : List Case) → SameCase c d → All (Other c) cs → All (Other d) cs
Other-SameCase_left c d [] s o = tt
Other-SameCase_left c d (b ∷ cs) s o =
    (λ n i. o.0 (sym s.1 ∙ n) (sym s.2 ∙ i), Other-SameCase_left c d cs s o.1)

-- What `add_to_known` returns for a report that has not been counted.
abbrev Known : Event → List Case → Option (List Case × Event × List Event) → Type 0
Known e cs none = All (λ c. is_case_of e c ≡ false) cs
Known e cs (some (ds, _, _)) = IsCases ds × ((b : Case) → All (Other b) cs → All (Other b) ds)

Known-hit :
    (clock : Clock) (e : Event) (c : Case) (cs : List Case)
    → e.ev_count ≡ 0
    → IsCases (c ∷ cs)
    → is_case_of e c ≡ true
    → Known e (c ∷ cs) (add_to_known clock e (c ∷ cs))
unfolding add_to_known
Known-hit clock e c cs z v h =
    let (n, i) = (is_case_of_iff e c).0 h in
    let (ok, same) = fmd_event_add-IsCase clock c e v.0 z (sym n) (sym i) in
    rw (h, add_to_known)
      (
        (ok, Other-SameCase_left c (fmd_event_add clock c e).0 cs same v.1, v.2),
        λ b o. (Other-SameCase b c (fmd_event_add clock c e).0 same o.0, o.1),
      )

Known-miss :
    (clock : Clock) (e : Event) (c : Case) (cs : List Case)
    (r : Option (List Case × Event × List Event))
    → IsCases (c ∷ cs)
    → is_case_of e c ≡ false
    → add_to_known clock e cs ≡ r
    → Known e cs r
    → Known e (c ∷ cs) (add_to_known clock e (c ∷ cs))
unfolding add_to_known
Known-miss clock e c cs none v h q k = rw (h, add_to_known, q) (h, k)
Known-miss clock e c cs (some (ds, x, out)) v h q k =
    rw (h, add_to_known, q) ((v.0, k.1 c v.1, k.0), λ b o. (o.0, k.1 b o.1))

add_to_known-Known :
    (clock : Clock) (e : Event) (cs : List Case)
    → e.ev_count ≡ 0
    → IsCases cs
    → Known e cs (add_to_known clock e cs)
unfolding add_to_known
add_to_known-Known clock e [] z v = tt
add_to_known-Known clock e (c ∷ cs) z v = elim (Bool-cases (is_case_of e c)) [
  | inl h ↦ Known-hit clock e c cs z v h
  | inr h ↦
      Known-miss clock e c cs (add_to_known clock e cs) v h refl
        (add_to_known-Known clock e cs z v.2)
]

Other-of_miss :
    (e : Event) (d : Case) (cs : List Case)
    → d.dev_name ≡ e.dev_name
    → d.dev_id ≡ e.dev_id
    → All (λ c. is_case_of e c ≡ false) cs
    → All (Other d) cs
Other-of_miss e d [] n i m = tt
Other-of_miss e d (c ∷ cs) n i m = (
  λ p q. let hit = (is_case_of_iff e c).1 (sym p ∙ n, sym q ∙ i) in cc,
  Other-of_miss e d cs n i m.1,
)

new-IsCase : (clock : Clock) (addr : ℕ) (e : Event) → IsCase (fmd_case_new clock addr e)
unfolding fmd_case_new
new-IsCase clock addr e = record {
  one_each = tt;
  owned = tt;
  total = omega arith;
  fired = omega arith;
}

-- After the insertion of a report, still every device has one case and every case is well formed.
pub add_case_list-IsCases :
    (clock : Clock) (addr : ℕ) (e : Event) (cs : List Case)
    → e.ev_count ≡ 0
    → IsCases cs
    → IsCases (add_case_list clock addr e cs).0
unfolding add_case_list fmd_case_new
add_case_list-IsCases clock addr e cs z v =
    step (add_to_known clock e cs) refl (add_to_known-Known clock e cs z v)
  where
    step :
        (r : Option (List Case × Event × List Event))
        → add_to_known clock e cs ≡ r
        → Known e cs r
        → IsCases (add_case_list clock addr e cs).0
    step none h k =
        let new = fmd_case_new clock addr e in
        let (ok, same) = fmd_event_add-IsCase clock new e (new-IsCase clock addr e) z refl refl in
        rw (h, add_case_list)
          (ok, Other-of_miss e (fmd_event_add clock new e).0 cs same.1 same.2 k, v)
    step (some (ds, x, out)) h k = rw (h, add_case_list) k.0
