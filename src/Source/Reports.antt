-- ===== src/Source/Reports.antt =====
-- evt_modules/evtlib/evt_src.c, evt_handle: the events that a source's list becomes.
use fms.Base.{ℕ, suc, ◌≡◌, refl, ap, Bool, true, false, none, List, [], ◌∷◌, map, All, keep}
use fms.Text.{Text}
use fms.Event.{Event, Nvlist, fmd_create_ereport}
use fms.Source.{evt_handle}

abbrev pub is_set : Text → Bool
is_set [] = false
is_set (c ∷ s) = true

-- A new report: not classified, not counted and of no case.
abbrev pub IsReport : Event → Type 0
IsReport e = (is_set e.ev_class ≡ true) × (e.event_type ≡ 0) × (e.ev_count ≡ 0) × (e.p_case ≡ none)

-- The events have the classes of the entries, in order and without the empty ones, and each is a
-- new report.
pub evt_handle_lem :
    (clock : ℕ → ℕ) (nvls : List Nvlist)
    → (map (λ e. e.ev_class) (evt_handle clock nvls) ≡ keep is_set (map (λ n. n.value) nvls))
      × All IsReport (evt_handle clock nvls)
unfolding evt_handle fmd_create_ereport
evt_handle_lem clock [] = (refl, tt)
evt_handle_lem clock (nvl ∷ rest) =
    by_class nvl.value refl (evt_handle_lem (λ i. clock (suc i)) rest)
  where
    by_class :
        (cls : Text)
        → nvl.value ≡ cls
        → (map (λ e. e.ev_class) (evt_handle (λ i. clock (suc i)) rest)
            ≡ keep is_set (map (λ n. n.value) rest))
          × All IsReport (evt_handle (λ i. clock (suc i)) rest)
        → (map (λ e. e.ev_class) (evt_handle clock (nvl ∷ rest))
            ≡ keep is_set (map (λ n. n.value) (nvl ∷ rest)))
          × All IsReport (evt_handle clock (nvl ∷ rest))
    by_class [] h ih = rw h ih
    by_class (c ∷ s) h ih = rw h (ap (◌∷◌ (c ∷ s)) ih.0, ((refl, refl, refl, refl), ih.1))
