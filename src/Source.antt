-- ===== src/Source.antt =====
-- evt_modules/evtlib/evt_src.c: what every source thread does with the list that its module
-- returns: an event for each entry with a class, in order.
pub mod Adm
pub mod Dmi
pub mod Intel
pub mod Mce
pub mod Reports
use fms.Base.{ℕ, suc, List, [], ◌∷◌}
use fms.Text.{Text}
use fms.Event.{Event, Nvlist, fmd_create_ereport}

-- `evt_handle`: the events in the order in which `fmd_queue_dispatch` gets them; `clock i` is the
-- time that the round on the i-th entry reads.
unfoldable pub evt_handle : (ℕ → ℕ) → List Nvlist → List Event
evt_handle clock [] = []
evt_handle clock (nvl ∷ rest) =
    let later = evt_handle (λ i. clock (suc i)) rest in
    elim nvl.value [ [] ↦ later | c ∷ s ↦ fmd_create_ereport (clock 0) (c ∷ s) nvl ∷ later ]
