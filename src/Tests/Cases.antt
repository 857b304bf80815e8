-- ===== src/Tests/Cases.antt =====
-- Runs of the cases.
use fms.Base.{◌≡◌, refl, some, List, [], ◌∷◌, arith, length}
use fms.Text.{codes, str_eq}
use fms.Event.{Event, event_report}
use fms.Esc.{Esc}
use fms.Case.{Case, Clock, add_case_list, atomic_is_positive, is_case_of}
use fms.Case.Inv.{IsCase, IsCases}
use fms.Case.Cases.{add_case_list-IsCases}
use fms.Case.Delete.{Deleted, find_and_delete-Deleted, find_and_delete_keeps_cases}
use fms.Case.Fire.{find_event, feed, feed_serd}
use fms.Case.Remove.{fmd_case_find_and_delete, drop_event, delete_at, visit}
use fms.Tests.{clock, cache_error, cpu_case}

cpu_case-IsCase : IsCase cpu_case
cpu_case-IsCase = record { one_each = tt; owned = tt; total = omega arith; fired = omega arith }

add_case_list-IsCases_example : IsCases (add_case_list clock 600 cache_error (cpu_case ∷ [])).0
add_case_list-IsCases_example =
    add_case_list-IsCases clock 600 cache_error (cpu_case ∷ []) refl (cpu_case-IsCase, tt, tt)

abbrev another_report : Clock × Event
another_report = (clock, cache_error)

-- The second of two reports fires the engine with N = 2.
feed_serd_example : (feed cpu_case (another_report ∷ another_report ∷ [])).1 ≡ 1
feed_serd_example =
    feed_serd cpu_case clock cache_error (another_report ∷ []) (unfold find_event in refl) refl refl
      (omega arith) (refl, omega arith, (refl, omega arith, tt))

abbrev plain_report : Event
plain_report = record cache_error { event_type = event_report; serd_n = 0; serd_t = 0 }

abbrev entries : Esc
entries = record {
  list_event = codes "ereport.cpu.cache" ∷ [];
  list_serd = (record { eclass = codes "ereport.cpu.cache"; n = 2; t = 3600 }) ∷ [];
  list_fault = codes "ereport.cpu.qpi" ∷ [];
}

abbrev unmarked : Event
unmarked = record cache_error { event_type = 0; serd_n = 0; serd_t = 0 }

-- The case with the one event, after the agents have given it free.
abbrev held_case : Case
held_case = record cpu_case {
  cs_total_count = 1;
  cs_event = (record cache_error { p_case = some 500; ev_count = 1 }) ∷ [];
}

abbrev emptied : List Case
emptied = record held_case { cs_event = [] } ∷ []

held_case-IsCases : IsCases (held_case ∷ [])
held_case-IsCases = (
  record {
    one_each = (tt, tt);
    owned = ((refl, refl, refl, omega arith), tt);
    total = omega arith;
    fired = omega arith;
  },
  tt,
  tt,
)

cache_error_deleted : fmd_case_find_and_delete cache_error (held_case ∷ []) ≡ some emptied
unfolding fmd_case_find_and_delete visit delete_at drop_event atomic_is_positive is_case_of str_eq
cache_error_deleted = refl

find_and_delete-Deleted_example :
    Deleted cache_error (held_case ∷ []) (fmd_case_find_and_delete cache_error (held_case ∷ []))
find_and_delete-Deleted_example = find_and_delete-Deleted cache_error (held_case ∷ [])

find_and_delete_keeps_cases_example : length emptied ≡ length (held_case ∷ [])
find_and_delete_keeps_cases_example =
    find_and_delete_keeps_cases cache_error (held_case ∷ []) emptied (omega arith)
      cache_error_deleted
