-- ===== src/Tests/Modules.antt =====
-- Runs of the commands of the administration tool and of a timer.
use fms.Base.{
  ℕ, ◌+◌, ◌*◌, ◌^◌, ◌≤◌, ◌<◌, ◌≡◌, refl, Option, none, some, List, [], ◌∷◌, arith, length,
}
use fms.Text.{Text, codes, contains, has_prefix}
use fms.Case.{Case}
use fms.Source.Adm.{
  FafCase, fmd_get_caselist, repaired_entry, fill_cases, fill_events, in_page, case_entry,
  faf_fault, faf_state,
}
use fms.Source.Adm.Pages.{gather, flat, tag_entry}
use fms.Source.Adm.Whole.{messages, messages_whole}
use fms.Module.{Module}
use fms.Module.Timer.{run_timer, tick_timer, timer_init, run_timer_lem}
use fms.Tests.{cache_error, cpu_case}

abbrev dec : ℕ → Text
dec n = (n + 48) ∷ []

abbrev full_case : Case
full_case = record cpu_case { cs_event = cache_error ∷ cache_error ∷ [] }

abbrev count : Option (List FafCase) → ℕ
count none = 0
count (some ss) = length ss

page_runs : count (fmd_get_caselist dec 1 1 (full_case ∷ []) []) ≡ 1
unfolding fmd_get_caselist fill_cases fill_events in_page case_entry faf_fault faf_state contains
    has_prefix
page_runs = refl

messages_whole_example :
    (2 ≤ 20
      → messages (λ num. fmd_get_caselist dec num 1 (full_case ∷ []) (cache_error ∷ [])) 1 0
        ≡ gather (tag_entry dec) (flat (full_case ∷ [])))
    × (1 ≤ 20
        → messages (λ num. fmd_get_caselist dec num 2 (full_case ∷ []) (cache_error ∷ [])) 1 0
          ≡ gather (repaired_entry dec) (cache_error ∷ []))
messages_whole_example =
    messages_whole dec (full_case ∷ []) (cache_error ∷ []) 2 1 (λ e. omega arith)

timer_runs : (run_timer 7 (timer_init 3)).0 ≡ 2
unfolding run_timer tick_timer timer_init
timer_runs = refl

run_timer_example :
    (0 < 3
      → ((run_timer 7 (timer_init 3)).0 * 3 + (run_timer 7 (timer_init 3)).1.ticks ≡ 7)
        × ((run_timer 7 (timer_init 3)).1.ticks < 3))
    × (◌≡◌ {A = ℕ} 3 0 → 7 < 2 ^ 32 → (run_timer 7 (timer_init 3)).0 ≡ 0)
run_timer_example = run_timer_lem 7 3 (omega arith)

abbrev disk_path : Text
disk_path = codes "/p/agent.disk.so"

abbrev disk_module : Module
disk_module = record { mod_name = disk_path; mod_vers = 0; mod_interval = 0; list_eclass = [] }

abbrev adm_module : Module
adm_module = record {
  mod_name = codes "/p/evtsrc.adm.so";
  mod_vers = 0;
  mod_interval = 1;
  list_eclass = [];
}

abbrev disk_init : Text → Option Module
disk_init path = some disk_module
