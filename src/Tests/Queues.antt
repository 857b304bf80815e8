-- ===== src/Tests/Queues.antt =====
-- Runs of the queue thread.
use fms.Base.{◌+◌, ◌≡◌, refl, true, some, List, [], ◌∷◌, arith}
use fms.Text.{Text, codes, str_eq, has_prefix, strncmp_eq, strchr, strrchr}
use fms.Event.{Event, list_isolated_success}
use fms.Queue.{fmd_sub_matches, subscribes, put_to_agents, queue_delete_proc}
use fms.Queue.Match.{fmd_sub_matches_star, Picked, put_to_agents-Picked}
use fms.Queue.Repair.{Passes, queue_delete_proc-Passes}
use fms.Tests.{cache_error, cpu_case}

fmd_sub_matches_star_example :
    (fmd_sub_matches (codes "ereport.cpu.cache") (codes "ereport.cpu.*")
      ≡ some (has_prefix (codes "cpu") (codes "cpu.cache")))
    × (fmd_sub_matches (codes "ereport.cpu.cache") (codes "ereport.*") ≡ some true)
fmd_sub_matches_star_example =
    fmd_sub_matches_star (codes "ereport") (codes "cpu") (codes "ereport") (codes "cpu.cache")
      (ground arith) (ground arith)

abbrev subscriptions : List (List Text)
subscriptions = (codes "ereport.disk.*" ∷ []) ∷ (codes "ereport.cpu.*" ∷ []) ∷ []

cpu_agent_picked : put_to_agents (codes "ereport.cpu.cache") subscriptions ≡ some (some 1)
unfolding put_to_agents subscribes fmd_sub_matches strchr strrchr str_eq strncmp_eq
cpu_agent_picked = refl

put_to_agents-Picked_example : Picked (codes "ereport.cpu.cache") subscriptions (some 1)
put_to_agents-Picked_example =
    put_to_agents-Picked (codes "ereport.cpu.cache") subscriptions cpu_agent_picked

abbrev isolated : Event
isolated = record cache_error { agent_result = list_isolated_success }

queue_delete_proc-Passes_example :
    Passes
      (λ i. 200 + i)
      (isolated ∷ cache_error ∷ [])
      (cpu_case ∷ [])
      (queue_delete_proc (λ i. 200 + i) (isolated ∷ cache_error ∷ []) (cpu_case ∷ [])).0
      (queue_delete_proc (λ i. 200 + i) (isolated ∷ cache_error ∷ []) (cpu_case ∷ [])).1
queue_delete_proc-Passes_example =
    queue_delete_proc-Passes (λ i. 200 + i) (isolated ∷ cache_error ∷ []) (cpu_case ∷ [])
