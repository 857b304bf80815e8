-- ===== src/Agent/Cpumem/Laws.antt =====
-- What the answers of the cpumem agent mean.
use fms.Base.{
  ℕ, ◌≤◌, ◌≡◌, refl, ap, ◌∙◌, ◌↔◌, inl, inr, Bool, true, false, Option, some, List, [], ◌∷◌, ◌++◌,
  arith, if◌then◌else◌, Bool-cases, All,
}
use fms.Text.{Text, codes, has_prefix, Lacks, strrchr_lem}
use fms.Event.{
  Event, event_list, agent_todo, list_isolated_failed, list_isolated_success, list_repaired_failed,
  list_repaired_success, list_repaired_manual, mode_manual, mode_auto, fmd_create_listevent,
}
use fms.Event.Answer.{IsAnswer, fmd_create_listevent_lem}
use fms.Agent.Cpumem.{
  Platform, FmsCpumem, do_cpu_offline, offline_each, cpu_offine_on_cache, handle_cache,
  cmea_evt_processing, handle_fault_event, fault_result, cpumem_handle_event,
}

module _ (platform : Platform) where
  -- The loop reports success exactly if it started with success and every processor went offline.
  pub offline_each_iff :
      (ok : Bool) (cpus : List ℕ)
      → (offline_each platform ok cpus ≡ true)
        ↔ ((ok ≡ true) × All (λ i. do_cpu_offline platform i ≡ true) cpus)
  unfolding offline_each
  offline_each_iff ok [] = (λ h. (h, tt), λ h. h.0)
  offline_each_iff ok (i ∷ rest) = elim (Bool-cases (do_cpu_offline platform i)) [
    | inl h ↦
        let (to, from) = offline_each_iff ok rest in
        rw h (λ r. ((to r).0, (refl, (to r).1)), λ r. from (r.0, r.1.1))
    | inr h ↦
        let (to, from) = offline_each_iff false rest in
        rw h (λ r. absurd (ground (arith, (to r).0)), λ r. absurd (ground (arith, r.1.0)))
  ]

  processing_cache :
      (rest : Text) (n : ℕ) (fc : Option FmsCpumem)
      → cmea_evt_processing platform (codes "cache" ++ rest) n fc ≡ handle_cache platform n fc
  unfolding cmea_evt_processing has_prefix
  processing_cache rest n fc = refl

  cache_result :
      (e : Event) (head rest : Text)
      → Lacks b'.' (codes "cache" ++ rest)
      → e.ev_class ≡ head ++ b'.' ∷ (codes "cache" ++ rest)
      → e.handle_mode ≡ mode_auto
      → fault_result platform e ≡ handle_cache platform e.ev_refs (platform.fault_data e.private)
  unfolding fault_result handle_fault_event
  cache_result e head rest lacks cls mode =
      let found = strrchr_lem head (codes "cache" ++ rest) b'.' lacks in
      rw (mode, handle_fault_event, cls, found)
        (processing_cache rest e.ev_refs (platform.fault_data e.private))

  offine_known :
      (fc : FmsCpumem) (cpus : List ℕ)
      → platform.cache_cpus fc.cpu fc.clevel fc.ctype ≡ some cpus
      → cpu_offine_on_cache platform fc.cpu fc.clevel fc.ctype ≡ offline_each platform true cpus
  unfolding cpu_offine_on_cache
  offine_known fc cpus h = rw (h, cpu_offine_on_cache)

  handle_cache_two :
      (fc : FmsCpumem) (cpus : List ℕ)
      → platform.cache_cpus fc.cpu fc.clevel fc.ctype ≡ some cpus
      → handle_cache platform 2 (some fc)
        ≡ (if offline_each platform true cpus then list_isolated_success else list_isolated_failed)
  unfolding handle_cache
  handle_cache_two fc cpus h =
      ap (λ (b : Bool). if b then list_isolated_success else list_isolated_failed)
        (offine_known fc cpus h)

  handle_cache_later :
      (n : ℕ) (fc : FmsCpumem) → 3 ≤ n → handle_cache platform n (some fc) ≡ list_repaired_failed
  unfolding handle_cache
  handle_cache_later n fc h = ground arith

  -- The answer to a fault of a cache or TLB, in automatic mode, by how often its case has fired.
  -- The first time the cache is flushed. The second time the processors that share the cache are
  -- taken offline, and the device counts as isolated only if that worked for every one of them.
  -- From the third time on nothing is done and the repair counts as failed.
  pub cache_escalation :
      (e : Event) (head rest : Text) (fc : FmsCpumem) (cpus : List ℕ)
      → Lacks b'.' (codes "cache" ++ rest)
      → e.ev_class ≡ head ++ b'.' ∷ (codes "cache" ++ rest)
      → e.handle_mode ≡ mode_auto
      → platform.fault_data e.private ≡ some fc
      → platform.cache_cpus fc.cpu fc.clevel fc.ctype ≡ some cpus
      → (e.ev_refs ≡ 1
          → fault_result platform e
            ≡ (if platform.cache_flush fc.cpu then list_repaired_success else list_repaired_failed))
        × (e.ev_refs ≡ 2
            → (fault_result platform e ≡ list_isolated_success)
              ↔ All (λ i. do_cpu_offline platform i ≡ true) cpus)
        × (3 ≤ e.ev_refs → fault_result platform e ≡ list_repaired_failed)
  cache_escalation e head rest fc cpus lacks cls mode fd cs =
      let result =
        cache_result e head rest lacks cls mode ∙ ap (handle_cache platform e.ev_refs) fd in
      (
        λ n. result ∙ rw n (unfold handle_cache in refl),
        λ n.
            rw (result, n, handle_cache_two fc cpus cs)
              (isolated_iff (offline_each platform true cpus) (offline_each_iff true cpus)),
        λ n. result ∙ handle_cache_later e.ev_refs fc n,
      )
    where
      isolated_iff :
          (b : Bool)
          → (b ≡ true) ↔ ((true ≡ true) × All (λ i. do_cpu_offline platform i ≡ true) cpus)
          → ((if b then list_isolated_success else list_isolated_failed) ≡ list_isolated_success)
            ↔ All (λ i. do_cpu_offline platform i ≡ true) cpus
      isolated_iff true (to, from) = (λ _. (to refl).1, λ _. refl)
      isolated_iff false (to, from) =
          (λ h. absurd (ground arith), λ a. absurd (ground (arith, from (refl, a))))

  handle_todo :
      (now : ℕ) (e : Event)
      → e.ev_flag ≡ agent_todo
      → cpumem_handle_event platform now e ≡ (
        record e { event_type = event_list },
        fmd_create_listevent now (record e { event_type = event_list }) (fault_result platform e),
      )
  unfolding cpumem_handle_event
  handle_todo now e f = ground arith

  result_manual :
      (e : Event) → e.handle_mode ≡ mode_manual → fault_result platform e ≡ list_repaired_manual
  unfolding fault_result
  result_manual e m = ground arith

  -- An event to be acted on is marked as a list event and answered by a list event of its own device
  -- with the result of the handling, if its class has a dot. Under manual handling that result is
  -- the manual one, whatever the platform would say.
  pub cpumem_answers :
      (now : ℕ) (e : Event) (head body : Text)
      → Lacks b'.' head
      → e.ev_class ≡ head ++ b'.' ∷ body
      → e.ev_flag ≡ agent_todo
      → (a : Event) × (cpumem_handle_event platform now e
          ≡ (record e { event_type = event_list }, some a))
        × IsAnswer now e body (fault_result platform e) a
        × (e.handle_mode ≡ mode_manual → a.agent_result ≡ list_repaired_manual)
  cpumem_answers now e head body lacks cls f =
      let (a, made, answer) =
        fmd_create_listevent_lem now (record e { event_type = event_list })
          (fault_result platform e) head body lacks cls in
      (a, rw (handle_todo now e f, made), answer, λ m. answer.1 ∙ result_manual e m)
