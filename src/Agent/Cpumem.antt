-- ===== src/Agent/Cpumem.antt =====
-- evt_modules/evtagent/cpumem: the agent for processors and memory. evt_process.c acts on a fault,
-- cpumem_agent.c decides whether to act and answers with a list event.
pub mod Laws
pub mod CpuMap
pub mod Cache
use fms.Base.{
  bit, ℕ, ◌%◌, Bool, true, false, ◌&&◌, not, Option, none, some, List, [], ◌∷◌, ◌==◌, if◌then◌else◌,
}
use fms.Text.{Text, codes, has_prefix, strrchr}
use fms.Event.{
  Event, event_list, agent_todo, list_isolated_failed, list_isolated_success, list_repaired_failed,
  list_repaired_success, list_repaired_manual, mode_manual, fmd_create_listevent,
}

-- `struct fms_cpumem`, the fields that the agent acts on.
pub record FmsCpumem : Type 0 where
  pub cpu : ℕ
  pub clevel : ℕ
  pub ctype : ℕ
  pub addr : ℕ
  pub flags : ℕ

-- What the agent asks of the kernel and of sysfs, with the answers at the time of the event.
pub record Platform : Type 0 where
  -- kfm_cache_flush returned 0
  pub cache_flush : ℕ → Bool
  -- the page flags from kfm_mempage_get_info, `none` for an error
  pub mempage_flags : ℕ → Option ℕ
  -- sysfs_write of the page's address to soft_offline_page wrote something
  pub soft_offline_page : ℕ → Bool
  -- the processors that /proc/cpuinfo lists, `none` if it cannot be opened
  pub cpuinfo : Option (List ℕ)
  -- the file `online` of the processor exists, and writing 0 to it wrote something
  pub online_file : ℕ → Bool
  pub write_offline : ℕ → Bool
  -- the processors in the mask of cache_to_cpus, `none` if it found no such cache
  pub cache_cpus : ℕ → ℕ → ℕ → Option (List ℕ)
  -- the private data of an event, `none` for NULL
  pub fault_data : ℕ → Option FmsCpumem

module _ (platform : Platform) where
  open platform use {
    cache_flush, mempage_flags, soft_offline_page, cpuinfo, online_file, write_offline, cache_cpus,
    fault_data,
  }

  -- `memory_page_offline` returns 0. KPF_NOPAGE is 20 and KPF_HWPOISON 19.
  unfoldable pub memory_page_offline : ℕ → Bool
  memory_page_offline addr = elim (mempage_flags addr) [
    | none ↦ false
    | some f ↦ if not (bit 20 f) && bit 19 f then true else soft_offline_page addr
  ]

  -- The loop of `is_cpu_offline` over the lines of /proc/cpuinfo.
  unfoldable pub is_listed : ℕ → List ℕ → Bool
  is_listed cpu [] = false
  is_listed cpu (u ∷ us) = if u == cpu then true else is_listed cpu us

  unfoldable pub is_cpu_offline : ℕ → Bool
  is_cpu_offline cpu = elim cpuinfo [ none ↦ false | some us ↦ not (is_listed cpu us) ]

  -- `do_cpu_offline` returns 0.
  unfoldable pub do_cpu_offline : ℕ → Bool
  do_cpu_offline cpu =
      if is_cpu_offline cpu
      then true
      else if not (online_file cpu)
      then false
      else write_offline cpu

  -- The loop of `cpu_offine_on_cache` over the processors in the mask; `ok` is `ret == 0`.
  unfoldable pub offline_each : Bool → List ℕ → Bool
  offline_each ok [] = ok
  offline_each ok (i ∷ rest) = offline_each (if do_cpu_offline i then ok else false) rest

  -- `cpu_offine_on_cache` returns 0.
  unfoldable pub cpu_offine_on_cache : ℕ → ℕ → ℕ → Bool
  cpu_offine_on_cache cpu clevel ctype = elim (cache_cpus cpu clevel ctype) [
    | some cpus ↦ offline_each true cpus
    | none ↦ do_cpu_offline cpu
  ]

  -- `__handle_cache`, which serves caches and TLBs; `cpu_action` is how often the case has fired.
  unfoldable pub handle_cache : ℕ → Option FmsCpumem → ℕ
  handle_cache cpu_action none = list_repaired_failed
  handle_cache cpu_action (some fc) =
      if cpu_action == 1
      then (if cache_flush fc.cpu then list_repaired_success else list_repaired_failed)
      else if cpu_action == 2
      then (if cpu_offine_on_cache fc.cpu fc.clevel fc.ctype
          then list_isolated_success
          else list_isolated_failed)
      else list_repaired_failed

  unfoldable pub evt_handle_qpi : Option FmsCpumem → ℕ
  evt_handle_qpi none = list_repaired_failed
  evt_handle_qpi (some fc) =
      if do_cpu_offline fc.cpu then list_isolated_success else list_isolated_failed

  -- FMS_CPUMEM_PAGE_ERROR is bit 0 of the flags.
  unfoldable pub evt_handle_mempage : Option FmsCpumem → ℕ
  evt_handle_mempage none = list_repaired_failed
  evt_handle_mempage (some fc) =
      if bit 0 fc.flags
      then (if memory_page_offline fc.addr then list_isolated_success else list_isolated_failed)
      else list_repaired_failed

  -- `cmea_evt_processing`: the first handler in `g_evt_handler` whose name begins the event type.
  unfoldable pub cmea_evt_processing : Text → ℕ → Option FmsCpumem → ℕ
  cmea_evt_processing evt_type cpu_action fc =
      if has_prefix (codes "cache") evt_type
      then handle_cache cpu_action fc
      else if has_prefix (codes "tlb") evt_type
      then handle_cache cpu_action fc
      else if has_prefix (codes "qpi") evt_type
      then evt_handle_qpi fc
      else if has_prefix (codes "mempage") evt_type
      then evt_handle_mempage fc
      else list_repaired_failed

  -- `__handle_fault_event`: the event type is what stands behind the last dot of the class.
  unfoldable pub handle_fault_event : Event → ℕ
  handle_fault_event e = elim (strrchr e.ev_class b'.') [
    | none ↦ list_repaired_failed
    | some [] ↦ list_repaired_failed
    | some (c ∷ evt_type) ↦ cmea_evt_processing evt_type e.ev_refs (fault_data e.private)
  ]

  -- The two tests of the handle mode in `cpumem_handle_event`.
  unfoldable pub fault_result : Event → ℕ
  fault_result e =
      if e.handle_mode == mode_manual
      then list_repaired_manual
      else if e.handle_mode % 2 == 1
      then handle_fault_event e
      else 0

  -- `cpumem_handle_event` at the time `now`: the event as it leaves it, and the answer.
  unfoldable pub cpumem_handle_event : ℕ → Event → Event × Option Event
  cpumem_handle_event now e =
      if e.ev_flag == agent_todo
      then (
        record e { event_type = event_list },
        fmd_create_listevent now (record e { event_type = event_list }) (fault_result e),
      )
      else (e, none)
