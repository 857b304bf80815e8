-- ===== src/Lib.antt =====
-- The fault management daemon (fms). Source modules detect errors of devices and report them as
-- events; the queue thread puts each report under the case of its device, decides whether the
-- case fires, and sends the report and the fault event of a firing to the agent that subscribes
-- to the class; agent threads act on faults and put their answers into a list of handled
-- events, from which the queue thread deletes cases again.
--
-- Which file models what:
-- - Text: C strings as lists of bytes without their NUL (strcmp, strncmp, strchr, strrchr,
--   strstr, strspn, strcspn, atoi on the texts the code passes). Text/Laws has the lemmas.
-- - Ring: include/fmd_ring.h. Ring/Protocol: the threads around a ring (put_to_agent and
--   queue_start of fms/fmd_queue.c, fmd_queue_dispatch of evt_modules/evtlib/evt_src.c,
--   do_agent of evt_modules/evtlib/evt_agent.c) as a step relation, one step for a call on a
--   semaphore or under the lock of the ring.
-- - Event: include/fmd_event.h, lib/libfmd/fmd_event.c.
-- - Esc: lib/libesc/esc_main.c, the lines of the .esc files. Esc/Engine: reading a line back.
-- - Case: lib/libcase/fmd_case.c. Case counts an event and fires, Case/Insert is
--   fmd_case_insert, Case/Remove is fmd_case_find_and_delete. Case/Database:
--   lib/libcase/ev_record.c with include/ev_record.h, which SQL statement a handler runs with
--   which values. A case stands in a list in the order of fmd.list_case; its address is a
--   number that the allocator returns, since agents reach the case through the pointer p_case.
--   The calls of time(NULL) return what a record Clock says.
-- - Queue: fms/fmd_queue.c, subscriptions, dispatch, and queue_delete_proc.
-- - Agent: evt_modules/evtlib/evt_agent.c, do_agent and agent_ring_put. Agent/Conf: the
--   configuration file of an agent, as a text that fgets splits into lines. Agent/Cpumem:
--   evt_modules/evtagent/cpumem (evt_process.c, cpumem_agent.c), over a record Platform of what
--   the kernel and sysfs answer. Agent/Disk: evt_modules/evtagent/disk/agent.disk.c.
-- - Agent/Cpumem/CpuMap and Agent/Cpumem/Cache: cache.c of the cpumem agent, the masks of
--   processors that sysfs prints and the table of the caches, over the directories that sysfs
--   has.
-- - Source: evt_modules/evtlib/evt_src.c, evt_handle. Source/Mce:
--   evt_modules/evtsrc/cpumem/p4.c, haswell.c and bitfield.c, the messages for a machine check,
--   and Source/Mce/Record with Source/Mce/Events: cpumem_evtsrc.c, from a record of /dev/mcelog
--   to the list of events; over what asprintf writes for a number. Source/Intel:
--   evt_modules/evtsrc/cpumem/intel.c.
-- - Source/Dmi: evt_modules/evtsrc/cpumem/dmi.c and dmi_getstring of
--   evt_modules/evtlib/cpumem.c, over the bytes of the SMBIOS table; the order that qsort makes
--   is a parameter. Source/Dmi/Ranges has the ranges of addresses, Source/Dmi/Lookup the
--   search.
-- - Source/Adm: fmd_get_caselist of evt_modules/evtsrc/adm/evtsrc.adm.c, over what sprintf
--   writes for a number.
-- - Module: the list of modules, fmd_get_module_by_name and fmd_init_module of
--   evt_modules/evtlib/fmd_module.c, the commands of evtsrc.adm.c that load, unload and
--   configure a module, and the lines of the configuration files; what the initialiser of a
--   module makes of its path is a parameter. Module/Timer: the loop of fms/main.c that wakes
--   the sources.
-- - Topology: fmd_topo_tree of lib/libtopo/topo_tree.c, the loop over the processors;
--   Topology/Devices: its loops over the PCI devices and the memory. A list of children has its
--   newest child first. Topology/Scan: the search of the devices that fills the lists for the
--   tree, cpu.c, dmi.c, pci.c, network.c, storage.c and fmd_topo.c of lib/libtopo, over the
--   directories and files of sysfs and the bytes of /dev/mem; the order of qsort is a
--   parameter, and the system has no EFI table.
-- - System: the cases of fmd.list_case and the events in flight to and in the agents, as the
--   queue thread (fmd_proc_event with put_to_agents, fmd_case_find_and_delete) and the agent
--   threads (the end of a round of do_agent) change them; a step relation, with any event in
--   flight finished next. System/Held says what the use counters mean, System/Added,
--   System/Cells, System/Safe and System/Report are the steps.
-- - Tests: concrete runs.
--
-- Numbers: counters and times are natural numbers; the use counter of a case is a 32-bit word
-- with its wrap-around; the N and T of an engine are the 32-bit words that esc_build_engine
-- stores, where a product that overflows an int is the result none. An event takes its N over
-- as a positive number, that is, below 2^31. Tests on differences of times are written as tests
-- on sums, as the code has them on signed numbers. Loops run over lists, except those over the
-- bytes of an SMBIOS table, which take the number of bytes left as fuel (each entry takes at
-- least one of them; Topology/Scan/Rounds proves that the rounds are enough), and the messages
-- of Source/Adm, one for each 20 events; the step relation of System takes fewer than 2^31
-- reports, the range in which the use counter is read as positive; the capacity of a ring is
-- the 128 of the source.
--
-- Undefined behaviour of C (a NULL from a failed search that is read, a write past a buffer) is
-- the result none of the functions concerned, or a constructor overrun. The copies of an event
-- class into buffers of 128 bytes (fmd_create_listevent, fmd_case_new and fmd_event_add) are
-- taken for classes that fit them.
--
-- Not modelled: memory that is freed, log output, how sqlite stores a row and the text of a
-- time in it, the locks themselves (a step is what is done under one), dlopen and the threads
-- of a module, the message queue of the administration tool, the kernel module and its client,
-- the other sources, the message libraries, the EFI table, printing the lists of devices and
-- the topology tree, the dictionary library (a copy of Tokyo Cabinet) and the tools: they are
-- input and output around the parts above.
mod Base
pub mod Text
pub mod Ring
pub mod Event
pub mod Esc
pub mod Case
pub mod Queue
pub mod Module
pub mod Source
pub mod Topology
pub mod System
pub mod Agent
mod Tests
