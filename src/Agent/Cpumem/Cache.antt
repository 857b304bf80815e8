-- ===== src/Agent/Cpumem/Cache.antt =====
-- evt_modules/evtagent/cpumem/cache.c: the table of the caches of each processor, read from sysfs,
-- and the search in it for the processors that share a cache.
pub mod Laws
pub mod Table
use fms.Base.{
  ℕ, zero, suc, ◌+◌, ◌-◌, ◌*◌, ◌/◌, ◌^◌, Bool, true, false, ◌&&◌, ◌||◌, Option, none, some, List,
  [], ◌∷◌, ◌++◌, ltb, leb, ◌==◌, if◌then◌else◌, length, get_or, set, replicate,
}
use fms.Text.{Text, codes, str_eq}
use fms.Agent.Cpumem.CpuMap.{cpumap_len, parse_cpumap, set_bits}

pub record Cache : Type 0 where
  pub level : ℕ
  pub ctype : ℕ
  pub cpumap : List ℕ
  pub cpumaplen : ℕ

-- `caches`, as long as `cachelen`; `none` for NULL. The empty table is NULL too.
abbrev pub Caches : Type 0
Caches = List (Option (List Cache))

-- The files of a directory `index%d`.
pub record IndexDir : Type 0 where
  pub type_field : Text
  pub level_field : ℕ
  pub shared_cpu_map : Text

-- A directory `cpu%u` that has a directory `cache`, with the links of that.
pub record CpuDir : Type 0 where
  pub cpu : ℕ
  pub nlink : ℕ
  pub index : ℕ → IndexDir

abbrev pub instr : ℕ
instr = 0

abbrev pub data_type : ℕ
data_type = 1

abbrev pub unified : ℕ
unified = 2

-- `read_field_map` with `type_map`; -1 for another value.
unfoldable pub cache_type : Text → ℕ
cache_type val =
    if str_eq val (codes "Instruction")
    then instr
    else if str_eq val (codes "Data")
    then data_type
    else if str_eq val (codes "Unified")
    then unified
    else 2 ^ 32 - 1

abbrev pub min_cpus : ℕ
min_cpus = 8

abbrev pub min_index : ℕ
min_index = 4

-- `more_cpus`
unfoldable pub more_cpus : Caches → Caches
more_cpus caches =
    let old = if length caches == 0 then min_cpus / 2 else length caches in
    caches ++ replicate (old * 2 - length caches) none

-- The body of the inner loop of `read_caches`, with `read_cpu_map`.
unfoldable pub read_cache : IndexDir → Cache
read_cache d = record {
  level = d.level_field;
  ctype = cache_type d.type_field;
  cpumap = parse_cpumap d.shared_cpu_map;
  cpumaplen = cpumap_len d.shared_cpu_map;
}

-- That loop, for `n` more directories from `i` on.
unfoldable pub read_indexes : CpuDir → ℕ → ℕ → List Cache
read_indexes d zero i = []
read_indexes d (suc n) i = read_cache (d.index i) ∷ read_indexes d n (i + 1)

unfoldable pub cpu_caches : CpuDir → List Cache
cpu_caches d = read_indexes d (if ltb d.nlink 2 then min_index else d.nlink - 2) 0

-- if (cachelen <= cpu) more_cpus(cpu)
unfoldable pub room : Caches → ℕ → Caches
room caches cpu = if leb (length caches) cpu then more_cpus caches else caches

-- `caches[cpu] = ...`, or `none` for a write behind the end of the table.
unfoldable pub put_caches : ℕ → List Cache → Caches → Option Caches
put_caches cpu cs caches = if ltb cpu (length caches) then some (set caches cpu (some cs)) else none

-- The loop of `read_caches` over the directories, in the order in which readdir returns them.
unfoldable pub read_dirs : List CpuDir → Caches → Option Caches
read_dirs [] caches = some caches
read_dirs (d ∷ ds) caches = elim (put_caches d.cpu (cpu_caches d) (room caches d.cpu)) [
  | none ↦ none
  | some more ↦ read_dirs ds more
]

-- What a call returns and leaves in the table.
pub data Result : Type 0 where
  overrun : Result
  failed : Caches → Result
  found : Cache → Caches → Result

-- The loop of `cache_to_cpus` over the caches of the processor.
unfoldable pub find_cache : ℕ → ℕ → List Cache → Option Cache
find_cache level type [] = none
find_cache level type (c ∷ cs) = elim (c.level == level && c.ctype == type) [
  | true ↦ some c
  | false ↦ find_cache level type cs
]

unfoldable pub lookup : ℕ → ℕ → ℕ → Caches → Result
lookup cpu level type caches =
    if leb (length caches) cpu then failed caches else elim (get_or caches cpu none) [
      | none ↦ failed caches
      | some cs ↦ elim (find_cache level type cs) [ none ↦ failed caches | some c ↦ found c caches ]
    ]

-- The test "cpu >= cachelen || !caches[cpu]".
unfoldable pub lacks_cpu : Caches → ℕ → Bool
lacks_cpu caches cpu =
    leb (length caches) cpu || elim (get_or caches cpu none) [ none ↦ true | some cs ↦ false ]

-- The second half of `cache_to_cpus`, from "Maybe, cpu hotplug" on; `dirs` is what readdir returns
-- there, or `none` where opendir fails.
unfoldable pub lookup_again : ℕ → ℕ → ℕ → Option (List CpuDir) → Caches → Result
lookup_again cpu level type dirs caches =
    if lacks_cpu caches cpu
    then elim dirs [
      | none ↦ failed []
      | some ds ↦ elim (read_dirs ds []) [
        | none ↦ overrun
        | some caches1 ↦ lookup cpu level type caches1
      ]
    ]
    else lookup cpu level type caches

-- `cache_to_cpus`; `dirs` and `dirs1` are what its two calls of `read_caches` find.
unfoldable pub cache_to_cpus :
    ℕ → ℕ → ℕ → Option (List CpuDir) → Option (List CpuDir) → Caches → Result
cache_to_cpus cpu level type dirs dirs1 [] = elim dirs [
  | none ↦ failed []
  | some ds ↦ elim (read_dirs ds []) [
    | none ↦ overrun
    | some [] ↦ failed []
    | some (c ∷ caches) ↦ lookup_again cpu level type dirs1 (c ∷ caches)
  ]
]
cache_to_cpus cpu level type dirs dirs1 (c ∷ caches) =
    lookup_again cpu level type dirs1 (c ∷ caches)

-- The processors that `cpu_offine_on_cache` goes through.
unfoldable pub mask_cpus : Cache → List ℕ
mask_cpus c = set_bits (c.cpumaplen * 8) 0 c.cpumap
