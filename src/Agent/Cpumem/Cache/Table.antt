-- ===== src/Agent/Cpumem/Cache/Table.antt =====
-- cache_to_cpus of cache.c returns the cache of the processor that sysfs shows.
use fms.Base.{
  ℕ, zero, suc, ◌-◌, ◌*◌, ◌<◌, ◌≡◌, refl, ◌∙◌, subst, ◌≢◌, inl, inr, Option, none, some, List, [],
  ◌∷◌, ◌++◌, arith, length, ◌⊎◌, get_or, set, replicate, get_or-set_self, get_or-set_ne, All, Among,
}
use fms.Agent.Cpumem.Cache.{
  Cache, Caches, CpuDir, more_cpus, room, cpu_caches, put_caches, read_dirs, Result, find_cache,
  lookup, lacks_cpu, lookup_again,
}

get_or-replicate : {A : Type 0} (n i : ℕ) → get_or {A = Option A} (replicate n none) i none ≡ none
get_or-replicate zero i = refl
get_or-replicate (suc n) zero = refl
get_or-replicate (suc n) (suc i) = get_or-replicate n i

get_or-append_none :
    {A : Type 0} (xs : List (Option A)) (n i : ℕ)
    → get_or (xs ++ replicate n none) i none ≡ get_or xs i none
get_or-append_none [] n i = get_or-replicate n i
get_or-append_none (x ∷ xs) n zero = refl
get_or-append_none (x ∷ xs) n (suc i) = get_or-append_none xs n i

get_or-room : (caches : Caches) (cpu i : ℕ) → get_or (room caches cpu) i none ≡ get_or caches i none
unfolding room more_cpus
get_or-room caches cpu i = ground (
  arith,
  get_or-append_none caches (length caches * 2 - length caches) i,
  get_or-append_none caches (4 * 2 - length caches) i,
)

-- The table after one directory.
after_dir : CpuDir → Caches → Caches
after_dir d caches = set (room caches d.cpu) d.cpu (some (cpu_caches d))

read_dirs-step :
    (d : CpuDir) (ds : List CpuDir) (caches out : Caches)
    → read_dirs (d ∷ ds) caches ≡ some out
    → (d.cpu < length (room caches d.cpu)) × (read_dirs ds (after_dir d caches) ≡ some out)
unfolding read_dirs put_caches after_dir
read_dirs-step d ds caches out e = ground arith

-- The processors of the directories differ.
abbrev pub Differ : List CpuDir → Type 0
Differ [] = Unit
Differ (d ∷ ds) = All (λ x. x.cpu ≢ d.cpu) ds × Differ ds

read_dirs-keeps :
    (ds : List CpuDir) (caches out : Caches) (cpu : ℕ) (cs : List Cache)
    → All (λ d. d.cpu ≢ cpu) ds
    → get_or caches cpu none ≡ some cs
    → read_dirs ds caches ≡ some out
    → get_or out cpu none ≡ some cs
read_dirs-keeps [] caches out cpu cs n g e = unfold read_dirs in ground (arith, e, g)
read_dirs-keeps (d ∷ ds) caches out cpu cs n g e =
    let s = read_dirs-step d ds caches out e in
    let v = some (cpu_caches d) in
    let g1 : get_or (after_dir d caches) cpu none ≡ some cs =
      unfold after_dir in
      get_or-set_ne (room caches d.cpu) v none n.0 ∙ get_or-room caches d.cpu cpu ∙ g in
    read_dirs-keeps ds (after_dir d caches) out cpu cs n.1 g1 s.1

-- The table holds the caches of each directory.
pub read_dirs-holds :
    (ds : List CpuDir) (caches out : Caches) (d : CpuDir)
    → Differ ds
    → Among d ds
    → read_dirs ds caches ≡ some out
    → get_or out d.cpu none ≡ some (cpu_caches d)
read_dirs-holds [] caches out d n m e = absurd m
read_dirs-holds (x ∷ ds) caches out d n (inl m) e =
    let s = read_dirs-step x ds caches out e in
    let g : get_or (after_dir x caches) x.cpu none ≡ some (cpu_caches x) =
      unfold after_dir in get_or-set_self (room caches x.cpu) x.cpu _ none s.0 in
    subst (λ y. get_or out y.cpu none ≡ some (cpu_caches y)) m
      (read_dirs-keeps ds (after_dir x caches) out x.cpu (cpu_caches x) n.0 g s.1)
read_dirs-holds (x ∷ ds) caches out d n (inr m) e =
    read_dirs-holds ds (after_dir x caches) out d n.1 m (read_dirs-step x ds caches out e).1

-- What `cache_to_cpus` answers from the caches of a processor.
abbrev pub answer : ℕ → ℕ → List Cache → Caches → Result
answer level type cs out = elim (find_cache level type cs) [
  | none ↦ Result.failed out
  | some c ↦ Result.found c out
]

get_or-length :
    (out : Caches) (cpu : ℕ) (cs : List Cache) → get_or out cpu none ≡ some cs → cpu < length out
get_or-length [] cpu cs g = absurd (cc)
get_or-length (x ∷ out) zero cs g = omega arith
get_or-length (x ∷ out) (suc cpu) cs g = omega (arith, get_or-length out cpu cs g)

-- A processor that the table has is looked up in it, and sysfs is not read again.
pub lookup_again-held :
    (cpu level type : ℕ) (dirs : Option (List CpuDir)) (out : Caches) (cs : List Cache)
    → get_or out cpu none ≡ some cs
    → lookup_again cpu level type dirs out ≡ answer level type cs out
unfolding lookup_again lookup lacks_cpu
lookup_again-held cpu level type dirs out cs g = ground (arith, g, get_or-length out cpu cs g)

-- The first of the caches that has the level and the type, if one has.
abbrev pub IsFirst : ℕ → ℕ → List Cache → Option Cache → Type 0
IsFirst level type cs none = All (λ c. (c.level ≢ level) ⊎ (c.ctype ≢ type)) cs
IsFirst level type cs (some c) =
    (before : List Cache) × (after : List Cache) × (cs ≡ before ++ c ∷ after)
    × All (λ x. (x.level ≢ level) ⊎ (x.ctype ≢ type)) before
    × (c.level ≡ level)
    × (c.ctype ≡ type)

-- What a search that has this result returns, with the table that it leaves.
abbrev pub returned : Option Cache → Caches → Result
returned none out = Result.failed out
returned (some c) out = Result.found c out

-- The call answers by the first cache of the directory that has the level and the type.
abbrev pub Answers : ℕ → ℕ → CpuDir → Caches → Result → Type 0
Answers level type d out r =
    (c : Option Cache) × (r ≡ returned c out) × IsFirst level type (cpu_caches d) c
