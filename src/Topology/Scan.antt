-- ===== src/Topology/Scan.antt =====
-- lib/libtopo: the search of the devices that fmd_topo.c makes in sysfs and in the SMBIOS table,
-- over the directories and files that there are.
use fms.Base.{
  ◌+◌, ◌-◌, ◌/◌, ◌≡◌, refl, ◌⊎◌, inl, inr, Bool, true, false, Option, none, some, List, [], ◌∷◌,
  ◌++◌, ◌==◌, get_or,
}
pub mod Cpu
pub mod Threads
pub mod Table
pub mod Memory
pub mod Placed
pub mod Numbers
pub mod Storage
pub mod Pci
pub mod Start
pub mod Whole
pub mod Names
pub mod Bridges
pub mod Rounds
use fms.Text.{Text}

-- What opendir with readdir, and open with read, give: the names of a directory in their order, the
-- bytes of a file, `none` for an error. A number in a file ends with a newline.
pub record FileSystem : Type 0 where
  pub names : Text → Option (List Text)
  pub content : Text → Option Text

-- snprintf(path, n, "%s/%s", dir, name), for a path that is not longer than n.
abbrev pub join : Text → Text → Text
join dir name = dir ++ b'/' ∷ name

-- name[0] == '.'
unfoldable pub is_hidden : Text → Bool
is_hidden name = get_or name 0 0 == b'.'

-- What a function with an int result does to its state: 0, a negative number, or an access behind a
-- buffer.
pub data Outcome (A : Type 0) : Type 0 where
  done : A → Outcome A
  failed : A → Outcome A
  undefined : Outcome A

-- A loop over the names of a directory that are not hidden; it ends where the body returns an error.
unfoldable pub each : {A : Type 0} → (Text → A → Outcome A) → List Text → A → Outcome A
each body [] s = done s
each body (p ∷ ps) s = elim (is_hidden p) [
  | true ↦ each body ps s
  | false ↦ elim (body p s) [
    | done s' ↦ each body ps s'
    | failed s' ↦ failed s'
    | undefined ↦ undefined
  ]
]

-- The loop over a directory that may be missing.
unfoldable pub each_in : {A : Type 0} → FileSystem → (Text → A → Outcome A) → Text → A → Outcome A
each_in fs body dir s = elim (fs.names dir) [ none ↦ failed s | some ps ↦ each body ps s ]

pub Outcome-cases :
    {A : Type 0} (o : Outcome A)
    → ((a : A) × (o ≡ done a)) ⊎ (((a : A) × (o ≡ failed a)) ⊎ (o ≡ undefined))
Outcome-cases (done a) = inl (a, refl)
Outcome-cases (failed a) = inr (inl (a, refl))
Outcome-cases undefined = inr (inr refl)
