-- ===== src/Module.antt =====
-- The modules of the daemon: evt_modules/evtlib/fmd_module.c, the configuration files that
-- evt_agent.c and evt_src.c of evt_modules/evtlib read, and the commands of
-- evt_modules/evtsrc/adm/evtsrc.adm.c that load, unload and configure a module.
pub mod Timer
pub mod Commands
use fms.Base.{
  ℕ, zero, suc, ◌+◌, ◌-◌, ◌/◌, Bool, true, false, not, Option, none, some, List, [], ◌∷◌, ◌++◌,
  if◌then◌else◌, length, take,
}
use fms.Text.{Text, codes, str_eq, strncmp_eq, has_prefix, strrchr, contains, atoi}
use fms.Agent.Conf.{update_conf}

-- `fmd_module_t`: its path in `mod_name`.
pub record Module : Type 0 where
  pub mod_name : Text
  pub mod_vers : ℕ
  pub mod_interval : ℕ
  pub list_eclass : List Text

-- The text behind the first `n` bytes.
unfoldable pub skip_bytes : ℕ → Text → Text
skip_bytes zero s = s
skip_bytes (suc n) [] = []
skip_bytes (suc n) (c ∷ s) = skip_bytes n s

-- `src_module_conf` on the lines that fgets returns: the interval, a 32-bit word.
unfoldable pub src_module_conf : List Text → Option ℕ
src_module_conf [] = none
src_module_conf (buf ∷ rest) = elim (has_prefix (codes "interval ") buf) [
  | true ↦ some (atoi (skip_bytes 9 buf))
  | false ↦ src_module_conf rest
]

-- A line without its last byte.
unfoldable pub chomp : Text → Text
chomp [] = []
chomp (c ∷ []) = []
chomp (c ∷ d ∷ s) = c ∷ chomp (d ∷ s)

-- The loop of `agent_module_conf`, with `conf_add_sub`: the subscriptions, the last one first.
unfoldable pub agent_module_conf : List Text → List Text → List Text
agent_module_conf [] list_eclass = list_eclass
agent_module_conf (buf ∷ rest) list_eclass = agent_module_conf rest (
    if has_prefix (codes "subscribe ") buf
    then skip_bytes 10 (chomp buf) ∷ list_eclass
    else list_eclass)

-- `fmd_get_module_by_name`
unfoldable pub fmd_get_module_by_name : Text → List Module → Option Module
fmd_get_module_by_name name [] = none
fmd_get_module_by_name name (m ∷ ms) = elim (contains name m.mod_name) [
  | true ↦ some m
  | false ↦ fmd_get_module_by_name name ms
]

-- `fmd_init_module`; `init` is what the module's own `fmd_module_init` makes of the path.
unfoldable pub fmd_init_module : (Text → Option Module) → Text → List Module → Option (List Module)
fmd_init_module init path ms = elim (init path) [ none ↦ none | some m ↦ some (m ∷ ms) ]

-- `check_mod_load` returns 0.
unfoldable pub check_mod_load : Text → List Module → Bool
check_mod_load path [] = true
check_mod_load path (m ∷ ms) = elim (str_eq m.mod_name path) [
  | true ↦ false
  | false ↦ check_mod_load path ms
]

-- The last loop of `evt_load_module`.
unfoldable pub rename_modules : List Module → List Module
rename_modules [] = []
rename_modules (m ∷ ms) =
    (if contains (codes ".so") m.mod_name
      then m
      else record m { mod_name = codes "/usr/lib/fms/plugins/adm_src.so" })
    ∷ rename_modules ms

-- `evt_load_module`: the modules afterwards, `none` for -1.
unfoldable pub evt_load_module : (Text → Option Module) → Text → List Module → Option (List Module)
evt_load_module init path ms = elim (check_mod_load path ms) [
  | false ↦ none
  | true ↦ elim (fmd_init_module init path ms) [
    | none ↦ none
    | some loaded ↦ some (rename_modules loaded)
  ]
]

-- What stands behind the last slash, `none` without one.
unfoldable pub behind_slash : Text → Option Text
behind_slash path = elim (strrchr path b'/') [ some (c ∷ s) ↦ some s | _ ↦ none ]

unfoldable pub file_name : Text → Text
file_name path = elim (behind_slash path) [ none ↦ path | some s ↦ s ]

-- The loop of `evt_unload_module`, where `free_module` takes a module out: `ret` is 0, and the
-- modules that stay. `none` is a module whose name has no slash.
unfoldable pub unload_loop : Text → List Module → Option (Bool × List Module)
unload_loop tmp [] = some (false, [])
unload_loop tmp (m ∷ ms) = elim (behind_slash m.mod_name) [
  | none ↦ none
  | some tmpmodule ↦ elim (unload_loop tmp ms) [
    | none ↦ none
    | some (found, rest) ↦
        if strncmp_eq (length tmpmodule) tmpmodule tmp
        then some (true, rest)
        else some (found, m ∷ rest)
  ]
]

unfoldable pub evt_unload_module : Text → List Module → Option (Bool × List Module)
evt_unload_module path ms = unload_loop (file_name path) ms

-- The text in front of the last dot, with the rest of the name of the configuration file.
unfoldable pub mod_conf_name : Text → Option Text
mod_conf_name path = elim (strrchr path b'.') [
  | none ↦ none
  | some s ↦ some (take (length path - length s) path ++ codes "_mod.conf")
]

-- `agent_module_update_conf` without a path, for files that hold the text `read`: the name of the
-- file, the mode and the new text, `none` for -1 or a module whose name has no dot.
unfoldable pub agent_module_update_conf :
    (Text → Text) → List Module → Text → Text → Text → Option (Text × ℕ × Text)
agent_module_update_conf read ms mod_name direct value =
    if not (contains (codes "agent") mod_name)
    then none
    else elim (fmd_get_module_by_name mod_name ms) [
      | none ↦ none
      | some m ↦ elim (mod_conf_name m.mod_name) [
        | none ↦ none
        | some name ↦ elim (update_conf direct value (read name)) [
          | none ↦ none
          | some (mode, file) ↦ some (name, mode, file)
        ]
      ]
    ]
