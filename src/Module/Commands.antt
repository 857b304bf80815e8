-- ===== src/Module/Commands.antt =====
-- A module that is loaded and unloaded again leaves the list as it was.
use fms.Base.{◌≡◌, true, false, some, length}
use fms.Text.{Text, codes, strncmp_eq, contains}
use fms.Module.{Module, behind_slash}

-- The file is a shared object.
abbrev pub IsObject : Module → Type 0
IsObject m = contains (codes ".so") m.mod_name ≡ true

-- The path of the module has a slash, and the name behind it is not the first part of the other one.
abbrev pub Differs : Text → Module → Type 0
Differs tmp m =
    (file : Text) × (behind_slash m.mod_name ≡ some file)
    × (strncmp_eq (length file) file tmp ≡ false)
