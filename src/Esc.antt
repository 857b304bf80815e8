-- ===== src/Esc.antt =====
-- lib/libesc/esc_main.c and include/fmd_esc.h: the .esc files, which say which event classes are
-- faults and which are counted by a SERD engine.
pub mod Engine
use fms.Base.{
  ℕ, zero, suc, ◌-◌, ◌*◌, ◌%◌, ◌^◌, Bool, Option, none, some, List, [], ◌∷◌, length, take, ltb, leb,
  if◌then◌else◌,
}
use fms.Text.{Text, codes, has_prefix, strchr, strrchr, atoi}

-- CLASS_PATH, and the size of the buffers for a class
abbrev pub class_path : ℕ
class_path = 64

-- `fmd_serd_type_t`
pub record Serd : Type 0 where
  pub eclass : Text
  pub n : ℕ
  pub t : ℕ

-- `fmd_esc_t`: `list_add` puts the newest entry first.
pub record Esc : Type 0 where
  pub list_event : List Text
  pub list_serd : List Serd
  pub list_fault : List Text

-- A text fits a buffer of `class_path` bytes with its closing NUL.
abbrev pub fits : Text → Bool
fits s = ltb (length s) class_path

-- In these functions `none` is undefined behaviour: a write past a buffer, or the use of a NULL
-- that a search returned, or an int that overflows.
unfoldable pub esc_build_event : Esc → Text → Option Esc
esc_build_event e eclass =
    if fits eclass then some (record e { list_event = eclass ∷ e.list_event }) else none

unfoldable pub esc_build_fault : Esc → Text → Option Esc
esc_build_fault e eclass =
    if fits eclass then some (record e { list_fault = eclass ∷ e.list_fault }) else none

-- The byte behind a search result, `none` if it found nothing.
abbrev pub behind : Option Text → Option Text
behind none = none
behind (some []) = none
behind (some (c ∷ s)) = some s

infixl 5 ◌>>=◌
abbrev pub ◌>>=◌ {ℓ κ} : {A : Type ℓ} {B : Type κ} → Option A → (A → Option B) → Option B
none >>= f = none
some a >>= f = f a

-- The class is what stands before the space in front of the brace; `p - eclass - 1` must not fall
-- below 0.
unfoldable pub engine_class : Text → Text → Option Text
engine_class eclass brace = elim (length eclass - length brace) [
  | zero ↦ none
  | suc n ↦ some (take n eclass)
]

-- `hours * 60 * 60` as an int, from the bit pattern of the int `hours`: `none` if it overflows.
unfoldable pub seconds : ℕ → Option ℕ
seconds hours =
    if ltb hours (2 ^ 31)
    then (if ltb (hours * 3600) (2 ^ 31) then some (hours * 60 * 60) else none)
    else if leb ((2 ^ 32 - hours) * 3600) (2 ^ 31)
    then some (hours * 60 * 60 % 2 ^ 32)
    else none

unfoldable pub esc_build_engine : Esc → Text → Option Esc
unfolding engine_class
esc_build_engine e eclass = do
  first ← behind (strchr eclass b'=')
  last ← behind (strrchr eclass b'=')
  brace ← strchr eclass b'{'
  name ← engine_class eclass brace
  t ← seconds (atoi last)
  if fits eclass
      then some
          (record e { list_serd = (record { eclass = name; n = atoi first; t = t }) ∷ e.list_serd })
      else none

-- The rest of a text behind its first bytes.
abbrev pub skip : ℕ → Text → Text
skip zero s = s
skip (suc n) [] = []
skip (suc n) (c ∷ s) = skip n s

-- `buf[strlen(buf) - 1] = 0` on what `fgets` returned, which is never empty.
abbrev pub chop : Text → Text
chop s = take (length s - 1) s

-- One round of the loop of `esc_parsefile`, on one line as `fgets` returns it.
unfoldable pub esc_line : Esc → Text → Option Esc
esc_line e buf =
    let line = chop buf in
    if has_prefix (codes "event ") line
    then esc_build_event e (skip 6 line)
    else if has_prefix (codes "engine ") line
    then esc_build_engine e (skip 7 line)
    else if has_prefix (codes "fault ") line
    then esc_build_fault e (skip 6 line)
    else some e

-- `esc_parsefile` on the lines that `fgets` returns.
unfoldable pub esc_parsefile : Esc → List Text → Option Esc
esc_parsefile e [] = some e
esc_parsefile e (buf ∷ rest) = esc_line e buf >>= λ e'. esc_parsefile e' rest
