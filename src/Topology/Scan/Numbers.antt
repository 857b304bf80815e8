-- ===== src/Topology/Scan/Numbers.antt =====
-- The names of devices in sysfs, such as 0000:02:1f.3, as lib/libtopo reads them.
use fms.Base.{
  ℕ, ◌-◌, ◌%◌, ◌^◌, min, Bool, true, false, ◌||◌, Option, none, some, List, [], ◌∷◌, map, leb, ◌==◌,
  if◌then◌else◌, length,
}
use fms.Text.{Text, is_space, skip_while}
use fms.Agent.Cpumem.CpuMap.{hex_from, unprefixed}

-- strtol(s, NULL, 16) as a 64-bit pattern.
unfoldable pub strtol_from : Text → ℕ
strtol_from [] = 0
strtol_from (c ∷ s) =
    if c == b'-'
    then 2 ^ 64 - min (hex_from 0 (unprefixed s)) (2 ^ 63)
    else if c == b'+'
    then min (hex_from 0 (unprefixed s)) (2 ^ 63 - 1)
    else min (hex_from 0 (unprefixed (c ∷ s))) (2 ^ 63 - 1)

unfoldable pub strtol16 : Text → ℕ
strtol16 s = strtol_from (skip_while is_space s) % 2 ^ 64

-- The tokens that strsep cuts a text into, at each byte that passes the test.
unfoldable pub tokens : (ℕ → Bool) → Text → List Text
tokens p [] = [] ∷ []
tokens p (c ∷ s) = elim (p c) [
  | true ↦ [] ∷ tokens p s
  | false ↦ elim (tokens p s) [ [] ↦ (c ∷ []) ∷ [] | ◌∷◌ t ts ↦ (c ∷ t) ∷ ts ]
]

unfoldable pub is_colon : ℕ → Bool
is_colon c = c == b':'

-- The delimiters ":."
unfoldable pub is_bus_delim : ℕ → Bool
is_bus_delim c = c == b':' || c == b'.'

-- The numbers of up to `n` tokens, `none` for a write behind the array of `n` numbers.
unfoldable pub numbers : (ℕ → Bool) → ℕ → Text → Option (List ℕ)
numbers p n s = if leb (length (tokens p s)) n then some (map strtol16 (tokens p s)) else none
