-- ===== src/Agent/Cpumem/CpuMap.antt =====
-- evt_modules/evtagent/cpumem/cache.c: cpumap_len and parse_cpumap on the text of a file
-- shared_cpu_map, and the loop over the bits of the mask in evt_process.c.
pub mod RoundTrip
use fms.Base.{
  ℕ, zero, suc, ◌+◌, ◌-◌, ◌*◌, ◌/◌, ◌%◌, ◌^◌, Bool, true, false, ◌&&◌, ◌||◌, Option, none, some,
  List, [], ◌∷◌, map, leb, ◌==◌, if◌then◌else◌, length, get_or, bit,
}
use fms.Text.{Text, is_space, is_digit, skip_while}

abbrev pub comma : ℕ
comma = 44

-- isxdigit
unfoldable pub is_xdigit : ℕ → Bool
is_xdigit c = is_digit c || (leb 65 c && leb c 70) || (leb 97 c && leb c 102)

-- The value of a hexadecimal digit.
unfoldable pub xdigit : ℕ → ℕ
xdigit c = if is_digit c then c - 48 else if leb c 70 then c - 55 else c - 87

unfoldable pub hex_from : ℕ → Text → ℕ
hex_from acc [] = acc
hex_from acc (c ∷ s) = elim (is_xdigit c) [ true ↦ hex_from (acc * 16 + xdigit c) s | false ↦ acc ]

-- The digits as strtoul reads them: ULONG_MAX where they do not fit.
unfoldable pub ulong_of : Text → ℕ
ulong_of s = if leb (2 ^ 64) (hex_from 0 s) then 2 ^ 64 - 1 else hex_from 0 s

-- A prefix 0x is read only in front of a digit.
unfoldable pub unprefixed : Text → Text
unprefixed (z ∷ x ∷ c ∷ s) =
    if z == b'0' && (x == b'x' || x == b'X') && is_xdigit c then c ∷ s else z ∷ x ∷ c ∷ s
unprefixed s = s

unfoldable pub signed_ulong : Text → ℕ
signed_ulong [] = 0
signed_ulong (c ∷ s) =
    if c == b'-'
    then (2 ^ 64 - ulong_of (unprefixed s)) % 2 ^ 64
    else if c == b'+'
    then ulong_of (unprefixed s)
    else ulong_of (unprefixed (c ∷ s))

-- (unsigned)strtoul(s, NULL, 16)
unfoldable pub strtoul16 : Text → ℕ
strtoul16 s = signed_ulong (skip_while is_space s) % 2 ^ 32

-- round_up(width * 4, BITS_PER_INT) / 8
unfoldable pub field_bytes : ℕ → ℕ
field_bytes width = (width * 4 % 2 ^ 32 + 31) / 32 * 32 / 8

-- `cpumap_len` from a text on, which takes its end for a separator too; `width` digits were read.
unfoldable pub len_from : ℕ → Text → ℕ
len_from width [] = field_bytes width
len_from width (c ∷ s) =
    let more = len_from (width + 1) s in
    let next = len_from 0 s in if is_xdigit c then more else field_bytes width + next

unfoldable pub cpumap_len : Text → ℕ
cpumap_len s = len_from 0 s % 2 ^ 32

-- memrchr(map, ',', n): the place of the last comma among the first `n` bytes.
unfoldable pub memrchr : Text → ℕ → Option ℕ
memrchr [] n = none
memrchr (c ∷ s) zero = none
memrchr (c ∷ s) (suc n) = elim (memrchr s n) [
  | some i ↦ some (suc i)
  | none ↦ if c == comma then some 0 else none
]

-- The text from a place on.
unfoldable pub text_from : Text → ℕ → Text
text_from s zero = s
text_from [] (suc n) = []
text_from (c ∷ s) (suc n) = text_from s n

-- The loop of `parse_cpumap` over the text in front of `n`, on fuel for its rounds: the words that
-- it writes into `buf`.
unfoldable pub parse_from : ℕ → Text → ℕ → List ℕ
parse_from zero map n = []
parse_from (suc fuel) map n = elim (memrchr map n) [
  | none ↦ strtoul16 map ∷ []
  | some i ↦ strtoul16 (text_from map (i + 1)) ∷ parse_from fuel map i
]

unfoldable pub parse_cpumap : Text → List ℕ
parse_cpumap map = parse_from (length map + 1) map (length map)

-- test_bit(i, cpumask)
unfoldable pub test_bit : ℕ → List ℕ → Bool
test_bit i words = bit (i % 32) (get_or words (i / 32) 0)

-- The processors that the loop of `cpu_offine_on_cache` takes, for `n` more bits from `i` on.
unfoldable pub set_bits : ℕ → ℕ → List ℕ → List ℕ
set_bits zero i words = []
set_bits (suc n) i words =
    let rest = set_bits n (i + 1) words in if test_bit i words then i ∷ rest else rest
