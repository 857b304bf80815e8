-- ===== src/Text/Defs.antt =====
-- The string functions: each returns what the C function does on NUL-terminated text.
use Prim.Native.Char.{code}
use Prim.Native.String.{String}
use fms.Base.{
  ℕ, zero, suc, ◌+◌, ◌-◌, ◌*◌, ◌%◌, ◌^◌, Bool, true, false, ◌&&◌, ◌||◌, Option, none, some, List,
  [], ◌∷◌, leb, ◌==◌, if◌then◌else◌,
}

abbrev pub Text : Type 0
Text = List ℕ

-- The bytes of an ASCII literal.
abbrev pub codes : String → Text
codes String.[] = []
codes (String.◌∷◌ c s) = code c ∷ codes s

-- strcmp(a, b) == 0
unfoldable pub str_eq : Text → Text → Bool
str_eq [] [] = true
str_eq [] (y ∷ b) = false
str_eq (x ∷ a) [] = false
str_eq (x ∷ a) (y ∷ b) = x == y && str_eq a b

-- strncmp(p, s, strlen(p)) == 0
unfoldable pub has_prefix : Text → Text → Bool
has_prefix [] s = true
has_prefix (x ∷ p) [] = false
has_prefix (x ∷ p) (y ∷ s) = x == y && has_prefix p s

-- strncmp(a, b, n) == 0: at most `n` bytes are compared, and none past a common end.
unfoldable pub strncmp_eq : ℕ → Text → Text → Bool
strncmp_eq zero a b = true
strncmp_eq (suc n) [] [] = true
strncmp_eq (suc n) [] (y ∷ b) = false
strncmp_eq (suc n) (x ∷ a) [] = false
strncmp_eq (suc n) (x ∷ a) (y ∷ b) = x == y && strncmp_eq n a b

-- strchr(s, c): the text from the first `c` on, `none` for NULL.
unfoldable pub strchr : Text → ℕ → Option Text
strchr [] c = none
strchr (x ∷ s) c = if x == c then some (x ∷ s) else strchr s c

-- strrchr(s, c): the text from the last `c` on.
unfoldable pub strrchr : Text → ℕ → Option Text
strrchr [] c = none
strrchr (x ∷ s) c = elim (strrchr s c) [
  | some t ↦ some t
  | none ↦ if x == c then some (x ∷ s) else none
]

-- strstr(s, sub) != NULL
unfoldable pub contains : Text → Text → Bool
contains sub [] = has_prefix sub []
contains sub (c ∷ s) = has_prefix sub (c ∷ s) || contains sub s

-- s + strspn(s, set), for the set of bytes that pass the test.
unfoldable pub skip_while : (ℕ → Bool) → Text → Text
skip_while p [] = []
skip_while p (c ∷ s) = if p c then skip_while p s else c ∷ s

-- The first strcspn(s, set) bytes, for the set of bytes that pass the test.
unfoldable pub until : (ℕ → Bool) → Text → Text
until p [] = []
until p (c ∷ s) = if p c then [] else c ∷ until p s

-- What follows these bytes.
unfoldable pub after : (ℕ → Bool) → Text → Text
after p [] = []
after p (c ∷ s) = if p c then c ∷ s else after p s

unfoldable pub is_space : ℕ → Bool
is_space c = c == 32 || (leb 9 c && leb c 13)

unfoldable pub is_digit : ℕ → Bool
is_digit c = leb b'0' c && leb c b'9'

unfoldable pub digits_from : ℕ → Text → ℕ
unfolding is_digit
digits_from acc [] = acc
digits_from acc (c ∷ s) = elim (is_digit c) [
  | true ↦ digits_from (acc * 10 + (c - b'0')) s
  | false ↦ acc
]

-- strtol returns LONG_MAX for a greater number, and LONG_MIN for a lesser one.
unfoldable pub clamp : ℕ → ℕ → ℕ
clamp most n = if leb n most then n else most

-- After the white space: an optional sign, then digits. The result is the bit pattern that a
-- uint32_t holds after the assignment of (int)strtol(s, NULL, 10).
unfoldable pub signed_from : Text → ℕ
unfolding digits_from clamp
signed_from [] = 0
signed_from (c ∷ s) =
    if c == b'-'
    then (2 ^ 32 - clamp (2 ^ 63) (digits_from 0 s) % 2 ^ 32) % 2 ^ 32
    else if c == b'+'
    then clamp (2 ^ 63 - 1) (digits_from 0 s) % 2 ^ 32
    else clamp (2 ^ 63 - 1) (digits_from 0 (c ∷ s)) % 2 ^ 32

-- (uint32_t)atoi(s)
unfoldable pub atoi : Text → ℕ
unfolding is_space signed_from
atoi [] = 0
atoi (c ∷ s) = elim (is_space c) [ true ↦ atoi s | false ↦ signed_from (c ∷ s) ]
