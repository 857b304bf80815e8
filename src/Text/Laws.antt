-- ===== src/Text/Laws.antt =====
-- What the string functions decide.
use fms.Base.{
  ◌<◌, ℕ, ◌+◌, ◌-◌, ◌*◌, ◌^◌, ◌≤◌, ◌≡◌, refl, ◌≢◌, ◌↔◌, inl, inr, true, false, none, some, [], ◌∷◌,
  ◌++◌, arith, Bool-cases, length, All,
}
use fms.Text.Defs.{
  is_space, is_digit, digits_from, clamp, signed_from, atoi, Text, str_eq, has_prefix, strncmp_eq,
  strchr, strrchr,
}

str_eq→eq : (a b : Text) → str_eq a b ≡ true → a ≡ b
unfolding str_eq
str_eq→eq [] [] h = refl
str_eq→eq [] (y ∷ b) h = cc
str_eq→eq (x ∷ a) [] h = cc
str_eq→eq (x ∷ a) (y ∷ b) h = ground (arith, str_eq→eq a b)

pub str_eq_refl : (a : Text) → str_eq a a ≡ true
unfolding str_eq
str_eq_refl [] = refl
str_eq_refl (x ∷ a) = ground (arith, str_eq_refl a)

-- strcmp gives 0 exactly on equal texts.
pub str_eq_iff : (a b : Text) → (str_eq a b ≡ true) ↔ (a ≡ b)
str_eq_iff a b = (str_eq→eq a b, λ e. ground (arith, str_eq_refl a))

pub has_prefix-append : (p s : Text) → has_prefix p (p ++ s) ≡ true
unfolding has_prefix
has_prefix-append [] s = refl
has_prefix-append (x ∷ p) s = ground (arith, has_prefix-append p s)

-- The comparison stops before what follows the first `length p` bytes.
pub strncmp_eq-append : (p r s : Text) → strncmp_eq (length p) s (p ++ r) ≡ has_prefix p s
unfolding strncmp_eq has_prefix
strncmp_eq-append [] r s = refl
strncmp_eq-append (x ∷ p) r [] = refl
strncmp_eq-append (x ∷ p) r (y ∷ s) = ground (arith, strncmp_eq-append p r s)

-- No byte of the text is `c`.
abbrev pub Lacks : ℕ → Text → Type 0
Lacks c = All (λ x. x ≢ c)

pub strchr_lem : (p s : Text) (c : ℕ) → Lacks c p → strchr (p ++ c ∷ s) c ≡ some (c ∷ s)
unfolding strchr
strchr_lem [] s c h = ground arith
strchr_lem (x ∷ p) s c h = ground (arith, strchr_lem p s c h.1)

pub strrchr-none : (s : Text) (c : ℕ) → Lacks c s → strrchr s c ≡ none
unfolding strrchr
strrchr-none [] c h = refl
strrchr-none (x ∷ s) c h = ground (arith, strrchr-none s c h.1)

pub strrchr_lem : (p s : Text) (c : ℕ) → Lacks c s → strrchr (p ++ c ∷ s) c ≡ some (c ∷ s)
unfolding strrchr
strrchr_lem [] s c h = ground (arith, strrchr-none s c h)
strrchr_lem (x ∷ p) s c h = ground (arith, strrchr_lem p s c h)

pub str_eq_ne : (a b : Text) → a ≢ b → str_eq a b ≡ false
str_eq_ne a b n = elim (Bool-cases (str_eq a b)) [
  | inl h ↦ absurd (n (str_eq→eq a b h))
  | inr h ↦ h
]

-- A search from the end does not look past what it finds.
pub strrchr-append : (p s t : Text) (c : ℕ) → strrchr s c ≡ some t → strrchr (p ++ s) c ≡ some t
unfolding strrchr
strrchr-append [] s t c h = h
strrchr-append (x ∷ p) s t c h = ground (arith, strrchr-append p s t c h)

-- The byte is a decimal digit.
abbrev pub IsDigit : ℕ → Type 0
IsDigit c = (b'0' ≤ c) × (c ≤ b'9')

-- The number that decimal digits stand for, behind a number read before.
abbrev pub decimal : ℕ → Text → ℕ
decimal acc [] = acc
decimal acc (c ∷ s) = decimal (acc * 10 + (c - b'0')) s

digits_from-append :
    (acc : ℕ) (n rest : Text) (x : ℕ)
    → All IsDigit n
    → is_digit x ≡ false
    → digits_from acc (n ++ x ∷ rest) ≡ decimal acc n
unfolding digits_from
digits_from-append acc [] rest x h k = rw (digits_from, k) refl
digits_from-append acc (c ∷ n) rest x h k =
    let digit : is_digit c ≡ true = unfold is_digit in ground arith in
    rw (digits_from, digit) (digits_from-append (acc * 10 + (c - b'0')) n rest x h.1 k)

-- `atoi` reads the digits up to the first byte that is none, if their number is an int.
pub atoi-append :
    (c : ℕ) (n rest : Text) (x : ℕ)
    → All IsDigit (c ∷ n)
    → ¬ IsDigit x
    → decimal 0 (c ∷ n) < 2 ^ 31
    → atoi (c ∷ n ++ x ∷ rest) ≡ decimal 0 (c ∷ n)
unfolding atoi signed_from clamp is_space
atoi-append c n rest x h k small =
    let stop : is_digit x ≡ false = unfold is_digit in ground arith in
    let all = digits_from-append 0 (c ∷ n) rest x h stop in ground (arith, all)
