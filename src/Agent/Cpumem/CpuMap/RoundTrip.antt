-- ===== src/Agent/Cpumem/CpuMap/RoundTrip.antt =====
-- A map of processors, written as the kernel writes it, is read back, into as many bytes as are
-- there for it.
use fms.Base.{
  ℕ, zero, suc, ◌+◌, ◌*◌, ◌^◌, ◌≤◌, ◌<◌, ◌≡◌, refl, ap, subst, true, false, none, some, List, [],
  ◌∷◌, ◌++◌, map, append_assoc, append-nil, arith, ◌==◌, length, length-append, All,
}
use native.Mathlib.Nat.{pow-succ', pow-le-pow_right}
use fms.Text.{Text, is_space, is_digit, skip_while}
use fms.Agent.Cpumem.CpuMap.{
  comma, is_xdigit, xdigit, hex_from, ulong_of, unprefixed, signed_ulong, strtoul16, field_bytes,
  len_from, cpumap_len, memrchr, text_from, parse_from, parse_cpumap,
}

-- One to eight hexadecimal digits.
abbrev pub IsWord : Text → Type 0
IsWord w = All (λ c. is_xdigit c ≡ true) w × (0 < length w) × (length w ≤ 8)

-- The words of a mask, the lowest first, in the form of the file: the lowest last.
unfoldable pub render : Text → List Text → Text
render w [] = w
render w (v ∷ vs) = render v vs ++ comma ∷ w

memrchr-none : (w s : Text) → All (λ c. is_xdigit c ≡ true) w → memrchr (w ++ s) (length w) ≡ none
unfolding memrchr is_xdigit is_digit
memrchr-none [] [] h = refl
memrchr-none [] (c ∷ s) h = refl
memrchr-none (x ∷ w) s h = ground (arith, memrchr-none w s)

memrchr-last :
    (p w s : Text)
    → All (λ c. is_xdigit c ≡ true) w
    → memrchr (p ++ comma ∷ w ++ s) (length (p ++ comma ∷ w)) ≡ some (length p)
unfolding memrchr
memrchr-last [] w s h = ground (arith, memrchr-none w s h)
memrchr-last (x ∷ p) w s h = ground (arith, memrchr-last p w s h)

text_from-behind : (p s : Text) (c : ℕ) → text_from (p ++ c ∷ s) (length p + 1) ≡ s
unfolding text_from
text_from-behind [] s c = unfold text_from in refl
text_from-behind (x ∷ p) s c = ground (arith, text_from-behind p s c)

-- Where the value of a word ends: at the end of the text or at a comma.
abbrev pub Ends : Text → Type 0
Ends [] = Unit
Ends (c ∷ s) = c ≡ comma

hex_from-append :
    (acc : ℕ) (w s : Text)
    → All (λ c. is_xdigit c ≡ true) w
    → Ends s
    → hex_from acc (w ++ s) ≡ hex_from acc w
unfolding hex_from
hex_from-append acc [] [] h e = refl
hex_from-append acc [] (c ∷ s) h e = unfold is_xdigit is_digit in ground arith
hex_from-append acc (x ∷ w) s h e = ground (arith, hex_from-append (acc * 16 + xdigit x) w s)

xdigit-lt : (c : ℕ) → is_xdigit c ≡ true → xdigit c < 16
unfolding is_xdigit xdigit is_digit
xdigit-lt c h = ground arith

pub hex_from-lt :
    (acc k : ℕ) (w : Text)
    → All (λ c. is_xdigit c ≡ true) w
    → acc < k
    → hex_from acc w < k * 16 ^ length w
unfolding hex_from
hex_from-lt acc k [] h e = omega arith
hex_from-lt acc k (x ∷ w) h e =
    let d = xdigit-lt x h.0 in
    let ih = hex_from-lt (acc * 16 + xdigit x) (k * 16) w h.1 (omega arith) in
    let q : 16 ^ suc (length w) ≡ 16 * 16 ^ length w = pow-succ' 16 (length w) in
    let p : k * 16 * 16 ^ length w ≡ k * (16 * 16 ^ length w) = grind arith in
    let r : k * 16 * 16 ^ length w ≡ k * 16 ^ suc (length w) = rw q p in ground (arith, h.0, ih, r)

pub unprefixed-word :
    (w s : Text) → All (λ c. is_xdigit c ≡ true) w → Ends s → unprefixed (w ++ s) ≡ w ++ s
unfolding unprefixed is_xdigit is_digit
unprefixed-word [] [] h e = refl
unprefixed-word [] (z ∷ []) h e = refl
unprefixed-word [] (z ∷ x ∷ []) h e = refl
unprefixed-word [] (z ∷ x ∷ c ∷ s) h e = ground arith
unprefixed-word (z ∷ []) [] h e = refl
unprefixed-word (z ∷ []) (x ∷ []) h e = refl
unprefixed-word (z ∷ []) (x ∷ c ∷ s) h e = ground arith
unprefixed-word (z ∷ x ∷ []) [] h e = refl
unprefixed-word (z ∷ x ∷ []) (c ∷ s) h e = ground arith
unprefixed-word (z ∷ x ∷ c ∷ w) s h e = ground arith

-- A word is read as its value.
pub strtoul16-word : (w s : Text) → IsWord w → Ends s → strtoul16 (w ++ s) ≡ hex_from 0 w
unfolding strtoul16 skip_while signed_ulong ulong_of
strtoul16-word [] s h e = absurd (omega arith)
strtoul16-word (x ∷ w) s h e =
    let lt = hex_from-lt 0 1 (x ∷ w) h.0 (omega arith) in
    let lt8 : hex_from 0 (x ∷ w) < 2 ^ 32 =
      omega (arith, lt, pow-le-pow_right {n = 16} (omega arith) {i = length (x ∷ w)} {j = 8} h.2) in
    let no_space : is_space x ≡ false =
      unfold is_xdigit is_digit is_space in ground (arith, h.0.0) in
    let no_minus : (x == b'-') ≡ false = unfold is_xdigit is_digit in ground (arith, h.0.0) in
    let no_plus : (x == b'+') ≡ false = unfold is_xdigit is_digit in ground (arith, h.0.0) in
    ground (
      arith,
      no_space,
      no_minus,
      no_plus,
      unprefixed-word (x ∷ w) s h.0 e,
      hex_from-append 0 (x ∷ w) s h.0 e,
      lt8,
    )

parse_from-render :
    (fuel : ℕ) (w : Text) (vs : List Text) (s : Text)
    → IsWord w
    → All IsWord vs
    → Ends s
    → length vs < fuel
    → parse_from fuel (render w vs ++ s) (length (render w vs)) ≡ map (hex_from 0) (w ∷ vs)
unfolding parse_from render
parse_from-render zero w vs s h hs e lt = absurd (omega arith)
parse_from-render (suc fuel) w [] s h hs e lt =
    ground (arith, memrchr-none w s h.0, strtoul16-word w s h e)
parse_from-render (suc fuel) w (v ∷ vs) s h hs e lt =
    let p = render v vs in
    let assoc : (p ++ comma ∷ w) ++ s ≡ p ++ (comma ∷ (w ++ s)) = append_assoc p (comma ∷ w) s in
    let ih = parse_from-render fuel v vs (comma ∷ (w ++ s)) hs.0 hs.1 refl (omega arith) in
    let word : text_from ((p ++ comma ∷ w) ++ s) (length p + 1) ≡ w ++ s =
      rw assoc (text_from-behind p (w ++ s) comma) in
    let rest : parse_from fuel ((p ++ comma ∷ w) ++ s) (length p) ≡ map (hex_from 0) (v ∷ vs) =
      rw assoc ih in
    ground (arith, memrchr-last p w s h.0, word, strtoul16-word w s h e, rest)

len_from-comma :
    (width : ℕ) (p q : Text) → len_from width (p ++ comma ∷ q) ≡ len_from width p + len_from 0 q
unfolding len_from is_xdigit is_digit
len_from-comma width [] q = refl
len_from-comma width (c ∷ p) q =
    ground (arith, len_from-comma (width + 1) p q, len_from-comma 0 p q)

len_from-word :
    (width : ℕ) (w : Text)
    → All (λ c. is_xdigit c ≡ true) w
    → len_from width w ≡ field_bytes (width + length w)
unfolding len_from
len_from-word width [] h = ap field_bytes (omega arith)
len_from-word width (c ∷ w) h = ground (arith, len_from-word (width + 1) w)

cpumap_len-render :
    (w : Text) (vs : List Text)
    → IsWord w
    → All IsWord vs
    → len_from 0 (render w vs) ≡ 4 * length (w ∷ vs)
unfolding render field_bytes
cpumap_len-render w [] h hs = omega (arith, len_from-word 0 w h.0, h.1, h.2)
cpumap_len-render w (v ∷ vs) h hs = omega (
  arith,
  len_from-comma 0 (render v vs) w,
  cpumap_len-render v vs hs.0 hs.1,
  len_from-word 0 w h.0,
  h.1,
  h.2,
)

length-render : (w : Text) (vs : List Text) → length vs ≤ length (render w vs)
unfolding render
length-render w [] = omega arith
length-render w (v ∷ vs) =
    omega (arith, length-render v vs, length-append (render v vs) (comma ∷ w))

pub length-map : (f : Text → ℕ) (l : List Text) → length (map f l) ≡ length l
length-map f [] = refl
length-map f (x ∷ l) = ap suc (length-map f l)

-- `parse_cpumap` reads the words of a mask back, the lowest first, and writes exactly the bytes
-- that `cpumap_len` counts: for words of one to eight hexadecimal digits, fewer than 2^30.
pub parse_cpumap-render :
    (w : Text) (vs : List Text)
    → IsWord w
    → All IsWord vs
    → length (w ∷ vs) < 2 ^ 30
    → (parse_cpumap (render w vs) ≡ map (hex_from 0) (w ∷ vs))
      × (cpumap_len (render w vs) ≡ 4 * length (parse_cpumap (render w vs)))
unfolding parse_cpumap cpumap_len
parse_cpumap-render w vs h hs lt =
    let fuel : length vs < length (render w vs) + 1 = omega (arith, length-render w vs) in
    let e : parse_cpumap (render w vs) ≡ map (hex_from 0) (w ∷ vs) =
      subst
        (λ s.
          parse_from (length (render w vs) + 1) s (length (render w vs))
          ≡ map (hex_from 0) (w ∷ vs))
        (append-nil (render w vs)) (parse_from-render _ w vs [] h hs tt fuel) in
    (e, omega (arith, cpumap_len-render w vs h hs, ap length e, length-map (hex_from 0) vs))
