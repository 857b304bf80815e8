-- ===== src/Esc/Engine.antt =====
-- lib/libesc/esc_main.c: a line for an engine, read back.
use fms.Base.{
  ℕ, suc, ◌-◌, ◌*◌, ◌^◌, ◌<◌, ◌≡◌, refl, ap, true, some, [], ◌∷◌, ◌++◌, append_assoc, arith, length,
  take, length-append, All,
}
use fms.Text.{
  Text, codes, has_prefix, strchr, strrchr, atoi, Lacks, strchr_lem, strrchr_lem, strrchr-append,
  IsDigit, decimal, atoi-append,
}
use fms.Esc.{class_path, Esc, fits, engine_class, seconds, esc_build_engine, chop, esc_line}

take-append : (xs ys : Text) → take (length xs) (xs ++ ys) ≡ xs
take-append [] ys = refl
take-append (x ∷ xs) ys = ap (◌∷◌ x) (take-append xs ys)

chop-append : (xs : Text) (x : ℕ) → chop (xs ++ x ∷ []) ≡ xs
chop-append xs x =
    let size : length (xs ++ x ∷ []) - 1 ≡ length xs = omega (arith, length-append xs (x ∷ [])) in
    rw size (take-append xs (x ∷ []))

engine_class-append : (c brace : Text) → engine_class (c ++ 32 ∷ brace) brace ≡ some c
unfolding engine_class
engine_class-append c brace =
    let size : length (c ++ 32 ∷ brace) - length brace ≡ suc (length c) =
      omega (arith, length-append c (32 ∷ brace)) in
    rw (size, engine_class) (ap some (take-append c (32 ∷ brace)))

-- What stands behind the brace of an engine: N and T in hours.
abbrev pub engine_tail : Text → Text → Text
engine_tail n t = codes "{N=" ++ (n ++ (codes ", T=" ++ (t ++ codes "}")))

Lacks-append : (k : ℕ) (xs ys : Text) → Lacks k xs → Lacks k ys → Lacks k (xs ++ ys)
Lacks-append k [] ys h l = l
Lacks-append k (x ∷ xs) ys h l = (h.0, Lacks-append k xs ys h.1 l)

-- Where the searches in the text of an engine stop.
first_eq :
    (c rest : Text)
    → Lacks b'=' c
    → strchr (c ++ (codes " {N" ++ b'=' ∷ rest)) b'=' ≡ some (b'=' ∷ rest)
first_eq c rest h =
    rw (← append_assoc c (codes " {N") (b'=' ∷ rest))
      (strchr_lem (c ++ codes " {N") rest b'=' (Lacks-append b'=' c (codes " {N") h (ground arith)))

first_brace :
    (c rest : Text) → Lacks b'{' c → strchr (c ++ 32 ∷ b'{' ∷ rest) b'{' ≡ some (b'{' ∷ rest)
first_brace c rest h =
    rw (← append_assoc c (32 ∷ []) (b'{' ∷ rest))
      (strchr_lem (c ++ 32 ∷ []) rest b'{' (Lacks-append b'{' c (32 ∷ []) h (ground arith)))

last_eq :
    (c n t : Text)
    → Lacks b'=' t
    → strrchr (c ++ 32 ∷ engine_tail n t) b'=' ≡ some (b'=' ∷ (t ++ codes "}"))
last_eq c n t h =
    let found = b'=' ∷ (t ++ codes "}") in
    let behind_n : strrchr (codes ", T=" ++ (t ++ codes "}")) b'=' ≡ some found =
      strrchr_lem (codes ", T") (t ++ codes "}") b'='
        (Lacks-append b'=' t (codes "}") h (ground arith)) in
    let from_n = strrchr-append n (codes ", T=" ++ (t ++ codes "}")) found b'=' behind_n in
    let from_brace : strrchr (32 ∷ engine_tail n t) b'=' ≡ some found =
      strrchr-append (codes " {N=") (n ++ (codes ", T=" ++ (t ++ codes "}"))) found b'=' from_n in
    strrchr-append c (32 ∷ engine_tail n t) found b'=' from_brace

seconds_fit : (t : ℕ) → t * 3600 < 2 ^ 31 → seconds t ≡ some (t * 3600)
unfolding seconds
seconds_fit t h = ground (arith, h)

-- The engine that the searches give.
run_build :
    (e : Esc) (line first last brace name : Text) (x y n t : ℕ)
    → strchr line b'=' ≡ some (x ∷ first)
    → strrchr line b'=' ≡ some (y ∷ last)
    → strchr line b'{' ≡ some brace
    → engine_class line brace ≡ some name
    → fits line ≡ true
    → atoi first ≡ n
    → atoi last ≡ t
    → t * 3600 < 2 ^ 31
    → esc_build_engine e line
      ≡ some
          (record e { list_serd = (record { eclass = name; n = n; t = t * 3600 }) ∷ e.list_serd })
unfolding esc_build_engine
run_build e line first last brace name x y n t p q r c small pn pt fit =
    rw (p, q, r, c, small, pn, pt, seconds_fit t fit) refl

build :
    (e : Esc) (c : Text) (a b : ℕ) (n t : Text)
    → Lacks b'=' c
    → Lacks b'{' c
    → Lacks b'=' (b ∷ t)
    → All IsDigit (a ∷ n)
    → All IsDigit (b ∷ t)
    → length (c ++ 32 ∷ engine_tail (a ∷ n) (b ∷ t)) < class_path
    → decimal 0 (a ∷ n) < 2 ^ 31
    → decimal 0 (b ∷ t) * 3600 < 2 ^ 31
    → esc_build_engine e (c ++ 32 ∷ engine_tail (a ∷ n) (b ∷ t))
      ≡ some (record e {
        list_serd =
            (record { eclass = c; n = decimal 0 (a ∷ n); t = decimal 0 (b ∷ t) * 3600 })
            ∷ e.list_serd;
      })
build e c a b n t le lb lt dn dt small few_n few_t =
    let line = c ++ 32 ∷ engine_tail (a ∷ n) (b ∷ t) in
    let hours = (b ∷ t) ++ codes "}" in
    let count = (a ∷ n) ++ (codes ", T=" ++ hours) in
    let small_enough : fits line ≡ true = ground arith in
    run_build e line count hours (engine_tail (a ∷ n) (b ∷ t)) c b'=' b'=' (decimal 0 (a ∷ n))
      (decimal 0 (b ∷ t)) (first_eq c count le) (last_eq c (a ∷ n) (b ∷ t) lt)
      (first_brace c (codes "N=" ++ count) lb) (engine_class-append c (engine_tail (a ∷ n) (b ∷ t)))
      small_enough (atoi-append a n (codes " T=" ++ hours) b',' dn (λ d. omega (arith, d.0)) few_n)
      (atoi-append b t [] b'}' dt (λ d. omega (arith, d.1)) (omega (arith, few_t))) few_t

-- A line `engine CLASS {N=n, T=t}` with decimal numbers, that fits the buffers, adds an engine of
-- that class with the number n and the time of t hours in seconds, in front of the others: if n and
-- the seconds are below 2^31.
pub esc_line-engine :
    (e : Esc) (c : Text) (a b : ℕ) (n t : Text)
    → Lacks b'=' c
    → Lacks b'{' c
    → Lacks b'=' (b ∷ t)
    → All IsDigit (a ∷ n)
    → All IsDigit (b ∷ t)
    → length (c ++ 32 ∷ engine_tail (a ∷ n) (b ∷ t)) < class_path
    → decimal 0 (a ∷ n) < 2 ^ 31
    → decimal 0 (b ∷ t) * 3600 < 2 ^ 31
    → esc_line e (codes "engine " ++ ((c ++ 32 ∷ engine_tail (a ∷ n) (b ∷ t)) ++ 10 ∷ []))
      ≡ some (record e {
        list_serd =
            (record { eclass = c; n = decimal 0 (a ∷ n); t = decimal 0 (b ∷ t) * 3600 })
            ∷ e.list_serd;
      })
unfolding esc_line has_prefix
esc_line-engine e c a b n t le lb lt dn dt small few_n few_t =
    rw (chop-append (codes "engine " ++ (c ++ 32 ∷ engine_tail (a ∷ n) (b ∷ t))) 10)
      (build e c a b n t le lb lt dn dt small few_n few_t)
