-- ===== src/Agent/Conf/RoundTrip.antt =====
-- evt_modules/evtlib/evt_agent.c: parse_config reads back what update_conf has written.
use fms.Base.{
  ◌-◌, ◌≤◌, ◌||◌, ◌==◌, append_assoc, length, All, ℕ, ◌≡◌, refl, sym, ap, ◌∙◌, ◌≢◌, ◌⊎◌, inl, inr,
  Bool, true, false, some, List, [], ◌∷◌, ◌++◌, arith, if◌then◌else◌, Bool-cases,
}
use fms.Text.{Text, codes, str_eq, str_eq_iff, skip_while, until, after, Lacks}
use fms.Agent.Conf.{
  is_white, is_delim, is_comment, key_evt_handle_mode, set_evt_handle_mode, get_directive, Parsed,
  parse_option, parse_directive, parse_line, parse_lines, parse_config, conf_line, is_updated,
  update_lines, written, joined, fgets_lines, maxline, update_conf,
}

-- The three modes that an option can name.
pub mode_cases :
    (value : Text) (m : ℕ)
    → set_evt_handle_mode value ≡ some m
    → ((value ≡ codes "manual") × (m ≡ 0))
      ⊎ ((value ≡ codes "auto") × (m ≡ 1))
      ⊎ ((value ≡ codes "define") × (m ≡ 2))
unfolding set_evt_handle_mode
mode_cases value m h = elim (Bool-cases (str_eq (codes "manual") value)) [
  | inl e ↦ inl (sym ((str_eq_iff (codes "manual") value).0 e), ground arith)
  | inr n ↦ elim (Bool-cases (str_eq (codes "auto") value)) [
    | inl e ↦ inr (inl (sym ((str_eq_iff (codes "auto") value).0 e), ground arith))
    | inr o ↦ elim (Bool-cases (str_eq (codes "define") value)) [
      | inl e ↦ inr (inr (sym ((str_eq_iff (codes "define") value).0 e), ground arith))
      | inr r ↦ absurd (ground arith)
    ]
  ]
]

-- Reading the line that was written for one of the three modes.
written_lines :
    (p : Parsed)
    → ((parse_line p (conf_line key_evt_handle_mode (codes "manual"))).mode ≡ 0)
      × ((parse_line p (conf_line key_evt_handle_mode (codes "auto"))).mode ≡ 1)
      × ((parse_line p (conf_line key_evt_handle_mode (codes "define"))).mode ≡ 2)
unfolding parse_line conf_line is_delim is_comment set_evt_handle_mode str_eq skip_while until after
written_lines p = (refl, refl, refl)

parse-conf_line :
    (p : Parsed) (value : Text) (m : ℕ)
    → set_evt_handle_mode value ≡ some m
    → (parse_line p (conf_line key_evt_handle_mode value)).mode ≡ m
parse-conf_line p value m h = elim (mode_cases value m h) [
  | inl (v, e) ↦ rw (v, e) (written_lines p).0
  | inr (inl (v, e)) ↦ rw (v, e) (written_lines p).1
  | inr (inr (v, e)) ↦ rw (v, e) (written_lines p).2
]

if_same : (b : Bool) (m : ℕ) → (if b then m else m) ≡ m
if_same true m = refl
if_same false m = refl

-- If the comment cuts the first word short, nothing is left behind it.
after-cut :
    (t : Text)
    → until is_white (until is_comment t) ≢ until is_white t
    → after is_white (until is_comment t) ≡ []
unfolding until after
after-cut [] n = absurd (n refl)
after-cut (c ∷ s) n = elim (Bool-cases (is_comment c)) [
  | inl h ↦ rw h
  | inr h ↦ elim (Bool-cases (is_white c)) [
    | inl w ↦ absurd (n (rw (h, until, w)))
    | inr w ↦ rw (h, w) (after-cut s (λ e. n (rw (h, w) (ap (◌∷◌ c) e))))
  ]
]

-- A line that is not the directive's leaves the mode alone.

pub parse_option_none : (p : Parsed) → parse_option p [] ≡ p
unfolding parse_option skip_while
parse_option_none p = refl

until-comment_cons :
    (c : ℕ) (s : Text) → is_comment c ≡ false → until is_comment (c ∷ s) ≡ c ∷ until is_comment s
unfolding until
until-comment_cons c s h = rw h

parse_directive_cons :
    (p : Parsed) (c : ℕ) (s : Text)
    → (get_directive (until is_white (c ∷ s)) ≡ true → after is_white (c ∷ s) ≡ [])
    → (parse_directive p (c ∷ s)).mode ≡ p.mode
unfolding parse_directive
parse_directive_cons p c s h = elim (Bool-cases (get_directive (until is_white (c ∷ s)))) [
  | inl d ↦ rw (d, h d) (ap (λ (r : Parsed). r.mode) (parse_option_none p))
  | inr d ↦ rw d
]

parse_directive_other :
    (p : Parsed) (c : ℕ) (s : Text)
    → is_comment c ≡ false
    → str_eq (until is_white (c ∷ s)) key_evt_handle_mode ≡ false
    → (parse_directive p (until is_comment (c ∷ s))).mode ≡ p.mode
unfolding get_directive
parse_directive_other p c s h n =
    let e = until-comment_cons c s h in
    rw e (
      parse_directive_cons p c (until is_comment s) (λ d. rw (← e) (
        after-cut (c ∷ s) (λ same. cc (
          d,
          n,
          ap (λ t. str_eq t key_evt_handle_mode) same,
          ap (λ (t : Text). str_eq (until is_white t) key_evt_handle_mode) e,
        )))))

parse_directive_comment :
    (p : Parsed) (c : ℕ) (s : Text)
    → is_comment c ≡ true
    → parse_directive p (until is_comment (c ∷ s)) ≡ p
unfolding parse_directive until
parse_directive_comment p c s h = rw h

parse_directive_nil : (p : Parsed) → parse_directive p (until is_comment []) ≡ p
unfolding parse_directive until
parse_directive_nil p = refl

is_updated_cons :
    (direct buf : Text) (c : ℕ) (s : Text)
    → skip_while is_white buf ≡ c ∷ s
    → is_comment c ≡ false
    → is_updated direct buf ≡ str_eq (until is_white (c ∷ s)) direct
unfolding is_updated
is_updated_cons direct buf c s e h = rw (e, is_updated, h)

parse_line_other :
    (p : Parsed) (buf : Text)
    → is_updated key_evt_handle_mode buf ≡ false
    → (parse_line p buf).mode ≡ p.mode
unfolding parse_line
parse_line_other p buf n = step (skip_while is_white buf) refl
  where
    step : (t : Text) → skip_while is_white buf ≡ t → (parse_line p buf).mode ≡ p.mode
    step [] e = rw e (ap (λ (r : Parsed). r.mode) (parse_directive_nil p))
    step (c ∷ s) e = elim (Bool-cases (is_comment c)) [
      | inl h ↦ rw e (ap (λ (r : Parsed). r.mode) (parse_directive_comment p c s h))
      | inr h ↦ rw e (
          parse_directive_other p c s h (sym (is_updated_cons key_evt_handle_mode buf c s e h) ∙ n))
    ]

parse_lines-append :
    (p : Parsed) (xs ys : List Text) → parse_lines p (xs ++ ys) ≡ parse_lines (parse_lines p xs) ys
unfolding parse_lines
parse_lines-append p [] ys = refl
parse_lines-append p (x ∷ xs) ys = parse_lines-append (parse_line p x) xs ys

-- The lines that `update_conf` writes set the mode if the directive was among them, and leave it
-- alone otherwise.
update_lines_mode :
    (p : Parsed) (value : Text) (m : ℕ) (file : List Text)
    → set_evt_handle_mode value ≡ some m
    → let (out, found) = update_lines key_evt_handle_mode value file in
      (parse_lines p out).mode ≡ (if found then m else p.mode)
unfolding update_lines parse_lines
update_lines_mode p value m [] h = refl
update_lines_mode p value m (buf ∷ rest) h =
    elim (Bool-cases (is_updated key_evt_handle_mode buf)) [
      | inl u ↦
          let q = parse_line p (conf_line key_evt_handle_mode value) in
          rw u (
            update_lines_mode q value m rest h
            ∙ rw (parse-conf_line p value m h)
                (if_same (update_lines key_evt_handle_mode value rest).1 m))
      | inr n ↦
          rw n (update_lines_mode (parse_line p buf) value m rest h ∙ rw (parse_line_other p buf n))
    ]

-- The lines that are written give the mode when they are read.
written_mode :
    (p : Parsed) (value : Text) (m : ℕ) (lines : List Text)
    → set_evt_handle_mode value ≡ some m
    → (parse_lines p (written key_evt_handle_mode value lines)).mode ≡ m
unfolding written parse_lines
written_mode p value m lines h =
    let r = update_lines key_evt_handle_mode value lines in
    elim (Bool-cases r.1) [
      | inl among ↦ rw among (update_lines_mode p value m lines h ∙ rw among)
      | inr missing ↦
          rw (missing, parse_lines-append p r.0 (conf_line key_evt_handle_mode value ∷ []))
            (parse-conf_line (parse_lines p r.0) value m h)
    ]

-- A line that ends in a newline and that one call of `fgets` reads.
abbrev pub IsLine : Text → Type 0
IsLine l = (s : Text) × (l ≡ s ++ 10 ∷ []) × Lacks 10 s × (length s ≤ maxline - 2)

fgets_lines-line :
    (room : ℕ) (s rest : Text)
    → Lacks 10 s
    → length s ≤ room
    → fgets_lines room (s ++ 10 ∷ rest) ≡ (s ++ 10 ∷ []) ∷ fgets_lines (maxline - 2) rest
unfolding fgets_lines
fgets_lines-line room [] rest h l = refl
fgets_lines-line room (c ∷ s) rest h l =
    let more : c == 10 || room == 0 ≡ false = ground (arith, h.0, l) in
    let less : length s ≤ room - 1 = omega (arith, l) in
    rw (more, fgets_lines, fgets_lines-line (room - 1) s rest h.1 less) refl

fgets_lines-joined : (ls : List Text) → All IsLine ls → fgets_lines (maxline - 2) (joined ls) ≡ ls
fgets_lines-joined [] h = unfold fgets_lines in refl
fgets_lines-joined (l ∷ ls) ((s, e, lacks, short), h) =
    rw (e, append_assoc s (10 ∷ []) (joined ls))
      (fgets_lines-line (maxline - 2) s (joined ls) lacks short
        ∙ ap (◌∷◌ (s ++ 10 ∷ [])) (fgets_lines-joined ls h))

conf_line-IsLine :
    (value : Text) (m : ℕ)
    → set_evt_handle_mode value ≡ some m
    → IsLine (conf_line key_evt_handle_mode value)
unfolding conf_line
conf_line-IsLine value m h = elim (mode_cases value m h) [
  | inl (v, e) ↦ rw v (codes "event_handle_mode manual", refl, ground arith, omega arith)
  | inr (inl (v, e)) ↦ rw v (codes "event_handle_mode auto", refl, ground arith, omega arith)
  | inr (inr (v, e)) ↦ rw v (codes "event_handle_mode define", refl, ground arith, omega arith)
]

update_lines-IsLine :
    (value : Text) (lines : List Text)
    → IsLine (conf_line key_evt_handle_mode value)
    → All IsLine lines
    → All IsLine (update_lines key_evt_handle_mode value lines).0
unfolding update_lines
update_lines-IsLine value [] c h = tt
update_lines-IsLine value (buf ∷ rest) c h =
    let ih = update_lines-IsLine value rest c h.1 in
    elim (Bool-cases (is_updated key_evt_handle_mode buf)) [
      | inl u ↦ rw u (c, ih)
      | inr n ↦ rw n (h.0, ih)
    ]

All-last : (P : Text → Type 0) (xs : List Text) (x : Text) → All P xs → P x → All P (xs ++ x ∷ [])
All-last P [] x h p = (p, tt)
All-last P (y ∷ xs) x h p = (h.0, All-last P xs x h.1 p)

written-IsLine :
    (value : Text) (lines : List Text)
    → IsLine (conf_line key_evt_handle_mode value)
    → All IsLine lines
    → All IsLine (written key_evt_handle_mode value lines)
unfolding written
written-IsLine value lines c h =
    let r = update_lines key_evt_handle_mode value lines in
    let ih = update_lines-IsLine value lines c h in
    elim (Bool-cases r.1) [
      | inl among ↦ rw among ih
      | inr missing ↦ rw missing (All-last IsLine r.0 (conf_line key_evt_handle_mode value) ih c)
    ]

-- An update with one of the three modes succeeds, and reading the new file gives that mode, from
-- whatever mode the reading starts: for a file of any lines that each end in a newline and fit the
-- buffer of `fgets`.
pub update_conf-parse_config :
    (p : Parsed) (value : Text) (m : ℕ) (lines : List Text)
    → set_evt_handle_mode value ≡ some m
    → All IsLine lines
    → (out : Text) × (update_conf key_evt_handle_mode value (joined lines) ≡ some (m, out))
      × ((parse_config p out).mode ≡ m)
unfolding update_conf get_directive str_eq parse_config
update_conf-parse_config p value m lines h all =
    let read : fgets_lines (maxline - 2) (joined lines) ≡ lines = fgets_lines-joined lines all in
    let out = written key_evt_handle_mode value lines in
    let again : fgets_lines (maxline - 2) (joined out) ≡ out =
      fgets_lines-joined out (written-IsLine value lines (conf_line-IsLine value m h) all) in
    (joined out, rw (h, update_conf, read) refl, rw again (written_mode p value m lines h))
