-- ===== src/Agent/Conf.antt =====
-- evt_modules/evtlib/evt_agent.c: an agent's `_mod.conf` file, which parse_config reads and
-- update_conf rewrites. A file is the text of its bytes.
pub mod RoundTrip
use fms.Base.{
  ℕ, ◌+◌, ◌-◌, Bool, true, false, ◌||◌, Option, none, some, List, [], ◌∷◌, ◌++◌, ◌==◌,
  if◌then◌else◌,
}
use fms.Text.{Text, codes, str_eq, skip_while, until, after}
use fms.Event.{mode_manual, mode_auto, mode_define}

-- WHITESPACE
unfoldable pub is_white : ℕ → Bool
is_white c = c == 32 || c == 9 || c == 10 || c == 13 || c == 12

-- DELIMS
unfoldable pub is_delim : ℕ → Bool
unfolding is_white
is_delim c = c == b',' || c == b':' || is_white c

-- COMMENTCHAR
unfoldable pub is_comment : ℕ → Bool
is_comment c = c == b'#'

-- AGENT_KEY_EVT_HANDLE_MODE
abbrev pub key_evt_handle_mode : Text
key_evt_handle_mode = codes "event_handle_mode"

-- `set_evt_handle_mode`: the mode that an option names, `none` for the return value -1.
unfoldable pub set_evt_handle_mode : Text → Option ℕ
set_evt_handle_mode option =
    if str_eq (codes "manual") option
    then some mode_manual
    else if str_eq (codes "auto") option
    then some mode_auto
    else if str_eq (codes "define") option
    then some mode_define
    else none

-- `get_directive`: the only directive is the handle mode.
unfoldable pub get_directive : Text → Bool
get_directive name = str_eq name key_evt_handle_mode

-- The mode in use and the count of errors.
pub record Parsed : Type 0 where
  pub mode : ℕ
  pub errcount : ℕ

unfoldable pub set_option : Parsed → Text → Parsed
set_option p option = elim (set_evt_handle_mode option) [
  | none ↦ record p { errcount = p.errcount + 1 }
  | some m ↦ record p { mode = m }
]

-- What follows the directive name on a line of `parse_config`.
unfoldable pub parse_option : Parsed → Text → Parsed
unfolding set_option
parse_option p rest = elim (skip_while is_delim rest) [
  | [] ↦ p
  | c ∷ s ↦ set_option p (until is_delim (c ∷ s))
]

-- A line without its leading white space and its comment.
unfoldable pub parse_directive : Parsed → Text → Parsed
unfolding get_directive parse_option
parse_directive p [] = p
parse_directive p (c ∷ s) =
    if get_directive (until is_white (c ∷ s))
    then parse_option p (after is_white (c ∷ s))
    else record p { errcount = p.errcount + 1 }

-- One round of the loop of `parse_config`.
unfoldable pub parse_line : Parsed → Text → Parsed
unfolding parse_directive
parse_line p buf = parse_directive p (until is_comment (skip_while is_white buf))

-- The loop of `parse_config` on the lines that `fgets` returns.
unfoldable pub parse_lines : Parsed → List Text → Parsed
parse_lines p [] = p
parse_lines p (buf ∷ rest) = parse_lines (parse_line p buf) rest

-- MAXLINE
abbrev pub maxline : ℕ
maxline = 1024

-- A byte in front of the first line.
abbrev pub put_byte : ℕ → List Text → List Text
put_byte c [] = (c ∷ []) ∷ []
put_byte c (l ∷ ls) = (c ∷ l) ∷ ls

-- What the calls of fgets(buf, MAXLINE, f) return: each takes the bytes up to a newline, but at most
-- MAXLINE - 1. After the next byte the call in hand has `room` left.
unfoldable pub fgets_lines : ℕ → Text → List Text
fgets_lines room [] = []
fgets_lines room (c ∷ s) = elim (c == 10 || room == 0) [
  | true ↦ (c ∷ []) ∷ fgets_lines (maxline - 2) s
  | false ↦ put_byte c (fgets_lines (room - 1) s)
]

unfoldable pub parse_config : Parsed → Text → Parsed
parse_config p file = parse_lines p (fgets_lines (maxline - 2) file)

-- The line that `update_conf` writes for the directive.
unfoldable pub conf_line : Text → Text → Text
conf_line direct value = direct ++ (codes " " ++ (value ++ (10 ∷ [])))

-- Does `update_conf` write its own line in place of this one?
unfoldable pub is_updated : Text → Text → Bool
is_updated direct buf = elim (skip_while is_white buf) [
  | [] ↦ false
  | c ∷ s ↦ if is_comment c then false else str_eq (until is_white (c ∷ s)) direct
]

-- The loop of `update_conf`: the lines written, and whether the directive was among them.
unfoldable pub update_lines : Text → Text → List Text → List Text × Bool
update_lines direct value [] = ([], false)
update_lines direct value (buf ∷ rest) =
    let (out, found) = update_lines direct value rest in
    if is_updated direct buf then (conf_line direct value ∷ out, true) else (buf ∷ out, found)

-- What `update_conf` writes into the new file, one text after the other: the directive comes last if
-- it was not among the lines.
unfoldable pub written : Text → Text → List Text → List Text
written direct value lines =
    let (out, found) = update_lines direct value lines in
    if found then out else out ++ (conf_line direct value ∷ [])

-- The texts as they stand in the file.
abbrev pub joined : List Text → Text
joined [] = []
joined (l ∷ ls) = l ++ joined ls

-- `update_conf`: the mode set and the new file; `none` for the return value -1, which leaves the
-- file as it was. The value is checked before the new file takes the place of the old one.
unfoldable pub update_conf : Text → Text → Text → Option (ℕ × Text)
update_conf direct value file = elim (get_directive direct) [
  | false ↦ none
  | true ↦ elim (set_evt_handle_mode value) [
    | none ↦ none
    | some m ↦ some (m, joined (written direct value (fgets_lines (maxline - 2) file)))
  ]
]
