-- ===== src/Config/Text.antt =====
-- What the readers use of string.h and of `sscanf`. A sign before a `%d` is not read.
use Prim.Native.Char.{Char, code}
use Prim.Native.String.{String}
use text.Mathlib.Text.{◌==◌ as str_eq}
use nvsim.Shared.{
  ℕ, ◌+◌, ◌*◌, ◌-◌, Bool, true, false, ◌&&◌, ◌||◌, Option, none, some, if◌then◌else◌, leb, ◌==◌,
}

-- `!strcmp(s, t)`.
abbrev pub same : String → String → Bool
same s t = str_eq s t

-- `!strncmp(key, line, strlen(key))`.
unfoldable pub starts_with : String → String → Bool
starts_with line String.[] = true
starts_with String.[] (String.◌∷◌ c key) = false
starts_with (String.◌∷◌ d line) (String.◌∷◌ c key) = (code c == code d) && starts_with line key

abbrev pub is_space : Char → Bool
is_space c = (code c == 32) || (leb 9 (code c) && leb (code c) 13)

abbrev pub is_digit : Char → Bool
is_digit c = leb 48 (code c) && leb (code c) 57

abbrev pub skip_spaces : String → String
skip_spaces String.[] = ""
skip_spaces (String.◌∷◌ c s) =
    let rest = skip_spaces s in if is_space c then rest else String.◌∷◌ c s

-- The literal part of a format, of which a space stands for any white space: what it leaves of the line.
abbrev pub scan_literal : String → String → Option String
scan_literal String.[] line = some line
scan_literal (String.◌∷◌ f format) String.[] =
    let rest = scan_literal format "" in if is_space f then rest else none
scan_literal (String.◌∷◌ f format) (String.◌∷◌ c line) =
    let rest = scan_literal format (if is_space f then skip_spaces (String.◌∷◌ c line) else line) in
    if is_space f || (code f == code c) then rest else none

abbrev pub until_space : String → String
until_space String.[] = ""
until_space (String.◌∷◌ c s) =
    let rest = until_space s in if is_space c then "" else String.◌∷◌ c rest

abbrev pub non_empty : String → Option String
non_empty String.[] = none
non_empty (String.◌∷◌ c s) = some (String.◌∷◌ c s)

-- `%s`.
abbrev pub scan_word : String → Option String
scan_word s = non_empty (until_space (skip_spaces s))

abbrev pub digits : ℕ → String → ℕ × String
digits n String.[] = (n, "")
digits n (String.◌∷◌ c s) =
    let rest = digits (n * 10 + (code c - 48)) s in if is_digit c then rest else (n, String.◌∷◌ c s)

abbrev pub starting_digits : String → Option (ℕ × String)
starting_digits String.[] = none
starting_digits (String.◌∷◌ c s) = if is_digit c then some (digits 0 (String.◌∷◌ c s)) else none

-- `%d` and `%ld`.
abbrev pub scan_int : String → Option (ℕ × String)
scan_int s = starting_digits (skip_spaces s)
