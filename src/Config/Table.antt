-- ===== src/Config/Table.antt =====
-- InputParameter.cpp and MemCell.cpp: a reader's body is a chain of `if (!strncmp(key, line, strlen(key))) { ...; continue; }`: a table of
-- keys with what each does to the object that is read. Reading `tmp` before any `sscanf` has filled it
-- is undefined: the answer is then `none`.
use Prim.Native.String.{String}
use nvsim.Shared.{
  ◌>>=◌, ℕ, Bool, true, false, not, ◌&&◌, ◌||◌, Option, none, some, List, [], ◌∷◌, if◌then◌else◌,
}
use mathlib.Core.Option.{map}
use nvsim.Config.Text.{starts_with, same, scan_literal, scan_word, scan_int}

-- The buffer `tmp` and the object.
pub record State (S : Type 0) : Type 0 where
  pub tmp : Option String
  pub value : S

pub record Entry (S : Type 0) : Type 0 where
  pub key : String
  -- Whether the block ends with `continue`.
  pub continues : Bool
  pub action : String → State S → Option (State S)

abbrev pub get_or_else : {A : Type 0} → Option A → A → A
get_or_else none a = a
get_or_else (some b) a = b

abbrev pub or_else : {A : Type 0} → Option A → Option A → Option A
or_else none b = b
or_else (some a) b = some a

module _ {S : Type 0} where
  abbrev pub changed : (S → S) → State S → Option (State S)
  changed f s = some (record s { value = f s.value })

  unfoldable pub with_word : (String → S → S) → State S → Option String → Option (State S)
  with_word f s none = none
  with_word f s (some word) = some (record { tmp = some word; value = f word s.value })

  -- `sscanf(line, "<format> %s", tmp); <f on tmp> continue;`
  abbrev pub word : String → String → (String → S → S) → Entry S
  word key format f = record {
    key = key;
    continues = true;
    action = λ line s. with_word f s (or_else (scan_literal format line >>= scan_word) s.tmp);
  }

  -- `sscanf(line, "<format> %d", &x); <f on x> continue;`, the number missing where x keeps its value.
  abbrev pub number : String → String → (Option ℕ → S → S) → Entry S
  number key format f = record {
    key = key;
    continues = true;
    action = λ line s. changed (f (map (λ r. r.0) (scan_literal format line >>= scan_int))) s;
  }

  -- One pass of the loop's body.
  unfoldable pub run : List (Entry S) → String → State S → Option (State S)
  unfolding starts_with
  run [] line s = some s
  run (e ∷ rest) line s =
      let later = run rest line in
      let acted = e.action line s in
      if starts_with line e.key then (if e.continues then acted else (acted >>= later)) else later s

  -- The loop.
  unfoldable pub run_lines : List (Entry S) → List String → State S → Option (State S)
  unfolding run
  run_lines table [] s = some s
  run_lines table (line ∷ lines) s = run table line s >>= run_lines table lines

  -- The first entry with a key.
  unfoldable pub lookup : String → List (Entry S) → Option (Entry S)
  lookup key [] = none
  lookup key (e ∷ rest) = let later = lookup key rest in if same key e.key then some e else later

  -- A later key that the given one would hide: it begins with it and is no repetition after a
  -- `continue`. Without `continue`, also a later key that would act on the same line.
  unfoldable pub is_hidden : String → Bool → Entry S → Bool
  unfolding starts_with
  is_hidden key continues e =
      (starts_with e.key key && not (same key e.key && continues))
      || (not continues && starts_with key e.key)

  unfoldable pub hides : String → Bool → List (Entry S) → Bool
  unfolding is_hidden
  hides key continues [] = false
  hides key continues (e ∷ rest) = is_hidden key continues e || hides key continues rest

  -- No entry hides a later one.
  unfoldable pub is_ordered : List (Entry S) → Bool
  unfolding hides
  is_ordered [] = true
  is_ordered (e ∷ rest) = not (hides e.key e.continues rest) && is_ordered rest
