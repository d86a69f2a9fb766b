-- ===== src/Config/Keeps.antt =====
-- Reading keeps what each entry keeps.
use Prim.Native.String.{String}
use nvsim.Shared.{◌>>=◌, Bool-cases, Option, none, some, List, [], ◌∷◌, All, inl, inr}
use nvsim.Config.Text.{starts_with}
use nvsim.Config.Table.{State, Entry, run, run_lines, with_word}

module _ {S : Type 0} (P : S → Type 0) where
  -- Where there is an answer, it satisfies the predicate.
  abbrev pub Holds : Option (State S) → Type 0
  Holds none = Unit
  Holds (some s) = P s.value

  abbrev pub Keeps : Entry S → Type 0
  Keeps e = (line : String) (s : State S) → P s.value → Holds (e.action line s)

  Holds->>= :
      (m : Option (State S)) (f : State S → Option (State S))
      → Holds m
      → ((s : State S) → P s.value → Holds (f s))
      → Holds (m >>= f)
  Holds->>= none f h k = tt
  Holds->>= (some s) f h k = k s h

  -- What the action of a `word` entry needs.
  pub with_word-Holds :
      (f : String → S → S) (s : State S) (w : Option String)
      → ((v : String) → P (f v s.value))
      → Holds (with_word f s w)
  unfolding with_word
  with_word-Holds f s none h = tt
  with_word-Holds f s (some w) h = h w

  run-Keeps :
      (table : List (Entry S))
      → All Keeps table
      → (line : String) (s : State S) → P s.value
      → Holds (run table line s)
  unfolding run
  run-Keeps [] k line s p = p
  run-Keeps (e ∷ rest) k line s p = elim (Bool-cases (starts_with line e.key)) [
    | inl on ↦ elim (Bool-cases e.continues) [
      | inl stop ↦ rw (on, stop) (k.0 line s p)
      | inr go ↦ rw (on, go) (Holds->>= _ _ (k.0 line s p) (λ t. run-Keeps rest k.1 line t))
    ]
    | inr off ↦ rw off (run-Keeps rest k.1 line s p)
  ]

  -- If every entry keeps a predicate, reading any lines keeps it.
  pub run_lines-Keeps :
      (table : List (Entry S))
      → All Keeps table
      → (lines : List String) (s : State S) → P s.value
      → Holds (run_lines table lines s)
  unfolding run_lines
  run_lines-Keeps table k [] s p = p
  run_lines-Keeps table k (line ∷ lines) s p =
      Holds->>= _ _ (run-Keeps table k line s p) (run_lines-Keeps table k lines)
