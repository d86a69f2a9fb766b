-- ===== src/Config/Longest.antt =====
-- What a table does with a line: the longest key counts.
use Prim.Native.Char.{Char, code}
use Prim.Native.String.{String}
use text.Mathlib.TextEquality.{eq_iff}
use nvsim.Shared.{
  ◌>>=◌, ◌≡◌, refl, ap, subst, Bool, true, false, Bool-cases, Option, none, some, List, [], ◌∷◌,
  ◌⊎◌, inl, inr, arith, All,
}
use nvsim.Config.Text.{starts_with, same}
use nvsim.Config.Table.{State, Entry, run, lookup, is_hidden, hides, is_ordered, get_or_else}

starts_with-cons :
    (d c : Char) (line key : String)
    → starts_with (String.◌∷◌ d line) (String.◌∷◌ c key) ≡ true
    → (code d ≡ code c) × (starts_with line key ≡ true)
unfolding starts_with
starts_with-cons d c line key h = ground arith

-- Of two keys that a line begins with, one begins with the other.
starts_with-comparable :
    (line a b : String)
    → starts_with line a ≡ true
    → starts_with line b ≡ true
    → (starts_with a b ≡ true) ⊎ (starts_with b a ≡ true)
unfolding starts_with
starts_with-comparable line String.[] b h k = inr refl
starts_with-comparable line (String.◌∷◌ c a) String.[] h k = inl refl
starts_with-comparable String.[] (String.◌∷◌ c a) (String.◌∷◌ e b) h k = ground arith
starts_with-comparable (String.◌∷◌ d line) (String.◌∷◌ c a) (String.◌∷◌ e b) h k = ground (
  arith,
  starts_with-cons d c line a h,
  starts_with-cons d e line b k,
  starts_with-comparable line a b,
)

found_one : {A : Type 0} {a b : A} → some a ≡ some b → a ≡ b
found_one {a = a} e = ap (λ x. get_or_else x a) e

module _ {S : Type 0} where
  -- What is true of every entry is true of the one that `lookup` finds.
  lookup-hides :
      (k key : String) (c : Bool) (table : List (Entry S)) (e : Entry S)
      → lookup k table ≡ some e
      → hides key c table ≡ false
      → is_hidden key c e ≡ false
  unfolding lookup hides
  lookup-hides k key c [] e h i = ground arith
  lookup-hides k key c (t ∷ rest) e h i = elim (Bool-cases (same k t.key)) [
    | inl here ↦
        let found : some t ≡ some e = rw (← h, here) refl in
        subst (λ x. is_hidden key c x ≡ false) (found_one found) (ground arith)
    | inr later ↦ lookup-hides k key c rest e (rw (← h, later) refl) (ground arith)
  ]

  after_last :
      (key : String) (t : Entry S) → is_hidden key false t ≡ false → starts_with key t.key ≡ false
  unfolding is_hidden
  after_last key t h = ground arith

  earlier :
      (key : String) (c : Bool) (e : Entry S)
      → is_hidden key c e ≡ false
      → same key e.key ≡ false
      → starts_with e.key key ≡ false
  unfolding is_hidden
  earlier key c e h k = ground arith

  -- Every key of the table that the line begins with is a beginning of `key`.
  abbrev pub IsLongest : String → String → List (Entry S) → Type 0
  IsLongest key line table =
      All (λ e. starts_with line e.key ≡ true → starts_with key e.key ≡ true) table

  skipped :
      (table : List (Entry S)) (key line : String) (s : State S)
      → IsLongest key line table
      → hides key false table ≡ false
      → run table line s ≡ some s
  unfolding run hides is_hidden
  skipped [] key line s h i = refl
  skipped (t ∷ rest) key line s h i =
      let other : is_hidden key false t ≡ false = ground arith in
      let off : starts_with line t.key ≡ false = ground (arith, h.0, after_last key t other) in
      rw off (skipped rest key line s h.1 (ground arith))

  >>=-some :
      (m : Option (State S)) (f : State S → Option (State S))
      → ((a : State S) → f a ≡ some a)
      → (m >>= f) ≡ m
  >>=-some none f h = refl
  >>=-some (some a) f h = h a

  run-here :
      (t : Entry S) (rest : List (Entry S)) (line : String) (s : State S)
      → is_ordered (t ∷ rest) ≡ true
      → starts_with line t.key ≡ true
      → IsLongest t.key line rest
      → run (t ∷ rest) line s ≡ t.action line s
  unfolding run is_ordered
  run-here t rest line s o h k = elim (Bool-cases t.continues) [
    | inl on ↦ rw (h, on) refl
    | inr off ↦
        let open_hides : hides t.key false rest ≡ false = rw (← off) (ground arith) in
        rw (h, off) (>>=-some _ _ (λ a. skipped rest t.key line a k open_hides))
  ]

  -- When no entry hides a later one, a line is handled by the entry of the longest key that it begins
  -- with, wherever that stands in the table.
  pub run-longest :
      (table : List (Entry S)) (line : String) (s : State S) (e : Entry S)
      → is_ordered table ≡ true
      → lookup e.key table ≡ some e
      → starts_with line e.key ≡ true
      → IsLongest e.key line table
      → run table line s ≡ e.action line s
  unfolding run lookup is_ordered
  run-longest [] line s e o l h k = ground arith
  run-longest (t ∷ rest) line s e o l h k = elim (Bool-cases (same e.key t.key)) [
    | inl here ↦
        let found : some t ≡ some e = rw (← l, here) refl in
        subst
          (λ x.
            starts_with line x.key ≡ true
            → IsLongest x.key line rest
            → run (t ∷ rest) line s ≡ x.action line s)
          (found_one found) (run-here t rest line s o) h k.1
    | inr later ↦
        let found : lookup e.key rest ≡ some e = rw (← l, later) refl in
        let shown : is_hidden t.key t.continues e ≡ false =
          lookup-hides e.key t.key t.continues rest e found (ground arith) in
        let off : starts_with line t.key ≡ false =
          ground (
            arith,
            k.0,
            eq_iff t.key e.key,
            eq_iff e.key t.key,
            earlier t.key t.continues e shown,
          ) in
        rw off (run-longest rest line s e (ground arith) found h k.1)
  ]
