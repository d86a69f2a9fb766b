-- ===== src/Exploration/Enumeration.antt =====
-- Loops that run a body at each value, as lists: `none` is a loop that never ends, or that computes a
-- value that an `int` does not hold, after which the language defines nothing.
use native.Mathlib.Decide.{dec_le}
use nvsim.Shared.{
  ℕ, zero, suc, ◌+◌, ◌-◌, ◌*◌, ◌^◌, ◌≤◌, ◌<◌, ◌≡◌, refl, ap, ◌∙◌, inl, inr, true, false, Option,
  none, some, List, [], ◌∷◌, ◌++◌, arith, leb, ltb, lt→ltb, if◌then◌else◌, Bool-cases, leb→le, All,
  All-append, ◌∈◌, mem-append_left, mem-append_right, sym, subst, ◌⊎◌, lt→leb, le→leb, pow2_pos,
  pow2-suc,
}

abbrev pub Enumeration : Type 0 → Type 0
Enumeration A = Option (List A)

abbrev pub one_after_other : {A : Type 0} → Enumeration A → Enumeration A → Enumeration A
one_after_other none n = none
one_after_other (some ys) none = none
one_after_other (some ys) (some zs) = some (ys ++ zs)

-- The body at each element in turn; the loop does not end if the body does not.
abbrev pub for_each : {A B : Type 0} → List A → (A → Enumeration B) → Enumeration B
for_each [] body = some []
for_each (x ∷ xs) body = one_after_other (body x) (for_each xs body)

infixl 5 ◌>>=◌
abbrev pub ◌>>=◌ : {A B : Type 0} → Enumeration A → (A → Enumeration B) → Enumeration B
none >>= f = none
some xs >>= f = for_each xs f

abbrev pub prefix : {A : Type 0} → A → Enumeration A → Enumeration A
prefix x none = none
prefix x (some xs) = some (x ∷ xs)

-- for (x = low; x <= high; x *= 2), on fuel, for an `int` x: from 2 ^ 30 on `x *= 2` overflows.
pub doubling_from : ℕ → ℕ → ℕ → Enumeration ℕ
doubling_from zero x high = none
doubling_from (suc fuel) x high = elim (leb x high) [
  | true ↦ elim (ltb x (2 ^ 30)) [
    | true ↦ prefix x (doubling_from fuel (2 * x) high)
    | false ↦ none
  ]
  | false ↦ some []
]

-- A positive start passes `high` after as many rounds, so `high + 1` is enough fuel; a start at 0
-- runs out of any.
unfoldable pub doubling : ℕ → ℕ → Enumeration ℕ
unfolding doubling_from
doubling low high = doubling_from (suc high) low high

-- for (x = low; x <= high; x++), with the rounds left.
pub counting_from : ℕ → ℕ → List ℕ
counting_from zero x = []
counting_from (suc n) x = x ∷ counting_from n (x + 1)

-- Up to the largest `int`, `x++` overflows.
unfoldable pub counting : ℕ → ℕ → Enumeration ℕ
unfolding counting_from
counting low high =
    if ltb high (2 ^ 31 - 1) then some (counting_from (high + 1 - low) low) else none

-- The loop ends, and the body runs only at values with P.
abbrev pub Runs : {A : Type 0} → (A → Type 0) → Enumeration A → Type 0
Runs P none = ⊥
Runs P (some xs) = All P xs

-- The body runs at the value.
abbrev pub Visits : {A : Type 0} → Enumeration A → A → Type 0
Visits none a = ⊥
Visits (some xs) a = a ∈ xs

Runs-one_after_other :
    {A : Type 0} (Q : A → Type 0) (m n : Enumeration A)
    → Runs Q m
    → Runs Q n
    → Runs Q (one_after_other m n)
Runs-one_after_other Q none n h k = absurd h
Runs-one_after_other Q (some ys) none h k = absurd k
Runs-one_after_other Q (some ys) (some zs) h k = All-append Q ys zs h k

Visits-one_after_other :
    {A : Type 0} (Q : A → Type 0) (a : A) (m n : Enumeration A)
    → Runs Q m
    → Runs Q n
    → Visits m a ⊎ Visits n a
    → Visits (one_after_other m n) a
Visits-one_after_other Q a none n h k v = absurd h
Visits-one_after_other Q a (some ys) none h k v = absurd k
Visits-one_after_other Q a (some ys) (some zs) h k (inl m) = mem-append_left a ys zs m
Visits-one_after_other Q a (some ys) (some zs) h k (inr m) = mem-append_right a ys zs m

module _ {A B : Type 0} (P : A → Type 0) (Q : B → Type 0) (f : A → Enumeration B)
    (keep : (a : A) → P a → Runs Q (f a)) where
  Runs-for_each : (xs : List A) → All P xs → Runs Q (for_each xs f)
  Runs-for_each [] h = tt
  Runs-for_each (x ∷ xs) h =
      Runs-one_after_other Q (f x) (for_each xs f) (keep x h.0) (Runs-for_each xs h.1)

  -- If the outer loop ends at values with P, and the body from each such value at values with Q, the
  -- nested loop ends, at values with Q.
  pub Runs->>= : (m : Enumeration A) → Runs P m → Runs Q (m >>= f)
  Runs->>= none h = absurd h
  Runs->>= (some xs) h = Runs-for_each xs h

All-append_parts :
    {A : Type 0} (Q : A → Type 0) (xs ys : List A) → All Q (xs ++ ys) → All Q xs × All Q ys
All-append_parts Q [] ys h = (tt, h)
All-append_parts Q (x ∷ xs) ys h =
    let (front, back) = All-append_parts Q xs ys h.1 in ((h.0, front), back)

Runs-parts :
    {A : Type 0} (Q : A → Type 0) (m n : Enumeration A)
    → Runs Q (one_after_other m n)
    → Runs Q m × Runs Q n
Runs-parts Q none n h = absurd h
Runs-parts Q (some ys) none h = absurd h
Runs-parts Q (some ys) (some zs) h = All-append_parts Q ys zs h

module _ {A B : Type 0} (Q : B → Type 0) (f : A → Enumeration B) (a : A) (b : B) where
  Visits-for_each :
      (xs : List A)
      → Runs Q (for_each xs f)
      → a ∈ xs
      → (Runs Q (f a) → Visits (f a) b)
      → Visits (for_each xs f) b
  Visits-for_each [] h m v = absurd m
  Visits-for_each (x ∷ xs) h (inl e) v =
      let (first, rest) = Runs-parts Q (f x) (for_each xs f) h in
      let same : Visits (f x) b =
        subst (λ z. Visits (f z) b) e (v (subst (λ z. Runs Q (f z)) (sym e) first)) in
      Visits-one_after_other Q b (f x) (for_each xs f) first rest (inl same)
  Visits-for_each (x ∷ xs) h (inr m) v =
      let (first, rest) = Runs-parts Q (f x) (for_each xs f) h in
      Visits-one_after_other Q b (f x) (for_each xs f) first rest
        (inr (Visits-for_each xs rest m v))

  -- A nested loop that ends visits what its body visits from a value of the outer loop.
  pub Visits->>= :
      (m : Enumeration A)
      → Visits m a
      → (Runs Q (f a) → Visits (f a) b)
      → Runs Q (m >>= f)
      → Visits (m >>= f) b
  Visits->>= none m v h = absurd h
  Visits->>= (some xs) m v h = Visits-for_each xs h m v

-- What holds wherever the body runs holds at each visited value.
pub Runs-Visits :
    {A : Type 0} (Q : A → Type 0) (m : Enumeration A) (a : A) → Runs Q m → Visits m a → Q a
Runs-Visits Q none a h v = absurd h
Runs-Visits Q (some []) a h v = absurd v
Runs-Visits Q (some (x ∷ xs)) a h (inl e) = subst Q (sym e) h.0
Runs-Visits Q (some (x ∷ xs)) a h (inr m) = Runs-Visits Q (some xs) a h.1 m

-- One round of a doubling loop.
doubling_from_next :
    (fuel x high : ℕ)
    → leb x high ≡ true
    → x < 2 ^ 30
    → doubling_from (suc fuel) x high ≡ prefix x (doubling_from fuel (2 * x) high)
unfolding doubling_from
doubling_from_next fuel x high h small =
    let fits : ltb x (2 ^ 30) ≡ true = lt→ltb x (2 ^ 30) small in rw (h, fits, doubling_from)

doubling_from_stop :
    (fuel x high : ℕ) → leb x high ≡ false → doubling_from (suc fuel) x high ≡ some []
unfolding doubling_from
doubling_from_stop fuel x high h = rw (h, doubling_from)

Runs-prefix :
    {A : Type 0} (Q : A → Type 0) (a : A) (m : Enumeration A) → Q a → Runs Q m → Runs Q (prefix a m)
Runs-prefix Q a none q h = h
Runs-prefix Q a (some xs) q h = (q, h)

Visits-prefix_head :
    {A : Type 0} (Q : A → Type 0) (a : A) (m : Enumeration A) → Runs Q m → Visits (prefix a m) a
Visits-prefix_head Q a none h = absurd h
Visits-prefix_head Q a (some xs) h = inl refl

Visits-prefix_tail : {A : Type 0} (a b : A) (m : Enumeration A) → Visits m b → Visits (prefix a m) b
Visits-prefix_tail a b none v = v
Visits-prefix_tail a b (some xs) v = inr v

-- A doubling loop from a positive start up to less than 2 ^ 30 ends; what doubling keeps holds at
-- each of its values.
module _ (P : ℕ → Type 0) (double : (n : ℕ) → P n → P (2 * n)) where
  doubling_from-Runs :
      (fuel x high : ℕ)
      → high < x + fuel
      → high < 2 ^ 30
      → 1 ≤ x
      → P x
      → Runs (λ y. P y × (1 ≤ y) × (y ≤ high)) (doubling_from (suc fuel) x high)
  doubling_from-Runs zero x high e b h p =
      rw (doubling_from_stop 0 x high (lt→leb x high (omega arith))) tt
  doubling_from-Runs (suc fuel) x high e b h p = elim (Bool-cases (leb x high)) [
    | inl in_range ↦
        let le = leb→le x high in_range in
        let rest =
          doubling_from-Runs fuel (2 * x) high (omega arith) b (omega arith) (double x p) in
        rw (doubling_from_next (suc fuel) x high in_range (omega arith)) (
          Runs-prefix (λ y. P y × (1 ≤ y) × (y ≤ high)) x (doubling_from (suc fuel) (2 * x) high)
            (p, h, le) rest)
    | inr out ↦ rw (doubling_from_stop (suc fuel) x high out) tt
  ]

  pub doubling-Runs :
      (low high : ℕ)
      → high < 2 ^ 30
      → 1 ≤ low
      → P low
      → Runs (λ y. P y × (1 ≤ y) × (y ≤ high)) (doubling low high)
  unfolding doubling
  doubling-Runs low high b h p = doubling_from-Runs high low high (omega arith) b h p

doubling_from-Visits :
    (j fuel x high : ℕ)
    → high < x + fuel
    → high < 2 ^ 30
    → 1 ≤ x
    → 2 ^ j * x ≤ high
    → Visits (doubling_from (suc fuel) x high) (2 ^ j * x)
doubling_from-Visits j zero x high e b h m = absurd (grind (arith, pow2_pos j))
doubling_from-Visits zero (suc fuel) x high e b h m =
    let one : 2 ^ 0 * x ≡ x = omega arith in
    rw (one, doubling_from_next (suc fuel) x high (le→leb x high (omega arith)) (omega arith))
      (Visits-prefix_head (λ y. Unit {0} × (1 ≤ y) × (y ≤ high)) x
        (doubling_from (suc fuel) (2 * x) high)
        (doubling_from-Runs (λ y. Unit {0}) (λ n u. tt) fuel (2 * x) high (omega arith) b
          (omega arith) tt))
doubling_from-Visits (suc j) (suc fuel) x high e b h m =
    let shift : 2 ^ suc j * x ≡ 2 ^ j * (2 * x) =
      omega (arith, ap (λ (t : ℕ). t * x) (pow2-suc j)) in
    let le : x ≤ high = grind (arith, pow2_pos (suc j)) in
    rw (shift, doubling_from_next (suc fuel) x high (le→leb x high le) (omega arith))
      (Visits-prefix_tail x (2 ^ j * (2 * x)) (doubling_from (suc fuel) (2 * x) high)
        (doubling_from-Visits j fuel (2 * x) high (omega arith) b (omega arith) (omega arith)))

-- It visits each value `2 ^ j * low` up to `high`.
pub doubling-Visits :
    (j low high : ℕ)
    → high < 2 ^ 30
    → 1 ≤ low
    → 2 ^ j * low ≤ high
    → Visits (doubling low high) (2 ^ j * low)
unfolding doubling
doubling-Visits j low high b h m = doubling_from-Visits j high low high (omega arith) b h m

-- From 0 a doubling loop never ends, whatever the fuel.
pub doubling_from_zero : (fuel high : ℕ) → doubling_from fuel 0 high ≡ none
unfolding doubling_from
doubling_from_zero zero high = refl
doubling_from_zero (suc fuel) high =
    doubling_from_next fuel 0 high (le→leb 0 high (omega arith)) (omega arith)
    ∙ ap (prefix 0) (doubling_from_zero fuel high)

counting_from-Runs :
    (low n x high : ℕ)
    → low ≤ x
    → x + n ≤ high + 1
    → All (λ y. (low ≤ y) × (y ≤ high)) (counting_from n x)
unfolding counting_from
counting_from-Runs low zero x high l h = tt
counting_from-Runs low (suc n) x high l h =
    ((l, omega arith), counting_from-Runs low n (x + 1) high (omega arith) (omega arith))

-- A counting loop ends, and visits just the values from `low` to `high`.
pub counting-Runs :
    (low high : ℕ)
    → high < 2 ^ 31 - 1
    → low ≤ high + 1
    → Runs (λ y. (low ≤ y) × (y ≤ high)) (counting low high)
unfolding counting
counting-Runs low high b h =
    rw (lt→ltb high (2 ^ 31 - 1) b)
      (counting_from-Runs low (high + 1 - low) low high (omega arith) (omega arith))

counting_from-Visits : (y n x : ℕ) → x ≤ y → y < x + n → y ∈ counting_from n x
unfolding counting_from
counting_from-Visits y zero x l h = absurd (omega arith)
counting_from-Visits y (suc n) x l h = elim (dec_le y x) [
  | yes e ↦ inl (omega arith)
  | no e ↦ inr (counting_from-Visits y n (x + 1) (omega arith) (omega arith))
]

pub counting-Visits :
    (y low high : ℕ) → high < 2 ^ 31 - 1 → low ≤ y → y ≤ high → Visits (counting low high) y
unfolding counting
counting-Visits y low high b l h =
    rw (lt→ltb high (2 ^ 31 - 1) b) (counting_from-Visits y (high + 1 - low) low l (omega arith))
