-- ===== src/Predecode/Bits.antt =====
-- The decoders cover the address bits.
use nvsim.Shared.{
  ℕ, ◌+◌, ◌-◌, ◌*◌, ◌/◌, ◌^◌, ◌≤◌, ◌≡◌, refl, sym, ap, ◌∙◌, arith, ltb, leb, ◌==◌, pow2-add,
  Bool-cases, inl, inr, ◌↔◌, ◌≢◌, true, false,
}
use native.Mathlib.Decide.{dec_le}
use nvsim.Predecode.{
  Counts, counts, num_basic_decoder, Stages, Plan, exits, empty, basic_only, one_stage, two_stages,
  unset, two_stages_of, plan_of, predecode,
}

counts_bits :
    (n : ℕ)
    → 1 ≤ n
    → let c = counts n in c.num_decoder12 + 2 * c.num_decoder24 + 3 * c.num_decoder38 ≡ n
unfolding counts
counts_bits n h = ground arith

counts_several : (n : ℕ) → 2 ≤ num_basic_decoder (counts n) → (counts n).num_decoder12 ≡ 0
unfolding counts
counts_several n h = ground arith

basic≢two : (s : Stages) → basic_only ≡ two_stages s → ⊥
basic≢two s = cc

one≢two : (k : ℕ) (s : Stages) → one_stage k ≡ two_stages s → ⊥
one≢two k s = cc

unset≢two : (s : Stages) → unset ≡ two_stages s → ⊥
unset≢two s = cc

exits≢two : (s : Stages) → exits ≡ two_stages s → ⊥
exits≢two s = cc

empty≢two : (s : Stages) → empty ≡ two_stages s → ⊥
empty≢two s = cc

basic≢unset : basic_only ≡ unset → ⊥
basic≢unset = cc

one≢unset : (k : ℕ) → one_stage k ≡ unset → ⊥
one≢unset k = cc

exits≢unset : exits ≡ unset → ⊥
exits≢unset = cc

empty≢unset : empty ≡ unset → ⊥
empty≢unset = cc

split_bits :
    (c : Counts) (n : ℕ)
    → c.num_decoder12 + 2 * c.num_decoder24 + 3 * c.num_decoder38 ≡ n
    → c.num_decoder12 ≡ 0
    → 4 ≤ num_basic_decoder c
    → num_basic_decoder c ≤ 6
    → let s = two_stages_of c in
      (s.num_address_a * s.num_address_b ≡ 2 ^ n)
      × (2 ≤ s.num_nand_input_a)
      × (s.num_nand_input_a ≤ 3)
      × (2 ≤ s.num_nand_input_b)
      × (s.num_nand_input_b ≤ 3)
unfolding two_stages_of
split_bits c n bits none h k =
    let b = num_basic_decoder c / 2 in
    let a = num_basic_decoder c - b in
    let exponent : 3 * a - c.num_decoder24 + 3 * b ≡ n = omega arith in
    (
      sym (pow2-add (3 * a - c.num_decoder24) (3 * b)) ∙ ap (λ (t : ℕ). 2 ^ t) exponent,
      omega arith,
      omega arith,
      omega arith,
      omega arith,
    )

stages_or : Stages → Plan → Stages
stages_or other (two_stages s) = s
stages_or other _ = other

two_stages_inv :
    (c : Counts) (s : Stages)
    → plan_of c ≡ two_stages s
    → (two_stages_of c ≡ s) × (4 ≤ num_basic_decoder c) × (num_basic_decoder c ≤ 6)
unfolding plan_of stages_or
two_stages_inv c s e = elim (Bool-cases (leb (num_basic_decoder c) 1)) [
  | inl few ↦ absurd (basic≢two s (rw few at e))
  | inr more ↦ elim (Bool-cases (leb (num_basic_decoder c) 3)) [
    | inl few ↦ absurd (one≢two _ s (rw (more, few) at e))
    | inr many ↦ elim (Bool-cases (leb (num_basic_decoder c) 6)) [
      | inl most ↦
          let same : two_stages (two_stages_of c) ≡ two_stages s = rw (more, many, most) at e in
          (ap (stages_or s) same, ground arith, ground arith)
      | inr all ↦ absurd (unset≢two s (rw (more, many, all) at e))
    ]
  ]
]

predecode_inv :
    (n : ℕ) (s : Stages)
    → predecode n ≡ two_stages s
    → (1 ≤ n) × (n ≤ 27) × (plan_of (counts n) ≡ two_stages s)
unfolding predecode
predecode_inv n s e = elim (Bool-cases (ltb 27 n)) [
  | inl far ↦ absurd (exits≢two s (rw far at e))
  | inr near ↦ elim (Bool-cases (n == 0)) [
    | inl none ↦ absurd (empty≢two s (rw (near, none) at e))
    | inr some ↦ (ground arith, ground arith, rw (near, some) at e)
  ]
]

-- Where the bits of an address are decoded in two stages, the outputs of both parts of the first one are
-- paired to just the 2 ^ n outputs of the block, and a part has NAND gates of two or three inputs.
pub predecode-two_stages :
    (n : ℕ) (s : Stages)
    → predecode n ≡ two_stages s
    → (s.num_address_a * s.num_address_b ≡ 2 ^ n)
      × (2 ≤ s.num_nand_input_a)
      × (s.num_nand_input_a ≤ 3)
      × (2 ≤ s.num_nand_input_b)
      × (s.num_nand_input_b ≤ 3)
predecode-two_stages n s e =
    let (positive, small, planned) = predecode_inv n s e in
    let (same, four, six) = two_stages_inv (counts n) s planned in
    rw (← same)
      (split_bits (counts n) n (counts_bits n positive) (counts_several n (omega arith)) four six)

counts_size :
    (n : ℕ)
    → 1 ≤ n
    → (n ≤ 3 * num_basic_decoder (counts n)) × (3 * num_basic_decoder (counts n) ≤ n + 2)
unfolding counts
counts_size n h = ground arith

plan_of-unset : (c : Counts) → 7 ≤ num_basic_decoder c → plan_of c ≡ unset
unfolding plan_of
plan_of-unset c h =
    let one : leb (num_basic_decoder c) 1 ≡ false = ground arith in
    let three : leb (num_basic_decoder c) 3 ≡ false = ground arith in
    let six : leb (num_basic_decoder c) 6 ≡ false = ground arith in rw (one, three, six) refl

plan_of-set : (c : Counts) → num_basic_decoder c ≤ 6 → plan_of c ≢ unset
unfolding plan_of
plan_of-set c h e =
    let six : leb (num_basic_decoder c) 6 ≡ true = ground arith in
    elim (Bool-cases (leb (num_basic_decoder c) 1)) [
      | inl few ↦ basic≢unset (rw few at e)
      | inr more ↦ elim (Bool-cases (leb (num_basic_decoder c) 3)) [
        | inl few ↦ one≢unset _ (rw (more, few) at e)
        | inr many ↦ unset≢two (two_stages_of c) (sym (rw (more, many, six) at e))
      ]
    ]

predecode_range : (n : ℕ) → predecode n ≡ unset → (1 ≤ n) × (n ≤ 27) × (plan_of (counts n) ≡ unset)
unfolding predecode
predecode_range n e = elim (Bool-cases (ltb 27 n)) [
  | inl far ↦ absurd (exits≢unset (rw far at e))
  | inr near ↦ elim (Bool-cases (n == 0)) [
    | inl none ↦ absurd (empty≢unset (rw (near, none) at e))
    | inr some ↦ (ground arith, ground arith, rw (near, some) at e)
  ]
]

predecode_planned : (n : ℕ) → 1 ≤ n → n ≤ 27 → predecode n ≡ plan_of (counts n)
unfolding predecode
predecode_planned n h k =
    let near : ltb 27 n ≡ false = ground arith in
    let some : n == 0 ≡ false = ground arith in rw (near, some) refl

unset_range : (n : ℕ) → predecode n ≡ unset → (19 ≤ n) × (n ≤ 27)
unset_range n e =
    let (positive, small, planned) = predecode_range n e in
    let (low, high) = counts_size n positive in
    elim (dec_le (num_basic_decoder (counts n)) 6) [
      | yes few ↦ absurd (plan_of-set (counts n) few planned)
      | no many ↦ (omega arith, small)
    ]

-- Of more than 18 address bits, the block would shift a member that nothing has set, up to the 27 bits
-- above which the program exits; of at most 18 it does not.
pub predecode-unset_iff : (n : ℕ) → (predecode n ≡ unset) ↔ ((19 ≤ n) × (n ≤ 27))
predecode-unset_iff n = (
  unset_range n,
  λ h.
      let (low, high) = counts_size n (omega arith) in
      predecode_planned n (omega arith) h.1 ∙ plan_of-unset (counts n) (omega arith),
)
