-- ===== src/Technology/Process.antt =====
-- main.cpp: the technology of a process node, between two nodes of the tables.
use nvsim.Shared.{
  ℕ, ◌-◌, ◌≤◌, ◌<◌, ◌≡◌, ◌↔◌, ◌⊎◌, inl, inr, ltb, leb, if◌then◌else◌, Option, none, some,
  Option-cases, ◌==◌, ◌∙◌, ap, sym, true, arith, refl,
}
use nvsim.Types.{DeviceRoadmap}
use nvsim.Double.{Double, ◌⊖◌, ◌⊘◌, whole}
use nvsim.Technology.Tables.{Node, nanometres, node_of}
use nvsim.Technology.State.{Technology, initialize, prepared, interpolate_with}

-- The node that `techHigh` is initialized to, and the weight (size - low) / span.
pub record Neighbour : Type 0 where
  pub high : ℕ
  pub low : ℕ
  pub span : ℕ

-- Over 200 nm and below 22 nm `techHigh` is never initialized.
unfoldable pub neighbour : ℕ → Option Neighbour
neighbour size =
    if ltb 200 size
    then none
    else if ltb 120 size
    then some (record { high = 200; low = 120; span = 60 })
    else if ltb 90 size
    then some (record { high = 120; low = 90; span = 30 })
    else if ltb 65 size
    then some (record { high = 90; low = 65; span = 25 })
    else if ltb 45 size
    then some (record { high = 65; low = 45; span = 20 })
    else if leb 32 size
    then some (record { high = 45; low = 32; span = 13 })
    else if leb 22 size
    then some (record { high = 32; low = 22; span = 10 })
    else none

module _ {D : Type 0} ⦃d : Double D⦄ where
  abbrev alpha_of : ℕ → Neighbour → D
  alpha_of size n = (whole size ⊖ whole n.low) ⊘ whole n.span

  -- Over 200 nm and below 22 nm the source reads the members of an object that nothing has set:
  -- `none`. The last arguments are what the memory of both objects holds.
  unfoldable pub technology_of :
      ℕ → DeviceRoadmap → Technology D → Technology D → Option (Technology D)
  technology_of size roadmap memory memory_high = elim (neighbour size) [
    | none ↦ none
    | some n ↦ elim (initialize n.high roadmap memory_high) [
      | none ↦ none
      | some high ↦ elim (initialize size roadmap memory) [
        | none ↦ none
        | some tech ↦ some (interpolate_with high (alpha_of size n) tech)
      ]
    ]
  ]

abbrev pub base : Option Node → ℕ
base none = 0
base (some node) = nanometres node

-- The two nodes enclose the size, and the constants of the lower one are those that Initialize takes
-- for the size, if it is not the higher one itself. The weight is at most one for just the sizes up to
-- 180 nm.
pub neighbour-Encloses :
    (size : ℕ) (n : Neighbour)
    → neighbour size ≡ some n
    → (n.low ≤ size)
      × (size ≤ n.high)
      × ((size ≡ n.high) ⊎ (base (node_of size) ≡ n.low))
      × ((size - n.low ≤ n.span) ↔ (size ≤ 180))
unfolding neighbour node_of
neighbour-Encloses size n h = ground arith

node_of-unset : (size : ℕ) → node_of size ≡ none → size < 22
unfolding node_of
node_of-unset size e = ground arith

node_of-Found : (size : ℕ) → 22 ≤ size → (node : Node) × (node_of size ≡ some node)
node_of-Found size h = elim (Option-cases (node_of size)) [
  | inl e ↦ absurd (omega (arith, node_of-unset size e))
  | inr found ↦ found
]

neighbour-Sized : (size : ℕ) (n : Neighbour) → neighbour size ≡ some n → 22 ≤ size
unfolding neighbour
neighbour-Sized size n e = ground arith

neighbour-Sized_high : (size : ℕ) (n : Neighbour) → neighbour size ≡ some n → 22 ≤ n.high
unfolding neighbour
neighbour-Sized_high size n e = ground arith

neighbour-Outside : (size : ℕ) → neighbour size ≡ none → (200 < size) ⊎ (size < 22)
unfolding neighbour
neighbour-Outside size e = ground arith

neighbour-Inside :
    (size : ℕ) (n : Neighbour) → neighbour size ≡ some n → ¬ ((200 < size) ⊎ (size < 22))
unfolding neighbour
neighbour-Inside size n e = ground arith

some≢none : {A : Type 0} {a : A} → ¬ (some a ≡ none)
some≢none e = cc

module _ {D : Type 0} ⦃d : Double D⦄ where
  size-prepared :
      (size : ℕ) (roadmap : DeviceRoadmap) (memory : Technology D) (node : Node)
      → (prepared size roadmap memory node).feature_size_in_nano ≡ size
  unfolding prepared
  size-prepared size roadmap memory node = refl

  initialize-node :
      (size : ℕ) (roadmap : DeviceRoadmap) (memory : Technology D) (node : Node)
      → node_of size ≡ some node
      → initialize size roadmap memory ≡ some (prepared size roadmap memory node)
  unfolding initialize
  initialize-node size roadmap memory node e = rw (initialize, e) refl

  technology_of-some :
      (size : ℕ) (roadmap : DeviceRoadmap) (memory memory_high : Technology D) (n : Neighbour)
      → (node high : Node) → neighbour size ≡ some n
      → node_of size ≡ some node
      → node_of n.high ≡ some high
      → technology_of size roadmap memory memory_high
        ≡ some (
            interpolate_with
              (prepared n.high roadmap memory_high high)
              (alpha_of size n)
              (prepared size roadmap memory node))
  unfolding technology_of
  technology_of-some size roadmap memory memory_high n node high e f g =
      rw
        (
          technology_of,
          e,
          initialize-node n.high roadmap memory_high high g,
          initialize-node size roadmap memory node f,
        )
        refl

  interpolate_with-same :
      (high tech : Technology D) (alpha : D)
      → tech.feature_size_in_nano ≡ high.feature_size_in_nano
      → interpolate_with high alpha tech ≡ tech
  unfolding interpolate_with
  interpolate_with-same high tech alpha e =
      let same : (tech.feature_size_in_nano == high.feature_size_in_nano) ≡ true = ground arith in
      rw same refl

  -- A size that is itself the higher one of its two nodes is not interpolated: its technology is the
  -- one that Initialize makes for it.
  pub technology_of-tabulated :
      (size : ℕ) (roadmap : DeviceRoadmap) (memory memory_high : Technology D) (n : Neighbour)
      → neighbour size ≡ some n
      → n.high ≡ size
      → technology_of size roadmap memory memory_high ≡ initialize size roadmap memory
  technology_of-tabulated size roadmap memory memory_high n e same =
      let found = node_of-Found size (neighbour-Sized size n e) in
      let found_high : node_of n.high ≡ some found.0 = ap node_of same ∙ found.1 in
      let tech = prepared size roadmap memory found.0 in
      let high = prepared n.high roadmap memory_high found.0 in
      technology_of-some size roadmap memory memory_high n found.0 found.0 e found.1 found_high
      ∙ ap some (
          interpolate_with-same high tech (alpha_of size n) (
            size-prepared size roadmap memory found.0
            ∙ sym same
            ∙ sym (size-prepared n.high roadmap memory_high found.0)))
      ∙ sym (initialize-node size roadmap memory found.0 found.1)

  -- The technology of a process node comes from an object that nothing has set for just the sizes over
  -- 200 nm and those below 22 nm.
  pub technology_of-unset_iff :
      (size : ℕ) (roadmap : DeviceRoadmap) (memory memory_high : Technology D)
      → technology_of size roadmap memory memory_high ≡ none ↔ ((200 < size) ⊎ (size < 22))
  unfolding technology_of
  technology_of-unset_iff size roadmap memory memory_high = elim (Option-cases (neighbour size)) [
    | inl e ↦ (λ _. neighbour-Outside size e, λ _. rw (technology_of, e) refl)
    | inr (n, e) ↦
        let found = node_of-Found size (neighbour-Sized size n e) in
        let found_high = node_of-Found n.high (neighbour-Sized_high size n e) in
        let runs =
          technology_of-some size roadmap memory memory_high n found.0 found_high.0 e found.1
            found_high.1 in
        (λ h. absurd (some≢none (sym runs ∙ h)), λ h. absurd (neighbour-Inside size n e h))
  ]
