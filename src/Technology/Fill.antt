-- ===== src/Technology/Fill.antt =====
-- Technology.cpp: what the loops of Initialize leave in the arrays of currents.
use nvsim.Shared.{
  ℕ, zero, suc, ◌*◌, ◌/◌, ◌%◌, ◌+◌, ◌≤◌, ◌<◌, ◌==◌, ◌≡◌, ◌≢◌, refl, if◌then◌else◌, arith, ◌∙◌,
}
use nvsim.Double.{Double}
use native.Mathlib.Decide.{ℕ_discrete}
use nvsim.Technology.State.{between, fill_at, fill_from, fill}

module _ {D : Type 0} ⦃d : Double D⦄ where
  -- The array that the loop is to leave: the line through the constants.
  abbrev pub on_lines : (ℕ → D) → ℕ → D
  on_lines a i = if i % 10 == 0 then a i else between a i

  fill_at-ne : (a : ℕ → D) (i j : ℕ) → j ≢ i → fill_at a i j ≡ a j
  unfolding fill_at
  fill_at-ne a i j h = ground arith

  fill_at-tens : (a : ℕ → D) (i j : ℕ) → j % 10 ≡ 0 → fill_at a i j ≡ a j
  unfolding fill_at
  fill_at-tens a i j h = ground arith

  fill_at_self : (a : ℕ → D) (i : ℕ) → fill_at a i i ≡ on_lines a i
  unfolding fill_at
  fill_at_self a i = ground arith

  on_lines-fill_at : (a : ℕ → D) (i j : ℕ) → j ≢ i → on_lines (fill_at a i) j ≡ on_lines a j
  on_lines-fill_at a i j h =
      rw
        (
          fill_at-ne a i j h,
          fill_at-tens a i (j / 10 * 10) (omega arith),
          fill_at-tens a i (j / 10 * 10 + 10) (omega arith),
        )
        refl

  fill_from-done : (rounds i : ℕ) (a : ℕ → D) (j : ℕ) → j < i → fill_from rounds i a j ≡ a j
  unfolding fill_from
  fill_from-done zero i a j h = refl
  fill_from-done (suc rounds) i a j h =
      fill_from-done rounds (suc i) (fill_at a i) j (omega arith) ∙ fill_at-ne a i j (omega arith)

  fill_from-beyond :
      (rounds i : ℕ) (a : ℕ → D) (j : ℕ) → i + rounds ≤ j → fill_from rounds i a j ≡ a j
  unfolding fill_from
  fill_from-beyond zero i a j h = refl
  fill_from-beyond (suc rounds) i a j h =
      fill_from-beyond rounds (suc i) (fill_at a i) j (omega arith) ∙ fill_at-ne a i j (omega arith)

  fill_from-on_lines :
      (rounds i : ℕ) (a : ℕ → D) (j : ℕ)
      → i ≤ j
      → j < i + rounds
      → fill_from rounds i a j ≡ on_lines a j
  unfolding fill_from
  fill_from-on_lines zero i a j h k = absurd (omega arith)
  fill_from-on_lines (suc rounds) i a j h k = elim (ℕ_discrete j i) [
    | yes e ↦ rw e (fill_from-done rounds (suc i) (fill_at a i) i (omega arith) ∙ fill_at_self a i)
    | no ne ↦
        fill_from-on_lines rounds (suc i) (fill_at a i) j (omega arith) (omega arith)
        ∙ on_lines-fill_at a i j ne
  ]

  -- The loop that fills an array in place leaves in each element up to 100 the value on the line
  -- through the constants of its two neighbouring multiples of ten, as if it did not write where it
  -- reads.
  pub fill-on_lines : (a : ℕ → D) (i : ℕ) → i ≤ 100 → fill a i ≡ on_lines a i
  fill-on_lines a i h = elim (ℕ_discrete i 0) [
    | yes e ↦ rw e (fill_from-done 99 1 a 0 (omega arith))
    | no ne ↦ elim (ℕ_discrete i 100) [
      | yes e ↦ rw e (fill_from-beyond 99 1 a 100 (omega arith))
      | no late ↦ fill_from-on_lines 99 1 a i (omega arith) (omega arith)
    ]
  ]
