-- ===== src/Bank/Plain/Agree.antt =====
-- BankWithHtree.cpp and BankWithoutHtree.cpp: both kinds of bank cut a data bank alike.
use native.Mathlib.Nat.{div-div-eq-div-mul}
use nvsim.Shared.{
  ℕ, ◌+◌, ◌-◌, ◌*◌, ◌/◌, ◌^◌, ◌<◌, ◌≡◌, refl, sym, ap, ◌∙◌, true, arith, pow2-add, some, Bool,
}
use nvsim.Types.{MemCellType, data_array}
use nvsim.Double.{Double, IsExact, whole_log2_power}
use nvsim.Bank.Request.{BankRequest, int_pow2}
use nvsim.Bank.Muxes.{power_quotient}
use nvsim.Bank.Plain.{active_rows, active_columns, per_mat, gating_bits, address_to_mat, ways_fit}
use nvsim.Bank.Plain
use nvsim.Bank.Htree
use nvsim.Bank.Htree.{Route, Tree}
use nvsim.Bank.Htree.Routing.{Routed}
use nvsim.Bank.Htree.Powers.{Powers, Sizes, cut_off_within, address_bits_power, routed-Routed}
use nvsim.Bank.Htree.Cut.{distribute-is, ways}

module _ {b : BankRequest} (p : Powers b) (z : Sizes p) where
  rows_are : active_rows b ≡ 2 ^ p.active_rows
  rows_are =
      cut_off_within _ _ p.active_rows p.rows p.num_active_mat_per_column p.num_row_mat
        z.active_rows

  columns_are : active_columns b ≡ 2 ^ p.active_columns
  columns_are =
      cut_off_within _ _ p.active_columns p.columns p.num_active_mat_per_row p.num_column_mat
        z.active_columns

module _ {D : Type 0} {d : Double D} (exact : IsExact d) {b : BankRequest} (p : Powers b)
    (z : Sizes p) (cell : MemCellType) (kind : b.memory_type ≡ data_array) (r : Route)
    (end : Routed b.block_size
      (p.cap - p.blk - p.way)
      p.active_columns
      p.active_rows
      p.way
      p.columns
      p.rows
      r) where
  idle_mats :
      2 ^ p.rows * 2 ^ p.columns / 2 ^ p.active_rows / 2 ^ p.active_columns
      ≡ 2 ^ (p.rows + p.columns - p.active_rows - p.active_columns)
  idle_mats =
      ap (λ (t : ℕ). t / 2 ^ p.active_rows / 2 ^ p.active_columns) (sym (pow2-add p.rows p.columns))
      ∙ ap (λ (t : ℕ). t / 2 ^ p.active_columns)
          (power_quotient exact (p.rows + p.columns) p.active_rows (omega (arith, z.active_rows)))
      ∙ power_quotient exact (p.rows + p.columns - p.active_rows) p.active_columns
          (omega (arith, z.active_rows, z.active_columns))

  gating_is : gating_bits d b ≡ p.rows + p.columns - p.active_rows - p.active_columns
  unfolding gating_bits
  gating_is =
      rw (rows_are p z, columns_are p z, p.num_row_mat, p.num_column_mat, idle_mats)
        (whole_log2_power exact _ (omega (arith, z.cap, end.spent)))

  same_address : address_to_mat d b ≡ r.address
  unfolding address_to_mat
  same_address =
      rw (address_bits_power exact p z, gating_is, end.address)
        (ground (arith, end.spent, z.active_rows, z.active_columns))

  same_bits : per_mat b b.block_size ≡ r.distribute
  same_bits =
      ap (λ (t : ℕ). t / active_rows b / active_columns b) p.block_size
      ∙ ap (λ (t : ℕ). 2 ^ p.blk / t / active_columns b) (rows_are p z)
      ∙ ap (λ (t : ℕ). 2 ^ p.blk / 2 ^ p.active_rows / t) (columns_are p z)
      ∙ div-div-eq-div-mul (2 ^ p.blk) (2 ^ p.active_rows) (2 ^ p.active_columns)
      ∙ ap (λ (t : ℕ). 2 ^ p.blk / t) (sym (pow2-add p.active_rows p.active_columns))
      ∙ ap (λ (t : ℕ). 2 ^ p.blk / 2 ^ t) (omega arith)
      ∙ sym (distribute-is exact p z cell kind r end)

  same_ways : b.associativity ≡ int_pow2 d r.broadcast
  same_ways = p.associativity ∙ sym (ways exact p z cell kind r end)

  same_request : Plain.mat_request d cell b ≡ Htree.mat_request d cell b r
  unfolding Plain.mat_request Htree.mat_request
  same_request = simp (kind, same_address, same_bits, same_ways) refl

  same_fit : Plain.ways_fit d b.memory_type b ≡ Htree.ways_fit d b.memory_type b r
  same_fit = rw (kind, same_ways) refl

  pub same_finish :
      (t : Tree) → t.route ≡ r → Plain.finish d cell b ≡ Htree.finish d cell b (some t)
  unfolding Plain.finish Htree.finish
  same_finish t e = rw (e, same_fit, same_request) refl

-- For a data bank with internal sense amplifiers whose parameters are powers of two, with no more
-- active units than units, at least one word for each way, and sizes within an `int`: where the routing
-- over the H-tree goes through, the bank without an H-tree ends alike, with the same shape of its mats.
pub initialize-agrees :
    {D : Type 0} {d : Double D} (exact : IsExact d) {b : BankRequest} (p : Powers b) (z : Sizes p)
    (cell : MemCellType) (repeated : Bool) (t : Tree)
    → b.memory_type ≡ data_array
    → b.internal_sense_amp ≡ true
    → p.rows + p.columns < 31
    → Htree.routed d b ≡ some t
    → Plain.initialize d cell repeated b ≡ Htree.initialize d cell b
unfolding Plain.initialize Htree.initialize
initialize-agrees {d = d} exact {b = b} p z cell repeated t kind internal within e =
    simp (internal, e)
      (same_finish exact p z cell kind t.route (routed-Routed exact p z kind t e) t refl)
