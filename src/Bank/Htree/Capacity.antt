-- ===== src/Bank/Htree/Capacity.antt =====
-- BankWithHtree.cpp: the capacity of a data bank, as VERIFY_DATA_CAPACITY of macros.h counts it.
use nvsim.Shared.{
  ℕ, ◌+◌, ◌-◌, ◌*◌, ◌^◌, ◌≡◌, refl, sym, ap, ◌∙◌, true, arith, pos, minus, pow2-add, Option, none,
  some, Bool-cases, inl, inr,
}
use nvsim.Types.{MemCellType, data_array}
use nvsim.Double.{Double, IsExact}
use nvsim.Mat.{valid, invalid, MatShape, shape, gating_bits}
use nvsim.Mat.Shape.{cells_data}
use nvsim.Bank.Request.{BankRequest}
use mathlib.Core.Path.{ap₂}
use nvsim.Bank.Htree.Defs.{Route, Tree, ways_fit, mat_request, finish, routed, initialize}
use nvsim.Bank.Htree.Routing.{Routed}
use nvsim.Bank.Htree.Powers.{Powers, Sizes, cell_count, routed-Routed}
use nvsim.Bank.Htree.Cut.{
  per_set-le, request-kind, request-ways, request-bits, request-active, request-mux, request-gating,
  request-address,
}

left_of : (left gating n : ℕ) → minus (pos left) gating ≡ pos n → left ≡ n + gating
left_of left gating n e = ground arith

six : (c r w x y z : ℕ) → c * r * w * x * y * z ≡ r * c * (w * x * y * z)
six c r w x y z = omega arith

spread : (cells a x : ℕ) → cells * 2 ^ (a + x) ≡ cells * 2 ^ a * 2 ^ x
spread cells a x = rw (pow2-add a x) (omega arith)

module _ {b : BankRequest} (p : Powers b) (z : Sizes p) where
  -- The cells of the subarrays of all mats, from those of one subarray.
  total :
      (n left cells : ℕ)
      → minus (pos left) (p.sub_rows + p.sub_columns - p.active_sub_rows - p.active_sub_columns)
        ≡ pos n
      → left + (p.columns - p.active_columns) + (p.rows - p.active_rows) ≡ p.cap - p.blk - p.way
      → cells * 2 ^ (p.active_columns + p.active_rows + (p.active_sub_columns + p.active_sub_rows))
        ≡ 2 ^ (n + p.way) * 2 ^ p.blk
      → cells * 2 ^ (p.columns + p.rows + p.sub_columns + p.sub_rows) ≡ 2 ^ p.cap
  total n left cells rest spent one =
      let gating = p.sub_rows + p.sub_columns - p.active_sub_rows - p.active_sub_columns in
      let left_is : left ≡ n + gating = left_of left gating n rest in
      let active = p.active_columns + p.active_rows + (p.active_sub_columns + p.active_sub_rows) in
      let idle = p.columns + p.rows + p.sub_columns + p.sub_rows - active in
      let all : p.columns + p.rows + p.sub_columns + p.sub_rows ≡ active + idle =
        omega (arith, z.active_columns, z.active_rows, z.active_sub_columns, z.active_sub_rows) in
      let bits : n + p.way + p.blk + idle ≡ p.cap = omega (
        arith, z.active_columns, z.active_rows, z.active_sub_columns, z.active_sub_rows, z.words,
      ) in
      ap (λ (t : ℕ). cells * 2 ^ t) all
      ∙ spread cells active idle
      ∙ ap (λ (t : ℕ). t * 2 ^ idle) one
      ∙ ap (λ (t : ℕ). t * 2 ^ idle) (sym (pow2-add (n + p.way) p.blk))
      ∙ sym (pow2-add (n + p.way + p.blk) idle)
      ∙ ap (λ (t : ℕ). 2 ^ t) bits

  regrouped :
      (s : MatShape)
      → cell_count b s
        ≡ s.num_row * s.num_column * 2 ^ (p.columns + p.rows + p.sub_columns + p.sub_rows)
  unfolding cell_count
  regrouped s =
      rw
        (
          p.num_column_mat,
          p.num_row_mat,
          p.num_column_subarray,
          p.num_row_subarray,
          pow2-add (p.columns + p.rows + p.sub_columns) p.sub_rows,
          pow2-add (p.columns + p.rows) p.sub_columns,
          pow2-add p.columns p.rows,
        )
        (six s.num_column s.num_row (2 ^ p.columns) (2 ^ p.rows) (2 ^ p.sub_columns)
          (2 ^ p.sub_rows))

module _ {D : Type 0} {d : Double D} (exact : IsExact d) {b : BankRequest} (p : Powers b)
    (z : Sizes p) (cell : MemCellType) (kind : b.memory_type ≡ data_array) (r : Route)
    (end : Routed b.block_size
      (p.cap - p.blk - p.way)
      p.active_columns
      p.active_rows
      p.way
      p.columns
      p.rows
      r) where
  -- A mat of the routed tree that gets a shape.
  shape-cells :
      (s : MatShape)
      → ways_fit d b.memory_type b r ≡ true
      → shape d (mat_request d cell b r) ≡ valid s
      → cell_count b s ≡ b.capacity
  unfolding shape cell_count
  shape-cells s fit got =
      let m = mat_request d cell b r in
      let le = (per_set-le exact p z cell kind r end fit) in
      let (n, rest, one) =
        cells_data m (minus m.num_address_bit (gating_bits d m)) s p.way
          (p.mux0 + p.mux1 + p.mux2 + (p.way - p.per_set)) p.blk (p.active_columns + p.active_rows)
          (p.active_sub_columns + p.active_sub_rows) (request-kind exact p z cell kind r end)
          (request-ways exact p z cell kind r end) (request-mux exact p z cell kind r end le)
          (request-bits exact p z cell kind r end) (request-active exact p z cell kind r end) got in
      let rest' =
        sym (
          ap₂ minus (request-address exact p z cell kind r end ∙ end.address)
            (request-gating exact p z cell kind r end))
        ∙ rest in
      let sum = total p z n end.left (s.num_row * s.num_column) rest' end.spent one in
      regrouped p z s ∙ sum ∙ sym p.capacity

invalid≢valid : (s : MatShape) → (invalid ≡ valid s) → ⊥
invalid≢valid s = cc

finish_inv :
    {D : Type 0} (d : Double D) (cell : MemCellType) (b : BankRequest) (o : Option Tree)
    (s : MatShape)
    → finish d cell b o ≡ valid s
    → (t : Tree) × (o ≡ some t)
      × (ways_fit d b.memory_type b t.route ≡ true)
      × (shape d (mat_request d cell b t.route) ≡ valid s)
unfolding finish
finish_inv d cell b none s e = cc
finish_inv d cell b (some t) s e = elim (Bool-cases (ways_fit d b.memory_type b t.route)) [
  | inl on ↦ (t, refl, on, rw on at e)
  | inr off ↦ absurd (invalid≢valid s (rw off at e))
]

initialize_inv :
    {D : Type 0} (d : Double D) (cell : MemCellType) (b : BankRequest) (s : MatShape)
    → initialize d cell b ≡ valid s
    → finish d cell b (routed d b) ≡ valid s
unfolding initialize
initialize_inv d cell b s e = ground arith

-- For a data bank with an H-tree whose parameters are powers of two, with no more active units than
-- units, at least one word for each way, and sizes within an `int`: if its mat gets a shape and
-- arithmetic on powers of two is exact, the cells of all its subarrays are just its capacity, so that
-- the check VERIFY_DATA_CAPACITY does not fail.
pub initialize-capacity :
    {D : Type 0} {d : Double D} (exact : IsExact d) {b : BankRequest} (p : Powers b) (z : Sizes p)
    (cell : MemCellType) (s : MatShape)
    → b.memory_type ≡ data_array
    → initialize d cell b ≡ valid s
    → cell_count b s ≡ b.capacity
initialize-capacity {d = d} exact {b = b} p z cell s kind e =
    let (t, went, fit, got) = finish_inv d cell b (routed d b) s (initialize_inv d cell b s e) in
    shape-cells exact p z cell kind t.route (routed-Routed exact p z kind t went) s fit got
