-- ===== src/Mat.antt =====
-- Mat.h and Mat.cpp: how a mat cuts its address and data bits into subarrays and predecoders.
pub mod Shape
use package.nvsim.Shared.{
  ℕ, zero, suc, ◌-◌, ◌*◌, ◌/◌, ◌^◌, Bool, true, false, ◌≡◌, leb, ltb, ◌==◌, ◌||◌, if◌then◌else◌, ℤ,
  pos, negsuc, minus, pos_part,
}
use package.nvsim.Types.{MemoryType, data_array, tag, cam}
use package.nvsim.Double.{Double, whole_log2}

-- How a call of `Initialize` ends: with a result, with the flag `invalid`, or in a step that C++
-- leaves undefined: a shift of `1`, an `int`, by 31 or more, a product of `int`s that is not an `int`,
-- or a division by 0.
pub data Outcome (A : Type 0) : Type 0 where
  valid : A → Outcome A
  invalid : Outcome A
  undefined : Outcome A

-- The arguments of `Mat::Initialize` that the cut depends on.
pub record MatRequest : Type 0 where
  pub num_row_subarray : ℕ
  pub num_column_subarray : ℕ
  pub num_address_bit : ℤ
  pub num_data_bit : ℕ
  pub num_way : ℕ
  pub num_row_per_set : ℕ
  pub num_active_subarray_per_row : ℕ
  pub num_active_subarray_per_column : ℕ
  pub mux_sense_amp : ℕ
  pub mux_output_lev1 : ℕ
  pub mux_output_lev2 : ℕ
  pub memory_type : MemoryType

-- The subarray's size, and the address bits that are left for it.
pub record MatShape : Type 0 where
  pub num_row : ℕ
  pub num_column : ℕ
  pub num_address_bit : ℕ

-- A number of active units, cut off at the number of units, with a warning.
unfoldable pub cut_off : ℕ → ℕ → ℕ
cut_off active total = if ltb total active then total else active

abbrev pub mux_degree : MatRequest → ℕ
mux_degree m = m.mux_sense_amp * m.mux_output_lev1 * m.mux_output_lev2

abbrev pub active_subarrays : MatRequest → ℕ
active_subarrays m =
    cut_off m.num_active_subarray_per_row m.num_column_subarray
    * cut_off m.num_active_subarray_per_column m.num_row_subarray

abbrev pub is_data : MemoryType → Bool
is_data data_array = true
is_data tag = false
is_data cam = false

abbrev pub is_tag : MemoryType → Bool
is_tag data_array = false
is_tag tag = true
is_tag cam = false

-- `numRow`, from the effective address bits.
unfoldable pub rows_of : MatRequest → ℕ → ℕ
rows_of m bits = (if is_data m.memory_type then 2 ^ bits * m.num_way else 2 ^ bits) / mux_degree m

-- `numColumn` before the multiplication by the mux degree.
unfoldable pub data_columns_of : MatRequest → ℕ
unfolding cut_off
data_columns_of m = m.num_data_bit / active_subarrays m

unfoldable pub columns_of : MatRequest → ℕ
unfolding data_columns_of
columns_of m =
    if is_tag m.memory_type
    then data_columns_of m * mux_degree m * m.num_way
    else data_columns_of m * mux_degree m

-- Whether the shift or the product of the three `int`s is undefined, or the division by the product.
unfoldable pub is_undefined : MatRequest → ℕ → Bool
is_undefined m bits = leb 31 bits || (mux_degree m == 0) || leb (2 ^ 31) (mux_degree m)

-- From the effective number of address bits on.
unfoldable pub shape_from : MatRequest → ℤ → Outcome MatShape
unfolding rows_of columns_of is_undefined
shape_from m (negsuc n) = invalid
shape_from m (pos zero) = invalid
shape_from m (pos (suc n)) =
    if is_undefined m (suc n)
    then undefined
    else (if rows_of m (suc n) == 0
        then invalid
        else (if data_columns_of m == 0
            then invalid
            else valid (record {
              num_row = rows_of m (suc n);
              num_column = columns_of m;
              num_address_bit = suc n;
            })))

-- The address bits that gate inactive subarrays.
unfoldable pub gating_bits : {D : Type 0} → Double D → MatRequest → ℕ
unfolding cut_off
gating_bits d m = whole_log2 d (
    m.num_row_subarray
    * m.num_column_subarray
    / cut_off m.num_active_subarray_per_column m.num_row_subarray
    / cut_off m.num_active_subarray_per_row m.num_column_subarray)

-- `Mat::Initialize` up to the call of `subarray.Initialize`.
unfoldable pub shape : {D : Type 0} → Double D → MatRequest → Outcome MatShape
unfolding shape_from gating_bits
shape d m = shape_from m (minus m.num_address_bit (gating_bits d m))

-- A predecoder's address bits, in two blocks from four bits on.
unfoldable pub two_blocks : ℕ → ℕ × ℕ
two_blocks n = if ltb 3 n then (n - n / 2, n / 2) else (n, 0)
