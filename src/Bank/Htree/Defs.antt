-- ===== src/Bank/Htree/Defs.antt =====
-- `BankWithHtree::Initialize`: the split of the bits over the levels of the tree.
use nvsim.Shared.{
  ◌>>=◌, ℕ, zero, suc, ◌+◌, ◌-◌, ◌*◌, ◌/◌, Bool, true, not, ◌&&◌, ◌||◌, ltb, leb, ◌==◌,
  if◌then◌else◌, Option, none, some, List, [], ◌∷◌, ℤ, pos, minus, is_zero, pos_part,
}
use nvsim.Types.{MemoryType, MemCellType, data_array, tag, cam}
use nvsim.Double.{Double, whole_log2}
use nvsim.Mat.{Outcome, invalid, MatRequest, MatShape, shape, cut_off}
use nvsim.Bank.Request.{BankRequest, Muxes, int_pow2, address_bits, widen_muxes}

-- The bits still to route, and the active units still to reach.
pub record Route : Type 0 where
  pub address : ℤ
  pub distribute : ℕ
  pub broadcast : ℕ
  pub row_to_active : ℕ
  pub column_to_active : ℕ

-- The entries of the arrays for one level of the tree.
pub record Level : Type 0 where
  pub address_bit : ℤ
  pub data_distribute_bit : ℕ
  pub data_broadcast_bit : ℕ
  pub num_wire : ℕ
  pub num_sum_wire : ℕ
  pub num_active_wire : ℕ

-- The two groups of arrays, the last written level first, and `hTemp` and `vTemp`.
pub record Tree : Type 0 where
  pub route : Route
  pub horizontal : List Level
  pub vertical : List Level
  pub h_temp : ℕ
  pub v_temp : ℕ

-- Nothing is left to route.
abbrev pub is_exhausted : Route → Bool
is_exhausted r = (r.distribute + r.broadcast == 0) || is_zero r.address

-- One split of the columns: in two active halves, or by an address bit; with the growth of the
-- number of active wires.
unfoldable pub split_column : Route → Route × ℕ
split_column r =
    if ltb 1 r.column_to_active
    then (record r { distribute = r.distribute / 2; column_to_active = r.column_to_active / 2 }, 2)
    else (record r { address = minus r.address 1 }, 1)

unfoldable pub split_row : Route → Route × ℕ
split_row r =
    if ltb 1 r.row_to_active
    then (record r { distribute = r.distribute / 2; row_to_active = r.row_to_active / 2 }, 2)
    else (record r { address = minus r.address 1 }, 1)

abbrev pub level : Route → ℕ → ℕ → ℕ → Level
level r wire sum active = record {
  address_bit = r.address;
  data_distribute_bit = r.distribute;
  data_broadcast_bit = r.broadcast;
  num_wire = wire;
  num_sum_wire = sum;
  num_active_wire = active;
}

-- The wires of the last level of a list, or of another list if that one is empty.
abbrev pub last_or : List Level → List Level → (Level → ℕ) → ℕ
last_or (l ∷ ls) other f = f l
last_or [] (l ∷ ls) f = f l
last_or [] [] f = 1

-- "Always route H as the first step".
unfoldable pub first_level : ℕ → Tree → Option Tree
first_level zero t = some t
first_level (suc h) t =
    if is_exhausted t.route
    then none
    else some (record t { horizontal = level t.route 1 1 1 ∷ t.horizontal })

-- "If H is larger than V, then reduce H to V": one round, then the loop.
unfoldable pub narrow : Tree → Option Tree
narrow t =
    if is_exhausted t.route
    then none
    else (let (r, k) = split_column t.route in
        some (record t {
          route = r;
          horizontal =
              level r 1 (2 * last_or t.horizontal [] (λ l. l.num_sum_wire))
                (k * last_or t.horizontal [] (λ l. l.num_active_wire))
              ∷ t.horizontal;
          v_temp = t.v_temp * 2;
        }))

unfoldable pub narrow_all : ℕ → Tree → Option Tree
narrow_all zero t = some t
narrow_all (suc n) t = narrow t >>= narrow_all n

-- "If V is larger than H, then reduce V to H".
unfoldable pub lower : Tree → Option Tree
lower t =
    if is_exhausted t.route
    then none
    else (let (r, k) = split_row t.route in
        some (record t {
          route = r;
          vertical =
              level r 1 (2 * last_or t.vertical [] (λ l. l.num_sum_wire))
                (k * last_or t.vertical [] (λ l. l.num_active_wire))
              ∷ t.vertical;
          h_temp = t.h_temp * 2;
        }))

unfoldable pub lower_all : ℕ → Tree → Option Tree
lower_all zero t = some t
lower_all (suc n) t = lower t >>= lower_all n

-- "Reduce H an V to zero": the horizontal half of a round.
unfoldable pub branch_horizontal : Tree → Option Tree
branch_horizontal t =
    if is_exhausted t.route
    then none
    else (let (r, k) = split_column t.route in
        some (record t {
          route = r;
          horizontal =
              level r t.h_temp (2 * last_or t.vertical t.horizontal (λ l. l.num_sum_wire))
                (k * last_or t.vertical t.horizontal (λ l. l.num_active_wire))
              ∷ t.horizontal;
        }))

-- The vertical half, with `levelHorizontal`.
unfoldable pub branch_vertical : ℕ → Tree → Option Tree
branch_vertical level_horizontal t =
    if is_exhausted t.route
    then none
    else (let (r, k) = split_row t.route in
        some (record t {
          route = r;
          vertical =
              level r (if level_horizontal == 2 then t.v_temp else 2 * t.v_temp)
                (2 * last_or t.horizontal [] (λ l. l.num_sum_wire))
                (k * last_or t.horizontal [] (λ l. l.num_active_wire))
              ∷ t.vertical;
          h_temp = t.h_temp * 2;
          v_temp = t.v_temp * 2;
        }))

unfoldable pub branch_all : ℕ → ℕ → Tree → Option Tree
branch_all level_horizontal zero t = some t
branch_all level_horizontal (suc n) t =
    branch_horizontal t >>= branch_vertical level_horizontal >>= branch_all level_horizontal n

-- The split to the single mat, after the loops.
unfoldable pub split_last : ℕ → Route → Route
split_last level_horizontal r =
    if ltb 1 r.column_to_active
    then record r { distribute = r.distribute / 2; column_to_active = r.column_to_active / 2 }
    else (if ltb 0 level_horizontal then record r { address = minus r.address 1 } else r)

unfoldable pub last_split : ℕ → Tree → Option Tree
last_split level_horizontal t =
    if is_exhausted t.route
    then none
    else some (record t { route = split_last level_horizontal t.route })

-- All of the routing. With h and v levels the first loop makes h - 1 - v rounds, the second v less
-- the h that is left, and the third what both still have.
unfoldable pub route_all : ℕ → ℕ → Tree → Option Tree
route_all h v t = do
  t ← first_level h t
  t ← narrow_all (h - 1 - v) t
  t ← lower_all (v - (h - 1 - (h - 1 - v))) t
  t ← branch_all h (h - 1 - (h - 1 - v)) t
  last_split h t

module _ {D : Type 0} (d : Double D) where
  abbrev pub by_type : MemoryType → BankRequest → ℕ × ℕ
  by_type data_array b =
      (b.block_size, pos_part (d.trunc (d.log2 (d.of_int (pos b.associativity)))))
  by_type tag b = (b.associativity, b.block_size)
  by_type cam b = (0, b.block_size)

  -- The physical signals to route: data-in and data-out bits.
  unfoldable pub data_bits : BankRequest → ℕ × ℕ
  data_bits b = by_type b.memory_type b

  unfoldable pub start : BankRequest → Tree
  unfolding data_bits address_bits cut_off
  start b = record {
    route = record {
      address = address_bits d b;
      distribute = (data_bits b).0;
      broadcast = (data_bits b).1;
      row_to_active = cut_off b.point.num_active_mat_per_column b.point.num_row_mat;
      column_to_active = cut_off b.point.num_active_mat_per_row b.point.num_column_mat;
    };
    horizontal = [];
    vertical = [];
    h_temp = 1;
    v_temp = 1;
  }

  -- Whether the ways of a set fit the rows and the mat.
  abbrev pub ways_fit : MemoryType → BankRequest → Route → Bool
  ways_fit data_array b r = leb b.point.num_row_per_set (int_pow2 d r.broadcast)
  ways_fit tag b r = leb b.point.num_row_per_set 1 && not (r.distribute == 0)
  ways_fit cam b r = true

  -- The columns and ways of a mat.
  abbrev pub mat_columns : MemoryType → Route → ℕ × ℕ
  mat_columns data_array r = (r.distribute, int_pow2 d r.broadcast)
  mat_columns tag r = (r.broadcast, r.distribute)
  mat_columns cam r = (r.broadcast, 1)

  abbrev pub point_muxes : BankRequest → Muxes
  point_muxes b = record {
    sense_amp = b.point.mux_sense_amp;
    output_lev1 = b.point.mux_output_lev1;
    output_lev2 = b.point.mux_output_lev2;
  }

  abbrev pub mat_muxes : MemoryType → MemCellType → BankRequest → Route → Muxes
  mat_muxes data_array cell b r =
      widen_muxes d cell (int_pow2 d r.broadcast / b.point.num_row_per_set) (point_muxes b)
  mat_muxes tag cell b r = point_muxes b
  mat_muxes cam cell b r = point_muxes b

  -- The call of `mat.Initialize`.
  unfoldable pub mat_request : MemCellType → BankRequest → Route → MatRequest
  unfolding cut_off
  mat_request cell b r =
      let m = mat_muxes b.memory_type cell b r in
      let (columns, ways) = mat_columns b.memory_type r in
      record {
        num_row_subarray = b.point.num_row_subarray;
        num_column_subarray = b.point.num_column_subarray;
        num_address_bit = r.address;
        num_data_bit = columns;
        num_way = ways;
        num_row_per_set = b.point.num_row_per_set;
        num_active_subarray_per_row =
            cut_off b.point.num_active_subarray_per_row b.point.num_column_subarray;
        num_active_subarray_per_column =
            cut_off b.point.num_active_subarray_per_column b.point.num_row_subarray;
        mux_sense_amp = m.sense_amp;
        mux_output_lev1 = m.output_lev1;
        mux_output_lev2 = m.output_lev2;
        memory_type = b.memory_type;
      }

  -- From the end of the routing to the call of `mat.Initialize`.
  unfoldable pub finish : MemCellType → BankRequest → Option Tree → Outcome MatShape
  unfolding mat_request
  finish cell b none = invalid
  finish cell b (some t) =
      if ways_fit b.memory_type b t.route then shape d (mat_request cell b t.route) else invalid

  unfoldable pub routed : BankRequest → Option Tree
  unfolding start route_all
  routed b =
      route_all (whole_log2 d b.point.num_column_mat) (whole_log2 d b.point.num_row_mat) (start b)

  -- `BankWithHtree::Initialize`, for the shape of its mats.
  unfoldable pub initialize : MemCellType → BankRequest → Outcome MatShape
  unfolding finish routed
  initialize cell b = if b.internal_sense_amp then finish cell b (routed b) else invalid
