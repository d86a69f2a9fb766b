-- ===== src/Exploration/Space/Reduced.antt =====
-- macros.h: the designs between the bounds of REDUCE_SEARCH_SIZE and of RESTORE_SEARCH_SIZE.
use nvsim.Shared.{ℕ, ◌≤◌, ◌<◌, ◌^◌, refl, arith}
use nvsim.Input.{between, Range, InputParameter}
use nvsim.Exploration.Enumeration.{Visits}
use nvsim.Exploration.Space.Defs.{DesignPoint, big_for, reduce_search_size, restore_search_size}
use nvsim.Exploration.Space.Legal.{
  Within, IsDoubling, HasDoublingRanges, IsLegal, big_for-Visits_iff,
}

from_one : (n : ℕ) → n < 2 ^ 30 → IsDoubling (between 1 n)
from_one n h = record { power = (0, refl); bound = h }

wider-Within : (n : ℕ) (r s : Range) → s.low ≤ r.low → r.high ≤ s.high → Within r n → Within s n
wider-Within n r s low high w = record {
  power = w.power;
  above = omega (arith, low, w.above);
  below = omega (arith, high, w.below);
}

module _ {D : Type 0} (p : InputParameter D) where
  pub reduced-HasDoublingRanges : HasDoublingRanges (reduce_search_size p).search p.associativity
  unfolding reduce_search_size
  reduced-HasDoublingRanges = record {
    num_row_mat = from_one _ (omega arith);
    num_column_mat = from_one _ (omega arith);
    num_active_mat_per_row = from_one _ (omega arith);
    num_active_mat_per_column = from_one _ (omega arith);
    num_row_subarray = from_one _ (omega arith);
    num_column_subarray = from_one _ (omega arith);
    num_active_subarray_per_row = from_one _ (omega arith);
    num_active_subarray_per_column = from_one _ (omega arith);
    mux_sense_amp = from_one _ (omega arith);
    mux_output_lev1 = from_one _ (omega arith);
    mux_output_lev2 = from_one _ (omega arith);
    num_row_per_set = record { power = (0, refl); bound = omega arith };
    area_start = omega arith;
    area_bound = omega arith;
  }

  restored-HasDoublingRanges :
      p.associativity < 2 ^ 30 → HasDoublingRanges (restore_search_size p).search p.associativity
  unfolding restore_search_size
  restored-HasDoublingRanges small = record {
    num_row_mat = from_one _ (omega arith);
    num_column_mat = from_one _ (omega arith);
    num_active_mat_per_row = from_one _ (omega arith);
    num_active_mat_per_column = from_one _ (omega arith);
    num_row_subarray = from_one _ (omega arith);
    num_column_subarray = from_one _ (omega arith);
    num_active_subarray_per_row = from_one _ (omega arith);
    num_active_subarray_per_column = from_one _ (omega arith);
    mux_sense_amp = from_one _ (omega arith);
    mux_output_lev1 = from_one _ (omega arith);
    mux_output_lev2 = from_one _ (omega arith);
    num_row_per_set = record { power = (0, refl); bound = omega (arith, small) };
    area_start = omega arith;
    area_bound = omega arith;
  }

  reduced-IsLegal :
      (x : DesignPoint)
      → IsLegal (reduce_search_size p).search p.associativity x
      → IsLegal (restore_search_size p).search p.associativity x
  unfolding reduce_search_size restore_search_size
  reduced-IsLegal x h = record {
    num_row_mat = wider-Within _ _ _ (omega arith) (omega arith) h.num_row_mat;
    num_column_mat = wider-Within _ _ _ (omega arith) (omega arith) h.num_column_mat;
    num_active_mat_per_row =
        wider-Within _ _ _ (omega arith) (omega arith) h.num_active_mat_per_row;
    num_active_mat_per_column =
        wider-Within _ _ _ (omega arith) (omega arith) h.num_active_mat_per_column;
    num_row_subarray = h.num_row_subarray;
    num_column_subarray = h.num_column_subarray;
    num_active_subarray_per_row = h.num_active_subarray_per_row;
    num_active_subarray_per_column = h.num_active_subarray_per_column;
    mux_sense_amp = wider-Within _ _ _ (omega arith) (omega arith) h.mux_sense_amp;
    mux_output_lev1 = wider-Within _ _ _ (omega arith) (omega arith) h.mux_output_lev1;
    mux_output_lev2 = wider-Within _ _ _ (omega arith) (omega arith) h.mux_output_lev2;
    num_row_per_set = wider-Within _ _ _ (omega arith) (omega arith) h.num_row_per_set;
    area_low = h.area_low;
    area_high = h.area_high;
  }

  -- Each organisation that BIGFOR visits between the reduced bounds, it visits between the restored
  -- ones too, for the associativity of the parameters, where that is below 2 ^ 30.
  pub reduced-Visits :
      (x : DesignPoint)
      → p.associativity < 2 ^ 30
      → Visits (big_for (reduce_search_size p).search p.associativity) x
      → Visits (big_for (restore_search_size p).search p.associativity) x
  reduced-Visits x small v =
      let reduced =
        big_for-Visits_iff (reduce_search_size p).search p.associativity
          reduced-HasDoublingRanges in
      let restored =
        big_for-Visits_iff (restore_search_size p).search p.associativity
          (restored-HasDoublingRanges small) in
      (restored.1 x).1 (reduced-IsLegal x ((reduced.1 x).0 v))
