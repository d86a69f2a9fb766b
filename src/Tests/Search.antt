-- ===== src/Tests/Search.antt =====
-- The search: loops and best results.
use nvsim.Shared.{ℕ, ◌≤◌, ◌≡◌, refl, ◌↔◌, none, [], ◌∷◌, arith, ◌≢◌}
use nvsim.Types.{OptimizationTarget, DeviceRoadmap}
use nvsim.Double.Tenths.{Tenths, tenths, tenths-IsStrictOrder}
use nvsim.Exploration.Enumeration.{Runs, Visits, doubling_from, doubling_from_zero}
use nvsim.Input.{InputParameter, Range}
use nvsim.Exploration.Space.{
  DesignPoint, big_for, IsLegal, HasDoublingRanges, big_for-Visits_iff, Within, reduce_search_size,
  restore_search_size, reduced-HasDoublingRanges, reduced-Visits,
}
use nvsim.Input.Defaults.{default_search}
use nvsim.Result.{Parts, Bank, Limits, Result, new_result, compare_all, apply_limit}
use nvsim.Result.Constraint.{allowed_limits, search_under, count_within, search_under-found}
use nvsim.Input.Defaults.{new_input_parameter}
use nvsim.Result.Best.{IsBest, compare_all-IsBest}

default_ranges : HasDoublingRanges default_search 8
default_ranges = record {
  num_row_mat = record { power = (0, refl); bound = omega arith };
  num_column_mat = record { power = (0, refl); bound = omega arith };
  num_active_mat_per_row = record { power = (0, refl); bound = omega arith };
  num_active_mat_per_column = record { power = (0, refl); bound = omega arith };
  num_row_subarray = record { power = (0, refl); bound = omega arith };
  num_column_subarray = record { power = (0, refl); bound = omega arith };
  num_active_subarray_per_row = record { power = (0, refl); bound = omega arith };
  num_active_subarray_per_column = record { power = (0, refl); bound = omega arith };
  mux_sense_amp = record { power = (0, refl); bound = omega arith };
  mux_output_lev1 = record { power = (0, refl); bound = omega arith };
  mux_output_lev2 = record { power = (0, refl); bound = omega arith };
  num_row_per_set = record { power = (0, refl); bound = omega arith };
  area_start = omega arith;
  area_bound = omega arith;
}

big_for-Visits_iff_example :
    Runs (IsLegal default_search 8) (big_for default_search 8)
    × ((p : DesignPoint) → Visits (big_for default_search 8) p ↔ IsLegal default_search 8 p)
big_for-Visits_iff_example = big_for-Visits_iff default_search 8 default_ranges

doubling_from_zero_example : doubling_from 5 0 512 ≡ none
doubling_from_zero_example = doubling_from_zero 5 512

-- A bank that has one figure for everything.
abbrev bank : ℕ → Bank Tenths ℕ ℕ
bank n = record {
  read_latency = n;
  write_latency = n;
  read_dynamic_energy = n;
  write_dynamic_energy = n;
  leakage = n;
  height = n;
  width = n;
  area = n;
  others = record { taken = n; kept = n };
}

abbrev wire : Parts ℕ ℕ
wire = record { taken = 0; kept = 0 }

abbrev first : Result Tenths ℕ ℕ ℕ ℕ
first = new_result ⦃d = tenths⦄ (bank 7) wire wire

abbrev candidate : ℕ → Result Tenths ℕ ℕ ℕ ℕ
candidate n = record first { bank = bank n }

one_is_not_all : OptimizationTarget.read_latency_optimized ≢ OptimizationTarget.full_exploration
one_is_not_all = cc

compare_all-IsBest_example :
    IsBest ⦃d = tenths⦄ tenths-IsStrictOrder first
      (candidate 30 ∷ candidate 20 ∷ candidate 40 ∷ [])
      (compare_all ⦃d = tenths⦄ first (candidate 30 ∷ candidate 20 ∷ candidate 40 ∷ []))
unfolding new_result
compare_all-IsBest_example =
    compare_all-IsBest ⦃d = tenths⦄ tenths-IsStrictOrder first
      (candidate 30 ∷ candidate 20 ∷ candidate 40 ∷ []) (λ e. one_is_not_all e)

-- The limits that a search whose best figures are all 2.0 sets.
abbrev limits : Limits Tenths
limits =
    allowed_limits ⦃d = tenths⦄ (λ t. bank 20)
      (new_input_parameter ⦃d = tenths⦄ 0 0 DeviceRoadmap.hp 0)

search_under-found_example :
    search_under ⦃d = tenths⦄ limits
      (0, apply_limit ⦃d = tenths⦄ limits first)
      (candidate 30 ∷ candidate 20 ∷ [])
    ≡ (
      count_within ⦃d = tenths⦄ limits (candidate 30 ∷ candidate 20 ∷ []),
      compare_all ⦃d = tenths⦄
          (apply_limit ⦃d = tenths⦄ limits first)
          (candidate 30 ∷ candidate 20 ∷ []),
    )
search_under-found_example =
    search_under-found ⦃d = tenths⦄ limits first (candidate 30 ∷ candidate 20 ∷ [])

abbrev parameters : InputParameter Tenths
parameters = new_input_parameter ⦃d = tenths⦄ 0 0 DeviceRoadmap.hp 0

abbrev smallest : DesignPoint
smallest = record {
  num_row_mat = 1;
  num_column_mat = 1;
  num_active_mat_per_row = 1;
  num_active_mat_per_column = 1;
  num_row_subarray = 1;
  num_column_subarray = 1;
  num_active_subarray_per_row = 1;
  num_active_subarray_per_column = 1;
  mux_sense_amp = 1;
  mux_output_lev1 = 1;
  mux_output_lev2 = 1;
  num_row_per_set = 1;
  area_optimization_level = 0;
}

one-Within : (r : Range) → r.low ≤ 1 → 1 ≤ r.high → Within r 1
one-Within r low high = record { power = (0, refl); above = low; below = high }

smallest-Visits :
    Visits (big_for (reduce_search_size parameters).search parameters.associativity) smallest
unfolding reduce_search_size new_input_parameter
smallest-Visits =
    ((big_for-Visits_iff (reduce_search_size parameters).search parameters.associativity
          (reduced-HasDoublingRanges parameters)).1
        smallest).1
      (record {
        num_row_mat = one-Within _ (omega arith) (omega arith);
        num_column_mat = one-Within _ (omega arith) (omega arith);
        num_active_mat_per_row = one-Within _ (omega arith) (omega arith);
        num_active_mat_per_column = one-Within _ (omega arith) (omega arith);
        num_row_subarray = one-Within _ (omega arith) (omega arith);
        num_column_subarray = one-Within _ (omega arith) (omega arith);
        num_active_subarray_per_row = one-Within _ (omega arith) (omega arith);
        num_active_subarray_per_column = one-Within _ (omega arith) (omega arith);
        mux_sense_amp = one-Within _ (omega arith) (omega arith);
        mux_output_lev1 = one-Within _ (omega arith) (omega arith);
        mux_output_lev2 = one-Within _ (omega arith) (omega arith);
        num_row_per_set = one-Within _ (omega arith) (omega arith);
        area_low = omega arith;
        area_high = omega arith;
      })

reduced-Visits_example :
    Visits (big_for (restore_search_size parameters).search parameters.associativity) smallest
unfolding new_input_parameter
reduced-Visits_example = reduced-Visits parameters smallest (omega arith) smallest-Visits
