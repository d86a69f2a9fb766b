-- ===== src/Input/Ranges.antt =====
-- The ranges of the search space: no input file gives one a lower end above its upper end.
use Prim.Native.String.{String}
use nvsim.Shared.{
  ◌>>=◌, ℕ, ◌≤◌, ◌*◌, ◌*◌, ◌*◌, Option, none, some, List, [], ◌∷◌, ◌++◌, All, All-append, arith,
  Bool-cases, inl, inr,
}
use nvsim.Types.{DeviceRoadmap}
use nvsim.Double.{Double}
use nvsim.Config.{scan_literal, scan_int, same, changed}
use nvsim.Config.Keeps.{Keeps, Holds, with_word-Holds, run_lines-Keeps}
use nvsim.Input.{Range, SearchSpace, InputParameter}
use nvsim.Input.Defaults.{new_input_parameter}
use nvsim.Input.Design.{design_keys, capacity_in, set_design_target}
use nvsim.Input.Searching.{search_keys, set_cacti}
use nvsim.Input.Bounding.{bound_keys}
use nvsim.Input.Reader.{parameter_keys, read_input_parameter}

abbrev pub ranges : SearchSpace → List Range
ranges s =
    s.num_row_mat ∷ s.num_column_mat ∷ s.num_active_mat_per_row ∷ s.num_active_mat_per_column
    ∷ s.num_row_subarray ∷ s.num_column_subarray ∷ s.num_active_subarray_per_row
    ∷ s.num_active_subarray_per_column ∷ s.mux_sense_amp ∷ s.mux_output_lev1 ∷ s.mux_output_lev2
    ∷ s.num_row_per_set ∷ s.area_optimization_level ∷ s.local_wire_type ∷ s.global_wire_type
    ∷ s.local_wire_repeater_type ∷ s.global_wire_repeater_type ∷ s.is_local_wire_low_swing
    ∷ s.is_global_wire_low_swing ∷ []

-- Both ends of every range are in order.
abbrev pub IsOrdered : {D : Type 0} → InputParameter D → Type 0
IsOrdered p = All (λ r. r.low ≤ r.high) (ranges p.search)

module _ {D : Type 0} (strtod : String → Option D) where
  capacity_in-Keeps :
      (unit : ℕ) (key format : String) → Keeps IsOrdered (capacity_in {D = D} unit key format)
  capacity_in-Keeps unit key format line s p = scanned (scan_literal format line >>= scan_int)
    where
      scanned :
          (n : Option (ℕ × String))
          → Holds IsOrdered (n >>= (λ r. changed (λ q. record q { capacity = r.0 * unit }) s))
      scanned none = tt
      scanned (some r) = p

  set_design_target-Ordered :
      (w : String) (p : InputParameter D) → IsOrdered p → IsOrdered (set_design_target w p)
  set_design_target-Ordered w p h = elim (Bool-cases (same w "cache")) [
    | inl e ↦ rw e h
    | inr e ↦ rw e (ground arith)
  ]

  set_cacti-Ordered : (w : String) (p : InputParameter D) → IsOrdered p → IsOrdered (set_cacti w p)
  set_cacti-Ordered w p h = elim (Bool-cases (same w "Yes")) [
    | inl e ↦ rw e (ground arith)
    | inr e ↦ rw e h
  ]

  design_keys-Keep : All (Keeps IsOrdered) (design_keys strtod)
  unfolding design_keys
  design_keys-Keep = (
    λ line s h. with_word-Holds IsOrdered _ _ _ (λ w. set_design_target-Ordered w s.value h),
    (
      λ line s h. with_word-Holds IsOrdered _ _ _ (λ w. h),
      (
        λ line s h. with_word-Holds IsOrdered _ _ _ (λ w. h),
        (
          λ line s h. h,
          (
            capacity_in-Keeps 1 "-Capacity (B)" "-Capacity (B): ",
            (
              capacity_in-Keeps 1024 "-Capacity (KB)" "-Capacity (KB): ",
              (
                capacity_in-Keeps (1024 * 1024) "-Capacity (MB)" "-Capacity (MB): ",
                (
                  λ line s h. h,
                  (
                    λ line s h. h,
                    (
                      λ line s h. h,
                      (
                        λ line s h. h,
                        (
                          λ line s h. with_word-Holds IsOrdered _ _ _ (λ w. h),
                          (
                            λ line s h. with_word-Holds IsOrdered _ _ _ (λ w. h),
                            (λ line s h. with_word-Holds IsOrdered _ _ _ (λ w. h), tt),
                          ),
                        ),
                      ),
                    ),
                  ),
                ),
              ),
            ),
          ),
        ),
      ),
    ),
  )

  search_keys-Keep : All (Keeps IsOrdered) (search_keys strtod)
  unfolding search_keys
  search_keys-Keep = (
    λ line s h. with_word-Holds IsOrdered _ _ _ (λ w. ground arith),
    (
      λ line s h. with_word-Holds IsOrdered _ _ _ (λ w. ground arith),
      (
        λ line s h. with_word-Holds IsOrdered _ _ _ (λ w. ground arith),
        (
          λ line s h. with_word-Holds IsOrdered _ _ _ (λ w. ground arith),
          (
            λ line s h. with_word-Holds IsOrdered _ _ _ (λ w. ground arith),
            (
              λ line s h. with_word-Holds IsOrdered _ _ _ (λ w. ground arith),
              (
                λ line s h. with_word-Holds IsOrdered _ _ _ (λ w. h),
                (
                  λ line s h. with_word-Holds IsOrdered _ _ _ (λ w. h),
                  (
                    λ line s h. with_word-Holds IsOrdered _ _ _ (λ w. h),
                    (
                      λ line s h. h,
                      (
                        λ line s h. ground arith,
                        (
                          λ line s h. ground arith,
                          (
                            λ line s h. ground arith,
                            (
                              λ line s h. ground arith,
                              (
                                λ line s h. ground arith,
                                (
                                  λ line s h.
                                      with_word-Holds IsOrdered _ _ _
                                        (λ w. set_cacti-Ordered w s.value h),
                                  tt,
                                ),
                              ),
                            ),
                          ),
                        ),
                      ),
                    ),
                  ),
                ),
              ),
            ),
          ),
        ),
      ),
    ),
  )

  bound_keys-Keep : All (Keeps IsOrdered) (bound_keys strtod)
  unfolding bound_keys
  bound_keys-Keep = (
    λ line s h. with_word-Holds IsOrdered _ _ _ (λ w. h),
    (
      λ line s h. with_word-Holds IsOrdered _ _ _ (λ w. ground arith),
      (
        λ line s h. h,
        (
          λ line s h. h,
          (
            λ line s h. h,
            (
              λ line s h. h,
              (
                λ line s h. h,
                (
                  λ line s h. h,
                  (λ line s h. h, (λ line s h. h, (λ line s h. h, (λ line s h. h, tt)))),
                ),
              ),
            ),
          ),
        ),
      ),
    ),
  )

  parameter_keys-Keep : All (Keeps IsOrdered) (parameter_keys strtod)
  unfolding parameter_keys
  parameter_keys-Keep =
      All-append (Keeps IsOrdered) (design_keys strtod) (search_keys strtod ++ bound_keys strtod)
        design_keys-Keep
        (All-append (Keeps IsOrdered) (search_keys strtod) (bound_keys strtod) search_keys-Keep
          bound_keys-Keep)

  -- Whatever lines the file has, if the reader's behaviour is defined, then from a parameter object
  -- whose ranges have their lower ends at most their upper ends it makes another one of these.
  pub read_input_parameter-Ordered :
      (lines : List String) (p : InputParameter D)
      → IsOrdered p
      → Holds IsOrdered (read_input_parameter strtod lines p)
  unfolding read_input_parameter
  read_input_parameter-Ordered lines p h =
      run_lines-Keeps IsOrdered (parameter_keys strtod) parameter_keys-Keep lines
        (record { tmp = none; value = p }) h

  -- The constructor's ranges are in order.
  pub new_input_parameter-Ordered :
      ⦃d : Double D⦄ (c w : ℕ) (r : DeviceRoadmap) (t : ℕ)
      → IsOrdered {D = D} (new_input_parameter c w r t)
  unfolding new_input_parameter
  new_input_parameter-Ordered c w r t = ground arith
