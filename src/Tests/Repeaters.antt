-- ===== src/Tests/Repeaters.antt =====
-- A repeated wire at numbers in millionths.
use nvsim.Shared.{ℕ, zero, suc, ◌≤◌, ◌≡◌, refl, some, arith, ℤ, pos, negsuc, ◌*◌, ◌/◌, ◌^◌}
use nvsim.Double.{Double}
use nvsim.Double.Tenths.{Tenths, tenths}
use nvsim.Formula.{
  temp_index, calculate_gate_cap, max_widths, fold, calculate_gate_capacitance, calculate_drain_cap,
  calculate_gate_leakage, calculate_on_resistance,
}
use nvsim.Wire.State.{Wire}
use nvsim.Wire.Repeater.{
  Figures, figures, find_penalized_repeater, repeater_caps, repeater_of,
  get_repeated_wire_unit_delay, get_repeated_wire_unit_dynamic_energy,
  get_repeated_wire_unit_leakage,
}
use nvsim.Wire.Penalty.{shrink, sized, Chosen, find_penalized_repeater-Ends}
use nvsim.Tests.Circuits.{wire, globals, result_or}

abbrev of_micro : ℤ → Tenths
of_micro (pos n) = 1000000 * n
of_micro (negsuc n) = 0

-- Numbers in millionths, so that the step of the spacing is not lost.
abbrev millionths : Double Tenths
millionths = record tenths {
  decimal = λ m e. m * 1000000 / 10 ^ e;
  of_int = of_micro;
  mul = λ a b. a * b / 1000000;
  div = λ a b. a * 1000000 / b;
}

abbrev repeated : Wire Tenths
repeated = record wire { repeater_size = 2500000; repeater_spacing = 100 }

abbrev no_search : Figures Tenths
no_search = record { delay = 0; dynamic_energy = 0; leakage = 0 }

abbrev figures_of : Tenths → Figures Tenths
figures_of x =
    result_or no_search (figures ⦃d = millionths⦄ globals (sized ⦃d = millionths⦄ repeated x))

figures-defined :
    (k : ℕ)
    → k ≤ 2
    → (f : Figures Tenths) × (figures ⦃d = millionths⦄ globals
          (sized ⦃d = millionths⦄ repeated (shrink ⦃d = millionths⦄ k repeated.repeater_size))
        ≡ some f)
unfolding figures get_repeated_wire_unit_delay get_repeated_wire_unit_dynamic_energy
    get_repeated_wire_unit_leakage repeater_caps repeater_of calculate_gate_cap calculate_drain_cap
    calculate_gate_capacitance fold max_widths calculate_on_resistance calculate_gate_leakage
    temp_index
figures-defined zero h = (figures_of 2500000, refl)
figures-defined (suc zero) h = (figures_of 1500000, refl)
figures-defined (suc (suc zero)) h = (figures_of 500000, refl)
figures-defined (suc (suc (suc k))) h = absurd (omega arith)

first-defined : figures ⦃d = millionths⦄ globals repeated ≡ some (figures_of 2500000)
unfolding figures get_repeated_wire_unit_delay get_repeated_wire_unit_dynamic_energy
    get_repeated_wire_unit_leakage repeater_caps repeater_of calculate_gate_cap calculate_drain_cap
    calculate_gate_capacitance fold max_widths calculate_on_resistance calculate_gate_leakage
    temp_index
first-defined = refl

find_penalized_repeater-Ends_example :
    (x : Tenths) × (find_penalized_repeater ⦃d = millionths⦄ globals 3 5 100000 repeated
      ≡ some (sized ⦃d = millionths⦄ repeated x))
    × Chosen ⦃d = millionths⦄ globals ((figures_of 2500000).delay * 1100000 / 1000000) repeated x
find_penalized_repeater-Ends_example =
    find_penalized_repeater-Ends ⦃d = millionths⦄ globals 100000 repeated 2 4 (figures_of 2500000)
      first-defined refl figures-defined refl
