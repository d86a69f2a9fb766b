-- ===== src/Wire/Delay.antt =====
-- Wire.cpp: CalculateLatencyAndPower of a wire that is not low-swing, and the assignment.
use nvsim.Shared.{true, false, Option, some, ◌>>=◌}
use nvsim.Double.{Double, ◌⊗◌, ◌⊘◌, whole}
use nvsim.Globals.{Globals}
use nvsim.Wire.State.{Wire}
use nvsim.Wire.Repeater.{Figures, figures}
use nvsim.Wire.Setup.{is_repeated}

module _ {D : Type 0} ⦃d : Double D⦄ where
  -- The delay, dynamic energy and leakage power of a length of wire. Before Initialize the source
  -- leaves what it is given.
  unfoldable pub plain_latency_and_power : Globals D → D → Wire D → Figures D → Option (Figures D)
  plain_latency_and_power g length w given = elim w.initialized [
    | false ↦ some given
    | true ↦ elim (is_repeated w.wire_repeater_type) [
      | false ↦ some (record {
        delay =
            d.decimal 23 1 ⊗ w.res_wire_per_unit ⊗ w.cap_wire_per_unit ⊗ length ⊗ length ⊘ whole 2;
        dynamic_energy = w.cap_wire_per_unit ⊗ length ⊗ g.tech.vdd ⊗ g.tech.vdd;
        leakage = whole 0;
      })
      | true ↦ do
        f ← figures g w
        some (record {
          delay = f.delay ⊗ length;
          dynamic_energy = f.dynamic_energy ⊗ length;
          leakage = f.leakage ⊗ length;
        })
    ]
  ]
