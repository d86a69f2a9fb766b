-- ===== src/FunctionUnit.antt =====
-- FunctionUnit.h: the figures that every circuit has.
use nvsim.Shared.{◌^◌}
use nvsim.Double.{Double}

pub record FunctionUnit (D : Type 0) : Type 0 where
  pub height : D
  pub width : D
  pub area : D
  pub read_latency : D
  pub write_latency : D
  pub read_dynamic_energy : D
  pub write_dynamic_energy : D
  pub leakage : D
  pub set_latency : D
  pub reset_latency : D
  pub set_dynamic_energy : D
  pub reset_dynamic_energy : D
  pub cell_read_energy : D
  pub cell_set_energy : D
  pub cell_reset_energy : D

module _ {D : Type 0} ⦃d : Double D⦄ where
  -- 1e41, the figure of an invalid circuit.
  abbrev pub huge : D
  huge = d.decimal (10 ^ 41) 0

  abbrev pub with_area : D → D → D → FunctionUnit D → FunctionUnit D
  with_area height width area u = record u { height = height; width = width; area = area }

  abbrev pub with_latency : D → D → FunctionUnit D → FunctionUnit D
  with_latency read written u = record u { read_latency = read; write_latency = written }

  abbrev pub with_power : D → D → D → FunctionUnit D → FunctionUnit D
  with_power read written leakage u = record u {
    read_dynamic_energy = read;
    write_dynamic_energy = written;
    leakage = leakage;
  }
