-- ===== src/Globals.antt =====
-- global.h: the global objects that the circuits read.
use nvsim.Shared.{Option, none, some}
use nvsim.Double.{Double, ◌⊗◌, whole}
use nvsim.Input.{InputParameter}
use nvsim.Cell.{MemCell}
use nvsim.Technology.State.{Technology}
use nvsim.Wire.State.{Wire}
use nvsim.Formula.{temp_index}

pub record Globals (D : Type 0) : Type 0 where
  pub input : InputParameter D
  pub tech : Technology D
  pub cell : MemCell D
  pub local_wire : Wire D

module _ {D : Type 0} ⦃d : Double D⦄ where
  -- `tech->currentOnNmos[inputParameter->temperature - 300]`; outside of the array the source reads
  -- what is not its own: `none`.
  unfoldable pub on_current : Globals D → Option D
  on_current g = elim (temp_index g.input.temperature) [
    | none ↦ none
    | some i ↦ some (g.tech.current_on_nmos i)
  ]

  -- `MIN_NMOS_SIZE * tech->featureSize`.
  abbrev pub min_nmos : Globals D → D
  min_nmos g = d.decimal 15 1 ⊗ g.tech.feature_size

  -- `inputParameter->maxNmosSize * tech->featureSize`.
  abbrev pub max_nmos : Globals D → D
  max_nmos g = g.input.max_nmos_size ⊗ g.tech.feature_size

  -- `tech->featureSize*40`, and the same times MAX_TRANSISTOR_HEIGHT, 20.
  abbrev pub region_height : Globals D → D
  region_height g = g.tech.feature_size ⊗ whole 40

  abbrev pub transistor_height : Globals D → D
  transistor_height g = g.tech.feature_size ⊗ whole 20
