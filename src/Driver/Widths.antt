-- ===== src/Driver/Widths.antt =====
-- OutputDriver.h and OutputDriver.cpp: the state of an output driver and OutputDriver::Initialize.
use nvsim.Shared.{
  false, ℕ, zero, suc, ◌+◌, ◌-◌, Bool, true, if◌then◌else◌, Option, none, some, ◌>>=◌, ltb, ltb→lt,
  Bool-cases, inl, inr, refl, sym, ◌∙◌, ◌≡◌, ◌<◌, some_injective, none≢some,
}
use nvsim.Types.{BufferDesignTarget}
use nvsim.Double.{Double, ◌⊕◌, ◌⊗◌, ◌⊘◌, ◌≺◌, whole, max_d}
use nvsim.Formula.{calculate_gate_cap}
use nvsim.Globals.{Globals, on_current, min_nmos, max_nmos}
use nvsim.FunctionUnit.{FunctionUnit}
use nvsim.Technology.State.{write}
use nvsim.Driver.{total_effort, ideal_stages, max_chain, latency_chain, trade_off_chain}

pub record OutputDriver (D : Type 0) : Type 0 where
  pub figures : FunctionUnit D
  pub initialized : Bool
  pub is_invalid : Bool
  pub logic_effort : D
  pub input_cap : D
  pub output_cap : D
  pub output_res : D
  pub inv : Bool
  pub num_stage : ℕ
  pub area_optimization_level : BufferDesignTarget
  pub min_driver_current : D
  -- Arrays of 20 elements: no operation goes on from an index past their end.
  pub width_nmos : ℕ → D
  pub width_pmos : ℕ → D
  pub cap_input : ℕ → D
  pub cap_output : ℕ → D
  pub ramp_input : D
  pub ramp_output : D

-- The arguments of Initialize.
pub record DriverRequest (D : Type 0) : Type 0 where
  pub logic_effort : D
  pub input_cap : D
  pub output_cap : D
  pub output_res : D
  pub inv : Bool
  pub area_optimization_level : BufferDesignTarget
  pub min_driver_current : D

-- The constructor, over what the memory holds.
abbrev pub construct : {D : Type 0} → OutputDriver D → OutputDriver D
construct memory = record memory { initialized = false; is_invalid = false }

module _ {D : Type 0} ⦃d : Double D⦄ (g : Globals D) where
  abbrev pub requested : DriverRequest D → OutputDriver D → OutputDriver D
  requested r s = record s {
    logic_effort = r.logic_effort;
    input_cap = r.input_cap;
    output_cap = r.output_cap;
    output_res = r.output_res;
    inv = r.inv;
    area_optimization_level = r.area_optimization_level;
    min_driver_current = r.min_driver_current;
  }

  -- `minNMOSDriverWidth`.
  unfoldable pub min_driver_width : DriverRequest D → Option D
  min_driver_width r = do
    current ← on_current g
    some (max_d (min_nmos g) (r.min_driver_current ⊘ current))

  -- Both widths of one inverter.
  abbrev pub write_widths : ℕ → D → OutputDriver D → OutputDriver D
  write_widths i x s = record s {
    width_nmos = write s.width_nmos i x;
    width_pmos = write s.width_pmos i (x ⊗ g.tech.pn_size_ratio);
  }

  -- `x / f`, but not below the least width.
  abbrev pub narrower : D → D → D
  narrower f x = if x ⊘ f ≺ min_nmos g then min_nmos g else x ⊘ f

  -- The loop from the last inverter to the first: `n` inverters lie before the one whose width is set.
  unfoldable pub taper : ℕ → D → OutputDriver D → OutputDriver D
  taper zero f s = s
  taper (suc n) f s = taper n f (write_widths n (narrower f (s.width_nmos (suc n))) s)

  -- The width of the last inverter and the effort of a stage, for `n` stages by logical effort.
  unfoldable pub last_width : DriverRequest D → ℕ → D × D
  last_width r n =
      let effort = total_effort r.logic_effort r.output_cap r.input_cap in
      let f = d.pow effort (d.decimal 10 1 ⊘ whole (n + 1)) in
      let width = max_d (min_nmos g) (
        r.output_cap
        ⊘ f
        ⊘ calculate_gate_cap (whole 1) g.tech
        ⊘ (d.decimal 10 1 ⊕ g.tech.pn_size_ratio)) in
      if max_nmos g ≺ width
      then (
        max_nmos g,
        d.pow
            (r.logic_effort
              ⊗ calculate_gate_cap
                  ((whole 1 ⊕ g.tech.pn_size_ratio) ⊗ g.input.max_nmos_size ⊗ g.tech.feature_size)
                  g.tech
              ⊘ r.input_cap)
            (d.decimal 10 1 ⊘ whole n),
      )
      else (width, f)

  abbrev with_stages : ℕ → OutputDriver D → OutputDriver D
  with_stages n s = record s { num_stage = n }

  -- `latency_area_trade_off`: the total logical effort, and the number of inverters.
  abbrev trade_off_effort : DriverRequest D → D → D
  trade_off_effort r least =
      total_effort r.logic_effort
        (calculate_gate_cap least g.tech ⊗ (d.decimal 10 1 ⊕ g.tech.pn_size_ratio)) r.input_cap

  abbrev pub trade_off_stages : DriverRequest D → D → ℕ
  trade_off_stages r least =
      (trade_off_chain r.inv (ideal_stages (trade_off_effort r least))).num_stage

  -- The writes of a chain of `n`.
  abbrev pub trade_off_widths : ℕ → DriverRequest D → D → OutputDriver D → OutputDriver D
  trade_off_widths n r least s =
      taper (n - 1) (d.pow (trade_off_effort r least) (d.decimal 10 1 ⊘ whole n))
        (write_widths (n - 1) least (with_stages n s))

  -- A chain of 21 is written past the end of the arrays: `none`.
  unfoldable pub trade_off : DriverRequest D → D → OutputDriver D → Option (OutputDriver D)
  trade_off r least s =
      let n = trade_off_stages r least in
      if ltb (n - 1) max_chain then some (trade_off_widths n r least s) else none

  pub trade_off_inv :
      (r : DriverRequest D) (least : D) (s t : OutputDriver D)
      → trade_off r least s ≡ some t
      → (trade_off_stages r least - 1 < max_chain)
        × (trade_off_widths (trade_off_stages r least) r least s ≡ t)
  unfolding trade_off
  trade_off_inv r least s t e =
      let n = trade_off_stages r least in
      elim (Bool-cases (ltb (n - 1) max_chain)) [
        | inl p ↦
            let same : trade_off r least s ≡ some (trade_off_widths n r least s) =
              rw (trade_off, p) refl in
            (ltb→lt (n - 1) max_chain p, some_injective (sym same ∙ e))
        | inr p ↦
            let gone : trade_off r least s ≡ none = rw (trade_off, p) refl in
            absurd (none≢some (sym gone ∙ e))
      ]

  -- `latency_first`, for a number of stages within the arrays; where the last inverter is too weak
  -- the code goes on with the trade-off. Without a stage it writes before the array: `none`.
  unfoldable pub stages_of : DriverRequest D → D → OutputDriver D → ℕ → Option (OutputDriver D)
  stages_of r least s zero = none
  stages_of r least s (suc i) =
      let last = last_width r (suc i) in
      if last.0 ≺ least
      then trade_off r least
          (record (with_stages (suc i) s) { width_nmos = write s.width_nmos i last.0 })
      else some (taper i last.1 (write_widths i last.0 (with_stages (suc i) s)))

  unfoldable pub latency_first_stages :
      DriverRequest D → D → OutputDriver D → Option (OutputDriver D)
  latency_first_stages r least s =
      let effort = total_effort r.logic_effort r.output_cap r.input_cap in
      stages_of r least s (latency_chain r.inv (ideal_stages effort)).num_stage

  abbrev pub rejected : OutputDriver D → OutputDriver D
  rejected s = record s { is_invalid = true }

  abbrev pub accepted : OutputDriver D → OutputDriver D
  accepted s = record s { initialized = true }

  -- `area_first`: one inverter.
  unfoldable pub one_stage : D → OutputDriver D → OutputDriver D
  one_stage least s =
      let width = max_d (min_nmos g) least in
      if max_nmos g ≺ width
      then rejected (record (with_stages 1 s) { width_nmos = write s.width_nmos 0 width })
      else accepted (write_widths 0 width (with_stages 1 s))

  abbrev pub designed :
      BufferDesignTarget → DriverRequest D → D → OutputDriver D → Option (OutputDriver D)
  designed BufferDesignTarget.latency_first r least s = do
    t ← latency_first_stages r least s
    some (accepted t)
  designed BufferDesignTarget.latency_area_trade_off r least s = do
    t ← trade_off r least s
    some (accepted t)
  designed BufferDesignTarget.area_first r least s = some (one_stage least s)

  -- From the least width of the last inverter on.
  unfoldable pub initialize_from : D → DriverRequest D → OutputDriver D → Option (OutputDriver D)
  initialize_from least r s =
      if max_nmos g ≺ least
      then some (rejected (requested r s))
      else designed r.area_optimization_level r least (requested r s)

  unfoldable pub initialize : DriverRequest D → OutputDriver D → Option (OutputDriver D)
  initialize r s = min_driver_width r >>= (λ least. initialize_from least r s)
