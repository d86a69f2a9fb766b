-- ===== src/SubArray/State.antt =====
-- SubArray.h: the state of a subarray, the arguments of Initialize and the ways in which it ends.
use nvsim.Shared.{ℕ, ◌/◌, zero, suc, Bool, Option, none, some, ◌≡◌, refl}
use nvsim.Types.{BufferDesignTarget}
use nvsim.FunctionUnit.{FunctionUnit}
use nvsim.Circuit.Mux.{Multiplexer}
use nvsim.Circuit.SenseAmp.{Amplifiers}
use nvsim.Circuit.Precharger.{Prechargers}
use nvsim.Circuit.RowDecoder.{Decoder}

-- The arguments of Initialize.
pub record SubArrayRequest : Type 0 where
  pub num_row : ℕ
  pub num_column : ℕ
  pub multiple_row_per_set : Bool
  pub split : Bool
  pub mux_sense_amp : ℕ
  pub internal_sense_amp : Bool
  pub mux_output_lev1 : ℕ
  pub mux_output_lev2 : ℕ
  pub area_optimization_level : BufferDesignTarget

pub record Subarray (D : Type 0) : Type 0 where
  pub figures : FunctionUnit D
  pub initialized : Bool
  pub is_invalid : Bool
  pub request : SubArrayRequest
  pub voltage_sense : Bool
  pub sense_voltage : D
  pub voltage_precharge : D
  pub num_sense_amp : ℕ
  pub len_wordline : D
  pub len_bitline : D
  pub cap_wordline : D
  pub cap_bitline : D
  pub res_wordline : D
  pub res_bitline : D
  pub res_cell_access : D
  pub cap_cell_access : D
  pub res_mem_cell_off : D
  pub res_mem_cell_on : D
  pub voltage_mem_cell_off : D
  pub voltage_mem_cell_on : D
  pub res_in_serial_for_sense_amp : D
  pub res_equivalent_on : D
  pub res_equivalent_off : D
  pub bitline_delay : D
  pub charge_latency : D
  pub column_decoder_latency : D
  pub bitline_delay_on : D
  pub bitline_delay_off : D
  pub row_decoder : Decoder D
  pub bitline_mux_decoder : Decoder D
  pub bitline_mux : Multiplexer D
  pub sense_amp_mux_lev1_decoder : Decoder D
  pub sense_amp_mux_lev1 : Multiplexer D
  pub sense_amp_mux_lev2_decoder : Decoder D
  pub sense_amp_mux_lev2 : Multiplexer D
  pub precharger : Prechargers D
  pub sense_amp : Amplifiers D

-- A step of Initialize: it goes on, it returns with `invalid` and `initialized` set, it returns with
-- `invalid` alone set, or the source exits or its behaviour is undefined.
pub data Check (A : Type 0) : Type 0 where
  goes_on : A → Check A
  rejects : Check A
  drops : Check A
  undefined : Check A

infixl 5 ◌>>=◌
abbrev pub ◌>>=◌ : {A B : Type 0} → Check A → (A → Check B) → Check B
goes_on a >>= f = f a
rejects >>= f = rejects
drops >>= f = drops
undefined >>= f = undefined

abbrev pub defined : {A : Type 0} → Option A → Check A
defined none = undefined
defined (some a) = goes_on a

-- A division of integers.
abbrev pub divide : ℕ → ℕ → Check ℕ
divide n zero = undefined
divide n (suc k) = goes_on (n / suc k)

-- The parts of a chain that goes on.
pub Check-bind_inv :
    {A B : Type 0} (m : Check A) (f : A → Check B) (b : B)
    → (m >>= f) ≡ goes_on b
    → (a : A) × (m ≡ goes_on a) × (f a ≡ goes_on b)
Check-bind_inv (goes_on a) f b e = (a, refl, e)
Check-bind_inv rejects f b e = cc
Check-bind_inv drops f b e = cc
Check-bind_inv undefined f b e = cc
