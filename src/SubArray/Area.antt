-- ===== src/SubArray/Area.antt =====
-- SubArray.cpp: SubArray::CalculateArea.
use nvsim.Shared.{Option, some, ◌>>=◌, true, false, if◌then◌else◌}
use nvsim.Double.{Double, ◌⊕◌, ◌⊗◌, ◌⊘◌, ◌≺◌, max_d}
use nvsim.FunctionUnit.{FunctionUnit, huge, with_area}
use nvsim.Globals.{Globals}
use nvsim.Circuit.Mux
use nvsim.Circuit.SenseAmp
use nvsim.Circuit.Precharger
use nvsim.Circuit.RowDecoder
use nvsim.SubArray.State.{Subarray}

module _ {D : Type 0} ⦃d : Double D⦄ (g : Globals D) where
  -- The circuits with their areas; the sense amplifiers only where they belong to the subarray.
  abbrev pub with_areas : Subarray D → Option (Subarray D)
  with_areas s = do
    row ← RowDecoder.calculate_area g s.row_decoder
    precharger ← Precharger.calculate_area g s.precharger
    bitline ← RowDecoder.calculate_area g s.bitline_mux_decoder
    lev1 ← RowDecoder.calculate_area g s.sense_amp_mux_lev1_decoder
    lev2 ← RowDecoder.calculate_area g s.sense_amp_mux_lev2_decoder
    some (record s {
      row_decoder = row;
      precharger = precharger;
      bitline_mux = Mux.calculate_area g s.bitline_mux;
      sense_amp =
          if s.request.internal_sense_amp
          then SenseAmp.calculate_area g s.sense_amp
          else s.sense_amp;
      sense_amp_mux_lev1 = Mux.calculate_area g s.sense_amp_mux_lev1;
      sense_amp_mux_lev2 = Mux.calculate_area g s.sense_amp_mux_lev2;
      bitline_mux_decoder = bitline;
      sense_amp_mux_lev1_decoder = lev1;
      sense_amp_mux_lev2_decoder = lev2;
    })

  -- A row decoder higher than the array is folded.
  abbrev decoder_width : Subarray D → D
  decoder_width s =
      if s.len_bitline ≺ s.row_decoder.figures.height
      then s.row_decoder.figures.area ⊘ s.len_bitline
      else s.row_decoder.figures.width

  abbrev precharger_height : Subarray D → D
  precharger_height s =
      if s.len_wordline ≺ s.precharger.figures.width
      then s.precharger.figures.area ⊘ s.precharger.figures.width
      else s.precharger.figures.height

  -- Sense amplifiers that are wider than the array are reported and left out.
  abbrev sense_amp_height : Subarray D → D → D
  sense_amp_height s height =
      if s.request.internal_sense_amp
      then (if s.len_wordline ⊗ d.decimal 1001 3 ≺ s.sense_amp.figures.width
          then height
          else height ⊕ s.sense_amp.figures.height)
      else height

  -- What lies beside the array, and below it.
  unfoldable pub added_width : Subarray D → D
  added_width s =
      max_d
        (max_d (max_d (decoder_width s) s.bitline_mux_decoder.figures.width)
          s.sense_amp_mux_lev1_decoder.figures.width)
        s.sense_amp_mux_lev2_decoder.figures.width

  unfoldable pub added_height : Subarray D → D
  added_height s =
      sense_amp_height s (precharger_height s ⊕ s.bitline_mux.figures.height)
      ⊕ s.sense_amp_mux_lev1.figures.height
      ⊕ s.sense_amp_mux_lev2.figures.height

  abbrev area_of : Subarray D → FunctionUnit D
  area_of s =
      let width = s.len_wordline ⊕ added_width s in
      let height = s.len_bitline ⊕ added_height s in
      with_area height width (width ⊗ height) s.figures

  unfoldable pub calculate_area : Subarray D → Option (Subarray D)
  calculate_area s = elim s.initialized [
    | false ↦ some s
    | true ↦ elim s.is_invalid [
      | true ↦ some (record s { figures = with_area huge huge huge s.figures })
      | false ↦ do t ← with_areas s; some (record t { figures = area_of t })
    ]
  ]
