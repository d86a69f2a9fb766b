-- ===== src/SubArray/Legal.antt =====
-- SubArray.cpp: what a subarray that SubArray::Initialize leaves valid comes from.
use nvsim.Shared.{
  some_injective, none≢some, ℕ, ◌/◌, ◌≤◌, ◌<◌, ◌≡◌, refl, sym, ap, ◌∙◌, subst, Bool, true, false,
  not, ◌&&◌, ◌||◌, ltb, some, arith, zero, suc, Bool-cases, inl, inr,
}
use nvsim.Double.{Double}
use nvsim.Globals.{Globals}
use nvsim.SubArray.State.{
  SubArrayRequest, Subarray, Check, goes_on, rejects, drops, undefined, Check-bind_inv, divide,
}
use nvsim.SubArray.Legality.{
  is_dram, is_nand, is_fbram, is_memristor, is_sequential, is_cache, check_shape, check_nand,
  max_currents, min_mux_width, voltage_sensing, sensed_voltage, lacks_ways, lacks_room, reject_if,
}
use nvsim.SubArray.Access.{with_lines, with_access}
use nvsim.SubArray.Setup.{
  checked, with_precharger, with_row_decoder, with_mux_decoders, with_output_muxes, with_sense_amp,
  with_bitline_mux, with_circuits, initialize, ended,
}

goes_on_injective : {A : Type 0} {a b : A} → goes_on a ≡ goes_on b → a ≡ b
goes_on_injective e = cc

divide_inv : (n k q : ℕ) → divide n k ≡ goes_on q → (0 < k) × (q ≡ n / k)
divide_inv n zero q e = cc
divide_inv n (suc k) q e = (omega arith, sym (goes_on_injective e))

reject_if-passes : (b : Bool) (u : Unit) → reject_if b ≡ goes_on u → b ≡ false
reject_if-passes true u e = cc
reject_if-passes false u e = refl

stays≢exits : ¬ (true ≡ false)
stays≢exits e = cc

undefined≢goes_on : {A : Type 0} {a : A} → ¬ (undefined ≡ goes_on a)
undefined≢goes_on e = cc

module _ {D : Type 0} ⦃d : Double D⦄ (g : Globals D) (r : SubArrayRequest) where
  -- The conditions on a configuration.
  pub record IsLegal : Type 0 where
    pub ways :
        (is_cache g.input.design_target && not (is_sequential g.input.cache_access_mode)) ≡ true
        → g.input.associativity ≤ r.num_column
    pub dram_mux : is_dram g.cell.mem_cell_type ≡ true → r.mux_sense_amp ≤ 1
    pub nand_rows :
        is_nand g.cell.mem_cell_type ≡ true
        → (0 < g.input.page_size) × (g.input.flash_block_size / g.input.page_size ≤ r.num_row)
    pub sense_amps :
        (is_nand g.cell.mem_cell_type
            || is_memristor g.cell.mem_cell_type
            || is_fbram g.cell.mem_cell_type)
          ≡ true
        → r.internal_sense_amp ≡ true
        → 2 ≤ r.mux_sense_amp
    pub dram_sense : is_dram g.cell.mem_cell_type ≡ true → r.internal_sense_amp ≡ true

  nand_inv :
      (u : Unit)
      → check_nand g r true ≡ goes_on u
      → (0 < g.input.page_size)
        × (g.input.flash_block_size / g.input.page_size ≤ r.num_row)
        × (lacks_room g r ≡ false)
  nand_inv u e =
      let a = Check-bind_inv (divide g.input.flash_block_size g.input.page_size) _ u e in
      let pages = divide_inv g.input.flash_block_size g.input.page_size a.0 a.1 in
      let b = Check-bind_inv (reject_if (ltb r.num_row a.0)) _ u a.2 in
      let enough = reject_if-passes _ b.0 b.1 in
      (pages.0, ground (arith, pages.1, enough), reject_if-passes _ u b.2)

  shape_inv :
      (u : Unit)
      → check_shape g r ≡ goes_on u
      → (lacks_ways g r ≡ false)
        × ((is_dram g.cell.mem_cell_type && ltb 1 r.mux_sense_amp) ≡ false)
        × (check_nand g r (is_nand g.cell.mem_cell_type) ≡ goes_on tt)
        × (((is_memristor g.cell.mem_cell_type || is_fbram g.cell.mem_cell_type) && lacks_room g r)
            ≡ false)
  unfolding check_shape
  shape_inv u e =
      let a = Check-bind_inv (reject_if (lacks_ways g r)) _ u e in
      let b =
        Check-bind_inv (reject_if (is_dram g.cell.mem_cell_type && ltb 1 r.mux_sense_amp)) _ u
          a.2 in
      let c = Check-bind_inv (check_nand g r (is_nand g.cell.mem_cell_type)) _ u b.2 in
      (reject_if-passes _ a.0 a.1, reject_if-passes _ b.0 b.1, c.1, reject_if-passes _ u c.2)

  exits :
      (before : Bool)
      → r.internal_sense_amp ≡ false
      → is_dram g.cell.mem_cell_type ≡ true
      → voltage_sensing g r before ≡ undefined
  unfolding voltage_sensing
  exits before p h = rw (voltage_sensing, p, h) refl

  sensing_inv :
      (before after : Bool)
      → voltage_sensing g r before ≡ goes_on after
      → is_dram g.cell.mem_cell_type ≡ true
      → r.internal_sense_amp ≡ true
  unfolding voltage_sensing
  sensing_inv before after e h = elim (Bool-cases r.internal_sense_amp) [
    | inl p ↦ p
    | inr p ↦ absurd (undefined≢goes_on (sym (exits before p h) ∙ e))
  ]

  -- A NAND needs the room by its own test, the others by the last one.
  room :
      (check_nand g r (is_nand g.cell.mem_cell_type) ≡ goes_on tt)
      → (((is_memristor g.cell.mem_cell_type || is_fbram g.cell.mem_cell_type) && lacks_room g r)
          ≡ false)
      → (is_nand g.cell.mem_cell_type
          || is_memristor g.cell.mem_cell_type
          || is_fbram g.cell.mem_cell_type)
        ≡ true
      → r.internal_sense_amp ≡ true
      → 2 ≤ r.mux_sense_amp
  room n o h p = elim (Bool-cases (is_nand g.cell.mem_cell_type)) [
    | inl q ↦
        let parts = nand_inv tt (subst (λ b. check_nand g r b ≡ goes_on tt) q n) in
        ground (arith, parts.2, p)
    | inr q ↦ ground (arith, o, p, q, h)
  ]

  shape-IsLegal :
      (u : Unit) (before after : Bool)
      → check_shape g r ≡ goes_on u
      → voltage_sensing g r before ≡ goes_on after
      → IsLegal
  shape-IsLegal u before after e v =
      let a = shape_inv u e in
      record {
        ways = ground (arith, a.0);
        dram_mux = ground (arith, a.1);
        nand_rows = λ h.
            let n = nand_inv tt (subst (λ b. check_nand g r b ≡ goes_on tt) h a.2) in (n.0, n.1);
        sense_amps = room a.2 a.3;
        dram_sense = sensing_inv before after v;
      }

  ended_valid :
      (c : Check (Subarray D)) (s t : Subarray D)
      → ended g r c s ≡ some t
      → t.is_invalid ≡ false
      → c ≡ goes_on t
  ended_valid (goes_on u) s t e v = ap goes_on (some_injective e)
  ended_valid rejects s t e v = absurd (stays≢exits (ap (λ u. u.is_invalid) (some_injective e) ∙ v))
  ended_valid drops s t e v = absurd (stays≢exits (ap (λ u. u.is_invalid) (some_injective e) ∙ v))
  ended_valid undefined s t e v = absurd (none≢some e)

  with_circuits-initialized :
      (c : D × D) (load res : D) (s t : Subarray D)
      → with_circuits g r c load res s ≡ goes_on t
      → t.initialized ≡ true
  unfolding with_circuits
  with_circuits-initialized c load res s t e =
      let a = Check-bind_inv (with_precharger g r s) _ t e in
      let b = Check-bind_inv (with_row_decoder g r c.0 a.0) _ t a.2 in
      let m = Check-bind_inv (with_mux_decoders g r load res b.0) _ t b.2 in
      let o = Check-bind_inv (with_output_muxes g r c.1 m.0) _ t m.2 in
      let n = Check-bind_inv (with_sense_amp g r o.0) _ t o.2 in
      let q = Check-bind_inv (with_bitline_mux g r c.1 n.0) _ t n.2 in
      sym (ap (λ u. u.initialized) (goes_on_injective q.2))

  -- A subarray that Initialize leaves valid is initialized, and its configuration is legal: columns for
  -- all ways of a cache that reads them at once, no shared sense amplifiers in a DRAM and none outside
  -- of it, rows for the pages of a NAND block, and room for the sense amplifiers of a NAND, a memristor
  -- and an FBRAM.
  pub initialize-IsLegal :
      (s t : Subarray D)
      → initialize g r s ≡ some t
      → t.is_invalid ≡ false
      → IsLegal × (t.initialized ≡ true)
  unfolding initialize checked
  initialize-IsLegal s t e v =
      let s = record s { request = r } in
      let valid = ended_valid (checked g r s) s t e v in
      let a = Check-bind_inv (check_shape g r) _ t valid in
      let b = Check-bind_inv (max_currents g r) _ t a.2 in
      let c = Check-bind_inv (min_mux_width g r b.0.1) _ t b.2 in
      let sensing = Check-bind_inv (voltage_sensing g r s.voltage_sense) _ t c.2 in
      let voltage = Check-bind_inv (sensed_voltage g r s.cap_bitline) _ t sensing.2 in
      let lines =
        Check-bind_inv
          (with_lines g r (record s { voltage_sense = sensing.0; sense_voltage = voltage.0 })) _ t
          voltage.2 in
      let access = Check-bind_inv (with_access g r lines.0) _ t lines.2 in
      (
        shape-IsLegal a.0 s.voltage_sense sensing.0 a.1 sensing.1,
        with_circuits-initialized b.0 _ _ access.0 t access.2,
      )
