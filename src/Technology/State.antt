-- ===== src/Technology/State.antt =====
-- Technology.h and Technology.cpp: the state, Initialize and InterpolateWith.
use nvsim.Shared.{
  false, ℕ, zero, suc, ◌*◌, ◌/◌, ◌%◌, ◌+◌, ◌==◌, if◌then◌else◌, Bool, true, Option, none, some,
  List, get_or,
}
use nvsim.Types.{DeviceRoadmap}
use nvsim.Double.{Double, ◌⊕◌, ◌⊖◌, ◌⊗◌, ◌⊘◌, whole}
use nvsim.Technology.Entry.{Entry, Tables, value, literal}
use nvsim.Technology.Tables.{Node, node_of, tables}

pub record Technology (D : Type 0) : Type 0 where
  pub initialized : Bool
  pub feature_size_in_nano : ℕ
  pub feature_size : D
  pub device_roadmap : DeviceRoadmap
  pub vdd : D
  pub vth : D
  pub vdsat_nmos : D
  pub vdsat_pmos : D
  pub phy_gate_length : D
  pub cap_ideal_gate : D
  pub cap_fringe : D
  pub cap_junction : D
  pub cap_overlap : D
  pub cap_sidewall : D
  pub cap_drain_to_channel : D
  pub cap_ox : D
  pub build_in_potential : D
  pub effective_electron_mobility : D
  pub effective_hole_mobility : D
  pub pn_size_ratio : D
  pub effective_resistance_multiplier : D
  -- Arrays of 101 elements, one for each kelvin from 300 K.
  pub current_on_nmos : ℕ → D
  pub current_on_pmos : ℕ → D
  pub current_off_nmos : ℕ → D
  pub current_off_pmos : ℕ → D
  pub cap_polywire : D

-- The constructor, over what the memory holds.
abbrev pub construct : {D : Type 0} → Technology D → Technology D
construct memory = record memory { initialized = false }

abbrev pub write : {D : Type 0} → (ℕ → D) → ℕ → D → ℕ → D
write a i x j = if j == i then x else a j

module _ {D : Type 0} ⦃d : Double D⦄ where
  -- The constants at 0, 10, ..., 100; the other elements hold what the memory holds.
  abbrev pub place : List Entry → (ℕ → D) → ℕ → D
  place entries memory i =
      if i % 10 == 0 then value d (get_or entries (i / 10) (literal 0 0)) else memory i

  -- On the line between the multiples of ten around `i`.
  abbrev pub between : (ℕ → D) → ℕ → D
  between a i =
      a (i / 10 * 10) ⊕ (a (i / 10 * 10 + 10) ⊖ a (i / 10 * 10)) ⊗ whole (i % 10) ⊘ whole 10

  -- The loop's body.
  unfoldable pub fill_at : (ℕ → D) → ℕ → ℕ → D
  fill_at a i = if i % 10 == 0 then a else write a i (between a i)

  -- The loop that fills an array, from `i` for `rounds` rounds.
  unfoldable pub fill_from : ℕ → ℕ → (ℕ → D) → ℕ → D
  fill_from zero i a = a
  fill_from (suc rounds) i a = fill_from rounds (suc i) (fill_at a i)

  abbrev pub fill : (ℕ → D) → ℕ → D
  fill a = fill_from 99 1 a

  -- A junction capacitance under the supply voltage.
  abbrev at_supply : D → D → D → D → D
  at_supply cap grading vdd potential = cap ⊘ d.pow (whole 1 ⊕ vdd ⊘ potential) grading

  -- The end of Initialize and of InterpolateWith: what follows from the other members.
  abbrev pub derived : Technology D → Technology D
  derived t = record t {
    build_in_potential = d.decimal 9 1;
    cap_junction = at_supply (d.decimal 1 3) (d.decimal 5 1) t.vdd (d.decimal 9 1);
    cap_sidewall = at_supply (d.decimal 25 11) (d.decimal 33 2) t.vdd (d.decimal 9 1);
    cap_drain_to_channel = at_supply (d.decimal 5 11) (d.decimal 33 2) t.vdd (d.decimal 9 1);
    vdsat_nmos = t.phy_gate_length ⊗ d.decimal 100000 0 ⊘ t.effective_electron_mobility;
    vdsat_pmos = t.phy_gate_length ⊗ d.decimal 100000 0 ⊘ t.effective_hole_mobility;
  }

  -- The members that a branch of Initialize sets, over what the memory holds.
  abbrev pub of_tables : ℕ → DeviceRoadmap → Tables → Technology D → Technology D
  of_tables size roadmap t memory = record memory {
    initialized = true;
    feature_size_in_nano = size;
    feature_size = whole size ⊗ d.decimal 1 9;
    device_roadmap = roadmap;
    vdd = value d t.vdd;
    vth = value d t.vth;
    phy_gate_length = value d t.phy_gate_length;
    cap_ideal_gate = value d t.cap_ideal_gate;
    cap_fringe = value d t.cap_fringe;
    cap_junction = value d t.cap_junction;
    cap_ox = value d t.cap_ox;
    effective_electron_mobility = value d t.effective_electron_mobility;
    effective_hole_mobility = value d t.effective_hole_mobility;
    pn_size_ratio = value d t.pn_size_ratio;
    effective_resistance_multiplier = value d t.effective_resistance_multiplier;
    cap_overlap = value d t.cap_ideal_gate ⊗ d.decimal 2 1;
    current_on_nmos = fill (place t.current_on_nmos memory.current_on_nmos);
    current_on_pmos = fill (place t.current_on_pmos memory.current_on_pmos);
    current_off_nmos = fill (place t.current_off_nmos memory.current_off_nmos);
    current_off_pmos = fill (place t.current_off_pmos memory.current_off_pmos);
    cap_polywire = d.decimal 0 1;
  }

  unfoldable pub prepared : ℕ → DeviceRoadmap → Technology D → Node → Technology D
  prepared size roadmap memory node = derived (of_tables size roadmap (tables node roadmap) memory)

  -- Below 22 nm no branch sets the members that the rest reads: `none`.
  unfoldable pub initialize : ℕ → DeviceRoadmap → Technology D → Option (Technology D)
  initialize size roadmap memory = elim (node_of size) [
    | none ↦ none
    | some node ↦ some (prepared size roadmap memory node)
  ]

  abbrev pub mix : D → D → D → D
  mix alpha a b = (whole 1 ⊖ alpha) ⊗ a ⊕ alpha ⊗ b

  abbrev pub mix_powers : D → D → D → D
  mix_powers alpha a b = d.pow a (whole 1 ⊖ alpha) ⊗ d.pow b alpha

  abbrev pub mixed : Technology D → D → Technology D → Technology D
  mixed rhs alpha t = derived (record t {
    vdd = mix alpha t.vdd rhs.vdd;
    vth = mix alpha t.vth rhs.vth;
    phy_gate_length = mix alpha t.phy_gate_length rhs.phy_gate_length;
    cap_ideal_gate = mix alpha t.cap_ideal_gate rhs.cap_ideal_gate;
    cap_fringe = mix alpha t.cap_fringe rhs.cap_fringe;
    cap_junction = mix alpha t.cap_junction rhs.cap_junction;
    cap_ox = mix alpha t.cap_ox rhs.cap_ox;
    effective_electron_mobility =
        mix alpha t.effective_electron_mobility rhs.effective_electron_mobility;
    effective_hole_mobility = mix alpha t.effective_hole_mobility rhs.effective_hole_mobility;
    pn_size_ratio = mix alpha t.pn_size_ratio rhs.pn_size_ratio;
    effective_resistance_multiplier =
        mix alpha t.effective_resistance_multiplier rhs.effective_resistance_multiplier;
    current_on_nmos = λ i. mix alpha (t.current_on_nmos i) (rhs.current_on_nmos i);
    current_on_pmos = λ i. mix alpha (t.current_on_pmos i) (rhs.current_on_pmos i);
    current_off_nmos = λ i. mix_powers alpha (t.current_off_nmos i) (rhs.current_off_nmos i);
    current_off_pmos = λ i. mix_powers alpha (t.current_off_pmos i) (rhs.current_off_pmos i);
  })

  unfoldable pub interpolate_with : Technology D → D → Technology D → Technology D
  interpolate_with rhs alpha t =
      if t.feature_size_in_nano == rhs.feature_size_in_nano then t else mixed rhs alpha t
