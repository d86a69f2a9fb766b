-- ===== src/Tests/Processes.antt =====
-- Technologies, wires, drivers, decoders and a subarray at small numbers.
use nvsim.Shared.{ℕ, ◌*◌, ◌≡◌, refl, true, false, ◌↔◌, ◌⊎◌, ◌-◌, ◌≤◌, ◌<◌, none, some, arith}
use nvsim.Types.{DeviceRoadmap}
use nvsim.Double.Tenths.{Tenths, tenths}
use nvsim.Technology.Tables.{Node, node_of, tables}
use nvsim.Technology.Entry.{rising, falling}
use nvsim.Technology.Leakage.{tables-currents}
use nvsim.Technology.State.{construct, Technology, initialize, fill}
use nvsim.Technology.Fill.{on_lines, fill-on_lines}
use nvsim.Technology.Process.{
  neighbour, technology_of, base, neighbour-Encloses, technology_of-tabulated,
  technology_of-unset_iff,
}

abbrev squares : ℕ → Tenths
squares i = i * i

fill-on_lines_example : fill ⦃d = tenths⦄ squares 57 ≡ on_lines ⦃d = tenths⦄ squares 57
fill-on_lines_example = fill-on_lines ⦃d = tenths⦄ squares 57 (omega arith)

tables-currents_example :
    (falling (tables Node.n65 DeviceRoadmap.lop).current_on_nmos ≡ true)
    × (falling (tables Node.n65 DeviceRoadmap.lop).current_on_pmos ≡ true)
    × (rising (tables Node.n65 DeviceRoadmap.lop).current_off_nmos ≡ true)
    × (rising (tables Node.n65 DeviceRoadmap.lop).current_off_pmos ≡ false)
tables-currents_example = tables-currents Node.n65 DeviceRoadmap.lop

neighbour_190 : neighbour 190 ≡ some (record { high = 200; low = 120; span = 60 })
unfolding neighbour
neighbour_190 = refl

neighbour-Encloses_example :
    (120 ≤ 190)
    × (190 ≤ 200)
    × ((◌≡◌ {A = ℕ} 190 200) ⊎ (base (node_of 190) ≡ 120))
    × ((190 - 120 ≤ 60) ↔ (190 ≤ 180))
neighbour-Encloses_example =
    neighbour-Encloses 190 (record { high = 200; low = 120; span = 60 }) neighbour_190

abbrev pub technology : Technology Tenths
technology = record {
  initialized = true;
  feature_size_in_nano = 90;
  feature_size = 10;
  device_roadmap = DeviceRoadmap.hp;
  vdd = 10;
  vth = 2;
  vdsat_nmos = 5;
  vdsat_pmos = 5;
  phy_gate_length = 10;
  cap_ideal_gate = 10;
  cap_fringe = 10;
  cap_junction = 10;
  cap_overlap = 10;
  cap_sidewall = 10;
  cap_drain_to_channel = 10;
  cap_ox = 10;
  build_in_potential = 9;
  effective_electron_mobility = 100;
  effective_hole_mobility = 100;
  pn_size_ratio = 20;
  effective_resistance_multiplier = 15;
  current_on_nmos = λ i. 100;
  current_on_pmos = λ i. 100;
  current_off_nmos = λ i. 10;
  current_off_pmos = λ i. 10;
  cap_polywire = 0;
}

neighbour_90 : neighbour 90 ≡ some (record { high = 90; low = 65; span = 25 })
unfolding neighbour
neighbour_90 = refl

technology_of-tabulated_example :
    technology_of ⦃d = tenths⦄ 90 DeviceRoadmap.hp technology technology
    ≡ initialize ⦃d = tenths⦄ 90 DeviceRoadmap.hp technology
technology_of-tabulated_example =
    technology_of-tabulated ⦃d = tenths⦄ 90 DeviceRoadmap.hp technology technology
      (record { high = 90; low = 65; span = 25 }) neighbour_90 refl

technology_of-unset_iff_example :
    technology_of ⦃d = tenths⦄ 14 DeviceRoadmap.hp (construct technology) (construct technology)
      ≡ none
    ↔ ((200 < 14) ⊎ (14 < 22))
technology_of-unset_iff_example =
    technology_of-unset_iff ⦃d = tenths⦄ 14 DeviceRoadmap.hp (construct technology)
      (construct technology)
