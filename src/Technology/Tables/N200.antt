-- ===== src/Technology/Tables/N200.antt =====
-- Technology.cpp: the constants of the 200 nm node, in the order of the road maps.
use nvsim.Shared.{[], ◌∷◌}
use nvsim.Technology.Entry.{Tables, literal}

abbrev pub hp_200 : Tables
hp_200 = record {
  vdd = literal 15 1;
  vth = literal 300 3;
  phy_gate_length = literal 1 7;
  cap_ideal_gate = literal 8 10;
  cap_fringe = literal 25 11;
  cap_junction = literal 100 5;
  cap_ox = literal 1 2;
  effective_electron_mobility = literal 320 4;
  effective_hole_mobility = literal 80 4;
  pn_size_ratio = literal 245 2;
  effective_resistance_multiplier = literal 154 2;
  current_on_nmos =
      literal 750 0
      ∷ literal 750 0
      ∷ literal 750 0
      ∷ literal 750 0
      ∷ literal 750 0
      ∷ literal 750 0
      ∷ literal 750 0
      ∷ literal 750 0
      ∷ literal 750 0
      ∷ literal 750 0
      ∷ literal 750 0
      ∷ [];
  current_on_pmos =
      literal 350 0
      ∷ literal 350 0
      ∷ literal 350 0
      ∷ literal 350 0
      ∷ literal 350 0
      ∷ literal 350 0
      ∷ literal 350 0
      ∷ literal 350 0
      ∷ literal 350 0
      ∷ literal 350 0
      ∷ literal 350 0
      ∷ [];
  current_off_nmos =
      literal 8 3
      ∷ literal 8 3
      ∷ literal 8 3
      ∷ literal 8 3
      ∷ literal 8 3
      ∷ literal 8 3
      ∷ literal 8 3
      ∷ literal 8 3
      ∷ literal 8 3
      ∷ literal 8 3
      ∷ literal 8 3
      ∷ [];
  current_off_pmos =
      literal 16 3
      ∷ literal 16 3
      ∷ literal 16 3
      ∷ literal 16 3
      ∷ literal 16 3
      ∷ literal 16 3
      ∷ literal 16 3
      ∷ literal 16 3
      ∷ literal 16 3
      ∷ literal 16 3
      ∷ literal 16 3
      ∷ [];
}

abbrev pub lstp_200 : Tables
lstp_200 = record {
  vdd = literal 15 1;
  vth = literal 600 3;
  phy_gate_length = literal 16 8;
  cap_ideal_gate = literal 8 10;
  cap_fringe = literal 25 11;
  cap_junction = literal 100 5;
  cap_ox = literal 1 2;
  effective_electron_mobility = literal 320 4;
  effective_hole_mobility = literal 80 4;
  pn_size_ratio = literal 245 2;
  effective_resistance_multiplier = literal 154 2;
  current_on_nmos =
      literal 330 0
      ∷ literal 330 0
      ∷ literal 330 0
      ∷ literal 330 0
      ∷ literal 330 0
      ∷ literal 330 0
      ∷ literal 330 0
      ∷ literal 330 0
      ∷ literal 330 0
      ∷ literal 330 0
      ∷ literal 330 0
      ∷ [];
  current_on_pmos =
      literal 168 0
      ∷ literal 168 0
      ∷ literal 168 0
      ∷ literal 168 0
      ∷ literal 168 0
      ∷ literal 168 0
      ∷ literal 168 0
      ∷ literal 168 0
      ∷ literal 168 0
      ∷ literal 168 0
      ∷ literal 168 0
      ∷ [];
  current_off_nmos =
      literal 425 8
      ∷ literal 425 8
      ∷ literal 425 8
      ∷ literal 425 8
      ∷ literal 425 8
      ∷ literal 425 8
      ∷ literal 425 8
      ∷ literal 425 8
      ∷ literal 425 8
      ∷ literal 425 8
      ∷ literal 425 8
      ∷ [];
  current_off_pmos =
      literal 85 7
      ∷ literal 85 7
      ∷ literal 85 7
      ∷ literal 85 7
      ∷ literal 85 7
      ∷ literal 85 7
      ∷ literal 85 7
      ∷ literal 85 7
      ∷ literal 85 7
      ∷ literal 85 7
      ∷ literal 85 7
      ∷ [];
}

abbrev pub lop_200 : Tables
lop_200 = record {
  vdd = literal 12 1;
  vth = literal 450 3;
  phy_gate_length = literal 135 9;
  cap_ideal_gate = literal 8 10;
  cap_fringe = literal 25 11;
  cap_junction = literal 100 5;
  cap_ox = literal 1 2;
  effective_electron_mobility = literal 330 4;
  effective_hole_mobility = literal 90 4;
  pn_size_ratio = literal 245 2;
  effective_resistance_multiplier = literal 154 2;
  current_on_nmos =
      literal 490 0
      ∷ literal 490 0
      ∷ literal 490 0
      ∷ literal 490 0
      ∷ literal 490 0
      ∷ literal 490 0
      ∷ literal 490 0
      ∷ literal 490 0
      ∷ literal 490 0
      ∷ literal 490 0
      ∷ literal 490 0
      ∷ [];
  current_on_pmos =
      literal 230 0
      ∷ literal 230 0
      ∷ literal 230 0
      ∷ literal 230 0
      ∷ literal 230 0
      ∷ literal 230 0
      ∷ literal 230 0
      ∷ literal 230 0
      ∷ literal 230 0
      ∷ literal 230 0
      ∷ literal 230 0
      ∷ [];
  current_off_nmos =
      literal 4 4
      ∷ literal 4 4
      ∷ literal 4 4
      ∷ literal 4 4
      ∷ literal 4 4
      ∷ literal 4 4
      ∷ literal 4 4
      ∷ literal 4 4
      ∷ literal 4 4
      ∷ literal 4 4
      ∷ literal 4 4
      ∷ [];
  current_off_pmos =
      literal 8 4
      ∷ literal 8 4
      ∷ literal 8 4
      ∷ literal 8 4
      ∷ literal 8 4
      ∷ literal 8 4
      ∷ literal 8 4
      ∷ literal 8 4
      ∷ literal 8 4
      ∷ literal 8 4
      ∷ literal 8 4
      ∷ [];
}
