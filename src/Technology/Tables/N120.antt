-- ===== src/Technology/Tables/N120.antt =====
-- Technology.cpp: the constants of the 120 nm node, in the order of the road maps.
use nvsim.Shared.{[], ◌∷◌}
use nvsim.Technology.Entry.{Tables, literal}

abbrev pub hp_120 : Tables
hp_120 = record {
  vdd = literal 12 1;
  vth = literal 21804 5;
  phy_gate_length = literal 451 10;
  cap_ideal_gate = literal 741 12;
  cap_fringe = literal 24 11;
  cap_junction = literal 100 5;
  cap_ox = literal 164 4;
  effective_electron_mobility = literal 24959 6;
  effective_hole_mobility = literal 5952 6;
  pn_size_ratio = literal 245 2;
  effective_resistance_multiplier = literal 154 2;
  current_on_nmos =
      literal 9609 1
      ∷ literal 9479 1
      ∷ literal 9351 1
      ∷ literal 9225 1
      ∷ literal 9100 1
      ∷ literal 8977 1
      ∷ literal 8855 1
      ∷ literal 8736 1
      ∷ literal 8618 1
      ∷ literal 8501 1
      ∷ literal 8386 1
      ∷ [];
  current_on_pmos =
      literal 5784 1
      ∷ literal 5678 1
      ∷ literal 5575 1
      ∷ literal 5474 1
      ∷ literal 5375 1
      ∷ literal 5278 1
      ∷ literal 5183 1
      ∷ literal 5091 1
      ∷ literal 5000 1
      ∷ literal 4911 1
      ∷ literal 4825 1
      ∷ [];
  current_off_nmos =
      literal 190 4
      ∷ literal 235 4
      ∷ literal 286 4
      ∷ literal 345 4
      ∷ literal 412 4
      ∷ literal 487 4
      ∷ literal 571 4
      ∷ literal 664 4
      ∷ literal 767 4
      ∷ literal 880 4
      ∷ literal 100 3
      ∷ [];
  current_off_pmos =
      literal 382 4
      ∷ literal 384 4
      ∷ literal 387 4
      ∷ literal 390 4
      ∷ literal 393 4
      ∷ literal 397 4
      ∷ literal 401 4
      ∷ literal 405 4
      ∷ literal 410 4
      ∷ literal 416 4
      ∷ literal 422 4
      ∷ [];
}

abbrev pub lstp_120 : Tables
lstp_120 = record {
  vdd = literal 12 1;
  vth = literal 50125 5;
  phy_gate_length = literal 75 9;
  cap_ideal_gate = literal 862 12;
  cap_fringe = literal 25 11;
  cap_junction = literal 100 5;
  cap_ox = literal 115 4;
  effective_electron_mobility = literal 28497 6;
  effective_hole_mobility = literal 6182 6;
  pn_size_ratio = literal 245 2;
  effective_resistance_multiplier = literal 154 2;
  current_on_nmos =
      literal 4225 1
      ∷ literal 4150 1
      ∷ literal 4077 1
      ∷ literal 4005 1
      ∷ literal 3936 1
      ∷ literal 3868 1
      ∷ literal 3801 1
      ∷ literal 3737 1
      ∷ literal 3674 1
      ∷ literal 3613 1
      ∷ literal 3555 1
      ∷ [];
  current_on_pmos =
      literal 2049 1
      ∷ literal 2003 1
      ∷ literal 1959 1
      ∷ literal 1917 1
      ∷ literal 1875 1
      ∷ literal 1835 1
      ∷ literal 1797 1
      ∷ literal 1759 1
      ∷ literal 1723 1
      ∷ literal 1688 1
      ∷ literal 1654 1
      ∷ [];
  current_off_nmos =
      literal 101 7
      ∷ literal 104 7
      ∷ literal 106 7
      ∷ literal 109 7
      ∷ literal 112 7
      ∷ literal 116 7
      ∷ literal 120 7
      ∷ literal 124 7
      ∷ literal 128 7
      ∷ literal 132 7
      ∷ literal 137 7
      ∷ [];
  current_off_pmos =
      literal 221 7
      ∷ literal 227 7
      ∷ literal 233 7
      ∷ literal 240 7
      ∷ literal 247 7
      ∷ literal 254 7
      ∷ literal 262 7
      ∷ literal 271 7
      ∷ literal 280 7
      ∷ literal 290 7
      ∷ literal 301 7
      ∷ [];
}

abbrev pub lop_120 : Tables
lop_120 = record {
  vdd = literal 10 1;
  vth = literal 31260 5;
  phy_gate_length = literal 65 9;
  cap_ideal_gate = literal 634 12;
  cap_fringe = literal 25 11;
  cap_junction = literal 100 5;
  cap_ox = literal 144 4;
  effective_electron_mobility = literal 29243 6;
  effective_hole_mobility = literal 6453 6;
  pn_size_ratio = literal 245 2;
  effective_resistance_multiplier = literal 154 2;
  current_on_nmos =
      literal 5314 1
      ∷ literal 5226 1
      ∷ literal 5140 1
      ∷ literal 5055 1
      ∷ literal 4973 1
      ∷ literal 4892 1
      ∷ literal 4813 1
      ∷ literal 4736 1
      ∷ literal 4661 1
      ∷ literal 4588 1
      ∷ literal 4516 1
      ∷ [];
  current_on_pmos =
      literal 2785 1
      ∷ literal 2725 1
      ∷ literal 2668 1
      ∷ literal 2612 1
      ∷ literal 2558 1
      ∷ literal 2505 1
      ∷ literal 2454 1
      ∷ literal 2404 1
      ∷ literal 2356 1
      ∷ literal 2310 1
      ∷ literal 2264 1
      ∷ [];
  current_off_nmos =
      literal 969 6
      ∷ literal 987 6
      ∷ literal 101 5
      ∷ literal 103 5
      ∷ literal 105 5
      ∷ literal 108 5
      ∷ literal 110 5
      ∷ literal 113 5
      ∷ literal 116 5
      ∷ literal 119 5
      ∷ literal 123 5
      ∷ [];
  current_off_pmos =
      literal 220 5
      ∷ literal 225 5
      ∷ literal 229 5
      ∷ literal 234 5
      ∷ literal 239 5
      ∷ literal 245 5
      ∷ literal 251 5
      ∷ literal 257 5
      ∷ literal 264 5
      ∷ literal 272 5
      ∷ literal 279 5
      ∷ [];
}
