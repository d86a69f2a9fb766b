-- ===== src/Technology/Tables/N65.antt =====
-- Technology.cpp: the constants of the 65 nm node, in the order of the road maps.
use nvsim.Shared.{[], ◌∷◌}
use nvsim.Technology.Entry.{Tables, literal}

abbrev pub hp_65 : Tables
hp_65 = record {
  vdd = literal 11 1;
  vth = literal 16398 5;
  phy_gate_length = literal 25 9;
  cap_ideal_gate = literal 470 12;
  cap_fringe = literal 24 11;
  cap_junction = literal 100 5;
  cap_ox = literal 188 4;
  effective_electron_mobility = literal 44574 6;
  effective_hole_mobility = literal 113330 7;
  pn_size_ratio = literal 241 2;
  effective_resistance_multiplier = literal 150 2;
  current_on_nmos =
      literal 12114 1
      ∷ literal 11984 1
      ∷ literal 11854 1
      ∷ literal 11725 1
      ∷ literal 11569 1
      ∷ literal 11467 1
      ∷ literal 11336 1
      ∷ literal 11199 1
      ∷ literal 11043 1
      ∷ literal 10846 1
      ∷ literal 10590 1
      ∷ [];
  current_on_pmos =
      literal 8887 1
      ∷ literal 8758 1
      ∷ literal 8617 1
      ∷ literal 8485 1
      ∷ literal 8354 1
      ∷ literal 8226 1
      ∷ literal 8099 1
      ∷ literal 7973 1
      ∷ literal 7848 1
      ∷ literal 7722 1
      ∷ literal 7594 1
      ∷ [];
  current_off_nmos =
      literal 343 3
      ∷ literal 373 3
      ∷ literal 403 3
      ∷ literal 435 3
      ∷ literal 466 3
      ∷ literal 499 3
      ∷ literal 531 3
      ∷ literal 564 3
      ∷ literal 596 3
      ∷ literal 625 3
      ∷ literal 651 3
      ∷ [];
  current_off_pmos =
      literal 568 3
      ∷ literal 607 3
      ∷ literal 646 3
      ∷ literal 686 3
      ∷ literal 726 3
      ∷ literal 766 3
      ∷ literal 806 3
      ∷ literal 846 3
      ∷ literal 886 3
      ∷ literal 926 3
      ∷ literal 965 3
      ∷ [];
}

abbrev pub lstp_65 : Tables
lstp_65 = record {
  vdd = literal 11 1;
  vth = literal 56392 5;
  phy_gate_length = literal 45 9;
  cap_ideal_gate = literal 617 12;
  cap_fringe = literal 24 11;
  cap_junction = literal 100 5;
  cap_ox = literal 137 4;
  effective_electron_mobility = literal 45786 6;
  effective_hole_mobility = literal 10264 6;
  pn_size_ratio = literal 223 2;
  effective_resistance_multiplier = literal 196 2;
  current_on_nmos =
      literal 4654 1
      ∷ literal 4585 1
      ∷ literal 4518 1
      ∷ literal 4451 1
      ∷ literal 4384 1
      ∷ literal 4316 1
      ∷ literal 4239 1
      ∷ literal 4142 1
      ∷ literal 4006 1
      ∷ literal 3835 1
      ∷ literal 3672 1
      ∷ [];
  current_on_pmos =
      literal 2342 1
      ∷ literal 2297 1
      ∷ literal 2253 1
      ∷ literal 2210 1
      ∷ literal 2168 1
      ∷ literal 2127 1
      ∷ literal 2088 1
      ∷ literal 2048 1
      ∷ literal 2007 1
      ∷ literal 1966 1
      ∷ literal 1926 1
      ∷ [];
  current_off_nmos =
      literal 303 7
      ∷ literal 446 7
      ∷ literal 643 7
      ∷ literal 906 7
      ∷ literal 125 6
      ∷ literal 170 6
      ∷ literal 225 6
      ∷ literal 290 6
      ∷ literal 361 6
      ∷ literal 435 6
      ∷ literal 520 6
      ∷ [];
  current_off_pmos =
      literal 385 7
      ∷ literal 564 7
      ∷ literal 809 7
      ∷ literal 114 6
      ∷ literal 157 6
      ∷ literal 212 6
      ∷ literal 282 6
      ∷ literal 370 6
      ∷ literal 478 6
      ∷ literal 609 6
      ∷ literal 766 6
      ∷ [];
}

abbrev pub lop_65 : Tables
lop_65 = record {
  vdd = literal 8 1;
  vth = literal 32375 5;
  phy_gate_length = literal 32 9;
  cap_ideal_gate = literal 601 12;
  cap_fringe = literal 24 11;
  cap_junction = literal 100 5;
  cap_ox = literal 188 4;
  effective_electron_mobility = literal 49159 6;
  effective_hole_mobility = literal 11095 6;
  pn_size_ratio = literal 228 2;
  effective_resistance_multiplier = literal 182 2;
  current_on_nmos =
      literal 5629 1
      ∷ literal 5552 1
      ∷ literal 5475 1
      ∷ literal 5398 1
      ∷ literal 5322 1
      ∷ literal 5245 1
      ∷ literal 5161 1
      ∷ literal 5057 1
      ∷ literal 4911 1
      ∷ literal 4717 1
      ∷ literal 4516 1
      ∷ [];
  current_on_pmos =
      literal 3295 1
      ∷ literal 3233 1
      ∷ literal 3172 1
      ∷ literal 3112 1
      ∷ literal 3054 1
      ∷ literal 2998 1
      ∷ literal 2942 1
      ∷ literal 2887 1
      ∷ literal 2832 1
      ∷ literal 2775 1
      ∷ literal 2718 1
      ∷ [];
  current_off_nmos =
      literal 908 5
      ∷ literal 111 4
      ∷ literal 135 4
      ∷ literal 162 4
      ∷ literal 192 4
      ∷ literal 225 4
      ∷ literal 262 4
      ∷ literal 299 4
      ∷ literal 335 4
      ∷ literal 367 4
      ∷ literal 398 4
      ∷ [];
  current_off_pmos =
      literal 130 4
      ∷ literal 157 4
      ∷ literal 189 4
      ∷ literal 224 4
      ∷ literal 264 4
      ∷ literal 308 4
      ∷ literal 356 4
      ∷ literal 109 4
      ∷ literal 465 4
      ∷ literal 526 4
      ∷ literal 591 4
      ∷ [];
}
