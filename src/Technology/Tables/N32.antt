-- ===== src/Technology/Tables/N32.antt =====
-- Technology.cpp: the constants of the 32 nm node, in the order of the road maps.
use nvsim.Shared.{List, [], ◌∷◌}
use nvsim.Technology.Entry.{Tables, literal, Entry}

abbrev hp_32_off : List Entry
hp_32_off =
    literal 834 3
    ∷ literal 900 3
    ∷ literal 968 3
    ∷ literal 104 2
    ∷ literal 111 2
    ∷ literal 118 2
    ∷ literal 125 2
    ∷ literal 132 2
    ∷ literal 139 2
    ∷ literal 146 2
    ∷ literal 154 2
    ∷ []

abbrev pub hp_32 : Tables
hp_32 = record {
  vdd = literal 9 1;
  vth = literal 13172 5;
  phy_gate_length = literal 14 9;
  cap_ideal_gate = literal 642 12;
  cap_fringe = literal 16 11;
  cap_junction = literal 100 5;
  cap_ox = literal 459 4;
  effective_electron_mobility = literal 25773 6;
  effective_hole_mobility = literal 8992 6;
  pn_size_ratio = literal 241 2;
  effective_resistance_multiplier = literal 149 2;
  current_on_nmos =
      literal 17858 1
      ∷ literal 17718 1
      ∷ literal 17578 1
      ∷ literal 17438 1
      ∷ literal 17298 1
      ∷ literal 17157 1
      ∷ literal 17017 1
      ∷ literal 16876 1
      ∷ literal 16735 1
      ∷ literal 16594 1
      ∷ literal 16450 1
      ∷ [];
  current_on_pmos =
      literal 17135 1
      ∷ literal 16628 1
      ∷ literal 16201 1
      ∷ literal 16016 1
      ∷ literal 15833 1
      ∷ literal 15651 1
      ∷ literal 15471 1
      ∷ literal 15291 1
      ∷ literal 15113 1
      ∷ literal 14937 1
      ∷ literal 14761 1
      ∷ [];
  current_off_nmos = hp_32_off;
  current_off_pmos = hp_32_off;
}

abbrev lstp_32_off : List Entry
lstp_32_off =
    literal 302 7
    ∷ literal 451 7
    ∷ literal 657 7
    ∷ literal 935 7
    ∷ literal 131 6
    ∷ literal 179 6
    ∷ literal 241 6
    ∷ literal 319 6
    ∷ literal 415 6
    ∷ literal 529 6
    ∷ literal 658 6
    ∷ []

abbrev pub lstp_32 : Tables
lstp_32 = record {
  vdd = literal 1 0;
  vth = literal 58181 5;
  phy_gate_length = literal 22 9;
  cap_ideal_gate = literal 502 12;
  cap_fringe = literal 19 11;
  cap_junction = literal 100 5;
  cap_ox = literal 219 4;
  effective_electron_mobility = literal 39520 6;
  effective_hole_mobility = literal 8867 6;
  pn_size_ratio = literal 223 2;
  effective_resistance_multiplier = literal 199 2;
  current_on_nmos =
      literal 5600 1
      ∷ literal 5530 1
      ∷ literal 5461 1
      ∷ literal 5393 1
      ∷ literal 5325 1
      ∷ literal 5258 1
      ∷ literal 5189 1
      ∷ literal 5115 1
      ∷ literal 5023 1
      ∷ literal 4892 1
      ∷ literal 4697 1
      ∷ [];
  current_on_pmos =
      literal 5496 1
      ∷ literal 5411 1
      ∷ literal 5328 1
      ∷ literal 5246 1
      ∷ literal 5165 1
      ∷ literal 5087 1
      ∷ literal 5009 1
      ∷ literal 4933 1
      ∷ literal 4858 1
      ∷ literal 4783 1
      ∷ literal 4707 1
      ∷ [];
  current_off_nmos = lstp_32_off;
  current_off_pmos = lstp_32_off;
}

abbrev lop_32_off : List Entry
lop_32_off =
    literal 357 4
    ∷ literal 421 4
    ∷ literal 491 4
    ∷ literal 568 4
    ∷ literal 651 4
    ∷ literal 742 4
    ∷ literal 843 4
    ∷ literal 957 4
    ∷ literal 110 3
    ∷ literal 128 3
    ∷ literal 148 3
    ∷ []

abbrev pub lop_32 : Tables
lop_32 = record {
  vdd = literal 7 1;
  vth = literal 27852 5;
  phy_gate_length = literal 18 9;
  cap_ideal_gate = literal 554 12;
  cap_fringe = literal 20 11;
  cap_junction = literal 100 5;
  cap_ox = literal 308 4;
  effective_electron_mobility = literal 58162 6;
  effective_hole_mobility = literal 12030 6;
  pn_size_ratio = literal 228 2;
  effective_resistance_multiplier = literal 173 2;
  current_on_nmos =
      literal 7603 1
      ∷ literal 7504 1
      ∷ literal 7405 1
      ∷ literal 7307 1
      ∷ literal 7208 1
      ∷ literal 7109 1
      ∷ literal 7003 1
      ∷ literal 6876 1
      ∷ literal 6705 1
      ∷ literal 6474 1
      ∷ literal 6236 1
      ∷ [];
  current_on_pmos =
      literal 8786 1
      ∷ literal 8651 1
      ∷ literal 8518 1
      ∷ literal 8387 1
      ∷ literal 8257 1
      ∷ literal 8130 1
      ∷ literal 8003 1
      ∷ literal 7879 1
      ∷ literal 7755 1
      ∷ literal 7630 1
      ∷ literal 7503 1
      ∷ [];
  current_off_nmos = lop_32_off;
  current_off_pmos = lop_32_off;
}
