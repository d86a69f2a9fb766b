-- ===== src/Technology/Tables/N22.antt =====
-- Technology.cpp: the constants of the 22 nm node, in the order of the road maps.
use nvsim.Shared.{List, [], ◌∷◌}
use nvsim.Technology.Entry.{Tables, literal, Entry, product, quotient, halves_before}

abbrev hp_22_on : List Entry
hp_22_on =
    literal 20299 1
    ∷ literal 20098 1
    ∷ literal 19896 1
    ∷ literal 19696 1
    ∷ literal 19498 1
    ∷ literal 19307 1
    ∷ literal 19105 1
    ∷ literal 18910 1
    ∷ literal 18717 1
    ∷ literal 18525 1
    ∷ literal 18344 1
    ∷ []

abbrev hp_22_off : List Entry
hp_22_off =
    product (literal 152 9) (literal 3930000 0)
    ∷ product (literal 155 9) (literal 3930000 0)
    ∷ product (literal 159 9) (literal 3930000 0)
    ∷ product (literal 168 9) (literal 3930000 0)
    ∷ product (literal 190 9) (literal 3930000 0)
    ∷ product (literal 269 9) (literal 3930000 0)
    ∷ product (literal 532 9) (literal 3930000 0)
    ∷ product (literal 102 8) (literal 3930000 0)
    ∷ product (literal 162 8) (literal 3930000 0)
    ∷ product (literal 273 8) (literal 3930000 0)
    ∷ product (literal 61 7) (literal 3930000 0)
    ∷ []

abbrev pub hp_22 : Tables
hp_22 = record {
  vdd = literal 9 1;
  vth = literal 12872 5;
  phy_gate_length = literal 10 9;
  cap_ideal_gate = literal 383 12;
  cap_fringe = literal 16 11;
  cap_junction = literal 0 0;
  cap_ox = literal 383 4;
  effective_electron_mobility = literal 39726 6;
  effective_hole_mobility = literal 8360 6;
  pn_size_ratio = literal 2 0;
  effective_resistance_multiplier = literal 145 2;
  current_on_nmos = hp_22_on;
  current_on_pmos = halves_before hp_22_on;
  current_off_nmos = hp_22_off;
  current_off_pmos = hp_22_off;
}

abbrev lstp_22_on : List Entry
lstp_22_on =
    literal 7455 1
    ∷ literal 7352 1
    ∷ literal 7251 1
    ∷ literal 7152 1
    ∷ literal 7054 1
    ∷ literal 6957 1
    ∷ literal 6862 1
    ∷ literal 6769 1
    ∷ literal 6677 1
    ∷ literal 6587 1
    ∷ literal 6498 1
    ∷ []

abbrev lstp_22_off : List Entry
lstp_22_off =
    quotient (literal 302 7) (literal 186 2)
    ∷ quotient (literal 451 7) (literal 186 2)
    ∷ quotient (literal 657 7) (literal 186 2)
    ∷ quotient (literal 935 7) (literal 186 2)
    ∷ quotient (literal 131 6) (literal 186 2)
    ∷ quotient (literal 179 6) (literal 186 2)
    ∷ quotient (literal 241 6) (literal 186 2)
    ∷ quotient (literal 319 6) (literal 186 2)
    ∷ quotient (literal 415 6) (literal 186 2)
    ∷ quotient (literal 529 6) (literal 186 2)
    ∷ quotient (literal 658 6) (literal 186 2)
    ∷ []

abbrev pub lstp_22 : Tables
lstp_22 = record {
  vdd = literal 8 1;
  vth = literal 44571 5;
  phy_gate_length = literal 16 9;
  cap_ideal_gate = literal 425 12;
  cap_fringe = literal 2 10;
  cap_junction = literal 0 0;
  cap_ox = literal 265 4;
  effective_electron_mobility = literal 73129 6;
  effective_hole_mobility = literal 11122 6;
  pn_size_ratio = literal 223 2;
  effective_resistance_multiplier = literal 199 2;
  current_on_nmos = lstp_22_on;
  current_on_pmos = halves_before lstp_22_on;
  current_off_nmos = lstp_22_off;
  current_off_pmos = lstp_22_off;
}

abbrev lop_22_on : List Entry
lop_22_on =
    literal 7161 1
    ∷ literal 7043 1
    ∷ literal 6926 1
    ∷ literal 6812 1
    ∷ literal 6699 1
    ∷ literal 6588 1
    ∷ literal 6479 1
    ∷ literal 6371 1
    ∷ literal 6265 1
    ∷ literal 6160 1
    ∷ literal 6057 1
    ∷ []

abbrev lop_22_off : List Entry
lop_22_off =
    quotient (literal 357 4) (literal 17 1)
    ∷ quotient (literal 421 4) (literal 17 1)
    ∷ quotient (literal 491 4) (literal 17 1)
    ∷ quotient (literal 568 4) (literal 17 1)
    ∷ quotient (literal 651 4) (literal 17 1)
    ∷ quotient (literal 742 4) (literal 17 1)
    ∷ quotient (literal 843 4) (literal 17 1)
    ∷ quotient (literal 957 4) (literal 17 1)
    ∷ quotient (literal 110 3) (literal 17 1)
    ∷ quotient (literal 128 3) (literal 17 1)
    ∷ quotient (literal 148 3) (literal 17 1)
    ∷ []

abbrev pub lop_22 : Tables
lop_22 = record {
  vdd = literal 5 1;
  vth = literal 21739 5;
  phy_gate_length = literal 11 9;
  cap_ideal_gate = literal 345 12;
  cap_fringe = literal 17 11;
  cap_junction = literal 0 0;
  cap_ox = literal 314 4;
  effective_electron_mobility = literal 74737 6;
  effective_hole_mobility = literal 11835 6;
  pn_size_ratio = literal 228 2;
  effective_resistance_multiplier = literal 173 2;
  current_on_nmos = lop_22_on;
  current_on_pmos = halves_before lop_22_on;
  current_off_nmos = lop_22_off;
  current_off_pmos = lop_22_off;
}
