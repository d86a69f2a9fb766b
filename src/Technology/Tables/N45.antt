-- ===== src/Technology/Tables/N45.antt =====
-- Technology.cpp: the constants of the 45 nm node, in the order of the road maps.
use nvsim.Shared.{List, [], ◌∷◌}
use nvsim.Technology.Entry.{Tables, literal, Entry}

abbrev hp_45_off : List Entry
hp_45_off =
    literal 280 3
    ∷ literal 328 3
    ∷ literal 381 3
    ∷ literal 439 3
    ∷ literal 502 3
    ∷ literal 569 3
    ∷ literal 642 3
    ∷ literal 720 3
    ∷ literal 803 3
    ∷ literal 891 3
    ∷ literal 984 3
    ∷ []

abbrev pub hp_45 : Tables
hp_45 = record {
  vdd = literal 10 1;
  vth = literal 12679 5;
  phy_gate_length = literal 18 9;
  cap_ideal_gate = literal 678 12;
  cap_fringe = literal 17 11;
  cap_junction = literal 100 5;
  cap_ox = literal 377 4;
  effective_electron_mobility = literal 29770 6;
  effective_hole_mobility = literal 9527 6;
  pn_size_ratio = literal 241 2;
  effective_resistance_multiplier = literal 151 2;
  current_on_nmos =
      literal 18238 1
      ∷ literal 18082 1
      ∷ literal 17926 1
      ∷ literal 17770 1
      ∷ literal 17614 1
      ∷ literal 17458 1
      ∷ literal 17303 1
      ∷ literal 17147 1
      ∷ literal 16991 1
      ∷ literal 16832 1
      ∷ literal 16666 1
      ∷ [];
  current_on_pmos =
      literal 16322 1
      ∷ literal 16128 1
      ∷ literal 15936 1
      ∷ literal 15741 1
      ∷ literal 15547 1
      ∷ literal 15355 1
      ∷ literal 15164 1
      ∷ literal 14976 1
      ∷ literal 14788 1
      ∷ literal 14603 1
      ∷ literal 14418 1
      ∷ [];
  current_off_nmos = hp_45_off;
  current_off_pmos = hp_45_off;
}

abbrev lstp_45_off : List Entry
lstp_45_off =
    literal 101 7
    ∷ literal 165 7
    ∷ literal 262 7
    ∷ literal 406 7
    ∷ literal 612 7
    ∷ literal 902 7
    ∷ literal 130 6
    ∷ literal 183 6
    ∷ literal 251 6
    ∷ literal 329 6
    ∷ literal 410 6
    ∷ []

abbrev pub lstp_45 : Tables
lstp_45 = record {
  vdd = literal 10 1;
  vth = literal 56452 5;
  phy_gate_length = literal 28 9;
  cap_ideal_gate = literal 558 12;
  cap_fringe = literal 21 11;
  cap_junction = literal 100 5;
  cap_ox = literal 199 4;
  effective_electron_mobility = literal 45614 6;
  effective_hole_mobility = literal 9698 6;
  pn_size_ratio = literal 223 2;
  effective_resistance_multiplier = literal 199 2;
  current_on_nmos =
      literal 5275 1
      ∷ literal 5202 1
      ∷ literal 5129 1
      ∷ literal 5058 1
      ∷ literal 4986 1
      ∷ literal 4914 1
      ∷ literal 4837 1
      ∷ literal 4744 1
      ∷ literal 4612 1
      ∷ literal 4426 1
      ∷ literal 4213 1
      ∷ [];
  current_on_pmos =
      literal 4979 1
      ∷ literal 4895 1
      ∷ literal 4813 1
      ∷ literal 4732 1
      ∷ literal 4653 1
      ∷ literal 4576 1
      ∷ literal 4500 1
      ∷ literal 4425 1
      ∷ literal 4351 1
      ∷ literal 4275 1
      ∷ literal 4197 1
      ∷ [];
  current_off_nmos = lstp_45_off;
  current_off_pmos = lstp_45_off;
}

abbrev lop_45_off : List Entry
lop_45_off =
    literal 403 5
    ∷ literal 502 5
    ∷ literal 618 5
    ∷ literal 751 5
    ∷ literal 904 5
    ∷ literal 108 4
    ∷ literal 127 4
    ∷ literal 147 4
    ∷ literal 166 4
    ∷ literal 184 4
    ∷ literal 203 4
    ∷ []

abbrev pub lop_45 : Tables
lop_45 = record {
  vdd = literal 7 1;
  vth = literal 28894 5;
  phy_gate_length = literal 22 9;
  cap_ideal_gate = literal 613 12;
  cap_fringe = literal 20 11;
  cap_junction = literal 100 5;
  cap_ox = literal 279 4;
  effective_electron_mobility = literal 60695 6;
  effective_hole_mobility = literal 12460 6;
  pn_size_ratio = literal 228 2;
  effective_resistance_multiplier = literal 176 2;
  current_on_nmos =
      literal 6821 1
      ∷ literal 6723 1
      ∷ literal 6625 1
      ∷ literal 6528 1
      ∷ literal 6430 1
      ∷ literal 6328 1
      ∷ literal 6209 1
      ∷ literal 6050 1
      ∷ literal 5836 1
      ∷ literal 5610 1
      ∷ literal 5427 1
      ∷ [];
  current_on_pmos =
      literal 7724 1
      ∷ literal 7596 1
      ∷ literal 7469 1
      ∷ literal 7344 1
      ∷ literal 7221 1
      ∷ literal 7100 1
      ∷ literal 6981 1
      ∷ literal 6863 1
      ∷ literal 6744 1
      ∷ literal 6623 1
      ∷ literal 6502 1
      ∷ [];
  current_off_nmos = lop_45_off;
  current_off_pmos = lop_45_off;
}
