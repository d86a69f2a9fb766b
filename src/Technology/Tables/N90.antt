-- ===== src/Technology/Tables/N90.antt =====
-- Technology.cpp: the constants of the 90 nm node, in the order of the road maps.
use nvsim.Shared.{[], ◌∷◌}
use nvsim.Technology.Entry.{Tables, literal, product}

abbrev pub hp_90 : Tables
hp_90 = record {
  vdd = literal 12 1;
  vth = literal 19795 5;
  phy_gate_length = literal 37 9;
  cap_ideal_gate = literal 638 12;
  cap_fringe = literal 25 11;
  cap_junction = literal 100 5;
  cap_ox = literal 173 4;
  effective_electron_mobility = literal 24343 6;
  effective_hole_mobility = literal 5832 6;
  pn_size_ratio = literal 245 2;
  effective_resistance_multiplier = literal 154 2;
  current_on_nmos =
      literal 10505 1
      ∷ literal 10370 1
      ∷ literal 10236 1
      ∷ literal 10103 1
      ∷ literal 9972 1
      ∷ literal 9842 1
      ∷ literal 9714 1
      ∷ literal 9588 1
      ∷ literal 9463 1
      ∷ literal 9339 1
      ∷ literal 9217 1
      ∷ [];
  current_on_pmos =
      literal 6387 1
      ∷ literal 6275 1
      ∷ literal 6165 1
      ∷ literal 6058 1
      ∷ literal 5952 1
      ∷ literal 5849 1
      ∷ literal 5747 1
      ∷ literal 5648 1
      ∷ literal 5551 1
      ∷ literal 5455 1
      ∷ literal 5362 1
      ∷ [];
  current_off_nmos =
      product (literal 190 4) (literal 273 2)
      ∷ product (literal 235 4) (literal 273 2)
      ∷ product (literal 286 4) (literal 273 2)
      ∷ product (literal 345 4) (literal 273 2)
      ∷ product (literal 412 4) (literal 273 2)
      ∷ product (literal 487 4) (literal 273 2)
      ∷ product (literal 571 4) (literal 273 2)
      ∷ product (literal 664 4) (literal 273 2)
      ∷ product (literal 767 4) (literal 273 2)
      ∷ product (literal 880 4) (literal 273 2)
      ∷ product (literal 100 3) (literal 273 2)
      ∷ [];
  current_off_pmos =
      literal 526 4
      ∷ literal 526 4
      ∷ literal 526 4
      ∷ literal 527 4
      ∷ literal 528 4
      ∷ literal 529 4
      ∷ literal 531 4
      ∷ literal 534 4
      ∷ literal 536 4
      ∷ literal 540 4
      ∷ literal 543 4
      ∷ [];
}

abbrev pub lstp_90 : Tables
lstp_90 = record {
  vdd = literal 12 1;
  vth = literal 50236 5;
  phy_gate_length = literal 65 9;
  cap_ideal_gate = literal 773 12;
  cap_fringe = literal 24 11;
  cap_junction = literal 100 5;
  cap_ox = literal 119 4;
  effective_electron_mobility = literal 27794 6;
  effective_hole_mobility = literal 6064 6;
  pn_size_ratio = literal 244 2;
  effective_resistance_multiplier = literal 192 2;
  current_on_nmos =
      literal 4466 1
      ∷ literal 4387 1
      ∷ literal 4312 1
      ∷ literal 4238 1
      ∷ literal 4167 1
      ∷ literal 4097 1
      ∷ literal 4029 1
      ∷ literal 3963 1
      ∷ literal 3898 1
      ∷ literal 3835 1
      ∷ literal 3773 1
      ∷ [];
  current_on_pmos =
      literal 2215 1
      ∷ literal 2166 1
      ∷ literal 2120 1
      ∷ literal 2074 1
      ∷ literal 2031 1
      ∷ literal 1988 1
      ∷ literal 1947 1
      ∷ literal 1907 1
      ∷ literal 1869 1
      ∷ literal 1831 1
      ∷ literal 1795 1
      ∷ [];
  current_off_nmos =
      literal 945 8
      ∷ literal 967 8
      ∷ literal 991 7
      ∷ literal 102 7
      ∷ literal 105 7
      ∷ literal 108 7
      ∷ literal 111 7
      ∷ literal 114 7
      ∷ literal 128 7
      ∷ literal 132 7
      ∷ literal 137 7
      ∷ [];
  current_off_pmos =
      literal 205 7
      ∷ literal 210 7
      ∷ literal 215 7
      ∷ literal 221 7
      ∷ literal 227 7
      ∷ literal 234 7
      ∷ literal 241 7
      ∷ literal 248 7
      ∷ literal 256 7
      ∷ literal 265 7
      ∷ literal 274 7
      ∷ [];
}

abbrev pub lop_90 : Tables
lop_90 = record {
  vdd = literal 9 1;
  vth = literal 26454 5;
  phy_gate_length = literal 53 9;
  cap_ideal_gate = literal 795 12;
  cap_fringe = literal 24 11;
  cap_junction = literal 100 5;
  cap_ox = literal 150 4;
  effective_electron_mobility = literal 30904 6;
  effective_hole_mobility = literal 6788 6;
  pn_size_ratio = literal 254 2;
  effective_resistance_multiplier = literal 177 2;
  current_on_nmos =
      literal 5345 1
      ∷ literal 5257 1
      ∷ literal 5170 1
      ∷ literal 5085 1
      ∷ literal 5002 1
      ∷ literal 4921 1
      ∷ literal 4841 1
      ∷ literal 4763 1
      ∷ literal 4687 1
      ∷ literal 4612 1
      ∷ literal 4539 1
      ∷ [];
  current_on_pmos =
      literal 2942 1
      ∷ literal 2878 1
      ∷ literal 2817 1
      ∷ literal 2757 1
      ∷ literal 2699 1
      ∷ literal 2642 1
      ∷ literal 2587 1
      ∷ literal 2534 1
      ∷ literal 2482 1
      ∷ literal 2432 1
      ∷ literal 2383 1
      ∷ [];
  current_off_nmos =
      literal 274 5
      ∷ literal 26 4
      ∷ literal 279 5
      ∷ literal 281 5
      ∷ literal 284 5
      ∷ literal 288 5
      ∷ literal 291 5
      ∷ literal 295 5
      ∷ literal 299 5
      ∷ literal 304 5
      ∷ literal 309 5
      ∷ [];
  current_off_pmos =
      literal 651 5
      ∷ literal 656 5
      ∷ literal 661 5
      ∷ literal 667 5
      ∷ literal 674 5
      ∷ literal 682 5
      ∷ literal 691 5
      ∷ literal 700 5
      ∷ literal 710 5
      ∷ literal 721 5
      ∷ literal 733 5
      ∷ [];
}
