-- ===== src/Wire/Coarse.antt =====
-- Wire.cpp: the constants of Initialize, from 120 nm on.
use nvsim.Types.{WireType}
use nvsim.Double.{Double, ◌⊗◌, ◌⊘◌}
use nvsim.Wire.State.{WireTable, copper}

module _ {D : Type 0} ⦃d : Double D⦄ where
  -- Up to 120 nm; `f` is the feature size, 120 nm.
  abbrev pub wire_120 : WireType → D → WireTable D
  wire_120 WireType.local_aggressive f = record {
    barrier_thickness = d.decimal 12 9;
    horizontal_dielectric = d.decimal 33 1;
    wire_pitch = d.decimal 240 9;
    aspect_ratio = d.decimal 16 1;
    ild_thickness = d.decimal 48 8;
    copper_resistivity = copper;
  }
  wire_120 WireType.local_conservative f = record {
    barrier_thickness = d.decimal 1 8;
    horizontal_dielectric = d.decimal 36 1;
    wire_pitch = d.decimal 240 9;
    aspect_ratio = d.decimal 14 1;
    ild_thickness = d.decimal 48 8;
    copper_resistivity = copper;
  }
  wire_120 WireType.semi_aggressive f = record {
    barrier_thickness = d.decimal 12 9;
    horizontal_dielectric = d.decimal 33 1;
    wire_pitch = d.decimal 320 9;
    aspect_ratio = d.decimal 17 1;
    ild_thickness = d.decimal 48 8;
    copper_resistivity = copper;
  }
  wire_120 WireType.semi_conservative f = record {
    barrier_thickness = d.decimal 1 8;
    horizontal_dielectric = d.decimal 36 1;
    wire_pitch = d.decimal 320 9;
    aspect_ratio = d.decimal 15 1;
    ild_thickness = d.decimal 48 8;
    copper_resistivity = copper;
  }
  wire_120 WireType.global_aggressive f = record {
    barrier_thickness = d.decimal 12 9;
    horizontal_dielectric = d.decimal 33 1;
    wire_pitch = d.decimal 475 9;
    aspect_ratio = d.decimal 21 1;
    ild_thickness = d.decimal 96 8;
    copper_resistivity = copper;
  }
  wire_120 WireType.global_conservative f = record {
    barrier_thickness = d.decimal 1 8;
    horizontal_dielectric = d.decimal 36 1;
    wire_pitch = d.decimal 475 9;
    aspect_ratio = d.decimal 19 1;
    ild_thickness = d.decimal 11 7;
    copper_resistivity = copper;
  }
  wire_120 WireType.dram_wordline f = record {
    barrier_thickness = d.decimal 0 6;
    horizontal_dielectric = d.decimal 0 0;
    wire_pitch = d.decimal 2 0 ⊗ f;
    aspect_ratio = d.decimal 0 0;
    ild_thickness = d.decimal 0 6;
    copper_resistivity = copper;
  }

  -- Up to 200 nm; `f` is the feature size, 200 nm.
  abbrev pub wire_200 : WireType → D → WireTable D
  wire_200 WireType.local_aggressive f = record {
    barrier_thickness = d.decimal 16 9;
    horizontal_dielectric = d.decimal 375 2;
    wire_pitch = d.decimal 45 8;
    aspect_ratio = d.decimal 24 1;
    ild_thickness = d.decimal 1 6;
    copper_resistivity = copper;
  }
  wire_200 WireType.local_conservative f = record {
    barrier_thickness = d.decimal 16 9 ⊗ d.decimal 8 1;
    horizontal_dielectric = d.decimal 375 2 ⊗ d.decimal 3038 3 ⊘ d.decimal 2709 3;
    wire_pitch = d.decimal 45 8;
    aspect_ratio = d.decimal 12 1;
    ild_thickness = d.decimal 1 6;
    copper_resistivity = copper;
  }
  wire_200 WireType.semi_aggressive f = record {
    barrier_thickness = d.decimal 16 9;
    horizontal_dielectric = d.decimal 375 2;
    wire_pitch = d.decimal 575 9;
    aspect_ratio = d.decimal 21 1;
    ild_thickness = d.decimal 1 6;
    copper_resistivity = copper;
  }
  wire_200 WireType.semi_conservative f = record {
    barrier_thickness = d.decimal 16 9 ⊗ d.decimal 8 1;
    horizontal_dielectric = d.decimal 375 2 ⊗ d.decimal 3038 3 ⊘ d.decimal 2709 3;
    wire_pitch = d.decimal 575 9;
    aspect_ratio = d.decimal 21 1 ⊗ d.decimal 20 1 ⊘ d.decimal 24 1;
    ild_thickness = d.decimal 1 6;
    copper_resistivity = copper;
  }
  wire_200 WireType.global_aggressive f = record {
    barrier_thickness = d.decimal 16 9;
    horizontal_dielectric = d.decimal 375 2;
    wire_pitch = d.decimal 945 9;
    aspect_ratio = d.decimal 21 1;
    ild_thickness = d.decimal 2 6;
    copper_resistivity = copper;
  }
  wire_200 WireType.global_conservative f = record {
    barrier_thickness = d.decimal 16 9 ⊗ d.decimal 8 1;
    horizontal_dielectric = d.decimal 375 2 ⊗ d.decimal 3038 3 ⊘ d.decimal 2709 3;
    wire_pitch = d.decimal 945 9;
    aspect_ratio = d.decimal 21 1 ⊗ d.decimal 22 1 ⊘ d.decimal 27 1;
    ild_thickness = d.decimal 22 7;
    copper_resistivity = copper;
  }
  wire_200 WireType.dram_wordline f = record {
    barrier_thickness = d.decimal 0 6;
    horizontal_dielectric = d.decimal 0 0;
    wire_pitch = d.decimal 2 0 ⊗ f;
    aspect_ratio = d.decimal 0 0;
    ild_thickness = d.decimal 0 6;
    copper_resistivity = copper;
  }
