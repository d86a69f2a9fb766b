-- ===== src/Wire/Fine.antt =====
-- Wire.cpp: the constants of Initialize, up to 45 nm.
use nvsim.Types.{WireType}
use nvsim.Double.{Double, ◌⊗◌, ◌⊘◌}
use nvsim.Wire.State.{WireTable, copper}

module _ {D : Type 0} ⦃d : Double D⦄ where
  -- Up to 22 nm; `f` is the feature size, 22 nm.
  abbrev pub wire_22 : WireType → D → WireTable D
  wire_22 WireType.local_aggressive f = record {
    barrier_thickness = d.decimal 0 8;
    horizontal_dielectric = d.decimal 255 2;
    wire_pitch = d.decimal 2 0 ⊗ f;
    aspect_ratio = d.decimal 19 1;
    ild_thickness = d.decimal 19 1 ⊗ f;
    copper_resistivity = d.decimal 60 9;
  }
  wire_22 WireType.local_conservative f = record {
    barrier_thickness = d.decimal 21 10;
    horizontal_dielectric = d.decimal 3 0;
    wire_pitch = d.decimal 2 0 ⊗ f;
    aspect_ratio = d.decimal 19 1;
    ild_thickness = d.decimal 19 1 ⊗ f;
    copper_resistivity = d.decimal 60 9;
  }
  wire_22 WireType.semi_aggressive f = record {
    barrier_thickness = d.decimal 0 8;
    horizontal_dielectric = d.decimal 255 2;
    wire_pitch = d.decimal 4 0 ⊗ f;
    aspect_ratio = d.decimal 19 1;
    ild_thickness = d.decimal 2 0 ⊗ d.decimal 19 1 ⊗ f;
    copper_resistivity = d.decimal 60 9;
  }
  wire_22 WireType.semi_conservative f = record {
    barrier_thickness = d.decimal 21 10;
    horizontal_dielectric = d.decimal 3 0;
    wire_pitch = d.decimal 4 0 ⊗ f;
    aspect_ratio = d.decimal 19 1;
    ild_thickness = d.decimal 2 0 ⊗ d.decimal 19 1 ⊗ f;
    copper_resistivity = d.decimal 60 9;
  }
  wire_22 WireType.global_aggressive f = record {
    barrier_thickness = d.decimal 0 8;
    horizontal_dielectric = d.decimal 255 2;
    wire_pitch = d.decimal 8 0 ⊗ f;
    aspect_ratio = d.decimal 234 2;
    ild_thickness = d.decimal 42 8 ⊗ d.decimal 22 0 ⊘ d.decimal 32 0;
    copper_resistivity = d.decimal 30 9;
  }
  wire_22 WireType.global_conservative f = record {
    barrier_thickness = d.decimal 63 10;
    horizontal_dielectric = d.decimal 3 0;
    wire_pitch = d.decimal 8 0 ⊗ f;
    aspect_ratio = d.decimal 234 2;
    ild_thickness = d.decimal 385 9 ⊗ d.decimal 22 0 ⊘ d.decimal 32 0;
    copper_resistivity = d.decimal 30 9;
  }
  wire_22 WireType.dram_wordline f = record {
    barrier_thickness = d.decimal 0 6;
    horizontal_dielectric = d.decimal 0 0;
    wire_pitch = d.decimal 2 0 ⊗ f;
    aspect_ratio = d.decimal 0 0;
    ild_thickness = d.decimal 0 6;
    copper_resistivity = copper;
  }

  -- Up to 32 nm; `f` is the feature size, 32 nm.
  abbrev pub wire_32 : WireType → D → WireTable D
  wire_32 WireType.local_aggressive f = record {
    barrier_thickness = d.decimal 0 8;
    horizontal_dielectric = d.decimal 282 2;
    wire_pitch = d.decimal 2 0 ⊗ f;
    aspect_ratio = d.decimal 18 1;
    ild_thickness = d.decimal 18 1 ⊗ f;
    copper_resistivity = d.decimal 50 9;
  }
  wire_32 WireType.local_conservative f = record {
    barrier_thickness = d.decimal 26 10;
    horizontal_dielectric = d.decimal 316 2;
    wire_pitch = d.decimal 2 0 ⊗ f;
    aspect_ratio = d.decimal 18 1;
    ild_thickness = d.decimal 18 1 ⊗ f;
    copper_resistivity = d.decimal 50 9;
  }
  wire_32 WireType.semi_aggressive f = record {
    barrier_thickness = d.decimal 0 8;
    horizontal_dielectric = d.decimal 282 2;
    wire_pitch = d.decimal 4 0 ⊗ f;
    aspect_ratio = d.decimal 19 1;
    ild_thickness = d.decimal 2 0 ⊗ d.decimal 19 1 ⊗ f;
    copper_resistivity = d.decimal 50 9;
  }
  wire_32 WireType.semi_conservative f = record {
    barrier_thickness = d.decimal 26 10;
    horizontal_dielectric = d.decimal 316 2;
    wire_pitch = d.decimal 4 0 ⊗ f;
    aspect_ratio = d.decimal 19 1;
    ild_thickness = d.decimal 2 0 ⊗ d.decimal 19 1 ⊗ f;
    copper_resistivity = d.decimal 50 9;
  }
  wire_32 WireType.global_aggressive f = record {
    barrier_thickness = d.decimal 0 8;
    horizontal_dielectric = d.decimal 282 2;
    wire_pitch = d.decimal 8 0 ⊗ f;
    aspect_ratio = d.decimal 234 2;
    ild_thickness = d.decimal 42 8;
    copper_resistivity = d.decimal 25 9;
  }
  wire_32 WireType.global_conservative f = record {
    barrier_thickness = d.decimal 78 10;
    horizontal_dielectric = d.decimal 316 2;
    wire_pitch = d.decimal 8 0 ⊗ f;
    aspect_ratio = d.decimal 234 2;
    ild_thickness = d.decimal 385 9;
    copper_resistivity = d.decimal 25 9;
  }
  wire_32 WireType.dram_wordline f = record {
    barrier_thickness = d.decimal 0 6;
    horizontal_dielectric = d.decimal 0 0;
    wire_pitch = d.decimal 2 0 ⊗ f;
    aspect_ratio = d.decimal 0 0;
    ild_thickness = d.decimal 0 6;
    copper_resistivity = copper;
  }

  -- Up to 45 nm; `f` is the feature size, 45 nm.
  abbrev pub wire_45 : WireType → D → WireTable D
  wire_45 WireType.local_aggressive f = record {
    barrier_thickness = d.decimal 0 8;
    horizontal_dielectric = d.decimal 26 1;
    wire_pitch = d.decimal 102 9;
    aspect_ratio = d.decimal 18 1;
    ild_thickness = d.decimal 918 10;
    copper_resistivity = d.decimal 408 10;
  }
  wire_45 WireType.local_conservative f = record {
    barrier_thickness = d.decimal 33 10;
    horizontal_dielectric = d.decimal 29 1;
    wire_pitch = d.decimal 102 9;
    aspect_ratio = d.decimal 18 1;
    ild_thickness = d.decimal 918 10;
    copper_resistivity = d.decimal 408 10;
  }
  wire_45 WireType.semi_aggressive f = record {
    barrier_thickness = d.decimal 0 8;
    horizontal_dielectric = d.decimal 26 1;
    wire_pitch = d.decimal 4 0 ⊗ f;
    aspect_ratio = d.decimal 18 1;
    ild_thickness = d.decimal 2 0 ⊗ d.decimal 18 1 ⊗ f;
    copper_resistivity = d.decimal 408 10;
  }
  wire_45 WireType.semi_conservative f = record {
    barrier_thickness = d.decimal 33 10;
    horizontal_dielectric = d.decimal 29 1;
    wire_pitch = d.decimal 4 0 ⊗ f;
    aspect_ratio = d.decimal 18 1;
    ild_thickness = d.decimal 2 0 ⊗ d.decimal 18 1 ⊗ f;
    copper_resistivity = d.decimal 408 10;
  }
  wire_45 WireType.global_aggressive f = record {
    barrier_thickness = d.decimal 0 8;
    horizontal_dielectric = d.decimal 26 1;
    wire_pitch = d.decimal 8 0 ⊗ f;
    aspect_ratio = d.decimal 234 2;
    ild_thickness = d.decimal 63 8;
    copper_resistivity = d.decimal 206 10;
  }
  wire_45 WireType.global_conservative f = record {
    barrier_thickness = d.decimal 1 8;
    horizontal_dielectric = d.decimal 29 1;
    wire_pitch = d.decimal 8 0 ⊗ f;
    aspect_ratio = d.decimal 234 2;
    ild_thickness = d.decimal 55 8;
    copper_resistivity = d.decimal 206 10;
  }
  wire_45 WireType.dram_wordline f = record {
    barrier_thickness = d.decimal 0 6;
    horizontal_dielectric = d.decimal 0 0;
    wire_pitch = d.decimal 2 0 ⊗ f;
    aspect_ratio = d.decimal 0 0;
    ild_thickness = d.decimal 0 6;
    copper_resistivity = copper;
  }
