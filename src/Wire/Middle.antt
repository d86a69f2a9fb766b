-- ===== src/Wire/Middle.antt =====
-- Wire.cpp: the constants of Initialize, for 65 and 90 nm.
use nvsim.Types.{WireType}
use nvsim.Double.{Double, ◌⊗◌}
use nvsim.Wire.State.{WireTable, copper}

module _ {D : Type 0} ⦃d : Double D⦄ where
  -- Up to 65 nm; `f` is the feature size, 65 nm.
  abbrev pub wire_65 : WireType → D → WireTable D
  wire_65 WireType.local_aggressive f = record {
    barrier_thickness = d.decimal 0 8;
    horizontal_dielectric = d.decimal 2303 3;
    wire_pitch = d.decimal 25 1 ⊗ f;
    aspect_ratio = d.decimal 27 1;
    ild_thickness = d.decimal 405 9;
    copper_resistivity = copper;
  }
  wire_65 WireType.local_conservative f = record {
    barrier_thickness = d.decimal 6 9;
    horizontal_dielectric = d.decimal 2734 3;
    wire_pitch = d.decimal 25 1 ⊗ f;
    aspect_ratio = d.decimal 20 1;
    ild_thickness = d.decimal 405 9;
    copper_resistivity = copper;
  }
  wire_65 WireType.semi_aggressive f = record {
    barrier_thickness = d.decimal 0 8;
    horizontal_dielectric = d.decimal 2303 3;
    wire_pitch = d.decimal 4 0 ⊗ f;
    aspect_ratio = d.decimal 27 1;
    ild_thickness = d.decimal 405 9;
    copper_resistivity = copper;
  }
  wire_65 WireType.semi_conservative f = record {
    barrier_thickness = d.decimal 6 9;
    horizontal_dielectric = d.decimal 2734 3;
    wire_pitch = d.decimal 4 0 ⊗ f;
    aspect_ratio = d.decimal 20 1;
    ild_thickness = d.decimal 405 9;
    copper_resistivity = copper;
  }
  wire_65 WireType.global_aggressive f = record {
    barrier_thickness = d.decimal 0 8;
    horizontal_dielectric = d.decimal 2303 3;
    wire_pitch = d.decimal 8 0 ⊗ f;
    aspect_ratio = d.decimal 28 1;
    ild_thickness = d.decimal 81 8;
    copper_resistivity = copper;
  }
  wire_65 WireType.global_conservative f = record {
    barrier_thickness = d.decimal 6 9;
    horizontal_dielectric = d.decimal 2734 3;
    wire_pitch = d.decimal 8 0 ⊗ f;
    aspect_ratio = d.decimal 22 1;
    ild_thickness = d.decimal 77 8;
    copper_resistivity = copper;
  }
  wire_65 WireType.dram_wordline f = record {
    barrier_thickness = d.decimal 0 6;
    horizontal_dielectric = d.decimal 0 0;
    wire_pitch = d.decimal 2 0 ⊗ f;
    aspect_ratio = d.decimal 0 0;
    ild_thickness = d.decimal 0 6;
    copper_resistivity = copper;
  }

  -- Up to 90 nm; `f` is the feature size, 90 nm.
  abbrev pub wire_90 : WireType → D → WireTable D
  wire_90 WireType.local_aggressive f = record {
    barrier_thickness = d.decimal 1 8;
    horizontal_dielectric = d.decimal 2709 3;
    wire_pitch = d.decimal 25 1 ⊗ f;
    aspect_ratio = d.decimal 24 1;
    ild_thickness = d.decimal 48 8;
    copper_resistivity = copper;
  }
  wire_90 WireType.local_conservative f = record {
    barrier_thickness = d.decimal 8 9;
    horizontal_dielectric = d.decimal 3038 3;
    wire_pitch = d.decimal 25 1 ⊗ f;
    aspect_ratio = d.decimal 20 1;
    ild_thickness = d.decimal 48 8;
    copper_resistivity = copper;
  }
  wire_90 WireType.semi_aggressive f = record {
    barrier_thickness = d.decimal 1 8;
    horizontal_dielectric = d.decimal 2709 3;
    wire_pitch = d.decimal 4 0 ⊗ f;
    aspect_ratio = d.decimal 24 1;
    ild_thickness = d.decimal 48 8;
    copper_resistivity = copper;
  }
  wire_90 WireType.semi_conservative f = record {
    barrier_thickness = d.decimal 8 9;
    horizontal_dielectric = d.decimal 3038 3;
    wire_pitch = d.decimal 4 0 ⊗ f;
    aspect_ratio = d.decimal 20 1;
    ild_thickness = d.decimal 48 8;
    copper_resistivity = copper;
  }
  wire_90 WireType.global_aggressive f = record {
    barrier_thickness = d.decimal 1 8;
    horizontal_dielectric = d.decimal 2709 3;
    wire_pitch = d.decimal 8 0 ⊗ f;
    aspect_ratio = d.decimal 27 1;
    ild_thickness = d.decimal 96 8;
    copper_resistivity = copper;
  }
  wire_90 WireType.global_conservative f = record {
    barrier_thickness = d.decimal 8 9;
    horizontal_dielectric = d.decimal 3038 3;
    wire_pitch = d.decimal 8 0 ⊗ f;
    aspect_ratio = d.decimal 22 1;
    ild_thickness = d.decimal 11 7;
    copper_resistivity = copper;
  }
  wire_90 WireType.dram_wordline f = record {
    barrier_thickness = d.decimal 0 6;
    horizontal_dielectric = d.decimal 0 0;
    wire_pitch = d.decimal 2 0 ⊗ f;
    aspect_ratio = d.decimal 0 0;
    ild_thickness = d.decimal 0 6;
    copper_resistivity = copper;
  }
