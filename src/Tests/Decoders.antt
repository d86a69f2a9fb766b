-- ===== src/Tests/Decoders.antt =====
-- Predecoders of some widths.
use nvsim.Shared.{◌*◌, ◌^◌, ◌≤◌, ◌≡◌, refl, ◌↔◌}
use nvsim.Predecode.{Stages, predecode, two_stages, unset}
use nvsim.Predecode.Bits.{predecode-two_stages, predecode-unset_iff}

abbrev eleven : Stages
eleven = record {
  num_nand_input_a = 2;
  num_nand_input_b = 2;
  num_address_a = 32;
  num_address_b = 64;
}

eleven_bits : predecode 11 ≡ two_stages eleven
unfolding predecode
eleven_bits = refl

predecode-two_stages_example : (32 * 64 ≡ 2 ^ 11) × (2 ≤ 2) × (2 ≤ 3) × (2 ≤ 2) × (2 ≤ 3)
predecode-two_stages_example = predecode-two_stages 11 eleven eleven_bits

predecode-unset_iff_example : (predecode 20 ≡ unset) ↔ ((19 ≤ 20) × (20 ≤ 27))
predecode-unset_iff_example = predecode-unset_iff 20
