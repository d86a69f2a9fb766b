-- ===== src/Input/Bounding.antt =====
-- InputParameter.cpp, ReadInputParameterFromFile: the keys of pruning, buffers, flash and constraints.
use Prim.Native.String.{String}
use nvsim.Shared.{◌*◌, true, false, Option, List, [], ◌∷◌}
use nvsim.Config.{Entry, word, number, get_or_else}
use nvsim.Input.{exactly, InputParameter}
use nvsim.Input.Words.{is_yes, buffer_level}
use nvsim.Input.Design.{real}

module _ {D : Type 0} where
  -- The block of `-BufferDesignOptimization` has no `continue`.
  abbrev pub buffer_design : Entry (InputParameter D)
  buffer_design =
      record (word "-BufferDesignOptimization" "-BufferDesignOptimization: " (λ w p. record p {
        search = record p.search { area_optimization_level = exactly (buffer_level w) };
      })) { continues = false }

module _ {D : Type 0} (strtod : String → Option D) where
  unfoldable pub bound_keys : List (Entry (InputParameter D))
  bound_keys =
      (word "-EnablePruning" "-EnablePruning: " (λ w p. record p { is_pruning_enabled = is_yes w }))
      ∷ (buffer_design)
      ∷ (number "-FlashPageSize" "-FlashPageSize (Byte): "
          (λ n p. record p { page_size = get_or_else n p.page_size * 8 }))
      ∷ (number "-FlashBlockSize" "-FlashBlockSize (KB): "
          (λ n p. record p { flash_block_size = get_or_else n p.flash_block_size * (8 * 1024) }))
      ∷ (real strtod "-ApplyReadLatencyConstraint" "-ApplyReadLatencyConstraint: " (λ x p.
          record p {
            read_latency_constraint = get_or_else x p.read_latency_constraint;
            is_constraint_applied = true;
          }))
      ∷ (real strtod "-ApplyWriteLatencyConstraint" "-ApplyWriteLatencyConstraint: " (λ x p.
          record p {
            write_latency_constraint = get_or_else x p.write_latency_constraint;
            is_constraint_applied = true;
          }))
      ∷ (real strtod "-ApplyReadDynamicEnergyConstraint" "-ApplyReadDynamicEnergyConstraint: "
          (λ x p. record p {
            read_dynamic_energy_constraint = get_or_else x p.read_dynamic_energy_constraint;
            is_constraint_applied = true;
          }))
      ∷ (real strtod "-ApplyWriteDynamicEnergyConstraint" "-ApplyWriteDynamicEnergyConstraint: "
          (λ x p. record p {
            write_dynamic_energy_constraint = get_or_else x p.write_dynamic_energy_constraint;
            is_constraint_applied = true;
          }))
      ∷ (real strtod "-ApplyLeakageConstraint" "-ApplyLeakageConstraint: " (λ x p. record p {
        leakage_constraint = get_or_else x p.leakage_constraint;
        is_constraint_applied = true;
      }))
      ∷ (real strtod "-ApplyAreaConstraint" "-ApplyAreaConstraint: " (λ x p. record p {
        area_constraint = get_or_else x p.area_constraint;
        is_constraint_applied = true;
      }))
      ∷ (real strtod "-ApplyReadEdpConstraint" "-ApplyReadEdpConstraint: " (λ x p. record p {
        read_edp_constraint = get_or_else x p.read_edp_constraint;
        is_constraint_applied = true;
      }))
      ∷ (real strtod "-ApplyWriteEdpConstraint" "-ApplyWriteEdpConstraint: " (λ x p. record p {
        write_edp_constraint = get_or_else x p.write_edp_constraint;
        is_constraint_applied = true;
      }))
      ∷ []
