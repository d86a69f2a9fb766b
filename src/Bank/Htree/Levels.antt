-- ===== src/Bank/Htree/Levels.antt =====
-- `BankWithHtree::Initialize`: what the arrays of the levels of the H-tree hold after the routing.
use nvsim.Shared.{ℕ, suc, ◌*◌, ◌≡◌, List, [], ◌∷◌, some, arith, ◌==◌, if◌then◌else◌}
use nvsim.Bank.Htree.Defs.{
  Route, Level, Tree, level, split_column, split_row, first_level, narrow, lower, branch_horizontal,
  branch_vertical, last_split, last_or,
}

-- A step that goes on writes its route to one new level.
pub record Pushed (r : Route) (ls ls' : List Level) : Type 0 where
  pub wires : ℕ
  pub sums : ℕ
  pub actives : ℕ
  pub is_written : ls' ≡ level r wires sums actives ∷ ls

pub first_level-Pushed :
    (h : ℕ) (t t' : Tree)
    → first_level (suc h) t ≡ some t'
    → Pushed t'.route t.horizontal t'.horizontal × (t'.vertical ≡ t.vertical)
unfolding first_level
first_level-Pushed h t t' e =
    (record { wires = 1; sums = 1; actives = 1; is_written = ground arith }, ground arith)

pub narrow-Pushed :
    (t t' : Tree)
    → narrow t ≡ some t'
    → Pushed t'.route t.horizontal t'.horizontal × (t'.vertical ≡ t.vertical)
unfolding narrow
narrow-Pushed t t' e = (
  record {
    wires = 1;
    sums = 2 * last_or t.horizontal [] (λ l. l.num_sum_wire);
    actives = (split_column t.route).1 * last_or t.horizontal [] (λ l. l.num_active_wire);
    is_written = ground arith;
  },
  ground arith,
)

pub lower-Pushed :
    (t t' : Tree)
    → lower t ≡ some t'
    → Pushed t'.route t.vertical t'.vertical × (t'.horizontal ≡ t.horizontal)
unfolding lower
lower-Pushed t t' e = (
  record {
    wires = 1;
    sums = 2 * last_or t.vertical [] (λ l. l.num_sum_wire);
    actives = (split_row t.route).1 * last_or t.vertical [] (λ l. l.num_active_wire);
    is_written = ground arith;
  },
  ground arith,
)

pub branch_horizontal-Pushed :
    (t t' : Tree)
    → branch_horizontal t ≡ some t'
    → Pushed t'.route t.horizontal t'.horizontal × (t'.vertical ≡ t.vertical)
unfolding branch_horizontal
branch_horizontal-Pushed t t' e = (
  record {
    wires = t.h_temp;
    sums = 2 * last_or t.vertical t.horizontal (λ l. l.num_sum_wire);
    actives = (split_column t.route).1 * last_or t.vertical t.horizontal (λ l. l.num_active_wire);
    is_written = ground arith;
  },
  ground arith,
)

pub branch_vertical-Pushed :
    (h : ℕ) (t t' : Tree)
    → branch_vertical h t ≡ some t'
    → Pushed t'.route t.vertical t'.vertical × (t'.horizontal ≡ t.horizontal)
unfolding branch_vertical
branch_vertical-Pushed h t t' e = (
  record {
    wires = if h == 2 then t.v_temp else 2 * t.v_temp;
    sums = 2 * last_or t.horizontal [] (λ l. l.num_sum_wire);
    actives = (split_row t.route).1 * last_or t.horizontal [] (λ l. l.num_active_wire);
    is_written = ground arith;
  },
  ground arith,
)

pub last_split-levels :
    (h : ℕ) (t t' : Tree)
    → last_split h t ≡ some t'
    → (t'.horizontal ≡ t.horizontal) × (t'.vertical ≡ t.vertical)
unfolding last_split
last_split-levels h t t' e = (ground arith, ground arith)
