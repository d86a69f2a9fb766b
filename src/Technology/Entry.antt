-- ===== src/Technology/Entry.antt =====
-- The constants of Technology.cpp as the source spells them, with their exact values.
use nvsim.Shared.{ℕ, ◌*◌, ◌^◌, Bool, true, leb, ◌&&◌, List, [], ◌∷◌}
use nvsim.Double.{Double}

-- `literal m e` is m / 10 ^ e.
pub data Entry : Type 0 where
  literal : ℕ → ℕ → Entry
  product quotient : Entry → Entry → Entry

pub record Tables : Type 0 where
  pub vdd : Entry
  pub vth : Entry
  pub phy_gate_length : Entry
  pub cap_ideal_gate : Entry
  pub cap_fringe : Entry
  pub cap_junction : Entry
  pub cap_ox : Entry
  pub effective_electron_mobility : Entry
  pub effective_hole_mobility : Entry
  pub pn_size_ratio : Entry
  pub effective_resistance_multiplier : Entry
  -- The elements 0, 10, ..., 100 of the arrays.
  pub current_on_nmos : List Entry
  pub current_on_pmos : List Entry
  pub current_off_nmos : List Entry
  pub current_off_pmos : List Entry

-- What the double arithmetic makes of an entry.
abbrev pub value : {D : Type 0} → Double D → Entry → D
value d (literal m e) = d.decimal m e
value d (product a b) = d.mul (value d a) (value d b)
value d (quotient a b) = d.div (value d a) (value d b)

abbrev half : Entry → Entry
half a = quotient a (literal 2 0)

abbrev halves_from : Entry → List Entry → List Entry
halves_from before [] = []
halves_from before (a ∷ rest) = half before ∷ halves_from a rest

-- The element 0 and each element after it, from half the element one before: the first one twice.
abbrev pub halves_before : List Entry → List Entry
halves_before [] = []
halves_before (a ∷ rest) = half a ∷ halves_from a rest

-- The exact value, as a numerator and a denominator.
abbrev fraction : Entry → ℕ × ℕ
fraction (literal m e) = (m, 10 ^ e)
fraction (product a b) = ((fraction a).0 * (fraction b).0, (fraction a).1 * (fraction b).1)
fraction (quotient a b) = ((fraction a).0 * (fraction b).1, (fraction a).1 * (fraction b).0)

abbrev at_most : Entry → Entry → Bool
at_most a b = leb ((fraction a).0 * (fraction b).1) ((fraction b).0 * (fraction a).1)

-- No element is below the one before it.
abbrev rising_from : Entry → List Entry → Bool
rising_from a [] = true
rising_from a (b ∷ rest) = at_most a b && rising_from b rest

unfoldable pub rising : List Entry → Bool
rising [] = true
rising (a ∷ rest) = rising_from a rest

abbrev falling_from : Entry → List Entry → Bool
falling_from a [] = true
falling_from a (b ∷ rest) = at_most b a && falling_from b rest

-- No element is above the one before it.
unfoldable pub falling : List Entry → Bool
falling [] = true
falling (a ∷ rest) = falling_from a rest
