-- ===== src/Bank/Htree/Routing.antt =====
-- Where the levels of the H-tree leave the bits: the invariant of the routing loops.
use native.Mathlib.Decide.{dec_le}
use native.Mathlib.Nat.{div-div-eq-div-mul, pow-suc}
use mathlib.Core.Option.{some-injective}
use nvsim.Shared.{
  bind_inv, ◌>>=◌, subst, ℕ, zero, suc, ◌+◌, ◌-◌, ◌/◌, ◌^◌, ◌≤◌, ◌≡◌, refl, sym, ap, ◌∙◌, min, true,
  false, ltb, some, arith, pos, minus, pow2-suc, pow2_pos,
}
use nvsim.Bank.Htree.Defs.{
  Route, Tree, is_exhausted, split_column, split_row, split_last, first_level, narrow, narrow_all,
  lower, lower_all, branch_horizontal, branch_vertical, branch_all, last_split, route_all,
}

div_half : (n a : ℕ) → n / 2 ^ a / 2 ≡ n / 2 ^ suc a
div_half n a = div-div-eq-div-mul n (2 ^ a) 2 ∙ ap (λ (t : ℕ). n / t) (sym (pow-suc 2 a))

minus_one : (n : ℕ) → 1 ≤ n → minus (pos n) 1 ≡ pos (n - 1)
minus_one n h = ground arith

two-le : (a : ℕ) → 1 ≤ a → ltb 1 (2 ^ a) ≡ true
two-le zero h = absurd (omega arith)
two-le (suc a) h = ground (arith, pow2-suc a, pow2_pos a)

half_power : (a b : ℕ) → a ≡ suc b → 2 ^ a / 2 ≡ 2 ^ b
half_power a b e = rw (e, pow2-suc b) (omega arith)

-- What a step that goes on tells of its tree.
pub first_level_inv : (h : ℕ) (t t' : Tree) → first_level h t ≡ some t' → t'.route ≡ t.route
unfolding first_level
first_level_inv zero t t' e = ground arith
first_level_inv (suc h) t t' e = ground arith

pub narrow_inv :
    (t t' : Tree)
    → narrow t ≡ some t'
    → (is_exhausted t.route ≡ false) × (t'.route ≡ (split_column t.route).0)
unfolding narrow
narrow_inv t t' e = ground arith

pub lower_inv :
    (t t' : Tree)
    → lower t ≡ some t'
    → (is_exhausted t.route ≡ false) × (t'.route ≡ (split_row t.route).0)
unfolding lower
lower_inv t t' e = ground arith

pub branch_horizontal_inv :
    (t t' : Tree)
    → branch_horizontal t ≡ some t'
    → (is_exhausted t.route ≡ false) × (t'.route ≡ (split_column t.route).0)
unfolding branch_horizontal
branch_horizontal_inv t t' e = ground arith

pub branch_vertical_inv :
    (h : ℕ) (t t' : Tree)
    → branch_vertical h t ≡ some t'
    → (is_exhausted t.route ≡ false) × (t'.route ≡ (split_row t.route).0)
unfolding branch_vertical
branch_vertical_inv h t t' e = ground arith

pub last_split_inv :
    (h : ℕ) (t t' : Tree)
    → last_split h t ≡ some t'
    → (is_exhausted t.route ≡ false) × (t'.route ≡ split_last h t.route)
unfolding last_split
last_split_inv h t t' e = ground arith

split_last-suc : (h : ℕ) (r : Route) → split_last (suc h) r ≡ (split_column r).0
unfolding split_last split_column
split_last-suc h r = ground arith

-- A bank with `2 ^ i` active mats in a row and `2 ^ j` in a column, of which kc and kr splits are done.
-- Each split takes half of the data bits while there are active units to tell apart, and an address
-- bit afterwards.
module _ (bits n i j broadcast : ℕ) where
  pub record Routed (kc kr : ℕ) (r : Route) : Type 0 where
    pub column : r.column_to_active ≡ 2 ^ (i - kc)
    pub row : r.row_to_active ≡ 2 ^ (j - kr)
    pub distribute : r.distribute ≡ bits / 2 ^ (min i kc + min j kr)
    pub broadcasts : r.broadcast ≡ broadcast
    pub left : ℕ
    pub address : r.address ≡ pos left
    pub spent : left + (kc - i) + (kr - j) ≡ n

  left_positive : (kc kr : ℕ) (r : Route) (h : Routed kc kr r) → is_exhausted r ≡ false → 1 ≤ h.left
  left_positive kc kr r h e = ground (arith, h.address)

  halved : (x y a b : ℕ) → x ≡ bits / 2 ^ (a + b) → suc (a + b) ≡ y → x / 2 ≡ bits / 2 ^ y
  halved x y a b e f = rw e (div_half bits (a + b) ∙ ap (λ (t : ℕ). bits / 2 ^ t) f)

  done : {kc : ℕ} → i ≤ kc → i - kc ≡ 0
  done le = omega arith

  pub split_column-Routed :
      (kc kr : ℕ) (r : Route)
      → is_exhausted r ≡ false
      → Routed kc kr r
      → Routed (suc kc) kr (split_column r).0
  unfolding split_column
  split_column-Routed kc kr r e h = elim (dec_le i kc) [
    | yes le ↦
        let one : ltb 1 r.column_to_active ≡ false = rw (h.column, done le) refl in
        rw one (record {
          column = h.column ∙ ap (λ (t : ℕ). 2 ^ t) (omega arith);
          row = h.row;
          distribute = h.distribute ∙ ap (λ (t : ℕ). bits / 2 ^ t) (omega arith);
          broadcasts = h.broadcasts;
          left = h.left - 1;
          address = rw h.address (minus_one h.left (left_positive kc kr r h e));
          spent = omega (arith, left_positive kc kr r h e, h.spent);
        })
    | no gt ↦
        let more : ltb 1 r.column_to_active ≡ true = rw h.column (two-le (i - kc) (omega arith)) in
        rw more (record {
          column = rw h.column (half_power (i - kc) (i - suc kc) (omega arith));
          row = h.row;
          distribute =
              halved r.distribute (min i (suc kc) + min j kr) (min i kc) (min j kr) h.distribute
                (omega arith);
          broadcasts = h.broadcasts;
          left = h.left;
          address = h.address;
          spent = omega (arith, h.spent);
        })
  ]

  pub split_row-Routed :
      (kc kr : ℕ) (r : Route)
      → is_exhausted r ≡ false
      → Routed kc kr r
      → Routed kc (suc kr) (split_row r).0
  unfolding split_row
  split_row-Routed kc kr r e h = elim (dec_le j kr) [
    | yes le ↦
        let zeros : j - kr ≡ 0 = omega arith in
        let one : ltb 1 r.row_to_active ≡ false = rw (h.row, zeros) refl in
        rw one (record {
          column = h.column;
          row = h.row ∙ ap (λ (t : ℕ). 2 ^ t) (omega arith);
          distribute = h.distribute ∙ ap (λ (t : ℕ). bits / 2 ^ t) (omega arith);
          broadcasts = h.broadcasts;
          left = h.left - 1;
          address = rw h.address (minus_one h.left (left_positive kc kr r h e));
          spent = omega (arith, left_positive kc kr r h e, h.spent);
        })
    | no gt ↦
        let more : ltb 1 r.row_to_active ≡ true = rw h.row (two-le (j - kr) (omega arith)) in
        rw more (record {
          column = h.column;
          row = rw h.row (half_power (j - kr) (j - suc kr) (omega arith));
          distribute =
              halved r.distribute (min i kc + min j (suc kr)) (min i kc) (min j kr) h.distribute
                (omega arith);
          broadcasts = h.broadcasts;
          left = h.left;
          address = h.address;
          spent = omega (arith, h.spent);
        })
  ]

  -- The split to the single mat, which is made only if the tree has a horizontal level.
  split_last-Routed :
      (h kr : ℕ) (r : Route)
      → i ≤ h
      → is_exhausted r ≡ false
      → Routed (h - 1) kr r
      → Routed h kr (split_last h r)
  unfolding split_last split_column
  split_last-Routed zero kr r le e h =
      let one : ltb 1 r.column_to_active ≡ false = rw (h.column, done le) refl in rw one h
  split_last-Routed (suc h) kr r le e rd =
      let same : suc h - 1 ≡ h = omega arith in
      rw (split_last-suc h r)
        (split_column-Routed h kr r e (subst (λ (t : ℕ). Routed t kr r) same rd))

  -- The loops: what they leave is routed by as many splits more as they make rounds.
  narrow_all-Routed :
      (n kc kr : ℕ) (t t' : Tree)
      → narrow_all n t ≡ some t'
      → Routed kc kr t.route
      → Routed (kc + n) kr t'.route
  unfolding narrow_all
  narrow_all-Routed zero kc kr t t' e r =
      subst (λ x. Routed (kc + 0) kr (Tree.route x)) (some-injective _ _ e)
        (subst (λ (k : ℕ). Routed k kr t.route) (omega arith) r)
  narrow_all-Routed (suc n) kc kr t t' e r =
      let (u, step, rest) = bind_inv (narrow t) (narrow_all n) t' e in
      let (go, route) = narrow_inv t u step in
      let next : Routed (suc kc) kr u.route =
        subst (Routed (suc kc) kr) (sym route) (split_column-Routed kc kr t.route go r) in
      subst (λ (k : ℕ). Routed k kr t'.route) (omega arith)
        (narrow_all-Routed n (suc kc) kr u t' rest next)

  lower_all-Routed :
      (n kc kr : ℕ) (t t' : Tree)
      → lower_all n t ≡ some t'
      → Routed kc kr t.route
      → Routed kc (kr + n) t'.route
  unfolding lower_all
  lower_all-Routed zero kc kr t t' e r =
      subst (λ x. Routed kc (kr + 0) (Tree.route x)) (some-injective _ _ e)
        (subst (λ (k : ℕ). Routed kc k t.route) (omega arith) r)
  lower_all-Routed (suc n) kc kr t t' e r =
      let (u, step, rest) = bind_inv (lower t) (lower_all n) t' e in
      let (go, route) = lower_inv t u step in
      let next : Routed kc (suc kr) u.route =
        subst (Routed kc (suc kr)) (sym route) (split_row-Routed kc kr t.route go r) in
      subst (λ (k : ℕ). Routed kc k t'.route) (omega arith)
        (lower_all-Routed n kc (suc kr) u t' rest next)

  branch_all-Routed :
      (h n kc kr : ℕ) (t t' : Tree)
      → branch_all h n t ≡ some t'
      → Routed kc kr t.route
      → Routed (kc + n) (kr + n) t'.route
  unfolding branch_all
  branch_all-Routed h zero kc kr t t' e r =
      subst (λ x. Routed (kc + 0) (kr + 0) (Tree.route x)) (some-injective _ _ e)
        (subst (λ (k : ℕ). Routed k (kr + 0) t.route) (omega arith)
          (subst (λ (k : ℕ). Routed kc k t.route) (omega arith) r))
  branch_all-Routed h (suc n) kc kr t t' e r =
      let (w, both, rest) =
        bind_inv (branch_horizontal t >>= branch_vertical h) (branch_all h n) t' e in
      let (u, first, second) = bind_inv (branch_horizontal t) (branch_vertical h) w both in
      let (go, route) = branch_horizontal_inv t u first in
      let (go', route') = branch_vertical_inv h u w second in
      let half : Routed (suc kc) kr u.route =
        subst (Routed (suc kc) kr) (sym route) (split_column-Routed kc kr t.route go r) in
      let next : Routed (suc kc) (suc kr) w.route =
        subst (Routed (suc kc) (suc kr)) (sym route')
          (split_row-Routed (suc kc) kr u.route go' half) in
      subst (λ (k : ℕ). Routed k (kr + suc n) t'.route) (omega arith)
        (subst (λ (k : ℕ). Routed (suc kc + n) k t'.route) (omega arith)
          (branch_all-Routed h n (suc kc) (suc kr) w t' rest next))

  -- From a tree on which nothing is split yet, with 2 ^ i active mats in a row and 2 ^ j in a column, if
  -- the routing over h horizontal levels, at least i, and v vertical ones goes through, then h column
  -- splits and v row splits are done: the data bits are halved min(i, h) + min(j, v) times, each
  -- other split has spent one address bit, and the broadcast bits are untouched.
  pub route_all-Routed :
      (h v : ℕ) (t t' : Tree)
      → i ≤ h
      → route_all h v t ≡ some t'
      → Routed 0 0 t.route
      → Routed h v t'.route
  unfolding route_all
  route_all-Routed h v t t' le e r =
      let a = h - 1 - v in
      let b = v - (h - 1 - (h - 1 - v)) in
      let c = h - 1 - (h - 1 - v) in
      let (t₁, e₁, rest₁) = bind_inv (first_level h t) _ t' e in
      let (t₂, e₂, rest₂) = bind_inv (narrow_all a t₁) _ t' rest₁ in
      let (t₃, e₃, rest₃) = bind_inv (lower_all b t₂) _ t' rest₂ in
      let (t₄, e₄, last) = bind_inv (branch_all h c t₃) (last_split h) t' rest₃ in
      let (go, route) = last_split_inv h t₄ t' last in
      let s₁ : Routed 0 0 t₁.route = subst (Routed 0 0) (sym (first_level_inv h t t₁ e₁)) r in
      let s₂ = narrow_all-Routed a 0 0 t₁ t₂ e₂ s₁ in
      let s₃ = lower_all-Routed b (0 + a) 0 t₂ t₃ e₃ s₂ in
      let s₄ = branch_all-Routed h c (0 + a) (0 + b) t₃ t₄ e₄ s₃ in
      let columns : 0 + a + c ≡ h - 1 = omega arith in
      let rows : 0 + b + c ≡ v = omega arith in
      let s₅ : Routed (h - 1) v t₄.route =
        subst (λ (k : ℕ). Routed (h - 1) k t₄.route) rows
          (subst (λ (k : ℕ). Routed k (0 + b + c) t₄.route) columns s₄) in
      subst (Routed h v) (sym route) (split_last-Routed h v t₄.route le go s₅)
