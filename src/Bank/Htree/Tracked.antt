-- ===== src/Bank/Htree/Tracked.antt =====
-- `BankWithHtree::Initialize`: the routing loops, and what the arrays of the levels hold after them.
use nvsim.Shared.{
  length, bind_inv, ◌>>=◌, subst, ℕ, zero, suc, ◌+◌, ◌-◌, ◌≤◌, ◌≡◌, refl, sym, min, [], some, arith,
  some_injective,
}
use nvsim.Bank.Htree.Defs.{
  Tree, first_level, narrow, narrow_all, lower, lower_all, branch_horizontal, branch_vertical,
  branch_all, last_split, route_all,
}
use nvsim.Bank.Htree.Routing.{
  Routed, narrow_inv, lower_inv, branch_horizontal_inv, branch_vertical_inv, first_level_inv,
  split_column-Routed, split_row-Routed, route_all-Routed,
}
use nvsim.Bank.Htree.Levels.{
  Pushed, first_level-Pushed, narrow-Pushed, lower-Pushed, branch_horizontal-Pushed,
  branch_vertical-Pushed, last_split-levels,
}
use nvsim.Bank.Htree.Recorded.{
  Routed-Recorded, Horizontals, Verticals, push_horizontal, push_vertical,
}

module _ (bits n i j broadcast a b first : ℕ) where
  -- A tree on the way, with its first horizontal level or without one.
  pub record Tracked (kc kr : ℕ) (t : Tree) : Type 0 where
    pub route : Routed bits n i j broadcast kc kr t.route
    pub num_horizontal : length t.horizontal ≡ kc + first
    pub num_vertical : length t.vertical ≡ kr
    pub horizontals : Horizontals bits n i j broadcast a b t.horizontal
    pub verticals : Verticals bits n i j broadcast a b t.vertical

  column_step :
      (kc kr : ℕ) (t t' : Tree)
      → Routed bits n i j broadcast (suc kc) kr t'.route
      → Pushed t'.route t.horizontal t'.horizontal × (t'.vertical ≡ t.vertical)
      → first ≡ 1
      → kr ≡ b + (kc - a)
      → Tracked kc kr t
      → Tracked (suc kc) kr t'
  column_step kc kr t t' route (pushed, same) one e h =
      let (horizontals, count) =
        push_horizontal bits n i j broadcast a b kc kr t'.route t.horizontal t'.horizontal pushed
          route (omega (arith, h.num_horizontal, one)) e h.horizontals in
      record {
        route = route;
        num_horizontal = omega (arith, count, one);
        num_vertical = rw same h.num_vertical;
        horizontals = horizontals;
        verticals = rw same h.verticals;
      }

  row_step :
      (kc kr : ℕ) (t t' : Tree)
      → Routed bits n i j broadcast kc (suc kr) t'.route
      → Pushed t'.route t.vertical t'.vertical × (t'.horizontal ≡ t.horizontal)
      → kc ≡ a + (suc kr - b)
      → Tracked kc kr t
      → Tracked kc (suc kr) t'
  row_step kc kr t t' route (pushed, same) e h =
      let (verticals, count) =
        push_vertical bits n i j broadcast a b kc kr t'.route t.vertical t'.vertical pushed route
          h.num_vertical e h.verticals in
      record {
        route = route;
        num_horizontal = rw same h.num_horizontal;
        num_vertical = count;
        horizontals = rw same h.horizontals;
        verticals = verticals;
      }

  -- The loops.
  narrow_all-Tracked :
      (m kc : ℕ) (t t' : Tree)
      → narrow_all m t ≡ some t'
      → (1 ≤ m → (first ≡ 1) × (b ≡ 0))
      → kc + m ≤ a
      → Tracked kc 0 t
      → Tracked (kc + m) 0 t'
  unfolding narrow_all
  narrow_all-Tracked zero kc t t' e when le h =
      subst (λ (k : ℕ). Tracked k 0 t') (omega arith) (subst (Tracked kc 0) (some_injective e) h)
  narrow_all-Tracked (suc m) kc t t' e when le h =
      let (one, none) = when (omega arith) in
      let (u, step, rest) = bind_inv (narrow t) (narrow_all m) t' e in
      let (go, route) = narrow_inv t u step in
      let routed =
        subst (Routed bits n i j broadcast (suc kc) 0) (sym route)
          (split_column-Routed bits n i j broadcast kc 0 t.route go h.route) in
      let next = column_step kc 0 t u routed (narrow-Pushed t u step) one (omega (arith, none)) h in
      subst (λ (k : ℕ). Tracked k 0 t') (omega arith)
        (narrow_all-Tracked m (suc kc) u t' rest (λ x. (one, none)) (omega arith) next)

  lower_all-Tracked :
      (m kr : ℕ) (t t' : Tree)
      → lower_all m t ≡ some t'
      → kr + m ≤ b
      → Tracked a kr t
      → Tracked a (kr + m) t'
  unfolding lower_all
  lower_all-Tracked zero kr t t' e le h =
      subst (λ (k : ℕ). Tracked a k t') (omega arith) (subst (Tracked a kr) (some_injective e) h)
  lower_all-Tracked (suc m) kr t t' e le h =
      let (u, step, rest) = bind_inv (lower t) (lower_all m) t' e in
      let (go, route) = lower_inv t u step in
      let routed =
        subst (Routed bits n i j broadcast a (suc kr)) (sym route)
          (split_row-Routed bits n i j broadcast a kr t.route go h.route) in
      let next = row_step a kr t u routed (lower-Pushed t u step) (omega arith) h in
      subst (λ (k : ℕ). Tracked a k t') (omega arith)
        (lower_all-Tracked m (suc kr) u t' rest (omega arith) next)

  branch_all-Tracked :
      (h m q : ℕ) (t t' : Tree)
      → branch_all h m t ≡ some t'
      → (1 ≤ m → first ≡ 1)
      → Tracked (a + q) (b + q) t
      → Tracked (a + (q + m)) (b + (q + m)) t'
  unfolding branch_all
  branch_all-Tracked h zero q t t' e when tr =
      let same : q + 0 ≡ q = omega arith in
      rw same (subst (Tracked (a + q) (b + q)) (some_injective e) tr)
  branch_all-Tracked h (suc m) q t t' e when tr =
      let one = when (omega arith) in
      let (w, both, rest) =
        bind_inv (branch_horizontal t >>= branch_vertical h) (branch_all h m) t' e in
      let (u, left, right) = bind_inv (branch_horizontal t) (branch_vertical h) w both in
      let (go, route) = branch_horizontal_inv t u left in
      let (go', route') = branch_vertical_inv h u w right in
      let routed =
        subst (Routed bits n i j broadcast (suc (a + q)) (b + q)) (sym route)
          (split_column-Routed bits n i j broadcast (a + q) (b + q) t.route go tr.route) in
      let half =
        column_step (a + q) (b + q) t u routed (branch_horizontal-Pushed t u left) one (omega arith)
          tr in
      let routed' =
        subst (Routed bits n i j broadcast (suc (a + q)) (suc (b + q))) (sym route')
          (split_row-Routed bits n i j broadcast (suc (a + q)) (b + q) u.route go' routed) in
      let next =
        row_step (suc (a + q)) (b + q) u w routed' (branch_vertical-Pushed h u w right)
          (omega arith) half in
      let columns : suc (a + q) ≡ a + suc q = omega arith in
      let rows : suc (b + q) ≡ b + suc q = omega arith in
      let later : q + suc m ≡ suc q + m = omega arith in
      rw later (
        branch_all-Tracked h m (suc q) w t' rest (λ x. one)
          (subst (λ (k : ℕ). Tracked (a + suc q) k w) rows
            (subst (λ (k : ℕ). Tracked k (suc (b + q)) w) columns next)))

-- What the routing leaves after h column splits and v row splits, of which the first h - 1 - v split
-- columns alone, or the first v - (h - 1) rows alone.
pub record IsRouted (bits n i j broadcast h v : ℕ) (t : Tree) : Type 0 where
  pub route : Routed bits n i j broadcast h v t.route
  pub num_horizontal : length t.horizontal ≡ h
  pub num_vertical : length t.vertical ≡ v
  pub horizontals : Horizontals bits n i j broadcast (h - 1 - v) (v - (h - 1)) t.horizontal
  pub verticals : Verticals bits n i j broadcast (h - 1 - v) (v - (h - 1)) t.vertical

-- The first level, if the tree has a horizontal one.
start-Tracked :
    (bits n i j broadcast a b h : ℕ) (t t' : Tree)
    → first_level h t ≡ some t'
    → Routed bits n i j broadcast 0 0 t.route
    → t.horizontal ≡ []
    → t.vertical ≡ []
    → Tracked bits n i j broadcast a b (min h 1) 0 0 t'
unfolding first_level
start-Tracked bits n i j broadcast a b zero t t' e r hs vs =
    subst (Tracked bits n i j broadcast a b (min 0 1) 0 0) (some_injective e) (record {
      route = r;
      num_horizontal = rw hs refl;
      num_vertical = rw vs refl;
      horizontals = rw hs tt;
      verticals = rw vs tt;
    })
start-Tracked bits n i j broadcast a b (suc h) t t' e r hs vs =
    let (pushed, same) = first_level-Pushed h t t' e in
    let routed = subst (Routed bits n i j broadcast 0 0) (sym (first_level_inv (suc h) t t' e)) r in
    record {
      route = routed;
      num_horizontal = rw (pushed.is_written, hs) (omega arith);
      num_vertical = rw (same, vs) refl;
      horizontals =
          rw (pushed.is_written, hs)
            (Routed-Recorded bits n i j broadcast 0 0 0 0 t'.route pushed.wires pushed.sums
              pushed.actives routed refl refl);
      verticals = rw (same, vs) tt;
    }

module _ (bits n i j broadcast h v : ℕ) where
  abbrev Way : (kc kr : ℕ) (t : Tree) → Type 0
  Way = Tracked bits n i j broadcast (h - 1 - v) (v - (h - 1)) (min h 1)

  move : (kc kr kc' kr' : ℕ) (t : Tree) → kc ≡ kc' → kr ≡ kr' → Way kc kr t → Way kc' kr' t
  move kc kr kc' kr' t e f w = subst (λ (k : ℕ). Way k kr' t) e (subst (λ (k : ℕ). Way kc k t) f w)

  -- From a tree without levels on which nothing is split yet, with 2 ^ i active mats in a row and 2
  -- ^ j in a column, i at most h, if the routing over h horizontal and v vertical levels goes
  -- through: then it has written h horizontal and v vertical levels. The k-th horizontal one (from
  -- 0) lies behind k splits of the columns, and the k-th vertical one (from 1) behind k splits of
  -- the rows; the splits of the other side before it are those that the order of the three loops
  -- gives. Behind c splits of the columns and r of the rows a level holds the data bits halved
  -- min(i, c) + min(j, r) times, the broadcast bits untouched, and the address bits less one for
  -- each other split; so do the bits that are left after all h and v splits.
  pub route_all-IsRouted :
      (t t' : Tree)
      → i ≤ h
      → route_all h v t ≡ some t'
      → Routed bits n i j broadcast 0 0 t.route
      → t.horizontal ≡ []
      → t.vertical ≡ []
      → IsRouted bits n i j broadcast h v t'
  unfolding route_all
  route_all-IsRouted t t' le e r hs vs =
      let a = h - 1 - v in
      let b = v - (h - 1 - (h - 1 - v)) in
      let c = h - 1 - (h - 1 - v) in
      let (t₁, e₁, rest₁) = bind_inv (first_level h t) _ t' e in
      let (t₂, e₂, rest₂) = bind_inv (narrow_all a t₁) _ t' rest₁ in
      let (t₃, e₃, rest₃) = bind_inv (lower_all b t₂) _ t' rest₂ in
      let (t₄, e₄, last) = bind_inv (branch_all h c t₃) (last_split h) t' rest₃ in
      let s₁ = start-Tracked bits n i j broadcast a (v - (h - 1)) h t t₁ e₁ r hs vs in
      let s₂ =
        narrow_all-Tracked _ _ _ _ _ _ _ _ a 0 t₁ t₂ e₂ (λ x. (omega arith, omega arith))
          (omega arith) s₁ in
      let s₃ =
        lower_all-Tracked _ _ _ _ _ _ _ _ b 0 t₂ t₃ e₃ (omega arith)
          (move (0 + a) 0 a 0 t₂ (omega arith) refl s₂) in
      let s₄ =
        branch_all-Tracked _ _ _ _ _ _ _ _ h c 0 t₃ t₄ e₄ (λ x. omega arith)
          (move a (0 + b) (a + 0) (v - (h - 1) + 0) t₃ (omega arith) (omega arith) s₃) in
      let (horizontal, vertical) = last_split-levels h t₄ t' last in
      record {
        route = route_all-Routed bits n i j broadcast h v t t' le e r;
        num_horizontal = rw horizontal (omega (arith, s₄.num_horizontal));
        num_vertical = rw vertical (omega (arith, s₄.num_vertical));
        horizontals = rw horizontal s₄.horizontals;
        verticals = rw vertical s₄.verticals;
      }
