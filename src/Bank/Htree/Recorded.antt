-- ===== src/Bank/Htree/Recorded.antt =====
-- `BankWithHtree::Initialize`: the bits that each level of the H-tree gets, split by split.
use nvsim.Shared.{
  length, subst, ℕ, suc, ◌+◌, ◌-◌, ◌/◌, ◌^◌, ◌≡◌, ap, min, List, [], ◌∷◌, arith, pos,
}
use nvsim.Bank.Htree.Defs.{Route, Level, level}
use nvsim.Bank.Htree.Routing.{Routed}
use nvsim.Bank.Htree.Levels.{Pushed}

module _ (bits n i j broadcast : ℕ) where
  -- A level that lies behind kc splits of the columns and kr splits of the rows.
  pub record Recorded (kc kr : ℕ) (l : Level) : Type 0 where
    pub distribute : l.data_distribute_bit ≡ bits / 2 ^ (min i kc + min j kr)
    pub broadcasts : l.data_broadcast_bit ≡ broadcast
    pub left : ℕ
    pub address : l.address_bit ≡ pos left
    pub spent : left + (kc - i) + (kr - j) ≡ n

  pub Routed-Recorded :
      (kc kr kc' kr' : ℕ) (r : Route) (w s x : ℕ)
      → Routed bits n i j broadcast kc kr r
      → kc ≡ kc'
      → kr ≡ kr'
      → Recorded kc' kr' (level r w s x)
  Routed-Recorded kc kr kc' kr' r w s x h e f =
      subst (λ (k : ℕ). Recorded k kr' (level r w s x)) e
        (subst (λ (k : ℕ). Recorded kc k (level r w s x)) f
          (record {
            distribute = h.distribute;
            broadcasts = h.broadcasts;
            left = h.left;
            address = h.address;
            spent = h.spent;
          }))

  -- The columns are split a times before the rows, or the rows b times before the columns, and both in
  -- turn afterwards.
  module _ (a b : ℕ) where
    -- The horizontal levels, the newest first: the first one written lies behind no split, each later
    -- one behind one split of the columns more.
    abbrev pub Horizontals : List Level → Type 0
    Horizontals [] = Unit
    Horizontals (l ∷ []) = Recorded 0 0 l
    Horizontals (l ∷ m ∷ ls) =
        Recorded (suc (length ls)) (b + (length ls - a)) l × Horizontals (m ∷ ls)

    -- The vertical levels: each one lies behind one split of the rows more than the one before.
    abbrev pub Verticals : List Level → Type 0
    Verticals [] = Unit
    Verticals (l ∷ ls) = Recorded (a + (suc (length ls) - b)) (suc (length ls)) l × Verticals ls

    pub push_horizontal :
        (kc kr : ℕ) (r : Route) (ls ls' : List Level)
        → Pushed r ls ls'
        → Routed bits n i j broadcast (suc kc) kr r
        → length ls ≡ suc kc
        → kr ≡ b + (kc - a)
        → Horizontals ls
        → Horizontals ls' × (length ls' ≡ suc (suc kc))
    push_horizontal kc kr r [] ls' p h len e hs = absurd (omega (arith, len))
    push_horizontal kc kr r (m ∷ ls) ls' p h len e hs =
        let same : kc ≡ length ls = omega (arith, len) in
        rw p.is_written (
          (
            Routed-Recorded (suc kc) kr (suc (length ls)) (b + (length ls - a)) r p.wires p.sums
                p.actives h (ap suc same) (omega (arith, e, same)),
            hs,
          ),
          omega (arith, len),
        )

    pub push_vertical :
        (kc kr : ℕ) (r : Route) (ls ls' : List Level)
        → Pushed r ls ls'
        → Routed bits n i j broadcast kc (suc kr) r
        → length ls ≡ kr
        → kc ≡ a + (suc kr - b)
        → Verticals ls
        → Verticals ls' × (length ls' ≡ suc kr)
    push_vertical kc kr r ls ls' p h len e vs = rw p.is_written (
      (
        Routed-Recorded kc (suc kr) (a + (suc (length ls) - b)) (suc (length ls)) r p.wires p.sums
            p.actives h (omega (arith, e, len)) (omega (arith, len)),
        vs,
      ),
      omega (arith, len),
    )
