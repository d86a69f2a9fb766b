-- ===== src/Exploration/Space/Legal.antt =====
-- The points that BIGFOR visits are just the legal ones.
use nvsim.Shared.{
  ℕ, ◌<◌, ◌+◌, ◌*◌, ◌^◌, ◌≤◌, ◌≡◌, subst, arith, PowerOfTwo, PowerOfTwo-min, pow2-double, pow2_pos,
  pow2-le, pow2_quotient, inl, refl, ◌↔◌, ◌-◌,
}
use nvsim.Exploration.Enumeration.{
  Enumeration, Runs, Visits, Runs->>=, Visits->>=, Runs-Visits, doubling-Runs, doubling-Visits,
  counting, counting-Runs, counting-Visits, ◌>>=◌,
}
use nvsim.Input.{Range, SearchSpace}
use nvsim.Exploration.Space.Defs.{DesignPoint, big_for, clip, clip_high, doubling_over}

-- A power of two between the ends.
pub record Within (r : Range) (n : ℕ) : Type 0 where
  pub power : PowerOfTwo n
  pub above : r.low ≤ n
  pub below : n ≤ r.high

-- A doubling loop over the range starts at a power of two and stays within an `int`.
pub record IsDoubling (r : Range) : Type 0 where
  pub power : PowerOfTwo r.low
  pub bound : r.high < 2 ^ 30

-- What the ranges of the thirteen loops are to be.
pub record HasDoublingRanges (s : SearchSpace) (associativity : ℕ) : Type 0 where
  pub num_row_mat : IsDoubling s.num_row_mat
  pub num_column_mat : IsDoubling s.num_column_mat
  pub num_active_mat_per_row : IsDoubling s.num_active_mat_per_row
  pub num_active_mat_per_column : IsDoubling s.num_active_mat_per_column
  pub num_row_subarray : IsDoubling s.num_row_subarray
  pub num_column_subarray : IsDoubling s.num_column_subarray
  pub num_active_subarray_per_row : IsDoubling s.num_active_subarray_per_row
  pub num_active_subarray_per_column : IsDoubling s.num_active_subarray_per_column
  pub mux_sense_amp : IsDoubling s.mux_sense_amp
  pub mux_output_lev1 : IsDoubling s.mux_output_lev1
  pub mux_output_lev2 : IsDoubling s.mux_output_lev2
  pub num_row_per_set : IsDoubling (clip_high associativity s.num_row_per_set)
  pub area_start : s.area_optimization_level.low ≤ s.area_optimization_level.high + 1
  pub area_bound : s.area_optimization_level.high < 2 ^ 31 - 1

-- What the loops allow: a power of two within each range, no more active mats or subarrays along a
-- side than there are, and no more rows for a set than ways.
pub record IsLegal (s : SearchSpace) (associativity : ℕ) (p : DesignPoint) : Type 0 where
  pub num_row_mat : Within s.num_row_mat p.num_row_mat
  pub num_column_mat : Within s.num_column_mat p.num_column_mat
  pub num_active_mat_per_row :
      Within (clip p.num_column_mat s.num_active_mat_per_row) p.num_active_mat_per_row
  pub num_active_mat_per_column :
      Within (clip p.num_row_mat s.num_active_mat_per_column) p.num_active_mat_per_column
  pub num_row_subarray : Within s.num_row_subarray p.num_row_subarray
  pub num_column_subarray : Within s.num_column_subarray p.num_column_subarray
  pub num_active_subarray_per_row :
      Within
        (clip p.num_column_subarray s.num_active_subarray_per_row)
        p.num_active_subarray_per_row
  pub num_active_subarray_per_column :
      Within
        (clip p.num_row_subarray s.num_active_subarray_per_column)
        p.num_active_subarray_per_column
  pub mux_sense_amp : Within s.mux_sense_amp p.mux_sense_amp
  pub mux_output_lev1 : Within s.mux_output_lev1 p.mux_output_lev1
  pub mux_output_lev2 : Within s.mux_output_lev2 p.mux_output_lev2
  pub num_row_per_set : Within (clip_high associativity s.num_row_per_set) p.num_row_per_set
  pub area_low : s.area_optimization_level.low ≤ p.area_optimization_level
  pub area_high : p.area_optimization_level ≤ s.area_optimization_level.high

pow_one-le : (n : ℕ) → PowerOfTwo n → 1 ≤ n
pow_one-le n (k, e) = rw e (pow2_pos k)

abbrev Kept : Range → ℕ → Type 0
Kept r n = (PowerOfTwo n × (r.low ≤ n)) × (1 ≤ n) × (n ≤ r.high)

doubling_over-Runs : (r : Range) → IsDoubling r → Runs (Kept r) (doubling_over r)
doubling_over-Runs r p =
    doubling-Runs (λ n. PowerOfTwo n × (r.low ≤ n)) (λ n h. (pow2-double n h.0, omega arith)) r.low
      r.high p.bound (pow_one-le r.low p.power) (p.power, omega arith)

doubling_over-Visits : (r : Range) (n : ℕ) → IsDoubling r → Within r n → Visits (doubling_over r) n
doubling_over-Visits r n p w =
    let (k, e) = p.power in
    let (m, em) = w.power in
    let le : k ≤ m = pow2-le k m (rw (← e, ← em) w.above) in
    let same : 2 ^ (m - k) * r.low ≡ n = rw (e, em) (pow2_quotient m k le) in
    subst (Visits (doubling_over r)) same
      (doubling-Visits (m - k) r.low r.high p.bound (pow_one-le r.low (k, e)) (rw same w.below))

-- A range that is cut off at a power of two.
clip-IsDoubling : (n : ℕ) (r : Range) → PowerOfTwo n → IsDoubling r → IsDoubling (clip n r)
clip-IsDoubling n r p d = record {
  power = PowerOfTwo-min n r.low p d.power;
  bound = omega (arith, d.bound);
}

-- One level of the nest: the body runs at values within the range.
module _ {B : Type 0} (Q : B → Type 0) (r : Range) (p : IsDoubling r) (f : ℕ → Enumeration B)
    (keep : (n : ℕ) → Within r n → Runs Q (f n)) where
  level_keep : (n : ℕ) → Kept r n → Runs Q (f n)
  level_keep n h = keep n (record { power = h.0.0; above = h.0.1; below = h.2 })

  level-Runs : Runs Q (doubling_over r >>= f)
  level-Runs = Runs->>= (Kept r) Q f level_keep (doubling_over r) (doubling_over-Runs r p)

-- The loop of one level meets a value within its range.
level-Visits :
    {B : Type 0} (Q : B → Type 0) (r : Range) (p : IsDoubling r) (f : ℕ → Enumeration B) (n : ℕ)
    (b : B)
    → Within r n
    → (Runs Q (f n) → Visits (f n) b)
    → Runs Q (doubling_over r >>= f)
    → Visits (doubling_over r >>= f) b
level-Visits Q r p f n b w v h =
    Visits->>= Q f n b (doubling_over r) (doubling_over-Visits r n p w) v h

module _ (s : SearchSpace) (a : ℕ) (ok : HasDoublingRanges s a) where
  -- The thirteen loops, from the outside in.
  all_loops : Runs (IsLegal s a) (big_for s a)
  unfolding big_for
  all_loops = level-Runs (IsLegal s a) s.num_row_mat ok.num_row_mat _ λ r wr.
      level-Runs (IsLegal s a) s.num_column_mat ok.num_column_mat _ λ c wc.
        level-Runs (IsLegal s a) (clip c s.num_active_mat_per_row)
          (clip-IsDoubling c s.num_active_mat_per_row wc.power ok.num_active_mat_per_row) _
          λ ar war.
            level-Runs (IsLegal s a) (clip r s.num_active_mat_per_column)
              (clip-IsDoubling r s.num_active_mat_per_column wr.power ok.num_active_mat_per_column)
              _
              λ ac wac. level-Runs (IsLegal s a) s.num_row_subarray ok.num_row_subarray _ λ rs wrs.
                level-Runs (IsLegal s a) s.num_column_subarray ok.num_column_subarray _ λ cs wcs.
                  level-Runs (IsLegal s a) (clip cs s.num_active_subarray_per_row)
                    (clip-IsDoubling cs s.num_active_subarray_per_row wcs.power
                      ok.num_active_subarray_per_row)
                    _
                    λ asr wasr.
                      level-Runs (IsLegal s a) (clip rs s.num_active_subarray_per_column)
                        (clip-IsDoubling rs s.num_active_subarray_per_column wrs.power
                          ok.num_active_subarray_per_column)
                        _
                        λ asc wasc.
                          level-Runs (IsLegal s a) s.mux_sense_amp ok.mux_sense_amp _ λ m0 wm0.
                            level-Runs (IsLegal s a) s.mux_output_lev1 ok.mux_output_lev1 _
                              λ m1 wm1.
                                level-Runs (IsLegal s a) s.mux_output_lev2 ok.mux_output_lev2 _
                                  λ m2 wm2.
                                    level-Runs (IsLegal s a) (clip_high a s.num_row_per_set)
                                      ok.num_row_per_set _
                                      λ n wn.
                                        Runs->>=
                                          (λ o.
                                            (s.area_optimization_level.low ≤ o)
                                            × (o ≤ s.area_optimization_level.high))
                                          (IsLegal s a) _
                                          (λ o wo. (
                                            record {
                                              num_row_mat = wr;
                                              num_column_mat = wc;
                                              num_active_mat_per_row = war;
                                              num_active_mat_per_column = wac;
                                              num_row_subarray = wrs;
                                              num_column_subarray = wcs;
                                              num_active_subarray_per_row = wasr;
                                              num_active_subarray_per_column = wasc;
                                              mux_sense_amp = wm0;
                                              mux_output_lev1 = wm1;
                                              mux_output_lev2 = wm2;
                                              num_row_per_set = wn;
                                              area_low = wo.0;
                                              area_high = wo.1;
                                            },
                                            tt,
                                          ))
                                          (counting s.area_optimization_level.low
                                            s.area_optimization_level.high)
                                          (counting-Runs _ _ ok.area_bound ok.area_start)

  -- Each legal point is met: level by level, at its own coordinates.
  all_points : (p : DesignPoint) → IsLegal s a p → Visits (big_for s a) p
  unfolding big_for
  all_points p l =
      level-Visits (IsLegal s a) s.num_row_mat ok.num_row_mat _ p.num_row_mat p l.num_row_mat
        (level-Visits (IsLegal s a) s.num_column_mat ok.num_column_mat _ p.num_column_mat p
          l.num_column_mat
          (level-Visits (IsLegal s a) (clip p.num_column_mat s.num_active_mat_per_row)
            (clip-IsDoubling p.num_column_mat s.num_active_mat_per_row l.num_column_mat.power
              ok.num_active_mat_per_row)
            _ p.num_active_mat_per_row p l.num_active_mat_per_row
            (level-Visits (IsLegal s a) (clip p.num_row_mat s.num_active_mat_per_column)
              (clip-IsDoubling p.num_row_mat s.num_active_mat_per_column l.num_row_mat.power
                ok.num_active_mat_per_column)
              _ p.num_active_mat_per_column p l.num_active_mat_per_column
              (level-Visits (IsLegal s a) s.num_row_subarray ok.num_row_subarray _
                p.num_row_subarray p l.num_row_subarray
                (level-Visits (IsLegal s a) s.num_column_subarray ok.num_column_subarray _
                  p.num_column_subarray p l.num_column_subarray
                  (level-Visits (IsLegal s a)
                    (clip p.num_column_subarray s.num_active_subarray_per_row)
                    (clip-IsDoubling p.num_column_subarray s.num_active_subarray_per_row
                      l.num_column_subarray.power ok.num_active_subarray_per_row)
                    _ p.num_active_subarray_per_row p l.num_active_subarray_per_row
                    (level-Visits (IsLegal s a)
                      (clip p.num_row_subarray s.num_active_subarray_per_column)
                      (clip-IsDoubling p.num_row_subarray s.num_active_subarray_per_column
                        l.num_row_subarray.power ok.num_active_subarray_per_column)
                      _ p.num_active_subarray_per_column p l.num_active_subarray_per_column
                      (level-Visits (IsLegal s a) s.mux_sense_amp ok.mux_sense_amp _ p.mux_sense_amp
                        p l.mux_sense_amp
                        (level-Visits (IsLegal s a) s.mux_output_lev1 ok.mux_output_lev1 _
                          p.mux_output_lev1 p l.mux_output_lev1
                          (level-Visits (IsLegal s a) s.mux_output_lev2 ok.mux_output_lev2 _
                            p.mux_output_lev2 p l.mux_output_lev2
                            (level-Visits (IsLegal s a) (clip_high a s.num_row_per_set)
                              ok.num_row_per_set _ p.num_row_per_set p l.num_row_per_set
                              (Visits->>= (IsLegal s a) _ p.area_optimization_level p
                                (counting s.area_optimization_level.low
                                  s.area_optimization_level.high)
                                (counting-Visits p.area_optimization_level _ _ ok.area_bound
                                  l.area_low l.area_high)
                                (λ h. inl refl)))))))))))))
        all_loops

  -- From ranges that start at powers of two and end below 2 ^ 30, of which that of the rows per set
  -- may end at the associativity, and buffer levels below the largest `int` of which the lower one
  -- is at most one above the upper one, the thirteen loops of BIGFOR end, and the body runs just at
  -- the legal points: powers of two within the ranges, with no more active mats or subarrays along
  -- a side than there are, and no more rows for a set than the associativity.
  pub big_for-Visits_iff :
      Runs (IsLegal s a) (big_for s a)
      × ((p : DesignPoint) → Visits (big_for s a) p ↔ IsLegal s a p)
  big_for-Visits_iff =
      (all_loops, λ p. (Runs-Visits (IsLegal s a) (big_for s a) p all_loops, all_points p))
