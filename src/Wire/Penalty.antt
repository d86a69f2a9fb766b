-- ===== src/Wire/Penalty.antt =====
-- Wire.cpp: what the search of findPenalizedRepeater comes to.
use nvsim.Shared.{
  ℕ, zero, suc, ◌≤◌, ◌≡◌, refl, ap, ◌∙◌, true, false, Bool-cases, some, ◌⊎◌, inl, inr, arith,
}
use nvsim.Double.{Double, ◌⊕◌, ◌⊖◌, ◌⊗◌, ◌≼◌, whole}
use nvsim.Globals.{Globals}
use nvsim.Wire.State.{Wire}
use nvsim.Wire.Repeater.{
  Figures, Search, figures, is_better, keep_better, smaller, wider, search_sizes, search_spacings,
  start_search, find_penalized_repeater,
}

module _ {D : Type 0} ⦃d : Double D⦄ where
  -- `n` steps of the loops' variables.
  abbrev pub shrink : ℕ → D → D
  shrink zero x = x
  shrink (suc n) x = shrink n (x ⊖ whole 1)

  abbrev pub stretch : ℕ → D → D
  stretch zero x = x
  stretch (suc n) x = stretch n (x ⊕ d.decimal 100 6)

  abbrev pub sized : Wire D → D → Wire D
  sized w x = record w { repeater_size = x }

module _ {D : Type 0} ⦃d : Double D⦄ (g : Globals D) (target : D) where
  -- The figures are defined and the delay is at most the target.
  abbrev pub Meets : Wire D → Type 0
  Meets v = (f : Figures D) × (figures g v ≡ some f) × ((f.delay ≼ target) ≡ true)

  -- The size is the one at the start, or one that meets the target.
  abbrev pub Chosen : Wire D → D → Type 0
  Chosen w x = (x ≡ w.repeater_size) ⊎ Meets (sized w x)

  abbrev Found : Wire D → Search D → Type 0
  Found w s = (s.target_repeater_spacing ≡ w.repeater_spacing) × Chosen w s.target_repeater_size

  is_better-meets :
      (s : Search D) (f : Figures D) → is_better g target s f ≡ true → (f.delay ≼ target) ≡ true
  unfolding is_better
  is_better-meets s f h = ground arith

  keep_better-Found :
      (w : Wire D) (x : D) (s : Search D) (f : Figures D)
      → figures g (sized w x) ≡ some f
      → Found w s
      → Found w (keep_better g target (sized w x) s f)
  unfolding keep_better
  keep_better-Found w x s f e h = elim (Bool-cases (is_better g target s f)) [
    | inl p ↦ rw (keep_better, p) (refl, inr (f, e, is_better-meets s f p))
    | inr p ↦ rw (keep_better, p) h
  ]

  search_sizes-stop :
      (n : ℕ) (w : Wire D) (s : Search D)
      → (whole 1 ≼ w.repeater_size) ≡ false
      → search_sizes g (suc n) target w s ≡ some (w, s)
  unfolding search_sizes
  search_sizes-stop n w s stop = rw (search_sizes, stop) refl

  search_sizes-go :
      (n : ℕ) (w : Wire D) (s : Search D) (f : Figures D)
      → (whole 1 ≼ w.repeater_size) ≡ true
      → figures g w ≡ some f
      → search_sizes g (suc n) target w s
        ≡ search_sizes g n target (smaller g w) (keep_better g target w s f)
  unfolding search_sizes
  search_sizes-go n w s f go e = rw (search_sizes, go, e) refl

  -- With a round of fuel for each size, the inner loop ends, and at a size below 1.
  search_sizes-Ends :
      (n : ℕ) (w : Wire D) (x : D) (s : Search D)
      → (whole 1 ≼ shrink n x) ≡ false
      → ((k : ℕ) → k ≤ n → (f : Figures D) × (figures g (sized w (shrink k x)) ≡ some f))
      → Found w s
      → (y : D) × (t : Search D) × (search_sizes g (suc n) target (sized w x) s
          ≡ some (sized w y, t))
        × ((whole 1 ≼ y) ≡ false)
        × Found w t
  search_sizes-Ends zero w x s stop defined h =
      (x, s, search_sizes-stop 0 (sized w x) s stop, stop, h)
  search_sizes-Ends (suc n) w x s stop defined h = elim (Bool-cases (whole 1 ≼ x)) [
    | inr below ↦ (x, s, search_sizes-stop (suc n) (sized w x) s below, below, h)
    | inl above ↦
        let f = defined 0 (omega arith) in
        let rest =
          search_sizes-Ends n w (x ⊖ whole 1) (keep_better g target (sized w x) s f.0) stop
            (λ k le. defined (suc k) (omega arith)) (keep_better-Found w x s f.0 f.1 h) in
        (
          rest.0,
          rest.1,
          search_sizes-go (suc n) (sized w x) s f.0 above f.1 ∙ rest.2,
          rest.3,
          rest.4,
        )
  ]

  search_spacings-stop :
      (sizes n : ℕ) (end : D) (w : Wire D) (s : Search D)
      → (w.repeater_spacing ≼ end) ≡ false
      → search_spacings g sizes (suc n) end target w s ≡ some s
  unfolding search_spacings
  search_spacings-stop sizes n end w s stop = rw (search_spacings, stop) refl

  search_spacings-go :
      (sizes n : ℕ) (end : D) (w v : Wire D) (s t : Search D)
      → (w.repeater_spacing ≼ end) ≡ true
      → search_sizes g sizes target w s ≡ some (v, t)
      → search_spacings g sizes (suc n) end target w s
        ≡ search_spacings g sizes n end target (wider g v) t
  unfolding search_spacings
  search_spacings-go sizes n end w v s t go e = rw (search_spacings, go, e) refl

  -- Once the size is below 1, the outer loop goes through the spacings without any test of a size.
  search_spacings-idle :
      (sizes n : ℕ) (end : D) (w : Wire D) (s : Search D)
      → (stretch n w.repeater_spacing ≼ end) ≡ false
      → (whole 1 ≼ w.repeater_size) ≡ false
      → search_spacings g (suc sizes) (suc n) end target w s ≡ some s
  search_spacings-idle sizes zero end w s stop below =
      search_spacings-stop (suc sizes) 0 end w s stop
  search_spacings-idle sizes (suc n) end w s stop below =
      elim (Bool-cases (w.repeater_spacing ≼ end)) [
        | inr over ↦ search_spacings-stop (suc sizes) (suc n) end w s over
        | inl go ↦
            search_spacings-go (suc sizes) (suc n) end w w s s go
              (search_sizes-stop sizes w s below)
            ∙ search_spacings-idle sizes n end (wider g w) s stop below
      ]

  search_spacings-Ends :
      (n m : ℕ) (end : D) (w : Wire D) (s : Search D)
      → (whole 1 ≼ shrink n w.repeater_size) ≡ false
      → ((k : ℕ)
          → k ≤ n
          → (f : Figures D) × (figures g (sized w (shrink k w.repeater_size)) ≡ some f))
      → (stretch m w.repeater_spacing ≼ end) ≡ false
      → Found w s
      → (t : Search D) × (search_spacings g (suc n) (suc m) end target w s ≡ some t) × Found w t
  search_spacings-Ends n zero end w s stop defined over h =
      (s, search_spacings-stop (suc n) 0 end w s over, h)
  search_spacings-Ends n (suc m) end w s stop defined over h =
      elim (Bool-cases (w.repeater_spacing ≼ end)) [
        | inr past ↦ (s, search_spacings-stop (suc n) (suc m) end w s past, h)
        | inl go ↦
            let r = search_sizes-Ends n w w.repeater_size s stop defined h in
            (
              r.1,
              search_spacings-go (suc n) (suc m) end w (sized w r.0) s r.1 go r.2
                  ∙ search_spacings-idle n m end (wider g (sized w r.0)) r.1 over r.3,
              r.4,
            )
      ]

module _ {D : Type 0} ⦃d : Double D⦄ (g : Globals D) (penalty : D) (w : Wire D) where
  placed :
      (s : Search D)
      → s.target_repeater_spacing ≡ w.repeater_spacing
      → record w {
        repeater_spacing = s.target_repeater_spacing;
        repeater_size = s.target_repeater_size;
      }
        ≡ sized w s.target_repeater_size
  placed s e = ap (λ x. record w { repeater_spacing = x; repeater_size = s.target_repeater_size }) e

  -- Where n steps bring the size of the optimal repeater below 1, m steps its spacing above the end,
  -- and the figures at these sizes are defined, the search ends. It leaves the spacing as it was, and
  -- a size that was there before or that, at this spacing, has a delay of at most the penalised one.
  pub find_penalized_repeater-Ends :
      (n m : ℕ) (first : Figures D)
      → figures g w ≡ some first
      → (whole 1 ≼ shrink n w.repeater_size) ≡ false
      → ((k : ℕ)
          → k ≤ n
          → (f : Figures D) × (figures g (sized w (shrink k w.repeater_size)) ≡ some f))
      → (stretch m w.repeater_spacing ≼ whole 4 ⊗ w.repeater_spacing) ≡ false
      → (x : D) × (find_penalized_repeater g (suc n) (suc m) penalty w ≡ some (sized w x))
        × Chosen g (first.delay ⊗ (whole 1 ⊕ penalty)) w x
  unfolding find_penalized_repeater
  find_penalized_repeater-Ends n m first e stop defined over =
      let target = first.delay ⊗ (whole 1 ⊕ penalty) in
      let r =
        search_spacings-Ends g target n m (whole 4 ⊗ w.repeater_spacing) w (start_search g w first)
          stop defined over (refl, inl refl) in
      (
        r.0.target_repeater_size,
        rw (find_penalized_repeater, e, r.1) (ap some (placed r.0 r.2.0)),
        r.2.1,
      )
