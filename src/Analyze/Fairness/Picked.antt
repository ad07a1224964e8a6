-- ===== src/Analyze/Fairness/Picked.antt =====
-- Which tenants pickExtremes picks.
use mathlib.Core.List.{Memᴰ}
use queue_benchmark.Prelude.{
  ℕ, ◌-◌, ◌≤◌, ◌<◌, ◌≡◌, refl, ap, ◌∙◌, ◌⊎◌, inl, inr, List, [], ◌∷◌, arith, Text, pos, negsuc, All,
  All-mono, sym, Bool-cases, if◌then◌else◌, ltb,
}
use queue_benchmark.Prelude.Dict.{Dict}
use queue_benchmark.Prelude.Int.{◌≤ℤ◌, ltb_ℤ, two_63, sub_ℕ, pos_part}
use queue_benchmark.Analyze.Float.{Float}
use queue_benchmark.Analyze.Reader.{TenantStats}
use queue_benchmark.Analyze.Groups.{Extremes, see_tenant, see_tenants, pick_extremes}
use queue_benchmark.Analyze.Fairness.{most_enqueued, least_enqueued}

module _ (fl : Float) where
  abbrev Tenant : Type 0
  Tenant = Text × TenantStats fl

  -- Where the noisy tenant behind some tenants comes from.
  abbrev IsNoisy : List Tenant → (x y : Extremes fl) → Type 0
  IsNoisy per x y =
      ((y.noisy ≡ x.noisy) × (y.max_count ≡ x.max_count))
      ⊎ ((t : Tenant) × Memᴰ t per × (y.noisy ≡ t.0) × (y.max_count ≡ pos t.1.enqueued))

  abbrev IsQuiet : List Tenant → (x y : Extremes fl) → Type 0
  IsQuiet per x y =
      ((y.quiet ≡ x.quiet) × (y.min_count ≡ x.min_count))
      ⊎ ((t : Tenant) × Memᴰ t per × (y.quiet ≡ t.0) × (y.min_count ≡ pos t.1.enqueued))

  record IsSeen (per : List Tenant) (x y : Extremes fl) : Type 0 where
    noisy : IsNoisy per x y
    quiet : IsQuiet per x y
    above : x.max_count ≤ℤ y.max_count
    below : y.min_count ≤ℤ x.min_count
    all : All (λ t. (pos t.1.enqueued ≤ℤ y.max_count) × (y.min_count ≤ℤ pos t.1.enqueued)) per

  -- One tenant.
  IsNoisy-tail :
      (t : Tenant) (per : List Tenant) (x y : Extremes fl)
      → IsNoisy per (see_tenant fl t x) y
      → IsNoisy (t ∷ per) x y
  unfolding see_tenant
  IsNoisy-tail t per x y (inr (u, m, e, f)) = inr (u, Memᴰ.tail m, e, f)
  IsNoisy-tail t per x y (inl (e, f)) = elim (Bool-cases (ltb_ℤ x.max_count (pos t.1.enqueued))) [
    | inl h ↦ inr (t, Memᴰ.head refl, e ∙ rw h refl, f ∙ rw h refl)
    | inr h ↦ inl (e ∙ rw h refl, f ∙ rw h refl)
  ]

  IsQuiet-tail :
      (t : Tenant) (per : List Tenant) (x y : Extremes fl)
      → IsQuiet per (see_tenant fl t x) y
      → IsQuiet (t ∷ per) x y
  unfolding see_tenant
  IsQuiet-tail t per x y (inr (u, m, e, f)) = inr (u, Memᴰ.tail m, e, f)
  IsQuiet-tail t per x y (inl (e, f)) = elim (Bool-cases (ltb_ℤ (pos t.1.enqueued) x.min_count)) [
    | inl h ↦ inr (t, Memᴰ.head refl, e ∙ rw h refl, f ∙ rw h refl)
    | inr h ↦ inl (e ∙ rw h refl, f ∙ rw h refl)
  ]

  IsSeen-tail :
      (t : Tenant) (per : List Tenant) (x y : Extremes fl)
      → IsSeen per (see_tenant fl t x) y
      → IsSeen (t ∷ per) x y
  unfolding see_tenant
  IsSeen-tail t per x y s = record {
    noisy = IsNoisy-tail t per x y s.noisy;
    quiet = IsQuiet-tail t per x y s.quiet;
    above = ground (arith, s.above);
    below = ground (arith, s.below);
    all = ((ground (arith, s.above), ground (arith, s.below)), s.all);
  }

  seen : (per : List Tenant) (x : Extremes fl) → IsSeen per x (see_tenants fl per x)
  unfolding see_tenants
  seen [] x = record {
    noisy = inl (refl, refl);
    quiet = inl (refl, refl);
    above = omega arith;
    below = omega arith;
    all = tt;
  }
  seen (t ∷ per) x = IsSeen-tail t per x _ (seen per (see_tenant fl t x))

  -- The two loops over the counts go as those of renderPerTenantSection do.
  same_most :
      (per : List Tenant) (x : Extremes fl) (most : ℕ)
      → x.max_count ≡ pos most
      → (see_tenants fl per x).max_count ≡ pos (most_enqueued fl per most)
  unfolding see_tenants most_enqueued see_tenant
  same_most [] x most e = e
  same_most ((id, ts) ∷ per) x most e =
      same_most per _ (if ltb most ts.enqueued then ts.enqueued else most) (ground (arith, e))

  same_least :
      (per : List Tenant) (x : Extremes fl) (least : ℕ)
      → x.min_count ≡ pos least
      → (see_tenants fl per x).min_count ≡ pos (least_enqueued fl per least)
  unfolding see_tenants least_enqueued see_tenant
  same_least [] x least e = e
  same_least ((id, ts) ∷ per) x least e =
      same_least per _ (if ltb ts.enqueued least then ts.enqueued else least) (ground (arith, e))

  abbrev start : Extremes fl
  start = record { max_count = negsuc 0; min_count = sub_ℕ two_63 1; noisy = []; quiet = [] }

  -- The first tenant replaces the initial values.
  max_count-start :
      (t : Tenant) (rest : List Tenant)
      → (see_tenants fl (t ∷ rest) start).max_count ≡ pos (most_enqueued fl (t ∷ rest) 0)
  unfolding see_tenants most_enqueued
  max_count-start t rest =
      same_most rest (see_tenant fl t start) (if ltb 0 t.1.enqueued then t.1.enqueued else 0)
        (unfold see_tenant in ground arith)

  picked_noisy :
      (t : Tenant) (rest : List Tenant) (y : Extremes fl)
      → IsSeen (t ∷ rest) start y
      → (a : TenantStats fl) × Memᴰ (y.noisy, a) (t ∷ rest) × (y.max_count ≡ pos a.enqueued)
  picked_noisy t rest y s = elim s.noisy [
    | inl (e, f) ↦ absurd (omega (arith, rw f at s.all.0.0))
    | inr (u, m, e, f) ↦ (u.1, rw e m, f)
  ]

  picked_quiet :
      (t : Tenant) (rest : List Tenant) (y : Extremes fl)
      → t.1.enqueued < two_63 - 1
      → IsSeen (t ∷ rest) start y
      → (b : TenantStats fl) × Memᴰ (y.quiet, b) (t ∷ rest) × (y.min_count ≡ pos b.enqueued)
  picked_quiet t rest y small s = elim s.quiet [
    | inl (e, f) ↦ absurd (omega (arith, small, rw f at s.all.0.1))
    | inr (u, m, e, f) ↦ (u.1, rw e m, f)
  ]

  -- Of some tenants whose counts are below the largest int64, pickExtremes picks two of them: the
  -- count of the noisy one is the largest and that of the quiet one the smallest, and these are what
  -- renderPerTenantSection computes to tell whether a run is skewed.
  pub pick_extremes_lem :
      (t : Text × TenantStats fl) (rest : Dict (TenantStats fl))
      → let per = t ∷ rest in
        All (λ u. u.1.enqueued < two_63 - 1) per
        → let (noisy, quiet) = pick_extremes fl per in
          (a : TenantStats fl) × (b : TenantStats fl) × Memᴰ (noisy, a) per
          × Memᴰ (quiet, b) per
          × All (λ u. (u.1.enqueued ≤ a.enqueued) × (b.enqueued ≤ u.1.enqueued)) per
          × (a.enqueued ≡ most_enqueued fl per 0)
          × (b.enqueued ≡ least_enqueued fl per (two_63 - 1))
  unfolding pick_extremes
  pick_extremes_lem t rest small =
      let y = see_tenants fl (t ∷ rest) start in
      let s = seen (t ∷ rest) start in
      let (a, at_a, most) = picked_noisy t rest y s in
      let (b, at_b, least) = picked_quiet t rest y small.0 s in
      (
        a,
        b,
        at_a,
        at_b,
        All-mono
            (λ (u : Tenant). (pos u.1.enqueued ≤ℤ y.max_count) × (y.min_count ≤ℤ pos u.1.enqueued))
            _ (t ∷ rest) (λ u h. (omega (arith, rw most at h.0), omega (arith, rw least at h.1)))
            s.all,
        ap pos_part (sym most ∙ max_count-start t rest),
        ap pos_part (sym least ∙ same_least (t ∷ rest) start (two_63 - 1) refl),
      )
