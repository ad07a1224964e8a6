-- ===== src/Analyze/Fairness.antt =====
-- renderPerTenantSection of internal/analyze/analyze.go: which runs are skewed, and the fairness
-- table.
pub mod Picked
use queue_benchmark.Prelude.{
  ℕ, ◌+◌, ◌-◌, Bool, true, false, not, ◌&&◌, ◌||◌, List, [], ◌∷◌, ◌++◌, Text, bytes, ℤ, pos,
  if◌then◌else◌, ltb, length,
}
use queue_benchmark.Prelude.Bytes.{format_uint}
use queue_benchmark.Prelude.Dict.{Dict, lookup, get_or_zero}
use queue_benchmark.Prelude.Int.{two_63}
use queue_benchmark.Analyze.Float.{Float}
use queue_benchmark.Analyze.Stats.{nought}
use queue_benchmark.Analyze.Reader.{RunSummary, TenantStats, no_latency}
use queue_benchmark.Analyze.Groups.{pick_extremes}
use queue_benchmark.Analyze.Tables.{newline, row, rule, headed, code, rows_of}

module _ (fl : Float) where
  open fl use {F, lt, div, of_int}

  -- `maxEnq` and `minEnq`.
  unfoldable pub most_enqueued : Dict (TenantStats fl) → ℕ → ℕ
  most_enqueued [] most = most
  most_enqueued ((id, ts) ∷ rest) most =
      most_enqueued rest (if ltb most ts.enqueued then ts.enqueued else most)

  unfoldable pub least_enqueued : Dict (TenantStats fl) → ℕ → ℕ
  least_enqueued [] least = least
  least_enqueued ((id, ts) ∷ rest) least =
      least_enqueued rest (if ltb ts.enqueued least then ts.enqueued else least)

  -- A run of at least two tenants, one of which enqueued more than twice what another did.
  unfoldable pub is_skewed : RunSummary fl → Bool
  unfolding most_enqueued least_enqueued
  is_skewed r =
      let most = most_enqueued r.per_tenant 0 in
      let least = least_enqueued r.per_tenant (two_63 - 1) in
      not (ltb (length r.per_tenant) 2)
      && (ltb 0 least && lt (of_int (pos 2)) (div (of_int (pos most)) (of_int (pos least))))

  -- `hasSkew`.
  unfoldable pub has_skew : List (RunSummary fl) → Bool
  unfolding is_skewed
  has_skew [] = false
  has_skew (r ∷ rs) = is_skewed r || has_skew rs

  -- `r.PerTenant[id]`.
  abbrev pub no_tenant : TenantStats fl
  no_tenant = record { enqueued = 0; completed = 0; pickup_latency = no_latency fl }

  abbrev pub tenant_of : RunSummary fl → Text → TenantStats fl
  tenant_of r id = get_or_zero no_tenant (lookup id r.per_tenant)

  unfoldable pub ratio : (noisy quiet : TenantStats fl) → F
  ratio noisy quiet =
      if lt (nought fl) quiet.pickup_latency.p95
      then div noisy.pickup_latency.p95 quiet.pickup_latency.p95
      else nought fl

  abbrev pub fairness_headings : List Text
  fairness_headings =
      bytes "Library"
      ∷ bytes "Noisiest enqueued"
      ∷ bytes "Quietest enqueued"
      ∷ bytes "Noisy pickup p95"
      ∷ bytes "Quiet pickup p95"
      ∷ bytes "Fairness ratio (noisy / quiet p95)"
      ∷ []

module _ (fl : Float) (fixed : (digits : ℕ) → fl.F → Text) where
  abbrev pub fairness_cells : RunSummary fl → List Text
  fairness_cells r =
      let (noisy_id, quiet_id) = pick_extremes fl r.per_tenant in
      let noisy = tenant_of fl r noisy_id in
      let quiet = tenant_of fl r quiet_id in
      code r.library
      ∷ format_uint noisy.enqueued
      ∷ format_uint quiet.enqueued
      ∷ fixed 1 noisy.pickup_latency.p95
      ∷ fixed 1 quiet.pickup_latency.p95
      ∷ fixed 2 (ratio fl noisy quiet)
      ∷ []

  -- `renderPerTenantSection`.
  unfoldable pub tenant_section : List (RunSummary fl) → Text
  unfolding has_skew pick_extremes ratio lookup format_uint row rule rows_of
  tenant_section runs =
      if has_skew fl runs
      then bytes "**Per-tenant fairness:**"
        ++ newline
        ++ newline
        ++ headed (fairness_headings fl)
        ++ rows_of fl fixed fairness_cells runs
        ++ newline
        ++ bytes "_A fairness ratio near 1.0 means the noisy tenant doesn't starve the quiet ones. "
        ++ bytes "Ratios >2 mean meaningful starvation._"
        ++ newline
        ++ newline
      else []
