-- ===== src/Workload.antt =====
-- The job generator of internal/workload/workload.go, less `Run`, which Workload.Stream has. A random
-- source is a parameter (math/rand), and so are floats. A computation that draws returns nothing
-- where the code panics.
pub mod Picks
pub mod Payload
pub mod Scenarios
pub mod Stream
use queue_benchmark.Prelude.{
  ℕ, zero, suc, ◌+◌, ◌-◌, ◌≤◌, ◌<◌, ◌≡◌, Bool, true, false, ◌&&◌, List, [], ◌∷◌, Option, none, some,
  Text, text_eq, ℤ, pos, length, get_elem?, if◌then◌else◌, ltb, leb,
}
use queue_benchmark.Prelude.Int.{wrap_signed, pos_part, neg_part, sub_ℕ, ltb_ℤ, leb_ℤ, two_63}
use queue_benchmark.Queue.{
  Uuid, Kind, ErrorClass, JobPayload, EnqueueRequest, rate_limit, transient, permanent,
}
use queue_benchmark.Analyze.Float.{Float}

-- `rand.Rand` over a source: `Float64`, and `IntN` and `Int64N` for a positive bound.
pub record Random (fl : Float) : Type 1 where
  pub Source : Type 0
  pub float64 : Source → fl.F × Source
  pub int_n : ℕ → Source → ℕ × Source

-- What math/rand documents of IntN: a draw lies in the half-open interval from 0 to its bound.
abbrev pub IsBounded : {fl : Float} → Random fl → Type 0
IsBounded rnd = (n : ℕ) (r : rnd.Source) → 0 < n → (rnd.int_n n r).0 < n

module _ (fl : Float) where
  open fl use {F, lt, add, mul, of_int}

  pub record JobClass : Type 0 where
    pub kind : Kind
    pub weight : F
    pub work_millis_min : ℤ
    pub work_millis_max : ℤ
    pub payload_bytes_min : ℤ
    pub payload_bytes_max : ℤ

  -- Durations are nanoseconds.
  pub record Spec : Type 0 where
    pub name : Text
    pub duration : ℤ
    pub tenants : ℤ
    pub tenant_skew : F
    pub enqueue_rate : ℤ
    pub rate_curve : Option (ℤ → F)
    pub job_mix : List JobClass
    pub error_injection : List (ErrorClass × F)
    pub seed : ℕ

  -- A generator, less its random source.
  pub record Generator : Type 0 where
    pub spec : Spec
    pub tenants : List Uuid
    pub total_weight : F
    pub err_classes : List ErrorClass

  abbrev pub zero_float : F
  zero_float = of_int (pos 0)

  -- `x > 0`; without NaN, `x <= 0` is its negation.
  abbrev pub is_positive : F → Bool
  is_positive x = lt zero_float x

  unfoldable pub weight_from : F → List JobClass → F
  weight_from total [] = total
  weight_from total (c ∷ cs) = weight_from (add total c.weight) cs

  -- `NewGenerator`, from the tenants that it makes.
  unfoldable pub new_generator : Spec → List Uuid → Generator
  unfolding weight_from
  new_generator spec tenants = record {
    spec = spec;
    tenants = tenants;
    total_weight = weight_from zero_float spec.job_mix;
    err_classes = rate_limit ∷ transient ∷ permanent ∷ [];
  }

  -- `Burst`: the end of the window is computed in int64.
  unfoldable pub burst : (start window : ℤ) → F → ℤ → F
  burst start window multiplier t =
      let end =
        wrap_signed two_63
          (sub_ℕ (pos_part start + pos_part window) (neg_part start + neg_part window)) in
      if leb_ℤ start t && ltb_ℤ t end then multiplier else of_int (pos 1)

  -- The zero value of a JobClass.
  abbrev pub no_class : JobClass
  no_class = record {
    kind = [];
    weight = zero_float;
    work_millis_min = pos 0;
    work_millis_max = pos 0;
    payload_bytes_min = pos 0;
    payload_bytes_max = pos 0;
  }

  -- The loop of `pickKind`; the class before is the answer at the end.
  unfoldable pub walk : (r acc : F) → JobClass → List JobClass → JobClass
  walk r acc before [] = before
  walk r acc before (c ∷ cs) =
      let total = add acc c.weight in let rest = walk r total c cs in if lt r total then c else rest

  unfoldable pub probability : ErrorClass → List (ErrorClass × F) → F
  probability cls [] = zero_float
  probability cls ((c, p) ∷ rest) = if text_eq c cls then p else probability cls rest

module _ {fl : Float} (rnd : Random fl) where
  open fl use {F, lt, mul}
  open rnd use {Source, float64, int_n}

  abbrev pub Draw : Type 0 → Type 0
  Draw A = Source → Option (A × Source)

  abbrev pub after : {A B : Type 0} → (A → Draw B) → Option (A × Source) → Option (B × Source)
  after f none = none
  after f (some (a, r)) = f a r

  -- One draw behind another.
  unfoldable pub and_then : {A B : Type 0} → Draw A → (A → Draw B) → Draw B
  and_then m f r = after f (m r)

  abbrev pub value : {A : Type 0} → A → Draw A
  value a r = some (a, r)

  -- `IntN` and `Int64N`: a bound that is not positive panics.
  unfoldable pub draw_below : ℤ → Draw ℕ
  draw_below n r = if leb_ℤ n (pos 0) then none else some (int_n (pos_part n) r)

  unfoldable pub draw_float : Draw F
  draw_float r = some (float64 r)

  -- The tenants from an index on, uniformly; the first one, where there are none.
  unfoldable pub pick_from : ℕ → Uuid → List Uuid → Draw Uuid
  unfolding and_then draw_below
  pick_from start first tenants =
      if leb (length tenants) start
      then value first
      else and_then (draw_below (pos (length tenants - start)))
          λ i r. elim (get_elem? tenants (start + i)) [ none ↦ none | some t ↦ some (t, r) ]

  -- With a skew, its draw has failed.
  unfoldable pub pick_other : Generator fl → Uuid → Draw Uuid
  unfolding pick_from
  pick_other g first =
      if is_positive fl g.spec.tenant_skew && ltb 1 (length g.tenants)
      then pick_from 1 first g.tenants
      else pick_from 0 first g.tenants

  -- `pickTenant` for a pool with a first tenant.
  unfoldable pub pick_some : Generator fl → Uuid → Draw Uuid
  unfolding and_then draw_float pick_other
  pick_some g first =
      if is_positive fl g.spec.tenant_skew
      then and_then draw_float
          (λ x. if lt x g.spec.tenant_skew then value first else pick_other g first)
      else pick_other g first

  -- `pickTenant`; `nil` is uuid.Nil.
  unfoldable pub pick_tenant : (nil : Uuid) → Generator fl → Draw Uuid
  unfolding pick_some
  pick_tenant nil g = elim g.tenants [ [] ↦ value nil | first ∷ rest ↦ pick_some g first ]

  -- `pickKind`.
  unfoldable pub pick_kind : Generator fl → Draw (JobClass fl)
  unfolding and_then draw_float walk
  pick_kind g = elim g.spec.job_mix [
    | [] ↦ value (no_class fl)
    | c ∷ cs ↦
        if is_positive fl g.total_weight
        then and_then draw_float
            (λ x. value (walk fl (mul x g.total_weight) (zero_float fl) c (c ∷ cs)))
        else value c
  ]

  -- A value of a range, in int64: its low end, where the high end is not above it.
  unfoldable pub draw_between : (low high : ℤ) → Draw ℤ
  unfolding and_then draw_below
  draw_between low high =
      if ltb_ℤ low high
      then and_then
          (draw_below (
            wrap_signed two_63
              (sub_ℕ (pos_part high + neg_part low + 1) (neg_part high + pos_part low))))
          (λ k. value (wrap_signed two_63 (sub_ℕ (pos_part low + k) (neg_part low))))
      else value low

  -- The bytes of a payload, each drawn below 256.
  unfoldable pub draw_bytes : ℕ → Draw Text
  unfolding and_then draw_below
  draw_bytes zero = value []
  draw_bytes (suc n) =
      and_then (draw_below (pos 256)) λ b. and_then (draw_bytes n) λ rest. value (b ∷ rest)

  -- The loop over the error classes; no class is the empty text.
  unfoldable pub inject : List (ErrorClass × F) → List ErrorClass → Draw Text
  unfolding and_then draw_float probability
  inject table [] = value []
  inject table (cls ∷ rest) =
      let p = probability fl cls table in
      let later = inject table rest in
      if is_positive fl p
      then and_then draw_float (λ x. if lt x p then value cls else later)
      else later

  -- `buildPayload`.
  unfoldable pub build_payload : Generator fl → JobClass fl → Draw JobPayload
  unfolding and_then draw_between draw_bytes inject
  build_payload g c = and_then (draw_between c.work_millis_min c.work_millis_max) λ work.
      and_then (draw_between c.payload_bytes_min c.payload_bytes_max) λ size.
        and_then (draw_bytes (pos_part size)) λ bytes.
          and_then (inject g.spec.error_injection g.err_classes) λ failure. value (record {
            work_millis = work;
            bytes = bytes;
            fail_with_error = failure;
            attempt = pos 0;
          })

  -- `nextRequest`: the kind and the payload come from two picks.
  unfoldable pub next_request : (nil : Uuid) → Generator fl → Draw EnqueueRequest
  unfolding and_then pick_tenant pick_kind build_payload
  next_request nil g = and_then (pick_tenant nil g) λ tenant. and_then (pick_kind g) λ c.
      and_then (pick_kind g) λ d.
        and_then (build_payload g d)
          λ payload. value (record { tenant_id = tenant; kind = c.kind; payload = payload })
