-- ===== src/Workload/Payload.antt =====
-- The payloads and requests that the generator builds.
use mathlib.Core.List.{Memᴰ}
use queue_benchmark.Prelude.{
  ℕ, zero, suc, ◌+◌, ◌-◌, ◌≤◌, ◌<◌, ◌≡◌, refl, ◌∙◌, ap, ◌≢◌, ◌⊎◌, inl, inr, true, List, [], ◌∷◌,
  arith, Text, ℤ, pos, length, All,
}
use queue_benchmark.Prelude.Int.{wrap_signed, wrap_small, pos_part, sub_ℕ, ltb_ℤ, two_63}
use queue_benchmark.Queue.{Uuid, ErrorClass, JobPayload}
use queue_benchmark.Analyze.Float.{Float}
use queue_benchmark.Workload.{
  Random, IsBounded, JobClass, Generator, is_positive, probability, Draw, draw_between, draw_bytes,
  inject, build_payload, next_request,
}
use queue_benchmark.Workload.Picks.{
  Returns, Returns-and_then, Returns-value, Returns-if, Returns-draw_float, Returns-draw_below,
  pick_tenant-mem, pick_kind-Returns,
}

-- An integer between two natural numbers.
pub record IsWithin (low high : ℕ) (x : ℤ) : Type 0 where
  pub number : ℕ
  pub equal : x ≡ pos number
  pub low_le : low ≤ number
  pub le_high : number ≤ high

-- The ranges of a class: natural numbers in order that an int64 and its successor hold.
pub record IsRange (low high : ℤ) (l h : ℕ) : Type 0 where
  pub low_eq : low ≡ pos l
  pub high_eq : high ≡ pos h
  pub ordered : l ≤ h
  pub small : h + 1 < two_63

module _ {fl : Float} (rnd : Random fl) where
  open fl use {F, lt}

  range_size :
      (l h : ℕ)
      → l ≤ h
      → h + 1 < two_63
      → wrap_signed two_63 (sub_ℕ (h + 0 + 1) (0 + l)) ≡ pos (h + 1 - l)
  range_size l h o s =
      ap (wrap_signed two_63) (ground arith) ∙ wrap_small two_63 (h + 1 - l) (omega arith)

  shifted : (l k : ℕ) → l + k < two_63 → wrap_signed two_63 (sub_ℕ (l + k) 0) ≡ pos (l + k)
  shifted l k s = ap (wrap_signed two_63) (ground arith) ∙ wrap_small two_63 (l + k) s

  draw_between-Returns :
      IsBounded rnd
      → (l h : ℕ) → l ≤ h
      → h + 1 < two_63
      → Returns rnd (IsWithin l h) (draw_between rnd (pos l) (pos h))
  unfolding draw_between
  draw_between-Returns bounded l h o s =
      Returns-if rnd _ (ltb_ℤ (pos l) (pos h)) _ _
        (λ e. rw (range_size l h o s) (
          Returns-and_then rnd (λ k. k < h + 1 - l) _ _ _
            (Returns-draw_below rnd bounded (h + 1 - l) (omega arith))
            λ k lt_size. Returns-value rnd _ _ (record {
              number = l + k;
              equal = shifted l k (omega arith);
              low_le = omega arith;
              le_high = omega arith;
            })))
        (λ e.
          Returns-value rnd _ (pos l)
            (record { number = l; equal = refl; low_le = omega arith; le_high = o }))

  drawn :
      IsBounded rnd
      → (low high : ℤ) {l h : ℕ} → IsRange low high l h
      → Returns rnd (IsWithin l h) (draw_between rnd low high)
  drawn bounded low high {l} {h} v =
      rw (v.low_eq, v.high_eq) (draw_between-Returns bounded l h v.ordered v.small)

  draw_bytes-Returns :
      IsBounded rnd
      → (n : ℕ)
      → Returns rnd (λ (bs : Text). (length bs ≡ n) × All (λ b. b < 256) bs) (draw_bytes rnd n)
  unfolding draw_bytes
  draw_bytes-Returns bounded zero = Returns-value rnd _ [] (refl, tt)
  draw_bytes-Returns bounded (suc n) =
      Returns-and_then rnd (λ b. b < 256) _ _ _ (Returns-draw_below rnd bounded 256 (omega arith))
        λ b small.
          Returns-and_then rnd _ _ _ _ (draw_bytes-Returns bounded n)
            λ rest p. Returns-value rnd _ (b ∷ rest) (ap suc p.0, (small, p.1))

  -- A failure is none, or a listed class with a positive probability.
  abbrev pub Injected : List (ErrorClass × F) → List ErrorClass → Text → Type 0
  Injected table classes failure =
      (failure ≡ [])
      ⊎ (Memᴰ failure classes × (is_positive fl (probability fl failure table) ≡ true))

  later_Injected :
      (table : List (ErrorClass × F)) (cls : ErrorClass) (rest : List ErrorClass) (t : Text)
      → Injected table rest t
      → Injected table (cls ∷ rest) t
  later_Injected table cls rest t (inl e) = inl e
  later_Injected table cls rest t (inr (m, p)) = inr (Memᴰ.tail m, p)

  pub Returns-mono :
      {A : Type 0} (P Q : A → Type 0) (m : Draw rnd A)
      → ((a : A) → P a → Q a)
      → Returns rnd P m
      → Returns rnd Q m
  Returns-mono P Q m f h r = let (a, r', e, p) = h r in (a, r', e, f a p)

  inject-Returns :
      (table : List (ErrorClass × F)) (classes : List ErrorClass)
      → Returns rnd (Injected table classes) (inject rnd table classes)
  unfolding inject
  inject-Returns table [] = Returns-value rnd _ [] (inl refl)
  inject-Returns table (cls ∷ rest) =
      let later =
        Returns-mono (Injected table rest) (Injected table (cls ∷ rest)) (inject rnd table rest)
          (later_Injected table cls rest) (inject-Returns table rest) in
      Returns-if rnd _ (is_positive fl (probability fl cls table)) _ _
        (λ p.
          Returns-and_then rnd (λ x. Unit {0}) _ _ _ (Returns-draw_float rnd)
            λ x u.
              Returns-if rnd (Injected table (cls ∷ rest)) (lt x (probability fl cls table)) _ _
                (λ l. Returns-value rnd _ cls (inr (Memᴰ.head refl, p))) (λ l. later))
        (λ p. later)

  -- What a payload of a class with these ranges may be.
  pub record IsFitting (g : Generator fl) (wl wh bl bh : ℕ) (p : JobPayload) : Type 0 where
    pub work : IsWithin wl wh p.work_millis
    pub size_low : bl ≤ length p.bytes
    pub size_high : length p.bytes ≤ bh
    pub are_bytes : All (λ b. b < 256) p.bytes
    pub failure : Injected g.spec.error_injection g.err_classes p.fail_with_error
    pub unattempted : p.attempt ≡ pos 0

  -- For a class whose ranges are natural numbers in order, buildPayload never panics: its work time
  -- and its number of bytes lie in the class's ranges, its bytes are bytes, and its failure is none
  -- or a class that is injected with a positive probability.
  pub build_payload-IsFitting :
      IsBounded rnd
      → (g : Generator fl) (c : JobClass fl) {wl wh bl bh : ℕ}
      → IsRange c.work_millis_min c.work_millis_max wl wh
      → IsRange c.payload_bytes_min c.payload_bytes_max bl bh
      → Returns rnd (IsFitting g wl wh bl bh) (build_payload rnd g c)
  unfolding build_payload
  build_payload-IsFitting bounded g c {wl} {wh} {bl} {bh} times sizes =
      Returns-and_then rnd (IsWithin wl wh) _ _ _
        (drawn bounded c.work_millis_min c.work_millis_max times)
        λ work w.
          Returns-and_then rnd (IsWithin bl bh) _ _ _
            (drawn bounded c.payload_bytes_min c.payload_bytes_max sizes)
            λ size z.
              Returns-and_then rnd _ _ _ _ (draw_bytes-Returns bounded (pos_part size)) λ bytes l.
                Returns-and_then rnd _ _ _ _ (inject-Returns g.spec.error_injection g.err_classes)
                  λ failure i. Returns-value rnd _ _ (record {
                    work = w;
                    size_low = omega (arith, l.0, z.low_le, ap pos_part z.equal);
                    size_high = omega (arith, l.0, z.le_high, ap pos_part z.equal);
                    are_bytes = l.1;
                    failure = i;
                    unattempted = refl;
                  })

  -- Where every class of a mix that is not empty has ranges of natural numbers in order, and there
  -- are tenants, nextRequest never panics: the tenant is one of the pool, the kind is that of a
  -- class of the mix, and the payload fits a class of the mix, which need not be the same.
  pub next_request-in_mix :
      IsBounded rnd
      → (nil : Uuid) (g : Generator fl) → g.tenants ≢ []
      → g.spec.job_mix ≢ []
      → ((c : JobClass fl)
          → Memᴰ c g.spec.job_mix
          → (wl : ℕ) × (wh : ℕ) × (bl : ℕ) × (bh : ℕ) × IsRange c.work_millis_min c.work_millis_max
              wl wh
            × IsRange c.payload_bytes_min c.payload_bytes_max bl bh)
      → Returns rnd
          (λ req.
            Memᴰ req.tenant_id g.tenants
            × ((c : JobClass fl) × Memᴰ c g.spec.job_mix × (req.kind ≡ c.kind))
            × ((d : JobClass fl) × (wl : ℕ) × (wh : ℕ) × (bl : ℕ) × (bh : ℕ) × Memᴰ d g.spec.job_mix
                × IsRange d.work_millis_min d.work_millis_max wl wh
                × IsRange d.payload_bytes_min d.payload_bytes_max bl bh
                × IsFitting g wl wh bl bh req.payload))
          (next_request rnd nil g)
  unfolding next_request
  next_request-in_mix bounded nil g pool mix ranges =
      Returns-and_then rnd _ _ _ _ (pick_tenant-mem rnd bounded nil g pool) λ tenant t.
        Returns-and_then rnd _ _ _ _ (pick_kind-Returns rnd g mix) λ c m.
          Returns-and_then rnd _ _ _ _ (pick_kind-Returns rnd g mix) λ d k.
            let (wl, wh, bl, bh, times, sizes) = ranges d k in
            Returns-and_then rnd _ _ _ _ (build_payload-IsFitting bounded g d times sizes)
              λ payload fit.
                Returns-value rnd _ _ (t, (c, m, refl), (d, wl, wh, bl, bh, k, times, sizes, fit))
