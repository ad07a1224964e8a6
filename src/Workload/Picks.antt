-- ===== src/Workload/Picks.antt =====
-- What the generator picks, and that it never panics.
use mathlib.Core.List.{Memᴰ}
use queue_benchmark.Prelude.{
  ℕ, zero, suc, ◌+◌, ◌-◌, ◌<◌, ◌≡◌, refl, ◌≢◌, inl, inr, Bool, true, false, ◌&&◌, List, [], ◌∷◌,
  none, some, arith, pos, length, get_elem?, if◌then◌else◌, ltb, leb, Bool-cases,
}
use queue_benchmark.Queue.{Uuid}
use queue_benchmark.Analyze.Float.{Float}
use queue_benchmark.Workload.{
  Random, IsBounded, JobClass, Generator, is_positive, walk, Draw, and_then, value, draw_below,
  draw_float, pick_from, pick_other, pick_some, pick_tenant, pick_kind, no_class, zero_float,
}

module _ {fl : Float} (rnd : Random fl) where
  open fl use {F, lt, mul, add}
  open rnd use {Source}

  -- A computation that never panics, and whose answers satisfy P.
  abbrev pub Returns : {A : Type 0} → (A → Type 0) → Draw rnd A → Type 0
  Returns P m = (r : Source) → (a : _) × (r' : Source) × (m r ≡ some (a, r')) × P a

  pub Returns-and_then :
      {A B : Type 0} (P : A → Type 0) (Q : B → Type 0) (m : Draw rnd A) (f : A → Draw rnd B)
      → Returns P m
      → ((a : A) → P a → Returns Q (f a))
      → Returns Q (and_then rnd m f)
  unfolding and_then
  Returns-and_then P Q m f hm hf r = let (a, r', e, p) = hm r in rw e (hf a p r')

  pub Returns-value : {A : Type 0} (P : A → Type 0) (a : A) → P a → Returns P (value rnd a)
  Returns-value P a p r = (a, r, refl, p)

  pub Returns-if :
      {A : Type 0} (P : A → Type 0) (b : Bool) (m n : Draw rnd A)
      → (b ≡ true → Returns P m)
      → (b ≡ false → Returns P n)
      → Returns P (if b then m else n)
  Returns-if P true m n hm hn = hm refl
  Returns-if P false m n hm hn = hn refl

  pub Returns-draw_float : Returns (λ x. Unit {0}) (draw_float rnd)
  unfolding draw_float
  Returns-draw_float r = (_, _, refl, tt)

  pub Returns-draw_below :
      IsBounded rnd → (n : ℕ) → 0 < n → Returns (λ k. k < n) (draw_below rnd (pos n))
  unfolding draw_below
  Returns-draw_below bounded n h r =
      ((rnd.int_n n r).0, (rnd.int_n n r).1, ground (arith, h), bounded n r h)

  -- An index in range reads an element.
  get_elem?-Memᴰ :
      {A : Type 0} (xs : List A) (i : ℕ)
      → i < length xs
      → (t : A) × (get_elem? xs i ≡ some t) × Memᴰ t xs
  get_elem?-Memᴰ [] i h = absurd (omega arith)
  get_elem?-Memᴰ (x ∷ xs) zero h = (x, refl, Memᴰ.head refl)
  get_elem?-Memᴰ (x ∷ xs) (suc i) h =
      let (t, e, m) = get_elem?-Memᴰ xs i (omega arith) in (t, e, Memᴰ.tail m)

  read_tenant :
      (tenants : List Uuid) (i : ℕ)
      → i < length tenants
      → Returns
          (λ t. Memᴰ t tenants)
          (λ r. elim (get_elem? tenants i) [ none ↦ none | some t ↦ some (t, r) ])
  read_tenant tenants i h r = let (t, e, m) = get_elem?-Memᴰ tenants i h in (t, r, rw e refl, m)

  pick_from-Returns :
      IsBounded rnd
      → (start : ℕ) (first : Uuid) (tenants : List Uuid) → Memᴰ first tenants
      → Returns (λ t. Memᴰ t tenants) (pick_from rnd start first tenants)
  unfolding pick_from
  pick_from-Returns bounded start first tenants m = elim (Bool-cases (leb (length tenants) start)) [
    | inl e ↦ rw e (Returns-value _ first m)
    | inr e ↦ rw e (
        Returns-and_then (λ k. k < length tenants - start) _ _ _
          (Returns-draw_below bounded (length tenants - start) (ground arith))
          λ i h. read_tenant tenants (start + i) (ground arith))
  ]

  pick_other-Returns :
      IsBounded rnd
      → (g : Generator fl) (first : Uuid) → Memᴰ first g.tenants
      → Returns (λ t. Memᴰ t g.tenants) (pick_other rnd g first)
  unfolding pick_other
  pick_other-Returns bounded g first m =
      elim (Bool-cases (is_positive fl g.spec.tenant_skew && ltb 1 (length g.tenants))) [
        | inl e ↦ rw e (pick_from-Returns bounded 1 first g.tenants m)
        | inr e ↦ rw e (pick_from-Returns bounded 0 first g.tenants m)
      ]

  pick_some-Returns :
      IsBounded rnd
      → (g : Generator fl) (first : Uuid) → Memᴰ first g.tenants
      → Returns (λ t. Memᴰ t g.tenants) (pick_some rnd g first)
  unfolding pick_some
  pick_some-Returns bounded g first m =
      let other = pick_other-Returns bounded g first m in
      Returns-if _ (is_positive fl g.spec.tenant_skew) _ _
        (λ e.
          Returns-and_then (λ x. Unit {0}) _ _ _ Returns-draw_float
            λ x u.
              Returns-if _ (lt x g.spec.tenant_skew) _ _ (λ l. Returns-value _ first m)
                (λ l. other))
        (λ e. other)

  -- From a pool that is not empty, pickTenant never panics and returns one of its tenants.
  pub pick_tenant-mem :
      IsBounded rnd
      → (nil : Uuid) (g : Generator fl) → g.tenants ≢ []
      → Returns (λ t. Memᴰ t g.tenants) (pick_tenant rnd nil g)
  unfolding pick_tenant
  pick_tenant-mem bounded nil g some_left = go g.tenants refl
    where
      go :
          (tenants : List Uuid)
          → g.tenants ≡ tenants
          → Returns
              (λ t. Memᴰ t g.tenants)
              (elim tenants [ [] ↦ value rnd nil | first ∷ rest ↦ pick_some rnd g first ])
      go [] e = absurd (some_left e)
      go (first ∷ rest) e = pick_some-Returns bounded g first (rw e (Memᴰ.head refl))

  walk-Memᴰ :
      (r acc : F) (before : JobClass fl) (cs all : List (JobClass fl))
      → Memᴰ before all
      → ((c : JobClass fl) → Memᴰ c cs → Memᴰ c all)
      → Memᴰ (walk fl r acc before cs) all
  unfolding walk
  walk-Memᴰ r acc before [] all m sub = m
  walk-Memᴰ r acc before (c ∷ cs) all m sub =
      let here = sub c (Memᴰ.head refl) in
      let later = walk-Memᴰ r (add acc c.weight) c cs all here (λ d k. sub d (Memᴰ.tail k)) in
      elim (Bool-cases (lt r (add acc c.weight))) [ inl e ↦ rw e here | inr e ↦ rw e later ]

  pub pick_kind-Returns :
      (g : Generator fl)
      → g.spec.job_mix ≢ []
      → Returns (λ c. Memᴰ c g.spec.job_mix) (pick_kind rnd g)
  unfolding pick_kind
  pick_kind-Returns g some_left = go g.spec.job_mix refl
    where
      all : List (JobClass fl)
      all = g.spec.job_mix

      go :
          (mix : List (JobClass fl))
          → g.spec.job_mix ≡ mix
          → Returns
              (λ c. Memᴰ c g.spec.job_mix)
              (elim mix [
                | [] ↦ value rnd (no_class fl)
                | c ∷ cs ↦
                    if is_positive fl g.total_weight
                    then and_then rnd
                        (draw_float rnd)
                        (λ x. value rnd (walk fl (mul x g.total_weight) (zero_float fl) c (c ∷ cs)))
                    else value rnd c
              ])
      go [] e = absurd (some_left e)
      go (c ∷ cs) e =
          let here : Memᴰ c g.spec.job_mix = rw e (Memᴰ.head refl) in
          let inside : (d : JobClass fl) → Memᴰ d (c ∷ cs) → Memᴰ d g.spec.job_mix =
            λ d k. rw e k in
          Returns-if (λ d. Memᴰ d g.spec.job_mix) (is_positive fl g.total_weight) _ _
            (λ p.
              Returns-and_then (λ x. Unit {0}) (λ d. Memᴰ d g.spec.job_mix) _ _ Returns-draw_float
                λ x u.
                  Returns-value (λ d. Memᴰ d g.spec.job_mix)
                    (walk fl (mul x g.total_weight) (zero_float fl) c (c ∷ cs))
                    (walk-Memᴰ (mul x g.total_weight) (zero_float fl) c (c ∷ cs) g.spec.job_mix here
                      inside))
            (λ n. Returns-value _ c here)
