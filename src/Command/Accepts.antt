-- ===== src/Command/Accepts.antt =====
-- Which flags lead to a run.
use queue_benchmark.Prelude.{
  ℕ, ◌≡◌, ◌≢◌, ◌↔◌, ◌⊎◌, inl, inr, refl, sym, ap, ◌∙◌, true, false, [], none, Text, text_eq,
  text_eq_iff, ℤ, pos, arith, Option-cases, Bool-cases,
}
use queue_benchmark.Prelude.Int.{◌<ℤ◌}
use queue_benchmark.Queue.{Result, ok, err}
use queue_benchmark.Queue.Contract.{is_ok}
use queue_benchmark.Queue.Config.{Config, validate}
use queue_benchmark.River.Setup.{new_pool, new_pool_lem}
use queue_benchmark.Platlib.Adapter.Setup.{set_up, set_up_lem}
use queue_benchmark.Analyze.Float.{Float}
use queue_benchmark.Workload.{Spec}
use queue_benchmark.Workload.Scenarios.{spec_for}
use queue_benchmark.Platlib.Adapter as Platlib
use queue_benchmark.River
use queue_benchmark.Command.{
  Flags, AnyHarness, Connections, as_river, as_platlib, platlib_options, prepare, is_missing,
  override, make_harness, config_for, river_lib, platlib_lib, with_spec, with_harness,
}

-- A configuration of flags is valid when there is a URL and a worker.
validate-config_for :
    (f : Flags)
    → (validate (config_for f) ≡ none)
      ↔ ((text_eq f.postgres_url [] ≡ false) × (pos 0 <ℤ f.workers))
unfolding validate config_for
validate-config_for f = ground arith

-- Every constructor behind the library that the flags name succeeds.
pub data Connects (c : Connections) (f : Flags) : Type 0 where
  to_river :
      f.lib ≡ river_lib
      → c.on_river.connect ≡ none
      → c.on_river.migrator ≡ none
      → c.on_river.migrate ≡ none
      → Connects c f
  to_platlib :
      f.lib ≡ platlib_lib
      → c.on_platlib.connect ≡ none
      → c.on_platlib.schema ≡ none
      → c.on_platlib.broadcast ≡ none
      → c.on_platlib.queue ≡ none
      → Connects c f

valid_river :
    (cfg : Config) (opts : River.Options)
    → (is_ok (River.new cfg opts) ≡ true) ↔ (validate cfg ≡ none)
unfolding River.new
valid_river cfg opts = elim (Option-cases (validate cfg)) [
  | inl v ↦ ground (arith, v)
  | inr (e, v) ↦ ground (arith, v)
]

valid_platlib :
    (cfg : Config) (opts : Platlib.Options) (counter : ℕ)
    → (is_ok (Platlib.new cfg opts counter) ≡ true) ↔ (validate cfg ≡ none)
unfolding Platlib.new
valid_platlib cfg opts counter = elim (Option-cases (validate cfg)) [
  | inl v ↦ ground (arith, v)
  | inr (e, v) ↦ ground (arith, v)
]

is_ok-as_river : (r : Result River.Harness) → is_ok (as_river r) ≡ is_ok r
is_ok-as_river (ok h) = refl
is_ok-as_river (err e) = refl

is_ok-as_platlib : (r : Result Platlib.Harness) → is_ok (as_platlib r) ≡ is_ok r
is_ok-as_platlib (ok h) = refl
is_ok-as_platlib (err e) = refl

abbrev river_options : River.Options
river_options = record { router = none; fetch_cooldown = pos 0; fetch_poll_interval = pos 0 }

module _ (c : Connections) (counter : ℕ) (f : Flags) where
  abbrev river_made : Result River.Harness
  river_made = (new_pool c.on_river (config_for f) river_options).0

  abbrev platlib_made : Result Platlib.Harness
  platlib_made = (set_up c.on_platlib (config_for f) (platlib_options f) counter).0

  chose_river : text_eq f.lib river_lib ≡ true → is_ok (make_harness c counter f) ≡ is_ok river_made
  unfolding make_harness
  chose_river e = rw (e, make_harness) (is_ok-as_river river_made)

  chose_platlib :
      text_eq f.lib river_lib ≡ false
      → text_eq f.lib platlib_lib ≡ true
      → is_ok (make_harness c counter f) ≡ is_ok platlib_made
  unfolding make_harness
  chose_platlib n e = rw (n, e, make_harness) (is_ok-as_platlib platlib_made)

  chose_none :
      text_eq f.lib river_lib ≡ false
      → text_eq f.lib platlib_lib ≡ false
      → is_ok (make_harness c counter f) ≡ false
  unfolding make_harness
  chose_none n m = rw (n, m, make_harness) refl

  unnamed : (t : Text) → text_eq f.lib t ≡ false → f.lib ≢ t
  unnamed t n e = absurd (cc (n, (text_eq_iff f.lib t).1 e))

  made_ok :
      (is_ok (make_harness c counter f) ≡ true) ↔ (Connects c f × (validate (config_for f) ≡ none))
  made_ok = elim (Bool-cases (text_eq f.lib river_lib)) [
    | inl e ↦
        let lib = (text_eq_iff f.lib river_lib).0 e in
        let (same, made) = new_pool_lem c.on_river (config_for f) river_options in
        (
          λ h.
              let (valid, a, b, d) = made.0 (same ∙ sym (chose_river e) ∙ h) in
              (to_river lib a b d, (valid_river (config_for f) river_options).0 valid),
          λ (k, v). elim k [
            | to_river _ a b d ↦
                chose_river e
                ∙ sym same
                ∙ made.1 ((valid_river (config_for f) river_options).1 v, a, b, d)
            | to_platlib other _ _ _ _ ↦ absurd (cc (lib, other))
          ],
        )
    | inr n ↦ elim (Bool-cases (text_eq f.lib platlib_lib)) [
      | inl e ↦
          let lib = (text_eq_iff f.lib platlib_lib).0 e in
          let made = (set_up_lem c.on_platlib (config_for f) (platlib_options f) counter).0 in
          (
            λ h.
                let (valid, a, b, d, g) = made.0 (sym (chose_platlib n e) ∙ h) in
                (
                  to_platlib lib a b d g,
                  (valid_platlib (config_for f) (platlib_options f) counter).0 valid,
                ),
            λ (k, v). elim k [
              | to_platlib _ a b d g ↦
                  chose_platlib n e
                  ∙ made.1
                      ((valid_platlib (config_for f) (platlib_options f) counter).1 v, a, b, d, g)
              | to_river other _ _ _ ↦ absurd (unnamed river_lib n other)
            ],
          )
      | inr m ↦ (
        λ h. absurd (cc (chose_none n m, h)),
        λ (k, v). elim k [
          | to_river lib _ _ _ ↦ absurd (unnamed river_lib n lib)
          | to_platlib lib _ _ _ _ ↦ absurd (unnamed platlib_lib m lib)
        ],
      )
    ]
  ]

missing_iff :
    (f : Flags)
    → (is_missing f ≡ false) ↔ (
        (text_eq f.lib [] ≡ false)
        × (text_eq f.scenario [] ≡ false)
        × (text_eq f.postgres_url [] ≡ false))
unfolding is_missing
missing_iff f = ground arith

filled_iff : (t : Text) → (text_eq t [] ≡ false) ↔ (t ≢ [])
filled_iff t = ground (arith, text_eq_iff t [])

filled_lib : (f : Flags) → (f.lib ≡ river_lib) ⊎ (f.lib ≡ platlib_lib) → text_eq f.lib [] ≡ false
unfolding text_eq
filled_lib f (inl e) = ap (λ t. text_eq t []) e
filled_lib f (inr e) = ap (λ t. text_eq t []) e

Connects-lib : {c : Connections} {f : Flags} → Connects c f → text_eq f.lib [] ≡ false
Connects-lib {f = f} (to_river e _ _ _) = filled_lib f (inl e)
Connects-lib {f = f} (to_platlib e _ _ _ _) = filled_lib f (inr e)

module _ (fl : Float) where
  with_harness-ok :
      (f : Flags) (unix : ℤ) (spec : Spec fl) (r : Result AnyHarness)
      → is_ok (with_harness fl f unix spec r) ≡ is_ok r
  with_harness-ok f unix spec (ok h) = refl
  with_harness-ok f unix spec (err e) = refl

  with_spec-ok :
      (c : Connections) (counter : ℕ) (unix : ℤ) (f : Flags) (r : Result (Spec fl))
      → (is_ok (with_spec fl c counter unix f r) ≡ true)
        ↔ ((is_ok r ≡ true) × (is_ok (make_harness c counter f) ≡ true))
  with_spec-ok c counter unix f (err e) = ground arith
  with_spec-ok c counter unix f (ok spec) =
      ground (arith, with_harness-ok f unix (override fl f spec) (make_harness c counter f))

  prepare-ok :
      (c : Connections) (counter : ℕ) (unix : ℤ) (f : Flags)
      → (is_ok (prepare fl c counter unix f) ≡ true) ↔ (
          (is_missing f ≡ false)
          × (is_ok (with_spec fl c counter unix f (spec_for fl f.scenario)) ≡ true))
  unfolding prepare
  prepare-ok c counter unix f = ground arith

  -- No scenario has an empty name.
  nameless : is_ok (spec_for fl []) ≡ false
  unfolding spec_for text_eq
  nameless = refl

  named : (t : Text) → is_ok (spec_for fl t) ≡ true → text_eq t [] ≡ false
  named t known =
      (filled_iff t).1
        λ e. absurd (cc (known, ap (λ (x : Text). is_ok (spec_for fl x)) e, nameless))

  -- `bench run` gets as far as the recorder exactly when the library is river or platlib, every
  -- constructor that its adapter calls succeeds, the scenario is one that SpecFor knows, a Postgres URL
  -- is given, and there is at least one worker. For river these are the pool, the migrator and the
  -- migrations; for platlib the pool, the schema, the broadcaster and the queue.
  pub prepare_iff :
      (c : Connections) (counter : ℕ) (unix : ℤ) (f : Flags)
      → (is_ok (prepare fl c counter unix f) ≡ true) ↔ (
          Connects c f
          × (is_ok (spec_for fl f.scenario) ≡ true)
          × (f.postgres_url ≢ [])
          × (pos 0 <ℤ f.workers))
  prepare_iff c counter unix f = (
    λ h.
        let (m, p) = (prepare-ok c counter unix f).0 h in
        let (known, made) = (with_spec-ok c counter unix f (spec_for fl f.scenario)).0 p in
        let (connects, valid) = (made_ok c counter f).0 made in
        let (url, workers) = (validate-config_for f).0 valid in
        (connects, known, (filled_iff f.postgres_url).0 url, workers),
    λ (connects, known, url, workers).
        let given = (filled_iff f.postgres_url).1 url in
        (prepare-ok c counter unix f).1 (
          (missing_iff f).1 (Connects-lib connects, named f.scenario known, given),
          (with_spec-ok c counter unix f (spec_for fl f.scenario)).1 (
            known,
            (made_ok c counter f).1 (connects, (validate-config_for f).1 (given, workers)),
          ),
        ),
  )
