-- ===== src/Command/Main.antt =====
-- `main` of cmd/bench/main.go: the subcommands, the usage text and the exit codes. What a subcommand
-- does with its arguments is given: the flag package, with ExitOnError, may end the process, and so
-- may a panic.
use mathlib.Core.Path.{subst}
use queue_benchmark.Prelude.{
  ℕ, ◌≡◌, ◌≢◌, ◌↔◌, inl, inr, refl, ap, ◌∙◌, Bool, true, false, ◌||◌, List, [], ◌∷◌, ◌++◌, none,
  some, Text, bytes, text_eq, text_eq_iff, Bool-cases, if◌then◌else◌,
}
use queue_benchmark.Queue.{Error, Outcome}
use queue_benchmark.Analyze.Tables.{newline}

-- How the process ends: its exit code, and what is on stderr.
pub record Exit : Type 0 where
  pub exit_code : ℕ
  pub stderr : Text

abbrev pub line : Text → Text
line t = t ++ newline

-- `usage`; the three bytes are a dash.
unfoldable pub usage : Text
usage =
    line (bytes "bench " ++ 226 ∷ 128 ∷ 148 ∷ bytes " queue-benchmark CLI")
    ++ newline
    ++ line (bytes "Usage:")
    ++ line (
        bytes "  bench run    --lib=<river|platlib> --scenario=<name> --postgres-url=<url> [flags]")
    ++ line (bytes "  bench report --results-dir=<path>                            (Phase 4)")
    ++ newline
    ++ line (bytes "Scenarios: steady, burst, noisy_neighbor, rate_limit_pressure, notify_latency")
    ++ newline
    ++ line (bytes "Flags for run:")
    ++ line (bytes "  --lib              river | platlib")
    ++ line (bytes "  --scenario         built-in scenario name")
    ++ line (bytes "  --postgres-url     Postgres connection URL")
    ++ line (bytes "  --results-dir      output dir for JSONL results (default ./results)")
    ++ line (bytes "  --workers          harness worker count (default 10)")
    ++ line (bytes "  --addressed-push   platform-lib only: use AddressedPush instead of Push")
    ++ newline

abbrev pub is_help : Text → Bool
is_help name =
    text_eq name (bytes "-h") || (text_eq name (bytes "--help") || text_eq name (bytes "help"))

-- How a subcommand ends: it returns; `fs.Parse` finds a call for help or a flag that it refuses, and
-- ends the process with 0 or 2; or the process panics, which ends it with 2. The texts are what the
-- flag package or the runtime writes.
pub data Ending : Type 0 where
  ended : Outcome → Ending
  help_flag refused_flag crashed : (written : Text) → Ending

-- The exit code of each end of a subcommand.
pub data Codes : Ending → ℕ → Type 0 where
  succeeded : Codes (ended none) 0
  failed : (e : Error) → Codes (ended (some e)) 1
  asked : (t : Text) → Codes (help_flag t) 0
  refused : (t : Text) → Codes (refused_flag t) 2
  panicked : (t : Text) → Codes (crashed t) 2

-- What decides the exit code: a subcommand's end, a call for help, no argument, or a subcommand that
-- is not known.
pub data Decides (run report : List Text → Ending) : List Text → ℕ → Type 0 where
  no_argument : Decides run report [] 2
  by_help :
      (name : Text) (args : List Text) → is_help name ≡ true → Decides run report (name ∷ args) 0
  unknown :
      (name : Text) (args : List Text)
      → name ≢ bytes "run"
      → name ≢ bytes "report"
      → is_help name ≡ false
      → Decides run report (name ∷ args) 2
  by_run :
      (name : Text) (args : List Text) (n : ℕ)
      → name ≡ bytes "run"
      → Codes (run args) n
      → Decides run report (name ∷ args) n
  by_report :
      (name : Text) (args : List Text) (n : ℕ)
      → name ≡ bytes "report"
      → Codes (report args) n
      → Decides run report (name ∷ args) n

-- `Error` of an error, and `%q` of a text.
module _ (error_text : Error → Text) (quoted : Text → Text) where
  unfoldable pub after_command : Ending → Exit
  after_command (ended none) = record { exit_code = 0; stderr = [] }
  after_command (ended (some e)) = record { exit_code = 1; stderr = line (error_text e) }
  after_command (help_flag written) = record { exit_code = 0; stderr = written }
  after_command (refused_flag written) = record { exit_code = 2; stderr = written }
  after_command (crashed written) = record { exit_code = 2; stderr = written }

  -- `main`, on the arguments behind the program's name.
  unfoldable pub main : (run report : List Text → Ending) → List Text → Exit
  unfolding usage text_eq after_command
  main run report [] = record { exit_code = 2; stderr = usage }
  main run report (name ∷ args) =
      if text_eq name (bytes "run")
      then after_command (run args)
      else if text_eq name (bytes "report")
      then after_command (report args)
      else if is_help name
      then record { exit_code = 0; stderr = usage }
      else record {
        exit_code = 2;
        stderr = line (bytes "unknown subcommand " ++ quoted name) ++ usage;
      }

  Codes-after : (x : Ending) → Codes x (after_command x).exit_code
  unfolding after_command
  Codes-after (ended none) = succeeded
  Codes-after (ended (some e)) = failed e
  Codes-after (help_flag t) = asked t
  Codes-after (refused_flag t) = refused t
  Codes-after (crashed t) = panicked t

  after-Codes : {x : Ending} {n : ℕ} → Codes x n → (after_command x).exit_code ≡ n
  unfolding after_command
  after-Codes succeeded = refl
  after-Codes (failed e) = refl
  after-Codes (asked t) = refl
  after-Codes (refused t) = refl
  after-Codes (panicked t) = refl

  differs : (s t : Text) → text_eq s t ≡ false → s ≢ t
  differs s t e same = absurd (cc (e, (text_eq_iff s t).1 same))

  module _ (run report : List Text → Ending) where
    decided : (args : List Text) → Decides run report args (main run report args).exit_code
    unfolding main
    decided [] = no_argument
    decided (name ∷ args) = elim (Bool-cases (text_eq name (bytes "run"))) [
      | inl e ↦
          rw (e, main)
            (by_run name args _ ((text_eq_iff name (bytes "run")).0 e) (Codes-after (run args)))
      | inr e ↦ elim (Bool-cases (text_eq name (bytes "report"))) [
        | inl f ↦
            rw (e, f, main)
              (by_report name args _ ((text_eq_iff name (bytes "report")).0 f)
                (Codes-after (report args)))
        | inr f ↦ elim (Bool-cases (is_help name)) [
          | inl g ↦ rw (e, f, g, main) (by_help name args g)
          | inr g ↦
              rw (e, f, g, main)
                (unknown name args (differs name (bytes "run") e) (differs name (bytes "report") f)
                  g)
        ]
      ]
    ]

    -- A call for help is none of the subcommands.
    helps : (name t : Text) → is_help name ≡ true → is_help t ≡ false → text_eq name t ≡ false
    helps name t h n = elim (Bool-cases (text_eq name t)) [
      | inl e ↦
          let same = ap (λ (x : Text). is_help x) ((text_eq_iff name t).0 e) in
          absurd (cc (same, h, n))
      | inr e ↦ e
    ]

    other : (name t : Text) → name ≢ t → text_eq name t ≡ false
    other name t n = elim (Bool-cases (text_eq name t)) [
      | inl e ↦ absurd (n ((text_eq_iff name t).0 e))
      | inr e ↦ e
    ]

    no_help : (is_help (bytes "run") ≡ false) × (is_help (bytes "report") ≡ false)
    unfolding text_eq
    no_help = (refl, refl)

    exits :
        {args : List Text} {n : ℕ}
        → Decides run report args n
        → (main run report args).exit_code ≡ n
    unfolding main text_eq
    exits no_argument = refl
    exits (by_help name args h) =
        rw (helps name (bytes "run") h no_help.0, helps name (bytes "report") h no_help.1, h, main)
          refl
    exits (unknown name args a b h) =
        rw (other name (bytes "run") a, other name (bytes "report") b, h, main) refl
    exits (by_run name args n e c) =
        ap (λ (x : Text). (main run report (x ∷ args)).exit_code) e ∙ after-Codes c
    exits (by_report name args n e c) =
        ap (λ (x : Text). (main run report (x ∷ args)).exit_code) e ∙ after-Codes c

    -- The exit code of the program is 2 without arguments, for a subcommand that it does not know, for
    -- a flag that is refused and for a panic; 0 for a call for help, of the program or of a subcommand,
    -- and for a subcommand that returns no error; and 1 for one that returns an error.
    pub main_exit :
        (args : List Text) (n : ℕ)
        → ((main run report args).exit_code ≡ n) ↔ Decides run report args n
    main_exit args n = (λ e. subst (Decides run report args) e (decided args), exits)
