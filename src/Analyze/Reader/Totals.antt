-- ===== src/Analyze/Reader/Totals.antt =====
-- The totals of a log that the reader accepts.
use queue_benchmark.Prelude.{
  ◌+◌, ◌<◌, ◌≡◌, refl, ap, ◌∙◌, ◌⊎◌, inl, inr, Bool, true, false, List, [], ◌∷◌, map, Option, none,
  some, Text, text_eq, text_eq_iff, if◌then◌else◌, count_if, Bool-cases, arith,
}
use queue_benchmark.Prelude.Dict.{Dict, lookup, get_or_zero}
use queue_benchmark.Queue.{Outcome}
use queue_benchmark.Analyze.Float.{Float}
use queue_benchmark.Metrics.{Event, kind_job_enqueued, kind_job_completed}
use queue_benchmark.Analyze.Reader.{Scan, Counts, TenantStats, RunSummary, empty_scan}
use queue_benchmark.Analyze.Reader.Handlers.{on_event, count_enqueued}
use queue_benchmark.Analyze.Reader.Loop.{read_lines, finish, end_read, analyze_reader, tenant_stats}
use queue_benchmark.Analyze.Reader.Tallies.{
  other_text, enqueues, completes, fails_as, tally, failures, handled, counts-handled,
  failures-handled,
}

module _ (fl : Float) where
  open fl use {F}

  -- The handlers of some events, one behind the other.
  unfoldable pub run_events : List (Event fl) → Scan fl → Scan fl
  run_events [] st = st
  run_events (ev ∷ evs) st = run_events evs (on_event fl ev st)

  -- Lines that all decode are handled one by one.
  pub read_lines-run_events :
      (decode : Text → Option (Event fl)) (filename : Text) (lines : List Text)
      (evs : List (Event fl)) (st : Scan fl)
      → map decode lines ≡ map some evs
      → read_lines fl decode filename lines st ≡ (run_events evs st, none)
  unfolding read_lines run_events
  read_lines-run_events decode filename [] [] st e = refl
  read_lines-run_events decode filename [] (ev ∷ evs) st e = absurd (cc e)
  read_lines-run_events decode filename (l ∷ lines) [] st e = absurd (cc e)
  read_lines-run_events decode filename (l ∷ lines) (ev ∷ evs) st e =
      let here : decode l ≡ some ev = cc e in
      let rest : map decode lines ≡ map some evs = cc e in
      ground (arith, here, read_lines-run_events decode filename lines evs (on_event fl ev st) rest)

  -- The reader on such lines.
  pub analyze-run_events :
      (decode : Text → Option (Event fl)) (filename : Text) (lines : List Text)
      (evs : List (Event fl)) (scan_error : Outcome)
      → map decode lines ≡ map some evs
      → analyze_reader fl decode filename lines scan_error
        ≡ finish fl scan_error (run_events evs (empty_scan fl))
  unfolding analyze_reader end_read
  analyze-run_events decode filename lines evs scan_error e =
      ap (end_read fl scan_error)
        (read_lines-run_events decode filename lines evs (empty_scan fl) e)

  -- What some events do to one tenant's counts.
  unfoldable tallies : Text → List (Event fl) → Option (Counts fl) → Option (Counts fl)
  tallies t [] o = o
  tallies t (ev ∷ evs) o = tallies t evs (tally fl t ev o)

  counts-run_events :
      (t : Text) (evs : List (Event fl)) (st : Scan fl)
      → lookup t (run_events evs st).per_tenant_counts
        ≡ tallies t evs (lookup t st.per_tenant_counts)
  unfolding run_events tallies
  counts-run_events t [] st = refl
  counts-run_events t (ev ∷ evs) st =
      counts-run_events t evs (on_event fl ev st)
      ∙ ap (tallies t evs) (counts-handled fl t ev st _ (handled fl ev st))

  pub failures-run_events :
      (class : Text) (evs : List (Event fl)) (st : Scan fl)
      → failures fl class (run_events evs st)
        ≡ count_if (fails_as fl class) evs + failures fl class st
  unfolding run_events count_if
  failures-run_events class [] st = omega arith
  failures-run_events class (ev ∷ evs) st = omega (
    arith,
    failures-run_events class evs (on_event fl ev st),
    failures-handled fl class ev st _ (handled fl ev st),
  )

  -- An event does not both enqueue and complete.
  not_both : (t : Text) (ev : Event fl) → enqueues fl t ev ≡ true → completes fl t ev ≡ false
  unfolding text_eq
  not_both t ev e = ground (arith, e, other_text ev.kind kind_job_enqueued kind_job_completed refl)

  -- A step of the tally on a tenant that has counts.
  tally-some :
      (t : Text) (ev : Event fl) (c : Counts fl)
      → tally fl t ev (some c)
        ≡ some (record {
          enqueued = (if enqueues fl t ev then 1 else 0) + c.enqueued;
          completed = (if completes fl t ev then 1 else 0) + c.completed;
        })
  unfolding tally count_enqueued
  tally-some t ev c = grind (arith, not_both t ev)

  tallies-some :
      (t : Text) (evs : List (Event fl)) (c : Counts fl)
      → tallies t evs (some c)
        ≡ some (record {
          enqueued = count_if (enqueues fl t) evs + c.enqueued;
          completed = count_if (completes fl t) evs + c.completed;
        })
  unfolding tallies count_if
  tallies-some t [] c = grind arith
  tallies-some t (ev ∷ evs) c =
      let next : Counts fl = record {
        enqueued = (if enqueues fl t ev then 1 else 0) + c.enqueued;
        completed = (if completes fl t ev then 1 else 0) + c.completed;
      } in
      ap (tallies t evs) (tally-some t ev c) ∙ tallies-some t evs next ∙ grind arith

  -- The events behind the first that passes a test.
  unfoldable pub behind_first : (Event fl → Bool) → List (Event fl) → List (Event fl)
  behind_first test [] = []
  behind_first test (ev ∷ evs) = let later = behind_first test evs in if test ev then evs else later

  tallies-none :
      (t : Text) (evs : List (Event fl))
      → ((count_if (enqueues fl t) evs ≡ 0) × (tallies t evs none ≡ none))
        ⊎ ((c : Counts fl) × (tallies t evs none ≡ some c)
            × (0 < c.enqueued)
            × (c.enqueued ≡ count_if (enqueues fl t) evs)
            × (c.completed ≡ count_if (completes fl t) (behind_first (enqueues fl t) evs)))
  unfolding tallies tally count_if count_enqueued behind_first
  tallies-none t [] = inl (refl, refl)
  tallies-none t (ev ∷ evs) = elim (Bool-cases (enqueues fl t ev)) [
    | inl e ↦ inr (
      record {
        enqueued = count_if (enqueues fl t) evs + 1;
        completed = count_if (completes fl t) evs + 0;
      },
      rw e (tallies-some t evs (record { enqueued = 1; completed = 0 })),
      omega arith,
      ground (arith, e),
      ground arith,
    )
    | inr e ↦ ground (arith, e, tallies-none t evs)
  ]

  lookup-tenant_stats :
      (t : Text) (pickups : Dict (List F)) (d : Dict (Counts fl))
      → ((lookup t d ≡ none) × (lookup t (map (tenant_stats fl pickups) d) ≡ none))
        ⊎ ((c : Counts fl) × (lookup t d ≡ some c)
            × (lookup t (map (tenant_stats fl pickups) d)
                ≡ some (tenant_stats fl pickups (t, c)).1))
  unfolding lookup tenant_stats
  lookup-tenant_stats t pickups [] = inl (refl, refl)
  lookup-tenant_stats t pickups ((k, c) ∷ rest) = elim (Bool-cases (text_eq k t)) [
    | inl e ↦ let same : k ≡ t = (text_eq_iff k t).0 e in inr (c, rw e refl, rw e (rw same refl))
    | inr e ↦ rw e (lookup-tenant_stats t pickups rest)
  ]

  -- The counts of a tenant in a summary.
  abbrev pub Counted : List (Event fl) → Text → RunSummary fl → Type 0
  Counted evs t s =
      ((count_if (enqueues fl t) evs ≡ 0) × (lookup t s.per_tenant ≡ none))
      ⊎ ((ts : TenantStats fl) × (lookup t s.per_tenant ≡ some ts)
          × (ts.enqueued ≡ count_if (enqueues fl t) evs)
          × (ts.completed ≡ count_if (completes fl t) (behind_first (enqueues fl t) evs)))

  -- What an accepted scan passes on to the summary.
  pub finish_kept :
      (st : Scan fl)
      → (finish fl none st).1 ≡ none
      → ((finish fl none st).0.per_tenant
          ≡ map (tenant_stats fl st.per_tenant_pickup) st.per_tenant_counts)
        × ((finish fl none st).0.errors ≡ st.summary.errors)
        × ((finish fl none st).0.enqueued ≡ st.summary.enqueued)
        × ((finish fl none st).0.completed ≡ st.summary.completed)
        × ((finish fl none st).0.failed ≡ st.summary.failed)
  unfolding finish
  finish_kept st h = ground (arith, h)

  finish-Counted :
      (evs : List (Event fl)) (t : Text) (s : RunSummary fl) (st : Scan fl)
      → s.per_tenant ≡ map (tenant_stats fl st.per_tenant_pickup) st.per_tenant_counts
      → lookup t st.per_tenant_counts ≡ tallies t evs none
      → Counted evs t s
  unfolding tenant_stats
  finish-Counted evs t s st e f =
      elim (lookup-tenant_stats t st.per_tenant_pickup st.per_tenant_counts) [
        | inl (none_there, none_kept) ↦ elim (tallies-none t evs) [
          | inl (zero_times, g) ↦ inl (zero_times, ap (lookup t) e ∙ none_kept)
          | inr (c, g, p, q, r) ↦ absurd (cc (none_there, f, g))
        ]
        | inr (d, there, kept) ↦ elim (tallies-none t evs) [
          | inl (zero_times, g) ↦ absurd (cc (there, f, g))
          | inr (c, g, p, q, r) ↦
              let same : d ≡ c = cc (there, f, g) in
              inr
                (_, ap (lookup t) e ∙ kept, ap (λ (x : Counts fl). x.enqueued) same ∙ q, rw same r)
        ]
      ]

  -- Of a log whose lines decode to some events, and that the reader accepts: a tenant has an entry
  -- exactly when a job of it was enqueued; the entry counts each of these events once, and the
  -- events of its completed jobs behind the first of them. The number of failures of a class is
  -- the number of the events of jobs that failed with it.
  pub reader_counts :
      (decode : Text → Option (Event fl)) (filename : Text) (lines : List Text)
      (evs : List (Event fl)) (tenant class : Text)
      → map decode lines ≡ map some evs
      → (analyze_reader fl decode filename lines none).1 ≡ none
      → let s = (analyze_reader fl decode filename lines none).0 in
        (((count_if (enqueues fl tenant) evs ≡ 0) × (lookup tenant s.per_tenant ≡ none))
          ⊎ ((ts : TenantStats fl) × (lookup tenant s.per_tenant ≡ some ts)
              × (ts.enqueued ≡ count_if (enqueues fl tenant) evs)
              × (ts.completed
                  ≡ count_if (completes fl tenant) (behind_first (enqueues fl tenant) evs))))
        × (get_or_zero 0 (lookup class s.errors) ≡ count_if (fails_as fl class) evs)
  reader_counts decode filename lines evs tenant class e h =
      let read = analyze-run_events decode filename lines evs none e in
      let kept = finish_kept (run_events evs (empty_scan fl)) (rw read at h) in
      rw read (
        finish-Counted evs tenant (finish fl none (run_events evs (empty_scan fl))).0
            (run_events evs (empty_scan fl)) kept.0
            (counts-run_events tenant evs (empty_scan fl) ∙ unfold empty_scan lookup in refl),
        ap (λ d. get_or_zero 0 (lookup class d)) kept.1
            ∙ failures-run_events class evs (empty_scan fl)
            ∙ unfold empty_scan lookup in omega arith,
      )
