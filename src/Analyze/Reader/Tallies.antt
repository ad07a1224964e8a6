-- ===== src/Analyze/Reader/Tallies.antt =====
-- Which events the reader counts, and that it counts each of them once.
use queue_benchmark.Prelude.{
  ℕ, suc, ◌+◌, ◌≡◌, refl, sym, ap, ◌∙◌, inl, inr, Bool, true, false, ◌&&◌, Option, none, some, Text,
  text_eq, text_eq_iff, bytes, if◌then◌else◌, Bool-cases, Option-cases, arith,
}
use queue_benchmark.Prelude.Dict.{Dict, lookup, get_or_zero, lookup-put}
use queue_benchmark.Analyze.Float.{Float}
use queue_benchmark.Metrics.{
  Event, kind_run_start, kind_run_end, kind_job_enqueued, kind_job_started, kind_job_completed,
  kind_job_failed, kind_resource_sample,
}
use queue_benchmark.Analyze.Reader.{Scan, Counts, RunSummary, text_of}
use queue_benchmark.Analyze.Reader.Handlers.{
  failure_class, on_event, on_run_start, on_run_end, on_enqueued, on_started, on_completed,
  on_failed, on_sample, count_enqueued, count_completed,
}

-- A text is equal to one of two different texts only.
pub other_text : (k a b : Text) → text_eq a b ≡ false → text_eq k a ≡ true → text_eq k b ≡ false
other_text k a b n h = elim (Bool-cases (text_eq k b)) [
  | inr e ↦ e
  | inl e ↦ absurd (cc (n, (text_eq_iff k a).0 h, (text_eq_iff k b).0 e))
]

module _ (fl : Float) where
  -- The events that count for a tenant, and those of a class of failure.
  abbrev pub enqueues : Text → Event fl → Bool
  enqueues tenant ev =
      text_eq ev.kind kind_job_enqueued && text_eq (text_of fl (bytes "tenant_id") ev.fields) tenant

  abbrev pub completes : Text → Event fl → Bool
  completes tenant ev =
      text_eq ev.kind kind_job_completed
      && text_eq (text_of fl (bytes "tenant_id") ev.fields) tenant

  abbrev pub fails_as : Text → Event fl → Bool
  fails_as class ev = text_eq ev.kind kind_job_failed && text_eq (failure_class fl ev.fields) class

  -- The handler that an event reaches, with the tests that lead there.
  pub data Handled (ev : Event fl) (st : Scan fl) : Scan fl → Type 0 where
    run_began : text_eq ev.kind kind_run_start ≡ true → Handled ev st (on_run_start fl ev st)
    run_ended : text_eq ev.kind kind_run_end ≡ true → Handled ev st (on_run_end fl ev st)
    enqueued : text_eq ev.kind kind_job_enqueued ≡ true → Handled ev st (on_enqueued fl ev st)
    started : text_eq ev.kind kind_job_started ≡ true → Handled ev st (on_started fl ev st)
    completed : text_eq ev.kind kind_job_completed ≡ true → Handled ev st (on_completed fl ev st)
    failed : text_eq ev.kind kind_job_failed ≡ true → Handled ev st (on_failed fl ev st)
    sampled : text_eq ev.kind kind_resource_sample ≡ true → Handled ev st (on_sample fl ev st)
    passed :
        text_eq ev.kind kind_run_start ≡ false
        → text_eq ev.kind kind_run_end ≡ false
        → text_eq ev.kind kind_job_enqueued ≡ false
        → text_eq ev.kind kind_job_completed ≡ false
        → text_eq ev.kind kind_job_failed ≡ false
        → Handled ev st st

  handled-if :
      (ev : Event fl) (st a b : Scan fl) (k : Text)
      → (text_eq ev.kind k ≡ true → Handled ev st a)
      → (text_eq ev.kind k ≡ false → Handled ev st b)
      → Handled ev st (if text_eq ev.kind k then a else b)
  handled-if ev st a b k then_a then_b = elim (Bool-cases (text_eq ev.kind k)) [
    | inl e ↦ rw e (then_a e)
    | inr e ↦ rw e (then_b e)
  ]

  pub handled : (ev : Event fl) (st : Scan fl) → Handled ev st (on_event fl ev st)
  unfolding on_event
  handled ev st = handled-if ev st _ _ kind_run_start run_began λ a.
      handled-if ev st _ _ kind_run_end run_ended λ b.
        handled-if ev st _ _ kind_job_enqueued enqueued λ c.
          handled-if ev st _ _ kind_job_started started λ d.
            handled-if ev st _ _ kind_job_completed completed λ e.
              handled-if ev st _ _ kind_job_failed failed
                λ f. handled-if ev st _ _ kind_resource_sample sampled λ g. passed a b c e f

  -- What an event does to one tenant's counts.
  unfoldable pub tally : Text → Event fl → Option (Counts fl) → Option (Counts fl)
  tally tenant ev o =
      if enqueues tenant ev
      then some (count_enqueued fl o)
      else if completes tenant ev
      then elim o [ none ↦ none | some c ↦ some (record c { completed = suc c.completed }) ]
      else o

  lookup-count_completed :
      (tenant t : Text) (d : Dict (Counts fl))
      → lookup t (count_completed fl tenant (lookup tenant d) d) ≡ (
          if text_eq tenant t
          then elim (lookup t d) [
            | none ↦ none
            | some c ↦ some (record c { completed = suc c.completed })
          ]
          else lookup t d)
  unfolding count_completed
  lookup-count_completed tenant t d = elim (Option-cases (lookup tenant d)) [
    | inl e ↦ ground (arith, e, text_eq_iff tenant t)
    | inr (c, e) ↦ ground (
      arith,
      e,
      text_eq_iff tenant t,
      lookup-put tenant t (record c { completed = suc c.completed }) d,
    )
  ]

  counts-on_started :
      (ev : Event fl) (st : Scan fl)
      → (on_started fl ev st).per_tenant_counts ≡ st.per_tenant_counts
  unfolding on_started
  counts-on_started ev st = ground arith

  counts-on_completed :
      (ev : Event fl) (st : Scan fl)
      → (on_completed fl ev st).per_tenant_counts
        ≡ count_completed fl
            (text_of fl (bytes "tenant_id") ev.fields)
            (lookup (text_of fl (bytes "tenant_id") ev.fields) st.per_tenant_counts)
            st.per_tenant_counts
  unfolding on_completed
  counts-on_completed ev st = ground arith

  -- A text that equals one kind equals no other kind.
  tally-of :
      (t : Text) (ev : Event fl) (k : Text) (o : Option (Counts fl))
      → text_eq k kind_job_enqueued ≡ false
      → text_eq k kind_job_completed ≡ false
      → text_eq ev.kind k ≡ true
      → tally t ev o ≡ o
  unfolding tally
  tally-of t ev k o a b e =
      rw (other_text ev.kind k kind_job_enqueued a e, other_text ev.kind k kind_job_completed b e)
        refl

  counts-on_enqueued :
      (t : Text) (ev : Event fl) (st : Scan fl)
      → text_eq ev.kind kind_job_enqueued ≡ true
      → lookup t (on_enqueued fl ev st).per_tenant_counts
        ≡ tally t ev (lookup t st.per_tenant_counts)
  unfolding on_enqueued tally
  counts-on_enqueued t ev st e =
      let tenant = text_of fl (bytes "tenant_id") ev.fields in
      ground (
        arith,
        e,
        text_eq_iff tenant t,
        lookup-put tenant t (count_enqueued fl (lookup tenant st.per_tenant_counts))
            st.per_tenant_counts,
      )

  tally-completed :
      (t : Text) (ev : Event fl) (o : Option (Counts fl))
      → text_eq ev.kind kind_job_completed ≡ true
      → tally t ev o ≡ (
          if text_eq (text_of fl (bytes "tenant_id") ev.fields) t
          then elim o [ none ↦ none | some c ↦ some (record c { completed = suc c.completed }) ]
          else o)
  unfolding tally text_eq
  tally-completed t ev o e =
      rw (other_text ev.kind kind_job_completed kind_job_enqueued refl e, e) refl

  -- Each event does to each tenant's counts what the tally does.
  pub counts-handled :
      (t : Text) (ev : Event fl) (st st' : Scan fl)
      → Handled ev st st'
      → lookup t st'.per_tenant_counts ≡ tally t ev (lookup t st.per_tenant_counts)
  unfolding text_eq
  counts-handled t ev st _ (run_began e) =
      unfold on_run_start in sym (tally-of t ev kind_run_start _ refl refl e)
  counts-handled t ev st _ (run_ended e) =
      unfold on_run_end in sym (tally-of t ev kind_run_end _ refl refl e)
  counts-handled t ev st _ (enqueued e) = counts-on_enqueued t ev st e
  counts-handled t ev st _ (started e) =
      ap (lookup t) (counts-on_started ev st) ∙ sym (tally-of t ev kind_job_started _ refl refl e)
  counts-handled t ev st _ (completed e) =
      ap (lookup t) (counts-on_completed ev st)
      ∙ lookup-count_completed (text_of fl (bytes "tenant_id") ev.fields) t st.per_tenant_counts
      ∙ sym (tally-completed t ev (lookup t st.per_tenant_counts) e)
  counts-handled t ev st _ (failed e) =
      unfold on_failed in sym (tally-of t ev kind_job_failed _ refl refl e)
  counts-handled t ev st _ (sampled e) =
      unfold on_sample in sym (tally-of t ev kind_resource_sample _ refl refl e)
  counts-handled t ev st _ (passed m n a b c) = unfold tally in sym (rw (a, b) refl)

  pub summary-on_started :
      (ev : Event fl) (st : Scan fl) → (on_started fl ev st).summary ≡ st.summary
  unfolding on_started
  summary-on_started ev st = ground arith

  pub summary-on_completed :
      (ev : Event fl) (st : Scan fl) → (on_completed fl ev st).summary ≡ st.summary
  unfolding on_completed
  summary-on_completed ev st = ground arith

  -- How often a class was counted.
  abbrev pub failures : Text → Scan fl → ℕ
  failures class st = get_or_zero 0 (lookup class st.summary.errors)

  failures-other :
      (class : Text) (ev : Event fl) (st : Scan fl) (k : Text)
      → text_eq k kind_job_failed ≡ false
      → text_eq ev.kind k ≡ true
      → failures class st ≡ (if fails_as class ev then 1 else 0) + failures class st
  failures-other class ev st k n e = ground (arith, other_text ev.kind k kind_job_failed n e)

  failures-on_failed :
      (class : Text) (ev : Event fl) (st : Scan fl)
      → text_eq ev.kind kind_job_failed ≡ true
      → failures class (on_failed fl ev st)
        ≡ (if fails_as class ev then 1 else 0) + failures class st
  unfolding on_failed
  failures-on_failed class ev st e =
      let mine = failure_class fl ev.fields in
      ground (
        arith,
        e,
        text_eq_iff mine class,
        lookup-put mine class (suc (get_or_zero 0 (lookup mine st.summary.errors)))
            st.summary.errors,
      )

  -- An event adds one to its class of failure, and nothing else.
  pub failures-handled :
      (class : Text) (ev : Event fl) (st st' : Scan fl)
      → Handled ev st st'
      → failures class st' ≡ (if fails_as class ev then 1 else 0) + failures class st
  unfolding text_eq
  failures-handled class ev st _ (run_began e) =
      unfold on_run_start in failures-other class ev st kind_run_start refl e
  failures-handled class ev st _ (run_ended e) =
      unfold on_run_end in failures-other class ev st kind_run_end refl e
  failures-handled class ev st _ (enqueued e) =
      unfold on_enqueued in failures-other class ev st kind_job_enqueued refl e
  failures-handled class ev st _ (started e) =
      ap (λ (d : RunSummary fl). get_or_zero 0 (lookup class d.errors)) (summary-on_started ev st)
      ∙ failures-other class ev st kind_job_started refl e
  failures-handled class ev st _ (completed e) =
      ap (λ (d : RunSummary fl). get_or_zero 0 (lookup class d.errors)) (summary-on_completed ev st)
      ∙ failures-other class ev st kind_job_completed refl e
  failures-handled class ev st _ (failed e) = failures-on_failed class ev st e
  failures-handled class ev st _ (sampled e) =
      unfold on_sample in failures-other class ev st kind_resource_sample refl e
  failures-handled class ev st _ (passed m n a b c) = ground (arith, c)
