-- ===== src/Platlib/Adapter/Retry/Delays.antt =====
-- The goroutines of delayed retries in internal/queue/platlib/adapter.go, and the Stop that waits
-- for them: `benchRunner.Run` starts them, its runs and theirs interleave with the steps of Stop.
use queue_benchmark.Prelude.{
  ℕ, suc, ◌+◌, ◌-◌, ◌≤◌, ◌≡◌, refl, Bool, true, false, List, [], ◌∷◌, ◌++◌, none, some, arith, Text,
  count_if, count_if-append, length, length-append, if◌then◌else◌, ap, ◌∙◌,
}
use queue_benchmark.Queue.{Outcome}
use queue_benchmark.Platlib.Adapter.{Harness, Pushed}
use queue_benchmark.Platlib.Adapter.Retry.{Services, Retry, no_retry, immediate, delayed, run}

-- How far Stop is: not called; behind `close(h.stopCh)`; behind `h.wg.Wait()`; returned.
pub data Phase : Type 0 where
  running closing waited finished : Phase

-- The retries that wait for their timers, those that were pushed, those whose push failed, and
-- those that the stop has dropped. `scheduled` has all that were started, and `late` counts those
-- that were started behind the wait. `group` is the counter of `h.wg`, and `closed` says whether
-- `h.stopCh` is closed.
pub record Delays : Type 0 where
  pub phase : Phase
  pub group : ℕ
  pub closed : Bool
  pub waiting : List Pushed
  pub pushed : List Pushed
  pub lost : List Pushed
  pub dropped : List Pushed
  pub scheduled : List Pushed
  pub late : ℕ

abbrev pub no_delays : Delays
no_delays = record {
  phase = running;
  group = 0;
  closed = false;
  waiting = [];
  pushed = [];
  lost = [];
  dropped = [];
  scheduled = [];
  late = 0;
}

unfoldable pub is_waited : Phase → Bool
is_waited running = false
is_waited closing = false
is_waited waited = true
is_waited finished = true

-- `h.wg.Add(1)` and the start of the goroutine.
unfoldable pub spawn : Retry → Delays → Delays
unfolding is_waited
spawn no_retry s = s
spawn (immediate p) s = s
spawn (delayed delay p) s = record s {
  group = s.group + 1;
  waiting = p ∷ s.waiting;
  scheduled = p ∷ s.scheduled;
  late = if is_waited s.phase then suc s.late else s.late;
}

-- The timer fires: the retry is pushed, what Push returns is discarded, and `h.wg.Done()` is called.
unfoldable pub fire : Outcome → Pushed → (rest : List Pushed) → Delays → Delays
fire none p rest s = record s { group = s.group - 1; waiting = rest; pushed = p ∷ s.pushed }
fire (some e) p rest s = record s { group = s.group - 1; waiting = rest; lost = p ∷ s.lost }

-- The goroutine finds `stopCh` closed; `h.wg.Done()` is called.
unfoldable pub drop_retry : Pushed → (rest : List Pushed) → Delays → Delays
drop_retry p rest s = record s { group = s.group - 1; waiting = rest; dropped = p ∷ s.dropped }

-- What the runs, the goroutines and Stop make of the delayed retries, in any order. A goroutine's
-- `select` can receive from `stopCh` only when it is closed, and may choose its timer also then. Stop's
-- wait ends when the counter of the wait group is 0; the agent is stopped behind it, so that a run can still end there.
pub data Reached : Delays → Type 0 where
  opening : Reached no_delays
  ran :
      {s : Delays} (h : Harness) (env : Services) (raw : Text)
      → Reached s
      → Reached (spawn (run h env raw).1 s)
  fired :
      {s : Delays} (answer : Outcome) (p : Pushed) (before after : List Pushed)
      → s.waiting ≡ before ++ p ∷ after
      → Reached s
      → Reached (fire answer p (before ++ after) s)
  gave_up :
      {s : Delays} (p : Pushed) (before after : List Pushed)
      → s.waiting ≡ before ++ p ∷ after
      → s.closed ≡ true
      → Reached s
      → Reached (drop_retry p (before ++ after) s)
  stop_called :
      {s : Delays}
      → s.phase ≡ running
      → Reached s
      → Reached (record s { phase = closing; closed = true })
  wait_ended :
      {s : Delays}
      → s.phase ≡ closing
      → s.group ≡ 0
      → Reached s
      → Reached (record s { phase = waited })
  stop_returned :
      {s : Delays} → s.phase ≡ waited → Reached s → Reached (record s { phase = finished })

-- The wait group counts the goroutines; every retry that was started is in one place; none is dropped before the stop; and behind its
-- wait, only those that were started behind it are left.
record IsKept (s : Delays) : Type 0 where
  counted : s.group ≡ length s.waiting
  opened : s.phase ≡ running → s.closed ≡ false
  once :
      (test : Pushed → Bool)
      → count_if test s.scheduled
        ≡ count_if test s.waiting
          + count_if test s.pushed
          + count_if test s.lost
          + count_if test s.dropped
  undropped : s.phase ≡ running → s.dropped ≡ []
  waited_for : is_waited s.phase ≡ true → length s.waiting ≤ s.late

module _ (test : Pushed → Bool) (p : Pushed) (after : List Pushed) where
  count_if-middle :
      (before : List Pushed)
      → count_if test (before ++ p ∷ after)
        ≡ (if test p then 1 else 0) + count_if test (before ++ after)
  unfolding count_if
  count_if-middle before =
      omega (arith, count_if-append test before (p ∷ after), count_if-append test before after)

length-middle :
    (p : Pushed) (before after : List Pushed)
    → length (before ++ p ∷ after) ≡ suc (length (before ++ after))
length-middle p before after =
    omega (arith, length-append before (p ∷ after), length-append before after)

spawn-IsKept : (r : Retry) (s : Delays) → IsKept s → IsKept (spawn r s)
unfolding spawn
spawn-IsKept no_retry s k = k
spawn-IsKept (immediate p) s k = k
spawn-IsKept (delayed delay p) s k = record {
  counted = omega (arith, k.counted);
  opened = k.opened;
  once = λ test. unfold count_if in omega (arith, k.once test);
  undropped = k.undropped;
  waited_for = λ w. rw w (let b = k.waited_for w in omega arith);
}

module _ (s : Delays) (k : IsKept s) (p : Pushed) (before after : List Pushed)
    (e : s.waiting ≡ before ++ p ∷ after) where
  -- One retry leaves those that wait.
  one_less :
      (test : Pushed → Bool)
      → count_if test s.waiting ≡ (if test p then 1 else 0) + count_if test (before ++ after)
  one_less test = ap (count_if test) e ∙ count_if-middle test p after before

  shorter : length s.waiting ≡ suc (length (before ++ after))
  shorter = ap length e ∙ length-middle p before after

  fire-IsKept : (answer : Outcome) → IsKept (fire answer p (before ++ after) s)
  unfolding fire
  fire-IsKept none = record {
    counted = omega (arith, k.counted, shorter);
    opened = k.opened;
    once = λ test. unfold count_if in omega (arith, k.once test, one_less test);
    undropped = k.undropped;
    waited_for = λ w. omega (arith, k.waited_for w, shorter);
  }
  fire-IsKept (some x) = record {
    counted = omega (arith, k.counted, shorter);
    opened = k.opened;
    once = λ test. unfold count_if in omega (arith, k.once test, one_less test);
    undropped = k.undropped;
    waited_for = λ w. omega (arith, k.waited_for w, shorter);
  }

  drop_retry-IsKept : s.closed ≡ true → IsKept (drop_retry p (before ++ after) s)
  unfolding drop_retry
  drop_retry-IsKept h = record {
    counted = omega (arith, k.counted, shorter);
    opened = k.opened;
    once = λ test. unfold count_if in omega (arith, k.once test, one_less test);
    undropped = λ r. absurd (cc (k.opened r, h));
    waited_for = λ w. omega (arith, k.waited_for w, shorter);
  }

Reached-IsKept : {s : Delays} → Reached s → IsKept s
unfolding is_waited
Reached-IsKept opening = record {
  counted = refl;
  opened = λ _. refl;
  once = λ test. unfold count_if in refl;
  undropped = λ _. refl;
  waited_for = λ _. omega arith;
}
Reached-IsKept (ran {s} h env raw d) = spawn-IsKept (run h env raw).1 s (Reached-IsKept d)
Reached-IsKept (fired {s} answer p before after e d) =
    fire-IsKept s (Reached-IsKept d) p before after e answer
Reached-IsKept (gave_up {s} p before after e r d) =
    drop_retry-IsKept s (Reached-IsKept d) p before after e r
Reached-IsKept (stop_called {s} e d) =
    let k = Reached-IsKept d in
    record {
      counted = k.counted;
      opened = λ x. absurd (cc x);
      once = k.once;
      undropped = λ x. k.undropped e;
      waited_for = λ w. absurd (cc w);
    }
Reached-IsKept (wait_ended {s} e none_left d) =
    let k = Reached-IsKept d in
    record {
      counted = k.counted;
      opened = λ x. absurd (cc x);
      once = k.once;
      undropped = λ x. absurd (cc x);
      waited_for = λ w. omega (arith, none_left, k.counted);
    }
Reached-IsKept (stop_returned {s} e d) =
    let k = Reached-IsKept d in
    record {
      counted = k.counted;
      opened = λ x. absurd (cc x);
      once = k.once;
      undropped = λ x. absurd (cc x);
      waited_for = λ w. k.waited_for (rw e refl);
    }

-- However the runs, the goroutines of delayed retries and Stop interleave, the wait group counts the
-- goroutines that are left, a retry that was started is waiting, was pushed once, was lost to a failed
-- push or was dropped; none is dropped before Stop is called; and behind Stop's wait no more retries
-- are waiting than were started behind it.
pub Reached-once :
    (s : Delays)
    → Reached s
    → (s.group ≡ length s.waiting)
      × ((test : Pushed → Bool)
          → count_if test s.scheduled
            ≡ count_if test s.waiting
              + count_if test s.pushed
              + count_if test s.lost
              + count_if test s.dropped)
      × (s.phase ≡ running → s.dropped ≡ [])
      × (is_waited s.phase ≡ true → length s.waiting ≤ s.late)
Reached-once s d = let k = Reached-IsKept d in (k.counted, k.once, k.undropped, k.waited_for)
