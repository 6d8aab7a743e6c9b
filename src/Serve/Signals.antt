-- ===== src/Serve/Signals.antt =====
-- internal/ctrl/ctrl.go: the goroutine of SetupSignalHandler and its channel of capacity 2. A signal
-- that finds the channel full is lost, as package os/signal documents.
use ohttp_relay.Prelude.{
  ℕ, ◌+◌, ◌-◌, ◌≤◌, ◌<◌, ◌≡◌, refl, Bool, true, false, arith, ltb, if◌then◌else◌,
}
use ohttp_relay.Serve.Runs.{Runs, Runs-keep}

-- the goroutine: before its first receive, before cancel(), before its second receive, and after
-- os.Exit
pub data Handler : Type 0 where
  first cancelling second exited : Handler

-- `sent` counts the signals that the process got, `queue` those in the channel.
pub record State : Type 0 where
  pub handler : Handler
  pub queue : ℕ
  pub sent : ℕ
  pub ctx_done : Bool

abbrev pub init : State
init = record { handler = first; queue = 0; sent = 0; ctx_done = false }

pub data Receives (s : State) : State → Type 0 where
  receive_first :
      s.handler ≡ first
      → 0 < s.queue
      → Receives s (record s { handler = cancelling; queue = s.queue - 1 })
  cancels : s.handler ≡ cancelling → Receives s (record s { handler = second; ctx_done = true })
  receive_second :
      s.handler ≡ second
      → 0 < s.queue
      → Receives s (record s { handler = exited; queue = s.queue - 1 })

pub data Step (s : State) : State → Type 0 where
  receives : {u : State} → Receives s u → Step s u
  signal :
      Step s
        (record s { queue = (if ltb s.queue 2 then s.queue + 1 else s.queue); sent = s.sent + 1 })

-- The goroutine can go no further until the next signal.
abbrev pub IsQuiet : State → Type 0
IsQuiet s = (u : State) → Receives s u → ⊥

abbrev pub Counted : Handler → ℕ → ℕ → Bool → Type 0
Counted first queue sent done =
    (done ≡ false) × (1 ≤ sent → 1 ≤ queue) × (2 ≤ sent → 2 ≤ queue) × (queue ≤ sent)
Counted cancelling queue sent done =
    (done ≡ false) × (1 ≤ sent) × (2 ≤ sent → 1 ≤ queue) × (queue + 1 ≤ sent)
Counted second queue sent done =
    (done ≡ true) × (1 ≤ sent) × (2 ≤ sent → 1 ≤ queue) × (queue + 1 ≤ sent)
Counted exited queue sent done = (done ≡ true) × (2 ≤ sent)

abbrev pub IsCounted : State → Type 0
IsCounted s = Counted s.handler s.queue s.sent s.ctx_done

signal-Counted :
    (h : Handler) (queue sent : ℕ) (done : Bool)
    → Counted h queue sent done
    → Counted h (if ltb queue 2 then queue + 1 else queue) (sent + 1) done
signal-Counted first queue sent done c = ground arith
signal-Counted cancelling queue sent done c = ground arith
signal-Counted second queue sent done c = ground arith
signal-Counted exited queue sent done c = ground arith

pub Step-IsCounted : (s u : State) → Step s u → IsCounted s → IsCounted u
Step-IsCounted s u (receives (receive_first h q)) c = ground (arith, c)
Step-IsCounted s u (receives (cancels h)) c = ground (arith, c)
Step-IsCounted s u (receives (receive_second h q)) c = ground (arith, c)
Step-IsCounted s u signal c = signal-Counted s.handler s.queue s.sent s.ctx_done c

-- What the context and the process have seen of the signals.
pub record Answers (s : State) : Type 0 where
  pub cancelled_after_one : s.ctx_done ≡ true → 1 ≤ s.sent
  pub exited_after_two : s.handler ≡ exited → 2 ≤ s.sent
  pub one_cancels : IsQuiet s → 1 ≤ s.sent → s.ctx_done ≡ true
  pub two_exit : IsQuiet s → 2 ≤ s.sent → s.handler ≡ exited

answers :
    (s : State) (h : Handler) → s.handler ≡ h → Counted h s.queue s.sent s.ctx_done → Answers s
answers s first e c = record {
  cancelled_after_one = λ d. ground (arith, c);
  exited_after_two = λ q. ground (arith, e);
  one_cancels = λ quiet n. absurd (quiet _ (receive_first e (omega (arith, c))));
  two_exit = λ quiet n. absurd (quiet _ (receive_first e (omega (arith, c))));
}
answers s cancelling e c = record {
  cancelled_after_one = λ d. c.1;
  exited_after_two = λ q. ground (arith, e);
  one_cancels = λ quiet n. absurd (quiet _ (cancels e));
  two_exit = λ quiet n. absurd (quiet _ (cancels e));
}
answers s second e c = record {
  cancelled_after_one = λ d. c.1;
  exited_after_two = λ q. ground (arith, e);
  one_cancels = λ quiet n. c.0;
  two_exit = λ quiet n. absurd (quiet _ (receive_second e (omega (arith, c))));
}
answers s exited e c = record {
  cancelled_after_one = λ d. omega (arith, c);
  exited_after_two = λ q. c.1;
  one_cancels = λ quiet n. c.0;
  two_exit = λ quiet n. e;
}

pub Answers-Counted : (s : State) → IsCounted s → Answers s
Answers-Counted s c = answers s s.handler refl c

-- However signals and the goroutine interleave, the context is cancelled only after a signal, and the
-- process exits only after two; and once the goroutine waits, one signal has cancelled the
-- context, and two have made the process exit: the full channel loses none that matters.
pub signals_answered : {n : ℕ} {s : State} → Runs Step init n s → Answers s
signals_answered {s} r = answers s s.handler refl (
    Runs-keep IsCounted Step-IsCounted r
      (refl, (λ h. absurd (omega arith)), (λ h. absurd (omega arith)), omega arith))
