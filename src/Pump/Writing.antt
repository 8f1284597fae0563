-- ===== src/Pump/Writing.antt =====
-- main.go: `execPumpWriting`, the writing of one batch by one pump, with its timeout. A panic of the
-- goroutine, which ends the process, is in the filter of the pump.
pub mod Ends
use tyk_pump.Base.{
  ℕ, suc, ◌*◌, ◌%◌, ◌<◌, ◌≤◌, ◌≡◌, Bool, true, false, not, ◌&&◌, List, [], ◌∷◌, ◌++◌, Option, none,
  some, Text, Int64, lt64, length, ◌==◌, if◌then◌else◌,
}

-- What `WriteData` returns: nil or an error.
abbrev pub Outcome : Type 0
Outcome = Option Text

-- The goroutine that filters the batch and writes it; one that is gone has sent its outcome.
pub data Writer : Type 0 where
  working : Writer
  sending : Outcome → Writer
  gone : Outcome → Writer

-- The context, and the reason of its end.
pub data Context : Type 0 where
  live : Context
  deadline_exceeded : Context
  canceled : Context

-- Where `execPumpWriting` stands: in its `select`, or returned by one of the branches.
pub data Main : Type 0 where
  selecting : Main
  received : Outcome → Main
  timed_out : Main
  was_canceled : Main

-- `clock` counts the nanoseconds since the start, and `waiting` what the wait group waits for.
pub record Writing : Type 0 where
  pub clock : ℕ
  pub writer : Writer
  pub channel : List Outcome
  pub context : Context
  pub main : Main
  pub waiting : ℕ

-- A context with a timeout is made only for a timeout above 0.
unfoldable pub has_timeout : Int64 → Bool
has_timeout timeout = lt64 0 timeout

-- `time.Duration(timeout)*time.Second`: nanoseconds, with 64 bits.
unfoldable pub duration : Int64 → Int64
duration timeout = timeout * 1000000000 % 18446744073709551616

-- The nanoseconds until the deadline of the context, which is no earlier than its start.
unfoldable pub deadline : Int64 → ℕ
unfolding duration
deadline timeout = if lt64 0 (duration timeout) then duration timeout else 0

-- The context that is made: one whose deadline is not behind the present has ended already.
unfoldable pub new_context : Int64 → Context
unfolding has_timeout deadline
new_context timeout =
    if has_timeout timeout && deadline timeout == 0 then deadline_exceeded else live

abbrev pub start : Int64 → Writing
start timeout = record {
  clock = 0;
  writer = working;
  channel = [];
  context = new_context timeout;
  main = selecting;
  waiting = 1;
}

-- `cancel()`, which changes nothing once the context has ended.
unfoldable pub cancel : Context → Context
cancel live = canceled
cancel deadline_exceeded = deadline_exceeded
cancel canceled = canceled

-- The return, with the deferred calls.
unfoldable pub return_with : Main → Writing → Writing
return_with m s = record s { main = m; context = cancel s.context; waiting = 0 }

module _ (timeout : Int64) where
  -- One step, of the clock, of the goroutine, of the context or of the `select`. The channel has room for
  -- one outcome. How long `WriteData` takes, and what it returns, is open.
  pub data Step (s t : Writing) : Type 0 where
    tick : t ≡ record s { clock = suc s.clock } → Step s t
    write : (o : Outcome) → s.writer ≡ working → t ≡ record s { writer = sending o } → Step s t
    send :
        (o : Outcome)
        → s.writer ≡ sending o
        → length s.channel < 1
        → t ≡ record s { writer = gone o; channel = s.channel ++ (o ∷ []) }
        → Step s t
    expire :
        has_timeout timeout ≡ true
        → deadline timeout ≤ s.clock
        → s.context ≡ live
        → t ≡ record s { context = deadline_exceeded }
        → Step s t
    receive :
        (o : Outcome) (os : List Outcome)
        → s.main ≡ selecting
        → s.channel ≡ o ∷ os
        → t ≡ return_with (received o) (record s { channel = os })
        → Step s t
    time_out :
        s.main ≡ selecting → s.context ≡ deadline_exceeded → t ≡ return_with timed_out s → Step s t
    end_canceled :
        s.main ≡ selecting → s.context ≡ canceled → t ≡ return_with was_canceled s → Step s t

  pub data Reach : Writing → Type 0 where
    here : Reach (start timeout)
    next : {s t : Writing} → Reach s → Step s t → Reach t

-- What the timer of the purge delay logs when it fires.
pub data SlowWarning : Type 0 where
  set_a_timeout : SlowWarning
  lower_the_timeout : SlowWarning

unfoldable pub slow_warning : (timeout purge_delay : Int64) → Option SlowWarning
slow_warning timeout purge_delay =
    if timeout == 0
    then some set_a_timeout
    else if lt64 purge_delay timeout
    then some lower_the_timeout
    else none
