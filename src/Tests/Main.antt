-- ===== src/Tests/Main.antt =====
-- Tests of main.go: one pump's writing with its timeout, and the loop with its shutdown.
use tyk_pump.Base.{
  ◌≡◌, refl, true, false, List, [], ◌∷◌, none, some, ◌>>=◌, text, same, Int64, lt64, arith,
}
use tyk_pump.Pump.Config.{zero_config}
use tyk_pump.Pump.Writing.{
  Writing, timed_out, received, sending, gone, canceled, deadline_exceeded, has_timeout, duration,
  deadline, new_context, start, cancel, return_with, Step, write, send, receive, time_out, Reach,
  here, next,
}
use tyk_pump.Pump.Writing.Ends.{
  IsEnd, exec_pump_writing-IsEnd, goroutine_ends, Run, Returned, exec_pump_writing_returns,
}
use tyk_pump.Pump.Life.{ActivePump, Life, get_pump_by_name, to_lower, purge_loop}
use tyk_pump.Pump.Life.Shutdown.{signal_after, ticks, after_shutdown, purge_loop_ends}
use tyk_pump.Tests.Pump.{both, shelf, shelves}

-- The start with a timeout of one second.
abbrev a_second : Writing
a_second = start 1

one_second : has_timeout 1 ≡ true
unfolding has_timeout lt64
one_second = refl

exec_pump_writing_returns_example : (t : Writing) × Run 1 a_second t × Returned 1 a_second t
exec_pump_writing_returns_example = exec_pump_writing_returns 1 a_second here one_second

-- A timeout whose nanoseconds have bit 63 set has ended when it starts.
abbrev too_long : Int64
too_long = 9223372037

too_long_ends : new_context too_long ≡ deadline_exceeded
unfolding new_context has_timeout deadline duration lt64
too_long_ends = refl

one_second_lasts : deadline 1 ≡ 1000000000
unfolding deadline duration lt64
one_second_lasts = refl

-- After the timeout, with an outcome that is still to be sent.
abbrev late : Writing
late = record {
  clock = 0;
  writer = sending none;
  channel = [];
  context = deadline_exceeded;
  main = timed_out;
  waiting = 0;
}

late-Reach : Reach too_long late
unfolding return_with cancel new_context has_timeout deadline duration lt64
late-Reach = next (next here (time_out refl refl refl)) (write none refl refl)

-- An error that the goroutine has sent is what is received.
abbrev failed : Writing
failed = record {
  clock = 0;
  writer = gone (some (text "down"));
  channel = [];
  context = canceled;
  main = received (some (text "down"));
  waiting = 0;
}

failed-Reach : Reach 1 failed
unfolding return_with cancel new_context has_timeout deadline duration lt64
failed-Reach =
    next
      (next (next here (write (some (text "down")) refl refl))
        (send (some (text "down")) refl (omega arith) refl))
      (receive (some (text "down")) [] refl refl refl)

exec_pump_writing-IsEnd_example : IsEnd 1 (received (some (text "down"))) failed
exec_pump_writing-IsEnd_example = exec_pump_writing-IsEnd 1 failed failed-Reach

goroutine_ends_example : (t : Writing) × Step too_long late t × (t.writer ≡ gone none)
goroutine_ends_example = goroutine_ends too_long late none late-Reach refl

case_example : get_pump_by_name (text "Mongo") ≡ some (text "mongo")
unfolding get_pump_by_name to_lower same
case_example = refl

abbrev one_pump : List ActivePump
one_pump = record { name = text "csv"; options = zero_config } ∷ []

abbrev begun : Life shelf shelf
begun = record {
  analytics = shelves;
  uptime = shelves;
  written = [];
  uptime_written = [];
  shut_down = [];
  waiting = 1;
}

purge_loop_ends_example :
    purge_loop 0 false one_pump shelf shelf both (signal_after 2 (false ∷ [])) begun ≡ (
      ticks 0 false one_pump shelf shelf both 3 begun >>= λ l.
      some (after_shutdown 0 false one_pump shelf shelf both begun l))
purge_loop_ends_example = purge_loop_ends 0 false one_pump shelf shelf both 2 (false ∷ []) begun
