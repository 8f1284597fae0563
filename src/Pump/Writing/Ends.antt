-- ===== src/Pump/Writing/Ends.antt =====
-- main.go: how `execPumpWriting` ends.
use tyk_pump.Base.{
  ℕ, zero, suc, ◌+◌, ◌-◌, ◌≤◌, ◌≡◌, ◌≢◌, refl, ap, ◌⊎◌, inl, inr, true, Bool-cases, ◌&&◌, ◌==◌,
  List, [], ◌∷◌, ◌++◌, Int64, arith,
}
use tyk_pump.Pump.Writing.{
  Outcome, Writer, working, sending, gone, Context, live, deadline_exceeded, canceled, Main,
  selecting, received, timed_out, was_canceled, Writing, has_timeout, deadline, new_context, start,
  cancel, return_with, Step, tick, write, send, expire, receive, time_out, end_canceled, Reach,
  here, next,
}

-- What the channel can hold: the goroutine's outcome, once it has been sent and until it is received.
abbrev pub Holds : Writer → List Outcome → Type 0
Holds working os = os ≡ []
Holds (sending o) os = os ≡ []
Holds (gone o) os = (os ≡ []) ⊎ (os ≡ o ∷ [])

-- What the branch that returned says of the context and the goroutine.
abbrev pub IsEnd : Int64 → Main → Writing → Type 0
IsEnd timeout selecting s = (s.context ≢ canceled) × (s.waiting ≡ 1)
IsEnd timeout (received o) s = (s.waiting ≡ 0) × (s.writer ≡ gone o) × (s.channel ≡ [])
IsEnd timeout timed_out s =
    (s.waiting ≡ 0) × (has_timeout timeout ≡ true) × (deadline timeout ≤ s.clock)
IsEnd timeout was_canceled s = ⊥

-- What holds in every reachable state.
pub record Sound (timeout : Int64) (s : Writing) : Type 0 where
  pub holds : Holds s.writer s.channel
  pub expired :
      s.context ≡ deadline_exceeded → (has_timeout timeout ≡ true) × (deadline timeout ≤ s.clock)
  pub ending : IsEnd timeout s.main s

cancel-exceeded : (c : Context) → cancel c ≡ deadline_exceeded → c ≡ deadline_exceeded
unfolding cancel
cancel-exceeded live h = cc
cancel-exceeded deadline_exceeded h = refl
cancel-exceeded canceled h = cc

-- An outcome in the channel is the one that the goroutine has sent, and there is no other.
received-sent :
    (w : Writer) (o : Outcome) (os : List Outcome)
    → Holds w (o ∷ os)
    → (w ≡ gone o) × (os ≡ []) × Holds w os
received-sent working o os h = absurd (cc h)
received-sent (sending p) o os h = absurd (cc h)
received-sent (gone p) o os (inl h) = absurd (cc h)
received-sent (gone p) o os (inr h) = (cc, cc, inl cc)

start-Sound : (timeout : Int64) → Sound timeout (start timeout)
unfolding new_context
start-Sound timeout = elim (Bool-cases (has_timeout timeout && deadline timeout == 0)) [
  | inl e ↦ record {
    holds = refl;
    expired = λ h. (ground arith, ground arith);
    ending = rw e ((λ h. cc), refl);
  }
  | inr e ↦ record {
    holds = refl;
    expired = λ h. absurd (cc (rw e at h));
    ending = rw e ((λ h. cc), refl);
  }
]

module _ (timeout : Int64) where
  IsEnd-tick :
      (m : Main) (s : Writing)
      → IsEnd timeout m s
      → IsEnd timeout m (record s { clock = suc s.clock })
  IsEnd-tick selecting s e = e
  IsEnd-tick (received o) s e = e
  IsEnd-tick timed_out s e = (e.0, e.1, omega (arith, e.2))
  IsEnd-tick was_canceled s e = e

  -- Until it has sent its outcome, the goroutine can go on.
  IsEnd-goroutine :
      (m : Main) (s : Writing) (w : Writer) (os : List Outcome)
      → ((o : Outcome) → s.writer ≢ gone o)
      → IsEnd timeout m s
      → IsEnd timeout m (record s { writer = w; channel = os })
  IsEnd-goroutine selecting s w os h e = e
  IsEnd-goroutine (received o) s w os h e = absurd (h o e.1)
  IsEnd-goroutine timed_out s w os h e = e
  IsEnd-goroutine was_canceled s w os h e = e

  IsEnd-expire :
      (m : Main) (s : Writing)
      → IsEnd timeout m s
      → IsEnd timeout m (record s { context = deadline_exceeded })
  IsEnd-expire selecting s e = (λ h. cc, e.1)
  IsEnd-expire (received o) s e = e
  IsEnd-expire timed_out s e = e
  IsEnd-expire was_canceled s e = e

  empty_before :
      (s : Writing) (o : Outcome) → Sound timeout s → s.writer ≡ sending o → s.channel ≡ []
  empty_before s o h w = rw w at h.holds

  Step-Sound : {s t : Writing} → Step timeout s t → Sound timeout s → Sound timeout t
  unfolding return_with
  Step-Sound {s} (tick e) h = rw e (record {
    holds = h.holds;
    expired = λ q. ((h.expired q).0, omega (arith, (h.expired q).1));
    ending = IsEnd-tick s.main s h.ending;
  })
  Step-Sound {s} (write o w e) h = rw e (record {
    holds = rw w at h.holds;
    expired = h.expired;
    ending = IsEnd-goroutine s.main s (sending o) s.channel (λ p q. cc) h.ending;
  })
  Step-Sound {s} (send o w c e) h = rw e (record {
    holds = inr (ap (λ os. os ++ (o ∷ [])) (empty_before s o h w));
    expired = h.expired;
    ending = IsEnd-goroutine s.main s (gone o) (s.channel ++ (o ∷ [])) (λ p q. cc) h.ending;
  })
  Step-Sound {s} (expire p l c e) h =
      rw e
        (record { holds = h.holds; expired = λ q. (p, l); ending = IsEnd-expire s.main s h.ending })
  Step-Sound {s} (receive o os m c e) h =
      let (sent, empty, holds) = received-sent s.writer o os (rw c at h.holds) in
      rw e (record {
        holds = holds;
        expired = λ q. h.expired (cancel-exceeded s.context q);
        ending = (refl, sent, empty);
      })
  Step-Sound {s} (time_out m c e) h = rw e (record {
    holds = h.holds;
    expired = λ q. h.expired (cancel-exceeded s.context q);
    ending = (refl, (h.expired c).0, (h.expired c).1);
  })
  Step-Sound {s} (end_canceled m c e) h = absurd ((rw m at h.ending).0 c)

  Reach-Sound : {s : Writing} → Reach timeout s → Sound timeout s
  Reach-Sound here = start-Sound timeout
  Reach-Sound (next r st) = Step-Sound st (Reach-Sound r)

  -- In every state that `execPumpWriting` can reach: until it returns, the wait group waits for it and its
  -- context is not cancelled. It returns with the very outcome that the goroutine has sent, or, only with a
  -- timeout above 0 and not before the deadline, with the timeout; never by the branch of a cancelled
  -- context. The wait group is then released. The deadline comes the seconds of the timeout after the
  -- start, in nanoseconds of 64 bits with a sign, and is the start itself where these are not above 0.
  pub exec_pump_writing-IsEnd : (s : Writing) → Reach timeout s → IsEnd timeout s.main s
  exec_pump_writing-IsEnd s r = (Reach-Sound r).ending

  -- The goroutine is never left behind: whenever it has its outcome it can send it at once, also after
  -- `execPumpWriting` has returned for its timeout.
  pub goroutine_ends :
      (s : Writing) (o : Outcome)
      → Reach timeout s
      → s.writer ≡ sending o
      → (t : Writing) × Step timeout s t × (t.writer ≡ gone o)
  goroutine_ends s o r w =
      (_, send o w (rw (empty_before s o (Reach-Sound r) w) (omega arith)) refl, refl)

  -- Steps one after the other.
  pub data Run (s : Writing) : Writing → Type 0 where
    stay : {t : Writing} → s ≡ t → Run s t
    go : {t u : Writing} → Run s t → Step timeout t u → Run s u

  abbrev pub at_clock : ℕ → Writing → Writing
  at_clock n s = record s { clock = n }

  wait : (s : Writing) (n k : ℕ) → s.clock + n ≡ k → Run s (at_clock k s)
  wait s zero k e = stay {t = at_clock k s} (ap (λ m. at_clock m s) (omega (arith, e)))
  wait s (suc n) k e =
      go (wait s n (s.clock + n) refl) (tick (ap (λ m. at_clock m s) (omega (arith, e))))

  -- Where `execPumpWriting` has returned and the wait group is released, without a step of the goroutine
  -- and no later than the deadline, or at once where that is past.
  pub record Returned (s t : Writing) : Type 0 where
    pub returned : t.main ≢ selecting
    pub released : t.waiting ≡ 0
    pub same_writer : t.writer ≡ s.writer
    pub in_time : t.clock ≤ s.clock + (deadline timeout - s.clock)

  return_late :
      (s : Writing) (c : Context)
      → s.context ≡ c
      → c ≢ canceled
      → s.main ≡ selecting
      → has_timeout timeout ≡ true
      → (t : Writing) × Run s t × Returned s t
  unfolding return_with
  return_late s live e n m p =
      let late = at_clock (s.clock + (deadline timeout - s.clock)) s in
      let over = record late { context = deadline_exceeded } in
      (
        return_with timed_out over,
        go (go (wait s (deadline timeout - s.clock) _ refl) (expire p (omega arith) e refl))
            (time_out m refl refl),
        record { returned = λ h. cc; released = refl; same_writer = refl; in_time = omega arith },
      )
  return_late s deadline_exceeded e n m p = (
    return_with timed_out s,
    go (stay refl) (time_out m e refl),
    record { returned = λ h. cc; released = refl; same_writer = refl; in_time = omega arith },
  )
  return_late s canceled e n m p = absurd (n refl)

  already_over :
      (s : Writing) → s.main ≢ selecting → s.waiting ≡ 0 → (t : Writing) × Run s t × Returned s t
  already_over s n w = (
    s,
    stay refl,
    record { returned = n; released = w; same_writer = refl; in_time = omega arith },
  )

  returns_from :
      (s : Writing) (m : Main)
      → s.main ≡ m
      → IsEnd timeout m s
      → has_timeout timeout ≡ true
      → (t : Writing) × Run s t × Returned s t
  returns_from s selecting m e p = return_late s s.context refl e.0 m p
  returns_from s (received o) m e p = already_over s (λ h. cc) e.0
  returns_from s timed_out m e p = already_over s (λ h. cc) e.0
  returns_from s was_canceled m e p = absurd e

  -- A pump with a timeout above 0 need not hold up the others: from every state on, `execPumpWriting` can
  -- return and release the wait group by itself, without a step of the goroutine, and by the deadline, or
  -- at once where that is past.
  pub exec_pump_writing_returns :
      (s : Writing)
      → Reach timeout s
      → has_timeout timeout ≡ true
      → (t : Writing) × Run s t × Returned s t
  exec_pump_writing_returns s r p = returns_from s s.main refl (exec_pump_writing-IsEnd s r) p
