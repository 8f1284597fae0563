-- ===== src/Mongo/Insertion/Progress.antt =====
-- pumps/mongo.go, pumps/graph_mongo.go, pumps/mcp_mongo.go: `WriteData` returns, in whatever order the
-- goroutines run.
use tyk_pump.Base.{
  ℕ, zero, suc, ◌+◌, ◌≤◌, ◌<◌, ◌≡◌, refl, ap, ◌⊎◌, inl, inr, Bool, List, [], ◌∷◌, ◌++◌, none, some,
  length, length-append, arith,
}
use tyk_pump.Mongo.Insertion.{
  Outcome, Writer, inserting, sending, sending_again, finished, Reader, reading, returned, State,
  after_receive, after_send, Step, insert, send, send_again, receive, finish, Reach, here, next,
}
use tyk_pump.Mongo.Insertion.Reported.{owes, owed, owed-append, owed-start, owed-swap}

-- The steps that a goroutine may still take, and the rounds of the loop.
abbrev steps_of : Writer → ℕ
steps_of (inserting o) = 3
steps_of (sending o) = 2
steps_of sending_again = 1
steps_of finished = 0

abbrev steps : List Writer → ℕ
steps [] = 0
steps (w ∷ ws) = steps_of w + steps ws

abbrev rounds : Reader → ℕ
rounds (reading k) = suc k
rounds (returned o) = 0

-- The steps that are left, at most.
abbrev pub work : State → ℕ
work s = steps s.writers + rounds s.reader

steps-append : (ws us : List Writer) → steps (ws ++ us) ≡ steps ws + steps us
steps-append [] us = omega arith
steps-append (w ∷ ws) us = omega (arith, steps-append ws us)

steps-swap :
    (ws us : List Writer) (w v : Writer)
    → steps_of v < steps_of w
    → steps (ws ++ (v ∷ us)) < steps (ws ++ (w ∷ us))
steps-swap ws us w v h = omega (arith, steps-append ws (w ∷ us), steps-append ws (v ∷ us))

module _ (twice : Bool) where
  steps_of-after_send : (o : Outcome) → steps_of (after_send twice o) < 2
  unfolding after_send
  steps_of-after_send none = omega arith
  steps_of-after_send (some e) = ground arith

  rounds-after_receive : (k : ℕ) (o : Outcome) → rounds (after_receive k o) < suc (suc k)
  unfolding after_receive
  rounds-after_receive k none = omega arith
  rounds-after_receive k (some e) = omega arith

  work-Step : (capacity : ℕ) {s t : State} → Step twice capacity s t → work t < work s
  work-Step n {s} (insert ws us o w e) =
      rw (e, w) (omega (arith, steps-swap ws us (inserting o) (sending o) (omega arith)))
  work-Step n {s} (send ws us o w c e) =
      rw (e, w)
        (omega (arith, steps-swap ws us (sending o) (after_send twice o) (steps_of-after_send o)))
  work-Step n {s} (send_again ws us w c e) =
      rw (e, w) (omega (arith, steps-swap ws us sending_again finished (omega arith)))
  work-Step n {s} (receive k o os r c e) = rw (e, r) (omega (arith, rounds-after_receive k o))
  work-Step n {s} (finish r e) = rw (e, r) (omega arith)

  -- The loop expects no more outcomes than there are, and than the channel has room for.
  abbrev Expects : ℕ → Reader → List Writer → List Outcome → Type 0
  Expects n (reading k) ws os = (k ≤ length os + owed ws) × (k ≤ n)
  Expects n (returned o) ws os = Unit

  Expects-more :
      (n : ℕ) (rd : Reader) (W V : List Writer) (os qs : List Outcome)
      → length os + owed W ≤ length qs + owed V
      → Expects n rd W os
      → Expects n rd V qs
  Expects-more n (returned o) W V os qs h x = tt
  Expects-more n (reading k) W V os qs h x = (omega (arith, x.0), x.1)

  owes-le : (w : Writer) → owes w ≤ 1
  owes-le w = ground arith

  Step-Expects :
      (n : ℕ) {s t : State}
      → Step twice n s t
      → Expects n s.reader s.writers s.channel
      → Expects n t.reader t.writers t.channel
  unfolding after_receive
  Step-Expects n {s} (insert ws us o w e) h = rw e (
      Expects-more n s.reader _ _ s.channel s.channel
        (omega (arith, owed-swap ws us (inserting o) (sending o) 0 refl)) (rw w at h))
  Step-Expects n {s} (send ws us o w c e) h = rw e (
      Expects-more n s.reader (ws ++ (sending o ∷ us)) _ s.channel (s.channel ++ (o ∷ []))
        (omega (
          arith,
          owed-append ws (sending o ∷ us),
          owed-append ws (after_send twice o ∷ us),
          length-append s.channel (o ∷ []),
        ))
        (rw w at h))
  Step-Expects n {s} (send_again ws us w c e) h = rw e (
      Expects-more n s.reader (ws ++ (sending_again ∷ us)) _ s.channel (s.channel ++ (none ∷ []))
        (omega (
          arith,
          owed-append ws (sending_again ∷ us),
          owed-append ws (finished ∷ us),
          length-append s.channel (none ∷ []),
        ))
        (rw w at h))
  Step-Expects n {s} (receive k none os r c e) h =
      let h' = rw (r, c) at h in rw e (omega (arith, h'.0), omega (arith, h'.1))
  Step-Expects n {s} (receive k (some x) os r c e) h = rw e tt
  Step-Expects n {s} (finish r e) h = rw e tt

  Reach-Expects :
      (outcomes : List Outcome) {s : State}
      → Reach twice outcomes s
      → Expects (length outcomes) s.reader s.writers s.channel
  Reach-Expects outcomes here = (omega (arith, owed-start outcomes), omega arith)
  Reach-Expects outcomes (next r st) = Step-Expects (length outcomes) st (Reach-Expects outcomes r)

  -- A goroutine that is not finished.
  some_writer :
      (ws : List Writer)
      → 0 < owed ws
      → (vs : List Writer) × (w : Writer) × (us : List Writer) × (ws ≡ vs ++ (w ∷ us))
        × (owes w ≡ 1)
  some_writer [] h = absurd (omega arith)
  some_writer (finished ∷ ws) h =
      let (vs, w, us, e, o) = some_writer ws (omega arith) in
      (finished ∷ vs, w, us, ap (λ t. finished ∷ t) e, o)
  some_writer (inserting o ∷ ws) h = ([], inserting o, ws, refl, refl)
  some_writer (sending o ∷ ws) h = ([], sending o, ws, refl, refl)
  some_writer (sending_again ∷ ws) h = ([], sending_again, ws, refl, refl)

  writer_steps :
      (n : ℕ) (s : State) (vs us : List Writer) (w : Writer)
      → s.writers ≡ vs ++ (w ∷ us)
      → owes w ≡ 1
      → length s.channel < n
      → (t : State) × Step twice n s t
  writer_steps n s vs us (inserting o) e h l = (_, insert vs us o e refl)
  writer_steps n s vs us (sending o) e h l = (_, send vs us o e l refl)
  writer_steps n s vs us sending_again e h l = (_, send_again vs us e l refl)
  writer_steps n s vs us finished e h l = absurd (omega arith)

  reader_steps :
      (n : ℕ) (s : State) (rd : Reader) (os : List Outcome)
      → s.reader ≡ rd
      → s.channel ≡ os
      → Expects n rd s.writers os
      → ((o : Outcome) × (rd ≡ returned o)) ⊎ ((t : State) × Step twice n s t)
  reader_steps n s (returned o) os e c x = inl (o, refl)
  reader_steps n s (reading zero) os e c x = inr (_, finish e refl)
  reader_steps n s (reading (suc k)) (o ∷ os) e c x = inr (_, receive k o os e c refl)
  reader_steps n s (reading (suc k)) [] e c x =
      let (vs, w, us, d, h) = some_writer s.writers (omega (arith, x.0)) in
      inr (writer_steps n s vs us w d h (rw c (omega (arith, x.1))))

-- `WriteData` returns: where it has not returned, some goroutine or the loop that receives can take a
-- step, and each step, whichever it is, lessens the number of those that are left.
pub write_data_returns :
    (twice : Bool) (outcomes : List Outcome) (s : State)
    → Reach twice outcomes s
    → (((o : Outcome) × (s.reader ≡ returned o)) ⊎ ((t : State) × Step twice (length outcomes) s t))
      × ((t : State) → Step twice (length outcomes) s t → work t < work s)
write_data_returns twice outcomes s r = (
  reader_steps twice (length outcomes) s s.reader s.channel refl refl
      (Reach-Expects twice outcomes r),
  λ t st. work-Step twice (length outcomes) st,
)
