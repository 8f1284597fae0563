-- ===== src/Mongo/Insertion/Reported.antt =====
-- pumps/mongo.go, pumps/graph_mongo.go, pumps/mcp_mongo.go: an insertion that fails is reported, in whatever
-- order the goroutines run.
use tyk_pump.Base.{
  ℕ, zero, suc, ◌+◌, ◌<◌, ◌≡◌, refl, sym, ◌∙◌, ◌⊎◌, inl, inr, Bool, true, false, ◌||◌, List, [],
  ◌∷◌, ◌++◌, map, any, none, some, Text, Bool-cases, length, length-append, arith,
}
use tyk_pump.Mongo.Insertion.{
  Outcome, Writer, inserting, sending, sending_again, finished, Reader, reading, returned, State,
  after_receive, after_send, Step, insert, send, send_again, receive, finish, Reach, here, next,
}

abbrev pub is_error : Outcome → Bool
is_error none = false
is_error (some e) = true

-- The goroutine has an error that it has not sent.
abbrev pub holds_error : Writer → Bool
holds_error (inserting o) = is_error o
holds_error (sending o) = is_error o
holds_error sending_again = false
holds_error finished = false

-- The goroutine has an outcome to send.
abbrev pub owes : Writer → ℕ
owes finished = 0
owes w = 1

abbrev pub owed : List Writer → ℕ
owed [] = 0
owed (w ∷ ws) = owes w + owed ws

pub owed-append : (ws us : List Writer) → owed (ws ++ us) ≡ owed ws + owed us
owed-append [] us = omega arith
owed-append (w ∷ ws) us = omega (arith, owed-append ws us)

any-append :
    (ws us : List Writer) → any holds_error (ws ++ us) ≡ (any holds_error ws || any holds_error us)
any-append [] us = refl
any-append (w ∷ ws) us = ground (arith, any-append ws us)

-- The loop meets an error within its next rounds.
abbrev pub meets_error : ℕ → List Outcome → Bool
meets_error zero os = false
meets_error (suc k) [] = false
meets_error (suc k) (none ∷ os) = meets_error k os
meets_error (suc k) (some e ∷ os) = true

meets_error-append :
    (k : ℕ) (os qs : List Outcome) → meets_error k os ≡ true → meets_error k (os ++ qs) ≡ true
meets_error-append zero os qs h = cc
meets_error-append (suc k) [] qs h = cc
meets_error-append (suc k) (none ∷ os) qs h = meets_error-append k os qs h
meets_error-append (suc k) (some e ∷ os) qs h = refl

meets_error-snoc :
    (k : ℕ) (os : List Outcome) (e : Text)
    → length os < k
    → any is_error os ≡ false
    → meets_error k (os ++ (some e ∷ [])) ≡ true
meets_error-snoc zero os e l q = absurd (omega arith)
meets_error-snoc (suc k) [] e l q = refl
meets_error-snoc (suc k) (none ∷ os) e l q = meets_error-snoc k os e (omega arith) q
meets_error-snoc (suc k) (some d ∷ os) e l q = cc

no_error-snoc :
    (os : List Outcome) → any is_error os ≡ false → any is_error (os ++ (none ∷ [])) ≡ false
no_error-snoc [] q = refl
no_error-snoc (none ∷ os) q = no_error-snoc os q
no_error-snoc (some d ∷ os) q = cc

-- No error has been sent: each round that is left has its outcome in the channel or in a goroutine.
pub record IsQuiet (failed : Bool) (k : ℕ) (ws : List Writer) (os : List Outcome) : Type 0 where
  pub unsent : any is_error os ≡ false
  pub accounted : length os + owed ws ≡ k
  pub held_back : any holds_error ws ≡ failed

-- What holds in every reachable state, where `failed` says that an insertion fails.
abbrev pub Told : Bool → Reader → List Writer → List Outcome → Type 0
Told failed (reading k) ws os =
    ((meets_error k os ≡ true) × (failed ≡ true)) ⊎ IsQuiet failed k ws os
Told failed (returned o) ws os = is_error o ≡ failed

holds→owes : (ws : List Writer) → any holds_error ws ≡ true → 0 < owed ws
holds→owes [] h = cc
holds→owes (inserting o ∷ ws) h = omega arith
holds→owes (sending o ∷ ws) h = omega arith
holds→owes (sending_again ∷ ws) h = omega arith
holds→owes (finished ∷ ws) h = omega (arith, holds→owes ws h)

pub owed-swap :
    (ws us : List Writer) (w v : Writer) (n : ℕ)
    → owes w ≡ n + owes v
    → owed (ws ++ (w ∷ us)) ≡ n + owed (ws ++ (v ∷ us))
owed-swap ws us w v n h = omega (arith, owed-append ws (w ∷ us), owed-append ws (v ∷ us))

holds-swap :
    (ws us : List Writer) (w v : Writer)
    → holds_error w ≡ holds_error v
    → any holds_error (ws ++ (w ∷ us)) ≡ any holds_error (ws ++ (v ∷ us))
holds-swap ws us w v h = ground (arith, any-append ws (w ∷ us), any-append ws (v ∷ us))

holds-at :
    (ws us : List Writer) (w : Writer)
    → holds_error w ≡ true
    → any holds_error (ws ++ (w ∷ us)) ≡ true
holds-at ws us w h = ground (arith, any-append ws (w ∷ us))

module _ (failed : Bool) where
  Told-insert :
      (rd : Reader) (W V : List Writer) (os : List Outcome)
      → owed W ≡ owed V
      → any holds_error W ≡ any holds_error V
      → Told failed rd W os
      → Told failed rd V os
  Told-insert (returned o) W V os h k t = t
  Told-insert (reading n) W V os h k (inl m) = inl m
  Told-insert (reading n) W V os h k (inr q) = inr (record {
    unsent = q.unsent;
    accounted = omega (arith, q.accounted);
    held_back = sym k ∙ q.held_back;
  })

  Told-nil :
      (rd : Reader) (W V : List Writer) (os : List Outcome)
      → owed W ≡ 1 + owed V
      → any holds_error W ≡ any holds_error V
      → Told failed rd W os
      → Told failed rd V (os ++ (none ∷ []))
  Told-nil (returned o) W V os h k t = t
  Told-nil (reading n) W V os h k (inl m) = inl (meets_error-append n os (none ∷ []) m.0, m.1)
  Told-nil (reading n) W V os h k (inr q) = inr (record {
    unsent = no_error-snoc os q.unsent;
    accounted = omega (arith, q.accounted, length-append os (none ∷ []));
    held_back = sym k ∙ q.held_back;
  })

  Told-error :
      (rd : Reader) (W V : List Writer) (os : List Outcome) (e : Text)
      → any holds_error W ≡ true
      → Told failed rd W os
      → Told failed rd V (os ++ (some e ∷ []))
  Told-error (returned o) W V os e h t = t
  Told-error (reading n) W V os e h (inl m) = inl (meets_error-append n os (some e ∷ []) m.0, m.1)
  Told-error (reading n) W V os e h (inr q) = inl (
    meets_error-snoc n os e (omega (arith, q.accounted, holds→owes W h)) q.unsent,
    sym q.held_back ∙ h,
  )

  Told-receive :
      (k : ℕ) (o : Outcome) (W : List Writer) (os : List Outcome)
      → Told failed (reading (suc k)) W (o ∷ os)
      → Told failed (after_receive k o) W os
  unfolding after_receive
  Told-receive k none W os (inl m) = inl m
  Told-receive k none W os (inr q) = inr (record {
    unsent = q.unsent;
    accounted = omega (arith, q.accounted);
    held_back = q.held_back;
  })
  Told-receive k (some e) W os (inl m) = sym m.1
  Told-receive k (some e) W os (inr q) = absurd (true≢false q.unsent)
    where
      true≢false : true ≡ false → ⊥
      true≢false h = cc

  Told-finish :
      (W : List Writer) (os : List Outcome) → Told failed (reading 0) W os → false ≡ failed
  Told-finish W os (inl m) = cc
  Told-finish W os (inr q) = elim (Bool-cases (any holds_error W)) [
    | inl e ↦ absurd (omega (arith, holds→owes W e, q.accounted))
    | inr e ↦ sym e ∙ q.held_back
  ]

  module _ (twice : Bool) (capacity : ℕ) where
    owes-after_send : (o : Outcome) → is_error o ≡ false → after_send twice o ≡ finished
    unfolding after_send
    owes-after_send none h = refl
    owes-after_send (some e) h = cc

    Told-send :
        (rd : Reader) (ws us : List Writer) (os : List Outcome) (o : Outcome)
        → Told failed rd (ws ++ (sending o ∷ us)) os
        → Told failed rd (ws ++ (after_send twice o ∷ us)) (os ++ (o ∷ []))
    unfolding after_send
    Told-send rd ws us os none t =
        Told-nil rd _ _ os (owed-swap ws us _ _ 1 refl) (holds-swap ws us _ _ refl) t
    Told-send rd ws us os (some e) t = Told-error rd _ _ os e (holds-at ws us _ refl) t

    Step-Told :
        {s t : State}
        → Step twice capacity s t
        → Told failed s.reader s.writers s.channel
        → Told failed t.reader t.writers t.channel
    Step-Told {s} (insert ws us o w e) h = rw e (
        Told-insert s.reader _ _ s.channel
          (omega (arith, owed-swap ws us (inserting o) (sending o) 0 refl))
          (holds-swap ws us (inserting o) (sending o) refl) (rw w at h))
    Step-Told {s} (send ws us o w c e) h = rw e (Told-send s.reader ws us s.channel o (rw w at h))
    Step-Told {s} (send_again ws us w c e) h = rw e (
        Told-nil s.reader _ _ s.channel (owed-swap ws us sending_again finished 1 refl)
          (holds-swap ws us sending_again finished refl) (rw w at h))
    Step-Told {s} (receive k o os r c e) h = rw e (Told-receive k o s.writers os (rw (r, c) at h))
    Step-Told {s} (finish r e) h = rw e (Told-finish s.writers s.channel (rw r at h))

pub owed-start : (outcomes : List Outcome) → owed (map inserting outcomes) ≡ length outcomes
owed-start [] = refl
owed-start (o ∷ os) = omega (arith, owed-start os)

holds-start :
    (outcomes : List Outcome) → any holds_error (map inserting outcomes) ≡ any is_error outcomes
holds-start [] = refl
holds-start (o ∷ os) = ground (arith, holds-start os)

Reach-Told :
    (twice : Bool) (outcomes : List Outcome) {s : State}
    → Reach twice outcomes s
    → Told (any is_error outcomes) s.reader s.writers s.channel
Reach-Told twice outcomes here = inr (record {
  unsent = refl;
  accounted = omega (arith, owed-start outcomes);
  held_back = holds-start outcomes;
})
Reach-Told twice outcomes (next r st) =
    Step-Told (any is_error outcomes) twice (length outcomes) st (Reach-Told twice outcomes r)

-- In whatever order the goroutines of `WriteData` run: it returns an error if an insertion fails, and nil
-- if none does, whether or not a goroutine that has sent an error sends nil as well.
pub write_data_reports :
    (twice : Bool) (outcomes : List Outcome) {s : State} (o : Outcome)
    → Reach twice outcomes s
    → s.reader ≡ returned o
    → is_error o ≡ any is_error outcomes
write_data_reports twice outcomes o r e = rw e at (Reach-Told twice outcomes r)
