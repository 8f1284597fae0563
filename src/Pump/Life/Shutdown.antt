-- ===== src/Pump/Life/Shutdown.antt =====
-- main.go: the loop ends with the tick that sees the signal.
use tyk_pump.Base.{
  ℕ, zero, suc, ◌-◌, ◌≡◌, refl, ◌∙◌, Bool, true, false, Bool-cases, List, ◌∷◌, ◌++◌, map, Option,
  some, ◌>>=◌, >>=_assoc, bind-cong, Option-cases, inl, inr, Int64,
}
use tyk_pump.Pump.Purge.{Serializer, Store, purge}
use tyk_pump.Pump.Life.{ActivePump, Life, tick, purge_uptime, shut_down_pumps, purge_loop}

-- The ticks before the signal, and those from it on.
abbrev pub signal_after : ℕ → List Bool → List Bool
signal_after zero later = true ∷ later
signal_after (suc n) later = false ∷ signal_after n later

module _ (system_max : Int64) (dont_purge_uptime_data : Bool) (pumps : List ActivePump)
    (store uptime_store : Store) (serializers : List Serializer) where
  abbrev pub run_tick : Life store uptime_store → Option (Life store uptime_store)
  run_tick = tick system_max dont_purge_uptime_data pumps store uptime_store serializers

  -- `n` ticks, one after the other.
  abbrev pub ticks : ℕ → Life store uptime_store → Option (Life store uptime_store)
  ticks zero l = some l
  ticks (suc n) l = run_tick l >>= ticks n

  -- The state, with the pumps shut down after those that `l` has, and the wait group released once.
  abbrev pub after_shutdown :
      Life store uptime_store → Life store uptime_store → Life store uptime_store
  after_shutdown l l' = record l' {
    shut_down = l.shut_down ++ map (λ a. a.name) pumps;
    waiting = l.waiting - 1;
  }

  -- A tick shuts no pump down, and leaves the wait group alone.
  shutdown-run_tick :
      (l : Life store uptime_store) (f : Life store uptime_store → Option (Life store uptime_store))
      → (run_tick l >>= λ l'. f l' >>= λ u. some (after_shutdown l' u))
        ≡ (run_tick l >>= λ l'. f l' >>= λ u. some (after_shutdown l u))
  unfolding tick purge_uptime
  shutdown-run_tick l f =
      elim (Option-cases
        (purge system_max (map (λ a. a.options) pumps) store serializers l.analytics)) [
          | inl e ↦ rw e refl
          | inr (p, e) ↦
              rw e
                (elim (Bool-cases dont_purge_uptime_data) [ inl b ↦ rw b refl | inr b ↦ rw b refl ])
        ]

  -- When the signal comes after `n` ticks, the loop finishes the tick that it is in and ends: it does not
  -- purge again, however many ticks would follow. Each pump is then shut down, once and in order, none by a
  -- tick before, and the wait group of the process is released once.
  pub purge_loop_ends :
      (n : ℕ) (later : List Bool) (l : Life store uptime_store)
      → purge_loop system_max dont_purge_uptime_data pumps store uptime_store serializers
          (signal_after n later)
          l
        ≡ (ticks (suc n) l >>= λ l'. some (after_shutdown l l'))
  unfolding purge_loop shut_down_pumps
  purge_loop_ends zero later l = shutdown-run_tick l some ∙ >>=_assoc (run_tick l) some _
  purge_loop_ends (suc n) later l =
      bind-cong (run_tick l) (λ l'. purge_loop_ends n later l')
      ∙ shutdown-run_tick l (ticks (suc n))
      ∙ >>=_assoc (run_tick l) (ticks (suc n)) _
