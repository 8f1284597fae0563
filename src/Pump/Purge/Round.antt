-- ===== src/Pump/Purge/Round.antt =====
-- main.go: one tick of the purge loop takes each key once, and delivers what it held.
use mathlib.Core.Path.{ap₂}
use tyk_pump.Base.{
  ℕ, zero, suc, ◌≡◌, refl, sym, ap, ◌∙◌, Bool, true, not, ◌&&◌, List, [], ◌∷◌, ◌++◌, Option,
  if_false, some, ◌>>=◌, >>=_assoc, bind-cong, for_each, for_each-append, Text, same, Int64,
  Option-cases, inl, inr, if◌then◌else◌, arith,
}
use tyk_pump.Pump.Config.{CommonPumpConfig}
use tyk_pump.Pump.Purge.{
  Serializer, Store, Deliveries, key_name, values_or_none, deliver, visit_serializers, visit_keys,
  purge,
}

-- The keys that the loop over the serializers visits, and those of `n` rounds from round `i` on.
unfoldable pub serializer_keys : List Serializer → Text → List (Serializer × Text)
serializer_keys [] key = []
serializer_keys (z ∷ zs) key = (z, key ++ z.suffix) ∷ serializer_keys zs (key ++ z.suffix)

unfoldable pub round_keys : List Serializer → ℕ → ℕ → List (Serializer × Text)
unfolding serializer_keys
round_keys zs zero i = []
round_keys zs (suc n) i = serializer_keys zs (key_name i) ++ round_keys zs n (suc i)

-- The keys of a tick.
unfoldable pub purge_keys : List Serializer → List (Serializer × Text)
unfolding round_keys
purge_keys zs = round_keys zs 11 0

unfoldable pub is_fresh : Text → List (Serializer × Text) → Bool
is_fresh k [] = true
is_fresh k ((z, j) ∷ ks) = not (same k j) && is_fresh k ks

-- No key is visited twice.
unfoldable pub are_distinct : List (Serializer × Text) → Bool
unfolding is_fresh
are_distinct [] = true
are_distinct ((z, k) ∷ ks) = is_fresh k ks && are_distinct ks

-- What the documentation of the store says: a call returns all values of the key and empties it,
-- and leaves the other keys alone.
pub record TakesAll (store : Store) : Type 0 where
  pub contents : Text → store.State → List Text
  pub takes : (k : Text) (s : store.State) → (store.get_and_delete_set k s).0 ≡ some (contents k s)
  pub empties :
      (k j : Text) (s : store.State)
      → contents j (store.get_and_delete_set k s).1 ≡ (if same k j then [] else contents j s)

module _ (system_max : Int64) (pumps : List CommonPumpConfig) (store : Store) where
  -- Batches delivered one after the other.
  unfoldable pub deliver_all : List (Serializer × List Text) → Deliveries → Option Deliveries
  deliver_all [] done = some done
  deliver_all ((z, vs) ∷ batches) done =
      deliver system_max pumps store z vs done >>= deliver_all batches

  unfoldable pub visit :
      Serializer × Text → store.State × Deliveries → Option (store.State × Deliveries)
  visit (z, k) (s, done) =
      deliver system_max pumps store z (values_or_none (store.get_and_delete_set k s).0) done
      >>= λ done'. some ((store.get_and_delete_set k s).1, done')

  visit_serializers-flat :
      (zs : List Serializer) (key : Text) (s : store.State × Deliveries)
      → visit_serializers system_max pumps store zs key s
        ≡ for_each visit (serializer_keys zs key) s
  unfolding visit_serializers for_each visit serializer_keys
  visit_serializers-flat [] key s = refl
  visit_serializers-flat (z ∷ zs) key (s, done) =
      bind-cong (deliver system_max pumps store z _ done)
        (λ d. visit_serializers-flat zs (key ++ z.suffix) _)
      ∙ >>=_assoc (deliver system_max pumps store z _ done) _ _

  pub visit_keys-flat :
      (zs : List Serializer) (n i : ℕ) (s : store.State × Deliveries)
      → visit_keys system_max pumps store zs n i s ≡ for_each visit (round_keys zs n i) s
  unfolding visit_keys round_keys for_each
  visit_keys-flat zs zero i s = refl
  visit_keys-flat zs (suc n) i s =
      bind-cong (visit_serializers system_max pumps store zs (key_name i) s)
        (λ t. visit_keys-flat zs n (suc i) t)
      ∙ ap (λ m. m >>= for_each visit (round_keys zs n (suc i)))
          (visit_serializers-flat zs (key_name i) s)
      ∙ sym (for_each-append visit (serializer_keys zs (key_name i)) (round_keys zs n (suc i)) s)

  module _ (laws : TakesAll store) where
    unfoldable pub batches : List (Serializer × Text) → store.State → List (Serializer × List Text)
    batches [] s = []
    batches ((z, k) ∷ ks) s = (z, laws.contents k s) ∷ batches ks s

    batches_after :
        (k : Text) (ks : List (Serializer × Text)) (s : store.State)
        → is_fresh k ks ≡ true
        → batches ks (store.get_and_delete_set k s).1 ≡ batches ks s
    unfolding batches is_fresh
    batches_after k [] s h = refl
    batches_after k ((z, j) ∷ ks) s h =
        ap₂ (λ vs rest. (z, vs) ∷ rest)
          (laws.empties k j s ∙ if_false (same k j) [] (laws.contents j s) (ground arith))
          (batches_after k ks s (ground arith))

    visit_all :
        (ks : List (Serializer × Text)) (s : store.State) (done : Deliveries)
        → are_distinct ks ≡ true
        → (for_each visit ks (s, done) >>= λ p. some p.1) ≡ deliver_all (batches ks s) done
    unfolding for_each visit deliver_all batches are_distinct
    visit_all [] s done h = refl
    visit_all ((z, k) ∷ ks) s done h =
        rw (laws.takes k s)
          (elim (Option-cases (deliver system_max pumps store z (laws.contents k s) done)) [
            | inl e ↦ rw e
            | inr (d, e) ↦ rw e (
                visit_all ks (store.get_and_delete_set k s).1 d (ground arith)
                ∙ ap (λ bs. deliver_all bs d) (batches_after k ks s (ground arith)))
          ])

    -- A tick delivers what each of its keys held when the tick began, key by key, and each once: if
    -- the names of the keys are distinct and the store takes all values of a key at a time.
    pub purge_delivers :
        (zs : List Serializer) (s : store.State)
        → are_distinct (purge_keys zs) ≡ true
        → (purge system_max pumps store zs s >>= λ p. some p.1)
          ≡ deliver_all (batches (purge_keys zs) s) []
    unfolding purge purge_keys
    purge_delivers zs s h =
        ap (λ m. m >>= λ p. some p.1) (visit_keys-flat zs 11 0 (s, []))
        ∙ visit_all (round_keys zs 11 0) s [] h
