-- ===== src/Pump/Purge/Answered.antt =====
-- main.go: one tick of the purge loop, over a store whose calls may fail.
use mathlib.Core.Path.{ap₂}
use tyk_pump.Base.{
  ◌≡◌, refl, ap, ◌∙◌, Bool, true, false, ◌&&◌, List, [], ◌∷◌, map, Option, none, some, ◌>>=◌,
  for_each, Text, same, Int64, if_false, Option-cases, inl, inr, if◌then◌else◌, arith,
}
use tyk_pump.Pump.Config.{CommonPumpConfig}
use tyk_pump.Pump.Purge.{Serializer, Store, Deliveries, deliver, purge}
use tyk_pump.Pump.Purge.Round.{
  purge_keys, round_keys, is_fresh, are_distinct, deliver_all, visit, visit_keys-flat,
}

-- What the documentation of the store says of a call that returns no error: it returns all values of the
-- key and empties it, and leaves the other keys alone.
pub record TakesIfAnswered (store : Store) : Type 0 where
  pub contents : Text → store.State → List Text
  pub takes :
      (k : Text) (s : store.State) {vs : List Text}
      → (store.get_and_delete_set k s).0 ≡ some vs
      → vs ≡ contents k s
  pub empties :
      (k j : Text) (s : store.State) {vs : List Text}
      → (store.get_and_delete_set k s).0 ≡ some vs
      → contents j (store.get_and_delete_set k s).1 ≡ (if same k j then [] else contents j s)

abbrev pub has_values : Option (List Text) → Bool
has_values none = false
has_values (some vs) = true

-- Whether no call for the keys, one after the other, returns an error.
unfoldable pub are_answered : (store : Store) → List (Serializer × Text) → store.State → Bool
are_answered store [] s = true
are_answered store ((z, k) ∷ ks) s =
    has_values (store.get_and_delete_set k s).0
    && are_answered store ks (store.get_and_delete_set k s).1

module _ (system_max : Int64) (pumps : List CommonPumpConfig) (store : Store)
    (laws : TakesIfAnswered store) where
  -- What the keys hold.
  abbrev pub held : List (Serializer × Text) → store.State → List (Serializer × List Text)
  held ks s = map (λ k. (k.0, laws.contents k.1 s)) ks

  held_after :
      (k : Text) (ks : List (Serializer × Text)) (s : store.State) {vs : List Text}
      → (store.get_and_delete_set k s).0 ≡ some vs
      → is_fresh k ks ≡ true
      → held ks (store.get_and_delete_set k s).1 ≡ held ks s
  unfolding is_fresh
  held_after k [] s e h = refl
  held_after k ((z, j) ∷ ks) s e h =
      ap₂ (λ ws rest. (z, ws) ∷ rest)
        (laws.empties k j s e ∙ if_false (same k j) [] (laws.contents j s) (ground arith))
        (held_after k ks s e (ground arith))

  visit_answered :
      (ks : List (Serializer × Text)) (s : store.State) (done : Deliveries)
      → are_distinct ks ≡ true
      → are_answered store ks s ≡ true
      → (for_each (visit system_max pumps store) ks (s, done) >>= λ p. some p.1)
        ≡ deliver_all system_max pumps store (held ks s) done
  unfolding for_each visit deliver_all are_distinct are_answered
  visit_answered [] s done h a = refl
  visit_answered ((z, k) ∷ ks) s done h a = elim (Option-cases (store.get_and_delete_set k s).0) [
    | inl e ↦ absurd (cc (rw e at a))
    | inr (vs, e) ↦
        rw (e, laws.takes k s e)
          (elim (Option-cases (deliver system_max pumps store z (laws.contents k s) done)) [
            | inl f ↦ rw f
            | inr (d, f) ↦ rw f (
                visit_answered ks (store.get_and_delete_set k s).1 d (ground arith) (ground arith)
                ∙ ap (λ bs. deliver_all system_max pumps store bs d)
                    (held_after k ks s e (ground arith)))
          ])
  ]

  -- A tick delivers what each of its keys held when the tick began, key by key, and each once: if the
  -- names of the keys are distinct, and no call of the store in it returns an error.
  pub purge_delivers_answered :
      (zs : List Serializer) (s : store.State)
      → are_distinct (purge_keys zs) ≡ true
      → are_answered store (purge_keys zs) s ≡ true
      → (purge system_max pumps store zs s >>= λ p. some p.1)
        ≡ deliver_all system_max pumps store (held (purge_keys zs) s) []
  unfolding purge purge_keys
  purge_delivers_answered zs s h a =
      ap (λ m. m >>= λ p. some p.1) (visit_keys-flat system_max pumps store zs 11 0 (s, []))
      ∙ visit_answered (round_keys zs 11 0) s [] h a
