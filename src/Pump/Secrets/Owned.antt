-- ===== src/Pump/Secrets/Owned.antt =====
-- kv.go: the stores that are opened are handed over or closed.
use tyk_pump.Base.{
  ℕ, ◌+◌, ◌-◌, ◌≡◌, refl, ◌∙◌, Option, none, some, Text, Bool-cases, Option-cases, inl, inr, ◌==◌,
  arith,
}
use tyk_pump.Pump.Secrets.{
  Stores, Resolved, failed, resolved, keep_decoded, decode_resolved, resolve_with,
  resolve_marshaled, resolve_kv_references,
}

-- What the packages say of the connections that are open: making a registry opens one or fails, resolving
-- opens none, and closing a registry closes its own.
pub record Counts (stores : Stores) : Type 0 where
  pub open_stores : stores.State → ℕ
  pub opens :
      (bytes : Text) (s : stores.State) (r : stores.Registry)
      → (stores.new_from_config bytes s).0 ≡ some r
      → open_stores (stores.new_from_config bytes s).1 ≡ open_stores s + 1
  pub fails :
      (bytes : Text) (s : stores.State)
      → (stores.new_from_config bytes s).0 ≡ none
      → open_stores (stores.new_from_config bytes s).1 ≡ open_stores s
  pub resolves :
      (r : stores.Registry) (bytes : Text) (s : stores.State)
      → open_stores (stores.resolve_all r bytes s).1 ≡ open_stores s
  pub closes :
      (r : stores.Registry) (s : stores.State)
      → open_stores (stores.close r s).1 ≡ open_stores s - 1

-- The registries that the caller has to close.
abbrev pub handed_over : {R C : Type 0} → Resolved R C → ℕ
handed_over failed = 0
handed_over (resolved none config) = 0
handed_over (resolved (some r) config) = 1

module _ (stores : Stores) (laws : Counts stores) where
  keep_decoded-counts :
      (r : stores.Registry) (o : Option stores.Config) (s : stores.State) (n : ℕ)
      → laws.open_stores s ≡ n + 1
      → laws.open_stores (keep_decoded stores r o s).1
        ≡ n + handed_over (keep_decoded stores r o s).0
  keep_decoded-counts r none s n h = omega (arith, laws.closes r s)
  keep_decoded-counts r (some config) s n h = h

  decode_resolved-counts :
      (config : stores.Config) (r : stores.Registry) (p : Option Text × stores.State) (n : ℕ)
      → laws.open_stores p.1 ≡ n + 1
      → laws.open_stores (decode_resolved stores config r p).1
        ≡ n + handed_over (decode_resolved stores config r p).0
  decode_resolved-counts config r (none, s) n h = omega (arith, laws.closes r s)
  decode_resolved-counts config r (some bytes, s) n h =
      keep_decoded-counts r (stores.unmarshal bytes config) s n h

  resolve_with-counts :
      (config : stores.Config) (bytes : Text) (p : Option stores.Registry × stores.State) (n : ℕ)
      → (p.0 ≡ none → laws.open_stores p.1 ≡ n)
      → ((r : stores.Registry) → p.0 ≡ some r → laws.open_stores p.1 ≡ n + 1)
      → laws.open_stores (resolve_with stores config bytes p).1
        ≡ n + handed_over (resolve_with stores config bytes p).0
  resolve_with-counts config bytes (none, s) n f h = omega (arith, f refl)
  resolve_with-counts config bytes (some r, s) n f h =
      decode_resolved-counts config r (stores.resolve_all r bytes s) n
        (laws.resolves r bytes s ∙ h r refl)

  -- `resolveKVReferences` leaks no connection: on each of its paths, errors included, those that it leaves open
  -- are those that were open and those of the stores that it returns, which the caller closes.
  pub resolve_kv_references-counts :
      (store_count : ℕ) (config : stores.Config) (s : stores.State)
      → laws.open_stores (resolve_kv_references stores store_count config s).1
        ≡ laws.open_stores s + handed_over (resolve_kv_references stores store_count config s).0
  unfolding resolve_kv_references
  resolve_kv_references-counts store_count config s = elim (Option-cases (stores.marshal config)) [
    | inl e ↦ rw e (omega arith)
    | inr (bytes, e) ↦ rw e (marshaled bytes)
  ]
    where
      marshaled :
          (bytes : Text)
          → laws.open_stores (resolve_marshaled stores store_count config (some bytes) s).1
            ≡ laws.open_stores s
              + handed_over (resolve_marshaled stores store_count config (some bytes) s).0
      marshaled bytes = elim (Bool-cases (store_count == 0)) [
        | inl z ↦ rw z (elim (Bool-cases (stores.contains_references bytes)) [
          | inl c ↦ rw c (omega arith)
          | inr c ↦ rw c (omega arith)
        ])
        | inr z ↦ rw z (
            resolve_with-counts config bytes (stores.new_from_config bytes s) (laws.open_stores s)
              (laws.fails bytes s) (laws.opens bytes s))
      ]
