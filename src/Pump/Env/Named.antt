-- ===== src/Pump/Env/Named.antt =====
-- config.go: what `LoadPumpsByEnv` makes of each pump.
use tyk_pump.Base.{
  ◌≡◌, refl, ap, ◌∙◌, Bool, true, false, not, ◌&&◌, ◌||◌, List, [], ◌∷◌, any, Option, none, some,
  Text, same, same_iff, Map, lookup, lookup-insert, Bool-cases, inl, inr, if◌then◌else◌, arith,
}
use tyk_pump.Pump.Life.{PumpConfig}
use tyk_pump.Pump.Env.{
  Environment, environ, pump_name, note_name, env_names, pump_or_zero, pump_type, with_env,
  store_pump, load_pump, load_pumps_by_env,
}

-- The variable names the pump.
abbrev pub names_pump : Text → Option Text → Bool
names_pump j none = false
names_pump j (some name) = same name j

-- Some variable of the environment names the pump.
abbrev pub is_named : Environment → Text → Bool
is_named env j = any (λ variable. names_pump j (pump_name variable)) (environ env)

abbrev pub is_found : {A : Type 0} → Option A → Bool
is_found none = false
is_found (some a) = true

is_found-note_name :
    (j : Text) (o : Option Text) (names : Map Bool)
    → is_found (lookup j (note_name o names)) ≡ (names_pump j o || is_found (lookup j names))
is_found-note_name j none names = refl
is_found-note_name j (some name) names =
    ap is_found (lookup-insert name j true names) ∙ either (same name j) (lookup j names)
  where
    either :
        (b : Bool) (o : Option Bool) → is_found (if b then some true else o) ≡ (b || is_found o)
    either true o = refl
    either false o = refl

-- The names of the set are those of the variables.
is_found-env_names :
    (j : Text) (variables : List Text) (names : Map Bool)
    → is_found (lookup j (env_names variables names))
      ≡ (any (λ variable. names_pump j (pump_name variable)) variables || is_found (lookup j names))
unfolding env_names
is_found-env_names j [] names = refl
is_found-env_names j (variable ∷ variables) names =
    is_found-env_names j variables (note_name (pump_name variable) names)
    ∙ ap (λ b. any (λ v. names_pump j (pump_name v)) variables || b)
        (is_found-note_name j (pump_name variable) names)
    ∙ regroup (any (λ v. names_pump j (pump_name v)) variables) (names_pump j (pump_name variable))
        (is_found (lookup j names))
  where
    regroup : (a b c : Bool) → (a || (b || c)) ≡ ((b || a) || c)
    regroup true true c = refl
    regroup true false c = refl
    regroup false true c = refl
    regroup false false c = refl

abbrev pub is_in : Text → List Text → Bool
is_in j names = any (λ name. same name j) names

-- No name twice.
unfoldable pub are_different : List Text → Bool
are_different [] = true
are_different (name ∷ names) = not (is_in name names) && are_different names

-- The names of the set, in some order.
pub record Lists (env : Environment) (order : List Text) : Type 0 where
  pub once : are_different order ≡ true
  pub all : (j : Text) → is_in j order ≡ is_found (lookup j (env_names (environ env) []))

module _ {V : Type 0} (text_value : Text → V)
    (process : Text → PumpConfig (Map V) → PumpConfig (Map V)) (env : Environment) where
  abbrev with_type : Text → Option Text → Option (PumpConfig (Map V)) → Option (PumpConfig (Map V))
  with_type name none o = o
  with_type name (some pmp_type) o =
      some (with_env text_value process env name pmp_type (pump_or_zero text_value process env o))

  -- What becomes of the entry of a name: it stays where the pump has no type.
  unfoldable pub loaded : Text → Option (PumpConfig (Map V)) → Option (PumpConfig (Map V))
  loaded name o =
      with_type name (pump_type text_value process env name (pump_or_zero text_value process env o))
        o

  lookup-store_pump :
      (name j : Text) (t : Option Text) (pumps : Map (PumpConfig (Map V)))
      → lookup j (
          store_pump text_value process env name t
            (pump_or_zero text_value process env (lookup name pumps))
            pumps)
        ≡ (if same name j then with_type name t (lookup name pumps) else lookup j pumps)
  lookup-store_pump name j none pumps = elim (Bool-cases (same name j)) [
    | inl e ↦ rw (e, (same_iff name j).0 e) refl
    | inr e ↦ rw e refl
  ]
  lookup-store_pump name j (some t) pumps = lookup-insert name j _ pumps

  lookup-load_pump :
      (name j : Text) (pumps : Map (PumpConfig (Map V)))
      → lookup j (load_pump text_value process env name pumps)
        ≡ (if same name j then loaded name (lookup name pumps) else lookup j pumps)
  unfolding load_pump loaded
  lookup-load_pump name j pumps =
      lookup-store_pump name j
        (pump_type text_value process env name
          (pump_or_zero text_value process env (lookup name pumps)))
        pumps

  lookup-load_pumps :
      (j : Text) (names : List Text) (pumps : Map (PumpConfig (Map V)))
      → are_different names ≡ true
      → lookup j (load_pumps_by_env text_value process env names pumps)
        ≡ (if is_in j names then loaded j (lookup j pumps) else lookup j pumps)
  unfolding load_pumps_by_env are_different
  lookup-load_pumps j [] pumps d = refl
  lookup-load_pumps j (name ∷ names) pumps d =
      lookup-load_pumps j names (load_pump text_value process env name pumps) (ground arith)
      ∙ elim (Bool-cases (same name j)) [
        | inl e ↦
            let eq = (same_iff name j).0 e in
            let once : is_in j names ≡ false = rw (← eq) (ground arith) in
            rw (once, lookup-load_pump name j pumps, e, eq) refl
        | inr e ↦ rw (lookup-load_pump name j pumps, e) refl
      ]

  -- Whatever the order in which Go visits the names that the environment has, `LoadPumpsByEnv` changes
  -- the entries of the pumps that a variable names, each by itself, and leaves every other.
  pub load_pumps_by_env-loaded :
      (order : List Text) (pumps : Map (PumpConfig (Map V)))
      → Lists env order
      → (j : Text)
      → lookup j (load_pumps_by_env text_value process env order pumps)
        ≡ (if is_named env j then loaded j (lookup j pumps) else lookup j pumps)
  unfolding lookup
  load_pumps_by_env-loaded order pumps h j =
      lookup-load_pumps j order pumps h.once
      ∙ ap (λ b. if b then loaded j (lookup j pumps) else lookup j pumps)
          (h.all j ∙ is_found-env_names j (environ env) [] ∙ nothing_else (is_named env j))
    where
      nothing_else : (b : Bool) → (b || false) ≡ b
      nothing_else true = refl
      nothing_else false = refl
