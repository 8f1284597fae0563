-- ===== src/Mongo/McpUpserts/Mirrored.antt =====
-- pumps/mcp_mongo_aggregate.go: `addMCPDimensionUpdates` mirrors `generateBSONFromProperty`.
use mathlib.Core.Path.{ap₂}
use tyk_pump.Base.{
  ◌≡◌, refl, sym, ap, ◌∙◌, true, false, List, [], ◌∷◌, some, ◌++◌, filter, All, All-snoc, Int64,
  list_laws, Text, text, same, same-append, is_empty, Map, insert, lookup, Agrees, insert-Agrees,
  insert-insert-Agrees, ◌==◌, Bool-cases, inl, inr, if_false, if◌then◌else◌,
}
use tyk_pump.Floats.{FloatOps}
use tyk_pump.Aggregate.Counter.{Counter}
use tyk_pump.Aggregate.Mcp.{McpRecordAggregate}
use tyk_pump.Aggregate.Dimensions.{DimensionEntry, mcp_dimensions}
use tyk_pump.Aggregate.Change.{
  Bson, number, real, Update, constructor_of, put_all, errors_of, error_fields, inc_fields,
  max_fields, min_fields, made, generate_bson_from_property, generate_all, as_change,
}
use tyk_pump.Mongo.McpUpserts.{
  is_mcp_dimension, mcp_inc_fields, prefix_of, add_dimension_update, add_mcp_dimension_updates,
  mcp_update,
}

put_all-Agrees :
    (path : Text) (fields m n : Map Bson)
    → Agrees m n
    → Agrees (put_all path fields m) (put_all path fields n)
unfolding put_all
put_all-Agrees path [] m n h = h
put_all-Agrees path ((f, v) ∷ fields) m n h =
    put_all-Agrees path fields (insert (path ++ f) v m) (insert (path ++ f) v n)
      (insert-Agrees (path ++ f) v m n h)

-- Two assignments to different fields, in either order.
swap :
    (path f g : Text) (v w : Bson) (fields m : Map Bson)
    → same f g ≡ false
    → Agrees (put_all path ((f, v) ∷ (g, w) ∷ fields) m) (put_all path ((g, w) ∷ (f, v) ∷ fields) m)
unfolding put_all
swap path f g v w fields m h =
    put_all-Agrees path fields _ _
      (insert-insert-Agrees (path ++ f) (path ++ g) v w m (same-append path f g ∙ h))

-- An assignment to a field that is not among those that follow can as well be the last.
move_last :
    (path f : Text) (v : Bson) (fields m : Map Bson)
    → All (λ e. same f e.0 ≡ false) fields
    → Agrees (put_all path ((f, v) ∷ fields) m) (put_all path (fields ++ ((f, v) ∷ [])) m)
unfolding put_all
move_last path f v [] m a = λ j. refl
move_last path f v ((g, w) ∷ fields) m a =
    λ j. swap path f g v w fields m a.0 j ∙ move_last path f v fields (insert (path ++ g) w m) a.1 j

-- A field that is not one of the errors'.
apart :
    (name : Text) (es : Map Int64)
    → ((k : Text) → same name (text "errormap." ++ k) ≡ false)
    → All (λ e. same name e.0 ≡ false) (error_fields es)
apart name [] h = tt
apart name ((k, n) ∷ es) h = (h k, apart name es h)

-- The last three numbers, in front of the errors and behind them.
behind_errors :
    (path : Text) (t l u : Bson) (es : Map Int64) (m : Map Bson)
    → Agrees
        (put_all path
          ((text "totalrequesttime", t)
            ∷ (text "totallatency", l)
            ∷ (text "totalupstreamlatency", u)
            ∷ error_fields es)
          m)
        (put_all path
          (error_fields es
            ++ ((text "totalrequesttime", t)
                ∷ (text "totalupstreamlatency", u)
                ∷ (text "totallatency", l)
                ∷ []))
          m)
unfolding put_all same
behind_errors path t l u es m =
    let errors = error_fields es in
    let time : Text × Bson = (text "totalrequesttime", t) in
    let upstream : Text × Bson = (text "totalupstreamlatency", u) in
    let total : Text × Bson = (text "totallatency", l) in
    λ j.
      swap path (text "totallatency") (text "totalupstreamlatency") l u errors
        (insert (path ++ text "totalrequesttime") t m) refl j
      ∙ move_last path time.0 t (upstream ∷ total ∷ errors) m
          (refl, (refl, apart time.0 es (λ k. refl))) j
      ∙ move_last path upstream.0 u (total ∷ (errors ++ (time ∷ []))) m
          (refl, All-snoc _ errors time (apart upstream.0 es (λ k. refl)) refl) j
      ∙ move_last path total.0 l ((errors ++ (time ∷ [])) ++ (upstream ∷ [])) m
          (All-snoc _ (errors ++ (time ∷ [])) upstream
            (All-snoc _ errors time (apart total.0 es (λ k. refl)) refl) refl)
          j
      ∙ ap (λ fields. lookup j (put_all path fields m)) (in_order errors time upstream total)
  where
    in_order :
        (xs : Map Bson) (x y z : Text × Bson)
        → ((xs ++ (x ∷ [])) ++ (y ∷ [])) ++ (z ∷ []) ≡ xs ++ (x ∷ y ∷ z ∷ [])
    in_order xs x y z = simp list_laws

abbrev last_fields : Counter → Map Bson
last_fields c =
    (text "totalrequesttime", real c.total_request_time)
    ∷ (text "totallatency", number c.total_latency)
    ∷ (text "totalupstreamlatency", number c.total_upstream_latency)
    ∷ error_fields (errors_of c.error_map)

inc_fields-Agrees :
    (path : Text) (c : Counter) (m : Map Bson)
    → Agrees (put_all path (mcp_inc_fields c) m) (put_all path (inc_fields c) m)
unfolding put_all same
inc_fields-Agrees path c m =
    let counted = insert (path ++ text "hits") (number c.hits) m in
    let e = number c.error_total in
    let s = number c.success in
    λ j.
      swap path (text "errortotal") (text "success") e s (last_fields c) counted refl j
      ∙ behind_errors path (real c.total_request_time) (number c.total_latency)
          (number c.total_upstream_latency) (errors_of c.error_map)
          (insert (path ++ text "errortotal") e (insert (path ++ text "success") s counted)) j

-- The two updates add the same, and have the same maxima and minima.
pub record Mirrors (u v : Update) : Type 0 where
  pub inc : Agrees u.inc v.inc
  pub max : u.max ≡ v.max
  pub min : u.min ≡ v.min

mcp_name-is_empty : (n : Text) → is_mcp_dimension n ≡ true → is_empty n ≡ false
unfolding is_mcp_dimension same
mcp_name-is_empty [] h = cc
mcp_name-is_empty (x ∷ n) h = refl

prefix-constructor_of :
    (d : DimensionEntry)
    → is_mcp_dimension d.name ≡ true
    → prefix_of d ≡ constructor_of d.name d.value
unfolding constructor_of
prefix-constructor_of d h = sym (if_false _ _ _ (mcp_name-is_empty d.name h))

update-Mirrors :
    (d : DimensionEntry) (u v : Update)
    → is_mcp_dimension d.name ≡ true
    → Mirrors u v
    → Mirrors (add_dimension_update d u) (generate_bson_from_property d.name d.value d.counter v)
unfolding add_dimension_update generate_bson_from_property
update-Mirrors d u v e h =
    let path = prefix-constructor_of d e in
    record {
      inc = λ j.
          inc_fields-Agrees (prefix_of d) d.counter u.inc j
          ∙ put_all-Agrees (prefix_of d) (inc_fields d.counter) u.inc v.inc h.inc j
          ∙ ap (λ p. lookup j (put_all p (inc_fields d.counter) v.inc)) path;
      max = ap₂ (λ p m. put_all p (max_fields d.counter) m) path h.max;
      min =
          ap₂
            (λ p m.
              if d.counter.hits == d.counter.error_total
              then m
              else some (put_all p (min_fields d.counter) (made m)))
            path h.min;
    }

updates-Mirrors :
    (ds : List DimensionEntry) (u v : Update)
    → Mirrors u v
    → Mirrors
        (add_mcp_dimension_updates ds u)
        (generate_all (filter (λ d. is_mcp_dimension d.name) ds) v)
unfolding add_mcp_dimension_updates generate_all
updates-Mirrors [] u v h = h
updates-Mirrors (d ∷ ds) u v h = elim (Bool-cases (is_mcp_dimension d.name)) [
  | inl e ↦ rw e (updates-Mirrors ds _ _ (update-Mirrors d u v e h))
  | inr e ↦ rw e (updates-Mirrors ds u v h)
]

-- The update of an MCP aggregate is, in what it adds at each path and in its maxima and minima, the
-- one that `AsChange` makes of the embedded aggregate, followed by `generateBSONFromProperty` for each
-- dimension of methods, primitives and names: the order of the assignments makes no difference.
pub mcp_update-Mirrors :
    (fl : FloatOps) (a : McpRecordAggregate)
    → Mirrors (mcp_update fl a) (
        generate_all
          (filter (λ d. is_mcp_dimension d.name) (mcp_dimensions fl a))
          (as_change fl a.aggregate))
unfolding mcp_update
mcp_update-Mirrors fl a =
    updates-Mirrors (mcp_dimensions fl a) (as_change fl a.aggregate) (as_change fl a.aggregate)
      (record { inc = λ j. refl; max = refl; min = refl })
