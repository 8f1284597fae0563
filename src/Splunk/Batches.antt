-- ===== src/Splunk/Batches.antt =====
-- pumps/splunk.go: what is sent in the end.
use mathlib.Core.List.{append-nil}
use mathlib.Core.Path.{subst}
use tyk_pump.Base.{
  concat-snoc, list_laws, ◌<◌, ◌≡◌, refl, sym, ap, ◌∙◌, ◌⊎◌, inl, inr, Bool, true, false, ◌&&◌,
  List, [], ◌∷◌, ◌++◌, Option, none, some, ◌>>=◌, >>=-eq-some, for_each, map, Text, All, In,
  All-snoc, concat, length, ltb, Bool-cases, if_true, if_false, arith,
}
use tyk_pump.Analytics.Record.{AnalyticsRecord}
use tyk_pump.Aggregate.Data.{analytics}
use tyk_pump.Splunk.{
  SplunkPumpConfig, Client, event_of, add_encoded, add_value, write_data, Flow, goes_on, fails,
  add_event, and_then, add_events, is_sent, flush, send_events,
}
use tyk_pump.Splunk.Sent.{Receives, IsWithin, FlowSent, IsSmall, add_events-FlowSent}

module _ (conf : SplunkPumpConfig) (client : Client) (laws : Receives client)
    (events : List Text) where
  -- How `WriteData` ends: it returns nil, and the requests have the events, each once, in order.
  pub record Delivered (s : client.State) (end : Bool × client.State) : Type 0 where
    pub succeeded : end.0 ≡ true
    pub requests : List Text
    pub logged : laws.sent end.1 ≡ laws.sent s ++ requests
    pub complete : concat requests ≡ concat events
    pub bounded : All (IsWithin conf client laws events) requests

  flush-Delivered :
      (s : client.State) (flow : Flow client.State)
      → FlowSent conf client laws events [] events s flow
      → Delivered s (flush conf client flow)
  unfolding flush
  flush-Delivered s (fails t) h = absurd h
  flush-Delivered s (goes_on b t) h = elim (Bool-cases (conf.enable_batch && ltb 0 (length b))) [
    | inl e ↦
        subst (Delivered s)
          (sym (if_true _ _ _ e ∙ sent_last (client.send b t) (laws.succeeds b t)))
          (record {
            succeeded = refl;
            requests = h.requests ++ (b ∷ []);
            logged = laws.appends b t ∙ ap (λ x. x ++ (b ∷ [])) h.logged ∙ simp list_laws;
            complete = concat-snoc h.requests b ∙ h.complete;
            bounded = All-snoc (IsWithin conf client laws events) h.requests b h.bounded h.rest;
          })
    | inr e ↦ subst (Delivered s) (sym (if_false _ _ _ e)) (record {
      succeeded = refl;
      requests = h.requests;
      logged = h.logged;
      complete =
          sym (append-nil (concat h.requests))
          ∙ ap (λ x. concat h.requests ++ x)
              (sym (no_rest (Bool-cases conf.enable_batch) b e h.unbatched))
          ∙ h.complete;
      bounded = h.bounded;
    })
  ]
    where
      sent_last :
          (p : Option Text × client.State) → p.0 ≡ none → is_sent conf client p ≡ (true, p.1)
      sent_last (none, u) h = refl
      sent_last (some e, u) h = cc

      no_rest :
          (conf.enable_batch ≡ true) ⊎ (conf.enable_batch ≡ false)
          → (b : Text) → (conf.enable_batch && ltb 0 (length b)) ≡ false
          → (conf.enable_batch ≡ false → b ≡ [])
          → b ≡ []
      no_rest (inr q) b e u = u q
      no_rest (inl q) [] e u = refl
      no_rest (inl q) (x ∷ b) e u = absurd (ground arith)

  members :
      (es : List Text)
      → ((e : Text) → In e es → In e events)
      → All (IsSmall conf client laws events) es
      → All (λ e. In e events × IsSmall conf client laws events e) es
  members [] f a = tt
  members (e ∷ es) f a = ((f e (inl refl), a.0), members es (λ d i. f d (inr i)) a.1)

  send_events-Delivered :
      (s : client.State)
      → conf.batch_max_content_length < 4611686018427387904
      → All (IsSmall conf client laws events) events
      → Delivered s (send_events conf client events s)
  unfolding send_events
  send_events-Delivered s m a = flush-Delivered s (add_events conf client events [] s) (
      add_events-FlowSent conf client laws events events [] s m a (members events (λ e i. i) a)
        (inl (omega arith)) (λ h. refl))

module _ (conf : SplunkPumpConfig) (client : Client) (encoded : AnalyticsRecord → Text) where
  -- The record becomes an event, and the event JSON.
  abbrev pub IsEncoded : AnalyticsRecord → Type 0
  IsEncoded r = (event_of conf r >>= λ event. client.marshal r.time_stamp event) ≡ some (encoded r)

  add_value-goes_on :
      (r : AnalyticsRecord) (buffer : Text) (s : client.State)
      → IsEncoded r
      → add_value conf client (analytics r) (goes_on buffer s)
        ≡ some (add_event conf client buffer (encoded r) s)
  unfolding add_value
  add_value-goes_on r buffer s h =
      let (event, e, m) =
        >>=-eq-some (event_of conf r) (λ event. client.marshal r.time_stamp event) h in
      ap (λ o. o >>= λ ev. some (add_encoded conf client (client.marshal r.time_stamp ev) buffer s))
        e
      ∙ ap (λ o. some (add_encoded conf client o buffer s)) m

  values-events :
      (rs : List AnalyticsRecord) (flow : Flow client.State)
      → All IsEncoded rs
      → for_each (add_value conf client) (map analytics rs) flow
        ≡ some (and_then conf client flow (add_events conf client (map encoded rs)))
  unfolding for_each add_events add_value
  values-events [] (goes_on b s) a = refl
  values-events [] (fails s) a = refl
  values-events (r ∷ rs) (goes_on b s) a =
      ap (λ o. o >>= for_each (add_value conf client) (map analytics rs))
        (add_value-goes_on r b s a.0)
      ∙ values-events rs (add_event conf client b (encoded r) s) a.1
  values-events (r ∷ rs) (fails s) a = values-events rs (fails s) a.1

  -- With a collector that takes every request, and records that can be encoded, `WriteData` returns nil
  -- without a panic: the requests together have the event of each record once, in order, whether events
  -- are batched or not, and each is no longer than the maximum of the configuration or is one event; if
  -- that maximum and the lengths of the events are below 2 ^ 62.
  pub write_data-Delivered :
      (laws : Receives client) (rs : List AnalyticsRecord) (s : client.State)
      → conf.batch_max_content_length < 4611686018427387904
      → All IsEncoded rs
      → All (IsSmall conf client laws (map encoded rs)) (map encoded rs)
      → (end : Bool × client.State) × (write_data conf client (map analytics rs) s ≡ some end)
        × Delivered conf client laws (map encoded rs) s end
  unfolding write_data send_events
  write_data-Delivered laws rs s m a b = (
    send_events conf client (map encoded rs) s,
    ap (λ o. o >>= λ flow. some (flush conf client flow)) (values-events rs (goes_on [] s) a),
    send_events-Delivered conf client laws (map encoded rs) s m b,
  )
