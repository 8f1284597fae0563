-- ===== src/Splunk/Sent.antt =====
-- pumps/splunk.go: what is sent on the way, with the buffer.
use mathlib.Core.List.{append_assoc}
use mathlib.Core.Path.{subst}
use tyk_pump.Base.{
  list_laws, All-append, ℕ, ◌+◌, ◌<◌, ◌≤◌, ◌≡◌, refl, sym, ap, ◌∙◌, ◌⊎◌, inl, inr, true, false,
  List, [], ◌∷◌, ◌++◌, Option, none, some, Text, All, In, concat, length, length-append, add64,
  lt64, Bool-cases, if_true, if_false, arith,
}
use tyk_pump.Splunk.{
  SplunkPumpConfig, Client, Flow, goes_on, fails, after_send, add_event, and_then, add_events,
}

-- A collector that takes every request, and the requests that it has.
pub record Receives (client : Client) : Type 0 where
  pub sent : client.State → List Text
  pub succeeds : (t : Text) (s : client.State) → (client.send t s).0 ≡ none
  pub appends : (t : Text) (s : client.State) → sent (client.send t s).1 ≡ sent s ++ (t ∷ [])

fits_of :
    (a b m : ℕ)
    → a < 4611686018427387904
    → b < 4611686018427387904
    → m < 4611686018427387904
    → lt64 m (add64 a b) ≡ false
    → a + b ≤ m
unfolding lt64 add64
fits_of a b m p q r h = ground arith

module _ (conf : SplunkPumpConfig) (client : Client) (laws : Receives client)
    (events : List Text) where
  -- A request is no longer than the maximum, or is one event.
  abbrev pub IsWithin : Text → Type 0
  IsWithin r = (length r ≤ conf.batch_max_content_length) ⊎ In r events

  -- What has been sent on the way from one state to another, with a buffer before and after, and the
  -- events in between.
  pub record Sent (buffer : Text) (es : List Text) (s : client.State) (buffer' : Text)
      (s' : client.State) : Type 0 where
    pub requests : List Text
    pub logged : laws.sent s' ≡ laws.sent s ++ requests
    pub complete : concat requests ++ buffer' ≡ buffer ++ concat es
    pub bounded : All IsWithin requests
    pub rest : IsWithin buffer'
    pub unbatched : conf.enable_batch ≡ false → buffer' ≡ []

  abbrev pub FlowSent : Text → List Text → client.State → Flow client.State → Type 0
  FlowSent buffer es s (goes_on buffer' s') = Sent buffer es s buffer' s'
  FlowSent buffer es s (fails s') = ⊥

  -- Requests one after the other.
  Sent-trans :
      (b₀ b₁ b₂ : Text) (e : Text) (es : List Text) (s₀ s₁ s₂ : client.State)
      → Sent b₀ (e ∷ []) s₀ b₁ s₁
      → Sent b₁ es s₁ b₂ s₂
      → Sent b₀ (e ∷ es) s₀ b₂ s₂
  Sent-trans b₀ b₁ b₂ e es s₀ s₁ s₂ h k = record {
    requests = h.requests ++ k.requests;
    logged = k.logged ∙ ap (λ t. t ++ k.requests) h.logged ∙ simp list_laws;
    complete =
        joined
        ∙ ap (λ t. concat h.requests ++ t) k.complete
        ∙ sym (append_assoc (concat h.requests) b₁ (concat es))
        ∙ ap (λ t. t ++ concat es) h.complete
        ∙ event_first;
    bounded = All-append IsWithin h.requests k.requests h.bounded k.bounded;
    rest = k.rest;
    unbatched = k.unbatched;
  }
    where
      joined :
          concat (h.requests ++ k.requests) ++ b₂ ≡ concat h.requests ++ (concat k.requests ++ b₂)
      joined = simp list_laws

      event_first : (b₀ ++ (e ++ [])) ++ concat es ≡ b₀ ++ (e ++ concat es)
      event_first = simp list_laws

  after_send-none :
      (p : Option Text × client.State) (next : client.State → Flow client.State)
      → p.0 ≡ none
      → after_send conf client p next ≡ next p.1
  after_send-none (none, s) next h = refl
  after_send-none (some e, s) next h = cc

  -- The buffer is sent, and the event is the new one.
  buffer_goes_first :
      (buffer e : Text) (s : client.State)
      → IsWithin buffer
      → In e events
      → conf.enable_batch ≡ true
      → Sent buffer (e ∷ []) s e (client.send buffer s).1
  buffer_goes_first buffer e s w i h = record {
    requests = buffer ∷ [];
    logged = laws.appends buffer s;
    complete = simp list_laws;
    bounded = (w, tt);
    rest = inr i;
    unbatched = λ f. cc;
  }

  -- The event goes into the buffer.
  put_behind :
      (buffer e : Text) (s : client.State)
      → length buffer + length e ≤ conf.batch_max_content_length
      → conf.enable_batch ≡ true
      → Sent buffer (e ∷ []) s (buffer ++ e) s
  put_behind buffer e s l h = record {
    requests = [];
    logged = simp list_laws;
    complete = simp list_laws;
    bounded = tt;
    rest = inl (omega (arith, length-append buffer e));
    unbatched = λ f. cc;
  }

  -- The event is sent by itself.
  goes_alone :
      (e : Text) (s : client.State) → In e events → Sent [] (e ∷ []) s [] (client.send e s).1
  goes_alone e s i = record {
    requests = e ∷ [];
    logged = laws.appends e s;
    complete = simp list_laws;
    bounded = (inr i, tt);
    rest = inl (omega arith);
    unbatched = λ f. refl;
  }

  -- Sizes far below the greatest `int`.
  abbrev pub IsSmall : Text → Type 0
  IsSmall r = length r < 4611686018427387904

  add_event-FlowSent :
      (buffer e : Text) (s : client.State)
      → IsWithin buffer
      → IsSmall buffer
      → IsSmall e
      → conf.batch_max_content_length < 4611686018427387904
      → In e events
      → (conf.enable_batch ≡ false → buffer ≡ [])
      → FlowSent buffer (e ∷ []) s (add_event conf client buffer e s)
  unfolding add_event
  add_event-FlowSent buffer e s w sb se m i u = elim (Bool-cases conf.enable_batch) [
    | inl h ↦
        elim (Bool-cases (lt64 conf.batch_max_content_length (add64 (length buffer) (length e)))) [
          | inl f ↦
              subst (FlowSent buffer (e ∷ []) s)
                (sym (
                  if_true conf.enable_batch _ _ h
                  ∙ if_true _ _ _ f
                  ∙ after_send-none (client.send buffer s) (λ s'. goes_on e s')
                      (laws.succeeds buffer s)))
                (buffer_goes_first buffer e s w i h)
          | inr f ↦
              subst (FlowSent buffer (e ∷ []) s)
                (sym (if_true conf.enable_batch _ _ h ∙ if_false _ _ _ f))
                (put_behind buffer e s (fits f) h)
        ]
    | inr h ↦
        subst (FlowSent buffer (e ∷ []) s)
          (sym (
            if_false conf.enable_batch _ _ h
            ∙ after_send-none (client.send e s) (λ s'. goes_on buffer s') (laws.succeeds e s)))
          (rw (u h) (goes_alone e s i))
  ]
    where
      fits :
          lt64 conf.batch_max_content_length (add64 (length buffer) (length e)) ≡ false
          → length buffer + length e ≤ conf.batch_max_content_length
      fits f = fits_of (length buffer) (length e) conf.batch_max_content_length sb se m f

  starts_empty :
      (buffer : Text) (s : client.State)
      → IsWithin buffer
      → (conf.enable_batch ≡ false → buffer ≡ [])
      → Sent buffer [] s buffer s
  starts_empty buffer s w u = record {
    requests = [];
    logged = simp list_laws;
    complete = simp list_laws;
    bounded = tt;
    rest = w;
    unbatched = u;
  }

  event_fits :
      (b : Text)
      → IsWithin b
      → conf.batch_max_content_length < 4611686018427387904
      → All IsSmall events
      → IsSmall b
  event_fits b (inl l) m a = omega arith
  event_fits b (inr i) m a = of_event b events i a
    where
      of_event : (b : Text) (es : List Text) → In b es → All IsSmall es → IsSmall b
      of_event b [] i a = elim i [ ]
      of_event b (e ∷ es) (inl q) a = rw q at a.0
      of_event b (e ∷ es) (inr i) a = of_event b es i a.1

  pub add_events-FlowSent :
      (es : List Text) (buffer : Text) (s : client.State)
      → conf.batch_max_content_length < 4611686018427387904
      → All IsSmall events
      → All (λ e. In e events × IsSmall e) es
      → IsWithin buffer
      → (conf.enable_batch ≡ false → buffer ≡ [])
      → FlowSent buffer es s (add_events conf client es buffer s)
  unfolding add_events
  add_events-FlowSent [] buffer s m a i w u = starts_empty buffer s w u
  add_events-FlowSent (e ∷ es) buffer s m a i w u =
      go_on (add_event conf client buffer e s)
        (add_event-FlowSent buffer e s w (event_fits buffer w m a) i.0.1 m i.0.0 u)
        (λ b t h. add_events-FlowSent es b t m a i.1 h.rest h.unbatched)
    where
      go_on :
          (flow : Flow client.State)
          → FlowSent buffer (e ∷ []) s flow
          → ((b : Text) (t : client.State)
              → Sent buffer (e ∷ []) s b t
              → FlowSent b es t (add_events conf client es b t))
          → FlowSent buffer (e ∷ es) s (and_then conf client flow (add_events conf client es))
      go_on (goes_on b t) h k = join (add_events conf client es b t) (k b t h)
        where
          join : (flow : Flow client.State) → FlowSent b es t flow → FlowSent buffer (e ∷ es) s flow
          join (goes_on c u') h' = Sent-trans buffer b c e es s t u' h h'
          join (fails u') h' = absurd h'
      go_on (fails t) h k = absurd h
