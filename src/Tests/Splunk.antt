-- ===== src/Tests/Splunk.antt =====
-- Tests of the Splunk pump.
use tyk_pump.Base.{
  ◌≡◌, refl, true, Bool, lt64, add64, has_prefix, for_each, List, [], ◌∷◌, ◌++◌, none, some, Text,
  text, arith,
}
use tyk_pump.Analytics.Record.{AnalyticsRecord}
use tyk_pump.Aggregate.Data.{analytics}
use tyk_pump.Splunk.{
  SplunkPumpConfig, Client, filter_tags, filter_rounds, event_of, write_data, send_events,
  add_events, add_event, flush,
}
use tyk_pump.Splunk.Tags.{remaining, filter_tags-remaining}
use tyk_pump.Splunk.Sent.{Receives}
use tyk_pump.Splunk.Batches.{IsEncoded, Delivered, write_data-Delivered}
use tyk_pump.Tests.Samples.{hit, missing}

-- A collector that keeps the requests; an event is written as one word.
abbrev collector : Client
collector = record {
  State = List Text;
  marshal = λ t e. some (text "event");
  send = λ r s. (none, s ++ (r ∷ []));
}

collector-Receives : Receives collector
collector-Receives = record { sent = λ s. s; succeeds = λ t s. refl; appends = λ t s. refl }

abbrev batching : SplunkPumpConfig
batching = record {
  obfuscate_api_keys = true;
  obfuscate_api_keys_length = 2;
  fields = [];
  ignore_tag_prefix_list = [];
  enable_batch = true;
  batch_max_content_length = 12;
}

word-IsEncoded : (r : AnalyticsRecord) → IsEncoded batching collector (λ q. text "event") r
unfolding event_of
word-IsEncoded r = refl

write_data-Delivered_example :
    (end : Bool × List Text) × (write_data batching collector
        (analytics hit ∷ analytics missing ∷ analytics hit ∷ [])
        []
      ≡ some end)
    × Delivered batching collector collector-Receives
        (text "event" ∷ text "event" ∷ text "event" ∷ [])
        []
        end
write_data-Delivered_example =
    write_data-Delivered batching collector (λ r. text "event") collector-Receives
      (hit ∷ missing ∷ hit ∷ []) [] (omega arith)
      (word-IsEncoded hit, (word-IsEncoded missing, (word-IsEncoded hit, tt)))
      (omega arith, (omega arith, (omega arith, tt)))

batches_example :
    send_events batching collector (text "event" ∷ text "event" ∷ text "event" ∷ []) []
    ≡ (true, text "eventevent" ∷ text "event" ∷ [])
unfolding send_events add_events add_event flush lt64 add64
batches_example = refl

-- An event that is too long by itself sends the empty buffer first.
long_event_example :
    send_events batching collector (text "a long event!" ∷ []) []
    ≡ (true, [] ∷ text "a long event!" ∷ [])
unfolding send_events add_events add_event flush lt64 add64
long_event_example = refl

filter_tags-remaining_example :
    filter_tags (text "key-" ∷ []) (text "key-1" ∷ text "key-2" ∷ text "org-1" ∷ [])
    ≡ some (remaining (text "key-") (text "key-1" ∷ text "key-2" ∷ text "org-1" ∷ []))
filter_tags-remaining_example =
    filter_tags-remaining (text "key-") (λ e. cc) (text "key-1" ∷ text "key-2" ∷ text "org-1" ∷ [])

kept_example :
    filter_tags (text "key-" ∷ []) (text "key-1" ∷ text "key-2" ∷ text "org-1" ∷ [])
    ≡ some (text "key-2" ∷ text "org-1" ∷ [])
unfolding filter_tags filter_rounds for_each has_prefix
kept_example = refl

-- An empty prefix runs out of the tags.
empty_prefix_example : filter_tags ([] ∷ []) (text "a" ∷ text "b" ∷ text "c" ∷ []) ≡ none
unfolding filter_tags filter_rounds for_each has_prefix
empty_prefix_example = refl
