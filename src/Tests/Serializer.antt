-- ===== src/Tests/Serializer.antt =====
-- Tests of the serializers.
use tyk_pump.Base.{◌≡◌, refl, sym, ap, Option, none, some, text, inl, same, arith}
use tyk_pump.Time.{Time, utc, zero_time}
use tyk_pump.Serializer.Message.{TimeStamps}
use tyk_pump.Serializer.Protobuf.{
  transform_single_record_to_proto, transform_single_proto_to_analytics_record,
}
use tyk_pump.Serializer.Kind.{SerializerKind, new_analytics_serializer, get_suffix}
use tyk_pump.Serializer.RoundTrip.{TimeLaws, FitsMessage, transmitted, transform_round_trip}
use tyk_pump.Tests.Samples.{query}

unknown_is_msgpack :
    get_suffix (new_analytics_serializer (text "json")) ≡ get_suffix SerializerKind.msgp
unfolding new_analytics_serializer same
unknown_is_msgpack = refl

protobuf_has_suffix : get_suffix (new_analytics_serializer (text "protobuf")) ≡ text "_protobuf"
unfolding new_analytics_serializer same
protobuf_has_suffix = refl

-- Stamps that are times, and one location.
abbrev stamped_or_zero : Option Time → Time
stamped_or_zero none = zero_time
stamped_or_zero (some t) = t

abbrev in_utc : TimeStamps
in_utc = record {
  Stamp = Time;
  of_time = λ t. t;
  as_time = stamped_or_zero;
  in_location = λ loc t. record t { location = loc };
  location_name = λ loc. text "UTC";
  load_location = λ name. some utc;
}

utc-TimeLaws : TimeLaws in_utc utc
utc-TimeLaws = record {
  stamped = λ t. refl;
  at_home = λ t e. ap (λ loc. record t { location = loc }) (sym e);
  loaded = refl;
}

query-FitsMessage : FitsMessage query
query-FitsMessage = record {
  day = inl (omega arith);
  month = inl (omega arith);
  year = inl (omega arith);
  hour = inl (omega arith);
  response_code = inl (omega arith);
  geo_name_id = omega arith;
}

transform_round_trip_example :
    transform_single_proto_to_analytics_record in_utc
      (transform_single_record_to_proto in_utc query)
    ≡ some (transmitted in_utc query)
transform_round_trip_example = transform_round_trip in_utc query utc-TimeLaws query-FitsMessage
