-- ===== src/Serializer/Kind.antt =====
-- serializer/serializer.go and serializer/msgp.go: which serializer is made for a name, and the
-- suffix that it adds to the keys of the store.
use tyk_pump.Base.{[], Text, text, same, if◌then◌else◌}
use tyk_pump.Serializer.Protobuf.{protobuf_suffix}

pub data SerializerKind : Type 0 where
  msgp protobuf : SerializerKind

-- `MSGP_SERIALIZER` and `PROTOBUF_SERIALIZER`
abbrev pub msgp_serializer : Text
msgp_serializer = text "msgpack"

abbrev pub protobuf_serializer : Text
protobuf_serializer = text "protobuf"

-- `NewAnalyticsSerializer`: any other name than that of protobuf stands for msgpack.
unfoldable pub new_analytics_serializer : Text → SerializerKind
new_analytics_serializer name = if same name protobuf_serializer then protobuf else msgp

-- `GetSuffix`
abbrev pub get_suffix : SerializerKind → Text
get_suffix msgp = []
get_suffix protobuf = protobuf_suffix
