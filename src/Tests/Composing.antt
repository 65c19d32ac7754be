-- ===== src/Tests/Composing.antt =====
-- A message that is built, signed, sent and parsed.
use affinidi_keri_rs.Prelude.{
  ◌≡◌, refl, none, some, List, [], ◌∷◌, ◌++◌, arith, nat_eq, string_eq, pair_eq,
}
use affinidi_keri_rs.Prelude.Result.{ok}
use affinidi_keri_rs.Prelude.Text.{codes}
use affinidi_keri_rs.Version.Bytes.{IsShort}
use affinidi_keri_rs.Parser.Built.{parse_next-compose_event-new}
use affinidi_keri_rs.Prelude.Ascii.{from_ascii}
use affinidi_keri_rs.Json.{
  string, object, no_fields, with_field, get_str, get, lookup, insert, set_field,
}
use affinidi_keri_rs.Crypto.Extern.{Bytes}
use affinidi_keri_rs.Crypto.Siger
use affinidi_keri_rs.Crypto.Siger.{Siger}
use affinidi_keri_rs.CounterTable.{code_in, from_major}
use affinidi_keri_rs.Version
use affinidi_keri_rs.Version.{Version, SerializationKind, json, to_version_string, hex_06, tag}
use affinidi_keri_rs.Serder
use affinidi_keri_rs.Serder.{Serder}
use affinidi_keri_rs.Composer.{
  compose_event, compose_sigs, counter_text, counter_code_for, sigs_text,
}
use affinidi_keri_rs.Parser.{parse_next}
use affinidi_keri_rs.Parser.Message.{controller_sigs}
use affinidi_keri_rs.Tests.Codec.{
  first_sig, second_sig, composing, write_json, read_json, composing-FollowsCesr, first-IsSendable,
  second-IsSendable,
}
use affinidi_keri_rs.Tests.Written.{composing-WritesJson, composing-KeepsLength}

abbrev sized : Version
sized = record { protocol = "KERI"; major = 1; minor = 0; kind = json; size = 25 }

abbrev blank : Bytes
blank = 123 ∷ 34 ∷ 118 ∷ 34 ∷ 58 ∷ 34 ∷ (codes "KERI10JSON000000_" ++ 34 ∷ 125 ∷ [])

abbrev body : Bytes
body = 123 ∷ 34 ∷ 118 ∷ 34 ∷ 58 ∷ 34 ∷ (codes "KERI10JSON000019_" ++ 34 ∷ 125 ∷ [])

abbrev message : Serder
message = record {
  raw = body;
  version = some sized;
  kind = json;
  sad = object (with_field "v" (string "KERI10JSON000019_") no_fields);
}

abbrev sigers : List Siger
sigers =
    record { indexer = first_sig; verfer = none }
    ∷ record { indexer = second_sig; verfer = none }
    ∷ []

abbrev sent : Bytes
sent = body ++ codes "-AACAAAHBCAJ"

message-built :
    Serder.new composing json (object (with_field "v" (string "KERI10JSON000000_") no_fields))
    ≡ ok message
unfolding Serder.new Serder.with_version Serder.serialize_value get_str get lookup insert set_field
    Version.parse_str to_version_string from_ascii
message-built = refl

blank-written :
    write_json json (object (with_field "v" (string "KERI10JSON000000_") no_fields)) ≡ some blank
unfolding from_ascii
blank-written = refl

body-read : read_json json body ≡ some message.sad
unfolding from_ascii
body-read = refl

sized-IsShort : IsShort sized
sized-IsShort = record {
  protocol = (omega arith, (omega arith, (omega arith, (omega arith, tt))));
  major = omega arith;
  minor = omega arith;
  size = omega arith;
}

sent-composed : compose_event composing message sigers ≡ ok sent
unfolding compose_event compose_sigs counter_text counter_code_for code_in from_major sigs_text
    Siger.qb64
sent-composed = refl

parse_next-compose_event-new_example :
    parse_next composing sent
    ≡ ok (record { serder = message; attachments = controller_sigs sigers ∷ [] }, 37)
parse_next-compose_event-new_example =
    parse_next-compose_event-new composing composing-FollowsCesr composing-WritesJson
      composing-KeepsLength "KERI10JSON000000_" no_fields message sized sigers blank sent
      blank-written (omega arith) message-built refl sized-IsShort refl body-read
      (first-IsSendable, (second-IsSendable, tt)) (omega arith) sent-composed
