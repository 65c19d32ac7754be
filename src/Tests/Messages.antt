-- ===== src/Tests/Messages.antt =====
-- Messages and streams: a version string, the size of a message, and the parser.
use affinidi_keri_rs.Prelude.{
  ◌≤◌, String, ◌≡◌, refl, ◌≢◌, true, Option, none, some, [], ◌∷◌, ◌++◌, arith, leb, if◌then◌else◌,
  nat_eq, string_eq, pair_eq, length, take,
}
use affinidi_keri_rs.Prelude.Result.{ok, err}
use affinidi_keri_rs.Prelude.Text.{codes}
use affinidi_keri_rs.Prelude.Ascii.{from_ascii}
use affinidi_keri_rs.Json.{
  Value, object, string, with_field, no_fields, get_str, get, lookup, insert, set_field,
}
use affinidi_keri_rs.Crypto.Extern.{Bytes}
use affinidi_keri_rs.CounterTable.{classify}
use affinidi_keri_rs.Version
use affinidi_keri_rs.Version.{Version, json, parse_str, to_version_string}
use affinidi_keri_rs.Version.RoundTrip.{parse_str-to_version_string}
use affinidi_keri_rs.Deps.{Deps}
use affinidi_keri_rs.Serder
use affinidi_keri_rs.Serder.{Serder}
use affinidi_keri_rs.Serder.Sizes.{KeepsLength, IsSized, new-IsSized}
use affinidi_keri_rs.Composer.{table_for}
use affinidi_keri_rs.Parser.{
  no_fuel, refuse, parse_next_inner, parse_next_sad, parse_attachments, parse_group, parse_all,
  parse_all_lenient,
}
use affinidi_keri_rs.Parser.Message.{ParsedMessage, controller_sigs}
use affinidi_keri_rs.Parser.Termination.{CountersFit, parse_all_ends, parse_next_inner_bounds}
use affinidi_keri_rs.Parser.Refusal.{parse_next_refuses}
use affinidi_keri_rs.Tests.World.{deps}

abbrev v1 : Version
v1 = record { protocol = "KERI"; major = 1; minor = 0; kind = json; size = 18 }

parse_str-to_version_string_example : parse_str (to_version_string v1) ≡ ok v1
parse_str-to_version_string_example =
    parse_str-to_version_string v1 (omega arith, (omega arith, (omega arith, (omega arith, tt))))
      (omega arith) (omega arith) (omega arith)

-- A format with the bytes of the version string and nothing else, and counters of four characters.
abbrev version_text : Option String → Bytes
version_text none = []
version_text (some text) = take 18 (codes text)

abbrev reading : Deps
reading = record deps {
  counter_from_qb64 = λ text.
      if leb 4 (length (codes text)) then some (record { code = "-A"; count = 0 }) else none;
  counter_full_size = λ c. 4;
  deserialize = λ kind bytes. some (object (with_field "v" (string "KERI10JSON000012_") no_fields));
  serialize = λ kind v. some (123 ∷ 125 ∷ []);
}

reading-KeepsLength : KeepsLength reading json
reading-KeepsLength sad v n m a b p q e f = ground arith

reading-CountersFit : CountersFit reading
reading-CountersFit text c h = ground arith

abbrev blank : Value
blank = object (with_field "v" (string "KERI10JSON000000_") no_fields)

abbrev v2 : Version
v2 = record { protocol = "KERI"; major = 1; minor = 0; kind = json; size = 2 }

abbrev sized : Serder
sized = record {
  raw = 123 ∷ 125 ∷ [];
  version = some v2;
  kind = json;
  sad = object (with_field "v" (string "KERI10JSON000002_") no_fields);
}

new-sized : Serder.new reading json blank ≡ ok sized
unfolding Serder.new Serder.with_version Serder.serialize_value get_str get lookup insert set_field
    parse_str to_version_string
new-sized = refl

new-IsSized_example : IsSized reading sized v2
new-IsSized_example =
    new-IsSized reading json reading-KeepsLength blank sized v2 (123 ∷ 125 ∷ []) refl (omega arith)
      new-sized refl (omega arith)

abbrev body : Bytes
body = codes "{KERI10JSON000012_"

abbrev signed : Bytes
signed = body ++ codes "-AAA"

abbrev read : Serder
read = record {
  raw = body;
  version = some v1;
  kind = json;
  sad = object (with_field "v" (string "KERI10JSON000012_") no_fields);
}

from_raw-signed : Serder.from_raw reading signed ≡ ok read
unfolding Serder.from_raw Version.parse
from_raw-signed = refl

abbrev message : ParsedMessage
message = record { serder = read; attachments = controller_sigs [] ∷ [] }

parse_next_inner-signed : parse_next_inner reading signed true ≡ ok (message, 22)
unfolding parse_next_inner parse_next_sad parse_attachments Serder.from_raw Version.parse from_ascii
    classify parse_group table_for
parse_next_inner-signed = refl

parse_next_inner_bounds_example : 22 ≤ length signed
parse_next_inner_bounds_example =
    parse_next_inner_bounds reading reading-CountersFit signed true message 22
      parse_next_inner-signed

parse_all_ends_example :
    (parse_all reading signed ≢ err no_fuel) × (parse_all_lenient reading signed ≢ err no_fuel)
parse_all_ends_example = parse_all_ends reading reading-CountersFit signed

-- A message without a signature, and a byte behind it that is not ASCII.
abbrev mixed : Bytes
mixed = signed ++ 161 ∷ []

from_raw-mixed : Serder.from_raw reading mixed ≡ ok read
unfolding Serder.from_raw Version.parse
from_raw-mixed = refl

parse_next_refuses_example : parse_next_inner reading mixed true ≡ err refuse
parse_next_refuses_example =
    parse_next_refuses reading mixed true read (codes "AAA") 161 [] from_raw-mixed refl
      (omega arith)
