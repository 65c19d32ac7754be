-- ===== src/Serder.antt =====
-- crates/affinidi-keri-core/src/serder.rs: a message with its bytes, and access to its fields.
pub mod Sizes
pub mod RoundTrip
use affinidi_keri_rs.Prelude.{
  ℕ, ◌+◌, String, Bool, true, false, ◌&&◌, ◌||◌, Option, none, some, [], ◌∷◌, map, ltb, leb,
  if◌then◌else◌, ◌==◌, nat_eq, string_eq, pair_eq, u64_mod, length, take, drop,
}
use affinidi_keri_rs.Prelude.Result.{ok, err, ◌>>=◌, ◌>>◌, guard, ok_or}
use mathlib.Core.Option
use affinidi_keri_rs.Prelude.Text.{codes, from_str_radix}
use affinidi_keri_rs.Json.{Value, get_str, null, string, set_field}
use affinidi_keri_rs.Crypto.Extern.{Bytes}
use affinidi_keri_rs.Version
use affinidi_keri_rs.Version.{Version, SerializationKind, json, cbor, msg_pack, keri_ver_fullsize}
use affinidi_keri_rs.Error.{CoreResult, missing_field, parse_error}
use affinidi_keri_rs.Deps.{Deps}
use affinidi_keri_rs.Said
use affinidi_keri_rs.Said.{format_error}

-- The first bytes of a map in CBOR and in MessagePack.
unfoldable pub is_cbor_start : ℕ → Bool
is_cbor_start b = (leb 160 b && leb b 187) || b == 191

unfoldable pub is_msgpack_start : ℕ → Bool
is_msgpack_start b = (leb 128 b && leb b 143) || b == 222 || b == 223

pub record Serder : Type 0 where
  pub raw : Bytes
  pub version : Option Version
  pub kind : SerializationKind
  pub sad : Value

unfoldable pub said : Serder → CoreResult String
said s = ok_or (get_str s.sad "d") (missing_field "d")

unfoldable pub ilk : Serder → CoreResult String
ilk s = ok_or (get_str s.sad "t") (missing_field "t")

unfoldable pub prefix : Serder → CoreResult String
prefix s = ok_or (get_str s.sad "i") (missing_field "i")

abbrev hex_u64 : Option String → Option ℕ
hex_u64 none = none
hex_u64 (some s) = from_str_radix 16 u64_mod s

unfoldable pub sn : Serder → CoreResult ℕ
sn s = ok_or (hex_u64 (get_str s.sad "s")) (missing_field "s")

-- The object is moved out, and `null` stays.
unfoldable pub take_sad : Serder → Value × Serder
take_sad s = (s.sad, record s { sad = null })

unfoldable pub verify_said : Deps → Serder → String → CoreResult (Unit {0})
verify_said d s code = Said.verify_said d s.sad "d" code s.kind

unfoldable pub sniff_kind : Bytes → CoreResult SerializationKind
sniff_kind [] = err parse_error
sniff_kind (b ∷ bs) =
    if b == b'{'
    then ok json
    else if is_cbor_start b
    then ok cbor
    else if is_msgpack_start b
    then ok msg_pack
    else err parse_error

abbrev version_search_window : ℕ
version_search_window = 32

-- The bytes begin with these.
unfoldable pub begins : Bytes → Bytes → Bool
begins [] bs = true
begins (p ∷ ps) [] = false
begins (p ∷ ps) (b ∷ bs) = p == b && begins ps bs

-- `windows(proto.len()).position(|w| w == proto)`
unfoldable pub position_of : Bytes → Bytes → Option ℕ
unfolding begins
position_of proto [] = none
position_of proto (b ∷ bs) =
    if begins proto (b ∷ bs) then some 0 else Option.map (λ i. i + 1) (position_of proto bs)

-- The least of the positions that are there.
abbrev earliest : Option ℕ → Option ℕ → Option ℕ
earliest none b = b
earliest (some i) none = some i
earliest (some i) (some j) = some (if ltb j i then j else i)

unfoldable pub protocol_position : Bytes → Option ℕ
unfolding position_of
protocol_position window =
    earliest (position_of (codes "KERI") window)
      (earliest (position_of (codes "ACDC") window) (position_of (codes "SAID") window))

abbrev to_option : CoreResult Version → Option Version
to_option (ok v) = some v
to_option (err e) = none

unfoldable pub extract_version_from_raw : Bytes → Option Version
unfolding protocol_position Version.parse
extract_version_from_raw bytes = elim (protocol_position (take version_search_window bytes)) [
  | none ↦ none
  | some pos ↦
      (if ltb (length bytes) (pos + keri_ver_fullsize)
        then none
        else to_option (Version.parse (drop pos bytes)))
]

-- The version of a `v` field: the one that it spells or a default, with the size.
abbrev version_of : SerializationKind → ℕ → Option String → Option Version
version_of kind size none = none
version_of kind size (some text) = some (elim (Version.parse_str text) [
  | ok v ↦ record v { size = size }
  | err e ↦ Version.default_v1 kind size
])

abbrev pub msg_len : Bytes → Option Version → ℕ
msg_len raw none = length raw
msg_len raw (some v) = v.size

abbrev pub parsed_version : Option String → Option Version
parsed_version none = none
parsed_version (some text) = to_option (Version.parse_str text)

abbrev pub or_else : Option Version → Option Version → Option Version
or_else none b = b
or_else (some v) b = some v

module _ (d : Deps) where
  unfoldable pub serialize_value : Value → SerializationKind → CoreResult Bytes
  serialize_value value kind = ok_or (d.serialize kind value) (format_error kind)

  unfoldable pub deserialize_value : Bytes → SerializationKind → CoreResult Value
  deserialize_value bytes kind = ok_or (d.deserialize kind bytes) (format_error kind)

  -- Write the version with the size, serialize, and write it again with the size that came out.
  unfoldable pub with_version :
      SerializationKind → Value → Bytes → Option Version → CoreResult Serder
  unfolding serialize_value
  with_version kind sad raw none = ok (record { raw = raw; version = none; kind = kind; sad = sad })
  with_version kind sad raw (some ver) = do
    let sized = set_field sad "v" (string (Version.to_version_string ver))
    second ← serialize_value sized kind
    let final_ver = record ver { size = length second }
    let final = set_field sized "v" (string (Version.to_version_string final_ver))
    third ← serialize_value final kind
    ok (record { raw = third; version = some final_ver; kind = kind; sad = final })

  unfoldable pub new : SerializationKind → Value → CoreResult Serder
  unfolding serialize_value with_version
  new kind sad = do
    raw ← serialize_value sad kind
    with_version kind sad raw (version_of kind (length raw) (get_str sad "v"))

  unfoldable pub from_raw : Bytes → CoreResult Serder
  unfolding sniff_kind extract_version_from_raw deserialize_value
  from_raw raw = do
    kind ← sniff_kind raw
    let version = extract_version_from_raw raw
    let len = msg_len raw version
    guard (leb len (length raw)) parse_error
    let msg_bytes = take len raw
    sad ← deserialize_value msg_bytes kind
    ok (record {
      raw = msg_bytes;
      version = or_else version (parsed_version (get_str sad "v"));
      kind = kind;
      sad = sad;
    })

  unfoldable pub from_json_value : Value → CoreResult Serder
  unfolding new
  from_json_value sad = new json sad
