-- ===== src/Version.antt =====
-- crates/affinidi-keri-core/src/version.rs: version strings. The source refuses a text whose first 17
-- bytes are not 17 ASCII characters before it slices it, so slices are by character here.
pub mod RoundTrip
pub mod Bytes
use affinidi_keri_rs.Prelude.{
  ℕ, ◌+◌, ◌-◌, String, Bool, false, ◌&&◌, Option, none, some, List, [], ltb, leb, if◌then◌else◌,
  ◌==◌, nat_eq, string_eq, pair_eq, u64_mod, length, take,
}
use affinidi_keri_rs.Prelude.Result.{ok, err, ◌>>=◌, ◌>>◌, guard, ok_or}
use Prim.Native.Char.{code}
use Prim.Native.String.{◌++◌ as append}
use affinidi_keri_rs.Prelude.Text.{from_str_radix, to_hex, hex_padded}
use affinidi_keri_rs.Prelude.Ascii.{from_ascii, ascii_start, split_at}
use affinidi_keri_rs.Error.{CoreResult, invalid_version}

pub data SerializationKind : Type 0 where
  json cbor msg_pack : SerializationKind

unfoldable pub tag : SerializationKind → String
tag json = "JSON"
tag cbor = "CBOR"
tag msg_pack = "MGPK"

unfoldable pub from_tag : String → CoreResult SerializationKind
from_tag t =
    if t == "JSON"
    then ok json
    else if t == "CBOR"
    then ok cbor
    else if t == "MGPK"
    then ok msg_pack
    else err invalid_version

pub record Version : Type 0 where
  pub protocol : String
  pub major : ℕ
  pub minor : ℕ
  pub kind : SerializationKind
  pub size : ℕ

abbrev pub keri_ver_fullsize : ℕ
keri_ver_fullsize = 17

unfoldable pub default_v1 : SerializationKind → ℕ → Version
default_v1 kind size = record { protocol = "KERI"; major = 1; minor = 0; kind = kind; size = size }

unfoldable pub hex_digit : ℕ → Option ℕ
hex_digit ch =
    if leb b'0' ch && leb ch b'9'
    then some (ch - b'0')
    else if leb b'a' ch && leb ch b'f'
    then some (ch - b'a' + 10)
    else if leb b'A' ch && leb ch b'F'
    then some (ch - b'A' + 10)
    else none

-- The value of a text of one character.
unfoldable pub hex_digit_of : String → Option ℕ
unfolding hex_digit
hex_digit_of String.[] = none
hex_digit_of (String.◌∷◌ c s) = hex_digit (code c)

unfoldable pub starts_with_underscore : String → Bool
starts_with_underscore String.[] = false
starts_with_underscore (String.◌∷◌ c s) = code c == b'_'

-- Four characters of protocol, one hexadecimal digit each for the major and the minor version, four
-- characters of kind, six hexadecimal digits of size, and the terminator.
unfoldable pub parse_str : String → CoreResult Version
unfolding ascii_start split_at hex_digit_of from_tag from_str_radix starts_with_underscore
parse_str vs = do
  guard (ascii_start keri_ver_fullsize vs) invalid_version
  (protocol, at_4) ← ok_or (split_at 4 vs) invalid_version
  (major_ch, at_5) ← ok_or (split_at 1 at_4) invalid_version
  (minor_ch, at_6) ← ok_or (split_at 1 at_5) invalid_version
  major ← ok_or (hex_digit_of major_ch) invalid_version
  minor ← ok_or (hex_digit_of minor_ch) invalid_version
  (kind_tag, at_10) ← ok_or (split_at 4 at_6) invalid_version
  kind ← from_tag kind_tag
  (size_str, at_16) ← ok_or (split_at 6 at_10) invalid_version
  size ← ok_or (from_str_radix 16 u64_mod size_str) invalid_version
  guard (starts_with_underscore at_16) invalid_version
  ok (record { protocol = protocol; major = major; minor = minor; kind = kind; size = size })

-- The first 17 bytes as text, which `parse_str` would refuse if they were not ASCII.
unfoldable pub parse : List ℕ → CoreResult Version
unfolding from_ascii parse_str
parse bytes = do
  guard (leb keri_ver_fullsize (length bytes)) invalid_version
  vs ← ok_or (from_ascii (take keri_ver_fullsize bytes)) invalid_version
  parse_str vs

-- `{:06x}` of a `usize`: six digits, or as many as it takes.
unfoldable pub hex_06 : ℕ → String
unfolding hex_padded to_hex
hex_06 n = if ltb n 16777216 then hex_padded 6 n "" else to_hex n

unfoldable pub to_version_string : Version → String
unfolding to_hex tag hex_06
to_version_string v = append v.protocol (
    append (to_hex v.major)
      (append (to_hex v.minor) (append (tag v.kind) (append (hex_06 v.size) "_"))))
