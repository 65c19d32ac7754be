-- ===== src/Tests/Written.antt =====
-- The JSON of `Tests.Codec`, and the laws of a serializer that it meets.
use affinidi_keri_rs.Prelude.{
  ℕ, ◌+◌, ◌-◌, ◌<◌, String, ◌≡◌, refl, sym, ap, subst, ◌∙◌, inl, inr, Option, none, some, [], ◌∷◌,
  ◌++◌, arith, eq_iff, lt→ltb, Bool-cases, ◌==◌, nat_eq, string_eq, pair_eq, length, take,
  take-append, take-length, length-append,
}
use Prim.Native.String.{◌++◌ as append}
use affinidi_keri_rs.Prelude.Text.{codes, hex_padded, to_hex}
use affinidi_keri_rs.Json.Insertion.{lookup-insert}
use affinidi_keri_rs.Version.RoundTrip.{IsAscii-hex_padded}
use affinidi_keri_rs.Version.Bytes.{IsAscii-length}
use affinidi_keri_rs.Serder.Sizes.{KeepsLength}
use affinidi_keri_rs.Serder.RoundTrip.{WritesJson, codes-append}
use affinidi_keri_rs.Prelude.Ascii.{from_ascii}
use affinidi_keri_rs.Json.{
  Value, null, bool, number, string, array, object, no_fields, with_field, lookup, insert,
  set_field,
}
use affinidi_keri_rs.Crypto.Extern.{Bytes}
use affinidi_keri_rs.Version.{Version, json, to_version_string, hex_06, tag}
use affinidi_keri_rs.Tests.Codec.{composing, write_text, write_json, read_json}

-- An object that could be written, and its bytes.
record IsWritten (sad : Value) (bytes : Bytes) : Type 0 where
  text : String
  ascii : from_ascii (codes text) ≡ some text
  shape : sad ≡ object (with_field "v" (string text) no_fields)
  raw : bytes ≡ 123 ∷ 34 ∷ 118 ∷ 34 ∷ 58 ∷ 34 ∷ (codes text ++ 34 ∷ 125 ∷ [])

write_text_sound :
    (t : String) (o : Option String) (bytes : Bytes)
    → from_ascii (codes t) ≡ o
    → write_text t o ≡ some bytes
    → IsWritten (object (with_field "v" (string t) no_fields)) bytes
write_text_sound t none bytes e h = cc
write_text_sound t (some u) bytes e h = elim (Bool-cases (u == t)) [
  | inr n ↦ absurd (ground arith)
  | inl same ↦
      (let a : u ≡ t = (eq_iff u t).0 same in
        let b : 123 ∷ 34 ∷ 118 ∷ 34 ∷ 58 ∷ 34 ∷ (codes u ++ 34 ∷ 125 ∷ []) ≡ bytes = ground arith in
        record {
          text = t;
          ascii = e ∙ ap some a;
          shape = refl;
          raw = sym b ∙ ap (λ w. 123 ∷ 34 ∷ 118 ∷ 34 ∷ 58 ∷ 34 ∷ (codes w ++ 34 ∷ 125 ∷ [])) a;
        })
]

write_json_sound :
    (sad : Value) (bytes : Bytes) → write_json json sad ≡ some bytes → IsWritten sad bytes
write_json_sound (object (with_field k (string t) no_fields)) bytes h =
    elim (Bool-cases (k == "v")) [
      | inr n ↦ absurd (ground arith)
      | inl same ↦
          (let a : k ≡ "v" = (eq_iff k "v").0 same in
            let g : write_text t (from_ascii (codes t)) ≡ some bytes = rw same at h in
            let w = write_text_sound t (from_ascii (codes t)) bytes refl g in
            subst (λ q. IsWritten (object (with_field q (string t) no_fields)) bytes) (sym a) w)
    ]
write_json_sound _ bytes h = cc

cut_text :
    (cs : Bytes)
    → take
        (length (123 ∷ 34 ∷ 118 ∷ 34 ∷ 58 ∷ 34 ∷ (cs ++ 34 ∷ 125 ∷ [])) - 8)
        (cs ++ 34 ∷ 125 ∷ [])
      ≡ cs
cut_text cs =
    let n : length (123 ∷ 34 ∷ 118 ∷ 34 ∷ 58 ∷ 34 ∷ (cs ++ 34 ∷ 125 ∷ [])) - 8 ≡ length cs =
      omega (arith, length-append cs (34 ∷ 125 ∷ [])) in
    rw n (take-append (length cs) cs (34 ∷ 125 ∷ []) (omega arith) ∙ take-length cs)

read_json-IsWritten :
    (sad : Value) (bytes : Bytes) → IsWritten sad bytes → read_json json bytes ≡ some sad
read_json-IsWritten sad bytes w = rw (w.raw, w.shape) (rw (cut_text (codes w.text), w.ascii) refl)

pub composing-WritesJson : WritesJson composing
composing-WritesJson = record {
  v_first = λ v fields bytes h k e.
      (let w =
          write_json_sound (object (with_field "v" (string (to_version_string v)) fields)) bytes
            e in
        let t : to_version_string v ≡ w.text = cc (w.shape) in
        (
          34 ∷ 125 ∷ [],
          w.raw ∙ ap (λ u. 123 ∷ 34 ∷ 118 ∷ 34 ∷ 58 ∷ 34 ∷ (codes u ++ 34 ∷ 125 ∷ [])) (sym t),
        ));
}

-- The texts of two sizes have the same length.
length-append_left :
    (s x y : String)
    → length (codes x) ≡ length (codes y)
    → length (codes (append s x)) ≡ length (codes (append s y))
length-append_left s x y e =
    rw (codes-append s x, codes-append s y)
      (omega (arith, e, length-append (codes s) (codes x), length-append (codes s) (codes y)))

length-size_text :
    (n m : ℕ)
    → n < 16777216
    → m < 16777216
    → length (codes (append (hex_06 n) "_")) ≡ length (codes (append (hex_06 m) "_"))
unfolding hex_06
length-size_text n m h k =
    let a = IsAscii-length 6 (hex_padded 6 n "") (IsAscii-hex_padded 6 0 6 n "" (omega arith) tt) in
    let b = IsAscii-length 6 (hex_padded 6 m "") (IsAscii-hex_padded 6 0 6 m "" (omega arith) tt) in
    rw
      (
        lt→ltb n 16777216 h,
        lt→ltb m 16777216 k,
        codes-append (hex_padded 6 n "") "_",
        codes-append (hex_padded 6 m "") "_",
      )
      (omega (
        arith,
        a,
        b,
        length-append (codes (hex_padded 6 n "")) (95 ∷ []),
        length-append (codes (hex_padded 6 m "")) (95 ∷ []),
      ))

length-to_version_string :
    (v : Version) (n m : ℕ)
    → n < 16777216
    → m < 16777216
    → length (codes (to_version_string (record v { size = n })))
      ≡ length (codes (to_version_string (record v { size = m })))
unfolding to_version_string
length-to_version_string v n m h k = length-append_left v.protocol _ _ (
    length-append_left (to_hex v.major) _ _ (
      length-append_left (to_hex v.minor) _ _
        (length-append_left (tag v.kind) _ _ (length-size_text n m h k))))

written_field :
    (sad : Value) (t u : String)
    → set_field sad "v" (string t) ≡ object (with_field "v" (string u) no_fields)
    → t ≡ u
unfolding set_field lookup
written_field (object fs) t u e =
    let here : lookup "v" (insert "v" (string t) fs) ≡ some (string t) =
      rw (lookup-insert "v" "v" (string t) fs) refl in
    let f : insert "v" (string t) fs ≡ with_field "v" (string u) no_fields = cc (e) in
    let g : lookup "v" (insert "v" (string t) fs) ≡ some (string u) = rw f refl in cc (here, g)
written_field null t u e = cc
written_field (bool b) t u e = cc
written_field (number n) t u e = cc
written_field (string s) t u e = cc
written_field (array vs) t u e = cc

length-IsWritten :
    (sad : Value) (bytes : Bytes) (t : String)
    → IsWritten (set_field sad "v" (string t)) bytes
    → length bytes ≡ length (codes t) + 8
length-IsWritten sad bytes t w =
    let e = written_field sad t w.text w.shape in
    rw (w.raw, e) (omega (arith, length-append (codes w.text) (34 ∷ 125 ∷ [])))

pub composing-KeepsLength : KeepsLength composing json
composing-KeepsLength sad v n m a b p q e f = omega (
  arith,
  length-IsWritten sad a _ (write_json_sound _ a e),
  length-IsWritten sad b _ (write_json_sound _ b f),
  length-to_version_string v n m p q,
)
