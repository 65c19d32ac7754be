-- ===== src/Serder/RoundTrip.antt =====
-- A JSON message that `Serder::new` has built, read by `Serder::from_raw`.
use affinidi_keri_rs.Prelude.{
  ℕ, ◌+◌, ◌<◌, String, ◌≡◌, refl, sym, ap, subst, ◌∙◌, inl, inr, true, false, some, ◌∷◌, ◌++◌,
  arith, ltb, leb, Option-cases, nat_eq, string_eq, pair_eq, length, take, take-append, take-length,
  length-append,
}
use affinidi_keri_rs.Prelude.Result.{ok, >>=-elim, ok-eq-ok}
use Prim.Native.String.{◌++◌ as append}
use text.Mathlib.TextLemmas.{nil-append, cons-append}
use mathlib.Core.List.{append_assoc}
use affinidi_keri_rs.Prelude.Text.{codes}
use affinidi_keri_rs.Json.{
  Fields, object, string, with_field, get_str, get, lookup, set_field, insert,
}
use affinidi_keri_rs.Crypto.Extern.{Bytes}
use affinidi_keri_rs.Version.{Version, json, to_version_string}
use affinidi_keri_rs.Version.Bytes.{
  IsShort, parse-to_version_string, IsAscii-to_version_string, IsAscii-length,
}
use affinidi_keri_rs.Deps.{Deps}
use affinidi_keri_rs.Serder.{
  Serder, new, from_raw, with_version, serialize_value, deserialize_value, extract_version_from_raw,
  protocol_position, position_of, begins, sniff_kind,
}
use affinidi_keri_rs.Serder.Sizes.{KeepsLength, new-IsSized}

-- The length of a text's bytes and its parts.
pub codes-append : (s t : String) → codes (append s t) ≡ codes s ++ codes t
codes-append String.[] t = rw (nil-append t) refl
codes-append (String.◌∷◌ c s) t = rw (cons-append c s t, codes-append s t) refl

-- A protocol that does not stand at the first ten positions is found later, if at all.
protocol_position_six :
    (more : Bytes)
    → protocol_position (123 ∷ 34 ∷ 118 ∷ 34 ∷ 58 ∷ 34 ∷ 75 ∷ 69 ∷ 82 ∷ 73 ∷ more) ≡ some 6
unfolding protocol_position position_of begins
protocol_position_six more = elim (Option-cases (position_of (codes "ACDC") more)) [
  | inl n ↦ elim (Option-cases (position_of (codes "SAID") more)) [
    | inl m ↦ rw (n, m) refl
    | inr (j, m) ↦ rw (n, m) (ground arith)
  ]
  | inr (i, n) ↦ elim (Option-cases (position_of (codes "SAID") more)) [
    | inl m ↦ rw (n, m) (ground arith)
    | inr (j, m) ↦ rw (n, m) (ground arith)
  ]
]

-- `{"v":"` and what follows.
abbrev opened : Bytes → Bytes
opened after = 123 ∷ 34 ∷ 118 ∷ 34 ∷ 58 ∷ 34 ∷ after

codes_of_keri :
    (p rest : String) → p ≡ "KERI" → codes (append p rest) ≡ 75 ∷ 69 ∷ 82 ∷ 73 ∷ codes rest
codes_of_keri p rest k = ap (λ q. codes (append q rest)) k ∙ codes-append "KERI" rest

keri_version :
    (v : Version)
    → v.protocol ≡ "KERI"
    → (more : Bytes) × (codes (to_version_string v) ≡ 75 ∷ 69 ∷ 82 ∷ 73 ∷ more)
unfolding to_version_string
keri_version v k = (_, codes_of_keri v.protocol _ k)

extract_version_opened :
    (v : Version) (after : Bytes)
    → IsShort v
    → v.protocol ≡ "KERI"
    → extract_version_from_raw (opened (codes (to_version_string v) ++ after)) ≡ some v
unfolding extract_version_from_raw
extract_version_opened v after h k =
    let vs = to_version_string v in
    let size = IsAscii-length 17 vs (IsAscii-to_version_string v h) in
    let (more, text) = keri_version v k in
    let at_6 : protocol_position (take 32 (opened (codes vs ++ after))) ≡ some 6 =
      rw text (protocol_position_six (take 22 (more ++ after))) in
    let room : ltb (length (opened (codes vs ++ after))) 23 ≡ false =
      ground (arith, length-append (codes vs) after) in
    rw (at_6, extract_version_from_raw) (rw (room, parse-to_version_string v after h) refl)

-- What the documentation of serde_json promises: with `preserve_order`, the fields are written in
-- their order, and a version string needs no escape.
pub record WritesJson (d : Deps) : Type 0 where
  pub v_first :
      (v : Version) (fields : Fields) (bytes : Bytes)
      → IsShort v
      → v.protocol ≡ "KERI"
      → d.serialize json (object (with_field "v" (string (to_version_string v)) fields))
        ≡ some bytes
      → (tail : Bytes) × (bytes ≡ opened (codes (to_version_string v) ++ tail))

leb-add : (n m k : ℕ) → n ≡ m → leb n (m + k) ≡ true
leb-add n m k e = ground arith

module _ (d : Deps) (writes : WritesJson d) where
  from_raw-sized :
      (s : Serder) (v : Version) (fields : Fields) (after : Bytes)
      → s.kind ≡ json
      → s.version ≡ some v
      → s.sad ≡ object (with_field "v" (string (to_version_string v)) fields)
      → IsShort v
      → v.protocol ≡ "KERI"
      → v.size ≡ length s.raw
      → d.serialize json s.sad ≡ some s.raw
      → d.deserialize json s.raw ≡ some s.sad
      → from_raw d (s.raw ++ after) ≡ ok s
  unfolding from_raw sniff_kind deserialize_value
  from_raw-sized s v fields after kind version sad h k sized bytes reads =
      let (tail, raw) = writes.v_first v fields s.raw h k (rw sad at bytes) in
      let found : extract_version_from_raw (s.raw ++ after) ≡ some v =
        rw (raw, append_assoc (codes (to_version_string v)) tail after)
          (extract_version_opened v (tail ++ after) h k) in
      let fits : leb v.size (length (s.raw ++ after)) ≡ true =
        rw (length-append s.raw after) (leb-add v.size (length s.raw) (length after) sized) in
      let front : take v.size (s.raw ++ after) ≡ s.raw =
        take-append v.size s.raw after (omega arith)
        ∙ subst (λ n. take n s.raw ≡ s.raw) (sym sized) (take-length s.raw) in
      let kinds : sniff_kind (s.raw ++ after) ≡ ok json = rw raw refl in
      rw (kinds, found, from_raw)
        (rw (fits, front, reads)
          (λ i. ok (record s { version = sym version i; kind = sym kind i })))

  -- The kind and the object of a message that was built.
  abbrev Shaped : Fields → Serder → Type 0
  Shaped fields s =
      (v : Version)
      → s.version ≡ some v
      → (s.kind ≡ json) × (s.sad ≡ object (with_field "v" (string (to_version_string v)) fields))

  with_version-Shaped :
      (text : String) (fields : Fields) (first : Bytes) (ver : Version) (s : Serder)
      → with_version d json (object (with_field "v" (string text) fields)) first (some ver) ≡ ok s
      → Shaped fields s
  unfolding with_version set_field insert
  with_version-Shaped text fields first ver s h =
      >>=-elim (Shaped fields) (serialize_value d _ json) _
        (λ second e. >>=-elim (Shaped fields) (serialize_value d _ json) _ λ third f b r.
          subst (Shaped fields) (ok-eq-ok r) λ v q.
            (let is : record ver { size = length second } ≡ v = cc (q) in
              (refl, ap (λ w. object (with_field "v" (string (to_version_string w)) fields)) is)))
        s h

  new-Shaped :
      (text : String) (fields : Fields) (s : Serder)
      → new d json (object (with_field "v" (string text) fields)) ≡ ok s
      → Shaped fields s
  unfolding new get_str get lookup
  new-Shaped text fields s h =
      >>=-elim (Shaped fields)
        (serialize_value d (object (with_field "v" (string text) fields)) json) _
        (λ first e. with_version-Shaped text fields first _) s h

  -- A JSON message that `new` has built from an object whose first field is the version string of a
  -- four-character protocol `KERI` is read back by `from_raw`, whatever bytes follow it: the same
  -- bytes, version, kind and object. The conditions are a size below 16 MiB, one-digit version
  -- numbers, a serializer that writes JSON as documented, and that the deserializer gives this
  -- message's own object for its bytes.
  pub from_raw-new :
      (law : KeepsLength d json) (text : String) (fields : Fields) (s : Serder) (v : Version)
      (first after : Bytes)
      → d.serialize json (object (with_field "v" (string text) fields)) ≡ some first
      → length first < 16777216
      → new d json (object (with_field "v" (string text) fields)) ≡ ok s
      → s.version ≡ some v
      → IsShort v
      → v.protocol ≡ "KERI"
      → d.deserialize json s.raw ≡ some s.sad
      → from_raw d (s.raw ++ after) ≡ ok s
  from_raw-new law text fields s v first after f small built version h k reads =
      let sad = object (with_field "v" (string text) fields) in
      let sized = new-IsSized d json law sad s v first f small built version h.size in
      let (kind, shape) = new-Shaped text fields s built v version in
      from_raw-sized s v fields after kind version shape h k sized.size (rw kind at (sized.bytes))
        reads
