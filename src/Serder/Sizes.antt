-- ===== src/Serder/Sizes.antt =====
-- The size that `Serder::new` writes into the version string.
use affinidi_keri_rs.Prelude.{
  ℕ, ◌<◌, String, ◌≡◌, refl, sym, ap, subst, inl, inr, none, some, arith, Option-cases, nat_eq,
  string_eq, pair_eq, length, beq_refl,
}
use affinidi_keri_rs.Prelude.Result.{ok, Result-cases}
use affinidi_keri_rs.Json.{
  Value, get, get_str, null, bool, number, string, array, object, set_field,
}
use affinidi_keri_rs.Json.Insertion.{lookup-insert, insert-insert}
use affinidi_keri_rs.Crypto.Extern.{Bytes}
use affinidi_keri_rs.Version
use affinidi_keri_rs.Version.{Version, SerializationKind, to_version_string}
use affinidi_keri_rs.Deps.{Deps}
use affinidi_keri_rs.Serder.{Serder, new, with_version, serialize_value}

-- With a size of six digits at most, the version string has a fixed length; a format then gives the
-- object a length that does not depend on the size that is written.
abbrev pub KeepsLength : Deps → SerializationKind → Type 0
KeepsLength d kind =
    (sad : Value) (v : Version) (n m : ℕ) (a b : Bytes)
    → n < 16777216
    → m < 16777216
    → d.serialize kind (set_field sad "v" (string (to_version_string (record v { size = n }))))
      ≡ some a
    → d.serialize kind (set_field sad "v" (string (to_version_string (record v { size = m }))))
      ≡ some b
    → length a ≡ length b

set_field-set_field :
    (v : Value) (k : String) (a b : Value) → set_field (set_field v k a) k b ≡ set_field v k b
unfolding set_field
set_field-set_field (object fs) k a b = ap object (insert-insert k b a fs)
set_field-set_field null k a b = refl
set_field-set_field (bool t) k a b = refl
set_field-set_field (number n) k a b = refl
set_field-set_field (string s) k a b = refl
set_field-set_field (array vs) k a b = refl

-- A value that has a text under some key is an object, so a field that is set is there.
get_str-set_field :
    (v : Value) (k : String) (t u : String)
    → get_str v k ≡ some u
    → get_str (set_field v k (string t)) k ≡ some t
unfolding get_str get set_field
get_str-set_field (object fs) k t u h = rw (lookup-insert k k (string t) fs, beq_refl k)
get_str-set_field null k t u h = cc
get_str-set_field (bool b) k t u h = cc
get_str-set_field (number n) k t u h = cc
get_str-set_field (string s) k t u h = cc
get_str-set_field (array vs) k t u h = cc

-- The version string of a message tells the size of its bytes, which are its object's.
pub record IsSized (d : Deps) (s : Serder) (v : Version) : Type 0 where
  pub size : v.size ≡ length s.raw
  pub written : get_str s.sad "v" ≡ some (to_version_string v)
  pub bytes : d.serialize s.kind s.sad ≡ some s.raw

module _ (d : Deps) (kind : SerializationKind) (law : KeepsLength d kind) where
  abbrev Sized : Serder → Type 0
  Sized s = (v : Version) → s.version ≡ some v → v.size < 16777216 → IsSized d s v

  written_twice :
      (sad : Value) (text : String) (ver : Version) (second third : Bytes)
      → get_str sad "v" ≡ some text
      → ver.size < 16777216
      → d.serialize kind (set_field sad "v" (string (to_version_string ver))) ≡ some second
      → d.serialize kind (
          set_field
            (set_field sad "v" (string (to_version_string ver)))
            "v"
            (string (to_version_string (record ver { size = length second }))))
        ≡ some third
      → Sized (record {
        raw = third;
        version = some (record ver { size = length second });
        kind = kind;
        sad =
            set_field
              (set_field sad "v" (string (to_version_string ver)))
              "v"
              (string (to_version_string (record ver { size = length second })));
      })
  written_twice sad text ver second third t small p q v e fits =
      let final_ver : Version = record ver { size = length second } in
      let is : final_ver ≡ v = cc (e) in
      let below : length second < 16777216 = rw (ap (λ (w : Version). w.size) is) fits in
      let once =
        set_field-set_field sad "v" (string (to_version_string ver))
          (string (to_version_string final_ver)) in
      let same =
        law sad ver ver.size (length second) second third small below p (rw (sym once) q) in
      let final =
        set_field (set_field sad "v" (string (to_version_string ver))) "v"
          (string (to_version_string final_ver)) in
      let w : get_str final "v" ≡ some (to_version_string final_ver) =
        rw once (get_str-set_field sad "v" (to_version_string final_ver) text t) in
      let done : Serder = record {
        raw = third;
        version = some final_ver;
        kind = kind;
        sad = final;
      } in
      let sized : IsSized d done final_ver = record { size = same; written = w; bytes = q } in
      subst (IsSized d done) is sized

  with_version-Sized :
      (sad : Value) (raw : Bytes) (text : String) (ver : Version) (s : Serder)
      → get_str sad "v" ≡ some text
      → ver.size < 16777216
      → with_version d kind sad raw (some ver) ≡ ok s
      → Sized s
  unfolding with_version serialize_value
  with_version-Sized sad raw text ver s t small h =
      elim (Option-cases (d.serialize kind (set_field sad "v" (string (to_version_string ver))))) [
        | inl n ↦ absurd (ground arith)
        | inr (second, p) ↦
            elim (Option-cases (
              d.serialize kind (
                set_field (set_field sad "v" (string (to_version_string ver))) "v"
                  (string (to_version_string (record ver { size = length second })))))) [
                    | inl n ↦ absurd (ground arith)
                    | inr (third, q) ↦
                        (let is : ok _ ≡ ok s = rw (p, q, with_version) at h in
                          subst Sized (cc (is))
                            (written_twice sad text ver second third t small p q))
                  ]
      ]

  unversioned :
      (sad : Value) (raw : Bytes) (s : Serder) (v : Version)
      → with_version d kind sad raw none ≡ ok s
      → s.version ≡ some v
      → ⊥
  unfolding with_version
  unversioned sad raw s v h e = ground arith

  -- A message that `new` has built carries a version string that tells the size of its bytes, for a
  -- format that keeps the length of an object when digits of the version string change, while the
  -- sizes stay below 16 MiB; its bytes are those of its object.
  pub new-IsSized :
      (sad : Value) (s : Serder) (v : Version) (first : Bytes)
      → d.serialize kind sad ≡ some first
      → length first < 16777216
      → new d kind sad ≡ ok s
      → s.version ≡ some v
      → v.size < 16777216
      → IsSized d s v
  unfolding new serialize_value Version.default_v1
  new-IsSized sad s v first f small h e fits = elim (Option-cases (get_str sad "v")) [
    | inl n ↦ (let r = rw (f, n, new) at h in absurd (unversioned sad first s v r e))
    | inr (text, t) ↦ elim (Result-cases (Version.parse_str text)) [
      | inl (u, p) ↦
          with_version-Sized sad first text (record u { size = length first }) s t small
            (rw (f, t, p, new) at h) v e fits
      | inr (x, p) ↦
          with_version-Sized sad first text (Version.default_v1 kind (length first)) s t small
            (rw (f, t, p, new) at h) v e fits
    ]
  ]
