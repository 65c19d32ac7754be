-- ===== src/Hab/Signing.antt =====
-- crates/affinidi-keri/src/hab.rs: the keys of a generation, and the message that they sign.
use affinidi_keri_rs.Prelude.{
  ℕ, zero, suc, ◌+◌, String, Bool, true, false, Option, none, some, List, [], ◌∷◌, ◌++◌,
  if◌then◌else◌, nat_eq, string_eq, pair_eq, length,
}
use affinidi_keri_rs.Prelude.Result.{ok, ◌>>=◌, ok_or}
use Prim.Native.String.{◌++◌ as append}
use affinidi_keri_rs.Prelude.Text.{codes, to_decimal}
use affinidi_keri_rs.Json.{Value, Fields, null, string, object, lookup, insert}
use affinidi_keri_rs.Crypto.Extern.{Bytes}
use affinidi_keri_rs.Crypto.Diger
use affinidi_keri_rs.Crypto.Verfer
use affinidi_keri_rs.Crypto.Siger
use affinidi_keri_rs.Crypto.Signer
use affinidi_keri_rs.Crypto.Signer.{Signer}
use affinidi_keri_rs.Crypto.Salter
use affinidi_keri_rs.Crypto.Salter.{Salter}
use affinidi_keri_rs.CounterTable.{GroupKind, controller_idx_sigs}
use affinidi_keri_rs.Version.{json, hex_06}
use affinidi_keri_rs.Error.{KeriError, KeriResult, CoreError, from_core, keri_crypto}
use affinidi_keri_rs.Deps.{Deps}
use affinidi_keri_rs.Said
use affinidi_keri_rs.Serder
use affinidi_keri_rs.Serder.{Serder}
use affinidi_keri_rs.Composer.{counter_code_for}
use affinidi_keri_rs.Hab.Sads.{SignedEvent}

-- `"{generation}.{i}"`
unfoldable pub path_of : ℕ → ℕ → String
unfolding to_decimal
path_of generation i = append (to_decimal generation) (append "." (to_decimal i))

-- `sad[key]`, which is null where the key is not there.
abbrev at_key : String → Fields → Value
at_key k fields = elim (lookup k fields) [ none ↦ null | some v ↦ v ]

abbrev same_field : (Value → Value → Bool) → Option Value → Option Value → Bool
same_field eq none none = true
same_field eq (some v) (some w) = eq v w
same_field eq _ _ = false

module _ (d : Deps) where
  -- The size goes into the version string, measured with placeholders for the digest.
  unfoldable pub fix_version_string : Fields → KeriResult Fields
  unfolding Said.dummy hex_06
  fix_version_string sad = do
    let placeholder = string (Said.dummy 44)
    let orig_d = at_key "d" sad
    let orig_i = at_key "i" sad
    let with_d = insert "d" placeholder sad
    let sized =
        if same_field d.value_eq (lookup "d" sad) (lookup "i" sad)
        then insert "i" placeholder with_d
        else with_d
    temp_raw ← ok_or (d.serialize json (object sized)) (KeriError.core CoreError.json)
    let vs = append "KERI10JSON" (append (hex_06 (length temp_raw)) "_")
    ok (insert "i" orig_i (insert "d" orig_d (insert "v" (string vs) sized)))

  -- The keys of a generation at the positions from `i` on.
  unfoldable pub derive_from : Salter → String → Bool → ℕ → ℕ → ℕ → KeriResult (List Signer)
  unfolding path_of
  derive_from salter code transferable generation i zero = ok []
  derive_from salter code transferable generation i (suc count) = do
    signer ←
        keri_crypto (Salter.signer d.crypto salter code (path_of generation i) "low" transferable)
    rest ← derive_from salter code transferable generation (i + 1) count
    ok (signer ∷ rest)

  unfoldable pub derive : Salter → String → Bool → ℕ → ℕ → KeriResult (List Signer)
  unfolding derive_from
  derive salter code transferable generation count =
      derive_from salter code transferable generation 0 count

  unfoldable pub keys_of : List Signer → KeriResult (List String)
  keys_of [] = ok []
  keys_of (s ∷ ss) = do
    key ← keri_crypto (Verfer.qb64 d.crypto s.verfer)
    keys ← keys_of ss
    ok (key ∷ keys)

  -- The digest of the text of each key.
  unfoldable pub digests_of : List Signer → KeriResult (List String)
  digests_of [] = ok []
  digests_of (s ∷ ss) = do
    key ← keri_crypto (Verfer.qb64 d.crypto s.verfer)
    diger ← keri_crypto (Diger.from_data d.crypto "E" (codes key))
    digest ← keri_crypto (Diger.qb64 d.crypto diger)
    digests ← digests_of ss
    ok (digest ∷ digests)

  -- An indexed signature by each key, from the index `i` on.
  unfoldable pub sign_from : Bytes → ℕ → List Signer → KeriResult Bytes
  sign_from raw i [] = ok []
  sign_from raw i (s ∷ ss) = do
    siger ← keri_crypto (Signer.sign_indexed d.crypto s raw i true)
    qb64 ← keri_crypto (Siger.qb64 d.crypto siger)
    rest ← sign_from raw (i + 1) ss
    ok (codes qb64 ++ rest)

  unfoldable pub counter_qb64 : Serder → GroupKind → ℕ → KeriResult Bytes
  counter_qb64 serder kind count = do
    code ← from_core (counter_code_for serder kind)
    counter ← ok_or (d.counter_new code count) KeriError.cesr
    text ← ok_or (d.counter_qb64 counter) KeriError.cesr
    ok (codes text)

  -- What the three events share: the object gets its size and its digest, and the message is signed
  -- by the given keys.
  unfoldable pub sign_event : Fields → List Signer → KeriResult SignedEvent
  unfolding fix_version_string sign_from counter_qb64
  sign_event sad signers = do
    sized ← fix_version_string sad
    (said, filled) ← from_core (Said.compute_said d (object sized) "d" "E" json)
    serder ← from_core (Serder.new d json filled)
    signatures ← sign_from serder.raw 0 signers
    counter ← counter_qb64 serder controller_idx_sigs (length signers)
    ok (record {
      said = said;
      raw = serder.raw;
      signatures = signatures;
      composed = serder.raw ++ (counter ++ signatures);
    })
