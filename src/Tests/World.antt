-- ===== src/Tests/World.antt =====
-- A small world for the tests: an identifier with two keys and a witness, a digest that is the
-- bytes themselves, and a signature that is the key's own bytes.
use affinidi_keri_rs.Prelude.{
  ℕ, String, true, Option, none, some, [], ◌∷◌, ◌++◌, if◌then◌else◌, ◌==◌, nat_eq, string_eq,
  pair_eq,
}
use affinidi_keri_rs.Prelude.Result.{ok}
use affinidi_keri_rs.Prelude.Text.{codes}
use affinidi_keri_rs.Json.{
  get_str, array, no_items, with_item, Value, object, string, null, with_field, no_fields,
}
use affinidi_keri_rs.Crypto.Extern.{Matter, Scheme, Extern}
use affinidi_keri_rs.Crypto.Diger.{ct_eq}
use affinidi_keri_rs.Crypto.Verfer.{Verfer}
use affinidi_keri_rs.Crypto.Siger.{Siger}
use affinidi_keri_rs.Threshold.{simple}
use affinidi_keri_rs.Version.{json}
use affinidi_keri_rs.Event.{
  InceptionEvent, DelegatedInceptionEvent, RotationEvent, DelegatedRotationEvent, InteractionEvent,
  SealEvent,
}
use affinidi_keri_rs.Deps.{Deps}
use affinidi_keri_rs.Serder.{Serder}
use affinidi_keri_rs.Delegation.{DelegationProof, DelegatorAnchors}

abbrev pub key : ℕ → Matter
key n = record { code = "1AAB"; raw = n ∷ [] }

abbrev pub parse : String → Option Matter
parse s =
    if s == "K1"
    then some (key 1)
    else if s == "K2"
    then some (key 2)
    else if s == "W1"
    then some (key 3)
    else if s == "EK2"
    then some (record { code = "E"; raw = codes "K2" })
    else if s == "SAID"
    then some (record { code = "E"; raw = [] })
    else none

abbrev print : Matter → Option String
print m =
    if m.code == "E" then some "SAID" else if ct_eq m.raw (1 ∷ []) then some "K1" else some "K2"

abbrev own_bytes : Scheme
own_bytes = record {
  key_parses = λ k. true;
  signature_parses = λ s. true;
  verifies = λ k m s. ct_eq k s;
  private_parses = λ k. true;
  public_key = λ k. k;
  sign = λ k m. k;
}

abbrev pub crypto : Extern
crypto = record {
  matter_new = λ code raw. some (record { code = code; raw = raw });
  matter_from_qb64 = parse;
  matter_qb64 = print;
  indexer_new = λ code i j raw. some (record { code = code; index = i; ondex = j; raw = raw });
  indexer_from_qb64 = λ s. none;
  indexer_qb64 = λ i. some "SIG";
  digest = λ a bytes. bytes;
  ed25519 = own_bytes;
  secp256k1 = own_bytes;
  secp256r1 = own_bytes;
  argon2_params = λ m t p n. true;
  argon2 = λ m t p n password salt. some (password ++ salt);
}

abbrev pub icp : InceptionEvent
icp = record {
  version = "";
  ilk = "icp";
  said = "SAID";
  prefix = "SAID";
  sn = "0";
  keys_threshold = simple 1;
  keys = "K1" ∷ [];
  next_threshold = simple 1;
  next_keys = "EK2" ∷ [];
  backer_threshold = "1";
  backers = "W1" ∷ [];
  config = [];
  anchors = [];
}

abbrev pub dip : DelegatedInceptionEvent
dip = record {
  version = "";
  ilk = "dip";
  said = "SAID";
  prefix = "SAID";
  sn = "0";
  keys_threshold = simple 1;
  keys = "K1" ∷ [];
  next_threshold = simple 1;
  next_keys = "EK2" ∷ [];
  backer_threshold = "0";
  backers = [];
  config = [];
  anchors = [];
  delegator = "BOSS";
}

abbrev pub rot : RotationEvent
rot = record {
  version = "";
  ilk = "rot";
  said = "SAID";
  prefix = "SAID";
  sn = "1";
  prior_said = "SAID";
  keys_threshold = simple 1;
  keys = "K2" ∷ [];
  next_threshold = simple 0;
  next_keys = [];
  backer_threshold = "1";
  backers_remove = [];
  backers_add = "W2" ∷ [];
  config = [];
  anchors = [];
}

abbrev pub drt : DelegatedRotationEvent
drt = record {
  version = "";
  ilk = "drt";
  said = "SAID";
  prefix = "SAID";
  sn = "1";
  prior_said = "SAID";
  keys_threshold = simple 1;
  keys = "K2" ∷ [];
  next_threshold = simple 0;
  next_keys = [];
  backer_threshold = "0";
  backers_remove = [];
  backers_add = [];
  config = [];
  anchors = [];
  delegator = "BOSS";
}

abbrev pub ixn : InteractionEvent
ixn = record {
  version = "";
  ilk = "ixn";
  said = "SAID";
  prefix = "SAID";
  sn = "2";
  prior_said = "SAID";
  anchors = [];
}

-- The delegator's anchors: a seal of the event with the sequence number that the value spells.
abbrev seal : Value → Option SealEvent
seal (string s) = some (record { prefix = "SAID"; sn = s; digest = "SAID" })
seal _ = none

-- The inception, for an object with its prefix.
abbrev pub read_icp : Value → Option InceptionEvent
read_icp v = elim (get_str v "i") [
  | none ↦ none
  | some i ↦ (if i == "SAID" then some icp else none)
]

abbrev pub deps : Deps
deps = record {
  crypto = crypto;
  counter_new = λ code n. some (record { code = code; count = n });
  counter_qb64 = λ c. some c.code;
  counter_from_qb64 = λ text. none;
  counter_full_size = λ c. 4;
  hardage = λ c. some 1;
  indexer_size = λ code. some 4;
  full_size = λ code. some 4;
  to_inception = read_icp;
  to_delegated_inception = λ v. some dip;
  to_rotation = λ v. some rot;
  to_delegated_rotation = λ v. some drt;
  to_interaction = λ v. some ixn;
  to_seal_event = seal;
  value_eq = λ v w. true;
  serialize = λ kind v. some [];
  deserialize = λ kind bytes. none;
}

abbrev pub proof : DelegationProof
proof = record { sn = 7; said = "SAID" }

abbrev pub boss : DelegatorAnchors
boss = record { anchors_at = λ delegator sn said. ok (some (null ∷ string "0" ∷ string "1" ∷ [])) }

-- A message of a type and a sequence number.
abbrev pub message : String → String → Serder
message ilk sn = record {
  raw = [];
  version = none;
  kind = json;
  sad = object (
      with_field "t" (string ilk) (
        with_field "d" (string "SAID")
          (with_field "i" (string "SAID") (with_field "s" (string sn) no_fields))));
}

-- The same with the keys of the inception.
abbrev pub message_with_keys : String → String → Serder
message_with_keys ilk sn = record {
  raw = [];
  version = none;
  kind = json;
  sad = object (
      with_field "t" (string ilk) (
        with_field "d" (string "SAID") (
          with_field "i" (string "SAID") (
            with_field "s" (string sn)
              (with_field "k" (array (with_item (string "K1") no_items)) no_fields)))));
}

abbrev pub verfer : ℕ → Verfer
verfer n = record { matter = key n }

-- The signature by the first key of a list, which has this number.
abbrev pub sig : ℕ → Siger
sig n = record {
  indexer = record { code = "A"; index = 0; ondex = none; raw = n ∷ [] };
  verfer = none;
}
