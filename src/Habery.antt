-- ===== src/Habery.antt =====
-- crates/affinidi-keri/src/habery.rs: local identifiers by name, over one store. The derived
-- `Deserialize` of the state of an identifier is generated code, an argument here.
pub mod Restart
use affinidi_keri_rs.Prelude.{
  String, Bool, true, false, Option, none, some, List, [], map, nat_eq, string_eq, pair_eq,
}
use affinidi_keri_rs.Prelude.Result.{ok, err, ◌>>=◌, ◌>>◌, guard, ok_or}
use affinidi_keri_rs.Prelude.Map.{find, put}
use affinidi_keri_rs.Json.{Value}
use affinidi_keri_rs.Crypto.Extern.{Bytes}
use affinidi_keri_rs.Error.{KeriError, KeriResult}
use affinidi_keri_rs.Deps.{Deps}
use affinidi_keri_rs.Store.{KeriStore}
use affinidi_keri_rs.Config.{InceptionConfig, RotationConfig}
use affinidi_keri_rs.Hab
use affinidi_keri_rs.Hab.Sads.{Hab, HabState}
use affinidi_keri_rs.Hab.{from_db}

pub record Habery (S : Type 0) : Type 0 where
  pub store : S
  pub habs : List (String × Hab)

abbrev is_none : Option Hab → Bool
is_none none = true
is_none (some h) = false

abbrev pub new : {S : Type 0} → S → Habery S
new store = record { store = store; habs = [] }

module _ (d : Deps) {S : Type 0} (k : KeriStore S) where
  -- A failure changes nothing: the store's operation has written nothing then.
  unfoldable pub incept :
      Habery S → String → InceptionConfig → Bytes → KeriResult (Bytes × Habery S)
  incept b name config random = do
    guard (is_none (find b.habs name)) KeriError.already_exists
    (hab, msg, store) ← Hab.incept d k name config random b.store
    ok (msg, record { store = store; habs = put b.habs name hab })

  -- What is there stays: `entry(name).or_insert(hab)`.
  abbrev or_insert : List (String × Hab) → String → Hab → Hab × List (String × Hab)
  or_insert habs name hab = elim (find habs name) [
    | some old ↦ (old, habs)
    | none ↦ (hab, put habs name hab)
  ]

  unfoldable pub resume :
      (Bytes → Option HabState) → Habery S → String → Bytes → KeriResult (Hab × Habery S)
  resume parse_state b name salt = do
    found ← from_db (k.get_hab b.store name)
    raw ← ok_or found KeriError.not_found
    state ← ok_or (parse_state raw) KeriError.config
    hab ← Hab.resume d state salt
    let (held, habs) = or_insert b.habs name hab
    ok (held, record b { habs = habs })

  -- The identifier and the store after the operation, whether it failed or not.
  abbrev keep : Habery S → String → Hab × S × KeriResult Bytes → Habery S × KeriResult Bytes
  keep b name (hab, store, r) = (record { store = store; habs = put b.habs name hab }, r)

  unfoldable pub rotate : Habery S → String → RotationConfig → Habery S × KeriResult Bytes
  rotate b name config = elim (find b.habs name) [
    | none ↦ (b, err KeriError.not_found)
    | some hab ↦ keep b name (Hab.rotate d k hab config b.store)
  ]

  unfoldable pub interact : Habery S → String → List Value → Habery S × KeriResult Bytes
  interact b name anchors = elim (find b.habs name) [
    | none ↦ (b, err KeriError.not_found)
    | some hab ↦ keep b name (Hab.interact d k hab anchors b.store)
  ]

  unfoldable pub get : Habery S → String → Option Hab
  get b name = find b.habs name

  unfoldable pub list : Habery S → List String
  list b = map (λ p. p.0) b.habs
