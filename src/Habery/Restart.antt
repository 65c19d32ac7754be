-- ===== src/Habery/Restart.antt =====
-- Local identifiers over the LMDB store, after the process was started again.
use affinidi_keri_rs.Prelude.{
  ℕ, String, ◌≡◌, refl, ap, subst, ◌∙◌, inl, inr, Option, some, List, arith, Bool-cases,
  Option-cases, nat_eq, string_eq, pair_eq, succ_u64,
}
use affinidi_keri_rs.Prelude.Result.{ok, err, ok_or, Result-cases, ok_or-eq-ok, >>=-elim, ok-eq-ok}
use affinidi_keri_rs.Prelude.Map.{find}
use affinidi_keri_rs.Json.{Value}
use affinidi_keri_rs.Crypto.Extern.{Bytes}
use affinidi_keri_rs.Error.{KeriError, KeriResult}
use affinidi_keri_rs.Deps.{Deps}
use affinidi_keri_rs.Lmdb.{LmdbStore, Heed, lmdb_store, store_event, get_hab}
use affinidi_keri_rs.Config.{RotationConfig}
use affinidi_keri_rs.Hab
use affinidi_keri_rs.Hab.{from_db, with_store, rotate_inner, interact_inner, rotation, interaction}
use affinidi_keri_rs.Hab.Sads.{Hab, HabState, SignedEvent, rot_sad, ixn_sad}
use affinidi_keri_rs.Hab.Signing.{derive, keys_of, digests_of, sign_event}
use affinidi_keri_rs.Crypto.Signer.{Signer}
use affinidi_keri_rs.Habery
use affinidi_keri_rs.Habery.{Habery, new, resume}

module _ (d : Deps) (h : Heed) where
  -- What is written of a local identifier is not touched by an event.
  store_event-habs :
      (s t : LmdbStore) (said : String) (event : Bytes) (prefix : String) (sn : ℕ)
      (sigs : Option Bytes)
      → from_db (store_event h s said event prefix sn sigs) ≡ ok t
      → t.habs ≡ s.habs
  unfolding store_event
  store_event-habs s t said event prefix sn sigs e = ground arith

  -- The store after an operation whose only write is that of its event.
  abbrev KeepsHabs : LmdbStore → KeriResult (SignedEvent × LmdbStore) → Type 0
  KeepsHabs s (ok (event, t)) = t.habs ≡ s.habs
  KeepsHabs s (err e) = Unit

  abbrev Writes : LmdbStore → (SignedEvent → KeriResult LmdbStore) → Type 0
  Writes s save = (event : SignedEvent) (t : LmdbStore) → save event ≡ ok t → t.habs ≡ s.habs

  rotation-saves :
      (hab : Hab) (config : RotationConfig) (save : SignedEvent → KeriResult LmdbStore)
      (t : List Signer × SignedEvent × LmdbStore)
      → rotation d hab config save ≡ ok t
      → (event : SignedEvent) × (save event ≡ ok t.2)
  unfolding rotation
  rotation-saves hab config save =
      let P : List Signer × SignedEvent × LmdbStore → Type 0 =
        λ t. (event : SignedEvent) × (save event ≡ ok t.2) in
      >>=-elim P
        (derive d hab.salter hab.code hab.transferable (succ_u64 hab.key_gen) config.next_count) _
        λ next x1. >>=-elim P (keys_of d hab.next_signers) _ λ keys x2.
          >>=-elim P (digests_of d next) _ λ digests x3.
            >>=-elim P (sign_event d (rot_sad hab config keys digests) hab.next_signers) _
              λ event x4. >>=-elim P (save event) _ λ saved x5 t r. subst P (ok-eq-ok r) (event, x5)

  interaction-saves :
      (hab : Hab) (anchors : List Value) (save : SignedEvent → KeriResult LmdbStore)
      (t : SignedEvent × LmdbStore)
      → interaction d hab anchors save ≡ ok t
      → (event : SignedEvent) × (save event ≡ ok t.1)
  unfolding interaction
  interaction-saves hab anchors save =
      let P : SignedEvent × LmdbStore → Type 0 =
        λ t. (event : SignedEvent) × (save event ≡ ok t.1) in
      >>=-elim P (sign_event d (ixn_sad hab anchors) hab.signers) _
        λ event x1. >>=-elim P (save event) _ λ saved x2 t r. subst P (ok-eq-ok r) (event, x2)

  rotate_inner-KeepsHabs :
      (s : LmdbStore) (hab : Hab) (config : RotationConfig)
      (save : SignedEvent → KeriResult LmdbStore)
      → Writes s save
      → KeepsHabs s (rotate_inner d hab config save).1
  unfolding rotate_inner
  rotate_inner-KeepsHabs s hab config save w = elim (Bool-cases hab.transferable) [
    | inr f ↦ rw (f, rotate_inner) tt
    | inl t ↦ elim (Result-cases (rotation d hab config save)) [
      | inr (x, q) ↦ rw (t, q, rotate_inner) tt
      | inl (done, q) ↦
          (let (event, saved) = rotation-saves hab config save done q in
            rw (t, q, rotate_inner) (w event done.2 saved))
    ]
  ]

  interact_inner-KeepsHabs :
      (s : LmdbStore) (hab : Hab) (anchors : List Value) (save : SignedEvent → KeriResult LmdbStore)
      → Writes s save
      → KeepsHabs s (interact_inner d hab anchors save).1
  unfolding interact_inner
  interact_inner-KeepsHabs s hab anchors save w =
      elim (Result-cases (interaction d hab anchors save)) [
        | inr (x, q) ↦ rw (q, interact_inner) tt
        | inl (done, q) ↦
            (let (event, saved) = interaction-saves hab anchors save done q in
              rw (q, interact_inner) (w event done.1 saved))
      ]

  with_store-habs :
      (s : LmdbStore) (r : Hab × KeriResult (SignedEvent × LmdbStore))
      → KeepsHabs s r.1
      → (with_store s r).1.habs ≡ s.habs
  with_store-habs s (hab, ok (event, t)) k = k
  with_store-habs s (hab, err e) k = refl

  rotate-habs :
      (c : Habery LmdbStore) (name : String) (config : RotationConfig)
      → (Habery.rotate d (lmdb_store h) c name config).0.store.habs ≡ c.store.habs
  unfolding Habery.rotate Hab.rotate
  rotate-habs c name config = elim (Option-cases (find c.habs name)) [
    | inl n ↦ rw (n, Habery.rotate)
    | inr (hab, f) ↦
        rw (f, Habery.rotate)
          (with_store-habs c.store _ (
            rotate_inner-KeepsHabs c.store hab config _ λ e t w.
              store_event-habs c.store t e.said e.raw hab.prefix (succ_u64 hab.sn)
                (some e.signatures) w))
  ]

  interact-habs :
      (c : Habery LmdbStore) (name : String) (anchors : List Value)
      → (Habery.interact d (lmdb_store h) c name anchors).0.store.habs ≡ c.store.habs
  unfolding Habery.interact Hab.interact
  interact-habs c name anchors = elim (Option-cases (find c.habs name)) [
    | inl n ↦ rw (n, Habery.interact)
    | inr (hab, f) ↦
        rw (f, Habery.interact)
          (with_store-habs c.store _ (
            interact_inner-KeepsHabs c.store hab anchors _ λ e t w.
              store_event-habs c.store t e.said e.raw hab.prefix (succ_u64 hab.sn)
                (some e.signatures) w))
  ]

  -- Any rotations and interactions of any identifiers, failures included.
  pub data Later (b : Habery LmdbStore) : Habery LmdbStore → Type 0 where
    now : Later b b
    rotates :
        (c : Habery LmdbStore) (name : String) (config : RotationConfig)
        → Later b c
        → Later b (Habery.rotate d (lmdb_store h) c name config).0
    interacts :
        (c : Habery LmdbStore) (name : String) (anchors : List Value)
        → Later b c
        → Later b (Habery.interact d (lmdb_store h) c name anchors).0

  Later-habs : {b c : Habery LmdbStore} → Later b c → c.store.habs ≡ b.store.habs
  Later-habs now = refl
  Later-habs (rotates c name config l) = rotate-habs c name config ∙ Later-habs l
  Later-habs (interacts c name anchors l) = interact-habs c name anchors ∙ Later-habs l

  get_hab-finds :
      (s : LmdbStore) (name : String) (found : Option Bytes) (raw : Bytes)
      → from_db (get_hab h s name) ≡ ok found
      → found ≡ some raw
      → find s.habs name ≡ some raw
  unfolding get_hab
  get_hab-finds s name found raw e f = ground arith

  -- What a fresh process builds an identifier from.
  record Restored (parse_state : Bytes → Option HabState) (s : LmdbStore) (name : String)
      (salt : Bytes) (hab : Hab) : Type 0 where
    raw : Bytes
    state : HabState
    kept : find s.habs name ≡ some raw
    parsed : parse_state raw ≡ some state
    built : Hab.resume d state salt ≡ ok hab

  resume-Restored :
      (parse_state : Bytes → Option HabState) (s : LmdbStore) (name : String) (salt : Bytes)
      (t : Hab × Habery LmdbStore)
      → resume d (lmdb_store h) parse_state (new s) name salt ≡ ok t
      → Restored parse_state s name salt t.0
  unfolding resume find
  resume-Restored parse_state s name salt =
      let P : Hab × Habery LmdbStore → Type 0 = λ t. Restored parse_state s name salt t.0 in
      >>=-elim P (from_db (get_hab h s name)) _ λ found x1.
        >>=-elim P (ok_or found KeriError.not_found) _ λ raw x2.
          >>=-elim P (ok_or (parse_state raw) KeriError.config) _ λ state x3.
            >>=-elim P (Hab.resume d state salt) _ λ hab x4 t r. subst P (ok-eq-ok r) (record {
              raw = raw;
              state = state;
              kept = get_hab-finds s name found raw x1 (ok_or-eq-ok found KeriError.not_found x2);
              parsed = ok_or-eq-ok (parse_state raw) KeriError.config x3;
              built = x4;
            })

  -- A process that is started again resumes each identifier as the store first recorded it: after any
  -- rotations and interactions the identifier that comes back is the same as before them, with its
  -- old sequence number, last event and keys, since only an inception writes that record.
  pub resume_stale :
      (parse_state : Bytes → Option HabState) (b c : Habery LmdbStore) (name : String)
      (salt : Bytes) (before after : Hab) (x y : Habery LmdbStore)
      → Later b c
      → resume d (lmdb_store h) parse_state (new b.store) name salt ≡ ok (before, x)
      → resume d (lmdb_store h) parse_state (new c.store) name salt ≡ ok (after, y)
      → after ≡ before
  resume_stale parse_state b c name salt before after x y l p q =
      let old = resume-Restored parse_state b.store name salt (before, x) p in
      let latest = resume-Restored parse_state c.store name salt (after, y) q in
      let raws : latest.raw ≡ old.raw =
        cc (latest.kept, old.kept, ap (λ m. find m name) (Later-habs l)) in
      let states : latest.state ≡ old.state = cc (raws, latest.parsed, old.parsed) in
      cc (states, latest.built, old.built)
