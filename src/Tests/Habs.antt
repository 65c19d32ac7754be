-- ===== src/Tests/Habs.antt =====
-- A local identifier with one key: its inception, a failed and a repeated rotation, and a restart.
use affinidi_keri_rs.Prelude.{
  ℕ, ◌≡◌, refl, true, Option, some, [], ◌∷◌, map, nat_eq, string_eq, pair_eq,
}
use affinidi_keri_rs.Prelude.Result.{ok, err}
use affinidi_keri_rs.Prelude.Map.{find, put}
use affinidi_keri_rs.Json.{lookup, insert, set_field, get_str, get}
use affinidi_keri_rs.Crypto.Extern.{Bytes}
use affinidi_keri_rs.Crypto.Diger
use affinidi_keri_rs.Crypto.Verfer
use affinidi_keri_rs.Crypto.Siger
use affinidi_keri_rs.Crypto.Signer
use affinidi_keri_rs.Crypto.Signer.{Signer}
use affinidi_keri_rs.Crypto.Salter
use affinidi_keri_rs.CounterTable.{code_in}
use affinidi_keri_rs.Version
use affinidi_keri_rs.Error.{KeriError, KeriResult}
use affinidi_keri_rs.Said
use affinidi_keri_rs.Serder
use affinidi_keri_rs.Composer
use affinidi_keri_rs.Lmdb
use affinidi_keri_rs.Lmdb.{LmdbStore, Heed, lmdb_store}
use affinidi_keri_rs.Config.{InceptionConfig, default_inception, default_rotation}
use affinidi_keri_rs.Hab
use affinidi_keri_rs.Hab.{incept_inner, rotate_inner, rotation, salter_of, interact_inner}
use affinidi_keri_rs.Hab.Sads.{Hab, HabState, SignedEvent, state}
use affinidi_keri_rs.Hab.Resume.{Life, incepted, rotates, Life-resume-state}
use affinidi_keri_rs.Hab.Failure.{IsUnsigned, failed_rotation_loses_keys}
use affinidi_keri_rs.Habery
use affinidi_keri_rs.Habery.{Habery}
use affinidi_keri_rs.Habery.Restart.{now, rotates as rotates_later, resume_stale}
use affinidi_keri_rs.Deps.{Deps}
use affinidi_keri_rs.Hab.Emission.{Emits, Life-Emits}
use affinidi_keri_rs.Tests.World.{deps}
use affinidi_keri_rs.Tests.Signers.{sound_crypto, sound_crypto-IsSound}

abbrev settings : InceptionConfig
settings = record default_inception { code = "1AAA"; salt = some (1 ∷ 2 ∷ []) }

abbrev written : SignedEvent → Bytes → KeriResult (Unit {0})
written event bytes = ok tt

abbrev signer : ℕ → Signer
signer generation = record {
  raw = generation ∷ 46 ∷ 48 ∷ 1 ∷ 2 ∷ [];
  code = "1AAA";
  transferable = true;
  verfer = record { matter = record { code = "1AAB"; raw = generation ∷ 46 ∷ 48 ∷ 1 ∷ 2 ∷ [] } };
}

abbrev alice : Hab
alice = record {
  name = "alice";
  prefix = "SAID";
  signers = signer 48 ∷ [];
  next_signers = signer 49 ∷ [];
  salter = record { matter = record { code = "0A"; raw = 1 ∷ 2 ∷ [] } };
  transferable = true;
  code = "1AAA";
  last_said = "SAID";
  sn = 0;
  key_gen = 2;
  signer_gen = 0;
  next_gen = 1;
  backer_threshold = 0;
  backers = [];
}

abbrev signed : SignedEvent
signed = record {
  said = "SAID";
  raw = [];
  signatures = 83 ∷ 73 ∷ 71 ∷ [];
  composed = 45 ∷ 65 ∷ 83 ∷ 73 ∷ 71 ∷ [];
}

incept_inner-alice : incept_inner deps "alice" settings [] written ≡ ok (alice, signed, tt)
unfolding incept_inner Salter.new Salter.signer Signer.new_with_transferable Verfer.new Verfer.qb64
    Diger.ct_eq Diger.from_data Diger.qb64 Said.compute_said Said.fixed_size lookup insert
    Said.digest_said Said.serialize_sad Said.fill Said.dummy Said.is_self_addressing Serder.new
    get_str get Signer.sign_indexed Signer.algorithm Siger.new_with_verfer Siger.qb64
    Composer.counter_code_for code_in set_field Version.parse_str Serder.with_version
incept_inner-alice = refl

abbrev refused : SignedEvent → KeriResult (Unit {0})
refused event = err KeriError.config

abbrev taken_back : SignedEvent → KeriResult (Unit {0})
taken_back event = ok tt

abbrev lost : Hab
lost = record alice { next_signers = [] }

rotate_inner-refused :
    rotate_inner deps alice default_rotation refused ≡ (lost, err KeriError.config)
unfolding rotate_inner Salter.new Salter.signer Signer.new_with_transferable Verfer.new Verfer.qb64
    Diger.ct_eq Diger.from_data Diger.qb64 Said.compute_said Said.fixed_size lookup insert
    Said.digest_said Said.serialize_sad Said.fill Said.dummy Said.is_self_addressing Serder.new
    get_str get Signer.sign_indexed Signer.algorithm Siger.new_with_verfer Siger.qb64
    Composer.counter_code_for code_in set_field Version.parse_str Serder.with_version
rotate_inner-refused = refl

abbrev unsigned : SignedEvent
unsigned = record { said = "SAID"; raw = []; signatures = []; composed = 45 ∷ 65 ∷ [] }

abbrev keyless : Hab
keyless = record lost {
  signers = [];
  next_signers = signer 51 ∷ [];
  sn = 1;
  key_gen = 4;
  signer_gen = 1;
  next_gen = 3;
}

rotate_inner-lost :
    rotate_inner deps lost default_rotation taken_back ≡ (keyless, ok (unsigned, tt))
unfolding rotate_inner Salter.new Salter.signer Signer.new_with_transferable Verfer.new Verfer.qb64
    Diger.ct_eq Diger.from_data Diger.qb64 Said.compute_said Said.fixed_size lookup insert
    Said.digest_said Said.serialize_sad Said.fill Said.dummy Said.is_self_addressing Serder.new
    get_str get Signer.sign_indexed Signer.algorithm Siger.new_with_verfer Siger.qb64
    Composer.counter_code_for code_in set_field Version.parse_str Serder.with_version
rotate_inner-lost = refl

-- The retry succeeds: `rotate_inner-lost` says with what.
failed_rotation_loses_keys_example :
    (lost.next_signers ≡ []) × IsUnsigned deps (rotate_inner deps lost default_rotation taken_back)
failed_rotation_loses_keys_example =
    failed_rotation_loses_keys deps alice lost default_rotation default_rotation refused taken_back
      KeriError.config refl rotate_inner-refused

-- The identifier after a rotation that failed.
abbrev lived : Life deps Unit (1 ∷ 2 ∷ []) (rotate_inner deps alice default_rotation refused).0
lived =
    rotates alice default_rotation refused
      (incepted "alice" settings [] written alice signed tt refl incept_inner-alice)

Life-resume-state_example :
    Hab.resume deps (state (rotate_inner deps alice default_rotation refused).0) (1 ∷ 2 ∷ [])
    ≡ ok (rotate_inner deps alice default_rotation refused).0
Life-resume-state_example =
    Life-resume-state deps Unit (1 ∷ 2 ∷ []) (rotate_inner deps alice default_rotation refused).0
      lived

abbrev steady : Heed
steady = record { write_txn = λ s. ok tt; read_txn = λ s. ok tt }

abbrev first_store : LmdbStore
first_store = record {
  evts = [];
  kels = [];
  fels = [];
  dtss = [];
  sigs = [];
  wigs = [];
  rcts = [];
  states = [];
  ooes = [];
  pses = [];
  habs = ("alice", []) ∷ [];
}

abbrev running : Habery LmdbStore
running = record { store = first_store; habs = ("alice", alice) ∷ [] }

abbrev rotated_once : Habery LmdbStore
rotated_once = (Habery.rotate deps (lmdb_store steady) running "alice" default_rotation).0

-- The record of an identifier, as the inception has written it.
abbrev parse_state : Bytes → Option HabState
parse_state raw = some (state alice)

abbrev restarted : LmdbStore → Habery LmdbStore
restarted s = record { store = s; habs = ("alice", alice) ∷ [] }

resume-alice :
    (s : LmdbStore)
    → s.habs ≡ first_store.habs
    → Habery.resume deps (lmdb_store steady) parse_state (Habery.new s) "alice" (1 ∷ 2 ∷ [])
      ≡ ok (alice, restarted s)
unfolding Habery.resume Lmdb.get_hab find put Hab.resume Salter.new Salter.signer
    Signer.new_with_transferable Verfer.new state
resume-alice s h = rw (h, find)

rotated_once-moves : map (λ p. p.1.sn) rotated_once.habs ≡ 1 ∷ []
unfolding Habery.rotate Hab.rotate rotate_inner find put Lmdb.store_event Salter.new Salter.signer
    Signer.new_with_transferable Verfer.new Verfer.qb64 Diger.ct_eq Diger.from_data Diger.qb64
    Said.compute_said Said.fixed_size lookup insert Said.digest_said Said.serialize_sad Said.fill
    Said.dummy Said.is_self_addressing Serder.new get_str get Signer.sign_indexed Signer.algorithm
    Siger.new_with_verfer Siger.qb64 Composer.counter_code_for code_in set_field Version.parse_str
    Serder.with_version
rotated_once-moves = refl

rotated_once-keeps : rotated_once.store.habs ≡ first_store.habs
unfolding Habery.rotate Hab.rotate rotate_inner find put Lmdb.store_event Salter.new Salter.signer
    Signer.new_with_transferable Verfer.new Verfer.qb64 Diger.ct_eq Diger.from_data Diger.qb64
    Said.compute_said Said.fixed_size lookup insert Said.digest_said Said.serialize_sad Said.fill
    Said.dummy Said.is_self_addressing Serder.new get_str get Signer.sign_indexed Signer.algorithm
    Siger.new_with_verfer Siger.qb64 Composer.counter_code_for code_in set_field Version.parse_str
    Serder.with_version
rotated_once-keeps = refl

resume_stale_example : alice ≡ alice
resume_stale_example =
    resume_stale deps steady parse_state running rotated_once "alice" (1 ∷ 2 ∷ []) alice alice
      (restarted first_store) (restarted rotated_once.store)
      (rotates_later running "alice" default_rotation now) (resume-alice first_store refl)
      (resume-alice rotated_once.store rotated_once-keeps)

-- The same identifier with schemes that are sound.
abbrev sounding : Deps
sounding = record deps { crypto = sound_crypto }

incept_inner-sounding : incept_inner sounding "alice" settings [] written ≡ ok (alice, signed, tt)
unfolding incept_inner Salter.new Salter.signer Signer.new_with_transferable Verfer.new Verfer.qb64
    Diger.ct_eq Diger.from_data Diger.qb64 Said.compute_said Said.fixed_size lookup insert
    Said.digest_said Said.serialize_sad Said.fill Said.dummy Said.is_self_addressing Serder.new
    get_str get Signer.sign_indexed Signer.algorithm Siger.new_with_verfer Siger.qb64
    Composer.counter_code_for code_in set_field Version.parse_str Serder.with_version
incept_inner-sounding = refl

Life-Emits_example :
    Emits sounding sound_crypto-IsSound Unit
      (1 ∷ 2 ∷ [])
      (rotate_inner sounding alice default_rotation taken_back)
    × Emits sounding sound_crypto-IsSound Unit
        (1 ∷ 2 ∷ [])
        (interact_inner sounding alice [] taken_back)
Life-Emits_example =
    Life-Emits sounding sound_crypto-IsSound Unit (1 ∷ 2 ∷ []) alice default_rotation [] taken_back
      (incepted "alice" settings [] written alice signed tt refl incept_inner-sounding)
