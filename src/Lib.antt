-- ===== src/Lib.antt =====
-- affinidi-keri-rs: KERI (Key Event Receipt Infrastructure) in Rust.
--
-- The workspace has four crates. `affinidi-keri-crypto` wraps keys, signatures and digests in CESR
-- primitives; `affinidi-keri-core` holds the events, the signing thresholds, the key state and its
-- verifier (`Kever`), delegation and the escrow; `affinidi-keri-db` stores events; `affinidi-keri`
-- drives identifiers on top of them. An event arrives as a `Serder` (its bytes and its parsed
-- object). The verifier of an identifier checks the digest, the sequence number, the signatures
-- under a threshold and, for a rotation, that the new keys open the digests that the establishment
-- event before committed to; it then takes the next key state. A delegated identifier needs, in
-- addition, a seal in an event of its delegator. What cannot be taken yet waits in the escrow.
--
-- Files, by the part that they model:
--   Prelude/*            Rust's `Result`, `Vec`, `HashMap`, machine integers and number formats
--   Json                 `serde_json::Value` and its accessors
--   Error                crates/affinidi-keri-core/src/error.rs and the errors of the other crates
--   Crypto/Extern        what crates/affinidi-keri-crypto takes from other crates
--   Crypto/Verfer, Diger, Siger, Cigar, Signer, Salter, Prefixer
--                        crates/affinidi-keri-crypto/src/verfer.rs, diger.rs, siger.rs, cigar.rs,
--                        signer.rs, salter.rs, prefixer.rs; Crypto/Signer/Signing
--   Threshold            crates/affinidi-keri-core/src/threshold.rs (`Weight`, `Threshold`);
--     Threshold/Exact    against fractions; Threshold/Within and Threshold/Overflow: where the
--                        arithmetic stays within a `u64` and where it leaves it;
--     Threshold/RoundTrip  printing and parsing
--   Ilk, CounterTable, Event, Version
--                        crates/affinidi-keri-core/src/ilk.rs, counter_table.rs, event.rs (with
--                        seal.rs) and version.rs; Version/RoundTrip, Version/Bytes
--   Deps                 what the core takes from serde, its formats and the CESR size table
--   Said                 crates/affinidi-keri-core/src/said.rs (`compute_said`, `verify_said`);
--                        Said/Verification
--   Serder               crates/affinidi-keri-core/src/serder.rs (`new`, `from_raw`, ...);
--                        Serder/Sizes, Serder/RoundTrip
--   Composer             crates/affinidi-keri-core/src/composer.rs
--   Parser               crates/affinidi-keri-core/src/parser.rs: the loops over a stream;
--                        Parser/Message: the parsed message; Parser/Signatures,
--                        Parser/Composed, Parser/Built, Parser/Groups, Parser/Termination,
--                        Parser/Refusal
--   KeyState             crates/affinidi-keri-core/src/key_state.rs (`from_inception`,
--                        `apply_rotation`, ...); KeyState/Rotation, KeyState/Backers
--   Delegation           crates/affinidi-keri-core/src/delegation.rs; Delegation/Anchor,
--                        Delegation/Source
--   Kever                crates/affinidi-keri-core/src/kever.rs; Kever/Inception, Kever/Updates,
--                        Kever/Delegated, Kever/Signatures, Kever/Witnesses, Kever/History
--   Escrow               crates/affinidi-keri-core/src/escrow.rs; Escrow/Limits, Escrow/Bounds,
--                        Escrow/Release
--   Store                crates/affinidi-keri-db/src/store.rs: the trait, as an interface;
--                        Store/Ledger: what its writes and reads promise
--   Keys                 crates/affinidi-keri-db/src/keys.rs; Keys/Injective
--   Lmdb                 crates/affinidi-keri-db/src/lmdb.rs; Lmdb/Refinement, Lmdb/Placement
--   Config               crates/affinidi-keri/src/config.rs: the settings and their defaults
--   Hab                  crates/affinidi-keri/src/hab.rs: the operations of a local identifier;
--                        Hab/Sads: its state and the objects of its events; Hab/Signing: keys and
--                        signed messages; Hab/Resume, Hab/Emission, Hab/Failure
--   Habery               crates/affinidi-keri/src/habery.rs; Habery/Restart
--   Direct               crates/affinidi-keri/src/direct.rs (`process_message`, `process_parsed`);
--                        Direct/Persistence,
--                        Direct/Identity
--   Judge                crates/affinidi-keri/src/judge.rs (`judge_message` is `process` after
--                        the parser); Judge/Outcome, Judge/Log, Judge/Dead
--   Tests/*              runs at concrete inputs
--
-- A structure is a record with the Rust field names; an operation is a function of the same name
-- from the state to a `Result` with the next state, so an error leaves the state that was passed
-- in. `?` is the bind of a `do` block. An error keeps its variant and its numbers, not its text. A
-- `u64` is a natural number with its bound written out: `checked_mul` and `checked_add` return
-- `none` beyond it, and `sn + 1` is taken modulo 2 ^ 64, as in a release build. The loops are
-- structural recursions over the lists that they walk, but for those of the parser, which drop what a
-- group has consumed: they take the length of the stream plus one as fuel, one for each byte. A hash
-- map is an association list without a repeated key; the clock and the random bytes of a salt are
-- arguments, and a time counts from an origin, so an age is not negative. A method on `&mut self`
-- that changes its state also when it fails returns both.
--
-- Code from outside the repository is a field of the records `Crypto.Extern.Extern` and `Deps.Deps`
-- that the definitions take: the CESR codec, the signature and digest algorithms, the serializers,
-- and the derived deserializers of the event structures. Some theorems assume a law of one of them,
-- and say so: that the deserializer of an inception reads the prefix from the field `i`; that a JSON
-- string compares equal to a JSON value when it is that value; that a counter that was read takes
-- some of its text and no more than there is (`CountersFit`); that a code that starts with a letter
-- is that letter and that the codec reads back a counter that it prints (`FollowsCesr`); that
-- serde_json writes the fields in order (`WritesJson`); that a format gives an object a length that
-- does not depend on the digits of the size in it (`KeepsLength`); and that a signature verifies
-- under the public key of its private key (`IsSound`). The store is any that satisfies the interface
-- of `Store`, where a failed write has written nothing. That a message which was sent is parsed back
-- is stated for signatures with a code of one letter, whose texts the codec reads back
-- (`IsSendable`), and for an object that the deserializer reads back; the codes of two characters
-- are left out of it.
--
-- Not modelled: the serde code that is derived, the seals that nothing of the core reads, the setup
-- of the LMDB environment, the builder of the settings and the zeroing of key memory.
pub mod Composer
pub mod Config
pub mod CounterTable
pub mod Crypto
pub mod Delegation
pub mod Deps
pub mod Direct
pub mod Error
pub mod Escrow
pub mod Event
pub mod Hab
pub mod Habery
pub mod Ilk
pub mod Json
pub mod Judge
pub mod Kever
pub mod KeyState
pub mod Keys
pub mod Lmdb
pub mod Parser
pub mod Prelude
pub mod Said
pub mod Serder
pub mod Store
pub mod Tests
pub mod Threshold
pub mod Version
