-- ===== src/Parser/Built.antt =====
-- From an object to the wire and back: `Serder::new`, `compose_event`, `parse_next`.
use affinidi_keri_rs.Prelude.{
  ◌≤◌, ◌<◌, String, ◌≡◌, sym, ◌∙◌, true, some, List, [], ◌∷◌, ◌++◌, nat_eq, string_eq, pair_eq,
  length, All,
}
use affinidi_keri_rs.Prelude.Result.{ok, >>=-elim, ok-eq-ok}
use mathlib.Core.List.{append-nil}
use affinidi_keri_rs.Prelude.Text.{codes}
use affinidi_keri_rs.Json.{Fields, object, string, with_field}
use affinidi_keri_rs.Crypto.Extern.{Bytes}
use affinidi_keri_rs.Crypto.Siger.{Siger}
use affinidi_keri_rs.CounterTable.{controller_idx_sigs}
use affinidi_keri_rs.Version.{Version, json}
use affinidi_keri_rs.Version.Bytes.{IsShort}
use affinidi_keri_rs.Deps.{Deps}
use affinidi_keri_rs.Serder
use affinidi_keri_rs.Serder.{Serder}
use affinidi_keri_rs.Serder.Sizes.{KeepsLength}
use affinidi_keri_rs.Serder.RoundTrip.{WritesJson, from_raw-new}
use affinidi_keri_rs.Composer.{counter_text, sigs_text, compose_sigs, compose_event}
use affinidi_keri_rs.Parser.{parse_next}
use affinidi_keri_rs.Parser.Signatures.{FollowsCesr, IsSendable}
use affinidi_keri_rs.Parser.Composed.{grouped, parse_next_inner-compose_event}

module _ (d : Deps) where
  -- The message stands first in what is composed.
  abbrev Follows : Serder → Bytes → Type 0
  Follows m bytes = (after : Bytes) × (bytes ≡ m.raw ++ after)

  compose_event-Follows :
      (m : Serder) (sigs : List Siger) (bytes : Bytes)
      → compose_event d m sigs ≡ ok bytes
      → Follows m bytes
  unfolding compose_event compose_sigs
  compose_event-Follows m [] bytes h = ([], sym (append-nil m.raw ∙ ok-eq-ok h))
  compose_event-Follows m (s ∷ ss) bytes h =
      >>=-elim (Follows m) (counter_text d m controller_idx_sigs (length (s ∷ ss))) _
        (λ t e.
          >>=-elim (Follows m) (sigs_text d (s ∷ ss)) _
            λ text f b r. (codes t ++ text, sym (ok-eq-ok r)))
        bytes h

  -- What a controller builds and sends is what its receiver parses: a JSON message that `new` has
  -- built from an object whose first field is a `KERI` version string, and its signatures, composed by
  -- `compose_event`, are parsed back as that message with those signatures in order, up to their keys,
  -- and take all of the bytes. The conditions are a size below 16 MiB, one-digit version numbers and
  -- at most 4096 signatures; that each signature has a code of one letter and a text that the codec
  -- reads back; that the deserializer gives the message's object for its bytes; and a serializer and
  -- a codec of counters as documented.
  pub parse_next-compose_event-new :
      (codec : FollowsCesr d) (writes : WritesJson d) (law : KeepsLength d json) (text : String)
      (fields : Fields) (m : Serder) (v : Version) (sigs : List Siger) (first bytes : Bytes)
      → d.serialize json (object (with_field "v" (string text) fields)) ≡ some first
      → length first < 16777216
      → Serder.new d json (object (with_field "v" (string text) fields)) ≡ ok m
      → m.version ≡ some v
      → IsShort v
      → v.protocol ≡ "KERI"
      → d.deserialize json m.raw ≡ some m.sad
      → All (IsSendable d) sigs
      → length sigs ≤ 4096
      → compose_event d m sigs ≡ ok bytes
      → parse_next d bytes ≡ ok (record { serder = m; attachments = grouped sigs }, length bytes)
  unfolding parse_next
  parse_next-compose_event-new codec writes law text fields m v sigs first bytes f small built
        version h k reads sendable few composed =
      let (after, is) = compose_event-Follows m sigs bytes composed in
      parse_next_inner-compose_event d codec true m sigs bytes sendable composed
        (rw is
          (from_raw-new d writes law text fields m v first after f small built version h k reads))
        few
