-- ===== src/Parser/Refusal.antt =====
-- What the parser refuses.
use affinidi_keri_rs.Prelude.{
  ℕ, suc, ◌≤◌, ◌≡◌, refl, Bool, [], ◌∷◌, ◌++◌, arith, nat_eq, string_eq, pair_eq, length, drop,
}
use affinidi_keri_rs.Prelude.Result.{ok, err}
use affinidi_keri_rs.Prelude.Ascii.{from_ascii_refuses}
use affinidi_keri_rs.Crypto.Extern.{Bytes}
use affinidi_keri_rs.CounterTable.{CounterTable}
use affinidi_keri_rs.Deps.{Deps}
use affinidi_keri_rs.Serder
use affinidi_keri_rs.Serder.{Serder}
use affinidi_keri_rs.Composer.{table_for}
use affinidi_keri_rs.Parser.{refuse, parse_attachments, parse_next_sad, parse_next_inner}

module _ (d : Deps) where
  parse_attachments_refuses :
      (table : CounterTable) (strict : Bool) (fuel : ℕ) (before : Bytes) (b : ℕ) (after : Bytes)
      → 128 ≤ b
      → parse_attachments d table strict (suc fuel) (b'-' ∷ (before ++ b ∷ after)) ≡ err refuse
  unfolding parse_attachments
  parse_attachments_refuses table strict fuel before b after h =
      rw (from_ascii_refuses (b'-' ∷ before) b after h)

  parse_next_sad_refuses :
      (stream : Bytes) (strict : Bool) (s : Serder) (before : Bytes) (b : ℕ) (after : Bytes)
      → Serder.from_raw d stream ≡ ok s
      → drop (length s.raw) stream ≡ b'-' ∷ (before ++ b ∷ after)
      → 128 ≤ b
      → parse_next_sad d strict stream ≡ err refuse
  unfolding parse_next_sad
  parse_next_sad_refuses stream strict s before b after h e p =
      rw (h, e)
        (ground (
          arith,
          parse_attachments_refuses (table_for s) strict (length (b'-' ∷ (before ++ b ∷ after)))
              before b after p,
        ))

  -- A message with an attachment group is refused, strictly and leniently, whenever a byte that is
  -- not ASCII stands anywhere behind the start of the group, also in a later message of the stream
  -- that is well formed by itself.
  pub parse_next_refuses :
      (stream : Bytes) (strict : Bool) (s : Serder) (before : Bytes) (b : ℕ) (after : Bytes)
      → Serder.from_raw d stream ≡ ok s
      → drop (length s.raw) stream ≡ b'-' ∷ (before ++ b ∷ after)
      → 128 ≤ b
      → parse_next_inner d stream strict ≡ err refuse
  unfolding parse_next_inner
  parse_next_refuses [] strict s before b after h e p = refl
  parse_next_refuses (c ∷ cs) strict s before b after h e p =
      ground (arith, parse_next_sad_refuses (c ∷ cs) strict s before b after h e p)
