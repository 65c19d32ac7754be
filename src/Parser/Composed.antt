-- ===== src/Parser/Composed.antt =====
-- What the composer has written, read by the parser.
use affinidi_keri_rs.Prelude.{
  ℕ, suc, ◌+◌, ◌-◌, ◌*◌, ◌≤◌, String, ◌≡◌, refl, ap, subst, Bool, true, ◌||◌, some, List, [], ◌∷◌,
  ◌++◌, map, arith, leb, ◌==◌, nat_eq, string_eq, pair_eq, length, drop, drop-append, drop-length,
  length-append, All,
}
use affinidi_keri_rs.Prelude.Result.{ok, ok_or, >>=-eq-ok, ok_or-eq-ok, >>=-elim, ok-eq-ok}
use mathlib.Core.List.{append-nil}
use affinidi_keri_rs.Prelude.Text.{codes}
use affinidi_keri_rs.Prelude.Ascii.{from_ascii, codes-from_ascii, from_ascii-append}
use affinidi_keri_rs.Crypto.Extern.{Bytes}
use affinidi_keri_rs.Crypto.Siger.{Siger}
use affinidi_keri_rs.CounterTable.{
  CounterTable, GroupKind, controller_idx_sigs, classify, classify-code_in,
}
use affinidi_keri_rs.Deps.{Deps, Counter}
use affinidi_keri_rs.Serder
use affinidi_keri_rs.Serder.{Serder}
use affinidi_keri_rs.Composer.{
  table_for, counter_code_for, counter_text, sigs_text, compose_sigs, compose_event,
}
use affinidi_keri_rs.Parser.Message.{Attachment, controller_sigs}
use affinidi_keri_rs.Parser.{
  parse_indexed_sigs, parse_group, parse_attachments, parse_next_sad, parse_next_inner,
}
use affinidi_keri_rs.Parser.Signatures.{
  FollowsCesr, IsSendable, bare, sigs_text-ParsesAs, sigs_text-IsSigText,
}

-- The groups that a message with these signatures has.
abbrev pub grouped : List Siger → List Attachment
grouped [] = []
grouped (s ∷ ss) = controller_sigs (map bare (s ∷ ss)) ∷ []

module _ (d : Deps) (law : FollowsCesr d) where
  parse_indexed_sigs-sigs_text :
      (ss : List Siger) (text : Bytes)
      → All (IsSendable d) ss
      → sigs_text d ss ≡ ok text
      → length ss ≤ 4096
      → parse_indexed_sigs d text (length ss) ≡ ok (map bare ss, length text)
  unfolding parse_indexed_sigs
  parse_indexed_sigs-sigs_text ss text n composed few =
      let i = sigs_text-IsSigText d law ss text n composed in
      let counted : leb (length ss) 4096 ≡ true = ground arith in
      let enough : leb (length ss * 4) (length text) ≡ true = ground (arith, i.least) in
      let all = sigs_text-ParsesAs d law ss text n composed [] in
      rw (counted, enough, i.ascii.1) (rw (append-nil text) at all)

  -- One group, and nothing behind it.
  parse_attachments_step :
      (table : CounterTable) (strict : Bool) (fuel : ℕ) (c : Counter) (front others text : Bytes)
      (whole : String) (found : List Attachment)
      → front ≡ b'-' ∷ others
      → from_ascii (front ++ text) ≡ some whole
      → d.counter_from_qb64 whole ≡ some c
      → d.counter_full_size c ≡ length front
      → parse_group d
          (parse_attachments d table strict (suc fuel))
          strict
          (classify c.code table)
          c
          text
        ≡ ok (found, length text)
      → parse_attachments d table strict (suc (suc fuel)) (front ++ text)
        ≡ ok (found, length (front ++ text))
  unfolding parse_attachments
  parse_attachments_step table strict fuel c [] others text whole found e a p n g = cc
  parse_attachments_step table strict fuel c (b ∷ bs) others text whole found e a p n g =
      let dash : (b == b'-') ≡ true = ground arith in
      let behind : drop (length (b ∷ bs)) (b ∷ bs ++ text) ≡ text = drop-append (b ∷ bs) text in
      let nothing : drop (length text) text ≡ [] = drop-length text in
      rw (dash, parse_attachments)
        (rw (a, p, n, behind, g, nothing)
          (let sizes : suc (length bs) + length text + 0 ≡ suc (length (bs ++ text)) =
              omega (arith, length-append bs text) in
            rw (append-nil found, sizes) refl))

  counter_text_sound :
      (s : Serder) (kind : GroupKind) (count : ℕ) (t : String)
      → counter_text d s kind count ≡ ok t
      → (c : Counter) × (d.counter_qb64 c ≡ some t)
        × (classify c.code (table_for s) ≡ some kind)
        × (c.count ≡ count)
  unfolding counter_text counter_code_for
  counter_text_sound s kind count t h =
      let (code, e, r) = >>=-eq-ok (counter_code_for s kind) _ h in
      let (c, f, q) = >>=-eq-ok (ok_or (d.counter_new code count) _) _ r in
      let (same, counted) = law.counter_new code count c (ok_or-eq-ok _ _ f) in
      (
        c,
        ok_or-eq-ok _ _ q,
        rw same (classify-code_in kind (table_for s) code (ok_or-eq-ok _ _ e)),
        counted,
      )

  starts_message :
      (b : ℕ) (bs : Bytes) (s : Serder)
      → Serder.from_raw d (b ∷ bs) ≡ ok s
      → (b == b'{' || Serder.is_cbor_start b || Serder.is_msgpack_start b) ≡ true
  unfolding Serder.from_raw Serder.sniff_kind
  starts_message b bs s h = ground arith

  parse_attachments-sigs :
      (m : Serder) (strict : Bool) (t : String) (s : Siger) (ss : List Siger) (text : Bytes)
      → counter_text d m controller_idx_sigs (length (s ∷ ss)) ≡ ok t
      → All (IsSendable d) (s ∷ ss)
      → sigs_text d (s ∷ ss) ≡ ok text
      → length (s ∷ ss) ≤ 4096
      → parse_attachments d (table_for m) strict (length (codes t ++ text) + 1) (codes t ++ text)
        ≡ ok (grouped (s ∷ ss), length (codes t ++ text))
  unfolding parse_group
  parse_attachments-sigs m strict t s ss text h n composed few =
      let (c, printed, kind, count) =
        counter_text_sound m controller_idx_sigs (length (s ∷ ss)) t h in
      let w = law.counter c t printed in
      let i = sigs_text-IsSigText d law (s ∷ ss) text n composed in
      let (whole, reads) = from_ascii-append (codes t) text t i.ascii.0 w.ascii i.ascii.1 in
      let fuel : length (codes t ++ text) + 1 ≡ suc (suc (length (codes t ++ text) - 1)) =
        omega (arith, length-append (codes t) text, ap {A = Bytes} length w.starts) in
      let sigs = parse_indexed_sigs-sigs_text (s ∷ ss) text n composed few in
      rw fuel (
        parse_attachments_step (table_for m) strict (length (codes t ++ text) - 1) c (codes t)
          w.others text whole (grouped (s ∷ ss)) w.starts reads
          (w.parsed whole text (codes-from_ascii (codes t ++ text) whole reads)) w.size
          (rw (kind, count, sigs) refl))

  -- A body that is read as the message `m` is parsed with its groups.
  abbrev ParsedWith : Bool → Serder → List Siger → Bytes → Type 0
  ParsedWith strict m sigs bytes =
      Serder.from_raw d bytes ≡ ok m
      → parse_next_sad d strict bytes
        ≡ ok (record { serder = m; attachments = grouped sigs }, length bytes)

  parse_next_sad-composed :
      (strict : Bool) (m : Serder) (sigs : List Siger) (bytes : Bytes)
      → All (IsSendable d) sigs
      → compose_event d m sigs ≡ ok bytes
      → length sigs ≤ 4096
      → ParsedWith strict m sigs bytes
  unfolding compose_event compose_sigs parse_next_sad parse_attachments
  parse_next_sad-composed strict m [] bytes n h few =
      subst (ParsedWith strict m []) (ok-eq-ok h) λ f.
        (let size : length m.raw + 0 ≡ length m.raw = omega arith in
          rw (f, drop-length m.raw, size) refl)
  parse_next_sad-composed strict m (s ∷ ss) bytes n h few =
      >>=-elim (ParsedWith strict m (s ∷ ss))
        (counter_text d m controller_idx_sigs (length (s ∷ ss))) _
        (λ t e. >>=-elim (ParsedWith strict m (s ∷ ss)) (sigs_text d (s ∷ ss)) _ λ text g b r.
          subst (ParsedWith strict m (s ∷ ss)) (ok-eq-ok r) λ f.
            rw
              (
                f,
                drop-append m.raw (codes t ++ text),
                parse_attachments-sigs m strict t s ss text e n g few,
                length-append m.raw (codes t ++ text),
              )
              refl)
        bytes h

  -- What `compose_event` has written is parsed back, strictly and leniently: as the same message with
  -- the same signatures in order, up to their keys, which take the whole of the bytes. Its conditions
  -- are that the body alone tells where it ends, so that it is read as the message also with the
  -- group behind it, that there are at most 4096 signatures, each of a code of one letter and read
  -- back by the codec, and that the codec reads counters back.
  pub parse_next_inner-compose_event :
      (strict : Bool) (m : Serder) (sigs : List Siger) (bytes : Bytes)
      → All (IsSendable d) sigs
      → compose_event d m sigs ≡ ok bytes
      → Serder.from_raw d bytes ≡ ok m
      → length sigs ≤ 4096
      → parse_next_inner d bytes strict
        ≡ ok (record { serder = m; attachments = grouped sigs }, length bytes)
  unfolding parse_next_inner Serder.from_raw Serder.sniff_kind
  parse_next_inner-compose_event strict m sigs [] n h f few = cc
  parse_next_inner-compose_event strict m sigs (b ∷ bs) n h f few =
      rw (starts_message b bs m f, parse_next_inner)
        (parse_next_sad-composed strict m sigs (b ∷ bs) n h few f)
