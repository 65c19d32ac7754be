-- ===== src/Parser/Termination.antt =====
-- The parser on streams: it ends, and reports no more bytes than there are.
use affinidi_keri_rs.Prelude.{
  ℕ, zero, suc, ◌+◌, ◌≤◌, ◌<◌, String, ◌≡◌, refl, ap, subst, ◌≢◌, inl, inr, Bool, true, false, not,
  ◌||◌, some, List, [], ◌∷◌, arith, leb, leb→le, Bool-cases, ◌==◌, nat_eq, string_eq, pair_eq,
  length, take, drop, length-drop, length-take,
}
use affinidi_keri_rs.Prelude.Result.{ok, err, ◌>>=◌, guard, >>=-eq-ok, guard-eq-ok}
use affinidi_keri_rs.Prelude.Text.{codes}
use affinidi_keri_rs.Prelude.Ascii.{from_ascii, codes-from_ascii}
use affinidi_keri_rs.Crypto.Extern.{Bytes}
use affinidi_keri_rs.CounterTable.{CounterTable, classify}
use affinidi_keri_rs.Error.{parse_error}
use affinidi_keri_rs.Deps.{Deps, Counter}
use affinidi_keri_rs.Serder
use affinidi_keri_rs.Parser.Message.{ParsedMessage}
use affinidi_keri_rs.Parser.{
  failed, no_fuel, ParseResult, refuse, parse_attachments, parse_next_sad, parse_next_inner,
  skip_whitespace, parse_all_inner, parse_rest, parse_all, parse_all_lenient,
}
use affinidi_keri_rs.Parser.Groups.{
  Within, Within-bind, Within-ok_or, Within-lift, parse_group-Within,
}
use affinidi_keri_rs.Serder.{Serder}
use affinidi_keri_rs.Json.{get_str}
use affinidi_keri_rs.Composer.{table_for}

-- What the documentation of the counter codec promises: a counter that was read takes some of the
-- text, and no more than there is.
abbrev pub CountersFit : Deps → Type 0
CountersFit d =
    (text : String) (c : Counter)
    → d.counter_from_qb64 text ≡ some c
    → (0 < d.counter_full_size c) × (d.counter_full_size c ≤ length (codes text))

module _ (d : Deps) (fits : CountersFit d) (table : CounterTable) (strict : Bool) where
  parse_attachments-Within :
      (fuel : ℕ) (bytes : Bytes)
      → length bytes < fuel
      → Within (length bytes) (parse_attachments d table strict fuel bytes)
  unfolding parse_attachments
  parse_attachments-Within zero bytes h = absurd (omega arith)
  parse_attachments-Within (suc fuel) [] h = record { fits = omega arith }
  parse_attachments-Within (suc fuel) (b ∷ bs) h = elim (Bool-cases (b == b'-')) [
    | inr e ↦ rw (e, parse_attachments) (record { fits = omega arith })
    | inl e ↦
        rw (e, parse_attachments)
          (Within-ok_or (length (b ∷ bs)) (from_ascii (b ∷ bs)) _ λ text t.
            Within-ok_or (length (b ∷ bs)) (d.counter_from_qb64 text) _ λ counter c.
              (let (some_size, no_more) = fits text counter c in
                let bytes_of = codes-from_ascii (b ∷ bs) text t in
                let size = d.counter_full_size counter in
                let rest = drop size (b ∷ bs) in
                let l1 = length-drop size (b ∷ bs) in
                Within-bind (length (b ∷ bs)) (length rest) _ _
                  (parse_group-Within d (parse_attachments d table strict fuel) strict
                    (classify counter.code table) counter rest
                    (λ shorter le.
                      parse_attachments-Within fuel shorter
                        (omega (arith, ap {A = Bytes} length bytes_of))))
                  λ found consumed hc.
                    (let l2 = length-drop consumed rest in
                      Within-bind (length (b ∷ bs)) (length (drop consumed rest)) _ _
                        (parse_attachments-Within fuel (drop consumed rest)
                          (omega (arith, ap {A = Bytes} length bytes_of)))
                        λ more used hu. record {
                          fits = omega (arith, ap {A = Bytes} length bytes_of);
                        })))
  ]

module _ (d : Deps) (fits : CountersFit d) where
  from_raw-le :
      (stream : Bytes) (s : Serder) → Serder.from_raw d stream ≡ ok s → length s.raw ≤ length stream
  unfolding Serder.from_raw
  from_raw-le stream s h =
      let (kind, e, r) = >>=-eq-ok (Serder.sniff_kind stream) _ h in
      let len = Serder.msg_len stream (Serder.extract_version_from_raw stream) in
      let (g, q) = guard-eq-ok (leb len (length stream)) parse_error _ r in
      let (sad, f, w) = >>=-eq-ok (Serder.deserialize_value d (take len stream) kind) _ q in
      let done : Serder = record {
        raw = take len stream;
        version =
            Serder.or_else (Serder.extract_version_from_raw stream)
              (Serder.parsed_version (get_str sad "v"));
        kind = kind;
        sad = sad;
      } in
      let is : done ≡ s = cc (w) in
      let raw = ap (λ (x : Serder). length x.raw) is in
      omega (arith, leb→le, raw, length-take len stream)

  parse_next_sad-Within :
      (strict : Bool) (stream : Bytes) → Within (length stream) (parse_next_sad d strict stream)
  unfolding parse_next_sad
  parse_next_sad-Within strict stream =
      Within-lift (length stream) (Serder.from_raw d stream) _ λ serder e.
        (let rest = drop (length serder.raw) stream in
          let l = length-drop (length serder.raw) stream in
          Within-bind (length stream) (length rest) _ _
            (parse_attachments-Within d fits (table_for serder) strict (length rest + 1) rest
              (omega arith))
            λ attachments consumed h. record { fits = omega (arith, from_raw-le stream serder e) })

  parse_next_inner-Within :
      (stream : Bytes) (strict : Bool) → Within (length stream) (parse_next_inner d stream strict)
  unfolding parse_next_inner
  parse_next_inner-Within [] strict = record { fits = tt }
  parse_next_inner-Within (b ∷ bs) strict =
      elim (Bool-cases (b == b'{' || Serder.is_cbor_start b || Serder.is_msgpack_start b)) [
        | inl e ↦ rw (e, parse_next_inner) (parse_next_sad-Within strict (b ∷ bs))
        | inr e ↦ rw (e, parse_next_inner) (record { fits = tt })
      ]

  -- A message that was parsed takes no more bytes than the stream has, so every slice is within it. The
  -- condition is that a counter that was read takes some of its text and no more than there is
  -- (`CountersFit`).
  pub parse_next_inner_bounds :
      (stream : Bytes) (strict : Bool) (msg : ParsedMessage) (consumed : ℕ)
      → parse_next_inner d stream strict ≡ ok (msg, consumed)
      → consumed ≤ length stream
  parse_next_inner_bounds stream strict msg consumed h =
      (subst (Within (length stream)) h (parse_next_inner-Within stream strict)).fits

  length-skip_whitespace : (stream : Bytes) → length (skip_whitespace stream) ≤ length stream
  unfolding skip_whitespace
  length-skip_whitespace [] = omega arith
  length-skip_whitespace (b ∷ bs) = ground (arith, length-skip_whitespace bs)

  Ends-bind :
      {A B : Type 0} (r : ParseResult A) (f : A → ParseResult B)
      → r ≢ err no_fuel
      → ((a : A) → r ≡ ok a → f a ≢ err no_fuel)
      → (r >>= f) ≢ err no_fuel
  Ends-bind (ok a) f h k = k a refl
  Ends-bind (err (failed e)) f h k = λ p. cc
  Ends-bind (err no_fuel) f h k = absurd (h refl)

  guard-Ends : (t : Bool) → guard t refuse ≢ err no_fuel
  guard-Ends true = λ p. cc
  guard-Ends false = λ p. cc

  advanced :
      (consumed : ℕ) (u : Unit {0}) → guard (not (consumed == 0)) refuse ≡ ok u → 0 < consumed
  advanced consumed u h = ground arith

  parse_next_inner-Ends :
      (stream : Bytes) (strict : Bool) → parse_next_inner d stream strict ≢ err no_fuel
  parse_next_inner-Ends stream strict h =
      (subst (Within (length stream)) h (parse_next_inner-Within stream strict)).fits

  parse_rest-Ends :
      (again : Bytes → ParseResult (List ParsedMessage)) (strict : Bool) (n : ℕ) (rest : Bytes)
      → ((shorter : Bytes) → length shorter < n → again shorter ≢ err no_fuel)
      → length rest ≤ n
      → parse_rest d again strict rest ≢ err no_fuel
  unfolding parse_rest
  parse_rest-Ends again strict n [] ih h = λ p. cc
  parse_rest-Ends again strict n (b ∷ bs) ih h =
      Ends-bind (parse_next_inner d (b ∷ bs) strict) _ (parse_next_inner-Ends (b ∷ bs) strict)
        λ (msg, consumed) e.
          Ends-bind (guard (not (consumed == 0)) refuse) _ (guard-Ends (not (consumed == 0))) λ u g.
            Ends-bind (again (drop consumed (b ∷ bs))) _
              (ih (drop consumed (b ∷ bs))
                (omega (arith, length-drop consumed (b ∷ bs), advanced consumed u g)))
              λ messages f. λ p. cc

  parse_all_inner-Ends :
      (strict : Bool) (fuel : ℕ) (stream : Bytes)
      → length stream < fuel
      → parse_all_inner d strict fuel stream ≢ err no_fuel
  unfolding parse_all_inner
  parse_all_inner-Ends strict zero stream h = absurd (omega arith)
  parse_all_inner-Ends strict (suc fuel) stream h =
      parse_rest-Ends (parse_all_inner d strict fuel) strict fuel (skip_whitespace stream)
        (parse_all_inner-Ends strict fuel) (omega (arith, length-skip_whitespace stream))

  -- The whole of a stream is parsed or refused: the messages in it are at most as many as its bytes,
  -- so the loops end, those of the nested attachment groups included, whatever the stream. The condition
  -- is that a counter that was read takes some of its text and no more than there is (`CountersFit`).
  pub parse_all_ends :
      (stream : Bytes)
      → (parse_all d stream ≢ err no_fuel) × (parse_all_lenient d stream ≢ err no_fuel)
  unfolding parse_all parse_all_lenient
  parse_all_ends stream = (
    parse_all_inner-Ends true (length stream + 1) stream (omega arith),
    parse_all_inner-Ends false (length stream + 1) stream (omega arith),
  )
