-- ===== src/Parser/Groups.antt =====
-- The attachment groups: each one ends and takes no more bytes than there are, if the nested streams
-- do.
use affinidi_keri_rs.Prelude.{
  ℕ, zero, suc, ◌*◌, ◌≤◌, ◌≡◌, refl, Bool, true, false, not, Option, none, some, List, [], ◌∷◌,
  arith, leb, leb→le, ◌==◌, nat_eq, string_eq, pair_eq, checked_mul, length, is_empty, take, drop,
  length-drop, length-take,
}
use affinidi_keri_rs.Prelude.Result.{Result, ok, err, ◌>>=◌, ◌>>◌, guard, ok_or}
use affinidi_keri_rs.Prelude.Ascii.{from_ascii}
use affinidi_keri_rs.Crypto.Extern.{Bytes}
use affinidi_keri_rs.Crypto.Siger.{Siger}
use affinidi_keri_rs.CounterTable.{GroupKind}
use affinidi_keri_rs.Error.{CoreError}
use affinidi_keri_rs.Deps.{Deps, Counter}
use affinidi_keri_rs.Parser.Message.{Attachment}
use affinidi_keri_rs.Parser.{
  failed, no_fuel, ParseResult, refuse, lift, parse_matter_qb64, parse_pairs, parse_qb64_pairs,
  parse_couples, parse_receipt_couples, parse_sig, parse_sigs, parse_indexed_sigs, only_sigs,
  Groups, parse_groups, parse_trans_idx_sig_groups, parse_quadlets, uninterpreted, parse_group,
  max_attachment_count, min_primitive_size,
}

abbrev pub Fits : {A : Type 0} → ℕ → ParseResult (A × ℕ) → Type 0
Fits n (ok (a, used)) = used ≤ n
Fits n (err (failed e)) = Unit
Fits n (err no_fuel) = ⊥

-- A call that did not run out of fuel and took at most the bytes that it was given.
pub record Within {A : Type 0} (n : ℕ) (r : ParseResult (A × ℕ)) : Type 0 where
  pub fits : Fits n r

-- A call that did not run out of fuel.
abbrev pub Ends : {A : Type 0} → ParseResult A → Type 0
Ends (ok a) = Unit
Ends (err (failed e)) = Unit
Ends (err no_fuel) = ⊥

-- The rules for the steps of a `do` block.
module _ {A B : Type 0} (n : ℕ) where
  pub Within-bind :
      (m : ℕ) (r : ParseResult (A × ℕ)) (f : A × ℕ → ParseResult (B × ℕ))
      → Within m r
      → ((a : A) (used : ℕ) → used ≤ m → Within n (f (a, used)))
      → Within n (r >>= f)
  Within-bind m (ok (a, used)) f h k = k a used h.fits
  Within-bind m (err (failed e)) f h k = record { fits = tt }
  Within-bind m (err no_fuel) f h k = absurd h.fits

  pub Within-ok_or :
      (o : Option A) (f : A → ParseResult (B × ℕ))
      → ((a : A) → o ≡ some a → Within n (f a))
      → Within n (ok_or o refuse >>= f)
  Within-ok_or none f k = record { fits = tt }
  Within-ok_or (some a) f k = k a refl

  pub Within-lift :
      (r : Result A CoreError) (f : A → ParseResult (B × ℕ))
      → ((a : A) → r ≡ ok a → Within n (f a))
      → Within n (lift r >>= f)
  Within-lift (ok a) f k = k a refl
  Within-lift (err e) f k = record { fits = tt }

module _ {B : Type 0} (n : ℕ) where
  pub Within-guard :
      (t : Bool) (r : ParseResult (B × ℕ))
      → (t ≡ true → Within n r)
      → Within n (guard t refuse >> r)
  Within-guard true r k = k refl
  Within-guard false r k = record { fits = tt }

  Within-le : (m : ℕ) (r : ParseResult (B × ℕ)) → m ≤ n → Within m r → Within n r
  Within-le m (ok (a, used)) h w = record { fits = omega (arith, w.fits) }
  Within-le m (err (failed e)) h w = record { fits = tt }
  Within-le m (err no_fuel) h w = absurd w.fits

only_sigs-Ends_cons :
    (a : Attachment) (inner : List Attachment)
    → Ends (only_sigs inner)
    → Ends (only_sigs (a ∷ inner))
unfolding only_sigs
only_sigs-Ends_cons (Attachment.controller_sigs x) inner h = ground arith
only_sigs-Ends_cons (Attachment.witness_sigs x) inner h = tt
only_sigs-Ends_cons (Attachment.receipt_couples x) inner h = tt
only_sigs-Ends_cons (Attachment.first_seen_replay_couples x) inner h = tt
only_sigs-Ends_cons (Attachment.seal_source_couples x) inner h = tt
only_sigs-Ends_cons (Attachment.trans_idx_sig_groups x) inner h = tt
only_sigs-Ends_cons (Attachment.unknown x y z) inner h = tt

only_sigs-Ends : (inner : List Attachment) → Ends (only_sigs inner)
unfolding only_sigs
only_sigs-Ends [] = tt
only_sigs-Ends (a ∷ inner) = only_sigs-Ends_cons a inner (only_sigs-Ends inner)

module _ (d : Deps) where
  parse_matter_qb64-Within : (text : Bytes) → Within (length text) (parse_matter_qb64 d text)
  unfolding parse_matter_qb64
  parse_matter_qb64-Within text = ground arith

  parse_sig-Within : (text : Bytes) → Within (length text) (parse_sig d text)
  unfolding parse_sig
  parse_sig-Within text = ground arith

  parse_pairs-Within : (count : ℕ) (text : Bytes) → Within (length text) (parse_pairs d count text)
  unfolding parse_pairs
  parse_pairs-Within zero text = record { fits = omega arith }
  parse_pairs-Within (suc count) text =
      Within-bind (length text) (length text) _ _ (parse_matter_qb64-Within text) λ first n hn.
        Within-bind (length text) (length (drop n text)) _ _
          (parse_matter_qb64-Within (drop n text))
          λ second m hm.
            Within-bind (length text) (length (drop m (drop n text))) _ _
              (parse_pairs-Within count (drop m (drop n text)))
              λ couples used hu. omega (arith, length-drop n text, length-drop m (drop n text))

  parse_couples-Within :
      (count : ℕ) (text : Bytes) → Within (length text) (parse_couples d count text)
  unfolding parse_couples
  parse_couples-Within zero text = record { fits = omega arith }
  parse_couples-Within (suc count) text =
      Within-bind (length text) (length text) _ _ (parse_matter_qb64-Within text) λ first n hn.
        Within-bind (length text) (length (drop n text)) _ _
          (parse_matter_qb64-Within (drop n text))
          λ second m hm. Within-ok_or (length text) (d.crypto.matter_from_qb64 second) _ λ matter e.
            Within-bind (length text) (length (drop m (drop n text))) _ _
              (parse_couples-Within count (drop m (drop n text)))
              λ couples used hu. omega (arith, length-drop n text, length-drop m (drop n text))

  parse_sigs-Within : (count : ℕ) (text : Bytes) → Within (length text) (parse_sigs d count text)
  unfolding parse_sigs
  parse_sigs-Within zero text = record { fits = omega arith }
  parse_sigs-Within (suc count) text =
      Within-bind (length text) (length text) _ _ (parse_sig-Within text) λ siger n hn.
        Within-bind (length text) (length (drop n text)) _ _ (parse_sigs-Within count (drop n text))
          λ sigers used hu. omega (arith, length-drop n text)

  -- The three guards in front of a counted group.
  counted-Within :
      {A : Type 0} (count need : ℕ) (bytes : Bytes) (r : ParseResult (A × ℕ))
      → Within (length bytes) r
      → Within (length bytes) (do
        guard (leb count max_attachment_count) refuse
        guard (leb need (length bytes)) refuse
        text ← ok_or (from_ascii bytes) refuse
        r)
  counted-Within count need bytes r w =
      Within-guard (length bytes) (leb count max_attachment_count) _ λ a.
        Within-guard (length bytes) (leb need (length bytes)) _
          λ b. Within-ok_or (length bytes) (from_ascii bytes) _ λ t e. w

  -- What `parse_attachments` is assumed to do on shorter streams.
  abbrev pub EndsBelow : ℕ → (Bytes → ParseResult Groups) → Type 0
  EndsBelow n nested = (bytes : Bytes) → length bytes ≤ n → Within (length bytes) (nested bytes)

  parse_quadlets-Within :
      (nested : Bytes → ParseResult Groups) (bytes : Bytes) (count : ℕ)
      → EndsBelow (length bytes) nested
      → Within (length bytes) (parse_quadlets nested bytes count)
  unfolding parse_quadlets
  parse_quadlets-Within nested bytes count h =
      Within-ok_or (length bytes) (checked_mul count 4) _ λ byte_len e.
        Within-guard (length bytes) (leb byte_len (length bytes)) _ λ fits.
          Within-bind (length bytes) (length (take byte_len bytes)) _ _
            (h (take byte_len bytes) (omega (arith, leb→le, length-take byte_len bytes)))
            λ inner consumed hc.
              Within-guard (length bytes) (consumed == byte_len) _
                λ filled. record { fits = leb→le byte_len (length bytes) fits }

  uninterpreted-Within :
      (strict : Bool) (c : Counter) (bytes : Bytes)
      → Within (length bytes) (uninterpreted strict c bytes)
  unfolding uninterpreted
  uninterpreted-Within true c bytes = record { fits = tt }
  uninterpreted-Within false c bytes = record { fits = omega arith }

  only_sigs_bind :
      {B : Type 0} (n : ℕ) (r : ParseResult (List Siger)) (f : List Siger → ParseResult (B × ℕ))
      → Ends r
      → ((a : List Siger) → Within n (f a))
      → Within n (r >>= f)
  only_sigs_bind n (ok a) f h k = k a
  only_sigs_bind n (err (failed e)) f h k = record { fits = tt }
  only_sigs_bind n (err no_fuel) f h k = absurd h

  parse_groups-Within :
      (nested : Bytes → ParseResult Groups) (count n : ℕ) (bytes : Bytes)
      → EndsBelow n nested
      → length bytes ≤ n
      → Within (length bytes) (parse_groups d nested count bytes)
  unfolding parse_groups
  parse_groups-Within nested zero n bytes h le = record { fits = omega arith }
  parse_groups-Within nested (suc count) n bytes h le =
      let len = length bytes in
      Within-bind len len _ _ (parse_matter_qb64-Within bytes) λ prefix a ha.
        (let at_sn = drop a bytes in
          let l1 = length-drop a bytes in
          Within-bind len (length at_sn) _ _ (parse_matter_qb64-Within at_sn) λ sn b hb.
            (let at_said = drop b at_sn in
              let l2 = length-drop b at_sn in
              Within-bind len (length at_said) _ _ (parse_matter_qb64-Within at_said) λ said c hc.
                (let after = drop c at_said in
                  let l3 = length-drop c at_said in
                  Within-bind len (length after) _ _ (h after (omega arith)) λ inner consumed hi.
                    only_sigs_bind len _ _ (only_sigs-Ends inner) λ sigs.
                      Within-guard len (not (is_empty sigs)) _ λ filled.
                        (let l4 = length-drop consumed after in
                          Within-bind len (length (drop consumed after)) _ _
                            (parse_groups-Within nested count n (drop consumed after) h
                              (omega arith))
                            λ groups used hu. record { fits = omega arith }))))

  parse_indexed_sigs-Within :
      (bytes : Bytes) (count : ℕ) → Within (length bytes) (parse_indexed_sigs d bytes count)
  unfolding parse_indexed_sigs
  parse_indexed_sigs-Within bytes count =
      counted-Within count (count * min_primitive_size) bytes _ (parse_sigs-Within count bytes)

  parse_receipt_couples-Within :
      (bytes : Bytes) (count : ℕ) → Within (length bytes) (parse_receipt_couples d bytes count)
  unfolding parse_receipt_couples
  parse_receipt_couples-Within bytes count =
      counted-Within count (count * min_primitive_size * 2) bytes _
        (parse_couples-Within count bytes)

  parse_qb64_pairs-Within :
      (bytes : Bytes) (count : ℕ) → Within (length bytes) (parse_qb64_pairs d bytes count)
  unfolding parse_qb64_pairs
  parse_qb64_pairs-Within bytes count =
      counted-Within count (count * min_primitive_size * 2) bytes _ (parse_pairs-Within count bytes)

  parse_trans_idx_sig_groups-Within :
      (nested : Bytes → ParseResult Groups) (bytes : Bytes) (count : ℕ)
      → EndsBelow (length bytes) nested
      → Within (length bytes) (parse_trans_idx_sig_groups d nested bytes count)
  unfolding parse_trans_idx_sig_groups
  parse_trans_idx_sig_groups-Within nested bytes count h =
      Within-guard (length bytes) (leb count max_attachment_count) _ λ a.
        Within-ok_or (length bytes) (from_ascii bytes) _
          λ t e. parse_groups-Within nested count (length bytes) bytes h (omega arith)

  took :
      {A B : Type 0} (n : ℕ) (r : ParseResult (A × ℕ)) (f : A → B)
      → Within n r
      → Within n (r >>= λ p. ok (f p.0, p.1))
  took n r f w = Within-bind n n r _ w λ a used h. record { fits = h }

  pub parse_group-Within :
      (nested : Bytes → ParseResult Groups) (strict : Bool) (kind : Option GroupKind) (c : Counter)
      (bytes : Bytes)
      → EndsBelow (length bytes) nested
      → Within (length bytes) (parse_group d nested strict kind c bytes)
  unfolding parse_group
  parse_group-Within nested strict none c bytes h = uninterpreted-Within strict c bytes
  parse_group-Within nested strict (some GroupKind.attached_material_quadlets) c bytes h =
      parse_quadlets-Within nested bytes c.count h
  parse_group-Within nested strict (some GroupKind.controller_idx_sigs) c bytes h =
      took (length bytes) _ _ (parse_indexed_sigs-Within bytes c.count)
  parse_group-Within nested strict (some GroupKind.witness_idx_sigs) c bytes h =
      took (length bytes) _ _ (parse_indexed_sigs-Within bytes c.count)
  parse_group-Within nested strict (some GroupKind.non_trans_receipt_couples) c bytes h =
      took (length bytes) _ _ (parse_receipt_couples-Within bytes c.count)
  parse_group-Within nested strict (some GroupKind.first_seen_replay_couples) c bytes h =
      took (length bytes) _ _ (parse_qb64_pairs-Within bytes c.count)
  parse_group-Within nested strict (some GroupKind.seal_source_couples) c bytes h =
      took (length bytes) _ _ (parse_qb64_pairs-Within bytes c.count)
  parse_group-Within nested strict (some GroupKind.trans_idx_sig_groups) c bytes h =
      took (length bytes) _ _ (parse_trans_idx_sig_groups-Within nested bytes c.count h)
  parse_group-Within nested strict (some GroupKind.trans_receipt_quadruples) c bytes h =
      uninterpreted-Within strict c bytes
