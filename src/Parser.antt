-- ===== src/Parser.antt =====
-- crates/affinidi-keri-core/src/parser.rs: a stream of messages with their attachment groups. A slice
-- of the stream is a list, and an offset is what has been dropped. The recursion takes fuel,
-- and running out of it is an error of its own, which the source does not have.
pub mod Message
pub mod Groups
pub mod Signatures
pub mod Composed
pub mod Built
pub mod Termination
pub mod Refusal
use affinidi_keri_rs.Prelude.{
  ℕ, zero, suc, ◌+◌, ◌*◌, String, Bool, true, false, not, ◌||◌, Option, none, some, List, [], ◌∷◌,
  ◌++◌, ltb, leb, if◌then◌else◌, ◌==◌, nat_eq, string_eq, pair_eq, checked_mul, length, is_empty,
  take, drop,
}
use affinidi_keri_rs.Prelude.Result.{Result, ok, err, ◌>>=◌, ◌>>◌, guard, ok_or, map_err}
use affinidi_keri_rs.Prelude.Ascii.{from_ascii}
use affinidi_keri_rs.Crypto.Extern.{Bytes}
use affinidi_keri_rs.Crypto.Siger
use affinidi_keri_rs.Crypto.Siger.{Siger}
use affinidi_keri_rs.CounterTable.{
  CounterTable, GroupKind, attached_material_quadlets, controller_idx_sigs, witness_idx_sigs,
  non_trans_receipt_couples, trans_receipt_quadruples, classify,
}
use affinidi_keri_rs.Error.{CoreError, parse_error, from_crypto}
use affinidi_keri_rs.Deps.{Deps, Counter}
use affinidi_keri_rs.Serder
use affinidi_keri_rs.Serder.{Serder, is_cbor_start, is_msgpack_start}
use affinidi_keri_rs.Composer.{table_for}
use affinidi_keri_rs.Parser.Message.{
  TransIdxSigGroup, Attachment, controller_sigs, witness_sigs, receipt_couples, unknown,
  ParsedMessage,
}

-- An error of the source, or no fuel.
pub data ParseError : Type 0 where
  failed : CoreError → ParseError
  no_fuel : ParseError

abbrev pub ParseResult : Type 0 → Type 0
ParseResult A = Result A ParseError

abbrev pub refuse : ParseError
refuse = failed parse_error

abbrev lift : {A : Type 0} → Result A CoreError → ParseResult A
lift r = map_err r failed

abbrev pub max_attachment_count : ℕ
max_attachment_count = 4096

abbrev pub min_primitive_size : ℕ
min_primitive_size = 4

abbrev pub first_of : Bytes → Option ℕ
first_of [] = none
first_of (b ∷ bs) = some b

-- What `parse_attachments` returns: the groups and the number of bytes that they took.
abbrev pub Groups : Type 0
Groups = List Attachment × ℕ

-- The signatures of the groups, which must all be controller signatures.
unfoldable pub only_sigs : List Attachment → ParseResult (List Siger)
only_sigs [] = ok []
only_sigs (controller_sigs s ∷ inner) = do rest ← only_sigs inner; ok (s ++ rest)
only_sigs (_ ∷ inner) = err refuse

-- A wrapper: the count is in units of four bytes, and the groups inside must fill it. That the
-- end is past the stream, and that it overflows, are the same error.
unfoldable pub parse_quadlets : (Bytes → ParseResult Groups) → Bytes → ℕ → ParseResult Groups
parse_quadlets nested bytes count = do
  byte_len ← ok_or (checked_mul count 4) refuse
  guard (leb byte_len (length bytes)) refuse
  (inner, consumed) ← nested (take byte_len bytes)
  guard (consumed == byte_len) refuse
  ok (inner, byte_len)

-- A group of unknown length takes the rest of the stream, or is an error.
unfoldable pub uninterpreted : Bool → Counter → Bytes → ParseResult Groups
uninterpreted strict c bytes = do
  guard (not strict) refuse
  ok (unknown c.code c.count bytes ∷ [], length bytes)

unfoldable pub is_ascii_whitespace : ℕ → Bool
is_ascii_whitespace b = b == 32 || b == 9 || b == 10 || b == 12 || b == 13

unfoldable pub skip_whitespace : Bytes → Bytes
unfolding is_ascii_whitespace
skip_whitespace [] = []
skip_whitespace (b ∷ bs) = if is_ascii_whitespace b then skip_whitespace bs else b ∷ bs

module _ (d : Deps) where
  -- A primitive of a fixed size, and the number of characters that it takes.
  unfoldable pub parse_matter_qb64 : Bytes → ParseResult (String × ℕ)
  parse_matter_qb64 text = do
    first ← ok_or (first_of text) refuse
    hs ← ok_or (d.hardage first) refuse
    guard (leb hs (length text)) refuse
    code ← ok_or (from_ascii (take hs text)) refuse
    fs ← ok_or (d.full_size code) refuse
    guard (ltb 0 fs) refuse
    guard (leb fs (length text)) refuse
    qb64 ← ok_or (from_ascii (take fs text)) refuse
    ok (qb64, fs)

  unfoldable pub parse_pairs : ℕ → Bytes → ParseResult (List (String × String) × ℕ)
  unfolding parse_matter_qb64
  parse_pairs zero text = ok ([], 0)
  parse_pairs (suc count) text = do
    (first, n) ← parse_matter_qb64 text
    (second, m) ← parse_matter_qb64 (drop n text)
    (couples, used) ← parse_pairs count (drop m (drop n text))
    ok ((first, second) ∷ couples, n + m + used)

  unfoldable pub parse_qb64_pairs : Bytes → ℕ → ParseResult (List (String × String) × ℕ)
  unfolding parse_pairs
  parse_qb64_pairs bytes count = do
    guard (leb count max_attachment_count) refuse
    guard (leb (count * min_primitive_size * 2) (length bytes)) refuse
    text ← ok_or (from_ascii bytes) refuse
    parse_pairs count bytes

  unfoldable pub parse_couples : ℕ → Bytes → ParseResult (List (String × Bytes) × ℕ)
  unfolding parse_matter_qb64
  parse_couples zero text = ok ([], 0)
  parse_couples (suc count) text = do
    (prefix, n) ← parse_matter_qb64 text
    (sig, m) ← parse_matter_qb64 (drop n text)
    matter ← ok_or (d.crypto.matter_from_qb64 sig) refuse
    (couples, used) ← parse_couples count (drop m (drop n text))
    ok ((prefix, matter.raw) ∷ couples, n + m + used)

  unfoldable pub parse_receipt_couples : Bytes → ℕ → ParseResult (List (String × Bytes) × ℕ)
  unfolding parse_couples
  parse_receipt_couples bytes count = do
    guard (leb count max_attachment_count) refuse
    guard (leb (count * min_primitive_size * 2) (length bytes)) refuse
    text ← ok_or (from_ascii bytes) refuse
    parse_couples count bytes

  -- One indexed signature, and its size.
  unfoldable pub parse_sig : Bytes → ParseResult (Siger × ℕ)
  parse_sig text = do
    first ← ok_or (first_of text) refuse
    hs ← ok_or (d.hardage first) refuse
    guard (leb hs (length text)) refuse
    code ← ok_or (from_ascii (take hs text)) refuse
    fs ← ok_or (d.indexer_size code) refuse
    guard (leb fs (length text)) refuse
    qb64 ← ok_or (from_ascii (take fs text)) refuse
    indexer ← ok_or (d.crypto.indexer_from_qb64 qb64) refuse
    siger ←
        lift (from_crypto (Siger.new d.crypto indexer.code indexer.index indexer.ondex indexer.raw))
    ok (siger, fs)

  unfoldable pub parse_sigs : ℕ → Bytes → ParseResult (List Siger × ℕ)
  unfolding parse_sig
  parse_sigs zero text = ok ([], 0)
  parse_sigs (suc count) text = do
    (siger, n) ← parse_sig text
    (sigers, used) ← parse_sigs count (drop n text)
    ok (siger ∷ sigers, n + used)

  unfoldable pub parse_indexed_sigs : Bytes → ℕ → ParseResult (List Siger × ℕ)
  unfolding parse_sigs
  parse_indexed_sigs bytes count = do
    guard (leb count max_attachment_count) refuse
    guard (leb (count * min_primitive_size) (length bytes)) refuse
    text ← ok_or (from_ascii bytes) refuse
    parse_sigs count bytes

  -- Each group is a triple of primitives and a nested stream of groups.
  unfoldable pub parse_groups :
      (Bytes → ParseResult Groups) → ℕ → Bytes → ParseResult (List TransIdxSigGroup × ℕ)
  unfolding parse_matter_qb64 only_sigs
  parse_groups nested zero bytes = ok ([], 0)
  parse_groups nested (suc count) bytes = do
    (prefix, n) ← parse_matter_qb64 bytes
    (sn, m) ← parse_matter_qb64 (drop n bytes)
    (said, k) ← parse_matter_qb64 (drop m (drop n bytes))
    let after = drop k (drop m (drop n bytes))
    (inner, consumed) ← nested after
    sigs ← only_sigs inner
    guard (not (is_empty sigs)) refuse
    (groups, used) ← parse_groups nested count (drop consumed after)
    let group : TransIdxSigGroup = record { prefix = prefix; sn = sn; said = said; sigs = sigs }
    ok (group ∷ groups, n + m + k + consumed + used)

  unfoldable pub parse_trans_idx_sig_groups :
      (Bytes → ParseResult Groups) → Bytes → ℕ → ParseResult (List TransIdxSigGroup × ℕ)
  unfolding parse_groups
  parse_trans_idx_sig_groups nested bytes count = do
    guard (leb count max_attachment_count) refuse
    text ← ok_or (from_ascii bytes) refuse
    parse_groups nested count bytes

  unfoldable pub parse_group :
      (Bytes → ParseResult Groups) → Bool → Option GroupKind → Counter → Bytes → ParseResult Groups
  unfolding parse_quadlets parse_indexed_sigs parse_receipt_couples parse_qb64_pairs
      parse_trans_idx_sig_groups uninterpreted
  parse_group nested strict none c bytes = uninterpreted strict c bytes
  parse_group nested strict (some attached_material_quadlets) c bytes =
      parse_quadlets nested bytes c.count
  parse_group nested strict (some controller_idx_sigs) c bytes = do
    (sigers, consumed) ← parse_indexed_sigs bytes c.count
    ok (controller_sigs sigers ∷ [], consumed)
  parse_group nested strict (some witness_idx_sigs) c bytes = do
    (sigers, consumed) ← parse_indexed_sigs bytes c.count
    ok (witness_sigs sigers ∷ [], consumed)
  parse_group nested strict (some non_trans_receipt_couples) c bytes = do
    (couples, consumed) ← parse_receipt_couples bytes c.count
    ok (receipt_couples couples ∷ [], consumed)
  parse_group nested strict (some GroupKind.first_seen_replay_couples) c bytes = do
    (couples, consumed) ← parse_qb64_pairs bytes c.count
    ok (Attachment.first_seen_replay_couples couples ∷ [], consumed)
  parse_group nested strict (some GroupKind.seal_source_couples) c bytes = do
    (couples, consumed) ← parse_qb64_pairs bytes c.count
    ok (Attachment.seal_source_couples couples ∷ [], consumed)
  parse_group nested strict (some GroupKind.trans_idx_sig_groups) c bytes = do
    (groups, consumed) ← parse_trans_idx_sig_groups nested bytes c.count
    ok (Attachment.trans_idx_sig_groups groups ∷ [], consumed)
  parse_group nested strict (some trans_receipt_quadruples) c bytes = uninterpreted strict c bytes

  -- The groups up to the first byte that starts none.
  unfoldable pub parse_attachments : CounterTable → Bool → ℕ → Bytes → ParseResult Groups
  unfolding parse_group classify
  parse_attachments table strict zero bytes = err no_fuel
  parse_attachments table strict (suc fuel) [] = ok ([], 0)
  parse_attachments table strict (suc fuel) (b ∷ bs) = elim (b == b'-') [
    | false ↦ ok ([], 0)
    | true ↦ (do
      text ← ok_or (from_ascii (b ∷ bs)) refuse
      counter ← ok_or (d.counter_from_qb64 text) refuse
      let size = d.counter_full_size counter
      let rest = drop size (b ∷ bs)
      (found, consumed) ←
          parse_group (parse_attachments table strict fuel) strict (classify counter.code table)
            counter rest
      (more, used) ← parse_attachments table strict fuel (drop consumed rest)
      ok (found ++ more, size + consumed + used))
  ]

  unfoldable pub parse_next_sad : Bool → Bytes → ParseResult (ParsedMessage × ℕ)
  unfolding parse_attachments
  parse_next_sad strict stream = do
    serder ← lift (Serder.from_raw d stream)
    let rest = drop (length serder.raw) stream
    (attachments, consumed) ← parse_attachments (table_for serder) strict (length rest + 1) rest
    ok (record { serder = serder; attachments = attachments }, length serder.raw + consumed)

  unfoldable pub parse_next_inner : Bytes → Bool → ParseResult (ParsedMessage × ℕ)
  unfolding parse_next_sad
  parse_next_inner [] strict = err refuse
  parse_next_inner (first ∷ rest) strict =
      if first == b'{' || is_cbor_start first || is_msgpack_start first
      then parse_next_sad strict (first ∷ rest)
      else err refuse

  -- A round of the loop, after the whitespace.
  unfoldable pub parse_rest :
      (Bytes → ParseResult (List ParsedMessage)) → Bool → Bytes → ParseResult (List ParsedMessage)
  unfolding parse_next_inner
  parse_rest again strict [] = ok []
  parse_rest again strict (b ∷ bs) = do
    (msg, consumed) ← parse_next_inner (b ∷ bs) strict
    guard (not (consumed == 0)) refuse
    messages ← again (drop consumed (b ∷ bs))
    ok (msg ∷ messages)

  unfoldable pub parse_all_inner : Bool → ℕ → Bytes → ParseResult (List ParsedMessage)
  unfolding skip_whitespace parse_rest
  parse_all_inner strict zero stream = err no_fuel
  parse_all_inner strict (suc fuel) stream =
      parse_rest (parse_all_inner strict fuel) strict (skip_whitespace stream)

  unfoldable pub parse_next : Bytes → ParseResult (ParsedMessage × ℕ)
  unfolding parse_next_inner
  parse_next stream = parse_next_inner stream true

  unfoldable pub parse_next_lenient : Bytes → ParseResult (ParsedMessage × ℕ)
  unfolding parse_next_inner
  parse_next_lenient stream = parse_next_inner stream false

  unfoldable pub parse_all : Bytes → ParseResult (List ParsedMessage)
  unfolding parse_all_inner
  parse_all stream = parse_all_inner true (length stream + 1) stream

  unfoldable pub parse_all_lenient : Bytes → ParseResult (List ParsedMessage)
  unfolding parse_all_inner
  parse_all_lenient stream = parse_all_inner false (length stream + 1) stream
