-- ===== src/Lmdb/Refinement.antt =====
-- The LMDB store against the ledger that the interface promises.
use affinidi_keri_rs.Prelude.{
  ℕ, ◌<◌, String, ◌≡◌, refl, sym, ap, subst, ◌∙◌, inl, inr, ◌&&◌, Option, none, some, List, [], ◌∷◌,
  arith, eq_iff, ltb, if◌then◌else◌, lt→ltb, Bool-cases, ◌==◌, nat_eq, string_eq, pair_eq, u64_mod,
  All,
}
use affinidi_keri_rs.Prelude.Result.{ok, ◌>>◌, >>=-eq-ok, >>=-elim, ok-eq-ok}
use std.Path.{fun_ext}
use affinidi_keri_rs.Prelude.Map.{find, put, remove, find-put, find-remove}
use affinidi_keri_rs.Crypto.Extern.{Bytes}
use affinidi_keri_rs.Keys.{sn_key}
use affinidi_keri_rs.Keys.Injective.{sn_key_injective}
use affinidi_keri_rs.Store.Ledger.{
  Ledger, Write, put_event, put_signatures, put_witness_sigs, put_receipts, put_state, put_hab,
  put_datetime, del_hab, append_kel, put_first_seen, put_escrow_ooo, put_escrow_ps, del_escrow_ooo,
  del_escrow_ps, store_event, store_event_with_hab, at, at_place, signed, write, write_all, InRange,
  perform, perform_all, Reads,
}
use affinidi_keri_rs.Lmdb
use affinidi_keri_rs.Lmdb.{LmdbStore, Heed, lmdb_store}

-- A table by its keys, and one of a log by prefix and sequence number.
abbrev table : {A : Type 0} → List (String × A) → String → Option A
table m k = find m k

abbrev log : {A : Type 0} → List (String × A) → String → ℕ → Option A
log m p n = if ltb n u64_mod then find m (sn_key p n) else none

unfoldable pub ledger : LmdbStore → Ledger
ledger s = record {
  event = table s.evts;
  datetime = table s.dtss;
  signatures = table s.sigs;
  witness_sigs = table s.wigs;
  receipts = table s.rcts;
  state = table s.states;
  hab = table s.habs;
  entry = log s.kels;
  first_seen = log s.fels;
  out_of_order = log s.ooes;
  partially_signed = log s.pses;
}

module _ {A : Type 0} (m : List (String × A)) where
  table-put : (k : String) (v : A) → table (put m k v) ≡ at (table m) k (some v)
  table-put k v = fun_ext (λ i. find-put m k v i)

  table-remove : (k : String) → table (remove m k) ≡ at (table m) k none
  table-remove k = fun_ext (λ i. find-remove m k i)

  -- A change of one key of a log's table is one of its place.
  log_changed :
      (m' : List (String × A)) (p : String) (n : ℕ) (v : Option A)
      → n < u64_mod
      → ((i : String) → find m' i ≡ (if i == sn_key p n then v else find m i))
      → (q : String) (k : ℕ) → log m' q k ≡ at_place (log m) p n v q k
  log_changed m' p n v h change q k = elim (Bool-cases (ltb k u64_mod)) [
    | inr far ↦ ground arith
    | inl near ↦ elim (Bool-cases (q == p && k == n)) [
      | inl same ↦
          (let a : q ≡ p = ground (arith, eq_iff q p) in
            let b : k ≡ n = ground arith in
            let keys : sn_key q k ≡ sn_key p n = ap (λ s. sn_key s k) a ∙ ap (sn_key p) b in
            ground (arith, change (sn_key q k), eq_iff (sn_key q k) (sn_key p n)))
      | inr other ↦ elim (Bool-cases (sn_key q k == sn_key p n)) [
        | inr different ↦ ground (arith, change (sn_key q k))
        | inl keys ↦
            (let (a, b) =
                sn_key_injective q p k n (ground arith) h
                  ((eq_iff (sn_key q k) (sn_key p n)).0 keys) in
              absurd (ground (arith, eq_iff q p)))
      ]
    ]
  ]

  log-put :
      (p : String) (n : ℕ) (v : A)
      → n < u64_mod
      → log (put m (sn_key p n) v) ≡ at_place (log m) p n (some v)
  log-put p n v h = fun_ext λ q.
      fun_ext λ k. log_changed (put m (sn_key p n) v) p n (some v) h (find-put m (sn_key p n) v) q k

  log-remove :
      (p : String) (n : ℕ) → n < u64_mod → log (remove m (sn_key p n)) ≡ at_place (log m) p n none
  log-remove p n h = fun_ext λ q.
      fun_ext λ k. log_changed (remove m (sn_key p n)) p n none h (find-remove m (sn_key p n)) q k

module _ (h : Heed) where
  table-put_sigs :
      (m : List (String × Bytes)) (said : String) (sigs : Option Bytes)
      → table (Lmdb.put_sigs h m said sigs) ≡ signed (table m) said sigs
  table-put_sigs m said none = refl
  table-put_sigs m said (some sigs) = table-put m said sigs

  -- A transaction that went through has left what it was to leave.
  committed :
      (s t s' : LmdbStore) (l : Ledger)
      → ledger t ≡ l
      → (h.write_txn s >> ok t) ≡ ok s'
      → ledger s' ≡ l
  committed s t s' l left done =
      >>=-elim (λ t. ledger t ≡ l) (h.write_txn s) (λ u. ok t)
        (λ u e b r. subst (λ t. ledger t ≡ l) (ok-eq-ok r) left) s' done

  -- One write.
  ledger-perform :
      (s s' : LmdbStore) (w : Write)
      → InRange w
      → perform (lmdb_store h) s w ≡ ok s'
      → ledger s' ≡ write (ledger s) w
  unfolding ledger perform write Lmdb.put_event Lmdb.put_datetime Lmdb.put_signatures
      Lmdb.put_witness_sigs Lmdb.put_receipts Lmdb.put_state Lmdb.put_hab Lmdb.del_hab
      Lmdb.append_kel Lmdb.put_first_seen Lmdb.put_escrow_ooo Lmdb.del_escrow_ooo Lmdb.put_escrow_ps
      Lmdb.del_escrow_ps Lmdb.store_event Lmdb.store_event_with_hab
  ledger-perform s s' (put_event k v) r =
      committed s _ s' _ (λ i. record (ledger s) { event = table-put s.evts k v i })
  ledger-perform s s' (put_datetime k v) r =
      committed s _ s' _ (λ i. record (ledger s) { datetime = table-put s.dtss k v i })
  ledger-perform s s' (put_signatures k v) r =
      committed s _ s' _ (λ i. record (ledger s) { signatures = table-put s.sigs k v i })
  ledger-perform s s' (put_witness_sigs k v) r =
      committed s _ s' _ (λ i. record (ledger s) { witness_sigs = table-put s.wigs k v i })
  ledger-perform s s' (put_receipts k v) r =
      committed s _ s' _ (λ i. record (ledger s) { receipts = table-put s.rcts k v i })
  ledger-perform s s' (put_state k v) r =
      committed s _ s' _ (λ i. record (ledger s) { state = table-put s.states k v i })
  ledger-perform s s' (put_hab k v) r =
      committed s _ s' _ (λ i. record (ledger s) { hab = table-put s.habs k v i })
  ledger-perform s s' (del_hab k) r =
      committed s _ s' _ (λ i. record (ledger s) { hab = table-remove s.habs k i })
  ledger-perform s s' (append_kel p n v) r =
      committed s _ s' _ (λ i. record (ledger s) { entry = log-put s.kels p n v r i })
  ledger-perform s s' (put_first_seen p n v) r =
      committed s _ s' _ (λ i. record (ledger s) { first_seen = log-put s.fels p n v r i })
  ledger-perform s s' (put_escrow_ooo p n v) r =
      committed s _ s' _ (λ i. record (ledger s) { out_of_order = log-put s.ooes p n v r i })
  ledger-perform s s' (put_escrow_ps p n v) r =
      committed s _ s' _ (λ i. record (ledger s) { partially_signed = log-put s.pses p n v r i })
  ledger-perform s s' (del_escrow_ooo p n) r =
      committed s _ s' _ (λ i. record (ledger s) { out_of_order = log-remove s.ooes p n r i })
  ledger-perform s s' (del_escrow_ps p n) r =
      committed s _ s' _ (λ i. record (ledger s) { partially_signed = log-remove s.pses p n r i })
  ledger-perform s s' (store_event said raw p n sigs) r = committed s _ s' _ (λ i.
      record (ledger s) {
        event = table-put s.evts said raw i;
        entry = log-put s.kels p n said r i;
        first_seen = log-put s.fels p n said r i;
        signatures = table-put_sigs s.sigs said sigs i;
      })
  ledger-perform s s' (store_event_with_hab said raw p n sigs k v) r = committed s _ s' _ (λ i.
      record (ledger s) {
        event = table-put s.evts said raw i;
        entry = log-put s.kels p n said r i;
        first_seen = log-put s.fels p n said r i;
        signatures = table-put_sigs s.sigs said sigs i;
        hab = table-put s.habs k v i;
      })

  ledger-perform_all :
      (s s' : LmdbStore) (ws : List Write)
      → All InRange ws
      → perform_all (lmdb_store h) s ws ≡ ok s'
      → ledger s' ≡ write_all (ledger s) ws
  unfolding perform_all write_all
  ledger-perform_all s s' [] r done = ap ledger (sym (ok-eq-ok done))
  ledger-perform_all s s' (w ∷ ws) r done =
      let (next, e, rest) = >>=-eq-ok (perform (lmdb_store h) s w) _ done in
      ledger-perform_all next s' ws r.1 rest
      ∙ ap (λ l. write_all l ws) (ledger-perform s next w r.0 e)

  read :
      {A : Type 0} (s : LmdbStore) (held r : Option A) → (h.read_txn s >> ok held) ≡ ok r → r ≡ held
  read s held r done =
      >>=-elim (λ b. b ≡ held) (h.read_txn s) (λ u. ok held) (λ u e b q. sym (ok-eq-ok q)) r done

  log_in_range :
      {A : Type 0} (m : List (String × A)) (p : String) (n : ℕ)
      → n < u64_mod
      → find m (sn_key p n) ≡ log m p n
  log_in_range m p n b = rw (lt→ltb n u64_mod b)

  Reads-ledger : (s : LmdbStore) → Reads (lmdb_store h) s (ledger s)
  unfolding ledger Lmdb.get_event Lmdb.get_datetime Lmdb.get_signatures Lmdb.get_witness_sigs
      Lmdb.get_receipts Lmdb.get_state Lmdb.get_hab Lmdb.get_kel_said Lmdb.get_first_seen
      Lmdb.get_escrow_ooo Lmdb.get_escrow_ps
  Reads-ledger s = record {
    event = λ k r e. read s _ r e;
    datetime = λ k r e. read s _ r e;
    signatures = λ k r e. read s _ r e;
    witness_sigs = λ k r e. read s _ r e;
    receipts = λ k r e. read s _ r e;
    state = λ k r e. read s _ r e;
    hab = λ k r e. read s _ r e;
    entry = λ p n r b e. read s _ r e ∙ log_in_range s.kels p n b;
    first_seen = λ p n r b e. read s _ r e ∙ log_in_range s.fels p n b;
    out_of_order = λ p n r b e. read s _ r e ∙ log_in_range s.ooes p n b;
    partially_signed = λ p n r b e. read s _ r e ∙ log_in_range s.pses p n b;
  }

  -- The LMDB store refines the ledger: after any sequence of writes of the interface that went
  -- through, with sequence numbers that are `u64`s, each read of one entry that goes through returns
  -- what the ledger of the store before them holds after the same writes. So the composed keys of the
  -- tables never mix up two places, and the event, the logs, the signatures and the record that one
  -- transaction writes are there together.
  pub Reads-perform_all :
      (s s' : LmdbStore) (ws : List Write)
      → All InRange ws
      → perform_all (lmdb_store h) s ws ≡ ok s'
      → Reads (lmdb_store h) s' (write_all (ledger s) ws)
  Reads-perform_all s s' ws r done =
      subst (Reads (lmdb_store h) s') (ledger-perform_all s s' ws r done) (Reads-ledger s')
