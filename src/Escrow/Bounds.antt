-- ===== src/Escrow/Bounds.antt =====
-- The limits of the whole escrow, over sequences of operations.
use affinidi_keri_rs.Prelude.{
  ℕ, ◌+◌, ◌-◌, ◌≤◌, String, ◌≡◌, inl, inr, some, List, [], ◌∷◌, arith, leb, Bool-cases,
  Option-cases, nat_eq, string_eq, pair_eq, succ_u64, length, length-append,
}
use affinidi_keri_rs.Prelude.Map.{
  find, put, remove, sum_values, find-put, find-remove, find-retain_values, put-Unique,
  remove-Unique, retain-Unique, sum_values-remove, Unique,
}
use affinidi_keri_rs.Crypto.Extern.{Bytes}
use affinidi_keri_rs.Serder.{Serder}
use affinidi_keri_rs.Escrow
use affinidi_keri_rs.Escrow.{
  Escrow, EscrowedEvent, PartiallyWitnessedEntry, Events, max_escrow_entries, max_entries_per_key,
  max_attachment_count, event_count, out_of_order_count, partially_signed_count,
  partially_witnessed_count, total_count, entries_of, push_entry, escrow_out_of_order,
  escrow_partially_signed, process_escrow, escrow_partially_witnessed, add_witness_receipt,
  check_and_promote_witnessed, unique_witnesses, prune_map, prune, is_fresh, is_witnessed_fresh,
}
use affinidi_keri_rs.Escrow.Limits.{
  Limited, push_entry-Limited, event_count-push_entry, remove-Limited, prune_map-Limited,
  event_count-prune_map,
}

-- The limits of the whole escrow: the events that wait for order or for signatures, and the
-- receipts of each event that waits for witnesses.
pub record Bounded (e : Escrow) : Type 0 where
  pub out_of_order_limited : Limited e.out_of_order
  pub partially_signed_limited : Limited e.partially_signed
  pub total : out_of_order_count e + partially_signed_count e ≤ max_escrow_entries
  pub unique : Unique e.partially_witnessed
  pub attachments :
      (key : String × ℕ) (entry : PartiallyWitnessedEntry)
      → find e.partially_witnessed key ≡ some entry
      → length entry.receipts ≤ max_attachment_count

new-Bounded : Bounded Escrow.new
unfolding Escrow.new out_of_order_count partially_signed_count event_count entries_of find
    sum_values
new-Bounded = record {
  out_of_order_limited = record { unique = tt; per_key = λ key. omega arith };
  partially_signed_limited = record { unique = tt; per_key = λ key. omega arith };
  total = omega arith;
  unique = tt;
  attachments = λ key entry h. absurd (ground arith);
}

-- The operations, each with the time at which it runs and its arguments.
pub data Step : Escrow → Escrow → Type 0 where
  out_of_order_step :
      (now : ℕ) (e : Escrow) (prefix : String) (sn : ℕ) (serder : Serder) (signatures : Bytes)
      → Step e (escrow_out_of_order now e prefix sn serder signatures)
  partially_signed_step :
      (now : ℕ) (e : Escrow) (prefix : String) (sn : ℕ) (serder : Serder) (signatures : Bytes)
      → Step e (escrow_partially_signed now e prefix sn serder signatures)
  process_step : (e : Escrow) (prefix : String) (sn : ℕ) → Step e (process_escrow e prefix sn).1
  partially_witnessed_step :
      (now : ℕ) (e : Escrow) (prefix : String) (sn : ℕ) (serder : Serder) (signatures : Bytes)
      (backer_threshold : ℕ)
      → Step e (escrow_partially_witnessed now e prefix sn serder signatures backer_threshold)
  receipt_step :
      (e : Escrow) (prefix : String) (sn : ℕ) (witness_prefix : String) (sig_raw : Bytes)
      → Step e (add_witness_receipt e prefix sn witness_prefix sig_raw).1
  promote_step :
      (e : Escrow) (prefix : String) (sn : ℕ) → Step e (check_and_promote_witnessed e prefix sn).1
  prune_step : (now : ℕ) (e : Escrow) (max_age : ℕ) → Step e (prune now e max_age)

pub data Reachable : Escrow → Type 0 where
  start : Reachable Escrow.new
  step : (e e' : Escrow) → Reachable e → Step e e' → Reachable e'

escrow_out_of_order-Bounded :
    (now : ℕ) (e : Escrow) (prefix : String) (sn : ℕ) (serder : Serder) (signatures : Bytes)
    → Bounded e
    → Bounded (escrow_out_of_order now e prefix sn serder signatures)
unfolding escrow_out_of_order total_count out_of_order_count partially_signed_count
escrow_out_of_order-Bounded now e prefix sn serder signatures b =
    elim (Bool-cases (leb max_escrow_entries (total_count e))) [
      | inl full ↦ rw (full, escrow_out_of_order) b
      | inr room ↦
          rw (room, escrow_out_of_order)
            (record {
              out_of_order_limited =
                  push_entry-Limited e.out_of_order (prefix, sn) _ b.out_of_order_limited;
              partially_signed_limited = b.partially_signed_limited;
              total =
                  (let added =
                      event_count-push_entry e.out_of_order (prefix, sn)
                        (record { serder = serder; signatures = signatures; escrowed_at = now }) in
                    ground arith);
              unique = b.unique;
              attachments = b.attachments;
            })
    ]

escrow_partially_signed-Bounded :
    (now : ℕ) (e : Escrow) (prefix : String) (sn : ℕ) (serder : Serder) (signatures : Bytes)
    → Bounded e
    → Bounded (escrow_partially_signed now e prefix sn serder signatures)
unfolding escrow_partially_signed total_count out_of_order_count partially_signed_count
escrow_partially_signed-Bounded now e prefix sn serder signatures b =
    elim (Bool-cases (leb max_escrow_entries (total_count e))) [
      | inl full ↦ rw (full, escrow_partially_signed) b
      | inr room ↦
          rw (room, escrow_partially_signed)
            (record {
              out_of_order_limited = b.out_of_order_limited;
              partially_signed_limited =
                  push_entry-Limited e.partially_signed (prefix, sn) _ b.partially_signed_limited;
              total =
                  (let added =
                      event_count-push_entry e.partially_signed (prefix, sn)
                        (record { serder = serder; signatures = signatures; escrowed_at = now }) in
                    ground arith);
              unique = b.unique;
              attachments = b.attachments;
            })
    ]

process_escrow-Bounded :
    (e : Escrow) (prefix : String) (sn : ℕ) → Bounded e → Bounded (process_escrow e prefix sn).1
unfolding process_escrow out_of_order_count partially_signed_count event_count
process_escrow-Bounded e prefix sn b =
    let fewer = sum_values-remove length e.out_of_order (prefix, succ_u64 sn) in
    let limit = b.total in
    record {
      out_of_order_limited =
          remove-Limited e.out_of_order (prefix, succ_u64 sn) b.out_of_order_limited;
      partially_signed_limited = b.partially_signed_limited;
      total = omega arith;
      unique = b.unique;
      attachments = b.attachments;
    }

-- A change of the entries that wait for witnesses keeps the rest.
witnessed-Bounded :
    (e : Escrow) (m : List ((String × ℕ) × PartiallyWitnessedEntry))
    → Bounded e
    → Unique m
    → ((key : String × ℕ) (entry : PartiallyWitnessedEntry)
        → find m key ≡ some entry
        → length entry.receipts ≤ max_attachment_count)
    → Bounded (record e { partially_witnessed = m })
unfolding out_of_order_count partially_signed_count
witnessed-Bounded e m b u a = record {
  out_of_order_limited = b.out_of_order_limited;
  partially_signed_limited = b.partially_signed_limited;
  total = b.total;
  unique = u;
  attachments = a;
}

put-Bounded :
    (e : Escrow) (key : String × ℕ) (entry : PartiallyWitnessedEntry)
    → Bounded e
    → length entry.receipts ≤ max_attachment_count
    → Bounded (record e { partially_witnessed = put e.partially_witnessed key entry })
put-Bounded e key entry b h =
    witnessed-Bounded e (put e.partially_witnessed key entry) b
      (put-Unique e.partially_witnessed key entry b.unique)
      (λ i other found.
        ground (arith, find-put e.partially_witnessed key entry i, b.attachments i other))

remove-Bounded :
    (e : Escrow) (key : String × ℕ)
    → Bounded e
    → Bounded (record e { partially_witnessed = remove e.partially_witnessed key })
remove-Bounded e key b =
    witnessed-Bounded e (remove e.partially_witnessed key) b
      (remove-Unique e.partially_witnessed key b.unique)
      (λ i other found.
        ground (arith, find-remove e.partially_witnessed key i, b.attachments i other))

add_witness_receipt-Bounded :
    (e : Escrow) (prefix : String) (sn : ℕ) (witness_prefix : String) (sig_raw : Bytes)
    → Bounded e
    → Bounded (add_witness_receipt e prefix sn witness_prefix sig_raw).1
unfolding add_witness_receipt
add_witness_receipt-Bounded e prefix sn witness_prefix sig_raw b =
    elim (Option-cases (find e.partially_witnessed (prefix, sn))) [
      | inl absent ↦ rw (absent, add_witness_receipt) b
      | inr (entry, found) ↦ elim (Bool-cases (leb max_attachment_count (length entry.receipts))) [
        | inl full ↦ rw (found, add_witness_receipt, full) b
        | inr room ↦
            rw (found, add_witness_receipt, room)
              (put-Bounded e (prefix, sn) _ b
                (ground (arith, length-append entry.receipts ((witness_prefix, sig_raw) ∷ []))))
      ]
    ]

promote-Bounded :
    (e : Escrow) (prefix : String) (sn : ℕ)
    → Bounded e
    → Bounded (check_and_promote_witnessed e prefix sn).1
unfolding check_and_promote_witnessed
promote-Bounded e prefix sn b = elim (Option-cases (find e.partially_witnessed (prefix, sn))) [
  | inl absent ↦ rw (absent, check_and_promote_witnessed) b
  | inr (entry, found) ↦
      elim (Bool-cases (leb entry.backer_threshold (length (unique_witnesses entry.receipts [])))) [
        | inl met ↦ rw (found, check_and_promote_witnessed, met) (remove-Bounded e (prefix, sn) b)
        | inr short ↦ rw (found, check_and_promote_witnessed, short) b
      ]
]

prune-Bounded : (now : ℕ) (e : Escrow) (max_age : ℕ) → Bounded e → Bounded (prune now e max_age)
unfolding prune out_of_order_count partially_signed_count
prune-Bounded now e max_age b =
    let ordered = event_count-prune_map e.out_of_order (now - max_age) in
    let signed = event_count-prune_map e.partially_signed (now - max_age) in
    let limit = b.total in
    record {
      out_of_order_limited =
          prune_map-Limited e.out_of_order (now - max_age) b.out_of_order_limited;
      partially_signed_limited =
          prune_map-Limited e.partially_signed (now - max_age) b.partially_signed_limited;
      total = omega arith;
      unique = retain-Unique (is_witnessed_fresh (now - max_age)) e.partially_witnessed b.unique;
      attachments = λ key entry found. ground (
        arith,
        find-retain_values (is_witnessed_fresh (now - max_age)) e.partially_witnessed key b.unique,
        b.attachments key entry,
      );
    }

Step-Bounded : (e e' : Escrow) → Bounded e → Step e e' → Bounded e'
Step-Bounded _ _ b (out_of_order_step now e p sn s g) = escrow_out_of_order-Bounded now e p sn s g b
Step-Bounded _ _ b (partially_signed_step now e p sn s g) =
    escrow_partially_signed-Bounded now e p sn s g b
Step-Bounded _ _ b (process_step e p sn) = process_escrow-Bounded e p sn b
Step-Bounded _ _ b (partially_witnessed_step now e p sn s g t) =
    unfold escrow_partially_witnessed in put-Bounded e (p, sn) _ b (omega arith)
Step-Bounded _ _ b (receipt_step e p sn w g) = add_witness_receipt-Bounded e p sn w g b
Step-Bounded _ _ b (promote_step e p sn) = promote-Bounded e p sn b
Step-Bounded _ _ b (prune_step now e max_age) = prune-Bounded now e max_age b

-- Whatever operations run, no key holds more than 16 events in either list, the events that wait
-- for order or for signatures are 10,000 at most together, and no event that waits for witnesses
-- holds more than 4,096 receipts.
pub Reachable-Bounded : (e : Escrow) → Reachable e → Bounded e
Reachable-Bounded _ start = new-Bounded
Reachable-Bounded _ (step e e' r s) = Step-Bounded e e' (Reachable-Bounded e r) s
