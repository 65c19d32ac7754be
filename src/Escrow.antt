-- ===== src/Escrow.antt =====
-- crates/affinidi-keri-core/src/escrow.rs: events that wait for an earlier event, for signatures or
-- for witness receipts. A time is a natural number; the current one is an argument.
pub mod Limits
pub mod Bounds
pub mod Release
use affinidi_keri_rs.Prelude.{
  ℕ, ◌+◌, ◌-◌, String, Bool, true, false, not, Option, none, some, List, [], ◌∷◌, ◌++◌, leb,
  if◌then◌else◌, nat_eq, string_eq, pair_eq, succ_u64, length, is_empty, retain, push_new,
}
use affinidi_keri_rs.Prelude.Map.{find, put, remove, retain_values, map_values, sum_values}
use affinidi_keri_rs.Crypto.Extern.{Bytes}
use affinidi_keri_rs.Serder.{Serder}

pub record PartiallyWitnessedEntry : Type 0 where
  pub serder : Serder
  pub signatures : Bytes
  pub receipts : List (String × Bytes)
  pub backer_threshold : ℕ
  pub escrowed_at : ℕ

pub record EscrowedEvent : Type 0 where
  pub serder : Serder
  pub signatures : Bytes
  pub escrowed_at : ℕ

abbrev pub max_escrow_entries : ℕ
max_escrow_entries = 10000

abbrev pub max_entries_per_key : ℕ
max_entries_per_key = 16

abbrev pub max_attachment_count : ℕ
max_attachment_count = 4096

abbrev pub Events : Type 0
Events = List ((String × ℕ) × List EscrowedEvent)

pub record Escrow : Type 0 where
  pub out_of_order : Events
  pub partially_signed : Events
  pub partially_witnessed : List ((String × ℕ) × PartiallyWitnessedEntry)

unfoldable pub new : Escrow
new = record { out_of_order = []; partially_signed = []; partially_witnessed = [] }

unfoldable pub event_count : Events → ℕ
event_count m = sum_values length m

unfoldable pub out_of_order_count : Escrow → ℕ
out_of_order_count e = event_count e.out_of_order

unfoldable pub partially_signed_count : Escrow → ℕ
partially_signed_count e = event_count e.partially_signed

unfoldable pub partially_witnessed_count : Escrow → ℕ
partially_witnessed_count e = length e.partially_witnessed

unfoldable pub total_count : Escrow → ℕ
total_count e = out_of_order_count e + partially_signed_count e + partially_witnessed_count e

-- `map.entry(key).or_default()`, as a value.
unfoldable pub entries_of : Events → String × ℕ → List EscrowedEvent
entries_of m key = elim (find m key) [ none ↦ [] | some es ↦ es ]

-- `entry(key).or_default()` and the bounded push.
unfoldable pub push_entry : Events → String × ℕ → EscrowedEvent → Events
push_entry m key event =
    if leb max_entries_per_key (length (entries_of m key))
    then put m key (entries_of m key)
    else put m key (entries_of m key ++ event ∷ [])

unfoldable pub escrow_out_of_order : ℕ → Escrow → String → ℕ → Serder → Bytes → Escrow
escrow_out_of_order now e prefix sn serder signatures =
    if leb max_escrow_entries (total_count e) then e else (record e {
      out_of_order =
          push_entry e.out_of_order (prefix, sn)
            (record { serder = serder; signatures = signatures; escrowed_at = now });
    })

unfoldable pub escrow_partially_signed : ℕ → Escrow → String → ℕ → Serder → Bytes → Escrow
escrow_partially_signed now e prefix sn serder signatures =
    if leb max_escrow_entries (total_count e) then e else (record e {
      partially_signed =
          push_entry e.partially_signed (prefix, sn)
            (record { serder = serder; signatures = signatures; escrowed_at = now });
    })

-- The events that come next, and the escrow without them.
unfoldable pub process_escrow : Escrow → String → ℕ → List EscrowedEvent × Escrow
process_escrow e prefix current_sn = (
  entries_of e.out_of_order (prefix, succ_u64 current_sn),
  record e { out_of_order = remove e.out_of_order (prefix, succ_u64 current_sn) },
)

unfoldable pub escrow_partially_witnessed : ℕ → Escrow → String → ℕ → Serder → Bytes → ℕ → Escrow
escrow_partially_witnessed now e prefix sn serder signatures backer_threshold = record e {
  partially_witnessed =
      put e.partially_witnessed (prefix, sn)
        (record {
          serder = serder;
          signatures = signatures;
          receipts = [];
          backer_threshold = backer_threshold;
          escrowed_at = now;
        });
}

unfoldable pub add_witness_receipt : Escrow → String → ℕ → String → Bytes → Bool × Escrow
add_witness_receipt e prefix sn witness_prefix sig_raw =
    elim (find e.partially_witnessed (prefix, sn)) [
      | none ↦ (false, e)
      | some entry ↦ if leb max_attachment_count (length entry.receipts) then (false, e) else (
        true,
        record e {
          partially_witnessed =
              put e.partially_witnessed (prefix, sn)
                (record entry { receipts = entry.receipts ++ (witness_prefix, sig_raw) ∷ [] });
        },
      )
    ]

-- The different witnesses among the receipts.
unfoldable pub unique_witnesses : List (String × Bytes) → List String → List String
unique_witnesses [] unique = unique
unique_witnesses ((w, sig) ∷ receipts) unique = unique_witnesses receipts (push_new unique w)

unfoldable pub check_and_promote_witnessed :
    Escrow → String → ℕ → Option PartiallyWitnessedEntry × Escrow
check_and_promote_witnessed e prefix sn = elim (find e.partially_witnessed (prefix, sn)) [
  | none ↦ (none, e)
  | some entry ↦
      if leb entry.backer_threshold (length (unique_witnesses entry.receipts []))
      then (
        some entry,
        record e { partially_witnessed = remove e.partially_witnessed (prefix, sn) },
      )
      else (none, e)
]

abbrev pub is_fresh : ℕ → EscrowedEvent → Bool
is_fresh cutoff event = leb cutoff event.escrowed_at

abbrev pub is_witnessed_fresh : ℕ → PartiallyWitnessedEntry → Bool
is_witnessed_fresh cutoff entry = leb cutoff entry.escrowed_at

-- The old events of each key go, then the keys without events.
unfoldable pub prune_map : Events → ℕ → Events
prune_map m cutoff =
    retain_values (λ events. not (is_empty events)) (map_values (retain (is_fresh cutoff)) m)

-- The source's `now - max_age` is of signed times. Here an age beyond `now` gives the first of all
-- times, before which nothing was escrowed either; a negative age is not modelled.
unfoldable pub prune : ℕ → Escrow → ℕ → Escrow
prune now e max_age = record {
  out_of_order = prune_map e.out_of_order (now - max_age);
  partially_signed = prune_map e.partially_signed (now - max_age);
  partially_witnessed = retain_values (is_witnessed_fresh (now - max_age)) e.partially_witnessed;
}
