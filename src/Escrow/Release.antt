-- ===== src/Escrow/Release.antt =====
-- What leaves the escrow, and what stays: `process_escrow`, `check_and_promote_witnessed`, `prune`.
use affinidi_keri_rs.Prelude.{
  ℕ, ◌+◌, ◌-◌, ◌≤◌, ◌<◌, String, ◌≡◌, refl, sym, ap, subst, ◌∙◌, ◌≢◌, ◌↔◌, inl, inr, ◌||◌, none,
  some, List, [], ◌∷◌, ◌++◌, map, arith, leb, if◌then◌else◌, leb→le, Bool-cases, Option-cases, ◌==◌,
  nat_eq, string_eq, pair_eq, succ_u64, length, retain, contains, Nodup, push_new, beq_refl,
  contains-push_new, push_new-Nodup,
}
use affinidi_keri_rs.Prelude.Map.{find, find-remove, find-retain_values, Unique}
use affinidi_keri_rs.Crypto.Extern.{Bytes}
use affinidi_keri_rs.Serder.{Serder}
use affinidi_keri_rs.Escrow.{
  Escrow, EscrowedEvent, PartiallyWitnessedEntry, entries_of, max_escrow_entries,
  max_entries_per_key, total_count, escrow_out_of_order, process_escrow,
  check_and_promote_witnessed, unique_witnesses, prune, prune_map, is_fresh, is_witnessed_fresh,
  Events,
}
use affinidi_keri_rs.Escrow.Limits.{entries_of-push_entry, entries_of-remove, entries_of-prune_map}

-- Escrowing an event and then processing its predecessor's number gives it back, after the events
-- that waited there before, and leaves none of them; while there is room for it, and its number is
-- the successor.
pub process_escrow-escrow_out_of_order :
    (now : ℕ) (e : Escrow) (prefix : String) (sn : ℕ) (serder : Serder) (signatures : Bytes)
    → total_count e < max_escrow_entries
    → length (entries_of e.out_of_order (prefix, succ_u64 sn)) < max_entries_per_key
    → ((process_escrow
          (escrow_out_of_order now e prefix (succ_u64 sn) serder signatures)
          prefix
          sn).0
        ≡ entries_of e.out_of_order (prefix, succ_u64 sn)
          ++ record { serder = serder; signatures = signatures; escrowed_at = now } ∷ [])
      × ((process_escrow
            (process_escrow
              (escrow_out_of_order now e prefix (succ_u64 sn) serder signatures)
              prefix
              sn).1
            prefix
            sn).0
          ≡ [])
unfolding process_escrow escrow_out_of_order
process_escrow-escrow_out_of_order now e prefix sn serder signatures room place =
    let key : String × ℕ = (prefix, succ_u64 sn) in
    let event : EscrowedEvent = record {
      serder = serder;
      signatures = signatures;
      escrowed_at = now;
    } in
    let waits = entries_of-push_entry e.out_of_order key event key in
    let gone =
      entries_of-remove
        (escrow_out_of_order now e prefix (succ_u64 sn) serder signatures).out_of_order key key in
    let same = beq_refl key in (ground arith, ground arith)

-- Processing one identifier's next events leaves every other key of the list as it was.
pub process_escrow_keeps :
    (e : Escrow) (prefix : String) (sn : ℕ) (key : String × ℕ)
    → key ≢ (prefix, succ_u64 sn)
    → entries_of (process_escrow e prefix sn).1.out_of_order key ≡ entries_of e.out_of_order key
unfolding process_escrow
process_escrow_keeps e prefix sn key other = ground (
  arith,
  entries_of-remove e.out_of_order (prefix, succ_u64 sn) key,
  pair_eq.same_iff key (prefix, succ_u64 sn),
)

unique_witnesses-contains :
    (receipts : List (String × Bytes)) (unique : List String) (w : String)
    → contains (unique_witnesses receipts unique) w
      ≡ (contains (map (λ r. r.0) receipts) w || contains unique w)
unfolding unique_witnesses contains
unique_witnesses-contains [] unique w = refl
unique_witnesses-contains ((v, sig) ∷ receipts) unique w =
    ground (
      arith,
      unique_witnesses-contains receipts (push_new unique v) w,
      contains-push_new unique v w,
    )

unique_witnesses-Nodup :
    (receipts : List (String × Bytes)) (unique : List String)
    → Nodup unique
    → Nodup (unique_witnesses receipts unique)
unfolding unique_witnesses
unique_witnesses-Nodup [] unique n = n
unique_witnesses-Nodup ((v, sig) ∷ receipts) unique n =
    unique_witnesses-Nodup receipts (push_new unique v) (push_new-Nodup unique v n)

-- A promoted event is the one that waited under the key, it has receipts from as many different
-- prefixes as its threshold asks for, and it waits no longer; the other entries stay.
pub check_and_promote_witnessed_sound :
    (e : Escrow) (prefix : String) (sn : ℕ) (entry : PartiallyWitnessedEntry)
    → (check_and_promote_witnessed e prefix sn).0 ≡ some entry
    → (find e.partially_witnessed (prefix, sn) ≡ some entry)
      × ((witnesses : List String) × Nodup witnesses
          × (entry.backer_threshold ≤ length witnesses)
          × ((w : String) → contains witnesses w ≡ contains (map (λ r. r.0) entry.receipts) w))
      × ((key : String × ℕ)
          → find (check_and_promote_witnessed e prefix sn).1.partially_witnessed key
            ≡ (if key == (prefix, sn) then none else find e.partially_witnessed key))
unfolding check_and_promote_witnessed
check_and_promote_witnessed_sound e prefix sn entry h =
    elim (Option-cases (find e.partially_witnessed (prefix, sn))) [
      | inl absent ↦ absurd (ground arith)
      | inr (found, p) ↦
          elim (Bool-cases
            (leb found.backer_threshold (length (unique_witnesses found.receipts [])))) [
              | inr short ↦ absurd (ground arith)
              | inl met ↦
                  (let same : found ≡ entry = ground arith in
                    (
                      p ∙ ap some same,
                      subst
                          (λ entry.
                            (witnesses : List String) × Nodup witnesses
                            × (entry.backer_threshold ≤ length witnesses)
                            × ((w : String)
                                → contains witnesses w
                                  ≡ contains (map (λ r. r.0) entry.receipts) w))
                          same
                          (
                            unique_witnesses found.receipts [],
                            unique_witnesses-Nodup found.receipts [] tt,
                            leb→le _ _ met,
                            λ w.
                                unfold contains in
                                ground (arith, unique_witnesses-contains found.receipts [] w),
                          ),
                      λ key.
                          rw (p, check_and_promote_witnessed, met)
                            (find-remove e.partially_witnessed (prefix, sn) key),
                    ))
            ]
    ]

-- The events that are left of a list, in order: one stays if at most the given time has passed since
-- it was escrowed, and goes if more has.
pub data Pruned (now max_age : ℕ) : List EscrowedEvent → List EscrowedEvent → Type 0 where
  none_left : Pruned now max_age [] []
  stays :
      (event : EscrowedEvent) (events left : List EscrowedEvent)
      → now ≤ event.escrowed_at + max_age
      → Pruned now max_age events left
      → Pruned now max_age (event ∷ events) (event ∷ left)
  goes :
      (event : EscrowedEvent) (events left : List EscrowedEvent)
      → event.escrowed_at + max_age < now
      → Pruned now max_age events left
      → Pruned now max_age (event ∷ events) left

retain-Pruned :
    (now max_age : ℕ) (events : List EscrowedEvent)
    → Pruned now max_age events (retain (is_fresh (now - max_age)) events)
unfolding retain
retain-Pruned now max_age [] = none_left
retain-Pruned now max_age (event ∷ events) =
    elim (Bool-cases (leb (now - max_age) event.escrowed_at)) [
      | inl e ↦
          (let fresh = leb→le _ _ e in
            rw (e, retain) (stays event events _ (omega arith) (retain-Pruned now max_age events)))
      | inr e ↦
          rw (e, retain) (goes event events _ (ground arith) (retain-Pruned now max_age events))
    ]

prune_map-Pruned :
    (now max_age : ℕ) (m : Events) (key : String × ℕ)
    → Unique m
    → Pruned now max_age (entries_of m key) (entries_of (prune_map m (now - max_age)) key)
prune_map-Pruned now max_age m key u =
    rw (entries_of-prune_map m (now - max_age) key u) (retain-Pruned now max_age (entries_of m key))

find-prune_witnessed :
    (now : ℕ) (e : Escrow) (max_age : ℕ) (key : String × ℕ) (entry : PartiallyWitnessedEntry)
    → Unique e.partially_witnessed
    → (find (prune now e max_age).partially_witnessed key ≡ some entry)
      ↔ ((find e.partially_witnessed key ≡ some entry) × (now ≤ entry.escrowed_at + max_age))
unfolding prune
find-prune_witnessed now e max_age key entry u =
    let kept =
      find-retain_values (is_witnessed_fresh (now - max_age)) e.partially_witnessed key u in
    elim (Option-cases (find e.partially_witnessed key)) [
      | inl absent ↦ (λ p. ground arith, λ p. ground arith)
      | inr (found, p) ↦ elim (Bool-cases (leb (now - max_age) found.escrowed_at)) [
        | inl f ↦
            (let fresh = leb→le _ _ f in
              (
                λ h.
                    (let same : found ≡ entry = ground arith in
                      (
                        p ∙ ap some same,
                        subst (λ x. now ≤ x.escrowed_at + max_age) same (omega arith),
                      )),
                λ h. ground arith,
              ))
        | inr f ↦ (
          λ h. absurd (ground arith),
          λ h.
              (let same : found ≡ entry = ground arith in
                let stale : found.escrowed_at + max_age < now = ground arith in
                absurd (
                  let recent = subst (λ x. now ≤ x.escrowed_at + max_age) (sym same) h.1 in
                  omega arith)),
        )
      ]
    ]

-- Pruning goes through all three categories. Of the events that wait for an earlier event or for
-- signatures, it leaves at each key those since which at most the given age has passed, in order,
-- and no older one; and a partially witnessed event stays exactly if at most that age has passed
-- since it was escrowed. The condition is that no category has a key twice.
pub prune_exact :
    (now : ℕ) (e : Escrow) (max_age : ℕ) (key : String × ℕ)
    → Unique e.out_of_order
    → Unique e.partially_signed
    → Unique e.partially_witnessed
    → Pruned now max_age
        (entries_of e.out_of_order key)
        (entries_of (prune now e max_age).out_of_order key)
      × Pruned now max_age
          (entries_of e.partially_signed key)
          (entries_of (prune now e max_age).partially_signed key)
      × ((entry : PartiallyWitnessedEntry)
          → (find (prune now e max_age).partially_witnessed key ≡ some entry)
            ↔ ((find e.partially_witnessed key ≡ some entry) × (now ≤ entry.escrowed_at + max_age)))
unfolding prune
prune_exact now e max_age key u v w = (
  prune_map-Pruned now max_age e.out_of_order key u,
  prune_map-Pruned now max_age e.partially_signed key v,
  λ entry. find-prune_witnessed now e max_age key entry w,
)
