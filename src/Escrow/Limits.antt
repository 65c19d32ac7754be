-- ===== src/Escrow/Limits.antt =====
-- The limits on the events of each key, and the lists that each operation leaves.
use affinidi_keri_rs.Prelude.{
  ℕ, suc, ◌≤◌, String, ◌≡◌, inl, inr, Bool, not, List, [], ◌∷◌, ◌++◌, arith, leb, if◌then◌else◌,
  Bool-cases, ◌==◌, nat_eq, string_eq, pair_eq, length, is_empty, length-append, retain,
}
use affinidi_keri_rs.Prelude.Map.{
  put, remove, map_values, find-put, find-remove, find-retain_values, find-map_values, put-Unique,
  remove-Unique, retain-Unique, map_values-Unique, sum_values-put, sum_values-retain,
  sum_values-map, Unique,
}
use affinidi_keri_rs.Escrow.{
  EscrowedEvent, Events, max_entries_per_key, event_count, entries_of, push_entry, prune_map,
  is_fresh,
}

-- No key has too many events, and no key is there twice.
pub record Limited (m : Events) : Type 0 where
  pub unique : Unique m
  pub per_key : (key : String × ℕ) → length (entries_of m key) ≤ max_entries_per_key

entries_of-put :
    (m : Events) (key : String × ℕ) (es : List EscrowedEvent) (i : String × ℕ)
    → entries_of (put m key es) i ≡ (if i == key then es else entries_of m i)
unfolding entries_of
entries_of-put m key es i = ground (arith, find-put m key es i)

pub entries_of-remove :
    (m : Events) (key i : String × ℕ)
    → entries_of (remove m key) i ≡ (if i == key then [] else entries_of m i)
unfolding entries_of
entries_of-remove m key i = ground (arith, find-remove m key i)

-- The list that a push leaves at its key.
abbrev pub pushed : List EscrowedEvent → EscrowedEvent → List EscrowedEvent
pushed es event = if leb max_entries_per_key (length es) then es else es ++ event ∷ []

pub entries_of-push_entry :
    (m : Events) (key : String × ℕ) (event : EscrowedEvent) (i : String × ℕ)
    → entries_of (push_entry m key event) i
      ≡ (if i == key then pushed (entries_of m key) event else entries_of m i)
unfolding push_entry
entries_of-push_entry m key event i = ground (
  arith,
  entries_of-put m key (entries_of m key) i,
  entries_of-put m key (entries_of m key ++ event ∷ []) i,
)

pushed-bound :
    (es : List EscrowedEvent) (event : EscrowedEvent)
    → length es ≤ max_entries_per_key
    → length (pushed es event) ≤ max_entries_per_key
pushed-bound es event h = ground (arith, length-append es (event ∷ []))

push_entry-Unique :
    (m : Events) (key : String × ℕ) (event : EscrowedEvent)
    → Unique m
    → Unique (push_entry m key event)
unfolding push_entry
push_entry-Unique m key event u =
    elim (Bool-cases (leb max_entries_per_key (length (entries_of m key)))) [
      | inl e ↦ rw (e, push_entry) (put-Unique m key (entries_of m key) u)
      | inr e ↦ rw (e, push_entry) (put-Unique m key (entries_of m key ++ event ∷ []) u)
    ]

pub push_entry-Limited :
    (m : Events) (key : String × ℕ) (event : EscrowedEvent)
    → Limited m
    → Limited (push_entry m key event)
push_entry-Limited m key event l = record {
  unique = push_entry-Unique m key event l.unique;
  per_key = λ i. ground (
    arith,
    entries_of-push_entry m key event i,
    pushed-bound (entries_of m key) event (l.per_key key),
    l.per_key i,
  );
}

-- One push adds one event at most.
pub event_count-push_entry :
    (m : Events) (key : String × ℕ) (event : EscrowedEvent)
    → event_count (push_entry m key event) ≤ suc (event_count m)
unfolding push_entry event_count entries_of
event_count-push_entry m key event = ground (
  arith,
  sum_values-put length m key (entries_of m key),
  sum_values-put length m key (entries_of m key ++ event ∷ []),
  length-append (entries_of m key) (event ∷ []),
)

pub remove-Limited : (m : Events) (key : String × ℕ) → Limited m → Limited (remove m key)
remove-Limited m key l = record {
  unique = remove-Unique m key l.unique;
  per_key = λ i. ground (arith, entries_of-remove m key i, l.per_key i);
}

length-retain {ℓ} :
    {A : Type ℓ} (keep : A → Bool) (xs : List A) → length (retain keep xs) ≤ length xs
unfolding retain
length-retain keep [] = omega arith
length-retain keep (x ∷ xs) = ground (arith, length-retain keep xs)

-- What is left at a key is what is fresh there.
pub entries_of-prune_map :
    (m : Events) (cutoff : ℕ) (i : String × ℕ)
    → Unique m
    → entries_of (prune_map m cutoff) i ≡ retain (is_fresh cutoff) (entries_of m i)
unfolding prune_map entries_of retain
entries_of-prune_map m cutoff i u = ground (
  arith,
  find-retain_values (λ events. not (is_empty events)) (map_values (retain (is_fresh cutoff)) m) i
      (map_values-Unique (retain (is_fresh cutoff)) m u),
  find-map_values (retain (is_fresh cutoff)) m i,
)

pub prune_map-Limited : (m : Events) (cutoff : ℕ) → Limited m → Limited (prune_map m cutoff)
prune_map-Limited m cutoff l = record {
  unique =
      unfold prune_map in
      retain-Unique (λ events. not (is_empty events)) (map_values (retain (is_fresh cutoff)) m)
        (map_values-Unique (retain (is_fresh cutoff)) m l.unique);
  per_key = λ i. rw (entries_of-prune_map m cutoff i l.unique) (
      let shorter = length-retain (is_fresh cutoff) (entries_of m i) in
      let limit = l.per_key i in omega arith);
}

pub event_count-prune_map :
    (m : Events) (cutoff : ℕ) → event_count (prune_map m cutoff) ≤ event_count m
unfolding prune_map event_count
event_count-prune_map m cutoff =
    let kept =
      sum_values-retain length (λ events. not (is_empty events))
        (map_values (retain (is_fresh cutoff)) m) in
    let shrunk =
      sum_values-map length (retain (is_fresh cutoff)) (length-retain (is_fresh cutoff)) m in
    omega arith
