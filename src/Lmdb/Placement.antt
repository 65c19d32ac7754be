-- ===== src/Lmdb/Placement.antt =====
-- `store_event`: where an event is found afterwards, and what else is.
use affinidi_keri_rs.Prelude.{
  ℕ, ◌<◌, String, ◌≡◌, sym, ap, ◌∙◌, inl, inr, ◌&&◌, Option, some, List, arith, eq_iff,
  if◌then◌else◌, Bool-cases, ◌==◌, nat_eq, string_eq, pair_eq, u64_mod,
}
use affinidi_keri_rs.Prelude.Result.{ok}
use affinidi_keri_rs.Prelude.Map.{find, put, find-put}
use affinidi_keri_rs.Crypto.Extern.{Bytes}
use affinidi_keri_rs.Keys.{sn_key}
use affinidi_keri_rs.Keys.Injective.{sn_key_injective}
use affinidi_keri_rs.Lmdb.{LmdbStore, Heed, store_event}

-- The entry of a log at a prefix and a sequence number.
abbrev pub entry_at : List (String × String) → String → ℕ → Option String
entry_at log prefix sn = find log (sn_key prefix sn)

entry_at-put :
    (log : List (String × String)) (p q : String) (n m : ℕ) (said : String)
    → n < u64_mod
    → m < u64_mod
    → entry_at (put log (sn_key p n) said) q m
      ≡ (if q == p && m == n then some said else entry_at log q m)
entry_at-put log p q n m said hn hm = elim (Bool-cases (sn_key q m == sn_key p n)) [
  | inl same ↦
      (let (a, b) = sn_key_injective q p m n hm hn ((eq_iff (sn_key q m) (sn_key p n)).0 same) in
        ground (arith, find-put log (sn_key p n) said (sn_key q m), eq_iff q p))
  | inr other ↦ elim (Bool-cases (q == p && m == n)) [
    | inr different ↦ ground (arith, find-put log (sn_key p n) said (sn_key q m))
    | inl equal ↦
        (let a : q ≡ p = ground (arith, eq_iff q p) in
          let b : m ≡ n = ground arith in
          let keys : sn_key q m ≡ sn_key p n = ap (λ s. sn_key s m) a ∙ ap (sn_key p) b in
          absurd (ground (arith, eq_iff (sn_key q m) (sn_key p n))))
  ]
]

-- A stored event is found under its SAID and, in both logs, at its prefix and sequence number; every
-- other event and every other place of the logs, of whatever prefix, is as before.
pub store_event_places :
    (h : Heed) (s s' : LmdbStore) (said : String) (event : Bytes) (prefix : String) (sn : ℕ)
    (sigs : Option Bytes)
    → sn < u64_mod
    → store_event h s said event prefix sn sigs ≡ ok s'
    → ((other : String)
        → find s'.evts other ≡ (if other == said then some event else find s.evts other))
      × ((q : String) (m : ℕ)
          → m < u64_mod
          → entry_at s'.fels q m
            ≡ (if q == prefix && m == sn then some said else entry_at s.fels q m))
      × ((q : String) (m : ℕ)
          → m < u64_mod
          → entry_at s'.kels q m
            ≡ (if q == prefix && m == sn then some said else entry_at s.kels q m))
unfolding store_event
store_event_places h s s' said event prefix sn sigs bound done =
    let evts : put s.evts said event ≡ s'.evts = ground arith in
    let fels : put s.fels (sn_key prefix sn) said ≡ s'.fels = ground arith in
    let kels : put s.kels (sn_key prefix sn) said ≡ s'.kels = ground arith in
    (
      λ other. ap (λ m. find m other) (sym evts) ∙ find-put s.evts said event other,
      λ q m hm.
          ap (λ log. entry_at log q m) (sym fels) ∙ entry_at-put s.fels prefix q sn m said bound hm,
      λ q m hm.
          ap (λ log. entry_at log q m) (sym kels) ∙ entry_at-put s.kels prefix q sn m said bound hm,
    )
