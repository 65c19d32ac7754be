-- ===== src/Parser/Signatures.antt =====
-- The texts of counters and signatures, and the signatures that a composed group is parsed into.
use affinidi_keri_rs.Prelude.{
  ℕ, ◌*◌, ◌≤◌, String, ◌≡◌, refl, ap, subst, ◌⊎◌, true, none, some, List, [], ◌∷◌, ◌++◌, map, arith,
  leb, nat_eq, string_eq, pair_eq, length, take, take-append, take-length, drop-append,
  length-append, All,
}
use affinidi_keri_rs.Prelude.Result.{ok, ok_or-eq-ok, map_err-eq-ok, >>=-elim, ok-eq-ok}
use mathlib.Core.List.{append_assoc}
use affinidi_keri_rs.Prelude.Text.{codes}
use affinidi_keri_rs.Prelude.Ascii.{from_ascii, from_ascii-append}
use affinidi_keri_rs.Crypto.Extern.{Bytes, Indexer}
use affinidi_keri_rs.Crypto.Siger
use affinidi_keri_rs.Crypto.Siger.{Siger}
use affinidi_keri_rs.Error.{from_crypto}
use affinidi_keri_rs.Deps.{Deps, Counter}
use affinidi_keri_rs.Composer.{sigs_text}
use affinidi_keri_rs.Parser.{first_of, parse_sig, parse_sigs}

-- A letter, which is a CESR code of one character.
abbrev pub IsLetter : ℕ → Type 0
IsLetter c = ((65 ≤ c) × (c ≤ 90)) ⊎ ((97 ≤ c) × (c ≤ 122))

-- An indexed signature that was printed, of a code of one letter, as are the codes `A` to `F` of
-- `Signer::sign_indexed`: ASCII text that starts with the code and has the size of the code, which
-- the codec reads back and can build from its parts. The codes of two characters are left out.
pub record IndexerText (d : Deps) (i : Indexer) (t : String) : Type 0 where
  pub ascii : from_ascii (codes t) ≡ some t
  pub letter : ℕ
  pub others : Bytes
  pub starts : codes t ≡ letter ∷ others
  pub is_letter : IsLetter letter
  pub code : from_ascii (letter ∷ []) ≡ some i.code
  pub size : d.indexer_size i.code ≡ some (length (codes t))
  pub least : 4 ≤ length (codes t)
  pub parsed : d.crypto.indexer_from_qb64 t ≡ some i
  pub made : d.crypto.indexer_new i.code i.index i.ondex i.raw ≡ some i

-- A signature to send: the text that the codec prints for it is such a text.
abbrev pub IsSendable : Deps → Siger → Type 0
IsSendable d s = (t : String) → d.crypto.indexer_qb64 s.indexer ≡ some t → IndexerText d s.indexer t

-- What the documentation of the codec promises of a counter that was printed: ASCII text that starts
-- with `-`, has the size of the counter, and is read back also where the text goes on.
pub record CounterTextOf (d : Deps) (c : Counter) (t : String) : Type 0 where
  pub ascii : from_ascii (codes t) ≡ some t
  pub others : Bytes
  pub starts : codes t ≡ b'-' ∷ others
  pub size : d.counter_full_size c ≡ length (codes t)
  pub parsed :
      (text : String) (after : Bytes)
      → codes text ≡ codes t ++ after
      → d.counter_from_qb64 text ≡ some c

-- What the documentation of the codec promises: a code that starts with a letter is that letter, and
-- counters are read back and hold the parts that they were made of.
pub record FollowsCesr (d : Deps) : Type 0 where
  pub letter : (c : ℕ) → IsLetter c → d.hardage c ≡ some 1
  pub counter : (c : Counter) (t : String) → d.counter_qb64 c ≡ some t → CounterTextOf d c t
  pub counter_new :
      (code : String) (count : ℕ) (c : Counter)
      → d.counter_new code count ≡ some c
      → (c.code ≡ code) × (c.count ≡ count)

-- A signature as it is parsed: without the key.
abbrev pub bare : Siger → Siger
bare s = record { indexer = s.indexer; verfer = none }

module _ (d : Deps) (law : FollowsCesr d) where
  parse_sig-qb64 :
      (s : Siger) (t : String) (after : Bytes)
      → IsSendable d s
      → d.crypto.indexer_qb64 s.indexer ≡ some t
      → parse_sig d (codes t ++ after) ≡ ok (bare s, length (codes t))
  unfolding parse_sig Siger.new
  parse_sig-qb64 s t after n h =
      let w = n t h in
      let front = take-append (length (codes t)) (codes t) after (omega arith) in
      let size = length-append (codes t) after in
      let fits : leb 1 (length (codes t ++ after)) ≡ true = ground (arith, w.least) in
      let head_of : from_ascii (take 1 (codes t ++ after)) ≡ some s.indexer.code =
        rw w.starts w.code in
      let fits' : leb (length (codes t)) (length (codes t ++ after)) ≡ true = ground arith in
      let front_of : first_of (codes t ++ after) ≡ some w.letter = rw (w.starts) refl in
      rw
        (
          front_of,
          law.letter w.letter w.is_letter,
          fits,
          head_of,
          w.size,
          fits',
          front,
          take-length (codes t),
        )
        (rw (w.ascii, w.parsed, w.made) refl)

  abbrev pub ParsesAs : List Siger → Bytes → Type 0
  ParsesAs ss text =
      (after : Bytes) → parse_sigs d (length ss) (text ++ after) ≡ ok (map bare ss, length text)

  ParsesAs-cons :
      (s : Siger) (ss : List Siger) (t : String) (rest : Bytes)
      → IsSendable d s
      → d.crypto.indexer_qb64 s.indexer ≡ some t
      → ParsesAs ss rest
      → ParsesAs (s ∷ ss) (codes t ++ rest)
  unfolding parse_sigs
  ParsesAs-cons s ss t rest n h p after =
      rw
        (
          append_assoc (codes t) rest after,
          parse_sig-qb64 s t (rest ++ after) n h,
          drop-append (codes t) (rest ++ after),
          p after,
          length-append (codes t) rest,
        )
        refl

  pub sigs_text-ParsesAs :
      (ss : List Siger) (text : Bytes)
      → All (IsSendable d) ss
      → sigs_text d ss ≡ ok text
      → ParsesAs ss text
  unfolding sigs_text Siger.qb64 parse_sigs
  sigs_text-ParsesAs [] text n h after =
      (let e : [] ≡ text = ok-eq-ok h in ap (λ l. ok ([], length {A = ℕ} l)) e)
  sigs_text-ParsesAs (s ∷ ss) text n h after =
      >>=-elim (ParsesAs (s ∷ ss)) (from_crypto (Siger.qb64 d.crypto s)) _
        (λ t e. >>=-elim (ParsesAs (s ∷ ss)) (sigs_text d ss) _ λ rest f b r.
          subst (ParsesAs (s ∷ ss)) (ok-eq-ok r) (
            ParsesAs-cons s ss t rest n.0
              (ok_or-eq-ok (d.crypto.indexer_qb64 s.indexer) _ (map_err-eq-ok _ _ e))
              (sigs_text-ParsesAs ss rest n.1 f)))
        text h after

  -- The text of signatures is ASCII, with at least four characters for each.
  pub record IsSigText (ss : List Siger) (text : Bytes) : Type 0 where
    pub ascii : (s : String) × (from_ascii text ≡ some s)
    pub least : length ss * 4 ≤ length text

  pub sigs_text-IsSigText :
      (ss : List Siger) (text : Bytes)
      → All (IsSendable d) ss
      → sigs_text d ss ≡ ok text
      → IsSigText ss text
  unfolding sigs_text Siger.qb64 from_ascii
  sigs_text-IsSigText [] text n h =
      subst (IsSigText []) (ok-eq-ok h) (record { ascii = ("", refl); least = omega arith })
  sigs_text-IsSigText (s ∷ ss) text n h =
      >>=-elim (IsSigText (s ∷ ss)) (from_crypto (Siger.qb64 d.crypto s)) _
        (λ t e. >>=-elim (IsSigText (s ∷ ss)) (sigs_text d ss) _ λ rest f b r.
          subst (IsSigText (s ∷ ss)) (ok-eq-ok r) (
            let w = n.0 t (ok_or-eq-ok (d.crypto.indexer_qb64 s.indexer) _ (map_err-eq-ok _ _ e)) in
            let i = sigs_text-IsSigText ss rest n.1 f in
            record {
              ascii = from_ascii-append (codes t) rest t i.ascii.0 w.ascii i.ascii.1;
              least = omega (arith, length-append (codes t) rest, w.least, i.least);
            }))
        text h
