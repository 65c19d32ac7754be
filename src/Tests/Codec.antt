-- ===== src/Tests/Codec.antt =====
-- A codec with three counters and two signatures, a JSON with one field, and the laws that the codec
-- meets.
use affinidi_keri_rs.Prelude.{
  ℕ, ◌+◌, ◌-◌, String, ◌≡◌, refl, sym, ap, subst, ◌⊎◌, inl, inr, ◌&&◌, ◌||◌, Option, none, some, [],
  ◌∷◌, ◌++◌, arith, eq_iff, leb, if◌then◌else◌, Bool-cases, ◌==◌, nat_eq, string_eq, pair_eq,
  length, take, drop,
}
use affinidi_keri_rs.Prelude.Text.{codes}
use affinidi_keri_rs.Prelude.Ascii.{from_ascii}
use affinidi_keri_rs.Json.{Value, string, object, no_fields, with_field}
use affinidi_keri_rs.Crypto.Extern.{Bytes, Indexer, Extern}
use affinidi_keri_rs.Version.{SerializationKind}
use affinidi_keri_rs.Deps.{Deps, Counter}
use affinidi_keri_rs.Parser.Signatures.{IndexerText, CounterTextOf, FollowsCesr, IsSendable}
use affinidi_keri_rs.Tests.World.{deps, crypto}

abbrev counts : ℕ → Counter
counts n = record { code = "-A"; count = n }

abbrev pub first_sig : Indexer
first_sig = record { code = "A"; index = 0; ondex = none; raw = 7 ∷ [] }

abbrev pub second_sig : Indexer
second_sig = record { code = "B"; index = 2; ondex = some 2; raw = 9 ∷ [] }

-- The text of a group with one, two or three members.
abbrev pub print_counter : Counter → Option String
print_counter c =
    if c.code == "-A"
    then if c.count == 1
      then some "-AAB"
      else if c.count == 2
      then some "-AAC"
      else if c.count == 3
      then some "-AAD"
      else none
    else none

abbrev pub read_counter : Bytes → Option Counter
read_counter (dash ∷ a ∷ high ∷ n ∷ after) = some (counts (n - 65))
read_counter _ = none

-- The code, the index, and the bytes.
abbrev pub print_indexer : Indexer → Option String
print_indexer i =
    if i.code == "A" && i.index == 0
    then some "AAAH"
    else if i.code == "B" && i.index == 2
    then some "BCAJ"
    else none

abbrev pub read_indexer : String → Option Indexer
read_indexer t =
    if t == "AAAH" then some first_sig else if t == "BCAJ" then some second_sig else none

abbrev pub letter_hardage : ℕ → Option ℕ
letter_hardage c = if (leb 65 c && leb c 90) || (leb 97 c && leb c 122) then some 1 else none

abbrev pub codec : Extern
codec = record crypto { indexer_qb64 = print_indexer; indexer_from_qb64 = read_indexer }

-- JSON for objects with the field `v` alone, with a text that is ASCII.
abbrev pub write_text : String → Option String → Option Bytes
write_text t none = none
write_text t (some u) =
    if u == t then some (123 ∷ 34 ∷ 118 ∷ 34 ∷ 58 ∷ 34 ∷ (codes u ++ 34 ∷ 125 ∷ [])) else none

abbrev pub write_json : SerializationKind → Value → Option Bytes
write_json kind (object (with_field k (string t) no_fields)) =
    if k == "v" then write_text t (from_ascii (codes t)) else none
write_json kind _ = none

abbrev pub read_text : Option String → Option Value
read_text none = none
read_text (some u) = some (object (with_field "v" (string u) no_fields))

abbrev pub read_json : SerializationKind → Bytes → Option Value
read_json kind bytes = read_text (from_ascii (take (length bytes - 8) (drop 6 bytes)))

abbrev pub composing : Deps
composing = record deps {
  crypto = codec;
  counter_qb64 = print_counter;
  counter_from_qb64 = λ text. read_counter (codes text);
  hardage = letter_hardage;
  deserialize = read_json;
  serialize = write_json;
}

-- A counter that was printed, and its text.
record IsPrinted (c : Counter) (t : String) : Type 0 where
  of_code : c.code ≡ "-A"
  text :
      ((c.count ≡ 1) × (t ≡ "-AAB"))
      ⊎ ((c.count ≡ 2) × (t ≡ "-AAC"))
      ⊎ ((c.count ≡ 3) × (t ≡ "-AAD"))

print_counter-IsPrinted : (c : Counter) (t : String) → print_counter c ≡ some t → IsPrinted c t
print_counter-IsPrinted c t h = record {
  of_code = ground (arith, eq_iff c.code "-A");
  text = elim (Bool-cases (c.count == 1)) [
    | inl a ↦ inl (ground arith, ground arith)
    | inr a ↦ elim (Bool-cases (c.count == 2)) [
      | inl b ↦ inr (inl (ground arith, ground arith))
      | inr b ↦ inr (inr (ground arith, ground arith))
    ]
  ];
}

counts-CounterTextOf :
    (n : ℕ) (t : String)
    → from_ascii (codes t) ≡ some t
    → codes t ≡ 45 ∷ 65 ∷ 65 ∷ (65 + n) ∷ []
    → CounterTextOf composing (counts n) t
counts-CounterTextOf n t a e = record {
  ascii = a;
  others = 65 ∷ 65 ∷ (65 + n) ∷ [];
  starts = e;
  size = rw e refl;
  parsed = λ text after f.
      (let back : 65 + n - 65 ≡ n = omega arith in rw (f, e) (ap (λ m. some (counts m)) back));
}

IsPrinted-CounterTextOf : (c : Counter) (t : String) → IsPrinted c t → CounterTextOf composing c t
unfolding from_ascii
IsPrinted-CounterTextOf c t p =
    let P : Counter × String → Type 0 = λ q. CounterTextOf composing q.0 q.1 in
    let of : (n : ℕ) → c.count ≡ n → counts n ≡ c =
      λ n e i. record { code = sym (p.of_code) i; count = sym e i } in
    elim p.text [
      | inl (e, f) ↦ subst P (λ i. (of 1 e i, sym f i)) (counts-CounterTextOf 1 "-AAB" refl refl)
      | inr q ↦ elim q [
        | inl (e, f) ↦ subst P (λ i. (of 2 e i, sym f i)) (counts-CounterTextOf 2 "-AAC" refl refl)
        | inr (e, f) ↦ subst P (λ i. (of 3 e i, sym f i)) (counts-CounterTextOf 3 "-AAD" refl refl)
      ]
    ]

pub composing-FollowsCesr : FollowsCesr composing
composing-FollowsCesr = record {
  letter = λ c l. ground arith;
  counter = λ c t h. IsPrinted-CounterTextOf c t (print_counter-IsPrinted c t h);
  counter_new = λ code count c e. ground arith;
}

pub first-IsSendable : IsSendable composing (record { indexer = first_sig; verfer = none })
unfolding from_ascii
first-IsSendable t h =
    let text : "AAAH" ≡ t = cc (h) in
    subst (IndexerText composing first_sig) text (record {
      ascii = refl;
      letter = 65;
      others = 65 ∷ 65 ∷ 72 ∷ [];
      starts = refl;
      is_letter = inl (omega arith, omega arith);
      code = refl;
      size = refl;
      least = omega arith;
      parsed = refl;
      made = refl;
    })

pub second-IsSendable : IsSendable composing (record { indexer = second_sig; verfer = none })
unfolding from_ascii
second-IsSendable t h =
    let text : "BCAJ" ≡ t = cc (h) in
    subst (IndexerText composing second_sig) text (record {
      ascii = refl;
      letter = 66;
      others = 67 ∷ 65 ∷ 74 ∷ [];
      starts = refl;
      is_letter = inl (omega arith, omega arith);
      code = refl;
      size = refl;
      least = omega arith;
      parsed = refl;
      made = refl;
    })
