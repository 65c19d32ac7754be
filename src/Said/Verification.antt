-- ===== src/Said/Verification.antt =====
-- Computing an identifier and then verifying it.
use affinidi_keri_rs.Prelude.{
  ℕ, String, ◌≡◌, refl, sym, ap, ◌∙◌, ◌≢◌, ◌↔◌, inl, inr, Bool, true, false, some, arith, eq_iff,
  Bool-cases, Option-cases, ◌==◌, nat_eq, string_eq, pair_eq,
}
use affinidi_keri_rs.Prelude.Result.{ok, Result-cases}
use affinidi_keri_rs.Json.{Value, Fields, object, string, lookup, insert}
use affinidi_keri_rs.Json.Insertion.{lookup-insert, insert-insert, insert_comm, is_some}
use affinidi_keri_rs.Version.{SerializationKind}
use affinidi_keri_rs.Deps.{Deps}
use affinidi_keri_rs.Said.{
  dummy, fill, is_self_addressing, digest_said, fixed_size, compute_said, verify_said,
}

-- Where both fields are written, the label is `d`.
abbrev Fits : String → Bool → Type 0
Fits label self_addressing = self_addressing ≡ true → label ≡ "d"

lookup-fill :
    (label : String) (sa : Bool) (text : String) (fs : Fields)
    → Fits label sa
    → lookup label (fill label sa text fs) ≡ some (string text)
unfolding fill
lookup-fill label true text fs fits = ground (
  arith,
  lookup-insert label "i" (string text) (insert label (string text) fs),
  lookup-insert label label (string text) fs,
  eq_iff label label,
)
lookup-fill label false text fs fits =
    ground (arith, lookup-insert label label (string text) fs, eq_iff label label)

d_i : ◌≢◌ {A = String} "d" "i"
d_i e = absurd (ground (arith, (eq_iff "d" "i").1 e))

fill-fill :
    (label : String) (sa : Bool) (a b : String) (fs : Fields)
    → Fits label sa
    → fill label sa a (fill label sa b fs) ≡ fill label sa a fs
unfolding fill
fill-fill label false a b fs fits = insert-insert label (string a) (string b) fs
fill-fill label true a b fs fits =
    let d : label ≢ "i" = λ e. absurd (d_i (sym (fits refl) ∙ e)) in
    let there : is_some (lookup label (insert label (string b) fs)) ≡ true =
      ground (arith, lookup-insert label label (string b) fs, eq_iff label label) in
    ap (insert "i" (string a))
      (insert_comm label "i" (string a) (string b) (insert label (string b) fs) d there)
    ∙ insert-insert "i" (string a) (string b) (insert label (string a) (insert label (string b) fs))
    ∙ ap (insert "i" (string a)) (insert-insert label (string a) (string b) fs)

module _ (d : Deps)
    (value_eq_iff : (t : String) (v : Value)
      → (d.value_eq (string t) v ≡ true) ↔ (string t ≡ v)) where
  is_self_addressing-Fits :
      (label : String) (fs : Fields) → Fits label (is_self_addressing d label fs)
  unfolding is_self_addressing
  is_self_addressing-Fits label fs h = ground (arith, eq_iff label "d")

  -- Writing the identifier does not change whether the object is self-addressing.
  is_self_addressing-fill :
      (label said : String) (fs : Fields) (sa : Bool)
      → is_self_addressing d label fs ≡ sa
      → (sa ≡ false → lookup "i" fs ≢ some (string said))
      → is_self_addressing d label (fill label sa said fs) ≡ sa
  unfolding is_self_addressing fill
  is_self_addressing-fill label said fs true h fresh =
      let e : label ≡ "d" = ground (arith, eq_iff label "d") in
      ground (
        arith,
        e,
        eq_iff label "d",
        lookup-insert "i" "i" (string said) (insert label (string said) fs),
        lookup-insert "d" "i" (string said) (insert label (string said) fs),
        lookup-insert "d" label (string said) fs,
        value_eq_iff said (string said),
      )
  is_self_addressing-fill label said fs false h fresh = elim (Bool-cases (label == "d")) [
    | inr other ↦ ground arith
    | inl same ↦ elim (Option-cases (lookup "i" fs)) [
      | inl e ↦
          ground (
            arith,
            lookup-insert "i" label (string said) fs,
            eq_iff label "i",
            eq_iff label "d",
            d_i,
          )
      | inr (v, e) ↦
          (let differs : string said ≢ v = λ q. fresh refl (e ∙ ap some (sym q)) in
            ground (
              arith,
              differs,
              value_eq_iff said v,
              lookup-insert "i" label (string said) fs,
              lookup-insert "d" label (string said) fs,
              eq_iff label "i",
              eq_iff label "d",
              d_i,
            ))
    ]
  ]

  digest_said-fill :
      (label said code : String) (sa : Bool) (kind : SerializationKind) (size : ℕ) (fs : Fields)
      → Fits label sa
      → digest_said d label sa code kind size (fill label sa said fs)
        ≡ digest_said d label sa code kind size fs
  unfolding digest_said
  digest_said-fill label said code sa kind size fs fits =
      rw (fill-fill label sa (dummy size) said fs fits) refl

  -- The object that `compute_said` returns, where it returns.
  compute_said-fill :
      (fs : Fields) (label code said : String) (kind : SerializationKind) (sad' : Value)
      → compute_said d (object fs) label code kind ≡ ok (said, sad')
      → (size : ℕ) × (fixed_size d code ≡ ok size)
        × (digest_said d label (is_self_addressing d label fs) code kind size fs ≡ ok said)
        × (sad' ≡ object (fill label (is_self_addressing d label fs) said fs))
  unfolding compute_said
  compute_said-fill fs label code said kind sad' h = elim (Result-cases (fixed_size d code)) [
    | inr (e, p) ↦ absurd (ground arith)
    | inl (size, p) ↦
        (let sa = is_self_addressing d label fs in
          elim (Result-cases (digest_said d label sa code kind size fs)) [
            | inr (e, q) ↦ absurd (ground arith)
            | inl (computed, q) ↦
                (let same : computed ≡ said = ground arith in
                  let shape : object (fill label sa computed (fill label sa (dummy size) fs))
                      ≡ sad' =
                    ground arith in
                  (
                    size,
                    p,
                    q ∙ ap ok same,
                    sym shape
                        ∙ ap object (
                            fill-fill label sa computed (dummy size) fs
                              (is_self_addressing-Fits label fs))
                        ∙ ap (λ t. object (fill label sa t fs)) same,
                  ))
          ])
  ]

  -- An object with the identifier that `compute_said` wrote into it verifies, under the same label,
  -- code and format; where the object was not self-addressing, its `i` must not happen to be that
  -- identifier. This rests on the comparison of a JSON string
  -- with a JSON value being equality.
  pub compute_said-verify_said :
      (fs : Fields) (label code said : String) (kind : SerializationKind) (sad' : Value)
      → (is_self_addressing d label fs ≡ false → lookup "i" fs ≢ some (string said))
      → compute_said d (object fs) label code kind ≡ ok (said, sad')
      → verify_said d sad' label code kind ≡ ok tt
  unfolding verify_said compute_said
  compute_said-verify_said fs label code said kind sad' fresh h =
      let (size, sized, digest, shape) = compute_said-fill fs label code said kind sad' h in
      let sa = is_self_addressing d label fs in
      let kept = is_self_addressing-fill label said fs sa refl fresh in
      let again =
        digest_said-fill label said code sa kind size fs (is_self_addressing-Fits label fs) in
      let there = lookup-fill label sa said fs (is_self_addressing-Fits label fs) in
      rw (shape, sized, kept, again, digest) (ground (arith, there, eq_iff said said))
