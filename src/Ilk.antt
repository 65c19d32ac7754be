-- ===== src/Ilk.antt =====
-- crates/affinidi-keri-core/src/ilk.rs: the type tags of KERI messages.
use affinidi_keri_rs.Prelude.{
  String, ◌≡◌, refl, sym, ap, ◌∙◌, ◌↔◌, inl, inr, Bool, true, false, List, [], ◌∷◌, arith, eq_iff,
  if◌then◌else◌, Bool-cases, ◌==◌, nat_eq, string_eq, pair_eq,
}
use affinidi_keri_rs.Prelude.Result.{ok, err}
use affinidi_keri_rs.Error.{CoreResult, unexpected_ilk}

pub data Ilk : Type 0 where
  icp rot ixn dip drt rct qry rpy exn : Ilk

unfoldable pub tag : Ilk → String
tag icp = "icp"
tag rot = "rot"
tag ixn = "ixn"
tag dip = "dip"
tag drt = "drt"
tag rct = "rct"
tag qry = "qry"
tag rpy = "rpy"
tag exn = "exn"

unfoldable pub from_tag : String → CoreResult Ilk
from_tag t =
    if t == "icp"
    then ok icp
    else if t == "rot"
    then ok rot
    else if t == "ixn"
    then ok ixn
    else if t == "dip"
    then ok dip
    else if t == "drt"
    then ok drt
    else if t == "rct"
    then ok rct
    else if t == "qry"
    then ok qry
    else if t == "rpy"
    then ok rpy
    else if t == "exn"
    then ok exn
    else err unexpected_ilk

unfoldable pub is_establishment : Ilk → Bool
is_establishment icp = true
is_establishment rot = true
is_establishment dip = true
is_establishment drt = true
is_establishment _ = false

unfoldable pub all : List Ilk
all = icp ∷ rot ∷ ixn ∷ dip ∷ drt ∷ rct ∷ qry ∷ rpy ∷ exn ∷ []

from_tag-tag : (i : Ilk) → from_tag (tag i) ≡ ok i
unfolding from_tag tag
from_tag-tag icp = refl
from_tag-tag _ = refl

-- One arm of the match.
pick :
    (t s : String) (j i : Ilk) (rest : CoreResult Ilk)
    → tag j ≡ s
    → (if t == s then ok j else rest) ≡ ok i
    → (rest ≡ ok i → t ≡ tag i)
    → t ≡ tag i
pick t s j i rest e h later = elim (Bool-cases (t == s)) [
  | inl same ↦ (let which : j ≡ i = ground arith in (eq_iff t s).0 same ∙ sym e ∙ ap tag which)
  | inr other ↦ later (ground arith)
]

tag_of_from_tag : (t : String) (i : Ilk) → from_tag t ≡ ok i → t ≡ tag i
unfolding from_tag tag
tag_of_from_tag t i h = pick t "icp" icp i _ refl h (λ h. pick t "rot" rot i _ refl h (λ h.
    pick t "ixn" ixn i _ refl h (λ h. pick t "dip" dip i _ refl h (λ h.
      pick t "drt" drt i _ refl h (λ h. pick t "rct" rct i _ refl h (λ h.
        pick t "qry" qry i _ refl h (λ h.
          pick t "rpy" rpy i _ refl h
            (λ h. pick t "exn" exn i _ refl h (λ h. absurd (ground arith))))))))))

-- `from_tag` accepts exactly the tags that `tag` writes, and gives back their ilks.
pub from_tag-eq-ok_iff : (t : String) (i : Ilk) → (from_tag t ≡ ok i) ↔ (t ≡ tag i)
from_tag-eq-ok_iff t i = (tag_of_from_tag t i, λ e. rw e (from_tag-tag i))
