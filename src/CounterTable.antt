-- ===== src/CounterTable.antt =====
-- crates/affinidi-keri-core/src/counter_table.rs: what the CESR counter codes mean in each version.
use affinidi_keri_rs.Prelude.{
  ℕ, String, ◌≡◌, refl, subst, Option, none, some, leb, if◌then◌else◌, ◌==◌, nat_eq, string_eq,
}
use Prim.Native.Char.{code}

pub data CounterTable : Type 0 where
  v1 v2 : CounterTable

unfoldable pub from_major : ℕ → CounterTable
from_major major = if leb 2 major then v2 else v1

pub data GroupKind : Type 0 where
  attached_material_quadlets controller_idx_sigs witness_idx_sigs : GroupKind
  non_trans_receipt_couples trans_receipt_quadruples first_seen_replay_couples : GroupKind
  trans_idx_sig_groups seal_source_couples : GroupKind

unfoldable pub from_base : CounterTable → String → Option GroupKind
from_base v1 base =
    if base == "A"
    then some controller_idx_sigs
    else if base == "B"
    then some witness_idx_sigs
    else if base == "C"
    then some non_trans_receipt_couples
    else if base == "D"
    then some trans_receipt_quadruples
    else if base == "E"
    then some first_seen_replay_couples
    else if base == "F"
    then some trans_idx_sig_groups
    else if base == "G"
    then some seal_source_couples
    else if base == "V"
    then some attached_material_quadlets
    else none
from_base v2 base =
    if base == "A"
    then some attached_material_quadlets
    else if base == "B"
    then some controller_idx_sigs
    else if base == "C"
    then some witness_idx_sigs
    else if base == "D"
    then some non_trans_receipt_couples
    else if base == "E"
    then some trans_receipt_quadruples
    else if base == "F"
    then some first_seen_replay_couples
    else if base == "G"
    then some seal_source_couples
    else none

-- `strip_prefix` of one character.
unfoldable pub strip_char : ℕ → String → Option String
strip_char c String.[] = none
strip_char c (String.◌∷◌ d s) = if code d == c then some s else none

-- `code.strip_prefix("-0")`, the big-count variants.
unfoldable pub strip_big : String → Option String
unfolding strip_char
strip_big code = elim (strip_char b'-' code) [ none ↦ none | some rest ↦ strip_char b'0' rest ]

unfoldable pub base_of : String → Option String
unfolding strip_big
base_of code = elim (strip_big code) [ some rest ↦ some rest | none ↦ strip_char b'-' code ]

unfoldable pub classify : String → CounterTable → Option GroupKind
unfolding base_of from_base
classify code table = elim (base_of code) [ none ↦ none | some base ↦ from_base table base ]

unfoldable pub code_in : GroupKind → CounterTable → Option String
code_in controller_idx_sigs v1 = some "-A"
code_in witness_idx_sigs v1 = some "-B"
code_in non_trans_receipt_couples v1 = some "-C"
code_in trans_receipt_quadruples v1 = some "-D"
code_in first_seen_replay_couples v1 = some "-E"
code_in trans_idx_sig_groups v1 = some "-F"
code_in seal_source_couples v1 = some "-G"
code_in attached_material_quadlets v1 = some "-V"
code_in attached_material_quadlets v2 = some "-A"
code_in controller_idx_sigs v2 = some "-B"
code_in witness_idx_sigs v2 = some "-C"
code_in non_trans_receipt_couples v2 = some "-D"
code_in trans_receipt_quadruples v2 = some "-E"
code_in first_seen_replay_couples v2 = some "-F"
code_in seal_source_couples v2 = some "-G"
code_in trans_idx_sig_groups v2 = none

classify-of_eq :
    (t : CounterTable) {k : GroupKind} {d c : String}
    → some d ≡ some c
    → classify d t ≡ some k
    → classify c t ≡ some k
classify-of_eq t {k} {d} {c} p h = let e : d ≡ c = cc in subst (λ x. classify x t ≡ some k) e h

-- A code that a table writes for a group is classified as that group by the same table.
pub classify-code_in :
    (k : GroupKind) (t : CounterTable) (c : String) → code_in k t ≡ some c → classify c t ≡ some k
unfolding classify code_in
classify-code_in attached_material_quadlets v1 c h = classify-of_eq v1 h refl
classify-code_in controller_idx_sigs v1 c h = classify-of_eq v1 h refl
classify-code_in witness_idx_sigs v1 c h = classify-of_eq v1 h refl
classify-code_in non_trans_receipt_couples v1 c h = classify-of_eq v1 h refl
classify-code_in trans_receipt_quadruples v1 c h = classify-of_eq v1 h refl
classify-code_in first_seen_replay_couples v1 c h = classify-of_eq v1 h refl
classify-code_in seal_source_couples v1 c h = classify-of_eq v1 h refl
classify-code_in attached_material_quadlets v2 c h = classify-of_eq v2 h refl
classify-code_in controller_idx_sigs v2 c h = classify-of_eq v2 h refl
classify-code_in witness_idx_sigs v2 c h = classify-of_eq v2 h refl
classify-code_in non_trans_receipt_couples v2 c h = classify-of_eq v2 h refl
classify-code_in trans_receipt_quadruples v2 c h = classify-of_eq v2 h refl
classify-code_in first_seen_replay_couples v2 c h = classify-of_eq v2 h refl
classify-code_in seal_source_couples v2 c h = classify-of_eq v2 h refl
classify-code_in trans_idx_sig_groups v1 c h = classify-of_eq v1 h refl
classify-code_in trans_idx_sig_groups v2 c h = cc

-- The groups of a table have different codes.
pub code_in_injective :
    (k j : GroupKind) (t : CounterTable) (c : String)
    → code_in k t ≡ some c
    → code_in j t ≡ some c
    → k ≡ j
code_in_injective k j t c p q = cc (classify-code_in k t c p, classify-code_in j t c q)
