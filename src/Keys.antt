-- ===== src/Keys.antt =====
-- crates/affinidi-keri-db/src/keys.rs: the keys of the database.
pub mod Injective
use affinidi_keri_rs.Prelude.{ℕ, String, Option, none, some, u64_mod}
use Prim.Native.String.{◌++◌ as append}
use affinidi_keri_rs.Prelude.Text.{hex_padded, split_once, from_str_radix}

-- `{prefix}.{sn:032x}`: a `u64` never needs more digits.
unfoldable pub sn_key : String → ℕ → String
sn_key prefix sn = append prefix (append "." (hex_padded 32 sn ""))

-- `{prefix}.{digest}`.
unfoldable pub dg_key : String → String → String
dg_key prefix digest = append prefix (append "." digest)

-- `{prefix}.{sn:032x}.{digest}`.
unfoldable pub sn_dg_key : String → ℕ → String → String
sn_dg_key prefix sn digest =
    append prefix (append "." (append (hex_padded 32 sn "") (append "." digest)))

-- `key.split(".").next()`
unfoldable pub split_prefix : String → Option String
unfolding split_once
split_prefix key = elim (split_once b'.' key) [ none ↦ some key | some (a, b) ↦ some a ]

-- The text up to the next separator.
abbrev part : String → String
part s = elim (split_once b'.' s) [ none ↦ s | some (a, b) ↦ a ]

-- The second part, as a hexadecimal `u64`.
unfoldable pub split_sn : String → Option ℕ
unfolding split_once from_str_radix
split_sn key = elim (split_once b'.' key) [
  | none ↦ none
  | some (a, b) ↦ from_str_radix 16 u64_mod (part b)
]
