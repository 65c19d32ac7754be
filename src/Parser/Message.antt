-- ===== src/Parser/Message.antt =====
-- crates/affinidi-keri-core/src/parser.rs: a parsed message and its attachments.
use affinidi_keri_rs.Prelude.{
  ℕ, String, Bool, true, false, List, [], ◌∷◌, nat_eq, string_eq, pair_eq,
}
use affinidi_keri_rs.Crypto.Extern.{Bytes}
use affinidi_keri_rs.Crypto.Siger.{Siger}
use affinidi_keri_rs.Serder.{Serder}

pub record TransIdxSigGroup : Type 0 where
  pub prefix : String
  pub sn : String
  pub said : String
  pub sigs : List Siger

pub data Attachment : Type 0 where
  controller_sigs : List Siger → Attachment
  witness_sigs : List Siger → Attachment
  receipt_couples : List (String × Bytes) → Attachment
  first_seen_replay_couples : List (String × String) → Attachment
  seal_source_couples : List (String × String) → Attachment
  trans_idx_sig_groups : List TransIdxSigGroup → Attachment
  unknown : String → ℕ → Bytes → Attachment

pub record ParsedMessage : Type 0 where
  pub serder : Serder
  pub attachments : List Attachment

-- `find_map` of a kind of group, `unwrap_or(&[])`.
unfoldable pub controller_sigs_of : List Attachment → List Siger
controller_sigs_of [] = []
controller_sigs_of (controller_sigs sigs ∷ rest) = sigs
controller_sigs_of (_ ∷ rest) = controller_sigs_of rest

unfoldable pub witness_sigs_of : List Attachment → List Siger
witness_sigs_of [] = []
witness_sigs_of (witness_sigs sigs ∷ rest) = sigs
witness_sigs_of (_ ∷ rest) = witness_sigs_of rest

unfoldable pub seal_source_couples_of : List Attachment → List (String × String)
seal_source_couples_of [] = []
seal_source_couples_of (seal_source_couples couples ∷ rest) = couples
seal_source_couples_of (_ ∷ rest) = seal_source_couples_of rest

unfoldable pub trans_idx_sig_groups_of : List Attachment → List TransIdxSigGroup
trans_idx_sig_groups_of [] = []
trans_idx_sig_groups_of (trans_idx_sig_groups groups ∷ rest) = groups
trans_idx_sig_groups_of (_ ∷ rest) = trans_idx_sig_groups_of rest

unfoldable pub has_uninterpreted_attachments : List Attachment → Bool
has_uninterpreted_attachments [] = false
has_uninterpreted_attachments (unknown code count raw ∷ rest) = true
has_uninterpreted_attachments (_ ∷ rest) = has_uninterpreted_attachments rest
