-- ===== src/Config.antt =====
-- crates/affinidi-keri/src/config.rs: the settings of an inception and of a rotation. Each method of the
-- builder sets one field, as a record update does.
use affinidi_keri_rs.Prelude.{
  ℕ, String, Bool, true, Option, none, List, [], nat_eq, string_eq, pair_eq,
}
use affinidi_keri_rs.Crypto.Extern.{Bytes}

pub record InceptionConfig : Type 0 where
  pub code : String
  pub count : ℕ
  pub threshold : ℕ
  pub next_count : ℕ
  pub next_threshold : ℕ
  pub transferable : Bool
  pub backer_threshold : ℕ
  pub backers : List String
  pub config_traits : List String
  pub salt : Option Bytes

abbrev pub default_inception : InceptionConfig
default_inception = record {
  code = "A";
  count = 1;
  threshold = 1;
  next_count = 1;
  next_threshold = 1;
  transferable = true;
  backer_threshold = 0;
  backers = [];
  config_traits = [];
  salt = none;
}

pub record RotationConfig : Type 0 where
  pub count : ℕ
  pub threshold : ℕ
  pub next_count : ℕ
  pub next_threshold : ℕ
  pub backers_add : List String
  pub backers_remove : List String

abbrev pub default_rotation : RotationConfig
default_rotation = record {
  count = 1;
  threshold = 1;
  next_count = 1;
  next_threshold = 1;
  backers_add = [];
  backers_remove = [];
}
