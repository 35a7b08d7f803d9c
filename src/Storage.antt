-- ===== src/Storage.antt =====
-- api/storage.py: PDF blobs under opaque keys, on local disk or in an R2 bucket. A StorageError for
-- a missing key is an absent result.
pub mod LocalStorage
pub mod R2Storage
pub mod Streams
use text.Mathlib.Text.{◌==◌ as str_eq}
use chat_doc.Prelude.{Bool, Option, String, Text, if◌then◌else◌, is_some, none, some, ◌≡◌}

-- class Storage(Protocol), with what both backends promise: a blob is what was last saved under its
-- key, a deletion of any key succeeds, and neither touches another key.
pub record Storage (S : Type 0) : Type 0 where
  pub save : String → Text → S → S
  pub delete : String → S → S
  pub exists : String → S → Bool
  pub open_local : String → S → Option Text
  pub open_local-save :
      (k j : String) (blob : Text) (s : S)
      → open_local j (save k blob s) ≡ (if str_eq k j then some blob else open_local j s)
  pub open_local-delete :
      (k j : String) (s : S)
      → open_local j (delete k s) ≡ (if str_eq k j then none else open_local j s)
  pub exists_iff : (k : String) (s : S) → exists k s ≡ is_some (open_local k s)
