-- ===== src/Storage/R2Storage.antt =====
-- class R2Storage of api/storage.py over the S3 client of boto3, which is a parameter: a bucket's
-- state, the calls, and what the S3 documentation says of them.
use text.Mathlib.Text.{◌==◌ as str_eq}
use chat_doc.Storage.{Storage}
use chat_doc.Prelude.{Bool, Option, String, Text, if◌then◌else◌, is_some, none, some, ◌≡◌}

pub record S3Client (B : Type 0) : Type 0 where
  pub put_object : String → Text → B → B
  pub delete_object : String → B → B
  -- False and none are a ClientError.
  pub head_object : String → B → Bool
  pub download_file : String → B → Option Text
  pub get_object : String → B → Option Text
  pub download_file-put_object :
      (k j : String) (body : Text) (b : B)
      → download_file j (put_object k body b)
        ≡ (if str_eq k j then some body else download_file j b)
  pub download_file-delete_object :
      (k j : String) (b : B)
      → download_file j (delete_object k b) ≡ (if str_eq k j then none else download_file j b)
  pub head_object_iff : (k : String) (b : B) → head_object k b ≡ is_some (download_file k b)

module _ {B : Type 0} (client : S3Client B) where
  unfoldable pub save : String → Text → B → B
  save = client.put_object

  unfoldable pub delete : String → B → B
  delete = client.delete_object

  unfoldable pub exists : String → B → Bool
  exists = client.head_object

  unfoldable pub open_local : String → B → Option Text
  open_local = client.download_file

  -- A bucket does what a storage promises.
  r2_storage : Storage B
  unfolding save delete exists open_local
  r2_storage = record {
    save = save;
    delete = delete;
    exists = exists;
    open_local = open_local;
    open_local-save = client.download_file-put_object;
    open_local-delete = client.download_file-delete_object;
    exists_iff = client.head_object_iff;
  }
