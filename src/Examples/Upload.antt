-- ===== src/Examples/Upload.antt =====
-- Two users and their documents at the routes.
use text.Mathlib.Text.{◌==◌ as str_eq}
use text.Mathlib.TextEquality.{eq_iff}
use chat_doc.Auth.{token_is, create_session, create_user, PasswordHasher}
use chat_doc.Database.{Database, DocumentRow, DocumentStatus, Stage, reply}
use chat_doc.Storage.LocalStorage.{Files, local_storage}
use chat_doc.Routes.{upload_doc, open_query, get_doc_file, login, get_doc, delete_doc, register}
use chat_doc.Documents.{get_document}
use chat_doc.Routes.Owners.{stranger_sees_nothing, delete_doc-Erased, Erased, is_reply}
use chat_doc.Routes.Accounts.{register-login, AccountOf}
use chat_doc.Csrf.{verify_csrf}
use chat_doc.Routes.Uploads.{upload_doc-Uploaded, Uploaded}
use chat_doc.Jobs.{max_queue_depth, queue_depth}
use chat_doc.Prelude.{[], any, arith, codes, false, lower, none, refl, some, true, ℕ, ◌<◌, ◌∷◌, ◌≡◌}

abbrev mine : DocumentRow
mine = record {
  id = 7;
  user_id = some 1;
  doc_name = "user1_ab";
  display_name = some "report.pdf";
  source_path = "user1_ab.pdf";
  page_count = 3;
  status = DocumentStatus.ready;
  error = none;
  stage = some Stage.done;
  stage_current = 0;
  stage_total = 0;
  chunk_count = 9;
  created_at = 100;
}

abbrev site : Database ℕ
site = record {
  users = [];
  sessions = [];
  documents = mine ∷ [];
  jobs = [];
  chunks = record { document_id = 7; chunk_index = 0; content = 0 } ∷ [];
  next_user_id = 1;
  next_document_id = 8;
  next_job_id = 1;
}

abbrev blobs : Files
blobs = ("user1_ab.pdf", codes "%PDF") ∷ []

stranger_sees_nothing_example :
    (is_reply (get_doc 2 7 site) ≡ false)
    × (is_reply (get_doc_file Files local_storage 2 7 (site, blobs)) ≡ false)
    × (is_reply (open_query (some "t") (some "t") 2 7 site) ≡ false)
    × (is_reply (delete_doc Files local_storage 2 7 (some "t") (some "t") (site, blobs)).0 ≡ false)
    × ((delete_doc Files local_storage 2 7 (some "t") (some "t") (site, blobs)).1 ≡ (site, blobs))
stranger_sees_nothing_example =
    stranger_sees_nothing Files local_storage 2 7 (some "t") (some "t") site blobs (refl, tt)

token_accepted : verify_csrf (some "t") (some "t") ≡ true
unfolding verify_csrf
token_accepted = refl

mine-found : get_document 1 7 site ≡ some mine
unfolding get_document
mine-found = refl

delete_doc-Erased_example :
    let r = delete_doc Files local_storage 1 7 (some "t") (some "t") (site, blobs) in
    (r.0 ≡ reply true) × Erased Files local_storage 1 7 "user1_ab.pdf" r.1
delete_doc-Erased_example =
    delete_doc-Erased Files local_storage 1 7 (some "t") (some "t") site blobs mine token_accepted
      mine-found

-- A hasher without secrets.
abbrev plain_hasher : PasswordHasher
plain_hasher = record {
  hash = λ salt password. password;
  verify = λ stored password. str_eq stored password;
  verify_hash = λ salt password. (eq_iff password password).1 refl;
}

second_token_free :
    any
      (token_is "u")
      (register plain_hasher "" 100 (codes "A@b.c") "secret12" "t" "x" site).1.sessions
    ≡ false
unfolding register create_user create_session
second_token_free = refl

register-login_example :
    AccountOf
      (codes "A@b.c")
      (register plain_hasher "" 100 (codes "A@b.c") "secret12" "t" "x" site).0
      1
    × AccountOf
        (codes "a@B.c")
        (login plain_hasher 200
          (codes "a@B.c")
          "secret12"
          "u"
          "y"
          (register plain_hasher "" 100 (codes "A@b.c") "secret12" "t" "x" site).1).0
        1
unfolding lower
register-login_example =
    register-login plain_hasher "" 100 200 (codes "A@b.c") (codes "a@B.c") "secret12" "t" "x" "u"
      "y" site refl refl refl second_token_free

abbrev no_blobs : Files
no_blobs = []

site-room : queue_depth site < max_queue_depth
unfolding queue_depth
site-room = omega arith

upload_doc-Uploaded_example : Uploaded Files local_storage 2 "user2_cd.pdf" (codes "%PDF") site (
    upload_doc Files local_storage 300 2
      (some "t")
      (some "t")
      "user2_cd"
      "user2_cd.pdf"
      "application/pdf"
      none
      (codes "%PDF")
      (site, no_blobs))
upload_doc-Uploaded_example =
    upload_doc-Uploaded Files local_storage 300 2 (some "t") (some "t") "user2_cd" "user2_cd.pdf"
      "application/pdf" none (codes "%PDF") site no_blobs token_accepted refl site-room
      (omega arith) refl (omega arith)
