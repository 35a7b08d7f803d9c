-- ===== src/Database.antt =====
-- The tables of db/schema.sql as lists of rows in order of insertion. A statement that runs in its
-- own transaction (every connection is in autocommit mode, ingest/db.py get_conn) is one function
-- on the database; times are seconds.
use chat_doc.Prelude.{List, Option, String, Text, ℕ}

pub data DocumentStatus : Type 0 where
  processing ready failed : DocumentStatus

pub data JobStatus : Type 0 where
  queued processing done failed : JobStatus

-- The CHECK on documents.stage.
pub data Stage : Type 0 where
  queued reading chunking embedding indexing done : Stage

pub record UserRow : Type 0 where
  pub id : ℕ
  pub email : Text
  pub password_hash : String

pub record SessionRow : Type 0 where
  pub id : String
  pub user_id : ℕ
  pub expires_at : ℕ
  pub created_at : ℕ

pub record DocumentRow : Type 0 where
  pub id : ℕ
  pub user_id : Option ℕ
  pub doc_name : String
  pub display_name : Option String
  pub source_path : String
  pub page_count : ℕ
  pub status : DocumentStatus
  pub error : Option Text
  pub stage : Option Stage
  pub stage_current : ℕ
  pub stage_total : ℕ
  pub chunk_count : ℕ
  pub created_at : ℕ

pub record JobRow : Type 0 where
  pub id : ℕ
  pub document_id : ℕ
  pub doc_key : String
  pub pdf_path : String
  pub status : JobStatus
  pub attempts : ℕ
  pub max_attempts : ℕ
  pub visible_at : ℕ
  pub last_error : Option Text
  pub created_at : ℕ

-- A row of chunks: the columns that the statements test, and the rest as one value.
pub record ChunkRow (C : Type 0) : Type 0 where
  pub document_id : ℕ
  pub chunk_index : ℕ
  pub content : C

pub record Database (C : Type 0) : Type 0 where
  pub users : List UserRow
  pub sessions : List SessionRow
  pub documents : List DocumentRow
  pub jobs : List JobRow
  pub chunks : List (ChunkRow C)
  pub next_user_id : ℕ
  pub next_document_id : ℕ
  pub next_job_id : ℕ

-- The constraints whose violation the code meets as an exception.
pub data Violation : Type 0 where
  unique foreign_key : Violation

pub data Result (A : Type 0) : Type 0 where
  ok : A → Result A
  raised : Violation → Result A

-- What a route returns: a value, or the status and detail of an HTTPException.
pub data Http (A : Type 0) : Type 0 where
  reply : A → Http A
  http_error : ℕ → String → Http A
