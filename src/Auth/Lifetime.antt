-- ===== src/Auth/Lifetime.antt =====
-- The absolute limit of a session over whole runs (api/auth.py ABSOLUTE_SESSION_TTL).
use text.Mathlib.Text.{◌==◌ as str_eq}
use text.Mathlib.TextEquality.{eq_iff}
use chat_doc.Database.{SessionRow, Database, Http, reply, http_error}
use chat_doc.Auth.{
  ok, session_ttl, absolute_session_ttl, token_is, session_expired, create_session, delete_session,
  get_current_user_id,
}
use chat_doc.Auth.Sessions.{accepted, unknown, touched, refused}
use chat_doc.Prelude.{
  All, All-append, All-find, All-imp, All-select, All-update_where, Bool-cases, List, Option-cases,
  String, [], any, any-false, arith, false, find, find_passes, inl, inr, min, not, refl, some,
  subst, sym, true, ℕ, ◌+◌, ◌==◌, ◌∙◌, ◌∷◌, ◌≡◌, ◌≤◌,
}

-- What users do with sessions: log in with a new token, make a request, log out.
pub data Use : Type 0 where
  login : String → ℕ → Use
  request : String → Use
  logout : String → Use

-- The requests that a run accepts: when, with which token, as which user.
abbrev pub accepts : ℕ → String → Http ℕ → List (ℕ × String × ℕ) → List (ℕ × String × ℕ)
accepts now token (reply user) rest = (now, token, user) ∷ rest
accepts now token (http_error status detail) rest = rest

module _ {C : Type 0} where
  unfoldable pub use_sessions : List (ℕ × Use) → Database C → List (ℕ × String × ℕ)
  use_sessions [] db = []
  use_sessions ((now, login token user) ∷ rest) db =
      use_sessions rest (create_session token now user db).1
  use_sessions ((now, request token) ∷ rest) db =
      accepts now token (get_current_user_id (some token) now db).0
        (use_sessions rest (get_current_user_id (some token) now db).1)
  use_sessions ((now, logout token) ∷ rest) db = use_sessions rest (delete_session token db)

-- The row is not the token's, or it belongs to the user and was created by `start` at the latest.
abbrev pub BornBy : String → ℕ → ℕ → SessionRow → Type 0
BornBy token user start s = token_is token s ≡ true → (s.user_id ≡ user) × (s.created_at ≤ start)

-- The run does not log in again with the same token.
abbrev pub Fresh : String → ℕ × Use → Type 0
Fresh token (now, login t user) = str_eq t token ≡ false
Fresh token (now, u) = Unit

module _ {C : Type 0} (token : String) (user start : ℕ) where
  request-BornBy :
      (t : String) (now : ℕ) (db : Database C)
      → All (BornBy token user start) db.sessions
      → All (BornBy token user start) (get_current_user_id (some t) now db).1.sessions
  unfolding touched delete_session
  request-BornBy t now db h = elim (Option-cases (find (token_is t) db.sessions)) [
    | inl n ↦ rw (unknown t now db n) h
    | inr (s, f) ↦ elim (Bool-cases (session_expired now s)) [
      | inl dead ↦
          rw (refused t now db s f dead)
            (All-select (BornBy token user start) (λ r. not (token_is t r)) db.sessions h)
      | inr live ↦ rw (accepted t now db s f live) (
          All-update_where (BornBy token user start) (token_is t)
            (λ r. record r {
              expires_at = min (now + session_ttl) (s.created_at + absolute_session_ttl);
            })
            (λ r e hr. hr) db.sessions h)
    ]
  ]

  create-BornBy :
      (t : String) (now u : ℕ) (db : Database C)
      → str_eq t token ≡ false
      → All (BornBy token user start) db.sessions
      → All (BornBy token user start) (create_session t now u db).1.sessions
  unfolding create_session
  create-BornBy t now u db fresh h = elim (Bool-cases (any (token_is t) db.sessions)) [
    | inl taken ↦ rw taken h
    | inr free ↦ elim (Bool-cases (any (λ r. r.id == u) db.users)) [
      | inl known ↦
          rw (free, known) (All-append (BornBy token user start) db.sessions _ h ((λ is. cc), tt))
      | inr nobody ↦ rw (free, nobody) h
    ]
  ]

  accepted-BornBy :
      (now u : ℕ) (db : Database C)
      → All (BornBy token user start) db.sessions
      → (get_current_user_id (some token) now db).0 ≡ reply u
      → (u ≡ user) × (now ≤ start + absolute_session_ttl)
  unfolding session_expired
  accepted-BornBy now u db h e = elim (Option-cases (find (token_is token) db.sessions)) [
    | inl n ↦ cc (rw (unknown token now db n) at e)
    | inr (s, f) ↦ elim (Bool-cases (session_expired now s)) [
      | inl dead ↦ cc (rw (refused token now db s f dead) at e)
      | inr live ↦
          let born =
            All-find (BornBy token user start) (token_is token) db.sessions h f
              (find_passes (token_is token) db.sessions f) in
          let same : s.user_id ≡ u = ground (arith, rw (accepted token now db s f live) at e) in
          (sym same ∙ born.0, ground arith)
    ]
  ]

-- The entry is of another token, or it is the user's and not later than 14 days after `start`.
abbrev pub Bounded : String → ℕ → ℕ → ℕ × String × ℕ → Type 0
Bounded token user start (now, t, u) =
    str_eq t token ≡ true → (u ≡ user) × (now ≤ start + absolute_session_ttl)

accepts-Bounded :
    (token : String) (user start now : ℕ) (t : String) (r : Http ℕ) (rest : List (ℕ × String × ℕ))
    → ((u : ℕ)
        → r ≡ reply u
        → str_eq t token ≡ true
        → (u ≡ user) × (now ≤ start + absolute_session_ttl))
    → All (Bounded token user start) rest
    → All (Bounded token user start) (accepts now t r rest)
accepts-Bounded token user start now t (reply u) rest f h = (f u refl, h)
accepts-Bounded token user start now t (http_error status detail) rest f h = h

uses-Bounded :
    {C : Type 0} (token : String) (user start : ℕ) (run : List (ℕ × Use)) (db : Database C)
    → All (BornBy token user start) db.sessions
    → All (Fresh token) run
    → All (Bounded token user start) (use_sessions run db)
unfolding use_sessions delete_session
uses-Bounded token user start [] db h f = tt
uses-Bounded token user start ((now, login t u) ∷ run) db h (f, fs) =
    uses-Bounded token user start run _ (create-BornBy token user start t now u db f h) fs
uses-Bounded token user start ((now, request t) ∷ run) db h (f, fs) =
    accepts-Bounded token user start now t (get_current_user_id (some t) now db).0 _
      (λ u e is.
        accepted-BornBy token user start now u db h (
          subst (λ x. (get_current_user_id (some x) now db).0 ≡ reply u) ((eq_iff t token).0 is) e))
      (uses-Bounded token user start run _ (request-BornBy token user start t now db h) fs)
uses-Bounded token user start ((now, logout t) ∷ run) db h (f, fs) =
    uses-Bounded token user start run _
      (All-select (BornBy token user start) (λ s. not (token_is t s)) db.sessions h) fs

created-BornBy :
    {C : Type 0} (token : String) (user start : ℕ) (db : Database C) (r : String × ℕ)
    → (create_session token start user db).0 ≡ ok r
    → All (BornBy token user start) (create_session token start user db).1.sessions
unfolding create_session
created-BornBy token user start db r e = elim (Bool-cases (any (token_is token) db.sessions)) [
  | inl taken ↦ cc (rw taken at e)
  | inr free ↦ elim (Bool-cases (any (λ u. u.id == user) db.users)) [
    | inl known ↦
        rw (free, known)
          (All-append (BornBy token user start) db.sessions _
            (All-imp (λ s. token_is token s ≡ false) (BornBy token user start) (λ s no is. cc)
              db.sessions (any-false (token_is token) db.sessions free))
            ((λ is. (refl, omega arith)), tt))
    | inr nobody ↦ cc (rw (free, nobody) at e)
  ]
]

-- A session never outlives 14 days and never changes hands: after a login, whatever requests,
-- logins and logouts follow in a run that does not reuse its token, every accepted request with
-- the token is its user's and comes at most 14 days after the login.
pub session_lifetime :
    {C : Type 0} (token : String) (user start : ℕ) (run : List (ℕ × Use)) (db : Database C)
    (r : String × ℕ)
    → (create_session token start user db).0 ≡ ok r
    → All (Fresh token) run
    → All (Bounded token user start) (use_sessions run (create_session token start user db).1)
session_lifetime token user start run db r e =
    uses-Bounded token user start run _ (created-BornBy token user start db r e)
