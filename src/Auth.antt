-- ===== src/Auth.antt =====
-- api/auth.py and api/deps.py: users, sessions and the login of a request. `now` is the reading of
-- the clock that the statement and the code around it see. A random token or salt is an argument.
pub mod Sessions
pub mod Lifetime
use text.Mathlib.Text.{◌==◌ as str_eq}
use chat_doc.Database.{
  UserRow, SessionRow, Database, Result, ok, raised, unique, foreign_key, Http, reply, http_error,
}
use chat_doc.Prelude.{
  Bool, Option, String, Text, [], any, find, if◌then◌else◌, lower, ltb, min, none, not, select,
  some, text_eq, true, update_where, ℕ, ◌++◌, ◌+◌, ◌==◌, ◌||◌, ◌∷◌, ◌≡◌,
}

-- 12 hours and 14 days.
abbrev pub session_ttl : ℕ
session_ttl = 43_200

abbrev pub absolute_session_ttl : ℕ
absolute_session_ttl = 1_209_600

-- argon2's PasswordHasher: `verify` accepts the password that was hashed, whatever the salt.
pub record PasswordHasher : Type 0 where
  pub hash : String → String → String
  pub verify : String → String → Bool
  pub verify_hash : (salt password : String) → verify (hash salt password) password ≡ true

abbrev pub token_is : String → SessionRow → Bool
token_is token s = str_eq s.id token

abbrev pub email_is : Text → UserRow → Bool
email_is email u = text_eq u.email email

-- `expires_at < now or created_at + ABSOLUTE_SESSION_TTL < now`
unfoldable pub session_expired : ℕ → SessionRow → Bool
session_expired now s = ltb s.expires_at now || ltb (s.created_at + absolute_session_ttl) now

module _ {C : Type 0} where
  unfoldable pub create_user :
      PasswordHasher → String → Text → String → Database C → Result ℕ × Database C
  create_user hasher salt email password db =
      if any (email_is (lower email)) db.users then (raised unique, db) else (
        ok db.next_user_id,
        record db {
          users =
              db.users
              ++ record {
                id = db.next_user_id;
                email = lower email;
                password_hash = hasher.hash salt password;
              }
                ∷ [];
          next_user_id = db.next_user_id + 1;
        },
      )

  unfoldable pub get_user_by_email : Text → Database C → Option UserRow
  get_user_by_email email db = find (email_is (lower email)) db.users

  unfoldable pub create_session : String → ℕ → ℕ → Database C → Result (String × ℕ) × Database C
  create_session token now user_id db =
      if any (token_is token) db.sessions
      then (raised unique, db)
      else if any (λ u. u.id == user_id) db.users
      then (
        ok (token, now + session_ttl),
        record db {
          sessions =
              db.sessions
              ++ record {
                id = token;
                user_id = user_id;
                expires_at = now + session_ttl;
                created_at = now;
              }
                ∷ [];
        },
      )
      else (raised foreign_key, db)

  unfoldable pub delete_session : String → Database C → Database C
  delete_session token db = record db {
    sessions = select (λ s. not (token_is token s)) db.sessions;
  }

  unfoldable pub get_session_user : String → ℕ → Database C → Option ℕ × Database C
  unfolding delete_session
  get_session_user token now db = elim (find (token_is token) db.sessions) [
    | none ↦ (none, db)
    | some s ↦
        if session_expired now s then (none, delete_session token db) else (some s.user_id, db)
  ]

  unfoldable pub touch_session : String → ℕ → Database C → Option ℕ × Database C
  touch_session token now db = elim (find (token_is token) db.sessions) [
    | none ↦ (none, db)
    | some s ↦
        let expires_at = min (now + session_ttl) (s.created_at + absolute_session_ttl) in
        (
          some expires_at,
          record db {
            sessions =
                update_where (token_is token) (λ r. record r { expires_at = expires_at })
                  db.sessions;
          },
        )
  ]

  -- The rest of the dependency, once the session has been looked up.
  unfoldable pub admit : String → ℕ → Option ℕ × Database C → Http ℕ × Database C
  admit token now (none, db) = (http_error 401 "session expired", db)
  admit token now (some user_id, db) = (reply user_id, (touch_session token now db).1)

  -- api/deps.py: the user of a request, from its session cookie.
  unfoldable pub get_current_user_id : Option String → ℕ → Database C → Http ℕ × Database C
  unfolding admit
  get_current_user_id none now db = (http_error 401 "not authenticated", db)
  get_current_user_id (some token) now db = admit token now (get_session_user token now db)
