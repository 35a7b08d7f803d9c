-- ===== src/Routes/Accounts.antt =====
-- Registration, login and logout (api/routes_auth.py) as one story.
use chat_doc.Auth.{
  token_is, email_is, PasswordHasher, create_user, create_session, get_user_by_email,
}
use chat_doc.Database.{Database, Http, UserRow, http_error, reply}
use chat_doc.Routes.{session_opened, Account, register, login}
use chat_doc.Prelude.{
  ==_iff, String, Text, [], any, any-last, false, find-last, lower, refl, some, text_eq_refl, true,
  ℕ, ◌++◌, ◌+◌, ◌==◌, ◌∷◌, ◌≡◌,
}

-- What a registration of a new address leaves: the user's row, and its first session.
abbrev pub AccountOf : Text → Http Account → ℕ → Type 0
AccountOf email (reply account) id = (account.id ≡ id) × (account.email ≡ lower email)
AccountOf email (http_error code detail) id = ⊥

module _ {C : Type 0} (hasher : PasswordHasher) where
  registered_row : Database C → String → Text → String → UserRow
  registered_row db salt email password = record {
    id = db.next_user_id;
    email = lower email;
    password_hash = hasher.hash salt password;
  }

  open_session :
      (token csrf : String) (now user_id : ℕ) (email : Text) (db : Database C)
      → any (token_is token) db.sessions ≡ false
      → any (λ u. u.id == user_id) db.users ≡ true
      → AccountOf email
          (session_opened user_id email csrf (create_session token now user_id db)).0
          user_id
        × ((session_opened user_id email csrf (create_session token now user_id db)).1.users
            ≡ db.users)
  unfolding create_session
  open_session token csrf now user_id email db free known = rw (free, known) ((refl, refl), refl)

  login-known :
      (token csrf : String) (now : ℕ) (email : Text) (password : String) (user : UserRow)
      (db : Database C)
      → get_user_by_email email db ≡ some user
      → hasher.verify user.password_hash password ≡ true
      → any (token_is token) db.sessions ≡ false
      → any (λ u. u.id == user.id) db.users ≡ true
      → AccountOf email (login hasher now email password token csrf db).0 user.id
  unfolding login
  login-known token csrf now email password user db found right free known =
      rw (found, login, right) ((open_session token csrf now user.id email db free known).0)

  -- Whoever registers with a new address can log in: with the same password, the address in any
  -- case, and a token that no session has, the login answers the user that the registration made.
  pub register-login :
      (salt : String) (now later : ℕ) (email typed : Text)
      (password token csrf token' csrf' : String) (db : Database C)
      → any (email_is (lower email)) db.users ≡ false
      → lower typed ≡ lower email
      → any (token_is token) db.sessions ≡ false
      → any (token_is token') (register hasher salt now email password token csrf db).1.sessions
        ≡ false
      → AccountOf email (register hasher salt now email password token csrf db).0 db.next_user_id
        × AccountOf typed
            (login hasher later typed password token' csrf'
              (register hasher salt now email password token csrf db).1).0
            db.next_user_id
  unfolding register create_user registered_row get_user_by_email
  register-login salt now later email typed password token csrf token' csrf' db new same t1 t2 =
      let row = registered_row db salt email password in
      let known : any (λ u. u.id == db.next_user_id) (db.users ++ row ∷ []) ≡ true =
        any-last (λ u. u.id == db.next_user_id) db.users row
          ((==_iff db.next_user_id db.next_user_id).1 refl) in
      let made : Database C = record db {
        users = db.users ++ row ∷ [];
        next_user_id = db.next_user_id + 1;
      } in
      let (account, users_same) = open_session token csrf now db.next_user_id email made t1 known in
      let after = (register hasher salt now email password token csrf db).1 in
      let users : after.users ≡ db.users ++ row ∷ [] = rw new users_same in
      let found : get_user_by_email typed after ≡ some row =
        rw (users, same, get_user_by_email)
          (find-last (email_is (lower email)) db.users row new (text_eq_refl (lower email))) in
      (
        rw new account,
        login-known token' csrf' later typed password row after found
            (hasher.verify_hash salt password) t2 (rw users known),
      )
