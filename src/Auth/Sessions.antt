-- ===== src/Auth/Sessions.antt =====
-- When a session is live (api/auth.py get_session_user, touch_session, delete_session).
use chat_doc.Database.{SessionRow, Database, reply, http_error}
use chat_doc.Auth.{
  session_ttl, absolute_session_ttl, token_is, session_expired, get_session_user, touch_session,
  delete_session, get_current_user_id, admit,
}
use chat_doc.Prelude.{
  Bool-cases, List, String, [], ap, arith, false, find, inl, inr, min, none, some, true,
  update_where, ℕ, ◌+◌, ◌↔◌, ◌∙◌, ◌∷◌, ◌≡◌, ◌≤◌,
}

find-update_token :
    (token : String) (t : ℕ) (rows : List SessionRow) {s : SessionRow}
    → find (token_is token) rows ≡ some s
    → find (token_is token) (update_where (token_is token) (λ r. record r { expires_at = t }) rows)
      ≡ some (record s { expires_at = t })
find-update_token token t [] e = cc
find-update_token token t (r ∷ rows) {s = s} e = elim (Bool-cases (token_is token r)) [
  | inl is ↦ ground arith
  | inr other ↦ ground (arith, find-update_token token t rows {s = s})
]

module _ {C : Type 0} (token : String) (now : ℕ) (db : Database C) where
  -- A request is accepted exactly if its token names a session that has neither idled out nor
  -- passed the absolute limit.
  pub current_user_iff :
      (s : SessionRow)
      → find (token_is token) db.sessions ≡ some s
      → ((get_current_user_id (some token) now db).0 ≡ reply s.user_id)
        ↔ ((now ≤ s.expires_at) × (now ≤ s.created_at + absolute_session_ttl))
  unfolding get_current_user_id get_session_user session_expired
  current_user_iff s e = ground arith

  pub unknown :
      find (token_is token) db.sessions ≡ none
      → get_current_user_id (some token) now db ≡ (http_error 401 "session expired", db)
  unfolding get_current_user_id get_session_user
  unknown e = rw (e, get_session_user)

  live_session :
      (s : SessionRow)
      → find (token_is token) db.sessions ≡ some s
      → session_expired now s ≡ false
      → get_session_user token now db ≡ (some s.user_id, db)
  unfolding get_session_user
  live_session s e live = rw (e, get_session_user) (rw live)

  dead_session :
      (s : SessionRow)
      → find (token_is token) db.sessions ≡ some s
      → session_expired now s ≡ true
      → get_session_user token now db ≡ (none, delete_session token db)
  unfolding get_session_user
  dead_session s e dead = rw (e, get_session_user) (rw dead)

  -- The sessions after a request that is accepted: its own row has the new expiry.
  unfoldable pub touched : SessionRow → List SessionRow
  touched s =
      update_where (token_is token)
        (λ r. record r {
          expires_at = min (now + session_ttl) (s.created_at + absolute_session_ttl);
        })
        db.sessions

  touch_live :
      (s : SessionRow)
      → find (token_is token) db.sessions ≡ some s
      → (touch_session token now db).1 ≡ record db { sessions = touched s }
  unfolding touch_session touched
  touch_live s e = rw (e, touch_session)

  pub accepted :
      (s : SessionRow)
      → find (token_is token) db.sessions ≡ some s
      → session_expired now s ≡ false
      → get_current_user_id (some token) now db
        ≡ (reply s.user_id, record db { sessions = touched s })
  unfolding get_current_user_id
  accepted s e live =
      ap (admit token now) (live_session s e live) ∙ ap (λ d. (reply s.user_id, d)) (touch_live s e)

  pub refused :
      (s : SessionRow)
      → find (token_is token) db.sessions ≡ some s
      → session_expired now s ≡ true
      → get_current_user_id (some token) now db
        ≡ (http_error 401 "session expired", delete_session token db)
  unfolding get_current_user_id
  refused s e dead = ap (admit token now) (dead_session s e dead)

  -- The row that an accepted request leaves behind: its idle window starts again at `now`, but
  -- never reaches past the absolute limit.
  accepted_row :
      (s : SessionRow)
      → find (token_is token) db.sessions ≡ some s
      → (get_current_user_id (some token) now db).0 ≡ reply s.user_id
      → find (token_is token) (get_current_user_id (some token) now db).1.sessions
        ≡ some (record s {
          expires_at = min (now + session_ttl) (s.created_at + absolute_session_ttl);
        })
  unfolding touched
  accepted_row s e ok = elim (Bool-cases (session_expired now s)) [
    | inl dead ↦ cc (rw (refused s e dead) at ok)
    | inr live ↦ rw (accepted s e live) (find-update_token token _ db.sessions e)
  ]

-- After a request that was accepted at `now`, one at a later time is accepted exactly if no more
-- than 12 hours have passed since, and no more than 14 days since the login.
pub sliding_window_exact :
    {C : Type 0} (token : String) (now later : ℕ) (db : Database C) (s : SessionRow)
    → find (token_is token) db.sessions ≡ some s
    → (get_current_user_id (some token) now db).0 ≡ reply s.user_id
    → ((get_current_user_id (some token) later (get_current_user_id (some token) now db).1).0
        ≡ reply s.user_id)
      ↔ ((later ≤ now + session_ttl) × (later ≤ s.created_at + absolute_session_ttl))
sliding_window_exact token now later db s e ok =
    let iff =
      current_user_iff token later (get_current_user_id (some token) now db).1 _
        (accepted_row token now db s e ok) in
    ((λ h. let b = iff.0 h in omega arith), (λ h. iff.1 (omega arith)))
