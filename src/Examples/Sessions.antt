-- ===== src/Examples/Sessions.antt =====
-- A user who logs in, works, and stays away.
use chat_doc.Auth.Lifetime.{session_lifetime, use_sessions, Use, Bounded}
use chat_doc.Database.{Database, SessionRow, ok, reply}
use chat_doc.Auth.{
  session_expired, admit, touch_session, session_ttl, get_session_user, absolute_session_ttl,
  get_current_user_id, create_session,
}
use chat_doc.Auth.Sessions.{sliding_window_exact}
use chat_doc.Prelude.{All, List, [], codes, refl, some, ℕ, ◌+◌, ◌↔◌, ◌∷◌, ◌≡◌, ◌≤◌}

abbrev start : Database ℕ
start = record {
  users = record { id = 1; email = codes "a@b.c"; password_hash = "h" } ∷ [];
  sessions = [];
  documents = [];
  jobs = [];
  chunks = [];
  next_user_id = 2;
  next_document_id = 1;
  next_job_id = 1;
}

abbrev session : SessionRow
session = record { id = "t"; user_id = 1; expires_at = 43_300; created_at = 100 }

abbrev logged_in : Database ℕ
logged_in = record start { sessions = session ∷ [] }

logs_in : (create_session "t" 100 1 start).0 ≡ ok ("t", 43_300)
unfolding create_session
logs_in = refl

first_request : (get_current_user_id (some "t") 200 logged_in).0 ≡ reply 1
unfolding get_current_user_id get_session_user touch_session admit session_expired
first_request = refl

sliding_window_exact_example :
    ((get_current_user_id (some "t") 50_000 (get_current_user_id (some "t") 200 logged_in).1).0
      ≡ reply 1)
    ↔ ((50_000 ≤ 200 + session_ttl) × (50_000 ≤ 100 + absolute_session_ttl))
sliding_window_exact_example =
    sliding_window_exact "t" 200 50_000 logged_in session refl first_request

abbrev long_run : List (ℕ × Use)
long_run =
    (40_000, Use.request "t")
    ∷ (50_000, Use.login "u" 1)
    ∷ (80_000, Use.request "t")
    ∷ (2_000_000, Use.request "t")
    ∷ []

session_lifetime_example :
    All (Bounded "t" 1 100) (use_sessions long_run (create_session "t" 100 1 start).1)
session_lifetime_example =
    session_lifetime "t" 1 100 long_run start ("t", 43_300) logs_in (tt, (refl, (tt, (tt, tt))))
