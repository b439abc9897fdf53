-- ===== src/Mcp/Examples.antt =====
-- The session theorems at two sessions, of which one is closed.
use eaim.Base.{ℕ, List, [], ◌∷◌, some, Bool, false, true, In, ◌==◌, ◌≡◌, ◌↔◌}
use eaim.Base.Text.{codes}
use eaim.Mcp.Sessions.{close_where, Session, SessionManager, new_session_manager}
use eaim.Mcp.Closing.{close_where-closes}
use eaim.Mcp.Unique.{Event, creates, run, run-IsMap}

abbrev opened : List (Event ℕ)
opened = creates (some (codes "a")) 0 9 1 ∷ creates (some (codes "b")) 0 9 2 ∷ []

abbrev manager : SessionManager ℕ
manager = run opened new_session_manager

abbrev of_first : Session ℕ → Bool
of_first x = x.claims == 1

abbrev second_session : Session ℕ
second_session = record { id = codes "b"; claims = 2 }

close_where-closes_example :
    (In second_session (close_where of_first manager).1.sessions
      ↔ (In second_session manager.sessions × (of_first second_session ≡ false)))
    × (In second_session manager.sessions
        → of_first second_session ≡ true
        → In second_session.id (close_where of_first manager).1.cancelled)
close_where-closes_example = close_where-closes of_first manager second_session (run-IsMap opened)
