-- ===== src/Mcp/Sessions.antt =====
-- The session manager of eami-gateway/internal/mcp/session.go. The mutex makes each access to the
-- table one step; the contexts of the sessions, which others hold too, are the cancelled IDs.
use eaim.Base.{
  ℕ, List, [], ◌∷◌, Option, none, some, Bool, not, leb, if◌then◌else◌, Result, ok, err, length,
  keep, map,
}
use eaim.Base.Text.{Text, text_eq}

-- A session with its claims and its agent, which the manager does not look into.
pub record Session (C : Type 0) : Type 0 where
  pub id : Text
  pub claims : C

pub record SessionManager (C : Type 0) : Type 0 where
  pub sessions : List (Session C)
  pub cancelled : List Text

pub data CreateError : Type 0 where
  no_random_id : CreateError
  token_expired : CreateError

module _ {C : Type 0} where
  unfoldable pub new_session_manager : SessionManager C
  new_session_manager = record { sessions = []; cancelled = [] }

  unfoldable pub without : Text → List (Session C) → List (Session C)
  without id = keep (λ (x : Session C). not (text_eq x.id id))

  unfoldable pub get : Text → List (Session C) → Option (Session C)
  get id [] = none
  get id (x ∷ xs) = if text_eq x.id id then some x else get id xs

  -- Create, with the ID that the random source gives, if any. The list of the sessions stands for
  -- the map from their IDs, in which a write replaces the session of the same ID: hence `without`.
  unfoldable pub create :
      Option Text → ℕ → ℕ → C → SessionManager C → Result CreateError (Session C) × SessionManager C
  unfolding without
  create none now token_expiry claims m = (err no_random_id, m)
  create (some id) now token_expiry claims m =
      if leb token_expiry now then (err token_expired, m) else (
        ok (record { id = id; claims = claims }),
        record m { sessions = record { id = id; claims = claims } ∷ without id m.sessions },
      )

  -- Close: the session is removed and its context cancelled, if it is there.
  unfoldable pub close : Text → SessionManager C → SessionManager C
  unfolding get without
  close id m = elim (get id m.sessions) [
    | none ↦ m
    | some x ↦ record { sessions = without id m.sessions; cancelled = id ∷ m.cancelled }
  ]

  unfoldable pub close_each : List Text → SessionManager C → SessionManager C
  unfolding close
  close_each [] m = m
  close_each (id ∷ ids) m = close_each ids (close id m)

  -- CloseWhere: the hits are collected first and then closed one by one; the number of hits.
  unfoldable pub close_where : (Session C → Bool) → SessionManager C → ℕ × SessionManager C
  unfolding close_each
  close_where match m =
      let hit = map (λ (x : Session C). x.id) (keep match m.sessions) in
      (length hit, close_each hit m)

  -- The context of a session ends at the expiry of its token; its goroutine then removes it.
  unfoldable pub expire : Text → SessionManager C → SessionManager C
  expire id m = record m { cancelled = id ∷ m.cancelled }

  unfoldable pub remove : Text → SessionManager C → SessionManager C
  unfolding without
  remove id m = record m { sessions = without id m.sessions }

  unfoldable pub snapshot : SessionManager C → List (Session C)
  snapshot m = m.sessions

  unfoldable pub count : SessionManager C → ℕ
  count m = length m.sessions
