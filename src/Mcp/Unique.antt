-- ===== src/Mcp/Unique.antt =====
-- The list of sessions stands for a map from their IDs: under any operations it holds no ID twice.
use eaim.Base.{
  map, keep, ℕ, List, [], ◌∷◌, Option, none, some, Bool, true, false, Bool-cases, leb, In, ◌≡◌, sym,
  ap, ◌∙◌, subst, inl, inr,
}
use eaim.Base.Text.{Text, text_eq, text_eq_refl}
use eaim.Mcp.Sessions.{
  Session, SessionManager, without, create, close_each, close_where, new_session_manager, remove,
  expire,
}
use eaim.Mcp.Closing.{IsMap, In-without, In-close_each}

-- What can happen to the manager: a call, or the end of a session's context at its expiry.
pub data Event (C : Type 0) : Type 0 where
  creates : Option Text → ℕ → ℕ → C → Event C
  closes : List Text → Event C
  closes_where : (Session C → Bool) → Event C
  expires : Text → Event C
  removes : Text → Event C

module _ {C : Type 0} where
  unfoldable pub step : Event C → SessionManager C → SessionManager C
  step (creates id now expiry claims) m = (create id now expiry claims m).1
  step (closes ids) m = close_each ids m
  step (closes_where match) m = (close_where match m).1
  step (expires id) m = expire id m
  step (removes id) m = remove id m

  unfoldable pub run : List (Event C) → SessionManager C → SessionManager C
  unfolding step
  run [] m = m
  run (e ∷ es) m = run es (step e m)

  fewer : (xs ys : List (Session C)) → ((x : Session C) → In x ys → In x xs) → IsMap xs → IsMap ys
  fewer xs ys f d x y i j e = d x y (f x i) (f y j) e

  add-IsMap :
      (id : Text) (c : C) (xs : List (Session C))
      → IsMap xs
      → IsMap (record { id = id; claims = c } ∷ without id xs)
  add-IsMap id c xs d x y (inl p) (inl q) e = sym p ∙ q
  add-IsMap id c xs d x y (inr i) (inr j) e =
      d x y ((In-without id xs x).0 i).0 ((In-without id xs y).0 j).0 e
  add-IsMap id c xs d x y (inl p) (inr j) e =
      absurd (clash y ((In-without id xs y).0 j).1 (sym e ∙ sym (ap (λ (z : Session C). z.id) p)))
    where
      clash : (z : Session C) → text_eq z.id id ≡ false → z.id ≡ id → ⊥
      clash z h q =
          let same = subst (λ t. text_eq z.id t ≡ true) q (text_eq_refl z.id) in absurd (cc)
  add-IsMap id c xs d x y (inr i) (inl q) e =
      absurd (clash x ((In-without id xs x).0 i).1 (e ∙ sym (ap (λ (z : Session C). z.id) q)))
    where
      clash : (z : Session C) → text_eq z.id id ≡ false → z.id ≡ id → ⊥
      clash z h q =
          let same = subst (λ t. text_eq z.id t ≡ true) q (text_eq_refl z.id) in absurd (cc)

  create-IsMap :
      (random : Option Text) (now expiry : ℕ) (c : C) (m : SessionManager C)
      → IsMap m.sessions
      → IsMap (create random now expiry c m).1.sessions
  unfolding create
  create-IsMap none now expiry c m d = d
  create-IsMap (some id) now expiry c m d = elim (Bool-cases (leb expiry now)) [
    | inl h ↦ rw (create, h) d
    | inr h ↦ rw (create, h) (add-IsMap id c m.sessions d)
  ]

  close_each-IsMap :
      (ids : List Text) (m : SessionManager C)
      → IsMap m.sessions
      → IsMap (close_each ids m).sessions
  close_each-IsMap ids m =
      fewer m.sessions (close_each ids m).sessions (λ x i. ((In-close_each ids m x).0 i).0)

  step-IsMap : (e : Event C) (m : SessionManager C) → IsMap m.sessions → IsMap (step e m).sessions
  unfolding step close_where expire remove
  step-IsMap (creates random now expiry c) m d = create-IsMap random now expiry c m d
  step-IsMap (closes ids) m d = close_each-IsMap ids m d
  step-IsMap (closes_where match) m d =
      close_each-IsMap (map (λ (x : Session C). x.id) (keep match m.sessions)) m d
  step-IsMap (expires id) m d = d
  step-IsMap (removes id) m d =
      fewer m.sessions (without id m.sessions) (λ x i. ((In-without id m.sessions x).0 i).0) d

  run-keeps :
      (es : List (Event C)) (m : SessionManager C) → IsMap m.sessions → IsMap (run es m).sessions
  unfolding run
  run-keeps [] m d = d
  run-keeps (e ∷ es) m d = run-keeps es (step e m) (step-IsMap e m d)

  -- After any operations on a new manager, the list holds no ID twice.
  pub run-IsMap : (es : List (Event C)) → IsMap (run es new_session_manager).sessions
  unfolding new_session_manager
  run-IsMap es = run-keeps es new_session_manager (λ x y i. absurd i)
