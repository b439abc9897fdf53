-- ===== src/Mcp/Closing.antt =====
-- What Close and CloseWhere leave of the sessions.
use eaim.Base.{
  List, [], ◌∷◌, none, Option-cases, Bool, true, false, Bool-cases, not, keep, map, In, In-keep,
  keep-In, All, All-In, All-of_In, ◌≡◌, ◌↔◌, refl, sym, ap, ◌∙◌, subst, inl, inr,
}
use eaim.Base.Text.{Text, text_eq, text_eq→eq, text_eq_refl}
use eaim.Mcp.Sessions.{Session, SessionManager, without, get, close, close_each, close_where}

not-true : (b : Bool) → not b ≡ true → b ≡ false
not-true true h = absurd (cc)
not-true false h = refl

module _ {C : Type 0} where
  pub In-without :
      (id : Text) (xs : List (Session C)) (x : Session C)
      → In x (without id xs) ↔ (In x xs × (text_eq x.id id ≡ false))
  unfolding without
  In-without id xs x = (
    λ m.
        let (n, h) = keep-In (λ (y : Session C). not (text_eq y.id id)) x xs m in (n, not-true _ h),
    λ (n, h). In-keep (λ (y : Session C). not (text_eq y.id id)) x xs n (rw h refl),
  )

  get-none :
      (id : Text) (xs : List (Session C)) (x : Session C)
      → get id xs ≡ none
      → In x xs
      → text_eq x.id id ≡ false
  unfolding get
  get-none id [] x e m = absurd m
  get-none id (y ∷ ys) x e m = elim (Bool-cases (text_eq y.id id)) [
    | inl h ↦ let e' = rw (get, h) at e in absurd (cc)
    | inr h ↦ elim m [
      | inl q ↦ subst (λ (z : Session C). text_eq z.id id ≡ false) q h
      | inr n ↦ get-none id ys x (rw (get, h) at e) n
    ]
  ]

  -- Close removes the session with the ID and no other.
  In-close :
      (id : Text) (m : SessionManager C) (x : Session C)
      → In x (close id m).sessions ↔ (In x m.sessions × (text_eq x.id id ≡ false))
  unfolding close
  In-close id m x = elim (Option-cases (get id m.sessions)) [
    | inl n ↦ rw (close, n) (λ i. (i, get-none id m.sessions x n i), λ p. p.0)
    | inr (y, n) ↦ rw (close, n) (In-without id m.sessions x)
  ]

  pub In-close_each :
      (ids : List Text) (m : SessionManager C) (x : Session C)
      → In x (close_each ids m).sessions
        ↔ (In x m.sessions × All (λ id. text_eq x.id id ≡ false) ids)
  unfolding close_each
  In-close_each [] m x = (λ i. (i, tt), λ p. p.0)
  In-close_each (id ∷ ids) m x =
      let rest = In-close_each ids (close id m) x in
      let here = In-close id m x in
      (
        λ i. let (n, a) = rest.0 i in let (k, h) = here.0 n in (k, (h, a)),
        λ (i, (h, a)). rest.1 (here.1 (i, h), a),
      )

  listed :
      (id : Text) (m : SessionManager C) (x : Session C)
      → In x m.sessions
      → text_eq x.id id ≡ true
      → In x.id (close id m).cancelled
  unfolding close
  listed id m x i h = elim (Option-cases (get id m.sessions)) [
    | inl n ↦ let h' = get-none id m.sessions x n i in absurd (cc)
    | inr (y, n) ↦ rw (close, n) (inl (sym (text_eq→eq x.id id h)))
  ]

  close-keeps :
      (id t : Text) (m : SessionManager C) → In t m.cancelled → In t (close id m).cancelled
  unfolding close
  close-keeps id t m i = elim (Option-cases (get id m.sessions)) [
    | inl n ↦ rw (close, n) i
    | inr (y, n) ↦ rw (close, n) (inr i)
  ]

  close_each-keeps :
      (ids : List Text) (t : Text) (m : SessionManager C)
      → In t m.cancelled
      → In t (close_each ids m).cancelled
  unfolding close_each
  close_each-keeps [] t m i = i
  close_each-keeps (id ∷ ids) t m i = close_each-keeps ids t (close id m) (close-keeps id t m i)

  cancels :
      (ids : List Text) (m : SessionManager C) (x : Session C)
      → In x m.sessions
      → In x.id ids
      → In x.id (close_each ids m).cancelled
  unfolding close_each
  cancels [] m x i k = absurd k
  cancels (id ∷ ids) m x i k = elim (Bool-cases (text_eq x.id id)) [
    | inl h ↦ close_each-keeps ids x.id (close id m) (listed id m x i h)
    | inr h ↦ elim k [
      | inl q ↦ absurd (other q h)
      | inr n ↦ cancels ids (close id m) x ((In-close id m x).1 (i, h)) n
    ]
  ]
    where
      other : id ≡ x.id → text_eq x.id id ≡ false → ⊥
      other q h =
          let same = subst (λ t. text_eq x.id t ≡ true) (sym q) (text_eq_refl x.id) in absurd (cc)

  -- The table is a map by ID.
  abbrev pub IsMap : List (Session C) → Type 0
  IsMap xs = (x y : Session C) → In x xs → In y xs → x.id ≡ y.id → x ≡ y

  In-ids :
      (xs : List (Session C)) (x : Session C) → In x xs → In x.id (map (λ (y : Session C). y.id) xs)
  In-ids [] x i = absurd i
  In-ids (y ∷ ys) x (inl q) = inl (ap (λ (z : Session C). z.id) q)
  In-ids (y ∷ ys) x (inr n) = inr (In-ids ys x n)

  ids-In :
      (xs : List (Session C)) (t : Text)
      → In t (map (λ (y : Session C). y.id) xs)
      → (y : Session C) × In y xs × (y.id ≡ t)
  ids-In [] t i = absurd i
  ids-In (y ∷ ys) t (inl q) = (y, inl refl, q)
  ids-In (y ∷ ys) t (inr n) = let (z, j, e) = ids-In ys t n in (z, inr j, e)

  -- Where the list of the sessions holds no ID twice, as the list of a map holds none, CloseWhere
  -- leaves exactly the sessions that do not match, and cancels the context of each that does.
  pub close_where-closes :
      (match : Session C → Bool) (m : SessionManager C) (x : Session C)
      → IsMap m.sessions
      → (In x (close_where match m).1.sessions ↔ (In x m.sessions × (match x ≡ false)))
        × (In x m.sessions → match x ≡ true → In x.id (close_where match m).1.cancelled)
  unfolding close_where
  close_where-closes match m x d = (
    (
      λ i. let (n, a) = (In-close_each hit m x).0 i in (n, unmatched n a),
      λ (n, f). (In-close_each hit m x).1 (n, apart n f),
    ),
    λ n h. cancels hit m x n (In-ids (keep match m.sessions) x (In-keep match x m.sessions n h)),
  )
    where
      hit : List Text
      hit = map (λ (y : Session C). y.id) (keep match m.sessions)

      unmatched : In x m.sessions → All (λ id. text_eq x.id id ≡ false) hit → match x ≡ false
      unmatched n a = elim (Bool-cases (match x)) [
        | inr f ↦ f
        | inl h ↦
            let among = In-ids (keep match m.sessions) x (In-keep match x m.sessions n h) in
            let differs : text_eq x.id x.id ≡ false =
              All-In (λ id. text_eq x.id id ≡ false) hit a among in
            let same = text_eq_refl x.id in absurd (cc)
      ]

      apart : In x m.sessions → match x ≡ false → All (λ id. text_eq x.id id ≡ false) hit
      apart n f = All-of_In (λ id. text_eq x.id id ≡ false) hit (λ id i. differs id i)
        where
          differs : (id : Text) → In id hit → text_eq x.id id ≡ false
          differs id i = elim (Bool-cases (text_eq x.id id)) [
            | inr h ↦ h
            | inl h ↦
                let (y, j, e) = ids-In (keep match m.sessions) id i in
                let (k, matched) = keep-In match y m.sessions j in
                let same = d x y n k (text_eq→eq x.id id h ∙ sym e) in
                let b = ap match same in absurd (cc)
          ]
