-- ===== src/Audit/Valid.antt =====
-- VerifyAuditChain against what an intact row is.
use eaim.Base.{
  ℕ, ◌+◌, List, [], ◌∷◌, Option, none, some, true, false, ◌≡◌, refl, ap, ◌∙◌, subst, ◌⊎◌, inl, inr,
  ◌↔◌, In, Bool-cases, arith, map, length, if◌then◌else◌, and-elim, All-In, ◌<◌,
}
use eaim.Base.Text.{Text, text_eq, text_eq→eq, text_eq_refl, text_eq_iff}
use eaim.Base.Sort.{Ordered}
use eaim.Audit.Entry.{Formats, Entry, row_hash, genesis_hash}
use eaim.Audit.Writer.{Log}
use eaim.Audit.Verify.{
  Progress, is_some, earlier, hash_query, member, self_consistent, linked, intact_row, check_row,
  check_rows,
}

member_iff :
    (h : Text) (rows : Log)
    → (member h (hash_query rows) ≡ true) ↔ ((r : Entry) × In r rows × (r.hash ≡ h))
unfolding member hash_query
member_iff h rows = (to rows, λ (r, m, e). from rows r m e)
  where
    to :
        (rows : Log)
        → member h (map (λ (e : Entry). e.hash) rows) ≡ true
        → (r : Entry) × In r rows × (r.hash ≡ h)
    to [] t = absurd (cc)
    to (r ∷ rows) t = elim (Bool-cases (text_eq r.hash h)) [
      | inl k ↦ (r, inl refl, text_eq→eq r.hash h k)
      | inr k ↦ let (x, m, e) = to rows (rw k at t) in (x, inr m, e)
    ]

    from :
        (rows : Log) (r : Entry)
        → In r rows
        → r.hash ≡ h
        → member h (map (λ (e : Entry). e.hash) rows) ≡ true
    from [] r m e = absurd m
    from (x ∷ rows) r (inl q) e = rw (ap (λ (y : Entry). y.hash) q ∙ e, text_eq_refl h) refl
    from (x ∷ rows) r (inr m) e = let rest = from rows r m e in ground arith

module _ (f : Formats) where
  -- The row names the genesis hash or the hash of a row of the table, and hashes its own fields.
  abbrev pub Intact : Log → Entry → Type 0
  Intact rows e =
      (e.hash ≡ row_hash f e.prev_hash e)
      × (((r : Entry) × In r rows × (r.hash ≡ e.prev_hash)) ⊎ (e.prev_hash ≡ genesis_hash f))

  pub intact_row-Intact :
      (rows : Log) (e : Entry) → intact_row f (hash_query rows) e ≡ true → Intact rows e
  unfolding intact_row self_consistent linked
  intact_row-Intact rows e h =
      let (s, l) = and-elim (self_consistent f e) (linked f (hash_query rows) e) h in
      (text_eq→eq e.hash (row_hash f e.prev_hash e) s, found l)
    where
      found :
          linked f (hash_query rows) e ≡ true
          → ((r : Entry) × In r rows × (r.hash ≡ e.prev_hash)) ⊎ (e.prev_hash ≡ genesis_hash f)
      found l = elim (Bool-cases (member e.prev_hash (hash_query rows))) [
        | inl k ↦ inl ((member_iff e.prev_hash rows).0 k)
        | inr k ↦ inr (text_eq→eq e.prev_hash (genesis_hash f) (rw k at l))
      ]

  pub Intact→intact_row :
      (rows : Log) (e : Entry) → Intact rows e → intact_row f (hash_query rows) e ≡ true
  unfolding intact_row self_consistent linked
  Intact→intact_row rows e (s, inl l) =
      let k = (member_iff e.prev_hash rows).1 l in
      let t = (text_eq_iff e.hash (row_hash f e.prev_hash e)).1 s in ground arith
  Intact→intact_row rows e (s, inr g) =
      let k = (text_eq_iff e.prev_hash (genesis_hash f)).1 g in
      let t = (text_eq_iff e.hash (row_hash f e.prev_hash e)).1 s in ground arith

  -- The first row that is not intact.
  unfoldable pub first_bad : List Text → List Entry → Option ℕ
  first_bad existing [] = none
  first_bad existing (e ∷ es) =
      let rest = first_bad existing es in if intact_row f existing e then rest else some e.id

  pub check_rows-total :
      (existing : List Text) (s : Progress) (es : List Entry)
      → (check_rows f existing s es).total ≡ s.total + length es
  unfolding check_rows check_row
  check_rows-total existing s [] = omega arith
  check_rows-total existing s (e ∷ es) =
      omega (arith, check_rows-total existing (check_row f existing s e) es)

  check_rows-keeps :
      (existing : List Text) (s : Progress) (es : List Entry) (i : ℕ)
      → s.first_broken ≡ some i
      → (check_rows f existing s es).first_broken ≡ some i
  unfolding check_rows check_row is_some
  check_rows-keeps existing s [] i h = h
  check_rows-keeps existing s (e ∷ es) i h =
      check_rows-keeps existing (check_row f existing s e) es i (rw h refl)

  pub check_rows-finds :
      (existing : List Text) (s : Progress) (es : List Entry)
      → s.first_broken ≡ none
      → (check_rows f existing s es).first_broken ≡ first_bad existing es
  unfolding check_rows check_row is_some first_bad
  check_rows-finds existing s [] h = h
  check_rows-finds existing s (e ∷ es) h = elim (Bool-cases (intact_row f existing e)) [
    | inl k ↦ rw k (check_rows-finds existing (check_row f existing s e) es (rw (h, k) refl))
    | inr k ↦ rw k (check_rows-keeps existing (check_row f existing s e) es e.id (rw (h, k) refl))
  ]

  pub first_bad-cases :
      (existing : List Text) (es : List Entry)
      → Ordered earlier es
      → ((first_bad existing es ≡ none) × ((e : Entry) → In e es → intact_row f existing e ≡ true))
        ⊎ ((e : Entry) × In e es
            × (first_bad existing es ≡ some e.id)
            × (intact_row f existing e ≡ false)
            × ((r : Entry) → In r es → r.timestamp < e.timestamp → intact_row f existing r ≡ true))
  unfolding first_bad
  first_bad-cases existing [] o = inl (refl, λ e m. absurd m)
  first_bad-cases existing (x ∷ es) o = elim (Bool-cases (intact_row f existing x)) [
    | inl k ↦ elim (first_bad-cases existing es o.1) [
      | inl (q, good) ↦ inl (
        rw k q,
        λ e m. elim m [
          | inl s ↦ subst (λ y. intact_row f existing y ≡ true) s k
          | inr n ↦ good e n
        ],
      )
      | inr (e, m, q, bad, before) ↦ inr (
        e,
        inr m,
        rw k q,
        bad,
        λ r n lt. elim n [
          | inl s ↦ subst (λ y. intact_row f existing y ≡ true) s k
          | inr n' ↦ before r n' lt
        ],
      )
    ]
    | inr k ↦ inr (
      x,
      inl refl,
      rw k refl,
      k,
      λ r n lt. elim n [
        | inl s ↦ absurd (irrefl x r s lt)
        | inr n' ↦ absurd (late x r (All-In (λ y. earlier y x ≡ false) es o.0 n') lt)
      ],
    )
  ]
    where
      irrefl : (x r : Entry) → x ≡ r → r.timestamp < x.timestamp → ⊥
      irrefl x r s lt = omega (arith, ap (λ (y : Entry). y.timestamp) s)

      late : (x r : Entry) → earlier r x ≡ false → r.timestamp < x.timestamp → ⊥
      late x r h lt = unfold earlier in (ground arith)
