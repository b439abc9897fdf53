-- ===== src/RateLimit/Invariant.antt =====
-- How the kept attempts of a key stand to all its admissions, and that a call preserves it.
use eaim.Base.{
  leb→le, ℕ, ◌≤◌, ◌<◌, List, [], ◌∷◌, ◌++◌, true, false, leb, length, length-append, keep, keep-no,
  Bool-cases, ◌≡◌, refl, sym, ap, ◌∙◌, inl, inr, arith,
}
use eaim.Base.Text.{Text, text_eq}
use eaim.Base.Int.{pos_part}
use eaim.RateLimit.Limiter.{lookup, insert, RateLimiter, alive}
use eaim.RateLimit.Keep.{keep-append, keep-keep, length-keep_mono, length-keep-le}
use eaim.RateLimit.Call.{
  inside, alive-later, inside-alive, with_attempts, lookup-other, lookup-same,
}

-- `old` are the admissions of the key so far, all at or before `last`.
pub record Inv (k : Text) (old : List ℕ) (last : ℕ) (rl : RateLimiter) : Type 0 where
  pub stored :
      (now : ℕ)
      → last ≤ now
      → keep (alive rl.window now) (lookup k rl.attempts) ≡ keep (alive rl.window now) old
  pub bound : (now : ℕ) → length (keep (inside rl.window now) old) ≤ pos_part rl.limit

pub Inv-other :
    (k key : Text) (old ts : List ℕ) (last now : ℕ) (rl : RateLimiter)
    → last ≤ now
    → text_eq key k ≡ false
    → Inv k old last rl
    → Inv k old now (with_attempts rl key ts)
Inv-other k key old ts last now rl le h v = record {
  stored = λ t l. rw (lookup-other k key ts rl.attempts h) (v.stored t (omega arith));
  bound = v.bound;
}

pub Inv-later :
    (k : Text) (old : List ℕ) (last now : ℕ) (rl : RateLimiter)
    → last ≤ now
    → Inv k old last rl
    → Inv k old now rl
Inv-later k old last now rl le v = record {
  stored = λ t l. v.stored t (omega arith);
  bound = v.bound;
}

-- A refused call drops attempts that are no longer alive.
pub Inv-refused :
    (k key : Text) (old : List ℕ) (last now : ℕ) (rl : RateLimiter)
    → last ≤ now
    → text_eq key k ≡ true
    → Inv k old last rl
    → Inv k old now (with_attempts rl key (keep (alive rl.window now) (lookup k rl.attempts)))
Inv-refused k key old last now rl le h v = record {
  stored = λ t l.
      rw
        (
          lookup-same k key (keep (alive rl.window now) (lookup k rl.attempts)) rl.attempts h,
          keep-keep (alive rl.window t) (alive rl.window now) (lookup k rl.attempts)
              (λ x. alive-later rl.window now t x l),
        )
        (v.stored t (omega arith));
  bound = v.bound;
}

-- An admitted call joins both lists, and those inside a window with it were alive at it.
pub Inv-admitted :
    (k key : Text) (old : List ℕ) (last now : ℕ) (rl : RateLimiter)
    → last ≤ now
    → text_eq key k ≡ true
    → length (keep (alive rl.window now) (lookup k rl.attempts)) < pos_part rl.limit
    → Inv k old last rl
    → Inv k
        (old ++ now ∷ [])
        now
        (with_attempts rl key (keep (alive rl.window now) (lookup k rl.attempts) ++ now ∷ []))
Inv-admitted k key old last now rl le h room v = record { stored = joined; bound = counted }
  where
    kept : List ℕ
    kept = keep (alive rl.window now) (lookup k rl.attempts)

    joined :
        (t : ℕ)
        → now ≤ t
        → keep (alive rl.window t) (lookup k (insert key (kept ++ now ∷ []) rl.attempts))
          ≡ keep (alive rl.window t) (old ++ now ∷ [])
    joined t l =
        ap (keep (alive rl.window t)) (lookup-same k key (kept ++ now ∷ []) rl.attempts h)
        ∙ keep-append (alive rl.window t) kept (now ∷ [])
        ∙ ap (λ (x : List ℕ). x ++ keep (alive rl.window t) (now ∷ []))
            (keep-keep (alive rl.window t) (alive rl.window now) (lookup k rl.attempts)
                (λ x. alive-later rl.window now t x l)
              ∙ v.stored t (omega arith))
        ∙ sym (keep-append (alive rl.window t) old (now ∷ []))

    same_kept : length kept ≡ length (keep (alive rl.window now) old)
    same_kept = ap length (v.stored now le)

    counted : (t : ℕ) → length (keep (inside rl.window t) (old ++ now ∷ [])) ≤ pos_part rl.limit
    counted t =
        let both =
          ap length (keep-append (inside rl.window t) old (now ∷ []))
          ∙ length-append (keep (inside rl.window t) old) (keep (inside rl.window t) (now ∷ [])) in
        elim (Bool-cases (leb now t)) [
          | inl l ↦
              let le' = leb→le now t l in
              omega (
                arith,
                both,
                same_kept,
                room,
                length-keep-le (inside rl.window t) (now ∷ []),
                length-keep_mono (inside rl.window t) (alive rl.window now) old
                    (λ x. inside-alive rl.window now t x le'),
              )
          | inr l ↦
              let out : inside rl.window t now ≡ false = rw l refl in
              omega (
                arith,
                both,
                ap length (keep-no (inside rl.window t) now [] out),
                nothing t,
                v.bound t,
              )
        ]
      where
        nothing : (t : ℕ) → length (keep (inside rl.window t) []) ≤ 0
        nothing t = unfold keep in (omega arith)
