-- ===== src/Policy/FirstMatch.antt =====
-- What Evaluate returns: the decision of a firing rule that no other firing rule precedes.
use eaim.Base.{
  ℕ, List, [], ◌∷◌, Bool, true, false, ◌&&◌, ok, ◌≡◌, refl, subst, ◌⊎◌, inl, inr, Bool-cases, arith,
  In, All-In,
}
use eaim.Base.Sort.{IsSort, Ordered, IsWeakOrder, In-sort, In-unsort}
use eaim.Policy.Types.{ActionContext, Decision, Rule, EvaluatorConfig}
use eaim.Policy.Scope.{MapOrders}
use eaim.Policy.Structural.{matches_rule}
use eaim.Policy.Evaluator.{
  EvaluatorOption, apply_options, default_config, rule_less, new_evaluator, semantic_passes,
  matched_decision, default_decision, evaluate_rules, evaluate,
}

pub rule_less-IsWeakOrder : IsWeakOrder rule_less
unfolding rule_less
rule_less-IsWeakOrder = record { asym = λ x y h. ground arith; step_up = λ x y z p q. ground arith }

pub rule_less_irrefl : (r : Rule) → rule_less r r ≡ false
unfolding rule_less
rule_less_irrefl r = ground arith

module _ (orders : Rule → MapOrders) (cfg : EvaluatorConfig) (ac : ActionContext) where
  -- The rule matches and its semantic condition, if it has one, is answered yes.
  abbrev pub fires : Rule → Bool
  fires r = matches_rule (orders r) ac r && semantic_passes cfg ac r

  -- Either the decision is that of a firing rule which no firing rule of the list precedes, or no
  -- rule of the list fires and the decision is the configured default.
  abbrev pub Decides : ℕ → List Rule → Decision → Type 0
  Decides elapsed rules d =
      ((r : Rule) × In r rules
        × (fires r ≡ true)
        × ((g : Rule) → In g rules → fires g ≡ true → rule_less g r ≡ false)
        × (d ≡ matched_decision elapsed r))
      ⊎ (((g : Rule) → In g rules → fires g ≡ false) × (d ≡ default_decision elapsed cfg))

  evaluate_rules-fires :
      (elapsed : ℕ) (r : Rule) (rules : List Rule)
      → fires r ≡ true
      → evaluate_rules orders elapsed cfg ac (r ∷ rules) ≡ matched_decision elapsed r
  unfolding evaluate_rules
  evaluate_rules-fires elapsed r rules h = ground arith

  evaluate_rules-passes :
      (elapsed : ℕ) (r : Rule) (rules : List Rule)
      → fires r ≡ false
      → evaluate_rules orders elapsed cfg ac (r ∷ rules)
        ≡ evaluate_rules orders elapsed cfg ac rules
  unfolding evaluate_rules
  evaluate_rules-passes elapsed r rules h = ground arith

  none_precedes :
      (r : Rule) (rules : List Rule)
      → Ordered rule_less (r ∷ rules)
      → (g : Rule) → In g (r ∷ rules)
      → rule_less g r ≡ false
  none_precedes r rules o g (inl e) = subst (λ x. rule_less x r ≡ false) e (rule_less_irrefl r)
  none_precedes r rules o g (inr m) = All-In (λ y. rule_less y r ≡ false) rules o.0 m

  not_true : (r g : Rule) → r ≡ g → fires r ≡ false → fires g ≡ true → ⊥
  not_true r g e h k = cc

  Decides-skip :
      (elapsed : ℕ) (r : Rule) (rules : List Rule) (d : Decision)
      → fires r ≡ false
      → Decides elapsed rules d
      → Decides elapsed (r ∷ rules) d
  Decides-skip elapsed r rules d h (inl (w, m, f, least, e)) = inl (w, inr m, f, first, e)
    where
      first : (g : Rule) → In g (r ∷ rules) → fires g ≡ true → rule_less g w ≡ false
      first g (inl q) k = absurd (not_true r g q h k)
      first g (inr n) k = least g n k
  Decides-skip elapsed r rules d h (inr (quiet, e)) = inr (still, e)
    where
      still : (g : Rule) → In g (r ∷ rules) → fires g ≡ false
      still g (inl q) = subst (λ x. fires x ≡ false) q h
      still g (inr n) = quiet g n

  evaluate_rules-Decides :
      (elapsed : ℕ) (rules : List Rule)
      → Ordered rule_less rules
      → Decides elapsed rules (evaluate_rules orders elapsed cfg ac rules)
  evaluate_rules-Decides elapsed [] o = inr (λ g m. absurd m, unfold evaluate_rules in refl)
  evaluate_rules-Decides elapsed (r ∷ rules) o = elim (Bool-cases (fires r)) [
    | inl h ↦ inl (
      r,
      inl refl,
      h,
      λ g m _. none_precedes r rules o g m,
      evaluate_rules-fires elapsed r rules h,
    )
    | inr h ↦
        rw (evaluate_rules-passes elapsed r rules h)
          (Decides-skip elapsed r rules _ h (evaluate_rules-Decides elapsed rules o.1))
  ]

  Decides-sort :
      (sort : List Rule → List Rule)
      → IsSort rule_less sort
      → (elapsed : ℕ) (rules : List Rule) (d : Decision) → Decides elapsed (sort rules) d
      → Decides elapsed rules d
  Decides-sort sort s elapsed rules d (inl (w, m, f, least, e)) =
      inl (w, In-unsort s w rules m, f, λ g n k. least g (In-sort s g rules n) k, e)
  Decides-sort sort s elapsed rules d (inr (quiet, e)) =
      inr (λ g n. quiet g (In-sort s g rules n), e)

-- For every way in which sort.Slice may order ties, `evaluate` on the evaluator that
-- `new_evaluator` builds returns no error, and its decision is that of a firing rule which no
-- firing rule precedes under `rule_less`, or the configured default where no rule fires.
pub evaluate-new_evaluator :
    (sort : List Rule → List Rule)
    → IsSort rule_less sort
    → (orders : Rule → MapOrders) (elapsed : ℕ) (rules : List Rule) (opts : List EvaluatorOption)
      (ac : ActionContext)
    → (d : Decision) × (evaluate orders elapsed (new_evaluator sort rules opts) ac ≡ ok d)
      × Decides orders (apply_options default_config opts) ac elapsed rules d
unfolding evaluate new_evaluator
evaluate-new_evaluator sort s orders elapsed rules opts ac =
    let cfg = apply_options default_config opts in
    let d = evaluate_rules orders elapsed cfg ac (sort rules) in
    (
      d,
      refl,
      Decides-sort orders cfg ac sort s elapsed rules d
          (evaluate_rules-Decides orders cfg ac elapsed (sort rules) (s.orders rules)),
    )
