-- ===== src/Dispatch/Held.antt =====
-- A run of Hold as Dispatch of eami-gateway/cmd/gateway/dispatcher.go meets it.
use eaim.Base.{
  List, [], ◌∷◌, ◌++◌, none, some, true, ◌≡◌, sym, ap, ◌∙◌, ◌⊎◌, inl, inr, Option-cases,
}
use eaim.Base.Text.{Text, codes}
use eaim.Approval.Types.{Request, Call, Backend, Event, State, HoldError, HoldOutcome}
use eaim.Approval.Calls.{calls}
use eaim.Approval.Outcomes.{Reports}
use eaim.Approval.Hold.{returned, Wait, Reach}
use eaim.Approval.Once.{Fine, FineHolder, Inv}
use eaim.Approval.AtMostOnce.{PermittedOnce, Reach-PermittedInv}
use eaim.Dispatch.View.{Adds, calls_only, view-Resuming}
use mathlib.Core.Path.{subst}

module _ {W : Type 0} (b : Backend W) where
  -- What Hold did for the request, as steps of its goroutine, of the listener and on the row: they
  -- made this call and no other, and left the row approved.
  pub record Approved (hold : Text → Request → State W → HoldOutcome × State W) (req : Request)
      (c : Call) : Type 0 where
    pub id : Text
    pub before : State W
    pub wait : Wait W
    pub reached : Reach b id req before wait
    pub outcome : HoldOutcome
    pub ended : wait.holder ≡ returned outcome
    pub actual : hold id req before ≡ (outcome, wait.gateway)
    pub approved : wait.row.status ≡ codes "approved"
    pub es : List Event
    pub grows : wait.gateway.log ≡ before.log ++ es
    pub made : calls es ≡ c ∷ []

module _ {W : Type 0} (b : Backend W) (id : Text) (req : Request) (g : State W) where
  -- The outcome and the state that some sequence of the steps ends in.
  unfoldable pub IsHeld : HoldOutcome × State W → Type 0
  IsHeld (o, s) = (t : Wait W) × Reach b id req g t × (t.holder ≡ returned o) × (t.gateway ≡ s)

module _ {W : Type 0} (b : Backend W) (hold : Text → Request → State W → HoldOutcome × State W)
    (id : Text) (req : Request) (g : State W) where
  pub record HoldLaw (o : HoldOutcome) (s : State W) : Type 0 where
    pub cs : List Call
    pub adds : Adds g s (calls_only cs)
    pub made :
        ((cs ≡ []) × ((e : HoldError) × (o.error ≡ some e)))
        ⊎ ((c : Call) × (cs ≡ c ∷ []) × PermittedOnce b req c × Approved b hold req c)
    pub success : o.error ≡ none → (o.resolved ≡ true) × (o.status ≡ codes "approved")

  of_made :
      (t : Wait W) (o : HoldOutcome) (i : Inv (PermittedOnce b req) g t)
      → Reach b id req g t
      → t.holder ≡ returned o
      → hold id req g ≡ (o, t.gateway)
      → Fine t.row (calls i.es) o
      → ((calls i.es ≡ []) × ((e : HoldError) × (o.error ≡ some e)))
        ⊎ ((c : Call) × (calls i.es ≡ c ∷ []) × PermittedOnce b req c × Approved b hold req c)
  of_made t o i r e h f = elim i.used [
    | inr k ↦ inr (
      k.call,
      k.only,
      k.permitted,
      record {
        id = id;
        before = g;
        wait = t;
        reached = r;
        outcome = o;
        ended = e;
        actual = h;
        approved = k.approved;
        es = i.es;
        grows = i.grows;
        made = k.only;
      },
    )
    | inl n ↦ elim (Option-cases o.error) [
      | inl z ↦ let (c, m, x) = f.made z in absurd (cc (n, m))
      | inr (e, z) ↦ inl (n, (e, z))
    ]
  ]

  of_success :
      (t : Wait W) (o : HoldOutcome) (i : Inv (PermittedOnce b req) g t)
      → Fine t.row (calls i.es) o
      → o.error ≡ none
      → (o.resolved ≡ true) × (o.status ≡ codes "approved")
  unfolding Reports
  of_success t o i f z =
      let (c, m, x) = f.made z in
      (
        x,
        elim i.used [
          | inl n ↦ absurd (cc (n, m))
          | inr k ↦ ap (λ r. r.status) (sym (f.reports x).0) ∙ k.approved
        ],
      )

  pub HoldLaw-of_IsHeld :
      (r : HoldOutcome × State W) → hold id req g ≡ r → IsHeld b id req g r → HoldLaw r.0 r.1
  unfolding IsHeld Adds
  HoldLaw-of_IsHeld (o, s) h (t, r, e, w) =
      let i = Reach-PermittedInv b id req g r in
      let f : Fine t.row (calls i.es) o = subst (FineHolder t.row (calls i.es)) e i.holder in
      record {
        cs = calls i.es;
        adds = (i.es, ap (λ x. x.log) (sym w) ∙ i.grows, view-Resuming i.es i.resuming);
        made = of_made t o i r e (h ∙ ap (λ x. (o, x)) (sym w)) f;
        success = of_success t o i f;
      }
