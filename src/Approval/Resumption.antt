-- ===== src/Approval/Resumption.antt =====
-- What the resumption of an approved call in eami-gateway/internal/approval/router.go does.
use eaim.Base.{
  ℕ, List, [], ◌∷◌, ◌++◌, Option, none, some, Bool, true, false, if◌then◌else◌, Result, ok, err,
  ◌≡◌, refl, sym, subst, ◌∙◌, ap, ◌⊎◌, inl, inr, Bool-cases, All, All-append,
}
use eaim.Base.Text.{Text, codes, text_eq, text_eq→eq, is_empty}
use eaim.Workflow.Connector.{ToolRow, QueryError, no_rows, query_failed}
use eaim.Approval.Limits.{has_reserver, release_limit}
use eaim.Approval.Types.{
  LicenseChecker, Request, Call, static_call, rest_call, provider_call, Answer, Backend, Event,
  called, resume_recorded, released, State, ResumeError, no_router, Resumed,
}
use eaim.Approval.Calls.{calls, calls-append, Resuming}
use eaim.Approval.Resume.{
  ResolvedConnectorConfig, live_again, licensed_again, within_again, reserve_again, refuse,
  tool_request, resume_static, resume_call, fetch_resolved_connector, config_hash, failed,
  provider_row, rest_row, resume_verified, resume_pinned, resume, release_again, released_after,
  dispatch_approved,
}
use mathlib.Core.List.{append_assoc, append-nil}

module _ {W : Type 0} where
  -- The log grows by events in which there is no call and an error of the gateway's own is returned,
  -- or one call, which the property of calls holds of.
  unfoldable pub Resumes : (Call → Type 0) → List Event → Resumed × State W → Type 0
  unfolding calls Resuming
  Resumes P log r =
      (es : List Event) × (r.1.log ≡ log ++ es)
      × All Resuming es
      × (((calls es ≡ []) × ((e : ResumeError) × (r.0.error ≡ some e)))
          ⊎ ((c : Call) × (calls es ≡ c ∷ []) × P c))

  pub Resumes-mono :
      (P Q : Call → Type 0) (log : List Event) (r : Resumed × State W)
      → ((c : Call) → P c → Q c)
      → Resumes P log r
      → Resumes Q log r
  unfolding Resumes
  Resumes-mono P Q log r f (es, h, a, inl k) = (es, h, a, inl k)
  Resumes-mono P Q log r f (es, h, a, inr (c, e, p)) = (es, h, a, inr (c, e, f c p))

  module _ (P : Call → Type 0) (log : List Event) where
    refuse-Resumes :
        (id outcome : Text) (e : ResumeError) (s : State W)
        → s.log ≡ log
        → Resumes P log (refuse id outcome e s)
    unfolding Resumes refuse calls Resuming
    refuse-Resumes id outcome e s h = (
      resume_recorded id outcome ∷ [],
      ap (λ l. l ++ resume_recorded id outcome ∷ []) h,
      (tt, tt),
      inl (refl, (e, refl)),
    )

    failed-Resumes : (e : ResumeError) (s : State W) → s.log ≡ log → Resumes P log (failed e s)
    unfolding Resumes failed calls
    failed-Resumes e s h = ([], h ∙ sym (append-nil log), tt, inl (refl, (e, refl)))

    either-Resumes :
        (t : Bool) (x y : Resumed × State W)
        → Resumes P log x
        → Resumes P log y
        → Resumes P log (if t then x else y)
    either-Resumes true x y p q = p
    either-Resumes false x y p q = q

module _ {W : Type 0} (b : Backend W) where
  -- The four gates, each on the state of the rest of the system at the resumption.
  pub record Gates (w : W) (req : Request) : Type 0 where
    pub live : live_again b w req ≡ true
    pub licensed : licensed_again b w req ≡ true
    pub within : within_again b w req ≡ true
    pub reserved : (reserve_again b w req).0 ≡ true

  -- The pinned connector, as it is when the call resumes, has the pinned hash.
  pub record Pinned (w : W) (req : Request) (row : ToolRow) : Type 0 where
    pub named : is_empty req.resolved_tool_id ≡ false
    pub found : b.connector w req.org_id req.resolved_tool_id ≡ ok row
    pub same_hash : config_hash b (fetch_resolved_connector b row) ≡ req.resolved_config_hash

  -- A call of the request goes through the static proxy if no connector was pinned, and else to the
  -- pinned one.
  pub data Destination (w : W) (req : Request) : Call → Type 0 where
    to_static :
        is_empty req.resolved_tool_id ≡ true → Destination w req (static_call (tool_request req))
    to_rest :
        (row : ToolRow)
        → Pinned w req row
        → row.tool_type ≡ codes "rest_api"
        → Destination w req (
            rest_call
              (rest_row req.resolved_tool_id (fetch_resolved_connector b row))
              (tool_request req))
    to_provider :
        (row : ToolRow)
        → Pinned w req row
        → row.tool_type ≡ codes "ai_provider"
        → Destination w req (
            provider_call
              (provider_row req.resolved_tool_id (fetch_resolved_connector b row))
              req.action
              req.parameters)

  module _ (P : Call → Type 0) (log : List Event) where
    resume_call-Resumes :
        (id : Text) (c : Call) (f : Answer → Option ℕ) (s : State W)
        → P c
        → s.log ≡ log
        → Resumes P log (resume_call b id c f s)
    unfolding Resumes resume_call calls Resuming
    resume_call-Resumes id c f s p h = (
      called c ∷ resume_recorded id (codes "dispatched") ∷ [],
      ap (λ l. l ++ called c ∷ resume_recorded id (codes "dispatched") ∷ []) h,
      (tt, (tt, tt)),
      inr (c, refl, p),
    )

    resume_static-Resumes :
        (id : Text) (req : Request) (s : State W)
        → P (static_call (tool_request req))
        → s.log ≡ log
        → Resumes P log (resume_static b id req s)
    unfolding Resumes resume_static calls Resuming
    resume_static-Resumes id req s p h = (
      resume_recorded id (codes "static_fallback") ∷ called (static_call (tool_request req)) ∷ [],
      ap
          (λ l.
            l
            ++ resume_recorded id (codes "static_fallback")
              ∷ called (static_call (tool_request req))
              ∷ [])
          h,
      (tt, (tt, tt)),
      inr (static_call (tool_request req), refl, p),
    )

    release_limit-Resumes :
        (l : LicenseChecker W) (org_id : Text) (r : Resumed) (s : State W)
        → Resumes P log (r, s)
        → Resumes P log (r, release_limit l b.release org_id s)
    unfolding Resumes release_limit calls Resuming
    release_limit-Resumes l org_id r s (es, h, a, k) = elim (Bool-cases (has_reserver l)) [
      | inl y ↦
          rw (release_limit, y)
            (
              es ++ released org_id ∷ [],
              ap (λ l. l ++ released org_id ∷ []) h ∙ append_assoc log es (released org_id ∷ []),
              All-append Resuming es (released org_id ∷ []) a (tt, tt),
              subst
                  (λ l.
                    ((l ≡ []) × ((e : ResumeError) × (r.error ≡ some e)))
                    ⊎ ((c : Call) × (l ≡ c ∷ []) × P c))
                  (sym (calls-append es (released org_id ∷ []) ∙ append-nil (calls es))) k,
            )
      | inr n ↦ rw (release_limit, n) (es, h, a, k)
    ]

    released_after-Resumes :
        (x : Option (LicenseChecker W)) (req : Request) (r : Resumed × State W)
        → b.license ≡ x
        → Resumes P log r
        → Resumes P log (released_after b req r)
    unfolding released_after release_again
    released_after-Resumes none req (r, s) e h = rw (release_again, e) h
    released_after-Resumes (some l) req (r, s) e h =
        rw (release_again, e) (release_limit-Resumes l req.org_id r s h)

    resume_verified-Resumes :
        (id : Text) (req : Request) (c : ResolvedConnectorConfig) (s : State W)
        → (c.tool_type ≡ codes "ai_provider"
            → P (provider_call (provider_row req.resolved_tool_id c) req.action req.parameters))
        → (c.tool_type ≡ codes "rest_api"
            → P (rest_call (rest_row req.resolved_tool_id c) (tool_request req)))
        → s.log ≡ log
        → Resumes P log (resume_verified b id req c s)
    unfolding resume_verified
    resume_verified-Resumes id req c s p q h =
        elim (Bool-cases (text_eq c.tool_type (codes "ai_provider"))) [
          | inl y ↦
              rw (resume_verified, y)
                (either-Resumes P log b.has_provider_router _ _
                  (resume_call-Resumes id _ (λ a. some a.redacted) s (p (text_eq→eq _ _ y)) h)
                  (failed-Resumes P log (no_router req.resolved_tool_id) s h))
          | inr y ↦ elim (Bool-cases (text_eq c.tool_type (codes "rest_api"))) [
            | inr z ↦ rw (resume_verified, y, z) (refuse-Resumes P log id _ _ s h)
            | inl z ↦
                rw (resume_verified, y, z)
                  (either-Resumes P log b.has_tool_router _ _
                    (resume_call-Resumes id _ (λ a. none) s (q (text_eq→eq _ _ z)) h)
                    (failed-Resumes P log (no_router req.resolved_tool_id) s h))
          ]
        ]

  module _ (log : List Event) where
    resume_pinned-Resumes :
        (id : Text) (req : Request) (w : W) (q : Result QueryError ToolRow) (s : State W)
        → is_empty req.resolved_tool_id ≡ false
        → b.connector w req.org_id req.resolved_tool_id ≡ q
        → s.log ≡ log
        → Resumes (Destination w req) log (resume_pinned b id req q s)
    unfolding resume_pinned
    resume_pinned-Resumes id req w (err no_rows) s m e h =
        refuse-Resumes (Destination w req) log id _ _ s h
    resume_pinned-Resumes id req w (err (query_failed t)) s m e h =
        failed-Resumes (Destination w req) log _ s h
    resume_pinned-Resumes id req w (ok row) s m e h =
        elim (Bool-cases
          (text_eq (config_hash b (fetch_resolved_connector b row)) req.resolved_config_hash)) [
            | inr n ↦ rw (resume_pinned, n) (refuse-Resumes (Destination w req) log id _ _ s h)
            | inl y ↦
                let p : Pinned w req row = record {
                  named = m;
                  found = e;
                  same_hash = text_eq→eq _ _ y;
                } in
                rw (resume_pinned, y)
                  (resume_verified-Resumes (Destination w req) log id req
                    (fetch_resolved_connector b row) s (λ t. to_provider row p t)
                    (λ t. to_rest row p t) h)
          ]

    resume-Resumes :
        (id : Text) (req : Request) (w : W)
        → Resumes (Destination w req) log (resume b id req (record { world = w; log = log }))
    unfolding resume
    resume-Resumes id req w = elim (Bool-cases (is_empty req.resolved_tool_id)) [
      | inl y ↦
          rw (resume, y) (resume_static-Resumes (Destination w req) log id req _ (to_static y) refl)
      | inr n ↦ rw (resume, n) (resume_pinned-Resumes id req w _ _ n refl refl)
    ]

  -- A call of the request that goes through: the gates were passed in the state at the approval, and
  -- the destination is read in the state after the reservation.
  unfoldable pub Permitted : W → Request → Call → Type 0
  Permitted w req c = Gates w req × Destination (reserve_again b w req).1 req c

  -- A resumed call adds to the log either no call, with an error of the gateway's own, or exactly
  -- one, with all four gates passed, and it goes through the static proxy only if the escalated
  -- request named no connector, and else to the pinned connector, whose configuration at that time
  -- has the pinned hash.
  pub dispatch_approved-Resumes :
      (id : Text) (req : Request) (s : State W)
      → Resumes (Permitted s.world req) s.log (dispatch_approved b id req s)
  unfolding dispatch_approved Permitted
  dispatch_approved-Resumes id req s = elim (Bool-cases (live_again b s.world req)) [
    | inr n ↦ rw (dispatch_approved, n) (refuse-Resumes _ s.log id _ _ s refl)
    | inl l ↦ elim (Bool-cases (licensed_again b s.world req)) [
      | inr n ↦ rw (dispatch_approved, l, n) (refuse-Resumes _ s.log id _ _ s refl)
      | inl m ↦ elim (Bool-cases (within_again b s.world req)) [
        | inr n ↦ rw (dispatch_approved, l, m, n) (refuse-Resumes _ s.log id _ _ s refl)
        | inl k ↦ elim (Bool-cases (reserve_again b s.world req).0) [
          | inr n ↦ rw (dispatch_approved, l, m, k, n) (refuse-Resumes _ s.log id _ _ _ refl)
          | inl r ↦
              let g : Gates s.world req = record {
                live = l;
                licensed = m;
                within = k;
                reserved = r;
              } in
              rw (dispatch_approved, l, m, k, r)
                (released_after-Resumes _ s.log _ req _ refl (
                  Resumes-mono _ _ s.log _ (λ c d. (g, d))
                    (resume-Resumes s.log id req (reserve_again b s.world req).1)))
        ]
      ]
    ]
  ]
