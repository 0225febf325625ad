-- ===== src/Permission/Engine/Precedence.antt =====
-- How rules, grants and modes outrank one another.
use fx_rs.Base.{
  ◌≡◌, ◌≢◌, refl, ◌↔◌, ◌⊎◌, ◌∙◌, Bool, true, false, not, ◌&&◌, ◌||◌, Option, none, some, List, [],
  ◌∷◌, ◌++◌, Text, text_eq, text_eq_sound, if◌then◌else◌, any, arith, Bool-cases, inl, inr,
}
use fx_rs.Permission.Engine.{
  PermissionAction, PermissionRule, PermissionRequest, PermissionDecision, PermissionEngine,
  has_grant, grant_for_session, grant_request_for_session, applies, decision_of, configured_from,
  is_yolo, decide,
}

abbrev pub is_deny : PermissionDecision → Bool
is_deny PermissionDecision.deny = true
is_deny _ = false

-- The two requests are the same for the session's grants.
abbrev pub same_grant : PermissionRequest → PermissionRequest → Bool
same_grant q r = text_eq q.permission r.permission && text_eq q.grant_target r.grant_target

has_grant-append :
    (grants : List (Text × Text)) (p t p' t' : Text)
    → has_grant (grants ++ (p, t) ∷ []) p' t'
      ≡ (has_grant grants p' t' || (text_eq p p' && text_eq t t'))
unfolding has_grant
has_grant-append [] p t p' t' = ground arith
has_grant-append (g ∷ grants) p t p' t' = ground (arith, has_grant-append grants p t p' t')

has_grant-same :
    (grants : List (Text × Text)) (p t p' t' : Text)
    → has_grant grants p t ≡ true
    → (text_eq p p' && text_eq t t') ≡ true
    → has_grant grants p' t' ≡ true
has_grant-same grants p t p' t' h s =
    rw (← text_eq_sound p p' (ground arith), ← text_eq_sound t t' (ground arith)) h

has_grant-grant :
    (e : PermissionEngine) (p t p' t' : Text)
    → has_grant (grant_for_session e p t).session_grants p' t'
      ≡ ((text_eq p p' && text_eq t t') || has_grant e.session_grants p' t')
unfolding grant_for_session
has_grant-grant e p t p' t' =
    ground (
      arith,
      has_grant-append e.session_grants p t p' t',
      has_grant-same e.session_grants p t p' t',
    )

grant-mode : (e : PermissionEngine) (p t : Text) → (grant_for_session e p t).mode ≡ e.mode
unfolding grant_for_session
grant-mode e p t = ground arith

grant-rules :
    (e : PermissionEngine) (p t : Text)
    → (grant_for_session e p t).configured_rules ≡ e.configured_rules
unfolding grant_for_session
grant-rules e p t = ground arith

-- After a request was granted for the session, a request of the same permission and grant target is
-- allowed, unless it was denied before, and then it stays denied; the decision on every other
-- request is what it was.
pub decide-grant_request :
    (e : PermissionEngine) (q r : PermissionRequest)
    → decide (grant_request_for_session e q) r ≡ (
        if same_grant q r && not (is_deny (decide e r))
        then PermissionDecision.allow
        else decide e r)
unfolding decide grant_request_for_session
decide-grant_request e q r =
    rw
      (
        grant-mode e q.permission q.grant_target,
        grant-rules e q.permission q.grant_target,
        has_grant-grant e q.permission q.grant_target r.permission r.grant_target,
      )
      (ground arith)

configured_from-append :
    (c : Option PermissionDecision) (rules : List PermissionRule) (rule : PermissionRule)
    (r : PermissionRequest)
    → configured_from c (rules ++ rule ∷ []) r
      ≡ (if applies rule r then some (decision_of rule.action) else configured_from c rules r)
unfolding configured_from
configured_from-append c [] rule r = refl
configured_from-append c (x ∷ rules) rule r =
    configured_from-append (if applies x r then some (decision_of x.action) else c) rules rule r

-- What a rule says of a request, granted for the session or not: a denial stands, and a grant turns
-- a question into a permission.
abbrev pub verdict : PermissionAction → Bool → PermissionDecision
verdict PermissionAction.deny granted = PermissionDecision.deny
verdict PermissionAction.allow granted = PermissionDecision.allow
verdict PermissionAction.ask granted =
    if granted then PermissionDecision.allow else PermissionDecision.ask

-- Outside yolo mode a rule that is added behind the others decides each request to which it
-- applies: `deny` denies it, `allow` allows it, and `ask` asks, or allows what was granted for the
-- session. On the other requests it changes nothing.
pub decide-append_rule :
    (e : PermissionEngine) (rule : PermissionRule) (r : PermissionRequest)
    → is_yolo e.mode ≡ false
    → decide (record e { configured_rules = e.configured_rules ++ rule ∷ [] }) r ≡ (
        if applies rule r
        then verdict rule.action (has_grant e.session_grants r.permission r.grant_target)
        else decide e r)
unfolding decide
decide-append_rule e rule r h =
    rw (configured_from-append none e.configured_rules rule r) (ground arith)

-- The rule is the last of the list that applies to the request.
pub data IsLast (r : PermissionRequest) (rule : PermissionRule) : List PermissionRule → Type 0 where
  last :
      {rules : List PermissionRule}
      → applies rule r ≡ true
      → any (λ x. applies x r) rules ≡ false
      → IsLast r rule (rule ∷ rules)
  later :
      {x : PermissionRule} {rules : List PermissionRule}
      → IsLast r rule rules
      → IsLast r rule (x ∷ rules)

configured_from-none :
    (c : Option PermissionDecision) (rules : List PermissionRule) (r : PermissionRequest)
    → any (λ x. applies x r) rules ≡ false
    → configured_from c rules r ≡ c
unfolding configured_from
configured_from-none c [] r h = refl
configured_from-none c (x ∷ rules) r h = ground (arith, configured_from-none c rules r)

configured_from-IsLast :
    (r : PermissionRequest) (rule : PermissionRule) (c : Option PermissionDecision)
    {rules : List PermissionRule}
    → IsLast r rule rules
    → configured_from c rules r ≡ some (decision_of rule.action)
unfolding configured_from
configured_from-IsLast r rule c (last {rules} a n) =
    rw a (configured_from-none (some (decision_of rule.action)) rules r n)
configured_from-IsLast r rule c (later {x} l) =
    configured_from-IsLast r rule (if applies x r then some (decision_of x.action) else c) l

configured_from-cases :
    (c : Option PermissionDecision) (rules : List PermissionRule) (r : PermissionRequest)
    → (any (λ x. applies x r) rules ≡ false) ⊎ ((rule : PermissionRule) × IsLast r rule rules)
configured_from-cases c [] r = inl refl
configured_from-cases c (x ∷ rules) r = elim (configured_from-cases c rules r) [
  | inr (rule, l) ↦ inr (rule, later l)
  | inl n ↦ elim (Bool-cases (applies x r)) [ inl a ↦ inr (x, last a n) | inr a ↦ inl (rw a n) ]
]

decide_by_rule :
    (e : PermissionEngine) (r : PermissionRequest) (rule : PermissionRule)
    → IsLast r rule e.configured_rules
    → is_yolo e.mode ≡ false
    → decide e r ≡ verdict rule.action (has_grant e.session_grants r.permission r.grant_target)
unfolding decide
decide_by_rule e r rule l h = rw (configured_from-IsLast r rule none l) (ground arith)

decide_by_mode :
    (e : PermissionEngine) (r : PermissionRequest)
    → any (λ x. applies x r) e.configured_rules ≡ false
    → decide e r ≢ PermissionDecision.deny
unfolding decide
decide_by_mode e r n = rw (configured_from-none none e.configured_rules r n) (ground arith)

-- A request is denied exactly when the mode is not yolo and the last rule that applies to it says
-- `deny`, whatever the grants of the session.
pub decide-deny_iff :
    (e : PermissionEngine) (r : PermissionRequest)
    → (decide e r ≡ PermissionDecision.deny) ↔ (
        (rule : PermissionRule) × (is_yolo e.mode ≡ false)
        × IsLast r rule e.configured_rules
        × (rule.action ≡ PermissionAction.deny))
decide-deny_iff e r = (
  λ h. elim (configured_from-cases none e.configured_rules r) [
    | inl n ↦ absurd (decide_by_mode e r n h)
    | inr (rule, l) ↦
        let strict = not_yolo h in
        (rule, strict, l, denies rule (rw (← decide_by_rule e r rule l strict) h))
  ],
  λ (rule, strict, l, d). decide_by_rule e r rule l strict ∙ rw d,
)
  where
    not_yolo : decide e r ≡ PermissionDecision.deny → is_yolo e.mode ≡ false
    not_yolo h = unfold decide in ground arith

    denies :
        (rule : PermissionRule)
        → verdict rule.action (has_grant e.session_grants r.permission r.grant_target)
          ≡ PermissionDecision.deny
        → rule.action ≡ PermissionAction.deny
    denies rule h = ground arith
