-- ===== src/Permission/Engine.antt =====
-- The permission engine (crates/fx-core/src/permission.rs, lines 7 to 165).
pub mod Precedence
use fx_rs.Base.{
  Bool, true, false, not, ◌&&◌, ◌||◌, Option, none, some, List, [], ◌∷◌, ◌++◌, Text, text, text_eq,
  if◌then◌else◌, any,
}
use fx_rs.Permission.FilePath.{pattern_matches}

-- crates/fx-core/src/tool.rs
pub data ToolEffect : Type 0 where
  read write process network user_interaction delegation : ToolEffect

pub data PermissionMode : Type 0 where
  ask auto yolo : PermissionMode

pub data PermissionAction : Type 0 where
  allow ask deny : PermissionAction

pub record PermissionRule : Type 0 where
  pub permission : Text
  pub pattern : Text
  pub action : PermissionAction

pub record PermissionRequest : Type 0 where
  pub permission : Text
  pub target : Text
  pub grant_target : Text
  pub effect : ToolEffect

pub data PermissionDecision : Type 0 where
  allow ask auto_review deny : PermissionDecision

pub record PermissionEngine : Type 0 where
  pub mode : PermissionMode
  pub configured_rules : List PermissionRule
  pub session_grants : List (Text × Text)

unfoldable pub new_request : Text → Text → ToolEffect → PermissionRequest
new_request permission target effect = record {
  permission = permission;
  target = target;
  grant_target = target;
  effect = effect;
}

unfoldable pub with_grant_target : PermissionRequest → Text → PermissionRequest
with_grant_target request target = record request { grant_target = target }

unfoldable pub new_engine : PermissionMode → List PermissionRule → PermissionEngine
new_engine mode configured_rules = record {
  mode = mode;
  configured_rules = configured_rules;
  session_grants = [];
}

unfoldable pub set_mode : PermissionEngine → PermissionMode → PermissionEngine
set_mode e mode = record e { mode = mode }

abbrev pub is_grant : Text → Text → Text × Text → Bool
is_grant permission target (p, t) = text_eq p permission && text_eq t target

-- `contains`, and the test of `decide`.
unfoldable pub has_grant : List (Text × Text) → Text → Text → Bool
has_grant grants permission target = any (is_grant permission target) grants

unfoldable pub grant_for_session : PermissionEngine → Text → Text → PermissionEngine
grant_for_session e permission target =
    if has_grant e.session_grants permission target
    then e
    else record e { session_grants = e.session_grants ++ (permission, target) ∷ [] }

unfoldable pub grant_request_for_session : PermissionEngine → PermissionRequest → PermissionEngine
grant_request_for_session e request = grant_for_session e request.permission request.grant_target

unfoldable pub applies : PermissionRule → PermissionRequest → Bool
applies rule request =
    (text_eq rule.permission request.permission || text_eq rule.permission (text "*"))
    && pattern_matches rule.pattern request.target

abbrev pub decision_of : PermissionAction → PermissionDecision
decision_of PermissionAction.allow = PermissionDecision.allow
decision_of PermissionAction.ask = PermissionDecision.ask
decision_of PermissionAction.deny = PermissionDecision.deny

-- The loop over the rules: the last one that applies is kept.
unfoldable pub configured_from :
    Option PermissionDecision → List PermissionRule → PermissionRequest → Option PermissionDecision
configured_from configured [] request = configured
configured_from configured (rule ∷ rules) request =
    configured_from (if applies rule request then some (decision_of rule.action) else configured)
      rules request

unfoldable pub automatic_baseline : ToolEffect → PermissionDecision
automatic_baseline ToolEffect.read = PermissionDecision.allow
automatic_baseline _ = PermissionDecision.auto_review

unfoldable pub baseline : PermissionMode → ToolEffect → PermissionDecision
unfolding automatic_baseline
baseline PermissionMode.ask effect = PermissionDecision.ask
baseline PermissionMode.auto effect = automatic_baseline effect
baseline PermissionMode.yolo effect = PermissionDecision.allow

-- The rest of `decide`, past the rules.
unfoldable pub settle :
    Option PermissionDecision → Bool → PermissionMode → ToolEffect → PermissionDecision
unfolding baseline
settle (some PermissionDecision.deny) granted mode effect = PermissionDecision.deny
settle (some d) granted mode effect = if granted then PermissionDecision.allow else d
settle none granted mode effect = if granted then PermissionDecision.allow else baseline mode effect

abbrev pub is_yolo : PermissionMode → Bool
is_yolo PermissionMode.yolo = true
is_yolo _ = false

unfoldable pub decide : PermissionEngine → PermissionRequest → PermissionDecision
unfolding settle
decide e request =
    if is_yolo e.mode
    then PermissionDecision.allow
    else settle (configured_from none e.configured_rules request)
        (has_grant e.session_grants request.permission request.grant_target) e.mode request.effect
