-- ===== src/Permission/Tests.antt =====
-- Runs of the permission engine at concrete inputs.
use fx_rs.Base.{◌≡◌, refl, ◌↔◌, true, false, not, ◌&&◌, [], ◌∷◌, ◌++◌, text, text_eq, if◌then◌else◌}
use fx_rs.Permission.FilePath.{
  pattern_matches, under, strip_suffix, components, split, parse_piece, parse_pieces,
  parse_relative, is_prefix,
}
use fx_rs.Permission.FilePath.Under.{pattern_matches-below}
use fx_rs.Permission.Engine.{
  ToolEffect, PermissionMode, PermissionAction, PermissionRule, PermissionRequest,
  PermissionDecision, PermissionEngine, grant_request_for_session, decide, applies, has_grant,
  is_yolo, grant_for_session, configured_from,
}
use fx_rs.Permission.Engine.Precedence.{
  is_deny, same_grant, verdict, IsLast, decide-grant_request, decide-append_rule, decide-deny_iff,
}

sibling_not_below : pattern_matches (text "/work/**") (text "/workshop/x") ≡ false
unfolding pattern_matches under strip_suffix components split parse_piece parse_pieces is_prefix
    text_eq
sibling_not_below = refl

dots_vanish : pattern_matches (text "a/**") (text "a/./b//c") ≡ true
unfolding pattern_matches under strip_suffix components split parse_piece parse_pieces
    parse_relative is_prefix text_eq
dots_vanish = refl

pattern_matches-below_example :
    pattern_matches (text "/work" ++ text "/**") (text "/work" ++ text "/src/main.rs") ≡ true
pattern_matches-below_example = pattern_matches-below (text "/work") (text "src/main.rs")

abbrev deny_secrets : PermissionRule
deny_secrets = record {
  permission = text "*";
  pattern = text "/secrets/**";
  action = PermissionAction.deny;
}

abbrev engine : PermissionEngine
engine = record {
  mode = PermissionMode.auto;
  configured_rules = deny_secrets ∷ [];
  session_grants = [];
}

abbrev write_to : PermissionRequest
write_to = record {
  permission = text "write";
  target = text "/secrets/key";
  grant_target = text "/secrets/key";
  effect = ToolEffect.write;
}

denied_though_granted :
    decide (grant_request_for_session engine write_to) write_to ≡ PermissionDecision.deny
unfolding decide grant_request_for_session applies pattern_matches under strip_suffix components
    split parse_piece parse_pieces is_prefix text_eq has_grant grant_for_session configured_from
denied_though_granted = refl

decide-grant_request_example : decide (grant_request_for_session engine write_to) write_to ≡ (
    if same_grant write_to write_to && not (is_deny (decide engine write_to))
    then PermissionDecision.allow
    else decide engine write_to)
decide-grant_request_example = decide-grant_request engine write_to write_to

decide-append_rule_example :
    decide (record engine { configured_rules = deny_secrets ∷ deny_secrets ∷ [] }) write_to ≡ (
      if applies deny_secrets write_to
      then verdict PermissionAction.deny (has_grant [] (text "write") (text "/secrets/key"))
      else decide engine write_to)
decide-append_rule_example = decide-append_rule engine deny_secrets write_to refl

decide-deny_iff_example : (decide engine write_to ≡ PermissionDecision.deny) ↔ (
    (rule : PermissionRule) × (is_yolo PermissionMode.auto ≡ false)
    × IsLast write_to rule (deny_secrets ∷ [])
    × (rule.action ≡ PermissionAction.deny))
decide-deny_iff_example = decide-deny_iff engine write_to
