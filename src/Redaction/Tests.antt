-- ===== src/Redaction/Tests.antt =====
-- The masking, run on short texts (crates/fx-core/src/redaction.rs).
use fx_rs.Base.{◌≡◌, refl, some, text, count_while, is_nil}
use fx_rs.Redaction.Bytes.{Bytes, starts_with, is_key, is_token, scan, contains}
use fx_rs.Redaction.Token.{basic_auth_url, aws_access_key, inline_token, token_with, credential_end}
use fx_rs.Redaction.Assignment.{
  sensitive_assignment, assigned_value, sensitive_key, assignment_value, quoted_end,
}
use fx_rs.Redaction.Mask.{redact_bytes, redact_from, secret_span, bytes_between}
use fx_rs.Redaction.Masking.{Masked, redact_bytes-Masked}

abbrev assignment : Bytes
assignment = text "a token=bc"

assignment_masked : redact_bytes assignment ≡ some (text "a token=[redacted]")
unfolding redact_bytes redact_from secret_span basic_auth_url starts_with aws_access_key
    sensitive_assignment is_key assigned_value scan count_while inline_token token_with is_token
    sensitive_key contains assignment_value bytes_between is_nil quoted_end credential_end
assignment_masked = refl

redact_bytes-Masked_example :
    (out : Bytes) × (redact_bytes assignment ≡ some out) × Masked assignment 0 out
redact_bytes-Masked_example = redact_bytes-Masked assignment
