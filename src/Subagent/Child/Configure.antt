-- ===== src/Subagent/Child/Configure.antt =====
-- What `configure` keeps (crates/fx-subagent/src/lib.rs, lines 399 to 423).
use fx_rs.Base.{
  ◌≤◌, ◌≡◌, refl, Bool, true, false, Option, none, some, Text, text, arith, Result, ok, err,
  saturating_add, ltb, if◌then◌else◌,
}
use fx_rs.Base.Int.{ℤ}
use fx_rs.Permission.Engine.{PermissionMode}
use fx_rs.Subagent.Domain.{
  ChildSnapshot, ConfigureInput, ManagerError, permission_rank, validate_text, max_name_bytes,
  max_model_bytes,
}
use fx_rs.Subagent.Bounds.{push_event}
use fx_rs.Subagent.Child.{
  Child, configure, set_name, set_model, set_permission_mode, and_then, configured, is_busy,
}

and_then-keeps :
    (P : ChildSnapshot → Type 0) {A B : Type 0} (r : Result ManagerError A × Child)
    (next : Child → Result ManagerError B × Child)
    → P r.1.snapshot
    → ((child : Child) → P child.snapshot → P (next child).1.snapshot)
    → P (and_then r next).1.snapshot
unfolding and_then
and_then-keeps P (ok _, child) next h hn = hn child h
and_then-keeps P (err e, child) next h hn = h

-- The changes that `configure` is made of keep `P`.
pub record KeptByChanges (P : ChildSnapshot → Type 0) (authority : PermissionMode) (now_ms : ℤ)
    : Type 0 where
  pub name : (s : ChildSnapshot) (name : Text) → P s → P (record s { name = name })
  pub model : (s : ChildSnapshot) (model : Text) → P s → P (record s { model = model })
  pub mode :
      (s : ChildSnapshot) (mode : PermissionMode)
      → permission_rank mode ≤ permission_rank authority
      → P s
      → P (record s { permission_mode = mode })
  pub event :
      (s : ChildSnapshot) (kind detail : Text)
      → P s
      → P (
          push_event
            (record s { generation = saturating_add s.generation 1; updated_at_ms = now_ms })
            kind
            detail
            now_ms)

module _ (P : ChildSnapshot → Type 0) (authority : PermissionMode) (now_ms : ℤ)
    (kept : KeptByChanges P authority now_ms) where
  set_name-keeps :
      (name : Option Text) (child : Child) → P child.snapshot → P (set_name name child).1.snapshot
  unfolding set_name
  set_name-keeps none child h = h
  set_name-keeps (some name) child h = either (validate_text (text "name") name max_name_bytes)
    where
      either :
          (r : Result ManagerError (Unit {0}))
          → let result : Result ManagerError (Unit {0}) × Child = elim r [
            | ok _ ↦ (ok tt, record child { snapshot = record child.snapshot { name = name } })
            | err e ↦ (err e, child)
          ] in
            P result.1.snapshot
      either (ok _) = kept.name child.snapshot name h
      either (err e) = h

  set_model-keeps :
      (model : Option Text) (child : Child)
      → P child.snapshot
      → P (set_model model child).1.snapshot
  unfolding set_model
  set_model-keeps none child h = h
  set_model-keeps (some model) child h = either (validate_text (text "model") model max_model_bytes)
    where
      either :
          (r : Result ManagerError (Unit {0}))
          → let result : Result ManagerError (Unit {0}) × Child = elim r [
            | ok _ ↦ (ok tt, record child { snapshot = record child.snapshot { model = model } })
            | err e ↦ (err e, child)
          ] in
            P result.1.snapshot
      either (ok _) = kept.model child.snapshot model h
      either (err e) = h

  set_permission_mode-keeps :
      (mode : Option PermissionMode) (child : Child)
      → P child.snapshot
      → P (set_permission_mode authority mode child).1.snapshot
  unfolding set_permission_mode
  set_permission_mode-keeps none child h = h
  set_permission_mode-keeps (some mode) child h =
      either (ltb (permission_rank authority) (permission_rank mode)) refl
    where
      either :
          (b : Bool)
          → ltb (permission_rank authority) (permission_rank mode) ≡ b
          → let result : Result ManagerError (Unit {0}) × Child =
              (if b
                then (
                  err (
                      ManagerError.invalid_input
                        (text "child permission mode cannot exceed caller authority")),
                  child,
                )
                else (
                  ok tt,
                  record child { snapshot = record child.snapshot { permission_mode = mode } },
                )) in
            P result.1.snapshot
      either true e = h
      either false e = kept.mode child.snapshot mode (ground arith) h

  pub configure-keeps :
      (input : ConfigureInput) (child : Child)
      → P child.snapshot
      → P (configure authority input now_ms child).1.snapshot
  unfolding configure configured
  configure-keeps input child h = either (is_busy child.snapshot.state)
    where
      changed :
          P
            (and_then
              (and_then
                (and_then (set_name input.name child) (set_model input.model))
                (set_permission_mode authority input.permission_mode))
              (configured now_ms)).1.snapshot
      changed =
          unfold configured in
          and_then-keeps P _ (configured now_ms)
            (and_then-keeps P _ (set_permission_mode authority input.permission_mode)
              (and_then-keeps P (set_name input.name child) (set_model input.model)
                (set_name-keeps input.name child h) (set_model-keeps input.model))
              (set_permission_mode-keeps input.permission_mode))
            (λ c hc.
              kept.event c.snapshot (text "configured") (text "child configuration changed") hc)

      either :
          (b : Bool)
          → let result : Result ManagerError (Unit {0}) × Child =
              (if b
                then (err (ManagerError.busy child.snapshot.id), child)
                else and_then
                    (and_then
                      (and_then (set_name input.name child) (set_model input.model))
                      (set_permission_mode authority input.permission_mode))
                    (configured now_ms)) in
            P result.1.snapshot
      either true = h
      either false = changed
