-- ===== src/Tools/Registry/Order.antt =====
-- The registry in the order of registration (crates/fx-core/src/tool.rs, lines 334 to 358).
use fx_rs.Base.{
  ◌≡◌, refl, sym, ap, Bool, true, false, Option, some, List, [], ◌∷◌, ◌++◌, Text, text_eq,
  text_eq_sound, text_eq_refl, if◌then◌else◌, Result, ok, err, arith, Bool-cases, if_both,
  append_nil, inl, inr,
}
use mathlib.Core.Path.{subst}
use fx_rs.Gateway.Types.{ToolAdvertisement}
use fx_rs.Tools.Registry.{
  ToolRegistry, RegistryError, find_tool, is_found, register, advertisement, advertise,
  advertisements,
}
use fx_rs.Tools.Types.{Tool}

module _ {W V : Type 0} where
  -- The map has a tool for each of the names.
  pub data AllFound (tools : List (Text × Tool W V)) : List Text → Type 0 where
    nil : AllFound tools []
    cons :
        (name : Text) (names : List Text)
        → is_found (find_tool tools name) ≡ true
        → AllFound tools names
        → AllFound tools (name ∷ names)

  -- A name that the map has differs from one that it does not have.
  found-differs :
      (tools : List (Text × Tool W V)) (key name : Text)
      → is_found (find_tool tools key) ≡ false
      → is_found (find_tool tools name) ≡ true
      → text_eq key name ≡ false
  found-differs tools key name absent present = elim (Bool-cases (text_eq key name)) [
    | inl same ↦
        let e : is_found (find_tool tools key) ≡ true =
          subst (λ n. is_found (find_tool tools n) ≡ true) (sym (text_eq_sound key name same))
            present in
        cc
    | inr other ↦ other
  ]

  find_tool-same :
      (tools : List (Text × Tool W V)) (tool : Tool W V)
      → find_tool ((tool.name, tool) ∷ tools) tool.name ≡ some tool
  unfolding find_tool
  find_tool-same tools tool = ground (arith, text_eq_refl tool.name)

  module _ (tools : List (Text × Tool W V)) (tool : Tool W V) where
    AllFound-cons :
        (names : List Text) → AllFound tools names → AllFound ((tool.name, tool) ∷ tools) names
    unfolding find_tool
    AllFound-cons _ AllFound.nil = AllFound.nil
    AllFound-cons _ (AllFound.cons name names h hs) =
        AllFound.cons name names
          (if_both (λ (o : Option (Tool W V)). is_found o ≡ true) (text_eq tool.name name) _ _ refl
            h)
          (AllFound-cons names hs)

    AllFound-last :
        (names : List Text)
        → AllFound tools names
        → AllFound ((tool.name, tool) ∷ tools) (names ++ tool.name ∷ [])
    AllFound-last _ AllFound.nil =
        AllFound.cons tool.name [] (ap is_found (find_tool-same tools tool)) AllFound.nil
    AllFound-last _ (AllFound.cons name names h hs) =
        AllFound.cons name _
          (unfold find_tool in
            if_both (λ (o : Option (Tool W V)). is_found o ≡ true) (text_eq tool.name name)
              (some tool) (find_tool tools name) refl h)
          (AllFound-last names hs)

    find_tool-other :
        (name : Text)
        → text_eq tool.name name ≡ false
        → find_tool ((tool.name, tool) ∷ tools) name ≡ find_tool tools name
    unfolding find_tool
    find_tool-other name h = ground arith

    -- A tool whose name is new comes last.
    advertise-last :
        (names : List Text)
        → is_found (find_tool tools tool.name) ≡ false
        → AllFound tools names
        → advertise ((tool.name, tool) ∷ tools) (names ++ tool.name ∷ [])
          ≡ advertise tools names ++ advertisement tool ∷ []
    unfolding advertise
    advertise-last _ absent AllFound.nil = ground (arith, find_tool-same tools tool)
    advertise-last _ absent (AllFound.cons name names h hs) = ground (
      arith,
      find_tool-other name (found-differs tools tool.name name absent h),
      advertise-last names absent hs,
    )

  -- The tools of a refusal, or of a registration.
  abbrev pub registered : Tool W V → Result RegistryError (Unit {0}) → List (ToolAdvertisement V)
  registered tool (ok _) = advertisement tool ∷ []
  registered tool (err e) = []

  -- In a registry that has a tool for each name of its order, a registration that succeeds adds its
  -- tool's advertisement behind the others; one that fails, for a name that is there already, leaves
  -- them as they are. The registry behind has a tool for each name again.
  pub register-advertisements :
      (tool : Tool W V) (registry : ToolRegistry W V)
      → AllFound registry.tools registry.order
      → let (result, registry') = register tool registry in
        AllFound registry'.tools registry'.order
        × (advertisements registry' ≡ advertisements registry ++ registered tool result)
  unfolding register advertisements
  register-advertisements tool registry valid =
      either (is_found (find_tool registry.tools tool.name)) refl
    where
      either :
          (b : Bool)
          → is_found (find_tool registry.tools tool.name) ≡ b
          → let r : Result RegistryError (Unit {0}) × ToolRegistry W V =
              (if b then (err (RegistryError.duplicate tool.name), registry) else (
                ok tt,
                record {
                  tools = (tool.name, tool) ∷ registry.tools;
                  order = registry.order ++ tool.name ∷ [];
                },
              )) in
            AllFound r.1.tools r.1.order
            × (advertise r.1.tools r.1.order
                ≡ advertise registry.tools registry.order ++ registered tool r.0)
      either true e = (valid, sym (append_nil _))
      either false e = (
        AllFound-last registry.tools tool registry.order valid,
        advertise-last registry.tools tool registry.order e valid,
      )
