-- ===== src/Agent/Targets/Deferral.antt =====
-- Which calls new project context defers (crates/fx-core/src/agent.rs, lines 415 to 484).
use fx_rs.Base.{
  ℕ, zero, suc, ◌≡◌, refl, ap, Bool, false, ◌&&◌, Option, none, some, List, [], ◌∷◌, Text, Result,
  ok, err, length, take, drop, replicate, any, count_while, is_nil, arith, if_both, option_both,
}
use fx_rs.Base.Yields.{Any, Meets, Yields, Yields-weaken}
use fx_rs.Agent.Targets.{
  reads, parallel_read_prefix_len, call_targets, collect_targets, insert_targets, settle_context,
  select_scoped_project_context,
}
use fx_rs.Agent.Types.{Agent, Failure, RunState}
use fx_rs.Message.{ToolCall}

-- One flag for each call, and no call that only reads has its flag set.
pub data SparesReads {W V : Type 0} (agent : Agent W V) : List ToolCall → List Bool → Type 0 where
  nil : SparesReads agent [] []
  cons :
      (call : ToolCall) (calls : List ToolCall) (deferred : Bool) (flags : List Bool)
      → (reads agent call && deferred) ≡ false
      → SparesReads agent calls flags
      → SparesReads agent (call ∷ calls) (deferred ∷ flags)

module _ {W V : Type 0} (agent : Agent W V) where
  call_targets-reads :
      (w : W) (call : ToolCall) → (reads agent call && (call_targets agent w call).1) ≡ false
  unfolding reads call_targets
  call_targets-reads w call = ground arith

  collect_targets-Spares :
      (w : W) (calls : List ToolCall) (targets : List Text)
      → SparesReads agent calls (collect_targets agent w calls targets).1
  unfolding collect_targets
  collect_targets-Spares w [] targets = SparesReads.nil
  collect_targets-Spares w (call ∷ calls) targets =
      SparesReads.cons call calls _ _ (call_targets-reads w call)
        (collect_targets-Spares w calls (insert_targets (call_targets agent w call).0 targets))

  none-Spares : (calls : List ToolCall) → SparesReads agent calls (replicate (length calls) false)
  none-Spares [] = SparesReads.nil
  none-Spares (call ∷ calls) = SparesReads.cons call calls _ _ (ground arith) (none-Spares calls)

  settle_context-Spares :
      (calls : List ToolCall) (deferred none_deferred : List Bool) (r : Result Text (Option Text))
      (s : RunState W V)
      → SparesReads agent calls deferred
      → SparesReads agent calls none_deferred
      → Meets {E = Failure} Any
          (λ (a : Option Text × List Bool). SparesReads agent calls a.1)
          (settle_context deferred none_deferred r s).0
  unfolding settle_context
  settle_context-Spares calls deferred none_deferred (err e) s h k = tt
  settle_context-Spares calls deferred none_deferred (ok none) s h k = k
  settle_context-Spares calls deferred none_deferred (ok (some delta)) s h k = h

  select-Spares :
      (calls : List ToolCall)
      → Yields Any
          (λ (a : Option Text × List Bool). SparesReads agent calls a.1)
          (select_scoped_project_context agent calls)
  unfolding select_scoped_project_context
  select-Spares calls = record {
    from = λ s. option_both Spared agent.context.project_context _ _ (none-Spares calls) (λ select.
        if_both Spared (is_nil (collect_targets agent s.world calls []).0) _ _ (none-Spares calls) (
          settle_context-Spares calls _ _ _ _ (collect_targets-Spares s.world calls [])
            (none-Spares calls)));
  }
    where
      Spared : Result Failure (Option Text × List Bool) × RunState W V → Type 0
      Spared r = Meets Any (λ (a : Option Text × List Bool). SparesReads agent calls a.1) r.0

  length-Spares :
      (calls : List ToolCall) (flags : List Bool)
      → SparesReads agent calls flags
      → length flags ≡ length calls
  length-Spares _ _ SparesReads.nil = refl
  length-Spares _ _ (SparesReads.cons call calls deferred flags h hs) =
      ap suc (length-Spares calls flags hs)

  drop-Spares :
      (n : ℕ) (calls : List ToolCall) (flags : List Bool)
      → SparesReads agent calls flags
      → SparesReads agent (drop n calls) (drop n flags)
  drop-Spares zero calls flags h = h
  drop-Spares (suc n) _ _ SparesReads.nil = SparesReads.nil
  drop-Spares (suc n) _ _ (SparesReads.cons call calls deferred flags h hs) =
      drop-Spares n calls flags hs

  prefix-Spares :
      (calls : List ToolCall) (flags : List Bool)
      → SparesReads agent calls flags
      → any (λ (b : Bool). b) (take (count_while (reads agent) calls) flags) ≡ false
  unfolding count_while
  prefix-Spares _ _ SparesReads.nil = refl
  prefix-Spares _ _ (SparesReads.cons call calls deferred flags h hs) =
      ground (arith, prefix-Spares calls flags hs)

  -- The flags of the calls that new project context defers: there is one for each call, and wherever
  -- the execution of the calls starts a group of parallel reads, no call of the group is deferred.
  pub select_scoped_project_context-Spares :
      (calls : List ToolCall)
      → Yields Any
          (λ (a : Option Text × List Bool).
            (length a.1 ≡ length calls)
            × ((n : ℕ)
                → any
                    (λ (b : Bool). b)
                    (take (parallel_read_prefix_len agent (drop n calls)) (drop n a.1))
                  ≡ false))
          (select_scoped_project_context agent calls)
  unfolding parallel_read_prefix_len
  select_scoped_project_context-Spares calls =
      Yields-weaken _ (select-Spares calls)
        (λ a h. (length-Spares _ _ h, λ n. prefix-Spares _ _ (drop-Spares n calls a.1 h)))
