-- ===== src/Validation/Reconcile.antt =====
-- `CanonicalBlockReconciler` of crates/execution/flashblocks/src/validation.rs.
use ethgas_reth.Base.{
  ℕ, ◌+◌, ◌-◌, ◌≤◌, ◌<◌, ◌≡◌, ◌↔◌, leb, ltb, if◌then◌else◌, arith, Bool, true, false, Option, some,
}
use ethgas_reth.Types.{BlockNumber}

pub data ReconciliationStrategy : Type 0 where
  catch_up : ReconciliationStrategy
  handle_reorg : ReconciliationStrategy
  depth_limit_exceeded : (depth max_depth : ℕ) → ReconciliationStrategy
  continue : ReconciliationStrategy
  no_pending_state : ReconciliationStrategy

-- What is left once there is pending state.
reconcile_span : (earliest latest canonical max_depth : ℕ) → Bool → ReconciliationStrategy
reconcile_span earliest latest canonical max_depth requires_rebuild =
    if leb latest canonical
    then catch_up
    else if requires_rebuild
    then handle_reorg
    else if ltb max_depth (canonical - earliest)
    then depth_limit_exceeded (canonical - earliest) max_depth
    else continue

unfoldable pub reconcile :
    Option BlockNumber → Option BlockNumber → BlockNumber → ℕ → Bool → ReconciliationStrategy
unfolding reconcile_span
reconcile (some earliest) (some latest) canonical max_depth requires_rebuild =
    reconcile_span earliest latest canonical max_depth requires_rebuild
reconcile _ _ canonical max_depth requires_rebuild = no_pending_state

-- The situation that each strategy is for.
abbrev pub Fits : (e l c d : ℕ) → Bool → ReconciliationStrategy → Type 0
Fits e l c d rebuild catch_up = l ≤ c
Fits e l c d rebuild handle_reorg = (c < l) × (rebuild ≡ true)
Fits e l c d rebuild (depth_limit_exceeded depth max_depth) =
    (c < l) × (rebuild ≡ false) × (max_depth ≡ d) × (d < depth) × (c ≡ e + depth)
Fits e l c d rebuild continue = (c < l) × (rebuild ≡ false) × (c ≤ e + d)
Fits e l c d rebuild no_pending_state = ⊥

module _ (e l c d : ℕ) (rebuild : Bool) where
  reconcile_sound : Fits e l c d rebuild (reconcile (some e) (some l) c d rebuild)
  unfolding reconcile
  reconcile_sound = ground arith

  reconcile_complete :
      (s : ReconciliationStrategy)
      → Fits e l c d rebuild s
      → reconcile (some e) (some l) c d rebuild ≡ s
  unfolding reconcile
  reconcile_complete catch_up h = ground arith
  reconcile_complete handle_reorg h = ground arith
  reconcile_complete (depth_limit_exceeded k m) h = ground arith
  reconcile_complete continue h = ground arith
  reconcile_complete no_pending_state h = elim h [ ]

  -- With pending state from `e` to `l`, the strategy is the one that fits the situation.
  pub reconcile-eq_iff_Fits :
      (s : ReconciliationStrategy)
      → (reconcile (some e) (some l) c d rebuild ≡ s) ↔ Fits e l c d rebuild s
  reconcile-eq_iff_Fits s = ((λ h. rw h at reconcile_sound), reconcile_complete s)
