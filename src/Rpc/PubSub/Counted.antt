-- ===== src/Rpc/PubSub/Counted.antt =====
-- crates/execution/flashblocks/src/rpc/pubsub.rs: the counts of the connections against the slots that are
-- live.
use mathlib.Core.Path.{subst}
use ethgas_reth.Base.{
  ℕ, ltb, List, [], ◌∷◌, map, lookup, get_elem?, ◌≡◌, refl, ap, arith, Bool-cases, Option-cases,
  inl, inr, sym, ◌∙◌,
}
use ethgas_reth.Rpc.PubSub.{
  FlashblocksSubscriptionKind, slot_of, cap, take_slot, drop_slot, Server, Call, subscribe, finish,
  remove_at, grant, step, run, new,
}
use ethgas_reth.Rpc.PubSub.Spec.{holder, held_by, spec_step, spec_run, IsCounted}
use ethgas_reth.Rpc.PubSub.Taking.{take_slot-granted, take_slot-refused}
use ethgas_reth.Rpc.PubSub.Dropping.{
  granted, not_granted, remove_at-map, remove_at-beyond, drop_slot-IsCounted,
}

-- A call keeps the counts right, and does to the holders what the specification does.
abbrev IsStep : Call → Server → Server → Type 0
IsStep call s after =
    IsCounted after.counts (map holder after.live)
    × (map holder after.live ≡ spec_step call (map holder s.live))

subscribe-IsStep :
    (c : ℕ) (kind : FlashblocksSubscriptionKind) (s : Server)
    → IsCounted s.counts (map holder s.live)
    → IsStep (subscribe c kind) s (step (subscribe c kind) s)
unfolding step spec_step
subscribe-IsStep c kind s h =
    elim (Bool-cases (ltb (held_by c (slot_of kind) (map holder s.live)) (cap (slot_of kind)))) [
      | inl below ↦
          let (slot, given, own, next) =
            take_slot-granted s.counts (map holder s.live) c (slot_of kind) h below in
          let after : grant (take_slot c (slot_of kind) s.counts) s.live
              ≡ record { counts = (take_slot c (slot_of kind) s.counts).0; live = slot ∷ s.live } =
            granted (take_slot c (slot_of kind) s.counts) s.live slot given in
          subst (IsStep (subscribe c kind) s) (sym after) (rw own next, rw own (rw below refl))
      | inr full ↦
          let (refused, next) =
            take_slot-refused s.counts (map holder s.live) c (slot_of kind) h full in
          let after : grant (take_slot c (slot_of kind) s.counts) s.live
              ≡ record { counts = (take_slot c (slot_of kind) s.counts).0; live = s.live } =
            not_granted (take_slot c (slot_of kind) s.counts) s.live refused in
          subst (IsStep (subscribe c kind) s) (sym after) (next, rw full refl)
    ]

finish-IsStep :
    (i : ℕ) (s : Server)
    → IsCounted s.counts (map holder s.live)
    → IsStep (finish i) s (step (finish i) s)
unfolding step spec_step
finish-IsStep i s h = elim (Option-cases (get_elem? s.live i)) [
  | inl beyond ↦
      let after : step (finish i) s ≡ s = ground (arith, beyond) in
      subst (IsStep (finish i) s) (sym after)
        (h, ap (map holder) (sym (remove_at-beyond i s.live beyond)) ∙ remove_at-map i s.live)
  | inr (slot, e) ↦
      let after : step (finish i) s
          ≡ record { counts = drop_slot slot s.counts; live = remove_at i s.live } =
        ground (arith, e) in
      subst (IsStep (finish i) s) (sym after)
        (drop_slot-IsCounted s.counts s.live i slot h e, remove_at-map i s.live)
]

run-IsCounted :
    (calls : List Call) (s : Server)
    → IsCounted s.counts (map holder s.live)
    → IsCounted (run calls s).counts (map holder (run calls s).live)
      × (map holder (run calls s).live ≡ spec_run calls (map holder s.live))
unfolding run spec_run
run-IsCounted [] s h = (h, refl)
run-IsCounted (subscribe c kind ∷ calls) s h =
    let (next, same) = subscribe-IsStep c kind s h in
    let (last, rest) = run-IsCounted calls (step (subscribe c kind) s) next in
    (last, rest ∙ ap (spec_run calls) same)
run-IsCounted (finish i ∷ calls) s h =
    let (next, same) = finish-IsStep i s h in
    let (last, rest) = run-IsCounted calls (step (finish i) s) next in
    (last, rest ∙ ap (spec_run calls) same)

-- Whatever subscriptions are asked for and end, the live slots have the holders that the
-- specification allows, which gives a connection a slot exactly while it holds fewer of the kind
-- than its cap; and the entry of a connection counts its live slots of both kinds, at most 4 and
-- 32, and is there only while it has one.
pub run-new-IsCounted :
    (calls : List Call)
    → (map holder (run calls new).live ≡ spec_run calls [])
      × IsCounted (run calls new).counts (map holder (run calls new).live)
unfolding new lookup
run-new-IsCounted calls =
    let (counted, same) = run-IsCounted calls new (λ c. (refl, refl)) in (same, counted)
