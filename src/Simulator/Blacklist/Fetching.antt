-- ===== src/Simulator/Blacklist/Fetching.antt =====
-- The task of crates/execution/simulator/src/validation/mod.rs that fetches the disallow list, one
-- answer of the provider at a time.
use ethgas_reth.Base.{
  ℕ, ◌≡◌, ◌↔◌, refl, arith, Bool, true, false, List, [], ◌∷◌, Option, none, some, Bool-cases, inl,
  inr, length, add_to, opt_eq, opt_eq_iff, Map, lookup, insert, lookup-insert, ◌==◌, if◌then◌else◌,
  IsDistinct, add_to-IsDistinct,
}
use ethgas_reth.Types.{Address}
use ethgas_reth.Simulator.Blacklist.{
  Codec, DisallowListPayload, into_addresses, hash_disallow_list, changed_disallow_hash,
}

-- The shared set, the variables of the task, and its gauges; that of a digest is one while the
-- digest is current.
pub record Fetcher : Type 0 where
  pub disallow : List Address
  pub current_hash : Option ℕ
  pub loaded : Bool
  pub disallow_size : ℕ
  pub disallow_loaded : ℕ
  pub disallow_hash : Map ℕ

abbrev pub new : Fetcher
new = record {
  disallow = [];
  current_hash = none;
  loaded = false;
  disallow_size = 0;
  disallow_loaded = 0;
  disallow_hash = [];
}

-- What a request gives; a failure is only logged.
pub data Answer : Type 0 where
  fetched : DisallowListPayload → Answer
  unreadable refused unreachable : Answer

unfoldable pub insert_all : List Address → List Address → List Address
unfolding add_to
insert_all set [] = set
insert_all set (a ∷ addresses) = insert_all (add_to a set) addresses

-- The gauge of the digest before goes to zero, then that of the new digest to one.
abbrev pub set_gauges : Option ℕ → ℕ → Map ℕ → Map ℕ
set_gauges none new_hash gauges = insert new_hash 1 gauges
set_gauges (some prev) new_hash gauges = insert new_hash 1 (insert prev 0 gauges)

set_gauges_one :
    (current : Option ℕ) (new_hash : ℕ) (gauges : Map ℕ)
    → ((h : ℕ) → (lookup h gauges ≡ some 1) ↔ (current ≡ some h))
    → (h : ℕ) → (lookup h (set_gauges current new_hash gauges) ≡ some 1) ↔ (some new_hash ≡ some h)
set_gauges_one none new_hash gauges one h = elim (Bool-cases (new_hash == h)) [
  | inl same ↦ ground (arith, lookup-insert new_hash h 1 gauges, same)
  | inr other ↦ ground (arith, lookup-insert new_hash h 1 gauges, other, one h)
]
set_gauges_one (some prev) new_hash gauges one h = elim (Bool-cases (new_hash == h)) [
  | inl same ↦ ground (arith, lookup-insert new_hash h 1 (insert prev 0 gauges), same)
  | inr other ↦ ground (
    arith,
    lookup-insert new_hash h 1 (insert prev 0 gauges),
    other,
    lookup-insert prev h 0 gauges,
    one h,
  )
]

module _ (codec : Codec) where
  unfoldable pub on_answer : Answer → Fetcher → Fetcher
  unfolding into_addresses changed_disallow_hash insert_all
  on_answer (fetched payload) f =
      let disallow = insert_all [] (into_addresses codec payload) in
      let kept = record f {
        disallow = disallow;
        disallow_size = length disallow;
        loaded = true;
        disallow_loaded = 1;
      } in
      elim (changed_disallow_hash codec disallow f.current_hash) [
        | none ↦ kept
        | some new_hash ↦ record kept {
          disallow_hash = set_gauges f.current_hash new_hash f.disallow_hash;
          current_hash = some new_hash;
        }
      ]
  on_answer _ f = f

  unfoldable pub run : List Answer → Fetcher → Fetcher
  unfolding on_answer
  run [] f = f
  run (first ∷ rest) f = run rest (on_answer first f)

  -- The set has no repetitions; once a list is loaded, the current digest is that of the set, and
  -- before there is none; and the one gauge that stands at one is that of the current digest.
  abbrev pub IsReported : Fetcher → Type 0
  IsReported f =
      IsDistinct f.disallow
      × (f.current_hash ≡ (if f.loaded then some (hash_disallow_list codec f.disallow) else none))
      × ((h : ℕ) → (lookup h f.disallow_hash ≡ some 1) ↔ (f.current_hash ≡ some h))

  insert_all-IsDistinct :
      (set addresses : List Address) → IsDistinct set → IsDistinct (insert_all set addresses)
  unfolding insert_all
  insert_all-IsDistinct set [] d = d
  insert_all-IsDistinct set (a ∷ addresses) d =
      insert_all-IsDistinct (add_to a set) addresses (add_to-IsDistinct a set d)

  on_answer-IsReported : (a : Answer) (f : Fetcher) → IsReported f → IsReported (on_answer a f)
  unfolding on_answer changed_disallow_hash
  on_answer-IsReported (fetched payload) f (d, current, gauges) =
      let disallow = insert_all [] (into_addresses codec payload) in
      let d' = insert_all-IsDistinct [] (into_addresses codec payload) tt in
      let hash = hash_disallow_list codec disallow in
      elim (Bool-cases (opt_eq f.current_hash (some hash))) [
        | inl same ↦
            rw (same, on_answer, changed_disallow_hash)
              (d', (opt_eq_iff f.current_hash (some hash)).0 same, gauges)
        | inr changed ↦
            rw (changed, on_answer, changed_disallow_hash)
              (d', refl, set_gauges_one f.current_hash hash f.disallow_hash gauges)
      ]
  on_answer-IsReported unreadable f r = r
  on_answer-IsReported refused f r = r
  on_answer-IsReported unreachable f r = r

  run-IsReported : (answers : List Answer) (f : Fetcher) → IsReported f → IsReported (run answers f)
  unfolding run
  run-IsReported [] f r = r
  run-IsReported (a ∷ rest) f r = run-IsReported rest (on_answer a f) (on_answer-IsReported a f r)

  -- After any answers of the provider, the disallow list has no repetitions; once a list was
  -- loaded, the current digest is that of the list, and before there is none; and the gauges that
  -- stand at one are exactly that of the current digest.
  pub run-new-IsReported : (answers : List Answer) → IsReported (run answers new)
  unfolding lookup
  run-new-IsReported answers = run-IsReported answers new (tt, refl, λ h. ((λ e. cc), (λ e. cc)))
