-- ===== src/Rpc/PubSub/Streams/Continued.antt =====
-- crates/execution/flashblocks/src/rpc/pubsub.rs over a series of snapshots: what a subscriber to the
-- hashes of new transactions is sent.
use mathlib.Core.List.{append_assoc, append-nil, map-append}
use ethgas_reth.Base.{
  true, List, [], ◌∷◌, ◌++◌, none, some, map, length, ◌≡◌, refl, sym, ap, ◌∙◌, arith, Bool-cases,
  inl, inr,
}
use ethgas_reth.Types.{B256, Transaction}
use ethgas_reth.Payload.{FlashBlock}
use ethgas_reth.Pending.{PendingBlocks, get_pending_transaction_hashes}
use ethgas_reth.Pending.Stream.{get_latest_flashblock_transaction_hashes}
use ethgas_reth.Pending.Delta.{total, stream-continues}
use ethgas_reth.Rpc.PubSub.{new_flashblock_transactions}
use ethgas_reth.Rpc.PubSub.Latest.{SlowSubscriberLimits}
use ethgas_reth.Rpc.PubSub.Streams.{
  Notification, tx_hash, stream_of, items_of, Turn, is_sent, pipe_from_stream,
}

module _ {S B : Type 0} where
  -- Each snapshot has one more flashblock than the one before, and that one's transactions, where the
  -- one before lists as many transactions as its flashblocks carry.
  abbrev pub IsSeries : PendingBlocks S B → List (PendingBlocks S B) → Type 0
  IsSeries p [] = Unit
  IsSeries p (q ∷ later) =
      ((fb : FlashBlock) × (added : List Transaction) × (q.flashblocks ≡ p.flashblocks ++ fb ∷ [])
        × (q.transactions ≡ p.transactions ++ added)
        × (length p.transactions ≡ total p.flashblocks))
      × IsSeries q later

  abbrev pub latest_of : PendingBlocks S B → List (PendingBlocks S B) → PendingBlocks S B
  latest_of p [] = p
  latest_of p (q ∷ later) = latest_of q later

  abbrev pub hashes_of : PendingBlocks S B → List Notification
  hashes_of p = map tx_hash (get_pending_transaction_hashes p)

  stream-IsSeries :
      (p : PendingBlocks S B) (later : List (PendingBlocks S B))
      → IsSeries p later
      → hashes_of (latest_of p later)
        ≡ hashes_of p ++ stream_of new_flashblock_transactions none (map some later)
  unfolding stream_of items_of
  stream-IsSeries p [] h = sym (append-nil (hashes_of p))
  stream-IsSeries p (q ∷ later) ((fb, added, flashblocks, transactions, counted), h) =
      let (hashes, _) =
        stream-continues p q fb added flashblocks transactions counted (λ inner. true) in
      let rest = stream_of new_flashblock_transactions none (map some later) in
      stream-IsSeries q later h
      ∙ (ap (λ (l : List B256). map tx_hash l ++ rest) hashes
          ∙ ap (λ (l : List Notification). l ++ rest)
              (map-append (λ (h : B256). tx_hash h) (get_pending_transaction_hashes p)
                (get_latest_flashblock_transaction_hashes q))
          ∙ append_assoc (hashes_of p) (map tx_hash (get_latest_flashblock_transaction_hashes q))
              rest)

module _ {A : Type 0} (limits : SlowSubscriberLimits) where
  pipe_from_stream-prefix :
      (items : List A) (turns : List Turn)
      → (left : List A) × (items ≡ pipe_from_stream limits items turns ++ left)
  unfolding pipe_from_stream
  pipe_from_stream-prefix [] turns = ([], refl)
  pipe_from_stream-prefix (item ∷ items) [] = (item ∷ items, refl)
  pipe_from_stream-prefix (item ∷ items) (turn ∷ turns) = elim (Bool-cases (is_sent limits turn)) [
    | inl sent ↦
        let (left, e) = pipe_from_stream-prefix items turns in (left, ground (arith, sent, e))
    | inr stopped ↦ (item ∷ items, ground (arith, stopped))
  ]

  -- There is a turn for each item, and each is sent.
  abbrev pub AreSent : List A → List Turn → Type 0
  AreSent [] turns = Unit
  AreSent (item ∷ items) [] = ⊥
  AreSent (item ∷ items) (turn ∷ turns) = (is_sent limits turn ≡ true) × AreSent items turns

  pipe_from_stream-AreSent :
      (items : List A) (turns : List Turn)
      → AreSent items turns
      → pipe_from_stream limits items turns ≡ items
  unfolding pipe_from_stream
  pipe_from_stream-AreSent [] turns h = refl
  pipe_from_stream-AreSent (item ∷ items) [] h = absurd h
  pipe_from_stream-AreSent (item ∷ items) (turn ∷ turns) (sent, h) =
      ground (arith, sent, pipe_from_stream-AreSent items turns h)

module _ {S B : Type 0} (limits : SlowSubscriberLimits) (p : PendingBlocks S B)
    (later : List (PendingBlocks S B)) (turns : List Turn) where
  -- What is sent of the hashes.
  abbrev pub sent_of : List Notification
  sent_of =
      pipe_from_stream limits (stream_of new_flashblock_transactions none (map some later)) turns

  -- Over a series of snapshots, each with one more flashblock and its transactions, the hashes of
  -- the last are those of the first, what a subscriber to the hashes is sent, and a rest; nothing
  -- is left out between. Where each item is sent there is no rest.
  pub sent-IsSeries :
      IsSeries p later
      → ((left : List Notification) × (hashes_of (latest_of p later)
            ≡ hashes_of p ++ (sent_of ++ left)))
        × (AreSent limits (stream_of new_flashblock_transactions none (map some later)) turns
            → hashes_of (latest_of p later) ≡ hashes_of p ++ sent_of)
  sent-IsSeries h =
      let stream = stream_of new_flashblock_transactions none (map some later) in
      let whole = stream-IsSeries p later h in
      let (left, e) = pipe_from_stream-prefix limits stream turns in
      (
        (left, whole ∙ ap (λ (l : List Notification). hashes_of p ++ l) e),
        λ sent.
            whole
            ∙ ap (λ (l : List Notification). hashes_of p ++ l)
                (sym (pipe_from_stream-AreSent limits stream turns sent)),
      )
