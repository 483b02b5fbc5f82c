-- ===== src/Subscription/Connection/Forwarding.antt =====
-- Which flashblocks crates/execution/flashblocks/src/subscription.rs hands on.
use mathlib.Core.List.{append_assoc, append-nil}
use ethgas_reth.Base.{
  suc, ◌≡◌, refl, sym, ap, ◌∙◌, Option-cases, inl, inr, Bool, true, false, List, [], ◌∷◌, ◌++◌,
  Option,
}
use ethgas_reth.Fallible.{Fallible, done, failed}
use ethgas_reth.Payload.{FlashBlock}
use ethgas_reth.Subscription.Wire.{
  Decoders, WireShape, try_decode_message, try_decode_plaintext_message,
}
use ethgas_reth.Subscription.Connection.{
  Subscriber, Turn, incoming, tick, binary, text, close, pong, read_error, other, forward,
  record_wire_shape, step, run_connection,
}

abbrev decoded_payload : Fallible (FlashBlock × WireShape) → List FlashBlock
decoded_payload (failed reason) = []
decoded_payload (done (payload, shape)) = payload ∷ []

-- What the messages decode to, each by itself.
unfoldable pub decoded : Decoders → List Turn → List FlashBlock
decoded decoders [] = []
decoded decoders (incoming (binary bytes) ∷ turns) =
    decoded_payload (try_decode_message decoders bytes) ++ decoded decoders turns
decoded decoders (incoming (text content) ∷ turns) =
    decoded_payload (try_decode_plaintext_message decoders content) ++ decoded decoders turns
decoded decoders (_ ∷ turns) = decoded decoders turns

forward-sent :
    (d : Fallible (FlashBlock × WireShape)) (s : Subscriber)
    → (forward d s).sent ≡ s.sent ++ decoded_payload d
unfolding forward record_wire_shape
forward-sent (failed reason) s = sym (append-nil s.sent)
forward-sent (done (payload, shape)) s = refl

module _ (decoders : Decoders) where
  step-sent :
      (turn : Turn) (awaiting : Bool) (s : Subscriber)
      → (step decoders turn awaiting s).0.sent ≡ s.sent ++ decoded decoders (turn ∷ [])
  unfolding step decoded
  step-sent (incoming (binary bytes)) awaiting s =
      let d = try_decode_message decoders bytes in
      forward-sent d (record s { upstream_messages = suc s.upstream_messages })
      ∙ ap (◌++◌ s.sent) (sym (append-nil (decoded_payload d)))
  step-sent (incoming (text content)) awaiting s =
      let d = try_decode_plaintext_message decoders content in
      forward-sent d (record s { upstream_messages = suc s.upstream_messages })
      ∙ ap (◌++◌ s.sent) (sym (append-nil (decoded_payload d)))
  step-sent (incoming close) awaiting s = sym (append-nil s.sent)
  step-sent (incoming pong) awaiting s = sym (append-nil s.sent)
  step-sent (incoming read_error) awaiting s = sym (append-nil s.sent)
  step-sent (incoming other) awaiting s = sym (append-nil s.sent)
  step-sent (tick b) true s = sym (append-nil s.sent)
  step-sent (tick true) false s = sym (append-nil s.sent)
  step-sent (tick false) false s = sym (append-nil s.sent)

  decoded-append :
      (turn : Turn) (turns : List Turn)
      → decoded decoders (turn ∷ turns) ≡ decoded decoders (turn ∷ []) ++ decoded decoders turns
  unfolding decoded
  decoded-append (incoming (binary bytes)) turns =
      ap (λ (x : List FlashBlock). x ++ decoded decoders turns)
        (sym (append-nil (decoded_payload (try_decode_message decoders bytes))))
  decoded-append (incoming (text content)) turns =
      ap (λ (x : List FlashBlock). x ++ decoded decoders turns)
        (sym (append-nil (decoded_payload (try_decode_plaintext_message decoders content))))
  decoded-append (incoming close) turns = refl
  decoded-append (incoming pong) turns = refl
  decoded-append (incoming read_error) turns = refl
  decoded-append (incoming other) turns = refl
  decoded-append (tick b) turns = refl

  -- The turns that were come to, whose messages are what is sent.
  abbrev pub IsForwarded : List Turn → Subscriber → Subscriber × Option Bool × List Turn → Type 0
  IsForwarded turns s (s', standing, unread) =
      (read : List Turn) × (turns ≡ read ++ unread) × (s'.sent ≡ s.sent ++ decoded decoders read)

  -- A connection comes to the first of its turns and leaves the others unread, and adds to the
  -- mailbox exactly what the messages among them decode to, each by itself, in their order.
  pub run_connection-IsForwarded :
      (turns : List Turn) (awaiting : Bool) (s : Subscriber)
      → IsForwarded turns s (run_connection decoders turns awaiting s)
  unfolding run_connection decoded
  run_connection-IsForwarded [] awaiting s = ([], refl, sym (append-nil s.sent))
  run_connection-IsForwarded (turn ∷ turns) awaiting s =
      let sent = step-sent turn awaiting s in
      elim (Option-cases (step decoders turn awaiting s).1) [
        | inl left ↦ rw (left, run_connection) (turn ∷ [], refl, sent)
        | inr (awaiting', stands) ↦
            let (read, e, more) =
              run_connection-IsForwarded turns awaiting' (step decoders turn awaiting s).0 in
            rw (stands, run_connection)
              (
                turn ∷ read,
                ap (◌∷◌ turn) e,
                more
                    ∙ ap (λ (x : List FlashBlock). x ++ decoded decoders read) sent
                    ∙ append_assoc s.sent (decoded decoders (turn ∷ [])) (decoded decoders read)
                    ∙ ap (◌++◌ s.sent) (sym (decoded-append turn read)),
              )
      ]
