-- ===== src/Subscription/Connection/Pings.antt =====
-- How crates/execution/flashblocks/src/subscription.rs finds that the upstream is gone, and how long
-- it waits before the next try.
use ethgas_reth.Base.{
  suc, ◌≤◌, ◌≡◌, refl, ap, ◌∙◌, arith, Option-cases, inl, inr, Bool, true, false, List, [], ◌∷◌,
  ◌++◌, Option, none,
}
use ethgas_reth.Fallible.{Fallible, done, failed}
use ethgas_reth.Payload.{FlashBlock}
use ethgas_reth.Subscription.Wire.{
  Decoders, WireShape, try_decode_message, try_decode_plaintext_message,
}
use ethgas_reth.Subscription.Connection.{
  Subscriber, Turn, Attempt, incoming, tick, binary, text, close, pong, read_error, other, refused,
  connected, next_backoff, sleep, forward, record_wire_shape, step, run_connection, attempt, run,
  new,
}

-- Messages that neither answer a ping nor end the connection.
abbrev pub IsQuiet : List Turn → Type 0
IsQuiet [] = Unit {0}
IsQuiet (incoming (binary bytes) ∷ turns) = IsQuiet turns
IsQuiet (incoming (text content) ∷ turns) = IsQuiet turns
IsQuiet (incoming other ∷ turns) = IsQuiet turns
IsQuiet (_ ∷ turns) = ⊥

-- The connection is left for want of a pong, at the second of two pings.
abbrev pub IsGivenUp : Subscriber → List Turn → Subscriber × Option Bool × List Turn → Type 0
IsGivenUp s rest (s', standing, unread) =
    (standing ≡ none)
    × (unread ≡ rest)
    × (s'.reconnect_attempts ≡ suc s.reconnect_attempts)
    × (s'.backoff ≡ next_backoff s.backoff)

forward-same :
    (d : Fallible (FlashBlock × WireShape)) (s : Subscriber)
    → ((forward d s).reconnect_attempts ≡ s.reconnect_attempts)
      × ((forward d s).backoff ≡ s.backoff)
unfolding forward record_wire_shape
forward-same (failed reason) s = (refl, refl)
forward-same (done (payload, shape)) s = (refl, refl)

module _ (decoders : Decoders) where
  quiet-IsGivenUp :
      (quiet rest : List Turn) (sent : Bool) (s : Subscriber)
      → IsQuiet quiet
      → IsGivenUp s rest (run_connection decoders (quiet ++ tick sent ∷ rest) true s)
  unfolding run_connection
  quiet-IsGivenUp [] rest sent s q = (refl, refl, refl, refl)
  quiet-IsGivenUp (incoming (binary bytes) ∷ quiet) rest sent s q =
      let s1 = record s { upstream_messages = suc s.upstream_messages } in
      let d = try_decode_message decoders bytes in
      let (left, unread, attempts, backoff) = quiet-IsGivenUp quiet rest sent (forward d s1) q in
      let (same_attempts, same_backoff) = forward-same d s1 in
      (left, unread, attempts ∙ ap suc same_attempts, backoff ∙ ap next_backoff same_backoff)
  quiet-IsGivenUp (incoming (text content) ∷ quiet) rest sent s q =
      let s1 = record s { upstream_messages = suc s.upstream_messages } in
      let d = try_decode_plaintext_message decoders content in
      let (left, unread, attempts, backoff) = quiet-IsGivenUp quiet rest sent (forward d s1) q in
      let (same_attempts, same_backoff) = forward-same d s1 in
      (left, unread, attempts ∙ ap suc same_attempts, backoff ∙ ap next_backoff same_backoff)
  quiet-IsGivenUp (incoming other ∷ quiet) rest sent s q =
      quiet-IsGivenUp quiet rest sent (record s { upstream_messages = suc s.upstream_messages }) q
  quiet-IsGivenUp (incoming close ∷ quiet) rest sent s q = elim q [ ]
  quiet-IsGivenUp (incoming pong ∷ quiet) rest sent s q = elim q [ ]
  quiet-IsGivenUp (incoming read_error ∷ quiet) rest sent s q = elim q [ ]
  quiet-IsGivenUp (tick b ∷ quiet) rest sent s q = elim q [ ]

  -- When a ping is sent and nothing that comes in before the next tick is a pong or ends the
  -- connection, the connection is left at that tick: nothing behind the tick is read, one attempt
  -- to reconnect is counted, and the backoff doubles up to its maximum.
  pub run_connection-IsGivenUp :
      (quiet rest : List Turn) (sent : Bool) (s : Subscriber)
      → IsQuiet quiet
      → IsGivenUp s rest (run_connection decoders (tick true ∷ (quiet ++ tick sent ∷ rest)) false s)
  unfolding run_connection
  run_connection-IsGivenUp quiet rest sent s q = quiet-IsGivenUp quiet rest sent s q

  -- The wait is between one and two seconds.
  abbrev pub IsPatient : Subscriber → Type 0
  IsPatient s = (1000000000 ≤ s.backoff) × (s.backoff ≤ 2000000000)

  step-IsPatient :
      (turn : Turn) (awaiting : Bool) (s : Subscriber)
      → IsPatient s
      → IsPatient (step decoders turn awaiting s).0
  unfolding step
  step-IsPatient (incoming (binary bytes)) awaiting s h = ground (
    arith,
    forward-same (try_decode_message decoders bytes)
        (record s { upstream_messages = suc s.upstream_messages }),
  )
  step-IsPatient (incoming (text content)) awaiting s h = ground (
    arith,
    forward-same (try_decode_plaintext_message decoders content)
        (record s { upstream_messages = suc s.upstream_messages }),
  )
  step-IsPatient (incoming close) awaiting s h = h
  step-IsPatient (incoming pong) awaiting s h = h
  step-IsPatient (incoming read_error) awaiting s h = h
  step-IsPatient (incoming other) awaiting s h = h
  step-IsPatient (tick b) true s h = (omega arith, omega arith)
  step-IsPatient (tick true) false s h = h
  step-IsPatient (tick false) false s h = (omega arith, omega arith)

  run_connection-IsPatient :
      (turns : List Turn) (awaiting : Bool) (s : Subscriber)
      → IsPatient s
      → IsPatient (run_connection decoders turns awaiting s).0
  unfolding run_connection
  run_connection-IsPatient [] awaiting s h = h
  run_connection-IsPatient (turn ∷ turns) awaiting s h =
      let s' = (step decoders turn awaiting s).0 in
      let h' = step-IsPatient turn awaiting s h in
      elim (Option-cases (step decoders turn awaiting s).1) [
        | inl left ↦ rw (left, run_connection) h'
        | inr (awaiting', stands) ↦
            rw (stands, run_connection) (run_connection-IsPatient turns awaiting' s' h')
      ]

  run-IsPatient :
      (attempts : List (Attempt decoders)) (s : Subscriber)
      → IsPatient s
      → IsPatient (run decoders attempts s)
  unfolding run attempt
  run-IsPatient [] s h = h
  run-IsPatient (refused ∷ rest) s h = run-IsPatient rest (sleep s) (omega arith, omega arith)
  run-IsPatient (connected turns ∷ rest) s h =
      run-IsPatient rest (attempt decoders (connected turns) s) (
        run_connection-IsPatient turns false (record s { backoff = 1000000000 })
          (omega arith, omega arith))

  -- Whatever happens, the next wait is between one and two seconds.
  pub run-new-IsPatient :
      (attempts : List (Attempt decoders)) → IsPatient (run decoders attempts new)
  run-new-IsPatient attempts = run-IsPatient attempts new (omega arith, omega arith)
