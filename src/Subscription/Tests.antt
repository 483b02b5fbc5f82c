-- ===== src/Subscription/Tests.antt =====
-- Runs of crates/execution/flashblocks/src/subscription.rs on sample messages.
use ethgas_reth.Base.{true, false, [], ◌∷◌, some, none}
use ethgas_reth.Fallible.{done, failed}
use ethgas_reth.Subscription.Wire.{Decoders, null}
use ethgas_reth.Subscription.Connection.{
  incoming, tick, text, other, pong, close, new, run_connection,
}
use ethgas_reth.Subscription.Connection.Pings.{IsGivenUp, run_connection-IsGivenUp}
use ethgas_reth.Subscription.Connection.Forwarding.{IsForwarded, run_connection-IsForwarded}
use ethgas_reth.Samples.{first_of_11}

-- Every text is a flashblock of block 11; bytes that are there are no plain text.
abbrev decoders : Decoders
decoders = record {
  from_utf8 = λ bytes. elim bytes [ [] ↦ none | b ∷ _ ↦ some "{}" ];
  starts_with_brace = λ _. true;
  byte_length = λ _. 2;
  decompress = λ limit bytes. failed "not compressed";
  from_str = λ _. done null;
  payload_from_value = λ _. done (record {
    payload_id = first_of_11.payload_id;
    index = first_of_11.index;
    base = first_of_11.base;
    diff = first_of_11.diff;
    metadata = null;
  });
  metadata_from_value = λ _. done first_of_11.metadata;
}

run_connection-IsGivenUp_example : IsGivenUp new (incoming pong ∷ []) (
    run_connection decoders
      (tick true ∷ incoming other ∷ incoming (text "{}") ∷ tick false ∷ incoming pong ∷ [])
      false
      new)
run_connection-IsGivenUp_example =
    run_connection-IsGivenUp decoders (incoming other ∷ incoming (text "{}") ∷ [])
      (incoming pong ∷ []) false new tt

run_connection-IsForwarded_example :
    IsForwarded decoders (incoming (text "{}") ∷ incoming close ∷ incoming pong ∷ []) new (
      run_connection decoders
        (incoming (text "{}") ∷ incoming close ∷ incoming pong ∷ [])
        false
        new)
run_connection-IsForwarded_example =
    run_connection-IsForwarded decoders (incoming (text "{}") ∷ incoming close ∷ incoming pong ∷ [])
      false new
