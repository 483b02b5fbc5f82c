-- ===== src/Simulator/Samples.antt =====
-- A block, a bid on it and a batch, for the tests of the simulator.
use ethgas_reth.Base.{ℕ, true, false, List, [], ◌∷◌, Option, none, some, inr}
use ethgas_reth.Fallible.{done}
use ethgas_reth.Types.{B256}
use ethgas_reth.Simulator.Constraint.{PostBlock, ListedTransaction}
use ethgas_reth.Simulator.Disallowed.{steady}
use ethgas_reth.Simulator.Submission.{Engine, Views, Request}
use ethgas_reth.Simulator.Multisend.{Abi, ExecTransactionCall}
use ethgas_reth.Simulator.Multisend.RoundTrip.{Call, pack}
use ethgas_reth.Simulator.Types.{
  SubmittedTransaction, SubmittedBlock, BidTrace, Output, Chain, SealedHeader,
}

abbrev pub call : Call
call = record { operation = 0; to = 7; value = 5; payload = 1 ∷ 2 ∷ [] }

abbrev pub batch : ExecTransactionCall
batch = record { operation = 1; transaction_data = 1 ∷ [] }

abbrev pub abi : Abi
abi = record {
  decode_exec_transaction = λ _. some batch;
  decode_multi_send = λ _. some (pack (call ∷ []) []);
}

abbrev pub payment : SubmittedTransaction
payment = record {
  tx_hash = 1;
  sender = 3;
  to = some 7;
  input = [];
  value = 5;
  chain_id = some 1;
  effective_tip_per_gas = λ _. some 0;
}

abbrev pub chain : Chain
chain = record { id = 1; forwarder_account = done none; abi = abi }

abbrev pub block : SubmittedBlock
block = record {
  hash = 20;
  parent_hash = 19;
  number = 2;
  timestamp = 24;
  gas_limit = 100;
  gas_used = 21;
  beneficiary = 4;
  state_root = 6;
  base_fee_per_gas = some 1;
  transactions = payment ∷ [];
  withdrawals = some [];
  rlp_length = 500;
}

abbrev pub bid : ℕ → BidTrace
bid value = record {
  block_hash = 20;
  parent_hash = 19;
  gas_limit = 100;
  gas_used = 21;
  proposer_fee_recipient = 7;
  value = value;
}

abbrev pub output : Output
output = record { receipts = true ∷ []; accounts = [] }

-- A transaction is the first of its bytes, and a run of it never gives an outcome.
abbrev pub post : PostBlock
post = record {
  Evm = Unit {0};
  Transaction = ℕ;
  recover_raw_transaction = λ bytes. elim bytes [ [] ↦ none | b ∷ _ ↦ some b ];
  transact = λ tx evm. (false, evm);
}

abbrev pub listed : List ListedTransaction
listed = record { hash = 1; bytes = [] } ∷ record { hash = 2; bytes = 5 ∷ [] } ∷ []

-- Reads are the hash of the block on whose state they were made; a provider is that hash as well.
abbrev pub engine : Engine
engine = record {
  StateProvider = B256;
  CachedReads = Option B256;
  State = Unit {0};
  BlockAccessList = Unit {0};
  HashedPostState = Unit {0};
  no_reads = none;
  extend_reads = λ a b. b;
  validate_header = λ _. none;
  validate_block_pre_execution = λ _. none;
  validate_header_against_parent = λ _ _. none;
  validate_block_post_execution = λ _ _ _. none;
  state_by_block_hash = λ hash. done hash;
  execute_one = λ provider _ _. inr (output, none, tt, some provider);
  validate_gas_limit = λ _ _. none;
  compute_hash = λ _. 0;
  accounts = λ _. 3 ∷ 7 ∷ [];
  post = post;
  evm_for_block = λ _ _. some tt;
  hashed_post_state = λ _ _. done tt;
  state_root = λ _ _. done 6;
}

abbrev pub parent : SealedHeader
parent = record { hash = 19; number = 1 }

abbrev pub views : Views engine
views = record {
  disallow = steady (99 ∷ []);
  disallow_after = steady (99 ∷ []);
  headers = record { latest_header = done (some parent); sealed_header_by_hash = λ _. done none };
  chain = chain;
  cache = (19, some 19);
  cache_after = (18, some 18);
}

abbrev pub request : Request engine
request = record {
  apply_blacklist = true;
  inclusion_list = some listed;
  base_payment_tx_index = none;
}
