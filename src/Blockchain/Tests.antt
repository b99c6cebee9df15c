-- ===== src/Blockchain/Tests.antt =====
-- A node that generates a block, takes it, and refuses it the second time.
use l.Base.{
  ℕ, pos, ◌≡◌, refl, true, false, some, none, [], ◌∷◌, ltb, eqb, if◌then◌else◌, string_eq, arith,
}
use l.State.{absent, ok}
use l.Elements.{Elem, UniqueIds}
use l.Lbft.Blocks.{OutputTxs}
use l.Validator.Account.{done}
use l.Validator.Accounts.{new_validator}
use l.Ledger.{Machine, execute_transaction, and_then}
use l.Ledger.Store.{BlockHeader, Block, chain_of, append_block, settle_block}
use l.Blockchain.{
  Blockchain, Services, generate_block, process_block, process_orphans, process_consensus_output,
}
use l.Blockchain.Linked.{LinkedFrom, Runs-LinkedFrom, stay, take, refuse}
use l.Blockchain.Orphans.{process_orphans_lem}

abbrev idle : Machine ℕ
idle = record { execute = λ tx tmp n. (tmp, n, none); changes = λ n. (n, ok []) }

abbrev services : Services ℕ
services = record {
  chain = record {
    own = "0";
    address = λ c. c;
    signer = λ tx. tx.sender;
    hash = λ tx. tx.recipient;
    stored = λ a. absent;
  };
  machine = idle;
  header_hash = λ h. if eqb h.height 0 then "genesis" else "later";
  merkle = λ txs. "root";
  balance = λ a. (pos 0, 0);
  difference = λ xs ys. [];
}

abbrev header_at : ℕ → BlockHeader
header_at n = record {
  previous_hash = "";
  time_stamp = 0;
  nonce = 100;
  txs_merkle_hash = "";
  height = n;
}

abbrev early_output : ℕ → Elem OutputTxs
early_output n = record { id = n; value = record { outputs = []; height = n } }

abbrev node : Blockchain ℕ
node = record {
  current_block_header = header_at 0;
  ledger = record {
    stored = λ a. absent;
    world = record { tmp = []; validator = none; contract = 0 };
    blocks = [];
    classified = [];
  };
  tx_validator = new_validator;
  orphans = early_output 1 ∷ early_output 2 ∷ [];
  next_id = 3;
  synced = false;
  relayed = [];
}

nothing_executed :
    execute_transaction
      (chain_of services.chain idle services.merkle node.ledger)
      idle
      true
      []
      node.ledger.world
    ≡ (node.ledger.world, ok ([], []))
unfolding execute_transaction and_then
nothing_executed = refl

abbrev own_block : Block
own_block = generate_block services [] 7 node

abbrev after_own : Blockchain ℕ
after_own = (process_block services true own_block true node).0

own_taken : process_block services true own_block true node ≡ (after_own, true)
unfolding process_block generate_block
own_taken = refl

own_refused : process_block services true own_block true after_own ≡ (after_own, false)
unfolding process_block generate_block append_block settle_block execute_transaction and_then
own_refused = refl

Runs-LinkedFrom_example :
    LinkedFrom services node.current_block_header
      (after_own.current_block_header ∷ [])
      after_own.current_block_header
Runs-LinkedFrom_example =
    Runs-LinkedFrom services
      (take true true own_block own_taken (refuse true true own_block own_refused stay))

both_orphans : UniqueIds node.orphans
both_orphans = ((omega arith, tt), (tt, tt))

process_orphans_lem_example : process_orphans services 3 1 (some (early_output 1)) node ≡ (
    if ltb 1 1
    then done (record node { orphans = early_output 2 ∷ [] })
    else if eqb 1 1
    then process_consensus_output services
        (early_output 1).value
        (record node { orphans = early_output 2 ∷ [] })
    else done node)
process_orphans_lem_example =
    process_orphans_lem services 2 1 (early_output 1) (early_output 2 ∷ []) node refl both_orphans
