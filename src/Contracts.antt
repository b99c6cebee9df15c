-- ===== src/Contracts.antt =====
-- core/ledger/contract: what contracts read and write while a block is executed (contract.go), in a
-- cache of changes by contract and key (state_extra.go, utils.go). Values are byte strings; the
-- database gives a value, an empty one for a key that it has not, or an error. Transactions get their
-- sender and recipient without the decoding of hex.
pub mod Reads
mod Tests
use Prim.Native.String.{◌++◌}
use l.Base.{
  ℕ, ℤ, Bool, true, false, String, Option, none, some, List, [], ◌∷◌, Map, lookup, insert,
  if◌then◌else◌, string_eq, ◌==◌,
}
use mathlib.Core.List.{◌++◌ as ◌++ᴸ◌}
use l.Transaction.{Transaction, TxType}

pub data OpType : Type 0 where
  operation_put operation_delete : OpType

pub record CacheKvs : Type 0 where
  pub optype : OpType
  pub key : String
  pub value : String

pub record SmartConstract : Type 0 where
  pub state_extra : Map String (Map String CacheKvs)
  pub height : ℕ
  pub sc_addr : String
  pub committed : Bool
  pub current_tx : Option Transaction
  pub smart_contract_txs : List Transaction

pub new_smart_constract : SmartConstract
new_smart_constract = record {
  state_extra = [];
  height = 0;
  sc_addr = "";
  committed = false;
  current_tx = none;
  smart_contract_txs = [];
}

abbrev pub en_smart_contract_key : String → String → String
en_smart_contract_key sc_addr key = sc_addr ++ "|" ++ key

-- `getOrCreateContractStateDelta`.
abbrev pub delta_or_new : Option (Map String CacheKvs) → Map String CacheKvs
delta_or_new none = []
delta_or_new (some delta) = delta

-- `get` of both types; nil and empty values are one.
abbrev pub cached_value : Option CacheKvs → String
cached_value none = ""
cached_value (some kv) = elim kv.optype [ operation_put ↦ kv.value | operation_delete ↦ "" ]

unfoldable pub extra_get : String → String → Map String (Map String CacheKvs) → String
extra_get sc_addr key deltas =
    cached_value (lookup (en_smart_contract_key sc_addr key) (delta_or_new (lookup sc_addr deltas)))

unfoldable pub extra_put :
    OpType
    → String
    → String
    → String
    → Map String (Map String CacheKvs)
    → Map String (Map String CacheKvs)
extra_put op sc_addr key value deltas =
    let full = en_smart_contract_key sc_addr key in
    let kv : CacheKvs = record { optype = op; key = full; value = value } in
    insert sc_addr (insert full kv (delta_or_new (lookup sc_addr deltas))) deltas

pub start_constract : ℕ → SmartConstract → SmartConstract
start_constract block_height sctx = record sctx { height = block_height }

pub stop_contract : ℕ → SmartConstract → SmartConstract
stop_contract block_height sctx = record sctx { height = 0; state_extra = [] }

unfoldable pub exec_transaction : Transaction → String → SmartConstract → SmartConstract
exec_transaction tx sc_addr sctx = record sctx {
  committed = false;
  current_tx = some tx;
  sc_addr = sc_addr;
  smart_contract_txs = [];
}

-- A key that the cache has no value for is looked up in the database.
unfoldable pub get_state : (String → Option String) → String → SmartConstract → Option String
unfolding extra_get
get_state db key sctx =
    let value = extra_get sctx.sc_addr key sctx.state_extra in
    if value == "" then db (en_smart_contract_key sctx.sc_addr key) else some value

unfoldable pub add_state : String → String → SmartConstract → SmartConstract
unfolding extra_put
add_state key value sctx = record sctx {
  state_extra = extra_put operation_put sctx.sc_addr key value sctx.state_extra;
}

unfoldable pub del_state : String → SmartConstract → SmartConstract
unfolding extra_put
del_state key sctx = record sctx {
  state_extra = extra_put operation_delete sctx.sc_addr key "" sctx.state_extra;
}

pub smart_contract_failed : SmartConstract → SmartConstract
smart_contract_failed sctx = record sctx { committed = false }

pub smart_contract_committed : SmartConstract → SmartConstract
smart_contract_committed sctx = record sctx { committed = true }

-- Without a current transaction its fields are read through nil: a panic.
pub add_transfer : String → String → ℤ → TxType → SmartConstract → Option SmartConstract
add_transfer from_addr to_addr amount type sctx = elim sctx.current_tx [
  | none ↦ none
  | some tx ↦ some (record sctx {
    smart_contract_txs =
        sctx.smart_contract_txs
        ++ᴸ (record tx { type = type; sender = from_addr; recipient = to_addr; amount = amount }
            ∷ []);
  })
]

unfoldable pub finish_contract_transaction : SmartConstract → Option (List Transaction)
finish_contract_transaction sctx = if sctx.committed then some sctx.smart_contract_txs else none

-- A change for the database: the operation, the key and the value.
abbrev pub entries_of : Map String CacheKvs → List CacheKvs
entries_of [] = []
entries_of ((full, kv) ∷ rest) = kv ∷ entries_of rest

unfoldable pub changes_of : Map String (Map String CacheKvs) → List CacheKvs
changes_of [] = []
changes_of ((sc_addr, delta) ∷ rest) = entries_of delta ++ᴸ changes_of rest

pub add_changes_for_persistence : List CacheKvs → SmartConstract → List CacheKvs
unfolding changes_of
add_changes_for_persistence batches sctx = batches ++ᴸ changes_of sctx.state_extra
