-- ===== src/Contracts/Tests.antt =====
-- A contract that sets one key and deletes another.
use l.Base.{◌≡◌, refl, false, String, Option, some, none, [], if◌then◌else◌, ◌==◌, string_eq}
use l.Contracts.{SmartConstract, en_smart_contract_key, get_state, add_state, del_state}
use l.Contracts.Reads.{get_state_after_changes}

abbrev stored_one : String → Option String
stored_one full = some "1"

abbrev at_shop : SmartConstract
at_shop = record {
  state_extra = [];
  height = 3;
  sc_addr = "shop";
  committed = false;
  current_tx = none;
  smart_contract_txs = [];
}

abbrev key_a : String
key_a = "a"

abbrev key_b : String
key_b = "b"

get_state_after_changes_example :
    (get_state stored_one key_b (add_state key_a "2" at_shop)
      ≡ (if key_a == key_b then some "2" else get_state stored_one key_b at_shop))
    × (get_state stored_one key_b (del_state key_a at_shop) ≡ (
        if key_a == key_b
        then stored_one (en_smart_contract_key "shop" key_b)
        else get_state stored_one key_b at_shop))
get_state_after_changes_example = get_state_after_changes stored_one key_a "2" key_b at_shop refl

-- The deleted key reads as it did.
still_there : get_state stored_one key_a (del_state key_a at_shop) ≡ some "1"
still_there = (get_state_after_changes stored_one key_a "2" key_a at_shop refl).1
