-- ===== src/Contracts/Reads.antt =====
-- What a contract reads after a change in the same block.
use Prim.Native.String.{◌++◌}
use text.Mathlib.TextLemmas.{append_cancel_left}
use l.Base.{
  ◌≡◌, refl, ap, sym, ◌∙◌, Bool, true, false, String, Option, some, Map, lookup, insert,
  lookup-insert, lookup-insert_self, if◌then◌else◌, string_eq, ◌==◌, ==_iff, Bool-cases, inl, inr,
}
use l.Contracts.{
  OpType, operation_put, operation_delete, CacheKvs, SmartConstract, en_smart_contract_key,
  delta_or_new, cached_value, extra_get, extra_put, get_state, add_state, del_state,
}

-- Two keys of a contract have two full keys.
full_keys : (a k j : String) → (en_smart_contract_key a k == en_smart_contract_key a j) ≡ (k == j)
full_keys a k j = elim (Bool-cases (k == j)) [
  | inl same ↦
      let keys : k ≡ j = (==_iff k j).0 same in
      let fulls : en_smart_contract_key a k ≡ en_smart_contract_key a j =
        ap (λ i. en_smart_contract_key a i) keys in
      (==_iff (en_smart_contract_key a k) (en_smart_contract_key a j)).1 fulls ∙ sym same
  | inr apart ↦ elim (Bool-cases (en_smart_contract_key a k == en_smart_contract_key a j)) [
    | inr fulls ↦ fulls ∙ sym apart
    | inl fulls ↦
        let keys : k ≡ j = append_cancel_left "|" k j (
          append_cancel_left a ("|" ++ k) ("|" ++ j)
            ((==_iff (en_smart_contract_key a k) (en_smart_contract_key a j)).0 fulls)) in
        fulls ∙ sym ((==_iff k j).1 keys)
  ]
]

-- The value that an operation leaves in the cache.
abbrev left_by : OpType → String → String
left_by operation_put value = value
left_by operation_delete value = ""

extra_get-extra_put :
    (op : OpType) (a key value other : String) (deltas : Map String (Map String CacheKvs))
    → extra_get a other (extra_put op a key value deltas)
      ≡ (if key == other then left_by op value else extra_get a other deltas)
unfolding extra_get extra_put
extra_get-extra_put op a key value other deltas =
    let old = delta_or_new (lookup a deltas) in
    let full = en_smart_contract_key a key in
    let kv : CacheKvs = record { optype = op; key = full; value = value } in
    ap (λ d. cached_value (lookup (en_smart_contract_key a other) (delta_or_new d)))
      (lookup-insert_self a (insert full kv old) deltas)
    ∙ ap cached_value (lookup-insert full (en_smart_contract_key a other) kv old)
    ∙ ap (λ t. cached_value (if t then some kv else lookup (en_smart_contract_key a other) old))
        (full_keys a key other)
    ∙ by_key (key == other) op full value (lookup (en_smart_contract_key a other) old)
  where
    by_key :
        (at : Bool) (op : OpType) (full value : String) (rest : Option CacheKvs)
        → cached_value
            (if at then some (record { optype = op; key = full; value = value }) else rest)
          ≡ (if at then left_by op value else cached_value rest)
    by_key true operation_put full value rest = refl
    by_key true operation_delete full value rest = refl
    by_key false op full value rest = refl

-- What a contract reads behind its own changes. Of the key that it has set to a value that is not
-- empty, it reads that value; of the key that it has deleted, it reads what the database still has
-- from before the block; of any other key it reads what it would have read before the change.
pub get_state_after_changes :
    (db : String → Option String) (key value other : String) (sctx : SmartConstract)
    → (value == "") ≡ false
    → (get_state db other (add_state key value sctx)
        ≡ (if key == other then some value else get_state db other sctx))
      × (get_state db other (del_state key sctx) ≡ (
          if key == other
          then db (en_smart_contract_key sctx.sc_addr other)
          else get_state db other sctx))
unfolding get_state add_state del_state
get_state_after_changes db key value other sctx filled =
    let a = sctx.sc_addr in
    let missing = db (en_smart_contract_key a other) in
    let old = extra_get a other sctx.state_extra in
    (
      ap (λ v. if v == "" then missing else some v)
            (extra_get-extra_put operation_put a key value other sctx.state_extra)
          ∙ put_read value old missing (key == other) filled,
      ap (λ v. if v == "" then missing else some v)
            (extra_get-extra_put operation_delete a key "" other sctx.state_extra)
          ∙ deleted_read old missing (key == other),
    )
  where
    put_read :
        (value old : String) (missing : Option String) (at : Bool)
        → (value == "") ≡ false
        → (if (if at then value else old) == "" then missing else some (if at then value else old))
          ≡ (if at then some value else if old == "" then missing else some old)
    put_read value old missing true filled = rw filled refl
    put_read value old missing false filled = refl

    deleted_read :
        (old : String) (missing : Option String) (at : Bool)
        → (if (if at then "" else old) == "" then missing else some (if at then "" else old))
          ≡ (if at then missing else if old == "" then missing else some old)
    deleted_read old missing true = refl
    deleted_read old missing false = refl
