-- ===== src/Lbft/Route/Guards.antt =====
-- What a message must be for an instance to see it.
use l.Base.{◌<◌, ◌≡◌, ◌≢◌, ◌↔◌, String, some, [], ◌∷◌, arith, string_eq, ==_iff}
use l.Lbft.Message.{RequestBatch, PrePrepare, pre_prepare}
use l.Lbft.Route.{Replica, to_instance, route}

-- A PrePrepare reaches its instance exactly when a primary is known, it comes from that primary,
-- which names itself, on the own chain, and its number is above the last one.
pub pre_prepare_reaches :
    (hash : RequestBatch → String) (r : Replica) (pp : PrePrepare)
    → (route hash r (pre_prepare pp) ≡ some (to_instance pp.name (pre_prepare pp) ∷ [])) ↔ (
        (r.env.primary_id ≢ "")
        × (pp.replica_id ≡ r.env.primary_id)
        × (pp.primary_id ≡ r.env.primary_id)
        × (pp.chain ≡ r.env.chain)
        × (r.last_seq_no < pp.seq_no))
unfolding route
pre_prepare_reaches hash r pp = (
  (λ h. ground (
    arith,
    ==_iff r.env.primary_id "",
    ==_iff pp.replica_id r.env.primary_id,
    ==_iff pp.replica_id pp.primary_id,
    ==_iff pp.chain r.env.chain,
  )),
  (λ h. ground (
    arith,
    h.0,
    h.1,
    h.2,
    h.3,
    h.4,
    ==_iff r.env.primary_id "",
    ==_iff pp.replica_id r.env.primary_id,
    ==_iff pp.replica_id pp.primary_id,
    ==_iff pp.chain r.env.chain,
  )),
)
