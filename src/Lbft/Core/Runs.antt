-- ===== src/Lbft/Core/Runs.antt =====
-- An instance over a list of messages.
use l.Base.{◌≡◌, sym, subst, String, List, [], ◌∷◌, ◌++◌, string_eq, All}
use l.Lbft.Message.{Message}
use l.Lbft.Core.{Core, Env, Outside, Effect, dispatch}
use l.Lbft.Core.Phases.{IsPhased, dispatch-IsPhased}

-- The instance after a list of messages, each handled under the environment of its time, and all
-- that it has sent.
unfoldable pub run : Outside → List (Env × Message) → Core → Core × List Effect
run out [] core = (core, [])
run out ((env, m) ∷ ms) core =
    let (next, sent) = dispatch out env m core in
    let (last, more) = run out ms next in (last, sent ++ more)

module _ (out : Outside) (own : String) where
  -- A list of messages, handled one after the other under environments of one chain, keeps an
  -- instance in order: its ballot boxes count distinct voters, its digest is that of the batch
  -- it adopted, and each phase it has passed comes after the one before and has a certificate
  -- on both chains, which is a ticket that fits with at least as many voters as the quorum it
  -- names, and 3 at least.
  pub run-IsPhased :
      (ms : List (Env × Message)) (core : Core)
      → All (λ m. m.0.chain ≡ own) ms
      → IsPhased out own core
      → IsPhased out own (run out ms core).0
  unfolding run
  run-IsPhased [] core chains i = i
  run-IsPhased ((env, m) ∷ ms) core chains i = run-IsPhased ms _ chains.1 (
      subst (λ c. IsPhased out c (dispatch out env m core).0) chains.0
        (dispatch-IsPhased out env m core (subst (λ c. IsPhased out c core) (sym chains.0) i)))
