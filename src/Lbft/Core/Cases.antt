-- ===== src/Lbft/Core/Cases.antt =====
-- The outcomes of the handlers of an instance, each with what is known in it.
use l.Base.{
  ℕ, suc, subst, ◌+◌, ◌≡◌, refl, sym, ◌⊎◌, inl, inr, true, false, List, [], ◌∷◌, ◌++◌, arith,
  Bool-cases, eqb, string_eq, ◌==◌,
}
use l.Vote.{add}
use l.Lbft.Message.{PrePrepare, Prepare, Commit, Message, commit, empty_block}
use l.Lbft.Core.{
  Core, Env, Outside, Effect, broadcast, spawn_commit, incr_verify, reset_empty_block_timer,
  soft_reset_empty_block_timer, broadcast_chains, maybe_prepare_pass, maybe_commit_pass,
  handle_commit, handle_prepare, new_commit, adopt, enter, handle_pre_prepare, is_illegal,
  is_primary, is_valid, verifies,
}

-- How often the announcement of the batch is set off.
abbrev pub spawns : List Effect → ℕ
spawns [] = 0
spawns (spawn_commit ∷ es) = suc (spawns es)
spawns (e ∷ es) = spawns es

pub spawns-append : (es fs : List Effect) → spawns (es ++ fs) ≡ spawns es + spawns fs
spawns-append [] fs = omega arith
spawns-append (spawn_commit ∷ es) fs = omega (arith, spawns-append es fs)
spawns-append (broadcast c m ∷ es) fs = spawns-append es fs
spawns-append (incr_verify ∷ es) fs = spawns-append es fs
spawns-append (reset_empty_block_timer ∷ es) fs = spawns-append es fs
spawns-append (soft_reset_empty_block_timer ∷ es) fs = spawns-append es fs

pub spawns-broadcast_chains : (core : Core) (m : Message) → spawns (broadcast_chains core m) ≡ 0
unfolding broadcast_chains
spawns-broadcast_chains core m = ground arith

module _ (out : Outside) (env : Env) where
  commit_result :
      (c : Commit) (core : Core)
      → let voted = record core {
        commit_vote = add out.commit_key c.replica_id c core.commit_vote;
      } in
        (handle_commit out env c core ≡ (core, []))
        ⊎ ((handle_commit out env c core ≡ (voted, []))
            ⊎ ((core.is_pass_commit ≡ false)
                × ((maybe_commit_pass env.chain voted).1 ≡ true)
                × (handle_commit out env c core
                    ≡ (record voted { is_pass_commit = true }, spawn_commit ∷ []))))
  unfolding handle_commit maybe_commit_pass
  commit_result c core =
      let voted = record core {
        commit_vote = add out.commit_key c.replica_id c core.commit_vote;
      } in
      elim (Bool-cases (is_illegal env core c.chain c.seq_no c.digest)) [
        | inl bad ↦ inl (ground arith)
        | inr legal ↦ elim (Bool-cases core.is_pass_commit) [
          | inl done ↦ inr (inl (ground arith))
          | inr fresh ↦ elim (Bool-cases (maybe_commit_pass env.chain voted).1) [
            | inl pass ↦ inr (inr (fresh, pass, ground arith))
            | inr fail ↦ inr (inl (ground arith))
          ]
        ]
      ]

  prepare_result :
      (p : Prepare) (core : Core)
      → let voted = record core {
        prepare_vote = add out.prepare_key p.replica_id p core.prepare_vote;
      } in
        let passed = record voted { is_pass_prepare = true } in
        let (after, sent) = handle_commit out env (new_commit out env passed) passed in
        (handle_prepare out env p core ≡ (core, []))
        ⊎ ((handle_prepare out env p core ≡ (voted, []))
            ⊎ ((core.is_pass_prepare ≡ false)
                × ((maybe_prepare_pass env.chain voted).1 ≡ true)
                × (handle_prepare out env p core ≡ (
                  after,
                  sent ++ broadcast_chains after (commit (new_commit out env passed)),
                ))))
  unfolding handle_prepare maybe_prepare_pass
  prepare_result p core =
      let voted = record core {
        prepare_vote = add out.prepare_key p.replica_id p core.prepare_vote;
      } in
      elim (Bool-cases (is_illegal env core p.chain p.seq_no p.digest)) [
        | inl bad ↦ inl (ground arith)
        | inr legal ↦ elim (Bool-cases core.is_pass_prepare) [
          | inl done ↦ inr (inl (ground arith))
          | inr fresh ↦ elim (Bool-cases (maybe_prepare_pass env.chain voted).1) [
            | inl pass ↦ inr (inr (fresh, pass, ground arith))
            | inr fail ↦ inr (inl (ground arith))
          ]
        ]
      ]

  pre_prepare_result :
      (pp : PrePrepare) (core : Core)
      → let entered = enter out env pp.requests pp.seq_no core in
        let (after, sent) = adopt out env pp.requests entered in
        (handle_pre_prepare out env pp core ≡ (core, []))
        ⊎ (((core.is_pass_pre_prepare ≡ false)
              × (handle_pre_prepare out env pp core ≡ (entered, [])))
            ⊎ ((core.is_pass_pre_prepare ≡ false)
                × ((es : List Effect) × (spawns es ≡ 0)
                    × (handle_pre_prepare out env pp core ≡ (after, es ++ sent)))))
  unfolding handle_pre_prepare
  pre_prepare_result pp core =
      let entered = enter out env pp.requests pp.seq_no core in
      let batch = pp.requests in
      elim (Bool-cases core.is_pass_pre_prepare) [
        | inl done ↦ inl (ground arith)
        | inr new ↦ elim (Bool-cases (is_primary env)) [
          | inl primary ↦ elim (Bool-cases (eqb batch.id empty_block)) [
            | inl empty ↦ inr (inr (new, ([], refl, ground arith)))
            | inr full ↦ elim (Bool-cases (entered.to_chain == entered.from_chain)) [
              | inl local ↦ inr (inr (new, (reset_empty_block_timer ∷ [], refl, ground arith)))
              | inr cross ↦ inr (inr (new, (soft_reset_empty_block_timer ∷ [], refl, ground arith)))
            ]
          ]
          | inr backup ↦ elim (Bool-cases (is_valid env batch (entered.from_chain == env.chain))) [
            | inr invalid ↦ inr (inl (new, ground arith))
            | inl valid ↦ elim (Bool-cases (verifies out env batch entered)) [
              | inl verified ↦ inr (inr (new, (incr_verify ∷ [], refl, ground arith)))
              | inr refused ↦ inr (inl (new, ground arith))
            ]
          ]
        ]
      ]

  pub commit_cases {ℓ} :
      (c : Commit) (core : Core) (P : Core × List Effect → Type ℓ)
      → P (core, [])
      → P (record core { commit_vote = add out.commit_key c.replica_id c core.commit_vote }, [])
      → (core.is_pass_commit ≡ false
          → (maybe_commit_pass env.chain
              (record core { commit_vote = add out.commit_key c.replica_id c core.commit_vote })).1
            ≡ true
          → P (
            record core {
              commit_vote = add out.commit_key c.replica_id c core.commit_vote;
              is_pass_commit = true;
            },
            spawn_commit ∷ [],
          ))
      → P (handle_commit out env c core)
  commit_cases c core P same counted passed =
      let voted = record core {
        commit_vote = add out.commit_key c.replica_id c core.commit_vote;
      } in
      elim (commit_result c core) [
        | inl e ↦ subst P (sym e) same
        | inr (inl e) ↦ subst P (sym e) counted
        | inr (inr (fresh, pass, e)) ↦ subst P (sym e) (passed fresh pass)
      ]

  pub prepare_cases {ℓ} :
      (p : Prepare) (core : Core) (P : Core × List Effect → Type ℓ)
      → P (core, [])
      → P (record core { prepare_vote = add out.prepare_key p.replica_id p core.prepare_vote }, [])
      → (core.is_pass_prepare ≡ false
          → (maybe_prepare_pass env.chain (record core {
            prepare_vote = add out.prepare_key p.replica_id p core.prepare_vote;
          })).1
            ≡ true
          → let passed = record core {
            prepare_vote = add out.prepare_key p.replica_id p core.prepare_vote;
            is_pass_prepare = true;
          } in
            let (after, sent) = handle_commit out env (new_commit out env passed) passed in
            P (after, sent ++ broadcast_chains after (commit (new_commit out env passed))))
      → P (handle_prepare out env p core)
  prepare_cases p core P same counted passed = elim (prepare_result p core) [
    | inl e ↦ subst P (sym e) same
    | inr (inl e) ↦ subst P (sym e) counted
    | inr (inr (fresh, pass, e)) ↦ subst P (sym e) (passed fresh pass)
  ]

  -- `es` stands for what goes out before the vote: a timer, or the counter of verified batches.
  pub pre_prepare_cases {ℓ} :
      (pp : PrePrepare) (core : Core) (P : Core × List Effect → Type ℓ)
      → P (core, [])
      → (core.is_pass_pre_prepare ≡ false → P (enter out env pp.requests pp.seq_no core, []))
      → (core.is_pass_pre_prepare ≡ false
          → (es : List Effect) → spawns es ≡ 0
          → let (after, sent) =
              adopt out env pp.requests (enter out env pp.requests pp.seq_no core) in
            P (after, es ++ sent))
      → P (handle_pre_prepare out env pp core)
  pre_prepare_cases pp core P same entered adopted = elim (pre_prepare_result pp core) [
    | inl e ↦ subst P (sym e) same
    | inr (inl (new, e)) ↦ subst P (sym e) (entered new)
    | inr (inr (new, (es, none_spawned, e))) ↦ subst P (sym e) (adopted new es none_spawned)
  ]
