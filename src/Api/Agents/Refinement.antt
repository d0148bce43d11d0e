-- ===== src/Api/Agents/Refinement.antt =====
-- The handlers of the hosts implement the directory of the tokens.
use mathlib.Core.Path.{fun_ext}
use bangmod_monitor.Prelude.{
  ℕ, String, Bool, false, ◌||◌, ◌≡◌, refl, ap, ◌∙◌, Option, none, some, List, [], ◌∷◌, ◌==◌, str_eq,
  eq_iff, sym, if_both, arith, Bool-cases, inl, inr,
}
use bangmod_monitor.Prelude.Text.{is_empty}
use bangmod_monitor.Api.Http.{refuse, broken}
use bangmod_monitor.Api.Store.{create_host, delete_host, rotate_token, get_subscription, fetch}
use bangmod_monitor.Api.Store.Hosts.{
  HostRow, insert_host, host_by_hash, deleted, clashes, updated, update_hash,
}
use bangmod_monitor.Api.Store.Hosts.Laws.{host_by_hash-insert, host_by_hash-update_done}
use bangmod_monitor.Api.Store.Hosts.Table.{
  IsTable, host_by_hash-delete, host_by_hash-update_other, delete_rows-IsTable, update_hash-IsTable,
  insert_host-IsTable, clashes-IsFresh,
}
use bangmod_monitor.Api.Store.Billing.{subscription_of}
use bangmod_monitor.Api.Agents.{
  Env, State, CreateHostReq, HostReply, create, create_within, issue_host, store_host, over_plan,
  delete, rotate, rotate_with,
}
use bangmod_monitor.Api.Agents.Directory.{
  enter, leave, Action, add, remove, renew, answered, act, directory, Actions, act_all, answers,
  answered_all,
}

record Implements (e : Env) (org : String) (a : Action) (s : State) (r : HostReply × State)
    : Type 0 where
  pub follows : directory r.1 ≡ answered e.sha256 org a r.0 (directory s)
  pub valid : IsTable r.1.maria.hosts

module _ (e : Env) (org : String) (s : State) (t : IsTable s.maria.hosts) where
  -- An error that changes nothing
  idle :
      (a : Action) (r : HostReply)
      → answered e.sha256 org a r (directory s) ≡ directory s
      → Implements e org a s (r, s)
  idle a r none_said = record { follows = sym none_said; valid = t }

  store_host-Implements :
      (req : CreateHostReq) (plain : String)
      → Implements e org (add (some req)) s (
          store_host e org req plain s
            (insert_host e.uuid org req.name (e.sha256 plain) req.region e.now s.maria.hosts))
  store_host-Implements req plain =
      stored (insert_host e.uuid org req.name (e.sha256 plain) req.region e.now s.maria.hosts) refl
    where
      stored :
          (o : Option (List HostRow))
          → insert_host e.uuid org req.name (e.sha256 plain) req.region e.now s.maria.hosts ≡ o
          → Implements e org (add (some req)) s (store_host e org req plain s o)
      stored none h = idle (add (some req)) (broken 500) refl
      stored (some rows) h =
          if_both (Implements e org (add (some req)) s) (e.db_fails create_host)
            (idle (add (some req)) (broken 500) refl)
            (record {
              follows = fun_ext (λ k.
                  host_by_hash-insert e.uuid org req.name (e.sha256 plain) req.region e.now
                    s.maria.hosts k h);
              valid =
                  insert_host-IsTable e.uuid org req.name (e.sha256 plain) req.region e.now
                    s.maria.hosts rows t h;
            })

  create_within-Implements :
      (req : CreateHostReq) (limit : Option ℕ)
      → Implements e org (add (some req)) s (create_within e org req s limit)
  create_within-Implements req (some n) = record { follows = refl; valid = t }
  create_within-Implements req none = issued e.random
    where
      issued : (o : Option String) → Implements e org (add (some req)) s (issue_host e org req o s)
      issued none = idle (add (some req)) (refuse 500 "token generation failed") refl
      issued (some plain) = store_host-Implements req plain

  create-Implements :
      (req : Option CreateHostReq) → Implements e org (add req) s (create e org req s)
  unfolding create
  create-Implements none = idle (add none) (broken 400) refl
  create-Implements (some req) =
      if_both (Implements e org (add (some req)) s) (is_empty req.name || is_empty req.region)
        (idle (add (some req)) (broken 400) refl)
        (create_within-Implements req (
          over_plan e org s.maria
            (fetch (e.db_fails get_subscription) (subscription_of org s.maria.subscriptions))))

  delete-Implements : (id : String) → Implements e org (remove id) s (delete e org id s)
  unfolding delete
  delete-Implements id =
      if_both (Implements e org (remove id) s) (e.db_fails delete_host)
        (idle (remove id) (broken 404) refl)
        (if_both (Implements e org (remove id) s) (deleted id org s.maria.hosts == 0)
          (idle (remove id) (broken 404) refl)
          (record {
            follows = fun_ext (λ k. host_by_hash-delete id org k s.maria.hosts t);
            valid = delete_rows-IsTable id org s.maria.hosts t;
          }))

  -- The table after an update, as the directory
  directory-update :
      (id new : String)
      → clashes id org new s.maria.hosts ≡ false
      → (updated id org new s.maria.hosts == 0) ≡ false
      → (k : String)
      → host_by_hash k (update_hash id org new s.maria.hosts)
        ≡ enter new id org (leave id org (directory s)) k
  directory-update id new c n k = elim (Bool-cases (str_eq new k)) [
    | inl same ↦
        rw same
          (rw (← (eq_iff new k).0 same) (host_by_hash-update_done id org new s.maria.hosts c n))
    | inr other ↦ rw other (host_by_hash-update_other id org new k s.maria.hosts t other)
  ]

  rotate-Implements : (id : String) → Implements e org (renew id) s (rotate e org id s)
  unfolding rotate
  rotate-Implements id = rotated_to e.random
    where
      renews : (plain : String) → Bool
      renews plain = e.db_fails rotate_token || clashes id org (e.sha256 plain) s.maria.hosts

      rotated_to : (o : Option String) → Implements e org (renew id) s (rotate_with e org id o s)
      rotated_to none = idle (renew id) (refuse 500 "token generation failed") refl
      rotated_to (some plain) = elim (Bool-cases (renews plain)) [
        | inl failed ↦ rw failed (idle (renew id) (broken 404) refl)
        | inr fine ↦ elim (Bool-cases (updated id org (e.sha256 plain) s.maria.hosts == 0)) [
          | inl no_row ↦ rw (fine, no_row) (idle (renew id) (broken 404) refl)
          | inr done ↦
              let calm : clashes id org (e.sha256 plain) s.maria.hosts ≡ false =
                ground (arith, fine) in
              rw (fine, done)
                (record {
                  follows = fun_ext (directory-update id (e.sha256 plain) calm done);
                  valid =
                      update_hash-IsTable id org (e.sha256 plain) s.maria.hosts t
                        (clashes-IsFresh id org (e.sha256 plain) s.maria.hosts calm done);
                })
        ]
      ]

  act-Implements : (a : Action) → Implements e org a s (act e org a s)
  unfolding act
  act-Implements (add req) = create-Implements req
  act-Implements (remove id) = delete-Implements id
  act-Implements (renew id) = rotate-Implements id

-- The handlers implement the directory that their answers tell: from a table that its keys keep,
-- after any requests of any organisations to create, delete and rotate hosts, whatever fails, a
-- token hash belongs to the host and the organisation that it belongs to by the answers, and to
-- none where by the answers it does not; and the table is kept.
pub act_all-directory :
    (acts : Actions) (s : State)
    → IsTable s.maria.hosts
    → (directory (act_all acts s) ≡ answered_all acts (answers acts s) (directory s))
      × IsTable (act_all acts s).maria.hosts
unfolding act_all answers answered_all
act_all-directory [] s t = (refl, t)
act_all-directory ((e, org, a) ∷ acts) s t =
    let step = act-Implements e org s t a in
    let (rest, valid) = act_all-directory acts (act e org a s).1 step.valid in
    (rest ∙ ap (answered_all acts (answers acts (act e org a s).1)) step.follows, valid)
