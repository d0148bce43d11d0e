-- ===== src/Api/Store/Migration/Reruns.antt =====
-- An interrupted migration is taken up again.
use bangmod_monitor.Prelude.{
  ℕ, suc, String, Bool, true, false, ◌≡◌, refl, ap, ◌∙◌, none, some, List, [], ◌∷◌, ◌++◌, str_eq,
  eq_refl, find, All, Bool-cases, Option-cases, inl, inr, arith,
}
use bangmod_monitor.Api.Store.Billing.{Plan, plan_by_id, seeded_plans}
use bangmod_monitor.Api.Store.Migration.{
  Schema, Database, Statement, create_orgs, create_users, create_hosts, create_probe_targets,
  add_org_id, create_plans, create_subscriptions, create_org_regions, create_invoices, seed_plans,
  insert_plan, insert_plans, execute, statements, execute_from, migrate,
}

abbrev IsKnown : List Plan → Plan → Type 0
IsKnown rows p = (q : Plan) × (plan_by_id p.id rows ≡ some q)

find-append {ℓ} :
    {A : Type ℓ} (p : A → Bool) (xs : List A) (y x : A)
    → find p xs ≡ some x
    → find p (xs ++ y ∷ []) ≡ some x
find-append p [] y x h = cc
find-append p (z ∷ xs) y x h = ground (arith, find-append p xs y x)

find-append_new {ℓ} :
    {A : Type ℓ} (p : A → Bool) (xs : List A) (y : A)
    → find p xs ≡ none
    → p y ≡ true
    → find p (xs ++ y ∷ []) ≡ some y
find-append_new p [] y h own = rw own refl
find-append_new p (z ∷ xs) y h own = ground (arith, find-append_new p xs y)

-- A plan that is there stays as it is.
plan_by_id-insert_plan :
    (p q : Plan) (id : String) (rows : List Plan)
    → plan_by_id id rows ≡ some q
    → plan_by_id id (insert_plan p rows) ≡ some q
plan_by_id-insert_plan p q id rows h = elim (Option-cases (plan_by_id p.id rows)) [
  | inl new ↦ rw new (unfold plan_by_id in find-append (λ r. str_eq r.id id) rows p q h)
  | inr (r, old) ↦ rw old h
]

pub plan_by_id-insert_plans :
    (ps : List Plan) (q : Plan) (id : String) (rows : List Plan)
    → plan_by_id id rows ≡ some q
    → plan_by_id id (insert_plans ps rows) ≡ some q
plan_by_id-insert_plans [] q id rows h = h
plan_by_id-insert_plans (p ∷ ps) q id rows h =
    plan_by_id-insert_plans ps q id (insert_plan p rows) (plan_by_id-insert_plan p q id rows h)

insert_plan-IsKnown : (p : Plan) (rows : List Plan) → IsKnown (insert_plan p rows) p
insert_plan-IsKnown p rows = elim (Option-cases (plan_by_id p.id rows)) [
  | inl new ↦ (
    p,
    rw new (unfold plan_by_id in find-append_new (λ r. str_eq r.id p.id) rows p new (eq_refl p.id)),
  )
  | inr (r, old) ↦ (r, rw old old)
]

insert_plans-IsKnown : (ps : List Plan) (rows : List Plan) → All (IsKnown (insert_plans ps rows)) ps
insert_plans-IsKnown [] rows = tt
insert_plans-IsKnown (p ∷ ps) rows =
    let (q, found) = insert_plan-IsKnown p rows in
    (
      (q, plan_by_id-insert_plans ps q p.id (insert_plan p rows) found),
      insert_plans-IsKnown ps (insert_plan p rows),
    )

pub insert_plans-new :
    (p : Plan) (ps rows : List Plan)
    → plan_by_id p.id rows ≡ none
    → plan_by_id p.id (insert_plans (p ∷ ps) rows) ≡ some p
insert_plans-new p ps rows new = plan_by_id-insert_plans ps p p.id (insert_plan p rows) (
    rw new (unfold plan_by_id in find-append_new (λ r. str_eq r.id p.id) rows p new (eq_refl p.id)))

insert_plans-known : (ps rows : List Plan) → All (IsKnown rows) ps → insert_plans ps rows ≡ rows
insert_plans-known [] rows h = refl
insert_plans-known (p ∷ ps) rows ((q, found), h) = rw found (insert_plans-known ps rows h)

seeded_twice : (ps rows : List Plan) → insert_plans ps (insert_plans ps rows) ≡ insert_plans ps rows
seeded_twice ps rows = insert_plans-known ps (insert_plans ps rows) (insert_plans-IsKnown ps rows)

-- Every table, and the seeded plans behind those that were there
abbrev pub complete : Schema
complete = record {
  orgs = true;
  users = true;
  hosts = true;
  probe_targets = true;
  plans = true;
  subscriptions = true;
  org_regions = true;
  invoices = true;
  hosts_org_id = true;
}

abbrev pub migrated : Database → Database
migrated d = record {
  schema = complete;
  maria = record d.maria { plans = insert_plans seeded_plans d.maria.plans };
}

abbrev pub never : ℕ → Bool
never n = false

migrate-never : (d : Database) → migrate never d ≡ (true, migrated d)
unfolding migrate
migrate-never d = ground arith

-- A statement brings the database no further from its end.
migrated-execute : (st : Statement) (d : Database) → migrated (execute st d) ≡ migrated d
unfolding execute
migrated-execute create_orgs d = refl
migrated-execute create_users d = refl
migrated-execute create_hosts d = refl
migrated-execute create_probe_targets d = refl
migrated-execute add_org_id d = refl
migrated-execute create_plans d = refl
migrated-execute create_subscriptions d = refl
migrated-execute create_org_regions d = refl
migrated-execute create_invoices d = refl
migrated-execute seed_plans d =
    ap (λ ps. record { schema = complete; maria = record d.maria { plans = ps } })
      (seeded_twice seeded_plans d.maria.plans)

module _ (fails : ℕ → Bool) where
  migrated-execute_from :
      (n : ℕ) (ss : List Statement) (d : Database)
      → migrated (execute_from fails n ss d).1 ≡ migrated d
  unfolding execute_from
  migrated-execute_from n [] d = refl
  migrated-execute_from n (s ∷ ss) d = elim (Bool-cases (fails n)) [
    | inl failed ↦ rw failed refl
    | inr fine ↦ rw fine (migrated-execute_from (suc n) ss (execute s d) ∙ migrated-execute s d)
  ]

  execute_from-ok :
      (n : ℕ) (ss : List Statement) (d : Database)
      → (execute_from fails n ss d).0 ≡ true
      → execute_from fails n ss d ≡ execute_from never n ss d
  unfolding execute_from
  execute_from-ok n [] d h = refl
  execute_from-ok n (s ∷ ss) d h = elim (Bool-cases (fails n)) [
    | inl failed ↦ cc (rw failed at h)
    | inr fine ↦ rw fine (execute_from-ok (suc n) ss (execute s d) (rw fine at h))
  ]

-- Migrate can be run again. Whichever of its statements failed, a later run in which none fails
-- leaves the database that it would have left at once: every table with its rows, where the plans
-- are those that were there, followed by the seeded ones whose id was free; so does a run after one
-- that succeeded.
pub migrate_reruns :
    (fails : ℕ → Bool) (d : Database) → migrate never (migrate fails d).1 ≡ (true, migrated d)
unfolding migrate
migrate_reruns fails d =
    migrate-never (execute_from fails 0 statements d).1
    ∙ ap (λ x. (true, x)) (migrated-execute_from fails 0 statements d)

-- A run that reports no error has done everything.
pub migrate-ok :
    (fails : ℕ → Bool) (d : Database)
    → (migrate fails d).0 ≡ true
    → (migrate fails d).1 ≡ migrated d
unfolding migrate
migrate-ok fails d h =
    ap (λ (r : Bool × Database). r.1)
      (execute_from-ok fails 0 statements d h ∙ unfold migrate in migrate-never d)
