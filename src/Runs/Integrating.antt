-- ===== src/Runs/Integrating.antt =====
-- The beginning of an integration: `prepare_integration` of scripts/hermesops-integrator.py.
use hermes_ops.Orchestrator.Tables.{RunStatus, IntegrationDecision, IntegrationStatus}
use hermes_ops.Prelude.{
  string_column, ◌≤◌, String, ◌≡◌, refl, sym, ap, ◌∙◌, Bool, true, false, not, ◌&&◌, ◌||◌, Option,
  none, some, List, [], ◌∷◌, ◌++◌, arith, nat_beq, nat_beq_iff, ◌==◌, string_column, is_some_eq,
  option_both, is_some_eq-some, if_both,
}
use hermes_ops.Prelude.Result.{Result, IfOk, IfOk-of, ok}
use hermes_ops.Runs.Exclusive.Rules.{IfStored, IsSettleable, settle_review-IfStored}
use hermes_ops.Runs.Integrator.{validate_owner, is_reviewing, Settled}
use hermes_ops.Runs.Integrator.Commits.{
  integration_of, IntegrationDraw, is_begun, same_commit, is_still, is_as_seen, set_committing,
  store_prepared, prepare_integration, is_prepared,
}
use hermes_ops.Runs.Once.{is_completed}
use hermes_ops.Runs.Tables.{
  RunRow, Lock, IntegrationRow, RunDb, is_run, locks_run, add_run_event, beat_lock, RunError,
}
use hermes_ops.Runs.Ungated.{
  waits_beside, is_ending, aims_at, exists-congr, objective_wanted, run_ungated,
}
use hermes_ops.Sql.{update_where, fetch_one, count_where, exists_where}
use hermes_ops.Sql.Laws.{one, fetch_one-meets}
use hermes_ops.Sql.Rows.{fetch-update_some}

-- An integration of the run that is PREPARED or COMPLETED.
abbrev pub stands_for : String → IntegrationRow → Bool
stands_for run_id i = i.run_id == run_id && (is_prepared i.status || is_completed i.status)

-- What holds before a review of `seen` begins its integration for `owner`, and what it leaves.
pub record IntegrationBegins (db : RunDb) (seen : RunRow) (owner : String) (draw : IntegrationDraw)
    (db' : RunDb) : Type 0 where
  pub run : RunRow
  pub found : fetch_one (is_run seen.run_id) db.runs ≡ some run
  pub reviewing : run.status ≡ RunStatus.reviewing
  pub owned : run.transaction_owner ≡ some owner
  pub result_commit : String
  pub reviewed :
      (run.result_commit ≡ some result_commit) × (seen.result_commit ≡ some result_commit)
  pub base_commit : String
  pub based : (run.base_commit ≡ some base_commit) × (seen.base_commit ≡ some base_commit)
  pub lock : Lock
  pub locked : fetch_one (locks_run run.run_id) db.locks ≡ some lock
  pub held : (lock.holder ≡ owner) × (lock.project_id ≡ run.project_id)
  pub ungated : exists_where (waits_beside db.orchestration seen.run_id) db.approvals ≡ false
  pub wanted :
      exists_where
        (λ objective. aims_at db.orchestration seen.run_id objective && is_ending objective.status)
        db.orchestration.objectives
      ≡ false
  pub first : exists_where (stands_for run.run_id) db.integrations ≡ false
  pub integration : IntegrationRow
  pub opened : db'.integrations ≡ db.integrations ++ integration ∷ []
  pub prepared :
      (integration.integration_id ≡ draw.integration_id)
      × (integration.run_id ≡ run.run_id)
      × (integration.status ≡ IntegrationStatus.prepared)
      × (integration.reviewed_commit ≡ some result_commit)
  pub committing :
      fetch_one (is_run seen.run_id) db'.runs
      ≡ some (record run { status = RunStatus.committing; heartbeat_at = draw.now })

count-none :
    {A : Type 0} (q p : A → Bool) (rows : List A)
    → count_where q rows ≡ 0
    → count_where (λ a. q a && p a) rows ≡ 0
unfolding count_where
count-none q p [] h = refl
count-none q p (a ∷ rows) h = ground (arith, count-none q p rows)

sole_meets :
    {A : Type 0} (q p : A → Bool) (rows : List A) (found : A)
    → fetch_one q rows ≡ some found
    → count_where q rows ≤ 1
    → count_where (λ a. q a && p a) rows ≡ 1
    → p found ≡ true
unfolding fetch_one count_where
sole_meets q p [] found e sole one = cc
sole_meets q p (a ∷ rows) found e sole one =
    ground (arith, sole_meets q p rows found, count-none q p rows)

same_commit-both :
    (a b : Option String)
    → same_commit a b ≡ true
    → (commit : String) × (a ≡ some commit) × (b ≡ some commit)
same_commit-both a none h = cc
same_commit-both a (some b) h = (b, is_some_eq-some a b h, refl)

is_reviewing-value : (s : RunStatus) → is_reviewing s ≡ true → s ≡ RunStatus.reviewing
is_reviewing-value RunStatus.reviewing h = refl
is_reviewing-value _ h = absurd (ground arith)

owner_holds :
    (db : RunDb) (run : RunRow) (owner : String) (lock : Lock)
    → validate_owner db run owner ≡ ok lock
    → (run.transaction_owner ≡ some owner)
      × (fetch_one (locks_run run.run_id) db.locks ≡ some lock)
      × (lock.holder ≡ owner)
      × (lock.project_id ≡ run.project_id)
unfolding validate_owner
owner_holds db run owner lock =
    let Holds : Result RunError Lock → Type 0 = λ r.
      r ≡ ok lock
      → (run.transaction_owner ≡ some owner)
        × (fetch_one (locks_run run.run_id) db.locks ≡ some lock)
        × (lock.holder ≡ owner)
        × (lock.project_id ≡ run.project_id) in
    option_both Holds (fetch_one (locks_run run.run_id) db.locks) (λ e h. cc)
      (λ found e.
        if_both Holds (owner == "" || not (is_some_eq run.transaction_owner owner)) (λ _ h. cc)
          (λ named.
            if_both Holds (found.holder == owner && found.project_id == run.project_id)
              (λ held h.
                let same : found ≡ lock = cc in
                (
                  is_some_eq-some run.transaction_owner owner (ground arith),
                  e ∙ ap some same,
                  sym (ap (λ (l : Lock). l.holder) same)
                      ∙ (string_column.same_iff found.holder owner).0 (ground arith),
                  sym (ap (λ (l : Lock). l.project_id) same)
                      ∙ (string_column.same_iff found.project_id run.project_id).0 (ground arith),
                ))
              (λ _ h. cc)))

begun_or : (s : IntegrationStatus) → (is_prepared s || is_completed s) ≡ is_begun s
begun_or IntegrationStatus.prepared = refl
begun_or IntegrationStatus.completed = refl
begun_or IntegrationStatus.rejected = refl
begun_or _ = refl

-- The row of the INSERT, and the tables with it.
abbrev prepared_row : IntegrationDraw → IntegrationDecision → RunRow → IntegrationRow
prepared_row draw decision run =
    integration_of draw.integration_id run decision IntegrationStatus.prepared draw.main_before none
      none draw.now

abbrev prepared_tables : RunDb → IntegrationDraw → IntegrationDecision → RunRow → RunRow → RunDb
prepared_tables db draw decision seen run =
    add_run_event
      (record db {
        integrations = db.integrations ++ prepared_row draw decision run ∷ [];
        runs = update_where (is_as_seen seen) (set_committing draw.now) db.runs;
        locks = beat_lock run.run_id draw.now db.locks;
      })
      run "INTEGRATION_PREPARED" "INFO"

not_standing :
    (run_id : String) (integrations : List IntegrationRow)
    → exists_where (λ i. i.run_id == run_id && is_begun i.status) integrations ≡ false
    → exists_where (stands_for run_id) integrations ≡ false
not_standing run_id integrations alone =
    exists-congr (stands_for run_id) (λ i. i.run_id == run_id && is_begun i.status) integrations
      (λ i. ap (λ b. i.run_id == run_id && b) (begun_or i.status))
    ∙ alone

module _ (db : RunDb) (seen : RunRow) (owner : String) (draw : IntegrationDraw)
    (decision : IntegrationDecision) (sole : count_where (is_run seen.run_id) db.runs ≤ 1)
    (run : RunRow) (ready : IsSettleable db seen.run_id owner run) where
  begins :
      exists_where (λ i. i.run_id == run.run_id && is_begun i.status) db.integrations ≡ false
      → count_where (is_as_seen seen) db.runs ≡ 1
      → IntegrationBegins db seen owner draw (prepared_tables db draw decision seen run)
  begins alone one_row =
      let still =
        sole_meets (is_run seen.run_id) (is_still seen) db.runs run ready.found sole one_row in
      let is_it = fetch_one-meets (is_run seen.run_id) db.runs run ready.found in
      let (result_commit, at_result, seen_result) =
        same_commit-both run.result_commit seen.result_commit (ground arith) in
      let (base_commit, at_base, seen_base) =
        same_commit-both run.base_commit seen.base_commit (ground arith) in
      let (owned, locked, holder, project) = owner_holds db run owner ready.lock ready.owned in
      record {
        run = run;
        found = ready.found;
        reviewing = is_reviewing-value run.status ready.reviewing;
        owned = owned;
        result_commit = result_commit;
        reviewed = (at_result, seen_result);
        base_commit = base_commit;
        based = (at_base, seen_base);
        lock = ready.lock;
        locked = locked;
        held = (holder, project);
        ungated = run_ungated db seen.run_id ready.ungated;
        wanted =
            objective_wanted db.orchestration seen.run_id ready.objective_status ready.objective
              ready.goes_on;
        first = not_standing run.run_id db.integrations alone;
        integration = prepared_row draw decision run;
        opened = refl;
        prepared = (refl, refl, refl, at_result);
        committing =
            fetch-update_some (is_run seen.run_id) (is_as_seen seen) (set_committing draw.now)
              db.runs run (λ r. refl) ready.found
            ∙ ground arith;
      }

-- An integration begins only of a run that is REVIEWING, at the result and the base commit that the
-- review was validated against; for the owner of the run, who holds its lock for its project; when
-- no approval of a run of one of its plans is pending, none of the objectives of its plans is being
-- cancelled or is CANCELLED, and no integration of the run is PREPARED or COMPLETED. It then adds
-- one integration of the run, PREPARED at the reviewed commit, and the run is COMMITTING. The
-- identifiers of runs are taken to be unique.
pub integration_begins :
    (db : RunDb) (seen : RunRow) (owner : String) (draw : IntegrationDraw)
    (decision : IntegrationDecision) (db' : RunDb)
    → count_where (is_run seen.run_id) db.runs ≤ 1
    → prepare_integration db seen owner draw decision ≡ ok (Settled.stored db')
    → IntegrationBegins db seen owner draw db'
unfolding prepare_integration store_prepared
integration_begins db seen owner draw decision db' sole h =
    let Begins : RunDb → Type 0 = IntegrationBegins db seen owner draw in
    IfOk-of (IfStored Begins) (prepare_integration db seen owner draw decision) (Settled.stored db')
      h
      (settle_review-IfStored Begins db seen.run_id owner (store_prepared db draw decision seen)
        (λ run ready.
          if_both (IfOk (IfStored Begins))
            (exists_where (λ i. i.run_id == run.run_id && is_begun i.status) db.integrations)
            (λ _. tt)
            (λ alone.
              if_both (IfOk (IfStored Begins)) (nat_beq (count_where (is_as_seen seen) db.runs) 1)
                (λ one_row.
                  begins db seen owner draw decision sole run ready alone
                    ((nat_beq_iff (count_where (is_as_seen seen) db.runs) 1).0 one_row))
                (λ _. tt))))
