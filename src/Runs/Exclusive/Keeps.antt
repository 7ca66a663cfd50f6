-- ===== src/Runs/Exclusive/Keeps.antt =====
-- Each kind of write to the two tables keeps the locks exclusive.
use hermes_ops.Orchestrator.Tables.{Timestamp}
use hermes_ops.Prelude.{
  string_column, ◌≤◌, String, ◌≡◌, refl, sym, subst, Bool, true, false, not, ◌&&◌, ◌||◌, List, [],
  ◌∷◌, ◌++◌, arith, ◌==◌, ap, ◌∙◌, ==_refl,
}
use hermes_ops.Runs.Exclusive.{needs_lock, locks_both, is_held, IsExclusive}
use hermes_ops.Runs.Tables.{RunRow, Lock, is_run, locks_run, locks_project, beat_lock}
use hermes_ops.Sql.{update_where, count_where, exists_where, delete_where}
use hermes_ops.Sql.Laws.{count-update_same}
use hermes_ops.Sql.Rows.{
  all-append_one, all-update, all_imp, exists-append_one, exists-update_same, exists-delete,
  count-delete_le, count-append_le,
}

-- An update leaves the keys of a run, and brings it to no work that it was not at.
abbrev pub KeepsRun : (RunRow → Bool) → (RunRow → RunRow) → Type 0
KeepsRun q f =
    (r : RunRow)
    → ((f r).run_id ≡ r.run_id)
      × ((f r).project_id ≡ r.project_id)
      × ((q r && needs_lock (f r).status) ≡ true → needs_lock r.status ≡ true)

-- The lock of a run that kept its keys.
pub exists-locks_both :
    (locks : List Lock) (r s : RunRow)
    → s.run_id ≡ r.run_id
    → s.project_id ≡ r.project_id
    → exists_where (locks_both s.run_id s.project_id) locks
      ≡ exists_where (locks_both r.run_id r.project_id) locks
exists-locks_both locks r s same_run same_project =
    ap (λ x. exists_where (locks_both x s.project_id) locks) same_run
    ∙ ap (λ p. exists_where (locks_both r.run_id p) locks) same_project

is_held-work :
    (locks : List Lock) (q : RunRow → Bool) (f : RunRow → RunRow) (r : RunRow)
    → KeepsRun q f
    → is_held locks r ≡ true
    → q r ≡ true
    → is_held locks (f r) ≡ true
unfolding is_held
is_held-work locks q f r k h m =
    ground (arith, exists-locks_both locks r (f r) (k r).0 (k r).1, (k r).2)

-- An update that leaves the keys leaves them unique.
run_ids-update :
    (runs : List RunRow) (q : RunRow → Bool) (f : RunRow → RunRow)
    → ((r : RunRow) → (f r).run_id ≡ r.run_id)
    → ((y : String) → count_where (is_run y) runs ≤ 1)
    → (y : String) → count_where (is_run y) (update_where q f runs) ≤ 1
run_ids-update runs q f k u y =
    subst (λ n. n ≤ 1) (sym (count-update_same (is_run y) q f runs (λ r. ap (λ i. i == y) (k r))))
      (u y)

pub update-IsExclusive :
    (runs : List RunRow) (locks : List Lock) (q : RunRow → Bool) (f : RunRow → RunRow)
    → KeepsRun q f
    → IsExclusive runs locks
    → IsExclusive (update_where q f runs) locks
update-IsExclusive runs locks q f k x = record {
  run_ids = run_ids-update runs q f (λ r. (k r).0) x.run_ids;
  lock_runs = x.lock_runs;
  lock_projects = x.lock_projects;
  held =
      all-update (is_held locks) (is_held locks) q f runs (λ r h m. is_held-work locks q f r k h m)
        (λ r h m. h) x.held;
}

is_held-beat :
    (locks : List Lock) (run_id : String) (now : Timestamp) (r : RunRow)
    → is_held (beat_lock run_id now locks) r ≡ is_held locks r
unfolding is_held
is_held-beat locks run_id now r =
    ap (λ b. not (needs_lock r.status) || b)
      (exists-update_same (locks_both r.run_id r.project_id) (locks_run run_id)
        (λ l. record l { heartbeat_at = now }) locks (λ l. refl))

pub beat_lock-IsExclusive :
    (runs : List RunRow) (locks : List Lock) (run_id : String) (now : Timestamp)
    → IsExclusive runs locks
    → IsExclusive runs (beat_lock run_id now locks)
beat_lock-IsExclusive runs locks run_id now x =
    let set = λ (l : Lock). record l { heartbeat_at = now } in
    record {
      run_ids = x.run_ids;
      lock_runs = λ y. ground (
        arith,
        count-update_same (locks_run y) (locks_run run_id) set locks (λ l. refl),
        x.lock_runs y,
      );
      lock_projects = λ p. ground (
        arith,
        count-update_same (locks_project p) (locks_run run_id) set locks (λ l. refl),
        x.lock_projects p,
      );
      held =
          all_imp (is_held locks) (is_held (beat_lock run_id now locks)) runs
            (λ r h. ground (arith, is_held-beat locks run_id now r)) x.held;
    }

is_held-delete :
    (locks : List Lock) (run_id : String) (r : RunRow)
    → is_run run_id r ≡ false
    → is_held (delete_where (locks_run run_id) locks) r ≡ is_held locks r
unfolding is_held
is_held-delete locks run_id r other =
    ap (λ b. not (needs_lock r.status) || b)
      (exists-delete (locks_both r.run_id r.project_id) (locks_run run_id) locks (λ l m. ground (
        arith,
        string_column.same_iff l.run_id r.run_id,
        string_column.same_iff l.run_id run_id,
        string_column.same_iff r.run_id run_id,
      )))

-- The lock of a run is deleted and the run's work ends.
pub release-IsExclusive :
    (runs : List RunRow) (locks : List Lock) (run_id : String) (f : RunRow → RunRow)
    → ((r : RunRow)
        → ((f r).run_id ≡ r.run_id)
          × ((f r).project_id ≡ r.project_id)
          × (needs_lock (f r).status ≡ false))
    → IsExclusive runs locks
    → IsExclusive (update_where (is_run run_id) f runs) (delete_where (locks_run run_id) locks)
unfolding is_held
release-IsExclusive runs locks run_id f k x = record {
  run_ids = run_ids-update runs (is_run run_id) f (λ r. (k r).0) x.run_ids;
  lock_runs =
      λ y. ground (arith, count-delete_le (locks_run y) (locks_run run_id) locks, x.lock_runs y);
  lock_projects = λ p.
      ground (arith, count-delete_le (locks_project p) (locks_run run_id) locks, x.lock_projects p);
  held =
      all-update (is_held locks) (is_held (delete_where (locks_run run_id) locks)) (is_run run_id) f
        runs (λ r h m. ground (arith, (k r).2))
        (λ r h m. ground (arith, is_held-delete locks run_id r m)) x.held;
}

is_held-append :
    (locks : List Lock) (lock : Lock) (r : RunRow)
    → is_held locks r ≡ true
    → is_held (locks ++ lock ∷ []) r ≡ true
unfolding is_held
is_held-append locks lock r h =
    ground (arith, exists-append_one (locks_both r.run_id r.project_id) locks lock)

-- A lock is added whose keys are not there.
pub lock-IsExclusive :
    (runs : List RunRow) (locks : List Lock) (lock : Lock)
    → exists_where (locks_run lock.run_id) locks ≡ false
    → exists_where (locks_project lock.project_id) locks ≡ false
    → IsExclusive runs locks
    → IsExclusive runs (locks ++ lock ∷ [])
lock-IsExclusive runs locks lock no_run no_project x = record {
  run_ids = x.run_ids;
  lock_runs = λ y. count-append_le (locks_run y) locks lock (x.lock_runs y) (λ e.
      subst (λ k. exists_where (locks_run k) locks ≡ false)
        ((string_column.same_iff lock.run_id y).0 e) no_run);
  lock_projects = λ p. count-append_le (locks_project p) locks lock (x.lock_projects p) (λ e.
      subst (λ k. exists_where (locks_project k) locks ≡ false)
        ((string_column.same_iff lock.project_id p).0 e) no_project);
  held =
      all_imp (is_held locks) (is_held (locks ++ lock ∷ [])) runs
        (λ r h. is_held-append locks lock r h) x.held;
}

-- A run is added whose key is not there, with its lock.
pub run-IsExclusive :
    (runs : List RunRow) (locks : List Lock) (run : RunRow)
    → exists_where (is_run run.run_id) runs ≡ false
    → is_held locks run ≡ true
    → IsExclusive runs locks
    → IsExclusive (runs ++ run ∷ []) locks
run-IsExclusive runs locks run absent h x = record {
  run_ids = λ y. count-append_le (is_run y) runs run (x.run_ids y) (λ e.
      subst (λ k. exists_where (is_run k) runs ≡ false) ((string_column.same_iff run.run_id y).0 e)
        absent);
  lock_runs = x.lock_runs;
  lock_projects = x.lock_projects;
  held = all-append_one (is_held locks) runs run x.held h;
}

-- The last lock of a table is found.
pub exists-last :
    (locks : List Lock) (lock : Lock)
    → exists_where (locks_both lock.run_id lock.project_id) (locks ++ lock ∷ []) ≡ true
exists-last locks lock = ground (
  arith,
  exists-append_one (locks_both lock.run_id lock.project_id) locks lock,
  ==_refl lock.run_id,
  ==_refl lock.project_id,
)

pub is_held-found :
    (locks : List Lock) (r : RunRow)
    → exists_where (locks_both r.run_id r.project_id) locks ≡ true
    → is_held locks r ≡ true
unfolding is_held
is_held-found locks r h = ground arith

-- A run of which there is a lock may come to any state.
pub rework-IsExclusive :
    (runs : List RunRow) (locks : List Lock) (q : RunRow → Bool) (f : RunRow → RunRow)
    → ((r : RunRow) → ((f r).run_id ≡ r.run_id) × ((f r).project_id ≡ r.project_id))
    → ((r : RunRow) → q r ≡ true → exists_where (locks_both r.run_id r.project_id) locks ≡ true)
    → IsExclusive runs locks
    → IsExclusive (update_where q f runs) locks
unfolding is_held
rework-IsExclusive runs locks q f k has x = record {
  run_ids = run_ids-update runs q f (λ r. (k r).0) x.run_ids;
  lock_runs = x.lock_runs;
  lock_projects = x.lock_projects;
  held =
      all-update (is_held locks) (is_held locks) q f runs
        (λ r h m. ground (arith, exists-locks_both locks r (f r) (k r).0 (k r).1, has r m))
        (λ r h m. h) x.held;
}
