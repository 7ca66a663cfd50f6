-- ===== src/Runs/Once/Keeps.antt =====
-- Each kind of write keeps the count of integrations.
use hermes_ops.Prelude.{
  string_column, ◌≤◌, String, ◌≡◌, ap, Bool, true, false, ◌&&◌, some, List, [], ◌∷◌, ◌++◌, arith,
  ◌==◌,
}
use hermes_ops.Runs.Once.{is_opened, opened_for, is_early, early_run, IsOnce}
use hermes_ops.Runs.Tables.{RunRow, IntegrationRow, is_run}
use hermes_ops.Sql.{update_where, fetch_one, count_where}
use hermes_ops.Sql.Laws.{count-update_found, count-update_le, fetch_one-meets, count-update_same}
use hermes_ops.Sql.Rows.{count-append_one}

-- An update that leaves the keys of the runs and brings none back to an early state.
pub runs-IsOnce :
    (runs : List RunRow) (integrations : List IntegrationRow) (q : RunRow → Bool)
    (f : RunRow → RunRow)
    → ((r : RunRow)
        → ((f r).run_id ≡ r.run_id)
          × ((q r && is_early (f r).status) ≡ true → is_early r.status ≡ true))
    → IsOnce runs integrations
    → IsOnce (update_where q f runs) integrations
runs-IsOnce runs integrations q f k o x = ground (
  arith,
  o x,
  count-update_same (is_run x) q f runs (λ r. ap (λ i. i == x) (k r).0),
  count-update_le (early_run x) q f runs
      (λ r m h. ground (arith, ap (λ i. i == x) (k r).0, (k r).1)),
)

-- An update of integrations that leaves their runs and begins none.
pub integrations-IsOnce :
    (runs : List RunRow) (integrations : List IntegrationRow) (q : IntegrationRow → Bool)
    (f : IntegrationRow → IntegrationRow)
    → ((i : IntegrationRow)
        → ((f i).run_id ≡ i.run_id)
          × ((q i && is_opened (f i).status) ≡ true → is_opened i.status ≡ true))
    → IsOnce runs integrations
    → IsOnce runs (update_where q f integrations)
integrations-IsOnce runs integrations q f k o x = ground (
  arith,
  o x,
  count-update_le (opened_for x) q f integrations
      (λ i m h. ground (arith, ap (λ k. k == x) (k i).0, (k i).1)),
)

pub refused-IsOnce :
    (runs : List RunRow) (integrations : List IntegrationRow) (row : IntegrationRow)
    → is_opened row.status ≡ false
    → IsOnce runs integrations
    → IsOnce runs (integrations ++ row ∷ [])
refused-IsOnce runs integrations row refused o x =
    ground (arith, o x, count-append_one (opened_for x) integrations row)

pub begun-IsOnce :
    (runs : List RunRow) (integrations : List IntegrationRow) (run : RunRow)
    → IsOnce runs integrations
    → IsOnce (runs ++ run ∷ []) integrations
begun-IsOnce runs integrations run o x =
    ground
      (arith, o x, count-append_one (early_run x) runs run, count-append_one (is_run x) runs run)

-- An integration is begun of the one early run of its key, which is early no more.
pub opened-IsOnce :
    (runs : List RunRow) (integrations : List IntegrationRow) (run_id : String) (g : RunRow → Bool)
    (f : RunRow → RunRow) (run : RunRow) (row : IntegrationRow)
    → ((r : RunRow) → ((f r).run_id ≡ r.run_id) × (is_early (f r).status ≡ false))
    → fetch_one (is_run run_id) runs ≡ some run
    → count_where (is_run run_id) runs ≤ 1
    → g run ≡ true
    → is_early run.status ≡ true
    → row.run_id ≡ run_id
    → IsOnce runs integrations
    → IsOnce (update_where (λ r. is_run run_id r && g r) f runs) (integrations ++ row ∷ [])
opened-IsOnce runs integrations run_id g f run row k found u seen early same o x = ground (
  arith,
  o x,
  count-append_one (opened_for x) integrations row,
  count-update_same (is_run x) (λ r. is_run run_id r && g r) f runs (λ r. ap (λ i. i == x) (k r).0),
  count-update_found (early_run x) (is_run run_id) g f runs run found u,
  fetch_one-meets (is_run run_id) runs run found,
  (k run).1,
  string_column.same_iff run.run_id run_id,
  string_column.same_iff run.run_id x,
  string_column.same_iff row.run_id x,
)
