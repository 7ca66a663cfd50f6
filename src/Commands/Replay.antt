-- ===== src/Commands/Replay.antt =====
-- A request that is sent again with its key is answered again, and nothing else happens.
use hermes_ops.Commands.Change.{run_command-Kept}
use hermes_ops.Commands.Controller.{replay_or_run, command_objective, settle, run_command}
use hermes_ops.Commands.Request.{Host, Request, Draw, validate_idempotency_key}
use hermes_ops.Commands.Store.{
  Response, Idempotency, Store, is_key, replay_row, replay_or_reserve, complete_idempotency,
  record_operation, add_audit,
}
use hermes_ops.Orchestrator.Tables.{ObjectiveStatus}
use hermes_ops.Prelude.{
  string_column, String, ◌≡◌, refl, Bool, true, none, some, List, [], ◌∷◌, ◌++◌, arith, ==_refl,
  sym, subst, ◌==◌, inl, inr, Option-cases,
}
use hermes_ops.Prelude.Result.{ok, ◌>>=◌, bind_ok}
use hermes_ops.Sql.{update_where, fetch_one}

-- The row of a key that was reserved last.
fetch_one-reserved {ℓ} :
    {A : Type ℓ} (q : A → Bool) (f : A → A) (rows : List A) (r : A)
    → fetch_one q rows ≡ none
    → q r ≡ true
    → q (f r) ≡ true
    → fetch_one q (update_where q f (rows ++ r ∷ [])) ≡ some (f r)
unfolding fetch_one update_where
fetch_one-reserved q f [] r h m k = ground arith
fetch_one-reserved q f (s ∷ rows) r h m k = ground (arith, fetch_one-reserved q f rows r)

module _ (host : Host) (request : Request) where
  abbrev pub session_fp : String
  session_fp = host.session_fingerprint request.session_token

  abbrev pub key_hash : String
  key_hash = host.key_hash request.session_token request.idempotency_key

  abbrev request_hash : String
  request_hash = host.request_hash request.session_token "POST" request.route request.body

  -- The key of the request is kept, with a response.
  record IsAnswered (store : Store) (response : Response) : Type 0 where
    row : Idempotency
    found : fetch_one (is_key session_fp key_hash) store.idempotency ≡ some row
    row_method : (row.method == "POST") ≡ true
    row_route : (row.route == request.route) ≡ true
    row_hash : (row.request_hash == request_hash) ≡ true
    answer : row.response ≡ some response

  answered :
      (draw : Draw) (store : Store) (response : Response)
      → validate_idempotency_key request.idempotency_key ≡ true
      → IsAnswered store response
      → command_objective host draw store request ≡ ok (store, response)
  unfolding command_objective replay_or_reserve replay_row replay_or_run
  answered draw store response valid a =
      ground (arith, a.found, a.row_method, a.row_route, a.row_hash, a.answer, valid)

  -- The row that the look-up reserves.
  abbrev fresh_row : Idempotency
  fresh_row = record {
    session_fingerprint = session_fp;
    key_hash = key_hash;
    method = "POST";
    route = request.route;
    request_hash = request_hash;
    response = none;
    operation_id = none;
  }

  settled :
      (draw : Draw) (reserved : Store) (state : ObjectiveStatus) (old : List Idempotency)
      → fetch_one (is_key session_fp key_hash) old ≡ none
      → reserved.idempotency ≡ old ++ fresh_row ∷ []
      → IsAnswered
          (settle host draw request (reserved, state)).0
          (settle host draw request (reserved, state)).1
  unfolding settle complete_idempotency record_operation add_audit
  settled draw reserved state old none_yet same =
      let payload = (settle host draw request (reserved, state)).1 in
      let f : Idempotency → Idempotency =
        λ r. record r { response = some payload; operation_id = some draw.operation_id } in
      let meets : is_key session_fp key_hash fresh_row ≡ true =
        ground (arith, ==_refl session_fp, ==_refl key_hash) in
      record {
        row = f fresh_row;
        found =
            subst
              (λ rows.
                fetch_one (is_key session_fp key_hash)
                  (update_where (is_key session_fp key_hash) f rows)
                ≡ some (f fresh_row))
              (sym same)
              (fetch_one-reserved (is_key session_fp key_hash) f old fresh_row none_yet meets
                meets);
        row_method = refl;
        row_route = ==_refl request.route;
        row_hash = ==_refl request_hash;
        answer = refl;
      }

  unfoldable pub reserved_of : Store → Store
  reserved_of store = record store { idempotency = store.idempotency ++ fresh_row ∷ [] }

  pub replayed_same :
      (draw : Draw) (store after : Store) (response : Response) (row : Idempotency)
      → fetch_one (is_key session_fp key_hash) store.idempotency ≡ some row
      → command_objective host draw store request ≡ ok (after, response)
      → store ≡ after
  unfolding command_objective replay_or_reserve replay_row replay_or_run
  replayed_same draw store after response row e h = ground arith

  replayed :
      (draw : Draw) (store after : Store) (response : Response) (row : Idempotency)
      → fetch_one (is_key session_fp key_hash) store.idempotency ≡ some row
      → command_objective host draw store request ≡ ok (after, response)
      → IsAnswered after response
  unfolding command_objective replay_or_reserve replay_row replay_or_run
  replayed draw store after response row e h =
      subst (λ s. IsAnswered s response) (replayed_same draw store after response row e h)
        (record {
          row = row;
          found = e;
          row_method = ground arith;
          row_route = ground arith;
          row_hash = ground arith;
          answer = ground arith;
        })

  pub carried_out :
      (draw : Draw) (store after : Store) (response : Response)
      → fetch_one (is_key session_fp key_hash) store.idempotency ≡ none
      → command_objective host draw store request ≡ ok (after, response)
      → (done : Store × ObjectiveStatus) × (run_command host draw (reserved_of store) request
          ≡ ok done)
        × (settle host draw request done ≡ (after, response))
  unfolding command_objective replay_or_reserve replay_or_run reserved_of
  carried_out draw store after response e h =
      let runs : (run_command host draw (reserved_of store) request >>= λ done.
      ok (settle host draw request done))
          ≡ ok (after, response) =
        ground arith in
      let (done, ran, end) = bind_ok (run_command host draw (reserved_of store) request) _ runs in
      (done, ran, cc)

  now-IsAnswered :
      (draw : Draw) (store after : Store) (response : Response)
      → command_objective host draw store request ≡ ok (after, response)
      → IsAnswered after response
  unfolding reserved_of
  now-IsAnswered draw store after response h =
      elim (Option-cases (fetch_one (is_key session_fp key_hash) store.idempotency)) [
        | inl e ↦
            let (done, ran, end) = carried_out draw store after response e h in
            subst (λ (p : Store × Response). IsAnswered p.0 p.1) end
              (settled draw done.0 done.1 store.idempotency e
                (run_command-Kept (λ db. Unit {0}) (λ row db f event new payload p. tt)
                  (λ plan_id now db p. tt) host draw (reserved_of store) request done.0 done.1 tt
                  ran).0)
        | inr (row, e) ↦ replayed draw store after response row e h
      ]

  -- A request that was carried out, or answered, is answered the same way when it is sent again
  -- with its key, whatever the clock and the identifiers are then, and changes nothing.
  pub command_objective_again :
      (draw again : Draw) (store after : Store) (response : Response)
      → command_objective host draw store request ≡ ok (after, response)
      → command_objective host again after request ≡ ok (after, response)
  unfolding command_objective
  command_objective_again draw again store after response h =
      answered again after response (ground arith) (now-IsAnswered draw store after response h)
