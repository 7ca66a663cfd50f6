-- ===== src/Runtime/Order.antt =====
-- In what order the control plane sees a request's events.
use hermes_ops.Prelude.{
  String, ◌≡◌, refl, sym, ap, ◌∙◌, Bool, true, false, not, ◌&&◌, Option, List, [], ◌∷◌, ◌++◌, arith,
  if_both, all, string_column, ◌==◌,
}
use hermes_ops.Prelude.Members.{is_empty}
use hermes_ops.Runtime.Dispatcher.{
  emit, RuntimeRole, RuntimeErrorKind, RuntimeEvent, Dispatcher, is_start, is_bound, hand, emit_all,
  dispatcher_of, same_role,
}
use hermes_ops.Sql.Rows.{all-append_one, all_imp}

-- Nothing, or one STARTED followed by heartbeats.
unfoldable pub is_ordered : List RuntimeEvent → Bool
is_ordered [] = true
is_ordered (e ∷ events) = is_start e && all (λ f. not (is_start f)) events

record IsOrderly (d : Dispatcher) : Type 0 where
  unstarted : d.is_started ≡ false → d.handed ≡ []
  begun : d.is_started ≡ true → is_empty d.handed ≡ false
  ordered : is_ordered d.handed ≡ true
  bound : all (is_bound d) d.handed ≡ true

ordered-append :
    (events : List RuntimeEvent) (e : RuntimeEvent)
    → is_ordered events ≡ true
    → is_start e ≡ is_empty events
    → is_ordered (events ++ e ∷ []) ≡ true
unfolding is_ordered
ordered-append [] e h s = ground arith
ordered-append (f ∷ events) e h s = ground (arith, all-append_one (λ g. not (is_start g)) events e)

append-not_empty :
    (events : List RuntimeEvent) (e : RuntimeEvent) → is_empty (events ++ e ∷ []) ≡ false
append-not_empty [] e = refl
append-not_empty (f ∷ events) e = refl

emit-IsOrderly :
    (sink : RuntimeEvent → Bool) (d : Dispatcher) (e : RuntimeEvent)
    → IsOrderly d
    → IsOrderly (emit sink d e).0
unfolding emit hand
emit-IsOrderly sink d e o =
    if_both (λ (r : Dispatcher × Option RuntimeErrorKind). IsOrderly r.0) (not (is_bound d e))
      (λ _. o)
      (λ own.
        if_both (λ (r : Dispatcher × Option RuntimeErrorKind). IsOrderly r.0) (is_start e)
          (λ start.
            if_both (λ (r : Dispatcher × Option RuntimeErrorKind). IsOrderly r.0) d.is_started
              (λ _. o)
              (λ first. record {
                unstarted = λ h. cc;
                begun = λ h. append-not_empty d.handed e;
                ordered =
                    ordered-append d.handed e o.ordered
                      (start ∙ sym (ap is_empty (o.unstarted first)));
                bound = all-append_one (is_bound d) d.handed e o.bound (ground arith);
              }))
          (λ beat.
            if_both (λ (r : Dispatcher × Option RuntimeErrorKind). IsOrderly r.0) (not d.is_started)
              (λ _. o)
              (λ on. record {
                unstarted = λ h. absurd (ground arith);
                begun = λ h. append-not_empty d.handed e;
                ordered = ordered-append d.handed e o.ordered (beat ∙ sym (o.begun (ground arith)));
                bound = all-append_one (is_bound d) d.handed e o.bound (ground arith);
              })))

emit-same_request :
    (sink : RuntimeEvent → Bool) (d : Dispatcher) (e : RuntimeEvent)
    → ((emit sink d e).0.request_id ≡ d.request_id) × ((emit sink d e).0.role ≡ d.role)
unfolding emit hand
emit-same_request sink d e = (ground arith, ground arith)

emit_all-same_request :
    (sink : RuntimeEvent → Bool) (d : Dispatcher) (events : List RuntimeEvent)
    → ((emit_all sink d events).request_id ≡ d.request_id)
      × ((emit_all sink d events).role ≡ d.role)
unfolding emit_all
emit_all-same_request sink d [] = (refl, refl)
emit_all-same_request sink d (e ∷ events) =
    let (i, r) = emit-same_request sink d e in
    let (j, s) = emit_all-same_request sink (emit sink d e).0 events in (j ∙ i, s ∙ r)

empty-ordered : is_ordered [] ≡ true
unfolding is_ordered
empty-ordered = refl

emit_all-IsOrderly :
    (sink : RuntimeEvent → Bool) (d : Dispatcher) (events : List RuntimeEvent)
    → IsOrderly d
    → IsOrderly (emit_all sink d events)
unfolding emit_all
emit_all-IsOrderly sink d [] o = o
emit_all-IsOrderly sink d (e ∷ events) o =
    emit_all-IsOrderly sink (emit sink d e).0 events (emit-IsOrderly sink d e o)

-- Whatever events a runtime emits, and whether or not the sink fails on some, the control plane is
-- handed nothing, or one STARTED event followed only by heartbeats, each of them bound to the
-- request and the role.
pub handed_in_order :
    (sink : RuntimeEvent → Bool) (request_id : String) (role : RuntimeRole)
    (events : List RuntimeEvent)
    → (is_ordered (emit_all sink (dispatcher_of request_id role) events).handed ≡ true)
      × (all
            (is_bound (dispatcher_of request_id role))
            (emit_all sink (dispatcher_of request_id role) events).handed
          ≡ true)
handed_in_order sink request_id role events =
    let start = dispatcher_of request_id role in
    let end = emit_all sink start events in
    let fresh : IsOrderly start = record {
      unstarted = λ h. refl;
      begun = λ h. cc;
      ordered = empty-ordered;
      bound = refl;
    } in
    let o = emit_all-IsOrderly sink start events fresh in
    let (same_id, same_role_) = emit_all-same_request sink start events in
    (
      o.ordered,
      all_imp (is_bound end) (is_bound start) end.handed
          (λ e h.
            sym (
              ap (λ i. e.request_id == i && same_role e.role end.role) same_id
              ∙ ap (λ r. e.request_id == request_id && same_role e.role r) same_role_)
            ∙ h)
          o.bound,
    )
