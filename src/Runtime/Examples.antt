-- ===== src/Runtime/Examples.antt =====
-- A runtime that beats too early, starts twice and beats.
use hermes_ops.Prelude.{◌≡◌, true, List, [], ◌∷◌, all}
use hermes_ops.Runtime.Dispatcher.{
  RuntimeRole, RuntimeEventKind, RuntimeEvent, is_bound, emit_all, dispatcher_of,
}
use hermes_ops.Runtime.Order.{is_ordered, handed_in_order}

abbrev event : RuntimeEventKind → RuntimeEvent
event kind = record { request_id = "request-1"; role = RuntimeRole.worker; kind = kind }

abbrev events : List RuntimeEvent
events =
    event RuntimeEventKind.heartbeat
    ∷ event RuntimeEventKind.started
    ∷ event RuntimeEventKind.started
    ∷ event RuntimeEventKind.heartbeat
    ∷ []

handed_in_order_example :
    (is_ordered (emit_all (λ e. true) (dispatcher_of "request-1" RuntimeRole.worker) events).handed
      ≡ true)
    × (all
          (is_bound (dispatcher_of "request-1" RuntimeRole.worker))
          (emit_all (λ e. true) (dispatcher_of "request-1" RuntimeRole.worker) events).handed
        ≡ true)
handed_in_order_example = handed_in_order (λ e. true) "request-1" RuntimeRole.worker events
