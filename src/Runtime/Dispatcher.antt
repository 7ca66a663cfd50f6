-- ===== src/Runtime/Dispatcher.antt =====
-- `RuntimeEventDispatcher` of scripts/agent_runtime/contract.py, for a request with a sink. The sink is the control plane's: it
-- may fail on an event, after which the event was handed over all the same.
use hermes_ops.Prelude.{
  string_column, String, Bool, true, false, not, ◌&&◌, Option, none, some, List, [], ◌∷◌, ◌++◌,
  if◌then◌else◌, ◌==◌,
}

pub data RuntimeRole : Type 0 where
  planner worker reviewer : RuntimeRole

pub data RuntimeEventKind : Type 0 where
  started heartbeat : RuntimeEventKind

pub data RuntimeErrorKind : Type 0 where
  runtime_unavailable execution_failed timeout invalid_result cancelled : RuntimeErrorKind

pub record RuntimeEvent : Type 0 where
  pub request_id : String
  pub role : RuntimeRole
  pub kind : RuntimeEventKind

-- The request's binding and the flag; `handed` is what the sink was called with, oldest first.
pub record Dispatcher : Type 0 where
  pub request_id : String
  pub role : RuntimeRole
  pub is_started : Bool
  pub handed : List RuntimeEvent

abbrev pub same_role : RuntimeRole → RuntimeRole → Bool
same_role RuntimeRole.planner RuntimeRole.planner = true
same_role RuntimeRole.worker RuntimeRole.worker = true
same_role RuntimeRole.reviewer RuntimeRole.reviewer = true
same_role _ _ = false

abbrev pub is_start : RuntimeEvent → Bool
is_start e = elim e.kind [ started ↦ true | heartbeat ↦ false ]

abbrev pub is_bound : Dispatcher → RuntimeEvent → Bool
is_bound d e = e.request_id == d.request_id && same_role e.role d.role

-- The sink's call: `false` is an exception.
unfoldable pub hand :
    (RuntimeEvent → Bool) → Dispatcher → RuntimeEvent → Dispatcher × Option RuntimeErrorKind
hand sink d e = (
  record d { handed = d.handed ++ e ∷ [] },
  if sink e then none else some RuntimeErrorKind.execution_failed,
)

-- An error leaves the flag as the code had set it.
unfoldable pub emit :
    (RuntimeEvent → Bool) → Dispatcher → RuntimeEvent → Dispatcher × Option RuntimeErrorKind
unfolding hand
emit sink d e =
    if not (is_bound d e)
    then (d, some RuntimeErrorKind.invalid_result)
    else if is_start e
    then (if d.is_started
        then (d, some RuntimeErrorKind.invalid_result)
        else hand sink (record d { is_started = true }) e)
    else if not d.is_started
    then (d, some RuntimeErrorKind.invalid_result)
    else hand sink d e

-- A runtime's events, whatever errors it is answered.
unfoldable pub emit_all : (RuntimeEvent → Bool) → Dispatcher → List RuntimeEvent → Dispatcher
unfolding emit
emit_all sink d [] = d
emit_all sink d (e ∷ events) = emit_all sink (emit sink d e).0 events

abbrev pub dispatcher_of : String → RuntimeRole → Dispatcher
dispatcher_of request_id role = record {
  request_id = request_id;
  role = role;
  is_started = false;
  handed = [];
}
