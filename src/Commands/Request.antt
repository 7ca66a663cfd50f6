-- ===== src/Commands/Request.antt =====
-- A request for a command on an objective, and the checks that controller_api/objective_commands.py
-- makes of its texts. A dictionary has each key once.
use Prim.Native.Char.{Char, code}
use hermes_ops.Commands.Store.{ControllerError}
use hermes_ops.Orchestrator.Tables.{Timestamp}
use hermes_ops.Prelude.{
  string_column, ℕ, suc, String, Bool, true, false, ◌&&◌, ◌||◌, Option, none, some, List, [], ◌∷◌,
  leb, nat_beq, if◌then◌else◌, ◌==◌, mem,
}
use hermes_ops.Prelude.Json.{Json, Items, Fields}
use hermes_ops.Prelude.Result.{Result, ok, err}

-- Python's library at the places where the code calls it: hashes, `str.strip` and `str.lower`.
pub record Host : Type 0 where
  -- `_session_fingerprint`, and `_key_hash` and `_request_hash` of a session's token
  pub session_fingerprint : String → String
  pub key_hash : String → String → String
  pub request_hash : String → String → String → Fields → String
  pub strip : String → String
  pub lower : String → String

pub record Request : Type 0 where
  pub session_token : String
  pub idempotency_key : String
  pub route : String
  pub objective_id : String
  pub command : String
  pub body : Fields

-- What one call draws from outside: the clock, a fresh identifier and the meta data.
pub record Draw : Type 0 where
  pub now : Timestamp
  pub operation_id : String
  pub meta : Json

pub data Command : Type 0 where
  pause resume cancel : Command

-- `{"pause", "resume", "cancel"}`
unfoldable pub read_command : String → Option Command
read_command s =
    if s == "pause"
    then some pause
    else if s == "resume"
    then some resume
    else if s == "cancel"
    then some cancel
    else none

-- `len(s)` in code points
unfoldable pub text_length : String → ℕ
text_length String.[] = 0
text_length (String.◌∷◌ c s) = suc (text_length s)

unfoldable pub all_chars : (Char → Bool) → String → Bool
all_chars p String.[] = true
all_chars p (String.◌∷◌ c s) = p c && all_chars p s

abbrev pub is_between : ℕ → ℕ → ℕ → Bool
is_between low high n = leb low n && leb n high

-- `[A-Za-z0-9._~:-]`
abbrev pub is_key_char : Char → Bool
is_key_char c =
    let n = code c in
    is_between 48 58 n
    || is_between 65 90 n
    || is_between 97 122 n
    || nat_beq n 45
    || nat_beq n 46
    || nat_beq n 95
    || nat_beq n 126

-- `[a-f0-9]`
abbrev pub is_hex_char : Char → Bool
is_hex_char c = let n = code c in is_between 48 57 n || is_between 97 102 n

unfoldable pub validate_idempotency_key : String → Bool
unfolding text_length all_chars
validate_idempotency_key key = is_between 8 200 (text_length key) && all_chars is_key_char key

-- What follows a prefix, if the text has it.
unfoldable pub after_prefix : String → String → Option String
after_prefix String.[] s = some s
after_prefix (String.◌∷◌ c p) String.[] = none
after_prefix (String.◌∷◌ c p) (String.◌∷◌ d s) =
    let rest = after_prefix p s in if nat_beq (code c) (code d) then rest else none

-- `OBJECTIVE_ID_PATTERN`
unfoldable pub is_objective_id : String → Bool
unfolding after_prefix text_length all_chars
is_objective_id s = elim (after_prefix "objective-" s) [
  | none ↦ false
  | some rest ↦ nat_beq (text_length rest) 32 && all_chars is_hex_char rest
]

-- No key of the body but one.
unfoldable pub has_only : String → Fields → Bool
has_only name Fields.end = true
has_only name (Fields.field key value rest) = key == name && has_only name rest

-- `body.get(name)`
unfoldable pub get_field : String → Fields → Json
get_field name Fields.end = Json.null
get_field name (Fields.field key value rest) =
    let later = get_field name rest in if key == name then value else later

abbrev pub invalid_reason : ControllerError
invalid_reason = record { status = 400; code = "invalid_reason" }

unfoldable pub check_reason : (String → String) → Json → Result ControllerError (Option String)
unfolding text_length
check_reason strip Json.null = ok none
check_reason strip (Json.text reason) =
    if is_between 1 1000 (text_length (strip reason))
    then ok (some (strip reason))
    else err invalid_reason
check_reason strip _ = err invalid_reason

unfoldable pub validate_command_body :
    (String → String) → Fields → Result ControllerError (Option String)
unfolding has_only get_field check_reason
validate_command_body strip body =
    if has_only "reason" body
    then check_reason strip (get_field "reason" body)
    else err (record { status = 400; code = "unknown_request_field" })

abbrev pub invalid_projection : ControllerError
invalid_projection = record { status = 503; code = "objective_projection_invalid" }

-- The texts of a list, if it holds nothing else.
unfoldable pub texts : Items → Option (List String)
texts Items.nil = some []
texts (Items.cons (Json.text s) items) = elim (texts items) [
  | none ↦ none
  | some rest ↦ some (s ∷ rest)
]
texts (Items.cons _ items) = none

-- `len(set(project_ids)) != len(project_ids)`
unfoldable pub has_duplicates : List String → Bool
has_duplicates [] = false
has_duplicates (s ∷ rest) = mem s rest || has_duplicates rest

unfoldable pub sole_project : List String → Result ControllerError (Option String)
unfolding has_duplicates
sole_project [] = err invalid_projection
sole_project (s ∷ []) = ok (some s)
sole_project (s ∷ rest) = if has_duplicates (s ∷ rest) then err invalid_projection else ok none

unfoldable pub single_project_id : Option Json → Result ControllerError (Option String)
unfolding texts sole_project
single_project_id (some (Json.arr items)) = elim (texts items) [
  | none ↦ err invalid_projection
  | some project_ids ↦ sole_project project_ids
]
single_project_id _ = err invalid_projection

-- `reason is not None`
abbrev pub is_given : Option String → Bool
is_given none = false
is_given (some s) = true
