-- ===== src/Server/Records.antt =====
-- quail/remote/records.py: the states of a record, its snapshot, and the ids that a client may
-- choose. Times are counts of a clock's ticks, and an id is the list of its code points.
use quail.Prelude.{
  ℕ, Bool, true, false, ◌&&◌, ◌||◌, Option, List, [], ◌∷◌, leb, ◌==◌, length, if◌then◌else◌,
}
use quail.Result.{Result, ok, err, invalid_request_error}
use quail.Server.Json.{Json, number}

pub data State : Type 0 where
  queued planning running succeeded failed interrupted cancelled : State

-- `state in ACTIVE_STATES`
abbrev pub is_active : State → Bool
is_active planning = true
is_active running = true
is_active s = false

-- `state in TERMINAL_STATES`
abbrev pub is_terminal : State → Bool
is_terminal succeeded = true
is_terminal failed = true
is_terminal interrupted = true
is_terminal cancelled = true
is_terminal s = false

abbrev pub is_queued : State → Bool
is_queued queued = true
is_queued s = false

abbrev pub QueryId : Type 0
QueryId = List ℕ

-- `[A-Za-z0-9]`
abbrev pub is_alphanumeric : ℕ → Bool
is_alphanumeric c = (leb 65 c && leb c 90) || ((leb 97 c && leb c 122) || (leb 48 c && leb c 57))

-- `[A-Za-z0-9._:-]`
abbrev pub is_id_char : ℕ → Bool
is_id_char c = is_alphanumeric c || ((c == 46) || ((c == 95) || ((c == 58) || (c == 45))))

unfoldable pub are_id_chars : List ℕ → Bool
are_id_chars [] = true
are_id_chars (c ∷ cs) = is_id_char c && are_id_chars cs

unfoldable pub matches_pattern : QueryId → Bool
matches_pattern [] = false
matches_pattern (c ∷ cs) = is_alphanumeric c && (are_id_chars cs && leb (length cs) 127)

unfoldable pub check_query_id : QueryId → Result QueryId
check_query_id query_id =
    if matches_pattern query_id then ok query_id else err invalid_request_error

-- The hash of the canonical JSON text of a list is the argument `sha256`.
abbrev pub spec_hash : (List Json → ℕ) → Json → Json → Json → ℕ → ℕ
spec_hash sha256 spec config inputs timeout_s =
    sha256 (spec ∷ config ∷ inputs ∷ number timeout_s ∷ [])

pub record QueryStatus : Type 0 where
  pub id : QueryId
  pub state : State
  pub revision : ℕ
  pub created_at : ℕ
  pub updated_at : ℕ
  pub timeout_s : ℕ
  pub spec : Json
  pub config : Json
  pub inputs : Json
  pub session_id : Option QueryId
  pub started_at : Option ℕ
  pub cancel_requested : Bool
  pub phase : Option Json
  pub progress : Option Json
  pub plan : Option Json
  pub error : Option Json
  pub result : Option Json

-- `QueryStatus.done`
abbrev pub done : QueryStatus → Bool
done status = is_terminal status.state
