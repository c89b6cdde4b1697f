-- ===== src/Database/Lifecycle.antt =====
-- packages/database/src/radar_database/lifecycle.py: the incident statuses and the legal edges.
-- A status is a text, since the column is one: an unknown status is a value like any other.
use radar_system.Prelude.{
  String, Bool, Option, none, some, List, [], ◌∷◌, if◌then◌else◌, str_eq, any,
}

abbrev pub status_open : String
status_open = "open"

abbrev pub status_investigating : String
status_investigating = "investigating"

abbrev pub status_resolved : String
status_resolved = "resolved"

abbrev pub status_closed : String
status_closed = "closed"

abbrev pub states : List String
states = status_open ∷ status_investigating ∷ status_resolved ∷ status_closed ∷ []

-- `VALID_TRANSITIONS.get(current, frozenset())`
unfoldable pub valid_transitions : String → List String
valid_transitions current =
    if str_eq current status_open
    then status_investigating ∷ status_resolved ∷ []
    else if str_eq current status_investigating
    then status_resolved ∷ []
    else if str_eq current status_resolved
    then status_closed ∷ []
    else []

unfoldable pub is_valid_transition : String → String → Bool
unfolding valid_transitions
is_valid_transition current new = any (λ s. str_eq new s) (valid_transitions current)

-- `_TRANSITION_AUDIT_EVENT[new_status]`; `none` is its KeyError
unfoldable pub transition_audit_event_type : String → Option String
transition_audit_event_type new_status =
    if str_eq new_status status_investigating
    then some "incident.investigating"
    else if str_eq new_status status_resolved
    then some "incident.resolved"
    else if str_eq new_status status_closed
    then some "incident.closed"
    else none
