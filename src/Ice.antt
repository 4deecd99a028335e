-- ===== src/Ice.antt =====
-- pkg/ice/agent.go: the wrapper around pion's ICE agent. What pion answers is an argument.
use Prim.Native.String
use Prim.Native.String.{String}
use text.Mathlib.Text.{starts_with}
use cloudbridge_client.Prelude.{
  Bool, true, false, ◌||◌, Option, none, some, List, [], ◌∷◌, Result, ok, err, if◌then◌else◌,
}
use cloudbridge_client.Prelude.Int.{ℤ}
pub mod States

-- A candidate, by what the client reads of it.
pub record Candidate : Type 0 where
  pub foundation : String
  pub component : ℤ
  pub network : String
  pub priority : ℤ
  pub address : String
  pub port : ℤ
  pub kind : String

pub data Error : Type 0 where
  not_started bad_uri not_created not_stopped no_handler not_gathered gather_timeout no_candidates
        bad_candidate not_added no_credentials not_set no_pair :
      Error

-- The connection states that the client names.
pub data ConnectionState : Type 0 where
  fresh connected closed : ConnectionState

-- `ICEAgent`; `running` tells whether pion's agent is there.
pub record Agent : Type 0 where
  pub stun_servers : List String
  pub turn_servers : List String
  pub running : Bool

-- `NewICEAgent`.
unfoldable pub new_ice_agent : List String → List String → Agent
new_ice_agent stun turn = record { stun_servers = stun; turn_servers = turn; running = false }

-- A call that may panic.
pub data Call (A : Type 0) : Type 0 where
  panicked : Call A
  returned : A → Call A

-- The prefix that a server without one gets.
unfoldable pub with_scheme : String → String
with_scheme s = if starts_with s "stun:" || starts_with s "stuns:" then s else String.◌++◌ "stun:" s

-- The loop of `Start`: whether every URI parses.
unfoldable pub parse_uris : (String → Bool) → List String → Bool
parse_uris parses [] = true
parse_uris parses (s ∷ servers) =
    let rest = parse_uris parses servers in if parses (with_scheme s) then rest else false

-- `Start`, with what `stun.ParseURI` and `ice.NewAgent` answer; the handlers only log.
unfoldable pub start : (String → Bool) → Bool → Agent → Option Error × Agent
start parses created a =
    if parse_uris parses a.stun_servers
    then if created then (none, record a { running = true }) else (some not_created, a)
    else (some bad_uri, a)

-- `Stop`, with pion's answer to `Close`.
unfoldable pub stop : Bool → Agent → Option Error × Agent
stop closes a =
    if a.running
    then if closes then (none, record a { running = false }) else (some not_stopped, a)
    else (none, a)

-- What pion answers while candidates are gathered, and what there is in the end.
pub record Gathering : Type 0 where
  pub handler : Bool
  pub begun : Bool
  pub in_time : Bool
  pub found : Option (List Candidate)

-- `GatherCandidates`.
unfoldable pub gather_candidates : Gathering → Agent → Result Error (List Candidate)
gather_candidates g a =
    if a.running
    then if g.handler
      then if g.begun
        then if g.in_time
          then elim g.found [ none ↦ err no_candidates | some cs ↦ ok cs ]
          else err gather_timeout
        else err not_gathered
      else err no_handler
    else err not_started

-- `AddRemoteCandidate`; none stands for nil, whose `String` panics in the log line.
unfoldable pub add_remote_candidate : Bool → Option Candidate → Agent → Call (Option Error)
add_remote_candidate added c a =
    if a.running
    then elim c [
      | none ↦ panicked
      | some x ↦ if added then returned none else returned (some not_added)
    ]
    else returned (some not_started)

-- `AddRemoteCandidateFromSDP`, with what `ice.UnmarshalCandidate` makes of the text.
unfoldable pub add_remote_candidate_from_sdp :
    (String → Option Candidate) → Bool → String → Agent → Option Error
add_remote_candidate_from_sdp unmarshal added sdp a =
    if a.running
    then elim (unmarshal sdp) [
      | none ↦ some bad_candidate
      | some c ↦ if added then none else some not_added
    ]
    else some not_started

-- `StartConnectivityChecks`, with pion's answers about the local and the remote credentials.
unfoldable pub start_connectivity_checks : Bool → Bool → Agent → Option Error
start_connectivity_checks has_local sets a =
    if a.running
    then if has_local then if sets then none else some not_set else some no_credentials
    else some not_started

-- `GetSelectedCandidatePair`: the remote candidate of pion's answer, none for a nil pair.
unfoldable pub get_selected_candidate_pair :
    Option (Option Candidate) → Agent → Result Error (Option Candidate)
get_selected_candidate_pair answer a =
    if a.running then elim answer [ none ↦ err no_pair | some pair ↦ ok pair ] else err not_started

-- `GetConnectionState`.
unfoldable pub get_connection_state : Agent → ConnectionState
get_connection_state a = if a.running then fresh else closed
