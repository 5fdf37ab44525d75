-- ===== src/Calls.antt =====
-- presage/src/model/calls.rs: decoded call events, and the state machine that merges them into one
-- history entry per call.
pub mod Text
pub mod Merge
pub mod Direct
pub mod Group
pub mod Ingest
use presage.Prelude.{
  ℕ, Bool, true, false, ◌&&◌, ◌||◌, Option, none, some, if◌then◌else◌, unwrap_or, and_then, List,
}
use Prim.Native.String.{String}
use mathlib.Core.Option

pub data CallMode : Type 0 where
  direct group adhoc unknown : CallMode

pub data CallType : Type 0 where
  audio video group adhoc unknown : CallType

pub data CallDirection : Type 0 where
  incoming outgoing unknown : CallDirection

pub data CallEventKind : Type 0 where
  accepted not_accepted delete observed unknown : CallEventKind

pub data DirectCallStatus : Type 0 where
  pending accepted missed declined deleted unknown : DirectCallStatus

pub data GroupCallStatus : Type 0 where
  generic outgoing_ring ringing joined accepted missed declined deleted unknown : GroupCallStatus

pub data CallStatus : Type 0 where
  direct : DirectCallStatus → CallStatus
  group : GroupCallStatus → CallStatus

pub record CallEventInfo : Type 0 where
  pub call_id : ℕ
  pub conversation_id : List ℕ
  pub timestamp_ms : ℕ
  pub mode : CallMode
  pub call_type : CallType
  pub direction : CallDirection
  pub event : CallEventKind

pub record CallHistoryEntry : Type 0 where
  pub call_id : ℕ
  pub peer_id : String
  pub mode : CallMode
  pub call_type : CallType
  pub direction : CallDirection
  pub status : CallStatus
  pub timestamp_ms : ℕ

-- The derived `==` of the enums, at the constructors that the code compares with.
abbrev pub is_delete : CallEventKind → Bool
is_delete CallEventKind.delete = true
is_delete _ = false

abbrev pub is_accepted : CallEventKind → Bool
is_accepted CallEventKind.accepted = true
is_accepted _ = false

abbrev direct_is_deleted : Option DirectCallStatus → Bool
direct_is_deleted (some DirectCallStatus.deleted) = true
direct_is_deleted _ = false

abbrev direct_is_accepted : Option DirectCallStatus → Bool
direct_is_accepted (some DirectCallStatus.accepted) = true
direct_is_accepted _ = false

abbrev group_is_deleted : Option GroupCallStatus → Bool
group_is_deleted (some GroupCallStatus.deleted) = true
group_is_deleted _ = false

abbrev group_is_joined : Option GroupCallStatus → Bool
group_is_joined (some GroupCallStatus.joined) = true
group_is_joined _ = false

abbrev pub direct_status : CallStatus → Option DirectCallStatus
direct_status (CallStatus.direct s) = some s
direct_status _ = none

abbrev pub group_status : CallStatus → Option GroupCallStatus
group_status (CallStatus.group s) = some s
group_status _ = none

-- The closure `entry`, with the status already wrapped.
abbrev entry_of : Option CallHistoryEntry → CallEventInfo → String → CallStatus → CallHistoryEntry
entry_of prev info peer_id status = record {
  call_id = info.call_id;
  peer_id = peer_id;
  mode = info.mode;
  call_type = info.call_type;
  direction = info.direction;
  status = status;
  timestamp_ms = unwrap_or (Option.map (λ p. p.timestamp_ms) prev) info.timestamp_ms;
}

-- `match (info.event, info.direction)`
abbrev direct_match : CallEventKind → CallDirection → Option DirectCallStatus → DirectCallStatus
direct_match CallEventKind.not_accepted _ prev = DirectCallStatus.missed
direct_match CallEventKind.observed _ prev = DirectCallStatus.pending
direct_match _ _ prev = unwrap_or prev DirectCallStatus.pending

unfoldable pub transition_direct :
    Option CallHistoryEntry → CallEventInfo → String → Option CallHistoryEntry
transition_direct prev info peer_id =
    let prev_direct = and_then prev (λ p. direct_status p.status) in
    let entry = λ (s : DirectCallStatus). entry_of prev info peer_id (CallStatus.direct s) in
    if is_delete info.event || direct_is_deleted prev_direct
    then some (entry DirectCallStatus.deleted)
    else if direct_is_accepted prev_direct || is_accepted info.event
    then some (entry DirectCallStatus.accepted)
    else some (entry (direct_match info.event info.direction prev_direct))

abbrev group_match : CallEventKind → CallDirection → Option GroupCallStatus → GroupCallStatus
group_match CallEventKind.observed _ prev = GroupCallStatus.generic
group_match CallEventKind.not_accepted CallDirection.incoming prev = GroupCallStatus.missed
group_match CallEventKind.not_accepted _ prev = GroupCallStatus.generic
group_match _ _ prev = unwrap_or prev GroupCallStatus.generic

unfoldable pub transition_group :
    Option CallHistoryEntry → CallEventInfo → String → Option CallHistoryEntry
transition_group prev info peer_id =
    let prev_group = and_then prev (λ p. group_status p.status) in
    let entry = λ (s : GroupCallStatus). entry_of prev info peer_id (CallStatus.group s) in
    if is_delete info.event || group_is_deleted prev_group
    then some (entry GroupCallStatus.deleted)
    else if group_is_joined prev_group || is_accepted info.event
    then some (entry GroupCallStatus.joined)
    else some (entry (group_match info.event info.direction prev_group))

abbrev transition_mode :
    CallMode → Option CallHistoryEntry → CallEventInfo → String → Option CallHistoryEntry
transition_mode CallMode.direct prev info peer_id = transition_direct prev info peer_id
transition_mode CallMode.group prev info peer_id = transition_group prev info peer_id
transition_mode _ prev info peer_id = none

unfoldable pub transition_call_history :
    Option CallHistoryEntry → CallEventInfo → String → Option CallHistoryEntry
transition_call_history prev info peer_id = transition_mode info.mode prev info peer_id
