-- ===== src/Calls/Text.antt =====
-- presage/src/model/calls.rs: the strings under which modes, types, directions and statuses are
-- stored, and their parsers.
use Prim.Native.String.{String}
use text.Mathlib.Text.{◌==◌}
use presage.Prelude.{◌≡◌, refl, if◌then◌else◌}
use presage.Calls.{CallMode, CallType, CallDirection, DirectCallStatus, GroupCallStatus, CallStatus}

pub mode_as_str : CallMode → String
mode_as_str CallMode.direct = "Direct"
mode_as_str CallMode.group = "Group"
mode_as_str CallMode.adhoc = "Adhoc"
mode_as_str CallMode.unknown = "Unknown"

pub mode_parse : String → CallMode
mode_parse s =
    if s == "Direct"
    then CallMode.direct
    else if s == "Group"
    then CallMode.group
    else if s == "Adhoc"
    then CallMode.adhoc
    else CallMode.unknown

pub type_as_str : CallType → String
type_as_str CallType.audio = "Audio"
type_as_str CallType.video = "Video"
type_as_str CallType.group = "Group"
type_as_str CallType.adhoc = "Adhoc"
type_as_str CallType.unknown = "Unknown"

pub type_parse : String → CallType
type_parse s =
    if s == "Audio"
    then CallType.audio
    else if s == "Video"
    then CallType.video
    else if s == "Group"
    then CallType.group
    else if s == "Adhoc"
    then CallType.adhoc
    else CallType.unknown

pub direction_as_str : CallDirection → String
direction_as_str CallDirection.incoming = "Incoming"
direction_as_str CallDirection.outgoing = "Outgoing"
direction_as_str CallDirection.unknown = "Unknown"

pub direction_parse : String → CallDirection
direction_parse s =
    if s == "Incoming"
    then CallDirection.incoming
    else if s == "Outgoing"
    then CallDirection.outgoing
    else CallDirection.unknown

pub direct_as_str : DirectCallStatus → String
direct_as_str DirectCallStatus.pending = "Pending"
direct_as_str DirectCallStatus.accepted = "Accepted"
direct_as_str DirectCallStatus.missed = "Missed"
direct_as_str DirectCallStatus.declined = "Declined"
direct_as_str DirectCallStatus.deleted = "Deleted"
direct_as_str DirectCallStatus.unknown = "Unknown"

pub direct_parse : String → DirectCallStatus
direct_parse s =
    if s == "Pending"
    then DirectCallStatus.pending
    else if s == "Accepted"
    then DirectCallStatus.accepted
    else if s == "Missed"
    then DirectCallStatus.missed
    else if s == "Declined"
    then DirectCallStatus.declined
    else if s == "Deleted"
    then DirectCallStatus.deleted
    else DirectCallStatus.unknown

pub group_as_str : GroupCallStatus → String
group_as_str GroupCallStatus.generic = "GenericGroupCall"
group_as_str GroupCallStatus.outgoing_ring = "OutgoingRing"
group_as_str GroupCallStatus.ringing = "Ringing"
group_as_str GroupCallStatus.joined = "Joined"
group_as_str GroupCallStatus.accepted = "Accepted"
group_as_str GroupCallStatus.missed = "Missed"
group_as_str GroupCallStatus.declined = "Declined"
group_as_str GroupCallStatus.deleted = "Deleted"
group_as_str GroupCallStatus.unknown = "Unknown"

pub group_parse : String → GroupCallStatus
group_parse s =
    if s == "GenericGroupCall"
    then GroupCallStatus.generic
    else if s == "OutgoingRing"
    then GroupCallStatus.outgoing_ring
    else if s == "Ringing"
    then GroupCallStatus.ringing
    else if s == "Joined"
    then GroupCallStatus.joined
    else if s == "Accepted"
    then GroupCallStatus.accepted
    else if s == "Missed"
    then GroupCallStatus.missed
    else if s == "Declined"
    then GroupCallStatus.declined
    else if s == "Deleted"
    then GroupCallStatus.deleted
    else GroupCallStatus.unknown

pub status_as_str : CallStatus → String
status_as_str (CallStatus.direct s) = direct_as_str s
status_as_str (CallStatus.group s) = group_as_str s

pub status_parse : CallMode → String → CallStatus
status_parse CallMode.direct s = CallStatus.direct (direct_parse s)
status_parse CallMode.group s = CallStatus.group (group_parse s)
status_parse _ s = CallStatus.direct DirectCallStatus.unknown

-- The mode that a status belongs to.
abbrev pub mode_of : CallStatus → CallMode
mode_of (CallStatus.direct s) = CallMode.direct
mode_of (CallStatus.group s) = CallMode.group

direct_parse-as_str : (s : DirectCallStatus) → direct_parse (direct_as_str s) ≡ s
unfolding direct_parse direct_as_str
direct_parse-as_str DirectCallStatus.pending = refl
direct_parse-as_str _ = refl

group_parse-as_str : (s : GroupCallStatus) → group_parse (group_as_str s) ≡ s
unfolding group_parse group_as_str
group_parse-as_str GroupCallStatus.generic = refl
group_parse-as_str _ = refl

status_parse-as_str : (s : CallStatus) → status_parse (mode_of s) (status_as_str s) ≡ s
unfolding status_parse status_as_str
status_parse-as_str (CallStatus.direct s) = rw (direct_parse-as_str s)
status_parse-as_str (CallStatus.group s) = rw (group_parse-as_str s)

mode_parse-as_str : (m : CallMode) → mode_parse (mode_as_str m) ≡ m
unfolding mode_parse mode_as_str
mode_parse-as_str CallMode.direct = refl
mode_parse-as_str _ = refl

type_parse-as_str : (t : CallType) → type_parse (type_as_str t) ≡ t
unfolding type_parse type_as_str
type_parse-as_str CallType.audio = refl
type_parse-as_str _ = refl

direction_parse-as_str : (d : CallDirection) → direction_parse (direction_as_str d) ≡ d
unfolding direction_parse direction_as_str
direction_parse-as_str CallDirection.incoming = refl
direction_parse-as_str _ = refl

-- Every mode, type and direction of a call is parsed back from the string it is stored as, and every
-- status too, when it is parsed in the mode that it belongs to.
pub columns_round_trip :
    (m : CallMode) (t : CallType) (d : CallDirection) (s : CallStatus)
    → (mode_parse (mode_as_str m) ≡ m)
      × (type_parse (type_as_str t) ≡ t)
      × (direction_parse (direction_as_str d) ≡ d)
      × (status_parse (mode_of s) (status_as_str s) ≡ s)
columns_round_trip m t d s =
    (mode_parse-as_str m, type_parse-as_str t, direction_parse-as_str d, status_parse-as_str s)
