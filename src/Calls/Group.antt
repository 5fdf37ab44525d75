-- ===== src/Calls/Group.antt =====
-- The outcome of a group call, for every sequence of its events.
use presage.Prelude.{
  ◌||◌, Option, none, some, List, [], ◌∷◌, if◌then◌else◌, any, ◌≡◌, refl, sym, ap, ◌∙◌, arith,
}
use Prim.Native.String.{String}
use presage.Calls.{
  CallMode, CallDirection, CallEventKind, CallEventInfo, CallHistoryEntry, CallStatus,
  GroupCallStatus, is_delete, is_accepted, group_status, group_is_deleted, group_is_joined,
  group_match, entry_of, transition_mode, transition_group, transition_call_history,
}
use presage.Calls.Merge.{merge_all, kept, signals_of, AllMode, Shows}

abbrev pub group_signal : GroupCallStatus → CallEventKind → CallDirection → GroupCallStatus
group_signal s CallEventKind.observed _ = GroupCallStatus.generic
group_signal s CallEventKind.not_accepted CallDirection.incoming = GroupCallStatus.missed
group_signal s CallEventKind.not_accepted _ = GroupCallStatus.generic
group_signal s _ _ = s

abbrev pub last_group_signal :
    GroupCallStatus → List (CallEventKind × CallDirection) → GroupCallStatus
last_group_signal s [] = s
last_group_signal s ((kind, direction) ∷ signals) =
    last_group_signal (group_signal s kind direction) signals

abbrev pub group_from : GroupCallStatus → List (CallEventKind × CallDirection) → GroupCallStatus
group_from s signals =
    if any (λ p. is_delete p.0) signals
    then GroupCallStatus.deleted
    else if any (λ p. is_accepted p.0) signals
    then GroupCallStatus.joined
    else last_group_signal s signals

-- The outcome of a group call, likewise; an unanswered ring is missed only if it came in.
abbrev pub group_outcome : List (CallEventKind × CallDirection) → GroupCallStatus
group_outcome = group_from GroupCallStatus.generic

-- The status that one more event makes of a status, and what further events make of it.
group_step : GroupCallStatus → CallEventKind → CallDirection → GroupCallStatus
group_step s CallEventKind.delete direction = GroupCallStatus.deleted
group_step GroupCallStatus.deleted kind direction = GroupCallStatus.deleted
group_step GroupCallStatus.joined kind direction = GroupCallStatus.joined
group_step s CallEventKind.accepted direction = GroupCallStatus.joined
group_step s kind direction = group_signal s kind direction

group_after : GroupCallStatus → List (CallEventKind × CallDirection) → GroupCallStatus
group_after GroupCallStatus.deleted kinds = GroupCallStatus.deleted
group_after GroupCallStatus.joined kinds =
    if any (λ p. is_delete p.0) kinds then GroupCallStatus.deleted else GroupCallStatus.joined
group_after s kinds = group_from s kinds

group_after-nil : (s : GroupCallStatus) → group_after s [] ≡ s
unfolding group_after
group_after-nil GroupCallStatus.deleted = refl
group_after-nil _ = refl

group_after-step :
    (s : GroupCallStatus) (kind : CallEventKind) (direction : CallDirection)
    (kinds : List (CallEventKind × CallDirection))
    → group_after (group_step s kind direction) kinds ≡ group_after s ((kind, direction) ∷ kinds)
unfolding group_after group_step
group_after-step GroupCallStatus.deleted CallEventKind.delete CallDirection.incoming kinds = refl
group_after-step GroupCallStatus.generic CallEventKind.not_accepted CallDirection.incoming kinds =
    refl
group_after-step _ _ _ kinds = ground arith

group_ladder :
    (s : GroupCallStatus) (kind : CallEventKind) (direction : CallDirection)
    (entry : GroupCallStatus → Option CallHistoryEntry)
    → (if is_delete kind || group_is_deleted (some s)
        then entry GroupCallStatus.deleted
        else if group_is_joined (some s) || is_accepted kind
        then entry GroupCallStatus.joined
        else entry (group_match kind direction (some s)))
      ≡ entry (group_step s kind direction)
unfolding group_step
group_ladder GroupCallStatus.deleted CallEventKind.delete CallDirection.incoming entry = refl
group_ladder GroupCallStatus.generic CallEventKind.not_accepted CallDirection.incoming entry = refl
group_ladder _ _ _ entry = ground arith

transition-group_step :
    (e : CallHistoryEntry) (info : CallEventInfo) (peer_id : String) (s : GroupCallStatus)
    → info.mode ≡ CallMode.group
    → e.status ≡ CallStatus.group s
    → Shows
        (transition_call_history (some e) info peer_id)
        (CallStatus.group (group_step s info.event info.direction))
        e.timestamp_ms
unfolding transition_call_history transition_group
transition-group_step e info peer_id s mode status = (
  entry_of (some e) info peer_id (CallStatus.group (group_step s info.event info.direction)),
  ap (λ m. transition_mode m (some e) info peer_id) mode
      ∙ ap (λ st. ladder (group_status st)) status
      ∙ group_ladder s info.event info.direction entry,
  refl,
  refl,
)
  where
    entry : GroupCallStatus → Option CallHistoryEntry
    entry st = some (entry_of (some e) info peer_id (CallStatus.group st))

    ladder : Option GroupCallStatus → Option CallHistoryEntry
    ladder prev =
        if is_delete info.event || group_is_deleted prev
        then entry GroupCallStatus.deleted
        else if group_is_joined prev || is_accepted info.event
        then entry GroupCallStatus.joined
        else entry (group_match info.event info.direction prev)

group_first :
    (kind : CallEventKind) (direction : CallDirection)
    (entry : GroupCallStatus → Option CallHistoryEntry)
    → (if is_delete kind || group_is_deleted none
        then entry GroupCallStatus.deleted
        else if group_is_joined none || is_accepted kind
        then entry GroupCallStatus.joined
        else entry (group_match kind direction none))
      ≡ entry (group_step GroupCallStatus.generic kind direction)
unfolding group_step
group_first CallEventKind.not_accepted CallDirection.incoming entry = refl
group_first _ _ entry = refl

-- The first event finds no entry, which is as good as one that is generic.
transition-group_first :
    (info : CallEventInfo) (peer_id : String)
    → info.mode ≡ CallMode.group
    → Shows
        (transition_call_history none info peer_id)
        (CallStatus.group (group_step GroupCallStatus.generic info.event info.direction))
        info.timestamp_ms
unfolding transition_call_history transition_group
transition-group_first info peer_id mode = (
  entry_of none info peer_id
      (CallStatus.group (group_step GroupCallStatus.generic info.event info.direction)),
  ap (λ m. transition_mode m none info peer_id) mode
      ∙ group_first info.event info.direction
          (λ st. some (entry_of none info peer_id (CallStatus.group st))),
  refl,
  refl,
)

merge_all-group_after :
    (e : CallHistoryEntry) (infos : List CallEventInfo) (peer_id : String) (s : GroupCallStatus)
    → AllMode CallMode.group infos
    → e.status ≡ CallStatus.group s
    → Shows
        (merge_all (some e) infos peer_id)
        (CallStatus.group (group_after s (signals_of infos)))
        e.timestamp_ms
unfolding merge_all
merge_all-group_after e [] peer_id s modes status =
    (e, refl, status ∙ ap CallStatus.group (sym (group_after-nil s)), refl)
merge_all-group_after e (info ∷ infos) peer_id s modes status =
    let (e', step, status', ts) = transition-group_step e info peer_id s modes.0 status in
    let (out, run, final, anchored) =
      merge_all-group_after e' infos peer_id (group_step s info.event info.direction) modes.1
        status' in
    (
      out,
      ap (λ o. merge_all (kept o (some e)) infos peer_id) step ∙ run,
      final ∙ ap CallStatus.group (group_after-step s info.event info.direction (signals_of infos)),
      anchored ∙ ts,
    )

-- Merging any nonempty sequence of events of mode group, with no entry before, leaves an entry: its status
-- is deleted if some event deletes, else joined if some event accepts, else what the last event that decides
-- says, and its time is that of the first event.
pub merge_all-group :
    (info : CallEventInfo) (infos : List CallEventInfo) (peer_id : String)
    → AllMode CallMode.group (info ∷ infos)
    → Shows
        (merge_all none (info ∷ infos) peer_id)
        (CallStatus.group (group_outcome (signals_of (info ∷ infos))))
        info.timestamp_ms
unfolding merge_all group_after
merge_all-group info infos peer_id modes =
    let (e, step, status, ts) = transition-group_first info peer_id modes.0 in
    let (out, run, final, anchored) =
      merge_all-group_after e infos peer_id
        (group_step GroupCallStatus.generic info.event info.direction) modes.1 status in
    (
      out,
      ap (λ o. merge_all (kept o none) infos peer_id) step ∙ run,
      final
          ∙ ap CallStatus.group (
              group_after-step GroupCallStatus.generic info.event info.direction
                (signals_of infos)),
      anchored ∙ ts,
    )
