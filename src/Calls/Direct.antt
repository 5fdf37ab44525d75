-- ===== src/Calls/Direct.antt =====
-- The outcome of a direct call, for every sequence of its events.
use presage.Prelude.{
  ◌||◌, Option, none, some, List, [], ◌∷◌, if◌then◌else◌, any, ◌≡◌, refl, sym, ap, ◌∙◌, arith,
}
use Prim.Native.String.{String}
use presage.Calls.{
  CallMode, CallDirection, CallEventKind, CallEventInfo, CallHistoryEntry, CallStatus,
  DirectCallStatus, is_delete, is_accepted, direct_status, direct_is_deleted, direct_is_accepted,
  direct_match, entry_of, transition_mode, transition_direct, transition_call_history,
}
use presage.Calls.Merge.{merge_all, kept, kinds_of, AllMode, Shows}

-- What an event says of the outcome of a direct call, if anything.
abbrev pub direct_signal : DirectCallStatus → CallEventKind → DirectCallStatus
direct_signal s CallEventKind.not_accepted = DirectCallStatus.missed
direct_signal s CallEventKind.observed = DirectCallStatus.pending
direct_signal s _ = s

abbrev pub last_direct_signal : DirectCallStatus → List CallEventKind → DirectCallStatus
last_direct_signal s [] = s
last_direct_signal s (kind ∷ kinds) = last_direct_signal (direct_signal s kind) kinds

abbrev pub direct_from : DirectCallStatus → List CallEventKind → DirectCallStatus
direct_from s kinds =
    if any is_delete kinds
    then DirectCallStatus.deleted
    else if any is_accepted kinds
    then DirectCallStatus.accepted
    else last_direct_signal s kinds

-- The outcome of a direct call: deleted if ever deleted, else accepted if ever accepted, else what
-- the last event that says something says, and pending where none does.
abbrev pub direct_outcome : List CallEventKind → DirectCallStatus
direct_outcome = direct_from DirectCallStatus.pending

-- The status that one more event makes of a status, and what further events make of it.
direct_step : DirectCallStatus → CallEventKind → DirectCallStatus
direct_step s CallEventKind.delete = DirectCallStatus.deleted
direct_step DirectCallStatus.deleted kind = DirectCallStatus.deleted
direct_step DirectCallStatus.accepted kind = DirectCallStatus.accepted
direct_step s CallEventKind.accepted = DirectCallStatus.accepted
direct_step s kind = direct_signal s kind

direct_after : DirectCallStatus → List CallEventKind → DirectCallStatus
direct_after DirectCallStatus.deleted kinds = DirectCallStatus.deleted
direct_after DirectCallStatus.accepted kinds =
    if any is_delete kinds then DirectCallStatus.deleted else DirectCallStatus.accepted
direct_after s kinds = direct_from s kinds

direct_after-nil : (s : DirectCallStatus) → direct_after s [] ≡ s
unfolding direct_after
direct_after-nil DirectCallStatus.deleted = refl
direct_after-nil _ = refl

direct_after-step :
    (s : DirectCallStatus) (kind : CallEventKind) (kinds : List CallEventKind)
    → direct_after (direct_step s kind) kinds ≡ direct_after s (kind ∷ kinds)
unfolding direct_after direct_step
direct_after-step DirectCallStatus.deleted CallEventKind.delete kinds = refl
direct_after-step DirectCallStatus.pending CallEventKind.accepted kinds = refl
direct_after-step _ _ kinds = ground arith

direct_ladder :
    (s : DirectCallStatus) (kind : CallEventKind) (direction : CallDirection)
    (entry : DirectCallStatus → Option CallHistoryEntry)
    → (if is_delete kind || direct_is_deleted (some s)
        then entry DirectCallStatus.deleted
        else if direct_is_accepted (some s) || is_accepted kind
        then entry DirectCallStatus.accepted
        else entry (direct_match kind direction (some s)))
      ≡ entry (direct_step s kind)
unfolding direct_step
direct_ladder DirectCallStatus.deleted CallEventKind.delete direction entry = refl
direct_ladder DirectCallStatus.pending CallEventKind.accepted direction entry = refl
direct_ladder _ _ direction entry = ground arith

transition-direct_step :
    (e : CallHistoryEntry) (info : CallEventInfo) (peer_id : String) (s : DirectCallStatus)
    → info.mode ≡ CallMode.direct
    → e.status ≡ CallStatus.direct s
    → Shows
        (transition_call_history (some e) info peer_id)
        (CallStatus.direct (direct_step s info.event))
        e.timestamp_ms
unfolding transition_call_history transition_direct
transition-direct_step e info peer_id s mode status = (
  entry_of (some e) info peer_id (CallStatus.direct (direct_step s info.event)),
  ap (λ m. transition_mode m (some e) info peer_id) mode
      ∙ ap (λ st. ladder (direct_status st)) status
      ∙ direct_ladder s info.event info.direction entry,
  refl,
  refl,
)
  where
    entry : DirectCallStatus → Option CallHistoryEntry
    entry st = some (entry_of (some e) info peer_id (CallStatus.direct st))

    ladder : Option DirectCallStatus → Option CallHistoryEntry
    ladder prev =
        if is_delete info.event || direct_is_deleted prev
        then entry DirectCallStatus.deleted
        else if direct_is_accepted prev || is_accepted info.event
        then entry DirectCallStatus.accepted
        else entry (direct_match info.event info.direction prev)

direct_first :
    (kind : CallEventKind) (direction : CallDirection)
    (entry : DirectCallStatus → Option CallHistoryEntry)
    → (if is_delete kind || direct_is_deleted none
        then entry DirectCallStatus.deleted
        else if direct_is_accepted none || is_accepted kind
        then entry DirectCallStatus.accepted
        else entry (direct_match kind direction none))
      ≡ entry (direct_step DirectCallStatus.pending kind)
unfolding direct_step
direct_first CallEventKind.delete direction entry = refl
direct_first _ direction entry = refl

-- The first event finds no entry, which is as good as one that is pending.
transition-direct_first :
    (info : CallEventInfo) (peer_id : String)
    → info.mode ≡ CallMode.direct
    → Shows
        (transition_call_history none info peer_id)
        (CallStatus.direct (direct_step DirectCallStatus.pending info.event))
        info.timestamp_ms
unfolding transition_call_history transition_direct
transition-direct_first info peer_id mode = (
  entry_of none info peer_id (CallStatus.direct (direct_step DirectCallStatus.pending info.event)),
  ap (λ m. transition_mode m none info peer_id) mode
      ∙ direct_first info.event info.direction
          (λ st. some (entry_of none info peer_id (CallStatus.direct st))),
  refl,
  refl,
)

merge_all-direct_after :
    (e : CallHistoryEntry) (infos : List CallEventInfo) (peer_id : String) (s : DirectCallStatus)
    → AllMode CallMode.direct infos
    → e.status ≡ CallStatus.direct s
    → Shows
        (merge_all (some e) infos peer_id)
        (CallStatus.direct (direct_after s (kinds_of infos)))
        e.timestamp_ms
unfolding merge_all
merge_all-direct_after e [] peer_id s modes status =
    (e, refl, status ∙ ap CallStatus.direct (sym (direct_after-nil s)), refl)
merge_all-direct_after e (info ∷ infos) peer_id s modes status =
    let (e', step, status', ts) = transition-direct_step e info peer_id s modes.0 status in
    let (out, run, final, anchored) =
      merge_all-direct_after e' infos peer_id (direct_step s info.event) modes.1 status' in
    (
      out,
      ap (λ o. merge_all (kept o (some e)) infos peer_id) step ∙ run,
      final ∙ ap CallStatus.direct (direct_after-step s info.event (kinds_of infos)),
      anchored ∙ ts,
    )

-- Merging any nonempty sequence of events of mode direct, with no entry before, leaves an entry: its status
-- is deleted if some event deletes, else accepted if some event accepts, else what the last event that
-- decides says, and its time is that of the first event.
pub merge_all-direct :
    (info : CallEventInfo) (infos : List CallEventInfo) (peer_id : String)
    → AllMode CallMode.direct (info ∷ infos)
    → Shows
        (merge_all none (info ∷ infos) peer_id)
        (CallStatus.direct (direct_outcome (kinds_of (info ∷ infos))))
        info.timestamp_ms
unfolding merge_all direct_after
merge_all-direct info infos peer_id modes =
    let (e, step, status, ts) = transition-direct_first info peer_id modes.0 in
    let (out, run, final, anchored) =
      merge_all-direct_after e infos peer_id (direct_step DirectCallStatus.pending info.event)
        modes.1 status in
    (
      out,
      ap (λ o. merge_all (kept o none) infos peer_id) step ∙ run,
      final
          ∙ ap CallStatus.direct
              (direct_after-step DirectCallStatus.pending info.event (kinds_of infos)),
      anchored ∙ ts,
    )
