-- ===== src/Calls/Merge.antt =====
-- presage/src/store.rs, `ingest_call_event` repeated: what a sequence of call events leaves as the entry.
use presage.Prelude.{ℕ, Option, none, some, List, [], ◌∷◌, map, ◌≡◌}
use Prim.Native.String.{String}
use presage.Wire.Scan.{All}
use presage.Calls.{
  CallMode, CallDirection, CallEventKind, CallEventInfo, CallHistoryEntry, CallStatus,
  transition_call_history,
}

abbrev pub kept : Option CallHistoryEntry → Option CallHistoryEntry → Option CallHistoryEntry
kept none prev = prev
kept (some entry) prev = some entry

-- The entry after some events; one that the state machine rejects leaves it as it was.
unfoldable pub merge_all :
    Option CallHistoryEntry → List CallEventInfo → String → Option CallHistoryEntry
merge_all prev [] peer_id = prev
merge_all prev (info ∷ infos) peer_id =
    merge_all (kept (transition_call_history prev info peer_id) prev) infos peer_id

-- The events of some records, and for a group call their directions too.
abbrev pub kinds_of : List CallEventInfo → List CallEventKind
kinds_of = map (λ info. info.event)

abbrev pub signals_of : List CallEventInfo → List (CallEventKind × CallDirection)
signals_of = map (λ info. (info.event, info.direction))

abbrev pub AllMode : CallMode → List CallEventInfo → Type 0
AllMode mode = All (λ info. info.mode ≡ mode)

-- An entry with a status and a timestamp.
abbrev pub Shows : Option CallHistoryEntry → CallStatus → ℕ → Type 0
Shows o s ts = (e : CallHistoryEntry) × (o ≡ some e) × (e.status ≡ s) × (e.timestamp_ms ≡ ts)
