-- ===== src/Examples/Calls.antt =====
-- presage/src/model/calls.rs and presage/src/store.rs on two events of one call.
use presage.Prelude.{
  ℕ, ◌≢◌, List, [], ◌∷◌, Option, none, some, Bool, true, ◌==◌, ◌∙◌, ap, sym, if◌then◌else◌, ok, ◌≡◌,
  refl, arith, ◌&&◌, not, ◌++◌, retain, ==_refl, ==_iff, ==_ne, subst, Bool-cases, inl, inr,
}
use presage.Calls.{
  CallMode, CallType, CallDirection, CallEventKind, DirectCallStatus, CallStatus, CallEventInfo,
  CallHistoryEntry, transition_call_history, transition_direct,
}
use presage.Calls.Merge.{kinds_of, signals_of, merge_all, Shows}
use presage.Calls.Direct.{direct_outcome, merge_all-direct}
use presage.Calls.Group.{group_outcome, merge_all-group}
use Prim.Native.String.{String, compare}
use text.Mathlib.Text.{is_eq}
use text.Mathlib.TextPositions.{eq_refl}
use presage.Wire.Scan.{All}
use presage.Calls.Ingest.{
  CallHistoryStore, KeepsCalls, ingest_all, ingest_call_event, ingest_entry, get-ingest_all,
}

abbrev event : CallMode → CallEventKind → ℕ → CallEventInfo
event mode kind at = record {
  call_id = 7;
  conversation_id = 1 ∷ 2 ∷ [];
  timestamp_ms = at;
  mode = mode;
  call_type = CallType.audio;
  direction = CallDirection.incoming;
  event = kind;
}

-- A ring that is declined here and answered on another device.
abbrev later : CallMode → List CallEventInfo
later mode = event mode CallEventKind.accepted 20 ∷ event mode CallEventKind.not_accepted 30 ∷ []

abbrev ring : CallMode → CallEventInfo
ring mode = event mode CallEventKind.observed 10

merge_all-direct_example :
    Shows
      (merge_all none (ring CallMode.direct ∷ later CallMode.direct) "peer")
      (CallStatus.direct (direct_outcome (kinds_of (ring CallMode.direct ∷ later CallMode.direct))))
      10
merge_all-direct_example =
    merge_all-direct (ring CallMode.direct) (later CallMode.direct) "peer"
      (refl, (refl, (refl, tt)))

merge_all-group_example :
    Shows
      (merge_all none (ring CallMode.group ∷ later CallMode.group) "peer")
      (CallStatus.group (group_outcome (signals_of (ring CallMode.group ∷ later CallMode.group))))
      10
merge_all-group_example =
    merge_all-group (ring CallMode.group) (later CallMode.group) "peer" (refl, (refl, (refl, tt)))

-- A table with one row for each call and peer, that is asked by the call alone.
abbrev same_row : CallHistoryEntry → CallHistoryEntry → Bool
same_row a b = (a.call_id == b.call_id) && is_eq (compare a.peer_id b.peer_id)

abbrev first_row : List CallHistoryEntry → ℕ → Option CallHistoryEntry
first_row [] id = none
first_row (x ∷ xs) id = if x.call_id == id then some x else first_row xs id

abbrev replaced_row : List CallHistoryEntry → CallHistoryEntry → List CallHistoryEntry
replaced_row s e = retain (λ x. not (same_row x e)) s ++ e ∷ []

abbrev table : CallHistoryStore (List CallHistoryEntry) (Unit {0})
table = record {
  get_call_history = λ s id. ok (first_row s id);
  save_call_history = λ s e. ok (replaced_row s e);
}

abbrev Only : List CallHistoryEntry → ℕ → String → Type 0
Only s c p = All (λ x. x.call_id ≡ c → x.peer_id ≡ p) s

same_row-peer :
    (x e : CallHistoryEntry) → x.call_id ≡ e.call_id → x.peer_id ≡ e.peer_id → same_row x e ≡ true
same_row-peer x e call who = rw (call, who, ==_refl e.call_id) (eq_refl e.peer_id)

saved_row :
    (s : List CallHistoryEntry) (e : CallHistoryEntry)
    → Only s e.call_id e.peer_id
    → (first_row (replaced_row s e) e.call_id ≡ some e)
      × Only (replaced_row s e) e.call_id e.peer_id
saved_row [] e only = (rw (==_refl e.call_id) refl, (λ h. refl, tt))
saved_row (x ∷ xs) e only =
    let rest = saved_row xs e only.1 in
    elim (Bool-cases (x.call_id == e.call_id)) [
      | inl same ↦
          let call = (==_iff x.call_id e.call_id).0 same in
          rw (same_row-peer x e call (only.0 call)) rest
      | inr other ↦ rw (other) (rw other (rest.0, (only.0, rest.1)))
    ]

other_rows :
    (s : List CallHistoryEntry) (e : CallHistoryEntry) (id : ℕ)
    → id ≢ e.call_id
    → first_row (replaced_row s e) id ≡ first_row s id
other_rows [] e id ne = rw (==_ne e.call_id id (λ h. ne (sym h))) refl
other_rows (x ∷ xs) e id ne =
    let rest = other_rows xs e id ne in
    elim (Bool-cases (same_row x e)) [
      | inl same ↦
          let call : x.call_id ≡ e.call_id = (==_iff x.call_id e.call_id).0 (ground arith) in
          rw (same, ==_ne x.call_id id (λ h. ne (sym h ∙ call))) rest
      | inr kept' ↦ rw kept' (elim (Bool-cases (x.call_id == id)) [
        | inl here ↦ rw here refl
        | inr there ↦ rw there rest
      ])
    ]

table-KeepsCalls : KeepsCalls table Only
table-KeepsCalls = record {
  saved = λ s entry {s'} only e.
      let new : replaced_row s entry ≡ s' = ground arith in
      let (here, still) = saved_row s entry only in
      subst
        (λ t.
          (table.get_call_history t entry.call_id ≡ ok (some entry))
          × Only t entry.call_id entry.peer_id)
        new (ap ok here, still);
  others = λ s entry id {s'} ne e.
      let new : replaced_row s entry ≡ s' = ground arith in
      subst (λ t. table.get_call_history t id ≡ table.get_call_history s id) new
        (ap ok (other_rows s entry id ne));
}

abbrev entry : DirectCallStatus → CallHistoryEntry
entry status = record {
  call_id = 7;
  peer_id = "peer";
  mode = CallMode.direct;
  call_type = CallType.audio;
  direction = CallDirection.incoming;
  status = CallStatus.direct status;
  timestamp_ms = 10;
}

-- The store after a ring and its answer.
abbrev answered : List CallEventInfo
answered = ring CallMode.direct ∷ event CallMode.direct CallEventKind.accepted 20 ∷ []

abbrev after : List CallHistoryEntry
after = entry DirectCallStatus.accepted ∷ []

ingested : ingest_all table [] answered "peer" ≡ ok after
unfolding ingest_all ingest_call_event ingest_entry transition_call_history transition_direct
ingested = refl

get-ingest_all_example :
    (table.get_call_history after 7 ≡ ok (merge_all none answered "peer"))
    × (◌≢◌ {A = ℕ} 8 7 → table.get_call_history after 8 ≡ table.get_call_history [] 8)
get-ingest_all_example =
    get-ingest_all table Only table-KeepsCalls 7 [] answered "peer" none 8 (refl, (refl, tt)) tt
      refl ingested
