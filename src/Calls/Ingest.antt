-- ===== src/Calls/Ingest.antt =====
-- presage/src/store.rs, `ContentsStore::ingest_call_event`, and presage/src/model/calls.rs,
-- `CallPeer`: from a decoded event to the stored entry. The store's two methods are its
-- implementation's; the text forms of a UUID and of bytes are the uuid and hex crates'.
use presage.Prelude.{
  ℕ, List, [], ◌∷◌, Option, none, some, Result, ok, ◌>>=◌, >>=-eq-ok, ◌≡◌, ◌≢◌, refl, sym, ap, ◌∙◌,
  subst, arith,
}
use Prim.Native.String.{String}
use presage.Wire.Scan.{All}
use presage.Calls.{
  CallEventInfo, CallHistoryEntry, transition_call_history, transition_direct, transition_group,
}
use presage.Calls.Merge.{merge_all, kept}

-- A UUID is its 16 bytes, a group's master key its 32.
pub data CallPeer : Type 0 where
  direct : List ℕ → CallPeer
  group : List ℕ → CallPeer

unfoldable pub peer_id : (List ℕ → String) → (List ℕ → String) → CallPeer → String
peer_id uuid_text hex_encode (CallPeer.direct uuid) = uuid_text uuid
peer_id uuid_text hex_encode (CallPeer.group mk) = hex_encode mk

-- `get_call_history` and `save_call_history` of a store.
pub record CallHistoryStore (S E : Type 0) : Type 0 where
  pub get_call_history : S → ℕ → Result E (Option CallHistoryEntry)
  pub save_call_history : S → CallHistoryEntry → Result E S

-- `Only s c p` says that the entries of the call `c` are all of the peer `p`: a store has one for each call and peer,
-- and is asked by the call alone. Where this holds, a saved entry is found under its call, and it goes on to hold; an
-- entry of another call changes nothing.
pub record KeepsCalls {S E : Type 0} (store : CallHistoryStore S E) (Only : S → ℕ → String → Type 0)
    : Type 0 where
  pub saved :
      (s : S) (entry : CallHistoryEntry) {s' : S}
      → Only s entry.call_id entry.peer_id
      → store.save_call_history s entry ≡ ok s'
      → (store.get_call_history s' entry.call_id ≡ ok (some entry))
        × Only s' entry.call_id entry.peer_id
  pub others :
      (s : S) (entry : CallHistoryEntry) (id : ℕ) {s' : S}
      → id ≢ entry.call_id
      → store.save_call_history s entry ≡ ok s'
      → store.get_call_history s' id ≡ store.get_call_history s id

module _ {S E : Type 0} (store : CallHistoryStore S E) where
  -- The `let Some(entry) = … else`.
  unfoldable pub ingest_entry : S → Option CallHistoryEntry → Result E (S × Option CallHistoryEntry)
  ingest_entry s none = ok (s, none)
  ingest_entry s (some entry) = do s' ← store.save_call_history s entry; ok (s', some entry)

  unfoldable pub ingest_call_event :
      S → CallEventInfo → String → Result E (S × Option CallHistoryEntry)
  unfolding ingest_entry
  ingest_call_event s info peer = do
    prev ← store.get_call_history s info.call_id
    ingest_entry s (transition_call_history prev info peer)

  -- The events of a sync, one after another.
  unfoldable pub ingest_all : S → List CallEventInfo → String → Result E S
  ingest_all s [] peer = ok s
  ingest_all s (info ∷ infos) peer = do r ← ingest_call_event s info peer; ingest_all r.0 infos peer

-- The entry of a transition is the event's call's and the peer's.
transition-call_id :
    (prev : Option CallHistoryEntry) (info : CallEventInfo) (peer : String) (e : CallHistoryEntry)
    → transition_call_history prev info peer ≡ some e
    → (e.call_id ≡ info.call_id) × (e.peer_id ≡ peer)
unfolding transition_call_history transition_direct transition_group
transition-call_id prev info peer e h = (ground arith, ground arith)

module _ {S E : Type 0} (store : CallHistoryStore S E) (Only : S → ℕ → String → Type 0)
    (keeps : KeepsCalls store Only) where
  -- What is stored after the outcome of a transition from `prev`.
  abbrev Ingested : S → S → ℕ → String → Option CallHistoryEntry → Type 0
  Ingested s s' c peer entry =
      (store.get_call_history s' c ≡ ok entry)
      × Only s' c peer
      × ((id : ℕ) → id ≢ c → store.get_call_history s' id ≡ store.get_call_history s id)

  ingest_entry-Ingested :
      (s : S) (c : ℕ) (peer : String) (prev o : Option CallHistoryEntry) {s' : S}
      {out : Option CallHistoryEntry}
      → ((e : CallHistoryEntry) → o ≡ some e → (e.call_id ≡ c) × (e.peer_id ≡ peer))
      → Only s c peer
      → store.get_call_history s c ≡ ok prev
      → ingest_entry store s o ≡ ok (s', out)
      → Ingested s s' c peer (kept o prev)
  unfolding ingest_entry
  ingest_entry-Ingested s c peer prev none {s'} own only found h =
      let same : s ≡ s' = ground arith in
      subst (λ t. Ingested s t c peer prev) same (found, only, λ id ne. refl)
  ingest_entry-Ingested s c peer prev (some e) {s'} own only found h =
      let (s1, save, e1) = >>=-eq-ok (store.save_call_history s e) _ h in
      let same : s1 ≡ s' = ground arith in
      let (call, who) = own e refl in
      let only' =
        subst (λ p. Only s e.call_id p) (sym who) (subst (λ n. Only s n peer) (sym call) only) in
      let (here, still) = keeps.saved s e only' save in
      subst (λ t. Ingested s t c peer (some e)) same
        (
          ap (store.get_call_history s1) (sym call) ∙ here,
          subst (λ n. Only s1 n peer) call (subst (λ p. Only s1 e.call_id p) who still),
          λ id ne. keeps.others s e id (λ x. ne (x ∙ call)) save,
        )

  ingest_call_event-Ingested :
      (s : S) (info : CallEventInfo) (peer : String) (prev : Option CallHistoryEntry) {s' : S}
      {out : Option CallHistoryEntry}
      → Only s info.call_id peer
      → store.get_call_history s info.call_id ≡ ok prev
      → ingest_call_event store s info peer ≡ ok (s', out)
      → Ingested s s' info.call_id peer (kept (transition_call_history prev info peer) prev)
  unfolding ingest_call_event
  ingest_call_event-Ingested s info peer prev only found h =
      ingest_entry-Ingested s info.call_id peer prev (transition_call_history prev info peer)
        (transition-call_id prev info peer) only found (rw found at h)

  -- For a store that keeps what is saved, and events of one call and peer that are all ingested without an error,
  -- where the entries of the call that are stored before are all of that peer: the store then holds the call's entry
  -- as the events merge into the one before, and every other call's entry as it was.
  pub get-ingest_all :
      (c : ℕ) (s : S) (infos : List CallEventInfo) (peer : String) (prev : Option CallHistoryEntry)
      (id : ℕ) {s' : S}
      → All (λ info. info.call_id ≡ c) infos
      → Only s c peer
      → store.get_call_history s c ≡ ok prev
      → ingest_all store s infos peer ≡ ok s'
      → (store.get_call_history s' c ≡ ok (merge_all prev infos peer))
        × (id ≢ c → store.get_call_history s' id ≡ store.get_call_history s id)
  unfolding ingest_all merge_all
  get-ingest_all c s [] peer prev id {s'} own only found h =
      let same : s ≡ s' = ground arith in (rw (← same) found, λ ne. rw (← same) refl)
  get-ingest_all c s (info ∷ infos) peer prev id own only found h =
      let (r, step, rest) = >>=-eq-ok (ingest_call_event store s info peer) _ h in
      let (here, still, there) =
        ingest_call_event-Ingested s info peer prev (subst (λ n. Only s n peer) (sym own.0) only)
          (ap (store.get_call_history s) own.0 ∙ found) step in
      let (final, others) =
        get-ingest_all c r.0 infos peer (kept (transition_call_history prev info peer) prev) id
          own.1 (subst (λ n. Only r.0 n peer) own.0 still)
          (ap (store.get_call_history r.0) (sym own.0) ∙ here) rest in
      (final, λ ne. others ne ∙ there id (λ e. ne (e ∙ own.0)))
