-- ===== src/Account/Pins.antt =====
-- `AccountChatState::pin` and `unpin`: what they make of the chats that are pinned.
use presage.Prelude.{
  ℕ, List, [], ◌∷◌, ◌++◌, Option, none, some, Bool, true, false, not, ◌||◌, ◌==◌, if◌then◌else◌,
  length, any, retain, retain-append, any-append, ◌≡◌, refl, sym, ap, ◌∙◌, arith, Bool-cases,
  Option-cases, inl, inr, append-nil, subst, ==_iff, ==_refl,
}
use mathlib.Core.Option
use presage.Wire.Scan.{All}
use presage.Account.{
  PinnedConversation, Thread, Identifier, PinCodec, AccountChatState, same_bytes, same_thread,
  or_else, identifier_of, for_thread, thread_of, read_as, thread, or_skip, threads_of,
  pinned_threads, is_pinned, pin, shows_other, unpin, pin_all, adopt_first_account_record,
}

pub same_bytes_refl : (xs : List ℕ) → same_bytes xs xs ≡ true
same_bytes_refl [] = refl
same_bytes_refl (x ∷ xs) = rw (==_refl x, same_bytes_refl xs) refl

pub same_bytes-eq : (xs ys : List ℕ) → same_bytes xs ys ≡ true → xs ≡ ys
same_bytes-eq [] [] h = refl
same_bytes-eq [] (y ∷ ys) h = cc
same_bytes-eq (x ∷ xs) [] h = cc
same_bytes-eq (x ∷ xs) (y ∷ ys) h = ground (arith, same_bytes-eq xs ys)

-- What the code relies on: prost reads what it wrote, libsignal's binary service id is read back, and its
-- equality is equality.
pub record PinCodecLaws {ServiceId : Type 0} (codec : PinCodec ServiceId) : Type 0 where
  pub decode-encode : (i : Option Identifier) → codec.decode (codec.encode i) ≡ some i
  pub parse-service_id_binary :
      (id : ServiceId) → codec.parse_from_service_id_binary (codec.service_id_binary id) ≡ some id
  pub same-refl : (id : ServiceId) → codec.same_service_id id id ≡ true
  pub same-eq : (a b : ServiceId) → codec.same_service_id a b ≡ true → a ≡ b

-- A thread that can be stored: a group's key has 32 bytes.
abbrev pub IsThread : {ServiceId : Type 0} → Thread ServiceId → Type 0
IsThread (Thread.contact id) = Unit
IsThread (Thread.group key) = length key ≡ 32

threads-contact :
    {ServiceId : Type 0} (o : Option ServiceId) (ts : List (Thread ServiceId))
    → All IsThread ts
    → All IsThread (or_skip (Option.map (λ id. Thread.contact id) o) ts)
threads-contact none ts h = h
threads-contact (some id) ts h = (tt, h)

if_false : {A : Type 0} {b : Bool} → b ≡ false → (x y : A) → (if b then x else y) ≡ y
if_false h x y = rw h refl

or_again : {a b : Bool} → a ≡ b → (c : Bool) → (b || (c || false)) ≡ (a || c)
or_again h c = ground arith

module _ {ServiceId : Type 0} (codec : PinCodec ServiceId) where
  threads_of-append :
      (xs ys : List PinnedConversation)
      → threads_of codec (xs ++ ys) ≡ threads_of codec xs ++ threads_of codec ys
  unfolding threads_of
  threads_of-append [] ys = refl
  threads_of-append (x ∷ xs) ys = elim (Option-cases (thread codec x)) [
    | inl unread ↦ rw unread (threads_of-append xs ys)
    | inr (t, read) ↦ rw read (ap (◌∷◌ t) (threads_of-append xs ys))
  ]

  threads_of-unpin :
      (t : Thread ServiceId) (pins : List PinnedConversation)
      → threads_of codec (retain (shows_other codec t) pins)
        ≡ retain (λ u. not (same_thread codec u t)) (threads_of codec pins)
  unfolding threads_of
  threads_of-unpin t [] = refl
  threads_of-unpin t (x ∷ xs) = elim (Option-cases (thread codec x)) [
    | inl unread ↦ rw unread (rw unread (threads_of-unpin t xs))
    | inr (u, read) ↦ elim (Bool-cases (same_thread codec u t)) [
      | inl same ↦ rw (read, same) (threads_of-unpin t xs)
      | inr other ↦ rw (read, other) (rw read (ap (◌∷◌ u) (threads_of-unpin t xs)))
    ]
  ]

  pin_again :
      (state : AccountChatState) (t : Thread ServiceId)
      → is_pinned codec state t ≡ true
      → pin codec state t ≡ state
  unfolding pin
  pin_again state t h = rw h refl

  is_pinned-any :
      (state : AccountChatState) (u : Thread ServiceId)
      → is_pinned codec state u ≡ any (λ p. same_thread codec p u) (pinned_threads codec state)
  unfolding is_pinned
  is_pinned-any state u = refl

  pin-settings :
      (state : AccountChatState) (t : Thread ServiceId)
      → ((pin codec state t).note_to_self_archived ≡ state.note_to_self_archived)
        × ((pin codec state t).keep_muted_chats_archived ≡ state.keep_muted_chats_archived)
  unfolding pin
  pin-settings state t = elim (Bool-cases (is_pinned codec state t)) [
    | inl yes' ↦ rw yes' (refl, refl)
    | inr no' ↦ rw no' (refl, refl)
  ]

  pin_all-settings :
      (ts : List (Thread ServiceId)) (state : AccountChatState)
      → ((pin_all codec state ts).note_to_self_archived ≡ state.note_to_self_archived)
        × ((pin_all codec state ts).keep_muted_chats_archived ≡ state.keep_muted_chats_archived)
  unfolding pin_all
  pin_all-settings [] state = (refl, refl)
  pin_all-settings (t ∷ ts) state =
      let (a, b) = pin_all-settings ts (pin codec state t) in
      (a ∙ (pin-settings state t).0, b ∙ (pin-settings state t).1)

  module _ (laws : PinCodecLaws codec) where
    pub same_thread_refl : (t : Thread ServiceId) → same_thread codec t t ≡ true
    same_thread_refl (Thread.contact id) = laws.same-refl id
    same_thread_refl (Thread.group key) = same_bytes_refl key

    same_thread-eq : (t u : Thread ServiceId) → same_thread codec t u ≡ true → t ≡ u
    same_thread-eq (Thread.contact a) (Thread.contact b) h =
        ap (λ x. Thread.contact x) (laws.same-eq a b h)
    same_thread-eq (Thread.group a) (Thread.group b) h =
        ap (λ x. Thread.group x) (same_bytes-eq a b h)
    same_thread-eq (Thread.contact a) (Thread.group b) h = cc
    same_thread-eq (Thread.group a) (Thread.contact b) h = cc

    thread_of-identifier_of :
        (t : Thread ServiceId) → IsThread t → thread_of codec (identifier_of codec t) ≡ some t
    unfolding thread_of identifier_of
    thread_of-identifier_of (Thread.contact id) h = rw (laws.parse-service_id_binary id) refl
    thread_of-identifier_of (Thread.group key) h = rw h refl

    -- With a codec that reads what it writes: the entry that pins a thread is read as that thread, for a
    -- contact and for a group with a key of 32 bytes.
    pub thread-for_thread :
        (t : Thread ServiceId) → IsThread t → thread codec (for_thread codec t) ≡ some t
    unfolding thread for_thread thread_of read_as
    thread-for_thread t h =
        rw (laws.decode-encode (some (identifier_of codec t))) (thread_of-identifier_of t h)

    absorbed :
        (state : AccountChatState) (t u : Thread ServiceId)
        → is_pinned codec state t ≡ true
        → is_pinned codec state u ≡ (is_pinned codec state u || same_thread codec t u)
    absorbed state t u yes' = elim (Bool-cases (same_thread codec t u)) [
      | inl same ↦
          let now : is_pinned codec state u ≡ true =
            subst (λ x. is_pinned codec state x ≡ true) (same_thread-eq t u same) yes' in
          ground arith
      | inr other ↦ rw other (ground arith)
    ]

    -- With a codec that reads what it writes: after `pin` the pinned threads are those of before, with the
    -- new one behind them unless it was among them.
    pub pinned_threads-pin :
        (state : AccountChatState) (t : Thread ServiceId)
        → IsThread t
        → pinned_threads codec (pin codec state t) ≡ (
            if is_pinned codec state t
            then pinned_threads codec state
            else pinned_threads codec state ++ t ∷ [])
    unfolding pinned_threads pin threads_of
    pinned_threads-pin state t h = elim (Bool-cases (is_pinned codec state t)) [
      | inl yes' ↦ rw yes' refl
      | inr no' ↦ rw no' (
          rw (threads_of-append state.pinned (for_thread codec t ∷ []))
            (rw (thread-for_thread t h) refl))
    ]

    pub is_pinned-pin :
        (state : AccountChatState) (t u : Thread ServiceId)
        → IsThread t
        → is_pinned codec (pin codec state t) u ≡ (is_pinned codec state u || same_thread codec t u)
    is_pinned-pin state t u h = elim (Bool-cases (is_pinned codec state t)) [
      | inl yes' ↦ ap (λ x. is_pinned codec x u) (pin_again state t yes') ∙ absorbed state t u yes'
      | inr no' ↦
          is_pinned-any (pin codec state t) u
          ∙ ap (any (λ p. same_thread codec p u)) (
              pinned_threads-pin state t h
              ∙ if_false no' (pinned_threads codec state) (pinned_threads codec state ++ t ∷ []))
          ∙ any-append (λ p. same_thread codec p u) (pinned_threads codec state) (t ∷ [])
          ∙ or_again (is_pinned-any state u) (same_thread codec t u)
    ]

    kept_all :
        (t : Thread ServiceId) (pins : List PinnedConversation)
        → any (λ p. same_thread codec p t) (threads_of codec pins) ≡ false
        → retain (shows_other codec t) pins ≡ pins
    unfolding threads_of
    kept_all t [] h = refl
    kept_all t (x ∷ xs) h = elim (Option-cases (thread codec x)) [
      | inl unread ↦ rw unread (ap (◌∷◌ x) (kept_all t xs (rw unread at h)))
      | inr (u, read) ↦
          let h' = rw read at h in
          elim (Bool-cases (same_thread codec u t)) [
            | inl same ↦ absurd (ground arith)
            | inr other ↦ rw read (rw other (ap (◌∷◌ x) (kept_all t xs (rw other at h'))))
          ]
    ]

    undone :
        (state : AccountChatState) (t : Thread ServiceId)
        → IsThread t
        → is_pinned codec state t ≡ false
        → retain (shows_other codec t) (state.pinned ++ for_thread codec t ∷ []) ≡ state.pinned
    unfolding is_pinned pinned_threads
    undone state t h not_pinned =
        retain-append (shows_other codec t) state.pinned (for_thread codec t ∷ [])
        ∙ rw (kept_all t state.pinned not_pinned, thread-for_thread t h, same_thread_refl t)
            (append-nil state.pinned)

    -- With a codec that reads what it writes: unpinning the chat that has just been pinned gives the state of
    -- before, if the chat was not pinned then.
    pub unpin-pin :
        (state : AccountChatState) (t : Thread ServiceId)
        → IsThread t
        → is_pinned codec state t ≡ false
        → unpin codec (pin codec state t) t ≡ state
    unfolding unpin pin
    unpin-pin state t h not_pinned = rw not_pinned (
        ap {A = List PinnedConversation} (λ p. record state { pinned = p })
          (undone state t h not_pinned))

    is_pinned-pin_all :
        (ts : List (Thread ServiceId)) (state : AccountChatState) (u : Thread ServiceId)
        → All IsThread ts
        → is_pinned codec (pin_all codec state ts) u
          ≡ (is_pinned codec state u || any (λ p. same_thread codec p u) ts)
    unfolding pin_all
    is_pinned-pin_all [] state u h = ground arith
    is_pinned-pin_all (t ∷ ts) state u h =
        rw (is_pinned-pin_all ts (pin codec state t) u h.1, is_pinned-pin state t u h.0)
          (ground arith)

  read_as-IsThread :
      (o : Option (Option Identifier)) (ts : List (Thread ServiceId))
      → All IsThread ts
      → All IsThread (or_skip (read_as codec o) ts)
  unfolding read_as thread_of
  read_as-IsThread none ts h = h
  read_as-IsThread (some none) ts h = h
  read_as-IsThread (some (some (Identifier.contact a b c))) ts h =
      threads-contact
        (or_else (codec.parse_from_service_id_binary c) (codec.parse_from_service_id_string a)) ts h
  read_as-IsThread (some (some (Identifier.group_master_key key))) ts h =
      elim (Bool-cases (length key == 32)) [
        | inl long ↦ rw long ((==_iff (length key) 32).0 long, h)
        | inr short ↦ rw short h
      ]
  read_as-IsThread (some (some (Identifier.legacy_group_id id))) ts h = h
  read_as-IsThread (some (some Identifier.release_notes)) ts h = h

  threads_of-IsThread : (pins : List PinnedConversation) → All IsThread (threads_of codec pins)
  unfolding threads_of thread
  threads_of-IsThread [] = tt
  threads_of-IsThread (x ∷ xs) =
      read_as-IsThread (codec.decode x) (threads_of codec xs) (threads_of-IsThread xs)

  threads-IsThread : (state : AccountChatState) → All IsThread (pinned_threads codec state)
  unfolding pinned_threads
  threads-IsThread state = threads_of-IsThread state.pinned

  -- With a codec that reads what it writes: the first account record that is read keeps every pin of the
  -- record and every pin made here, pins nothing else, and decides the other two settings.
  pub adopt_first-is_pinned :
      PinCodecLaws codec
      → (local remote : AccountChatState) (u : Thread ServiceId)
      → (is_pinned codec (adopt_first_account_record codec local remote) u
          ≡ (is_pinned codec remote u || is_pinned codec local u))
        × ((adopt_first_account_record codec local remote).note_to_self_archived
            ≡ remote.note_to_self_archived)
        × ((adopt_first_account_record codec local remote).keep_muted_chats_archived
            ≡ remote.keep_muted_chats_archived)
  unfolding adopt_first_account_record
  adopt_first-is_pinned laws local remote u = (
    is_pinned-pin_all laws (pinned_threads codec local) remote u (threads-IsThread local)
        ∙ ap (λ b. is_pinned codec remote u || b) (sym (is_pinned-any local u)),
    (pin_all-settings (pinned_threads codec local) remote).0,
    (pin_all-settings (pinned_threads codec local) remote).1,
  )
