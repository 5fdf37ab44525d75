-- ===== src/Chats/Pinned.antt =====
-- A pinned chat is never archived: `set_pinned` of presage/src/manager/registered.rs.
use presage.Prelude.{
  ℕ, List, [], ◌∷◌, Option, some, Bool, true, false, not, ◌&&◌, differs, if◌then◌else◌, ok, ok_or,
  ok_same, ◌≡◌, refl, sym, ap, ◌∙◌, arith, Bool-cases, Option-cases, inl, inr,
}
use presage.Prelude.Steps.{done, lift, ◌>>◌, >>=-ends_ok, >>=-from}
use presage.Account.{
  AccountChatState, PinnedConversation, PinCodec, Thread, pin, is_pinned, pinned_threads, same_list,
  same_bytes,
}
use presage.Account.Pins.{same_bytes-eq, PinCodecLaws, IsThread, is_pinned-pin, same_thread_refl}
use presage.Publish.{Contact}
use presage.Publish.Records.{ContactForms}
use presage.Groups.{Group, ServiceId}
use presage.Chats.{
  ChatStore, ChatError, same_state, is_note_to_self, stored_group, save_if_changed,
  edit_account_for_publish, edit_group_for_publish, edit_contact_for_publish, edit_contact,
  archive_thread, set_archived, contact_archived, group_archived, is_archived, pinned_or_not,
  unarchive_if, set_pinned, contact_or_minimal,
}

same_pins-eq : (a b : List PinnedConversation) → same_list same_bytes a b ≡ true → a ≡ b
same_pins-eq [] [] h = refl
same_pins-eq [] (y ∷ ys) h = cc
same_pins-eq (x ∷ xs) [] h = cc
same_pins-eq (x ∷ xs) (y ∷ ys) h = ground (arith, same_bytes-eq x y, same_pins-eq xs ys)

same_bool : (a b : Bool) → not (differs a b) ≡ true → a ≡ b
same_bool true true h = refl
same_bool true false h = cc
same_bool false true h = cc
same_bool false false h = refl

both : (a b : Bool) → (a && b) ≡ true → (a ≡ true) × (b ≡ true)
both true b h = (refl, h)
both false b h = cc

same_state-eq : (a b : AccountChatState) → same_state a b ≡ true → a ≡ b
same_state-eq a b h =
    let n : not (differs a.note_to_self_archived b.note_to_self_archived) ≡ true = ground arith in
    let k : not (differs a.keep_muted_chats_archived b.keep_muted_chats_archived) ≡ true =
      ground arith in
    let p : same_list same_bytes a.pinned b.pinned ≡ true = ground arith in
    let en : a.note_to_self_archived ≡ b.note_to_self_archived = same_bool _ _ n in
    let ek : a.keep_muted_chats_archived ≡ b.keep_muted_chats_archived = same_bool _ _ k in
    let ep : a.pinned ≡ b.pinned = same_pins-eq a.pinned b.pinned p in cc

module _ {W E Phone Verified Avatar Role Access ProfileKey : Type 0}
    (store : ChatStore W E Phone Verified Avatar Role Access ProfileKey)
    (row_of : W → ServiceId → Option (Contact Phone Verified Avatar))
    (group_of : W → List ℕ → Option (Group Role Access ProfileKey ℕ))
    (state_of : W → AccountChatState) where
  -- What the store answers is what it keeps, reading changes nothing, a saved row is found as it was saved where it
  -- was found before with the same identity, and rows, marks and the account's state are kept apart.
  pub record KeepsChats : Type 0 where
    pub row_read :
        (id : ServiceId) (w : W) {x : Option (Contact Phone Verified Avatar)}
        → (store.contact_by_id id w).0 ≡ ok x
        → (row_of w id ≡ x) × ((store.contact_by_id id w).1 ≡ w)
    pub group_read :
        (key : List ℕ) (w : W) {x : Option (Group Role Access ProfileKey ℕ)}
        → (store.group key w).0 ≡ ok x
        → (group_of w key ≡ x) × ((store.group key w).1 ≡ w)
    pub state_read :
        (w : W) {x : AccountChatState}
        → (store.account_chat_state w).0 ≡ ok x
        → (state_of w ≡ x) × ((store.account_chat_state w).1 ≡ w)
    pub row_saved :
        (id : ServiceId) (old new : Contact Phone Verified Avatar) (w : W)
        → row_of w id ≡ some old
        → new.uuid ≡ old.uuid
        → (store.save_contact new w).0 ≡ ok tt
        → (row_of (store.save_contact new w).1 id ≡ some new)
          × (state_of (store.save_contact new w).1 ≡ state_of w)
    pub group_saved :
        (key : List ℕ) (g : Group Role Access ProfileKey ℕ) (w : W)
        → (store.save_group key g w).0 ≡ ok tt
        → (group_of (store.save_group key g w).1 key ≡ some g)
          × (state_of (store.save_group key g w).1 ≡ state_of w)
    pub state_saved :
        (s : AccountChatState) (w : W)
        → (store.save_account_chat_state s w).0 ≡ ok tt
        → state_of (store.save_account_chat_state s w).1 ≡ s
    pub row_marked :
        (id : ServiceId) (w : W)
        → (row_of (store.set_contact_needs_storage_sync id true w).1 id ≡ row_of w id)
          × (state_of (store.set_contact_needs_storage_sync id true w).1 ≡ state_of w)
    pub group_marked :
        (key : List ℕ) (w : W)
        → (group_of (store.set_group_needs_storage_sync key true w).1 key ≡ group_of w key)
          × (state_of (store.set_group_needs_storage_sync key true w).1 ≡ state_of w)
    pub state_marked :
        (w : W) → state_of (store.set_account_needs_storage_sync true w).1 ≡ state_of w

module _ {W E Phone Verified Avatar Role Access ProfileKey : Type 0}
    (store : ChatStore W E Phone Verified Avatar Role Access ProfileKey)
    (forms : ContactForms Phone Verified Avatar) (codec : PinCodec ServiceId) (self_aci : ℕ)
    (row_of : W → ServiceId → Option (Contact Phone Verified Avatar))
    (group_of : W → List ℕ → Option (Group Role Access ProfileKey ℕ))
    (state_of : W → AccountChatState) (laws : KeepsChats store row_of group_of state_of) where
  -- Whether the rows say that a chat is archived.
  abbrev pub archived_in : W → Thread ServiceId → Bool
  archived_in w (Thread.contact id) =
      if is_note_to_self store forms codec self_aci id
      then (state_of w).note_to_self_archived
      else contact_archived store forms codec self_aci (row_of w id)
  archived_in w (Thread.group key) = group_archived store forms codec self_aci (group_of w key)

  saved_state :
      (before state : AccountChatState) (w : W)
      → state_of w ≡ before
      → (save_if_changed store forms codec self_aci before state w).0 ≡ ok tt
      → state_of (save_if_changed store forms codec self_aci before state w).1 ≡ state
  saved_state before state w was h = elim (Bool-cases (same_state state before)) [
    | inl same ↦ rw same (was ∙ sym (same_state-eq state before same))
    | inr other ↦
        let h' = rw other at h in
        let (u, saved, h1, w1) = >>=-ends_ok (store.save_account_chat_state state) _ w h' in
        rw other (ap state_of w1 ∙ laws.state_marked _ ∙ laws.state_saved state w saved)
  ]

  edited_state :
      (edit : AccountChatState → AccountChatState) (w : W)
      → (edit_account_for_publish store forms codec self_aci edit w).0 ≡ ok tt
      → state_of (edit_account_for_publish store forms codec self_aci edit w).1 ≡ edit (state_of w)
  unfolding edit_account_for_publish
  edited_state edit w h =
      let (state, read, h1, w1) = >>=-ends_ok store.account_chat_state _ w h in
      let (is, there) = laws.state_read w read in
      ap state_of w1
      ∙ saved_state state (edit state) _ (ap state_of there ∙ is) h1
      ∙ ap edit (sym is)

  is_archived-read :
      (t : Thread ServiceId) (w : W) {a : Bool}
      → (is_archived store forms codec self_aci t w).0 ≡ ok a
      → (archived_in w t ≡ a) × ((is_archived store forms codec self_aci t w).1 ≡ w)
  unfolding is_archived
  is_archived-read (Thread.contact id) w h =
      elim (Bool-cases (is_note_to_self store forms codec self_aci id)) [
        | inl self ↦
            let (state, read, h1, w1) = >>=-ends_ok store.account_chat_state _ w (rw self at h) in
            let (is, there) = laws.state_read w read in
            rw self (
              ap (λ (s : AccountChatState). s.note_to_self_archived) is ∙ ok_same refl h1,
              w1 ∙ there,
            )
        | inr other ↦
            let (row, read, h1, w1) = >>=-ends_ok (store.contact_by_id id) _ w (rw other at h) in
            let (is, there) = laws.row_read id w read in
            rw other
              (ap (contact_archived store forms codec self_aci) is ∙ ok_same refl h1, w1 ∙ there)
      ]
  is_archived-read (Thread.group key) w h =
      let (g, read, h1, w1) = >>=-ends_ok (store.group key) _ w h in
      let (is, there) = laws.group_read key w read in
      (ap (group_archived store forms codec self_aci) is ∙ ok_same refl h1, w1 ∙ there)

  -- A row that is there is written as edited and the account's state stays.
  edited_row :
      (id : ServiceId) (edit : Contact Phone Verified Avatar → Contact Phone Verified Avatar)
      → ((c : Contact Phone Verified Avatar) → (edit c).uuid ≡ c.uuid)
      → (old : Contact Phone Verified Avatar) (w : W) → row_of w id ≡ some old
      → (edit_contact store forms codec self_aci id edit w).0 ≡ ok tt
      → (row_of (edit_contact store forms codec self_aci id edit w).1 id ≡ some (edit old))
        × (state_of (edit_contact store forms codec self_aci id edit w).1 ≡ state_of w)
  edited_row id edit keeps old w there h =
      let (x, read, h1, w1) = >>=-ends_ok (store.contact_by_id id) _ w h in
      let (is, same) = laws.row_read id w read in
      let start : edit_contact store forms codec self_aci id edit w
          ≡ (store.save_contact (edit old) >> store.set_contact_needs_storage_sync id true) w =
        >>=-from (store.contact_by_id id)
          (λ x.
            store.save_contact (edit (contact_or_minimal store forms codec self_aci id x))
            >> store.set_contact_needs_storage_sync id true)
          w w (read ∙ ap ok (sym is ∙ there)) same in
      let (u, saved, h2, w2) =
        >>=-ends_ok (store.save_contact (edit old)) _ w (sym (ap (λ p. p.0) start) ∙ h) in
      let (kept, state) = laws.row_saved id old (edit old) w there (keeps old) saved in
      let (marked, marked_state) = laws.row_marked id (store.save_contact (edit old) w).1 in
      let end = ap (λ p. p.1) start ∙ w2 in
      (ap (λ v. row_of v id) end ∙ marked ∙ kept, ap state_of end ∙ marked_state ∙ state)

  edited_group :
      (key : List ℕ) (edit : Group Role Access ProfileKey ℕ → Group Role Access ProfileKey ℕ)
      (old : Group Role Access ProfileKey ℕ) (w : W)
      → group_of w key ≡ some old
      → (edit_group_for_publish store forms codec self_aci key edit w).0 ≡ ok tt
      → (group_of (edit_group_for_publish store forms codec self_aci key edit w).1 key
          ≡ some (edit old))
        × (state_of (edit_group_for_publish store forms codec self_aci key edit w).1 ≡ state_of w)
  unfolding edit_group_for_publish stored_group
  edited_group key edit old w there h =
      let (g, read, h1, w1) = >>=-ends_ok (stored_group store forms codec self_aci key) _ w h in
      let (x, looked, h2, w2) = >>=-ends_ok (store.group key) _ w read in
      let (is, same) = laws.group_read key w looked in
      let group : stored_group store forms codec self_aci key w ≡ done old w =
        >>=-from (store.group key) (λ x. lift (ok_or x ChatError.unknown_group)) w w
          (looked ∙ ap ok (sym is ∙ there)) same in
      let start : edit_group_for_publish store forms codec self_aci key edit w
          ≡ (store.save_group key (edit old) >> store.set_group_needs_storage_sync key true) w =
        >>=-from (stored_group store forms codec self_aci key)
          (λ x. store.save_group key (edit x) >> store.set_group_needs_storage_sync key true) w w
          (ap (λ p. p.0) group) (ap (λ p. p.1) group) in
      let (u, saved, h3, w3) =
        >>=-ends_ok (store.save_group key (edit old)) _ w (sym (ap (λ p. p.0) start) ∙ h) in
      let (kept, state) = laws.group_saved key (edit old) w saved in
      let (marked, marked_state) = laws.group_marked key (store.save_group key (edit old) w).1 in
      let end = ap (λ p. p.1) start ∙ w3 in
      (ap (λ v. group_of v key) end ∙ marked ∙ kept, ap state_of end ∙ marked_state ∙ state)

  -- Taking a chat out of the archive takes it out, and the pins stay.
  unarchived :
      (t : Thread ServiceId) (w : W)
      → archived_in w t ≡ true
      → (archive_thread store forms codec self_aci t false w).0 ≡ ok tt
      → (archived_in (archive_thread store forms codec self_aci t false w).1 t ≡ false)
        × ((state_of (archive_thread store forms codec self_aci t false w).1).pinned
            ≡ (state_of w).pinned)
  unfolding edit_contact_for_publish
  unarchived (Thread.contact id) w up h =
      elim (Bool-cases (is_note_to_self store forms codec self_aci id)) [
        | inl self ↦
            let after =
              edited_state (λ s. record s { note_to_self_archived = false }) w (rw self at h) in
            rw self (
              ap (λ (s : AccountChatState). s.note_to_self_archived) after,
              ap (λ (s : AccountChatState). s.pinned) after,
            )
        | inr other ↦
            let up' = rw other at up in
            let h' = rw other at h in
            elim (Option-cases (row_of w id)) [
              | inr (old, there) ↦
                  let (row, state) =
                    edited_row id (λ c. record c { archived = false }) (λ c. refl) old w there h' in
                  rw other (
                    ap (contact_archived store forms codec self_aci) row,
                    ap (λ (s : AccountChatState). s.pinned) state,
                  )
              | inl gone ↦ absurd (let bad = rw gone at up' in ground arith)
            ]
      ]
  unarchived (Thread.group key) w up h = elim (Option-cases (group_of w key)) [
    | inr (old, there) ↦
        let (row, state) = edited_group key (λ g. record g { archived = false }) old w there h in
        (
          ap (group_archived store forms codec self_aci) row,
          ap (λ (s : AccountChatState). s.pinned) state,
        )
    | inl gone ↦ absurd (let bad = rw gone at up in ground arith)
  ]

  same_pins :
      (a b : AccountChatState) (t : Thread ServiceId)
      → a.pinned ≡ b.pinned
      → is_pinned codec a t ≡ is_pinned codec b t
  unfolding is_pinned pinned_threads
  same_pins a b t h = rw h refl

  pinned_after_pin :
      PinCodecLaws codec
      → (state : AccountChatState) (t : Thread ServiceId) → IsThread t
      → is_pinned codec (pin codec state t) t ≡ true
  pinned_after_pin pins state t is =
      let from = is_pinned-pin codec pins state t t is in
      let self = same_thread_refl codec pins t in ground arith

  -- A thread that can be stored, with a codec that reads what it writes: when pinning it ends well, the stored account
  -- state has the thread among its pins and no row says any more that it is archived.
  pub set_pinned-unarchived :
      PinCodecLaws codec
      → (t : Thread ServiceId) (w : W) → IsThread t
      → (set_pinned store forms codec self_aci t true w).0 ≡ ok tt
      → (is_pinned codec (state_of (set_pinned store forms codec self_aci t true w).1) t ≡ true)
        × (archived_in (set_pinned store forms codec self_aci t true w).1 t ≡ false)
  unfolding set_pinned set_archived
  set_pinned-unarchived pins t w is h =
      let edit = pinned_or_not store forms codec self_aci t true in
      let (u, ended, h1, w1) =
        >>=-ends_ok (edit_account_for_publish store forms codec self_aci edit) _ w h in
      let wp = (edit_account_for_publish store forms codec self_aci edit w).1 in
      let state = edited_state edit w ended in
      let pinned = ap (λ s. is_pinned codec s t) state ∙ pinned_after_pin pins (state_of w) t is in
      let (a, asked, h2, w2) =
        >>=-ends_ok (is_archived store forms codec self_aci t)
          (unarchive_if store forms codec self_aci t) wp h1 in
      let (was, same) = is_archived-read t wp asked in
      elim (Bool-cases a) [
        | inl up ↦
            let h3 = rw (up, same) at h2 in
            let (down, pins_stay) = unarchived t wp (was ∙ up) h3 in
            let end : (set_pinned store forms codec self_aci t true w).1
                ≡ (archive_thread store forms codec self_aci t false wp).1 =
              w1 ∙ w2 ∙ rw (up, same) refl in
            (
              ap (λ v. is_pinned codec (state_of v) t) end ∙ same_pins _ _ t pins_stay ∙ pinned,
              ap (λ v. archived_in v t) end ∙ down,
            )
        | inr down ↦
            let end : (set_pinned store forms codec self_aci t true w).1 ≡ wp =
              w1 ∙ w2 ∙ rw down same in
            (
              ap (λ v. is_pinned codec (state_of v) t) end ∙ pinned,
              ap (λ v. archived_in v t) end ∙ was ∙ down,
            )
      ]
