-- ===== src/Sync/ArmMarks.antt =====
-- What the arms of `sync_storage_service` of presage/src/manager/storage.rs keep, one kind of record after the other.
use presage.Prelude.{
  ℕ, ◌==◌, length, List, [], ◌∷◌, Option, none, some, Bool, true, false, Result, ok, err,
}
use presage.Prelude.Steps.{Step, done, attempt}
use presage.Wire.{EditError}
use presage.Account.{merge_account_record, AccountChatState, PinCodec, Thread, pinned_threads}
use presage.Publish.{Contact}
use presage.Groups.{Group, ServiceId}
use presage.Groups.Pending.{GroupV2Record}
use presage.Folders.{merge_chat_folder_from_snapshot, ChatFolder}
use presage.Stickers.{StickerPackRecordState}
use presage.Manifest.Keeps.{Keeps}
use presage.Manifest.Update.{StorageRecordIdentity}
use presage.Sync.{SyncStore, or_warn, or_default, found}
use presage.Sync.Merge.{
  Pending, published_record, merged_contact, save_profile_key, sync_contact, merged_group,
  sync_group, save_merged, sync_chat_folder, note_sticker_pack, sync_sticker_pack,
  unarchive_contact, unarchive_group, unarchive_thread, unarchive_threads, unarchive_pinned,
  sync_account, contains, contains_id, contact_profile_key, default_chat_state, published_of,
}
use presage.Sync.Marks.{EachCallKeeps, Kept, bind, ended, warned, looked, if-Kept}

module _ {W E Handle Phone Verified Avatar Role Access ProfileKey C : Type 0}
    (store : SyncStore W E Handle Phone Verified Avatar Role Access ProfileKey C)
    (R : W → W → Type 0) (same : (w : W) → R w w) (trans : (a b c : W) → R a b → R b c → R a c)
    (each : EachCallKeeps store R) where
  abbrev Fine : {A : Type 0} → Step W E A → Type 0
  Fine step = Kept store R same trans each step

  published_record-Kept :
      (flagged : Bool) (read : Step W E (Option StorageRecordIdentity))
      → Keeps R read
      → Fine (published_record store flagged read)
  published_record-Kept false read h = record { keeps = same }
  published_record-Kept true read h = record { keeps = h }

  merged_contact-Kept :
      (remote : Contact Phone Verified Avatar) (flagged : Bool)
      (existing : Option (Contact Phone Verified Avatar))
      → Fine (merged_contact store remote flagged existing)
  merged_contact-Kept remote flagged none = ended store R same trans each _
  merged_contact-Kept remote flagged (some existing) =
      bind store R same trans each
        (published_record store flagged
          (store.contact_storage_identity (ServiceId.aci_id remote.uuid)))
        _ (published_record-Kept flagged _ (each.contact_storage_identity _))
        (λ stored. ended store R same trans each _)

  save_profile_key-Kept :
      (uuid : ℕ) (key : Option (List ℕ)) → Fine (save_profile_key store uuid key)
  save_profile_key-Kept uuid none = ended store R same trans each _
  save_profile_key-Kept uuid (some key) =
      warned store R same trans each (store.upsert_profile_key uuid key)
        (each.upsert_profile_key uuid key)

  pub sync_contact-Kept :
      (pending : Pending) (i : StorageRecordIdentity) (remote : Contact Phone Verified Avatar)
      → Fine (sync_contact store pending i remote)
  unfolding sync_contact
  sync_contact-Kept pending i remote =
      let id = ServiceId.aci_id remote.uuid in
      let flagged = contains_id pending.contact_pending id in
      bind store R same trans each (found (store.contact_by_id id)) _
        (looked store R same trans each (store.contact_by_id id) (each.contact_by_id id))
        (λ existing.
          bind store R same trans each (merged_contact store remote flagged existing) _
            (merged_contact-Kept remote flagged existing)
            (λ contact.
              bind store R same trans each (or_warn (store.save_contact contact)) _
                (warned store R same trans each (store.save_contact contact)
                  (each.save_contact contact))
                (λ u.
                  bind store R same trans each (or_warn (store.save_contact_storage_identity id i))
                    _
                    (warned store R same trans each (store.save_contact_storage_identity id i)
                      (each.save_contact_storage_identity id i))
                    (λ u. save_profile_key-Kept contact.uuid (contact_profile_key contact)))))

  merged_group-Kept :
      (stub : Group Role Access ProfileKey ℕ) (key : List ℕ) (remote : GroupV2Record)
      (flagged : Bool) (existing : Option (Group Role Access ProfileKey ℕ))
      → Fine (merged_group store stub key remote flagged existing)
  merged_group-Kept stub key remote flagged none = ended store R same trans each _
  merged_group-Kept stub key remote flagged (some existing) =
      bind store R same trans each
        (published_record store flagged (store.group_storage_identity key)) _
        (published_record-Kept flagged (store.group_storage_identity key)
          (each.group_storage_identity key))
        (λ stored. ended store R same trans each _)

  pub sync_group-Kept :
      (stub : Group Role Access ProfileKey ℕ) (pending : Pending) (i : StorageRecordIdentity)
      (key : List ℕ) (remote : GroupV2Record)
      → Fine (sync_group store stub pending i key remote)
  unfolding sync_group
  sync_group-Kept stub pending i key remote =
      let flagged = contains pending.group_pending key in
      if-Kept store R same trans each (length key == 32) _ (done tt)
        (bind store R same trans each (found (store.group key)) _
          (looked store R same trans each (store.group key) (each.group key))
          (λ existing.
            bind store R same trans each (merged_group store stub key remote flagged existing) _
              (merged_group-Kept stub key remote flagged existing)
              (λ g.
                bind store R same trans each (or_warn (store.save_group key g)) _
                  (warned store R same trans each (store.save_group key g) (each.save_group key g))
                  (λ u.
                    warned store R same trans each (store.save_group_storage_identity key i)
                      (each.save_group_storage_identity key i)))))
        (ended store R same trans each tt)

  save_merged-Kept : (o : Option ChatFolder) → Fine (save_merged store o)
  save_merged-Kept none = ended store R same trans each tt
  save_merged-Kept (some f) =
      warned store R same trans each (store.save_chat_folder f) (each.save_chat_folder f)

  pub sync_chat_folder-Kept :
      (pending : Pending) (i : StorageRecordIdentity) (remote : ChatFolder)
      → Fine (sync_chat_folder store pending i remote)
  unfolding sync_chat_folder
  sync_chat_folder-Kept pending i remote =
      bind store R same trans each (found (store.chat_folder remote.id)) _
        (looked store R same trans each (store.chat_folder remote.id) (each.chat_folder remote.id))
        (λ existing.
          let merged =
            merge_chat_folder_from_snapshot existing remote
              (contains pending.folder_pending remote.id) in
          bind store R same trans each (save_merged store merged) _ (save_merged-Kept merged) (λ u.
            warned store R same trans each (store.save_chat_folder_storage_identity remote.id i)
              (each.save_chat_folder_storage_identity remote.id i)))

  note_sticker_pack-Kept :
      (flagged : Bool) (id : List ℕ) (state : StickerPackRecordState)
      → Fine (note_sticker_pack store flagged id state)
  note_sticker_pack-Kept true id state = ended store R same trans each tt
  note_sticker_pack-Kept false id (StickerPackRecordState.removed t) =
      warned store R same trans each (store.remove_sticker_pack id) (each.remove_sticker_pack id)
  note_sticker_pack-Kept false id (StickerPackRecordState.installed key position) =
      warned store R same trans each (store.note_installed_sticker_pack id key (some position))
        (each.note_installed_sticker_pack id key (some position))

  pub sync_sticker_pack-Kept :
      (pending : Pending) (i : StorageRecordIdentity)
      (change : Option (List ℕ × StickerPackRecordState))
      → Fine (sync_sticker_pack store pending i change)
  unfolding sync_sticker_pack
  sync_sticker_pack-Kept pending i none = ended store R same trans each tt
  sync_sticker_pack-Kept pending i (some (id, state)) =
      let flagged = contains pending.sticker_pack_pending id in
      bind store R same trans each (note_sticker_pack store flagged id state) _
        (note_sticker_pack-Kept flagged id state)
        (λ u.
          warned store R same trans each (store.save_sticker_pack_storage_identity id i)
            (each.save_sticker_pack_storage_identity id i))

  unarchive_contact-Kept :
      (o : Option (Contact Phone Verified Avatar)) → Fine (unarchive_contact store o)
  unarchive_contact-Kept none = ended store R same trans each tt
  unarchive_contact-Kept (some contact) =
      let unarchived = record contact { archived = false } in
      if-Kept store R same trans each contact.archived (or_warn (store.save_contact unarchived))
        (done tt)
        (warned store R same trans each (store.save_contact unarchived)
          (each.save_contact unarchived))
        (ended store R same trans each tt)

  unarchive_group-Kept :
      (key : List ℕ) (o : Option (Group Role Access ProfileKey ℕ))
      → Fine (unarchive_group store key o)
  unarchive_group-Kept key none = ended store R same trans each tt
  unarchive_group-Kept key (some group) =
      let unarchived = record group { archived = false } in
      if-Kept store R same trans each group.archived (or_warn (store.save_group key unarchived))
        (done tt)
        (warned store R same trans each (store.save_group key unarchived)
          (each.save_group key unarchived))
        (ended store R same trans each tt)

  unarchive_thread-Kept :
      (pending : Pending) (t : Thread ServiceId) → Fine (unarchive_thread store pending t)
  unarchive_thread-Kept pending (Thread.contact id) =
      if-Kept store R same trans each (contains_id pending.contact_pending id) (done tt) _
        (ended store R same trans each tt)
        (bind store R same trans each (found (store.contact_by_id id)) _
          (looked store R same trans each (store.contact_by_id id) (each.contact_by_id id))
          unarchive_contact-Kept)
  unarchive_thread-Kept pending (Thread.group key) =
      if-Kept store R same trans each (contains pending.group_pending key) (done tt) _
        (ended store R same trans each tt)
        (bind store R same trans each (found (store.group key)) _
          (looked store R same trans each (store.group key) (each.group key))
          (unarchive_group-Kept key))

  unarchive_threads-Kept :
      (pending : Pending) (ts : List (Thread ServiceId)) → Fine (unarchive_threads store pending ts)
  unfolding unarchive_threads
  unarchive_threads-Kept pending [] = ended store R same trans each tt
  unarchive_threads-Kept pending (t ∷ ts) =
      bind store R same trans each (unarchive_thread store pending t) _
        (unarchive_thread-Kept pending t) (λ u. unarchive_threads-Kept pending ts)

  pub sync_account-Kept :
      (codec : PinCodec ServiceId) (pending : Pending) (i : StorageRecordIdentity)
      (remote : Result EditError AccountChatState)
      → Fine (sync_account store codec pending i remote)
  unfolding sync_account unarchive_pinned
  sync_account-Kept codec pending i (err e) = ended store R same trans each tt
  sync_account-Kept codec pending i (ok remote) =
      bind store R same trans each (or_default default_chat_state store.account_chat_state) _
        (record { keeps = each.account_chat_state })
        (λ local.
          bind store R same trans each (attempt store.account_storage_identity) _
            (record { keeps = each.account_storage_identity })
            (λ published.
              let merged =
                merge_account_record codec local (published_of published) remote
                  pending.account_pending in
              bind store R same trans each (or_warn (store.save_account_chat_state merged)) _
                (warned store R same trans each (store.save_account_chat_state merged)
                  (each.save_account_chat_state merged))
                (λ u.
                  bind store R same trans each (or_warn (store.save_account_storage_identity i)) _
                    (warned store R same trans each (store.save_account_storage_identity i)
                      (each.save_account_storage_identity i))
                    (λ u. unarchive_threads-Kept pending (pinned_threads codec merged)))))
