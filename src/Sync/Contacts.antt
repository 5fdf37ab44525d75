-- ===== src/Sync/Contacts.antt =====
-- What a sync leaves of a contact that has an unpublished change, in the contact arm of `sync_storage_service` of
-- presage/src/manager/storage.rs.
use presage.Prelude.{ℕ, List, Option, none, some, true, ok, ◌≡◌, refl, sym, ap, ◌∙◌}
use presage.Prelude.Steps.{◌>>◌}
use presage.Publish.{Contact, PendingPublish, diff, pending_publish_intent}
use presage.Publish.Merge.{merged, merge_contact-merged}
use presage.Groups.{ServiceId}
use presage.Manifest.Update.{StorageRecordIdentity}
use presage.Sync.{SyncStore, or_warn}
use presage.Sync.Merge.{Pending, contains_id, contact_profile_key, sync_contact, save_profile_key}

pending_intent :
    {Phone Verified Avatar : Type 0} (old : StorageRecordIdentity)
    (existing : Contact Phone Verified Avatar) (p : PendingPublish)
    → diff old.record' existing ≡ ok p
    → pending_publish_intent (some old.record') existing true ≡ p
unfolding pending_publish_intent
pending_intent old existing p differ = rw differ refl

module _ {W E Handle Phone Verified Avatar Role Access ProfileKey C : Type 0}
    (store : SyncStore W E Handle Phone Verified Avatar Role Access ProfileKey C)
    (row_of : W → ServiceId → Option (Contact Phone Verified Avatar))
    (identity_of : W → ServiceId → Option StorageRecordIdentity) where
  -- Reading a row or an identity changes nothing, one whose save ends well is kept as saved, and a profile key is
  -- kept apart.
  pub record KeepsContacts : Type 0 where
    pub row_read : (id : ServiceId) (w : W) → (store.contact_by_id id w).1 ≡ w
    pub identity_read : (id : ServiceId) (w : W) → (store.contact_storage_identity id w).1 ≡ w
    pub row_saved :
        (contact : Contact Phone Verified Avatar) (w : W)
        → (store.save_contact contact w).0 ≡ ok tt
        → row_of (store.save_contact contact w).1 (ServiceId.aci_id contact.uuid) ≡ some contact
    pub identity_saved :
        (id : ServiceId) (identity : StorageRecordIdentity) (w : W)
        → (store.save_contact_storage_identity id identity w).0 ≡ ok tt
        → (identity_of (store.save_contact_storage_identity id identity w).1 id ≡ some identity)
          × (row_of (store.save_contact_storage_identity id identity w).1 id ≡ row_of w id)
    pub key_saved :
        (uuid : ℕ) (key : List ℕ) (w : W) (id : ServiceId)
        → (identity_of (store.upsert_profile_key uuid key w).1 id ≡ identity_of w id)
          × (row_of (store.upsert_profile_key uuid key w).1 id ≡ row_of w id)

  module _ (laws : KeepsContacts) where
    save_profile_key-keeps :
        (uuid : ℕ) (key : Option (List ℕ)) (w : W) (id : ServiceId)
        → (identity_of (save_profile_key store uuid key w).1 id ≡ identity_of w id)
          × (row_of (save_profile_key store uuid key w).1 id ≡ row_of w id)
    save_profile_key-keeps uuid none w id = (refl, refl)
    save_profile_key-keeps uuid (some key) w id = laws.key_saved uuid key w id

    saved_contact :
        (contact : Contact Phone Verified Avatar) (identity : StorageRecordIdentity) (uuid : ℕ)
        (w : W)
        → contact.uuid ≡ uuid
        → (store.save_contact contact w).0 ≡ ok tt
        → (store.save_contact_storage_identity
            (ServiceId.aci_id uuid)
            identity
            (store.save_contact contact w).1).0
          ≡ ok tt
        → let w' =
            ((or_warn (store.save_contact contact)
                >> (or_warn (store.save_contact_storage_identity (ServiceId.aci_id uuid) identity)
                    >> save_profile_key store contact.uuid (contact_profile_key contact)))
              w).1 in
          (row_of w' (ServiceId.aci_id uuid) ≡ some contact)
          × (identity_of w' (ServiceId.aci_id uuid) ≡ some identity)
    saved_contact contact identity uuid w same row_done identity_done =
        let id = ServiceId.aci_id uuid in
        let w1 = (store.save_contact contact w).1 in
        let w2 = (store.save_contact_storage_identity id identity w1).1 in
        let (identity_kept, row_kept) =
          save_profile_key-keeps contact.uuid (contact_profile_key contact) w2 id in
        let (identity_is, row_same) = laws.identity_saved id identity w1 identity_done in
        let row_is = laws.row_saved contact w row_done in
        (
          row_kept ∙ row_same ∙ ap (λ n. row_of w1 (ServiceId.aci_id n)) (sym same) ∙ row_is,
          identity_kept ∙ identity_is,
        )

    -- For a store whose reads change nothing and whose saves that end well keep what was saved: when a contact is read with a row and an identity, is among the pending ones, its row differs from the record
    -- last read or published in the fields `p`, and the saves of the merged row and of the new identity end well (the
    -- code only warns of one that fails): afterwards the row is one that keeps the row's values of those fields and
    -- takes the new record's of the others, and the identity is that of the new record.
    pub sync_contact-merged :
        (pending : Pending) (identity old : StorageRecordIdentity)
        (remote existing : Contact Phone Verified Avatar) (p : PendingPublish) (w : W)
        → contains_id pending.contact_pending (ServiceId.aci_id remote.uuid) ≡ true
        → (store.contact_by_id (ServiceId.aci_id remote.uuid) w).0 ≡ ok (some existing)
        → (store.contact_storage_identity (ServiceId.aci_id remote.uuid) w).0 ≡ ok (some old)
        → diff old.record' existing ≡ ok p
        → (store.save_contact (merged remote existing p) w).0 ≡ ok tt
        → (store.save_contact_storage_identity
            (ServiceId.aci_id remote.uuid)
            identity
            (store.save_contact (merged remote existing p) w).1).0
          ≡ ok tt
        → (row_of (sync_contact store pending identity remote w).1 (ServiceId.aci_id remote.uuid)
            ≡ some (merged remote existing p))
          × (identity_of
                (sync_contact store pending identity remote w).1
                (ServiceId.aci_id remote.uuid)
              ≡ some identity)
    unfolding sync_contact
    sync_contact-merged pending identity old remote existing p w flagged row stored differ row_done
          identity_done =
        let id = ServiceId.aci_id remote.uuid in
        rw
          (
            row,
            laws.row_read id w,
            flagged,
            stored,
            laws.identity_read id w,
            pending_intent old existing p differ,
            merge_contact-merged,
          )
          (saved_contact (merged remote existing p) identity remote.uuid w refl row_done
            identity_done)
