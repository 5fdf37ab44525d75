-- ===== src/Lib.antt =====
-- presage, a library for Signal clients. This development models what keeps the account's data right on
-- several devices: the edits of the encrypted storage service's records, the merges of what a sync reads, the state
-- machine that merges call events, and the changes of chats and groups.
--
-- How the parts interact. The storage service holds one encoded `StorageRecord` for each contact, group,
-- account, chat folder and sticker pack. A publish edits a few fields in the record's bytes and leaves all else
-- as it is (presage/src/storage_record.rs); which fields it edits is what the record and the stored row
-- disagree on, and the same comparison protects unpublished changes when a sync merges a record into the
-- row (presage/src/manager/storage.rs, with the rows of presage/src/model). Call events of all devices are merged
-- into one history entry per call (presage/src/model/calls.rs, through presage/src/store.rs).
--
-- Which file models which part:
--   Wire (Wire/Varint, Payload, Span, Scan, Edit, Encode): the first half of storage_record.rs, `read_varint` to
--     `encode_len_delimited`.
--   Record (Record/Payload, Update, Varint, Size): its second half, `record_payload` to
--     `set_varint_field_or_remove`, with the accessors of single fields.
--   Manifest (Manifest/Edit, Server, Keeps, Write, Append, Update, Counters, Attempts, Pending, Rows, Published):
--     the manifest of the storage service and the writes to it in manager/storage.rs, with
--     `StorageRecordKey` and `StorageRecordIdentity` of store.rs.
--   Sync (Sync/Batches, Merge, Folders, Run, Resume, Contacts, Marks, ArmMarks, FolderMarks, Flagged):
--     `sync_storage_service` and what it calls in manager/storage.rs, with `StorageSyncCursor` of store.rs.
--   Drain (Drain/Agreed, Folders): the `push_` functions of manager/storage.rs.
--   Publish (Publish/Apply, Merge, Records): `PendingPublish`, `pending_publish_intent` and
--     `merge_contact_from_snapshot` of manager/storage.rs, with `Contact` of
--     model/contacts.rs and its `ContactRecord`.
--   Account (Account/Entries, Pins, Publish): model/account.rs, the pinned conversations of storage_record.rs,
--     `AccountPendingPublish` and the account merges of manager/storage.rs.
--   Groups (Groups/Members, Pending, Publish): model/groups.rs, `GroupPendingPublish` and `merge_group_from_snapshot`.
--   Folders (Folders/Record, Merge, Manager, Stored, Unknown): model/chat_folders.rs, manager/chat_folders.rs,
--     `merge_chat_folder_from_snapshot`, and the unknown fields of storage_record.rs.
--   Stickers (Stickers/State): `StickerPackRecordState` of store.rs, `sticker_pack_change` of
--     manager/storage.rs and `set_sticker_pack_state` of storage_record.rs.
--   Changes (Changes/Built, Fetched, Rounds, Leave): `update_group`, `update_group_members`, `leave_group`,
--     `apply_group_change` and `upsert_group` of manager/registered.rs.
--   Chats (Chats/Pinned): the settings of a chat in manager/registered.rs.
--   Calls (Calls/Text, Merge, Direct, Group, Ingest): model/calls.rs and `ingest_call_event` of store.rs.
--   Timers (Timers/Update, Messages, Seen): `expire_timer` and `update_expire_timer` of store.rs, and
--     `restore_thread_timer`, `ensure_data_message_timestamp` and `upsert_contact_from_profile` of
--     manager/registered.rs.
--   Prelude: shared names, tests, results, lists and bit lemmas. Examples: runs and applications of the
--     properties to concrete inputs.
--
-- How state and integers are modelled. A byte is a number below 256, a message the list of its bytes, a
-- string a list of bytes, a UUID a number or its 16 bytes. `u64` arithmetic keeps its wrap-around where the code
-- relies on it; `usize` has 64 bits, so a slice is shorter than 2^64 bytes, which is a hypothesis where it is
-- needed. A `Result` is a value, `?` the bind of Prelude/Results, and a `&mut` argument comes back beside the
-- result. An `async fn` that changes more than one thing is a step of a world
-- (Prelude/Steps): it may fail, and the world it leaves counts also then. The calls of a manifest write leave time
-- for other devices, whose writes the laws of the server allow at every call. Loops are recursion on the list or
-- on fuel: a varint has ten rounds as in the source, `scan` takes one round for each byte of the message and every
-- span has a byte, and an encoder ten groups of seven bits, enough for a `u64`. The passes of `update_storage_record` and the attempts of `append_storage_record` are the source's own
-- bounds, six and three, and a change of a group is built again after three conflicts at most.
--
-- What is not modelled: network and database access, encryption and the protobuf codec of prost. Where the code
-- asks a store, prost or libsignal, the model takes the operations as a record, and what it relies on as
-- named laws: `KeepsCalls`, `KeepsFlag`, `EachCallKeeps`, `PinCodecLaws`, `ServiceIdLaws`, `KeepsFolders`, `KeepsRows`, `ServiceLaws`, `RowLaws`,
-- `KeepsCursor`, `KeepsContacts`, `ContactFormsLaws`, `KeepsChats`, `KeepsGroups`, `AppliesChanges`,
-- `CountsPatches`, `ReadsGroups`, `KeepsSeen`. The backup import is not modelled, and of the registered manager
-- only the settings of a chat, the changes of a group, the timer of a sent message and the contact of a received
-- profile key; its broadcast of the blocked list and its fetch of a member's credential, which are calls of the network,
-- are operations of the records that those models take.
pub mod Prelude
pub mod Wire
pub mod Record
pub mod Calls
pub mod Changes
pub mod Chats
pub mod Drain
pub mod Publish
pub mod Account
pub mod Folders
pub mod Groups
pub mod Manifest
pub mod Stickers
pub mod Sync
pub mod Timers
pub mod Examples
