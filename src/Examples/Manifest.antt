-- ===== src/Examples/Manifest.antt =====
-- A storage service of one manifest, to which a rival device writes a given number of times first, and a store of
-- one record.
use presage.Prelude.{
  leb, ℕ, zero, suc, ◌==◌, List, [], ◌∷◌, ◌++◌, Option, none, some, Bool, true, false, Result, ok,
  err, if◌then◌else◌, length, ok_same, ==_iff, ◌≡◌, inl, inr, refl, arith,
}
use presage.Prelude.Steps.{Step, done}
use presage.Wire.{EditError}
use presage.Groups.{ServiceId}
use presage.Manifest.{
  ManifestRecord, ServiceError, Error, StorageWorld, append_storage_record, write_manifest_edit,
}
use presage.Manifest.Server.{Later, Later-refl, Accepted, Applied, ServiceLaws}
use presage.Manifest.Edit.{OnceEach, edited, with_record}
use presage.Manifest.Write.{write_manifest_edit-Applied, write_manifest_edit-moved}
use presage.Manifest.Append.{append_storage_record-Applied}
use presage.Manifest.Update.{
  StorageRecordKey, ItemTypes, StorageRecordIdentity, IdentityStore, update_storage_record,
  manifest_runs, set_needs_storage_sync, storage_identity, save_storage_identity,
}
use presage.Manifest.Counters.{Within, Counters}
use presage.Manifest.Attempts.{update_storage_record-Within}
use presage.Manifest.Pending.{KeepsFlag}
use presage.Account.{same_bytes}
use presage.Account.Pins.{same_bytes_refl}
use presage.Manifest.Rows.{Rows, HoldsOne, RowLaws, Published}

pub record Mem : Type 0 where
  pub server : ManifestRecord
  pub items : List (List ℕ × List ℕ)
  pub rivals : ℕ
  pub local_version : ℕ
  pub identity : Option StorageRecordIdentity
  pub flag : Bool
  pub next_id : ℕ
  pub writes : ℕ
  pub syncs : ℕ

abbrev pub Failure : Type 0
Failure = Error (Unit {0}) (Unit {0}) EditError

abbrev bumped : ManifestRecord → ManifestRecord
bumped m = record m { version = suc m.version }

-- The server takes the next version, unless the rival comes first.
abbrev take_write :
    ℕ
    → Bool
    → ManifestRecord
    → List (List ℕ × List ℕ)
    → Mem
    → Result (ServiceError (Unit {0})) (Unit {0}) × Mem
take_write (suc rivals) next m inserts w = (
  err ServiceError.conflict,
  record w { server = bumped w.server; rivals = rivals; writes = suc w.writes },
)
take_write zero true m inserts w =
    (ok tt, record w { server = m; items = inserts ++ w.items; writes = suc w.writes })
take_write zero false m inserts w = (err ServiceError.conflict, record w { writes = suc w.writes })

abbrev pub world : StorageWorld Mem (Unit {0}) (Unit {0}) EditError (Unit {0}) (Unit {0})
world = record {
  device_id = 2;
  master_key = done (some tt);
  new_service = λ key. done tt;
  manifest = λ h w. (ok w.server, w);
  write_items =
      λ h m inserts deletes w. take_write w.rivals (m.version == suc w.server.version) m inserts w;
  fill_bytes = λ w. (w.next_id ∷ [], record w { next_id = suc w.next_id });
  sleep = λ n w. w;
  fetch_storage_manifest_version = λ w. (ok w.local_version, w);
  store_storage_manifest_version = λ n w. (ok tt, record w { local_version = n });
  notify_storage_manifest_written = λ w. w;
}

abbrev set_flag : Bool → Step Mem Failure (Unit {0})
set_flag b w = (ok tt, record w { flag = b })

-- The store keeps records of up to 1000 bytes.
abbrev pub short : Option StorageRecordIdentity → Option StorageRecordIdentity
short none = none
short (some i) = if leb (length i.record') 1000 then some i else none

abbrev read_identity : Step Mem Failure (Option StorageRecordIdentity)
read_identity w = (ok (short w.identity), w)

abbrev save_short : Bool → StorageRecordIdentity → Step Mem Failure (Unit {0})
save_short true i w = (ok tt, record w { identity = some i })
save_short false i w = (err (Error.store_error tt), w)

abbrev save_identity : StorageRecordIdentity → Step Mem Failure (Unit {0})
save_identity i = save_short (leb (length i.record') 1000) i

abbrev pub store : IdentityStore Mem Failure ServiceId
store = record {
  set_contact_needs_storage_sync = λ id. set_flag;
  set_group_needs_storage_sync = λ id. set_flag;
  set_chat_folder_needs_storage_sync = λ id. set_flag;
  set_sticker_pack_needs_storage_sync = λ id. set_flag;
  set_account_needs_storage_sync = set_flag;
  contact_storage_identity = λ id. read_identity;
  group_storage_identity = λ id. read_identity;
  chat_folder_storage_identity = λ id. read_identity;
  sticker_pack_storage_identity = λ id. read_identity;
  account_storage_identity = read_identity;
  save_contact_storage_identity = λ id. save_identity;
  save_group_storage_identity = λ id. save_identity;
  save_chat_folder_storage_identity = λ id. save_identity;
  save_sticker_pack_storage_identity = λ id. save_identity;
  save_account_storage_identity = save_identity;
}

abbrev pub catch_up : Step Mem Failure (Unit {0})
catch_up w = (ok tt, record w { local_version = w.server.version; syncs = suc w.syncs })

abbrev pub types : ItemTypes
types = record {
  contact_type = 1;
  groupv2_type = 3;
  chat_folder_type = 8;
  sticker_pack_type = 6;
  account_type = 4;
}

abbrev pub key : StorageRecordKey ServiceId
key = StorageRecordKey.contact (ServiceId.aci_id 5)

abbrev pub edit : List ℕ → Result EditError (Option (List ℕ))
edit bytes = if length bytes == 1 then ok (some (0 ∷ bytes)) else ok none

abbrev held_1 : ManifestRecord
held_1 = record {
  version = 5;
  source_device = 1;
  identifiers =
      record { raw = 1 ∷ []; item_type = 1 } ∷ record { raw = 2 ∷ []; item_type = 99 } ∷ [];
  record_ikm = 7 ∷ [];
}

-- The device is one version behind, and the rival writes so many times.
abbrev pub start : ℕ → Mem
start rivals = record {
  server = held_1;
  items = [];
  rivals = rivals;
  local_version = 4;
  identity = some (record { storage_id = 1 ∷ []; storage_version = 3; record' = 9 ∷ [] });
  flag = false;
  next_id = 40;
  writes = 0;
  syncs = 0;
}

abbrev run : Mem → Result Failure (Unit {0}) × Mem
run = update_storage_record world store types catch_up key edit

run_twice :
    ((run (start 1)).0 ≡ ok tt)
    × ((run (start 1)).1.server.version ≡ 7)
    × ((run (start 1)).1.writes ≡ 2)
    × ((run (start 1)).1.syncs ≡ 2)
    × ((run (start 1)).1.flag ≡ false)
unfolding manifest_runs
run_twice = (refl, refl, refl, refl, refl)

abbrev pub held : Mem → ManifestRecord
held w = w.server

take_write-Later :
    (rivals : ℕ) (next : Bool) (m : ManifestRecord) (inserts : List (List ℕ × List ℕ)) (w : Mem)
    → (next ≡ true → m.version ≡ suc w.server.version)
    → Later held w (take_write rivals next m inserts w).1
take_write-Later (suc rivals) next m inserts w h = inr (omega arith)
take_write-Later zero true m inserts w h = inr (let e = h refl in omega arith)
take_write-Later zero false m inserts w h = inl refl

take_write-Accepted :
    (rivals : ℕ) (next : Bool) (m : ManifestRecord) (inserts : List (List ℕ × List ℕ)) (w : Mem)
    → (next ≡ true → m.version ≡ suc w.server.version)
    → (take_write rivals next m inserts w).0 ≡ ok tt
    → Accepted held m w (take_write rivals next m inserts w).1
take_write-Accepted (suc rivals) next m inserts w h taken = cc
take_write-Accepted zero true m inserts w h taken = record {
  before = w;
  after = record w { server = m; items = inserts ++ w.items; writes = suc w.writes };
  until = Later-refl held w;
  step = h refl;
  taken = refl;
  since = inl refl;
}
take_write-Accepted zero false m inserts w h taken = cc

pub world-ServiceLaws : ServiceLaws world held
world-ServiceLaws = record {
  master_key_later = Later-refl held;
  new_service_later = λ k. Later-refl held;
  manifest_later = λ h. Later-refl held;
  manifest_read = λ h w e. record { moment = w; was = ok_same refl e; then' = Later-refl held w };
  write_later = λ h m inserts deletes w.
      take_write-Later w.rivals (m.version == suc w.server.version) m inserts w ((==_iff _ _).0);
  write_taken = λ h m inserts deletes w.
      take_write-Accepted w.rivals (m.version == suc w.server.version) m inserts w ((==_iff _ _).0);
  fill_bytes_later = Later-refl held;
  sleep_later = λ n. Later-refl held;
  fetch_version_later = Later-refl held;
  store_version_later = λ n. Later-refl held;
  notify_later = Later-refl held;
}

save_short-kept :
    (b : Bool) (i : StorageRecordIdentity) (w : Mem)
    → b ≡ leb (length i.record') 1000
    → (save_short b i w).0 ≡ ok tt
    → (short (save_short b i w).1.identity ≡ some i)
      × ((save_short b i w).1.local_version ≡ w.local_version)
save_short-kept true i w e h = (rw (← e) refl, refl)
save_short-kept false i w e h = cc

save_short-Later :
    (b : Bool) (i : StorageRecordIdentity) (w : Mem) → Later held w (save_short b i w).1
save_short-Later true i w = inl refl
save_short-Later false i w = inl refl

save_short-flag :
    (b : Bool) (i : StorageRecordIdentity) (w : Mem)
    → w.flag ≡ true
    → (save_short b i w).1.flag ≡ true
save_short-flag true i w p = p
save_short-flag false i w p = p

save_short-counted :
    (b : Bool) (i : StorageRecordIdentity) (w : Mem)
    → Within (λ (w : Mem). w.writes) (λ (w : Mem). w.syncs) 0 0 w (save_short b i w).1
save_short-counted true i w = omega arith
save_short-counted false i w = omega arith

abbrev pub found_item : List ℕ → List (List ℕ × List ℕ) → Option (List ℕ)
found_item id [] = none
found_item id ((raw, bytes) ∷ items) = if same_bytes raw id then some bytes else found_item id items

abbrev pub mem_rows : Rows world store held catch_up key
mem_rows = record {
  record_at = λ w id. found_item id w.items;
  version_of = λ w. w.local_version;
  identity_of = λ w. short w.identity;
  flag_of = λ w. w.flag;
}

first_found :
    (inserts : List (List ℕ × List ℕ)) (w : Mem)
    → HoldsOne world store held catch_up key mem_rows inserts
        (record w { items = inserts ++ w.items })
first_found [] w = tt
first_found ((raw, bytes) ∷ []) w = rw (same_bytes_refl raw) refl
first_found (x ∷ y ∷ rest) w = tt

take_write-HoldsOne :
    (rivals : ℕ) (next : Bool) (m : ManifestRecord) (inserts : List (List ℕ × List ℕ)) (w : Mem)
    → (next ≡ true → m.version ≡ suc w.server.version)
    → (take_write rivals next m inserts w).0 ≡ ok tt
    → (a : Accepted held m w (take_write rivals next m inserts w).1) × HoldsOne world store held
        catch_up key mem_rows inserts a.after
take_write-HoldsOne (suc rivals) next m inserts w h taken = cc
take_write-HoldsOne zero false m inserts w h taken = cc
take_write-HoldsOne zero true m inserts w h taken = (
  record {
    before = w;
    after = record w { server = m; items = inserts ++ w.items; writes = suc w.writes };
    until = Later-refl held w;
    step = h refl;
    taken = refl;
    since = inl refl;
  },
  first_found inserts (record w { server = m; writes = suc w.writes }),
)

pub mem_rows-RowLaws : RowLaws world store held catch_up key mem_rows
unfolding set_needs_storage_sync storage_identity save_storage_identity
mem_rows-RowLaws = record {
  record_written = λ h m inserts deletes w.
      take_write-HoldsOne w.rivals (m.version == suc w.server.version) m inserts w ((==_iff _ _).0);
  identity_read = λ w e. ok_same refl e;
  version_stored = λ n w e. refl;
  identity_saved =
      λ identity w e. save_short-kept (leb (length identity.record') 1000) identity w refl e;
  flag_set = λ flag w e. (refl, refl, refl);
  notify_leaves = λ w. (refl, refl, refl);
  identity_later = Later-refl held;
  save_later = λ identity w. save_short-Later (leb (length identity.record') 1000) identity w;
  flag_later = λ flag. Later-refl held;
  sync_later = Later-refl held;
}

take_write-counted :
    (rivals : ℕ) (next : Bool) (m : ManifestRecord) (inserts : List (List ℕ × List ℕ)) (w : Mem)
    → Within
        (λ (w : Mem). w.writes)
        (λ (w : Mem). w.syncs)
        1
        0
        w
        (take_write rivals next m inserts w).1
take_write-counted (suc rivals) next m inserts w = omega arith
take_write-counted zero true m inserts w = omega arith
take_write-counted zero false m inserts w = omega arith

flag_counted :
    (key : StorageRecordKey ServiceId) (flag : Bool) (w : Mem)
    → Within
        (λ (w : Mem). w.writes)
        (λ (w : Mem). w.syncs)
        0
        0
        w
        (set_needs_storage_sync store key flag w).1
unfolding set_needs_storage_sync
flag_counted (StorageRecordKey.contact id) flag w = omega arith
flag_counted (StorageRecordKey.group_v2 k) flag w = omega arith
flag_counted (StorageRecordKey.chat_folder k) flag w = omega arith
flag_counted (StorageRecordKey.sticker_pack k) flag w = omega arith
flag_counted StorageRecordKey.account flag w = omega arith

identity_counted :
    (key : StorageRecordKey ServiceId) (w : Mem)
    → Within (λ (w : Mem). w.writes) (λ (w : Mem). w.syncs) 0 0 w (storage_identity store key w).1
unfolding storage_identity
identity_counted (StorageRecordKey.contact id) w = omega arith
identity_counted (StorageRecordKey.group_v2 k) w = omega arith
identity_counted (StorageRecordKey.chat_folder k) w = omega arith
identity_counted (StorageRecordKey.sticker_pack k) w = omega arith
identity_counted StorageRecordKey.account w = omega arith

save_counted :
    (key : StorageRecordKey ServiceId) (identity : StorageRecordIdentity) (w : Mem)
    → Within
        (λ (w : Mem). w.writes)
        (λ (w : Mem). w.syncs)
        0
        0
        w
        (save_storage_identity store key identity w).1
unfolding save_storage_identity
save_counted (StorageRecordKey.contact id) identity w =
    save_short-counted (leb (length identity.record') 1000) identity w
save_counted (StorageRecordKey.group_v2 k) identity w =
    save_short-counted (leb (length identity.record') 1000) identity w
save_counted (StorageRecordKey.chat_folder k) identity w =
    save_short-counted (leb (length identity.record') 1000) identity w
save_counted (StorageRecordKey.sticker_pack k) identity w =
    save_short-counted (leb (length identity.record') 1000) identity w
save_counted StorageRecordKey.account identity w =
    save_short-counted (leb (length identity.record') 1000) identity w

world-Counters : Counters world store catch_up (λ w. w.writes) (λ w. w.syncs)
world-Counters = record {
  master_key_free = λ w. omega arith;
  new_service_free = λ k w. omega arith;
  manifest_free = λ h w. omega arith;
  write_once = λ h m inserts deletes w. take_write-counted w.rivals _ m inserts w;
  fill_bytes_free = λ w. omega arith;
  sleep_free = λ n w. omega arith;
  fetch_version_free = λ w. omega arith;
  store_version_free = λ n w. omega arith;
  notify_free = λ w. omega arith;
  flag_free = flag_counted;
  identity_free = identity_counted;
  save_free = save_counted;
  sync_once = λ w. omega arith;
}

take_write-flag :
    (rivals : ℕ) (next : Bool) (m : ManifestRecord) (inserts : List (List ℕ × List ℕ)) (w : Mem)
    → w.flag ≡ true
    → (take_write rivals next m inserts w).1.flag ≡ true
take_write-flag (suc rivals) next m inserts w p = p
take_write-flag zero true m inserts w p = p
take_write-flag zero false m inserts w p = p

pub world-KeepsFlag : KeepsFlag world store key (λ w. w.flag ≡ true)
unfolding set_needs_storage_sync storage_identity save_storage_identity
world-KeepsFlag = record {
  raised = λ w e. refl;
  not_lowered = λ w p e failed. cc;
  master_key_keeps = λ w p. p;
  new_service_keeps = λ k w p. p;
  manifest_keeps = λ h w p. p;
  write_keeps = λ h m inserts deletes w p. take_write-flag w.rivals _ m inserts w p;
  fill_bytes_keeps = λ w p. p;
  sleep_keeps = λ n w p. p;
  fetch_version_keeps = λ w p. p;
  store_version_keeps = λ n w p. p;
  identity_keeps = λ w p. p;
  save_keeps = λ identity w p. save_short-flag (leb (length identity.record') 1000) identity w p;
}

abbrev fresh_id : List ℕ
fresh_id = 40 ∷ []

write_manifest_edit-Applied_example :
    OnceEach held_1.identifiers ((1 ∷ []) ∷ [])
    × Applied held
        (edited 2 ((1, 9 ∷ []) ∷ []) ((1 ∷ []) ∷ []) ((40 ∷ []) ∷ []))
        (start 0)
        (write_manifest_edit world tt held_1 ((1, 9 ∷ []) ∷ []) ((1 ∷ []) ∷ []) (start 0)).1
    × (length (fresh_id ∷ []) ≡ 1)
unfolding manifest_runs
write_manifest_edit-Applied_example =
    write_manifest_edit-Applied world held world-ServiceLaws tt held_1 ((1, 9 ∷ []) ∷ [])
      ((1 ∷ []) ∷ []) ((40 ∷ []) ∷ []) (start 0)
      (record { moment = start 0; was = refl; then' = Later-refl held (start 0) }) refl

write_manifest_edit-moved_example :
    write_manifest_edit world tt held_1 [] ((3 ∷ []) ∷ []) (start 0)
    ≡ (err Error.storage_record_moved, start 0)
write_manifest_edit-moved_example =
    write_manifest_edit-moved world tt held_1 [] ((3 ∷ []) ∷ []) (start 0)
      (λ once. let e = once.1.0 in omega arith)

append_storage_record-Applied_example :
    Applied held
      (with_record 2 8 (41 ∷ []))
      (start 1)
      (append_storage_record world 8 (5 ∷ []) (start 1)).1
unfolding manifest_runs
append_storage_record-Applied_example =
    append_storage_record-Applied world held world-ServiceLaws 8 (5 ∷ []) (41 ∷ []) (start 1) refl

update_storage_record-Within_example :
    Within (λ (w : Mem). w.writes) (λ (w : Mem). w.syncs) 3 6 (start 9) (run (start 9)).1
update_storage_record-Within_example =
    update_storage_record-Within world store catch_up (λ w. w.writes) (λ w. w.syncs) world-Counters
      types key edit (start 9)
