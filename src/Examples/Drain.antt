-- ===== src/Examples/Drain.antt =====
-- The publish of one contact and of the account's state.
use presage.Prelude.{[], ◌∷◌, some}
use presage.Record.{plain_contact}
use presage.Examples.Manifest.{Mem, start}

abbrev flagged : Mem
flagged = record (start 1) {
  identity = some (record { storage_id = 1 ∷ []; storage_version = 3; record' = plain_contact });
}
