-- ===== src/Examples/Publish.antt =====
-- presage/src/manager/storage.rs on one contact.
use presage.Prelude.{ℕ, List, [], ◌∷◌, none, some, true, false, ok, ◌≡◌, refl, arith}
use presage.Record.{plain_contact, record_runs, contact_archived}
use presage.Publish.{
  Contact, PendingPublish, pending_none, diff, apply, merge_contact_from_snapshot,
}
use presage.Publish.Apply.{apply-diff}
use presage.Publish.Merge.{merged, merge_contact-merged}

abbrev pub Row : Type 0
Row = Contact ℕ ℕ ℕ

abbrev pub row : Row
row = record {
  uuid = 5;
  phone_number = some 4;
  name = 65 ∷ [];
  verified = 1;
  profile_key = 1 ∷ 2 ∷ [];
  expire_timer = 60;
  expire_timer_version = 2;
  inbox_position = 3;
  avatar = none;
  pni = none;
  username = none;
  blocked = true;
  whitelisted = true;
  archived = false;
  marked_unread = false;
  muted_until_timestamp = 300;
  hide_story = false;
  hidden = false;
  unregistered_at_timestamp = 0;
  pni_signature_verified = false;
  system_given_name = [];
  system_family_name = [];
  system_nickname = [];
  nickname_given_name = [];
  nickname_family_name = [];
  note = [];
}

abbrev pub snapshot : Row
snapshot = record row {
  name = [];
  blocked = false;
  muted_until_timestamp = 0;
  archived = true;
  expire_timer = 0;
}

abbrev pub changed : PendingPublish
changed = record { blocked = true; muted = true; archived = false }

pub diff-row : diff plain_contact row ≡ ok changed
unfolding diff record_runs contact_archived
diff-row = refl

apply-diff_example :
    (out : List ℕ) × (apply changed plain_contact row ≡ ok out) × (diff out row ≡ ok pending_none)
apply-diff_example = apply-diff plain_contact row changed (omega arith) (omega arith) diff-row

merge_contact-merged_example :
    (merge_contact_from_snapshot snapshot row changed).0 ≡ merged snapshot row changed
merge_contact-merged_example = merge_contact-merged snapshot row changed
