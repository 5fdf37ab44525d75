-- ===== src/Examples/Seen.antt =====
-- A contact that is stored with one profile key, and a message of it with another.
use presage.Prelude.{ℕ, [], ◌∷◌, some, ok, ◌≡◌, refl, ok_same}
use presage.Publish.{Contact}
use presage.Groups.{ServiceId}
use presage.Timers.Messages.{DataMessage, ProfileServices, upsert_contact_from_profile}
use presage.Timers.Seen.{KeepsSeen, Refreshed, upsert_contact_from_profile-Refreshed}
use presage.Examples.Publish.{row}
use presage.Examples.Records.{forms}

-- The one contact is all that is stored.
abbrev services : ProfileServices (Contact ℕ ℕ ℕ) ℕ ℕ ℕ ℕ
services = record {
  contact_by_id = λ id w. (ok (some w), w);
  profile_key = λ id w. (ok (some []), w);
  fetched_name = λ aci key w. (ok (some (66 ∷ [])), w);
  save_contact = λ c w. (ok tt, c);
  upsert_profile_key = λ aci key w. (ok tt, w);
}

services-KeepsSeen : KeepsSeen services (λ w id. some w)
services-KeepsSeen = record {
  row_read = λ id w h. (ok_same refl h, refl);
  row_saved = λ id old new w there same h. refl;
  key_read = λ id w. refl;
  name_fetched = λ id aci key w. refl;
  key_saved = λ id aci key w. refl;
}

abbrev message : DataMessage
message = record { timestamp = some 1; expire_timer = some 60; expire_timer_version = some 9 }

abbrev sender : ServiceId
sender = ServiceId.aci_id 7

upsert_contact_from_profile-ends :
    ((upsert_contact_from_profile services forms message sender (5 ∷ []) row).0 ≡ ok tt)
    × ((upsert_contact_from_profile services forms message sender (5 ∷ []) row).1.expire_timer ≡ 60)
unfolding upsert_contact_from_profile
upsert_contact_from_profile-ends = (refl, refl)

upsert_contact_from_profile-Refreshed_example :
    Refreshed services
      (λ w id. some w)
      row
      (upsert_contact_from_profile services forms message sender (5 ∷ []) row).1
      sender
upsert_contact_from_profile-Refreshed_example =
    upsert_contact_from_profile-Refreshed services forms (λ w id. some w) services-KeepsSeen message
      (5 ∷ []) sender row row refl upsert_contact_from_profile-ends.0
