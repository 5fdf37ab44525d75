-- ===== src/Examples/Records.antt =====
-- A contact and its own new record.
use presage.Prelude.{
  zero, suc, ◌+◌, ◌*◌, ◌/◌, ◌%◌, ◌^◌, ◌<◌, ◌++◌, length, length-append, ◌∙◌, arith, ℕ, List, [],
  ◌∷◌, Option, none, some, ok, ◌≡◌, refl,
}
use presage.Publish.Records.{
  ContactForms, ContactFormsLaws, contact_try_from, to_new_storage_record, carried,
  contact_try_from-to_new_storage_record,
}
use presage.Examples.Publish.{row}

-- The bytes of a UUID, the highest first, and a phone number of one byte.
abbrev bytes_of : ℕ → ℕ → List ℕ
bytes_of zero u = []
bytes_of (suc n) u = bytes_of n (u / 256) ++ u % 256 ∷ []

abbrev value_from : ℕ → List ℕ → ℕ
value_from v [] = v
value_from v (x ∷ xs) = value_from (v * 256 + x) xs

value_from-append :
    (v : ℕ) (xs : List ℕ) (y : ℕ) → value_from v (xs ++ y ∷ []) ≡ value_from v xs * 256 + y
value_from-append v [] y = refl
value_from-append v (x ∷ xs) y = value_from-append (v * 256 + x) xs y

value_from-bytes_of : (n u : ℕ) → u < 256 ^ n → value_from 0 (bytes_of n u) ≡ u
value_from-bytes_of zero u h = omega arith
value_from-bytes_of (suc n) u h =
    let power : 256 ^ suc n ≡ 256 ^ n * 256 = omega arith in
    let smaller : u / 256 < 256 ^ n = omega arith in
    let rest = value_from-bytes_of n (u / 256) smaller in
    value_from-append 0 (bytes_of n (u / 256)) (u % 256) ∙ rw rest (omega arith)

length-bytes_of : (n u : ℕ) → length (bytes_of n u) ≡ n
length-bytes_of zero u = refl
length-bytes_of (suc n) u =
    length-append (bytes_of n (u / 256)) (u % 256 ∷ [])
    ∙ rw (length-bytes_of n (u / 256)) (omega arith)

abbrev read_phone : List ℕ → Option ℕ
read_phone [] = none
read_phone (x ∷ xs) = some x

abbrev joined : List ℕ → Option (List ℕ) → List ℕ
joined given none = given
joined given (some family) = family

abbrev pub forms : ContactForms ℕ ℕ ℕ
forms = record {
  uuid_from_bytes = value_from 0;
  uuid_as_bytes = bytes_of 16;
  parse_uuid = λ s. none;
  try_into_e164 = read_phone;
  format_e164 = λ p. p ∷ [];
  profile_name = joined;
  unverified = 0;
}

forms-ContactFormsLaws : ContactFormsLaws forms
forms-ContactFormsLaws = record {
  uuid_length = λ uuid small. length-bytes_of 16 uuid;
  uuid_bytes = λ uuid small. value_from-bytes_of 16 uuid small;
  given_alone = λ given. refl;
}

contact_try_from-to_new_storage_record_example :
    contact_try_from forms (to_new_storage_record forms row) ≡ ok (carried forms row)
contact_try_from-to_new_storage_record_example =
    contact_try_from-to_new_storage_record forms forms-ContactFormsLaws row (omega arith)
      (λ p e. cc) refl (λ e. cc)
