-- ===== src/Manifest/Edit.antt =====
-- The identifiers that an edit of the manifest deletes and inserts, in `write_manifest_edit` of
-- presage/src/manager/storage.rs.
use presage.Prelude.{
  ℕ, suc, ◌++◌, ◌+◌, ◌-◌, ◌==◌, List, [], ◌∷◌, ◌++◌, length, retain, any, Bool, true, false, not,
  ok, err, ◌≡◌, refl, sym, ap, ◌∙◌, arith, Bool-cases, inl, inr,
}
use presage.Wire.Scan.{All}
use presage.Account.{same_bytes}
use presage.Account.Pins.{same_bytes-eq}
use presage.Manifest.{Identifier, ManifestRecord, Error, drop_identifiers}

abbrev pub filed : List ℕ → Identifier → Bool
filed raw id = same_bytes id.raw raw

-- How often an identifier stands in the manifest.
abbrev pub occurrences : List ℕ → List Identifier → ℕ
occurrences raw ids = length (retain (filed raw) ids)

-- The identifiers without those that are listed.
abbrev pub listed : List (List ℕ) → Identifier → Bool
listed raws id = any (same_bytes id.raw) raws

abbrev pub kept_identifiers : List Identifier → List (List ℕ) → List Identifier
kept_identifiers ids raws = retain (λ id. not (listed raws id)) ids

abbrev pub fresh_identifiers : List (ℕ × List ℕ) → List (List ℕ) → List Identifier
fresh_identifiers [] raws = []
fresh_identifiers (insert ∷ inserts) [] = []
fresh_identifiers ((item_type, record') ∷ inserts) (raw ∷ raws) =
    record { raw = raw; item_type = item_type } ∷ fresh_identifiers inserts raws

-- The records that are written under the fresh identifiers.
abbrev pub fresh_records : List (ℕ × List ℕ) → List (List ℕ) → List (List ℕ × List ℕ)
fresh_records [] raws = []
fresh_records (insert ∷ inserts) [] = []
fresh_records ((item_type, record') ∷ inserts) (raw ∷ raws) =
    (raw, record') ∷ fresh_records inserts raws

-- The manifest that an edit by a device makes of the one that the server holds.
abbrev pub edited :
    ℕ → List (ℕ × List ℕ) → List (List ℕ) → List (List ℕ) → ManifestRecord → ManifestRecord
edited device_id inserts delete_ids new_ids m = record {
  version = suc m.version;
  source_device = device_id;
  identifiers = kept_identifiers m.identifiers delete_ids ++ fresh_identifiers inserts new_ids;
  record_ikm = m.record_ikm;
}

-- The manifest with one more record at its end.
abbrev pub with_record : ℕ → ℕ → List ℕ → ManifestRecord → ManifestRecord
with_record device_id item_type raw m = record {
  version = suc m.version;
  source_device = device_id;
  identifiers = m.identifiers ++ record { raw = raw; item_type = item_type } ∷ [];
  record_ikm = m.record_ikm;
}

abbrev pub Distinct : List (List ℕ) → Type 0
Distinct [] = Unit
Distinct (raw ∷ raws) = (any (same_bytes raw) raws ≡ false) × Distinct raws

-- Each of the raw identifiers is named once, and stands in the manifest exactly once.
abbrev pub OnceEach : List Identifier → List (List ℕ) → Type 0
OnceEach ids raws = Distinct raws × All (λ raw. occurrences raw ids ≡ 1) raws

retain-partition :
    {A : Type 0} (p : A → Bool) (xs : List A)
    → length (retain p xs) + length (retain (λ x. not (p x)) xs) ≡ length xs
retain-partition p [] = refl
retain-partition p (x ∷ xs) = ground (arith, retain-partition p xs)

retain-listed :
    (raw : List ℕ) (raws : List (List ℕ)) (ids : List Identifier)
    → kept_identifiers (retain (λ id. not (filed raw id)) ids) raws
      ≡ kept_identifiers ids (raw ∷ raws)
retain-listed raw raws [] = refl
retain-listed raw raws (id ∷ ids) = ground (arith, retain-listed raw raws ids)

kept_identifiers-nil : (ids : List Identifier) → kept_identifiers ids [] ≡ ids
kept_identifiers-nil [] = refl
kept_identifiers-nil (id ∷ ids) = rw (kept_identifiers-nil ids) refl

occurrences-dropped :
    (raw : List ℕ) (ids : List Identifier)
    → occurrences raw (retain (λ id. not (filed raw id)) ids) ≡ 0
occurrences-dropped raw [] = refl
occurrences-dropped raw (id ∷ ids) = ground (arith, occurrences-dropped raw ids)

filed-other :
    (raw other : List ℕ) (id : Identifier)
    → same_bytes raw other ≡ false
    → filed raw id ≡ true
    → filed other id ≡ false
filed-other raw other id differ here = rw (same_bytes-eq id.raw raw here) differ

occurrences-other :
    (raw other : List ℕ) (ids : List Identifier)
    → same_bytes raw other ≡ false
    → occurrences other (retain (λ id. not (filed raw id)) ids) ≡ occurrences other ids
occurrences-other raw other [] differ = refl
occurrences-other raw other (id ∷ ids) differ =
    ground (arith, filed-other raw other id differ, occurrences-other raw other ids differ)

-- A raw identifier that stands once in what is left after another is dropped is another one.
once-other :
    (raw other : List ℕ) (ids : List Identifier)
    → occurrences other (retain (λ id. not (filed raw id)) ids) ≡ 1
    → same_bytes raw other ≡ false
once-other raw other ids once = elim (Bool-cases (same_bytes raw other)) [
  | inl same ↦
      let e : raw ≡ other = same_bytes-eq raw other same in
      absurd (let gone = rw e at (occurrences-dropped raw ids) in ground arith)
  | inr differ ↦ differ
]

once-before :
    (raw : List ℕ) (raws : List (List ℕ)) (ids : List Identifier)
    → All (λ other. occurrences other (retain (λ id. not (filed raw id)) ids) ≡ 1) raws
    → (any (same_bytes raw) raws ≡ false) × All (λ other. occurrences other ids ≡ 1) raws
once-before raw [] ids once = (refl, tt)
once-before raw (other ∷ raws) ids (once, rest) =
    let differ = once-other raw other ids once in
    let (none_same, each) = once-before raw raws ids rest in
    (rw differ none_same, (sym (occurrences-other raw other ids differ) ∙ once, each))

once-after :
    (raw : List ℕ) (raws : List (List ℕ)) (ids : List Identifier)
    → any (same_bytes raw) raws ≡ false
    → All (λ other. occurrences other ids ≡ 1) raws
    → All (λ other. occurrences other (retain (λ id. not (filed raw id)) ids) ≡ 1) raws
once-after raw [] ids none_same each = tt
once-after raw (other ∷ raws) ids none_same (once, each) =
    let differ : same_bytes raw other ≡ false = ground arith in
    let rest : any (same_bytes raw) raws ≡ false = ground arith in
    (occurrences-other raw other ids differ ∙ once, once-after raw raws ids rest each)

module _ {S V X : Type 0} where
  -- The loop ends well exactly where each identifier to delete is named once and stands once, and then it
  -- leaves the others in their order.
  pub drop_identifiers-ok :
      (ids : List Identifier) (raws : List (List ℕ))
      → OnceEach ids raws
      → drop_identifiers {S = S} {V = V} {X = X} ids raws ≡ ok (kept_identifiers ids raws)
  unfolding drop_identifiers
  drop_identifiers-ok ids [] once = ap (λ x. ok x) (sym (kept_identifiers-nil ids))
  drop_identifiers-ok ids (raw ∷ raws) ((none_same, distinct), (once, each)) =
      let rest =
        drop_identifiers-ok (retain (λ id. not (filed raw id)) ids) raws
          (distinct, once-after raw raws ids none_same each) in
      let one : ((length ids - length (retain (λ id. not (filed raw id)) ids)) == 1) ≡ true =
        ground (arith, retain-partition (filed raw) ids) in
      rw (one, rest, retain-listed raw raws ids) refl

  pub drop_identifiers-once :
      (ids : List Identifier) (raws : List (List ℕ)) {out : List Identifier}
      → drop_identifiers {S = S} {V = V} {X = X} ids raws ≡ ok out
      → OnceEach ids raws
  unfolding drop_identifiers
  drop_identifiers-once ids [] h = (tt, tt)
  drop_identifiers-once ids (raw ∷ raws) {out} h =
      elim (Bool-cases ((length ids - length (retain (λ id. not (filed raw id)) ids)) == 1)) [
        | inl one ↦
            let rest = rw one at h in
            let (distinct, once) =
              drop_identifiers-once (retain (λ id. not (filed raw id)) ids) raws rest in
            let (none_same, each) = once-before raw raws ids once in
            ((none_same, distinct), (ground (arith, retain-partition (filed raw) ids), each))
        | inr other ↦ absurd (let bad = rw other at h in ground arith)
      ]

  pub drop_identifiers-length :
      (ids : List Identifier) (raws : List (List ℕ)) {out : List Identifier}
      → drop_identifiers {S = S} {V = V} {X = X} ids raws ≡ ok out
      → length out + length raws ≡ length ids
  unfolding drop_identifiers
  drop_identifiers-length ids [] {out} h = let e : ids ≡ out = ground arith in rw e (ground arith)
  drop_identifiers-length ids (raw ∷ raws) h =
      elim (Bool-cases ((length ids - length (retain (λ id. not (filed raw id)) ids)) == 1)) [
        | inl one ↦
            let rest =
              drop_identifiers-length (retain (λ id. not (filed raw id)) ids) raws (rw one at h) in
            ground arith
        | inr other ↦ absurd (let bad = rw other at h in ground arith)
      ]

  -- The only error of the loop.
  pub drop_identifiers-moved :
      (ids : List Identifier) (raws : List (List ℕ)) {e : Error S V X}
      → drop_identifiers ids raws ≡ err e
      → e ≡ Error.storage_record_moved
  unfolding drop_identifiers
  drop_identifiers-moved ids [] h = cc
  drop_identifiers-moved ids (raw ∷ raws) h =
      elim (Bool-cases ((length ids - length (retain (λ id. not (filed raw id)) ids)) == 1)) [
        | inl one ↦
            drop_identifiers-moved (retain (λ id. not (filed raw id)) ids) raws (rw one at h)
        | inr other ↦ let bad = rw other at h in ground arith
      ]
