-- ===== src/Sync/Batches.antt =====
-- The batches of a sync, in `sync_storage_service` of presage/src/manager/storage.rs.
use presage.Prelude.{
  ℕ, zero, suc, ◌-◌, ◌≤◌, ◌<◌, ◌==◌, List, [], ◌∷◌, ◌++◌, length, map, retain, take, drop,
  take-append, take-append-drop, append_assoc, append-nil, ◌≡◌, ◌≢◌, refl, sym, ap, ◌∙◌, arith,
}
use presage.Wire.Scan.{All, All-append}
use presage.Manifest.{Identifier}
use presage.Manifest.Update.{ItemTypes}
use presage.Sync.{
  sort_identifier, sort_identifiers, sync_keys, no_keys, last_only, SyncKeys, chunks_from, chunks,
  batches,
}

abbrev pub concat : {A : Type 0} → List (List A) → List A
concat [] = []
concat (xs ∷ xss) = xs ++ concat xss

concat-append :
    {A : Type 0} (xss yss : List (List A)) → concat (xss ++ yss) ≡ concat xss ++ concat yss
concat-append [] yss = refl
concat-append (xs ∷ xss) yss =
    ap (λ zs. xs ++ zs) (concat-append xss yss) ∙ sym (append_assoc xs (concat xss) (concat yss))

-- A batch that the service accepts.
abbrev pub BatchSized : {A : Type 0} → ℕ → List A → Type 0
BatchSized size xs = (0 < length xs) × (length xs ≤ size)

length-take : {A : Type 0} (n : ℕ) (xs : List A) → length (take n xs) ≤ n
length-take zero xs = omega arith
length-take (suc n) [] = omega arith
length-take (suc n) (x ∷ xs) = omega (arith, length-take n xs)

length-drop : {A : Type 0} (n : ℕ) (xs : List A) → length (drop (suc n) xs) ≤ length xs - 1
length-drop n [] = omega arith
length-drop zero (x ∷ xs) = omega arith
length-drop (suc n) (x ∷ xs) = omega (arith, length-drop n xs)

chunks_from-concat :
    {A : Type 0} (fuel n : ℕ) (xs : List A)
    → length xs ≤ fuel
    → concat (chunks_from fuel (suc n) xs) ≡ xs
unfolding chunks_from
chunks_from-concat zero n [] h = refl
chunks_from-concat zero n (x ∷ xs) h = absurd (omega arith)
chunks_from-concat (suc fuel) n [] h = refl
chunks_from-concat (suc fuel) n (x ∷ xs) h =
    ap (λ zs. take (suc n) (x ∷ xs) ++ zs)
      (chunks_from-concat fuel n (drop (suc n) (x ∷ xs)) (omega (arith, length-drop n (x ∷ xs))))
    ∙ take-append-drop (suc n) (x ∷ xs)

chunks_from-BatchSized :
    {A : Type 0} (fuel n : ℕ) (xs : List A) → All (BatchSized (suc n)) (chunks_from fuel (suc n) xs)
unfolding chunks_from
chunks_from-BatchSized zero n xs = tt
chunks_from-BatchSized (suc fuel) n [] = tt
chunks_from-BatchSized (suc fuel) n (x ∷ xs) = (
  (omega arith, omega (arith, length-take n xs)),
  chunks_from-BatchSized fuel n (drop (suc n) (x ∷ xs)),
)

-- The raw identifiers of one kind, in the order of the manifest.
abbrev pub listed_as : ℕ → List Identifier → List (List ℕ)
listed_as item_type ids = map (λ id. id.raw) (retain (λ id. id.item_type == item_type) ids)

-- The numbers of the five kinds differ.
pub record Apart (types : ItemTypes) : Type 0 where
  pub group_apart : types.groupv2_type ≢ types.contact_type
  pub folder_apart :
      (types.chat_folder_type ≢ types.contact_type) × (types.chat_folder_type ≢ types.groupv2_type)
  pub sticker_apart :
      (types.sticker_pack_type ≢ types.contact_type)
      × (types.sticker_pack_type ≢ types.groupv2_type)
      × (types.sticker_pack_type ≢ types.chat_folder_type)
  pub account_apart :
      (types.account_type ≢ types.contact_type)
      × (types.account_type ≢ types.groupv2_type)
      × (types.account_type ≢ types.chat_folder_type)
      × (types.account_type ≢ types.sticker_pack_type)

-- The keys of each kind after some that were sorted before.
record Sorted (types : ItemTypes) (keys : SyncKeys) (ids : List Identifier) (out : SyncKeys)
    : Type 0 where
  contacts : out.contact_keys ≡ keys.contact_keys ++ listed_as types.contact_type ids
  groups : out.group_keys ≡ keys.group_keys ++ listed_as types.groupv2_type ids
  folders : out.folder_keys ≡ keys.folder_keys ++ listed_as types.chat_folder_type ids
  packs : out.sticker_pack_keys ≡ keys.sticker_pack_keys ++ listed_as types.sticker_pack_type ids
  accounts : out.account_keys ≡ keys.account_keys ++ listed_as types.account_type ids

listed-cons :
    (item_type : ℕ) (id : Identifier) (ids : List Identifier)
    → listed_as item_type (id ∷ ids) ≡ listed_as item_type (id ∷ []) ++ listed_as item_type ids
listed-cons item_type id ids = ground arith

sort_identifier-Sorted :
    (types : ItemTypes) (keys : SyncKeys) (id : Identifier)
    → Apart types
    → Sorted types keys (id ∷ []) (sort_identifier types keys id)
sort_identifier-Sorted types keys id apart = record {
  contacts = ground (arith, append-nil keys.contact_keys);
  groups = ground (arith, append-nil keys.group_keys, apart.group_apart);
  folders = ground (arith, append-nil keys.folder_keys, apart.folder_apart);
  packs = ground (arith, append-nil keys.sticker_pack_keys, apart.sticker_apart);
  accounts = ground (arith, append-nil keys.account_keys, apart.account_apart);
}

listed-step :
    (item_type : ℕ) (before after out : List (List ℕ)) (id : Identifier) (ids : List Identifier)
    → after ≡ before ++ listed_as item_type (id ∷ [])
    → out ≡ after ++ listed_as item_type ids
    → out ≡ before ++ listed_as item_type (id ∷ ids)
listed-step item_type before after out id ids e e' =
    e'
    ∙ ap (λ xs. xs ++ listed_as item_type ids) e
    ∙ append_assoc before (listed_as item_type (id ∷ [])) (listed_as item_type ids)
    ∙ ap (λ xs. before ++ xs) (sym (listed-cons item_type id ids))

sort_identifiers-Sorted :
    (types : ItemTypes) (keys : SyncKeys) (ids : List Identifier)
    → Apart types
    → Sorted types keys ids (sort_identifiers types keys ids)
unfolding sort_identifiers
sort_identifiers-Sorted types keys [] apart = record {
  contacts = sym (append-nil keys.contact_keys);
  groups = sym (append-nil keys.group_keys);
  folders = sym (append-nil keys.folder_keys);
  packs = sym (append-nil keys.sticker_pack_keys);
  accounts = sym (append-nil keys.account_keys);
}
sort_identifiers-Sorted types keys (id ∷ ids) apart =
    let first = sort_identifier-Sorted types keys id apart in
    let rest = sort_identifiers-Sorted types (sort_identifier types keys id) ids apart in
    record {
      contacts = listed-step types.contact_type _ _ _ id ids first.contacts rest.contacts;
      groups = listed-step types.groupv2_type _ _ _ id ids first.groups rest.groups;
      folders = listed-step types.chat_folder_type _ _ _ id ids first.folders rest.folders;
      packs = listed-step types.sticker_pack_type _ _ _ id ids first.packs rest.packs;
      accounts = listed-step types.account_type _ _ _ id ids first.accounts rest.accounts;
    }

chunks-concat : {A : Type 0} (xs : List A) → concat (chunks 2500 xs) ≡ xs
chunks-concat xs = chunks_from-concat (length xs) 2499 xs (omega arith)

batches-split :
    (xs ys xs' ys' : List (List ℕ))
    → xs ≡ xs'
    → ys ≡ ys'
    → (concat (chunks 2500 xs ++ chunks 2500 ys) ≡ xs' ++ ys')
      × All (BatchSized 2500) (chunks 2500 xs ++ chunks 2500 ys)
      × (concat (take (length (chunks 2500 xs')) (chunks 2500 xs ++ chunks 2500 ys)) ≡ xs')
batches-split xs ys xs' ys' ex ey =
    rw (← ex, ← ey)
      (
        rw (concat-append (chunks 2500 xs) (chunks 2500 ys), chunks-concat xs, chunks-concat ys)
            refl,
        All-append (BatchSized 2500) (chunks 2500 xs) (chunks 2500 ys)
            (chunks_from-BatchSized (length xs) 2499 xs)
            (chunks_from-BatchSized (length ys) 2499 ys),
        rw (take-append (chunks 2500 xs) (chunks 2500 ys)) (chunks-concat xs),
      )

subjects_are :
    {c g p c' g' p' : List (List ℕ)} → c ≡ c' → g ≡ g' → p ≡ p' → c ++ g ++ p ≡ c' ++ g' ++ p'
subjects_are ec eg ep = cc

trailing_are : {f a f' a' : List (List ℕ)} → f ≡ f' → a ≡ a' → f ++ last_only a ≡ f' ++ last_only a'
trailing_are ef ea = cc

-- When the numbers of the five kinds differ: the batches of a manifest hold the identifiers of its contacts, then of
-- its groups, its sticker packs and its chat folders, each once and in the manifest's order, and then its last
-- account record's; every batch has 1 to 2500 identifiers; and the first batches, as many as the contacts,
-- groups and sticker packs need, hold no folder and no account record.
pub batches-sync_keys :
    (types : ItemTypes) (ids : List Identifier)
    → Apart types
    → let subjects =
        listed_as types.contact_type ids
        ++ listed_as types.groupv2_type ids
        ++ listed_as types.sticker_pack_type ids in
      (concat (batches (sync_keys types ids))
        ≡ subjects
          ++ (listed_as types.chat_folder_type ids ++ last_only (listed_as types.account_type ids)))
      × All (BatchSized 2500) (batches (sync_keys types ids))
      × (concat (take (length (chunks 2500 subjects)) (batches (sync_keys types ids))) ≡ subjects)
unfolding batches sync_keys
batches-sync_keys types ids apart =
    let s = sort_identifiers-Sorted types no_keys ids apart in
    batches-split _ _ _ _ (subjects_are s.contacts s.groups s.packs)
      (trailing_are s.folders s.accounts)
