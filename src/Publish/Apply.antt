-- ===== src/Publish/Apply.antt =====
-- `PendingPublish::apply`: what a record reads after the edits that publish a contact.
use presage.Prelude.{
  ℕ, ◌+◌, ◌^◌, ◌<◌, ◌≤◌, List, Bool, true, false, not, differs, ◌==◌, if◌then◌else◌, length, ok,
  >>=-eq-ok, ◌≡◌, ◌≢◌, refl, ap, ◌∙◌, arith, subst,
}
use presage.Record.{
  record_varint_field, record_bool_field, set_bool_field, set_varint_field_or_remove,
  contact_blocked, set_contact_blocked, contact_muted_until, set_contact_muted_until,
  contact_archived, set_contact_archived,
}
use presage.Record.Size.{Roomy, set_varint-Edited}
use presage.Publish.{Contact, PendingPublish, pending_none, diff, apply}

-- A boolean field is the varint field that holds 1 or nothing.
abbrev pub bit : Bool → ℕ
bit b = if b then 1 else 0

pub set_bool-set_varint :
    (record' : List ℕ) (rf n : ℕ) (b : Bool)
    → set_bool_field record' rf n b ≡ set_varint_field_or_remove record' rf n (bit b)
unfolding set_bool_field set_varint_field_or_remove
set_bool-set_varint record' rf n true = refl
set_bool-set_varint record' rf n false = refl

pub bit_small : (b : Bool) → bit b < 2 ^ 64
bit_small b = ground arith

-- An edit that may be left out.
pub record Maybe (rf n v w : ℕ) (wanted : Bool) (record' out : List ℕ) : Type 0 where
  pub done : (if wanted then set_varint_field_or_remove record' rf n v else ok record') ≡ ok out
  pub grown : length out ≤ length record' + 40
  pub written : record_varint_field out rf n ≡ ok (if wanted then v else w)
  pub kept : (m : ℕ) → n ≢ m → record_varint_field out rf m ≡ record_varint_field record' rf m

pub set_varint-Maybe :
    (rf n v : ℕ) (wanted : Bool) (record' : List ℕ) {w : ℕ}
    → 0 < rf
    → rf < 2 ^ 32
    → 0 < n
    → n < 2 ^ 32
    → v < 2 ^ 64
    → Roomy 1 record'
    → record_varint_field record' rf n ≡ ok w
    → (out : List ℕ) × Maybe rf n v w wanted record' out
set_varint-Maybe rf n v true record' a b c d v_small roomy reads =
    let (out, e) = set_varint-Edited rf n v n record' a b c d v_small roomy reads in
    (out, record { done = e.edited; grown = e.grown; written = e.written; kept = e.kept })
set_varint-Maybe rf n v false record' a b c d v_small roomy reads =
    (record', record { done = refl; grown = omega arith; written = reads; kept = λ m ne. refl })

-- The three fields as a record has them.
pub record Reads (record' : List ℕ) (blocked muted archived : ℕ) : Type 0 where
  pub blocked_reads : record_varint_field record' 1 9 ≡ ok blocked
  pub muted_reads : record_varint_field record' 1 13 ≡ ok muted
  pub archived_reads : record_varint_field record' 1 11 ≡ ok archived

pub record_bool-reads :
    (record' : List ℕ) (rf n : ℕ) {b : Bool}
    → record_bool_field record' rf n ≡ ok b
    → (v : ℕ) × (record_varint_field record' rf n ≡ ok v) × (not (v == 0) ≡ b)
unfolding record_bool_field
record_bool-reads record' rf n h =
    let (v, reads, rest) = >>=-eq-ok (record_varint_field record' rf n) _ h in
    (v, reads, ground arith)

pub record_bool-ok :
    (record' : List ℕ) (rf n v : ℕ)
    → record_varint_field record' rf n ≡ ok v
    → record_bool_field record' rf n ≡ ok (not (v == 0))
unfolding record_bool_field
record_bool-ok record' rf n v h = rw h refl

pub settled_bit :
    (v : ℕ) (b : Bool)
    → differs (not ((if differs (not (v == 0)) b then bit b else v) == 0)) b ≡ false
settled_bit v true = ground arith
settled_bit v false = ground arith

pub settled_number : (m n : ℕ) → not ((if not (m == n) then n else m) == n) ≡ false
settled_number m n = ground arith

module _ {Phone Verified Avatar : Type 0} where
  diff-Reads :
      (record' : List ℕ) (local : Contact Phone Verified Avatar) {p : PendingPublish}
      → diff record' local ≡ ok p
      → (b : ℕ) × (m : ℕ) × (a : ℕ) × Reads record' b m a
        × (p ≡ record {
          blocked = differs (not (b == 0)) local.blocked;
          muted = not (m == local.muted_until_timestamp);
          archived = differs (not (a == 0)) local.archived;
        })
  unfolding diff contact_blocked contact_muted_until contact_archived
  diff-Reads record' local h =
      let (x, hx, h1) = >>=-eq-ok (contact_blocked record') _ h in
      let (m, hm, h2) = >>=-eq-ok (contact_muted_until record') _ h1 in
      let (y, hy, h3) = >>=-eq-ok (contact_archived record') _ h2 in
      let (b, rb, eb) = record_bool-reads record' 1 9 hx in
      let (a, ra, ea) = record_bool-reads record' 1 11 hy in
      (b, m, a, record { blocked_reads = rb; muted_reads = hm; archived_reads = ra }, cc)

  diff-ok :
      (record' : List ℕ) (local : Contact Phone Verified Avatar) (b m a : ℕ)
      → Reads record' b m a
      → diff record' local
        ≡ ok (record {
          blocked = differs (not (b == 0)) local.blocked;
          muted = not (m == local.muted_until_timestamp);
          archived = differs (not (a == 0)) local.archived;
        })
  unfolding diff contact_blocked contact_muted_until contact_archived
  diff-ok record' local b m a r =
      rw
        (
          record_bool-ok record' 1 9 b r.blocked_reads,
          r.muted_reads,
          record_bool-ok record' 1 11 a r.archived_reads,
        )
        refl

  apply-chain :
      (p : PendingPublish) (record' r1 r2 r3 : List ℕ) (local : Contact Phone Verified Avatar)
      → (if p.blocked
          then set_varint_field_or_remove record' 1 9 (bit local.blocked)
          else ok record')
        ≡ ok r1
      → (if p.muted then set_varint_field_or_remove r1 1 13 local.muted_until_timestamp else ok r1)
        ≡ ok r2
      → (if p.archived then set_varint_field_or_remove r2 1 11 (bit local.archived) else ok r2)
        ≡ ok r3
      → apply p record' local ≡ ok r3
  unfolding apply set_contact_blocked set_contact_muted_until set_contact_archived
  apply-chain p record' r1 r2 r3 local e1 e2 e3 =
      rw
        (
          set_bool-set_varint record' 1 9 local.blocked,
          e1,
          e2,
          set_bool-set_varint r2 1 11 local.archived,
        )
        e3

  apply-step :
      (p : PendingPublish) (record' : List ℕ) (local : Contact Phone Verified Avatar) (b m a : ℕ)
      → Reads record' b m a
      → Roomy 3 record'
      → local.muted_until_timestamp < 2 ^ 64
      → (out : List ℕ) × (apply p record' local ≡ ok out)
        × Reads out
            (if p.blocked then bit local.blocked else b)
            (if p.muted then local.muted_until_timestamp else m)
            (if p.archived then bit local.archived else a)
  apply-step p record' local b m a r roomy small =
      let (r1, e1) =
        set_varint-Maybe 1 9 (bit local.blocked) p.blocked record' (omega arith) (omega arith)
          (omega arith) (omega arith) (bit_small local.blocked) (omega arith) r.blocked_reads in
      let (r2, e2) =
        set_varint-Maybe 1 13 local.muted_until_timestamp p.muted r1 (omega arith) (omega arith)
          (omega arith) (omega arith) small (omega (arith, e1.grown))
          (e1.kept 13 (λ e. omega arith) ∙ r.muted_reads) in
      let (r3, e3) =
        set_varint-Maybe 1 11 (bit local.archived) p.archived r2 (omega arith) (omega arith)
          (omega arith) (omega arith) (bit_small local.archived) (omega (arith, e1.grown, e2.grown))
          (e2.kept 11 (λ e. omega arith) ∙ e1.kept 11 (λ e. omega arith) ∙ r.archived_reads) in
      (
        r3,
        apply-chain p record' r1 r2 r3 local e1.done e2.done e3.done,
        record {
          blocked_reads = e3.kept 9 (λ e. omega arith) ∙ e2.kept 9 (λ e. omega arith) ∙ e1.written;
          muted_reads = e3.kept 13 (λ e. omega arith) ∙ e2.written;
          archived_reads = e3.written;
        },
      )

  -- What the record reads after the publish `q`.
  abbrev Settled : List ℕ → Contact Phone Verified Avatar → ℕ → ℕ → ℕ → PendingPublish → Type 0
  Settled out local b m a q =
      Reads out (if q.blocked then bit local.blocked else b)
        (if q.muted then local.muted_until_timestamp else m)
        (if q.archived then bit local.archived else a)

  settled-none :
      (local : Contact Phone Verified Avatar) (b m a : ℕ)
      → ◌≡◌ {A = PendingPublish}
          (record {
            blocked =
                differs
                  (not
                    ((if differs (not (b == 0)) local.blocked then bit local.blocked else b) == 0))
                  local.blocked;
            muted = not (
                (if not (m == local.muted_until_timestamp) then local.muted_until_timestamp else m)
                == local.muted_until_timestamp);
            archived =
                differs
                  (not (
                    (if differs (not (a == 0)) local.archived then bit local.archived else a) == 0))
                  local.archived;
          })
          pending_none
  settled-none local b m a =
      rw
        (
          settled_bit b local.blocked,
          settled_number m local.muted_until_timestamp,
          settled_bit a local.archived,
        )
        refl

  -- When `diff` reads a contact's record, the record is at least 120 bytes shorter than 2^64, and the muting
  -- time is below 2^64: applying the diff succeeds, and the record it gives differs from the row in none of
  -- the publishable fields.
  pub apply-diff :
      (record' : List ℕ) (local : Contact Phone Verified Avatar) (p : PendingPublish)
      → Roomy 3 record'
      → local.muted_until_timestamp < 2 ^ 64
      → diff record' local ≡ ok p
      → (out : List ℕ) × (apply p record' local ≡ ok out) × (diff out local ≡ ok pending_none)
  apply-diff record' local p roomy small h =
      let (b, m, a, r, p_is) = diff-Reads record' local h in
      let (out, done, reads) = apply-step p record' local b m a r roomy small in
      (
        out,
        done,
        diff-ok out local _ _ _ (subst (Settled out local b m a) p_is reads)
            ∙ ap ok (settled-none local b m a),
      )
