-- ===== src/Examples/Timers.antt =====
-- Expiry timers in a store of one contact and one group.
use presage.Prelude.{ℕ, Bool, [], some, ok, ◌≡◌, refl, sym, ap, arith}
use presage.Groups.{Group}
use presage.Account.{Thread}
use presage.Timers.{TimerStore, KeepsRows, expire_timer, update_expire_timer}
use presage.Timers.Update.{update_expire_timer-order}
use presage.Examples.Publish.{Row, row}
use presage.Examples.Groups.{pair}

abbrev Rows : Type 0
Rows = Row × Group Bool Bool ℕ ℕ

abbrev rows_store : TimerStore Rows (Unit {0}) (Unit {0}) ℕ ℕ ℕ Bool Bool ℕ
rows_store = record {
  contact_by_id = λ s id. ok (some s.0);
  save_contact = λ s contact. ok (contact, s.1);
  group = λ s key. ok (some s.1);
  save_group = λ s key g. ok (s.0, g);
}

rows_store-KeepsRows : KeepsRows rows_store
rows_store-KeepsRows = record {
  contact_saved = λ s id contact contact' {s'} found same e.
      let new : ◌≡◌ {A = Rows} (contact', s.1) s' = ground arith in
      ap (λ (t : Rows). ok (some t.0)) (sym new);
  group_saved = λ s key g {s'} e.
      let new : ◌≡◌ {A = Rows} (s.0, g) s' = ground arith in
      ap (λ (t : Rows). ok (some t.1)) (sym new);
}

abbrev stored : Rows
stored = (row, pair)

abbrev timed : ℕ → ℕ → Rows
timed timer version = (record row { expire_timer = timer; expire_timer_version = version }, pair)

update_1 : update_expire_timer rows_store stored (Thread.contact tt) 30 5 ≡ ok (timed 30 5)
unfolding update_expire_timer
update_1 = refl

update_12 : update_expire_timer rows_store (timed 30 5) (Thread.contact tt) 90 4 ≡ ok (timed 30 5)
unfolding update_expire_timer
update_12 = refl

update_2 : update_expire_timer rows_store stored (Thread.contact tt) 90 4 ≡ ok (timed 90 4)
unfolding update_expire_timer
update_2 = refl

update_21 : update_expire_timer rows_store (timed 90 4) (Thread.contact tt) 30 5 ≡ ok (timed 30 5)
unfolding update_expire_timer
update_21 = refl

update_group :
    update_expire_timer rows_store stored (Thread.group []) 30 5
    ≡ ok (row, record pair { disappearing_messages_timer = some 30 })
unfolding update_expire_timer
update_group = refl

update_expire_timer-order_example :
    expire_timer rows_store (timed 30 5) (Thread.contact tt)
    ≡ expire_timer rows_store (timed 30 5) (Thread.contact tt)
update_expire_timer-order_example =
    update_expire_timer-order rows_store rows_store-KeepsRows stored tt row 30 5 90 4 refl
      (λ e. ground arith) update_1 update_12 update_2 update_21
