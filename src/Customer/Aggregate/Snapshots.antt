-- ===== src/Customer/Aggregate/Snapshots.antt =====
-- What every Customer keeps, and the round trip through a snapshot.
use go_ddd.Prelude.{◌≤◌, ◌≡◌, refl, ◌≢◌, [], arith, text_eq, text_beq, text_beq_iff, length}
use go_ddd.Prelude.Text.{Text, codes}
use go_ddd.Prelude.Text.Trim.Lower.{CaseTables}
use go_ddd.Prelude.Result.{ok}
use go_ddd.Shared.{Time, fresh_root}
use go_ddd.Customer.Email.{
  CustomerId, new_customer_id, Email, new_email, Status, active, deactivated, status_text,
  parse_status,
}
use go_ddd.Customer.Aggregate.{
  Customer, Snapshot, new_customer, change_email, deactivate, to_snapshot, from_snapshot,
}

module _ (tables : CaseTables) where
  -- An address that `NewEmail` has made.
  abbrev pub IsNormal : Email → Type 0
  IsNormal e = new_email tables e.value ≡ ok e

  pub record IsWellFormed (c : Customer) : Type 0 where
    pub identified : c.id.value ≢ []
    pub named : c.name ≢ []
    pub short_name : length c.name ≤ 200
    pub normal : IsNormal c.email

  pub new_customer-IsWellFormed :
      (id : CustomerId) (name : Text) (email : Email) (now : Time) (c : Customer)
      → IsNormal email
      → new_customer id name email now ≡ ok c
      → IsWellFormed c
  unfolding new_customer
  new_customer-IsWellFormed id name email now c n h = record {
    identified = ground (arith, text_beq_iff id.value []);
    named = ground (arith, text_beq_iff name []);
    short_name = ground arith;
    normal = ground (arith, n);
  }

  pub change_email-IsWellFormed :
      (c : Customer) (new : Email) (now : Time) (c' : Customer)
      → IsWellFormed c
      → IsNormal new
      → change_email c new now ≡ ok c'
      → IsWellFormed c'
  unfolding change_email
  change_email-IsWellFormed c new now c' w n h = ground (arith, n, w.normal)

  pub deactivate-IsWellFormed :
      (c : Customer) (reason : Text) (now : Time)
      → IsWellFormed c
      → IsWellFormed (deactivate c reason now)
  unfolding deactivate
  deactivate-IsWellFormed c reason now w = ground (arith, w.normal)

  parse_status-status_text : (s : Status) → parse_status (status_text s) ≡ ok s
  unfolding parse_status status_text text_beq
  parse_status-status_text active = refl
  parse_status-status_text deactivated = refl

  parse_status_sound : (v : Text) (s : Status) → parse_status v ≡ ok s → status_text s ≡ v
  unfolding parse_status status_text
  parse_status_sound v s h =
      ground (arith, text_beq_iff v (codes "active"), text_beq_iff v (codes "deactivated"))

  -- A well-formed aggregate is read back from its snapshot as it was, with no event buffered.
  pub from_snapshot-to_snapshot :
      (c : Customer)
      → IsWellFormed c
      → from_snapshot tables (to_snapshot c) ≡ ok (record c { root = fresh_root })
  unfolding from_snapshot to_snapshot new_customer_id
  from_snapshot-to_snapshot c w =
      rw (w.normal, parse_status-status_text c.status)
        (ground (arith, text_beq_iff c.id.value [], w.identified))

  pub to_snapshot-from_snapshot :
      (s : Snapshot) (c : Customer)
      → new_email tables s.email ≡ ok (record { value = s.email })
      → from_snapshot tables s ≡ ok c
      → to_snapshot c ≡ s
  unfolding from_snapshot to_snapshot new_customer_id
  to_snapshot-from_snapshot s c n h = ground (arith, n, parse_status_sound s.status c.status)

  pub from_snapshot-kept :
      (s : Snapshot) (c : Customer)
      → from_snapshot tables s ≡ ok c
      → (c.root ≡ fresh_root)
        × (c.id.value ≡ s.id)
        × (c.name ≡ s.name)
        × (c.created_at ≡ s.created_at)
        × (status_text c.status ≡ s.status)
  unfolding from_snapshot new_customer_id
  from_snapshot-kept s c h = ground (arith, parse_status_sound s.status c.status)
