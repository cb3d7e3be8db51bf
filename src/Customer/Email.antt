-- ===== src/Customer/Email.antt =====
-- internal/customer/domain: the value objects CustomerID, Email and Status.
pub mod Address
use go_ddd.Prelude.{
  ℕ, suc, ◌-◌, ◌≡◌, refl, Bool, true, false, ◌||◌, not, Option, none, some, List, [], ◌∷◌, ◌++◌,
  leb, nat_beq, ◌==◌, text_eq, length, drop, if◌then◌else◌,
}
use go_ddd.Prelude.Text.{Text, codes, index_byte, count_byte, contains_byte}
use go_ddd.Prelude.Text.Trim.{trim_space}
use go_ddd.Prelude.Text.Trim.Lower.{CaseTables, to_lower}
use go_ddd.Prelude.Result.{Result, ok, err}
use go_ddd.Shared.{invalid}

pub record CustomerId : Type 0 where
  pub value : Text

unfoldable pub new_customer_id : Text → Result CustomerId
unfolding invalid
new_customer_id v =
    if v == []
    then err (invalid (codes "customer id must not be empty"))
    else ok (record { value = v })

unfoldable pub is_zero : CustomerId → Bool
is_zero id = id.value == []

unfoldable pub id_equals : CustomerId → CustomerId → Bool
id_equals id other = id.value == other.value

pub record Email : Type 0 where
  pub value : Text

-- The checks on the normalised text `v`, in the source's order.
unfoldable pub check_email : Text → Result Email
unfolding invalid
check_email v =
    if v == [] then err (invalid (codes "email must not be empty")) else elim (index_byte b'@' v) [
      | none ↦ err (invalid (codes "email is not a valid address"))
      | some at ↦
          if leb at 0 || nat_beq at (length v - 1)
          then err (invalid (codes "email is not a valid address"))
          else if not (nat_beq (count_byte b'@' v) 1)
          then err (invalid (codes "email is not a valid address"))
          else if not (contains_byte b'.' (drop (suc at) v))
          then err (invalid (codes "email domain is not valid"))
          else ok (record { value = v })
    ]

unfoldable pub new_email : CaseTables → Text → Result Email
unfolding check_email trim_space to_lower index_byte count_byte contains_byte
new_email tables raw = check_email (to_lower tables (trim_space raw))

unfoldable pub email_equals : Email → Email → Bool
email_equals e other = e.value == other.value

pub data Status : Type 0 where
  active deactivated : Status

unfoldable pub status_text : Status → Text
status_text active = codes "active"
status_text deactivated = codes "deactivated"

unfoldable pub parse_status : Text → Result Status
unfolding invalid
parse_status v =
    if v == codes "active"
    then ok active
    else if v == codes "deactivated"
    then ok deactivated
    else err (invalid (codes "unknown customer status: " ++ v))
