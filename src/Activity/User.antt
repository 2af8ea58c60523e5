-- ===== src/Activity/User.antt =====
-- backend/src/api/user-activity.ts: the depositors' own actions as rows.
use sorosense.Base.{ℕ, String, Bool, Option, none, some, List, map, if◌then◌else◌}
use sorosense.Sort.{sort_by}
use sorosense.Seam.{Currency, currency_text, Address, Amount}
use Prim.Native.String.{◌++◌}

pub data UserActionKind : Type 0 where
  deposit withdraw sign_mandate approve_exit auto_compound : UserActionKind

-- What an action carries besides its depositor, sequence number and time.
pub data UserAction : Type 0 where
  deposited withdrew : Currency → Amount → UserAction
  mandated : UserAction
  approved_exit : Currency → UserAction
  toggled : Bool → UserAction

pub record UserActionEvent : Type 0 where
  pub action : UserAction
  pub depositor : Address
  pub seq : ℕ
  pub ts : Option ℕ

-- `actor` is always 'you'.
pub record UserActivityEntry : Type 0 where
  pub depositor : Address
  pub currency : Option Currency
  pub kind : UserActionKind
  pub detail : String
  pub seq : ℕ
  pub ts : Option ℕ

abbrev pub kind_of : UserAction → UserActionKind
kind_of (deposited c amount) = deposit
kind_of (withdrew c amount) = withdraw
kind_of mandated = sign_mandate
kind_of (approved_exit c) = approve_exit
kind_of (toggled enabled) = auto_compound

abbrev pub user_currency : UserAction → Option Currency
user_currency (deposited c amount) = some c
user_currency (withdrew c amount) = some c
user_currency mandated = none
user_currency (approved_exit c) = some c
user_currency (toggled enabled) = none

unfoldable pub detail_for : UserAction → String
detail_for (deposited c amount) = "Deposited to " ++ (currency_text c ++ " bucket")
detail_for (withdrew c amount) = "Withdrew from " ++ (currency_text c ++ " bucket")
detail_for mandated = "Signed auto-optimize mandate"
detail_for (approved_exit c) = "Approved a safe exit for " ++ currency_text c
detail_for (toggled enabled) = "Turned auto-reinvest " ++ (if enabled then "on" else "off")

abbrev pub user_row : UserActionEvent → UserActivityEntry
user_row ev = record {
  depositor = ev.depositor;
  currency = user_currency ev.action;
  kind = kind_of ev.action;
  detail = detail_for ev.action;
  seq = ev.seq;
  ts = ev.ts;
}

unfoldable pub derive_user_activity : List UserActionEvent → List UserActivityEntry
derive_user_activity events = map user_row (sort_by (λ ev. ev.seq) events)
