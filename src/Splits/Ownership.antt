-- ===== src/Splits/Ownership.antt =====
-- Ownership transfer (backend/src/services/splits/ownership-transfer.ts). The clock and the
-- generated id are arguments.
pub mod Transfers
use split_naira.Prelude.{
  ℕ, Text, text_eq, trim, to_upper_case, is_empty, Bool, true, false, ◌||◌, not, List, [], ◌∷◌,
  ◌++◌, Option, none, some, ltb, if◌then◌else◌, filter, length, Result, ok, err,
}
use split_naira.Prelude.Dict.{Dict, get, set}

pub record OwnershipTransferRecord : Type 0 where
  pub id : Text
  pub project_id : Text
  pub from_owner : Text
  pub to_owner : Text
  pub authorized_by : Text
  pub transferred_at : ℕ

pub record OwnershipAuditEntry : Type 0 where
  pub project_id : Text
  pub from_owner : Text
  pub to_owner : Text
  pub authorized_by : Text
  pub at : ℕ

pub record Ownership : Type 0 where
  pub owners : Dict Text
  pub transfers : List OwnershipTransferRecord
  pub audit : List OwnershipAuditEntry

pub data OwnershipError : Type 0 where
  project_owner_unknown forbidden_not_owner invalid_new_owner : OwnershipError
  new_owner_same_as_current : OwnershipError

unfoldable pub norm : Text → Text
norm addr = to_upper_case (trim addr)

unfoldable pub reset_ownership_transfer_for_tests : Ownership
reset_ownership_transfer_for_tests = record { owners = []; transfers = []; audit = [] }

unfoldable pub set_project_owner : Ownership → Text → Text → Ownership
set_project_owner o project_id owner = record o { owners = set project_id (norm owner) o.owners }

abbrev pub get_project_owner : Ownership → Text → Option Text
get_project_owner o project_id = get project_id o.owners

abbrev pub transfer_record : Text → Text → Text → Text → ℕ → OwnershipTransferRecord
transfer_record id project_id current new_owner at = record {
  id = id;
  project_id = project_id;
  from_owner = current;
  to_owner = new_owner;
  authorized_by = current;
  transferred_at = at;
}

abbrev pub audit_entry : Text → Text → Text → ℕ → OwnershipAuditEntry
audit_entry project_id current new_owner at = record {
  project_id = project_id;
  from_owner = current;
  to_owner = new_owner;
  authorized_by = current;
  at = at;
}

-- The part after the checks; the actor is the current owner there.
abbrev pub transferred : Ownership → Text → Text → Text → Text → ℕ → Ownership
transferred o id project_id current new_owner at = record {
  owners = set project_id new_owner o.owners;
  transfers = o.transfers ++ transfer_record id project_id current new_owner at ∷ [];
  audit = o.audit ++ audit_entry project_id current new_owner at ∷ [];
}

-- `if (!current)` takes an empty owner for a missing one.
pub transfer_from :
    Ownership
    → Text
    → Text
    → Option Text
    → Text
    → Text
    → ℕ
    → Ownership × Result OwnershipError OwnershipTransferRecord
transfer_from o id project_id none actor new_owner at = (o, err project_owner_unknown)
transfer_from o id project_id (some current) actor new_owner at =
    if is_empty current
    then (o, err project_owner_unknown)
    else if not (text_eq actor current)
    then (o, err forbidden_not_owner)
    else if is_empty new_owner || ltb (length new_owner) 4
    then (o, err invalid_new_owner)
    else if text_eq new_owner current
    then (o, err new_owner_same_as_current)
    else (
      transferred o id project_id current new_owner at,
      ok (transfer_record id project_id current new_owner at),
    )

unfoldable pub transfer_ownership :
    Ownership
    → Text
    → Text
    → Text
    → Text
    → ℕ
    → Ownership × Result OwnershipError OwnershipTransferRecord
unfolding transfer_from
transfer_ownership o id project_id actor new_owner at =
    transfer_from o id project_id (get project_id o.owners) (norm actor) (norm new_owner) at

abbrev pub is_owner : Option Text → Text → Bool
is_owner none wallet = false
is_owner (some current) wallet = if is_empty current then false else text_eq current wallet

unfoldable pub is_current_owner : Ownership → Text → Text → Bool
is_current_owner o project_id wallet = is_owner (get project_id o.owners) (norm wallet)

-- `if (!projectId)`: without a project the whole list.
unfoldable pub list_ownership_transfers : Ownership → Option Text → List OwnershipTransferRecord
list_ownership_transfers o none = o.transfers
list_ownership_transfers o (some id) =
    if is_empty id then o.transfers else filter (λ t. text_eq t.project_id id) o.transfers

unfoldable pub list_ownership_audit : Ownership → Option Text → List OwnershipAuditEntry
list_ownership_audit o none = o.audit
list_ownership_audit o (some id) =
    if is_empty id then o.audit else filter (λ e. text_eq e.project_id id) o.audit
