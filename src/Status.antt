-- ===== src/Status.antt =====
-- Enumerations of src/database/enums.rs and of src/wallet/objects.rs: the status of a transfer and
-- its classes, the type of a coloring, the schemas, the statuses that a refresh takes.
use rgb_lib.Prelude.{ℕ, Bool, List, [], ◌∷◌, Option, none, some, any, ◌==◌, ◌&&◌, bool_eq}

pub data AssetSchema : Type 0 where
  nia uda cfa ifa : AssetSchema

pub data ColoringType : Type 0 where
  receive issue input change : ColoringType

-- the discriminants of the enumeration, by which its values are compared
abbrev pub coloring_repr : ColoringType → ℕ
coloring_repr receive = 1
coloring_repr issue = 2
coloring_repr input = 3
coloring_repr change = 4

pub data TransferStatus : Type 0 where
  initiated : TransferStatus
  waiting_counterparty : TransferStatus
  waiting_safe_height : TransferStatus
  waiting_broadcast : TransferStatus
  waiting_confirmations : TransferStatus
  settled : TransferStatus
  failed : TransferStatus

abbrev pub status_repr : TransferStatus → ℕ
status_repr initiated = 5
status_repr waiting_counterparty = 1
status_repr waiting_safe_height = 6
status_repr waiting_broadcast = 7
status_repr waiting_confirmations = 2
status_repr settled = 3
status_repr failed = 4

abbrev pub status_eq : TransferStatus → TransferStatus → Bool
status_eq a b = status_repr a == status_repr b

abbrev pub contains_status : List TransferStatus → TransferStatus → Bool
contains_status l s = any (status_eq s) l

abbrev pub is_failed : TransferStatus → Bool
is_failed s = status_eq s failed

abbrev pub is_initiated : TransferStatus → Bool
is_initiated s = status_eq s initiated

abbrev pub is_pending : TransferStatus → Bool
is_pending = contains_status (
    initiated ∷ waiting_counterparty ∷ waiting_safe_height ∷ waiting_confirmations
    ∷ waiting_broadcast ∷ [])

abbrev pub is_waiting : TransferStatus → Bool
is_waiting =
    contains_status
      (waiting_counterparty ∷ waiting_safe_height ∷ waiting_confirmations ∷ waiting_broadcast ∷ [])

abbrev pub is_settled : TransferStatus → Bool
is_settled s = status_eq s settled

abbrev pub is_waiting_confirmations : TransferStatus → Bool
is_waiting_confirmations s = status_eq s waiting_confirmations

abbrev pub is_waiting_counterparty : TransferStatus → Bool
is_waiting_counterparty s = status_eq s waiting_counterparty

abbrev pub is_fallible : TransferStatus → Bool
is_fallible =
    contains_status
      (initiated ∷ waiting_counterparty ∷ waiting_safe_height ∷ waiting_broadcast ∷ [])

pub data RefreshTransferStatus : Type 0 where
  counterparty safe_height broadcast confirmations : RefreshTransferStatus

-- `RefreshTransferStatus::try_from`
abbrev pub refresh_status : TransferStatus → Option RefreshTransferStatus
refresh_status waiting_counterparty = some counterparty
refresh_status waiting_safe_height = some safe_height
refresh_status waiting_broadcast = some broadcast
refresh_status waiting_confirmations = some confirmations
refresh_status _ = none

pub record RefreshFilter : Type 0 where
  pub status : RefreshTransferStatus
  pub incoming : Bool

abbrev refresh_repr : RefreshTransferStatus → ℕ
refresh_repr counterparty = 0
refresh_repr safe_height = 1
refresh_repr broadcast = 2
refresh_repr confirmations = 3

abbrev pub filter_eq : RefreshFilter → RefreshFilter → Bool
filter_eq a b = (refresh_repr a.status == refresh_repr b.status) && bool_eq a.incoming b.incoming
