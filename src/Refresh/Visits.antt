-- ===== src/Refresh/Visits.antt =====
-- Runs that visit batch transfers one after the other, and the changes of a table that they may make.
pub mod Once
use rgb_lib.Prelude.{
  ℕ, String, ◌≡◌, refl, sym, subst, ap, ◌∙◌, ◌⊎◌, inl, inr, Bool, true, false, Option, none, some,
  List, [], ◌∷◌, map, any, filter, ◌==◌, ==_iff, if◌then◌else◌, arith, Bool-cases, All, All-filter,
}
use rgb_lib.Prelude.Int.{ℤ}
use rgb_lib.Prelude.Member.{All-both, All-imp}
use rgb_lib.Status.{TransferStatus}
use rgb_lib.Result.{Result, Error, ok, err, panic}
use rgb_lib.Database.Rows.{DbBatchTransfer}
use rgb_lib.Database.Updates.{BatchChange, change_batch, set_txid}
use rgb_lib.Action.{Action, World, ◌>>=◌, ◌>>◌, continue_with}
use rgb_lib.Refresh.Quiet.{Quiet, batches}
use rgb_lib.Refresh.Moves.{Change, change_of}

-- a change by `P` of the rows with the key `i`, or none
pub record Write (P : Change) (i : ℕ) (before after : List DbBatchTransfer) : Type 0 where
  pub now : ℤ
  pub txid : Option String
  pub status : TransferStatus
  pub allowed : P txid status
  pub changed : after ≡ map (change_batch now (change_of i txid status)) before

pub record Visits {S A : Type 0} (P : Change) (i : ℕ) (m : Action S A) : Type 0 where
  pub visited :
      (w : World S) → (batches ((m w).1) ≡ batches w) ⊎ Write P i (batches w) (batches ((m w).1))

-- a row before and after a change that `legal` allows
pub record Stepped (legal : DbBatchTransfer → Change) (x y : DbBatchTransfer) : Type 0 where
  pub now : ℤ
  pub txid : Option String
  pub status : TransferStatus
  pub allowed : legal x txid status
  pub changed : y ≡ record x { txid = set_txid txid x.txid; status = status; updated_at = now }

-- the rows after, each as it was or one step on
pub record Progress (legal : DbBatchTransfer → Change) (before after : List DbBatchTransfer)
    : Type 0 where
  pub step : DbBatchTransfer → DbBatchTransfer
  pub rows : after ≡ map step before
  pub legal_steps : All (λ x. (step x ≡ x) ⊎ Stepped legal x (step x)) before

abbrev pub has_key : ℕ → List DbBatchTransfer → Bool
has_key i = any (λ (b : DbBatchTransfer). b.idx == i)

-- no two rows have the same key
abbrev pub DistinctKeys : List DbBatchTransfer → Type 0
DistinctKeys [] = Unit
DistinctKeys (b ∷ l) = (has_key b.idx l ≡ false) × DistinctKeys l

has_key-filter :
    (i : ℕ) (p : DbBatchTransfer → Bool) (l : List DbBatchTransfer)
    → has_key i l ≡ false
    → has_key i (filter p l) ≡ false
has_key-filter i p [] h = refl
has_key-filter i p (b ∷ l) h = ground (arith, h, has_key-filter i p l)

pub DistinctKeys-filter :
    (p : DbBatchTransfer → Bool) (l : List DbBatchTransfer)
    → DistinctKeys l
    → DistinctKeys (filter p l)
DistinctKeys-filter p [] h = tt
DistinctKeys-filter p (b ∷ l) h = elim (Bool-cases (p b)) [
  | inl hit ↦ rw hit (has_key-filter b.idx p l h.0, DistinctKeys-filter p l h.1)
  | inr miss ↦ rw miss (DistinctKeys-filter p l h.1)
]

-- a key stands for one row
abbrev pub IsOnly : List DbBatchTransfer → DbBatchTransfer → Type 0
IsOnly l b = All (λ (x : DbBatchTransfer). x.idx ≡ b.idx → x ≡ b) l

absent-IsOnly :
    (b : DbBatchTransfer) (l : List DbBatchTransfer) → has_key b.idx l ≡ false → IsOnly l b
absent-IsOnly b [] h = tt
absent-IsOnly b (x ∷ l) h =
    ((λ e. absurd (grind (arith, h, e))), absent-IsOnly b l (ground (arith, h)))

differs_key :
    (b : DbBatchTransfer) (l : List DbBatchTransfer)
    → has_key b.idx l ≡ false
    → All (λ (x : DbBatchTransfer). (b.idx ≡ x.idx → b ≡ x)) l
differs_key b [] h = tt
differs_key b (x ∷ l) h = ((λ e. absurd (grind (arith, h, e))), differs_key b l (ground (arith, h)))

pub DistinctKeys-IsOnly : (l : List DbBatchTransfer) → DistinctKeys l → All (IsOnly l) l
DistinctKeys-IsOnly [] h = tt
DistinctKeys-IsOnly (b ∷ l) h = (
  ((λ e. refl), absent-IsOnly b l h.0),
  All-both {P = λ x. b.idx ≡ x.idx → b ≡ x} {Q = IsOnly l} {R = IsOnly (b ∷ l)} (λ x f o. (f, o)) l
      (differs_key b l h.0) (DistinctKeys-IsOnly l h.1),
)
