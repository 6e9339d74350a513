-- ===== src/Wallet/Issue.antt =====
-- The amounts of an issuance: `get_total_issue_amount` and `get_total_inflation_amount` of
-- src/wallet/offline.rs.
use rgb_lib.Prelude.{
  ℕ, ◌+◌, ◌<◌, ◌≡◌, ◌↔◌, ◌⊎◌, inl, inr, refl, ap, ◌∙◌, Bool, true, false, not, ◌&&◌, List, [], ◌∷◌,
  All, is_empty, ◌==◌, if◌then◌else◌, checked_add, u64_mod, arith,
}
use rgb_lib.Result.{
  Error, Result, ok, err, no_issuance_amounts, invalid_amount_zero, too_high_issuance_amounts,
  too_high_inflation_amounts, ◌>>=◌, >>=-eq-ok, ok_or,
}

-- the `try_fold` of both functions, with the error for a sum that does not fit
unfoldable pub fold_amounts : Error → ℕ → List ℕ → Result ℕ
fold_amounts e acc [] = ok acc
fold_amounts e acc (x ∷ xs) =
    if x == 0
    then err invalid_amount_zero
    else ok_or (checked_add acc x) e >>= λ acc'. fold_amounts e acc' xs

unfoldable pub get_total_issue_amount : List ℕ → Bool → Result ℕ
get_total_issue_amount amounts allow_empty =
    if is_empty amounts && not allow_empty
    then err no_issuance_amounts
    else fold_amounts too_high_issuance_amounts 0 amounts

unfoldable pub get_total_inflation_amount : List ℕ → ℕ → Result ℕ
get_total_inflation_amount inflation_amounts issued_supply = do
  total_inflation ← fold_amounts too_high_inflation_amounts 0 inflation_amounts
  if is_empty inflation_amounts then ok 0 else do
    ok_or (checked_add issued_supply total_inflation) too_high_inflation_amounts >>= λ total.
        ok total_inflation

abbrev pub sum : List ℕ → ℕ
sum [] = 0
sum (x ∷ xs) = x + sum xs

abbrev pub AllPositive : List ℕ → Type 0
AllPositive = All (λ x. 0 < x)

fold_amounts-ok :
    (e : Error) (acc : ℕ) (xs : List ℕ) (n : ℕ)
    → fold_amounts e acc xs ≡ ok n
    → acc < u64_mod
    → AllPositive xs × (acc + sum xs ≡ n) × (n < u64_mod)
unfolding fold_amounts
fold_amounts-ok e acc [] n h lt = ground arith
fold_amounts-ok e acc (x ∷ xs) n h lt = ground (arith, fold_amounts-ok e (acc + x) xs n)

ok-fold_amounts :
    (e : Error) (acc : ℕ) (xs : List ℕ)
    → AllPositive xs
    → acc + sum xs < u64_mod
    → fold_amounts e acc xs ≡ ok (acc + sum xs)
unfolding fold_amounts
ok-fold_amounts e acc [] p lt = ground arith
ok-fold_amounts e acc (x ∷ xs) p lt = ground (arith, p.0, ok-fold_amounts e (acc + x) xs p.1)

-- An issue amount is returned exactly where there are amounts (or none are allowed), none of them is
-- zero and their sum fits in a u64; it is their sum.
pub get_total_issue_amount-ok :
    (amounts : List ℕ) (allow_empty : Bool) (n : ℕ)
    → (get_total_issue_amount amounts allow_empty ≡ ok n)
      ↔ ((is_empty amounts && not allow_empty) ≡ false)
        × AllPositive amounts
        × (sum amounts ≡ n)
        × (n < u64_mod)
unfolding get_total_issue_amount
get_total_issue_amount-ok amounts allow_empty n = (
  λ h. ground (arith, h, fold_amounts-ok too_high_issuance_amounts 0 amounts n),
  λ h. ground (arith, h, ok-fold_amounts too_high_issuance_amounts 0 amounts h.1),
)

inflation_returned :
    (amounts : List ℕ) (issued_supply n : ℕ)
    → get_total_inflation_amount amounts issued_supply ≡ ok n
    → AllPositive amounts
      × (sum amounts ≡ n)
      × ((is_empty amounts ≡ true) ⊎ (issued_supply + n < u64_mod))
unfolding get_total_inflation_amount
inflation_returned [] issued_supply n h =
    let (t, e, f) = >>=-eq-ok (fold_amounts too_high_inflation_amounts 0 []) _ h in
    (tt, ground (arith, f), inl refl)
inflation_returned (x ∷ xs) issued_supply n h =
    let (t, e, f) = >>=-eq-ok (fold_amounts too_high_inflation_amounts 0 (x ∷ xs)) _ h in
    let (p, s, l) = fold_amounts-ok too_high_inflation_amounts 0 (x ∷ xs) t e (omega arith) in
    (p, ground (arith, s, f), inr (ground (arith, f)))

return_inflation :
    (amounts : List ℕ) (issued_supply : ℕ)
    → AllPositive amounts
    → (is_empty amounts ≡ true) ⊎ (issued_supply + sum amounts < u64_mod)
    → get_total_inflation_amount amounts issued_supply ≡ ok (sum amounts)
unfolding get_total_inflation_amount
return_inflation [] issued_supply p h =
    rw (ok-fold_amounts too_high_inflation_amounts 0 [] tt (omega arith))
return_inflation (x ∷ xs) issued_supply p (inl h) = cc
return_inflation (x ∷ xs) issued_supply p (inr h) =
    rw (ok-fold_amounts too_high_inflation_amounts 0 (x ∷ xs) p (omega (arith, h))) (ground arith)

-- An inflation amount is returned exactly where none of the amounts is zero and either there are
-- none or their sum, added to the issued supply, fits in a u64; it is their sum.
pub get_total_inflation_amount-ok :
    (amounts : List ℕ) (issued_supply n : ℕ)
    → (get_total_inflation_amount amounts issued_supply ≡ ok n)
      ↔ AllPositive amounts
        × (sum amounts ≡ n)
        × ((is_empty amounts ≡ true) ⊎ (issued_supply + n < u64_mod))
get_total_inflation_amount-ok amounts issued_supply n = (
  inflation_returned amounts issued_supply n,
  λ (p, e, h). return_inflation amounts issued_supply p (rw e h) ∙ ap ok e,
)
