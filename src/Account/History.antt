-- ===== src/Account/History.antt =====
-- The history of an account, of src/types.rs, against the list of all that was ever added.
use mathlib.Core.List.{append_assoc, append-nil}
use hancoin.Prelude.{
  ℕ, suc, ◌-◌, ◌≤◌, ◌≡◌, refl, sym, ap, ◌∙◌, inl, inr, List, [], ◌∷◌, ◌++◌, arith, length,
  length-append, length-snoc, drop, leb, leb→le, Bool-cases,
}
use hancoin.Machine.{Clock}
use hancoin.Account.{Account, TxRef, max_tx_history, add_transaction}

-- The last `n` elements of a list.
abbrev pub keep_last {ℓ} : {A : Type ℓ} → ℕ → List A → List A
keep_last n xs = drop (length xs - n) xs

unfoldable pub add_all : Account → List (TxRef × Clock) → Account
add_all a [] = a
add_all a ((t, now) ∷ ts) = add_all (add_transaction a t now) ts

abbrev pub refs : List (TxRef × Clock) → List TxRef
refs [] = []
refs ((t, now) ∷ ts) = t ∷ refs ts

keep_last-short {ℓ} : {A : Type ℓ} (n : ℕ) (xs : List A) → length xs ≤ n → keep_last n xs ≡ xs
keep_last-short n xs h = let e : length xs - n ≡ 0 = omega arith in ap (λ k. drop k xs) e

keep_last-cons {ℓ} :
    {A : Type ℓ} (n : ℕ) (x : A) (xs : List A)
    → n ≤ length xs
    → keep_last n (x ∷ xs) ≡ keep_last n xs
keep_last-cons n x xs h =
    let e : suc (length xs) - n ≡ suc (length xs - n) = omega arith in ap (λ k. drop k (x ∷ xs)) e

length-add_transaction :
    (a : Account) (t : TxRef) (now : Clock)
    → length a.transactions ≤ max_tx_history
    → length (add_transaction a t now).transactions ≤ max_tx_history
unfolding add_transaction
length-add_transaction a t now h =
    ground (arith, length-snoc a.transactions t, length-snoc (drop 1 a.transactions) t)

-- What a reference pushes out is no longer among the last ones.
keep_last-add_transaction :
    (h : List TxRef) (a : Account) (t : TxRef) (now : Clock) (ts : List TxRef)
    → a.transactions ≡ h
    → length h ≤ max_tx_history
    → keep_last max_tx_history ((add_transaction a t now).transactions ++ ts)
      ≡ keep_last max_tx_history (h ++ t ∷ ts)
unfolding add_transaction
keep_last-add_transaction [] a t now ts e n = rw e
keep_last-add_transaction (x ∷ h) a t now ts e n =
    elim (Bool-cases (leb max_tx_history (length (x ∷ h)))) [
      | inl full ↦
          let long : max_tx_history ≤ length (h ++ t ∷ ts) =
            omega (arith, leb→le _ _ full, length-append h (t ∷ ts)) in
          rw (e, full, append_assoc) (sym (keep_last-cons max_tx_history x (h ++ t ∷ ts) long))
      | inr room ↦ rw (e, room) (simp append_assoc)
    ]

-- However many references come in, the history is the last 100 of all, in their order.
pub transactions-add_all :
    (a : Account) (ts : List (TxRef × Clock))
    → length a.transactions ≤ max_tx_history
    → ((add_all a ts).transactions ≡ keep_last max_tx_history (a.transactions ++ refs ts))
      × (length (add_all a ts).transactions ≤ max_tx_history)
unfolding add_all
transactions-add_all a [] h =
    (rw append-nil (sym (keep_last-short max_tx_history a.transactions h)), h)
transactions-add_all a ((t, now) ∷ ts) h =
    let rest =
      transactions-add_all (add_transaction a t now) ts (length-add_transaction a t now h) in
    (rest.0 ∙ keep_last-add_transaction a.transactions a t now (refs ts) refl h, rest.1)
