-- ===== src/Account/Cooldown.antt =====
-- The cooldown of the faucet, `Account::can_claim_faucet` of src/types.rs.
use hancoin.Prelude.{
  ℕ, ◌+◌, ◌-◌, ◌≤◌, ◌<◌, ◌≡◌, ◌⊎◌, inl, inr, none, some, arith, leb, leb→le, Bool-cases,
}
use hancoin.Machine.{Profile, u64_mod, sub_u64-some}
use hancoin.Account.{Account, claimable, too_frequent, can_claim_faucet, faucet_cooldown}

-- With a clock at or after the last claim, the answer is a claim exactly from a day after it on, in
-- either build. Before that the answer names a time to wait of at most a day, after which a claim is
-- granted and before which none is.
pub can_claim_faucet_exact :
    (profile : Profile) (a : Account) (now : ℕ)
    → a.last_claim ≤ now
    → now < u64_mod
    → ((a.last_claim + faucet_cooldown ≤ now)
        × (can_claim_faucet profile a (some now) ≡ some claimable))
      ⊎ ((wait : ℕ) × (can_claim_faucet profile a (some now) ≡ some (too_frequent wait))
          × (0 < wait)
          × (wait ≤ faucet_cooldown)
          × (now + wait ≡ a.last_claim + faucet_cooldown))
unfolding can_claim_faucet
can_claim_faucet_exact profile a now h b =
    elim (Bool-cases (leb (a.last_claim + faucet_cooldown) now)) [
      | inl over ↦ inl (leb→le _ _ over, ground (arith, sub_u64-some profile now a.last_claim))
      | inr early ↦ inr (
        a.last_claim + faucet_cooldown - now,
        ground (arith, sub_u64-some profile now a.last_claim),
        ground arith,
        ground arith,
        ground arith,
      )
    ]

-- After the time that the answer names, and not a second earlier, the same account may claim.
pub wait_time_suffices :
    (profile : Profile) (a : Account) (now wait later : ℕ)
    → a.last_claim ≤ now
    → now ≤ later
    → later < u64_mod
    → can_claim_faucet profile a (some now) ≡ some (too_frequent wait)
    → ((now + wait ≤ later) × (can_claim_faucet profile a (some later) ≡ some claimable))
      ⊎ ((later < now + wait)
          × (can_claim_faucet profile a (some later) ≡ some (too_frequent (now + wait - later))))
unfolding can_claim_faucet
wait_time_suffices profile a now wait later h k b e = elim (Bool-cases (leb (now + wait) later)) [
  | inl over ↦ inl (
    leb→le _ _ over,
    ground (arith, sub_u64-some profile now a.last_claim, sub_u64-some profile later a.last_claim),
  )
  | inr early ↦ inr (
    ground arith,
    ground (arith, sub_u64-some profile now a.last_claim, sub_u64-some profile later a.last_claim),
  )
]

-- If the clock is set back behind the last claim, a debug build panics and a release build lets the
-- account claim again at once, as long as the step back is not within a day of 2 ^ 64 seconds.
claim_after_set_back :
    (a : Account) (now : ℕ)
    → now < a.last_claim
    → a.last_claim + faucet_cooldown ≤ now + u64_mod
    → (can_claim_faucet Profile.debug a (some now) ≡ none)
      × (can_claim_faucet Profile.release a (some now) ≡ some claimable)
unfolding can_claim_faucet
claim_after_set_back a now h k = ground arith
