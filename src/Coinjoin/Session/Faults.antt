-- ===== src/Coinjoin/Session/Faults.antt =====
-- Where a session of src/coinjoin.rs does less than its comments say.
use hancoin.Prelude.{
  ℕ, zero, suc, ◌+◌, ◌<◌, ◌≡◌, refl, ap, String, true, List, [], ◌∷◌, none, some, arith, length,
  replicate, All,
}
use hancoin.Machine.{Profile, u64_mod, Clock}
use hancoin.Coinjoin.Data.{
  collecting_signatures, broadcasting, completed, timed_out, TxSignature, CoinJoinSession,
}
use hancoin.Coinjoin.Session.{new, complete, check_timeout}
use hancoin.Coinjoin.Session.Invariant.{InRange}
use hancoin.Coinjoin.Session.Protocol.{joins, signs, run, calls, items}
use hancoin.Coinjoin.Session.Protocol.Collect.{
  collect_signatures, collect_participants, Fresh, length-added,
}
use hancoin.Coinjoin.Session.Protocol.Success.{length-items}

All-same : (n : ℕ) (x : TxSignature) (now : Clock) → All (λ g. g ≡ x) (items (replicate n (x, now)))
All-same zero x now = tt
All-same (suc n) x now = (refl, All-same n x now)

All-in_range :
    (m n : ℕ) (x : TxSignature) (now : Clock)
    → InRange m x
    → All (InRange m) (items (replicate n (x, now)))
All-in_range m zero x now h = tt
All-in_range m (suc n) x now h = (h, All-in_range m n x now h)

length-replicate {ℓ} : {A : Type ℓ} (n : ℕ) (a : A) → length (replicate n a) ≡ n
length-replicate zero a = refl
length-replicate (suc n) a = omega (arith, length-replicate n a)

-- One signature, sent once for each input, takes a session to broadcasting: every signature that it
-- then holds is for the same input, however many inputs there are.
pub one_signer_suffices :
    (s : CoinJoinSession) (x : TxSignature) (now : Clock) (n : ℕ)
    → s.status ≡ collecting_signatures
    → s.signatures ≡ []
    → length s.inputs ≡ suc n
    → InRange (length s.inputs) x
    → let t = run s (calls signs (replicate (suc n) (x, now))) in
      (t.status ≡ broadcasting)
      × (t.inputs ≡ s.inputs)
      × (length t.signatures ≡ length t.inputs)
      × All (λ g. g ≡ x) t.signatures
one_signer_suffices s x now n st e l h =
    let count : length (replicate n (x, now)) ≡ n =
      length-replicate {A = TxSignature × Clock} n (x, now) in
    rw
      (collect_signatures s x now (replicate n (x, now)) st
        (h, All-in_range (length s.inputs) n x now h) (omega (arith, ap length e, count)))
      (rw e (
        refl,
        refl,
        omega (arith, length-items (replicate n (x, now)), count),
        (refl, All-same n x now),
      ))

-- The bound on participants has no effect: however small it is, the session takes the participants
-- that the other bound asks for.
participants_exceed_max :
    (uuid : String) (most target fee timeout : ℕ) (start : Clock) (who : String × Clock)
    (others : List (String × Clock))
    → Fresh (who.0 ∷ items others) []
    → most < suc (length others)
    → let t =
        run
          (new uuid (suc (length others)) most target fee timeout start)
          (calls joins (who ∷ others)) in
      t.max_participants < length t.participants
unfolding new
participants_exceed_max uuid most target fee timeout start who others f h =
    rw
      (collect_participants (new uuid (suc (length others)) most target fee timeout start) who.0
        who.1 others refl f (omega arith))
      (omega (arith, length-added (items others) (who.0 ∷ []), length-items others))

-- A session that has completed times out all the same, and the transaction stays recorded in it.
complete-times_out :
    (profile : Profile) (s : CoinJoinSession) (txid : String) (done now : ℕ)
    → s.status ≡ broadcasting
    → done + s.timeout < now
    → now < u64_mod
    → let t = (complete s txid (some done)).0 in
      (t.status ≡ completed)
      × (check_timeout profile t (some now) ≡ some (record t { status = timed_out }, true))
      × (t.final_txid ≡ some txid)
unfolding complete check_timeout
complete-times_out profile s txid done now st h b = ground arith

-- If the clock is set back, a debug build panics in the test for a time-out; a release build finds
-- the session idle for an age and ends it, unless its time-out is nearly 2 ^ 64 seconds.
clock_set_back :
    (s : CoinJoinSession) (now : ℕ)
    → now < s.last_active
    → s.last_active < u64_mod
    → s.last_active + s.timeout < now + u64_mod
    → (check_timeout Profile.debug s (some now) ≡ none)
      × (check_timeout Profile.release s (some now) ≡ some (record s { status = timed_out }, true))
unfolding check_timeout
clock_set_back s now h b k = ground arith
