-- ===== src/Tor/Ports.antt =====
-- Hosts and ports in the addresses that `TorConnector::connect` of src/tor.rs takes.
use hancoin.Prelude.{
  ℕ, zero, suc, ◌+◌, ◌*◌, ◌-◌, ◌/◌, ◌%◌, ◌^◌, ◌<◌, ◌≡◌, refl, true, false, [], ◌∷◌, ◌++◌, Option,
  none, some, arith, leb, ltb, ◌&&◌, if◌then◌else◌, Bool-cases, inl, inr, ◌∙◌, ap,
}
use hancoin.Text.{Text, rsplit_once, is_empty, Lacks}
use hancoin.Tor.{TorConnector, read_digits, drop_plus, parse_u16, dial, connect_to, connect}

-- A number in decimal digits, at most n + 1 of them.
unfoldable pub decimal : ℕ → ℕ → Text
decimal zero n = (48 + n % 10) ∷ []
decimal (suc fuel) n =
    if ltb n 10 then (48 + n) ∷ [] else decimal fuel (n / 10) ++ (48 + n % 10) ∷ []

-- 10 ^ (fuel + 1).
abbrev room : ℕ → ℕ
room zero = 10
room (suc fuel) = 10 * room fuel

-- A port as text has five digits at most.
abbrev pub show_port : ℕ → Text
show_port p = decimal 4 p

read_digits-append :
    (acc : ℕ) (s : Text) (n d : ℕ)
    → d < 10
    → read_digits acc s ≡ some n
    → read_digits acc (s ++ (48 + d) ∷ []) ≡ some (n * 10 + d)
unfolding read_digits
read_digits-append acc [] n d h e = ground arith
read_digits-append acc (c ∷ s) n d h e =
    ground (arith, read_digits-append (acc * 10 + (c - 48)) s n d h)

read_digits-decimal : (fuel n : ℕ) → n < room fuel → read_digits 0 (decimal fuel n) ≡ some n
unfolding read_digits decimal
read_digits-decimal zero n h = ground arith
read_digits-decimal (suc fuel) n h = elim (Bool-cases (ltb n 10)) [
  | inl small ↦ rw (small, decimal) (ground arith)
  | inr large ↦
      rw (large, decimal)
        (read_digits-append 0 (decimal fuel (n / 10)) (n / 10) (n % 10) (omega arith)
            (read_digits-decimal fuel (n / 10) (omega arith))
          ∙ ap some (omega arith))
]

-- Digits only.
Digits : Text → Type 0
Digits [] = Unit
Digits (c ∷ s) = (leb 48 c && leb c 57 ≡ true) × Digits s

Digits-append : (s : Text) (d : ℕ) → d < 10 → Digits s → Digits (s ++ (48 + d) ∷ [])
unfolding Digits
Digits-append [] d h k = (ground arith, tt)
Digits-append (c ∷ s) d h k = (k.0, Digits-append s d h k.1)

decimal-Digits : (fuel n : ℕ) → Digits (decimal fuel n)
unfolding Digits decimal
decimal-Digits zero n = (ground arith, tt)
decimal-Digits (suc fuel) n = elim (Bool-cases (ltb n 10)) [
  | inl small ↦ rw (small, decimal) (ground arith, tt)
  | inr large ↦
      rw (large, decimal)
        (Digits-append (decimal fuel (n / 10)) (n % 10) (omega arith)
          (decimal-Digits fuel (n / 10)))
]

Digits-Lacks : (s : Text) → Digits s → Lacks b':' s
unfolding Digits
Digits-Lacks [] h = tt
Digits-Lacks (c ∷ s) h = (ground (arith, h.0), Digits-Lacks s h.1)

drop_plus-Digits : (s : Text) → Digits s → drop_plus s ≡ s
unfolding Digits
drop_plus-Digits [] h = refl
drop_plus-Digits (c ∷ s) h = ground (arith, h.0)

is_empty-append : (s : Text) (c : ℕ) → is_empty (s ++ c ∷ []) ≡ false
is_empty-append [] c = refl
is_empty-append (d ∷ s) c = refl

is_empty-decimal : (fuel n : ℕ) → is_empty (decimal fuel n) ≡ false
unfolding decimal
is_empty-decimal zero n = refl
is_empty-decimal (suc fuel) n = elim (Bool-cases (ltb n 10)) [
  | inl small ↦ rw (small, decimal) refl
  | inr large ↦ rw (large, decimal) (is_empty-append (decimal fuel (n / 10)) (48 + n % 10))
]

parse_u16-show_port : (p : ℕ) → p < 2 ^ 16 → parse_u16 (show_port p) ≡ some p
unfolding parse_u16
parse_u16-show_port p h =
    rw
      (
        drop_plus-Digits (show_port p) (decimal-Digits 4 p),
        is_empty-decimal 4 p,
        read_digits-decimal 4 p (omega arith),
      )
      (ground arith)

pub rsplit_once-Lacks : (s : Text) → Lacks b':' s → rsplit_once b':' s ≡ none
unfolding rsplit_once
rsplit_once-Lacks [] h = refl
rsplit_once-Lacks (c ∷ s) h = rw (rsplit_once-Lacks s h.1) (rw h.0 refl)

rsplit_once-append :
    (host port : Text)
    → Lacks b':' port
    → rsplit_once b':' (host ++ b':' ∷ port) ≡ some (host, port)
unfolding rsplit_once
rsplit_once-append [] port h = rw (rsplit_once-Lacks port h) refl
rsplit_once-append (c ∷ host) port h = rw (rsplit_once-append host port h) refl

module _ {Addr Stream : Type 0} (parse_addr : Text → Option Addr)
    (socks : Addr → Text → ℕ → Option Stream) where
  -- An address is a host, a colon and a port: the proxy is asked for exactly that host, which may have
  -- colons of its own, and that port.
  pub connect-show_port :
      (tor : TorConnector) (proxy : Addr) (host : Text) (p : ℕ)
      → parse_addr tor.config.proxy_addr ≡ some proxy
      → p < 2 ^ 16
      → connect parse_addr socks tor (host ++ b':' ∷ show_port p)
        ≡ dial parse_addr socks proxy host p
  unfolding connect connect_to
  connect-show_port tor proxy host p e h =
      rw (e, rsplit_once-append host (show_port p) (Digits-Lacks _ (decimal-Digits 4 p)), connect)
        (rw (parse_u16-show_port p h, connect_to) refl)
