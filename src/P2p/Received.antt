-- ===== src/P2p/Received.antt =====
-- What happens to the gossip that reaches a node of src/p2p.rs: the validator of `start_p2p` comes
-- before the event loop.
use hancoin.Prelude.{
  ℕ, ◌≡◌, ◌<◌, ◌+◌, ◌⊎◌, refl, sym, subst, Bool, String, List, [], ◌∷◌, Option, Option-cases, none,
  some, arith, length, leb, if◌then◌else◌, inl, inr,
}
use hancoin.Machine.{Profile, u64_mod, add_u64-some}
use hancoin.P2p.Peers.{P2PConfig, P2PState, message, validate_message, handle_event, initial}
use hancoin.P2p.Launch.{
  Libp2p, Launch, noise_keys, invalid_address, cannot_listen, running, failed, panicked, listen,
  subscribed, start_p2p, unwrap_or_default, NetworkError, swarm_config,
}

-- A message from the network: its size, and whether the rate limiter refuses it.
pub record Gossip : Type 0 where
  pub source : String
  pub size : ℕ
  pub limited : Bool
  pub now : ℕ

-- A message that the validator refuses does not reach the event loop.
receive : Profile → P2PConfig → P2PState → Gossip → Option P2PState
receive profile config state g =
    if validate_message config g.size g.limited
    then handle_event profile state (message g.source g.now)
    else some state

pub receive_all : Profile → P2PConfig → P2PState → List Gossip → Option P2PState
receive_all profile config state [] = some state
receive_all profile config state (g ∷ gs) = elim (receive profile config state g) [
  | none ↦ none
  | some next ↦ receive_all profile config next gs
]

-- The times of the messages within the limit of size and of rate.
abbrev pub accepted : P2PConfig → List Gossip → List ℕ
accepted config [] = []
accepted config (g ∷ gs) =
    if g.limited
    then accepted config gs
    else if leb g.size config.max_message_size
    then g.now ∷ accepted config gs
    else accepted config gs

abbrev pub last_of : Option ℕ → List ℕ → Option ℕ
last_of t [] = t
last_of t (u ∷ us) = last_of (some u) us

-- After the messages within the limits, `state` has counted them and has the time of the last.
abbrev pub counted : P2PState → List ℕ → P2PState
counted state times = record state {
  message_count = state.message_count + length times;
  last_message_time = last_of state.last_message_time times;
}

receive_lem :
    (profile : Profile) (config : P2PConfig) (state : P2PState) (g : Gossip)
    → state.message_count + 1 < u64_mod
    → receive profile config state g ≡ some (counted state (accepted config (g ∷ [])))
unfolding receive validate_message handle_event
receive_lem profile config state g b = ground (arith, add_u64-some profile state.message_count 1 b)

receive_all_lem :
    (profile : Profile) (config : P2PConfig) (state : P2PState) (gs : List Gossip)
    → state.message_count + length gs < u64_mod
    → receive_all profile config state gs ≡ some (counted state (accepted config gs))
unfolding receive_all
receive_all_lem profile config state [] b = ground arith
receive_all_lem profile config state (g ∷ gs) b =
    let next = counted state (accepted config (g ∷ [])) in
    ground (
      arith,
      receive_lem profile config state g (omega arith),
      receive_all_lem profile config next gs (ground arith),
    )

-- The addresses that a node listens at.
abbrev ip4_address : String
ip4_address = "/ip4/0.0.0.0/tcp/4001"

abbrev ip6_address : String
ip6_address = "/ip6/::/tcp/4001"

module _ (L : Libp2p) where
  -- libp2p lets a swarm listen at an address, and it becomes `next`.
  abbrev pub Hears : L.Swarm → String → L.Swarm → Type 0
  Hears swarm address next =
      (a : L.Multiaddr) × (L.parse address ≡ some a) × (L.listen_on swarm a ≡ some next)

  -- libp2p refuses an address, or to let a swarm listen there, and this is the error.
  abbrev pub Refuses : L.Swarm → String → NetworkError → Type 0
  Refuses swarm address noise_keys = ⊥
  Refuses swarm address (invalid_address x) = (x ≡ address) × (L.parse address ≡ none)
  Refuses swarm address (cannot_listen x) =
      (x ≡ address)
      × ((a : L.Multiaddr) × (L.parse address ≡ some a) × (L.listen_on swarm a ≡ none))

  listen_lem :
      (P : Launch L → Type 0) (swarm : L.Swarm) (address : String) (next : L.Swarm → Launch L)
      → ((e : NetworkError) → Refuses swarm address e → P (failed e))
      → ((s : L.Swarm) → Hears swarm address s → P (next s))
      → P (listen L swarm address next)
  listen_lem P swarm address next fails hears = elim (Option-cases (L.parse address)) [
    | inl bad ↦ rw (bad, listen) (fails (invalid_address address) (refl, bad))
    | inr (a, good) ↦ elim (Option-cases (L.listen_on swarm a)) [
      | inl refused ↦
          rw (good, refused, listen) (fails (cannot_listen address) (refl, (a, good, refused)))
      | inr (s, heard) ↦ rw (good, heard, listen) (hears s (a, good, heard))
    ]
  ]

module _ (L : Libp2p) (profile : Profile) (id_keys : L.Keypair) (config : P2PConfig)
    (gs : List Gossip) where
  -- libp2p accepts the keys, and the gossip is set up.
  pub record Ready : Type 0 where
    pub noise : L.NoiseKeys
    pub gossipsub : L.Gossipsub
    pub authenticated : L.into_authenticated id_keys ≡ some noise
    pub set_up : subscribed L id_keys config ≡ some gossipsub

  abbrev pub built : Ready → L.Swarm
  built r = L.build config.tor_config r.noise r.gossipsub (swarm_config config) id_keys

  -- What a start of the network comes to: a panic where the keys are accepted and the gossip is not
  -- set up; an error where libp2p refuses the keys, or one of the addresses after those before it; or
  -- a network whose swarm listens at both, and that counts the messages within the limits of its
  -- settings.
  abbrev pub IsLaunched : Launch L → Type 0
  IsLaunched panicked =
      (noise : L.NoiseKeys) × (L.into_authenticated id_keys ≡ some noise)
      × (subscribed L id_keys config ≡ none)
  IsLaunched (failed e) =
      ((e ≡ noise_keys) × (L.into_authenticated id_keys ≡ none))
      ⊎ ((r : Ready) × (Refuses L (built r) ip4_address e
            ⊎ ((s : L.Swarm) × Hears L (built r) ip4_address s × Refuses L s ip6_address e)))
  IsLaunched (running net) =
      ((r : Ready) × ((s : L.Swarm) × Hears L (built r) ip4_address s
          × Hears L s ip6_address net.swarm))
      × (receive_all profile net.config net.state gs ≡ some (counted initial (accepted config gs)))

module _ (L : Libp2p) (config : P2PConfig) where
  abbrev launched : L.Swarm → Launch L
  launched t = running (record { config = config; swarm = t; state = initial })

  abbrev listening_also : L.Swarm → Launch L
  listening_also s = listen L s ip6_address launched

  abbrev listening : L.Swarm → Launch L
  listening s = listen L s ip4_address listening_also

pub start_p2p-IsLaunched :
    (L : Libp2p) (profile : Profile) (id_keys : L.Keypair) (given : Option P2PConfig)
    (gs : List Gossip)
    → length gs < u64_mod
    → IsLaunched L profile id_keys (unwrap_or_default given) gs (start_p2p L id_keys given)
unfolding start_p2p
start_p2p-IsLaunched L profile id_keys given gs b =
    let config = unwrap_or_default given in
    let P = IsLaunched L profile id_keys config gs in
    let o = start_p2p L id_keys given in
    elim (Option-cases (L.into_authenticated id_keys)) [
      | inl bad ↦
          let e : o ≡ failed noise_keys = rw (bad, start_p2p) refl in
          subst P (sym e) (inl (refl, bad))
      | inr (noise, good) ↦ elim (Option-cases (subscribed L id_keys config)) [
        | inl bad ↦
            let e : o ≡ panicked = rw (good, bad, start_p2p) refl in
            subst P (sym e) (noise, good, bad)
        | inr (gossipsub, made) ↦
            let r : Ready L profile id_keys config gs = record {
              noise = noise;
              gossipsub = gossipsub;
              authenticated = good;
              set_up = made;
            } in
            let swarm = built L profile id_keys config gs r in
            let e : o ≡ listening L config swarm = rw (good, made, start_p2p) refl in
            subst P (sym e) (
              listen_lem L P swarm ip4_address (λ s. listening_also L config s)
                (λ x refused. inr (r, inl refused))
                (λ s heard.
                  listen_lem L P s ip6_address (λ t. launched L config t)
                    (λ x refused. inr (r, inr (s, heard, refused)))
                    (λ t both. (
                      (r, (s, heard, both)),
                      receive_all_lem profile config initial gs (omega arith),
                    ))))
      ]
    ]
