-- ===== src/Sensor/Link.antt =====
-- sendEvent, tryFallbackBroker and watchPrimaryBroker of cmd/sensor/main.go: the broker that a sensor
-- reports to.
use mi_desbloqueio_do_estrei.Common.{
  ℕ, ◌≡◌, ◌⊎◌, refl, String, Bool, true, not, ◌&&◌, Option, none, some, List, [], ◌∷◌, IsIn, find?,
  if◌then◌else◌, ◌==◌, inl, inr, Bool-cases,
}
use mi_desbloqueio_do_estrei.Models.{Message, Request}
use mi_desbloqueio_do_estrei.Sensor.{
  Config, Library, Network, Node, Sent, ask, send, try_each, next_event, event_message, asked,
  confirmed, send_event,
}

module _ (cfg : Config) where
  -- The active broker is the primary one, or one of the others while the flag says so.
  pub record IsLinked (n : Node) : Type 0 where
    pub known : (n.active_broker ≡ cfg.primary_broker) ⊎ IsIn n.active_broker cfg.peer_brokers
    pub home : (n.active_broker ≡ cfg.primary_broker) ⊎ (n.broker_failed ≡ true)

-- The broker that is chosen, if there is one.
abbrev pub broker_after : Option String → String → String
broker_after none broker = broker
broker_after (some addr) broker = addr

-- Another broker that answers.
abbrev pub is_other : (String → Bool) → String → String → Bool
is_other up active addr = not (addr == active) && up addr

module _ (cfg : Config) (lib : Library) (net : Network) where
  -- Whether a broker answers depends on its address alone.
  abbrev pub IsSteady : (String → Bool) → Type 0
  IsSteady up = (sent : List Sent) (addr : String) → net sent addr ≡ up addr

  try_each-steady :
      (up : String → Bool) (n : Node) (msg : Message) (addrs : List String)
      → IsSteady up
      → (try_each cfg lib net n msg addrs).active_broker
        ≡ broker_after (find? (is_other up n.active_broker) addrs) n.active_broker
  unfolding try_each send
  try_each-steady up n msg [] steady = refl
  try_each-steady up n msg (addr ∷ addrs) steady = elim (Bool-cases (addr == n.active_broker)) [
    | inl e ↦ rw e (try_each-steady up n msg addrs steady)
    | inr e ↦ elim (Bool-cases (up addr)) [
      | inl f ↦ rw (e, steady, f) refl
      | inr f ↦ rw (e, steady, f) (try_each-steady up (send n (ask addr msg)) msg addrs steady)
    ]
  ]

  active-confirmed :
      (now : ℕ) (n : Node) (req : Request)
      → (confirmed cfg lib now n req).active_broker ≡ n.active_broker
  unfolding confirmed
  active-confirmed now n req = elim (Bool-cases (req.type == "TELEMETRY")) [
    | inl e ↦ rw (e, confirmed) refl
    | inr e ↦ rw (e, confirmed) refl
  ]

  -- Where it depends on a broker's address alone whether it answers: after an event a sensor reports to its
  -- broker if that answers, else to the first other one of its list that does, if there is one.
  pub send_event-steady :
      (up : String → Bool) (now : ℕ) (roll : ℕ → Bool) (n : Node)
      → IsSteady up
      → (send_event cfg lib net now roll n).active_broker ≡ (
          if up n.active_broker
          then n.active_broker
          else broker_after (find? (is_other up n.active_broker) cfg.peer_brokers) n.active_broker)
  unfolding send_event asked send
  send_event-steady up now roll n steady = elim (Bool-cases (up n.active_broker)) [
    | inl e ↦
        rw (steady, e) (active-confirmed now (asked cfg lib roll n) (next_event cfg lib roll n))
    | inr e ↦
        rw (steady, e)
          (try_each-steady up (asked cfg lib roll n) (event_message cfg lib roll n) cfg.peer_brokers
            steady)
  ]
