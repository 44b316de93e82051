-- ===== src/Daemon/Cluster.antt =====
-- The daemons of several nodes, which share the lock of cmd/kucero/lock.go. Their effects are
-- interleaved in any order. What the lock of kured does is its documented behaviour: it is taken if
-- it is free, if the node that asks holds it, or if the time for which it was taken has passed; a
-- release that the API server refuses leaves it taken.
pub mod Exclusion
mod Tests
use kucero.Base.{
  String, ℕ, ◌≡◌, Bool, true, false, Option, none, some, List, [], ◌∷◌, ◌==◌, nat_eq, if◌then◌else◌,
  ◌+ℤ◌, ◌≤ℤ◌,
}
use kucero.Api.Time.{Time, Duration}
use kucero.Host.Run.{
  Effect, command, write_file, set_unschedulable, drain, lock_acquired, lock_released,
}
use kucero.Host.Kubectl.{Drainer}
use kucero.Daemon.Node.{NodeTools, new_node}
use kucero.Daemon.Lock.{DaemonSetLock, lock_ttl}
use kucero.Daemon.Loop.{Event, rotate_certificate_when_needed}

-- An effect of a node, and when it happens.
pub record Entry : Type 0 where
  pub node : ℕ
  pub effect : Effect
  pub time : Time

-- The effects of one node, in their order.
abbrev pub of_node : ℕ → List Entry → List Effect
of_node i [] = []
of_node i (e ∷ m) = if e.node == i then e.effect ∷ of_node i m else of_node i m

pub record Holder : Type 0 where
  pub node : ℕ
  pub since : Time

abbrev pub owns : Option Holder → ℕ → Bool
owns none i = false
owns (some k) i = k.node == i

abbrev pub is_lock_effect : Effect → Bool
is_lock_effect lock_acquired = true
is_lock_effect lock_released = true
is_lock_effect (command args) = false
is_lock_effect (write_file p) = false
is_lock_effect (set_unschedulable b) = false
is_lock_effect drain = false

-- What one effect of a node makes of the holder. `expires` tells whether a lock may be taken over
-- after its time.
pub data Serves (expires : Bool) (o : Option Holder) (e : Entry) : Option Holder → Type 0 where
  take_free :
      e.effect ≡ lock_acquired
      → o ≡ none
      → Serves expires o e (some (record { node = e.node; since = e.time }))
  take_again : e.effect ≡ lock_acquired → owns o e.node ≡ true → Serves expires o e o
  take_over :
      (k : Holder)
      → expires ≡ true
      → e.effect ≡ lock_acquired
      → o ≡ some k
      → k.since +ℤ lock_ttl ≤ℤ e.time
      → Serves expires o e (some (record { node = e.node; since = e.time }))
  give_back : e.effect ≡ lock_released → owns o e.node ≡ true → Serves expires o e none
  keep_refused : e.effect ≡ lock_released → Serves expires o e o
  leave : is_lock_effect e.effect ≡ false → Serves expires o e o

-- The holders before and after a list of effects.
pub data Served (expires : Bool) : Option Holder → List Entry → Option Holder → Type 0 where
  at_rest : {o : Option Holder} → Served expires o [] o
  next :
      {o p q : Option Holder} {e : Entry} {m : List Entry}
      → Serves expires o e p
      → Served expires p m q
      → Served expires o (e ∷ m) q

-- A daemon, with what it is started on: the flags, the node, and the state of the world.
pub record Daemon (W : Type 0) : Type 0 where
  pub name : String
  pub is_control_plane : Bool
  pub expiry_time_to_rotate : Duration
  pub enable_client : Bool
  pub enable_server : Bool
  pub tools : NodeTools W
  pub drainer : Drainer W
  pub lock : DaemonSetLock W
  pub events : List Event
  pub world : W

module _ {W : Type 0} (d : Daemon W) where
  -- What the first test of the lock says.
  abbrev pub is_holding : Bool
  is_holding = (d.lock.test (record { unschedulable = false }) d.world).holding

  -- The effects of the whole run.
  abbrev pub effects_of : List Effect
  effects_of =
      (rotate_certificate_when_needed
        (new_node d.tools d.is_control_plane d.name d.expiry_time_to_rotate d.enable_client
          d.enable_server)
        d.drainer d.lock d.events (record { world = d.world; effects = [] })).1.effects
