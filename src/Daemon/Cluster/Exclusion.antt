-- ===== src/Daemon/Cluster/Exclusion.antt =====
-- Which of several daemons of cmd/kucero/main.go works on its node, under the lock that they share.
use kucero.Base.{
  sym, ◌∙◌, ℕ, ◌≡◌, ◌≢◌, refl, ◌⊎◌, inl, inr, Bool, true, false, not, ◌||◌, Option, none, some,
  List, [], ◌++◌, nat_eq, arith, Option-cases,
}
use native.Mathlib.Decide.{ℕ_discrete}
use kucero.Host.Run.{Effect, lock_released}
use kucero.Daemon.Loop.Stage.{Stage, free, held, shut, step, stage_after, stage_after-prefix}
use kucero.Daemon.Loop.Runs.{first_stage, run_obeys}
use kucero.Daemon.Cluster.{
  Entry, of_node, Holder, owns, is_lock_effect, Serves, take_free, take_again, take_over, give_back,
  keep_refused, leave, Served, at_rest, next, Daemon, is_holding, effects_of,
}

abbrev pub is_busy : Stage → Bool
is_busy free = false
is_busy held = true
is_busy shut = true

-- A node that works holds the lock.
abbrev pub is_covered : Option Holder → ℕ → Stage → Bool
is_covered o i s = not (is_busy s) || owns o i

-- An effect that is no call of the lock leaves a node at work, or at rest.
step-is_busy :
    (s t : Stage) (e : Effect)
    → is_lock_effect e ≡ false
    → step s e ≡ some t
    → is_busy t ≡ is_busy s
unfolding step
step-is_busy free t e plain goes = ground arith
step-is_busy held t e plain goes = ground arith
step-is_busy shut t e plain goes = ground arith

-- A release leaves a node at rest.
step_released :
    (s t : Stage) (e : Effect) → e ≡ lock_released → step s e ≡ some t → is_busy t ≡ false
unfolding step
step_released free t e release goes = ground arith
step_released held t e release goes = ground arith
step_released shut t e release goes = ground arith

-- An effect of the node itself.
own-is_covered :
    {o p : Option Holder} {e : Entry} (i : ℕ) (s t : Stage)
    → is_covered o i s ≡ true
    → e.node ≡ i
    → step s e.effect ≡ some t
    → Serves false o e p
    → is_covered p i t ≡ true
own-is_covered i s t covered own goes (take_free acquires unowned) = ground arith
own-is_covered i s t covered own goes (take_again acquires mine) = ground arith
own-is_covered i s t covered own goes (take_over k expires acquires taken late) = absurd (cc)
own-is_covered {e = e} i s t covered own goes (give_back releases mine) =
    ground (arith, step_released s t e.effect releases goes)
own-is_covered {e = e} i s t covered own goes (keep_refused releases) =
    ground (arith, step_released s t e.effect releases goes)
own-is_covered {e = e} i s t covered own goes (leave plain) =
    ground (arith, step-is_busy s t e.effect plain goes)

-- An effect of another node.
other-is_covered :
    {o p : Option Holder} {e : Entry} (i : ℕ) (s : Stage)
    → is_covered o i s ≡ true
    → e.node ≢ i
    → Serves false o e p
    → is_covered p i s ≡ true
other-is_covered i s covered other (take_free acquires unowned) = ground arith
other-is_covered i s covered other (take_again acquires its) = covered
other-is_covered i s covered other (take_over k expires acquires taken late) = absurd (cc)
other-is_covered {o = none} i s covered other (give_back releases its) = ground arith
other-is_covered {o = some k} i s covered other (give_back releases its) = ground arith
other-is_covered i s covered other (keep_refused releases) = covered
other-is_covered i s covered other (leave plain) = covered

Served-is_covered :
    {o q : Option Holder} {m : List Entry} (i : ℕ) (s t : Stage)
    → is_covered o i s ≡ true
    → Served false o m q
    → stage_after s (of_node i m) ≡ some t
    → is_covered q i t ≡ true
unfolding stage_after
Served-is_covered i s t covered at_rest goes = ground arith
Served-is_covered i s t covered (next {p = p} {e = e} {m = m} serves served) goes =
    elim (ℕ_discrete e.node i) [
      | yes own ↦ elim (Option-cases (step s e.effect)) [
        | inl stuck ↦ absurd (ground arith)
        | inr (s', moves) ↦
            Served-is_covered i s' t (own-is_covered i s s' covered own moves serves) served
              (ground arith)
      ]
      | no other ↦
          Served-is_covered i s t (other-is_covered i s covered other serves) served (ground arith)
    ]

module _ {W : Type 0} (d : Daemon W) where
  -- The stage of a daemon after the effects that it has had so far.
  stage_so_far :
      (l rest : List Effect)
      → effects_of d ≡ l ++ rest
      → (s : Stage) × (stage_after (first_stage (is_holding d)) l ≡ some s)
  stage_so_far l rest same =
      let (k, u, all, goes, _) =
        run_obeys d.drainer d.lock d.tools d.is_control_plane d.name d.expiry_time_to_rotate
          d.enable_client d.enable_server d.events (record { world = d.world; effects = [] }) in
      stage_after-prefix (first_stage (is_holding d)) u l rest (rw (sym same ∙ all) goes)

first_covered :
    (o : Option Holder) (i : ℕ) (b : Bool) → b ≡ owns o i → is_covered o i (first_stage b) ≡ true
first_covered o i true e = ground arith
first_covered o i false e = refl

one_owner : (q : Option Holder) (i j : ℕ) → owns q i ≡ true → owns q j ≡ true → i ≡ j
one_owner none i j c d = cc
one_owner (some k) i j c d = ground arith

one_free :
    (q : Option Holder) (i j : ℕ) (s t : Stage)
    → i ≢ j
    → is_covered q i s ≡ true
    → is_covered q j t ≡ true
    → (s ≡ free) ⊎ (t ≡ free)
one_free q i j free t differ c d = inl refl
one_free q i j held free differ c d = inr refl
one_free q i j shut free differ c d = inr refl
one_free q i j held held differ c d = absurd (differ (one_owner q i j c d))
one_free q i j held shut differ c d = absurd (differ (one_owner q i j c d))
one_free q i j shut held differ c d = absurd (differ (one_owner q i j c d))
one_free q i j shut shut differ c d = absurd (differ (one_owner q i j c d))

-- Two daemons of different nodes have had some of the effects of their runs each, interleaved in any
-- order with each other's and with those of other nodes, no node took over the lock of another
-- after its time, and the first test of each told rightly whether its node held the lock. Then at
-- least one of the two is at a stage where it neither holds the lock nor has its node cordoned.
pub one_at_a_time :
    {W : Type 0} (a b : Daemon W) (i j : ℕ) {o q : Option Holder} {m : List Entry}
    (rest_a rest_b : List Effect)
    → i ≢ j
    → Served false o m q
    → is_holding a ≡ owns o i
    → is_holding b ≡ owns o j
    → effects_of a ≡ of_node i m ++ rest_a
    → effects_of b ≡ of_node j m ++ rest_b
    → (s : Stage) × (t : Stage) × (stage_after (first_stage (is_holding a)) (of_node i m) ≡ some s)
      × (stage_after (first_stage (is_holding b)) (of_node j m) ≡ some t)
      × ((s ≡ free) ⊎ (t ≡ free))
one_at_a_time a b i j {o} {q} {m} rest_a rest_b differ served tells_a tells_b some_a some_b =
    let (s, goes_a) = stage_so_far a (of_node i m) rest_a some_a in
    let (t, goes_b) = stage_so_far b (of_node j m) rest_b some_b in
    (
      s,
      t,
      goes_a,
      goes_b,
      one_free q i j s t differ
          (Served-is_covered i (first_stage (is_holding a)) s
            (first_covered o i (is_holding a) tells_a) served goes_a)
          (Served-is_covered j (first_stage (is_holding b)) t
            (first_covered o j (is_holding b) tells_b) served goes_b),
    )
