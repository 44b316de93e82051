-- ===== src/Daemon/Loop/Due.antt =====
-- A control plane node of cmd/kucero/main.go over a tick that finds certificates that are due.
mod Tests
use kucero.Base.{
  String, Text, ◌≡◌, refl, sym, ap, ◌∙◌, inl, inr, Bool, true, false, Option, none, some, List, [],
  ◌∷◌, ◌++◌, ◌||◌, ◌==◌, contains, any, ltb, length, text_eq, append_trans, arith, Bool-cases,
}
use mathlib.Core.Path.{subst}
use mathlib.Core.List.{Perm, append_assoc}
use kucero.Api.Time.{Time, Duration}
use kucero.Api.Error.{Error}
use kucero.Host.Run.{Effect, command, lock_acquired, Host, done, Exec, emit}
use kucero.Host.Commands.{Reply}
use kucero.Host.Kubectl.{Drainer}
use kucero.Host.Ends.{Ends, pure-Ends, bind-Ends, cordon-Ends, drain-Ends, uncordon-Ends}
use kucero.Kubelet.Config.{new, check_config, update_config}
use kucero.Kubelet.Config.Ends.{update_config-Ends}
use kucero.Kubeadm.Table.{Expiries, parse_check_expiration}
use kucero.Kubeadm.Certificates.{
  certificate_path, trim_newline, Tools, version_command, check_command, rotate, check_expiration,
}
use kucero.Kubeadm.Certificates.Ends.{PrintsVersion}
use kucero.Kubeadm.Certificates.Attempts.{Round, Rounds, rotate-Rounds}
use kucero.Kubeadm.Certificates.Expiration.{
  is_due, due_names, check_expiration-found, due_names-any,
}
use kucero.Daemon.Node.{Node, NodeTools, new_node}
use kucero.Daemon.Lock.{NodeMeta, DaemonSetLock, lock_ttl, took, acquire, release}
use kucero.Daemon.Lock.Ends.{release-Ends}
use kucero.Daemon.Loop.{shut_out, update_some, let_in, maintain, check_and_rotate}
use kucero.Daemon.Loop.Stage.{Stage, Leads}
use kucero.Daemon.Loop.Endings.{if-Ends}
use kucero.Daemon.Loop.Discipline.{
  new_node-Works, release-Leads, shut_out-Leads, update_some-Leads, let_in-Leads,
}

-- An operation that ends and only adds effects.
adds :
    {W A : Type 0} {s t : Stage} {m : Exec W A} (h : Host W)
    → Ends m
    → Leads s t m
    → (a : A) × (h' : Host W) × (l : List Effect) × (m h ≡ (done a, h'))
      × (h'.effects ≡ h.effects ++ l)
adds h ends leads =
    let (a, h', ran) = ends.ends h in
    let (l, same, _) = leads.leads h h' a ran in (a, h', l, ran, same)

-- A name that is among those of the rounds, with a path, has a round of its own.
Rounds-Round :
    {W : Type 0} (x : Tools W) (name path : Text) {w w' : W} {names : List Text}
    {errs r : Option Error} {l : List Effect}
    → contains names name ≡ true
    → certificate_path name ≡ some path
    → Rounds x w names errs l r w'
    → (a b k : List Effect) × (v v' : W) × (e : Option Error) × (l ≡ a ++ (k ++ b))
      × Round x v name path k e v'
Rounds-Round x name path listed known Rounds.finished = absurd (ground arith)
Rounds-Round x name path listed known (Rounds.passed_over {name = n} {names = names} unknown rest) =
    elim (Bool-cases (name == n)) [
      | inl same ↦ absurd (ground arith)
      | inr other ↦ Rounds-Round x name path (ground arith) known rest
    ]
Rounds-Round x name path listed known
      (Rounds.attempted {w = w} {w₁ = w₁} {name = n} {path = p} {names = names} {e = e} {l₁ = l₁}
        {l = l} here round rest) =
    elim (Bool-cases (name == n)) [
      | inl same ↦
          let is_n : n ≡ name = ground arith in
          let is_p : p ≡ path = ground arith in
          (
            [],
            l,
            l₁,
            w,
            w₁,
            e,
            refl,
            subst (λ q. Round x w name q l₁ e w₁) is_p
                (subst (λ y. Round x w y p l₁ e w₁) is_n round),
          )
      | inr other ↦
          let (a, b, k, v, v', e', parts, found) =
            Rounds-Round x name path (ground arith) known rest in
          (
            l₁ ++ a,
            b,
            k,
            v,
            v',
            e',
            ap (λ m. l₁ ++ m) parts ∙ sym (append_assoc l₁ a (k ++ b)),
            found,
          )
    ]

-- A part of a part in the middle of a list.
inside :
    (before a k b after : List Effect) {l : List Effect}
    → l ≡ a ++ (k ++ b)
    → before ++ (l ++ after) ≡ (before ++ a) ++ (k ++ (b ++ after))
inside before a k b after parts =
    ap (λ m. before ++ (m ++ after)) parts
    ∙ ap (λ m. before ++ m)
        (append_assoc a (k ++ b) after ∙ ap (λ m. a ++ m) (append_assoc k b after))
    ∙ sym (append_assoc before a (k ++ (b ++ after)))

contains-ltb :
    (names : List Text) (name : Text) → contains names name ≡ true → ltb 0 (length names) ≡ true
contains-ltb [] name listed = absurd (ground arith)
contains-ltb (n ∷ names) name listed = ground arith

module _ {W : Type 0} (drainer : Drainer W) (lock : DaemonSetLock W) (x : NodeTools W)
    (prints : (w : W) → PrintsVersion x.kubeadm w) (host : String) (d : Duration) (c s : Bool) where
  abbrev node : Node W
  node = new_node x true host d c s

  -- The work under the lock, with certificates to rotate.
  maintain-Rounds :
      (meta : NodeMeta) (paths names : List Text) (h : Host W)
      → ltb 0 (length names) ≡ true
      → (errs : Option Error) × (v v' : W) × (h' : Host W) × (before l after : List Effect)
        × (maintain node drainer lock meta paths names h ≡ (done meta, h'))
        × (h'.effects ≡ h.effects ++ (before ++ (l ++ after)))
        × Rounds x.kubeadm v names none l errs v'
  unfolding maintain new_node
  maintain-Rounds meta paths names h some_name =
      let b = meta.unschedulable in
      let works = new_node-Works x host d c s true in
      let (_, h₁, l₁, shut, e₁) =
        adds h
          (if-Ends node drainer lock b (pure-Ends none)
            (bind-Ends (cordon-Ends drainer) (λ e. drain-Ends drainer)))
          (shut_out-Leads node drainer lock b) in
      let (_, h₂, l₂, updated, e₂) =
        adds h₁
          (if-Ends node drainer lock (ltb 0 (length paths)) (update_config-Ends x.kubelet _ paths)
            (pure-Ends none))
          (update_some-Leads node drainer lock works b paths) in
      let (errs, _, h₃, h₄, l, end, rotated, e₃, rounds, _) =
        rotate-Rounds x.kubeadm prints names h₂ in
      let (_, h₅, l₅, opened, e₅) =
        adds h₄ (if-Ends node drainer lock b (pure-Ends none) (uncordon-Ends drainer))
          (let_in-Leads node drainer lock b) in
      let (_, h₆, l₆, released, e₆) =
        adds h₅ (release-Ends lock) (release-Leads node drainer lock) in
      let before = append_trans h.effects l₁ l₂ e₁ e₂ in
      let behind = append_trans h₄.effects l₅ l₆ e₅ e₆ in
      (
        errs,
        h₂.world,
        h₃.world,
        h₆,
        l₁ ++ l₂,
        l,
        end ++ (l₅ ++ l₆),
        rw (shut, updated, some_name, rotated, opened, released) refl,
        append_trans h.effects (l₁ ++ l₂) ((l ++ end) ++ (l₅ ++ l₆)) before
              (append_trans h₂.effects (l ++ end) (l₅ ++ l₆) e₃ behind)
            ∙ ap (λ m. h.effects ++ ((l₁ ++ l₂) ++ m)) (append_assoc l end (l₅ ++ l₆)),
        rounds,
      )

  module _ (tn : Time) (still : (w : W) → x.kubeadm.clock.now w ≡ record { time = tn; world = w })
      (perm : (m : Expiries) → Perm (x.kubeadm.range m) m) where
    -- On a control plane node whose clock stands still during the check and where each version that is
    -- printed is one: when the two commands of the check succeed and the node gets the lock, the tick
    -- ends, and each certificate of the table that the printed text says to be due has its round after
    -- the lock was taken, whatever happens to the configuration and to the certificates before it.
    pub tick_attempts :
        (meta : NodeMeta) (h h₁ : Host W) (paths : List Text) (e : Option Error)
        (first second : Reply W) (recent : Bool) (name path : Text)
        → check_config x.kubelet (new host c s) h ≡ (done (paths, e), h₁)
        → x.kubeadm.shell.exec version_command h₁.world ≡ first
        → first.error ≡ none
        → x.kubeadm.at_least_1_20 (trim_newline first.stdout) ≡ some recent
        → x.kubeadm.shell.exec (check_command recent) first.world ≡ second
        → second.error ≡ none
        → certificate_path name ≡ some path
        → any (is_due d tn name) (parse_check_expiration x.kubeadm.parse_time second.stdout) ≡ true
        → took lock (lock.acquire meta lock_ttl second.world) ≡ true
        → (meta' : NodeMeta) × (h' : Host W) × (before k after : List Effect) × (v v' : W)
          × (o : Option Error) × (check_and_rotate (new_node x true host d c s) drainer lock meta h
              ≡ (done meta', h'))
          × (h'.effects
              ≡ h₁.effects
                ++ (command version_command
                    ∷ command (check_command recent)
                    ∷ lock_acquired
                    ∷ (before ++ (k ++ after))))
          × Round x.kubeadm v name path k o v'
    unfolding check_and_rotate new_node acquire
    tick_attempts meta h h₁ paths e first second recent name path checked ran fine known ran' fine'
          has due got =
        let table = parse_check_expiration x.kubeadm.parse_time second.stdout in
        let names = due_names x.kubeadm d tn (x.kubeadm.range table) in
        let (l, expired, asks) =
          check_expiration-found x.kubeadm d tn still h₁ first second recent ran fine known ran'
            fine' in
        let listed : contains names name ≡ true =
          due_names-any x.kubeadm d tn still name table perm ∙ due in
        let some_name : ltb 0 (length names) ≡ true = contains-ltb names name listed in
        let r = lock.acquire meta lock_ttl second.world in
        let taken : Host W = record { world = r.world; effects = l ++ (lock_acquired ∷ []) } in
        let (errs, v, v', h', before, k, after, worked, same, rounds) =
          maintain-Rounds r.metadata paths names taken some_name in
        let (a, b, j, u, u', o, parts, round) =
          Rounds-Round x.kubeadm name path listed has rounds in
        let needed : (ltb 0 (length paths) || ltb 0 (length names)) ≡ true = ground arith in
        let v_c : List Effect = command version_command ∷ command (check_command recent) ∷ [] in
        (
          r.metadata,
          h',
          before ++ a,
          j,
          b ++ after,
          u,
          u',
          o,
          rw (checked, expired, needed, got) worked,
          append_trans h₁.effects (v_c ++ (lock_acquired ∷ [])) _
                (append_trans h₁.effects v_c (lock_acquired ∷ []) asks refl) same
              ∙ ap (λ m. h₁.effects ++ (v_c ++ (lock_acquired ∷ m)))
                  (inside before a j b after parts),
          round,
        )
