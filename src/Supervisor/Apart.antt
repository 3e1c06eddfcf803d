-- ===== src/Supervisor/Apart.antt =====
-- The marks of a service: `waitForDependency` of cmd/go-overlay/service.go waits in one `select` for
-- the channel of a ready dependency and for that of a failed one, and Go takes any case that is open.
pub mod Events
pub mod Registers
pub mod Ends
pub mod Runs
use go_overlay.Base.{
  ℕ, Text, ◌==◌, ==_iff, lookup, lookup-insert_elim, lookup-delete-some, delete, Bool, true, false,
  ◌&&◌, ◌||◌, List, [], ◌∷◌, Option, none, some, if◌then◌else◌, if_elim, ◌≡◌, ◌≢◌, ◌∙◌, refl, sym,
  ap, subst, arith, inl, inr, Bool-cases, Option-cases, All, All-mono, All-mono_two, All-put, zero,
  suc, nat_eq,
}
use go_overlay.Base.Int.{ℤ}
use mathlib.Core.Option.{some-injective}
use go_overlay.Config.{Service}
use go_overlay.Tracker.{Kind, ready, failed, Tracker, is_marked, mark, poll}
use go_overlay.Tracker.Invariant as Tracked
use go_overlay.Tracker.Invariant.{kind_eq_iff}
use go_overlay.Tracker.Marks.{MarkOf, mark-MarkOf, PollOf, poll-PollOf}
use go_overlay.Supervisor.{
  Process, State, Caller, boot, restart, Waiting, Launching, name_of, update, done, mark_dep,
  poll_dep, graceful_shutdown, trigger_service_failure_shutdown, remove_active_service, ◌>>=◌,
}
use go_overlay.Supervisor.Counts.{count, count_of_lookup-some}
use go_overlay.Supervisor.Step.{waiting_name, launching_name, timer_name}
use go_overlay.Supervisor.Invariant.{IsAbsent, presence}
use go_overlay.Supervisor.Kept.{Holds}

-- What has a name that is not counted has another name.
All-absent :
    {A : Type 0} (name : A → Text) (n : Text) (xs : List A)
    → count name n xs ≡ 0
    → All (λ x. name x ≢ n) xs
unfolding count
All-absent name n [] h = tt
All-absent name n (x ∷ xs) h =
    (λ e. ground (arith, h, ==_iff (name x) n, e), All-absent name n xs (ground arith))

-- The name was marked neither ready nor failed.
abbrev pub Unmarked : Text → Tracker → Type 0
Unmarked n d = (is_marked ready n d ≡ false) × (is_marked failed n d ≡ false)

-- A service that this caller has started: one that lasts was not marked failed, and a oneshot in its
-- first run has no mark.
abbrev pub Going : Caller → Service → Tracker → Type 0
Going c service d =
    (service.oneshot ≡ false → is_marked failed service.name d ≡ false)
    × (c ≡ boot → service.oneshot ≡ true → Unmarked service.name d)

-- A service whose `startService` is under way: in its first run it has no mark.
abbrev pub Pending : Caller → Service → Tracker → Type 0
Pending c service d = Going c service d × (c ≡ boot → Unmarked service.name d)

-- No name is marked both ready and failed, and what is there can still be marked as it will be.
pub record IsApart (s : State) : Type 0 where
  pub tracked : Tracked.IsValid s.deps
  pub apart : (n : Text) → is_marked ready n s.deps ≡ true → is_marked failed n s.deps ≡ false
  pub waiting : All (λ w. Unmarked w.service.name s.deps) s.waiting
  pub launching : All (λ l. Pending l.caller l.service s.deps) s.launching
  pub active :
      (n : Text) (p : Process) → lookup n s.active ≡ some p → Going p.caller p.config s.deps
  pub timers : All (λ t. Going restart t.0 s.deps) s.timers

-- A mark of this name and kind is none that the service still needs to be without.
abbrev pub Bears : Kind → Text → Caller → Service → Type 0
Bears k n c service =
    service.name ≡ n → (k ≡ failed → service.oneshot ≡ true) × (c ≡ boot → service.oneshot ≡ false)

pub record MayMark (k : Kind) (n : Text) (s : State) : Type 0 where
  pub waiting : All (λ w. w.service.name ≢ n) s.waiting
  pub launching : All (λ l. l.service.name ≢ n) s.launching
  pub active : (m : Text) (p : Process) → lookup m s.active ≡ some p → Bears k n p.caller p.config
  pub timers : All (λ t. Bears k n restart t.0) s.timers
  pub to_ready : k ≡ ready → is_marked failed n s.deps ≡ false
  pub to_failed : k ≡ failed → is_marked ready n s.deps ≡ false

Unmarked-mark :
    (k : Kind) (n m : Text) (d e : Tracker) → MarkOf k n d e → m ≢ n → Unmarked m d → Unmarked m e
Unmarked-mark k n m d e o a u = ground (arith, o.marks ready m, o.marks failed m, ==_iff n m, a)

Going-mark :
    (k : Kind) (n : Text) (c : Caller) (service : Service) (d e : Tracker)
    → MarkOf k n d e
    → Bears k n c service
    → Going c service d
    → Going c service e
Going-mark k n c service d e o b g = (
  λ l.
      ground
        (arith, o.marks failed service.name, ==_iff n service.name, kind_eq_iff k failed, b, g.0 l),
  λ i w. elim (Bool-cases (n == service.name)) [
    | inl q ↦ absurd (ground (arith, (b (sym ((==_iff n service.name).0 q))).1 i))
    | inr q ↦
        Unmarked-mark k n service.name d e o (λ x. ground (arith, ==_iff n service.name)) (g.1 i w)
  ],
)

Pending-mark :
    (k : Kind) (n : Text) (c : Caller) (service : Service) (d e : Tracker)
    → MarkOf k n d e
    → service.name ≢ n
    → Pending c service d
    → Pending c service e
Pending-mark k n c service d e o a g = (
  Going-mark k n c service d e o (λ x. absurd (a x)) g.0,
  λ b. Unmarked-mark k n service.name d e o a (g.1 b),
)

mark-apart :
    (k : Kind) (n m : Text) (d e : Tracker)
    → MarkOf k n d e
    → (k ≡ ready → is_marked failed n d ≡ false)
    → (k ≡ failed → is_marked ready n d ≡ false)
    → (is_marked ready m d ≡ true → is_marked failed m d ≡ false)
    → is_marked ready m e ≡ true
    → is_marked failed m e ≡ false
mark-apart ready n m d e o r f a h =
    let same : n ≡ m → is_marked failed n d ≡ is_marked failed m d =
      ap (λ x. is_marked failed x d) in
    ground (arith, o.marks ready m, o.marks failed m, ==_iff n m, same, r refl, a, h)
mark-apart failed n m d e o r f a h =
    let same : n ≡ m → is_marked ready n d ≡ is_marked ready m d = ap (λ x. is_marked ready x d) in
    ground (arith, o.marks ready m, o.marks failed m, ==_iff n m, same, f refl, a, h)

pub mark-IsApart :
    (k : Kind) (n : Text) (s : State) (d : Tracker)
    → MarkOf k n s.deps d
    → MayMark k n s
    → IsApart s
    → IsApart (record s { deps = d })
mark-IsApart k n s d o f a = record {
  tracked = o.valid;
  apart = λ m h. mark-apart k n m s.deps d o f.to_ready f.to_failed (a.apart m) h;
  waiting =
      All-mono_two _ _ _ s.waiting (λ w x u. Unmarked-mark k n w.service.name s.deps d o x u)
        f.waiting a.waiting;
  launching =
      All-mono_two _ _ _ s.launching (λ l x g. Pending-mark k n l.caller l.service s.deps d o x g)
        f.launching a.launching;
  active = λ m p e. Going-mark k n p.caller p.config s.deps d o (f.active m p e) (a.active m p e);
  timers =
      All-mono_two _ _ _ s.timers (λ t x g. Going-mark k n restart t.0 s.deps d o x g) f.timers
        a.timers;
}

pub mark_dep-IsApart :
    (k : Kind) (n : Text) (s : State)
    → MayMark k n s
    → IsApart s
    → Holds Unit IsApart (mark_dep k n s)
unfolding mark_dep
mark_dep-IsApart k n s f a =
    let (d, e, m) = mark-MarkOf k n s.deps a.tracked in rw e (mark-IsApart k n s d m f a)

-- A service that is nowhere may be marked.
pub absent-MayMark :
    (k : Kind) (n : Text) (s : State)
    → IsAbsent n s
    → Tracked.IsValid s.deps
    → ((m : Text) (p : Process) → lookup m s.active ≡ some p → name_of p ≡ m)
    → (k ≡ ready → is_marked failed n s.deps ≡ false)
    → (k ≡ failed → is_marked ready n s.deps ≡ false)
    → MayMark k n s
absent-MayMark k n s absent v named r f = record {
  waiting = All-absent waiting_name n s.waiting (omega arith);
  launching = All-absent launching_name n s.launching (omega arith);
  active = λ m p e i. absurd (
      omega (
        arith,
        count_of_lookup-some n s.active p
            (subst (λ j. lookup j s.active ≡ some p) (sym (named m p e) ∙ i) e),
      ));
  timers =
      All-mono _ _ s.timers (λ t x e. absurd (x e))
        (All-absent timer_name n s.timers (omega arith));
  to_ready = r;
  to_failed = f;
}

-- A change of the fields that the marks are not about
pub same :
    (s t : State)
    → s.deps ≡ t.deps
    → s.waiting ≡ t.waiting
    → s.launching ≡ t.launching
    → s.active ≡ t.active
    → s.timers ≡ t.timers
    → IsApart s
    → IsApart t
same s t d w l a u h = record {
  tracked = subst Tracked.IsValid d h.tracked;
  apart = λ n. subst (λ k. is_marked ready n k ≡ true → is_marked failed n k ≡ false) d (h.apart n);
  waiting =
      subst (λ xs. All (λ x. Unmarked x.service.name t.deps) xs) w
        (subst (λ k. All (λ x. Unmarked x.service.name k) s.waiting) d h.waiting);
  launching =
      subst (λ xs. All (λ x. Pending x.caller x.service t.deps) xs) l
        (subst (λ k. All (λ x. Pending x.caller x.service k) s.launching) d h.launching);
  active = λ n p e.
      subst (Going p.caller p.config) d (h.active n p (subst (λ m. lookup n m ≡ some p) (sym a) e));
  timers =
      subst (λ xs. All (λ x. Going restart x.0 t.deps) xs) u
        (subst (λ k. All (λ x. Going restart x.0 k) s.timers) d h.timers);
}

pub graceful-IsApart : (s : State) → IsApart s → IsApart (graceful_shutdown s)
unfolding graceful_shutdown
graceful-IsApart s h =
    if_elim IsApart s.once_done _ _ (λ _. h) (λ _. same s _ refl refl refl refl refl h)

pub trigger-IsApart : (s : State) → IsApart s → IsApart (trigger_service_failure_shutdown s)
unfolding trigger_service_failure_shutdown
trigger-IsApart s h =
    let t = record s { exit_code = if nat_eq s.exit_code 0 then 1 else s.exit_code } in
    graceful-IsApart t (same s t refl refl refl refl refl h)

-- A change of a process that leaves its service and its caller alone
abbrev pub SameRole : (Process → Process) → Type 0
SameRole f = (p : Process) → ((f p).config ≡ p.config) × ((f p).caller ≡ p.caller)

pub update-IsApart :
    (n : Text) (f : Process → Process) (s : State) → SameRole f → IsApart s → IsApart (update n f s)
unfolding update
update-IsApart n f s role h = elim (Option-cases (lookup n s.active)) [
  | inl e ↦ rw (e, update) h
  | inr (p, e) ↦
      rw (e, update)
        (record {
          tracked = h.tracked;
          apart = h.apart;
          waiting = h.waiting;
          launching = h.launching;
          active = λ m q i.
              lookup-insert_elim (λ r. Going r.caller r.config s.deps) n m (f p) q s.active
                (subst (λ c. Going c (f p).config s.deps) (sym (role p).1)
                  (subst (λ c. Going p.caller c s.deps) (sym (role p).0) (h.active n p e)))
                (h.active m q) i;
          timers = h.timers;
        })
]

-- The other marks are the same after a poll.
pub poll_dep-IsApart :
    (k : Kind) (n m : Text) (s : State)
    → Unmarked m s.deps
    → IsApart s
    → Unmarked m (poll_dep k n s).0.deps × IsApart (poll_dep k n s).0
unfolding poll_dep
poll_dep-IsApart k n m s u h =
    let o = poll-PollOf k n s.deps h.tracked in
    let keep : (x : Text) → Unmarked x s.deps → Unmarked x (poll k n s.deps).0 =
      λ x v. (o.marks ready x ∙ v.0, o.marks failed x ∙ v.1) in
    let go : (c : Caller) (v : Service) → Going c v s.deps → Going c v (poll k n s.deps).0 =
      λ c v g. (λ l. o.marks failed v.name ∙ g.0 l, λ i w. keep v.name (g.1 i w)) in
    (
      keep m u,
      record {
        tracked = o.valid;
        apart = λ x r. o.marks failed x ∙ h.apart x (sym (o.marks ready x) ∙ r);
        waiting = All-mono _ _ s.waiting (λ w. keep w.service.name) h.waiting;
        launching =
            All-mono _ _ s.launching
              (λ l g. (go l.caller l.service g.0, λ b. keep l.service.name (g.1 b))) h.launching;
        active = λ x p e. go p.caller p.config (h.active x p e);
        timers = All-mono _ _ s.timers (λ t. go restart t.0) h.timers;
      },
    )
