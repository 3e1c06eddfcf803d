-- ===== src/Process/Signals.antt =====
-- `signalProcess` and `killProcess` of cmd/go-overlay/process.go: a signal goes to the process group
-- of a service, and to the process alone where that does not work. What the system calls answer is a
-- parameter, and the signals that are sent are recorded in their order.
use go_overlay.Base.{
  ℕ, Text, Bool, true, ◌&&◌, not, List, [], ◌∷◌, Option, none, some, if◌then◌else◌, if_elim, ◌≡◌,
  ◌≢◌, ◌⊎◌, refl, sym, ap, ◌∙◌, arith, inl, inr, Bool-cases, Option-cases, ◌↔◌, All,
}
use Prim.{tt}
use mathlib.Core.Option.{some-injective}
use go_overlay.Base.Int.{ℤ, above, int_eq, int_eq_iff}

-- `syscall.Getpgid`, `syscall.Kill` of a group (whether it works), `proc.Signal` and `proc.Kill` (the
-- error), each at a process or a group, and a signal.
pub record Os : Type 0 where
  pub getpgid : ℤ → Option ℤ
  pub kill_group : ℤ → ℕ → Bool
  pub signal : ℤ → ℕ → Option Text
  pub kill : ℤ → Option Text

-- to whom a signal was sent
pub data Sent : Type 0 where
  group : ℤ → Sent
  process : ℤ → Sent

abbrev pub sigkill : ℕ
sigkill = 9

-- `resolveSelfPgid`
unfoldable pub resolve_self_pgid : Option ℤ → ℤ
resolve_self_pgid none = ℤ.pos 0
resolve_self_pgid (some pgid) = pgid

module _ (os : Os) (self_pgid : ℤ) where
  -- the first half of both functions: the group, where it is to be signalled
  unfoldable pub foreign_group : ℤ → Option ℤ
  foreign_group pid = elim (os.getpgid pid) [
    | none ↦ none
    | some pgid ↦ if above 0 pgid && not (int_eq pgid self_pgid) then some pgid else none
  ]

  unfoldable pub signal_process : Option ℤ → ℕ → List Sent × Option Text
  signal_process none sig = ([], none)
  signal_process (some pid) sig = elim (foreign_group pid) [
    | none ↦ (process pid ∷ [], os.signal pid sig)
    | some pgid ↦
        if os.kill_group pgid sig
        then (group pgid ∷ [], none)
        else (group pgid ∷ process pid ∷ [], os.signal pid sig)
  ]

  unfoldable pub kill_process : Option ℤ → List Sent × Option Text
  kill_process none = ([], none)
  kill_process (some pid) = elim (foreign_group pid) [
    | none ↦ (process pid ∷ [], os.kill pid)
    | some pgid ↦
        if os.kill_group pgid sigkill
        then (group pgid ∷ [], none)
        else (group pgid ∷ process pid ∷ [], os.kill pid)
  ]

  -- Only the process, and its group where that is not the group of the supervisor, are sent to.
  abbrev pub MaySend : ℤ → Sent → Type 0
  MaySend pid (group g) = (os.getpgid pid ≡ some g) × (above 0 g ≡ true) × (g ≢ self_pgid)
  MaySend pid (process p) = p ≡ pid

  foreign_group-MaySend : (pid g : ℤ) → (foreign_group pid ≡ some g) ↔ MaySend pid (group g)
  unfolding foreign_group
  foreign_group-MaySend pid g = (there, back)
    where
      there : foreign_group pid ≡ some g → MaySend pid (group g)
      there h = elim (Option-cases (os.getpgid pid)) [
        | inl e ↦ absurd (ground arith)
        | inr (q, e) ↦ elim (Bool-cases (above 0 q && not (int_eq q self_pgid))) [
          | inl b ↦
              let i : q ≡ g = some-injective q g (rw (e, b, foreign_group) at h) in
              (
                e ∙ ap some i,
                ground (arith, ap (above 0) i),
                λ n. ground (arith, int_eq_iff q self_pgid, i ∙ n),
              )
          | inr b ↦ absurd (ground arith)
        ]
      ]

      back : MaySend pid (group g) → foreign_group pid ≡ some g
      back (e, a, n) = rw (e, foreign_group) (ground (arith, int_eq_iff g self_pgid))

  -- What a delivery does: it sends only where it may, and it reports no error exactly where the group
  -- of the process could be signalled, or else the process.
  pub record Delivers (pid : ℤ) (works : ℤ → Bool) (alone : Option Text)
      (r : List Sent × Option Text) : Type 0 where
    pub allowed : All (MaySend pid) r.0
    pub reported :
        (r.1 ≡ none) ↔ (((g : ℤ) × MaySend pid (group g) × (works g ≡ true)) ⊎ (alone ≡ none))

  alone_only :
      (pid : ℤ) (works : ℤ → Bool) (alone : Option Text)
      → foreign_group pid ≡ none
      → Delivers pid works alone (process pid ∷ [], alone)
  alone_only pid works alone h = record {
    allowed = (refl, tt);
    reported = (
      inr,
      λ c. elim c [
        | inl (g, m, w) ↦ absurd (ground (arith, (foreign_group-MaySend pid g).1 m))
        | inr e ↦ e
      ],
    );
  }

  group_first :
      (pid g : ℤ) (works : ℤ → Bool) (alone : Option Text)
      → foreign_group pid ≡ some g
      → Delivers pid works alone
          (if works g then (group g ∷ [], none) else (group g ∷ process pid ∷ [], alone))
  group_first pid g works alone h =
      let m = (foreign_group-MaySend pid g).0 h in
      if_elim {A = List Sent × Option Text} (Delivers pid works alone) (works g) _ _
        (λ w. record { allowed = (m, tt); reported = (λ e. inl (g, m, w), λ c. refl) })
        (λ w. record {
          allowed = (m, (refl, tt));
          reported = (
            inr,
            λ c. elim c [
              | inl (k, n, v) ↦
                  let i = some-injective g k (sym h ∙ (foreign_group-MaySend pid k).1 n) in
                  absurd (ground (arith, ap works i))
              | inr e ↦ e
            ],
          );
        })

  -- Both ways to signal a process send to the process and to its group only, never to the group of the
  -- supervisor, and report no error exactly where the group could be signalled, or else the process.
  pub deliver-Delivers :
      (pid : ℤ) (sig : ℕ)
      → Delivers pid (λ g. os.kill_group g sig) (os.signal pid sig) (signal_process (some pid) sig)
        × Delivers pid (λ g. os.kill_group g sigkill) (os.kill pid) (kill_process (some pid))
  unfolding signal_process kill_process
  deliver-Delivers pid sig = elim (Option-cases (foreign_group pid)) [
    | inl e ↦
        (rw (e, signal_process) (alone_only pid _ _ e), rw (e, kill_process) (alone_only pid _ _ e))
    | inr (g, e) ↦ (
      rw (e, signal_process) (group_first pid g (λ k. os.kill_group k sig) _ e),
      rw (e, kill_process) (group_first pid g (λ k. os.kill_group k sigkill) _ e),
    )
  ]
