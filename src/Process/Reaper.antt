-- ===== src/Process/Reaper.antt =====
-- The reaper of cmd/go-overlay/reaper_linux.go, which waits for children that nobody else waits for,
-- and `runTracked` of process.go. The system calls are an interface over an unknown world.
pub mod Laws
use go_overlay.Base.{
  ℕ, zero, suc, ◌+◌, Text, Bool, true, false, ◌&&◌, List, [], ◌∷◌, Option, none, some, nat_eq,
  if◌then◌else◌, length, Memᴰ, ◌≡◌, ◌≢◌,
}
use go_overlay.Base.Int.{ℤ, above}
use go_overlay.Process.Children.{Children, is_tracked_child, track_child, untrack_child}

-- The system calls of the reaper, and the children that have exited and were not waited for.
pub record Kernel : Type 1 where
  pub World : Type 0
  pub zombies : World → List ℤ
  -- `waitid` without waiting and without taking: the error number and the process it names
  pub waitid : World → ℕ × ℤ
  -- `wait4` of one process, without waiting: the process, or an error
  pub wait4 : ℤ → World → World × Option ℤ

-- `waitid` names an exited child where there is one, and `wait4` takes an exited child, that one only.
pub record IsKernel (K : Kernel) : Type 0 where
  pub named : (w : K.World) (p : ℤ) → K.waitid w ≡ (0, p) → above 0 p ≡ true → Memᴰ p (K.zombies w)
  pub found :
      (w : K.World) → K.zombies w ≢ [] → (p : ℤ) × (K.waitid w ≡ (0, p)) × (above 0 p ≡ true)
  pub taken : (w : K.World) (p : ℤ) → Memᴰ p (K.zombies w) → (K.wait4 p w).1 ≡ some p
  pub left :
      (w : K.World) (p q : ℤ) → q ≢ p → Memᴰ q (K.zombies w) → Memᴰ q (K.zombies (K.wait4 p w).0)

abbrev pub reaper_max_batch : ℕ
reaper_max_batch = 128

-- `peekExitedChild` from the result of the system call
unfoldable pub peek_exited_child : ℕ × ℤ → Option ℤ
peek_exited_child (errno, pid) = if nat_eq errno 0 && above 0 pid then some pid else none

-- `err != nil || reaped <= 0`
unfoldable pub is_reaped : Option ℤ → Bool
is_reaped none = false
is_reaped (some reaped) = above 0 reaped

module _ (K : Kernel) where
  -- the rounds of the loop that are left
  unfoldable pub reap_from : ℕ → Children → K.World → K.World
  reap_from zero children w = w
  reap_from (suc n) children w = elim (peek_exited_child (K.waitid w)) [
    | none ↦ w
    | some pid ↦
        let (w', reaped) = K.wait4 pid w in
        let rest = reap_from n children w' in
        if is_tracked_child pid children then w else if is_reaped reaped then rest else w'
  ]

  unfoldable pub reap_orphans : Children → K.World → K.World
  unfolding reap_from
  reap_orphans = reap_from reaper_max_batch

  -- The passes that the reaper has made.
  unfoldable pub reap_passes : ℕ → Children → K.World → K.World
  unfolding reap_orphans
  reap_passes zero children w = w
  reap_passes (suc n) children w = reap_passes n children (reap_orphans children w)
