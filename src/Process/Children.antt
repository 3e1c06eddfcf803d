-- ===== src/Process/Children.antt =====
-- The set of children of cmd/go-overlay/process.go that some goroutine waits for.
use go_overlay.Base.{Bool, true, false, ◌||◌, List, [], ◌∷◌, if◌then◌else◌, ◌≡◌, refl, arith}
use go_overlay.Base.Int.{ℤ, above, int_eq, int_eq_iff}

-- `childPIDs`
abbrev pub Children : Type 0
Children = List ℤ

-- `isTrackedChild`
unfoldable pub is_tracked_child : ℤ → Children → Bool
is_tracked_child pid [] = false
is_tracked_child pid (c ∷ children) = int_eq c pid || is_tracked_child pid children

-- `delete(childPIDs, pid)`
unfoldable without : ℤ → Children → Children
without pid [] = []
without pid (c ∷ children) =
    let rest = without pid children in if int_eq c pid then rest else c ∷ rest

unfoldable pub track_child : ℤ → Children → Children
track_child pid children = if above 0 pid then pid ∷ children else children

unfoldable pub untrack_child : ℤ → Children → Children
unfolding without
untrack_child pid children = if above 0 pid then without pid children else children

is_tracked_child-without :
    (pid q : ℤ) (children : Children)
    → is_tracked_child q (without pid children)
      ≡ (if int_eq pid q then false else is_tracked_child q children)
unfolding is_tracked_child without
is_tracked_child-without pid q [] = ground arith
is_tracked_child-without pid q (c ∷ children) = ground (
  arith,
  is_tracked_child-without pid q children,
  int_eq_iff pid q,
  int_eq_iff c pid,
  int_eq_iff c q,
)

pub is_tracked_child-untrack :
    (pid q : ℤ) (children : Children)
    → above 0 pid ≡ true
    → is_tracked_child q (untrack_child pid children)
      ≡ (if int_eq pid q then false else is_tracked_child q children)
unfolding untrack_child
is_tracked_child-untrack pid q children h = rw h (is_tracked_child-without pid q children)

pub is_tracked_child-track :
    (pid q : ℤ) (children : Children)
    → above 0 pid ≡ true
    → is_tracked_child q (track_child pid children) ≡ (int_eq pid q || is_tracked_child q children)
unfolding track_child is_tracked_child
is_tracked_child-track pid q children h = rw h refl
