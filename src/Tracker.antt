-- ===== src/Tracker.antt =====
-- cmd/go-overlay/deps.go: the dependency tracker. A channel is a number, and a waiter keeps the
-- number that it was given; closing a channel that is closed panics, which is `none` here. Each
-- method runs under the tracker's mutex, so it is one step.
pub mod Invariant
pub mod Marks
use go_overlay.Base.{
  ℕ, suc, Text, lit, Map, lookup, insert, Bool, true, false, Option, none, some, [], ◌++◌, nat_eq,
  if◌then◌else◌,
}

-- which of the two stores a call is about
pub data Kind : Type 0 where
  ready failed : Kind

pub record Tracker : Type 0 where
  pub ready : Map ℕ
  pub failed : Map ℕ
  pub closed : Map Bool
  -- the next channel that `make` returns, and which channels are closed
  pub next : ℕ
  pub is_closed : ℕ → Bool

unfoldable pub new_dependency_tracker : Tracker
new_dependency_tracker = record {
  ready = [];
  failed = [];
  closed = [];
  next = 0;
  is_closed = λ _. false;
}

abbrev pub store : Kind → Tracker → Map ℕ
store ready d = d.ready
store failed d = d.failed

abbrev pub put : Kind → Map ℕ → Tracker → Tracker
put ready m d = record d { ready = m }
put failed m d = record d { failed = m }

-- `d.channel(store, name)`: the channel of a name, made on first use
unfoldable pub channel : Kind → Text → Tracker → Tracker × ℕ
channel kind name d = elim (lookup name (store kind d)) [
  | some ch ↦ (d, ch)
  | none ↦ (put kind (insert name d.next (store kind d)) (record d { next = suc d.next }), d.next)
]

-- `close(ch)`
unfoldable pub close : ℕ → Tracker → Option Tracker
close ch d =
    if d.is_closed ch
    then none
    else some (record d { is_closed = λ c. if nat_eq c ch then true else d.is_closed c })

abbrev pub kind_text : Kind → Text
kind_text ready = lit "ready"
kind_text failed = lit "failed"

-- `kind + ":" + name`
unfoldable pub key : Kind → Text → Text
key kind name = kind_text kind ++ (lit ":" ++ name)

abbrev pub is_on : Option Bool → Bool
is_on none = false
is_on (some b) = b

-- `d.closed[key]`
unfoldable pub is_marked : Kind → Text → Tracker → Bool
is_marked kind name d = is_on (lookup (key kind name) d.closed)

-- `d.mark(store, kind, name)`, and so `MarkReady` and `MarkFailed`
unfoldable pub mark : Kind → Text → Tracker → Option Tracker
mark kind name d =
    if is_marked kind name d
    then some d
    else let (d', ch) =
        channel kind name (record d { closed = insert (key kind name) true d.closed }) in
      close ch d'

abbrev pub mark_ready : Text → Tracker → Option Tracker
mark_ready = mark ready

abbrev pub mark_failed : Text → Tracker → Option Tracker
mark_failed = mark failed

-- `IsReady` and `IsFailed`: a receive that does not block succeeds on a closed channel
unfoldable pub poll : Kind → Text → Tracker → Tracker × Bool
poll kind name d = let (d', ch) = channel kind name d in (d', d'.is_closed ch)

abbrev pub is_ready : Text → Tracker → Tracker × Bool
is_ready = poll ready

abbrev pub is_failed : Text → Tracker → Tracker × Bool
is_failed = poll failed
