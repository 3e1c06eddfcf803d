-- ===== src/Tests/System.antt =====
-- Runs of the reaper, the signals and the commands on small systems.
use go_overlay.Process.Session.{Launcher, Held, is_open, start_session}
use go_overlay.Process.Session.Laws as Session
use go_overlay.Base.{ok, err}
use go_overlay.Base.{
  ℕ, suc, Text, lit, ◌==◌, true, false, List, [], ◌∷◌, Option, none, some, if◌then◌else◌, length,
  map, Memᴰ, Memᴰ-cons, ◌≡◌, ◌≢◌, refl, sym, ap, ◌∙◌, arith, inl, inr, Bool-cases,
}
use mathlib.Core.List.Memᴰ
use go_overlay.Base.Int.{ℤ, pos, above, int_eq, int_eq_iff}
use go_overlay.Base.{Map, lookup, keys}
use go_overlay.Config.{Service}
use go_overlay.Environ.Service.{no_file}
use go_overlay.Validation.Host.{User}
use go_overlay.Process.Credential.{Credential, lookup_user_credential, parse_uint32}
use go_overlay.Process.Command.{
  ServiceCommand, build_service_command, RunsAs, build_service_command-RunsAs,
}
use go_overlay.Supervisor.{Process, boot}
use go_overlay.Supervisor.Prepare.{new_process}
use go_overlay.Supervisor.Stop.{force_kill_all_services, force_kill_all_services-targets}
use go_overlay.Process.Signals.{MaySend, Sent}
use go_overlay.Tests.{database}
use go_overlay.Process.Children.{is_tracked_child}
use go_overlay.Process.Reaper.{Kernel, IsKernel, reap_passes}
use go_overlay.Process.Reaper.Laws.{wait4-reap_passes}
use go_overlay.Process.Signals.{
  Os, signal_process, kill_process, sigkill, Delivers, deliver-Delivers,
}

-- A system with these exited children; the number n stands for the process n + 1.
abbrev pid_of : ℕ → ℤ
pid_of n = pos (suc n)

abbrev first_of : List ℕ → ℕ × ℤ
first_of [] = (0, pos 0)
first_of (n ∷ w) = (0, pid_of n)

abbrev cons_world : ℕ → List ℕ × Option ℤ → List ℕ × Option ℤ
cons_world n r = (n ∷ r.0, r.1)

abbrev wait_one : ℤ → List ℕ → List ℕ × Option ℤ
wait_one p [] = ([], none)
wait_one p (n ∷ w) =
    if int_eq (pid_of n) p then (w, some (pid_of n)) else cons_world n (wait_one p w)

abbrev kernel : Kernel
kernel = record { World = List ℕ; zombies = map pid_of; waitid = first_of; wait4 = wait_one }

first_of-mem : (w : List ℕ) (p : ℤ) → first_of w ≡ (0, p) → above 0 p ≡ true → Memᴰ p (map pid_of w)
first_of-mem [] p h a = absurd (ground (arith, ap (λ r. above 0 r.1) h))
first_of-mem (n ∷ w) p h a = Memᴰ.head (sym (ap (λ r. r.1) h))

first_of-found :
    (w : List ℕ) → map pid_of w ≢ [] → (p : ℤ) × (first_of w ≡ (0, p)) × (above 0 p ≡ true)
first_of-found [] h = absurd (h refl)
first_of-found (n ∷ w) h = (pid_of n, refl, ground arith)

wait_one-taken : (p : ℤ) (w : List ℕ) → Memᴰ p (map pid_of w) → (wait_one p w).1 ≡ some p
wait_one-taken p [] m = absurd (Memᴰ.not-nil m)
wait_one-taken p (n ∷ w) m = elim (Bool-cases (int_eq (pid_of n) p)) [
  | inl e ↦ rw e (ap some ((int_eq_iff (pid_of n) p).0 e))
  | inr e ↦ elim ((Memᴰ-cons p (pid_of n) (map pid_of w)).0 m) [
    | inl h ↦ absurd (ground (arith, (int_eq_iff (pid_of n) p).1 (sym h)))
    | inr k ↦ rw e (wait_one-taken p w k)
  ]
]

wait_one-left :
    (w : List ℕ) (p q : ℤ) → q ≢ p → Memᴰ q (map pid_of w) → Memᴰ q (map pid_of (wait_one p w).0)
wait_one-left [] p q d m = m
wait_one-left (n ∷ w) p q d m = elim (Bool-cases (int_eq (pid_of n) p)) [
  | inl e ↦ elim ((Memᴰ-cons q (pid_of n) (map pid_of w)).0 m) [
    | inl h ↦ absurd (d (h ∙ (int_eq_iff (pid_of n) p).0 e))
    | inr k ↦ rw e k
  ]
  | inr e ↦ elim ((Memᴰ-cons q (pid_of n) (map pid_of w)).0 m) [
    | inl h ↦ rw e (Memᴰ.head h)
    | inr k ↦ rw e (Memᴰ.tail (wait_one-left w p q d k))
  ]
]

wait_one-less :
    (p : ℤ) (w : List ℕ)
    → Memᴰ p (map pid_of w)
    → (suc (length (map pid_of (wait_one p w).0)) ≡ length (map pid_of w))
      × ((q : ℤ) → Memᴰ q (map pid_of (wait_one p w).0) → Memᴰ q (map pid_of w))
wait_one-less p [] m = absurd (Memᴰ.not-nil m)
wait_one-less p (n ∷ w) m = elim (Bool-cases (int_eq (pid_of n) p)) [
  | inl e ↦ rw e (refl, λ q k. Memᴰ.tail k)
  | inr e ↦ elim ((Memᴰ-cons p (pid_of n) (map pid_of w)).0 m) [
    | inl h ↦ absurd (ground (arith, (int_eq_iff (pid_of n) p).1 (sym h)))
    | inr k ↦
        let (len, sub) = wait_one-less p w k in
        rw e (
          ap suc len,
          λ q j. elim ((Memᴰ-cons q (pid_of n) (map pid_of (wait_one p w).0)).0 j) [
            | inl h ↦ Memᴰ.head h
            | inr t ↦ Memᴰ.tail (sub q t)
          ],
        )
  ]
]

kernel-IsKernel : IsKernel kernel
kernel-IsKernel = record {
  named = first_of-mem;
  found = first_of-found;
  taken = λ w p m. wait_one-taken p w m;
  left = wait_one-left;
}

-- the process 8 is tracked, and has exited after the orphan 6
eight : is_tracked_child (pos 8) (pos 8 ∷ []) ≡ true
unfolding is_tracked_child
eight = refl

wait4-reap_passes_example :
    (kernel.wait4 (pos 8) (reap_passes kernel 3 (pos 8 ∷ []) (5 ∷ 7 ∷ []))).1 ≡ some (pos 8)
wait4-reap_passes_example =
    wait4-reap_passes kernel kernel-IsKernel (pos 8) 3 (pos 8 ∷ []) (5 ∷ 7 ∷ []) eight
      (Memᴰ.tail (Memᴰ.head refl))

untracked : (q : ℤ) → Memᴰ q (kernel.zombies (5 ∷ 7 ∷ [])) → is_tracked_child q [] ≡ false
unfolding is_tracked_child
untracked q m = refl

-- a system where each process leads its own group
abbrev os : Os
os = record {
  getpgid = λ p. some p;
  kill_group = λ g sig. true;
  signal = λ p sig. none;
  kill = λ p. none;
}

deliver-Delivers_example :
    Delivers os
      (pos 1)
      (pos 8)
      (λ g. os.kill_group g 15)
      (os.signal (pos 8) 15)
      (signal_process os (pos 1) (some (pos 8)) 15)
    × Delivers os
        (pos 1)
        (pos 8)
        (λ g. os.kill_group g sigkill)
        (os.kill (pos 8))
        (kill_process os (pos 1) (some (pos 8)))
deliver-Delivers_example = deliver-Delivers os (pos 1) (pos 8) 15

abbrev process_of : Text → Option ℤ
process_of n = if n == lit "db" then some (pos 8) else none

abbrev processes : Map Process
processes = (lit "db", new_process boot database) ∷ []

force_kill_all_services-targets_example :
    ((n : Text) (p : Process) (q : ℤ)
      → lookup n processes ≡ some p
      → process_of n ≡ some q
      → (x : Sent) × Memᴰ x (force_kill_all_services os (pos 1) process_of processes)
        × MaySend os (pos 1) q x)
    × ((x : Sent)
        → Memᴰ x (force_kill_all_services os (pos 1) process_of processes)
        → (n : Text) × (q : ℤ) × Memᴰ n (keys processes)
          × (process_of n ≡ some q)
          × MaySend os (pos 1) q x)
force_kill_all_services-targets_example =
    force_kill_all_services-targets os (pos 1) process_of processes

-- a service that runs as another user
abbrev as_nobody : Service
as_nobody = record database { user = lit "nobody" }

abbrev nobody_credential : Credential
nobody_credential = record { uid = 65534; gid = 65534; groups = [] }

abbrev users : Text → Option User
users n = some (record {
  uid = lit "65534";
  gid = lit "65534";
  home_dir = lit "/nonexistent";
  group_ids = none;
})

user_is_set : as_nobody.user ≢ []
unfolding lit
user_is_set h = ground arith

nobody_is_known :
    lookup_user_credential users as_nobody.user ≡ some (nobody_credential, lit "/nonexistent")
unfolding lookup_user_credential parse_uint32 lit
nobody_is_known = refl

build_service_command-RunsAs_example :
    (c : ServiceCommand) × (build_service_command
        (λ p. no_file)
        (lit "HOME=/root" ∷ [])
        users
        as_nobody
      ≡ some c)
    × RunsAs
        (λ p. no_file)
        (lit "HOME=/root" ∷ [])
        users
        as_nobody
        nobody_credential
        (lit "/nonexistent")
        c
build_service_command-RunsAs_example =
    build_service_command-RunsAs (λ p. no_file) (lit "HOME=/root" ∷ []) users as_nobody
      nobody_credential (lit "/nonexistent") (λ h. user_is_set h) nobody_is_known

-- Terminals have the number 3 and log files 4, processes 12, and another service holds 5 and 6.
abbrev launcher : Launcher
launcher = record {
  start_pty = λ c. ok (pos 12, 3);
  open_log = λ path. ok 4;
  start = λ r. err (lit "fork failed");
}

abbrev held : Held
held = record { files = 5 ∷ 6 ∷ []; children = pos 9 ∷ [] }

launcher-IsFresh : Session.IsFresh launcher held
unfolding is_open is_tracked_child
launcher-IsFresh = record {
  terminal = λ c pid f h. ground arith;
  log = λ path f h. ground arith;
  process = λ r pid h. absurd (ground arith);
}

abbrev command : ServiceCommand
command = record { path = lit "/bin/db"; args = []; credential = none; env = [] }

-- The log file cannot be kept, since the command does not start.
start_session-HoldsToEnd_example :
    Session.HoldsToEnd held
      (start_session launcher (ok command) (record database { log_file = lit "/db.log" }) held)
start_session-HoldsToEnd_example =
    Session.start_session-HoldsToEnd launcher (ok command)
      (record database { log_file = lit "/db.log" }) held launcher-IsFresh
