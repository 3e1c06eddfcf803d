-- ===== src/Process/Reaper/Laws.antt =====
-- What a pass of the reaper leaves alone, and what it takes.
use go_overlay.Base.{
  ℕ, zero, suc, ◌-◌, true, false, ◌&&◌, Option, none, some, nat_eq, nat_eq_iff, if_elim, length,
  Memᴰ, ◌≡◌, refl, sym, arith, inl, inr, Bool-cases, Option-cases, List-cases, ap, ◌∙◌,
}
use mathlib.Core.Option.{some-injective}
use go_overlay.Base.Int.{ℤ, above}
use go_overlay.Process.Children.{Children, is_tracked_child}
use go_overlay.Process.Reaper.{
  Kernel, IsKernel, peek_exited_child, is_reaped, reap_from, reap_orphans, reap_passes,
  reaper_max_batch,
}

-- What is peeked at is the process that the system call names, without an error.
peeked : (r : ℕ × ℤ) (p : ℤ) → peek_exited_child r ≡ some p → (r ≡ (0, p)) × (above 0 p ≡ true)
unfolding peek_exited_child
peeked (e, q) p h = elim (Bool-cases (nat_eq e 0 && above 0 q)) [
  | inl b ↦
      let i : q ≡ p = some-injective q p (rw (b, peek_exited_child) at h) in
      let z : e ≡ 0 = ground (arith, nat_eq_iff e 0) in
      let a : above 0 q ≡ true = ground arith in (cc, cc)
  | inr b ↦ absurd (ground arith)
]

peeked_named : (r : ℕ × ℤ) (p : ℤ) → r ≡ (0, p) → above 0 p ≡ true → peek_exited_child r ≡ some p
unfolding peek_exited_child
peeked_named r p h a = rw (h, a) refl

reaped_one : (o : Option ℤ) (p : ℤ) → o ≡ some p → above 0 p ≡ true → is_reaped o ≡ true
unfolding is_reaped
reaped_one o p h a = rw (h, a) refl

module _ (K : Kernel) (laws : IsKernel K) where
  kept_round :
      (p : ℤ) (n : ℕ) (children : Children) (w : K.World)
      → is_tracked_child p children ≡ true
      → Memᴰ p (K.zombies w)
      → Memᴰ p (K.zombies (reap_from K n children w))
  unfolding reap_from
  kept_round p zero children w t m = m
  kept_round p (suc n) children w t m = elim (Option-cases (peek_exited_child (K.waitid w))) [
    | inl e ↦ rw (e, reap_from) m
    | inr (q, e) ↦
        rw (e, reap_from)
          (if_elim (λ v. Memᴰ p (K.zombies v)) (is_tracked_child q children) _ _ (λ _. m)
            (λ u.
              let k =
                laws.left w q p (λ h. ground (arith, ap (λ x. is_tracked_child x children) h)) m in
              if_elim (λ v. Memᴰ p (K.zombies v)) (is_reaped (K.wait4 q w).1) _ _
                (λ _. kept_round p n children _ t k) (λ _. k)))
  ]

  kept_passes :
      (p : ℤ) (n : ℕ) (children : Children) (w : K.World)
      → is_tracked_child p children ≡ true
      → Memᴰ p (K.zombies w)
      → Memᴰ p (K.zombies (reap_passes K n children w))
  unfolding reap_passes reap_orphans
  kept_passes p zero children w t m = m
  kept_passes p (suc n) children w t m =
      kept_passes p n children _ t (kept_round p reaper_max_batch children w t m)

  -- The kernel takes an exited child away and no other exits meanwhile.
  abbrev pub IsQuiet : Type 0
  IsQuiet =
      (w : K.World) (p : ℤ)
      → Memᴰ p (K.zombies w)
      → (suc (length (K.zombies (K.wait4 p w).0)) ≡ length (K.zombies w))
        × ((q : ℤ) → Memᴰ q (K.zombies (K.wait4 p w).0) → Memᴰ q (K.zombies w))

  -- However many passes the reaper makes, the wait for a tracked child that has exited returns the
  -- child: the reaper never takes it.
  pub wait4-reap_passes :
      (p : ℤ) (n : ℕ) (children : Children) (w : K.World)
      → is_tracked_child p children ≡ true
      → Memᴰ p (K.zombies w)
      → (K.wait4 p (reap_passes K n children w)).1 ≡ some p
  wait4-reap_passes p n children w t m = laws.taken _ p (kept_passes p n children w t m)

  nobody : (w : K.World) → peek_exited_child (K.waitid w) ≡ none → length (K.zombies w) ≡ 0
  nobody w e = elim (List-cases (K.zombies w)) [
    | inl z ↦ ap length z
    | inr (x, xs, z) ↦
        let (p, f, a) = laws.found w (λ b. ground (arith, sym z ∙ b)) in
        absurd (ground (arith, sym e ∙ peeked_named (K.waitid w) p f a))
  ]

  reaps_round :
      (n : ℕ) (children : Children) (w : K.World)
      → IsQuiet
      → ((q : ℤ) → Memᴰ q (K.zombies w) → is_tracked_child q children ≡ false)
      → length (K.zombies (reap_from K n children w)) ≡ length (K.zombies w) - n
  unfolding reap_from
  reaps_round zero children w quiet u = omega arith
  reaps_round (suc n) children w quiet u = elim (Option-cases (peek_exited_child (K.waitid w))) [
    | inl e ↦ rw (e, reap_from) (omega (arith, nobody w e))
    | inr (q, e) ↦
        let (i, a) = peeked (K.waitid w) q e in
        let m = laws.named w q i a in
        let (len, sub) = quiet w q m in
        rw (e, reap_from, u q m, reaped_one (K.wait4 q w).1 q (laws.taken w q m) a)
          (omega (arith, len, reaps_round n children (K.wait4 q w).0 quiet (λ r k. u r (sub r k))))
  ]

  -- Where no tracked child has exited, and no process exits meanwhile, a pass of the reaper takes
  -- 128 of the exited children, or all of them where there are fewer.
  reap_orphans-length :
      (children : Children) (w : K.World)
      → IsQuiet
      → ((q : ℤ) → Memᴰ q (K.zombies w) → is_tracked_child q children ≡ false)
      → length (K.zombies (reap_orphans K children w)) ≡ length (K.zombies w) - 128
  unfolding reap_orphans
  reap_orphans-length children w quiet u = reaps_round reaper_max_batch children w quiet u
