-- ===== src/Tracker/Invariant.antt =====
-- The channels of the tracker and its record of what is closed agree.
use go_overlay.Base.{
  ℕ, ◌<◌, ◌≤◌, Text, lit, suc, ◌&&◌, ◌↔◌, ◌==◌, ==_iff, lookup, insert, lookup-insert, Bool, true,
  false, none, some, ◌≡◌, ◌≢◌, refl, sym, ap, [], ◌∷◌, arith, if◌then◌else◌, Bool-cases,
}
use go_overlay.Tracker.{Kind, ready, failed, Tracker, store, put, key, is_marked}

abbrev first : Text → ℕ
first [] = 0
first (c ∷ _) = c

first_differs : ¬ (◌≡◌ {A = ℕ} b'r' b'f')
first_differs e = omega arith

-- Keys of different kinds or names differ.
pub key-injective : (j k : Kind) (m n : Text) → key j m ≡ key k n → (j ≡ k) × (m ≡ n)
unfolding key lit
key-injective ready ready m n e = (refl, cc)
key-injective ready failed m n e = absurd (first_differs (ap first e))
key-injective failed ready m n e = absurd (first_differs (sym (ap first e)))
key-injective failed failed m n e = (refl, cc)

pub record IsValid (d : Tracker) : Type 0 where
  -- a channel in a store has been made
  pub made : (k : Kind) (n : Text) (c : ℕ) → lookup n (store k d) ≡ some c → c < d.next
  -- no channel has two names
  pub apart :
      (j k : Kind) (m n : Text) (c : ℕ)
      → lookup m (store j d) ≡ some c
      → lookup n (store k d) ≡ some c
      → (j ≡ k) × (m ≡ n)
  -- a channel is closed exactly where its name is marked
  pub agree :
      (k : Kind) (n : Text) (c : ℕ)
      → lookup n (store k d) ≡ some c
      → d.is_closed c ≡ is_marked k n d
  -- a name that is marked has a channel
  pub marked : (k : Kind) (n : Text) → is_marked k n d ≡ true → lookup n (store k d) ≢ none
  -- a channel that is not made is open
  pub unmade : (c : ℕ) → d.next ≤ c → d.is_closed c ≡ false

abbrev pub kind_eq : Kind → Kind → Bool
kind_eq ready ready = true
kind_eq failed failed = true
kind_eq _ _ = false

pub kind_eq_iff : (j k : Kind) → (kind_eq j k ≡ true) ↔ (j ≡ k)
kind_eq_iff ready ready = ground arith
kind_eq_iff ready failed = ground arith
kind_eq_iff failed ready = ground arith
kind_eq_iff failed failed = ground arith

abbrev pub same : Kind → Text → Kind → Text → Bool
same k n j m = kind_eq k j && n == m

-- the tracker after `channel` has made a channel for a name
abbrev pub made_for : Kind → Text → Tracker → Tracker
made_for k n d = put k (insert n d.next (store k d)) (record d { next = suc d.next })

pub lookup-made_for :
    (d : Tracker) (k j : Kind) (n m : Text)
    → lookup m (store j (made_for k n d))
      ≡ (if same k n j m then some d.next else lookup m (store j d))
lookup-made_for d ready ready n m = lookup-insert n m d.next d.ready
lookup-made_for d ready failed n m = refl
lookup-made_for d failed ready n m = refl
lookup-made_for d failed failed n m = lookup-insert n m d.next d.failed

next-made_for : (d : Tracker) (k : Kind) (n : Text) → (made_for k n d).next ≡ suc d.next
next-made_for d ready n = refl
next-made_for d failed n = refl

pub is_closed-made_for :
    (d : Tracker) (k : Kind) (n : Text) (c : ℕ) → (made_for k n d).is_closed c ≡ d.is_closed c
is_closed-made_for d ready n c = refl
is_closed-made_for d failed n c = refl

pub is_marked-made_for :
    (d : Tracker) (k j : Kind) (n m : Text) → is_marked j m (made_for k n d) ≡ is_marked j m d
unfolding is_marked
is_marked-made_for d ready j n m = refl
is_marked-made_for d failed j n m = refl

pub made_for-IsValid :
    (d : Tracker) (k : Kind) (n : Text)
    → lookup n (store k d) ≡ none
    → IsValid d
    → IsValid (made_for k n d)
made_for-IsValid d k n new v = record {
  made = λ j m c h. rw next-made_for (ground (arith, lookup-made_for d k j n m, v.made j m c));
  apart = λ i j m o c h g. ground (
    arith,
    lookup-made_for d k i n m,
    lookup-made_for d k j n o,
    v.made i m c,
    v.made j o c,
    v.apart i j m o c,
    kind_eq_iff k i,
    kind_eq_iff k j,
    ==_iff n m,
    ==_iff n o,
  );
  agree = λ j m c h.
      rw (is_closed-made_for, is_marked-made_for)
        (ground (
          arith,
          lookup-made_for d k j n m,
          v.agree j m c,
          v.unmade c,
          v.marked j m,
          kind_eq_iff k j,
          ==_iff n m,
          Bool-cases (is_marked j m d),
        ));
  marked = λ j m h.
      ground (arith, lookup-made_for d k j n m, is_marked-made_for d k j n m, v.marked j m);
  unmade = λ c h. rw is_closed-made_for (v.unmade c (omega (arith, next-made_for d k n)));
}
