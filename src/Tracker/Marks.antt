-- ===== src/Tracker/Marks.antt =====
-- The tracker of cmd/go-overlay/deps.go as two sets of names: what was marked ready, and what was
-- marked failed.
use go_overlay.Base.{
  ℕ, Text, ==_iff, lookup, insert, lookup-insert, Bool, true, false, ◌||◌, none, some, ◌≡◌, ◌∙◌,
  ◌<◌, refl, inl, inr, arith, nat_eq, nat_eq_iff, if◌then◌else◌, Option-cases, Bool-cases,
}
use go_overlay.Tracker.{
  Kind, ready, failed, Tracker, new_dependency_tracker, store, channel, close, key, is_marked, mark,
  poll,
}
use go_overlay.Tracker.Invariant.{
  IsValid, key-injective, kind_eq_iff, same, made_for, lookup-made_for, is_marked-made_for,
  made_for-IsValid,
}

-- the tracker after the mark of a name whose channel is `ch`
abbrev closed_for : Kind → Text → ℕ → Tracker → Tracker
closed_for k n ch d = record d {
  closed = insert (key k n) true d.closed;
  is_closed = λ c. if nat_eq c ch then true else d.is_closed c;
}

is_marked-closed_for :
    (k j : Kind) (n m : Text) (ch : ℕ) (d : Tracker)
    → is_marked j m (closed_for k n ch d) ≡ (same k n j m || is_marked j m d)
unfolding is_marked
is_marked-closed_for k j n m ch d =
    rw lookup-insert (
      ground
        (arith, ==_iff (key k n) (key j m), key-injective k j n m, kind_eq_iff k j, ==_iff n m))

store-closed_for :
    (k j : Kind) (n : Text) (ch : ℕ) (d : Tracker) → store j (closed_for k n ch d) ≡ store j d
store-closed_for k ready n ch d = refl
store-closed_for k failed n ch d = refl

closed_for-IsValid :
    (k : Kind) (n : Text) (ch : ℕ) (d : Tracker)
    → lookup n (store k d) ≡ some ch
    → IsValid d
    → IsValid (closed_for k n ch d)
closed_for-IsValid k n ch d found v = record {
  made = λ j m c h. v.made j m c (rw store-closed_for at h);
  apart = λ i j m o c h g. v.apart i j m o c (rw store-closed_for at h) (rw store-closed_for at g);
  agree = λ j m c h.
      let g = rw store-closed_for at h in
      rw is_marked-closed_for (
        ground (
          arith,
          nat_eq_iff c ch,
          v.agree j m c g,
          v.apart k j n m c,
          kind_eq_iff k j,
          ==_iff n m,
        ));
  marked = λ j m h. rw store-closed_for (
      ground (arith, is_marked-closed_for k j n m ch d, kind_eq_iff k j, ==_iff n m, v.marked j m));
  unmade = λ c h. ground (arith, nat_eq_iff c ch, v.made k n ch, v.unmade c);
}

-- What a mark of `n` does: nothing else is marked, and a channel that was given out for a name stays
-- the channel of that name.
pub record MarkOf (k : Kind) (n : Text) (d d' : Tracker) : Type 0 where
  pub valid : IsValid d'
  pub marks : (j : Kind) (m : Text) → is_marked j m d' ≡ (same k n j m || is_marked j m d)
  pub keeps :
      (j : Kind) (m : Text) (c : ℕ) → lookup m (store j d) ≡ some c → lookup m (store j d') ≡ some c
  pub wakes : (c : ℕ) → lookup n (store k d) ≡ some c → d'.is_closed c ≡ true

mark_found :
    (k : Kind) (n : Text) (d : Tracker) (ch : ℕ)
    → is_marked k n d ≡ false
    → lookup n (store k d) ≡ some ch
    → d.is_closed ch ≡ false
    → mark k n d ≡ some (closed_for k n ch d)
unfolding mark channel close
mark_found ready n d ch new e o = ground arith
mark_found failed n d ch new e o = ground arith

mark_first :
    (k : Kind) (n : Text) (d : Tracker)
    → is_marked k n d ≡ false
    → lookup n (store k d) ≡ none
    → d.is_closed d.next ≡ false
    → mark k n d ≡ some (closed_for k n d.next (made_for k n d))
unfolding mark channel close
mark_first ready n d new e o = ground arith
mark_first failed n d new e o = ground arith

-- closing the channel of a name, in a tracker that may have made it first
MarkOf-closed_for :
    (k : Kind) (n : Text) (ch : ℕ) (d e : Tracker)
    → IsValid e
    → lookup n (store k e) ≡ some ch
    → ((j : Kind) (m : Text) → is_marked j m e ≡ is_marked j m d)
    → ((j : Kind) (m : Text) (c : ℕ)
        → lookup m (store j d) ≡ some c
        → lookup m (store j e) ≡ some c)
    → MarkOf k n d (closed_for k n ch e)
MarkOf-closed_for k n ch d e v found marks keeps = record {
  valid = closed_for-IsValid k n ch e found v;
  marks = λ j m. ground (arith, is_marked-closed_for k j n m ch e, marks j m);
  keeps = λ j m c h. rw store-closed_for (keeps j m c h);
  wakes = λ c h. ground (arith, keeps k n c h, nat_eq_iff c ch);
}

lookup-made_self :
    (k : Kind) (n : Text) (d : Tracker) → lookup n (store k (made_for k n d)) ≡ some d.next
lookup-made_self k n d = ground (arith, lookup-made_for d k k n n, kind_eq_iff k k, ==_iff n n)

-- A mark never closes a channel twice: from a valid tracker it returns, the tracker stays valid, and
-- exactly the name is added to what is marked. Whoever waits on the channel of the name is woken.
pub mark-MarkOf :
    (k : Kind) (n : Text) (d : Tracker)
    → IsValid d
    → (d' : Tracker) × (mark k n d ≡ some d') × MarkOf k n d d'
mark-MarkOf k n d v = elim (Bool-cases (is_marked k n d)) [
  | inl old ↦ (
    d,
    unfold mark in rw old,
    record {
      valid = v;
      marks = λ j m. ground (arith, kind_eq_iff k j, ==_iff n m);
      keeps = λ j m c h. h;
      wakes = λ c h. v.agree k n c h ∙ old;
    },
  )
  | inr new ↦ elim (Option-cases (lookup n (store k d))) [
    | inl e ↦ (
      closed_for k n d.next (made_for k n d),
      mark_first k n d new e (v.unmade d.next (omega arith)),
      MarkOf-closed_for k n d.next d (made_for k n d) (made_for-IsValid d k n e v)
          (lookup-made_self k n d) (λ j m. is_marked-made_for d k j n m)
          (λ j m c h. ground (arith, lookup-made_for d k j n m, kind_eq_iff k j, ==_iff n m)),
    )
    | inr (ch, e) ↦ (
      closed_for k n ch d,
      mark_found k n d ch new e (v.agree k n ch e ∙ new),
      MarkOf-closed_for k n ch d d v e (λ j m. refl) (λ j m c h. h),
    )
  ]
]

-- A poll answers whether the name was marked, and keeps all marks. It may make the channel.
pub record PollOf (k : Kind) (n : Text) (d : Tracker) (r : Tracker × Bool) : Type 0 where
  pub answer : r.1 ≡ is_marked k n d
  pub valid : IsValid r.0
  pub marks : (j : Kind) (m : Text) → is_marked j m r.0 ≡ is_marked j m d

poll_found :
    (k : Kind) (n : Text) (d : Tracker) (ch : ℕ)
    → lookup n (store k d) ≡ some ch
    → poll k n d ≡ (d, d.is_closed ch)
unfolding poll channel
poll_found ready n d ch e = ground arith
poll_found failed n d ch e = ground arith

poll_first :
    (k : Kind) (n : Text) (d : Tracker)
    → lookup n (store k d) ≡ none
    → poll k n d ≡ (made_for k n d, d.is_closed d.next)
unfolding poll channel
poll_first ready n d e = ground arith
poll_first failed n d e = ground arith

-- `IsReady` and `IsFailed` answer whether the name was marked ready or failed, and change no mark.
pub poll-PollOf : (k : Kind) (n : Text) (d : Tracker) → IsValid d → PollOf k n d (poll k n d)
poll-PollOf k n d v = elim (Option-cases (lookup n (store k d))) [
  | inl e ↦ rw (poll_first k n d e) (record {
    answer = ground (arith, v.unmade d.next (omega arith), v.marked k n);
    valid = made_for-IsValid d k n e v;
    marks = λ j m. is_marked-made_for d k j n m;
  })
  | inr (ch, e) ↦
      rw (poll_found k n d ch e)
        (record { answer = v.agree k n ch e; valid = v; marks = λ j m. refl })
]

none_there :
    (k : Kind) (n : Text) (c : ℕ) → lookup n (store k new_dependency_tracker) ≡ some c → c < 0
unfolding new_dependency_tracker lookup
none_there ready n c h = absurd (cc)
none_there failed n c h = absurd (cc)

-- The new tracker is valid and has nothing marked.
pub new-IsValid : IsValid new_dependency_tracker
unfolding new_dependency_tracker is_marked lookup
new-IsValid = record {
  made = λ k n c h. none_there k n c h;
  apart = λ j k m n c h g. absurd (omega (arith, none_there j m c h));
  agree = λ k n c h. absurd (omega (arith, none_there k n c h));
  marked = λ k n h. cc;
  unmade = λ c h. refl;
}
