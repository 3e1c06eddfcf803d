-- ===== src/Supervisor/Start/All.antt =====
-- The start of all services of an accepted configuration.
use go_overlay.Base.{
  ◌≤◌, Text, ◌==◌, ==_iff, Map, lookup, true, false, List, [], ◌∷◌, none, some, ◌≡◌, ◌≢◌, ◌∙◌, ◌⊎◌,
  refl, sym, ap, subst, arith, inl, inr, Memᴰ, Memᴰ-cons, Bool-cases, Option-cases,
}
use mathlib.Core.List.Memᴰ
use mathlib.Core.Option.{some-injective}
use go_overlay.Config.{Service}
use go_overlay.Dependencies.Graph.{Grounded, grounded, IsClosed}
use go_overlay.Tracker.{ready, is_marked}
use go_overlay.Supervisor.{State, Waiting, fresh}
use go_overlay.Supervisor.Restart.{restart_count}
use go_overlay.Supervisor.Step.{take, waiting_name}
use go_overlay.Supervisor.Counts.{count}
use go_overlay.Supervisor.Invariant.{IsValid}
use go_overlay.Supervisor.Reach.{Reach, reach_here, reach_then}
use go_overlay.Supervisor.Start.{Grows, Grows-refl, Grows-trans, HasStarted}
use go_overlay.Supervisor.Start.One.{started}

module _ {ℓ} {A : Type ℓ} (name : A → Text) where
  count_of_mem : (n : Text) (xs : List A) (x : A) → Memᴰ x xs → name x ≡ n → 1 ≤ count name n xs
  unfolding count
  count_of_mem n [] x m e = absurd (Memᴰ.not-nil m)
  count_of_mem n (y ∷ ys) x (Memᴰ.head p) e =
      ground (arith, (==_iff (name y) n).1 (ap name (sym p) ∙ e))
  count_of_mem n (y ∷ ys) x (Memᴰ.tail m) e = omega (arith, count_of_mem n ys x m e)

  -- What is listed once is taken by its name.
  pub take_only :
      (n : Text) (xs : List A) (x : A)
      → Memᴰ x xs
      → name x ≡ n
      → count name n xs ≤ 1
      → (rest : List A) × (take name n xs ≡ some (x, rest))
  unfolding count take
  take_only n [] x m e c = absurd (Memᴰ.not-nil m)
  take_only n (y ∷ ys) x (Memᴰ.head p) e c =
      (ys, rw ((==_iff (name y) n).1 (ap name (sym p) ∙ e)) (ap (λ z. some (z, ys)) (sym p)))
  take_only n (y ∷ ys) x (Memᴰ.tail m) e c = elim (Bool-cases (name y == n)) [
    | inl h ↦ absurd (ground (arith, count_of_mem n ys x m e))
    | inr h ↦ let (rest, t) = take_only n ys x m e (ground arith) in (y ∷ rest, rw (h, t) refl)
  ]

  -- What has another name is left.
  take_leaves :
      (n : Text) (xs rest : List A) (x z : A)
      → take name n xs ≡ some (x, rest)
      → Memᴰ z xs
      → name z ≢ n
      → Memᴰ z rest
  unfolding take
  take_leaves n [] rest x z h m d = absurd (Memᴰ.not-nil m)
  take_leaves n (y ∷ ys) rest x z h m d = elim (Bool-cases (name y == n)) [
    | inl e ↦
        let g = some-injective _ _ (rw (e, take) at h) in
        elim ((Memᴰ-cons z y ys).0 m) [
          | inl p ↦ absurd (d (ap name p ∙ (==_iff (name y) n).0 e))
          | inr k ↦ subst (Memᴰ z) (ap (λ r. r.1) g) k
        ]
    | inr e ↦ elim (Option-cases (take name n ys)) [
      | inl t ↦ ground arith
      | inr ((w, ws), t) ↦
          let g = some-injective _ _ (rw (e, t, take) at h) in
          subst (Memᴰ z) (ap (λ r. r.1) g) (elim ((Memᴰ-cons z y ys).0 m) [
            | inl p ↦ Memᴰ.head p
            | inr k ↦ Memᴰ.tail (take_leaves n ys ws w z t k d)
          ])
    ]
  ]

-- The service was marked ready, and it is active, or is a oneshot.
pub record IsUp (service : Service) (s : State) : Type 0 where
  pub was_ready : is_marked ready service.name s.deps ≡ true
  pub is_active : service.oneshot ≡ false → lookup service.name s.active ≢ none

IsUp-grow : (service : Service) (s t : State) → Grows s t → IsUp service s → IsUp service t
IsUp-grow service s t g u = record {
  was_ready = g.marks service.name u.was_ready;
  is_active = λ o. g.active service.name (u.is_active o);
}

module _ (g : Map Service) where
  -- Every service of the map is up, or waits at its start.
  pub record Boots (s : State) : Type 0 where
    pub calm : s.shut_down ≡ false
    pub valid : IsValid s
    pub there :
        (n : Text) (service : Service)
        → lookup n g ≡ some service
        → IsUp service s
          ⊎ (Memᴰ (record { service = service; phase = fresh }) s.waiting
              × (restart_count service.name s ≡ 0))

  -- The service of the name is up.
  abbrev pub NameIsUp : Text → State → Type 0
  NameIsUp n s = (service : Service) → lookup n g ≡ some service → IsUp service s

  -- `Q` holds, and what was up is up.
  abbrev pub Later : (State → Type 0) → State → State → Type 0
  Later Q s t = Boots t × Grows s t × Q t

  abbrev pub CanStart : Text → Type 0
  CanStart n = (s : State) → Boots s → Reach s (Later (NameIsUp n) s)

  pub all_start :
      (names : List Text) (s : State)
      → ((n : Text) → Memᴰ n names → CanStart n)
      → Boots s
      → Reach s (Later (λ t. (n : Text) → Memᴰ n names → NameIsUp n t) s)
  all_start [] s can b = reach_here _ s (b, Grows-refl s, λ n m. absurd (Memᴰ.not-nil m))
  all_start (d ∷ names) s can b =
      reach_then (Later (NameIsUp d) s) _ s (can d (Memᴰ.head refl) s b) (λ t (c, grow, is_up).
        reach_then (Later (λ u. (n : Text) → Memᴰ n names → NameIsUp n u) t) _ t
          (all_start names t (λ n m. can n (Memᴰ.tail m)) c)
          (λ u (e, more, all). reach_here _ u (
            e,
            Grows-trans s t u grow more,
            λ n m. elim ((Memᴰ-cons n d names).0 m) [
              | inl p ↦ rw p (λ v f. IsUp-grow v t u more (is_up v f))
              | inr k ↦ all n k
            ],
          )))

  -- A service that waits at its start is started, once its dependencies were marked ready.
  starts_one :
      ((n : Text) (service : Service) → lookup n g ≡ some service → service.name ≡ n)
      → (n : Text) (service : Service) (s : State) → lookup n g ≡ some service
      → ((d : Text) → Memᴰ d service.depends_on → is_marked ready d s.deps ≡ true)
      → Boots s
      → Reach s (Later (NameIsUp n) s)
  starts_one named n service s e is_ready b = elim (b.there n service e) [
    | inl h ↦
        reach_here _ s
          (b, Grows-refl s, λ v f. subst (λ x. IsUp x s) (some-injective service v (sym e ∙ f)) h)
    | inr (m, z) ↦
        let (rest, t) =
          take_only waiting_name service.name s.waiting
            (record { service = service; phase = fresh }) m refl
            (omega (arith, b.valid.once service.name)) in
        reach_then (HasStarted service rest s) (Later (NameIsUp n) s) s
          (started service rest s t b.calm b.valid z is_ready)
          (λ u h. reach_here (Later (NameIsUp n) s) u (
            after u rest h t,
            h.grows,
            λ v f. subst (λ x. IsUp x u) (some-injective service v (sym e ∙ f)) (now u rest h),
          ))
  ]
    where
      now : (u : State) (rest' : List Waiting) → HasStarted service rest' s u → IsUp service u
      now u r h = record { was_ready = h.was_ready; is_active = h.is_active }

      after :
          (u : State) (rest' : List Waiting)
          → HasStarted service rest' s u
          → take waiting_name service.name s.waiting
            ≡ some (record { service = service; phase = fresh }, rest')
          → Boots u
      after u r h t = record {
        calm = h.calm;
        valid = h.valid;
        there = λ m other f. elim (b.there m other f) [
          | inl x ↦ inl (IsUp-grow other s u h.grows x)
          | inr (w, z) ↦ elim (Bool-cases (m == n)) [
            | inl q ↦
                let i =
                  some-injective service other
                    (sym e ∙ ap (λ k. lookup k g) (sym ((==_iff m n).0 q)) ∙ f) in
                inl (subst (λ x. IsUp x u) i (now u r h))
            | inr q ↦
                let apart : other.name ≢ service.name =
                  λ p. ground (arith, ==_iff m n, named m other f, named n service e, p) in
                inr (
                  subst (Memᴰ (record { service = other; phase = fresh })) (sym h.waiting) (
                      take_leaves waiting_name service.name s.waiting r
                        (record { service = service; phase = fresh })
                        (record { service = other; phase = fresh }) t w apart),
                  h.counts other.name apart ∙ z,
                )
          ]
        ];
      }

  pub can_start :
      ((n : Text) (service : Service) → lookup n g ≡ some service → service.name ≡ n)
      → IsClosed g
      → (n : Text) → Grounded g n
      → lookup n g ≢ none
      → CanStart n
  can_start named closed n (grounded f) h s b = elim (Option-cases (lookup n g)) [
    | inl e ↦ absurd (h e)
    | inr (service, e) ↦
        reach_then (Later (λ t. (d : Text) → Memᴰ d service.depends_on → NameIsUp d t) s)
          (Later (NameIsUp n) s) s
          (all_start service.depends_on s
            (λ d m. can_start named closed d (f d (service, e, m)) (closed n d (service, e, m))) b)
          (λ t (c, grow, up).
            reach_then (Later (NameIsUp n) t) (Later (NameIsUp n) s) t
              (starts_one named n service t e
                (λ d m. elim (Option-cases (lookup d g)) [
                  | inl x ↦ absurd (closed n d (service, e, m) x)
                  | inr (v, x) ↦
                      subst (λ k. is_marked ready k t.deps ≡ true) (named d v x)
                        (up d m v x).was_ready
                ])
                c)
              (λ u (k, more, is_up).
                reach_here (Later (NameIsUp n) s) u (k, Grows-trans s t u grow more, is_up)))
  ]
