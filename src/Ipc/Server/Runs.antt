-- ===== src/Ipc/Server/Runs.antt =====
-- What the operators send never stops the supervisor, and each connection is kept for its answer.
use go_overlay.Base.{
  All, All-put, ℕ, zero, suc, ◌+◌, ◌≤◌, Text, Bool, true, false, ◌||◌, List, [], ◌∷◌, ◌++◌, Option,
  none, some, ◌≡◌, ◌∙◌, inl, inr, refl, sym, ap, subst, arith, Option-cases, Bool-cases, ◌==◌,
  if◌then◌else◌,
}
use go_overlay.Ipc.{Codec, Observed, handle_ipc_connection}
use go_overlay.Ipc.Server.{
  Sentinel, is_stream_closed, Arrival, happens, connects, fails, answers, Served, take_at,
  on_accept_error, answer_request, arrive, run_served,
}
use go_overlay.Ipc.Server.Answers.{
  Comes, IsAnswered, handle_ipc_connection-IsAnswered, handle_ipc_connection-Comes,
}
use go_overlay.Supervisor.{◌>>=◌}
use go_overlay.Supervisor.Reach.{reach_here, reach_step, reach_then}
use go_overlay.Supervisor.Invariant.{IsValid}
use go_overlay.Supervisor.Safety.{step-IsValid}

-- how often a request is in a list
abbrev pub times : Text → List Text → ℕ
times r [] = 0
times r (x ∷ xs) = let rest = times r xs in if x == r then suc rest else rest

-- the connections with a request that arrive
abbrev pub connections : Text → List Arrival → ℕ
connections r [] = 0
connections r (connects request ∷ xs) = times r (request ∷ []) + connections r xs
connections r (happens e ∷ xs) = connections r xs
connections r (fails e ∷ xs) = connections r xs
connections r (answers k observed ∷ xs) = connections r xs

-- the requests of the connections that were handled
abbrev pub handled : List (Text × Option Text) → List Text
handled [] = []
handled ((request, reply) ∷ rest) = request ∷ handled rest

-- the connections with a request that the server has had
abbrev pub had : Text → Served → ℕ
had r m = times r (handled m.responses) + times r m.pending

rest_of : Option (Text × List Text) → List Text
rest_of none = []
rest_of (some (x, rest)) = rest

first_of : Option (Text × List Text) → Text
first_of none = []
first_of (some (x, rest)) = x

times-append : (r : Text) (xs ys : List Text) → times r (xs ++ ys) ≡ times r xs + times r ys
times-append r [] ys = omega arith
times-append r (x ∷ xs) ys = ground (arith, times-append r xs ys)

handled-put :
    (xs : List (Text × Option Text)) (request : Text) (reply : Option Text)
    → handled (xs ++ (request, reply) ∷ []) ≡ handled xs ++ request ∷ []
handled-put [] request reply = refl
handled-put ((a, b) ∷ xs) request reply = ap (λ t. a ∷ t) (handled-put xs request reply)

times-cons : (r x : Text) (xs : List Text) → times r (x ∷ xs) ≡ times r (x ∷ []) + times r xs
times-cons r x xs = ground arith

take_at-times :
    (r : Text) (k : ℕ) (xs rest : List Text) (x : Text)
    → take_at k xs ≡ some (x, rest)
    → times r xs ≡ times r (x ∷ []) + times r rest
unfolding rest_of first_of
take_at-times r k [] rest x h = absurd (ground arith)
take_at-times r zero (y ∷ xs) rest x h =
    times-cons r y xs ∙ ap (λ o. times r (first_of o ∷ []) + times r (rest_of o)) h
take_at-times r (suc k) (y ∷ xs) rest x h = elim (Option-cases (take_at k xs)) [
  | inl e ↦ absurd (ground (arith, e))
  | inr ((z, left), e) ↦
      let ih = take_at-times r k xs left z e in
      let moved : times r (y ∷ xs) ≡ times r (z ∷ []) + times r (y ∷ left) = ground (arith, ih) in
      moved ∙ ap (λ o. times r (first_of o ∷ []) + times r (rest_of o)) (rw e at h)
]

module _ (codec : Codec) (is : Text → Sentinel → Bool) (q : Text) where
  -- What some arrivals with so many connections make of the server.
  pub record Serves (n : ℕ) (m m' : Served) : Type 0 where
    pub comes : Comes m.supervisor m'.supervisor
    pub goes_on : m'.accepting ≡ true → m.accepting ≡ true
    pub counted : m'.accepting ≡ true → had q m' ≡ n + had q m
    pub bounded : had q m' ≤ n + had q m
    pub answered : All (IsAnswered codec) m.responses → All (IsAnswered codec) m'.responses

  stays : (m : Served) (n : ℕ) → IsValid m.supervisor → m.accepting ≡ false → Serves n m m
  stays m n v e = record {
    comes = reach_here (λ u. (u ≡ m.supervisor) × IsValid u) m.supervisor (refl, v);
    goes_on = λ h. h;
    counted = λ h. absurd (ground (arith, e));
    bounded = omega arith;
    answered = λ h. h;
  }

  idle : (m : Served) → IsValid m.supervisor → Serves 0 m m
  idle m v = record {
    comes = reach_here (λ u. (u ≡ m.supervisor) × IsValid u) m.supervisor (refl, v);
    goes_on = λ h. h;
    counted = λ h. omega arith;
    bounded = omega arith;
    answered = λ h. h;
  }

  connects-Serves :
      (request : Text) (m : Served)
      → IsValid m.supervisor
      → Serves
          (connections q (connects request ∷ []))
          m
          (record m { pending = m.pending ++ request ∷ [] })
  connects-Serves request m v =
      let put = times-append q m.pending (request ∷ []) in
      record {
        comes = reach_here (λ u. (u ≡ m.supervisor) × IsValid u) m.supervisor (refl, v);
        goes_on = λ h. h;
        counted = λ h. omega (arith, put);
        bounded = omega (arith, put);
        answered = λ h. h;
      }

  -- the loop ends, or it goes on as it was
  fails-Serves :
      (e : Text) (m : Served) → IsValid m.supervisor → Serves 0 m (on_accept_error codec is e m)
  unfolding on_accept_error
  fails-Serves e m v = elim (Bool-cases (m.supervisor.shut_down || is_stream_closed is e)) [
    | inl b ↦
        rw (b, on_accept_error)
          (record {
            comes = reach_here (λ u. (u ≡ m.supervisor) × IsValid u) m.supervisor (refl, v);
            goes_on = λ h. absurd (ground arith);
            counted = λ h. omega arith;
            bounded = omega arith;
            answered = λ h. h;
          })
    | inr b ↦ rw (b, on_accept_error) (idle m v)
  ]

  answer_request-Serves :
      (observed : Observed) (request : Text) (k : ℕ) (rest : List Text) (m : Served)
      → take_at k m.pending ≡ some (request, rest)
      → IsValid m.supervisor
      → Serves 0 m (answer_request codec is observed request rest m)
  unfolding answer_request
  answer_request-Serves observed request k rest m e v =
      let reply = (handle_ipc_connection codec observed request m.supervisor).1 in
      let taken = take_at-times q k m.pending rest request e in
      let sent =
        ap (times q) (handled-put m.responses request reply)
        ∙ times-append q (handled m.responses) (request ∷ []) in
      record {
        comes = handle_ipc_connection-Comes codec observed request m.supervisor v;
        goes_on = λ h. h;
        counted = λ h. omega (arith, taken, sent);
        bounded = omega (arith, taken, sent);
        answered = λ h.
            All-put (IsAnswered codec) m.responses (request, reply) h
              (handle_ipc_connection-IsAnswered codec observed request m.supervisor v);
      }

  pub arrive-Serves :
      (x : Arrival) (m : Served)
      → IsValid m.supervisor
      → (m' : Served) × (arrive codec is x m ≡ some m') × Serves (connections q (x ∷ [])) m m'
  unfolding arrive on_accept_error
  arrive-Serves (happens e) m v =
      let (t, h, w) = step-IsValid e m.supervisor v in
      let m' : Served = record m { supervisor = t } in
      let serves : Serves 0 m m' = record {
        comes = reach_step (λ u. (u ≡ t) × IsValid u) e m.supervisor t h (refl, w);
        goes_on = λ a. a;
        counted = λ a. omega arith;
        bounded = omega arith;
        answered = λ h. h;
      } in
      (m', ap (λ o. o >>= (λ u. some (record m { supervisor = u }))) h, serves)
  arrive-Serves (connects request) m v = elim (Bool-cases m.accepting) [
    | inl a ↦
        let m' : Served = record m { pending = m.pending ++ request ∷ [] } in
        (m', rw a refl, connects-Serves request m v)
    | inr a ↦ (m, rw a refl, stays m _ v a)
  ]
  arrive-Serves (fails e) m v = elim (Bool-cases m.accepting) [
    | inl a ↦ (on_accept_error codec is e m, rw a refl, fails-Serves e m v)
    | inr a ↦ (m, rw a refl, stays m 0 v a)
  ]
  arrive-Serves (answers k observed) m v = elim (Option-cases (take_at k m.pending)) [
    | inl h ↦ (m, rw (h, arrive) refl, idle m v)
    | inr ((request, rest), h) ↦ (
      answer_request codec is observed request rest m,
      rw (h, arrive) refl,
      answer_request-Serves observed request k rest m h v,
    )
  ]

  then_Serves : (j k : ℕ) (l m n : Served) → Serves j l m → Serves k m n → Serves (j + k) l n
  then_Serves j k l m n a b = record {
    comes =
        reach_then (λ u. (u ≡ m.supervisor) × IsValid u) (λ u. (u ≡ n.supervisor) × IsValid u)
          l.supervisor a.comes (λ t p. subst (λ u. Comes u n.supervisor) (sym p.0) b.comes);
    goes_on = λ h. a.goes_on (b.goes_on h);
    counted = λ h. omega (arith, b.counted h, a.counted (b.goes_on h));
    bounded = omega (arith, a.bounded, b.bounded);
    answered = λ h. b.answered (a.answered h);
  }

  connections-cons :
      (x : Arrival) (xs : List Arrival)
      → connections q (x ∷ xs) ≡ connections q (x ∷ []) + connections q xs
  connections-cons (happens e) xs = omega arith
  connections-cons (connects request) xs = omega arith
  connections-cons (fails e) xs = omega arith
  connections-cons (answers k observed) xs = omega arith

  pub run_served-Serves :
      (xs : List Arrival) (m : Served)
      → IsValid m.supervisor
      → (m' : Served) × (run_served codec is xs m ≡ some m') × Serves (connections q xs) m m'
  unfolding run_served
  run_served-Serves [] m v = (m, refl, idle m v)
  run_served-Serves (x ∷ xs) m v =
      let (t, h, s) = arrive-Serves x m v in
      let w = subst IsValid s.comes.3.0 s.comes.3.1 in
      let (u, g, r) = run_served-Serves xs t w in
      (
        u,
        ap (λ o. o >>= run_served codec is xs) h ∙ g,
        subst (λ n. Serves n m u) (sym (connections-cons x xs))
            (then_Serves (connections q (x ∷ [])) (connections q xs) m t u s r),
      )
