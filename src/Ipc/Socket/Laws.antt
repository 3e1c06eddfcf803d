-- ===== src/Ipc/Socket/Laws.antt =====
-- What the start and the end of the server leave of the socket and the listeners.
use go_overlay.Base.{
  Text, Bool, true, false, none, some, Result, ok, err, ◌≡◌, ◌≢◌, ◌∙◌, inl, inr, sym, ap, subst,
  arith, Option-cases, Result-cases, Bool-cases,
}
use go_overlay.Ipc.Server.{Sentinel, err_not_exist}
use go_overlay.Ipc.Socket.{
  Sockets, SameElsewhere, SameListeners, IsSockets, socket_mode, remove_socket_file_if_present,
  restrict, start_ipc_server, stop_ipc_server,
}

module _ (S : Sockets) (is : Text → Sentinel → Bool) (laws : IsSockets S is)
    (socket_path : Text) where
  -- What the start of the server makes of a world.
  pub record Starts (w : S.World) (r : S.World × Result S.Listener) : Type 0 where
    pub serves :
        (l : S.Listener)
        → r.1 ≡ ok l
        → (S.listening l w ≡ false)
          × (S.listening l r.0 ≡ true)
          × (S.path_of l ≡ socket_path)
          × (S.mode socket_path r.0 ≡ some socket_mode)
          × ((k : S.Listener) → k ≢ l → S.listening k r.0 ≡ S.listening k w)
    pub fails : (e : Text) → r.1 ≡ err e → SameListeners S w r.0
    pub others : SameElsewhere S socket_path w r.0

  -- What its end makes of a later world, where the path can be removed or is free.
  pub record Stops (l : S.Listener) (w w' : S.World) : Type 0 where
    pub stops : S.listening l w' ≡ false
    pub same : (k : S.Listener) → k ≢ l → S.listening k w' ≡ S.listening k w
    pub others : SameElsewhere S socket_path w w'
    pub frees :
        ((e : Text)
          → (S.remove socket_path (S.close_listener l w).0).1 ≡ some e
          → is e err_not_exist ≡ true)
        → S.mode socket_path w' ≡ none

  ok-injective : {A : Type 0} (a b : A) → ok a ≡ ok b → a ≡ b
  ok-injective a b h = cc

  -- Where a listener opens and closes, the listeners are as they were.
  closed_again :
      (l : S.Listener) (v w : S.World)
      → S.listening l v ≡ false
      → S.listening l w ≡ false
      → ((k : S.Listener) → k ≢ l → S.listening k w ≡ S.listening k v)
      → SameListeners S v w
  closed_again l v w a b same k = elim (Bool-cases (S.listening k v)) [
    | inl e ↦ same k (λ h. absurd (ground (arith, e, a, ap (λ j. S.listening j v) h)))
    | inr e ↦ elim (Bool-cases (S.listening k w)) [
      | inl f ↦ same k (λ h. absurd (ground (arith, f, b, ap (λ j. S.listening j w) h)))
      | inr f ↦ f ∙ sym e
    ]
  ]

  -- A listener that was just opened, and nothing else
  record Opens (l : S.Listener) (v w : S.World) : Type 0 where
    was : S.listening l v ≡ false
    opens : S.listening l w ≡ true
    path : S.path_of l ≡ socket_path
    same : (k : S.Listener) → k ≢ l → S.listening k w ≡ S.listening k v
    others : SameElsewhere S socket_path v w

  restrict-Starts :
      (l : S.Listener) (v w : S.World) → Opens l v w → Starts v (restrict S socket_path l w)
  unfolding restrict
  restrict-Starts l v w o =
      let (else, kept) = laws.chmod_keeps socket_path socket_mode w in
      let u = (S.chmod socket_path socket_mode w).0 in
      let (shut, rest, off) = laws.closed l u in
      elim (Option-cases (S.chmod socket_path socket_mode w).1) [
        | inl e ↦
            rw (e, restrict)
              (record {
                serves = λ k h.
                    let i = ok-injective l k h in
                    subst
                      (λ j.
                        (S.listening j v ≡ false)
                        × (S.listening j u ≡ true)
                        × (S.path_of j ≡ socket_path)
                        × (S.mode socket_path u ≡ some socket_mode)
                        × ((k : S.Listener) → k ≢ j → S.listening k u ≡ S.listening k v))
                      i
                      (
                        o.was,
                        kept l ∙ o.opens,
                        o.path,
                        laws.changed socket_path socket_mode w e,
                        λ j d. kept j ∙ o.same j d,
                      );
                fails = λ x h. absurd (ground arith);
                others = λ q d. else q d ∙ o.others q d;
              })
        | inr (x, e) ↦
            rw (e, restrict)
              (record {
                serves = λ k h. absurd (ground arith);
                fails =
                    λ y h. closed_again l v _ o.was shut (λ k d. rest k d ∙ kept k ∙ o.same k d);
                others = λ q d. off q (λ h. d (h ∙ o.path)) ∙ else q d ∙ o.others q d;
              })
      ]

  stop_ipc_server-Stops :
      (l : S.Listener) (w : S.World)
      → S.path_of l ≡ socket_path
      → Stops l w (stop_ipc_server S socket_path (some l) w)
  unfolding stop_ipc_server remove_socket_file_if_present
  stop_ipc_server-Stops l w p =
      let (shut, rest, off) = laws.closed l w in
      let u = (S.close_listener l w).0 in
      let (else, kept) = laws.remove_keeps socket_path u in
      record {
        stops = kept l ∙ shut;
        same = λ k d. kept k ∙ rest k d;
        others = λ q d. else q d ∙ off q (λ h. d (h ∙ p));
        frees = λ f. elim (Option-cases (S.remove socket_path u).1) [
          | inl e ↦ laws.removed socket_path u e
          | inr (x, e) ↦
              laws.not_removed socket_path x u e ∙ laws.not_there socket_path x u e (f x e)
        ];
      }

  start_ipc_server-Starts : (w : S.World) → Starts w (start_ipc_server S socket_path w)
  unfolding start_ipc_server remove_socket_file_if_present
  start_ipc_server-Starts w =
      let v = (S.remove socket_path w).0 in
      let (away, held) = laws.remove_keeps socket_path w in
      let u = (S.listen socket_path v).0 in
      let else = laws.listen_keeps socket_path v in
      elim (Result-cases (S.listen socket_path v).1) [
        | inl (l, e) ↦
            let (was, opens, path, same) = laws.listens socket_path l v e in
            rw (e, start_ipc_server)
              (restrict-Starts l w u (record {
                was = sym (held l) ∙ was;
                opens = opens;
                path = path;
                same = λ k d. same k d ∙ held k;
                others = λ q d. else q d ∙ away q d;
              }))
        | inr (x, e) ↦
            rw (e, start_ipc_server)
              (record {
                serves = λ l h. absurd (ground arith);
                fails = λ y h k. laws.not_listens socket_path x v e k ∙ held k;
                others = λ q d. else q d ∙ away q d;
              })
      ]

  -- Where the calls of the system keep their laws, the start of the server leaves the other paths as
  -- they were. If it succeeds, one listener more is open than before, and the socket has the mode
  -- 0600; if it fails, the listeners that are open are those from before. The end of the server in a
  -- later world closes the listener that the start gave, touches no other listener and no other path,
  -- and frees the path unless its removal fails for another reason than that nothing is there.
  pub start_ipc_server-Stops :
      (w : S.World)
      → Starts w (start_ipc_server S socket_path w)
        × ((l : S.Listener) (later : S.World)
            → (start_ipc_server S socket_path w).1 ≡ ok l
            → Stops l later (stop_ipc_server S socket_path (some l) later))
  start_ipc_server-Stops w =
      let starts = start_ipc_server-Starts w in
      (starts, λ l later h. stop_ipc_server-Stops l later (starts.serves l h).2)
