-- ===== src/Install/Laws.antt =====
-- What `installInPath` leaves under the paths.
use go_overlay.Base.{
  Text, lit, ◌==◌, ==_iff, true, ◌++◌, Option, none, some, if◌then◌else◌, if_elim, contains, ◌≡◌,
  ◌≢◌, ◌⊎◌, ◌∙◌, inl, inr, refl, sym, ap, arith, Option-cases, Result, ok, err,
}
use go_overlay.Install.{
  absent, link, other, Files, IsFiles, install_target, path_dirs, make_link, replace_link,
  install_in_path, not_a_link,
}

module _ (F : Files) (laws : IsFiles F) (dir : Text → Text) where
  -- What an installation of the executable makes of a world.
  pub record Installs (exec_path : Text) (w : F.World) (r : F.World × Option Text) : Type 0 where
    pub succeeds :
        r.1 ≡ none
        → (contains (dir exec_path) path_dirs ≡ true)
          ⊎ (F.entry install_target r.0 ≡ link exec_path)
    pub keeps : F.entry install_target w ≡ other → F.entry install_target r.0 ≡ other
    pub undone :
        (e : Text)
        → r.1 ≡ some e
        → (F.entry install_target r.0 ≡ F.entry install_target w)
          ⊎ ((t : Text) × (t ≢ exec_path)
              × (F.entry install_target w ≡ link t)
              × (F.entry install_target r.0 ≡ absent))
    pub others : (q : Text) → q ≢ install_target → F.entry q r.0 ≡ F.entry q w

  -- Nothing is done.
  nothing :
      (exec_path : Text) (w : F.World) (o : Option Text)
      → (o ≡ none
          → (contains (dir exec_path) path_dirs ≡ true)
            ⊎ (F.entry install_target w ≡ link exec_path))
      → Installs exec_path w (w, o)
  nothing exec_path w o d = record {
    succeeds = d;
    keeps = λ h. h;
    undone = λ e h. inl refl;
    others = λ q h. refl;
  }

  make_link-Installs :
      (exec_path : Text) (w : F.World) → Installs exec_path w (make_link F dir exec_path w)
  unfolding make_link
  make_link-Installs exec_path w = elim (Option-cases (F.symlink exec_path install_target w).1) [
    | inl e ↦
        rw (e, make_link)
          (record {
            succeeds = λ _. inr (laws.linked exec_path install_target w e).1;
            keeps = λ h. absurd (ground (arith, (laws.linked exec_path install_target w e).0));
            undone = λ x h. absurd (ground arith);
            others = λ q n. (laws.others exec_path install_target q w n).1;
          })
    | inr (x, e) ↦
        rw (e, make_link)
          (record {
            succeeds = λ h. absurd (ground arith);
            keeps = λ h. laws.not_linked exec_path install_target x w e ∙ h;
            undone = λ y h. inl (laws.not_linked exec_path install_target x w e);
            others = λ q n. (laws.others exec_path install_target q w n).1;
          })
  ]

  replace_link-Installs :
      (t exec_path : Text) (w : F.World)
      → F.entry install_target w ≡ link t
      → Installs exec_path w (replace_link F dir t exec_path w)
  unfolding replace_link
  replace_link-Installs t exec_path w l =
      if_elim {A = F.World × Option Text} (Installs exec_path w) (t == exec_path) _ _
        (λ h. nothing exec_path w none (λ _. inr (l ∙ ap link ((==_iff t exec_path).0 h))))
        (λ h.
          remove_first (λ i. ground (arith, ==_iff t exec_path)) (F.remove install_target w).1 refl)
    where
      w' : F.World
      w' = (F.remove install_target w).0

      link_after :
          t ≢ exec_path
          → (F.remove install_target w).1 ≡ none
          → Installs exec_path w (make_link F dir exec_path w')
      link_after n e =
          let gone = laws.removed install_target w e in
          let m = make_link-Installs exec_path w' in
          record {
            succeeds = m.succeeds;
            keeps = λ h. absurd (ground (arith, sym l ∙ h));
            undone = λ x h. elim (m.undone x h) [
              | inl same ↦ inr (t, n, l, same ∙ gone)
              | inr (u, _, k, _) ↦ absurd (ground (arith, sym k ∙ gone))
            ];
            others = λ q d. m.others q d ∙ (laws.others exec_path install_target q w d).0;
          }

      remove_first :
          t ≢ exec_path
          → (o : Option Text) → (F.remove install_target w).1 ≡ o
          → Installs exec_path w (elim o [
            | none ↦ make_link F dir exec_path w'
            | some e ↦ (w', some (lit "could not replace existing symlink: " ++ e))
          ])
      remove_first n none e = link_after n e
      remove_first n (some x) e = record {
        succeeds = λ h. absurd (ground arith);
        keeps = λ h. absurd (ground (arith, sym l ∙ h));
        undone = λ y h. inl (laws.not_removed install_target x w e);
        others = λ q d. (laws.others exec_path install_target q w d).0;
      }

  -- `installInPath` of an executable. No error is reported only where the executable lies in a
  -- directory of the path, or the link leads to it afterwards. What is not a link stays where it is.
  -- With an error nothing under the target has changed, or a link to something else is gone. No other
  -- path changes.
  pub install_in_path-Installs :
      (exec_path : Text) (w : F.World)
      → Installs exec_path w (install_in_path F dir (ok exec_path) w)
  unfolding install_in_path
  install_in_path-Installs exec_path w =
      if_elim {A = F.World × Option Text} (Installs exec_path w)
        (contains (dir exec_path) path_dirs) _ _ (λ h. nothing exec_path w none (λ _. inl h))
        (λ _. there (F.readlink install_target w) refl)
    where
      there :
          (r : Result Text)
          → F.readlink install_target w ≡ r
          → Installs exec_path w (elim r [
            | ok link_target ↦ replace_link F dir link_target exec_path w
            | err _ ↦
                if F.lstat install_target w
                then (w, some not_a_link)
                else make_link F dir exec_path w
          ])
      there (ok t) e = replace_link-Installs t exec_path w (laws.is_link install_target t w e)
      there (err x) e =
          if_elim {A = F.World × Option Text} (Installs exec_path w) (F.lstat install_target w) _ _
            (λ _. nothing exec_path w (some not_a_link) (λ h. absurd (ground arith)))
            (λ _. make_link-Installs exec_path w)
