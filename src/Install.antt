-- ===== src/Install.antt =====
-- cmd/go-overlay/install.go: the link in `/usr/local/bin` that makes the program a command. The file
-- system is an interface over an unknown world.
pub mod Laws
use go_overlay.Base.{
  Text, lit, ◌==◌, Bool, List, [], ◌∷◌, ◌++◌, Option, none, some, if◌then◌else◌, contains, ◌≡◌, ◌≢◌,
}
use go_overlay.Base.{Result, ok, err}
use go_overlay.Environ.Override.{parse_bool_env}

-- what is under a path
pub data Entry : Type 0 where
  absent : Entry
  link : Text → Entry
  other : Entry

-- The calls of Go's `os`, and what is under each path. A call that changes something returns its
-- error, or none.
pub record Files : Type 1 where
  pub World : Type 0
  pub entry : Text → World → Entry
  pub readlink : Text → World → Result Text
  pub lstat : Text → World → Bool
  pub remove : Text → World → World × Option Text
  pub symlink : Text → Text → World → World × Option Text

-- `Readlink` succeeds at links only, and `Lstat` only where something is. A removal and a new link
-- change the one path, and only where they report no error; a new link wants the path free.
pub record IsFiles (F : Files) : Type 0 where
  pub is_link : (p t : Text) (w : F.World) → F.readlink p w ≡ ok t → F.entry p w ≡ link t
  pub is_there : (p : Text) (w : F.World) → F.lstat p w ≡ Bool.true → F.entry p w ≢ absent
  pub removed :
      (p : Text) (w : F.World) → (F.remove p w).1 ≡ none → F.entry p (F.remove p w).0 ≡ absent
  pub not_removed :
      (p e : Text) (w : F.World)
      → (F.remove p w).1 ≡ some e
      → F.entry p (F.remove p w).0 ≡ F.entry p w
  pub linked :
      (t p : Text) (w : F.World)
      → (F.symlink t p w).1 ≡ none
      → (F.entry p w ≡ absent) × (F.entry p (F.symlink t p w).0 ≡ link t)
  pub not_linked :
      (t p e : Text) (w : F.World)
      → (F.symlink t p w).1 ≡ some e
      → F.entry p (F.symlink t p w).0 ≡ F.entry p w
  pub others :
      (t p q : Text) (w : F.World)
      → q ≢ p
      → (F.entry q (F.remove p w).0 ≡ F.entry q w) × (F.entry q (F.symlink t p w).0 ≡ F.entry q w)

abbrev pub install_target : Text
install_target = lit "/usr/local/bin/go-overlay"

abbrev pub path_dirs : List Text
path_dirs = lit "/usr/local/bin" ∷ lit "/usr/bin" ∷ lit "/bin" ∷ []

abbrev pub not_a_link : Text
not_a_link = install_target ++ lit " already exists and is not a symlink"

module _ (F : Files) (dir : Text → Text) where
  -- the last step of `installInPath`
  unfoldable pub make_link : Text → F.World → F.World × Option Text
  make_link exec_path w =
      let (w', r) = F.symlink exec_path install_target w in
      elim r [
        | none ↦ (w', none)
        | some e ↦ (
          w',
          some (
              lit "could not create symlink "
              ++ install_target
              ++ lit ": "
              ++ e
              ++ lit " (try: ln -sf "
              ++ exec_path
              ++ lit " "
              ++ install_target
              ++ lit ")"),
        )
      ]

  -- `installInPath` where a link is there
  unfoldable pub replace_link : Text → Text → F.World → F.World × Option Text
  replace_link link_target exec_path w =
      if link_target == exec_path
      then (w, none)
      else let (w', r) = F.remove install_target w in
        elim r [
          | none ↦ make_link exec_path w'
          | some e ↦ (w', some (lit "could not replace existing symlink: " ++ e))
        ]

  -- `installInPath` with what `os.Executable` returns
  unfoldable pub install_in_path : Result Text → F.World → F.World × Option Text
  install_in_path (err e) w = (w, some (lit "could not determine executable path: " ++ e))
  install_in_path (ok exec_path) w =
      if contains (dir exec_path) path_dirs then (w, none) else elim (F.readlink install_target w) [
        | ok link_target ↦ replace_link link_target exec_path w
        | err _ ↦ if F.lstat install_target w then (w, some not_a_link) else make_link exec_path w
      ]

  -- `autoInstallInPath` with the value of the variable
  unfoldable pub auto_install_in_path : Option Text → Result Text → F.World → F.World
  auto_install_in_path none executable w = w
  auto_install_in_path (some raw) executable w = elim (parse_bool_env raw) [
    | none ↦ w
    | some enabled ↦ if enabled then (install_in_path executable w).0 else w
  ]
