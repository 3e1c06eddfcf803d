-- ===== src/Validation/Host.antt =====
-- What the checks of cmd/go-overlay/validation.go ask the machine: the operating system and the
-- file system are not part of the source, so each question is a function of the model's host.
use go_overlay.Base.{ℕ, Text, Bool, Option, List}

-- `user.User`, and the result of its `GroupIds`
pub record User : Type 0 where
  pub uid : Text
  pub gid : Text
  pub home_dir : Text
  pub group_ids : Option (List Text)

pub record Host : Type 0 where
  -- `exec.LookPath(name)` succeeds
  pub look_path : Text → Bool
  -- `os.Stat(path)` fails with an error of which `os.IsNotExist` is true
  pub stat_not_exist : Text → Bool
  -- `filepath.Dir(path)`
  pub dir : Text → Text
  -- `user.Lookup(name)`
  pub lookup_user : Text → Option User
  -- `os.Geteuid()`
  pub geteuid : ℕ
