-- ===== src/Health/Check.antt =====
-- One check of the health of a service: `performHealthCheck` of cmd/go-overlay/health.go. The request
-- and the shell are parameters.
use go_overlay.Base.{
  not, ℕ, Text, ◌==◌, Bool, true, false, ◌&&◌, Option, none, some, [], if◌then◌else◌, leb, ltb,
}
use go_overlay.Base.Int.{ℤ}
use go_overlay.Config.{HealthCheckConfig}
use go_overlay.Process.Children.{Children}
use go_overlay.Process.Run.{Machine, check_command_health}

-- `checkHTTPHealth` on the status of the response, if there is one
unfoldable pub check_http_health : Option ℕ → Bool
check_http_health none = false
check_http_health (some status) = leb 200 status && ltb status 400

module _ (M : Machine) where
  unfoldable pub perform_health_check :
      (Text → ℤ → Option ℕ) → HealthCheckConfig → Children → M.World → (Children × M.World) × Bool
  unfolding check_command_health
  perform_health_check get config children w =
      let checked = check_command_health M config.command children w in
      if not (config.endpoint == [])
      then ((children, w), check_http_health (get config.endpoint config.timeout))
      else if not (config.command == [])
      then checked
      else ((children, w), true)
