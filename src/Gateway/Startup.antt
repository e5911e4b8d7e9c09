-- ===== src/Gateway/Startup.antt =====
-- gateway/main.cpp: `main` up to the run of the server.
use imsystem.Prelude.{
  ℕ, Bool, not, Option, none, some, [], ◌<◌, ◌^◌, ◌≡◌, refl, ap, arith, if◌then◌else◌,
}
use imsystem.Prelude.Int.{pos}
use imsystem.Prelude.Texts.{Text, codes}
use imsystem.Common.Chars.Numbers.{to_string}
use imsystem.Common.Config.{ConfigMap, load}
use imsystem.Common.Config.Files.{file_of}
use imsystem.Common.Config.Numbers.{to_string-IsWord, get_int-to_string}
use imsystem.Common.Config.Plain.{IsWord, all_bytes, is_plain}
use imsystem.Common.Config.Sections.{two_sections, two_sections-get_string, two_sections-load}
use imsystem.Common.Logger.{Logger, LogHost, default_logger, info, init, init_logging}
use imsystem.Common.Logger.Levels.{log-IsWord, level-IsWord, init_logging-side_by_side}
use imsystem.Gateway.Settings.{
  Settings, as_port, tcp_setting, read_settings, read_settings-tcp_port,
}

module _ {W : Type 0} (host : LogHost W) where
  -- The settings with which the server is made, none if `main` returns early, and the logger.
  abbrev pub loaded : ℕ → Bool × ConfigMap → W → (Option Settings × Logger) × W
  loaded hardware_concurrency (ok, m) w =
      if not ok
      then (let (l, v) = init host (codes "logs/gateway.log") (codes "info") default_logger w in
          ((none, l), v))
      else (let (l, v) = init_logging host m (codes "logs/gateway.log") default_logger w in
          ((some (read_settings m hardware_concurrency), l), v))

  -- The file is none if it cannot be opened.
  unfoldable pub start : Option Text → ℕ → W → (Option Settings × Logger) × W
  start file hardware_concurrency w = loaded hardware_concurrency (load file) w

  abbrev pub server_and_log : ℕ → ℕ → Text → Text
  server_and_log d port level = file_of (
      two_sections d (codes "server") (codes "tcp_port") (to_string port) (codes "log")
        (codes "level") level)

  server-IsWord : IsWord (codes "server")
  unfolding all_bytes is_plain codes
  server-IsWord = (refl, λ e. cc)

  tcp_port-IsWord : IsWord (codes "tcp_port")
  unfolding all_bytes is_plain codes
  tcp_port-IsWord = (refl, λ e. cc)

  -- What is read of the file: its port.
  port_read :
      {d port : ℕ} {level : Text}
      → 0 < d
      → port < 2 ^ 16
      → IsWord level
      → tcp_setting (load (some (server_and_log d port level))).1 ≡ pos port
  unfolding codes
  port_read {d} {port} {level} deep small wl =
      get_int-to_string _ (codes "server.tcp_port") port (pos 9000) (omega (arith, small))
        (two_sections-get_string {d = d} deep server-IsWord tcp_port-IsWord (to_string-IsWord port)
          log-IsWord level-IsWord wl [] (λ e. cc)).0

  -- If the file of the gateway has its port, a 16-bit number, in the section of the server, and
  -- beside it the section of the log with any level, then the gateway goes on with that port, and
  -- its log has the level info.
  pub start-server_and_log :
      {d port : ℕ} {level : Text} (processors : ℕ) (w : W)
      → 0 < d
      → port < 2 ^ 16
      → IsWord level
      → let ((settings, logger), v) = start (some (server_and_log d port level)) processors w in
        ((s : Settings) × (settings ≡ some s) × (as_port s.tcp_port ≡ port)) × (logger.level ≡ info)
  unfolding start
  start-server_and_log {d} {port} {level} processors w deep small wl =
      let m = (load (some (server_and_log d port level))).1 in
      let ok =
        ap (λ (c : Bool × ConfigMap). c.0)
          (two_sections-load {d = d} deep server-IsWord tcp_port-IsWord (to_string-IsWord port)
            log-IsWord level-IsWord wl) in
      rw ok (
        (
          read_settings m processors,
          refl,
          read_settings-tcp_port m processors port (port_read deep small wl) small,
        ),
        init_logging-side_by_side host (codes "logs/gateway.log") deep tcp_port-IsWord
            (to_string-IsWord port) wl server-IsWord w,
      )
