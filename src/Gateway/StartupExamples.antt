-- ===== src/Gateway/StartupExamples.antt =====
-- The start of the gateway at a concrete file.
use imsystem.Prelude.{ℕ, none, some, ◌≡◌, refl, arith}
use imsystem.Prelude.Texts.{codes}
use imsystem.Common.Config.Plain.{IsWord, all_bytes, is_plain}
use imsystem.Common.Logger.{LogHost, info}
use imsystem.Gateway.Settings.{Settings, as_port}
use imsystem.Gateway.Startup.{start, server_and_log, start-server_and_log}

abbrev host : LogHost ℕ
host = record {
  parent_path = λ t. codes "logs";
  create_directories = λ t w. (none, w);
  open_file = λ t size files w. (none, w);
  complain = λ t w. w;
}

debug-IsWord : IsWord (codes "debug")
unfolding all_bytes is_plain codes
debug-IsWord = (refl, λ e. cc)

start-server_and_log_example :
    let ((settings, logger), v) =
      start host (some (server_and_log host 2 40000 (codes "debug"))) 8 0 in
    ((s : Settings) × (settings ≡ some s) × (as_port s.tcp_port ≡ 40000)) × (logger.level ≡ info)
start-server_and_log_example =
    start-server_and_log host {d = 2} {port = 40000} 8 0 (omega arith) (omega arith) debug-IsWord
