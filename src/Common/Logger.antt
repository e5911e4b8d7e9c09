-- ===== src/Common/Logger.antt =====
-- common/src/logger/logger.cpp. Spdlog and the file system are parameters. What spdlog throws is its
-- own error, which `Init` catches.
use imsystem.Prelude.{Option, none, some, ℕ, ◌*◌, is_empty, if◌then◌else◌}
pub mod Levels
use imsystem.Common.Config.{ConfigMap, get_string}
use imsystem.Prelude.Texts.{Text, codes, text_eq}

pub data Level : Type 0 where
  debug info warn error : Level

-- A logger is known by its level and, behind `Init`, its file.
pub record Logger : Type 0 where
  pub file : Option Text
  pub level : Level

pub record LogHost (W : Type 0) : Type 0 where
  pub parent_path : Text → Text
  -- The message of the error code, if the directories cannot be made.
  pub create_directories : Text → W → Option Text × W
  -- The file that rotates at a size, with as many old ones: the message of what spdlog throws, or
  -- none.
  pub open_file : Text → ℕ → ℕ → W → Option Text × W
  -- Standard error.
  pub complain : Text → W → W

-- The logger before `Init`.
abbrev pub default_logger : Logger
default_logger = record { file = none; level = info }

unfoldable pub level_of : Text → Level
level_of level =
    if text_eq level (codes "debug")
    then debug
    else if text_eq level (codes "warn")
    then warn
    else if text_eq level (codes "error")
    then error
    else info

module _ {W : Type 0} (host : LogHost W) where
  abbrev pub complained : Option Text × W → W
  complained (none, w) = w
  complained (some message, w) = host.complain message w

  abbrev pub make_parent : Text → W → W
  make_parent parent w =
      if is_empty parent then w else complained (host.create_directories parent w)

  abbrev pub make_directories : Text → W → W
  make_directories log_file w =
      if is_empty log_file then w else make_parent (host.parent_path log_file) w

  abbrev pub opened : Logger → Text → Text → Option Text × W → Logger × W
  opened l log_file level (none, w) = (record { file = some log_file; level = level_of level }, w)
  opened l log_file level (some what, w) = (l, host.complain what w)

  unfoldable pub init : Text → Text → Logger → W → Logger × W
  init log_file level l w =
      opened l log_file level
        (host.open_file log_file (1024 * 1024 * 10) 3 (make_directories log_file w))

  -- How each service sets up its log with what it read of its configuration.
  unfoldable pub init_logging : ConfigMap → Text → Logger → W → Logger × W
  init_logging m default_file =
      init (get_string m (codes "log.file") default_file)
        (get_string m (codes "log.level") (codes "info"))
