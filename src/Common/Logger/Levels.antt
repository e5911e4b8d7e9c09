-- ===== src/Common/Logger/Levels.antt =====
-- Which level the log of a service gets.
use imsystem.Prelude.{ℕ, ◌<◌, ◌*◌, Option, none, some, ◌≡◌, refl, ◌∙◌, ap}
use imsystem.Prelude.Texts.{Text, codes, text_eq}
use imsystem.Common.Config.{load, get_string}
use imsystem.Common.Config.Files.{file_of}
use imsystem.Common.Config.Plain.{IsWord, all_bytes, is_plain}
use imsystem.Common.Config.Sections.{two_sections, two_sections-get_string}
use imsystem.Common.Logger.{
  LogHost, default_logger, info, level_of, opened, make_directories, init, init_logging,
}

pub log-IsWord : IsWord (codes "log")
unfolding all_bytes is_plain codes
log-IsWord = (refl, λ e. cc)

pub level-IsWord : IsWord (codes "level")
unfolding all_bytes is_plain codes
level-IsWord = (refl, λ e. cc)

module _ {W : Type 0} (host : LogHost W) where
  init-info :
      (log_file : Text) (w : W)
      → (init host log_file (codes "info") default_logger w).0.level ≡ info
  unfolding init level_of text_eq codes
  init-info log_file w =
      level_left (host.open_file log_file (1024 * 1024 * 10) 3 (make_directories host log_file w))
    where
      level_left :
          (r : Option Text × W)
          → (opened host default_logger log_file (codes "info") r).0.level ≡ info
      level_left (none, v) = refl
      level_left (some what, v) = refl

  -- In a file where the section of the log stands beside the section of the server, as in the
  -- files of the services, the level is not read: whatever it says, the log has the level info.
  pub init_logging-side_by_side :
      {d : ℕ} {k v level : Text} (default_file : Text)
      → 0 < d
      → IsWord k
      → IsWord v
      → IsWord level
      → IsWord (codes "server")
      → (w : W)
      → (init_logging host
          (load (
            some (
              file_of (two_sections d (codes "server") k v (codes "log") (codes "level") level)))).1
          default_file
          default_logger
          w).0.level
        ≡ info
  unfolding init_logging codes
  init_logging-side_by_side {d} {k} {v} {level} default_file deep wk wv wl ws w =
      ap
        (λ t.
          (init host
            (get_string
              (load (
                some (
                  file_of
                    (two_sections d (codes "server") k v (codes "log") (codes "level") level)))).1
              (codes "log.file") default_file)
            t default_logger w).0.level)
        (two_sections-get_string {d = d} deep ws wk wv log-IsWord level-IsWord wl (codes "info")
          (λ e. cc)).2
      ∙ init-info _ w
