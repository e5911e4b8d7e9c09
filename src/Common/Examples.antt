-- ===== src/Common/Examples.antt =====
-- The shared library at concrete inputs.
use imsystem.Prelude.{ℕ, zero, suc, ◌≤◌, some, List, [], ◌≡◌, ◌≢◌, ◌↔◌, refl, arith}
use imsystem.Prelude.Int.{pos}
use imsystem.Prelude.Texts.{Text, codes}
use imsystem.Common.Effect.{other_exception, returned, thrown, Io}
use imsystem.Common.Retry.{execute_with_retry}
use imsystem.Common.Retry.Attempts.{Ends, execute_with_retry-Ends}
use imsystem.Common.StringUtils
use imsystem.Common.StringUtils.Splitting.{split-ends}
use imsystem.Common.Config.{get_string, load}
use imsystem.Common.Config.Plain.{IsWord, all_bytes, is_plain}
use imsystem.Common.Config.Files.{file_of}
use imsystem.Common.Config.Sections.{dotted, two_sections, two_sections-get_string}

-- A function that fails as often as the world says.
abbrev flaky : Io ℕ ℕ
flaky zero = (returned 42, zero)
flaky (suc n) = (thrown other_exception, n)

execute_with_retry-Ends_example :
    (execute_with_retry (λ n w. w) (pos 3) 500 flaky 2 ≡ (returned 42, 0))
    ↔ Ends (λ n w. w) 500 flaky 3 2 (returned 42, 0)
execute_with_retry-Ends_example =
    execute_with_retry-Ends (λ n w. w) 500 flaky (pos 3) 2 (returned 42, 0)

flaky-keeps : (w : ℕ) → w ≤ 9 → (flaky w).1 ≤ 9
flaky-keeps zero h = omega arith
flaky-keeps (suc n) h = omega arith

abbrev padded : Text
padded = codes "  a b "

split-ends_example :
    (tokens : List Text) × (StringUtils.split (codes "a,b") (codes ",") ≡ some tokens)
unfolding codes
split-ends_example = split-ends (codes "a,b") (codes ",") (omega arith)

server-IsWord : IsWord (codes "server")
unfolding all_bytes is_plain codes
server-IsWord = (refl, λ e. cc)

port-IsWord : IsWord (codes "port")
unfolding all_bytes is_plain codes
port-IsWord = (refl, λ e. cc)

number-IsWord : IsWord (codes "8080")
unfolding all_bytes is_plain codes
number-IsWord = (refl, λ e. cc)

log-IsWord : IsWord (codes "log")
unfolding all_bytes is_plain codes
log-IsWord = (refl, λ e. cc)

level-IsWord : IsWord (codes "level")
unfolding all_bytes is_plain codes
level-IsWord = (refl, λ e. cc)

info-IsWord : IsWord (codes "info")
unfolding all_bytes is_plain codes
info-IsWord = (refl, λ e. cc)

log_is_another : codes "server" ≢ codes "log"
unfolding codes
log_is_another e = cc

two_sections-get_string_example :
    let m =
      (load (
        some (
          file_of (
            two_sections 2
              (codes "server")
              (codes "port")
              (codes "8080")
              (codes "log")
              (codes "level")
              (codes "info"))))).1 in
    (get_string m (dotted (codes "server") (codes "port")) [] ≡ codes "8080")
    × (get_string m (dotted (dotted (codes "server") (codes "log")) (codes "level")) []
        ≡ codes "info")
    × (get_string m (dotted (codes "log") (codes "level")) [] ≡ [])
two_sections-get_string_example =
    two_sections-get_string {d = 2} (omega arith) server-IsWord port-IsWord number-IsWord log-IsWord
      level-IsWord info-IsWord [] log_is_another
