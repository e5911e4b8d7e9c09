-- ===== src/Gateway/Settings.antt =====
-- gateway/main.cpp: what `main` reads of the configuration before it makes the server.
use imsystem.Prelude.{
  ℕ, zero, suc, false, ◌+◌, ◌*◌, ◌/◌, ◌-◌, ◌%◌, ◌^◌, ◌<◌, ◌≤◌, ltb, ◌==◌, ◌≡◌, refl, ◌∙◌, arith,
  if◌then◌else◌, Bool-cases, inl, inr,
}
use imsystem.Prelude.Int.{ℤ, pos, negsuc}
use imsystem.Prelude.Texts.{codes}
use imsystem.Common.Config.Ranges.{IsInt, get_int-IsInt}
use imsystem.Common.Config.{ConfigMap, get_int}

-- The conversion of an `int` to `short`.
unfoldable pub as_short : ℤ → ℤ
as_short (pos n) = let u = n % 2 ^ 16 in if ltb u (2 ^ 15) then pos u else negsuc (2 ^ 16 - u - 1)
as_short (negsuc n) =
    let u = n % 2 ^ 16 in if ltb u (2 ^ 15) then negsuc u else pos (2 ^ 16 - u - 1)

-- The conversion of a `short` to the `unsigned short` of an endpoint.
abbrev pub as_port : ℤ → ℕ
as_port (pos n) = n
as_port (negsuc n) = 2 ^ 16 - suc n

-- The conversion of an `int` to `size_t`.
abbrev pub as_size : ℤ → ℕ
as_size (pos n) = n
as_size (negsuc n) = 2 ^ 64 - suc n

unfoldable pub thread_count : ℤ → ℕ → ℕ
thread_count configured hardware_concurrency =
    if as_size configured == 0
    then (if hardware_concurrency == 0 then 4 else hardware_concurrency)
    else as_size configured

pub record Settings : Type 0 where
  pub tcp_port : ℤ
  pub http_port : ℤ
  pub threads : ℕ

abbrev pub tcp_setting : ConfigMap → ℤ
tcp_setting m = get_int m (codes "server.tcp_port") (pos 9000)

abbrev pub http_setting : ConfigMap → ℤ
http_setting m = get_int m (codes "server.http_port") (pos 8080)

abbrev pub threads_setting : ConfigMap → ℤ
threads_setting m = get_int m (codes "server.thread_pool_size") (pos 0)

unfoldable pub read_settings : ConfigMap → ℕ → Settings
unfolding as_short thread_count
read_settings m hardware_concurrency = record {
  tcp_port = as_short (tcp_setting m);
  http_port = as_short (http_setting m);
  threads = thread_count (threads_setting m) hardware_concurrency;
}

as_port-as_short : (n : ℕ) → as_port (as_short (pos n)) ≡ n % 2 ^ 16
unfolding as_short
as_port-as_short n = elim (Bool-cases (ltb (n % 2 ^ 16) (2 ^ 15))) [
  | inl e ↦ rw e refl
  | inr e ↦ rw e (ground arith)
]

-- A 16-bit number that differs from an integer by a multiple of 2^16, which is k times it.
abbrev pub Residue : ℤ → ℕ → Type 0
Residue (pos n) p = (p < 2 ^ 16) × ((k : ℕ) × (n ≡ p + k * 2 ^ 16))
Residue (negsuc n) p = (p < 2 ^ 16) × ((k : ℕ) × (p + suc n ≡ k * 2 ^ 16))

-- The number of threads that a setting asks for on a machine with so many processors, which is 0
-- where that is not known. A negative setting is off by 2^64.
abbrev pub Threads : ℤ → ℕ → ℕ → Type 0
Threads (pos zero) processors t = t ≡ (if processors == 0 then 4 else processors)
Threads (pos (suc n)) processors t = (t ≡ suc n) × (t < 2 ^ 31)
Threads (negsuc n) processors t = (t + suc n ≡ 2 ^ 64) × (2 ^ 64 - 2 ^ 31 ≤ t)

as_port-as_short_negative : (n : ℕ) → as_port (as_short (negsuc n)) ≡ 2 ^ 16 - suc (n % 2 ^ 16)
unfolding as_short
as_port-as_short_negative n = elim (Bool-cases (ltb (n % 2 ^ 16) (2 ^ 15))) [
  | inl e ↦ rw e refl
  | inr e ↦ rw e (omega arith)
]

as_size-not_zero : (n : ℕ) → suc n ≤ 2 ^ 31 → (2 ^ 64 - suc n == 0) ≡ false
as_size-not_zero n h = ground arith

as_port-Residue : (z : ℤ) → Residue z (as_port (as_short z))
unfolding as_short
as_port-Residue (pos n) = rw (as_port-as_short n) (omega arith, (n / 2 ^ 16, omega arith))
as_port-Residue (negsuc n) =
    rw (as_port-as_short_negative n) (omega arith, (n / 2 ^ 16 + 1, omega arith))

thread_count-Threads :
    (z : ℤ) (processors : ℕ) → IsInt z → Threads z processors (thread_count z processors)
unfolding thread_count
thread_count-Threads (pos zero) processors h = refl
thread_count-Threads (pos (suc n)) processors h = (ground arith, ground (arith, h.0))
thread_count-Threads (negsuc n) processors h =
    rw (as_size-not_zero n h.1) (omega (arith, h.1), omega (arith, h.1))

-- Whatever the configuration says: each port is the 16-bit number that differs from its setting by
-- a multiple of 2^16, so the setting itself where that is such a number. The number of threads is
-- the setting, if it is positive; the number of processors, or 4 where that is not known, for 0;
-- and 2^64 plus the setting, if it is negative, which is at least 2^64 - 2^31.
pub read_settings_bounds :
    (m : ConfigMap) (processors : ℕ)
    → Residue
        (get_int m (codes "server.tcp_port") (pos 9000))
        (as_port (read_settings m processors).tcp_port)
      × Residue
          (get_int m (codes "server.http_port") (pos 8080))
          (as_port (read_settings m processors).http_port)
      × Threads
          (get_int m (codes "server.thread_pool_size") (pos 0))
          processors
          (read_settings m processors).threads
unfolding read_settings
read_settings_bounds m processors = (
  as_port-Residue (tcp_setting m),
  as_port-Residue (http_setting m),
  thread_count-Threads (threads_setting m) processors
      (get_int-IsInt m _ (pos 0) (omega arith, omega arith)),
)

-- The server listens on the port that the configuration says, if that is a 16-bit number, although
-- it passes through a `short`.
pub read_settings-tcp_port :
    (m : ConfigMap) (processors port : ℕ)
    → tcp_setting m ≡ pos port
    → port < 2 ^ 16
    → as_port (read_settings m processors).tcp_port ≡ port
unfolding read_settings
read_settings-tcp_port m processors port e h = rw e (as_port-as_short port ∙ omega (arith, h))
