-- ===== src/Controller/Decisions.antt =====
-- The decisions of ControllerWithSimpleHistory.cpp that need no state: the bounds and factors, the
-- change of the commit path, the slow path time and the duration of a round.
use concord_rcanopus.Base.{
  ℕ, ◌+◌, ◌-◌, ◌*◌, ◌/◌, ◌%◌, ◌^◌, Bool, true, false, not, ◌&&◌, ltb, leb, ◌==◌, if◌then◌else◌,
}

pub data CommitPath : Type 0 where
  na : CommitPath
  optimistic_fast : CommitPath
  fast_with_threshold : CommitPath
  slow : CommitPath

abbrev pub evaluation_period : ℕ
evaluation_period = 64

abbrev pub default_time_to_start_slow_path_milli : ℕ
default_time_to_start_slow_path_milli = 150

abbrev pub min_time_to_start_slow_path_milli : ℕ
min_time_to_start_slow_path_milli = 20

abbrev pub max_time_to_start_slow_path_milli : ℕ
max_time_to_start_slow_path_milli = 2000

abbrev pub is_slow : CommitPath → Bool
is_slow slow = true
is_slow path = false

abbrev pub is_optimistic : CommitPath → Bool
is_optimistic optimistic_fast = true
is_optimistic path = false

-- The first number of the evaluation period that comes after `s`.
unfoldable pub next_first_relevant : ℕ → ℕ
next_first_relevant s =
    if s % evaluation_period == 0
    then s + 1
    else s / evaluation_period * evaluation_period + evaluation_period + 1

-- The upgrade from the slow path; the two factors are 0.95 and 0.85.
unfoldable pub upgrade : Bool → ℕ → ℕ → CommitPath × Bool
upgrade only_optimistic_fast full partial =
    if leb (95 * evaluation_period) (100 * full)
    then (optimistic_fast, true)
    else if not only_optimistic_fast && leb (85 * evaluation_period) (100 * (full + partial))
    then (fast_with_threshold, true)
    else (slow, false)

-- The downgrade of a fast path, with the factor 0.85; the flag is `downgraded`.
unfoldable pub downgrade : Bool → CommitPath → ℕ → CommitPath × Bool
downgrade only_optimistic_fast path successful =
    if ltb (100 * successful) (85 * evaluation_period)
    then (
      if not only_optimistic_fast && is_optimistic path then fast_with_threshold else slow,
      true,
    )
    else (path, false)

-- `(1 - 0.20F) * t` and `(1 + 0.20F) * t` in single precision, truncated: the factors are
-- 13421773 / 2^24 and 10066330 / 2^23, and rounding the product does not reach the next integer.
unfoldable pub rel_min : ℕ → ℕ
rel_min t = 13421773 * t / 2 ^ 24

unfoldable pub rel_max : ℕ → ℕ
rel_max t = 10066330 * t / 2 ^ 23

abbrev pub clamp : ℕ → ℕ → ℕ → ℕ
clamp low high t = if ltb t low then low else if ltb high t then high else t

unfoldable pub new_slow_path_time : ℕ → ℕ → ℕ
new_slow_path_time t estimate =
    clamp min_time_to_start_slow_path_milli max_time_to_start_slow_path_milli
      (clamp (rel_min t) (rel_max t) estimate)

-- The duration of a round in microseconds, kept from 100 to two million.
unfoldable pub duration_of : ℕ → ℕ → ℕ
duration_of now pre_prepare_time =
    let duration = if ltb pre_prepare_time now then now - pre_prepare_time else 0 in
    if ltb 2000000 duration then 2000000 else if ltb duration 100 then 100 else duration
