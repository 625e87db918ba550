-- ===== src/Time.antt =====
-- Go's `time.Time` and `time.Duration`, as the services use them: an instant is its number of
-- nanoseconds since the zero `time.Time`, a duration a signed number of nanoseconds.
use stream_pulse.Common.{◌-◌, ◌^◌, ◌&&◌, Bool, if◌then◌else◌}
use stream_pulse.Common.Int.{ℤ, pos, negsuc, ltb_ℤ, leb_ℤ, ◌+ℤ◌, ◌-ℤ◌}

abbrev pub Time : Type 0
Time = ℤ

abbrev pub Duration : Type 0
Duration = ℤ

-- `t.IsZero()`
abbrev pub is_zero : Time → Bool
is_zero t = leb_ℤ t (pos 0) && leb_ℤ (pos 0) t

-- `t.Before(u)` and `t.After(u)`
abbrev pub before : Time → Time → Bool
before t u = ltb_ℤ t u

abbrev pub after : Time → Time → Bool
after t u = ltb_ℤ u t

abbrev pub max_duration : Duration
max_duration = pos (2 ^ 63 - 1)

abbrev pub min_duration : Duration
min_duration = negsuc (2 ^ 63 - 1)

-- `t.Sub(u)` is held within the range of `int64`.
unfoldable pub sub : Time → Time → Duration
sub t u =
    let d = t -ℤ u in
    if ltb_ℤ max_duration d then max_duration else if ltb_ℤ d min_duration then min_duration else d

-- `t.Add(d)`; an instant out of range of `time.Time` is outside the model.
abbrev pub add : Time → Duration → Time
add t d = t +ℤ d
