-- ===== src/Alerting/Router/Quiet.antt =====
-- Quiet hours as an arc of the day, and what they suppress.
use seerflow.Base.{arith, ltb, ℕ, ◌%◌, ◌+◌, ◌-◌, ◌<◌, ◌≡◌}
use seerflow.Alerting.Router.{QuietHours, in_quiet_window}

-- Microseconds.
abbrev pub day : ℕ
day = 86400000000

-- How long after `from` the time `t` comes, on the circle of the day.
unfoldable pub since : ℕ → ℕ → ℕ
since from t = (t + day - from) % day

-- With times within a day, quiet hours are the arc of the day from their start, included, to
-- their end, excluded, also when it passes midnight; hours that start and end at the same time
-- are never quiet.
pub in_quiet_window-since :
    (qh : QuietHours) (t : ℕ)
    → qh.start < day
    → qh.end < day
    → t < day
    → in_quiet_window qh t ≡ ltb (since qh.start t) (since qh.start qh.end)
unfolding in_quiet_window since
in_quiet_window-since qh t h1 h2 h3 = ground arith
