-- ===== src/Rcp/Judge/Clock.antt =====
-- The camera's clock (0x0a0f). The server's time is an argument, in microseconds since 1970.
use bosch_shc_camera_client.Common.{
  ℕ, zero, suc, ◌+◌, ◌-◌, ◌*◌, ◌/◌, ◌%◌, Bool, true, false, not, ◌&&◌, ◌||◌, ◌∷◌, Option, none,
  some, leb, ltb, ◌==◌, if◌then◌else◌,
}
use bosch_shc_camera_client.Common.Texts.{Bytes}
use bosch_shc_camera_client.Common.Rounding.{round_tenths}
use bosch_shc_camera_client.Rcp.Parse.Envelope.{is_xml_envelope}
use bosch_shc_camera_client.Rcp.Judge.Defs.{Verdict, accept, reject}

pub record DateTime : Type 0 where
  pub year : ℕ
  pub month : ℕ
  pub day : ℕ
  pub hour : ℕ
  pub minute : ℕ
  pub second : ℕ

-- struct.unpack(">HBBBBBB", raw[:8]), without the weekday
unfoldable pub clock_fields : Bytes → Option DateTime
clock_fields (y1 ∷ y0 ∷ mo ∷ d ∷ h ∷ mi ∷ s ∷ w ∷ rest) =
    some (record { year = y1 * 256 + y0; month = mo; day = d; hour = h; minute = mi; second = s })
clock_fields _ = none

-- The ranges that the code checks field by field.
unfoldable pub in_range : DateTime → Bool
in_range t =
    leb 1970 t.year
    && leb t.year 2100
    && leb 1 t.month
    && leb t.month 12
    && leb 1 t.day
    && leb t.day 31
    && leb t.hour 23
    && leb t.minute 59
    && leb t.second 59

unfoldable pub is_leap : ℕ → Bool
is_leap y = y % 4 == 0 && (not (y % 100 == 0) || y % 400 == 0)

unfoldable pub days_in_month : ℕ → ℕ → ℕ
unfolding is_leap
days_in_month y m =
    if m == 2
    then if is_leap y then 29 else 28
    else if m == 4 || m == 6 || m == 9 || m == 11
    then 30
    else 31

-- Days before month m + 1 of the year.
unfoldable pub days_before : ℕ → ℕ → ℕ
unfolding days_in_month
days_before y zero = 0
days_before y (suc m) = days_before y m + days_in_month y (suc m)

-- Seconds since 1970-01-01; day 1 of year 1 has ordinal 1 and 1970-01-01 has ordinal 719163.
unfoldable pub timestamp : DateTime → ℕ
unfolding days_before
timestamp t =
    let y = t.year - 1 in
    let ordinal = y * 365 + y / 4 - y / 100 + y / 400 + days_before t.year (t.month - 1) + t.day in
    (ordinal - 719163) * 86400 + t.hour * 3600 + t.minute * 60 + t.second

-- Seconds with one decimal: the sign, and the tenths.
pub record Offset : Type 0 where
  pub is_behind : Bool
  pub tenths : ℕ

-- round((cam_dt - server_dt).total_seconds(), 1)
unfoldable pub offset_at : ℕ → DateTime → Offset
unfolding timestamp round_tenths
offset_at now t =
    let cam = timestamp t * 1000000 in
    if ltb cam now
    then record { is_behind = true; tenths = round_tenths (now - cam) 1000000 }
    else record { is_behind = false; tenths = round_tenths (cam - now) 1000000 }

-- `datetime(...)` raises ValueError on a day that the month does not have.
unfoldable pub judge_time : ℕ → DateTime → Verdict Offset
unfolding in_range days_in_month offset_at
judge_time now t =
    if in_range t
    then if leb t.day (days_in_month t.year t.month) then accept (offset_at now t) else reject
    else reject

abbrev judge_fields : ℕ → Option DateTime → Verdict Offset
judge_fields now none = reject
judge_fields now (some t) = judge_time now t

unfoldable pub judge_clock : ℕ → Option Bytes → Verdict Offset
unfolding clock_fields judge_time is_xml_envelope
judge_clock now none = reject
judge_clock now (some raw) =
    if is_xml_envelope (some raw) then reject else judge_fields now (clock_fields raw)
