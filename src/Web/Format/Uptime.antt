-- ===== src/Web/Format/Uptime.antt =====
-- `formatUptime` against days, hours, minutes and seconds.
use smartdns_rs.Prelude.{
  List, [], arith, if◌then◌else◌, join, ltb, refl, show, suc, zero, ℕ, ◌%◌, ◌*◌, ◌++◌, ◌+◌, ◌/◌,
  ◌<>◌, ◌<◌, ◌∷◌, ◌≡◌,
}
use Prim.Native.String.{String}
use smartdns_rs.Web.Format.{format_uptime}

-- A part that is left out when its number is 0.
abbrev part : ℕ → String → List String
part zero unit = []
part (suc n) unit = (show (suc n) <> unit) ∷ []

part_lem : (n : ℕ) (unit : String) → (if ltb 0 n then (show n <> unit) ∷ [] else []) ≡ part n unit
part_lem zero unit = refl
part_lem (suc n) unit = ground arith

-- The text for `d` days, `h` hours and `m` minutes.
abbrev pub uptime_text : ℕ → ℕ → ℕ → String
uptime_text d h m = join " " (part d "天" ++ part h "小时" ++ (show m <> "分钟") ∷ [])

-- An uptime of `d` days, `h` hours, `m` minutes and `s` seconds is written in just these days,
-- hours and minutes; days and hours are left out when they are 0, and the seconds always.
format_uptime-uptime_text :
    (d h m s : ℕ)
    → h < 24
    → m < 60
    → s < 60
    → format_uptime (d * 86400 + h * 3600 + m * 60 + s) ≡ uptime_text d h m
unfolding format_uptime
format_uptime-uptime_text d h m s hh hm hs =
    let total = d * 86400 + h * 3600 + m * 60 + s in
    let days : total / 86400 ≡ d = omega arith in
    let hours : total % 86400 / 3600 ≡ h = omega arith in
    let minutes : total % 3600 / 60 ≡ m = omega arith in
    rw (days, hours, minutes, part_lem d "天", part_lem h "小时")
