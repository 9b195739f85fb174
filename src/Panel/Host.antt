-- ===== src/Panel/Host.antt =====
-- What the panel store takes from its surroundings: functions of the JavaScript engine that depend on
-- the locale or on Unicode tables, and the state outside the store that the reducer changes.
use file_octopus.Base.{ℕ, Bool, Option, JsString, Dict, ℤ}

pub record Host : Type 0 where
  -- `toLowerCase`
  pub to_lower_case : JsString → JsString
  -- `a.localeCompare(b)`, and with `{ numeric: true, sensitivity: "base" }`
  pub locale_compare : JsString → JsString → ℤ
  pub locale_compare_numeric : JsString → JsString → ℤ
  -- `Date.parse`; `none` is NaN
  pub date_parse : JsString → Option ℤ
  -- `JSON.parse` of a stored sort order: the texts of its fields `field` and `direction`; `none` if
  -- it throws or gives null
  pub parse_sort : JsString → Option (Option JsString × Option JsString)
  -- `navigator.platform`, the empty text where there is none
  pub platform : JsString

-- `localStorage`, whose writes fail silently when `accepts_writes` is false, the counter of tab
-- identifiers and the clock.
pub record World : Type 0 where
  pub storage : Dict JsString
  pub accepts_writes : Bool
  pub tab_counter : ℕ
  pub now : ℕ
