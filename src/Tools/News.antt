-- ===== src/Tools/News.antt =====
-- The news summary of src/agents/tools/market_outlook_tool.py.
use coin_pilot.Base.{
  Bool, true, false, Option, none, some, List, [], ◌∷◌, ◌++◌, map, foldl, String, take, ltb, ◌==◌,
  if◌then◌else◌,
}
use coin_pilot.Base.Text.{Text, codes, lower, text_eq, starts_with, strip}
use coin_pilot.Number.Format.{Format}

pub data NewsLevel : Type 0 where
  high medium low : NewsLevel

-- DRIVER_LABEL_MAP
abbrev driver_labels : List (String × String)
driver_labels =
    ("hack", "보안 사고")
    ∷ ("exploit", "보안 사고")
    ∷ ("breach", "보안 사고")
    ∷ ("해킹", "보안 사고")
    ∷ ("lawsuit", "규제/법률 이슈")
    ∷ ("sec", "규제/법률 이슈")
    ∷ ("규제", "규제/법률 이슈")
    ∷ ("소송", "규제/법률 이슈")
    ∷ ("liquidation", "급락/청산 압력")
    ∷ ("crash", "급락/청산 압력")
    ∷ ("dump", "급락/청산 압력")
    ∷ ("파산", "급락/청산 압력")
    ∷ ("outage", "거래소 운영 이슈")
    ∷ ("suspend", "거래소 운영 이슈")
    ∷ ("중단", "거래소 운영 이슈")
    ∷ ("approval", "제도권 수용/승인")
    ∷ ("adoption", "제도권 수용/채택")
    ∷ ("etf", "기관/ETF 이슈")
    ∷ []

abbrev label_of : Text → Text → List (String × String) → Text
label_of raw token [] = raw
label_of raw token ((key, label) ∷ rest) =
    if text_eq token (codes key) then codes label else label_of raw token rest

-- `a < b` of texts.
abbrev text_before : Text → Text → Bool
text_before [] [] = false
text_before [] (b ∷ t) = true
text_before (a ∷ s) [] = false
text_before (a ∷ s) (b ∷ t) = if a == b then text_before s t else ltb a b

-- `sorted(set(...))`, one text at a time.
abbrev add_sorted : List Text → Text → List Text
add_sorted [] s = s ∷ []
add_sorted (t ∷ ts) s =
    let later = add_sorted ts s in
    if text_eq s t then t ∷ ts else if text_before s t then s ∷ t ∷ ts else t ∷ later

abbrev pub sorted_set : List Text → List Text
sorted_set = foldl add_sorted []

unfoldable pub to_driver_labels : List Text → List Text
to_driver_labels drivers = sorted_set (map (λ raw. label_of raw (lower raw) driver_labels) drivers)

unfoldable pub risk_level_ko : Option NewsLevel → Text
risk_level_ko none = codes "알 수 없음"
risk_level_ko (some NewsLevel.high) = codes "높음"
risk_level_ko (some NewsLevel.medium) = codes "보통"
risk_level_ko (some NewsLevel.low) = codes "낮음"

-- `", ".join(labels)`
abbrev pub join_commas : List Text → Text
join_commas [] = []
join_commas (s ∷ []) = s
join_commas (s ∷ t ∷ rest) = s ++ codes ", " ++ join_commas (t ∷ rest)

-- `s.split(part)[0]`
abbrev before : Text → Text → Text
before part [] = []
before part (c ∷ s) = let rest = before part s in if starts_with part (c ∷ s) then [] else c ∷ rest

-- `None` and an empty text are no summary.
unfoldable pub summary_header : Option Text → Option Text
unfolding strip
summary_header none = none
summary_header (some []) = none
summary_header (some (c ∷ s)) = some (strip (before (codes "주요 이슈") (c ∷ s)))

module _ {ℓ} {F : Type ℓ} ⦃f : Format F⦄ where
  abbrev scored : Option NewsLevel → F → List Text → Text
  scored level score [] =
      codes "최근 뉴스 종합 리스크는 "
      ++ risk_level_ko level
      ++ codes "("
      ++ f.fixed1 score
      ++ codes ") 수준입니다."
  scored level score (l ∷ labels) =
      codes "최근 뉴스 흐름은 "
      ++ join_commas (take 3 (l ∷ labels))
      ++ codes " 이슈가 중심이며 종합 리스크는 "
      ++ risk_level_ko level
      ++ codes "("
      ++ f.fixed1 score
      ++ codes ") 수준입니다."

  unfoldable pub build_news_readable_summary :
      Option NewsLevel → Option F → List Text → Option Text → Option Text
  unfolding to_driver_labels risk_level_ko summary_header
  build_news_readable_summary level (some score) drivers raw =
      some (scored level score (to_driver_labels drivers))
  build_news_readable_summary level none drivers raw = summary_header raw
