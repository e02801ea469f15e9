-- ===== src/Rss/Keywords.antt =====
-- The tables of words of src/agents/news/rss_news_pipeline.py, and what is looked up in them.
use coin_pilot.Base.{ℕ, List, [], ◌∷◌, ◌++◌, String, if◌then◌else◌, ◌==◌, Option, none, some, map}
use coin_pilot.Base.Text.{Text, codes, lower, contains, contains_any, strip}
use coin_pilot.Base.Env.{Environment}
use coin_pilot.Number.{Number, whole, ◌⊕◌, ◌≺◌}
use coin_pilot.Number.Format.{Format}
use coin_pilot.Tools.News.{sorted_set}

abbrev default_sources : List String
default_sources =
    "https://cointelegraph.com/rss" ∷ "https://www.coindesk.com/arc/outboundfeeds/rss/"
    ∷ "https://decrypt.co/feed" ∷ []

-- SYMBOL_KEYWORDS
abbrev symbol_words : List (String × List String)
symbol_words =
    ("KRW-BTC", "bitcoin" ∷ "btc" ∷ "비트코인" ∷ [])
    ∷ ("KRW-ETH", "ethereum" ∷ "eth" ∷ "이더리움" ∷ [])
    ∷ ("KRW-XRP", "xrp" ∷ "리플" ∷ [])
    ∷ ("KRW-SOL", "solana" ∷ "sol" ∷ "솔라나" ∷ [])
    ∷ ("KRW-DOGE", "dogecoin" ∷ "doge" ∷ "도지" ∷ [])
    ∷ []

-- HIGH_RISK_KEYWORDS
abbrev risk_words : List (String × ℕ)
risk_words =
    ("hack", 18)
    ∷ ("exploit", 18)
    ∷ ("breach", 16)
    ∷ ("lawsuit", 14)
    ∷ ("sec", 12)
    ∷ ("ban", 14)
    ∷ ("bankruptcy", 20)
    ∷ ("liquidation", 12)
    ∷ ("outage", 10)
    ∷ ("suspend", 10)
    ∷ ("probe", 8)
    ∷ ("sanction", 10)
    ∷ ("fraud", 16)
    ∷ ("bearish", 8)
    ∷ ("dump", 8)
    ∷ ("crash", 12)
    ∷ ("해킹", 18)
    ∷ ("소송", 14)
    ∷ ("규제", 12)
    ∷ ("상장폐지", 16)
    ∷ ("중단", 10)
    ∷ ("파산", 20)
    ∷ []

-- POSITIVE_KEYWORDS: what a word takes off.
abbrev positive_words : List (String × ℕ)
positive_words =
    ("approval", 8)
    ∷ ("adoption", 6)
    ∷ ("partnership", 5)
    ∷ ("inflow", 4)
    ∷ ("upgrade", 3)
    ∷ ("etf", 4)
    ∷ ("승인", 8)
    ∷ ("채택", 6)
    ∷ ("호재", 6)
    ∷ ("상승", 4)
    ∷ []

-- ISSUE_TOPICS
abbrev issue_topics : List (String × List String)
issue_topics =
    (
      "거시/정책",
      "tariff" ∷ "inflation" ∷ "fed" ∷ "interest rate" ∷ "macro" ∷ "economy" ∷ "관세" ∷ "금리" ∷ "인플레이션"
          ∷ "거시" ∷ "경제" ∷ "정책" ∷ [],
    )
    ∷ (
      "규제/법률",
      "regulation" ∷ "sec" ∷ "lawsuit" ∷ "court" ∷ "compliance" ∷ "법원" ∷ "규제" ∷ "소송" ∷ "제재" ∷ "당국"
          ∷ [],
    )
    ∷ (
      "거래소/보안",
      "exchange" ∷ "hack" ∷ "exploit" ∷ "breach" ∷ "outage" ∷ "suspend" ∷ "거래소" ∷ "해킹" ∷ "보안" ∷ "중단"
          ∷ "점검" ∷ [],
    )
    ∷ (
      "기관/ETF",
      "etf" ∷ "goldman" ∷ "blackrock" ∷ "franklin templeton" ∷ "fund" ∷ "institution" ∷ "기관" ∷ "자금"
          ∷ "유입" ∷ "운용사" ∷ [],
    )
    ∷ (
      "프로젝트/기술",
      "upgrade" ∷ "mainnet" ∷ "fork" ∷ "partnership" ∷ "adoption" ∷ "네트워크" ∷ "업그레이드" ∷ "파트너십" ∷ "채택"
          ∷ "출시" ∷ [],
    )
    ∷ []

-- `raw.split(",")`, the first part apart.
unfoldable pub split_commas : Text → Text × List Text
split_commas [] = ([], [])
split_commas (a ∷ rest) =
    let later = split_commas rest in
    if a == 44 then ([], later.0 ∷ later.1) else (a ∷ later.0, later.1)

abbrev add_part : Text → List Text → List Text
add_part [] parts = parts
add_part (c ∷ s) parts = (c ∷ s) ∷ parts

-- `[p.strip() for p in parts if p.strip()]`
unfoldable pub stripped_parts : List Text → List Text
unfolding strip
stripped_parts [] = []
stripped_parts (part ∷ parts) = add_part (strip part) (stripped_parts parts)

-- `parts or DEFAULT_RSS_SOURCES`
abbrev or_default : List Text → List Text
or_default [] = map codes default_sources
or_default (part ∷ parts) = part ∷ parts

abbrev text_or_empty : Option Text → Text
text_or_empty none = []
text_or_empty (some s) = s

-- No part is left of an empty text.
unfoldable pub get_rss_sources : Environment → List Text
unfolding strip split_commas stripped_parts
get_rss_sources env =
    let parts = split_commas (strip (text_or_empty (env.getenv "NEWS_RSS_SOURCES"))) in
    or_default (stripped_parts (parts.0 ∷ parts.1))

-- The title and the content, in lower case.
abbrev merged_of : Text → Text → Text
merged_of title content = lower (title ++ codes " " ++ content)

-- The keys with a word in the text, in the order of the table.
unfoldable pub keys_in : Text → List (String × List String) → List Text
keys_in text [] = []
keys_in text ((key, words) ∷ rest) =
    let later = keys_in text rest in if contains_any words text then codes key ∷ later else later

abbrev market_words : List String
market_words = "crypto" ∷ "bitcoin" ∷ "market" ∷ "가상자산" ∷ "암호화폐" ∷ []

abbrev or_market : Text → List Text → List Text
or_market text [] = if contains_any market_words text then codes "KRW-BTC" ∷ [] else []
or_market text (symbol ∷ symbols) = symbol ∷ symbols

unfoldable pub extract_symbols : Text → Text → List Text
unfolding keys_in
extract_symbols title content =
    let text = merged_of title content in sorted_set (or_market text (keys_in text symbol_words))

unfoldable pub extract_issue_topics : Text → Text → List Text
unfolding keys_in
extract_issue_topics title content = keys_in (merged_of title content) issue_topics

module _ {ℓ} {F : Type ℓ} ⦃n : Number F⦄ where
  -- One loop over a table: what each word found does to the score, and the words found.
  unfoldable pub add_words : (F → ℕ → F) → Text → List (String × ℕ) → F × List Text → F × List Text
  add_words step text [] so_far = so_far
  add_words step text ((word, weight) ∷ rest) so_far = add_words step text rest (
      if contains (codes word) text
      then (step so_far.0 weight, so_far.1 ++ codes word ∷ [])
      else so_far)

  -- `max(0.0, min(100.0, score))`
  unfoldable pub clamp_score : F → F
  clamp_score score =
      let bounded = if score ≺ whole 100 then score else whole 100 in
      if whole 0 ≺ bounded then bounded else whole 0

  module _ ⦃f : Format F⦄ where
    unfoldable pub score_article_risk : Text → Text → F × List Text
    unfolding add_words clamp_score
    score_article_risk title content =
        let text = merged_of title content in
        let risky = add_words (λ s w. s ⊕ whole w) text risk_words (whole 40, []) in
        let both = add_words (λ s w. s ⊕ n.neg (whole w)) text positive_words risky in
        (f.round2 (clamp_score both.0), sorted_set both.1)
