-- ===== src/Rss/Summary.antt =====
-- news_summarize_and_score_job of src/agents/news/rss_news_pipeline.py for one symbol, on the rows
-- that its query finds, the latest first.
use coin_pilot.Base.{
  ℕ, ◌+◌, List, [], ◌∷◌, ◌++◌, map, foldl, take, length, leb, String, Option, none, some, any,
  if◌then◌else◌,
}
use coin_pilot.Base.Result.{Result, ok, ◌>>=◌, or_raise, zero_division}
use coin_pilot.Base.Ordered.{assign, find}
use coin_pilot.Base.Text.{Text, codes, lower, show, text_eq}
use coin_pilot.Number.{Number, whole, lit, ◌⊕◌, ◌⊖◌, ◌⊗◌, ◌⊘◌, ◌≺◌, ◌≼◌}
use coin_pilot.Number.Format.{Format}
use coin_pilot.Tools.News.{NewsLevel, risk_level_ko, join_commas}
use coin_pilot.Rss.Keywords.{extract_issue_topics}
use coin_pilot.Rss.Ingest.{RssArticle}

-- The rows of news_summaries and of news_risk_scores for the symbol and the window.
pub record NewsReport {ℓ} (F : Type ℓ) : Type ℓ where
  pub summary_text : Text
  pub key_points : List Text
  pub article_count : ℕ
  pub risk_score : F
  pub risk_level : NewsLevel
  pub drivers : List Text

-- The labels of _driver_label, with their words.
abbrev label_words : List (String × List String)
label_words =
    ("보안 사고", "hack" ∷ "exploit" ∷ "breach" ∷ "해킹" ∷ [])
    ∷ ("규제/법률 리스크", "lawsuit" ∷ "court" ∷ "sec" ∷ "규제" ∷ "소송" ∷ [])
    ∷ ("급락/청산 압력", "liquidation" ∷ "dump" ∷ "crash" ∷ "파산" ∷ [])
    ∷ ("거래소 운영 이슈", "outage" ∷ "suspend" ∷ "중단" ∷ [])
    ∷ ("제도권/채택 이슈", "approval" ∷ "adoption" ∷ "partnership" ∷ "etf" ∷ "승인" ∷ "채택" ∷ [])
    ∷ []

abbrev label_in : List (String × List String) → Text → Text → Text
label_in [] d driver = driver
label_in ((label, words) ∷ rest) d driver =
    let later = label_in rest d driver in
    if any (λ word. text_eq d (codes word)) words then codes label else later

unfoldable pub driver_label : Text → Text
driver_label driver = label_in label_words (lower driver) driver

abbrev count_or_zero : Option ℕ → ℕ
count_or_zero none = 0
count_or_zero (some k) = k

-- `counter[key] += 1`
unfoldable pub count_one : List (Text × ℕ) → Text → List (Text × ℕ)
unfolding assign find
count_one counter key = assign text_eq key (count_or_zero (find text_eq key counter) + 1) counter

abbrev before_smaller : Text × ℕ → List (Text × ℕ) → List (Text × ℕ)
before_smaller e [] = e ∷ []
before_smaller e (d ∷ rest) =
    let later = before_smaller e rest in if leb d.1 e.1 then e ∷ d ∷ rest else d ∷ later

-- `counter.most_common()`: among equal counts, what was counted first comes first.
unfoldable pub most_common : List (Text × ℕ) → List (Text × ℕ)
most_common [] = []
most_common (e ∷ counter) = before_smaller e (most_common counter)

abbrev or_general : List Text → List Text
or_general [] = codes "시장 일반 동향" ∷ []
or_general (t ∷ topics) = t ∷ topics

abbrev or_few_points : List Text → List Text
or_few_points [] = codes "주요 이슈 카테고리 데이터 부족" ∷ []
or_few_points (p ∷ points) = p ∷ points

abbrev with_signals : Text → List Text → Text
with_signals summary [] = summary
with_signals summary (d ∷ drivers) =
    summary ++ codes " 위험 신호는 " ++ join_commas (take 3 (d ∷ drivers)) ++ codes "가 반복 관측됩니다."

module _ {ℓ} {F : Type ℓ} where
  -- The two counters after all articles.
  unfoldable pub count_drivers : List (RssArticle F) → List (Text × ℕ)
  unfolding count_one driver_label
  count_drivers articles =
      foldl (λ c a. foldl (λ c₁ d. count_one c₁ (driver_label d)) c a.risk_drivers) [] articles

  unfoldable pub count_topics : List (RssArticle F) → List (Text × ℕ)
  unfolding count_one extract_issue_topics
  count_topics articles =
      foldl (λ c a. foldl count_one c (extract_issue_topics a.title a.content)) [] articles

module _ {ℓ} {F : Type ℓ} ⦃n : Number F⦄ where
  unfoldable pub risk_level : F → NewsLevel
  risk_level score =
      if whole 70 ≼ score
      then NewsLevel.high
      else if whole 45 ≼ score
      then NewsLevel.medium
      else NewsLevel.low

  -- `max(0.2, 1.0 - idx * 0.05)`
  unfoldable pub weight_of : ℕ → F
  weight_of i = let w = lit 10 1 ⊖ whole i ⊗ lit 5 2 in if lit 2 1 ≺ w then w else lit 2 1

  -- The sums of the weighted scores and of the weights, from the row at an index.
  unfoldable pub weigh : ℕ → List (RssArticle F) → F × F → F × F
  unfolding weight_of
  weigh i [] sums = sums
  weigh i (a ∷ articles) sums =
      weigh (i + 1) articles ((sums.0 ⊕ a.risk_signal_score ⊗ weight_of i, sums.1 ⊕ weight_of i))

  unfoldable pub weighted_score : List (RssArticle F) → Result F
  unfolding weigh
  weighted_score articles =
      let sums = weigh 0 articles (whole 0, whole 0) in or_raise (sums.0 ⊘ sums.1) zero_division

  module _ ⦃f : Format F⦄ where
    unfoldable pub build_summary : Text → List (RssArticle F) → F → NewsReport F
    unfolding most_common count_drivers count_topics risk_level risk_level_ko
    build_summary symbol articles score =
        let topics = take 3 (most_common (count_topics articles)) in
        let drivers = map (λ e. e.0) (take 5 (most_common (count_drivers articles))) in
        record {
          summary_text =
              with_signals
                (codes "최근 "
                  ++ show (length articles)
                  ++ codes "건 기사 분석 결과 "
                  ++ symbol
                  ++ codes " 뉴스 리스크는 "
                  ++ risk_level_ko (some (risk_level score))
                  ++ codes "("
                  ++ f.fixed1 score
                  ++ codes ") 수준입니다. 핵심 이슈는 "
                  ++ join_commas (or_general (map (λ e. e.0) topics))
                  ++ codes " 중심입니다.")
                drivers;
          key_points =
              or_few_points (map (λ e. e.0 ++ codes " 이슈 " ++ show e.1 ++ codes "건") topics);
          article_count = length articles;
          risk_score = f.round2 score;
          risk_level = risk_level score;
          drivers = drivers;
        }

    -- The report that the job writes for a symbol, over the one of the same window.
    unfoldable pub summarize_symbol : Text → Text → List (RssArticle F) → Result (NewsReport F)
    unfolding build_summary weighted_score
    summarize_symbol window_hours symbol [] = ok (record {
      summary_text =
          codes "최근 "
          ++ window_hours
          ++ codes "시간 내 "
          ++ symbol
          ++ codes " 관련 RSS 뉴스가 충분하지 않아 리스크 판단 신뢰도가 낮습니다.";
      key_points = codes "수집된 관련 뉴스 부족" ∷ [];
      article_count = 0;
      risk_score = f.round2 (whole 0);
      risk_level = NewsLevel.low;
      drivers = codes "insufficient_data" ∷ [];
    })
    summarize_symbol window_hours symbol (a ∷ articles) =
        weighted_score (a ∷ articles) >>= λ score. ok (build_summary symbol (a ∷ articles) score)
