-- ===== src/Rss/Tests.antt =====
-- The news pipeline on concrete feeds. A number x is written `pos (10000 * x)`.
use coin_pilot.Base.{true, sym, ap, ℕ, ◌≡◌, refl, Option, none, some, List, [], ◌∷◌, ◌+◌, length}
use coin_pilot.Base.Int.{ℤ, pos, ◌+ℤ◌, ◌-ℤ◌, ◌*ℤ◌}
use coin_pilot.Base.Text.{Text, codes, strip}
use coin_pilot.Number.Fixed.{fixed, fixed_format}
use coin_pilot.Rss.Keywords.{extract_symbols, score_article_risk}
use coin_pilot.Rss.Feed.{
  child_text, local_name, parse_datetime, Xml, Parsed, Dates, strip_html, source_of, parse_feed_xml,
}
use coin_pilot.Rss.Ingest.{
  RssArticle, Ingested, Digests, store_items, store_parsed, insert_article, article_of,
  make_content_hash, news_ingest_rss_job,
}
use coin_pilot.Base.Result.{ok}
use coin_pilot.Rss.Summary.{weighted_score, count_drivers, most_common}
use coin_pilot.Rss.Again.{is_distinct}
use coin_pilot.Rss.Dated.{IsDated, all_dated}
use coin_pilot.Rss.Jobs.{HasItems, job-Once}

-- The elements of a feed with one item.
data Node : Type 0 where
  rss channel item title link date : Node

abbrev sample_tag : Node → Text
sample_tag Node.rss = codes "rss"
sample_tag Node.channel = codes "channel"
sample_tag Node.item = codes "item"
sample_tag Node.title = codes "title"
sample_tag Node.link = codes "link"
sample_tag Node.date = codes "{dc}pubDate"

abbrev sample_text : Node → Option Text
sample_text Node.title = some (codes " Bitcoin hack ")
sample_text Node.link = some (codes "https://a/b")
sample_text Node.date = some (codes "7")
sample_text _ = none

-- The item has the date in it, or not.
abbrev sample_children : List Node → Node → List Node
sample_children dates Node.rss = Node.channel ∷ []
sample_children dates Node.channel = Node.item ∷ []
sample_children dates Node.item = Node.title ∷ Node.link ∷ dates
sample_children dates _ = []

abbrev feed_with : List Node → Xml Node
feed_with dates = record {
  tag = sample_tag;
  text = sample_text;
  href = λ e. none;
  children = sample_children dates;
}

abbrev sample : Xml Node
sample = feed_with (Node.date ∷ [])

abbrev undated : Xml Node
undated = feed_with []

abbrev at_time : ℕ → Dates
at_time now = record { now = now; parsedate = λ s. some 7; fromisoformat = λ s. none }

abbrev digests : Digests
digests = record { sha256 = λ s. s; isoformat = λ t. (1000 + t) ∷ [] }

abbrev url : Text
url = codes "https://news.example/rss"

abbrev fetch : Text → Option Text
fetch s = some (codes "<rss/>")

abbrev run : Xml Node → ℕ → List (RssArticle ℤ) → Ingested ℤ
run xml now articles =
    news_ingest_rss_job digests xml (λ s. Parsed.tree Node.rss) fetch (at_time now) (url ∷ [])
      articles

html : strip_html (codes "<p>a <b>b</b>\n c<>") ≡ codes "a b c<>"
unfolding strip_html
html = refl

host : source_of url ≡ codes "news.example"
unfolding source_of
host = refl

symbols :
    extract_symbols (codes "Solana") (codes "and ETH") ≡ codes "KRW-ETH" ∷ codes "KRW-SOL" ∷ []
unfolding extract_symbols
symbols = refl

score :
    score_article_risk {F = ℤ} (codes "Bitcoin hack") (codes "adoption")
    ≡ (pos 520_000, codes "adoption" ∷ codes "hack" ∷ [])
unfolding score_article_risk ◌+ℤ◌ ◌-ℤ◌ ◌*ℤ◌
score = refl

first_run : (run sample 9 []).inserted ≡ 1
unfolding news_ingest_rss_job store_parsed parse_feed_xml store_items insert_article article_of
    make_content_hash child_text strip_html parse_datetime
first_run = refl

second_run : length (run sample 10 (run sample 9 []).articles).articles ≡ 1
unfolding news_ingest_rss_job store_parsed parse_feed_xml store_items insert_article article_of
    make_content_hash child_text strip_html parse_datetime
second_run = refl

-- An item without a date gets the time of the job, which is part of its digest: each job inserts
-- it again.
undated_again : length (run undated 10 (run undated 9 []).articles).articles ≡ 2
unfolding news_ingest_rss_job store_parsed parse_feed_xml store_items insert_article article_of
    make_content_hash child_text strip_html parse_datetime
undated_again = refl

abbrev once : Ingested ℤ
once = run sample 9 []

abbrev root_of : Parsed Node → Node
root_of (Parsed.tree root) = root
root_of _ = Node.rss

sample_dated : all_dated sample (at_time 9) Node.rss ≡ true
unfolding child_text strip local_name
sample_dated = refl

sample-IsDated : IsDated sample (at_time 9) (λ s. Parsed.tree Node.rss) fetch (url ∷ [])
sample-IsDated = (λ text root there read. rw (sym (ap root_of read)) sample_dated, tt)

job-Once_example :
    (is_distinct once.articles ≡ true)
    × (length once.articles ≡ 0 + once.inserted)
    × HasItems digests sample (λ s. Parsed.tree Node.rss) fetch (at_time 9) (url ∷ []) once.articles
    × ((run sample 10 once.articles).articles ≡ once.articles)
    × ((run sample 10 once.articles).inserted ≡ 0)
job-Once_example =
    job-Once digests sample (λ s. Parsed.tree Node.rss) fetch (at_time 9) 10 (url ∷ []) [] refl
      sample-IsDated

-- Two articles of one topic: the later one counts for a little less.
abbrev scored : ℤ → RssArticle ℤ
scored score = record {
  source = [];
  feed_url = [];
  article_url = none;
  title = codes "hack";
  content = [];
  published_at = 0;
  symbols = [];
  risk_signal_score = score;
  risk_drivers = codes "hack" ∷ codes "breach" ∷ [];
  content_hash = [];
  ingested_at = 0;
}

-- (100 + 0.95 * 22) / 1.95 = 62
two_scores : weighted_score (scored (pos 1_000_000) ∷ scored (pos 220_000) ∷ []) ≡ ok (pos 620_000)
unfolding weighted_score ◌+ℤ◌ ◌-ℤ◌ ◌*ℤ◌
two_scores = refl

two_drivers : count_drivers (scored (pos 0) ∷ scored (pos 0) ∷ []) ≡ (codes "보안 사고", 4) ∷ []
unfolding count_drivers
two_drivers = refl

counts_in_order :
    most_common ((codes "a", 1) ∷ (codes "b", 2) ∷ (codes "c", 1) ∷ [])
    ≡ (codes "b", 2) ∷ (codes "a", 1) ∷ (codes "c", 1) ∷ []
unfolding most_common
counts_in_order = refl
