-- ===== src/Rss/Ingest.antt =====
-- news_ingest_rss_job of src/agents/news/rss_news_pipeline.py, with the table of the articles, whose
-- column of digests is unique.
use coin_pilot.Base.{
  ℕ, ◌+◌, Bool, Option, none, some, List, [], ◌∷◌, ◌++◌, any, take, if◌then◌else◌,
}
use coin_pilot.Base.Text.{Text, codes, text_eq}
use coin_pilot.Number.{Number}
use coin_pilot.Number.Format.{Format}
use coin_pilot.Rss.Keywords.{extract_symbols, score_article_risk}
use coin_pilot.Rss.Feed.{Xml, Parsed, Dates, FeedItem, normalize_space, parse_feed_xml}

pub record RssArticle {ℓ} (F : Type ℓ) : Type ℓ where
  pub source : Text
  pub feed_url : Text
  pub article_url : Option Text
  pub title : Text
  pub content : Text
  pub published_at : ℕ
  pub symbols : List Text
  pub risk_signal_score : F
  pub risk_drivers : List Text
  pub content_hash : Text
  pub ingested_at : ℕ

-- The table, and the counters of the job.
pub record Ingested {ℓ} (F : Type ℓ) : Type ℓ where
  pub articles : List (RssArticle F)
  pub inserted : ℕ
  pub skipped : ℕ
  pub failed : ℕ

-- `hashlib.sha256(...).hexdigest()` of a text, and `isoformat` of an instant in UTC.
pub record Digests : Type 0 where
  pub sha256 : Text → Text
  pub isoformat : ℕ → Text

unfoldable pub make_content_hash : Digests → FeedItem → Text
unfolding normalize_space
make_content_hash g item = g.sha256 (
    normalize_space item.title
    ++ codes "|"
    ++ normalize_space item.link
    ++ codes "|"
    ++ take 500 (normalize_space item.content)
    ++ codes "|"
    ++ g.isoformat item.published_at)

abbrev link_or_null : Text → Option Text
link_or_null [] = none
link_or_null (c ∷ s) = some (c ∷ s)

abbrev title_or_untitled : Text → Text
title_or_untitled [] = codes "(untitled)"
title_or_untitled (c ∷ s) = c ∷ s

module _ {ℓ} {F : Type ℓ} where
  -- Whether the unique column has the digest.
  abbrev pub is_stored : Text → List (RssArticle F) → Bool
  is_stored digest articles = any (λ a. text_eq digest a.content_hash) articles

  -- `on_conflict_do_nothing(index_elements=["content_hash"])`, with the counter of `rowcount`.
  unfoldable pub insert_article : RssArticle F → Ingested F → Ingested F
  insert_article row st =
      if is_stored row.content_hash st.articles
      then record {
        articles = st.articles;
        inserted = st.inserted;
        skipped = st.skipped + 1;
        failed = st.failed;
      }
      else record {
        articles = row ∷ st.articles;
        inserted = st.inserted + 1;
        skipped = st.skipped;
        failed = st.failed;
      }

  abbrev pub fail_feed : Ingested F → Ingested F
  fail_feed st = record {
    articles = st.articles;
    inserted = st.inserted;
    skipped = st.skipped;
    failed = st.failed + 1;
  }

module _ {E : Type 0} (xml : Xml E) (fromstring : Text → Parsed E)
    (fetch : Text → Option Text) where
  -- `none` where an exception is raised.
  abbrev pub fetch_items : Dates → Text → Option (List FeedItem)
  fetch_items d url = elim (fetch url) [
    | none ↦ none
    | some xml_text ↦ parse_feed_xml xml d fromstring xml_text url
  ]

module _ {ℓ} {F : Type ℓ} ⦃n : Number F⦄ ⦃f : Format F⦄ (g : Digests) where
  unfoldable pub article_of : ℕ → FeedItem → RssArticle F
  unfolding score_article_risk extract_symbols
  article_of now item =
      let risk = score_article_risk item.title item.content in
      record {
        source = item.source;
        feed_url = item.feed_url;
        article_url = link_or_null item.link;
        title = title_or_untitled item.title;
        content = item.content;
        published_at = item.published_at;
        symbols = extract_symbols item.title item.content;
        risk_signal_score = risk.0;
        risk_drivers = risk.1;
        content_hash = make_content_hash g item;
        ingested_at = now;
      }

  unfoldable pub store_items : ℕ → List FeedItem → Ingested F → Ingested F
  unfolding insert_article
  store_items now [] st = st
  store_items now (item ∷ items) st =
      store_items now items (insert_article (article_of now item) st)

  -- At most 200 items of a feed; a feed that cannot be fetched or parsed is counted.
  unfoldable pub store_parsed : ℕ → Option (List FeedItem) → Ingested F → Ingested F
  unfolding store_items
  store_parsed now none st = fail_feed st
  store_parsed now (some items) st = store_items now (take 200 items) st

  module _ {E : Type 0} (xml : Xml E) (fromstring : Text → Parsed E)
      (fetch : Text → Option Text) where
    unfoldable pub ingest_feed : Dates → Text → Ingested F → Ingested F
    unfolding store_parsed
    ingest_feed d url st = store_parsed d.now (fetch_items xml fromstring fetch d url) st

    unfoldable pub ingest_feeds : Dates → List Text → Ingested F → Ingested F
    unfolding ingest_feed
    ingest_feeds d [] st = st
    ingest_feeds d (url ∷ urls) st = ingest_feeds d urls (ingest_feed d url st)

    -- A job, on the rows that are there.
    unfoldable pub news_ingest_rss_job : Dates → List Text → List (RssArticle F) → Ingested F
    unfolding ingest_feeds
    news_ingest_rss_job d feeds articles =
        ingest_feeds d feeds (record { articles = articles; inserted = 0; skipped = 0; failed = 0 })
