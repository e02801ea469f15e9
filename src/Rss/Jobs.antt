-- ===== src/Rss/Jobs.antt =====
-- Whole jobs of news_ingest_rss_job in src/agents/news/rss_news_pipeline.py, one after the other.
use coin_pilot.Base.{
  ℕ, ◌+◌, ◌≡◌, refl, true, Option, none, some, List, [], ◌∷◌, ◌++◌, all, take, length, arith, ◌∙◌,
}
use coin_pilot.Base.Ordered.{All}
use coin_pilot.Base.Text.{Text, codes}
use coin_pilot.Number.{Number}
use coin_pilot.Number.Format.{Format}
use coin_pilot.Rss.Feed.{Xml, Parsed, Dates, FeedItem, normalize_space}
use coin_pilot.Rss.Ingest.{
  RssArticle, Ingested, Digests, store_parsed, fetch_items, is_stored, make_content_hash,
  ingest_feed, ingest_feeds, news_ingest_rss_job,
}
use coin_pilot.Rss.Again.{is_distinct, are_stored, store-keeps, store-stored, store_known, job-Kept}
use coin_pilot.Rss.Dated.{at, IsDated, fetch_items_same}

-- The digest of the title, the link, the first 500 characters of the content, and the date.
abbrev pub digest : Digests → FeedItem → Text
digest g i = g.sha256 (
    normalize_space i.title
    ++ codes "|"
    ++ normalize_space i.link
    ++ codes "|"
    ++ take 500 (normalize_space i.content)
    ++ codes "|"
    ++ g.isoformat i.published_at)

make_content_hash-digest : (g : Digests) (i : FeedItem) → make_content_hash g i ≡ digest g i
unfolding make_content_hash
make_content_hash-digest g i = refl

module _ {ℓ} {F : Type ℓ} ⦃n : Number F⦄ ⦃f : Format F⦄ (g : Digests) where
  abbrev HasAll : Option (List FeedItem) → List (RssArticle F) → Type 0
  HasAll none articles = Unit
  HasAll (some items) articles = are_stored g (take 200 items) articles ≡ true

  parsed-keeps :
      (now : ℕ) (items : Option (List FeedItem)) (st : Ingested F) (h : Text)
      → is_stored h st.articles ≡ true
      → is_stored h (store_parsed g now items st).articles ≡ true
  unfolding store_parsed
  parsed-keeps now none st h e = e
  parsed-keeps now (some items) st h e = store-keeps g now (take 200 items) st h e

  parsed-HasAll :
      (now : ℕ) (items : Option (List FeedItem)) (st : Ingested F)
      → HasAll items (store_parsed g now items st).articles
  unfolding store_parsed
  parsed-HasAll now none st = tt
  parsed-HasAll now (some items) st = store-stored g now (take 200 items) st

  parsed_known :
      (now : ℕ) (items : Option (List FeedItem)) (st : Ingested F)
      → HasAll items st.articles
      → ((store_parsed g now items st).articles ≡ st.articles)
        × ((store_parsed g now items st).inserted ≡ st.inserted)
  unfolding store_parsed
  parsed_known now none st h = (refl, refl)
  parsed_known now (some items) st h = store_known g now (take 200 items) st h

  module _ {E : Type 0} (xml : Xml E) (fromstring : Text → Parsed E)
      (fetch : Text → Option Text) where
    feeds-keeps :
        (d : Dates) (urls : List Text) (st : Ingested F) (h : Text)
        → is_stored h st.articles ≡ true
        → is_stored h (ingest_feeds g xml fromstring fetch d urls st).articles ≡ true
    unfolding ingest_feeds ingest_feed
    feeds-keeps d [] st h e = e
    feeds-keeps d (url ∷ urls) st h e =
        feeds-keeps d urls (ingest_feed g xml fromstring fetch d url st) h
          (parsed-keeps d.now (fetch_items xml fromstring fetch d url) st h e)

    feeds-are_stored :
        (d : Dates) (urls : List Text) (st : Ingested F) (items : List FeedItem)
        → are_stored g items st.articles ≡ true
        → are_stored g items (ingest_feeds g xml fromstring fetch d urls st).articles ≡ true
    feeds-are_stored d urls st [] h = refl
    feeds-are_stored d urls st (i ∷ items) h =
        ground (
          arith,
          h,
          feeds-keeps d urls st (make_content_hash g i),
          feeds-are_stored d urls st items,
        )

    feeds-HasAll :
        (d : Dates) (urls : List Text) (st : Ingested F) (items : Option (List FeedItem))
        → HasAll items st.articles
        → HasAll items (ingest_feeds g xml fromstring fetch d urls st).articles
    feeds-HasAll d urls st none h = tt
    feeds-HasAll d urls st (some items) h = feeds-are_stored d urls st (take 200 items) h

    ingested-HasAll :
        (d : Dates) (urls : List Text) (st : Ingested F)
        → All
            (λ url.
              HasAll
                (fetch_items xml fromstring fetch d url)
                (ingest_feeds g xml fromstring fetch d urls st).articles)
            urls
    unfolding ingest_feeds ingest_feed
    ingested-HasAll d [] st = tt
    ingested-HasAll d (url ∷ urls) st =
        let items = fetch_items xml fromstring fetch d url in
        let next = ingest_feed g xml fromstring fetch d url st in
        (feeds-HasAll d urls next items (parsed-HasAll d.now items st), ingested-HasAll d urls next)

    -- Feeds whose items the table has, at a later time.
    feeds_known :
        (d : Dates) (later : ℕ) (urls : List Text) (articles : List (RssArticle F))
        (st : Ingested F)
        → IsDated xml d fromstring fetch urls
        → All (λ url. HasAll (fetch_items xml fromstring fetch d url) articles) urls
        → st.articles ≡ articles
        → ((ingest_feeds g xml fromstring fetch (at d later) urls st).articles ≡ articles)
          × ((ingest_feeds g xml fromstring fetch (at d later) urls st).inserted ≡ st.inserted)
    unfolding ingest_feeds ingest_feed
    feeds_known d later [] articles st dated has e = (e, refl)
    feeds_known d later (url ∷ urls) articles st dated has e =
        let items = fetch_items xml fromstring fetch (at d later) url in
        let here = rw (← fetch_items_same xml d fromstring fetch later url dated.0, ← e) at has.0 in
        let (same, count) = parsed_known later items st here in
        let (rest, counts) =
          feeds_known d later urls articles (ingest_feed g xml fromstring fetch (at d later) url st)
            dated.1 has.1 (same ∙ e) in
        (rest, counts ∙ count)

    -- An item that a feed brings is among the rows, by its digest.
    abbrev pub HasItems : Dates → List Text → List (RssArticle F) → Type 0
    HasItems d urls articles =
        All
          (λ url.
            (items : List FeedItem)
            → fetch_items xml fromstring fetch d url ≡ some items
            → all (λ i. is_stored (digest g i) articles) (take 200 items) ≡ true)
          urls

    are_stored-digest :
        (items : List FeedItem) (articles : List (RssArticle F))
        → are_stored g items articles ≡ true
        → all (λ i. is_stored (digest g i) articles) items ≡ true
    are_stored-digest [] articles h = refl
    are_stored-digest (i ∷ items) articles h =
        ground (arith, h, make_content_hash-digest g i, are_stored-digest items articles)

    HasAll-HasItems :
        (d : Dates) (urls : List Text) (articles : List (RssArticle F))
        → All (λ url. HasAll (fetch_items xml fromstring fetch d url) articles) urls
        → HasItems d urls articles
    HasAll-HasItems d [] articles h = tt
    HasAll-HasItems d (url ∷ urls) articles h = (
      λ items e. are_stored-digest (take 200 items) articles (rw e at h.0),
      HasAll-HasItems d urls articles h.1,
    )

    -- From rows no two of which have the same digest, and where every item of the documents that are
    -- fetched and parsed has a date that can be read: after a job, whichever of the feeds fail, there
    -- are still no two, there are as many more rows as the counter says, and each of the first 200
    -- items of a feed that can be fetched is among them, by the digest of its title, its link, the
    -- first 500 characters of its content and its date; and a job over the same documents at any
    -- other time changes no row and inserts none.
    pub job-Once :
        (d : Dates) (later : ℕ) (urls : List Text) (articles : List (RssArticle F))
        → is_distinct articles ≡ true
        → IsDated xml d fromstring fetch urls
        → let once = news_ingest_rss_job g xml fromstring fetch d urls articles in
          let again = news_ingest_rss_job g xml fromstring fetch (at d later) urls once.articles in
          (is_distinct once.articles ≡ true)
          × (length once.articles ≡ length articles + once.inserted)
          × HasItems d urls once.articles
          × (again.articles ≡ once.articles)
          × (again.inserted ≡ 0)
    unfolding news_ingest_rss_job
    job-Once d later urls articles distinct dated =
        let start : List (RssArticle F) → Ingested F =
          λ rows. record { articles = rows; inserted = 0; skipped = 0; failed = 0 } in
        let (kept, grown) = job-Kept g xml fromstring fetch d urls articles distinct in
        let once = ingest_feeds g xml fromstring fetch d urls (start articles) in
        let has = ingested-HasAll d urls (start articles) in
        let (same, none_) =
          feeds_known d later urls once.articles (start once.articles) dated has refl in
        (kept, grown, HasAll-HasItems d urls once.articles has, same, none_)
