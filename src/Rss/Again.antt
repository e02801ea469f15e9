-- ===== src/Rss/Again.antt =====
-- What the digests keep out of the table of the articles.
use coin_pilot.Base.{
  ℕ, ◌≡◌, refl, Bool, true, not, ◌&&◌, List, [], ◌∷◌, Option, none, some, all, take, arith, length,
  ◌+◌,
}
use coin_pilot.Base.Text.{Text, text_eq_refl}
use coin_pilot.Number.{Number}
use coin_pilot.Number.Format.{Format}
use coin_pilot.Rss.Feed.{Xml, Parsed, Dates, FeedItem}
use coin_pilot.Rss.Ingest.{
  RssArticle, Ingested, Digests, store_parsed, fetch_items, is_stored, insert_article, article_of,
  store_items, ingest_feed, ingest_feeds, make_content_hash, news_ingest_rss_job,
}

module _ {ℓ} {F : Type ℓ} where
  -- No two rows have the same digest.
  abbrev pub is_distinct : List (RssArticle F) → Bool
  is_distinct [] = true
  is_distinct (a ∷ articles) = not (is_stored a.content_hash articles) && is_distinct articles

  insert-Distinct :
      (row : RssArticle F) (st : Ingested F)
      → is_distinct st.articles ≡ true
      → is_distinct (insert_article row st).articles ≡ true
  unfolding insert_article
  insert-Distinct row st h = ground (arith, h)

  insert-keeps :
      (row : RssArticle F) (st : Ingested F) (digest : Text)
      → is_stored digest st.articles ≡ true
      → is_stored digest (insert_article row st).articles ≡ true
  unfolding insert_article
  insert-keeps row st digest h = ground (arith, h)

  insert-stored :
      (row : RssArticle F) (st : Ingested F)
      → is_stored row.content_hash (insert_article row st).articles ≡ true
  unfolding insert_article
  insert-stored row st = ground (arith, text_eq_refl row.content_hash)

  insert_known :
      (row : RssArticle F) (st : Ingested F)
      → is_stored row.content_hash st.articles ≡ true
      → ((insert_article row st).articles ≡ st.articles)
        × ((insert_article row st).inserted ≡ st.inserted)
  unfolding insert_article
  insert_known row st h = ground (arith, h)

  insert-counts :
      (row : RssArticle F) (st : Ingested F)
      → (insert_article row st).inserted + length st.articles
        ≡ st.inserted + length (insert_article row st).articles
  unfolding insert_article
  insert-counts row st = ground arith

article-hash {ℓ} :
    (F : Type ℓ) ⦃n : Number F⦄ ⦃f : Format F⦄ (g : Digests) (now : ℕ) (item : FeedItem)
    → (article_of {F = F} g now item).content_hash ≡ make_content_hash g item
unfolding article_of
article-hash F g now item = refl

module _ {ℓ} {F : Type ℓ} ⦃n : Number F⦄ ⦃f : Format F⦄ (g : Digests) where
  pub store-keeps :
      (now : ℕ) (items : List FeedItem) (st : Ingested F) (digest : Text)
      → is_stored digest st.articles ≡ true
      → is_stored digest (store_items g now items st).articles ≡ true
  unfolding store_items
  store-keeps now [] st digest h = h
  store-keeps now (item ∷ items) st digest h =
      let row = article_of g now item in
      store-keeps now items (insert_article row st) digest (insert-keeps row st digest h)

  abbrev pub are_stored : List FeedItem → List (RssArticle F) → Bool
  are_stored items articles = all (λ item. is_stored (make_content_hash g item) articles) items

  pub store-stored :
      (now : ℕ) (items : List FeedItem) (st : Ingested F)
      → are_stored items (store_items g now items st).articles ≡ true
  unfolding store_items
  store-stored now [] st = refl
  store-stored now (item ∷ items) st =
      let row = article_of {F = F} g now item in
      ground (
        arith,
        insert-stored row st,
        article-hash F g now item,
        store-keeps now items (insert_article row st) row.content_hash,
        store-stored now items (insert_article row st),
      )

  pub store_known :
      (now : ℕ) (items : List FeedItem) (st : Ingested F)
      → are_stored items st.articles ≡ true
      → ((store_items g now items st).articles ≡ st.articles)
        × ((store_items g now items st).inserted ≡ st.inserted)
  unfolding store_items
  store_known now [] st h = (refl, refl)
  store_known now (item ∷ items) st h =
      let row = article_of {F = F} g now item in
      ground (
        arith,
        h,
        article-hash F g now item,
        insert_known row st,
        store_known now items (insert_article row st),
      )

  store-Distinct :
      (now : ℕ) (items : List FeedItem) (st : Ingested F)
      → is_distinct st.articles ≡ true
      → is_distinct (store_items g now items st).articles ≡ true
  unfolding store_items
  store-Distinct now [] st h = h
  store-Distinct now (item ∷ items) st h =
      let row = article_of g now item in
      store-Distinct now items (insert_article row st) (insert-Distinct row st h)

  store-counts :
      (now : ℕ) (items : List FeedItem) (st : Ingested F)
      → (store_items g now items st).inserted + length st.articles
        ≡ st.inserted + length (store_items g now items st).articles
  unfolding store_items
  store-counts now [] st = refl
  store-counts now (item ∷ items) st =
      let row = article_of {F = F} g now item in
      omega (arith, insert-counts row st, store-counts now items (insert_article row st))

  parsed-Kept :
      (now : ℕ) (items : Option (List FeedItem)) (st : Ingested F)
      → is_distinct st.articles ≡ true
      → let after = store_parsed g now items st in
        (is_distinct after.articles ≡ true)
        × (after.inserted + length st.articles ≡ st.inserted + length after.articles)
  unfolding store_parsed
  parsed-Kept now none st h = (h, refl)
  parsed-Kept now (some items) st h =
      (store-Distinct now (take 200 items) st h, store-counts now (take 200 items) st)

  module _ {E : Type 0} (xml : Xml E) (fromstring : Text → Parsed E)
      (fetch : Text → Option Text) where
    feeds-Kept :
        (d : Dates) (urls : List Text) (st : Ingested F)
        → is_distinct st.articles ≡ true
        → let after = ingest_feeds g xml fromstring fetch d urls st in
          (is_distinct after.articles ≡ true)
          × (after.inserted + length st.articles ≡ st.inserted + length after.articles)
    unfolding ingest_feeds ingest_feed
    feeds-Kept d [] st h = (h, refl)
    feeds-Kept d (url ∷ urls) st h =
        let next = ingest_feed g xml fromstring fetch d url st in
        let kept = parsed-Kept d.now (fetch_items xml fromstring fetch d url) st h in
        let rest = feeds-Kept d urls next kept.0 in (rest.0, omega (arith, kept.1, rest.1))

    -- A job over any feeds, whichever of them fail, leaves no two rows with the same digest when
    -- there were none, and the counter of rows inserted is how many more rows there are.
    pub job-Kept :
        (d : Dates) (urls : List Text) (articles : List (RssArticle F))
        → is_distinct articles ≡ true
        → let after = news_ingest_rss_job g xml fromstring fetch d urls articles in
          (is_distinct after.articles ≡ true)
          × (length after.articles ≡ length articles + after.inserted)
    unfolding news_ingest_rss_job
    job-Kept d urls articles h =
        let start : Ingested F = record {
          articles = articles;
          inserted = 0;
          skipped = 0;
          failed = 0;
        } in
        let kept = feeds-Kept d urls start h in (kept.0, omega (arith, kept.1))
