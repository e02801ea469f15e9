-- ===== src/Rss/Dated.antt =====
-- Feeds whose items all have a date, parsed at two times (src/agents/news/rss_news_pipeline.py).
use coin_pilot.Base.{
  ℕ, ◌≡◌, ◌⊎◌, refl, Bool, true, false, not, ◌&&◌, ◌||◌, Option, some, List, [], ◌∷◌, all, arith,
  is_none, Option-cases, inl, inr,
}
use coin_pilot.Base.Ordered.{All}
use coin_pilot.Base.Text.{Text, codes, strip}
use coin_pilot.Rss.Feed.{
  Xml, Parsed, Dates, FeedItem, parse_datetime, with_offset, child_text, atom_link, findall,
  items_of, entries_of, add_item, rss_items, atom_items, root_items, parse_feed_xml,
}
use coin_pilot.Rss.Ingest.{fetch_items}

-- The same parsers of dates, at another time.
abbrev pub at : Dates → ℕ → Dates
at d later = record d { now = later }

-- One of the two parsers reads the text.
abbrev pub has_date : Dates → Text → Bool
unfolding strip
has_date d [] = false
has_date d (c ∷ s) =
    not (is_none (d.parsedate (strip (c ∷ s))))
    || not (is_none (d.fromisoformat (with_offset (strip (c ∷ s)))))

parse_datetime_same :
    (d : Dates) (later : ℕ) (s : Text)
    → has_date d s ≡ true
    → parse_datetime (at d later) s ≡ parse_datetime d s
unfolding parse_datetime
parse_datetime_same d later [] h = absurd (ground (arith, h))
parse_datetime_same d later (c ∷ s) h = ground (arith, h)

Parsed-cases :
    {E : Type 0} (r : Parsed E)
    → ((root : E) × (r ≡ Parsed.tree root)) ⊎ (r ≡ Parsed.parse_error) ⊎ (r ≡ Parsed.refused)
Parsed-cases (Parsed.tree root) = inl (root, refl)
Parsed-cases Parsed.parse_error = inr (inl refl)
Parsed-cases Parsed.refused = inr (inr refl)

module _ {E : Type 0} (xml : Xml E) (d : Dates) where
  -- The texts of the dates of an item and of an entry.
  abbrev pub item_date : E → Text
  item_date e = child_text xml e ("pubdate" ∷ "published" ∷ "updated" ∷ "dc:date" ∷ [])

  abbrev pub entry_date : E → Text
  entry_date e = child_text xml e ("published" ∷ "updated" ∷ [])

  -- Every item of the channel and every entry has a date.
  abbrev pub all_dated : E → Bool
  all_dated root =
      all (λ e. has_date d (item_date e))
        (items_of xml (findall xml (codes "channel") (xml.children root)))
      && all (λ e. has_date d (entry_date e)) (entries_of xml (xml.children root))

  add_same :
      (later : ℕ) (url title link content published : Text) (items items' : List FeedItem)
      → has_date d published ≡ true
      → items ≡ items'
      → add_item xml (at d later) url title link content published items
        ≡ add_item xml d url title link content published items'
  add_same later url [] [] content published items items' h e = e
  add_same later url [] (c ∷ s) content published items items' h e =
      ground (arith, e, parse_datetime_same d later published h)
  add_same later url (c ∷ s) link content published items items' h e =
      ground (arith, e, parse_datetime_same d later published h)

  rss_same :
      (later : ℕ) (url : Text) (es : List E)
      → all (λ e. has_date d (item_date e)) es ≡ true
      → rss_items xml (at d later) url es ≡ rss_items xml d url es
  rss_same later url [] h = refl
  rss_same later url (e ∷ es) h =
      add_same later url (child_text xml e ("title" ∷ [])) (child_text xml e ("link" ∷ []))
        (child_text xml e ("description" ∷ "content" ∷ "encoded" ∷ [])) (item_date e)
        (rss_items xml (at d later) url es) (rss_items xml d url es) (ground (arith, h))
        (rss_same later url es (ground (arith, h)))

  atom_same :
      (later : ℕ) (url : Text) (es : List E)
      → all (λ e. has_date d (entry_date e)) es ≡ true
      → atom_items xml (at d later) url es ≡ atom_items xml d url es
  atom_same later url [] h = refl
  atom_same later url (e ∷ es) h =
      add_same later url (child_text xml e ("title" ∷ [])) (atom_link xml e)
        (child_text xml e ("summary" ∷ "content" ∷ [])) (entry_date e)
        (atom_items xml (at d later) url es) (atom_items xml d url es) (ground (arith, h))
        (atom_same later url es (ground (arith, h)))

  root_same :
      (later : ℕ) (url : Text) (root : E)
      → all_dated root ≡ true
      → root_items xml (at d later) url root ≡ root_items xml d url root
  unfolding root_items
  root_same later url root h =
      let channel = items_of xml (findall xml (codes "channel") (xml.children root)) in
      let entries = entries_of xml (xml.children root) in
      ground (arith, h, rss_same later url channel, atom_same later url entries)

  module _ (fromstring : Text → Parsed E) (fetch : Text → Option Text) where
    -- Every document that is fetched and parsed has a date on all that it brings.
    abbrev pub IsDated : List Text → Type 0
    IsDated urls =
        All
          (λ url.
            (text : Text) (root : E)
            → fetch url ≡ some text
            → fromstring text ≡ Parsed.tree root
            → all_dated root ≡ true)
          urls

    parse_same :
        (later : ℕ) (url text : Text)
        → ((root : E) → fromstring text ≡ Parsed.tree root → all_dated root ≡ true)
        → parse_feed_xml xml (at d later) fromstring text url
          ≡ parse_feed_xml xml d fromstring text url
    unfolding parse_feed_xml
    parse_same later url text h = elim (Parsed-cases (fromstring text)) [
      | inl (root, read) ↦ ground (arith, read, root_same later url root (h root read))
      | inr (inl wrong) ↦ ground (arith, wrong)
      | inr (inr refused) ↦ ground (arith, refused)
    ]

    pub fetch_items_same :
        (later : ℕ) (url : Text)
        → ((text : Text) (root : E)
            → fetch url ≡ some text
            → fromstring text ≡ Parsed.tree root
            → all_dated root ≡ true)
        → fetch_items xml fromstring fetch (at d later) url ≡ fetch_items xml fromstring fetch d url
    fetch_items_same later url h = elim (Option-cases (fetch url)) [
      | inl missing ↦ ground (arith, missing)
      | inr (text, there) ↦
          ground (arith, there, parse_same later url text (λ root. h text root there))
    ]
