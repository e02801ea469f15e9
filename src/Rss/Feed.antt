-- ===== src/Rss/Feed.antt =====
-- parse_feed_xml of src/agents/news/rss_news_pipeline.py, over what defusedxml and the parsers of
-- dates answer.
use coin_pilot.Base.{
  ℕ, zero, suc, Bool, false, ◌||◌, not, Option, none, some, List, [], ◌∷◌, ◌++◌, any, ◌==◌,
  if◌then◌else◌, String,
}
use coin_pilot.Base.Text.{Text, codes, lower, contains, text_eq, strip, is_space}

-- ElementTree: `elem.tag`, `elem.text`, `elem.attrib.get("href")` and `list(elem)`.
pub record Xml (E : Type 0) : Type 0 where
  pub tag : E → Text
  pub text : E → Option Text
  pub href : E → Option Text
  pub children : E → List E

-- What `ET.fromstring` does: defusedxml also refuses some documents with another exception.
pub data Parsed (E : Type 0) : Type 0 where
  tree : E → Parsed E
  parse_error refused : Parsed E

-- The instants of `datetime.now`, `parsedate_to_datetime` and `datetime.fromisoformat`, in UTC
-- where the text names no zone; `none` where they raise.
pub record Dates : Type 0 where
  pub now : ℕ
  pub parsedate : Text → Option ℕ
  pub fromisoformat : Text → Option ℕ

pub record FeedItem : Type 0 where
  pub source : Text
  pub feed_url : Text
  pub title : Text
  pub link : Text
  pub content : Text
  pub published_at : ℕ

-- `re.sub(r"\s+", " ", text)`: a space stands for each run of them.
unfoldable pub squeeze : Bool → Text → Text
squeeze in_run [] = []
squeeze in_run (c ∷ s) =
    let rest = squeeze (is_space c) s in
    if is_space c then (if in_run then rest else 32 ∷ rest) else c ∷ rest

unfoldable pub normalize_space : Text → Text
unfolding squeeze strip
normalize_space s = strip (squeeze false s)

-- How many characters there are up to the next `>` and with it.
abbrev up_to_close : Text → Option ℕ
up_to_close [] = none
up_to_close (c ∷ s) =
    let later = up_to_close s in
    if c == 62 then some 1 else elim later [ none ↦ none | some k ↦ some (suc k) ]

-- How long the rest of a match of `<[^>]+>` is that starts here.
unfoldable pub tag_rest : ℕ → Text → Option ℕ
tag_rest c [] = none
tag_rest c (a ∷ s) = if not (c == 60) || (a == 62) then none else up_to_close (a ∷ s)

-- `re.sub(r"<[^>]+>", " ", text)`: `skip` characters of a match are left.
unfoldable pub blank_tags : ℕ → Text → Text
unfolding tag_rest
blank_tags skip [] = []
blank_tags (suc skip) (c ∷ s) = blank_tags skip s
blank_tags zero (c ∷ s) = elim (tag_rest c s) [
  | none ↦ c ∷ blank_tags 0 s
  | some k ↦ 32 ∷ blank_tags k s
]

unfoldable pub strip_html : Text → Text
unfolding blank_tags normalize_space
strip_html s = normalize_space (blank_tags 0 s)

-- `value.replace("Z", "+00:00")`
abbrev pub with_offset : Text → Text
with_offset [] = []
with_offset (c ∷ s) =
    let rest = with_offset s in if c == 90 then codes "+00:00" ++ rest else c ∷ rest

abbrev first_date : Dates → Text → Option ℕ → ℕ
first_date d value (some t) = t
first_date d value none = elim (d.fromisoformat (with_offset value)) [ none ↦ d.now | some t ↦ t ]

unfoldable pub parse_datetime : Dates → Text → ℕ
unfolding strip
parse_datetime d [] = d.now
parse_datetime d (c ∷ s) = let value = strip (c ∷ s) in first_date d value (d.parsedate value)

-- `tag.split("}")[-1]`, given what is after the brace before.
abbrev after_brace : Text → Text → Text
after_brace so_far [] = so_far
after_brace so_far (c ∷ s) = after_brace (if c == 125 then [] else so_far ++ c ∷ []) s

unfoldable pub local_name : Text → Text
local_name tag = after_brace [] tag

-- What stands after `n` more slashes, up to the next.
abbrev segment : ℕ → Text → Text
segment n [] = []
segment (suc n) (c ∷ s) = segment (if c == 47 then n else suc n) s
segment zero (c ∷ s) = let rest = segment zero s in if c == 47 then [] else c ∷ rest

-- `feed_url.split("/")[2] if "//" in feed_url else feed_url`
unfoldable pub source_of : Text → Text
source_of feed_url = if contains (codes "//") feed_url then segment 2 feed_url else feed_url

module _ {E : Type 0} (xml : Xml E) where
  abbrev pub is_named : List String → E → Bool
  unfolding local_name
  is_named names e = any (λ name. text_eq (lower (local_name (xml.tag e))) (codes name)) names

  -- `elem.text.strip()`, empty where there is none.
  abbrev pub stripped_text : E → Text
  unfolding strip
  stripped_text e = elim (xml.text e) [ none ↦ [] | some s ↦ strip s ]

  -- A text, or another where it is empty.
  abbrev or_later : Text → Text → Text
  or_later [] later = later
  or_later (c ∷ s) later = c ∷ s

  -- The first text of a child with one of the names.
  unfoldable pub first_text : List String → List E → Text
  first_text names [] = []
  first_text names (e ∷ es) =
      let later = first_text names es in
      if is_named names e then or_later (stripped_text e) later else later

  unfoldable pub child_text : E → List String → Text
  unfolding first_text
  child_text e names = first_text names (xml.children e)

  -- The link of one child: an address is taken as soon as it is not empty, even if it is blank.
  abbrev pub link_of : E → Text → Text
  unfolding strip
  link_of e later = elim (xml.href e) [
    | none ↦ or_later (stripped_text e) later
    | some [] ↦ or_later (stripped_text e) later
    | some (c ∷ s) ↦ strip (c ∷ s)
  ]

  abbrev first_link : List E → Text
  first_link [] = []
  first_link (e ∷ es) =
      let later = first_link es in if is_named ("link" ∷ []) e then link_of e later else later

  unfoldable pub atom_link : E → Text
  atom_link entry = first_link (xml.children entry)

  -- `findall(name)`
  abbrev pub findall : Text → List E → List E
  findall name [] = []
  findall name (e ∷ es) =
      let later = findall name es in if text_eq (xml.tag e) name then e ∷ later else later

  -- `find("channel")`, and the items in it.
  abbrev pub items_of : List E → List E
  items_of [] = []
  items_of (channel ∷ rest) = findall (codes "item") (xml.children channel)

  abbrev pub entries_of : List E → List E
  entries_of [] = []
  entries_of (e ∷ es) =
      let later = entries_of es in if is_named ("entry" ∷ []) e then e ∷ later else later

  module _ (d : Dates) where
    -- An item with neither a title nor a link is passed over.
    abbrev pub add_item : Text → Text → Text → Text → Text → List FeedItem → List FeedItem
    add_item url [] [] content published items = items
    add_item url title link content published items =
        record {
          source = source_of url;
          feed_url = url;
          title = normalize_space title;
          link = link;
          content = strip_html content;
          published_at = parse_datetime d published;
        }
        ∷ items

    abbrev pub rss_items : Text → List E → List FeedItem
    rss_items url [] = []
    rss_items url (e ∷ es) =
        add_item url (child_text e ("title" ∷ [])) (child_text e ("link" ∷ []))
          (child_text e ("description" ∷ "content" ∷ "encoded" ∷ []))
          (child_text e ("pubdate" ∷ "published" ∷ "updated" ∷ "dc:date" ∷ [])) (rss_items url es)

    abbrev pub atom_items : Text → List E → List FeedItem
    atom_items url [] = []
    atom_items url (e ∷ es) =
        add_item url (child_text e ("title" ∷ [])) (atom_link e)
          (child_text e ("summary" ∷ "content" ∷ [])) (child_text e ("published" ∷ "updated" ∷ []))
          (atom_items url es)

    unfoldable pub root_items : Text → E → List FeedItem
    unfolding local_name
    root_items url root =
        let name = lower (local_name (xml.tag root)) in
        if text_eq name (codes "rss")
        then rss_items url (items_of (findall (codes "channel") (xml.children root)))
        else if text_eq name (codes "feed")
        then atom_items url (entries_of (xml.children root))
        else []

    -- `none` where the parser refuses the document.
    unfoldable pub parse_feed_xml : (Text → Parsed E) → Text → Text → Option (List FeedItem)
    unfolding root_items strip
    parse_feed_xml fromstring xml_text url = elim (strip xml_text) [
      | [] ↦ some []
      | c ∷ s ↦ elim (fromstring xml_text) [
        | Parsed.tree root ↦ some (root_items url root)
        | Parsed.parse_error ↦ some []
        | Parsed.refused ↦ none
      ]
    ]
