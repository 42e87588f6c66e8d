-- ===== src/Discovery/Probe/Html.antt =====
-- discovery/probe.rs: the display name of a page. `lossy` is `String::from_utf8_lossy`. The searches go
-- through the text from left to right; the first argument of a loop counts the characters that the
-- source's search position has moved past already.
use raemote_server.Prelude.{
  ℕ, zero, suc, ◌+◌, ◌-◌, Bool, true, false, not, ◌&&◌, ◌||◌, List, [], ◌∷◌, ◌++◌, nat_instance,
  list_instance, option_instance, if◌then◌else◌, length, take, drop, Option, none, some, is_empty,
  nat_eq, leb,
}
use raemote_server.Text.{
  Text, codes, is_whitespace, lowercase, trim, trim_start, strip_prefix, split_once,
  split_whitespace, eq_ignore_ascii_case,
}
use mathlib.Core.Option
use raemote_server.Discovery.Probe.Bytes.{find_ci}

abbrev pub max_name_chars : ℕ
max_name_chars = 120

-- The loop over the characters. The last argument is `prev_space`.
unfoldable pub normalize_from : Text → Text → Bool → Text
normalize_from [] out prev_space = out
normalize_from (ch ∷ rest) out prev_space =
    let spaced = if not prev_space && not (is_empty out) then out ++ 32 ∷ [] else out in
    let light = is_whitespace ch in
    let next = if light then spaced else out ++ ch ∷ [] in
    let more = normalize_from rest next light in
    if leb max_name_chars (length next) then next else more

unfoldable pub normalize_name : Text → Option Text
normalize_name text =
    let out = trim (normalize_from text [] true) in if is_empty out then none else some out

-- what stands behind the `=` of an attribute
unfoldable pub unquote : Text → Text
unquote [] = []
unquote (c ∷ s) =
    if nat_eq c b'"' || nat_eq c b'\''
    then elim (split_once c s) [ none ↦ s | some (value, rest) ↦ value ]
    else elim (split_whitespace (c ∷ s)) [ [] ↦ [] | word ∷ words ↦ word ]

-- the value, if the name of the attribute has a space before it and a `=` behind it
unfoldable pub value_behind : Option ℕ → Text → Option Text
value_behind none behind = none
value_behind (some before) behind =
    if is_whitespace before
    then Option.map (λ s. unquote (trim_start s)) (strip_prefix (b'=' ∷ []) (trim_start behind))
    else none

-- the loop of `attribute_value` with the character before the text
unfoldable pub attribute_from : Text → ℕ → Option ℕ → Text → Option Text
attribute_from attr skip before [] = none
attribute_from attr (suc skip) before (c ∷ s) = attribute_from attr skip (some c) s
attribute_from attr zero before (c ∷ s) = elim (strip_prefix attr (lowercase (c ∷ s))) [
  | none ↦ attribute_from attr zero (some c) s
  | some lower ↦ elim (value_behind before (drop (length attr) (c ∷ s))) [
    | some value ↦ some value
    | none ↦ attribute_from attr (length attr - 1) (some c) s
  ]
]

unfoldable pub attribute_value : Text → Text → Option Text
attribute_value tag attr = attribute_from attr 0 none tag

-- the test of the attribute's value against the key
abbrev names_key : Text → Text → Text → Bool
names_key key tag attr = elim (attribute_value tag attr) [
  | none ↦ false
  | some v ↦ eq_ignore_ascii_case v key
]

-- the tag up to its `>`
unfoldable pub tag_of : Text → Option Text
tag_of text = Option.map (λ p. p.0 ++ b'>' ∷ []) (split_once b'>' text)

unfoldable pub content_of : Text → Text → Option Text
content_of key tag =
    if names_key key tag (codes "name") || names_key key tag (codes "property")
    then attribute_value tag (codes "content")
    else none

-- the loop of `extract_meta_content`
unfoldable pub meta_from : Text → ℕ → Text → Option Text
meta_from key skip [] = none
meta_from key (suc skip) (c ∷ s) = meta_from key skip s
meta_from key zero (c ∷ s) = elim (strip_prefix (codes "<meta") (lowercase (c ∷ s))) [
  | none ↦ meta_from key zero s
  | some lower ↦ elim (tag_of (c ∷ s)) [
    | none ↦ none
    | some tag ↦ elim (content_of key tag) [
      | some content ↦ some content
      | none ↦ meta_from key (length tag - 1) s
    ]
  ]
]

abbrev pub meta_keys : List Text
meta_keys =
    codes "og:title"
    ∷ codes "twitter:title"
    ∷ codes "application-name"
    ∷ codes "apple-mobile-web-app-title"
    ∷ []

module _ (lossy : List ℕ → Text) where
  unfoldable pub extract_meta_content : List ℕ → Text → Option Text
  extract_meta_content body key = meta_from key 0 (lossy body)

  -- the bytes between the first `<title …>` and the `</title` behind it
  unfoldable pub title_bytes : List ℕ → Option (List ℕ)
  title_bytes bytes = elim (find_ci bytes (codes "<title")) [
    | none ↦ none
    | some open_at ↦ elim (split_once b'>' (drop (open_at + 6) bytes)) [
      | none ↦ none
      | some (attributes, inside) ↦
          Option.map (λ close_at. take close_at inside) (find_ci inside (codes "</title"))
    ]
  ]

  unfoldable pub extract_title : List ℕ → Option Text
  extract_title bytes = elim (title_bytes bytes) [
    | none ↦ none
    | some inside ↦ normalize_name (lossy inside)
  ]

  -- the loop over the keys
  unfoldable pub first_meta : List ℕ → List Text → Option Text
  first_meta body [] = none
  first_meta body (key ∷ keys) = elim (extract_meta_content body key) [
    | none ↦ first_meta body keys
    | some content ↦ elim (normalize_name content) [
      | none ↦ first_meta body keys
      | some name ↦ some name
    ]
  ]

  unfoldable pub extract_name : List ℕ → Option Text
  extract_name body = elim (extract_title body) [
    | some title ↦ some title
    | none ↦ first_meta body meta_keys
  ]
