-- ===== src/Tags/Html.antt =====
-- The table of standard tags in crates/lm-resizer-core/src/transforms/tag_protector.rs.
use lm_resizer.Base.{
  String, Bool, true, false, ◌||◌, List, [], ◌∷◌, any, Bytes, codes, bytes_eq, is_ascii_uppercase,
  to_ascii_lowercase, if◌then◌else◌,
}

abbrev pub html5_tags : List String
html5_tags =
    "html" ∷ "base" ∷ "head" ∷ "link" ∷ "meta" ∷ "style" ∷ "title" ∷ "body" ∷ "address" ∷ "article"
    ∷ "aside" ∷ "footer" ∷ "h1" ∷ "h2" ∷ "h3" ∷ "h4" ∷ "h5" ∷ "h6" ∷ "header" ∷ "hgroup" ∷ "main"
    ∷ "nav" ∷ "section" ∷ "search" ∷ "blockquote" ∷ "dd" ∷ "div" ∷ "dl" ∷ "dt" ∷ "figcaption"
    ∷ "figure" ∷ "hr" ∷ "li" ∷ "menu" ∷ "ol" ∷ "p" ∷ "pre" ∷ "ul" ∷ "a" ∷ "abbr" ∷ "b" ∷ "bdi"
    ∷ "bdo" ∷ "br" ∷ "cite" ∷ "code" ∷ "data" ∷ "dfn" ∷ "em" ∷ "i" ∷ "kbd" ∷ "mark" ∷ "q" ∷ "rp"
    ∷ "rt" ∷ "ruby" ∷ "s" ∷ "samp" ∷ "small" ∷ "span" ∷ "strong" ∷ "sub" ∷ "sup" ∷ "time" ∷ "u"
    ∷ "var" ∷ "wbr" ∷ "area" ∷ "audio" ∷ "img" ∷ "map" ∷ "track" ∷ "video" ∷ "embed" ∷ "iframe"
    ∷ "object" ∷ "param" ∷ "picture" ∷ "portal" ∷ "source" ∷ "svg" ∷ "math" ∷ "canvas" ∷ "noscript"
    ∷ "script" ∷ "del" ∷ "ins" ∷ "caption" ∷ "col" ∷ "colgroup" ∷ "table" ∷ "tbody" ∷ "td" ∷ "tfoot"
    ∷ "th" ∷ "thead" ∷ "tr" ∷ "button" ∷ "datalist" ∷ "fieldset" ∷ "form" ∷ "input" ∷ "label"
    ∷ "legend" ∷ "meter" ∷ "optgroup" ∷ "option" ∷ "output" ∷ "progress" ∷ "select" ∷ "textarea"
    ∷ "details" ∷ "dialog" ∷ "summary" ∷ "slot" ∷ "template" ∷ []

-- `set.contains(name)`.
unfoldable pub in_table : List String → Bytes → Bool
in_table [] name = false
in_table (t ∷ ts) name = bytes_eq (codes t) name || in_table ts name

unfoldable pub is_known_html_tag : Bytes → Bool
is_known_html_tag name =
    if in_table html5_tags name
    then true
    else if any is_ascii_uppercase name
    then in_table html5_tags (to_ascii_lowercase name)
    else false
