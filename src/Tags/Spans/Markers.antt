-- ===== src/Tags/Spans/Markers.antt =====
-- The marker mode of `identify_spans`, in which `protect_tags` leaves the text between two tags open
-- to the compressor: what a closing tag does to the open tag around it.
use lm_resizer.Tags.Spans.{OpenTag, Walk, pop_to, close_match, close_step, close_marker}
use lm_resizer.Base.{
  ℕ, ◌+◌, ◌≡◌, refl, true, false, none, some, List, ◌∷◌, ◌++◌, [], Bytes, to_ascii_lowercase,
}
use lm_resizer.Tags.Html.{is_known_html_tag}

-- In the marker mode, a closing tag that matches an open tag also takes the next open tag below it
-- off the stack: the closing tag of that one, where no other open tag of its name stands further
-- below, then counts as an orphan, and no span protects it.
pub enclosing_close-IsOrphan :
    (w : Walk) (inner outer : Bytes) (e e' : ℕ) (o p : OpenTag) (below : List OpenTag)
    → is_known_html_tag inner ≡ false
    → is_known_html_tag outer ≡ false
    → pop_to (to_ascii_lowercase inner) w.stack ≡ some (o, p ∷ below)
    → pop_to (to_ascii_lowercase outer) below ≡ none
    → ((close_step true (close_step true w inner e) outer e').spans
        ≡ w.spans ++ record { start = w.i; end = e; kind = close_marker } ∷ [])
      × ((close_step true (close_step true w inner e) outer e').stats.orphan_closes
          ≡ w.stats.orphan_closes + 1)
unfolding close_step close_match
enclosing_close-IsOrphan w inner outer e e' o p below hi ho found gone =
    rw (hi, found, ho) (rw gone (refl, refl))
