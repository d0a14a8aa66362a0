-- ===== src/Tests/Texts.antt =====
-- Texts for crates/lm-resizer-core/src/transforms/tag_protector.rs.
use lm_resizer.Base.Decimal.{decimal, decimal_fuel}
use lm_resizer.Tags.Html.{in_table, is_known_html_tag}
use lm_resizer.Tags.Parse.{
  is_name_start, is_name_cont, skip_while, attributes, close_end, after_name, parse_name,
  parse_tag_at, InText, parse_tag_at-InText,
}
use lm_resizer.Tags.Spans.{
  Walk, find_lt, pop_to, retain_before, open_custom, open_step, close_match, close_step, tag_step,
  step, walk, identify_spans, open_marker, close_marker,
}
use lm_resizer.Tags.Protect.{
  default_prefix, fallback_prefix, salted_prefix, pick_salted, pick_placeholder_prefix, placeholder,
  emit_from, emit_output, Protected, no_stats, protected_or_text, protect_walk, protect_tags,
}
use lm_resizer.Base.{
  ◌≡◌, ◌⊎◌, refl, true, false, some, [], ◌∷◌, ◌++◌, length, Bytes, codes, contains, arith,
}
use lm_resizer.Tags.Spans.Order.{identify_spans-Apart}
use lm_resizer.Tags.Spans.Markers.{enclosing_close-IsOrphan}
use lm_resizer.Tags.Spans.Apart.{Apart}
use lm_resizer.Tags.Protect.Prefix.{pick-fresh, in_rounds}

abbrev tagged : Bytes
tagged = codes "a <think>x</think> <b>y</b> <note/>"

protect_of_tagged :
    protect_tags tagged false
    ≡ some (record {
      cleaned = codes "a {{lm-resizer_TAG_0}} <b>y</b> {{lm-resizer_TAG_1}}";
      blocks =
          (codes "{{lm-resizer_TAG_0}}", codes "<think>x</think>")
          ∷ (codes "{{lm-resizer_TAG_1}}", codes "<note/>")
          ∷ [];
      stats = record {
        tags_seen = 5;
        html_tags_skipped = 2;
        custom_blocks_protected = 1;
        self_closing_protected = 1;
        orphan_closes = 0;
        placeholder_collision_avoided = false;
      };
    })
unfolding protect_tags pick_placeholder_prefix identify_spans walk step tag_step open_step
    close_step close_match open_custom pop_to find_lt retain_before parse_tag_at parse_name
    after_name close_end attributes skip_while is_name_start is_name_cont is_known_html_tag in_table
    protect_walk protected_or_text emit_output emit_from placeholder decimal decimal_fuel
protect_of_tagged = refl

spans_example :
    (w : Walk) × (identify_spans tagged false no_stats ≡ some w) × Apart 0 w.spans (length tagged)
spans_example = identify_spans-Apart tagged false no_stats

-- A text that holds the default prefix: the first salted one is picked.
abbrev colliding : Bytes
colliding = codes "<x>{{lm-resizer_TAG_0}}</x>"

pick_of_colliding : pick_placeholder_prefix colliding ≡ (codes "{{lm-resizer_TAG_0_", true)
unfolding pick_placeholder_prefix pick_salted salted_prefix decimal decimal_fuel
pick_of_colliding = refl

pick-fresh_example :
    (contains (pick_placeholder_prefix colliding).0 colliding ≡ false)
    ⊎ ((pick_placeholder_prefix colliding).0 ≡ fallback_prefix)
      × (contains default_prefix colliding ≡ true)
      × (in_rounds (λ salt. contains (salted_prefix salt) colliding) 0 16 ≡ true)
pick-fresh_example = pick-fresh colliding

parse_tag_at_example : InText 2 15 (parse_tag_at 2 (codes "a href='x'/>"))
parse_tag_at_example = parse_tag_at-InText 2 15 (codes "a href='x'/>") (omega arith)

-- Nested tags in the marker mode: the outer closing tag stays in the cleaned text.
abbrev nested : Bytes
nested = codes "<out><in>x</in>y</out>"

abbrev before_inner_close : Walk
before_inner_close = record {
  i = 10;
  spans =
      record { start = 0; end = 5; kind = open_marker }
      ∷ record { start = 5; end = 9; kind = open_marker }
      ∷ [];
  stack =
      record { name_lower = codes "in"; open_start = 5 }
      ∷ record { name_lower = codes "out"; open_start = 0 }
      ∷ [];
  stats = record no_stats { tags_seen = 2 };
}

protect_of_nested :
    (p : Protected) × (protect_tags nested true ≡ some p)
    × (p.cleaned ≡ codes "{{lm-resizer_TAG_0}}{{lm-resizer_TAG_1}}x{{lm-resizer_TAG_2}}y</out>")
unfolding protect_tags pick_placeholder_prefix identify_spans walk step tag_step open_step
    close_step close_match open_custom pop_to find_lt retain_before parse_tag_at parse_name
    after_name close_end attributes skip_while is_name_start is_name_cont is_known_html_tag in_table
    protect_walk protected_or_text emit_output emit_from placeholder decimal decimal_fuel
protect_of_nested = (_, refl, refl)

enclosing_close_example :
    ((close_step true (close_step true before_inner_close (codes "in") 15) (codes "out") 22).spans
      ≡ before_inner_close.spans ++ record { start = 10; end = 15; kind = close_marker } ∷ [])
    × ((close_step true
          (close_step true before_inner_close (codes "in") 15)
          (codes "out")
          22).stats.orphan_closes
        ≡ 1)
unfolding pop_to is_known_html_tag in_table
enclosing_close_example =
    enclosing_close-IsOrphan before_inner_close (codes "in") (codes "out") 15 22
      (record { name_lower = codes "in"; open_start = 5 })
      (record { name_lower = codes "out"; open_start = 0 }) [] refl refl refl refl
