-- ===== src/Tags/Protect/RoundTrip.antt =====
-- Restoring the placeholders of a protected text gives the text back.
use lm_resizer.Tags.Spans.Apart.{Apart}
