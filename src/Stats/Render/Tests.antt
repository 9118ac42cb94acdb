-- ===== src/Stats/Render/Tests.antt =====
-- The texts of sizes, of a line of the log and of a summary, on rational numbers.
use cicache.Prelude.{◌≡◌, refl, true, List, [], ◌∷◌, arith}
use cicache.Text.Utf8.{codes}
use cicache.Text.Number.{decimal, decimal_from}
use cicache.Text.Lines.{concat, push_lines}
use cicache.Text.Lines.Laws.{lacks}
use cicache.Stats.{Line, zero_summary}
use cicache.Stats.Render.{scale, human_bytes, line_text, log_text, render}
use cicache.Stats.Render.Units.{spelled, human_bytes-spelled}
use cicache.Stats.Render.Instance.{fraction, fraction-laws}
use cicache.Stats.Render.Log.{AllPlain}

human_bytes-spelled_example : human_bytes fraction 1572864 ≡ spelled fraction 1572864
human_bytes-spelled_example = human_bytes-spelled fraction fraction-laws 1572864

abbrev calls : List Line
calls =
    record {
      label = codes "HIT  ";
      bytes = 2048;
      millis = 7;
      method = codes "GET";
      url = codes "https://a/b";
      was_stored = true;
    }
    ∷ []

calls-AllPlain : AllPlain calls
unfolding lacks
calls-AllPlain = (
  record {
    label = λ b low. ground arith;
    method = λ b low. ground arith;
    url = λ b low. ground arith;
  },
  tt,
)

mib_text : human_bytes fraction 1572864 ≡ codes "1.5 MiB"
unfolding human_bytes scale decimal decimal_from
mib_text = refl

call_text :
    log_text fraction calls
    ≡ codes "HIT                                 2.0 KiB      7ms  GET https://a/b  -> stored\n"
unfolding log_text line_text push_lines concat human_bytes scale decimal decimal_from
call_text = refl

summary_text :
    render fraction (record zero_summary {
      requests = 3;
      hits = 1;
      misses = 2;
      stored = 2;
      upstream_millis = 250;
    })
    ≡ codes
        "cicache summary\n  requests           3\n  cache hits         1 (33.3% of cacheable)\n  cache misses       2 (2 stored for later runs)\n  passed through     0\n  errors             0\n  served from cache  0 B\n  fetched upstream   0 B  in 0.2s\n  uploaded to cache  0 B across 0 entries (0 failed)\n  packed together    0 B across 0 objects\n"
unfolding render concat human_bytes scale decimal decimal_from
summary_text = refl
