-- ===== src/Examples/Retention.antt =====
-- The retention sweep at concrete inputs.
use burnrate.Prelude.{◌*◌, ◌≡◌, refl, true, false, some, [], ◌∷◌, arith}
use burnrate.Prelude.Lists.{All}
use burnrate.Prelude.Int.{pos}
use burnrate.Prelude.Number.{atoi, digits_from}
use burnrate.Prelude.Text.{codes, is_space, trim_space}
use burnrate.Prelude.Wrap.{wrap_int64}
use burnrate.Retention.{
  Capture, Files, Stat, day, retention_days, sweep_once, sweep_each, prune, back, is_before,
  escapes, within_root,
}
use burnrate.Retention.Window.{Justified, sweep_once-Justified}

abbrev disk : Files
disk = record {
  abs = λ p. some p;
  rel = λ root p. some (codes "c/v.webm");
  stat = λ p. Stat.regular;
  removes = λ p. true;
  clears = λ id. true;
  is_done = λ id. false;
}

abbrev video : Capture
video = record { id = 1; video_path = codes "/d/captures/c/v.webm"; created_at = some (1000 * day) }

a_month : retention_days (some (codes " 30 ")) ≡ pos 30
unfolding retention_days atoi digits_from trim_space is_space
a_month = refl

sweep_once-Justified_example :
    All
      (Justified disk (codes "/d/captures") (1031 * day) 30)
      (sweep_once disk (codes "/d/captures") (1031 * day) (some (codes " 30 ")) (video ∷ [])).1
unfolding retention_days atoi digits_from trim_space is_space
sweep_once-Justified_example =
    sweep_once-Justified disk (codes "/d/captures") (1031 * day) (some (codes " 30 ")) (video ∷ [])
      (ground arith)

-- A window of 106752 days wraps around: a video of this instant is deleted.
kept_forever :
    (sweep_once disk (codes "/d/captures") (1000 * day) (some (codes "106752")) (video ∷ [])).1
    ≡ (video, codes "/d/captures/c/v.webm") ∷ []
unfolding retention_days atoi digits_from trim_space is_space sweep_once sweep_each prune back
    is_before escapes within_root wrap_int64
kept_forever = refl
