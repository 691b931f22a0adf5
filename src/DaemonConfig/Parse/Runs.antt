-- ===== src/DaemonConfig/Parse/Runs.antt =====
-- internal/daemonconfig: what every line of a configuration keeps, its whole text keeps.
use app_listener.Base.{List, [], ◌∷◌, ◌||◌, ◌==◌, nat_eq, list_eq, if_cases, Bytes, codes}
use app_listener.Base.Strings.{has_prefix}
use app_listener.DaemonConfig.{Ensures, Ensures-bind, Ensures-refuse, FileSystem, done}
use app_listener.DaemonConfig.Text.{trim_space}
use app_listener.DaemonConfig.Parse.{Open, apply_config_line, parse_lines, drop_return}

module _ (fs : FileSystem) (I : Open → Type 0)
    (step : (o : Open) (line : Bytes) → I o → Ensures I (apply_config_line fs o line)) where
  pub parse_lines-keeps : (o : Open) (ls : List Bytes) → I o → Ensures I (parse_lines fs o ls)
  unfolding parse_lines
  parse_lines-keeps o [] k = k
  parse_lines-keeps o (l ∷ ls) k = Ensures-refuse I _ _ _ λ fits.
      Ensures-bind I I _ _
        (if_cases (λ m. Ensures I m)
          ((trim_space (drop_return l) == [])
            || has_prefix (trim_space (drop_return l)) (codes "#"))
          (done o) _ (λ blank. k) λ full. step o (trim_space (drop_return l)) k)
        λ next kept. parse_lines-keeps next ls kept
