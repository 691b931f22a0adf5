-- ===== src/Codeedit/Indent.antt =====
-- internal/codeedit/codeedit.go, `softTabBack` and `softTabForward`: how many spaces they remove.
use app_listener.Base.{ℕ, ◌+◌, ◌%◌, ◌≤◌, ◌<◌, ◌≡◌, true, List, length, take, arith, nat_eq}
use app_listener.Codeedit.{only_spaces, soft_tab_forward}

-- A soft delete removes spaces that are there, and what it reaches is an indent stop.
pub soft_tab_forward-stop :
    (line : List ℕ) (col : ℕ)
    → 0 < soft_tab_forward line col
    → (soft_tab_forward line col ≤ 4)
      × (col + soft_tab_forward line col ≤ length line)
      × ((col + soft_tab_forward line col) % 4 ≡ 0)
      × (only_spaces (take (col + soft_tab_forward line col) line) ≡ true)
unfolding soft_tab_forward
soft_tab_forward-stop line col h = ground arith
