-- ===== src/Wire/Mounts/Vouched.antt =====
-- internal/infrastructure: the superblocks that root vouches for, `VouchedDevs`.
use app_listener.Base.{
  ℕ, ◌≡◌, Bool, false, ◌&&◌, ◌||◌, Option, none, some, List, ◌==◌, nat_eq, list_eq, any, contains,
  Bytes,
}
use app_listener.Wire.Mounts.{vouch_line}

-- A line that vouches for the device.
abbrev pub vouches : ℕ → Option (ℕ × Bool) → Bool
vouches d none = false
vouches d (some (dev, good)) = good && (dev == d)

-- What a run of the loop that ends in a list says of the lines it has read.
abbrev Reads : List Bytes → List ℕ → List ℕ → ℕ → Type 0
Reads ls out devs d = contains devs d ≡ (contains out d || any (λ l. vouches d (vouch_line l)) ls)
