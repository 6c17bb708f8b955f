-- ===== src/Position/Net.antt =====
-- What an aggregate position means: a signed quantity, and how a fill must change it.
use kospi200_project.Base.{String, ◌≡◌, Bool, true, false, ◌||◌, Option, none, some, if◌then◌else◌}
use kospi200_project.Base.Int.{ℤ, pos, ◌-ℤ◌, ◌<ℤ◌}
use kospi200_project.Base.Text.{◌==◌}

-- `side in {"BUY", "SELL"}`
abbrev pub is_side : String → Bool
is_side s = s == "BUY" || s == "SELL"

-- The signed quantity of a side: what is sold counts negative.
unfoldable pub signed : String → ℤ → ℤ
unfolding ◌-ℤ◌
signed side qty = if side == "BUY" then qty else pos 0 -ℤ qty

-- The signed quantity of a position that may be flat.
unfoldable pub net : Option String → ℤ → ℤ
unfolding signed
net none qty = pos 0
net (some side) qty = signed side qty

-- A position is flat, with neither side nor price, or it has a side, a positive quantity and a
-- price.
abbrev pub IsPosition : Option String → ℤ → Bool → Type 0
IsPosition none qty has_price = (qty ≡ pos 0) × (has_price ≡ false)
IsPosition (some s) qty has_price = (is_side s ≡ true) × (pos 0 <ℤ qty) × (has_price ≡ true)
