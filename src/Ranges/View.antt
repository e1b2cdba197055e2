-- ===== src/Ranges/View.antt =====
-- What a list of ranges of src/modbus_connection/model/_ranges.py stands for: a set of addresses.
use modbus_connection.Prelude.{ℕ, ◌≤◌, ◌<◌, List, [], ◌∷◌, All, Any}
use modbus_connection.Const.{Range}

abbrev pub Inside : ℕ → Range → Type 0
Inside x r = (r.0 ≤ x) × (x ≤ r.1)

-- Some range of the list holds the address.
abbrev pub Covers : ℕ → List Range → Type 0
Covers x = Any (Inside x)

abbrev pub IsForward : Range → Type 0
IsForward r = r.0 ≤ r.1

-- Ascending ranges, none empty, each ending before the next begins.
abbrev pub IsSeparated : List Range → Type 0
IsSeparated [] = Unit
IsSeparated (r ∷ rs) = IsForward r × All (λ (q : Range). r.1 < q.0) rs × IsSeparated rs
