-- ===== src/Pacing/Gaps.antt =====
-- What src/modbus_connection/_pacing.py promises of the requests of a connection.
use modbus_connection.Prelude.{
  ℕ, ◌+◌, ◌≤◌, ◌≡◌, refl, ◌⊎◌, Option, none, some, List, [], ◌∷◌, max, arith,
}
use modbus_connection.Pacing.{
  Pacer, Request, Slot, gap_of, spacing_for, start_at, with_last, paced, run,
}

-- Slots that follow one another on a connection with the gaps of `p`, the first after `finished` of
-- `last`: each starts when the one before is finished and the gaps of the connection and of both
-- units have passed.
abbrev pub IsSpaced : Pacer → Option ℕ → ℕ → List Slot → Type 0
IsSpaced p last finished [] = Unit
IsSpaced p last finished (s ∷ ss) =
    (finished + p.message_spacing ≤ s.started)
    × (finished + gap_of s.unit p ≤ s.started)
    × (finished + with_last last p 0 ≤ s.started)
    × (s.started ≤ s.finished)
    × IsSpaced p (some s.unit) s.finished ss

start_at-le :
    (unit_id now late : ℕ) (p : Pacer)
    → p.last_finished_at ≤ now
    → p.last_finished_at + spacing_for unit_id p ≤ start_at unit_id now late p
unfolding start_at
start_at-le unit_id now late p h = ground arith

-- The gaps do not depend on what went last.
with_last-moved :
    (p : Pacer) (a : ℕ) (b last : Option ℕ)
    → with_last last (record p { last_finished_at = a; last_unit_id = b }) 0 ≡ with_last last p 0
unfolding gap_of
with_last-moved p a b none = refl
with_last-moved p a b (some l) = refl

IsSpaced-moved :
    (p : Pacer) (a : ℕ) (b last : Option ℕ) (finished : ℕ) (ss : List Slot)
    → IsSpaced (record p { last_finished_at = a; last_unit_id = b }) last finished ss
    → IsSpaced p last finished ss
unfolding gap_of
IsSpaced-moved p a b last finished [] h = h
IsSpaced-moved p a b last finished (s ∷ ss) (g, u, l, o, rest) = (
  g,
  u,
  rw⁻¹ (with_last-moved p a b last) l,
  o,
  IsSpaced-moved p a b (some s.unit) s.finished ss rest,
)

spacing_for-le :
    (unit_id : ℕ) (p : Pacer)
    → (p.message_spacing ≤ spacing_for unit_id p)
      × (gap_of unit_id p ≤ spacing_for unit_id p)
      × (with_last p.last_unit_id p 0 ≤ spacing_for unit_id p)
unfolding spacing_for
spacing_for-le unit_id p = ground arith

-- However the requests of a connection arrive, and however late a sleep ends, each starts when the one
-- before is finished and the gap of the connection, its own unit's gap and the gap of the unit that
-- went last have passed.
pub run-IsSpaced :
    (rs : List Request) (p : Pacer) → IsSpaced p p.last_unit_id p.last_finished_at (run rs p)
unfolding run
run-IsSpaced [] p = tt
run-IsSpaced (r ∷ rs) p =
    let starts = start_at-le r.unit_id (max r.arrives p.last_finished_at) r.late p (omega arith) in
    let (all, own, last) = spacing_for-le r.unit_id p in
    (
      omega (arith, starts, all),
      omega (arith, starts, own),
      omega (arith, starts, last),
      omega arith,
      IsSpaced-moved p (paced r p).1.last_finished_at (some r.unit_id) (some r.unit_id)
          (paced r p).0.finished (run rs (paced r p).1) (run-IsSpaced rs (paced r p).1),
    )

-- A request is not held up longer than the gaps ask: without a late sleep it starts at once or as
-- soon as the widest of the gaps has passed.
pub start_at-prompt :
    (unit_id now : ℕ) (p : Pacer)
    → p.last_finished_at ≤ now
    → (start_at unit_id now 0 p ≡ now)
      ⊎ (start_at unit_id now 0 p ≡ p.last_finished_at + spacing_for unit_id p)
unfolding start_at
start_at-prompt unit_id now p h = ground arith
