-- ===== src/Pacing.antt =====
-- src/modbus_connection/_pacing.py: the gaps between the requests of a connection. Times are natural
-- numbers of one clock that does not run back. The lock makes requests follow one another: a request
-- takes it when the one before is finished. `asyncio.sleep` ends no earlier than asked for; `late` is
-- how much later. The bounded wait of `exclusive` is left out.
pub mod Gaps
use modbus_connection.Prelude.{
  ℕ, zero, suc, ◌+◌, ◌-◌, Option, none, some, List, [], ◌∷◌, max, ◌==◌, if◌then◌else◌, ℤ, pos,
  negsuc,
}
use modbus_connection.Errors.{Result, ok, err, value_error}
use modbus_connection.Dict
use modbus_connection.Dict.{Dict}
use modbus_connection.Unit.{Action}

pub record Pacer : Type 0 where
  pub message_spacing : ℕ
  pub last_finished_at : ℕ
  pub unit_spacing : Dict ℕ ℕ
  pub last_unit_id : Option ℕ

unfoldable pub new_pacer : ℤ → Result Pacer
new_pacer (negsuc n) = err value_error
new_pacer (pos n) =
    ok
      (record { message_spacing = n; last_finished_at = 0; unit_spacing = []; last_unit_id = none })

unfoldable pub set_unit_spacing : ℕ → ℤ → Action Pacer (Unit {0})
unfolding Dict.insert Dict.remove
set_unit_spacing unit_id (negsuc n) p = (err value_error, p)
set_unit_spacing unit_id (pos zero) p =
    (ok tt, record p { unit_spacing = Dict.remove ◌==◌ unit_id p.unit_spacing })
set_unit_spacing unit_id (pos (suc n)) p =
    (ok tt, record p { unit_spacing = Dict.insert ◌==◌ unit_id (suc n) p.unit_spacing })

abbrev or_no_gap : Option ℕ → ℕ
or_no_gap none = 0
or_no_gap (some seconds) = seconds

-- `self._unit_spacing.get(unit_id, 0.0)`
unfoldable pub gap_of : ℕ → Pacer → ℕ
unfolding Dict.lookup
gap_of unit_id p = or_no_gap (Dict.lookup ◌==◌ unit_id p.unit_spacing)

abbrev pub with_last : Option ℕ → Pacer → ℕ → ℕ
with_last none p spacing = spacing
with_last (some last) p spacing = max spacing (gap_of last p)

unfoldable pub spacing_for : ℕ → Pacer → ℕ
unfolding gap_of
spacing_for unit_id p = with_last p.last_unit_id p (max p.message_spacing (gap_of unit_id p))

-- When the request may start that takes the lock at `now`: there is no sleep where the wait is not
-- positive.
abbrev slept : ℕ → ℕ → ℕ → ℕ
slept now zero late = now
slept now (suc wait) late = now + suc wait + late

unfoldable pub start_at : ℕ → ℕ → ℕ → Pacer → ℕ
unfolding spacing_for
start_at unit_id now late p = slept now (spacing_for unit_id p - (now - p.last_finished_at)) late

-- A request: whose it is, when it asks for the lock, how late its sleep ends, how long it takes.
pub record Request : Type 0 where
  pub unit_id : ℕ
  pub arrives : ℕ
  pub late : ℕ
  pub takes : ℕ

-- What a request did on the connection.
pub record Slot : Type 0 where
  pub unit : ℕ
  pub started : ℕ
  pub finished : ℕ

-- `paced`, for a request that takes the lock when it is free; the `finally` part runs however the
-- request ends.
unfoldable pub paced : Request → Pacer → Slot × Pacer
unfolding start_at
paced r p =
    let start = start_at r.unit_id (max r.arrives p.last_finished_at) r.late p in
    (
      record { unit = r.unit_id; started = start; finished = start + r.takes },
      record p { last_finished_at = start + r.takes; last_unit_id = some r.unit_id },
    )

-- The requests in the order in which they take the lock.
unfoldable pub run : List Request → Pacer → List Slot
unfolding paced
run [] p = []
run (r ∷ rs) p = (paced r p).0 ∷ run rs (paced r p).1
