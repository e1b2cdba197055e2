-- ===== src/Examples/Maps.antt =====
-- The theorems on readable ranges (src/modbus_connection/model/_ranges.py) at concrete inputs.
use modbus_connection.Prelude.{
  ℕ, ◌≡◌, ◌↔◌, refl, inl, true, false, none, some, List, [], ◌∷◌, arith, All, Any, In, sort,
  sort_set, sort_numbers, flat_map,
}
use modbus_connection.Const.{Space, holding, input, coil, discrete, Range}
use modbus_connection.Errors.{ok}
use modbus_connection.Ranges.{
  DeviceRanges, validate_ranges, ranges_excluding, coalesce, merged, collect, by_space, merged_runs,
}
use modbus_connection.Ranges.View.{Covers}
use modbus_connection.Ranges.Excluding.{ranges_excluding_iff}
use modbus_connection.Ranges.Merging.{Respects}
use modbus_connection.Ranges.Conflicts.{Agree}
use modbus_connection.Ranges.Collecting.{ForwardDevice, Readable, EachRange, ValidMap}
use modbus_connection.Ranges.Devices.{
  merged-Readable_iff, merged-Respects, merged-ValidMap, merged-ok_iff,
}

abbrev unordered : List Range
unordered = (20, 30) ∷ (0, 9) ∷ []

unordered_valid : validate_ranges unordered ≡ ok tt
unfolding validate_ranges sort
unordered_valid = refl

ranges_excluding_iff_example :
    Covers 5 (ranges_excluding unordered (25 ∷ 5 ∷ []))
    ↔ (Covers 5 unordered × ¬ In {A = ℕ} 5 (25 ∷ 5 ∷ []))
ranges_excluding_iff_example = ranges_excluding_iff 5 unordered (25 ∷ 5 ∷ [])

-- A device that declares two maps, and one whose fields claim an address between them.
abbrev declaring : DeviceRanges
declaring = record {
  maps =
      by_space (some (record { ranges = (0, 9) ∷ (10, 19) ∷ []; declared = true })) none none none;
}

abbrev claiming : DeviceRanges
claiming = record {
  maps =
      by_space (some (record { ranges = (8, 11) ∷ (30, 31) ∷ []; declared = false })) none none
        none;
}

abbrev both : List DeviceRanges
both = declaring ∷ claiming ∷ []

both_forward : All ForwardDevice both
both_forward = (
  (elim [ holding ↦ (omega arith, (omega arith, tt)) | input ↦ tt | coil ↦ tt | discrete ↦ tt ]),
  (
    (elim [ holding ↦ (omega arith, (omega arith, tt)) | input ↦ tt | coil ↦ tt | discrete ↦ tt ]),
    tt,
  ),
)

abbrev joined : DeviceRanges
joined = record {
  maps =
      by_space (some (record { ranges = (0, 9) ∷ (10, 19) ∷ (30, 31) ∷ []; declared = true })) none
        none none;
}

both-merged : merged both ≡ ok joined
unfolding merged validate_ranges sort_set coalesce sort sort_numbers merged_runs collect
both-merged = refl

merged-Readable_iff_example :
    Readable 15 (joined.maps holding) ↔ Any (λ d. Readable 15 (d.maps holding)) both
merged-Readable_iff_example = merged-Readable_iff both joined both_forward both-merged holding 15

merged-Respects_example : EachRange (Respects (0, 9)) (joined.maps holding)
merged-Respects_example =
    merged-Respects both joined both_forward both-merged holding declaring (0, 9) (inl refl)
      (refl, inl refl)

merged-ValidMap_example : ValidMap (joined.maps holding)
merged-ValidMap_example = merged-ValidMap both joined both_forward both-merged holding

merged-ok_iff_example :
    ((m : DeviceRanges) × (merged both ≡ ok m))
    ↔ ((s : Space) → Agree (flat_map coalesce (collect true s both)))
merged-ok_iff_example = merged-ok_iff both both_forward
