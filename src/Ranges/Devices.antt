-- ===== src/Ranges/Devices.antt =====
-- `DeviceRanges.merged` of src/modbus_connection/model/_ranges.py: what holds of the maps of whole
-- devices, space by space.
use modbus_connection.Prelude.{
  ℕ, ◌≡◌, ◌↔◌, refl, ◌⊎◌, inl, inr, true, false, Option, none, some, List, [], ◌∷◌, arith, All,
  All-In, Any, In, Any-find, Any-intro, sort-id, flat_map,
}
use modbus_connection.Const.{Space, holding, input, coil, discrete, Range}
use modbus_connection.Errors.{ok}
use modbus_connection.Ranges.{
  SpaceMap, DeviceRanges, merged, merge_space, collect, merged_runs, joint_ranges, validate_ranges,
  coalesce, non_empty, by_space,
}
use modbus_connection.Ranges.View.{IsSeparated}
use modbus_connection.Ranges.Validity.{validate_ranges-ok_iff}
use modbus_connection.Ranges.Merging.{
  Respects, merged_runs-IsSeparated, merged_runs-Covers, merged_runs-Respects,
}
use modbus_connection.Ranges.Conflicts.{Agree, joint_ranges-ok_iff}
use modbus_connection.Ranges.Collecting.{
  OfKind, ForwardDevice, Readable, EachRange, ValidMap, collect_iff, collect-AllForward, merged-at,
  merge_space_cases, Readable-in, Readable-by_kind, IsSeparated-IsStrict,
}

module _ (ds : List DeviceRanges) (m : DeviceRanges) (forward : All ForwardDevice ds)
    (h : merged ds ≡ ok m) where
  -- Reading the cases at a space of the merge, with the runs where there are any.
  at_space :
      (s : Space) (Goal : Option SpaceMap → Type 0)
      → (collect true s ds ≡ [] → collect false s ds ≡ [] → Goal none)
      → (validate_ranges (joint_ranges (collect true s ds)) ≡ ok tt
          → Goal (
              some (record {
                ranges = merged_runs (collect true s ds) (collect false s ds);
                declared = non_empty (collect true s ds);
              })))
      → Goal (m.maps s)
  at_space s Goal empty runs =
      elim (merge_space_cases (collect true s ds) (collect false s ds) (m.maps s)
        (merged-at ds m h s)) [ inl (d, c, e) ↦ rw e (empty d c) | inr (v, e) ↦ rw e (runs v) ]

  -- The space is unmapped in the merge only where no part maps it.
  pub merged-unmapped : (s : Space) → m.maps s ≡ none → All (λ d. d.maps s ≡ none) ds
  merged-unmapped s =
      at_space s (λ o. o ≡ none → All (λ d. d.maps s ≡ none) ds)
        (λ none_declared none_claimed _.
          All-In (λ d. d.maps s ≡ none) ds
            λ d md.
              no_kind (d.maps s)
                (λ k.
                  rw none_declared at
                    ((collect_iff (λ _. Unit) true s ds).1 (Any-intro _ d ds md k)))
                (λ k.
                  rw none_claimed at
                    ((collect_iff (λ _. Unit) false s ds).1 (Any-intro _ d ds md k))))
        (λ _ e. cc)
    where
      no_kind :
          (o : Option SpaceMap)
          → ¬ OfKind true (λ _. Unit) o
          → ¬ OfKind false (λ _. Unit) o
          → o ≡ none
      no_kind none declared claimed = refl
      no_kind (some k) declared claimed = ground arith

  -- Where the merge of maps with no reversed range succeeds, an address is readable in it exactly when
  -- it is in some part's map.
  pub merged-Readable_iff :
      (s : Space) (x : ℕ) → Readable x (m.maps s) ↔ Any (λ d. Readable x (d.maps s)) ds
  merged-Readable_iff s x =
      at_space s (λ o. Readable x o ↔ Any (λ d. Readable x (d.maps s)) ds)
        (λ none_declared none_claimed. (
          (λ k. elim k [ ]),
          λ k. elim (Readable-by_kind x s ds k) [
            | inl a ↦ rw none_declared at a
            | inr b ↦ rw none_claimed at b
          ],
        ))
        λ _.
          let runs =
            merged_runs-Covers (collect true s ds) (collect false s ds)
              (collect-AllForward true s ds forward) (collect-AllForward false s ds forward) x in
          (
            (λ k. elim (runs.0 k) [
              | inl a ↦ Readable-in x true s ds a
              | inr b ↦ Readable-in x false s ds b
            ]),
            λ k. runs.1 (Readable-by_kind x s ds k),
          )

  -- Where the merge of maps with no reversed range succeeds, each of its runs respects each range that
  -- some part declares: it crosses neither edge of the range.
  pub merged-Respects :
      (s : Space) (d : DeviceRanges) (r : Range)
      → In d ds
      → OfKind true (In r) (d.maps s)
      → EachRange (Respects r) (m.maps s)
  merged-Respects s d r md k =
      at_space s (EachRange (Respects r)) (λ _ _. tt)
        λ _.
          let (rs, ms, mr) = Any-find (In r) (collect true s ds) (
            (collect_iff (In r) true s ds).1
              (Any-intro (λ (e : DeviceRanges). OfKind true (In r) (e.maps s)) d ds md k)) in
          merged_runs-Respects (collect true s ds) (collect false s ds)
            (collect-AllForward true s ds forward) (collect-AllForward false s ds forward) r rs mr
            ms

  -- Where the merge of maps with no reversed range succeeds, it is itself a map that validation
  -- accepts, in every space.
  pub merged-ValidMap : (s : Space) → ValidMap (m.maps s)
  merged-ValidMap s =
      at_space s ValidMap (λ _ _. tt)
        λ _.
          let runs = merged_runs (collect true s ds) (collect false s ds) in
          let separated : IsSeparated runs =
            merged_runs-IsSeparated (collect true s ds) (collect false s ds)
              (collect-AllForward true s ds forward) (collect-AllForward false s ds forward) in
          (validate_ranges-ok_iff runs).1
            (rw (sort-id runs (IsSeparated-IsStrict runs separated)) separated)

merge_space_ok :
    (declares claimeds : List (List Range))
    → validate_ranges (joint_ranges declares) ≡ ok tt
    → (o : Option SpaceMap) × (merge_space declares claimeds ≡ ok o)
unfolding merge_space
merge_space_ok [] [] v = (none, refl)
merge_space_ok [] (c ∷ cs) v =
    (some (record { ranges = merged_runs [] (c ∷ cs); declared = false }), rw v)
merge_space_ok (d ∷ ds) cs v =
    (some (record { ranges = merged_runs (d ∷ ds) cs; declared = true }), rw v)

valid_of_ok :
    (declares claimeds : List (List Range)) (o : Option SpaceMap)
    → merge_space declares claimeds ≡ ok o
    → Agree (flat_map coalesce declares) ⊎ (validate_ranges (joint_ranges declares) ≡ ok tt)
valid_of_ok declares claimeds o h = elim (merge_space_cases declares claimeds o h) [
  | inl (d, c, e) ↦ inl (rw d (λ x r q mr mq i k. elim mr [ ]))
  | inr (v, e) ↦ inr v
]

-- With no reversed range, the merge succeeds exactly when, in every space, the runs that the declared
-- maps join to are equal wherever they overlap.
pub merged-ok_iff :
    (ds : List DeviceRanges)
    → All ForwardDevice ds
    → ((m : DeviceRanges) × (merged ds ≡ ok m))
      ↔ ((s : Space) → Agree (flat_map coalesce (collect true s ds)))
merged-ok_iff ds forward = (agree, merge)
  where
    agree :
        ((m : DeviceRanges) × (merged ds ≡ ok m))
        → (s : Space) → Agree (flat_map coalesce (collect true s ds))
    agree (m, h) s =
        elim (valid_of_ok (collect true s ds) (collect false s ds) (m.maps s)
          (merged-at ds m h s)) [
            | inl a ↦ a
            | inr v ↦
                (joint_ranges-ok_iff (collect true s ds) (collect-AllForward true s ds forward)).0 v
          ]

    space_ok :
        ((s : Space) → Agree (flat_map coalesce (collect true s ds)))
        → (s : Space)
        → (o : Option SpaceMap) × (merge_space (collect true s ds) (collect false s ds) ≡ ok o)
    space_ok a s =
        merge_space_ok (collect true s ds) (collect false s ds)
          ((joint_ranges-ok_iff (collect true s ds) (collect-AllForward true s ds forward)).1 (a s))

    merge :
        ((s : Space) → Agree (flat_map coalesce (collect true s ds)))
        → (m : DeviceRanges) × (merged ds ≡ ok m)
    merge a =
        let (h, eh) = space_ok a holding in
        let (i, ei) = space_ok a input in
        let (c, ec) = space_ok a coil in
        let (d, ed) = space_ok a discrete in
        (record { maps = by_space h i c d }, unfold merged in rw (eh, ei, ec, ed))
