-- ===== src/Ranges/Merging.antt =====
-- `DeviceRanges.merged` of src/modbus_connection/model/_ranges.py, for one space: from the range
-- tuples that the parts declare and claim.
use modbus_connection.Prelude.{
  ℕ, ◌+◌, ◌≤◌, ◌<◌, ◌≡◌, ◌↔◌, refl, ◌⊎◌, inl, inr, List, ◌++◌, arith, All, Any, In, All-mono,
  All-append, All-get, Any-find, Any-intro, Any-append_left, Any-append_right, Any-append_cases,
  Any-flat_map, flat_map-Any, All-flat_map, flat_map, sort_set, sort_numbers, All-sort_set,
  Any-sort_set, sort_set-Any, sort_numbers-IsIncreasing, In-sort_numbers,
}
use modbus_connection.Const.{Range}
use modbus_connection.Ranges.{coalesce, edges, joint_ranges, merged_runs, split_run}
use modbus_connection.Ranges.View.{Inside, Covers, IsForward, IsSeparated}
use modbus_connection.Ranges.Coalesce.{coalesce_lem, coalesce-IsForward, IsApart-IsSeparated}
use modbus_connection.Ranges.Splitting.{
  Crosses, Spared, split_run-Within, Covers-split_run, split_run-Covers, split_run-not_Crosses,
  split_run-IsSeparated, IsSeparated-flat_map,
}

abbrev pub AllForward : List (List Range) → Type 0
AllForward = All (All IsForward)

abbrev everything : List (List Range) → List Range
everything = flat_map (λ (rs : List Range). rs)

AllForward-everything :
    (maps : List (List Range)) → AllForward maps → All IsForward (everything maps)
AllForward-everything maps f =
    All-flat_map IsForward (λ (rs : List Range). rs) maps
      (λ rs m. All-get (All IsForward) rs maps f m)

pub joint_ranges-IsForward :
    (maps : List (List Range)) → AllForward maps → All IsForward (joint_ranges maps)
unfolding joint_ranges
joint_ranges-IsForward maps f = All-sort_set IsForward (flat_map coalesce maps) (
    All-flat_map IsForward coalesce maps
      (λ rs m. coalesce-IsForward rs (All-get (All IsForward) rs maps f m)))

joint_ranges-Covers :
    (x : ℕ) (maps : List (List Range))
    → AllForward maps
    → Covers x (joint_ranges maps) ↔ Any (Covers x) maps
unfolding joint_ranges
joint_ranges-Covers x maps f = (to, from)
  where
    to : Covers x (sort_set (flat_map coalesce maps)) → Any (Covers x) maps
    to h =
        let (rs, m, c) =
          Any-find (λ rs. Covers x (coalesce rs)) maps
            (flat_map-Any (Inside x) coalesce maps
              (sort_set-Any (Inside x) (flat_map coalesce maps) h)) in
        Any-intro (Covers x) rs maps m
          (((coalesce_lem rs (All-get (All IsForward) rs maps f m)).1 x).0 c)

    from : Any (Covers x) maps → Covers x (sort_set (flat_map coalesce maps))
    from h =
        let (rs, m, c) = Any-find (Covers x) maps h in
        Any-sort_set (Inside x) (flat_map coalesce maps) (
          Any-flat_map (Inside x) coalesce maps (
            Any-intro (λ rs. Covers x (coalesce rs)) rs maps m
              (((coalesce_lem rs (All-get (All IsForward) rs maps f m)).1 x).1 c)))

everything-Covers :
    (x : ℕ) (maps : List (List Range)) → Covers x (everything maps) ↔ Any (Covers x) maps
everything-Covers x maps = (
  flat_map-Any (Inside x) (λ (rs : List Range). rs) maps,
  Any-flat_map (Inside x) (λ (rs : List Range). rs) maps,
)

-- The run `q` lies wholly inside the range `r`, or wholly before or behind it.
abbrev pub Respects : Range → Range → Type 0
Respects r q = (q.1 < r.0) ⊎ (r.1 < q.0) ⊎ ((r.0 ≤ q.0) × (q.1 ≤ r.1))

module _ (declares claimeds : List (List Range)) (f : AllForward declares)
    (g : AllForward claimeds) where
  cuts : List ℕ
  cuts = sort_numbers (flat_map (flat_map edges) declares)

  pieces : Range → List Range
  unfolding cuts
  pieces r = split_run r.0 r.1 cuts

  parts : List Range
  parts = joint_ranges declares ++ everything claimeds

  parts-IsForward : All IsForward parts
  unfolding parts
  parts-IsForward =
      All-append IsForward (joint_ranges declares) (everything claimeds)
        (joint_ranges-IsForward declares f) (AllForward-everything claimeds g)

  runs-IsForward : All IsForward (coalesce parts)
  runs-IsForward = coalesce-IsForward parts parts-IsForward

  -- The merged runs are a valid map: separated and in order.
  pub merged_runs-IsSeparated : IsSeparated (merged_runs declares claimeds)
  unfolding merged_runs pieces parts cuts
  merged_runs-IsSeparated =
      IsSeparated-flat_map pieces (coalesce parts)
        (λ r h. (split_run-IsSeparated r.0 r.1 cuts h, split_run-Within r.0 r.1 cuts h))
        (IsApart-IsSeparated (coalesce parts) (coalesce_lem parts parts-IsForward).0)

  parts-Covers : (x : ℕ) → Covers x parts ↔ (Any (Covers x) declares ⊎ Any (Covers x) claimeds)
  unfolding parts
  parts-Covers x = (to, from)
    where
      to :
          Covers x (joint_ranges declares ++ everything claimeds)
          → Any (Covers x) declares ⊎ Any (Covers x) claimeds
      to h = elim (Any-append_cases (Inside x) (joint_ranges declares) (everything claimeds) h) [
        | inl a ↦ inl ((joint_ranges-Covers x declares f).0 a)
        | inr b ↦ inr ((everything-Covers x claimeds).0 b)
      ]

      from :
          Any (Covers x) declares ⊎ Any (Covers x) claimeds
          → Covers x (joint_ranges declares ++ everything claimeds)
      from (inl a) =
          Any-append_left (Inside x) (joint_ranges declares) (everything claimeds)
            ((joint_ranges-Covers x declares f).1 a)
      from (inr b) =
          Any-append_right (Inside x) (joint_ranges declares) (everything claimeds)
            ((everything-Covers x claimeds).1 b)

  -- They cover what some part declares or claims, and nothing else.
  pub merged_runs-Covers :
      (x : ℕ)
      → Covers x (merged_runs declares claimeds)
        ↔ (Any (Covers x) declares ⊎ Any (Covers x) claimeds)
  unfolding merged_runs pieces parts cuts
  merged_runs-Covers x = (to, from)
    where
      joined : Covers x (coalesce parts) ↔ Covers x parts
      joined = (coalesce_lem parts parts-IsForward).1 x

      to :
          Covers x (flat_map pieces (coalesce parts))
          → Any (Covers x) declares ⊎ Any (Covers x) claimeds
      to h =
          let (r, m, c) =
            Any-find (λ r. Covers x (pieces r)) (coalesce parts)
              (flat_map-Any (Inside x) pieces (coalesce parts) h) in
          (parts-Covers x).0 (
            joined.0 (
              Any-intro (Inside x) r (coalesce parts) m (
                split_run-Covers x r.0 r.1 cuts
                  (All-get IsForward r (coalesce parts) runs-IsForward m) c)))

      from :
          Any (Covers x) declares ⊎ Any (Covers x) claimeds
          → Covers x (flat_map pieces (coalesce parts))
      from h =
          let (r, m, i) = Any-find (Inside x) (coalesce parts) (joined.1 ((parts-Covers x).1 h)) in
          Any-flat_map (Inside x) pieces (coalesce parts) (
            Any-intro (λ r. Covers x (pieces r)) r (coalesce parts) m
              (Covers-split_run x r.0 r.1 cuts i.0 i.1))

  merged_runs-Spared : All (Spared cuts) (merged_runs declares claimeds)
  unfolding merged_runs pieces parts cuts
  merged_runs-Spared = All-flat_map (Spared cuts) pieces (coalesce parts) λ r m.
      split_run-not_Crosses r.0 r.1 cuts
        (sort_numbers-IsIncreasing (flat_map (flat_map edges) declares))
        (All-get IsForward r (coalesce parts) runs-IsForward m)

  edge-cuts :
      (e : ℕ) (r : Range) (rs : List Range) → In e (edges r) → In r rs → In rs declares → In e cuts
  unfolding cuts
  edge-cuts e r rs me mr ms = In-sort_numbers e (flat_map (flat_map edges) declares) (
      Any-flat_map (λ x. e ≡ x) (flat_map edges) declares
        (Any-intro (λ qs. In e (flat_map edges qs)) rs declares ms
          (Any-flat_map (λ x. e ≡ x) edges rs (Any-intro (λ q. In e (edges q)) r rs mr me))))

  -- No merged run crosses an edge of a declared range.
  pub merged_runs-Respects :
      (r : Range) (rs : List Range)
      → In r rs
      → In rs declares
      → All (Respects r) (merged_runs declares claimeds)
  merged_runs-Respects r rs mr ms =
      All-mono (Spared cuts) (Respects r)
        (λ q s.
          let low : ¬ Crosses r.0 q =
            All-get (λ c. ¬ Crosses c q) r.0 cuts s (edge-cuts r.0 r rs (inl refl) mr ms) in
          let high : ¬ Crosses (r.1 + 1) q =
            All-get (λ c. ¬ Crosses c q) (r.1 + 1) cuts s
              (edge-cuts (r.1 + 1) r rs (inr (inl refl)) mr ms) in
          placed r q low high)
        (merged_runs declares claimeds) merged_runs-Spared
    where
      placed : (r q : Range) → ¬ Crosses r.0 q → ¬ Crosses (r.1 + 1) q → Respects r q
      placed r q low high = ground arith
