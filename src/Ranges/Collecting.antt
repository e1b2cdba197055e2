-- ===== src/Ranges/Collecting.antt =====
-- `DeviceRanges.merged` of src/modbus_connection/model/_ranges.py: the maps that it collects from the
-- parts, space by space and kind by kind, and what each space of the merge is.
use modbus_connection.Prelude.{
  ℕ, ◌<◌, ◌≡◌, ◌↔◌, refl, ◌⊎◌, inl, inr, Bool, true, false, Option, none, some, List, [], ◌∷◌,
  arith, All, Any, All-get, All-In, Any-find, Any-intro, IsStrict, lt_pair, Any-mono, All-mono,
}
use modbus_connection.Const.{Space, holding, input, coil, discrete, Range}
use modbus_connection.Errors.{ok}
use modbus_connection.Ranges.{
  SpaceMap, DeviceRanges, merged, merge_space, collect, add_ranges, add_kind, eq_ranges,
  merged_runs, joint_ranges, validate_ranges, non_empty,
}
use modbus_connection.Ranges.View.{Covers, IsForward, IsSeparated}
use modbus_connection.Ranges.Merging.{AllForward}

eq_ranges→eq : (rs qs : List Range) → eq_ranges rs qs ≡ true → rs ≡ qs
eq_ranges→eq [] [] h = refl
eq_ranges→eq [] (q ∷ qs) h = cc
eq_ranges→eq (r ∷ rs) [] h = cc
eq_ranges→eq (r ∷ rs) (q ∷ qs) h = ground (arith, eq_ranges→eq rs qs)

-- A property of the ranges of a map of one kind.
abbrev pub OfKind : Bool → (List Range → Type 0) → Option SpaceMap → Type 0
OfKind kind P none = ⊥
OfKind kind P (some m) = (m.declared ≡ kind) × P m.ranges

module _ (P : List Range → Type 0) where
  Any-add_ranges :
      (rs : List Range) (seen : List (List Range))
      → (P rs ⊎ Any P seen)
      → Any P (add_ranges rs seen)
  unfolding add_ranges
  Any-add_ranges rs [] h = h
  Any-add_ranges rs (q ∷ qs) h = ground (arith, Any-add_ranges rs qs, eq_ranges→eq rs q)

  add_ranges-Any :
      (rs : List Range) (seen : List (List Range)) → Any P (add_ranges rs seen) → P rs ⊎ Any P seen
  unfolding add_ranges
  add_ranges-Any rs [] h = h
  add_ranges-Any rs (q ∷ qs) h = ground (arith, add_ranges-Any rs qs)

  Any-add_kind :
      (kind : Bool) (o : Option SpaceMap) (seen : List (List Range))
      → OfKind kind P o ⊎ Any P seen
      → Any P (add_kind kind o seen)
  unfolding add_kind
  Any-add_kind kind none seen (inl h) = elim h [ ]
  Any-add_kind kind none seen (inr h) = h
  Any-add_kind kind (some m) seen h = ground (arith, Any-add_ranges m.ranges seen)

  add_kind-Any :
      (kind : Bool) (o : Option SpaceMap) (seen : List (List Range))
      → Any P (add_kind kind o seen)
      → OfKind kind P o ⊎ Any P seen
  unfolding add_kind
  add_kind-Any kind none seen h = inr h
  add_kind-Any kind (some m) seen h = ground (arith, add_ranges-Any m.ranges seen)

  pub collect_iff :
      (kind : Bool) (s : Space) (ds : List DeviceRanges)
      → Any P (collect kind s ds) ↔ Any (λ d. OfKind kind P (d.maps s)) ds
  unfolding collect
  collect_iff kind s [] = ((λ h. h), (λ h. h))
  collect_iff kind s (d ∷ ds) = (
    (λ h.
        ground
          (arith, add_kind-Any kind (d.maps s) (collect kind s ds), (collect_iff kind s ds).0)),
    (λ h.
        ground
          (arith, Any-add_kind kind (d.maps s) (collect kind s ds), (collect_iff kind s ds).1)),
  )

abbrev pub ForwardMap : Option SpaceMap → Type 0
ForwardMap none = Unit
ForwardMap (some m) = All IsForward m.ranges

-- No range of the device is reversed.
abbrev pub ForwardDevice : DeviceRanges → Type 0
ForwardDevice d = (s : Space) → ForwardMap (d.maps s)

-- The space's map holds the address.
abbrev pub Readable : ℕ → Option SpaceMap → Type 0
Readable x none = ⊥
Readable x (some m) = Covers x m.ranges

IsForward-OfKind :
    (kind : Bool) (rs : List Range) (o : Option SpaceMap)
    → ForwardMap o
    → OfKind kind (λ q. rs ≡ q) o
    → All IsForward rs
IsForward-OfKind kind rs none f h = elim h [ ]
IsForward-OfKind kind rs (some m) f h = rw h.1 f

pub collect-AllForward :
    (kind : Bool) (s : Space) (ds : List DeviceRanges)
    → All ForwardDevice ds
    → AllForward (collect kind s ds)
collect-AllForward kind s ds f = All-In (All IsForward) (collect kind s ds) λ rs m.
    let (d, md, k) =
      Any-find (λ (d : DeviceRanges). OfKind kind (λ q. rs ≡ q) (d.maps s)) ds
        ((collect_iff (λ q. rs ≡ q) kind s ds).0 m) in
    IsForward-OfKind kind rs (d.maps s) (All-get ForwardDevice d ds f md s) k

pub merged-at :
    (ds : List DeviceRanges) (m : DeviceRanges)
    → merged ds ≡ ok m
    → (s : Space) → merge_space (collect true s ds) (collect false s ds) ≡ ok (m.maps s)
unfolding merged
merged-at ds m h holding = ground arith
merged-at ds m h input = ground arith
merged-at ds m h coil = ground arith
merged-at ds m h discrete = ground arith

-- What one space of the merge is: nothing where no part maps the space, else the merged runs.
pub merge_space_cases :
    (declares claimeds : List (List Range)) (o : Option SpaceMap)
    → merge_space declares claimeds ≡ ok o
    → ((declares ≡ []) × (claimeds ≡ []) × (o ≡ none))
      ⊎ ((validate_ranges (joint_ranges declares) ≡ ok tt)
          × (o
              ≡ some (record {
                ranges = merged_runs declares claimeds;
                declared = non_empty declares;
              })))
unfolding merge_space
merge_space_cases [] [] o h = ground arith
merge_space_cases [] (c ∷ cs) o h = inr (ground arith, ground arith)
merge_space_cases (d ∷ ds) cs o h = inr (ground arith, ground arith)

Readable-OfKind :
    (x : ℕ) (kind : Bool) (o : Option SpaceMap) → OfKind kind (Covers x) o → Readable x o
Readable-OfKind x kind none k = k
Readable-OfKind x kind (some r) k = k.1

kind_of_Readable :
    (x : ℕ) (o : Option SpaceMap)
    → Readable x o
    → OfKind true (Covers x) o ⊎ OfKind false (Covers x) o
kind_of_Readable x none k = elim k [ ]
kind_of_Readable x (some r) k = ground arith

-- Every range of the space's map satisfies the predicate.
abbrev pub EachRange : (Range → Type 0) → Option SpaceMap → Type 0
EachRange P none = Unit
EachRange P (some r) = All P r.ranges

abbrev pub ValidMap : Option SpaceMap → Type 0
ValidMap none = Unit
ValidMap (some r) = validate_ranges r.ranges ≡ ok tt

pub Readable-in :
    (x : ℕ) (kind : Bool) (s : Space) (ds : List DeviceRanges)
    → Any (Covers x) (collect kind s ds)
    → Any (λ d. Readable x (d.maps s)) ds
Readable-in x kind s ds k =
    Any-mono (λ (d : DeviceRanges). OfKind kind (Covers x) (d.maps s)) (λ d. Readable x (d.maps s))
      (λ d. Readable-OfKind x kind (d.maps s)) ds ((collect_iff (Covers x) kind s ds).0 k)

pub Readable-by_kind :
    (x : ℕ) (s : Space) (ds : List DeviceRanges)
    → Any (λ d. Readable x (d.maps s)) ds
    → Any (Covers x) (collect true s ds) ⊎ Any (Covers x) (collect false s ds)
Readable-by_kind x s ds k =
    let (d, md, r) = Any-find (λ (d : DeviceRanges). Readable x (d.maps s)) ds k in
    elim (kind_of_Readable x (d.maps s) r) [
      | inl t ↦ inl (
          (collect_iff (Covers x) true s ds).1
            (Any-intro (λ (d : DeviceRanges). OfKind true (Covers x) (d.maps s)) d ds md t))
      | inr c ↦ inr (
          (collect_iff (Covers x) false s ds).1
            (Any-intro (λ (d : DeviceRanges). OfKind false (Covers x) (d.maps s)) d ds md c))
    ]

pub IsSeparated-IsStrict : (rs : List Range) → IsSeparated rs → IsStrict rs
IsSeparated-IsStrict [] h = tt
IsSeparated-IsStrict (r ∷ rs) h = (
  All-mono (λ (q : Range). r.1 < q.0) (λ q. lt_pair r q ≡ true) (λ q k. starts_later r q h.0 k) rs
      h.1,
  IsSeparated-IsStrict rs h.2,
)
  where
    starts_later : (r q : Range) → IsForward r → r.1 < q.0 → lt_pair r q ≡ true
    starts_later r q f k = ground arith
