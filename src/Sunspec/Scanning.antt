-- ===== src/Sunspec/Scanning.antt =====
-- `scan` of src/modbus_connection/model/sunspec/scan.py on a device that answers every read.
pub mod Layout
use mathlib.Core.List.{append_assoc, append-nil}
use modbus_connection.Prelude.{
  ℕ, zero, suc, ◌+◌, ◌<◌, ◌≡◌, ◌≢◌, refl, sym, ap, ◌∙◌, ◌⊎◌, inl, inr, true, false, List, [], ◌∷◌,
  ◌++◌, ◌==◌, arith, length,
}
use modbus_connection.Const.{holding, big}
use modbus_connection.Errors.{Result, ok, err, guard, sunspec_error}
use modbus_connection.Codec.Widths.{decode_uint32}
use modbus_connection.Unit.{ModbusUnit, reader, after, lift, ◌>>◌}
use modbus_connection.Reading.Values.{Memory, slice}
use modbus_connection.Execution.Requests.{Serves}
use modbus_connection.Sunspec.{
  SunSpecModel, SunSpecModels, span, add_model, chain, walk, scan, sunspec_marker, end_model_id,
  max_models, model_at, all_models,
}
use modbus_connection.Sunspec.Chain.{ById-nil, ByAddress-nil}
pub use modbus_connection.Sunspec.Scanning.Layout.{
  Laid, Finds, Holds, Holds-add_model, same_or_other, Marked,
}

-- What a run of the loop with `n` rounds left comes to.
module _ (mem : Memory) {S : Type 0} (Ready : S → Type 0) where
  Outcome : ℕ → ℕ → List SunSpecModel → Result SunSpecModels × S → Type 0
  Outcome n a before run =
      ((ms : List SunSpecModel) × (models : SunSpecModels) × Laid mem a ms
        × (length ms < n)
        × (run.0 ≡ ok models)
        × (chain models ≡ before ++ ms)
        × Finds models (before ++ ms))
      ⊎ (((ms : List SunSpecModel) → Laid mem a ms → length ms < n → ⊥)
          × (run.0 ≡ err sunspec_error))

  module _ (unit : ModbusUnit S) (serves : Serves unit mem Ready) where
    -- One round.
    header : ℕ → SunSpecModel
    header a = model_at a (mem holding a, mem holding (a + 1))

    next : ℕ → S → S
    next a st = (unit.read_holding_registers a 2 st).1

    next-Ready : (a : ℕ) (st : S) → Ready st → Ready (next a st)
    unfolding next reader
    next-Ready a st r = (serves.answers holding a 2 st r).1

    walk-stop :
        (n a : ℕ) (models : SunSpecModels) (st : S)
        → Ready st
        → mem holding a ≡ end_model_id
        → walk unit (suc n) a models st ≡ (ok models, next a st)
    unfolding walk next reader
    walk-stop n a models st r e =
        let same : (mem holding a == end_model_id) ≡ true = ground arith in
        rw ((serves.answers holding a 2 st r).0, same) refl

    walk-further :
        (n a : ℕ) (models : SunSpecModels) (st : S)
        → Ready st
        → mem holding a ≢ end_model_id
        → walk unit (suc n) a models st
          ≡ walk unit n (a + span (header a)) (add_model (header a) models) (next a st)
    unfolding walk next reader header
    walk-further n a models st r e =
        let same : (mem holding a == end_model_id) ≡ false = ground arith in
        rw ((serves.answers holding a 2 st r).0, same) refl

    -- A chain that does not stop here starts with this header.
    Laid-header :
        (a : ℕ) (ms : List SunSpecModel)
        → mem holding a ≢ end_model_id
        → Laid mem a ms
        → (rest : List SunSpecModel) × (ms ≡ header a ∷ rest) × Laid mem (a + span (header a)) rest
    unfolding Laid header
    Laid-header a [] other laid = absurd (other laid)
    Laid-header a (x ∷ rest) other (at_a, id, _, len, laid) =
        let same : x ≡ header a = rw (← id, ← len, ← at_a) refl in
        (rest, ap (λ y. y ∷ rest) same, rw (← same) laid)

    Outcome-further :
        (n a : ℕ) (before : List SunSpecModel) (run : Result SunSpecModels × S)
        → mem holding a ≢ end_model_id
        → Outcome n (a + span (header a)) (before ++ header a ∷ []) run
        → Outcome (suc n) a before run
    unfolding Outcome header Laid
    Outcome-further n a before run other (inl (ms, models, laid, short, e, c, i)) = inl (
      header a ∷ ms,
      models,
      (refl, refl, other, refl, laid),
      omega (arith, short),
      e,
      rw (← append_assoc before (header a ∷ []) ms) c,
      rw (← append_assoc before (header a ∷ []) ms) i,
    )
    Outcome-further n a before run other (inr (never, e)) =
        inr ((λ ms laid short. refute ms short (Laid-header a ms other laid)), e)
      where
        refute :
            (ms : List SunSpecModel)
            → length ms < suc n
            → (rest : List SunSpecModel) × (ms ≡ header a ∷ rest)
              × Laid mem (a + span (header a)) rest
            → ⊥
        refute ms short (rest, same, laid) =
            let counted : length ms ≡ suc (length rest) = ap length same in
            never rest laid (omega (arith, counted, short))

    Outcome-stop :
        (n a : ℕ) (before : List SunSpecModel) (models : SunSpecModels) (st : S)
        → mem holding a ≡ end_model_id
        → Holds models before a
        → Outcome (suc n) a before (ok models, st)
    unfolding Outcome Laid
    Outcome-stop n a before models st e h = inl (
      [],
      models,
      e,
      omega arith,
      refl,
      h.in_order ∙ sym (append-nil before),
      rw (append-nil before) (h.by_id, h.by_address),
    )

    Outcome-zero :
        (a : ℕ) (before : List SunSpecModel) (models : SunSpecModels) (st : S)
        → Ready st
        → Outcome 0 a before (walk unit 0 a models st) × Ready (walk unit 0 a models st).1
    unfolding Outcome walk
    Outcome-zero a before models st r =
        (inr ((λ ms laid short. absurd (omega (arith, short))), refl), r)

    walk_cases :
        (n a : ℕ) (models : SunSpecModels) (before : List SunSpecModel) (st : S)
        → Ready st
        → Holds models before a
        → Outcome n a before (walk unit n a models st) × Ready (walk unit n a models st).1
    unfolding header
    walk_cases zero a models before st r h = Outcome-zero a before models st r
    walk_cases (suc n) a models before st r h = elim (same_or_other (mem holding a) end_model_id) [
      | inl e ↦
          rw (walk-stop n a models st r e)
            (Outcome-stop n a before models (next a st) e h, next-Ready a st r)
      | inr other ↦
          let (outcome, ready) =
            walk_cases n (a + span (header a)) (add_model (header a) models)
              (before ++ header a ∷ []) (next a st) (next-Ready a st r)
              (Holds-add_model models before a (header a) refl h) in
          rw (walk-further n a models st r other) (
            Outcome-further n a before
                (walk unit n (a + span (header a)) (add_model (header a) models) (next a st)) other
                outcome,
            ready,
          )
    ]

    -- What follows a marker that was read, whatever it is.
    checked :
        (k : S → Result SunSpecModels × S) (answer : Result (List ℕ)) (words : List ℕ) (st : S)
        → answer ≡ ok words
        → decode_uint32 words big ≡ sunspec_marker
        → after answer
            (λ marker. lift (guard (decode_uint32 marker big == sunspec_marker) sunspec_error) >> k)
            st
          ≡ k st
    checked k answer words st e marked =
        let same : (decode_uint32 words big == sunspec_marker) ≡ true = ground (arith, marked) in
        rw (e, same) refl

    scan-Marked :
        (base : ℕ) (st : S)
        → Ready st
        → Marked mem base
        → scan unit base st ≡ walk unit max_models (base + 2) [] (next base st)
    unfolding scan next reader
    scan-Marked base st r e =
        checked (walk unit max_models (base + 2) []) (unit.read_holding_registers base 2 st).0 _
          (unit.read_holding_registers base 2 st).1 (serves.answers holding base 2 st r).0 e

    scan_unmarked :
        (base : ℕ) (st : S)
        → Ready st
        → ¬ Marked mem base
        → scan unit base st ≡ (err sunspec_error, next base st)
    unfolding scan next reader
    scan_unmarked base st r e =
        let same : (decode_uint32 (slice mem holding base 2) big == sunspec_marker) ≡ false =
          ground (arith, e) in
        rw ((serves.answers holding base 2 st r).0, same) refl

    Holds-nil : (a : ℕ) → Holds [] [] a
    unfolding chain all_models
    Holds-nil a = record {
      in_order = refl;
      by_id = ById-nil;
      by_address = ByAddress-nil;
      below = tt;
    }

    scan-Outcome :
        (base : ℕ) (st : S) (run : Result SunSpecModels × S)
        → Marked mem base
        → Outcome max_models (base + 2) [] run
        → Marked mem base
            × ((ms : List SunSpecModel) × (models : SunSpecModels) × Laid mem (base + 2) ms
                × (length ms < max_models)
                × (run.0 ≡ ok models)
                × (chain models ≡ ms)
                × Finds models ms)
          ⊎ ((Marked mem base
                → (ms : List SunSpecModel) → Laid mem (base + 2) ms
                → length ms < max_models
                → ⊥)
              × (run.0 ≡ err sunspec_error))
    unfolding Outcome
    scan-Outcome base st run marked (inl found) = inl (marked, found)
    scan-Outcome base st run marked (inr (never, e)) = inr ((λ _. never), e)

    -- A scan of a device that answers every read returns or raises `SunSpecError`. It returns if and
    -- only if the marker stands at the base address, and behind it a chain of at most 99 models with
    -- the end marker; it then returns the models of the chain, in its order and under their
    -- identities and addresses. The device stays ready.
    pub scan_cases :
        (base : ℕ) (st : S)
        → Ready st
        → (Marked mem base
              × ((ms : List SunSpecModel) × (models : SunSpecModels) × Laid mem (base + 2) ms
                  × (length ms < max_models)
                  × ((scan unit base st).0 ≡ ok models)
                  × (chain models ≡ ms)
                  × Finds models ms)
            ⊎ ((Marked mem base
                  → (ms : List SunSpecModel) → Laid mem (base + 2) ms
                  → length ms < max_models
                  → ⊥)
                × ((scan unit base st).0 ≡ err sunspec_error)))
          × Ready (scan unit base st).1
    scan_cases base st r =
        elim (same_or_other (decode_uint32 (slice mem holding base 2) big) sunspec_marker) [
          | inl marked ↦
              let (outcome, ready) =
                walk_cases max_models (base + 2) [] [] (next base st) (next-Ready base st r)
                  (Holds-nil (base + 2)) in
              rw (scan-Marked base st r marked) (scan-Outcome base st _ marked outcome, ready)
          | inr unmarked ↦
              rw (scan_unmarked base st r unmarked)
                (inr ((λ marked. absurd (unmarked marked)), refl), next-Ready base st r)
        ]
