-- ===== src/Device.antt =====
-- src/modbus_connection/model/device.py: polling the components of a device by name. `S` is the state
-- that the components act on; a component is what the device uses of it: its update, which does not
-- notify, and `none` for an attribute that is `None`.
pub mod Polling
use Prim.Native.String.{String}
use modbus_connection.Prelude.{
  Bool, true, false, ◌&&◌, ◌||◌, Option, none, some, List, [], ◌∷◌, ◌++◌, if◌then◌else◌,
}
use modbus_connection.Dict.{Dict, insert}
use modbus_connection.Errors.{
  Result, ok, err, Error, modbus, ErrorClass, connection_error, client_closed_error, timeout_error,
  coded, illegal_data_address, illegal_function,
}
use modbus_connection.Unit.{Action, after, ◌>>=◌, pure}
use modbus_connection.Component.{eq_name}

pub record UpdateReport : Type 0 where
  pub updated : List String
  pub failed : Dict String Error

abbrev pub is_nil {ℓ} : {A : Type ℓ} → List A → Bool
is_nil [] = true
is_nil (x ∷ xs) = false

-- `complete`
unfoldable pub complete : UpdateReport → Bool
complete r = is_nil r.failed

-- What the handlers tell apart. `ClientClosedError` is a `ModbusConnectionError`; the other classes are
-- not modbus errors, and no handler takes them.
pub data Handler : Type 0 where
  connection timeout other_modbus unhandled : Handler

abbrev pub class_handler : ErrorClass → Handler
class_handler connection_error = connection
class_handler client_closed_error = connection
class_handler timeout_error = timeout
class_handler _ = other_modbus

abbrev pub handler_of : Error → Handler
handler_of (modbus e) = class_handler e.class
handler_of _ = unhandled

-- `except (IllegalDataAddressError, IllegalFunctionError)`
abbrev is_refusal_class : ErrorClass → Bool
is_refusal_class (coded illegal_data_address) = true
is_refusal_class (coded illegal_function) = true
is_refusal_class _ = false

abbrev pub is_refusal : Error → Bool
is_refusal (modbus e) = is_refusal_class e.class
is_refusal _ = false

-- `set.add`
unfoldable pub add_name : String → List String → List String
add_name name [] = name ∷ []
add_name name (n ∷ names) =
    let rest = n ∷ add_name name names in if eq_name name n then n ∷ names else rest

-- What came of one component's update, in the report. `none` is an exception that leaves the poll.
unfoldable pub record_failure : String → Error → UpdateReport → Option UpdateReport
unfolding insert
record_failure name e report = elim (handler_of e) [
  | connection ↦ none
  | unhandled ↦ none
  | timeout ↦
      if is_nil report.updated && is_nil report.failed
      then none
      else some (record report { failed = insert eq_name name e report.failed })
  | other_modbus ↦ some (record report { failed = insert eq_name name e report.failed })
]

-- The report is the caller's object: it keeps what was recorded before an exception left the poll.
pub record Poll (S : Type 0) : Type 0 where
  pub device : S
  pub report : UpdateReport
  pub notified : List String
  pub setup_done : Bool

module _ {S : Type 0} where
  -- `read_optional`: whether the component is served.
  unfoldable pub read_optional : Action S (Unit {0}) → Action S Bool
  read_optional update s =
      let (r, t) = update s in
      elim r [ ok _ ↦ (ok true, t) | err e ↦ if is_refusal e then (ok false, t) else (err e, t) ]

  abbrev pub after_setup : Result (Unit {0}) × S → Poll S → Result (Unit {0}) × Poll S
  after_setup (ok _, t) p = (ok tt, record p { device = t; setup_done = true })
  after_setup (err e, t) p = (err e, record p { device = t })

  -- `async_ensure_setup`
  unfoldable pub ensure_setup : Action S (Unit {0}) → Action (Poll S) (Unit {0})
  ensure_setup setup p = if p.setup_done then (ok tt, p) else after_setup (setup p.device) p

  -- One name of the loop, after its update: the names updated so far are those to notify.
  abbrev pub settle :
      String → Result (Unit {0}) × S → List String → Poll S → Result (List String) × Poll S
  settle name (ok _, t) updated p = (
    ok (updated ++ name ∷ []),
    record p { device = t; report = record p.report { updated = add_name name p.report.updated } },
  )
  settle name (err e, t) updated p = elim (record_failure name e p.report) [
    | none ↦ (err e, record p { device = t })
    | some report ↦ (ok updated, record p { device = t; report = report })
  ]

  module _ (component : String → Option (Action S (Unit {0}))) where
    abbrev pub poll_one :
        String → Option (Action S (Unit {0})) → List String → Action (Poll S) (List String)
    poll_one name none updated p = (ok updated, p)
    poll_one name (some update) updated p = settle name (update p.device) updated p

    -- The loop over the names.
    unfoldable pub poll_names : List String → List String → Action (Poll S) (List String)
    unfolding add_name record_failure
    poll_names [] updated = pure updated
    poll_names (name ∷ names) updated = do
      now ← poll_one name (component name) updated
      poll_names names now

    -- Listeners are told once every read is in.
    abbrev pub notify_all : List String → Action (Poll S) (Unit {0})
    notify_all updated p = (ok tt, record p { notified = p.notified ++ updated })

    -- `async_poll`
    unfoldable pub async_poll : Action S (Unit {0}) → List String → Action (Poll S) UpdateReport
    unfolding ensure_setup poll_names
    async_poll setup names p =
        after (ensure_setup setup p).0
          (λ _ q.
            after (poll_names names [] q).0
              (λ updated r. (ok (notify_all updated r).1.report, (notify_all updated r).1))
              (poll_names names [] q).1)
          (ensure_setup setup p).1
