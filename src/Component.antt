-- ===== src/Component.antt =====
-- src/modbus_connection/model/component.py and _component_base.py: where the fields of a component are
-- read, and its readable ranges. `V` is the type of decoded values. Components are numbered from 1.
pub mod Plans
pub mod Restriction
use Prim.Native.String.{String}
use modbus_connection.Prelude.{
  ℕ, ◌+◌, ◌-◌, ◌*◌, Bool, true, false, ◌||◌, Option, none, some, List, [], ◌∷◌, ◌++◌, ℤ,
  if◌then◌else◌,
}
use modbus_connection.Dict.{Dict, lookup}
use modbus_connection.Const.{Space, space_eq, Range}
use modbus_connection.Errors.{Result, ok, ◌>>=◌}
use modbus_connection.Ranges.{option_map}
use modbus_connection.Planning.{Limits}
use modbus_connection.Reading.{Field, ResolvedField, ReadItem}
use modbus_connection.Fields.{Register}
use modbus_connection.Fields.Packed.{BitField, decode_bit}
use modbus_connection.Writing.{Encoding}

abbrev pub eq_name : String → String → Bool
eq_name a b = elim (Prim.Native.String.compare a b) [
  | Prim.Native.Nat.Ordering.eq ↦ true
  | _ ↦ false
]

-- What the layout uses of a field.
pub record Place : Type 0 where
  pub address : ℕ
  pub count : ℕ
  pub stride : ℕ
  pub scale_register : Option ℕ
  pub scale_register_stride : ℕ

abbrev pub register_place : {V : Type 0} → Register V → Place
register_place r = record {
  address = r.address;
  count = r.count;
  stride = r.stride;
  scale_register = r.scale_register;
  scale_register_stride = r.scale_register_stride;
}

-- A bit takes one address in its space.
abbrev pub bit_place : {V : Type 0} → BitField V → Place
bit_place b = record {
  address = b.address;
  count = 1;
  stride = b.stride;
  scale_register = none;
  scale_register_stride = 0;
}

pub record RegisterField (V : Type 0) : Type 0 where
  pub register : Register V
  pub decode : List ℕ → Option ℤ → Result V
  pub encoding : Encoding V

-- The count of a repeating group: a number, or a register that is read.
pub data Count (V : Type 0) : Type 0 where
  fixed : ℕ → Count V
  counted : RegisterField V → Count V

-- The stride: a number, or computed from what the outermost component has read.
pub data Stride (V : Type 0) : Type 0 where
  constant : ℕ → Stride V
  placed : (Dict String V → Result ℤ) → Stride V

pub record RepeatingGroupField (V : Type 0) : Type 0 where
  pub count : Count V
  pub stride : Stride V
  pub count_in_block : Bool

pub record Component (V : Type 0) : Type 0 where
  pub index : ℕ
  pub base_offset : ℕ
  pub instance_offset : ℕ
  pub scale_in_block : Bool
  pub register_space : Space
  pub register_fields : Dict String (RegisterField V)
  pub bit_fields : Dict String (BitField V)
  pub declared_fields : List String
  pub static_groups : Dict String (RepeatingGroupField V)
  pub repeating_fields : Dict String (RepeatingGroupField V)
  pub register_ranges : Option (List Range)
  pub coil_ranges : Option (List Range)
  pub discrete_ranges : Option (List Range)
  pub claimed_spaces : List Space
  pub limits : Limits
  pub values : Dict String V
  pub bits : Dict String V

-- The dictionaries that reads fill: values, bits and counts.
abbrev pub values_store : ℕ
values_store = 0

abbrev pub bits_store : ℕ
bits_store = 1

abbrev pub counts_store : ℕ
counts_store = 2

module _ {V : Type 0} where
  unfoldable pub declared_address : Component V → Place → ℕ
  declared_address c p = p.address + p.stride * (c.index - 1)

  unfoldable pub address_of : Component V → Place → ℕ
  unfolding declared_address
  address_of c p = declared_address c p + c.base_offset + c.instance_offset

  -- `_scale_address`
  unfoldable pub scale_address_of : Component V → Place → ℕ → ℕ
  scale_address_of c p scale_register =
      let address = scale_register + p.scale_register_stride * (c.index - 1) + c.base_offset in
      if c.scale_in_block then address + c.instance_offset else address

  -- `_resolve`
  unfoldable pub resolve : Component V → Field V → Place → Space → ResolvedField V
  unfolding address_of scale_address_of
  resolve c field p space = record {
    field = field;
    address = address_of c p;
    count = p.count;
    scale_address = option_map (scale_address_of c p) p.scale_register;
    space = space;
  }

  abbrev pub resolve_register : Component V → String → RegisterField V → ResolvedField V
  resolve_register c name r =
      resolve c (record { name = name; decode = r.decode }) (register_place r.register)
        c.register_space

  -- A count register is named for its group; outside the block it stays where the instance is not.
  abbrev pub unshifted : Component V → Bool → ResolvedField V → ResolvedField V
  unshifted c count_in_block r =
      if count_in_block then r else record r { address = r.address - c.instance_offset }

  abbrev pub count_item : Component V → String → RepeatingGroupField V → List (ReadItem V)
  count_item c name g = elim g.count [
    | fixed n ↦ []
    | counted r ↦
        (record {
          resolved = unshifted c g.count_in_block (resolve_register c name r);
          store = counts_store;
        })
        ∷ []
  ]

  -- `_count_items`
  unfoldable pub count_items : Component V → Dict String (RepeatingGroupField V) → List (ReadItem V)
  unfolding resolve
  count_items c [] = []
  count_items c ((name, g) ∷ groups) = count_item c name g ++ count_items c groups

module _ {V : Type 0} (of_bool : Bool → V) where
  -- `_BitField.decode`, as a value
  abbrev pub decode_flag : List ℕ → Option ℤ → Result V
  decode_flag words exponent = do b ← decode_bit words; ok (of_bool b)

  abbrev pub resolve_bit : Component V → String → BitField V → ResolvedField V
  resolve_bit c name b =
      resolve c (record { name = name; decode = decode_flag }) (bit_place b) b.space

  -- The item of a name: a register's, a bit's, or none for a name that was dropped.
  abbrev pub item_of :
      Component V → String → Option (RegisterField V) → Option (BitField V) → List (ReadItem V)
  item_of c name (some r) bit =
      (record { resolved = resolve_register c name r; store = values_store }) ∷ []
  item_of c name none (some b) =
      (record { resolved = resolve_bit c name b; store = bits_store }) ∷ []
  item_of c name none none = []

  -- `resolved_fields`, each with the dictionary that it is stored in
  unfoldable pub field_items : Component V → List String → List (ReadItem V)
  unfolding resolve lookup decode_bit
  field_items c [] = []
  field_items c (name ∷ names) =
      item_of c name (lookup eq_name name c.register_fields) (lookup eq_name name c.bit_fields)
      ++ field_items c names

  -- `_own_items`
  unfoldable pub own_items : Component V → List (ReadItem V)
  unfolding field_items count_items
  own_items c = field_items c c.declared_fields ++ count_items c c.repeating_fields

unfoldable pub in_spaces : Space → List Space → Bool
in_spaces s [] = false
in_spaces s (t ∷ ts) = space_eq s t || in_spaces s ts
