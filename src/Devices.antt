-- ===== src/Devices.antt =====
-- services/drv/device.c, the table of devices, and what services/drv/netdev.c and
-- services/drv/console.c put there. A driver is an address, 0 for none.
pub mod Registry
use ittrium.Common.{
  ℕ, zero, suc, ◌+◌, Bool, ◌&&◌, ◌||◌, not, Option, none, some, List, [], ◌∷◌, ltb, leb, ◌==◌, put,
  if◌then◌else◌,
}
use ittrium.Common.Int.{ℤ, pos}
use ittrium.Common.Table.{find_slot}
use ittrium.Text.{Text, text_eq}
use ittrium.FileOps.{failed}

abbrev pub itt_devices_max : ℕ
itt_devices_max = 8

-- `enum itt_dev_class`
abbrev pub itt_dev_console : ℕ
itt_dev_console = 1

abbrev pub itt_dev_net : ℕ
itt_dev_net = 2

-- `struct itt_device`
pub record Device : Type 0 where
  pub name : Text
  pub class : ℕ
  pub drv : ℕ

-- `struct itt_devices`
pub record Devices : Type 0 where
  pub slot : ℕ → Device
  pub n : ℕ

abbrev pub is_called : Text → Device → Bool
is_called name d = text_eq d.name name

-- A null pointer for a name is `none`.
unfoldable pub itt_device_add : Option Text → ℕ → ℕ → Devices → Devices × ℤ
itt_device_add none class drv d = (d, failed)
itt_device_add (some name) class drv d =
    if drv == 0 || class == 0
    then (d, failed)
    else if leb itt_devices_max d.n
    then (d, failed)
    else elim (find_slot (is_called name) d.n d.slot) [
      | some i ↦ (d, failed)
      | none ↦ (
        record d {
          slot = put d.slot d.n (record { name = name; class = class; drv = drv });
          n = d.n + 1;
        },
        pos 0,
      )
    ]

unfoldable pub itt_device_find : Option Text → Devices → Option Device
itt_device_find none d = none
itt_device_find (some name) d = elim (find_slot (is_called name) d.n d.slot) [
  | none ↦ none
  | some i ↦ some (d.slot i)
]

-- The loop of itt_device_find_class, with `hit` devices of the class in front of `i`.
unfoldable pub find_class : ℕ → ℕ → ℕ → ℕ → ℕ → (ℕ → Device) → Option Device
find_class zero i hit class idx t = none
find_class (suc n) i hit class idx t =
    let rest = find_class n (suc i) (if (t i).class == class then suc hit else hit) class idx t in
    if (t i).class == class && hit == idx then some (t i) else rest

unfoldable pub itt_device_find_class : ℕ → ℕ → Devices → Option Device
itt_device_find_class class idx d = find_class d.n 0 0 class idx d.slot

-- The members of `struct netdev` that are read: its name, and its operations, 0 for none.
pub record Netdev : Type 0 where
  pub name : Option Text
  pub ops : ℕ

-- The network device at an address.
unfoldable pub netdev_register : (ℕ → Netdev) → ℕ → Devices → Devices × ℤ
netdev_register nets dev d = elim ((nets dev).name) [
  | none ↦ (d, failed)
  | some name ↦
      if dev == 0 || (nets dev).ops == 0
      then (d, failed)
      else itt_device_add (some name) itt_dev_net dev d
]

-- The address of the network device, `none` for the null pointer.
unfoldable pub netdev_get : Option Text → Devices → Option ℕ
netdev_get name d = elim (itt_device_find name d) [
  | none ↦ none
  | some v ↦ if v.class == itt_dev_net then some v.drv else none
]

-- `struct console_ops`: whether putc and getc are given.
pub record ConsoleOps : Type 0 where
  pub has_putc : Bool
  pub has_getc : Bool

-- "console"
abbrev pub console_name : Text
console_name = 99 ∷ 111 ∷ 110 ∷ 115 ∷ 111 ∷ 108 ∷ 101 ∷ []

unfoldable pub console_register : (ℕ → ConsoleOps) → ℕ → Devices → Devices × ℤ
console_register cons ops d =
    if ops == 0 || not (cons ops).has_putc || not (cons ops).has_getc
    then (d, failed)
    else itt_device_add (some console_name) itt_dev_console ops d

-- The operations of the console, `none` for the null pointer.
unfoldable pub console_ops : Devices → Option ℕ
console_ops d = elim (itt_device_find_class itt_dev_console 0 d) [
  | none ↦ none
  | some v ↦ some v.drv
]
