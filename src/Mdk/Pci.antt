-- ===== src/Mdk/Pci.antt =====
-- MDK/drivers/pci/pci.c: the scan of the bus. The registers behind the two ports are a parameter:
-- what a read gives for each address.
pub mod Scan
use bumbellbee_testing.Base.{
  ℕ, zero, suc, ◌+◌, ◌*◌, ◌/◌, ◌%◌, ◌^◌, bit_and, bit_or, Bool, ◌&&◌, not, Option, none, some, List,
  [], ◌∷◌, ◌++◌, ◌==◌, if◌then◌else◌,
}
use bumbellbee_testing.Base.Text.{codes}
use bumbellbee_testing.Mdk.Console.{Call, int, vga_serial_printf, vga_serial_println}

-- `struct pci_device`
pub record PciDevice : Type 0 where
  pub bus : ℕ
  pub slot : ℕ
  pub func : ℕ
  pub vendor_id : ℕ
  pub device_id : ℕ
  pub bar0 : ℕ

-- The address that is written to PCI_CONFIG_ADDRESS.
abbrev pub config_address : ℕ → ℕ → ℕ → ℕ → ℕ
config_address bus slot func offset =
    bit_or
      (bit_or (bit_or (bit_or (bus * 2 ^ 16) (slot * 2 ^ 11)) (func * 2 ^ 8)) (bit_and offset 0xFC))
      0x80000000

unfoldable pub pci_read_config : (inl : ℕ → ℕ) → ℕ → ℕ → ℕ → ℕ → ℕ
pci_read_config inl bus slot func offset = inl (config_address bus slot func offset)

-- `config & 0xFFFF` and `(config >> 16) & 0xFFFF`
abbrev pub vendor_of : ℕ → ℕ
vendor_of config = config % 2 ^ 16

abbrev pub device_of : ℕ → ℕ
device_of config = config / 2 ^ 16 % 2 ^ 16

-- `func == 0 && !(pci_read_config(bus, slot, 0, 0x0C) & 0x00800000)`, which ends the loop.
pub is_single : (inl : ℕ → ℕ) → ℕ → ℕ → ℕ → Bool
is_single inl bus slot func =
    func == 0 && (bit_and (pci_read_config inl bus slot 0 0x0C) 0x00800000 == 0)

-- The loops of `pci_init`, each by the rounds left and its index: the calls in their order.
unfoldable pub list_funcs : (inl : ℕ → ℕ) → ℕ → ℕ → ℕ → ℕ → List Call
list_funcs inl bus slot zero func = []
list_funcs inl bus slot (suc n) func =
    let later = list_funcs inl bus slot n (func + 1) in
    let config = pci_read_config inl bus slot func 0 in
    let line =
      vga_serial_printf (codes "[PCI] Found device: vendor=%x device=%x at bus=%d slot=%d\n")
        (int (vendor_of config) ∷ int (device_of config) ∷ int bus ∷ int slot ∷ []) in
    if vendor_of config == 0xFFFF
    then later
    else if is_single inl bus slot func
    then line ∷ []
    else line ∷ later

unfoldable pub list_slots : (inl : ℕ → ℕ) → ℕ → ℕ → ℕ → List Call
list_slots inl bus zero slot = []
list_slots inl bus (suc n) slot = list_funcs inl bus slot 8 0 ++ list_slots inl bus n (slot + 1)

unfoldable pub list_buses : (inl : ℕ → ℕ) → ℕ → ℕ → List Call
list_buses inl zero bus = []
list_buses inl (suc n) bus = list_slots inl bus 32 0 ++ list_buses inl n (bus + 1)

unfoldable pub pci_init : (inl : ℕ → ℕ) → List Call
pci_init inl = vga_serial_println (codes "[PCI] Scanning devices...") ∷ list_buses inl 256 0

-- The test for a device, and the record that is filled for it.
unfoldable pub is_wanted : (inl : ℕ → ℕ) → ℕ → ℕ → ℕ → ℕ → ℕ → Bool
is_wanted inl vendor_id device_id bus slot func =
    let config = pci_read_config inl bus slot func 0 in
    vendor_of config == vendor_id && device_of config == device_id

abbrev pub describe : (inl : ℕ → ℕ) → ℕ → ℕ → ℕ → ℕ → ℕ → PciDevice
describe inl vendor_id device_id bus slot func = record {
  bus = bus;
  slot = slot;
  func = func;
  vendor_id = vendor_id;
  device_id = device_id;
  bar0 = pci_read_config inl bus slot func 0x10;
}

-- A result ends the loop around it.
abbrev pub return_or : Option PciDevice → Option PciDevice → Option PciDevice
return_or (some d) later = some d
return_or none later = later

-- The loops of `pci_find_device`.
pub find_func : (inl : ℕ → ℕ) → ℕ → ℕ → ℕ → ℕ → ℕ → ℕ → Option PciDevice
find_func inl vendor_id device_id bus slot zero func = none
find_func inl vendor_id device_id bus slot (suc n) func =
    let later = find_func inl vendor_id device_id bus slot n (func + 1) in
    if is_wanted inl vendor_id device_id bus slot func
    then some (describe inl vendor_id device_id bus slot func)
    else if is_single inl bus slot func
    then none
    else later

pub find_slot : (inl : ℕ → ℕ) → ℕ → ℕ → ℕ → ℕ → ℕ → Option PciDevice
find_slot inl vendor_id device_id bus zero slot = none
find_slot inl vendor_id device_id bus (suc n) slot =
    return_or (find_func inl vendor_id device_id bus slot 8 0)
      (find_slot inl vendor_id device_id bus n (slot + 1))

pub find_bus : (inl : ℕ → ℕ) → ℕ → ℕ → ℕ → ℕ → Option PciDevice
find_bus inl vendor_id device_id zero bus = none
find_bus inl vendor_id device_id (suc n) bus =
    return_or (find_slot inl vendor_id device_id bus 32 0)
      (find_bus inl vendor_id device_id n (bus + 1))

pub pci_find_device : (inl : ℕ → ℕ) → ℕ → ℕ → Option PciDevice
pci_find_device inl vendor_id device_id = find_bus inl vendor_id device_id 256 0
