-- ===== src/Hardware/Memory/Convert.antt =====
-- The memory device that an address is converted to.
use Prim.Native.Nat.{◌*◌, ◌%◌}
use ocp_diag_core_cpp.Base.{
  ℕ, ◌≤◌, ◌≢◌, ◌↔◌, ◌==◌, Bool, true, false, List, [], ◌∷◌, ◌≡◌, refl, ap, sym, ◌∙◌, ◌⊎◌, inl, inr,
  if◌then◌else◌, Bool-cases, arith,
}
use ocp_diag_core_cpp.Hardware.Status.{Code, StatusOr, value, error, value-inj}
use ocp_diag_core_cpp.Hardware.Identifier.{Identifier, populate_id}
use ocp_diag_core_cpp.Hardware.Memory.{
  MemoryDevice, MappedAddress, SmbiosReader, kilobytes, is_address_within_map, find_handle,
  dimm_identifier, find_device, convert_address,
}

-- the first element that satisfies `P` satisfies `Q` too
abbrev pub First : {A : Type 0} → (A → Type 0) → (A → Type 0) → List A → Type 0
First P Q [] = ⊥
First P Q (x ∷ xs) = (P x × Q x) ⊎ (¬ P x × First P Q xs)

-- what the two fields of an address give: the extended one where the other has the marker
abbrev pub Reads : ℕ → ℕ → ℕ → Type 0
Reads address extended k =
    ((address ≢ 4294967295) × (k ≡ address)) ⊎ ((address ≡ 4294967295) × (k ≡ extended))

-- The address lies between 1024 times the starting and 1024 times the ending address, both
-- included; the products are of 64 bits.
abbrev pub Lies : ℕ → MappedAddress → Type 0
Lies address m =
    (first : ℕ) × (last : ℕ) × Reads m.starting_address m.extended_starting_address first
    × Reads m.ending_address m.extended_ending_address last
    × ((first * 1024) % 18446744073709551616 ≤ address)
    × (address ≤ (last * 1024) % 18446744073709551616)

abbrev pub HasHandle : ℕ → MemoryDevice → Type 0
HasHandle handle d = d.handle ≡ handle

-- the identifier of the device: a DIMM with the device's locator as its name
abbrev pub IsNamed : Identifier → MemoryDevice → Type 0
IsNamed i d = (i ≡ dimm_identifier d) × (i.name ≡ d.device_locator) × (i.type_name ≡ "dimm")

kilobytes-Reads : (address extended : ℕ) → Reads address extended (kilobytes address extended)
kilobytes-Reads address extended = elim (Bool-cases (address == 4294967295)) [
  | inl e ↦ inr (ground arith, rw e refl)
  | inr e ↦ inl ((λ h. ground arith), rw e refl)
]

Reads-only : (address extended k : ℕ) → Reads address extended k → k ≡ kilobytes address extended
Reads-only address extended k (inl h) = ground arith
Reads-only address extended k (inr h) = ground arith

within-Lies :
    (address : ℕ) (m : MappedAddress) → is_address_within_map address m ≡ true → Lies address m
unfolding is_address_within_map
within-Lies address m h = (
  _,
  _,
  kilobytes-Reads m.starting_address m.extended_starting_address,
  kilobytes-Reads m.ending_address m.extended_ending_address,
  ground arith,
  ground arith,
)

outside-Lies :
    (address : ℕ) (m : MappedAddress) → is_address_within_map address m ≡ false → Lies address m → ⊥
unfolding is_address_within_map
outside-Lies address m h (first, last, reads, reads_last, low, high) =
    let e = Reads-only m.starting_address m.extended_starting_address first reads in
    let f = Reads-only m.ending_address m.extended_ending_address last reads_last in ground arith

find_handle-First :
    (address handle : ℕ) (ms : List MappedAddress)
    → find_handle address ms ≡ handle
    → (handle == 0) ≡ false
    → First (Lies address) (λ m. m.memory_device_handle ≡ handle) ms
unfolding find_handle
find_handle-First address handle [] h k = ground arith
find_handle-First address handle (m ∷ ms) h k =
    elim (Bool-cases (is_address_within_map address m)) [
      | inl e ↦ inl (within-Lies address m e, sym (rw e refl) ∙ h)
      | inr e ↦
          inr
            (outside-Lies address m e, find_handle-First address handle ms (sym (rw e refl) ∙ h) k)
    ]

find_device-First :
    (handle : ℕ) (i : Identifier) (ds : List MemoryDevice)
    → find_device handle ds ≡ value i
    → First (HasHandle handle) (IsNamed i) ds
unfolding find_device dimm_identifier populate_id
find_device-First handle i [] h = cc
find_device-First handle i (d ∷ ds) h = elim (Bool-cases (d.handle == handle)) [
  | inl e ↦
      let found : find_device handle (d ∷ ds) ≡ value (dimm_identifier d) = rw e refl in
      let same = value-inj (sym h ∙ found) in
      inl (ground arith, (same, ap (λ j. j.name) same, ap (λ j. j.type_name) same))
  | inr e ↦
      let later : find_device handle (d ∷ ds) ≡ find_device handle ds = rw e refl in
      inr ((λ k. ground arith), find_device-First handle i ds (sym later ∙ h))
]

First-find_handle :
    (address handle : ℕ) (ms : List MappedAddress)
    → First (Lies address) (λ m. m.memory_device_handle ≡ handle) ms
    → find_handle address ms ≡ handle
unfolding find_handle
First-find_handle address handle [] h = elim h [ ]
First-find_handle address handle (m ∷ ms) h = elim (Bool-cases (is_address_within_map address m)) [
  | inl e ↦ elim h [
    | inl here ↦ rw e here.1
    | inr later ↦ absurd (later.0 (within-Lies address m e))
  ]
  | inr e ↦ elim h [
    | inl here ↦ absurd (outside-Lies address m e here.0)
    | inr later ↦ rw e (First-find_handle address handle ms later.1)
  ]
]

First-find_device :
    (handle : ℕ) (i : Identifier) (ds : List MemoryDevice)
    → First (HasHandle handle) (IsNamed i) ds
    → find_device handle ds ≡ value i
unfolding find_device
First-find_device handle i [] h = elim h [ ]
First-find_device handle i (d ∷ ds) (inl here) =
    let e : (d.handle == handle) ≡ true = ground arith in rw e (ap value (sym here.1.0))
First-find_device handle i (d ∷ ds) (inr later) =
    let e : (d.handle == handle) ≡ false = ground arith in
    rw e (First-find_device handle i ds later.1)

past_zero :
    (b : Bool) (r : StatusOr Identifier) (i : Identifier)
    → (if b then error Code.invalid_argument else r) ≡ value i
    → (b ≡ false) × (r ≡ value i)
past_zero true r i h = cc
past_zero false r i h = (refl, h)

-- An address is converted exactly if the first mapped range that it lies in has a handle other than
-- 0, and some device has this handle; the answer is the identifier of the first such device, a "dimm"
-- with the device's locator as its name. A range goes from 1024 times its starting address to 1024
-- times its ending address, in 64 bits and both included; for an address with the marker 0xFFFFFFFF
-- it is the extended address that is multiplied.
pub convert_address-IsNamed :
    (address : ℕ) (reader : SmbiosReader) (i : Identifier)
    → (convert_address address reader ≡ value i)
      ↔ (handle : ℕ) × (handle ≢ 0)
        × First (Lies address) (λ m. m.memory_device_handle ≡ handle) reader.mapped_addresses
        × First (HasHandle handle) (IsNamed i) reader.memory_devices
unfolding convert_address
convert_address-IsNamed address reader i = (
  λ h.
      let handle = find_handle address reader.mapped_addresses in
      let past = past_zero (handle == 0) (find_device handle reader.memory_devices) i h in
      (
        handle,
        (λ k. ground arith),
        find_handle-First address handle reader.mapped_addresses refl past.0,
        find_device-First handle i reader.memory_devices past.1,
      ),
  λ (handle, some_handle, range, device).
      let e = First-find_handle address handle reader.mapped_addresses range in
      let k : (handle == 0) ≡ false = ground arith in
      rw (e, k) (First-find_device handle i reader.memory_devices device),
)
