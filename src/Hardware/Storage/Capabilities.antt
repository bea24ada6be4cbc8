-- ===== src/Hardware/Storage/Capabilities.antt =====
-- The capabilities of a storage device that are enabled are supported.
use mathlib.Core.List.{Memᴰ}
use ocp_diag_core_cpp.Base.{
  String, Bool, true, false, Option, none, some, List, [], ◌∷◌, snoc, All, ◌≡◌, refl, ap, sym, ◌∙◌,
  inl, inr, Bool-cases,
}
use ocp_diag_core_cpp.Hardware.Status.{StatusOr, ◌>>=◌, value, >>=-eq-value, value-inj}
use ocp_diag_core_cpp.Hardware.Storage.{
  Json, Capability, AtaInfo, new_ata_info, add_supported, set_enabled, set_supported,
  if_supported_key, if_enabled_key, map_and_set_cap, capability_mapping, set_caps, const_path,
  smart_caps, set_sct, set_ata_info, without_end,
}

snoc-Memᴰ :
    {c : Capability} (cs : List Capability) (d : Capability) → Memᴰ c cs → Memᴰ c (snoc cs d)
snoc-Memᴰ [] d h = elim h [ ]
snoc-Memᴰ (e ∷ cs) d (Memᴰ.head same) = Memᴰ.head same
snoc-Memᴰ (e ∷ cs) d (Memᴰ.tail h) = Memᴰ.tail (snoc-Memᴰ cs d h)

snoc-last : (cs : List Capability) (c : Capability) → Memᴰ c (snoc cs c)
snoc-last [] c = Memᴰ.head refl
snoc-last (d ∷ cs) c = Memᴰ.tail (snoc-last cs c)

-- every enabled capability is among the supported ones
abbrev pub IsSupported : AtaInfo → Type 0
IsSupported info = All (λ c. Memᴰ c info.supported_capabilities) info.enabled_capabilities

All-snoc :
    (S : List Capability) (es : List Capability) (c : Capability)
    → All (λ e. Memᴰ e S) es
    → Memᴰ c S
    → All (λ e. Memᴰ e S) (snoc es c)
All-snoc S [] c h here = (here, tt)
All-snoc S (e ∷ es) c h here = (h.0, All-snoc S es c h.1 here)

All-more :
    (S : List Capability) (es : List Capability) (c : Capability)
    → All (λ e. Memᴰ e S) es
    → All (λ e. Memᴰ e (snoc S c)) es
All-more S [] c h = tt
All-more S (e ∷ es) c h = (snoc-Memᴰ S c h.0, All-more S es c h.1)

add_supported-IsSupported :
    (info : AtaInfo) (c : Capability) → IsSupported info → IsSupported (add_supported info c)
add_supported-IsSupported info c h = All-more _ info.enabled_capabilities c h

set_enabled-IsSupported :
    (cap : Option Capability) (on : Bool) (info : AtaInfo)
    → IsSupported info
    → IsSupported (set_enabled cap on info)
set_enabled-IsSupported none on info h = h
set_enabled-IsSupported (some c) false info h = h
set_enabled-IsSupported (some c) true info h =
    All-snoc _ info.enabled_capabilities c (All-more _ info.enabled_capabilities c h)
      (snoc-last info.supported_capabilities c)

set_supported-IsSupported :
    (cap : Option Capability) (on : Bool) (info : AtaInfo)
    → IsSupported info
    → IsSupported (set_supported cap on info)
set_supported-IsSupported none on info h = h
set_supported-IsSupported (some c) false info h = h
set_supported-IsSupported (some c) true info h = add_supported-IsSupported info c h

if_supported_key-IsSupported :
    (key : Option String) (on : Bool) (info : AtaInfo)
    → IsSupported info
    → IsSupported (if_supported_key key on info)
if_supported_key-IsSupported none on info h = h
if_supported_key-IsSupported (some key) on info h =
    set_supported-IsSupported (capability_mapping key) on info h

if_enabled_key-IsSupported :
    (key : Option String) (full : String) (on : Bool) (info : AtaInfo)
    → IsSupported info
    → IsSupported (if_enabled_key key full on info)
if_enabled_key-IsSupported none full on info h =
    if_supported_key-IsSupported (without_end full "_supported") on info h
if_enabled_key-IsSupported (some key) full on info h =
    set_enabled-IsSupported (capability_mapping key) on info h

map_and_set_cap-IsSupported :
    (key : String) (on : Bool) (info : AtaInfo)
    → IsSupported info
    → IsSupported (map_and_set_cap key on info)
unfolding map_and_set_cap
map_and_set_cap-IsSupported key on info h =
    if_enabled_key-IsSupported (without_end key "_enabled") key on info h

module _ {J : Type 0} (json : Json J) where
  set_caps-IsSupported :
      (items : List (String × J)) (info : AtaInfo) {after : AtaInfo}
      → IsSupported info
      → set_caps json items info ≡ value after
      → IsSupported after
  unfolding set_caps
  set_caps-IsSupported [] info h is = rw (← value-inj is) h
  set_caps-IsSupported (item ∷ items) info h is = elim (Bool-cases (json.is_boolean item.1)) [
    | inr other ↦ set_caps-IsSupported items info h (sym (rw other refl) ∙ is)
    | inl boolean ↦
        let (on, rest, read) =
          >>=-eq-value (json.get_bool item.1)
            (λ on. set_caps json items (map_and_set_cap item.0 on info))
            (sym (rw boolean refl) ∙ is) in
        set_caps-IsSupported items (map_and_set_cap item.0 on info)
          (map_and_set_cap-IsSupported item.0 on info h) rest
  ]

  set_sct-IsSupported :
      (result : J) (info : AtaInfo) {after : AtaInfo}
      → IsSupported info
      → set_sct json result info ≡ value after
      → IsSupported after
  unfolding set_sct
  set_sct-IsSupported result info h is =
      elim (Bool-cases (json.contains result "ata_sct_capabilities")) [
        | inr without ↦ rw (← value-inj {a = info} (sym (rw without refl) ∙ is)) h
        | inl with ↦
            let (caps, rest, read) =
              >>=-eq-value (json.const_at result "ata_sct_capabilities")
                (λ caps. set_caps json (json.items caps) (add_supported info Capability.sct))
                (sym (rw with refl) ∙ is) in
            set_caps-IsSupported (json.items caps) _
              (add_supported-IsSupported info Capability.sct h) rest
      ]

  smart_caps-IsSupported :
      (available enabled : Bool) (info : AtaInfo)
      → (available ≡ false → enabled ≡ false)
      → IsSupported info
      → IsSupported (smart_caps available enabled info)
  smart_caps-IsSupported true false info h s = add_supported-IsSupported info Capability.smart s
  smart_caps-IsSupported true true info h s =
      set_enabled-IsSupported (some Capability.smart) true info s
  smart_caps-IsSupported false false info h s = s
  smart_caps-IsSupported false true info h s = let never = h refl in cc

  -- what a report says of SMART
  abbrev smart_flag : J → String → StatusOr Bool
  smart_flag result flag = const_path json result "smart_support" flag >>= json.get_bool

  -- Where a report that says that SMART is not available does not say that it is enabled, and the
  -- report can be read, every capability that is set as enabled is set as supported.
  pub set_ata_info-IsSupported :
      (result : J) (info : AtaInfo)
      → (smart_flag result "available" ≡ value false → smart_flag result "enabled" ≡ value false)
      → set_ata_info json result ≡ value info
      → IsSupported info
  unfolding set_ata_info
  set_ata_info-IsSupported result info consistent h =
      let (sectors, h₁, is₁) =
        >>=-eq-value (const_path json result "user_capacity" "blocks" >>= json.get_uint) _ h in
      let (logical, h₂, is₂) =
        >>=-eq-value (json.const_at result "logical_block_size" >>= json.get_int) _ h₁ in
      let (physical, h₃, is₃) =
        >>=-eq-value (json.const_at result "physical_block_size" >>= json.get_int) _ h₂ in
      let (rpm, h₄, is₄) =
        >>=-eq-value (json.const_at result "rotation_rate" >>= json.get_int) _ h₃ in
      let (available, h₅, is₅) = >>=-eq-value (smart_flag result "available") _ h₄ in
      let (enabled, h₆, is₆) = >>=-eq-value (smart_flag result "enabled") _ h₅ in
      let (caps, h₇, is₇) =
        >>=-eq-value (const_path json result "ata_smart_data" "capabilities") _ h₆ in
      let fresh : AtaInfo = new_ata_info sectors logical physical rpm in
      let (before, h₈, is₈) =
        >>=-eq-value (set_caps json (json.items caps) (smart_caps available enabled fresh)) _ h₇ in
      let agree : available ≡ false → enabled ≡ false =
        λ no. value-inj (sym is₆ ∙ consistent (is₅ ∙ ap value no)) in
      set_sct-IsSupported result before
        (set_caps-IsSupported (json.items caps) (smart_caps available enabled fresh)
          (smart_caps-IsSupported available enabled fresh agree tt) is₈)
        h₈
