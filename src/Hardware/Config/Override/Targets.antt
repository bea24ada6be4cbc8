-- ===== src/Hardware/Config/Override/Targets.antt =====
-- What an override does to the configurations for its address, and to the others.
use text.Mathlib.Text.{◌==◌ as str_eq}
use text.Mathlib.TextPositions.{eq_refl}
use ocp_diag_core_cpp.Base.{
  String, is_empty, Bool, true, false, not, ◌&&◌, ◌||◌, ◌≡◌, refl, ap, ◌∙◌, List, [], ◌∷◌, All,
  arith, if◌then◌else◌, Bool-cases, inl, inr,
}
use ocp_diag_core_cpp.Hardware.Config.{
  BackendType, EntityConfiguration, NodeOverride, same_backend, same_backend_refl,
}
use ocp_diag_core_cpp.Hardware.Config.Override.{
  new_configuration, is_oob_backend, override_redfish_options, apply_oob_override,
  apply_ib_override, override_all, or_add, targets, apply_node_override,
}

abbrev pub any_of : (EntityConfiguration → Bool) → List EntityConfiguration → Bool
any_of p [] = false
any_of p (c ∷ cs) = p c || any_of p cs

-- the configurations that do not meet a test
abbrev pub others :
    (EntityConfiguration → Bool) → List EntityConfiguration → List EntityConfiguration
others p [] = []
others p (c ∷ cs) = if p c then others p cs else c ∷ others p cs

abbrev Led : (EntityConfiguration → Bool) → BackendType → EntityConfiguration → Type 0
Led is_target b c = (is_target c && not (same_backend c.default_backend b)) ≡ false

-- The override leads a configuration to its backend, and leaves a target a target.
abbrev Leads :
    (EntityConfiguration → Bool)
    → (EntityConfiguration → EntityConfiguration)
    → BackendType
    → Type 0
Leads is_target apply b =
    (c : EntityConfiguration)
    → is_target c ≡ true
    → (is_target (apply c) ≡ true) × ((apply c).default_backend ≡ b)

module _ (is_target : EntityConfiguration → Bool)
    (apply : EntityConfiguration → EntityConfiguration) (b : BackendType) where
  override_all-lem :
      (cs : List EntityConfiguration)
      → Leads is_target apply b
      → All (Led is_target b) (override_all is_target apply cs).1
        × (any_of is_target (override_all is_target apply cs).1
            ≡ (override_all is_target apply cs).0)
        × (others is_target (override_all is_target apply cs).1 ≡ others is_target cs)
  unfolding override_all
  override_all-lem [] h = (tt, refl, refl)
  override_all-lem (c ∷ cs) h =
      let ih = override_all-lem cs h in
      elim (Bool-cases (is_target c)) [
        | inl e ↦
            let k = h c e in rw (e, k.0, k.1) ((rw (same_backend_refl b) refl, ih.0), refl, ih.2)
        | inr e ↦ rw e ((rw e refl, ih.0), rw e ih.1, rw e (ap (◌∷◌ c) ih.2))
      ]

  or_add-lem :
      (cs : List EntityConfiguration) (found : Bool)
      → All (Led is_target b) cs
      → any_of is_target cs ≡ found
      → is_target (apply new_configuration) ≡ true
      → (apply new_configuration).default_backend ≡ b
      → All (Led is_target b) (or_add apply (found, cs))
        × (any_of is_target (or_add apply (found, cs)) ≡ true)
        × (others is_target (or_add apply (found, cs)) ≡ others is_target cs)
  or_add-lem cs true led any t d = (led, any, refl)
  or_add-lem [] false led any t d = rw (t, d) ((rw (same_backend_refl b) refl, tt), refl, refl)
  or_add-lem (c ∷ cs) false led any t d = elim (Bool-cases (is_target c)) [
    | inl e ↦ ground arith
    | inr e ↦
        let rest : any_of is_target cs ≡ false = ground arith in
        let ih = or_add-lem cs false led.1 rest t d in rw e ((refl, ih.0), ih.1, ap (◌∷◌ c) ih.2)
  ]

  finished :
      (cs : List EntityConfiguration)
      → Leads is_target apply b
      → is_target (apply new_configuration) ≡ true
      → (apply new_configuration).default_backend ≡ b
      → All (Led is_target b) (or_add apply (override_all is_target apply cs))
        × (any_of is_target (or_add apply (override_all is_target apply cs)) ≡ true)
        × (others is_target (or_add apply (override_all is_target apply cs)) ≡ others is_target cs)
  finished cs h t d =
      let led = override_all-lem cs h in
      let added = or_add-lem _ _ led.0 led.1 t d in (added.0, added.1, added.2 ∙ led.2)

-- What an override makes of the configurations: those for its address have its backend, there is
-- one at least, and the others stay as they were, in order.
abbrev pub IsOverridden :
    NodeOverride → List EntityConfiguration → List EntityConfiguration → Type 0
IsOverridden o before after =
    All (Led (targets o) o.backend) after
    × (any_of (targets o) after ≡ true)
    × (others (targets o) after ≡ others (targets o) before)

oob_targets-lem :
    (o : NodeOverride) (c : EntityConfiguration)
    → is_oob_backend o.backend ≡ true
    → (str_eq c.redfish_options.target_address o.target_address ≡ true)
    → str_eq (apply_oob_override o c).redfish_options.target_address o.target_address ≡ true
unfolding apply_oob_override override_redfish_options
oob_targets-lem o c h e = elim (Bool-cases (is_empty o.target_address)) [
  | inl p ↦ rw (h, p) e
  | inr p ↦ rw (h, p) (eq_refl o.target_address)
]

ib_targets-lem :
    (o : NodeOverride) (c : EntityConfiguration)
    → str_eq c.entity.host_address o.target_address ≡ true
    → str_eq (apply_ib_override o c).entity.host_address o.target_address ≡ true
unfolding apply_ib_override
ib_targets-lem o c e = elim (Bool-cases (is_empty o.target_address)) [
  | inl p ↦ rw p e
  | inr p ↦ rw p (eq_refl o.target_address)
]

is_empty-eq : (s : String) → is_empty s ≡ true → s ≡ ""
is_empty-eq String.[] h = refl
is_empty-eq (String.◌∷◌ c s) h = cc

new_oob :
    (o : NodeOverride)
    → is_oob_backend o.backend ≡ true
    → str_eq
        (apply_oob_override o new_configuration).redfish_options.target_address
        o.target_address
      ≡ true
unfolding apply_oob_override override_redfish_options
new_oob o h = elim (Bool-cases (is_empty o.target_address)) [
  | inl p ↦ rw (h, p) (rw (is_empty-eq o.target_address p) (eq_refl ""))
  | inr p ↦ rw (h, p) (eq_refl o.target_address)
]

new_ib :
    (o : NodeOverride)
    → str_eq (apply_ib_override o new_configuration).entity.host_address o.target_address ≡ true
unfolding apply_ib_override
new_ib o = elim (Bool-cases (is_empty o.target_address)) [
  | inl p ↦ rw p (rw (is_empty-eq o.target_address p) (eq_refl ""))
  | inr p ↦ rw p (eq_refl o.target_address)
]

targets_at :
    (o : NodeOverride) (c : EntityConfiguration) {t : Bool}
    → is_oob_backend o.backend ≡ t
    → targets o c ≡ (
        if t
        then str_eq c.redfish_options.target_address o.target_address
        else str_eq c.entity.host_address o.target_address)
targets_at o c h = rw h refl

targets_oob :
    (o : NodeOverride)
    → is_oob_backend o.backend ≡ true
    → targets o ≡ (λ c. str_eq c.redfish_options.target_address o.target_address)
targets_oob o h = λ i c. targets_at o c h i

targets_ib :
    (o : NodeOverride)
    → is_oob_backend o.backend ≡ false
    → targets o ≡ (λ c. str_eq c.entity.host_address o.target_address)
targets_ib o h = λ i c. targets_at o c h i

-- After an override, every configuration for its address has its backend as the default, there is
-- one at least, and the configurations for other addresses are the same, in the same order.
pub apply_node_override-IsOverridden :
    (o : NodeOverride) (cs : List EntityConfiguration)
    → IsOverridden o cs (apply_node_override o cs)
unfolding apply_node_override
apply_node_override-IsOverridden o cs = elim (Bool-cases (is_oob_backend o.backend)) [
  | inl h ↦ rw h (
      rw (targets_oob o h)
        (finished _ _ _ cs (λ c e. (oob_targets-lem o c h e, refl)) (new_oob o h) refl))
  | inr h ↦ rw h (
      rw (targets_ib o h) (finished _ _ _ cs (λ c e. (ib_targets-lem o c e, refl)) (new_ib o) refl))
]
