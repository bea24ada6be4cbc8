-- ===== src/Hardware/Storage/Devices.antt =====
-- The answer about storage has one part for each device that smartctl finds, and the security level
-- does not hang on the order of a map.
use mathlib.Core.List.{Memᴰ}
use ocp_diag_core_cpp.Base.{
  ℤ, pos, String, Bool, true, false, Option, some, List, [], ◌∷◌, All, ◌≡◌, refl, ap, sym, ◌∙◌,
  Bool-cases, inl, inr,
}
use ocp_diag_core_cpp.Hardware.Status.{StatusOr, ◌>>=◌, value, error, thrown, undefined, value-inj}
use ocp_diag_core_cpp.Hardware.Host.{HostAdapter, ◌>>=?◌}
use ocp_diag_core_cpp.Hardware.Cpu.Info.{info_type_have}
use ocp_diag_core_cpp.Hardware.Cpu.Renumbering.{All2}
use ocp_diag_core_cpp.Hardware.Storage.{Json, SecurityLevel, StorageInfo}
use ocp_diag_core_cpp.Hardware.Storage.Gather.{
  Levels, find_level, optional_if, query_smartctl, device_name, storage_info, storage_parts,
  kernel_name_of, with_kernel_name, storage_infos, get_storage_info,
}

>>=?-value :
    {A B W : Type 0} (r : StatusOr A × W) (next : A → W → StatusOr B × W) {b : B} {w : W}
    → (r >>=? next) ≡ (value b, w)
    → (a : A) × (v : W) × (r ≡ (value a, v)) × (next a v ≡ (value b, w))
>>=?-value (value a, v) next h = (a, v, refl, h)
>>=?-value (error code, v) next h = cc
>>=?-value (thrown, v) next h = cc
>>=?-value (undefined, v) next h = cc

optional_if-value :
    {A W : Type 0} (asked : Bool) (read : W → StatusOr A × W) {w v : W} {o : Option A}
    → asked ≡ true
    → optional_if asked read w ≡ (value o, v)
    → (a : A) × (read w ≡ (value a, v)) × (o ≡ some a)
optional_if-value true read {w} on h =
    let (a, u, is, same) = >>=?-value (read w) _ h in
    (a, is ∙ ap (λ r. (value a, r.1)) same, sym (value-inj (ap (λ r. r.0) same)))
optional_if-value false read on h = cc

-- Where a text has the keyword of one level of the map only, the level that is found is this one,
-- in whatever order the map is read.
find_level-only :
    (str_contains : String → String → Bool) (text : String) (levels : Levels)
    (only : String × SecurityLevel)
    → Memᴰ only levels
    → str_contains text only.0 ≡ true
    → All (λ (e : String × SecurityLevel). str_contains text e.0 ≡ true → e.1 ≡ only.1) levels
    → find_level str_contains text levels ≡ only.1
unfolding find_level
find_level-only str_contains text [] only there here others = elim there [ ]
find_level-only str_contains text (e ∷ es) only (Memᴰ.head same) here others =
    rw (← same, here) refl
find_level-only str_contains text (e ∷ es) only (Memᴰ.tail there) here others =
    elim (Bool-cases (str_contains text e.0)) [
      | inl found ↦ rw found (others.0 found)
      | inr absent ↦ rw absent (find_level-only str_contains text es only there here others.1)
    ]

module _ {J W : Type 0} (json : Json J) (host : HostAdapter W)
    (str_contains : String → String → Bool) (levels : Levels) where
  -- the part of an answer about a device has the name of the device
  abbrev pub IsNamedAfter : StorageInfo → J → Type 0
  IsNamedAfter info device =
      (name : String) × ((json.const_at device "name" >>= json.get_string) ≡ value name)
      × (info.kernel_name ≡ some name)

  storage_info-IsNamedAfter :
      (info_types : List ℤ) (device : J) (w : W) {info : StorageInfo} {v : W}
      → info_type_have info_types (pos 2) ≡ true
      → storage_info json host str_contains levels info_types device w ≡ (value info, v)
      → IsNamedAfter info device
  unfolding storage_info
  storage_info-IsNamedAfter info_types device w {info} asked h =
      let (kernel_name, u, named, h₁) =
        >>=?-value (kernel_name_of json host str_contains levels info_types device w)
          (with_kernel_name json host str_contains levels info_types device) h in
      let (parts, v, is, h₂) =
        >>=?-value (storage_parts json host str_contains levels info_types device u)
          (λ parts v. (value (record parts { kernel_name = kernel_name }), v)) h₁ in
      let (name, read, same) =
        optional_if-value (info_type_have info_types (pos 2))
          (λ w. (device_name json host str_contains levels device, w)) asked named in
      (
        name,
        ap (λ r. r.0) read,
        sym (ap (λ (i : StorageInfo). i.kernel_name) (value-inj (ap (λ r. r.0) h₂))) ∙ same,
      )

  storage_infos-IsNamedAfter :
      (info_types : List ℤ) (devices : List J) (w : W) {infos : List StorageInfo} {v : W}
      → info_type_have info_types (pos 2) ≡ true
      → storage_infos json host str_contains levels info_types devices w ≡ (value infos, v)
      → All2 IsNamedAfter infos devices
  unfolding storage_infos
  storage_infos-IsNamedAfter info_types [] w asked h = rw (← value-inj (ap (λ r. r.0) h)) tt
  storage_infos-IsNamedAfter info_types (device ∷ devices) w {infos} asked h =
      let (info, u, is, h₁) =
        >>=?-value (storage_info json host str_contains levels info_types device w)
          (λ info w.
            storage_infos json host str_contains levels info_types devices w >>=? λ infos w.
            (value (info ∷ infos), w))
          h in
      let (more, v, are, h₂) =
        >>=?-value (storage_infos json host str_contains levels info_types devices u)
          (λ infos w. (value (info ∷ infos), w)) h₁ in
      rw (← value-inj {b = infos} (ap (λ r. r.0) h₂)) (
        storage_info-IsNamedAfter info_types device w asked is,
        storage_infos-IsNamedAfter info_types devices u asked are,
      )

  -- Where the system info is asked for, an answer about storage comes from a scan by smartctl and
  -- has one part for each device of the scan, in their order, with the name of the device.
  pub get_storage_info-IsNamedAfter :
      (info_types : List ℤ) (w v : W) (infos : List StorageInfo)
      → info_type_have info_types (pos 2) ≡ true
      → get_storage_info json host str_contains levels info_types w ≡ (value infos, v)
      → (scan_result : J) × (u : W) × (devices : J) × (query_smartctl json host str_contains levels
            ("/usr/sbin/smartctl" ∷ "--json" ∷ "--scan" ∷ [])
            w
          ≡ (value scan_result, u))
        × (json.at scan_result "devices" ≡ value devices)
        × All2 IsNamedAfter infos (json.elements devices)
  unfolding get_storage_info
  get_storage_info-IsNamedAfter info_types w v infos asked h =
      let (scan_result, u, scanned, h₁) =
        >>=?-value
          (query_smartctl json host str_contains levels
            ("/usr/sbin/smartctl" ∷ "--json" ∷ "--scan" ∷ []) w)
          (λ scan_result w. (json.at scan_result "devices", w) >>=? λ devices w.
            storage_infos json host str_contains levels info_types (json.elements devices) w)
          h in
      let (devices, u', found, h₂) =
        >>=?-value (json.at scan_result "devices", u)
          (λ devices w.
            storage_infos json host str_contains levels info_types (json.elements devices) w)
          h₁ in
      (
        scan_result,
        u,
        devices,
        scanned,
        ap (λ r. r.0) found,
        storage_infos-IsNamedAfter info_types (json.elements devices) u' asked h₂,
      )
