-- ===== src/DutInfo/Registration.antt =====
-- The ids that a DutInfo gives to what is registered with it.
use ocp_diag_core_cpp.Base.{ℕ, ◌+◌, String, ◌≡◌, refl, List, [], ◌∷◌, snoc, map, arith}
use ocp_diag_core_cpp.Outcome.{Result, ok, crash}
use ocp_diag_core_cpp.Outcome.Action.{Action, ◌>>=◌, ◌>>◌, pure, and_then, blocks}
use ocp_diag_core_cpp.IntIncrementer.{next}
use ocp_diag_core_cpp.Platform.{Platform}
use ocp_diag_core_cpp.Model.Input.{HardwareInfo, SoftwareInfo, PlatformInfo}
use ocp_diag_core_cpp.Model.Output.{HardwareInfoOutput, SoftwareInfoOutput}
use ocp_diag_core_cpp.DutInfo.{
  DutInfo, add_hardware_info, add_software_info, add_platform_info, set_metadata_json,
}

-- the calls that fill a DutInfo
pub data Registration : Type 0 where
  hardware : HardwareInfo → Registration
  software : SoftwareInfo → Registration
  platform : PlatformInfo → Registration
  metadata : String → Registration

abbrev hardware_ids : DutInfo → List String
hardware_ids d = map (λ h. h.hardware_info_id) d.hardware_infos

abbrev software_ids : DutInfo → List String
software_ids d = map (λ s. s.software_info_id) d.software_infos

module _ ⦃P : Platform⦄ where
  open P use {str_cat}

  -- ids that are the numbers from `k` to below `n`, in order
  abbrev CountsUp : ℕ → List String → ℕ → Type 0
  CountsUp k [] n = k ≡ n
  CountsUp k (id ∷ ids) n = (id ≡ str_cat k) × CountsUp (k + 1) ids n

  -- Infos have the numbers from 0 on as ids, in the order of their registration.
  abbrev pub IsRegistered : DutInfo → Type 0
  IsRegistered d =
      CountsUp 0 (hardware_ids d) d.hardware_info_id
      × CountsUp 0 (software_ids d) d.software_info_id

  hardware-CountsUp :
      (k : ℕ) (hs : List HardwareInfoOutput) (n : ℕ) (h : HardwareInfo)
      → CountsUp k (map (λ h. h.hardware_info_id) hs) n
      → CountsUp k
          (map
            (λ h. h.hardware_info_id)
            (snoc hs (record { info = h; hardware_info_id = str_cat n })))
          (n + 1)
  hardware-CountsUp k [] n h e = rw e (refl, refl)
  hardware-CountsUp k (x ∷ hs) n h e = (e.0, hardware-CountsUp (k + 1) hs n h e.1)

  software-CountsUp :
      (k : ℕ) (ss : List SoftwareInfoOutput) (n : ℕ) (s : SoftwareInfo)
      → CountsUp k (map (λ s. s.software_info_id) ss) n
      → CountsUp k
          (map
            (λ s. s.software_info_id)
            (snoc ss (record { info = s; software_info_id = str_cat n })))
          (n + 1)
  software-CountsUp k [] n s e = rw e (refl, refl)
  software-CountsUp k (x ∷ ss) n s e = (e.0, software-CountsUp (k + 1) ss n s e.1)

  unfoldable pub register : Registration → Action DutInfo (Unit {0})
  register (Registration.hardware h) = do _ ← add_hardware_info h; pure tt
  register (Registration.software s) = do _ ← add_software_info s; pure tt
  register (Registration.platform p) = add_platform_info p
  register (Registration.metadata json) = set_metadata_json json

  unfoldable pub register_all : List Registration → Action DutInfo (Unit {0})
  register_all [] = pure tt
  register_all (c ∷ cs) = register c >> register_all cs

  register-IsRegistered :
      (c : Registration) (d : DutInfo) → IsRegistered d → IsRegistered (register c d).1
  unfolding register add_hardware_info add_software_info add_platform_info set_metadata_json next
      blocks
  register-IsRegistered (Registration.hardware h) d e =
      ground (arith, hardware-CountsUp 0 d.hardware_infos d.hardware_info_id h e.0)
  register-IsRegistered (Registration.software s) d e =
      ground (arith, software-CountsUp 0 d.software_infos d.software_info_id s e.1)
  register-IsRegistered (Registration.platform p) d e = ground arith
  register-IsRegistered (Registration.metadata json) d e = e

  then-IsRegistered :
      (r : Result (Unit {0}) × DutInfo) (m : Action DutInfo (Unit {0}))
      → IsRegistered r.1
      → ((d : DutInfo) → IsRegistered d → IsRegistered (m d).1)
      → IsRegistered (and_then r (λ done. m)).1
  then-IsRegistered (ok done, d) m e h = h d e
  then-IsRegistered (crash c, d) m e h = e

  -- Whatever is registered, and wherever a registration dies, the hardware infos carry the numbers
  -- from 0 on as ids, in the order of their registration, and so do the software infos.
  pub register_all-IsRegistered :
      (cs : List Registration) (d : DutInfo) → IsRegistered d → IsRegistered (register_all cs d).1
  unfolding register_all blocks
  register_all-IsRegistered [] d e = e
  register_all-IsRegistered (c ∷ cs) d e =
      then-IsRegistered (register c d) (register_all cs) (register-IsRegistered c d e)
        (register_all-IsRegistered cs)
