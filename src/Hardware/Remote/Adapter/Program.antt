-- ===== src/Hardware/Remote/Adapter/Program.antt =====
-- The program that a host adapter for an address runs.
use text.Mathlib.Text.{◌==◌ as str_eq}
use ocp_diag_core_cpp.Base.{
  String, is_empty, Bool, true, false, ◌&&◌, Option, none, some, List, [], ◌∷◌, ◌≡◌, refl, arith,
  Bool-cases, inl, inr, ◌⊎◌, eq_iff, ap, sym, ◌∙◌,
}
use ocp_diag_core_cpp.Hardware.Status.{StatusOr, value, >>=-eq-value, value-inj}
use ocp_diag_core_cpp.Hardware.Polling.{some-inj}
use ocp_diag_core_cpp.Hardware.Remote.{
  Connection, ConnectionTypes, Environment, is_ssh_path, has_ssh, new_conn, by_connection_type,
  connection_type, with_path, with_program,
}
use ocp_diag_core_cpp.Hardware.Remote.Path.{terminated, first_ssh, get_ssh_path-first}
use ocp_diag_core_cpp.Hardware.Remote.Adapter.{
  Adapter, remote, create_adapter, create_remote, as_remote,
}

is_ssh_path-either :
    (path : String) → is_ssh_path path ≡ true → (path ≡ "/bin/ssh") ⊎ (path ≡ "/usr/bin/ssh")
is_ssh_path-either path h = elim (Bool-cases (str_eq path "/bin/ssh")) [
  | inl bin ↦ inl ((eq_iff path "/bin/ssh").0 bin)
  | inr other ↦ inr ((eq_iff path "/usr/bin/ssh").0 (sym (rw other refl) ∙ h))
]

and-true : (a b : Bool) → (a && b) ≡ true → (a ≡ true) × (b ≡ true)
and-true true b h = (refl, h)
and-true false b h = cc

module _ (ascii_str_to_lower : String → String) (append_path : String → String → String)
    (exists : String → Bool) where
  -- one of the two ssh programs, which exists
  abbrev IsProgram : String → Type 0
  IsProgram program =
      ((program ≡ "/bin/ssh") ⊎ (program ≡ "/usr/bin/ssh")) × (exists program ≡ true)

  -- a connection to the address, over an ssh program
  abbrev pub IsSshTo : String → Connection → Type 0
  IsSshTo address c = (c.address ≡ address) × IsProgram c.ssh_bin_path

  first_ssh-IsProgram :
      (ds : List String) {program : String}
      → first_ssh append_path exists ds ≡ value program
      → IsProgram program
  first_ssh-IsProgram [] h = cc
  first_ssh-IsProgram (d ∷ ds) h = elim (Bool-cases (has_ssh append_path exists d)) [
    | inl here ↦
        let same = value-inj (sym (rw here refl) ∙ h) in
        let both =
          and-true (is_ssh_path (append_path d "ssh")) (exists (append_path d "ssh")) here in
        rw (← same) (is_ssh_path-either (append_path d "ssh") both.0, both.1)
    | inr other ↦ first_ssh-IsProgram ds (sym (rw other refl) ∙ h)
  ]

  with_path-IsSshTo :
      (env : Environment) (address : String) (path : Option String) {c : Connection}
      → with_path ascii_str_to_lower append_path exists env address path ≡ some (value c)
      → IsSshTo address c
  with_path-IsSshTo env address none h = ground arith
  with_path-IsSshTo env address (some path_env) h =
      let found = get_ssh_path-first append_path exists path_env in
      let r = first_ssh append_path exists (terminated path_env) in
      let (program, made, is) = >>=-eq-value r _ (
        some-inj
          (sym (ap (with_program ascii_str_to_lower append_path exists env address) found) ∙ h)) in
      let same = value-inj made in
      (sym (ap (λ c. c.address) same), rw (← same) (first_ssh-IsProgram (terminated path_env) is))

  by_connection_type-IsSshTo :
      (env : Environment) (address : String) (type : Option ConnectionTypes) {c : Connection}
      → by_connection_type ascii_str_to_lower append_path exists env address type ≡ some (value c)
      → IsSshTo address c
  by_connection_type-IsSshTo env address none h = ground arith
  by_connection_type-IsSshTo env address (some type) h = with_path-IsSshTo env address env.path h

  as_remote-value :
      (made : Option (StatusOr Connection)) {a : Adapter}
      → as_remote ascii_str_to_lower append_path exists made ≡ some (value a)
      → (c : Connection) × (made ≡ some (value c)) × (a ≡ remote c)
  as_remote-value none h = cc
  as_remote-value (some r) h =
      let (c, same, is) = >>=-eq-value r _ (some-inj h) in (c, ap some is, sym (value-inj same))

  -- A host adapter for an address that is not empty is a connection to this address over one of the
  -- two ssh programs, and that program exists.
  pub create_adapter-IsSshTo :
      (env : Environment) (address : String) (a : Adapter)
      → is_empty address ≡ false
      → create_adapter ascii_str_to_lower append_path exists env address ≡ some (value a)
      → (c : Connection) × (a ≡ remote c) × IsSshTo address c
  unfolding create_adapter create_remote new_conn
  create_adapter-IsSshTo env address a full h =
      let type = connection_type (ascii_str_to_lower env.mi_connection_type) in
      let (c, made, same) =
        as_remote-value (by_connection_type ascii_str_to_lower append_path exists env address type)
          (sym (rw full refl) ∙ h) in
      (c, same, by_connection_type-IsSshTo env address type made)
