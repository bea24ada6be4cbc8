-- ===== src/Hardware/Cpu/Info/Requested.antt =====
-- The topology of a response: filled from the gathered topology if it is asked for, by no other part.
use ocp_diag_core_cpp.Base.{
  ◌≤◌, ℤ, String, Bool, true, false, Option, none, some, List, [], ◌∷◌, ◌≡◌, refl, ap, sym, ◌∙◌,
}
use ocp_diag_core_cpp.Hardware.Status.{StatusOr, value, error, thrown, undefined, value-inj}
use ocp_diag_core_cpp.Hardware.Host.{HostAdapter, Outcome, ◌>>=?◌}
use ocp_diag_core_cpp.Hardware.Cpu.{CpuLpu, CpuTopology, new_topology}
use ocp_diag_core_cpp.Hardware.Cpu.Gather.{topology_gather}
use ocp_diag_core_cpp.Hardware.Cpu.Counts.{IsCounted, topology_gather-IsCounted}
use ocp_diag_core_cpp.Hardware.Cpu.Signature.{CpuInfoText, CpuSignature, CpuFrequency}
use ocp_diag_core_cpp.Hardware.Cpu.Info.{
  InfoType, Info, Topology, Call, set_topology, set_signature, set_lpu_info, over_lpus, each_lpu,
  lpus_of,
}
use ocp_diag_core_cpp.Hardware.Cpu.Info.Steps.{
  set_lpu_identifier, set_socket_identifier, set_package_identifier, keep_topology, keep_signature,
  gather_topology, gather_signature, keep_frequency, gather_frequencies, keep_throttle,
  gather_throttles,
}
use ocp_diag_core_cpp.Hardware.Cpu.Info.Sections.{
  when_asked, fill, start_call, with_topology, topology_part, asked, other_parts, get_cpu_info,
}

module _ {W : Type 0} where
  -- If a step succeeds, the topology of its response is `x`.
  abbrev Keeps : Option Topology → StatusOr Call × W → Type 0
  Keeps x r = (c : Call) → r.0 ≡ value c → c.info.topology ≡ x

  abbrev Stays : (Call → W → StatusOr Call × W) → Type 0
  Stays step = (x : Option Topology) (c : Call) (w : W) → c.info.topology ≡ x → Keeps x (step c w)

  bind-Keeps :
      {A : Type 0} (x : Option Topology) (r : StatusOr A × W) (next : A → W → StatusOr Call × W)
      → ((a : A) (w : W) → r.0 ≡ value a → Keeps x (next a w))
      → Keeps x (r >>=? next)
  bind-Keeps x (undefined, w) next h = λ c e. cc
  bind-Keeps x (thrown, w) next h = λ c e. cc
  bind-Keeps x (error code, w) next h = λ c e. cc
  bind-Keeps x (value a, w) next h = h a w refl

  value-Keeps :
      (x : Option Topology) (c : Call) (w : W) → c.info.topology ≡ x → Keeps x (value c, w)
  value-Keeps x c w h d e = ap (λ y. y.info.topology) (sym (value-inj e)) ∙ h

  then-Stays :
      (step next : Call → W → StatusOr Call × W)
      → Stays step
      → Stays next
      → Stays (λ c w. step c w >>=? next)
  then-Stays step next s t x c w h = bind-Keeps x (step c w) next (λ d v e. t x d v (s x c w h d e))

  when_asked-Stays :
      (b : Bool) (step : Call → W → StatusOr Call × W) → Stays step → Stays (when_asked b step)
  when_asked-Stays false step s x c w h = value-Keeps x c w h
  when_asked-Stays true step s x c w h = s x c w h

  fill-Stays :
      (set : Call → Call)
      → ((c : Call) → (set c).info.topology ≡ c.info.topology)
      → Stays (fill set)
  fill-Stays set s x c w h = value-Keeps x (set c) w (s c ∙ h)

  keep_topology-Keeps :
      (x : Option Topology) (c : Call) (r : Outcome (Unit {0}) CpuTopology W)
      → c.info.topology ≡ x
      → Keeps x (keep_topology c r)
  keep_topology-Keeps x c (value okay, t, w) h = value-Keeps x _ w h
  keep_topology-Keeps x c (error code, t, w) h = λ d e. cc
  keep_topology-Keeps x c (thrown, t, w) h = λ d e. cc
  keep_topology-Keeps x c (undefined, t, w) h = λ d e. cc

  keep_signature-Keeps :
      (x : Option Topology) (c : Call) (r : Outcome (Unit {0}) CpuSignature W)
      → c.info.topology ≡ x
      → Keeps x (keep_signature c r)
  keep_signature-Keeps x c (value okay, t, w) h = value-Keeps x _ w h
  keep_signature-Keeps x c (error code, t, w) h = λ d e. cc
  keep_signature-Keeps x c (thrown, t, w) h = λ d e. cc
  keep_signature-Keeps x c (undefined, t, w) h = λ d e. cc

  keep_frequency-Keeps :
      (x : Option Topology) (lpu : CpuLpu) (c : Call) (r : Outcome (Unit {0}) CpuFrequency W)
      → c.info.topology ≡ x
      → Keeps x (keep_frequency lpu c r)
  keep_frequency-Keeps x lpu c (value okay, t, w) h = value-Keeps x _ w h
  keep_frequency-Keeps x lpu c (error code, t, w) h = λ d e. cc
  keep_frequency-Keeps x lpu c (thrown, t, w) h = λ d e. cc
  keep_frequency-Keeps x lpu c (undefined, t, w) h = λ d e. cc

each_lpu-topology :
    (set : CpuLpu → Call → Call) (lpus : List CpuLpu) (c : Call)
    → ((lpu : CpuLpu) (d : Call) → (set lpu d).info.topology ≡ d.info.topology)
    → (each_lpu set lpus c).info.topology ≡ c.info.topology
each_lpu-topology set [] c s = refl
each_lpu-topology set (lpu ∷ lpus) c s = each_lpu-topology set lpus (set lpu c) s ∙ s lpu c

over_lpus-Stays :
    {W : Type 0} (set : CpuLpu → Call → Call)
    → ((lpu : CpuLpu) (d : Call) → (set lpu d).info.topology ≡ d.info.topology)
    → Stays {W = W} (fill (over_lpus set))
over_lpus-Stays set s =
    fill-Stays (over_lpus set) (λ c. each_lpu-topology set (lpus_of c.topology.numa_nodes) c s)

module _ {W : Type 0} (simple_atoi : String → Option ℤ) (host : HostAdapter W) where
  gather_frequencies-Stays : (lpus : List CpuLpu) → Stays (gather_frequencies simple_atoi host lpus)
  unfolding gather_frequencies
  gather_frequencies-Stays [] x c w h = value-Keeps x c w h
  gather_frequencies-Stays (lpu ∷ lpus) x c w h =
      bind-Keeps x _ _
        (λ d v e. gather_frequencies-Stays lpus x d v (keep_frequency-Keeps x lpu c _ h d e))

  gather_throttles-Stays : (lpus : List CpuLpu) → Stays (gather_throttles simple_atoi host lpus)
  unfolding gather_throttles
  gather_throttles-Stays [] x c w h = value-Keeps x c w h
  gather_throttles-Stays (lpu ∷ lpus) x c w h = bind-Keeps x _ _ (λ d v e.
      gather_throttles-Stays lpus x d v
        (bind-Keeps x _ (keep_throttle lpu c) (λ count u f. value-Keeps x _ u h) d e))

-- A response has a topology if and only if it was asked for; its largest socket has no more logical
-- cores than the host.
abbrev pub HasTopology : Bool → Info → Type 0
HasTopology false info = info.topology ≡ none
HasTopology true info =
    (t : Topology) × (info.topology ≡ some t) × (t.logical_cores_max ≤ t.logical_cores_enabled)

same_topology :
    (b : Bool) (i j : Info) → j.topology ≡ i.topology → HasTopology b i → HasTopology b j
same_topology false i j e h = e ∙ h
same_topology true i j e h = (h.0, e ∙ h.1, h.2)

module _ {W : Type 0} (format : ℤ → String) (simple_atoi : String → Option ℤ)
    (str_split : String → String → List String) (text : CpuInfoText) (host : HostAdapter W) where
  with_topology-Stays :
      (step : Call → W → StatusOr Call × W)
      → Stays step
      → Stays (with_topology format simple_atoi str_split text host step)
  unfolding gather_topology
  with_topology-Stays step s x c w h =
      bind-Keeps x (gather_topology simple_atoi str_split host c w) step
        (λ d v e. s x d v (keep_topology-Keeps x c _ h d e))

  signature-Stays :
      (set : Call → Call)
      → ((c : Call) → (set c).info.topology ≡ c.info.topology)
      → Stays (λ c w. gather_signature text host c w >>=? fill set)
  unfolding gather_signature
  signature-Stays set s x c w h =
      bind-Keeps x (gather_signature text host c w) (fill set)
        (λ d v e. fill-Stays set s x d v (keep_signature-Keeps x c _ h d e))

  other_parts-Stays :
      (info_types : List ℤ) → Stays (other_parts format simple_atoi str_split text host info_types)
  unfolding other_parts set_lpu_identifier set_socket_identifier set_package_identifier
  other_parts-Stays info_types =
      then-Stays _ _
        (then-Stays _ _
          (then-Stays _ _
            (then-Stays _ _
              (then-Stays _ _
                (then-Stays _ _
                  (when_asked-Stays (asked info_types InfoType.signature) _
                    (signature-Stays set_signature (λ c. refl)))
                  (when_asked-Stays (asked info_types InfoType.lpu_info) _ (
                    with_topology-Stays _ (
                      signature-Stays (over_lpus set_lpu_info) (λ c.
                        each_lpu-topology set_lpu_info (lpus_of c.topology.numa_nodes) c
                          (λ lpu d. refl))))))
                (when_asked-Stays (asked info_types InfoType.frequency) _ (
                  with_topology-Stays _ (λ x c.
                    gather_frequencies-Stays simple_atoi host (lpus_of c.topology.numa_nodes) x
                      c))))
              (when_asked-Stays (asked info_types InfoType.throttle_info) _ (
                with_topology-Stays _ (λ x c.
                  gather_throttles-Stays simple_atoi host (lpus_of c.topology.numa_nodes) x c))))
            (when_asked-Stays (asked info_types InfoType.lpu_identifier) _ (
              with_topology-Stays _ (over_lpus-Stays (set_lpu_identifier format) (λ lpu d. refl)))))
          (when_asked-Stays (asked info_types InfoType.socket_identifier) _ (
            with_topology-Stays _
              (over_lpus-Stays (set_socket_identifier format) (λ lpu d. refl)))))
        (when_asked-Stays (asked info_types InfoType.package_identifier) _
          (with_topology-Stays _ (over_lpus-Stays (set_package_identifier format) (λ lpu d. refl))))

  filled :
      (r : Outcome (Unit {0}) CpuTopology W) (c : Call)
      → (r.0 ≡ value tt → IsCounted r.1)
      → (keep_topology start_call r >>=? fill set_topology).0 ≡ value c
      → (t : Topology) × (c.info.topology ≡ some t)
        × (t.logical_cores_max ≤ t.logical_cores_enabled)
  filled (value okay, t, w) c counted h =
      (_, ap (λ y. y.info.topology) (sym (value-inj h)), (counted refl).1)
  filled (error code, t, w) c counted h = cc
  filled (thrown, t, w) c counted h = cc
  filled (undefined, t, w) c counted h = cc

  topology-asked :
      (w : W) (c : Call)
      → (topology_part format simple_atoi str_split text host start_call w).0 ≡ value c
      → (t : Topology) × (c.info.topology ≡ some t)
        × (t.logical_cores_max ≤ t.logical_cores_enabled)
  unfolding gather_topology
  topology-asked w c h =
      filled (topology_gather simple_atoi str_split host new_topology w) c
        (topology_gather-IsCounted simple_atoi str_split host w) h

  finish_value :
      (r : StatusOr Call × W) (info : Info)
      → (r >>=? λ c w. (value c.info, w)).0 ≡ value info
      → (c : Call) × (r.0 ≡ value c) × (c.info ≡ info)
  finish_value (value c, w) info h = (c, refl, value-inj h)
  finish_value (error code, w) info h = cc
  finish_value (thrown, w) info h = cc
  finish_value (undefined, w) info h = cc

  first_part :
      (b : Bool) (w : W) (c : Call)
      → (when_asked b (topology_part format simple_atoi str_split text host) start_call w).0
        ≡ value c
      → HasTopology b c.info
  first_part false w c h = ap (λ y. y.info.topology) (sym (value-inj h))
  first_part true w c h = topology-asked w c h

  bind_value :
      (r : StatusOr Call × W) (next : Call → W → StatusOr Call × W) (c : Call)
      → (r >>=? next).0 ≡ value c
      → (a : Call) × (v : W) × (r.0 ≡ value a) × ((next a v).0 ≡ value c)
  bind_value (value a, w) next c h = (a, w, refl, h)
  bind_value (error code, w) next c h = cc
  bind_value (thrown, w) next c h = cc
  bind_value (undefined, w) next c h = cc

  -- A response of GetCpuInfo has a topology if it was asked for, with no more logical cores in its
  -- largest socket than in all; and it has none if it was not asked for.
  pub get_cpu_info-HasTopology :
      (info_types : List ℤ) (w : W) (info : Info)
      → (get_cpu_info format simple_atoi str_split text host info_types w).0 ≡ value info
      → HasTopology (asked info_types InfoType.topology) info
  unfolding get_cpu_info
  get_cpu_info-HasTopology info_types w info h =
      let finished = finish_value _ info h in
      let first =
        bind_value
          (when_asked (asked info_types InfoType.topology)
            (topology_part format simple_atoi str_split text host) start_call w)
          (other_parts format simple_atoi str_split text host info_types) finished.0 finished.1 in
      let kept =
        other_parts-Stays info_types first.0.info.topology first.0 first.1 refl finished.0
          first.3 in
      same_topology (asked info_types InfoType.topology) first.0.info info
        (ap (λ i. i.topology) (sym finished.2) ∙ kept)
        (first_part (asked info_types InfoType.topology) w first.0 first.2)
