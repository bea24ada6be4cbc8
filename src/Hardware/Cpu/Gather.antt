-- ===== src/Hardware/Cpu/Gather.antt =====
-- ocpdiag/core/hwinterface/backends/host/cpu.cc: the gathering of the processors from the files of the
-- host. Each object keeps the result of its first gathering; one that fails keeps what it had read.
use ocp_diag_core_cpp.Base.{ℕ, ℤ, pos, String, Option, none, some, List, [], ◌∷◌, snoc}
use ocp_diag_core_cpp.Hardware.Status.{Code, StatusOr, value, error, thrown, undefined}
use ocp_diag_core_cpp.Hardware.Host.{File, HostAdapter, Outcome, ◌>>=?◌, with_read, gather_once}
use ocp_diag_core_cpp.Hardware.Host.RangeList.{parse_range_list}
use ocp_diag_core_cpp.Hardware.Cpu.{
  CpuLpu, new_lpu, CpuNumaNode, new_node, CpuTopology, add_lpu, finish_topology, index_of,
}

abbrev integer_or_fail : {W : Type 0} → Option ℤ → W → StatusOr ℤ × W
integer_or_fail none w = (error Code.internal, w)
integer_or_fail (some n) w = (value n, w)

-- Any error becomes an internal one.
abbrev list_or_fail : StatusOr (List ℤ) → StatusOr (List ℤ)
list_or_fail (value ns) = value ns
list_or_fail (error code) = error Code.internal
list_or_fail thrown = thrown
list_or_fail undefined = undefined

abbrev thread_or_fail : {W : Type 0} → CpuLpu → Option ℕ → W → Outcome (Unit {0}) CpuLpu W
thread_or_fail lpu none w = (error Code.internal, lpu, w)
thread_or_fail lpu (some n) w = (value tt, record lpu { thread_id = pos n }, w)

-- `RETURN_IF_ERROR` of the gathering of a part of the object `o`
abbrev pub with_part :
    {P O W : Type 0}
    → O
    → Outcome (Unit {0}) P W
    → (P → W → Outcome (Unit {0}) O W)
    → Outcome (Unit {0}) O W
with_part o (undefined, p, w) next = (undefined, o, w)
with_part o (thrown, p, w) next = (thrown, o, w)
with_part o (error code, p, w) next = (error code, o, w)
with_part o (value okay, p, w) next = next p w

-- `RETURN_IF_ERROR` of a loop over the object itself
abbrev pub after_loop :
    {O W : Type 0}
    → Outcome (Unit {0}) O W
    → (O → W → Outcome (Unit {0}) O W)
    → Outcome (Unit {0}) O W
after_loop (undefined, o, w) next = (undefined, o, w)
after_loop (thrown, o, w) next = (thrown, o, w)
after_loop (error code, o, w) next = (error code, o, w)
after_loop (value okay, o, w) next = next o w

abbrev pub parse_integer_file :
    {W : Type 0} → (String → Option ℤ) → HostAdapter W → File → W → StatusOr ℤ × W
parse_integer_file simple_atoi host path w =
    host.read path w >>=? λ text. integer_or_fail (simple_atoi text)

module _ {W : Type 0} (simple_atoi : String → Option ℤ) (str_split : String → String → List String)
    (host : HostAdapter W) where
  unfoldable pub parse_range_list_file : File → W → StatusOr (List ℤ) × W
  unfolding parse_range_list
  parse_range_list_file path w = host.read path w >>=? λ text w.
      (list_or_fail (parse_range_list simple_atoi str_split text), w)

  unfoldable pub lpu_do_real_gather : CpuLpu → W → Outcome (Unit {0}) CpuLpu W
  unfolding parse_range_list_file
  lpu_do_real_gather a w =
      with_read a (parse_integer_file simple_atoi host (File.physical_package_id a.cpu_id) w)
        λ socket w.
          let b : CpuLpu = record a { socket_id = socket } in
          with_read b (parse_integer_file simple_atoi host (File.die_id b.cpu_id) w) λ die w.
            let c : CpuLpu = record b { die_id = die } in
            with_read c (parse_integer_file simple_atoi host (File.core_id c.cpu_id) w) λ core w.
              let d : CpuLpu = record c { core_id = core } in
              with_read d (parse_range_list_file (File.thread_siblings_list d.cpu_id) w)
                λ siblings w. thread_or_fail d (index_of d.cpu_id siblings) w

  unfoldable pub lpu_gather : CpuLpu → W → Outcome (Unit {0}) CpuLpu W
  unfolding lpu_do_real_gather
  lpu_gather lpu w =
      gather_once lpu.result (λ result lpu. record lpu { result = some result }) lpu_do_real_gather
        lpu w

  unfoldable pub gather_lpus : List ℤ → CpuNumaNode → W → Outcome (Unit {0}) CpuNumaNode W
  unfolding lpu_gather
  gather_lpus [] node w = (value tt, node, w)
  gather_lpus (cpu_id ∷ cpu_ids) node w =
      with_part node (lpu_gather (new_lpu cpu_id node.numa_node_id) w)
        λ lpu. gather_lpus cpu_ids (add_lpu node lpu)

  unfoldable pub node_do_real_gather : CpuNumaNode → W → Outcome (Unit {0}) CpuNumaNode W
  unfolding parse_range_list_file gather_lpus
  node_do_real_gather node w =
      with_read node (parse_range_list_file (File.node_cpulist node.numa_node_id) w)
        λ cpu_ids. gather_lpus cpu_ids node

  unfoldable pub node_gather : CpuNumaNode → W → Outcome (Unit {0}) CpuNumaNode W
  unfolding node_do_real_gather
  node_gather node w =
      gather_once node.result (λ result node. record node { result = some result })
        node_do_real_gather node w

  unfoldable pub gather_nodes : List ℤ → CpuTopology → W → Outcome (Unit {0}) CpuTopology W
  unfolding node_gather
  gather_nodes [] t w = (value tt, t, w)
  gather_nodes (numa_id ∷ numa_ids) t w =
      with_part t (node_gather (new_node numa_id) w)
        λ node. gather_nodes numa_ids (record t { numa_nodes = snoc t.numa_nodes node })

  unfoldable pub topology_do_real_gather : CpuTopology → W → Outcome (Unit {0}) CpuTopology W
  unfolding parse_range_list_file gather_nodes finish_topology
  topology_do_real_gather t w = with_read t (parse_range_list_file File.node_online w) λ numa_ids w.
      after_loop (gather_nodes numa_ids t w) λ gathered w. (value tt, finish_topology gathered, w)

  unfoldable pub topology_gather : CpuTopology → W → Outcome (Unit {0}) CpuTopology W
  unfolding topology_do_real_gather
  topology_gather t w =
      gather_once t.result (λ result t. record t { result = some result }) topology_do_real_gather t
        w
