-- ===== src/Hardware/Cpu.antt =====
-- ocpdiag/core/hwinterface/backends/host/cpu.h and cpu.cc: the logical processors of a host, by NUMA
-- node. The ids are ints; a count of processors is a natural number, since it is bounded by the
-- length of a list.
pub mod Gather
pub mod Signature
pub mod Numbering
pub mod Renumbering
pub mod Counts
pub mod Info
use ocp_diag_core_cpp.Base.{
  ℕ, zero, suc, ◌+◌, ℤ, pos, eq_ℤ, ltb, String, Bool, true, false, Option, none, some, List, [],
  ◌∷◌, snoc, length, lookup, put, if◌then◌else◌,
}
use ocp_diag_core_cpp.Hardware.Status.{StatusOr}

pub record CpuLpu : Type 0 where
  pub cpu_id : ℤ
  pub socket_id : ℤ
  pub die_id : ℤ
  pub core_id : ℤ
  pub thread_id : ℤ
  pub numa_node_id : ℤ
  pub result : Option (StatusOr (Unit {0}))

abbrev pub new_lpu : ℤ → ℤ → CpuLpu
new_lpu cpu_id numa_node_id = record {
  cpu_id = cpu_id;
  socket_id = pos 0;
  die_id = pos 0;
  core_id = pos 0;
  thread_id = pos 0;
  numa_node_id = numa_node_id;
  result = none;
}

pub record CpuNumaNode : Type 0 where
  pub numa_node_id : ℤ
  pub physical_processing_unit_count : ℕ
  pub result : Option (StatusOr (Unit {0}))
  pub lpus : List CpuLpu

abbrev pub new_node : ℤ → CpuNumaNode
new_node numa_node_id = record {
  numa_node_id = numa_node_id;
  physical_processing_unit_count = 0;
  result = none;
  lpus = [];
}

pub record CpuTopology : Type 0 where
  pub result : Option (StatusOr (Unit {0}))
  pub numa_nodes : List CpuNumaNode
  pub socket_lpus_map : List (ℤ × List ℤ)

abbrev pub new_topology : CpuTopology
new_topology = record { result = none; numa_nodes = []; socket_lpus_map = [] }

abbrev pub IdMap : Type 0
IdMap = List (ℤ × ℤ)

abbrev or_added : ℤ → IdMap → Option ℤ → ℤ × IdMap
or_added id ids none = (pos 0, put eq_ℤ id (pos 0) ids)
or_added id ids (some n) = (n, ids)

-- `map[id]`, which adds 0 for a missing id
abbrev pub number_of : ℤ → IdMap → ℤ × IdMap
number_of id ids = or_added id ids (lookup eq_ℤ id ids)

-- NormalizeCpuLpu, with the two maps after it
abbrev normalize_cpu_lpu : CpuLpu → IdMap → IdMap → CpuLpu × IdMap × IdMap
normalize_cpu_lpu lpu sockets cores =
    let socket = number_of lpu.socket_id sockets in
    let core = number_of lpu.core_id cores in
    (record lpu { socket_id = socket.0; core_id = core.0 }, socket.1, core.1)

unfoldable pub normalize_lpus : List CpuLpu → IdMap → IdMap → List CpuLpu × IdMap
normalize_lpus [] sockets cores = ([], sockets)
normalize_lpus (lpu ∷ lpus) sockets cores =
    let one = normalize_cpu_lpu lpu sockets cores in
    let rest = normalize_lpus lpus one.1 one.2 in (one.0 ∷ rest.0, rest.1)

-- NormalizeNumaNode
unfoldable pub normalize_numa_node : CpuNumaNode → IdMap → IdMap → CpuNumaNode × IdMap
unfolding normalize_lpus
normalize_numa_node node sockets cores =
    let lpus = normalize_lpus node.lpus sockets cores in (record node { lpus = lpus.0 }, lpus.1)

-- the numbers given so far, and the next one
abbrev pub Numbers : Type 0
Numbers = IdMap × ℕ

abbrev pub or_inserted : ℤ → Numbers → Option ℤ → Numbers
or_inserted id (ids, n) none = (put eq_ℤ id (pos n) ids, suc n)
or_inserted id numbers (some m) = numbers

-- `find`, and `insert` of the next number if there is none
abbrev pub add_id : ℤ → Numbers → Numbers
add_id id numbers = or_inserted id numbers (lookup eq_ℤ id numbers.0)

unfoldable pub number_lpus : List CpuLpu → Numbers → Numbers → Numbers × Numbers
number_lpus [] sockets cores = (sockets, cores)
number_lpus (lpu ∷ lpus) sockets cores =
    number_lpus lpus (add_id lpu.socket_id sockets) (add_id lpu.core_id cores)

-- NormalizeTopology
unfoldable pub normalize_nodes : List CpuNumaNode → Numbers → List CpuNumaNode
unfolding number_lpus normalize_numa_node
normalize_nodes [] sockets = []
normalize_nodes (node ∷ nodes) sockets =
    let numbered = number_lpus node.lpus sockets ([], 0) in
    let normal = normalize_numa_node node numbered.0.0 numbered.1.0 in
    normal.0 ∷ normalize_nodes nodes (normal.1, numbered.0.1)

unfoldable pub normalize_topology : List CpuNumaNode → List CpuNumaNode
unfolding normalize_nodes
normalize_topology nodes = normalize_nodes nodes ([], 0)

abbrev next_index : Option ℕ → Option ℕ
next_index none = none
next_index (some n) = some (suc n)

abbrev pub index_of : ℤ → List ℤ → Option ℕ
index_of n [] = none
index_of n (m ∷ ms) = if eq_ℤ m n then some 0 else next_index (index_of n ms)

abbrev pub or_empty : Option (List ℤ) → List ℤ
or_empty none = []
or_empty (some cpus) = cpus

-- `socket_lpus_map_[socket].push_back(cpu)`
abbrev pub push_lpu : ℤ → ℤ → List (ℤ × List ℤ) → List (ℤ × List ℤ)
push_lpu socket cpu sockets =
    put eq_ℤ socket (snoc (or_empty (lookup eq_ℤ socket sockets)) cpu) sockets

unfoldable pub push_lpus : List CpuLpu → List (ℤ × List ℤ) → List (ℤ × List ℤ)
push_lpus [] sockets = sockets
push_lpus (lpu ∷ lpus) sockets = push_lpus lpus (push_lpu lpu.socket_id lpu.cpu_id sockets)

unfoldable pub push_nodes : List CpuNumaNode → List (ℤ × List ℤ) → List (ℤ × List ℤ)
unfolding push_lpus
push_nodes [] sockets = sockets
push_nodes (node ∷ nodes) sockets = push_nodes nodes (push_lpus node.lpus sockets)

-- a processor that was gathered, in its node
abbrev pub add_lpu : CpuNumaNode → CpuLpu → CpuNumaNode
add_lpu node lpu = record node {
  physical_processing_unit_count =
      node.physical_processing_unit_count + (if eq_ℤ lpu.thread_id (pos 0) then 1 else 0);
  lpus = snoc node.lpus lpu;
}

-- the end of `DoRealGather` of a topology
unfoldable pub finish_topology : CpuTopology → CpuTopology
unfolding normalize_topology push_nodes
finish_topology t =
    let nodes = normalize_topology t.numa_nodes in
    record t { numa_nodes = nodes; socket_lpus_map = push_nodes nodes t.socket_lpus_map }

-- the counts of a topology
abbrev physical_cores : List CpuNumaNode → ℕ
physical_cores [] = 0
physical_cores (node ∷ nodes) = node.physical_processing_unit_count + physical_cores nodes

abbrev pub logical_cores : List CpuNumaNode → ℕ
logical_cores [] = 0
logical_cores (node ∷ nodes) = length node.lpus + logical_cores nodes

abbrev pub physical_cores_count : CpuTopology → ℕ
physical_cores_count t = physical_cores t.numa_nodes

abbrev pub logical_cores_count : CpuTopology → ℕ
logical_cores_count t = logical_cores t.numa_nodes

abbrev pub max_lpus : List (ℤ × List ℤ) → ℕ → ℕ
max_lpus [] max = max
max_lpus (socket ∷ sockets) max =
    max_lpus sockets (if ltb max (length socket.1) then length socket.1 else max)

abbrev pub logical_cores_max_per_socket : CpuTopology → ℕ
logical_cores_max_per_socket t = max_lpus t.socket_lpus_map 0

abbrev pub sockets_count : CpuTopology → ℕ
sockets_count t = length t.socket_lpus_map
