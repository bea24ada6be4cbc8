-- ===== src/Hardware/Cpu/Counts.antt =====
-- The counts that a gathering ends with, and that it happens once.
use ocp_diag_core_cpp.Base.{
  ℕ, suc, ◌+◌, ◌≤◌, ltb, ℤ, eq_ℤ, String, Option, none, some, List, [], ◌∷◌, snoc, length,
  length-snoc, lookup, put, ◌≡◌, refl, ap, ◌∙◌, Bool-cases, inl, inr, arith,
}
use ocp_diag_core_cpp.Hardware.Status.{StatusOr, value, error, thrown, undefined}
use ocp_diag_core_cpp.Hardware.Host.{File, HostAdapter, Outcome, with_read, gather_once}
use ocp_diag_core_cpp.Hardware.Cpu.{
  CpuLpu, CpuNumaNode, CpuTopology, new_topology, push_lpu, push_lpus, push_nodes, or_empty,
  finish_topology, logical_cores, logical_cores_count, max_lpus, logical_cores_max_per_socket,
}
use ocp_diag_core_cpp.Hardware.Cpu.Gather.{
  with_part, after_loop, parse_range_list_file, gather_nodes, topology_do_real_gather,
  topology_gather,
}

-- the processors of all sockets
abbrev pub total : List (ℤ × List ℤ) → ℕ
total [] = 0
total (socket ∷ sockets) = length socket.1 + total sockets

total-put :
    (k : ℤ) (cpus : List ℤ) (sockets : List (ℤ × List ℤ))
    → total (put eq_ℤ k cpus sockets) + length (or_empty (lookup eq_ℤ k sockets))
      ≡ total sockets + length cpus
total-put k cpus [] = omega arith
total-put k cpus (socket ∷ sockets) = elim (Bool-cases (eq_ℤ socket.0 k)) [
  | inl h ↦ rw h (omega arith)
  | inr h ↦ let ih = total-put k cpus sockets in rw h (omega arith)
]

total-push_lpu :
    (socket cpu : ℤ) (sockets : List (ℤ × List ℤ))
    → total (push_lpu socket cpu sockets) ≡ suc (total sockets)
total-push_lpu socket cpu sockets =
    let old = or_empty (lookup eq_ℤ socket sockets) in
    let grown = total-put socket (snoc old cpu) sockets in
    let one = length-snoc old cpu in omega arith

total-push_lpus :
    (lpus : List CpuLpu) (sockets : List (ℤ × List ℤ))
    → total (push_lpus lpus sockets) ≡ length lpus + total sockets
unfolding push_lpus
total-push_lpus [] sockets = omega arith
total-push_lpus (lpu ∷ lpus) sockets =
    let ih = total-push_lpus lpus (push_lpu lpu.socket_id lpu.cpu_id sockets) in
    let one = total-push_lpu lpu.socket_id lpu.cpu_id sockets in omega arith

total-push_nodes :
    (nodes : List CpuNumaNode) (sockets : List (ℤ × List ℤ))
    → total (push_nodes nodes sockets) ≡ logical_cores nodes + total sockets
unfolding push_nodes
total-push_nodes [] sockets = omega arith
total-push_nodes (node ∷ nodes) sockets =
    let ih = total-push_nodes nodes (push_lpus node.lpus sockets) in
    let one = total-push_lpus node.lpus sockets in omega arith

max_lpus-le-total :
    (sockets : List (ℤ × List ℤ)) (max bound : ℕ)
    → max ≤ bound
    → total sockets ≤ bound
    → max_lpus sockets max ≤ bound
max_lpus-le-total [] max bound h k = h
max_lpus-le-total (socket ∷ sockets) max bound h k = elim (Bool-cases (ltb max (length socket.1))) [
  | inl e ↦ rw e (max_lpus-le-total sockets (length socket.1) bound (omega arith) (omega arith))
  | inr e ↦ rw e (max_lpus-le-total sockets max bound h (omega arith))
]

-- The sockets hold as many processors as the nodes, and none holds more.
abbrev pub IsCounted : CpuTopology → Type 0
IsCounted t =
    (total t.socket_lpus_map ≡ logical_cores_count t)
    × (logical_cores_max_per_socket t ≤ logical_cores_count t)

finish_topology-IsCounted :
    (t : CpuTopology) → t.socket_lpus_map ≡ [] → IsCounted (finish_topology t)
unfolding finish_topology
finish_topology-IsCounted t h =
    let all = total-push_nodes (finish_topology t).numa_nodes [] in
    let none_yet = ap (λ sockets. push_nodes (finish_topology t).numa_nodes sockets) h in
    let count = ap total none_yet ∙ all in
    (
      count ∙ omega arith,
      max_lpus-le-total (finish_topology t).socket_lpus_map 0 _ (omega arith) (omega arith),
    )

abbrev Ensures : {O W : Type 0} → (O → Type 0) → Outcome (Unit {0}) O W → Type 0
Ensures Q r = r.0 ≡ value tt → Q r.1

module _ {O W : Type 0} (Q : O → Type 0) (o : O) where
  with_read-Ensures :
      {A : Type 0} (r : StatusOr A × W) (next : A → W → Outcome (Unit {0}) O W)
      → ((a : A) (w : W) → Ensures Q (next a w))
      → Ensures Q (with_read o r next)
  with_read-Ensures (undefined, w) next h = λ e. cc
  with_read-Ensures (thrown, w) next h = λ e. cc
  with_read-Ensures (error code, w) next h = λ e. cc
  with_read-Ensures (value a, w) next h = h a w

  after_loop-Ensures :
      (r : Outcome (Unit {0}) O W) (next : O → W → Outcome (Unit {0}) O W) (P : O → Type 0)
      → P r.1
      → ((p : O) (w : W) → P p → Ensures Q (next p w))
      → Ensures Q (after_loop r next)
  after_loop-Ensures (undefined, p, w) next P held h = λ e. cc
  after_loop-Ensures (thrown, p, w) next P held h = λ e. cc
  after_loop-Ensures (error code, p, w) next P held h = λ e. cc
  after_loop-Ensures (value okay, p, w) next P held h = h p w held

  with_part-keeps :
      {P : Type 0} (r : Outcome (Unit {0}) P W) (next : P → W → Outcome (Unit {0}) O W)
      → Q o
      → ((p : P) (w : W) → Q (next p w).1)
      → Q (with_part o r next).1
  with_part-keeps (undefined, p, w) next held h = held
  with_part-keeps (thrown, p, w) next held h = held
  with_part-keeps (error code, p, w) next held h = held
  with_part-keeps (value okay, p, w) next held h = h p w

once_again :
    {O W : Type 0} (get : O → Option (StatusOr (Unit {0}))) (keep : StatusOr (Unit {0}) → O → O)
    (first second : O → W → Outcome (Unit {0}) O W) (o : O) (w v : W)
    → ((r : StatusOr (Unit {0})) (p : O) → get (keep r p) ≡ some r)
    → (found : Option (StatusOr (Unit {0}))) → get o ≡ found
    → gather_once
        (get (gather_once found keep first o w).1)
        keep
        second
        (gather_once found keep first o w).1
        v
      ≡ ((gather_once found keep first o w).0, (gather_once found keep first o w).1, v)
once_again get keep first second o w v law (some r) h = rw h refl
once_again get keep first second o w v law none h = rw (law (first o w).0 (first o w).1) refl

module _ {W : Type 0} (simple_atoi : String → Option ℤ) (str_split : String → String → List String)
    (host : HostAdapter W) where
  gather_nodes-keeps :
      (numa_ids : List ℤ) (t : CpuTopology) (w : W)
      → t.socket_lpus_map ≡ []
      → (gather_nodes simple_atoi str_split host numa_ids t w).1.socket_lpus_map ≡ []
  unfolding gather_nodes
  gather_nodes-keeps [] t w h = h
  gather_nodes-keeps (numa_id ∷ numa_ids) t w h =
      with_part-keeps (λ u. u.socket_lpus_map ≡ []) t _ _ h
        (λ node v. gather_nodes-keeps numa_ids _ v h)

  -- A first gathering of the topology that succeeds leaves as many processors in the sockets as in
  -- the nodes, and no socket has more than there are.
  pub topology_gather-IsCounted :
      (w : W)
      → (topology_gather simple_atoi str_split host new_topology w).0 ≡ value tt
      → IsCounted (topology_gather simple_atoi str_split host new_topology w).1
  unfolding topology_gather topology_do_real_gather
  topology_gather-IsCounted w =
      with_read-Ensures IsCounted new_topology
        (parse_range_list_file simple_atoi str_split host File.node_online w) _
        (λ numa_ids v.
          after_loop-Ensures IsCounted new_topology
            (gather_nodes simple_atoi str_split host numa_ids new_topology v) _
            (λ t. t.socket_lpus_map ≡ []) (gather_nodes-keeps numa_ids new_topology v refl)
            (λ t u held e. finish_topology-IsCounted t held))

  -- Gathering a second time reads nothing, on any host, and gives the first result again.
  topology_gather-again :
      (t : CpuTopology) (w v : W) (other : HostAdapter W)
      → topology_gather simple_atoi str_split other
          (topology_gather simple_atoi str_split host t w).1
          v
        ≡ (
          (topology_gather simple_atoi str_split host t w).0,
          (topology_gather simple_atoi str_split host t w).1,
          v,
        )
  unfolding topology_gather
  topology_gather-again t w v other =
      once_again (λ t. t.result) (λ result t. record t { result = some result })
        (topology_do_real_gather simple_atoi str_split host)
        (topology_do_real_gather simple_atoi str_split other) t w v (λ r t. refl) t.result refl
