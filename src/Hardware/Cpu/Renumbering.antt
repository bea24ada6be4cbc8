-- ===== src/Hardware/Cpu/Renumbering.antt =====
-- ocpdiag/core/hwinterface/backends/host/cpu.cc: what NormalizeTopology makes of the processors.
use ocp_diag_core_cpp.Base.{ℤ, eq_ℤ, some, List, [], ◌∷◌, lookup, ◌≡◌, refl, arith, ◌⊎◌, inl, inr}
use ocp_diag_core_cpp.Hardware.Cpu.{
  CpuLpu, CpuNumaNode, IdMap, Numbers, number_of, normalize_lpus, normalize_numa_node, number_lpus,
  normalize_nodes, normalize_topology,
}
use ocp_diag_core_cpp.Hardware.Cpu.Numbering.{
  IsNumbering, AreKnown, IsMore, Any, IsOnly, number_lpus-IsMore, number_lpus-sockets,
  number_lpus-cores,
}

-- the elements of two lists at the same places
abbrev pub All2 : {A B : Type 0} → (A → B → Type 0) → List A → List B → Type 0
All2 R [] [] = Unit
All2 R [] (y ∷ ys) = ⊥
All2 R (x ∷ xs) [] = ⊥
All2 R (x ∷ xs) (y ∷ ys) = R x y × All2 R xs ys

All2-weaken :
    {A : Type 0} (R S : A → A → Type 0) (xs ys : List A)
    → ((x y : A) → R x y → S x y)
    → All2 R xs ys
    → All2 S xs ys
All2-weaken R S [] [] f h = h
All2-weaken R S (x ∷ xs) (y ∷ ys) f h = (f x y h.0, All2-weaken R S xs ys f h.1)
All2-weaken R S [] (y ∷ ys) f h = elim h [ ]
All2-weaken R S (x ∷ xs) [] f h = elim h [ ]

-- A processor has the numbers of the ids that it had.
abbrev pub IsRenumbered : IdMap → IdMap → CpuLpu → CpuLpu → Type 0
IsRenumbered sockets cores old new =
    (lookup eq_ℤ old.socket_id sockets ≡ some new.socket_id)
    × (lookup eq_ℤ old.core_id cores ≡ some new.core_id)

number_of_known :
    (ids : IdMap) (id v : ℤ) → lookup eq_ℤ id ids ≡ some v → number_of id ids ≡ (v, ids)
number_of_known ids id v h = rw h refl

normalize_lpus-IsRenumbered :
    (lpus : List CpuLpu) (sockets cores : IdMap)
    → AreKnown sockets cores lpus
    → ((normalize_lpus lpus sockets cores).1 ≡ sockets)
      × All2 (IsRenumbered sockets cores) lpus (normalize_lpus lpus sockets cores).0
unfolding normalize_lpus
normalize_lpus-IsRenumbered [] sockets cores h = (refl, tt)
normalize_lpus-IsRenumbered (lpu ∷ lpus) sockets cores h =
    let rest = normalize_lpus-IsRenumbered lpus sockets cores h.1 in
    rw
      (
        number_of_known sockets lpu.socket_id h.0.0.0 h.0.0.1,
        number_of_known cores lpu.core_id h.0.1.0 h.0.1.1,
      )
      (rest.0, ((h.0.0.1, h.0.1.1), rest.1))

-- the ids of the sockets of all nodes, and of the cores of one
abbrev pub InNodes : List CpuNumaNode → ℤ → Type 0
InNodes nodes k = Any (λ node. Any (λ lpu. lpu.socket_id ≡ k) node.lpus) nodes

abbrev pub InNode : CpuNumaNode → ℤ → Type 0
InNode node k = Any (λ lpu. lpu.core_id ≡ k) node.lpus

-- A node is renumbered: its sockets by the numbers given, its cores by numbers of its own, which
-- are given to its core ids only.
abbrev pub IsNodeRenumbered : IdMap → CpuNumaNode → CpuNumaNode → Type 0
IsNodeRenumbered sockets old new =
    (cores : Numbers) × IsNumbering cores
    × IsOnly (InNode old) cores
    × All2 (IsRenumbered sockets cores.0) old.lpus new.lpus

empty-IsNumbering : IsNumbering ([], 0)
empty-IsNumbering = (λ k v e. cc, λ k j v e f. cc, λ i less. ground arith)

normalize_nodes-IsRenumbered :
    (nodes : List CpuNumaNode) (sockets : Numbers)
    → IsNumbering sockets
    → (final : Numbers) × IsMore sockets final
      × ((k v : ℤ)
          → lookup eq_ℤ k final.0 ≡ some v
          → InNodes nodes k ⊎ (lookup eq_ℤ k sockets.0 ≡ some v))
      × All2 (IsNodeRenumbered final.0) nodes (normalize_nodes nodes sockets)
unfolding normalize_nodes normalize_numa_node
normalize_nodes-IsRenumbered [] sockets h = (sockets, (h, λ k v e. e), (λ k v e. inr e), tt)
normalize_nodes-IsRenumbered (node ∷ nodes) sockets h =
    let numbered = number_lpus node.lpus sockets ([], 0) in
    let more = number_lpus-IsMore node.lpus sockets ([], 0) h empty-IsNumbering in
    let normal = normalize_lpus-IsRenumbered node.lpus numbered.0.0 numbered.1.0 more.2 in
    let rest = normalize_nodes-IsRenumbered nodes numbered.0 more.0.0 in
    (
      rest.0,
      (rest.1.0, λ k v e. rest.1.1 k v (more.0.1 k v e)),
      (λ k v e. elim (rest.2 k v e) [
        | inl later ↦ inl (inr later)
        | inr old ↦ elim (number_lpus-sockets node.lpus sockets ([], 0) k v old) [
          | inl here ↦ inl (inl here)
          | inr older ↦ inr older
        ]
      ]),
      (
        (
          numbered.1,
          more.1.0,
          (λ k v e. elim (number_lpus-cores node.lpus sockets ([], 0) k v e) [
            | inl here ↦ here
            | inr nowhere ↦ cc
          ]),
          All2-weaken (IsRenumbered numbered.0.0 numbered.1.0) (IsRenumbered rest.0.0 numbered.1.0)
              node.lpus _ (λ old new r. (rest.1.1 old.socket_id new.socket_id r.0, r.1)) normal.1,
        ),
        rw normal.0 rest.3,
      ),
    )

-- NormalizeTopology replaces the socket ids that occur in the nodes by the numbers 0, 1, ... without
-- a gap, equal ids by equal numbers and others by others, one numbering for all nodes; and so the
-- core ids that occur in a node, with a numbering of their own for each node.
pub normalize_topology-IsRenumbered :
    (nodes : List CpuNumaNode)
    → (sockets : Numbers) × IsNumbering sockets
      × IsOnly (InNodes nodes) sockets
      × All2 (IsNodeRenumbered sockets.0) nodes (normalize_topology nodes)
unfolding normalize_topology
normalize_topology-IsRenumbered nodes =
    let found = normalize_nodes-IsRenumbered nodes ([], 0) empty-IsNumbering in
    (
      found.0,
      found.1.0,
      (λ k v e. elim (found.2 k v e) [ inl here ↦ here | inr nowhere ↦ cc ]),
      found.3,
    )
