-- ===== src/Hardware/Cpu/Numbering.antt =====
-- The numbers that NormalizeTopology gives: 0, 1, ... without a gap, each to one id.
use ocp_diag_core_cpp.Base.{
  ℕ, suc, ◌<◌, ltb, ℤ, pos, eq_ℤ, eq_ℤ-refl, eq_ℤ→eq, Option, none, some, List, [], ◌∷◌, All,
  lookup, put, lookup-put_same, lookup-put_other, ◌≡◌, refl, ap, sym, ◌∙◌, ◌⊎◌, inl, inr,
  Bool-cases, arith,
}
use ocp_diag_core_cpp.Hardware.Cpu.{CpuLpu, IdMap, Numbers, add_id, or_inserted, number_lpus}

-- the map gives its ids the numbers under `n`, each to one id
abbrev pub IsNumbering : Numbers → Type 0
IsNumbering numbers =
    ((k v : ℤ) → lookup eq_ℤ k numbers.0 ≡ some v → (i : ℕ) × (v ≡ pos i) × (i < numbers.1))
    × ((k j v : ℤ) → lookup eq_ℤ k numbers.0 ≡ some v → lookup eq_ℤ j numbers.0 ≡ some v → k ≡ j)
    × ((i : ℕ) → i < numbers.1 → (k : ℤ) × (lookup eq_ℤ k numbers.0 ≡ some (pos i)))

abbrev pub Extends : IdMap → IdMap → Type 0
Extends old new = (k v : ℤ) → lookup eq_ℤ k old ≡ some v → lookup eq_ℤ k new ≡ some v

abbrev IsKnown : IdMap → ℤ → Type 0
IsKnown ids k = (v : ℤ) × (lookup eq_ℤ k ids ≡ some v)

put_cases :
    (id k v : ℤ) (n : ℕ) (ids : IdMap)
    → lookup eq_ℤ k (put eq_ℤ id (pos n) ids) ≡ some v
    → ((id ≡ k) × (v ≡ pos n)) ⊎ (lookup eq_ℤ k ids ≡ some v)
put_cases id k v n ids h = elim (Bool-cases (eq_ℤ id k)) [
  | inl e ↦
      let same = eq_ℤ→eq id k e in
      let there : some (pos n) ≡ some v =
        sym (lookup-put_same eq_ℤ id (pos n) ids (eq_ℤ-refl id))
        ∙ ap (λ j. lookup eq_ℤ j (put eq_ℤ id (pos n) ids)) same
        ∙ h in
      inl (same, cc)
  | inr e ↦ inr (sym (lookup-put_other eq_ℤ id k (pos n) ids eq_ℤ→eq e) ∙ h)
]

put-Extends :
    (id : ℤ) (n : ℕ) (ids : IdMap)
    → lookup eq_ℤ id ids ≡ none
    → Extends ids (put eq_ℤ id (pos n) ids)
put-Extends id n ids fresh k v h = elim (Bool-cases (eq_ℤ id k)) [
  | inl e ↦
      let same = eq_ℤ→eq id k e in
      let clash : none ≡ some v = sym fresh ∙ ap (λ j. lookup eq_ℤ j ids) same ∙ h in cc
  | inr e ↦ lookup-put_other eq_ℤ id k (pos n) ids eq_ℤ→eq e ∙ h
]

no_later : (v : ℤ) (i n : ℕ) → v ≡ pos i → v ≡ pos n → i < n → {A : Type 0} → A
no_later v i n h k less = ground arith

beyond :
    (ids : IdMap) (n : ℕ) (j k v : ℤ)
    → IsNumbering (ids, n)
    → lookup eq_ℤ j ids ≡ some v
    → v ≡ pos n
    → j ≡ k
beyond ids n j k v h old new = let b = h.0 j v old in no_later v b.0 n b.1 new b.2

put-IsNumbering :
    (id : ℤ) (n : ℕ) (ids : IdMap)
    → lookup eq_ℤ id ids ≡ none
    → IsNumbering (ids, n)
    → IsNumbering (put eq_ℤ id (pos n) ids, suc n)
put-IsNumbering id n ids fresh h = (
  λ k v e. elim (put_cases id k v n ids e) [
    | inl new ↦ (n, new.1, omega arith)
    | inr old ↦ let b = h.0 k v old in (b.0, b.1, omega arith)
  ],
  λ k j v e f. elim (put_cases id k v n ids e) [
    | inl new ↦ elim (put_cases id j v n ids f) [
      | inl also ↦ sym new.0 ∙ also.0
      | inr old ↦ sym (beyond ids n j k v h old new.1)
    ]
    | inr old ↦ elim (put_cases id j v n ids f) [
      | inl also ↦ beyond ids n k j v h old also.1
      | inr older ↦ h.1 k j v old older
    ]
  ],
  λ i less. elim (Bool-cases (ltb i n)) [
    | inl e ↦ let k = h.2 i (ground arith) in (k.0, put-Extends id n ids fresh k.0 (pos i) k.1)
    | inr e ↦ (
      id,
      lookup-put_same eq_ℤ id (pos n) ids (eq_ℤ-refl id) ∙ ap (λ m. some (pos m)) (ground arith),
    )
  ],
)

-- What numbering more ids does: the numbers given stay, and an id that was numbered is known.
abbrev pub IsMore : Numbers → Numbers → Type 0
IsMore old new = IsNumbering new × Extends old.0 new.0

or_inserted-IsMore :
    (id : ℤ) (numbers : Numbers) (found : Option ℤ)
    → lookup eq_ℤ id numbers.0 ≡ found
    → IsNumbering numbers
    → IsMore numbers (or_inserted id numbers found) × IsKnown (or_inserted id numbers found).0 id
or_inserted-IsMore id (ids, n) none e h = (
  (put-IsNumbering id n ids e h, put-Extends id n ids e),
  (pos n, lookup-put_same eq_ℤ id (pos n) ids (eq_ℤ-refl id)),
)
or_inserted-IsMore id numbers (some m) e h = ((h, λ k v f. f), (m, e))

add_id-IsMore :
    (id : ℤ) (numbers : Numbers)
    → IsNumbering numbers
    → IsMore numbers (add_id id numbers) × IsKnown (add_id id numbers).0 id
add_id-IsMore id numbers h = or_inserted-IsMore id numbers (lookup eq_ℤ id numbers.0) refl h

abbrev pub AreKnown : IdMap → IdMap → List CpuLpu → Type 0
AreKnown sockets cores = All (λ lpu. IsKnown sockets lpu.socket_id × IsKnown cores lpu.core_id)

pub number_lpus-IsMore :
    (lpus : List CpuLpu) (sockets cores : Numbers)
    → IsNumbering sockets
    → IsNumbering cores
    → IsMore sockets (number_lpus lpus sockets cores).0
      × IsMore cores (number_lpus lpus sockets cores).1
      × AreKnown (number_lpus lpus sockets cores).0.0 (number_lpus lpus sockets cores).1.0 lpus
unfolding number_lpus
number_lpus-IsMore [] sockets cores h k = ((h, λ k v e. e), (k, λ k v e. e), tt)
number_lpus-IsMore (lpu ∷ lpus) sockets cores h k =
    let socket = add_id-IsMore lpu.socket_id sockets h in
    let core = add_id-IsMore lpu.core_id cores k in
    let rest =
      number_lpus-IsMore lpus (add_id lpu.socket_id sockets) (add_id lpu.core_id cores) socket.0.0
        core.0.0 in
    (
      (rest.0.0, λ k v e. rest.0.1 k v (socket.0.1 k v e)),
      (rest.1.0, λ k v e. rest.1.1 k v (core.0.1 k v e)),
      (
        (
          (socket.1.0, rest.0.1 lpu.socket_id socket.1.0 socket.1.1),
          (core.1.0, rest.1.1 lpu.core_id core.1.0 core.1.1),
        ),
        rest.2,
      ),
    )

-- some element has the property
abbrev pub Any : {A : Type 0} → (A → Type 0) → List A → Type 0
Any P [] = ⊥
Any P (x ∷ xs) = P x ⊎ Any P xs

-- the map holds ids with the property only
abbrev pub IsOnly : (ℤ → Type 0) → Numbers → Type 0
IsOnly P numbers = (k v : ℤ) → lookup eq_ℤ k numbers.0 ≡ some v → P k

or_inserted-source :
    (id k v : ℤ) (numbers : Numbers) (found : Option ℤ)
    → lookup eq_ℤ k (or_inserted id numbers found).0 ≡ some v
    → (id ≡ k) ⊎ (lookup eq_ℤ k numbers.0 ≡ some v)
or_inserted-source id k v (ids, n) none h = elim (put_cases id k v n ids h) [
  | inl new ↦ inl new.0
  | inr old ↦ inr old
]
or_inserted-source id k v numbers (some m) h = inr h

-- An id in the map is one that was numbered, or one that was there.
add_id-source :
    (id k v : ℤ) (numbers : Numbers)
    → lookup eq_ℤ k (add_id id numbers).0 ≡ some v
    → (id ≡ k) ⊎ (lookup eq_ℤ k numbers.0 ≡ some v)
add_id-source id k v numbers h = or_inserted-source id k v numbers (lookup eq_ℤ id numbers.0) h

pub number_lpus-sockets :
    (lpus : List CpuLpu) (sockets cores : Numbers) (k v : ℤ)
    → lookup eq_ℤ k (number_lpus lpus sockets cores).0.0 ≡ some v
    → Any (λ lpu. lpu.socket_id ≡ k) lpus ⊎ (lookup eq_ℤ k sockets.0 ≡ some v)
unfolding number_lpus
number_lpus-sockets [] sockets cores k v h = inr h
number_lpus-sockets (lpu ∷ lpus) sockets cores k v h =
    elim (number_lpus-sockets lpus (add_id lpu.socket_id sockets) (add_id lpu.core_id cores) k v
      h) [
        | inl later ↦ inl (inr later)
        | inr old ↦ elim (add_id-source lpu.socket_id k v sockets old) [
          | inl same ↦ inl (inl same)
          | inr older ↦ inr older
        ]
      ]

pub number_lpus-cores :
    (lpus : List CpuLpu) (sockets cores : Numbers) (k v : ℤ)
    → lookup eq_ℤ k (number_lpus lpus sockets cores).1.0 ≡ some v
    → Any (λ lpu. lpu.core_id ≡ k) lpus ⊎ (lookup eq_ℤ k cores.0 ≡ some v)
unfolding number_lpus
number_lpus-cores [] sockets cores k v h = inr h
number_lpus-cores (lpu ∷ lpus) sockets cores k v h =
    elim (number_lpus-cores lpus (add_id lpu.socket_id sockets) (add_id lpu.core_id cores) k v h) [
      | inl later ↦ inl (inr later)
      | inr old ↦ elim (add_id-source lpu.core_id k v cores old) [
        | inl same ↦ inl (inl same)
        | inr older ↦ inr older
      ]
    ]
