-- ===== src/ConnMgr/Choice.antt =====
-- comm/plat_conn_mgr_ex.cpp: which server and which slot a call takes (`get_ip_idx`, `get_index`).
use teaf.Prelude.{
  ℕ, zero, suc, ◌+◌, ◌≤◌, ◌<◌, ◌%◌, ◌≡◌, ◌≢◌, ◌⊎◌, inl, inr, refl, sym, ap, subst, true, false,
  none, some, List, [], ◌∷◌, arith, ◌==◌, ℤ, pos, ltb_ℤ, u32_mod, Bool-cases, Option-cases,
  pos_part,
}
use native.Mathlib.Nat.{mod-eq_of_lt}
use teaf.ConnMgr.{
  Mgr, tcp_conn_runout, alarm, get_ip_idx, same, find_ip, get_ip_idx_of, find_free, get_index,
  mod_int, mod_unsigned,
}

-- The loop finds a free slot of those it looks at, and stops at none only when all are in use.
find_free-some :
    (flags : ℕ → ℕ) (i k j : ℕ) → find_free flags i k ≡ some j → (flags j ≡ 0) × (j < i + k)
unfolding find_free
find_free-some flags i zero j h = absurd (ground arith)
find_free-some flags i (suc k) j h = elim (Bool-cases (flags i == 0)) [
  | inl free ↦ ground arith
  | inr used ↦ let (z, b) = find_free-some flags (suc i) k j (rw used at h) in (z, omega (arith, b))
]

find_free-none :
    (flags : ℕ → ℕ) (i k j : ℕ) → find_free flags i k ≡ none → i ≤ j → j < i + k → flags j ≢ 0
unfolding find_free
find_free-none flags i zero j h lo hi = absurd (omega arith)
find_free-none flags i (suc k) j h lo hi = elim (Bool-cases (flags i == 0)) [
  | inl free ↦ absurd (ground arith)
  | inr used ↦ elim (Bool-cases (i == j)) [
    | inl here ↦ ground arith
    | inr past ↦ find_free-none flags (suc i) k j (rw used at h) (ground arith) (omega arith)
  ]
]

-- A slot of the server that is free, with the state unchanged, or one of a server that has no
-- free slot left, which is counted.
abbrev pub IsFree : Mgr → ℕ → ℕ → Mgr × ℕ → Type 0
IsFree m server n (m', index) =
    ((m' ≡ m) × (m.conn_use_flag server index ≡ 0))
    ⊎ ((m' ≡ alarm tcp_conn_runout m) × ((j : ℕ) → j < n → m.conn_use_flag server j ≢ 0))

-- For no uin the choice is free; a uin alone decides, whether or not that slot is in use, with the
-- state unchanged.
abbrev pub IsChoice : Mgr → ℕ → ℕ → ℕ → Mgr × ℕ → Type 0
IsChoice m server n uin (m', index) =
    (index < n)
    × (((uin ≡ 0) × IsFree m server n (m', index)) ⊎ ((0 < uin) × (m' ≡ m) × (index ≡ uin % n)))

pub index-lt : (x n : ℕ) (c : ℤ) → c ≡ pos n → 0 < n → mod_int x c < n
index-lt x n c e h = subst (λ d. mod_int x d < n) (sym e) (omega arith)

pos-not_negative : (n : ℕ) (c : ℤ) → c ≡ pos n → ltb_ℤ c (pos 0) ≡ false
pos-not_negative n c e = ground arith

mod_unsigned-pos : (x n : ℕ) (c : ℤ) → c ≡ pos n → n < u32_mod → mod_unsigned x c ≡ x % n
mod_unsigned-pos x n c e b = rw (e, mod-eq_of_lt b) refl

get_index-IsFree :
    (m : Mgr) (ip_idx rand n : ℕ)
    → m.conn_nums ≡ pos n
    → 0 < n
    → ((get_index m ip_idx 0 rand).1 < n)
      × IsFree m (mod_int ip_idx m.ip_num) n (get_index m ip_idx 0 rand)
unfolding get_index
get_index-IsFree m ip_idx rand n e h =
    let flags = m.conn_use_flag (mod_int ip_idx m.ip_num) in
    let index = mod_int rand m.conn_nums in
    let lt = index-lt rand n m.conn_nums e h in
    elim (Bool-cases (flags index == 0)) [
      | inl free ↦ rw free (lt, inl (refl, ground arith))
      | inr used ↦ elim (Option-cases (find_free flags 0 (pos_part m.conn_nums))) [
        | inr (i, found) ↦
            let (z, b) = find_free-some flags 0 n i (rw e at found) in
            rw (used, found) (omega (arith, b), inl (refl, z))
        | inl full ↦
            rw (used, full, pos-not_negative n m.conn_nums e)
              (
                lt,
                inr (
                  refl,
                  λ j b. find_free-none flags 0 n j (rw e at full) (omega arith) (omega arith),
                ),
              )
      ]
    ]

-- With n connections to a server, n above 0 and a 32-bit number, `get_index` answers an index below n.
-- Where a call names no uin (0), the slot is free if any of the server's n slots is; if none is, and
-- only then, it counts STAT_CODE_TCP_CONN_RUNOUT, and nothing else changes. Where it names one the slot
-- is uin % n, even if it is in use, and nothing changes or is counted.
pub get_index-IsChoice :
    (m : Mgr) (ip_idx uin rand n : ℕ)
    → m.conn_nums ≡ pos n
    → 0 < n
    → n < u32_mod
    → IsChoice m (mod_int ip_idx m.ip_num) n uin (get_index m ip_idx uin rand)
unfolding get_index
get_index-IsChoice m ip_idx zero rand n e h b =
    let (lt, free) = get_index-IsFree m ip_idx rand n e h in (lt, inl (refl, free))
get_index-IsChoice m ip_idx (suc u) rand n e h b =
    let named : (suc u == 0) ≡ false = ground arith in
    rw (named, mod_unsigned-pos (suc u) n m.conn_nums e b)
      (omega arith, inr (omega arith, refl, refl))

-- A call that names a uin goes to the server and the slot that the uin alone decides, in range, and
-- changes nothing in choosing them.
pub get_index-uin :
    (m : Mgr) (uin rand1 rand2 n k : ℕ)
    → m.conn_nums ≡ pos n
    → m.ip_num ≡ pos k
    → 0 < n
    → 0 < k
    → n < u32_mod
    → k < u32_mod
    → 0 < uin
    → (get_ip_idx m uin rand1 ≡ uin % k)
      × (get_index m (get_ip_idx m uin rand1) uin rand2 ≡ (m, uin % n))
unfolding get_index get_ip_idx
get_index-uin m uin rand1 rand2 n k e f hn hk bn bk u =
    let named : (uin == 0) ≡ false = ground arith in
    rw (named, mod_unsigned-pos uin k m.ip_num f bk, mod_unsigned-pos uin n m.conn_nums e bn)
      (refl, refl)

same-≡ : (s t : List ℕ) → same s t ≡ true → s ≡ t
unfolding same
same-≡ [] [] h = refl
same-≡ [] (b ∷ t) h = absurd (ground arith)
same-≡ (a ∷ s) [] h = absurd (ground arith)
same-≡ (a ∷ s) (b ∷ t) h = ground (arith, same-≡ s t)

find_ip-some :
    (ips : ℕ → List ℕ) (addr : List ℕ) (i k j : ℕ)
    → find_ip ips addr i k ≡ some j
    → (ips j ≡ addr) × (j < i + k)
unfolding find_ip
find_ip-some ips addr i zero j h = absurd (ground arith)
find_ip-some ips addr i (suc k) j h = elim (Bool-cases (same addr (ips i))) [
  | inl here ↦ ground (arith, sym (same-≡ addr (ips i) here))
  | inr past ↦
      let (z, b) = find_ip-some ips addr (suc i) k j (rw past at h) in (z, omega (arith, b))
]

same_refl : (s : List ℕ) → same s s ≡ true
unfolding same
same_refl [] = refl
same_refl (a ∷ s) = ground (arith, same_refl s)

find_ip-none :
    (ips : ℕ → List ℕ) (addr : List ℕ) (i k j : ℕ)
    → find_ip ips addr i k ≡ none
    → i ≤ j
    → j < i + k
    → ips j ≢ addr
unfolding find_ip
find_ip-none ips addr i zero j h lo hi = absurd (omega arith)
find_ip-none ips addr i (suc k) j h lo hi = elim (Bool-cases (same addr (ips i))) [
  | inl here ↦ absurd (ground arith)
  | inr past ↦ elim (Bool-cases (i == j)) [
    | inl at_i ↦ λ e. absurd (ground (arith, ap (same addr) e, same_refl addr))
    | inr later ↦ find_ip-none ips addr (suc i) k j (rw past at h) (ground arith) (omega arith)
  ]
]

-- With k servers, k above 0, the server chosen for an address is one of the k. It has that address
-- if any of the k has it.
pub get_ip_idx_of-addr :
    (m : Mgr) (addr : List ℕ) (rand k : ℕ)
    → m.ip_num ≡ pos k
    → 0 < k
    → (get_ip_idx_of m addr rand < k)
      × ((m.ip (get_ip_idx_of m addr rand) ≡ addr) ⊎ ((j : ℕ) → j < k → m.ip j ≢ addr))
unfolding get_ip_idx_of
get_ip_idx_of-addr m addr rand k e h =
    elim (Option-cases (find_ip m.ip addr 0 (pos_part m.ip_num))) [
      | inr (i, found) ↦
          let (z, b) = find_ip-some m.ip addr 0 k i (rw e at found) in
          rw (get_ip_idx_of, found) (omega (arith, b), inl z)
      | inl missing ↦
          rw (get_ip_idx_of, missing)
            (
              index-lt rand k m.ip_num e h,
              inr (λ j b.
                  find_ip-none m.ip addr 0 k j (rw e at missing) (omega arith) (omega arith)),
            )
    ]
