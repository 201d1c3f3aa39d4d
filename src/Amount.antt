-- ===== src/Amount.antt =====
-- comm/cmd_amount_contrl.cpp: flow control per command, `CmdAmntCntrl`. Counters are the `int`s
-- that the code only increments; the model leaves out their overflow, which is undefined.
-- The locks are left out: a call is one step.
pub mod Access
pub mod Entry
pub mod Lifetime
pub mod Window
pub mod History
use mathlib.Core.Option
use teaf.Prelude.{
  ℕ, zero, suc, ◌+◌, ◌-◌, Bool, true, false, ◌&&◌, Option, none, some, List, [], ◌∷◌, ltb, ◌==◌,
  if◌then◌else◌, get_elem?, update_at, ℤ, pos, negsuc, leb_ℤ, offset, pos_part, neg_part,
}
use Entry.{Node, fresh_node, set_status_of, reopen, count}

-- `nodes_` is NULL or an array.
pub record Cntrl : Type 0 where
  pub nodes : Option (List Node)
  pub cmd_no_start : ℤ
  pub cmd_no_end : ℤ
  pub time_now : ℕ

-- The test that every operation makes on its command.
abbrev pub in_range : Cntrl → ℤ → Bool
in_range c cmd = leb_ℤ c.cmd_no_start cmd && leb_ℤ cmd c.cmd_no_end

abbrev pub index : Cntrl → ℤ → ℕ
index c cmd = offset cmd c.cmd_no_start

abbrev pub entry : Option (List Node) → ℕ → Option Node
entry none i = none
entry (some ns) i = get_elem? ns i

-- `nodes_[index]`, where the test lets the operation come so far.
unfoldable pub node_of : Cntrl → ℤ → Option Node
node_of c cmd = if in_range c cmd then entry c.nodes (index c cmd) else none

unfoldable pub modify : Cntrl → ℤ → (Node → Node) → Cntrl
modify c cmd f =
    if in_range c cmd
    then record c { nodes = Option.map (λ ns. update_at ns (index c cmd) f) c.nodes }
    else c

unfoldable pub set_time : Cntrl → ℕ → Cntrl
set_time c now = record c { time_now = now }

-- The new state, and what is returned: 0 to serve the command, else to reject it.
unfoldable pub get_status : Cntrl → ℤ → ℕ → Cntrl × ℤ
unfolding set_time
get_status c cmd now =
    let c' = set_time c now in
    elim (node_of c' cmd) [
      | none ↦ (c', pos 0)
      | some n ↦ (modify c' cmd (reopen now), (reopen now n).status)
    ]

unfoldable pub set_status : Cntrl → ℤ → ℤ → Cntrl
set_status c cmd status = modify c cmd (set_status_of status)

unfoldable pub amount_inc : Cntrl → ℤ → ℤ → Cntrl
amount_inc c cmd result = modify c cmd (count c.time_now result)

-- The keys of the configuration section. The last three are the ones with the command's number.
pub data Key : Type 0 where
  start_cmd end_cmd interval max_req max_fail_ratio : Key
  interval_of max_req_of max_fail_ratio_of : ℕ → Key

-- `get_conf_int` leaves the variable as it is where the key is missing.
abbrev pub get_conf_int : (Key → Option ℤ) → Key → ℤ → ℤ
get_conf_int conf k v = elim (conf k) [ none ↦ v | some x ↦ x ]

-- The entries for `k` commands from `cmd` on.
pub init_nodes : (Key → Option ℤ) → ℕ → ℕ → List Node
init_nodes conf cmd zero = []
init_nodes conf cmd (suc k) =
    record fresh_node {
      cmd = pos cmd;
      time_intvl = get_conf_int conf (interval_of cmd) (get_conf_int conf interval (pos 30));
      max_req_limit = get_conf_int conf (max_req_of cmd) (get_conf_int conf max_req (pos 60000));
      max_fail_ratio_limit =
          get_conf_int conf (max_fail_ratio_of cmd) (get_conf_int conf max_fail_ratio (pos 80));
    }
    ∷ init_nodes conf (suc cmd) k

-- The array is made once.
unfoldable pub allocate : (Key → Option ℤ) → Cntrl → Cntrl
unfolding init_nodes
allocate conf c = elim c.nodes [
  | none ↦ record c {
    nodes =
        some (init_nodes conf (pos_part c.cmd_no_start) (suc (offset c.cmd_no_end c.cmd_no_start)));
  }
  | some ns ↦ c
]

abbrev pub with_limits : (Key → Option ℤ) → Cntrl → Cntrl
with_limits conf c = record c {
  cmd_no_start = get_conf_int conf start_cmd c.cmd_no_start;
  cmd_no_end = get_conf_int conf end_cmd c.cmd_no_end;
}

unfoldable pub init_config : (Key → Option ℤ) → Cntrl → Cntrl
unfolding allocate
init_config conf c =
    let c' = with_limits conf c in
    if leb_ℤ (pos 0) c'.cmd_no_start && ltb 0 (offset c'.cmd_no_end c'.cmd_no_start)
    then allocate conf c'
    else c'

-- The constructor: `now` is `time(0)`.
abbrev pub blank : ℕ → Cntrl
blank now = record { nodes = none; cmd_no_start = pos 0; cmd_no_end = pos 0; time_now = now }

unfoldable pub create : (Key → Option ℤ) → ℕ → Cntrl
unfolding init_config
create conf now = init_config conf (blank now)

-- The destructor's loop over `nodes_[i]`, `i <= cmd_no_end_ - cmd_no_start_ + 1`: whether each
-- entry that it reads lies in the array.
pub frees : ℕ → ℕ → List Node → Bool
frees zero i ns = true
frees (suc k) i ns = elim (get_elem? ns i) [ none ↦ false | some n ↦ frees k (suc i) ns ]

-- How often the loop runs.
abbrev pub rounds : Cntrl → ℕ
rounds c =
    pos_part c.cmd_no_end
    + neg_part c.cmd_no_start
    + 2
    - (pos_part c.cmd_no_start + neg_part c.cmd_no_end)

unfoldable pub destroy : Cntrl → Bool
unfolding frees
destroy c = elim c.nodes [ none ↦ frees (rounds c) 0 [] | some ns ↦ frees (rounds c) 0 ns ]
