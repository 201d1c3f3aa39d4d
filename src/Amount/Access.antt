-- ===== src/Amount/Access.antt =====
-- The operations of comm/cmd_amount_contrl.cpp look at one entry each: an update of a command's
-- entry is seen under that command, and under no other.
use mathlib.Core.Option
use teaf.Prelude.{
  ℕ, ◌≡◌, ◌≢◌, refl, ap, ◌∙◌, true, false, Option, none, some, List, arith, update_at,
  get_elem?-update_at_self, get_elem?-update_at_ne, ℤ, pos, Bool-cases, inl, inr,
}
use teaf.Amount.{Cntrl, in_range, index, entry, node_of, modify, set_time, get_status, amount_inc}
use teaf.Amount.Entry.{Node, reopen, count}

module _ (c : Cntrl) (cmd : ℤ) (f : Node → Node) where
  pub modify_within :
      in_range c cmd ≡ true
      → modify c cmd f ≡ record c { nodes = Option.map (λ l. update_at l (index c cmd) f) c.nodes }
  unfolding modify
  modify_within h = rw h

  pub modify_outside : in_range c cmd ≡ false → modify c cmd f ≡ c
  unfolding modify
  modify_outside h = rw h

module _ (c : Cntrl) (cmd : ℤ) (now : ℕ) where
  pub get_status-none :
      node_of (set_time c now) cmd ≡ none → get_status c cmd now ≡ (set_time c now, pos 0)
  unfolding get_status
  get_status-none h = rw (h, get_status)

  pub get_status-some :
      (n : Node)
      → node_of (set_time c now) cmd ≡ some n
      → get_status c cmd now ≡ (modify (set_time c now) cmd (reopen now), (reopen now n).status)
  unfolding get_status
  get_status-some n h = rw (h, get_status)

pub node_of-modify_self :
    (c : Cntrl) (cmd : ℤ) (f : Node → Node)
    → node_of (modify c cmd f) cmd ≡ Option.map f (node_of c cmd)
unfolding node_of
node_of-modify_self c cmd f = elim (Bool-cases (in_range c cmd)) [
  | inl within ↦ rw (modify_within c cmd f within, within, node_of) (inside c.nodes)
  | inr outside ↦ rw (modify_outside c cmd f outside, outside, node_of)
]
  where
    inside :
        (ns : Option (List Node))
        → entry (Option.map (λ l. update_at l (index c cmd) f) ns) (index c cmd)
          ≡ Option.map f (entry ns (index c cmd))
    inside none = refl
    inside (some l) = get_elem?-update_at_self l (index c cmd) f

index-injective :
    (c : Cntrl) (cmd cmd' : ℤ)
    → in_range c cmd ≡ true
    → in_range c cmd' ≡ true
    → cmd ≢ cmd'
    → index c cmd ≢ index c cmd'
index-injective c cmd cmd' h h' ne e = ground arith

pub node_of-modify_ne :
    (c : Cntrl) (cmd cmd' : ℤ) (f : Node → Node)
    → cmd ≢ cmd'
    → node_of (modify c cmd f) cmd' ≡ node_of c cmd'
unfolding node_of
node_of-modify_ne c cmd cmd' f ne = elim (Bool-cases (in_range c cmd)) [
  | inr outside ↦ rw (modify_outside c cmd f outside)
  | inl within ↦ elim (Bool-cases (in_range c cmd')) [
    | inr outside ↦ rw (modify_within c cmd f within, outside, node_of)
    | inl within' ↦
        rw (modify_within c cmd f within, within', node_of)
          (inside c.nodes (index-injective c cmd cmd' within within' ne))
  ]
]
  where
    inside :
        (ns : Option (List Node))
        → index c cmd ≢ index c cmd'
        → entry (Option.map (λ l. update_at l (index c cmd) f) ns) (index c cmd')
          ≡ entry ns (index c cmd')
    inside none h = refl
    inside (some l) h = get_elem?-update_at_ne l (index c cmd) (index c cmd') f h

-- The controller's clock is no part of an entry.
pub node_of-set_time :
    (c : Cntrl) (cmd : ℤ) (now : ℕ) → node_of (set_time c now) cmd ≡ node_of c cmd
unfolding node_of set_time
node_of-set_time c cmd now = refl

time_now-modify : (c : Cntrl) (cmd : ℤ) (f : Node → Node) → (modify c cmd f).time_now ≡ c.time_now
unfolding modify
time_now-modify c cmd f = ground arith

-- What a call of `get_status` returns and leaves, where the command has an entry.
module _ (c : Cntrl) (cmd : ℤ) (now : ℕ) (n : Node) (here : node_of c cmd ≡ some n) where
  pub get_status_entry : (get_status c cmd now).1 ≡ (reopen now n).status
  get_status_entry = rw (get_status-some c cmd now n (node_of-set_time c cmd now ∙ here))

  pub node_of-get_status : node_of (get_status c cmd now).0 cmd ≡ some (reopen now n)
  node_of-get_status = rw (get_status-some c cmd now n (node_of-set_time c cmd now ∙ here)) (
      node_of-modify_self (set_time c now) cmd (reopen now)
      ∙ ap (Option.map (reopen now)) (node_of-set_time c cmd now ∙ here))

  pub time_now-get_status : (get_status c cmd now).0.time_now ≡ now
  unfolding set_time
  time_now-get_status =
      rw (get_status-some c cmd now n (node_of-set_time c cmd now ∙ here))
        (time_now-modify (set_time c now) cmd (reopen now))

  pub node_of-amount_inc :
      (result : ℤ) → node_of (amount_inc c cmd result) cmd ≡ some (count c.time_now result n)
  unfolding amount_inc
  node_of-amount_inc result =
      node_of-modify_self c cmd (count c.time_now result)
      ∙ ap (Option.map (count c.time_now result)) here
