-- ===== src/Intf/Request/Datagram/Order.antt =====
-- The messages of a datagram are queued in their order.
use teaf.Prelude.{
  ℕ, suc, ◌≡◌, Bool, true, false, Option, none, some, List, [], ◌∷◌, ◌++◌, Bytes, take, map,
}
use teaf.Intf.Request.{Gate}
use teaf.Intf.Request.Pool.{IsSettled}

abbrev pub texts : Gate → List Bytes
texts g = map (λ r. r.msg) g.queue

-- How many times the pool and the queue succeed before one of them fails.
abbrev pub leading : List (Option ℕ × Bool) → ℕ
leading [] = 0
leading ((none, queued) ∷ rest) = 0
leading ((some index, false) ∷ rest) = 0
leading ((some index, true) ∷ rest) = suc (leading rest)

-- From `g` exactly the messages of `ms` before the first failure have been queued, in order, and no
-- object is lost.
pub record Queued (g : Gate) (ms : List Bytes) (g' : Gate) : Type 0 where
  pub order : texts g' ≡ texts g ++ take (leading g.supply) ms
  pub settled : IsSettled g → IsSettled g'

-- One message: it is queued, or the loop ends at a failure.
abbrev Hands : Gate → List (Option ℕ × Bool) → Bytes → Gate × Bool → Type 0
Hands g supply m (g', true) =
    (texts g' ≡ texts g ++ (m ∷ [])) × (leading supply ≡ suc (leading g'.supply))
Hands g supply m (g', false) = (texts g' ≡ texts g) × (leading supply ≡ 0)
