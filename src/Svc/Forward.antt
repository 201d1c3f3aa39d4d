-- ===== src/Svc/Forward.antt =====
-- frm/isgw_mgr_svc.cpp: forwarding to the configured routers.
use teaf.Prelude.{
  ℕ, zero, suc, ◌+◌, ◌≤◌, ◌<◌, ◌≡◌, refl, subst, true, false, ◌||◌, [], arith, ◌==◌, if◌then◌else◌,
  pos, negsuc, ltb_ℤ, if_intro, Bool-cases, inl, inr, ◌⊎◌, ℤ,
}
use teaf.Stat.{Stat, incre_stat}
use teaf.Svc.{Svc, Request, Dest, router, count_error, svc_forward, forward_all, forward}

-- How many of the routers from `idx` on refuse the message.
pub refusals : (Dest → ℤ) → ℕ → ℕ → ℕ
refusals sends idx zero = 0
refusals sends idx (suc k) =
    let rest = refusals sends (suc idx) k in
    if ltb_ℤ (sends (router idx)) (pos 0) then suc rest else rest

-- SVC_FORWARD counted `n` times.
pub forward_errors : ℕ → Stat → Stat
forward_errors zero st = st
forward_errors (suc n) st = forward_errors n (incre_stat st svc_forward (pos 1))

module _ (sends : Dest → ℤ) where
  forward_all-refusals :
      (idx k : ℕ) (s : Svc)
      → ((forward_all sends idx k s).1 ≡ refusals sends idx k)
        × ((forward_all sends idx k s).0.stat ≡ forward_errors (refusals sends idx k) s.stat)
        × ((forward_all sends idx k s).0.rtnum ≡ s.rtnum)
  unfolding forward_all refusals forward_errors
  forward_all-refusals idx zero s = (refl, refl, refl)
  forward_all-refusals idx (suc k) s = elim (Bool-cases (ltb_ℤ (sends (router idx)) (pos 0))) [
    | inl e ↦
        let (n, st, r) = forward_all-refusals (suc idx) k (count_error svc_forward s) in
        rw (forward_all, refusals, e) (omega (arith, n), st, r)
    | inr e ↦
        let (n, st, r) = forward_all-refusals (suc idx) k s in
        rw (forward_all, refusals, e) (omega (arith, n), st, r)
  ]

  refusals-le : (idx k : ℕ) → refusals sends idx k ≤ k
  unfolding refusals
  refusals-le idx zero = omega arith
  refusals-le idx (suc k) =
      if_intro (λ n. n ≤ suc k) (ltb_ℤ (sends (router idx)) (pos 0))
        (omega (arith, refusals-le (suc idx) k)) (omega (arith, refusals-le (suc idx) k))

  some_taken :
      (idx k : ℕ)
      → refusals sends idx k < k
      → (i : ℕ) × (idx ≤ i) × (i < idx + k) × (ltb_ℤ (sends (router i)) (pos 0) ≡ false)
  unfolding refusals
  some_taken idx zero h = absurd (omega arith)
  some_taken idx (suc k) h = elim (Bool-cases (ltb_ℤ (sends (router idx)) (pos 0))) [
    | inr e ↦ (idx, omega arith, omega arith, e)
    | inl e ↦
        let (i, lo, hi, t) = some_taken (suc idx) k (omega (arith, rw (refusals, e) at h)) in
        (i, omega (arith, lo), omega (arith, hi), t)
  ]

  all_refused :
      (idx k i : ℕ)
      → refusals sends idx k ≡ k
      → idx ≤ i
      → i < idx + k
      → ltb_ℤ (sends (router i)) (pos 0) ≡ true
  unfolding refusals
  all_refused idx zero i h lo hi = absurd (omega arith)
  all_refused idx (suc k) i h lo hi = elim (Bool-cases (ltb_ℤ (sends (router idx)) (pos 0))) [
    | inr e ↦ absurd (omega (arith, refusals-le (suc idx) k, rw (refusals, e) at h))
    | inl e ↦ elim (Bool-cases (idx == i)) [
      | inl here ↦
          let eq : idx ≡ i = ground arith in
          subst (λ j. ltb_ℤ (sends (router j)) (pos 0) ≡ true) eq e
      | inr later ↦
          all_refused (suc idx) k i (omega (arith, rw (refusals, e) at h)) (ground arith)
            (omega arith)
    ]
  ]

  forward-routers :
      (s : Svc) (q : Request)
      → q.appname ≡ []
      → forward sends s q ≡ (
        (forward_all sends 0 s.rtnum s).0,
        if (s.rtnum == 0) || ((forward_all sends 0 s.rtnum s).1 == s.rtnum)
            then negsuc 0
            else pos 0,
      )
  unfolding forward
  forward-routers s q e = rw (forward, e) refl

  -- A request that names no server goes to every configured router. `forward` returns 0 if some
  -- router takes it, and -1 if none does, as where none is configured. It counts one
  -- STAT_CODE_SVC_FORWARD for each router that refuses.
  pub forward-refusals :
      (s : Svc) (q : Request)
      → q.appname ≡ []
      → ((forward sends s q).0.stat ≡ forward_errors (refusals sends 0 s.rtnum) s.stat)
        × ((((forward sends s q).1 ≡ pos 0)
              × ((i : ℕ) × (i < s.rtnum) × (ltb_ℤ (sends (router i)) (pos 0) ≡ false)))
            ⊎ (((forward sends s q).1 ≡ negsuc 0)
                × ((i : ℕ) → i < s.rtnum → ltb_ℤ (sends (router i)) (pos 0) ≡ true)))
  forward-refusals s q e =
      let (n, st, r) = forward_all-refusals 0 s.rtnum s in
      rw (forward-routers s q e, n)
        (
          st,
          elim (Bool-cases ((s.rtnum == 0) || (refusals sends 0 s.rtnum == s.rtnum))) [
            | inl none_took ↦ rw none_took (
                inr (
                  refl,
                  λ i b.
                      all_refused 0 s.rtnum i (ground (arith, refusals-le 0 s.rtnum)) (omega arith)
                        (omega arith),
                ))
            | inr some_took ↦ rw some_took (
                inl (
                  refl,
                  let (i, lo, hi, t) =
                        some_taken 0 s.rtnum (ground (arith, refusals-le 0 s.rtnum)) in
                      (i, omega (arith, hi), t),
                ))
          ],
        )
