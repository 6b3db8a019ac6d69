-- ===== src/Locking/Queue/Safety.antt =====
-- Which requests of a queue are granted together (`grant_lock` of src/concurrency/lock_manager.cpp).
use lattice_db_next_gen_dbms.Prelude.{
  ℕ, zero, suc, ◌≡◌, ◌≢◌, refl, true, false, List, [], ◌∷◌, ◌++◌, some, arith, inl, inr,
}
use lattice_db_next_gen_dbms.Prelude.Tests.{◌==◌, Option-cases, Bool-cases}
use lattice_db_next_gen_dbms.Prelude.Lists.{get_elem?}
use lattice_db_next_gen_dbms.Locking.Modes.{are_locks_compatible, are_locks_compatible_comm}
use lattice_db_next_gen_dbms.Locking.Queue.{
  LockRequest, LockRequestQueue, find_if, at, modify, erase_request, grant, fits_granted, can_grant,
  grant_lock, grant_if_waiting, grant_waiting, release,
}

-- Each granted request fits the granted ones behind it.
abbrev pub Fits : List LockRequest → Type 0
Fits [] = Unit {0}
Fits (r ∷ rs) = (r.granted ≡ true → fits_granted r rs ≡ true) × Fits rs

-- Any two granted requests of different transactions are compatible.
abbrev pub NoConflict : List LockRequest → Type 0
NoConflict rs =
    (i j : ℕ) (r s : LockRequest)
    → get_elem? rs i ≡ some r
    → get_elem? rs j ≡ some s
    → r.granted ≡ true
    → s.granted ≡ true
    → r.txn_id ≢ s.txn_id
    → are_locks_compatible r.lock_mode s.lock_mode ≡ true

fits_granted_at :
    (r : LockRequest) (rs : List LockRequest) (i : ℕ) (s : LockRequest)
    → fits_granted r rs ≡ true
    → get_elem? rs i ≡ some s
    → s.granted ≡ true
    → r.txn_id ≢ s.txn_id
    → are_locks_compatible s.lock_mode r.lock_mode ≡ true
unfolding fits_granted
fits_granted_at r [] i s f e g n = cc
fits_granted_at r (req ∷ reqs) zero s f e g n = ground arith
fits_granted_at r (req ∷ reqs) (suc i) s f e g n = fits_granted_at r reqs i s (ground arith) e g n

pub Fits-NoConflict : (rs : List LockRequest) → Fits rs → NoConflict rs
Fits-NoConflict [] f i j r s e e' g g' n = cc
Fits-NoConflict (x ∷ xs) f zero zero r s e e' g g' n = absurd (n (ground arith))
Fits-NoConflict (x ∷ xs) f zero (suc j) r s e e' g g' n =
    ground (arith, fits_granted_at x xs j s, are_locks_compatible_comm r.lock_mode s.lock_mode)
Fits-NoConflict (x ∷ xs) f (suc i) zero r s e e' g g' n = ground (arith, fits_granted_at x xs i r)
Fits-NoConflict (x ∷ xs) f (suc i) (suc j) r s e e' g g' n =
    Fits-NoConflict xs f.1 i j r s e e' g g' n

-- A request that fits may be granted.
fits_granted-modify :
    (x r : LockRequest) (a : ℕ) (rs : List LockRequest)
    → find_if (at a) rs ≡ some r
    → fits_granted x rs ≡ true
    → ((r.txn_id == x.txn_id) ≡ false → are_locks_compatible r.lock_mode x.lock_mode ≡ true)
    → fits_granted x (modify a grant rs) ≡ true
unfolding fits_granted find_if modify
fits_granted-modify x r a [] e f c = cc
fits_granted-modify x r a (y ∷ ys) e f c = ground (arith, fits_granted-modify x r a ys)

fits_granted-grant :
    (x : LockRequest) (rs : List LockRequest) → fits_granted (grant x) rs ≡ fits_granted x rs
unfolding fits_granted
fits_granted-grant x [] = refl
fits_granted-grant x (y ∷ ys) = ground (arith, fits_granted-grant x ys)

modify-grant-Fits :
    (r : LockRequest) (a : ℕ) (rs : List LockRequest)
    → find_if (at a) rs ≡ some r
    → fits_granted r rs ≡ true
    → Fits rs
    → Fits (modify a grant rs)
unfolding find_if modify fits_granted
modify-grant-Fits r a [] e f s = tt
modify-grant-Fits r a (x ∷ xs) e f s = elim (Bool-cases (x.address == a)) [
  | inl here ↦
      rw here ((λ _. ground (arith, fits_granted-grant x xs, fits_granted-grant r xs)), s.1)
  | inr there ↦ rw there (
    (λ g.
        fits_granted-modify x r a xs (ground arith) (s.0 g)
          (λ n. ground (arith, are_locks_compatible_comm r.lock_mode x.lock_mode))),
    modify-grant-Fits r a xs (ground arith) (ground arith) s.1,
  )
]

-- A request that is not granted, or that leaves, asks nothing of the others.
fits_granted-erase :
    (x : LockRequest) (a : ℕ) (rs : List LockRequest)
    → fits_granted x rs ≡ true
    → fits_granted x (erase_request a rs) ≡ true
unfolding fits_granted erase_request
fits_granted-erase x a [] f = refl
fits_granted-erase x a (y ∷ ys) f = ground (arith, fits_granted-erase x a ys)

pub erase_request-Fits : (a : ℕ) (rs : List LockRequest) → Fits rs → Fits (erase_request a rs)
unfolding erase_request
erase_request-Fits a [] s = tt
erase_request-Fits a (x ∷ xs) s = elim (Bool-cases (x.address == a)) [
  | inl here ↦ rw here s.1
  | inr there ↦ rw there ((λ g. fits_granted-erase x a xs (s.0 g)), erase_request-Fits a xs s.1)
]

fits_granted-waiting :
    (x : LockRequest) (f : LockRequest → LockRequest) (a : ℕ) (rs : List LockRequest)
    → ((r : LockRequest) → (f r).granted ≡ false)
    → fits_granted x rs ≡ true
    → fits_granted x (modify a f rs) ≡ true
unfolding fits_granted modify
fits_granted-waiting x f a [] w h = refl
fits_granted-waiting x f a (y ∷ ys) w h = ground (arith, w y, fits_granted-waiting x f a ys w)

pub modify_waiting-Fits :
    (f : LockRequest → LockRequest) (a : ℕ) (rs : List LockRequest)
    → ((r : LockRequest) → (f r).granted ≡ false)
    → Fits rs
    → Fits (modify a f rs)
unfolding modify
modify_waiting-Fits f a [] w s = tt
modify_waiting-Fits f a (x ∷ xs) w s = elim (Bool-cases (x.address == a)) [
  | inl here ↦ rw here ((λ g. ground (arith, w x)), s.1)
  | inr there ↦
      rw there ((λ g. fits_granted-waiting x f a xs w (s.0 g)), modify_waiting-Fits f a xs w s.1)
]

fits_granted-append :
    (x r : LockRequest) (rs : List LockRequest)
    → r.granted ≡ false
    → fits_granted x rs ≡ true
    → fits_granted x (rs ++ r ∷ []) ≡ true
unfolding fits_granted
fits_granted-append x r [] g f = ground arith
fits_granted-append x r (y ∷ ys) g f = ground (arith, fits_granted-append x r ys g)

pub append_waiting-Fits :
    (r : LockRequest) (rs : List LockRequest) → r.granted ≡ false → Fits rs → Fits (rs ++ r ∷ [])
unfolding fits_granted
append_waiting-Fits r [] g s = ((λ _. refl), tt)
append_waiting-Fits r (x ∷ xs) g s =
    ((λ h. fits_granted-append x r xs g (s.0 h)), append_waiting-Fits r xs g s.1)

can_grant-fits :
    (r : LockRequest) (q : LockRequestQueue)
    → can_grant r q ≡ true
    → fits_granted r q.request_queue ≡ true
unfolding can_grant
can_grant-fits r q c = ground arith

pub grant_lock-Fits :
    (a : ℕ) (q : LockRequestQueue) → Fits q.request_queue → Fits (grant_lock a q).request_queue
unfolding grant_lock
grant_lock-Fits a q s = elim (Option-cases (find_if (at a) q.request_queue)) [
  | inl e ↦ rw (e, grant_lock) s
  | inr (r, e) ↦ elim (Bool-cases (can_grant r q)) [
    | inl c ↦
        rw (e, grant_lock, c) (modify-grant-Fits r a q.request_queue e (can_grant-fits r q c) s)
    | inr c ↦ rw (e, grant_lock, c) s
  ]
]

grant_if_waiting-Fits :
    (a : ℕ) (q : LockRequestQueue)
    → Fits q.request_queue
    → Fits (grant_if_waiting a q).request_queue
unfolding grant_if_waiting
grant_if_waiting-Fits a q s = elim (Option-cases (find_if (at a) q.request_queue)) [
  | inl e ↦ rw (e, grant_if_waiting) s
  | inr (r, e) ↦ elim (Bool-cases r.granted) [
    | inl g ↦ rw (e, grant_if_waiting, g) s
    | inr g ↦ rw (e, grant_if_waiting, g) (grant_lock-Fits a q s)
  ]
]

pub grant_waiting-Fits :
    (rest : List ℕ) (q : LockRequestQueue)
    → Fits q.request_queue
    → Fits (grant_waiting rest q).request_queue
unfolding grant_waiting
grant_waiting-Fits [] q s = s
grant_waiting-Fits (a ∷ rest) q s =
    grant_waiting-Fits rest (grant_if_waiting a q) (grant_if_waiting-Fits a q s)

pub release-Fits :
    (a : ℕ) (q : LockRequestQueue) → Fits q.request_queue → Fits (release a q).request_queue
unfolding release
release-Fits a q s = grant_waiting-Fits _ _ (erase_request-Fits a q.request_queue s)
