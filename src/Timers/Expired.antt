-- ===== src/Timers/Expired.antt =====
-- crates/micromux/src/scheduler.rs: `expire_due`, on the runtimes alone.
use micromux.Prelude.{
  ℕ, ◌≡◌, refl, ap, ◌∙◌, List, [], ◌∷◌, true, false, arith, ltb, map_or, All, filter_map,
  least-above, lookup, insert, text_eq, text_eq_self, Bool-cases, inl, inr,
}
use micromux.Model.{ServiceId, RetiredReason}
use micromux.Service.{ServiceMap}
use micromux.Runtime.{Clock, ServiceRuntime}
use micromux.Runtime.Methods.{disable}
use micromux.Runtime.Invariant.{IsValid}
use micromux.Session.{Runtimes, Session, put}
use micromux.Schedule.Valid.{AreValid}
use micromux.Events.{update}
use micromux.Timers.Rearmed.{later-or_cons}
use micromux.Events.Written.{sync-runtimes}
use micromux.Timers.Over.{retire_if, IsAfterExpiry, retire_if-IsAtExpiry}
use micromux.Timers.{
  next_expiry, expiry_of, each, has_expired, retired_for, expire, expire_each, expired_ids,
  expire_due,
}

-- The ids of the runtimes differ.
abbrev pub AreUnique : Runtimes → Type 0
AreUnique [] = Unit
AreUnique ((id, r) ∷ m) = All (λ e. text_eq id e.0 ≡ false) m × AreUnique m

-- `update` on the runtimes alone.
unfoldable change_at : ServiceId → (ServiceRuntime → ServiceRuntime) → Runtimes → Runtimes
unfolding lookup insert
change_at id f m = map_or (lookup id m) m (λ r. insert id (f r) m)

abbrev change_each : List ServiceId → (ServiceRuntime → ServiceRuntime) → Runtimes → Runtimes
change_each [] f m = m
change_each (id ∷ ids) f m = change_each ids f (change_at id f m)

change_at-head :
    (id : ServiceId) (f : ServiceRuntime → ServiceRuntime) (r : ServiceRuntime) (m : Runtimes)
    → change_at id f ((id, r) ∷ m) ≡ (id, f r) ∷ m
unfolding change_at
change_at-head id f r m = ground (arith, text_eq_self id)

change_at-tail :
    (id other : ServiceId) (f : ServiceRuntime → ServiceRuntime) (r : ServiceRuntime) (m : Runtimes)
    → text_eq other id ≡ false
    → change_at id f ((other, r) ∷ m) ≡ (other, r) ∷ change_at id f m
unfolding change_at
change_at-tail id other f r m ne = ground arith

change_each-tail :
    (ids : List ServiceId) (other : ServiceId) (f : ServiceRuntime → ServiceRuntime)
    (r : ServiceRuntime) (m : Runtimes)
    → All (λ id. text_eq other id ≡ false) ids
    → change_each ids f ((other, r) ∷ m) ≡ (other, r) ∷ change_each ids f m
change_each-tail [] other f r m h = refl
change_each-tail (id ∷ ids) other f r m h =
    ap (change_each ids f) (change_at-tail id other f r m h.0)
    ∙ change_each-tail ids other f r (change_at id f m) h.1

expired_ids-differ :
    (now : ℕ) (other : ServiceId) (m : Runtimes)
    → All (λ (e : ServiceId × ServiceRuntime). text_eq other e.0 ≡ false) m
    → All (λ id. text_eq other id ≡ false) (expired_ids now m)
expired_ids-differ now other [] h = tt
expired_ids-differ now other ((id, r) ∷ m) h = elim (Bool-cases (has_expired now r)) [
  | inl over ↦ rw over (h.0, expired_ids-differ now other m h.1)
  | inr live ↦ rw live (expired_ids-differ now other m h.1)
]

change_expired :
    (clock : Clock) (m : Runtimes)
    → AreUnique m
    → change_each (expired_ids clock.now m) (retired_for clock RetiredReason.expired) m
      ≡ each (retire_if clock) m
change_expired clock [] u = refl
change_expired clock ((id, r) ∷ m) u =
    let retire = retired_for clock RetiredReason.expired in
    let rest = change_expired clock m u.1 in
    let differ = expired_ids-differ clock.now id m u.0 in
    elim (Bool-cases (has_expired clock.now r)) [
      | inl over ↦ rw over (
          ap (change_each (expired_ids clock.now m) retire) (change_at-head id retire r m)
          ∙ change_each-tail (expired_ids clock.now m) id retire (retire r) m differ
          ∙ ap (◌∷◌ (id, retire r)) rest)
      | inr live ↦
          rw live (
            change_each-tail (expired_ids clock.now m) id retire r m differ ∙ ap (◌∷◌ (id, r)) rest)
    ]

update-change_at :
    (id : ServiceId) (f : ServiceRuntime → ServiceRuntime) (s : Session)
    → (update id f s).runtimes ≡ change_at id f s.runtimes
unfolding update change_at put
update-change_at id f s = ground arith

expire-runtimes :
    (clock : Clock) (services : ServiceMap) (id : ServiceId) (s : Session)
    → (expire clock services id s).runtimes
      ≡ change_at id (retired_for clock RetiredReason.expired) s.runtimes
unfolding expire
expire-runtimes clock services id s =
    sync-runtimes clock services id (update id (retired_for clock RetiredReason.expired) s)
    ∙ update-change_at id (retired_for clock RetiredReason.expired) s

expire_each-runtimes :
    (clock : Clock) (services : ServiceMap) (ids : List ServiceId) (s : Session)
    → (expire_each clock services ids s).runtimes
      ≡ change_each ids (retired_for clock RetiredReason.expired) s.runtimes
expire_each-runtimes clock services [] s = refl
expire_each-runtimes clock services (id ∷ ids) s =
    expire_each-runtimes clock services ids (expire clock services id s)
    ∙ ap (change_each ids (retired_for clock RetiredReason.expired))
        (expire-runtimes clock services id s)

pub expire_due-runtimes :
    (clock : Clock) (services : ServiceMap) (s : Session)
    → AreUnique s.runtimes
    → (expire_due clock services s).0.runtimes ≡ each (retire_if clock) s.runtimes
unfolding expire_due
expire_due-runtimes clock services s u =
    expire_each-runtimes clock services (expired_ids clock.now s.runtimes) s
    ∙ change_expired clock s.runtimes u

one_lease :
    (clock : Clock) (r : ServiceRuntime)
    → map_or (expiry_of (retire_if clock r)) true (ltb clock.now) ≡ true
one_lease clock r = ground arith

leases_later :
    (clock : Clock) (m : Runtimes)
    → All
        (λ d. ltb clock.now d ≡ true)
        (filter_map (λ (e : ServiceId × ServiceRuntime). expiry_of e.1) (each (retire_if clock) m))
leases_later clock [] = tt
leases_later clock ((id, r) ∷ m) =
    later-or_cons clock.now (expiry_of (retire_if clock r)) _ (one_lease clock r)
      (leases_later clock m)

retire_if-IsValid : (clock : Clock) (r : ServiceRuntime) → IsValid r → IsValid (retire_if clock r)
unfolding disable
retire_if-IsValid clock r v = ground arith

each-AreValid : (clock : Clock) (m : Runtimes) → AreValid m → AreValid (each (retire_if clock) m)
each-AreValid clock [] v = tt
each-AreValid clock ((id, r) ∷ m) v = (retire_if-IsValid clock r v.0, each-AreValid clock m v.1)

each-IsAfterExpiry :
    (clock : Clock) (m : Runtimes) → IsAfterExpiry clock m (each (retire_if clock) m)
each-IsAfterExpiry clock [] = tt
each-IsAfterExpiry clock ((id, r) ∷ m) =
    (refl, retire_if-IsAtExpiry clock r, each-IsAfterExpiry clock m)

-- With runtimes of distinct ids, at the instant that `expire_due` reads: each runtime that is not
-- retired and has a lease whose deadline has come is retired for its expiry at that time, with no
-- lease left, to be disabled, in the state disabled, with no start requested, no backoff and its
-- process, if it has one, told to end, and all else as before; each other runtime is as before. No
-- lease that the main loop waits for is then over, and well-formed runtimes stay so.
pub expire_due-retires :
    (clock : Clock) (services : ServiceMap) (s : Session)
    → AreUnique s.runtimes
    → AreValid s.runtimes
    → let after = (expire_due clock services s).0.runtimes in
      IsAfterExpiry clock s.runtimes after
      × ((map_or (next_expiry after) true (ltb clock.now) ≡ true) × AreValid after)
unfolding next_expiry
expire_due-retires clock services s u v = rw (expire_due-runtimes clock services s u) (
  each-IsAfterExpiry clock s.runtimes,
  (least-above clock.now _ (leases_later clock s.runtimes), each-AreValid clock s.runtimes v),
)
