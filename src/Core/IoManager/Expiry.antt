-- ===== src/Core/IoManager/Expiry.antt =====
-- The tick of the IOManager ends, and closes just the sockets that have had their time.
use cbbncd.Base.{
  ℕ, zero, suc, ◌<◌, ◌≡◌, refl, sym, ap, ap₂, ◌∙◌, subst, List, length, Bool, true, false, not,
  ◌||◌, Option, none, some, ◌==◌, if◌then◌else◌, by_test, arith, Bool-cases, ==_iff, inl, inr,
}
use cbbncd.Core.SocketInfo.{SocketInfo}
use cbbncd.Core.Event.{normal}
use cbbncd.Core.WorkManager.{dispatch_event_fail}
use cbbncd.Core.IoManager.{IoManager, working, erase_key, close_found, close_socket_intern}
use cbbncd.Core.IoManager.Timeouts.{
  age, timeout_text, first_expired, tell_timeout, expire, expire_round, tick,
}
use cbbncd.Core.IoManager.Elapsing.{
  is_over, times_out, time_of, later, is_over-age, time_of-age, time_of-erase_key, expired_count,
  expired_count_le, length-age, Found, first_expired-Found, is_over-erase_key, erase_key_less,
}

-- A round closes its socket, and touches no other.
abbrev Closes : ℕ → IoManager → IoManager → Type 0
Closes sockid m m' =
    ((id : ℕ) → m'.socketinfomap id ≡ (if sockid == id then none else m.socketinfomap id))
    × (m'.connecttimemap ≡ erase_key sockid m.connecttimemap)

close-Closes :
    (sockid : ℕ) (s : SocketInfo) (m : IoManager)
    → m.socketinfomap sockid ≡ some s
    → Closes sockid m (close_socket_intern sockid m)
close-Closes sockid s m e =
    subst (λ o. Closes sockid m (close_found sockid o m)) (sym e) ((λ id. refl), refl)

told-Closes :
    (sockid : ℕ) (s : SocketInfo) (m : IoManager)
    → m.socketinfomap sockid ≡ some s
    → Closes sockid m (close_socket_intern sockid (tell_timeout sockid (m.socketinfomap sockid) m))
told-Closes sockid s m e =
    subst (λ o. Closes sockid m (close_socket_intern sockid (tell_timeout sockid o m))) (sym e)
      (by_test (λ (m1 : IoManager). Closes sockid m (close_socket_intern sockid m1)) (not s.closing)
        _ m
        (λ _.
          close-Closes sockid s
            (working (dispatch_event_fail s.receiver sockid timeout_text normal m.workmanager) m) e)
        (λ _. close-Closes sockid s m e))

-- Every socket whose time is over is there.
abbrev IsThere : IoManager → Type 0
IsThere m =
    (id : ℕ) → is_over id m.connecttimemap ≡ true → (s : SocketInfo) × (m.socketinfomap id ≡ some s)

-- The second loop ends, and just the sockets whose time is over are gone, with their times.
abbrev Expires : IoManager → Option IoManager → Type 0
Expires m r =
    (m' : IoManager) × (r ≡ some m')
    × ((id : ℕ)
        → (m'.socketinfomap id ≡ (if is_over id m.connecttimemap then none else m.socketinfomap id))
          × (time_of id m'.connecttimemap
              ≡ (if is_over id m.connecttimemap then none else time_of id m.connecttimemap)))

closed_first {ℓ} :
    {A : Type ℓ} (a b : Bool) (o : Option A)
    → (if (if a then false else b) then none else (if a then none else o))
      ≡ (if a || b then none else o)
closed_first true true o = refl
closed_first true false o = refl
closed_first false true o = refl
closed_first false false o = refl

same_as :
    (k id : ℕ) (times : List (ℕ × Option ℕ))
    → is_over k times ≡ true
    → (k == id || is_over id times) ≡ is_over id times
same_as k id times h = elim (Bool-cases (k == id)) [
  | inl e ↦
      let x : is_over id times ≡ true = subst (λ j. is_over j times ≡ true) ((==_iff k id).0 e) h in
      ground (arith, e, x)
  | inr e ↦ ground (arith, e)
]

split_if : (a b : Bool) → (if a then false else b) ≡ true → (a ≡ false) × (b ≡ true)
split_if true b h = cc
split_if false b h = (refl, h)

IsThere-Closes : (k : ℕ) (m m' : IoManager) → Closes k m m' → IsThere m → IsThere m'
IsThere-Closes k m m' (gone, times) there id h =
    let (other, late) =
      split_if (k == id) (is_over id m.connecttimemap)
        (sym (is_over-erase_key id k m.connecttimemap) ∙ (ap (is_over id) (sym times) ∙ h)) in
    let (s, found) = there id late in
    (s, gone id ∙ (ap (λ b. if b then none else m.socketinfomap id) other ∙ found))

gone_then {ℓ} :
    {A : Type ℓ} (k id : ℕ) (times : List (ℕ × Option ℕ)) (o : Option A)
    → is_over k times ≡ true
    → (if (if k == id then false else is_over id times)
        then none
        else (if k == id then none else o))
      ≡ (if is_over id times then none else o)
gone_then k id times o h =
    closed_first (k == id) (is_over id times) o
    ∙ ap (λ b. if b then none else o) (same_as k id times h)

expire_step :
    (fuel : ℕ)
    (rest : (m : IoManager)
      → expired_count m.connecttimemap < fuel
      → IsThere m
      → Expires m (expire fuel m))
    (m : IoManager) (o : Option ℕ)
    → Found m.connecttimemap o
    → expired_count m.connecttimemap < suc fuel
    → IsThere m
    → Expires m (expire_round (expire fuel) m o)
expire_step fuel rest m none found h there = (
  m,
  refl,
  λ id. (
    ap (λ b. if b then none else m.socketinfomap id) (sym (found id)),
    ap (λ b. if b then none else time_of id m.connecttimemap) (sym (found id)),
  ),
)
expire_step fuel rest m (some k) found h there =
    let (s, e) = there k found in
    let closed = close_socket_intern k (tell_timeout k (m.socketinfomap k) m) in
    let (gone, times) = told-Closes k s m e in
    let (m', ends, left) =
      rest closed
        (subst (λ t. expired_count t < fuel) (sym times)
          (omega (arith, h, erase_key_less k m.connecttimemap found)))
        (IsThere-Closes k m closed (gone, times) there) in
    (
      m',
      ends,
      λ id.
          let over = ap (is_over id) times ∙ is_over-erase_key id k m.connecttimemap in
          let time = ap (time_of id) times ∙ time_of-erase_key id k m.connecttimemap in
          (
            (left id).0
                ∙ (ap₂ (λ a b. if a then none else b) over (gone id)
                    ∙ gone_then k id m.connecttimemap (m.socketinfomap id) found),
            (left id).1
                ∙ (ap₂ (λ a b. if a then none else b) over time
                    ∙ gone_then k id m.connecttimemap (time_of id m.connecttimemap) found),
          ),
    )

expire-Expires :
    (fuel : ℕ) (m : IoManager)
    → expired_count m.connecttimemap < fuel
    → IsThere m
    → Expires m (expire fuel m)
unfolding expire
expire-Expires zero m h there = absurd (omega arith)
expire-Expires (suc fuel) m h there =
    expire_step fuel (expire-Expires fuel) m (first_expired m.connecttimemap)
      (first_expired-Found m.connecttimemap) h there

kept_times :
    (id : ℕ) (times : List (ℕ × Option ℕ))
    → (if times_out id times then none else time_of id (age times))
      ≡ (if times_out id times then none else later (time_of id times))
kept_times id times = elim (Bool-cases (times_out id times)) [
  | inl e ↦ rw e refl
  | inr e ↦ rw e (time_of-age id times e)
]

tick_fuel : (times : List (ℕ × Option ℕ)) → expired_count (age times) < suc (length times)
tick_fuel times = omega (arith, expired_count_le (age times), length-age times)

-- If every socket that times out is in the map, the loops of `tick` end. The sockets for which
-- CONNECT_TIMEOUT_MS, 5000 ms, have gone with the 100 ms of this tick are closed, and no other is
-- touched; for those that go on connecting these 100 ms are added to the time that has gone.
pub tick-Expires :
    (m : IoManager)
    → ((id : ℕ)
        → times_out id m.connecttimemap ≡ true
        → (s : SocketInfo) × (m.socketinfomap id ≡ some s))
    → (m' : IoManager) × (tick m ≡ some m')
      × ((id : ℕ)
          → (m'.socketinfomap id
              ≡ (if times_out id m.connecttimemap then none else m.socketinfomap id))
            × (time_of id m'.connecttimemap ≡ (
                if times_out id m.connecttimemap
                then none
                else later (time_of id m.connecttimemap))))
unfolding tick
tick-Expires m there =
    let aged_m = record m { connecttimemap = age m.connecttimemap } in
    let (m', ends, gone) =
      expire-Expires (suc (length m.connecttimemap)) aged_m (tick_fuel m.connecttimemap)
        (λ id h. there id (sym (is_over-age id m.connecttimemap) ∙ h)) in
    (
      m',
      ends,
      λ id.
          let over = is_over-age id m.connecttimemap in
          (
            (gone id).0 ∙ ap (λ b. if b then none else m.socketinfomap id) over,
            (gone id).1
                ∙ (ap (λ b. if b then none else time_of id (age m.connecttimemap)) over
                    ∙ kept_times id m.connecttimemap),
          ),
    )
