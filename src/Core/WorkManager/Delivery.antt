-- ===== src/Core/WorkManager/Delivery.antt =====
-- Every event reaches the worker once, in its order.
use cbbncd.Base.{
  ℕ, zero, suc, ◌≡◌, refl, sym, ◌∙◌, ap, subst, List, [], ◌∷◌, ◌++◌, append_assoc, append-nil,
  ◌≡⟨◌⟩◌, ◌∎, Bool, true, false, by_test, Option, none, some, if◌then◌else◌,
}
use cbbncd.Core.BlockingQueue.{BlockingQueue}
use cbbncd.Core.SignalEvents.{SignalData, SignalEvents, set_signal}
use cbbncd.Core.Event.{
  Prio, low, normal, high, Event, EventType, data_event, databuf, tick, connecting, connected,
  disconnected, ssl_success, new, fail, send_complete, delete, async_complete, async_complete_p,
  application_message, flush,
}
use cbbncd.Core.WorkManager.{
  WorkManager, is_overload, is_low_overload, dispatch, keeps_up, posted_if, wait_readdata_for,
}
use cbbncd.Core.WorkManager.Worker.{got_signal, got_event, next, is_ready, after_call, finish}
use cbbncd.Core.WorkManager.Taking.{queue_of, Leaves, Serves, next-Serves}
use cbbncd.Core.WorkManager.Histories.{
  Ask, sends, sends_answered, raises, wants_ready, awaits_readdata, asked, events_of, Worker, idle,
  Reaches, starts, asks, takes, signals, finishes, reached-Fits,
}

abbrev pub same_prio : Prio → Prio → Bool
same_prio low low = true
same_prio normal normal = true
same_prio high high = true
same_prio p q = false

-- The events of one priority.
abbrev pub select : Prio → List (Prio × Event) → List Event
select p [] = []
select p ((q, e) ∷ events) = if same_prio q p then e ∷ select p events else select p events

select-append :
    (p : Prio) (xs ys : List (Prio × Event)) → select p (xs ++ ys) ≡ select p xs ++ select p ys
select-append p [] ys = refl
select-append p ((q, e) ∷ xs) ys =
    elim (same_prio q p)
      as (λ b.
        (if b then e ∷ select p (xs ++ ys) else select p (xs ++ ys))
        ≡ (if b then e ∷ select p xs else select p xs) ++ select p ys) [
          | true ↦ ap (λ s. e ∷ s) (select-append p xs ys)
          | false ↦ select-append p xs ys
        ]

dispatch-queue_of :
    (p q : Prio) (e : Event) (m : WorkManager)
    → queue_of p (dispatch q e m) ≡ queue_of p m ++ select p ((q, e) ∷ [])
dispatch-queue_of low low e m = refl
dispatch-queue_of low normal e m = sym (append-nil _)
dispatch-queue_of low high e m = sym (append-nil _)
dispatch-queue_of normal low e m = sym (append-nil _)
dispatch-queue_of normal normal e m = refl
dispatch-queue_of normal high e m = sym (append-nil _)
dispatch-queue_of high low e m = sym (append-nil _)
dispatch-queue_of high normal e m = sym (append-nil _)
dispatch-queue_of high high e m = refl

-- The queues of both managers are the same.
abbrev Same : WorkManager → WorkManager → Type 0
Same m m' =
    (m.lowprioqueue ≡ m'.lowprioqueue)
    × (m.dataqueue ≡ m'.dataqueue)
    × (m.highprioqueue ≡ m'.highprioqueue)

Same-queue_of : (p : Prio) (m m' : WorkManager) → Same m m' → queue_of p m ≡ queue_of p m'
Same-queue_of low m m' (l, d, h) = ap (λ (q : BlockingQueue Event). q.queue) l
Same-queue_of normal m m' (l, d, h) = ap (λ (q : BlockingQueue Event). q.queue) d
Same-queue_of high m m' (l, d, h) = ap (λ (q : BlockingQueue Event). q.queue) h

keeps_up-Same : (q : Prio) (m : WorkManager) → Same m (keeps_up q m).1
keeps_up-Same low m =
    by_test (λ (m' : WorkManager). Same m m') (is_low_overload m) _ m (λ _. (refl, refl, refl))
      (λ _. (refl, refl, refl))
keeps_up-Same normal m =
    by_test (λ (m' : WorkManager). Same m m') (is_overload m) _ m (λ _. (refl, refl, refl))
      (λ _. (refl, refl, refl))
keeps_up-Same high m =
    by_test (λ (m' : WorkManager). Same m m') (is_overload m) _ m (λ _. (refl, refl, refl))
      (λ _. (refl, refl, refl))

after_call-Same : (t : EventType) (e : Event) (m : WorkManager) → Same m (after_call t e m)
after_call-Same data_event e m = (refl, refl, refl)
after_call-Same databuf e m = (refl, refl, refl)
after_call-Same flush e m = (refl, refl, refl)
after_call-Same tick e m = (refl, refl, refl)
after_call-Same connecting e m = (refl, refl, refl)
after_call-Same connected e m = (refl, refl, refl)
after_call-Same disconnected e m = (refl, refl, refl)
after_call-Same ssl_success e m = (refl, refl, refl)
after_call-Same new e m = (refl, refl, refl)
after_call-Same fail e m = (refl, refl, refl)
after_call-Same send_complete e m = (refl, refl, refl)
after_call-Same delete e m = (refl, refl, refl)
after_call-Same async_complete e m = (refl, refl, refl)
after_call-Same async_complete_p e m = (refl, refl, refl)
after_call-Same application_message e m = (refl, refl, refl)

finish-Same : (e : Event) (m : WorkManager) → Same m (finish e m).1
finish-Same e m =
    by_test (λ (r : List ℕ × WorkManager). Same m r.1) (is_ready (after_call e.type e m)) _ _
      (λ _. after_call-Same e.type e m) (λ _. after_call-Same e.type e m)

-- What an ask adds.
abbrev Adds : Prio → List Event → WorkManager → Option WorkManager → Type 0
Adds p events m none = Unit {0}
Adds p events m (some m') = queue_of p m' ≡ queue_of p m ++ events

Adds-Same : (p : Prio) (m m' : WorkManager) → Same m m' → Adds p [] m (some m')
Adds-Same p m m' s = sym (Same-queue_of p m m' s) ∙ sym (append-nil (queue_of p m))

posted_if-Adds :
    (p : Prio) (m : WorkManager) (r : Option (Bool × SignalEvents)) → Adds p [] m (posted_if m r)
posted_if-Adds p m none = tt
posted_if-Adds p m (some (true, s)) = Adds-Same p m _ (refl, refl, refl)
posted_if-Adds p m (some (false, s)) = Adds-Same p m _ (refl, refl, refl)

wait-Adds : (p : Prio) (n : ℕ) (m : WorkManager) → Adds p [] m (wait_readdata_for n m)
wait-Adds p zero m = tt
wait-Adds p (suc n) m = Adds-Same p m _ (refl, refl, refl)

asked-Adds : (p : Prio) (a : Ask) (m : WorkManager) → Adds p (select p (events_of a)) m (asked a m)
asked-Adds p (sends q e) m = dispatch-queue_of p q e m
asked-Adds p (sends_answered q e) m =
    sym (Same-queue_of p (dispatch q e m) _ (keeps_up-Same q (dispatch q e m)))
    ∙ dispatch-queue_of p q e m
asked-Adds p (raises er signal value) m =
    posted_if-Adds p m (set_signal (some er) signal value m.signalevents)
asked-Adds p (wants_ready er) m = Adds-Same p m _ (refl, refl, refl)
asked-Adds p awaits_readdata m = wait-Adds p m.readdata m

Leaves-queue_of :
    (p q : Prio) (e : Event) (m m' : WorkManager)
    → Leaves q e m m'
    → queue_of p m ≡ select p ((q, e) ∷ []) ++ queue_of p m'
Leaves-queue_of low low e m m' (a, b, c) = a
Leaves-queue_of low normal e m m' (a, b, c) = ap (λ (q : BlockingQueue Event). q.queue) b
Leaves-queue_of low high e m m' (a, b, c) = ap (λ (q : BlockingQueue Event). q.queue) c
Leaves-queue_of normal low e m m' (a, b, c) = ap (λ (q : BlockingQueue Event). q.queue) b
Leaves-queue_of normal normal e m m' (a, b, c) = a
Leaves-queue_of normal high e m m' (a, b, c) = ap (λ (q : BlockingQueue Event). q.queue) b
Leaves-queue_of high low e m m' (a, b, c) = ap (λ (q : BlockingQueue Event). q.queue) c
Leaves-queue_of high normal e m m' (a, b, c) = ap (λ (q : BlockingQueue Event). q.queue) c
Leaves-queue_of high high e m m' (a, b, c) = a

got_event-queue_of :
    (p q : Prio) (e : Event) (m m' : WorkManager)
    → Serves m (got_event q e m')
    → queue_of p m ≡ select p ((q, e) ∷ []) ++ queue_of p m'
got_event-queue_of p q e m m' (s, first, leaves, f) = Leaves-queue_of p q e m m' leaves

got_signal-queue_of :
    (p : Prio) (s : SignalData) (m m' : WorkManager)
    → Serves m (got_signal s m')
    → queue_of p m ≡ queue_of p m'
got_signal-queue_of p s m m' (n, l, d, h, f) = Same-queue_of p m m' (l, d, h)

-- In every history in which no receiver is flushed and the manager is not stopped: of the events of
-- one priority, those that the worker has taken are the first
-- ones that were dispatched, each once and in the order in which they were; the others wait in
-- theirs.
pub Reaches-delivers :
    {w : Worker} {m : WorkManager} {sent taken : List (Prio × Event)} (p : Prio)
    → Reaches w m sent taken
    → select p taken ++ queue_of p m ≡ select p sent
Reaches-delivers low (starts pool) = refl
Reaches-delivers normal (starts pool) = refl
Reaches-delivers high (starts pool) = refl
Reaches-delivers p (asks w m m' sent taken a r e) =
    select p taken ++ queue_of p m'
    ≡⟨ ap (λ s. select p taken ++ s)
        (subst (Adds p (select p (events_of a)) m) e (asked-Adds p a m)) ⟩
      select p taken ++ (queue_of p m ++ select p (events_of a))
    ≡⟨ sym (append_assoc (select p taken) _ _) ⟩
      (select p taken ++ queue_of p m) ++ select p (events_of a)
    ≡⟨ ap (λ s. s ++ select p (events_of a)) (Reaches-delivers p r) ⟩
      select p sent ++ select p (events_of a)
    ≡⟨ sym (select-append p sent (events_of a)) ⟩ select p (sent ++ events_of a) ∎
Reaches-delivers p (takes m m' sent taken q first r e) =
    select p (taken ++ (q, first) ∷ []) ++ queue_of p m'
    ≡⟨ ap (λ s. s ++ queue_of p m') (select-append p taken ((q, first) ∷ [])) ⟩
      (select p taken ++ select p ((q, first) ∷ [])) ++ queue_of p m'
    ≡⟨ append_assoc (select p taken) _ _ ⟩
      select p taken ++ (select p ((q, first) ∷ []) ++ queue_of p m')
    ≡⟨ ap (λ s. select p taken ++ s)
        (sym (
          got_event-queue_of p q first m m'
            (subst (Serves m) e (next-Serves m (reached-Fits r))))) ⟩
      select p taken ++ queue_of p m
    ≡⟨ Reaches-delivers p r ⟩ select p sent ∎
Reaches-delivers p (signals m m' sent taken s r e) =
    ap (λ q. select p taken ++ q)
      (sym (got_signal-queue_of p s m m' (subst (Serves m) e (next-Serves m (reached-Fits r)))))
    ∙ Reaches-delivers p r
Reaches-delivers p (finishes m sent taken first r) =
    ap (λ q. select p taken ++ q) (sym (Same-queue_of p m _ (finish-Same first m)))
    ∙ Reaches-delivers p r

-- In every history in which no receiver is flushed and the manager is not stopped, a worker between
-- two rounds waits only if no signal and no event waits, never
-- in a queue; otherwise it gets a signal, and if none waits the first event of the highest
-- priority that has one.
pub Reaches-Serves :
    {m : WorkManager} {sent taken : List (Prio × Event)}
    → Reaches idle m sent taken
    → Serves m (next m)
Reaches-Serves {m = m} r = next-Serves m (reached-Fits r)
