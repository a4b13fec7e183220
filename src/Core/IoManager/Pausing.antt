-- ===== src/Core/IoManager/Pausing.antt =====
-- The calls that pause sockets and let them go on, in any order.
use cbbncd.Base.{
  ℕ, ◌≡◌, ◌≢◌, refl, sym, ap, ◌∙◌, subst, ◌⊎◌, inl, inr, List, [], ◌∷◌, Bool, true, false, not,
  Option, none, some, ◌==◌, by_test, Bool-cases, ==_iff, Option-cases, leb, length, arith,
}
use cbbncd.Base.Text.{Bytes}
use cbbncd.Core.DataBlockPool.{DataBlockPool}
use cbbncd.Core.Polling.{FdMap}
use cbbncd.Core.SocketInfo.{SocketInfo}
use cbbncd.Core.IoManager.{
  IoManager, put, has, close_found, close_socket_intern, close_or_wait, close_socket, auto_pause,
  pause_found, pause, resume_found, resume, repolled, wake_found, wake_all, worker_ready,
  set_poll_write,
}
use cbbncd.Core.IoManager.Sending.{Queue, is_sending, sent_queue, send_found, send_data}
use cbbncd.Core.IoManager.Closing.{put_self}
use cbbncd.Core.IoManager.Pauses.{IsCalm, put_cases, Touches, no_entry, put-IsCalm, ==_ne}
use cbbncd.Core.IoManager.Marking.{
  IsOrderly, keep-IsOrderly, pause_found-IsOrderly, auto_pause-IsOrderly, resume_found-IsOrderly,
  close_found-IsOrderly, close_or_wait-IsOrderly, set_poll_write-IsOrderly, add_for-Touches,
  is_true, is_false, never_true, left_out,
}

-- A call about a socket; `overloads` is that of `autoPause`.
pub data Step : Type 0 where
  pauses : ℕ → Step
  resumes : ℕ → Step
  overloads : ℕ → Step
  readies : Step
  closes : ℕ → Step
  closes_when_sent : ℕ → Step
  sends : (ℕ → ℕ) → ℕ → Bytes → Step

abbrev pub auto_found : ℕ → Option SocketInfo → IoManager → IoManager
auto_found sockid none m = m
auto_found sockid (some s) m = auto_pause sockid s m

-- A call whose assertion fails is left out.
abbrev pub sent_or : IoManager → Option (Bool × IoManager) → IoManager
sent_or m none = m
sent_or m (some (answer, m')) = m'

abbrev pub stepped : Step → IoManager → IoManager
stepped (pauses sockid) m = pause sockid m
stepped (resumes sockid) m = resume sockid m
stepped (overloads sockid) m = auto_found sockid (m.socketinfomap sockid) m
stepped readies m = worker_ready m
stepped (closes sockid) m = close_socket_intern sockid m
stepped (closes_when_sent sockid) m = close_socket sockid m
stepped (sends malloc sockid bytes) m = sent_or m (send_data malloc sockid bytes m)

abbrev pub steps : List Step → IoManager → IoManager
steps [] m = m
steps (step ∷ more) m = steps more (stepped step m)

-- While the loop of `workerReady` runs: what is known of the sockets that it does not come to
-- any more, or that are paused by hand.
abbrev pub Waking : List ℕ → IoManager → Type 0
Waking rest m =
    ((id : ℕ) (s : SocketInfo)
      → m.socketinfomap id ≡ some s
      → (has id rest ≡ false) ⊎ (has id m.manuallypaused ≡ true)
      → s.paused ≡ has id m.manuallypaused)
    × IsCalm m

-- A socket that the loop passes over.
passed :
    (id sockid : ℕ) (rest : List ℕ) (manual : Bool)
    → sockid ≢ id
    → (has id rest ≡ false) ⊎ (manual ≡ true)
    → (has id (sockid ∷ rest) ≡ false) ⊎ (manual ≡ true)
passed id sockid rest manual h (inl e) = inl (ground (arith, h, e))
passed id sockid rest manual h (inr e) = inr e

pub repolled-Touches :
    (sockid : ℕ) (s : SocketInfo) (er : Option ℕ) (polls : FdMap)
    → Touches s.fd polls (repolled sockid s er polls)
repolled-Touches sockid s none polls = λ other h. refl
repolled-Touches sockid s (some er) polls = add_for-Touches s.direction s.fd sockid polls

pub wake_found-Waking :
    (sockid : ℕ) (rest : List ℕ) (found : Option SocketInfo) (m : IoManager)
    → m.socketinfomap sockid ≡ found
    → Waking (sockid ∷ rest) m
    → Waking rest (wake_found sockid found m)
wake_found-Waking sockid rest none m e (loose, calm) = (
  (λ id t f h. elim (Bool-cases (sockid == id)) [
    | inl same ↦ absurd (no_entry (sym e ∙ (ap m.socketinfomap ((==_iff sockid id).0 same) ∙ f)))
    | inr other ↦ loose id t f (passed id sockid rest _ (==_ne sockid id other) h)
  ]),
  calm,
)
wake_found-Waking sockid rest (some s) m e (loose, calm) =
    by_test (Waking rest) (not (has sockid m.manuallypaused)) _ m
      (λ free. (
        (λ id t f h. elim (put_cases sockid id (record s { paused = false }) t m f) [
          | inl new ↦
              sym (ap (λ (r : SocketInfo). r.paused) new.1)
              ∙ subst (λ k. false ≡ has k m.manuallypaused) new.0 (sym (is_false free))
          | inr old ↦ loose id t old.1 (passed id sockid rest _ old.0 h)
        ]),
        put-IsCalm sockid s (record s { paused = false }) (repolled sockid s s.receiver m.polling) m
            e refl (repolled-Touches sockid s s.receiver m.polling) (λ p n f. absurd (never_true p))
            calm,
      ))
      (λ held. (
        (λ id t f h. elim (Bool-cases (sockid == id)) [
          | inl same ↦ loose id t f (
              inr (
                subst (λ k. has k m.manuallypaused ≡ true) ((==_iff sockid id).0 same)
                  (is_true held)))
          | inr other ↦ loose id t f (passed id sockid rest _ (==_ne sockid id other) h)
        ]),
        calm,
      ))

wake_all-Waking : (rest : List ℕ) (m : IoManager) → Waking rest m → Waking [] (wake_all rest m)
wake_all-Waking [] m w = w
wake_all-Waking (sockid ∷ rest) m w =
    wake_all-Waking rest _ (wake_found-Waking sockid rest (m.socketinfomap sockid) m refl w)

pub first-Waking : (m : IoManager) → IsOrderly m → Waking m.autopaused m
first-Waking m (marks, calm) = ((λ id s f h. marks id s f ∙ left_out _ _ h), calm)

pub worker_ready-IsOrderly : (m : IoManager) → IsOrderly m → IsOrderly (worker_ready m)
worker_ready-IsOrderly m o =
    let (loose, calm) = wake_all-Waking m.autopaused m (first-Waking m o) in
    ((λ id s f. loose id s f (inl refl)), calm)

sent_queue-IsOrderly :
    (sockid : ℕ) (s : SocketInfo) (m : IoManager) (q : Queue × DataBlockPool)
    → m.socketinfomap sockid ≡ some s
    → IsOrderly m
    → IsOrderly (sent_queue sockid s m q).1
sent_queue-IsOrderly sockid s m (queue, pool) e o =
    let s' = record s { sendqueue = queue } in
    let m' = put sockid (some s') (record m { sendblockpool = pool }) in
    let here : m'.socketinfomap sockid ≡ some s' =
      put_self sockid (some s') (record m { sendblockpool = pool }) in
    let kept : IsOrderly m' =
      keep-IsOrderly sockid s s' (record m { sendblockpool = pool }) e refl refl o in
    by_test IsOrderly (is_sending s.type) (set_poll_write sockid s' m') m'
      (λ _. set_poll_write-IsOrderly sockid s' m' here kept) (λ _. kept)

send_found-IsOrderly :
    (malloc : ℕ → ℕ) (sockid : ℕ) (bytes : Bytes) (found : Option SocketInfo) (m : IoManager)
    → m.socketinfomap sockid ≡ found
    → IsOrderly m
    → IsOrderly (send_found malloc sockid bytes found m).1
send_found-IsOrderly malloc sockid bytes none m e o = o
send_found-IsOrderly malloc sockid bytes (some s) m e o = sent_queue-IsOrderly sockid s m _ e o

-- A call about a socket that may be there.
on_found :
    (sockid : ℕ) (act : Option SocketInfo → IoManager) (m : IoManager)
    → act none ≡ m
    → ((s : SocketInfo) → m.socketinfomap sockid ≡ some s → IsOrderly (act (some s)))
    → IsOrderly m
    → IsOrderly (act (m.socketinfomap sockid))
on_found sockid act m nothing there o = elim (Option-cases (m.socketinfomap sockid)) [
  | inl e ↦ subst (λ f. IsOrderly (act f)) (sym e) (subst IsOrderly (sym nothing) o)
  | inr h ↦ subst (λ f. IsOrderly (act f)) (sym h.1) (there h.0 h.1)
]

stepped-IsOrderly : (step : Step) (m : IoManager) → IsOrderly m → IsOrderly (stepped step m)
unfolding send_data
stepped-IsOrderly (pauses sockid) m o =
    on_found sockid (λ f. pause_found sockid f m) m refl
      (λ s e. pause_found-IsOrderly sockid s m e o) o
stepped-IsOrderly (resumes sockid) m o =
    on_found sockid (λ f. resume_found sockid f m) m refl
      (λ s e. resume_found-IsOrderly sockid s m e o) o
stepped-IsOrderly (overloads sockid) m o =
    on_found sockid (λ f. auto_found sockid f m) m refl (λ s e. auto_pause-IsOrderly sockid s m e o)
      o
stepped-IsOrderly readies m o = worker_ready-IsOrderly m o
stepped-IsOrderly (closes sockid) m o =
    on_found sockid (λ f. close_found sockid f m) m refl
      (λ s e. close_found-IsOrderly sockid s m e o) o
stepped-IsOrderly (closes_when_sent sockid) m o =
    on_found sockid (λ f. close_or_wait sockid f m) m refl
      (λ s e. close_or_wait-IsOrderly sockid s m e o) o
stepped-IsOrderly (sends malloc sockid bytes) m o =
    by_test (λ (r : Option (Bool × IoManager)). IsOrderly (sent_or m r))
      (leb (length bytes) 1048576) _ none
      (λ _. send_found-IsOrderly malloc sockid bytes (m.socketinfomap sockid) m refl o) (λ _. o)

-- In every sequence of these calls that starts in order: a socket is paused exactly if it was paused
-- by hand or for an overload and has not been let go on since, and then its descriptor is not
-- polled. Open sockets keep their own descriptors.
pub steps-IsOrderly : (calls : List Step) (m : IoManager) → IsOrderly m → IsOrderly (steps calls m)
steps-IsOrderly [] m o = o
steps-IsOrderly (step ∷ calls) m o =
    steps-IsOrderly calls (stepped step m) (stepped-IsOrderly step m o)
