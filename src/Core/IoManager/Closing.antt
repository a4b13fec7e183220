-- ===== src/Core/IoManager/Closing.antt =====
-- A socket that is closed is gone, and nothing more is written.
use cbbncd.Base.{
  ℕ, ◌≡◌, refl, sym, ap, ◌∙◌, subst, List, [], ◌∷◌, ◌++◌, append_assoc, not, ◌&&◌, Option, none,
  some, by_test, if◌then◌else◌, arith,
}
use cbbncd.Core.SocketInfo.{SocketInfo}
use cbbncd.Core.IoManager.{
  SysCall, close_fd, ssl_shutdown, ssl_free, freeaddrinfo, write_fd, ssl_write, IoManager, put,
  is_external, shut_down, freed, close_found, close_socket_intern,
}
use cbbncd.Core.IoManager.Pending.{payload}

pub put_self :
    (sockid : ℕ) (s : Option SocketInfo) (m : IoManager) → (put sockid s m).socketinfomap sockid ≡ s
put_self sockid s m = ground arith

pub put_other :
    (sockid other : ℕ) (s : Option SocketInfo) (m : IoManager)
    → ¬ (sockid ≡ other)
    → (put sockid s m).socketinfomap other ≡ m.socketinfomap other
put_other sockid other s m h = ground (arith, h)

-- The calls that follow write nothing.
abbrev pub Silent : List SysCall → List SysCall → Type 0
Silent before after = (calls : List SysCall) × (after ≡ before ++ calls) × (payload calls ≡ [])

pub payload-append : (a b : List SysCall) → payload (a ++ b) ≡ payload a ++ payload b
payload-append [] b = refl
payload-append (write_fd fd bytes ∷ a) b =
    ap (λ s. bytes ++ s) (payload-append a b) ∙ sym (append_assoc bytes _ _)
payload-append (ssl_write ssl bytes ∷ a) b =
    ap (λ s. bytes ++ s) (payload-append a b) ∙ sym (append_assoc bytes _ _)
payload-append (close_fd fd ∷ a) b = payload-append a b
payload-append (ssl_shutdown ssl ∷ a) b = payload-append a b
payload-append (ssl_free ssl ∷ a) b = payload-append a b
payload-append (freeaddrinfo info ∷ a) b = payload-append a b

-- Nothing is written by calls after calls that write nothing.
quiet : (a b : List SysCall) → payload a ≡ [] → payload b ≡ [] → payload (a ++ b) ≡ []
quiet a b h k = payload-append a b ∙ (ap (λ s. s ++ payload b) h ∙ k)

shut_down_quiet :
    (s : SocketInfo) (ssl : Option ℕ) (m : IoManager) → payload (shut_down s ssl m) ≡ []
shut_down_quiet s none m = refl
shut_down_quiet s (some ssl) m =
    by_test (λ (calls : List SysCall). payload calls ≡ []) (s.sslshutdown && not (m.in_init ssl)) _
      _ (λ _. refl) (λ _. refl)

fd_quiet : (s : SocketInfo) → payload (if is_external s.type then [] else close_fd s.fd ∷ []) ≡ []
fd_quiet s =
    by_test (λ (calls : List SysCall). payload calls ≡ []) (is_external s.type) _ _ (λ _. refl)
      (λ _. refl)

ssl_quiet : (ssl : Option ℕ) → payload (freed ssl_free ssl) ≡ []
ssl_quiet none = refl
ssl_quiet (some ssl) = refl

info_quiet : (info : Option ℕ) → payload (freed freeaddrinfo info) ≡ []
info_quiet none = refl
info_quiet (some info) = refl

-- A socket that is closed is gone, and nothing is written.
abbrev pub Closed : ℕ → IoManager → IoManager → Type 0
Closed sockid m m' = (m'.socketinfomap sockid ≡ none) × Silent m.syscalls m'.syscalls

close_found-Closed :
    (sockid : ℕ) (s : SocketInfo) (m : IoManager) → Closed sockid m (close_found sockid (some s) m)
close_found-Closed sockid s m = (
  put_self sockid none m,
  (
    _,
    refl,
    quiet (shut_down s s.ssl m) _ (shut_down_quiet s s.ssl m) (
        quiet (if is_external s.type then [] else close_fd s.fd ∷ []) _ (fd_quiet s)
          (quiet (freed ssl_free s.ssl) _ (ssl_quiet s.ssl) (info_quiet s.gaires))),
  ),
)

pub close-Closed :
    (sockid : ℕ) (s : SocketInfo) (m : IoManager)
    → m.socketinfomap sockid ≡ some s
    → Closed sockid m (close_socket_intern sockid m)
close-Closed sockid s m e =
    subst (λ found. Closed sockid m (close_found sockid found m)) (sym e)
      (close_found-Closed sockid s m)
