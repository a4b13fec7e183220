-- ===== src/Bnc/Client/Responses/Ports.antt =====
-- `FDData` keeps the ports of the client accounted for.
use cbbncd.Base.{
  ℕ, Bool, true, false, ◌&&◌, ◌||◌, List, Option, none, some, ◌==◌, Bool-cases, inl, inr,
}
use cbbncd.Base.Int.{ℤ}
use cbbncd.Base.Text.{Bytes}
use cbbncd.Types.{AddressFamily, ipv4}
use cbbncd.Ftp.PasvString.{from_pasv_string, to_pasv_string, from_extended_pasv_string}
use cbbncd.Ftp.Buffer.{contents}
use cbbncd.Ftp.ResponseParser.{ResponseParser}
use cbbncd.Traffic.World.{World}
use cbbncd.Traffic.Session.{TrafficBncSession}
use cbbncd.Bnc.Client.{
  ResponseCatch, no_catch, catch_auth_tls, catch_pasv, catch_epsv, catch_port, catch_eprt,
  BncSessionClient, Outside, or_endless, tried, to_client,
}
use cbbncd.Bnc.Client.Brackets.{text_start, text_end, between, behind, with_host}
use cbbncd.Bnc.Client.Responses.{
  is_caught, Reply, pasv_bound, pasv_reply, is_origin_pasv, is_origin_port, interface_address,
  epsv_bound, epsv_reply, caught, replied, answered, fd_data,
}
use cbbncd.Bnc.Client.Ledger.{
  Returns, Returns-if, Returns-bind, Returns-then, Holds, Activates, activate_any-Activates,
}

module _ (others : List ℕ) where
  abbrev Replies : Reply → Type 0
  Replies (modified, starttls, c, w) = Holds others c w

  pasv_bound-Replies :
      (response : Bytes) (start : ℕ) (end : Option ℕ) (c : BncSessionClient)
      (r : Option ℕ × List TrafficBncSession × World)
      → Activates others r
      → Returns Replies (pasv_bound response start end c r)
  unfolding pasv_bound
  pasv_bound-Replies response start end c (none, ss, w) h = h
  pasv_bound-Replies response start end c (some port, ss, w) h =
      Returns-then Replies (or_endless (to_pasv_string c.ifaddr4 port)) _
        (λ pasv. Returns-then Replies (behind response end) _ (λ rest. h))

  epsv_bound-Replies :
      (response : Bytes) (start : ℕ) (end : Option ℕ) (own : Bool) (f : AddressFamily)
      (c : BncSessionClient) (r : Option ℕ × List TrafficBncSession × World)
      → Activates others r
      → Returns Replies (epsv_bound response start end own f c r)
  unfolding epsv_bound
  epsv_bound-Replies response start end own f c (none, ss, w) h = h
  epsv_bound-Replies response start end own f c (some port, ss, w) h =
      Returns-if Replies (is_origin_pasv c.origincatch) _ _
        (Returns-then Replies (or_endless (to_pasv_string (interface_address c f) port)) _
          (λ pasv. h))
        (Returns-then Replies (behind response end) _ (λ rest. h))

  module _ (o : Outside) where
    pasv_reply-Replies :
        (response : Bytes) (c : BncSessionClient) (w : World) (a : Option (Bytes × ℤ))
        → Holds others c w
        → Returns Replies (pasv_reply o response c w a)
    pasv_reply-Replies response c w none h = h
    pasv_reply-Replies response c w (some (addr, port)) h =
        pasv_bound-Replies response _ _ c _
          (activate_any-Activates others o ipv4 ipv4 addr port c w h)

    epsv_reply-Replies :
        (response : Bytes) (c : BncSessionClient) (w : World)
        (a : Option (AddressFamily × Bytes × ℤ))
        → Holds others c w
        → Returns Replies (epsv_reply o response c w a)
    epsv_reply-Replies response c w none h = h
    epsv_reply-Replies response c w (some (addrfam, addr, port)) h =
        epsv_bound-Replies response _ _ _ _ c _ (activate_any-Activates others o _ _ _ port c w h)

    caught-Replies :
        (k : ResponseCatch) (code : ℕ) (response : Bytes) (c : BncSessionClient) (w : World)
        → Holds others c w
        → Returns Replies (caught o k code response c w)
    unfolding caught
    caught-Replies no_catch code response c w h = h
    caught-Replies catch_auth_tls code response c w h = Returns-if Replies (code == 234) _ _ h h
    caught-Replies catch_pasv code response c w h =
        Returns-if Replies (code == 227) _ _
          (Returns-then Replies
            (tried (
              from_pasv_string (
                with_host c.sitehost (between response (text_start response) (text_end response)))))
            _ (λ a. pasv_reply-Replies response c w a h))
          h
    caught-Replies catch_epsv code response c w h =
        Returns-if Replies (code == 229) _ _
          (Returns-then Replies
            (tried (
              from_extended_pasv_string
                (between response (text_start response) (text_end response))))
            _ (λ a. epsv_reply-Replies response c w a h))
          h
    caught-Replies catch_port code response c w h = h
    caught-Replies catch_eprt code response c w h =
        Returns-if Replies (is_origin_port c.origincatch) _ _ h h

    to_client-Holds :
        (parent : ℕ) (bytes : Bytes) (c : BncSessionClient) (w : World)
        → Holds others c w
        → Holds others (to_client o parent bytes c w).0 (to_client o parent bytes c w).1
    unfolding to_client
    to_client-Holds parent bytes c w h = elim (Bool-cases (o.sent || c.paused)) [
      | inl e ↦ rw e h
      | inr e ↦ rw e h
    ]

    abbrev Ends : BncSessionClient × World → Type 0
    Ends (c, w) = Holds others c w

    replied-Ends : (parent : ℕ) (r : Reply) → Replies r → Ends (replied o parent r)
    unfolding replied
    replied-Ends parent (modified, true, c, w) h = to_client-Holds parent _ c w h
    replied-Ends parent (modified, false, c, w) h = to_client-Holds parent _ c w h

    answered-Ends :
        (parent : ℕ) (c : BncSessionClient) (w : World) (p : Option (Bool × ResponseParser))
        → Holds others c w
        → Returns Ends (answered o parent c w p)
    answered-Ends parent c w none h = tt
    answered-Ends parent c w (some (false, p)) h = h
    answered-Ends parent c w (some (true, p)) h =
        Returns-bind Replies Ends
          (caught o c.responsecatch p.databufcode (contents p.buffer)
            (record c { responseparser = p }) w)
          _ (caught-Replies c.responsecatch p.databufcode _ (record c { responseparser = p }) w h)
          (λ r k. replied-Ends parent r k)

-- Whatever the site sends, when the call returns the client listens on one port at most, that port
-- and those of the others are the ones on the ledger, and no other port of the pool is lost.
pub fd_data-Holds :
    (o : Outside) (parent : ℕ) (data_bytes : Bytes) (c : BncSessionClient) (others : List ℕ)
    (w : World)
    → Holds others c w
    → Returns (λ r. Holds others r.0 r.1) (fd_data o parent data_bytes c w)
unfolding fd_data
fd_data-Holds o parent data_bytes c others w h =
    Returns-if (λ r. Holds others r.0 r.1) (c.traffic && is_caught c.responsecatch) _ _
      (answered-Ends others o parent c w _ h) (to_client-Holds others o parent data_bytes c w h)
