-- ===== src/Bnc/Client/Commands/Ports.antt =====
-- `sendData` keeps the ports of the client accounted for.
use cbbncd.Base.{
  ℕ, Bool, true, false, ◌&&◌, ◌||◌, not, List, Option, none, some, get_elem?, Bool-cases, inl, inr,
}
use cbbncd.Base.Int.{ℤ}
use cbbncd.Base.Text.{Bytes, codes, same}
use cbbncd.Types.{AddressFamily, ipv4, is_ipv4, is_ipv6}
use cbbncd.Util.{split}
use cbbncd.Ftp.PasvString.{from_pasv_string, to_pasv_string, from_extended_pasv_string}
use cbbncd.Ftp.CommandParser.{CommandParser, get_command_trimmed_upper}
use cbbncd.Traffic.World.{World}
use cbbncd.Traffic.Session.{TrafficBncSession}
use cbbncd.Bnc.Client.{BncSessionClient, Outside, or_endless, or_undefined, tried}
use cbbncd.Bnc.Client.Commands.{
  Rewrite, rewrite_pasv, rewrite_epsv, port_bound, port_caught, rewrite_port, eprt_bound,
  eprt_caught, rewrite_eprt, Kind, auth_command, pasv_command, epsv_command, port_command,
  eprt_command, other_command, rewrite, rewritten, forwarded, gathered, send_command,
}
use cbbncd.Bnc.Client.Ledger.{
  Returns, Returns-if, Returns-bind, Returns-then, Holds, Activates, activate_any-Activates,
}

module _ (others : List ℕ) where
  abbrev Rewrites : Rewrite → Type 0
  Rewrites (c, modified, w) = Holds others c w

  rewrite_pasv-Rewrites :
      (c : BncSessionClient) (w : World) → Holds others c w → Rewrites (rewrite_pasv c w)
  unfolding rewrite_pasv
  rewrite_pasv-Rewrites c w h = elim (Bool-cases (is_ipv6 c.siteaddrfam)) [
    | inl e ↦ rw e h
    | inr e ↦ rw e h
  ]

  rewrite_epsv-Rewrites :
      (command : Bytes) (c : BncSessionClient) (w : World)
      → Holds others c w
      → Rewrites (rewrite_epsv command c w)
  unfolding rewrite_epsv
  rewrite_epsv-Rewrites command c w h =
      elim (Bool-cases (is_ipv4 c.siteaddrfam && same command (codes "EPSV 2"))) [
        | inl e ↦ elim (Bool-cases (is_ipv6 c.siteaddrfam && not (same command (codes "EPSV 2")))) [
          | inl k ↦ rw (e, k) h
          | inr k ↦ rw (e, k) h
        ]
        | inr e ↦ elim (Bool-cases (is_ipv6 c.siteaddrfam && not (same command (codes "EPSV 2")))) [
          | inl k ↦ rw (e, k) h
          | inr k ↦ rw (e, k) h
        ]
      ]

  port_bound-Rewrites :
      (word : Bytes) (c : BncSessionClient) (r : Option ℕ × List TrafficBncSession × World)
      → Activates others r
      → Returns Rewrites (port_bound word c r)
  unfolding port_bound
  port_bound-Rewrites word c (none, ss, w) h = h
  port_bound-Rewrites word c (some port, ss, w) h = elim (Bool-cases (is_ipv4 c.siteaddrfam)) [
    | inl e ↦
        rw e (Returns-then Rewrites (or_endless (to_pasv_string c.siteifaddr port)) _ (λ pasv. h))
    | inr e ↦ rw e h
  ]

  eprt_bound-Rewrites :
      (word : Bytes) (c : BncSessionClient) (r : Option ℕ × List TrafficBncSession × World)
      → Activates others r
      → Rewrites (eprt_bound word c r)
  unfolding eprt_bound
  eprt_bound-Rewrites word c (none, ss, w) h = h
  eprt_bound-Rewrites word c (some port, ss, w) h = h

  module _ (o : Outside) where
    port_caught-Rewrites :
        (word : Bytes) (c : BncSessionClient) (w : World) (a : Option (Bytes × ℤ))
        → Holds others c w
        → Returns Rewrites (port_caught o word c w a)
    port_caught-Rewrites word c w none h = h
    port_caught-Rewrites word c w (some (addr, port)) h =
        port_bound-Rewrites word c _
          (activate_any-Activates others o c.siteaddrfam ipv4 addr port c w h)

    eprt_caught-Rewrites :
        (word : Bytes) (c : BncSessionClient) (w : World) (a : Option (AddressFamily × Bytes × ℤ))
        → Holds others c w
        → Returns Rewrites (eprt_caught o word c w a)
    eprt_caught-Rewrites word c w none h = h
    eprt_caught-Rewrites word c w (some (addrfam, addr, port)) h =
        eprt_bound-Rewrites word c _ (activate_any-Activates others o c.siteaddrfam _ _ port c w h)

    rewrite-Rewrites :
        (k : Kind) (command word : Bytes) (words : List Bytes) (c : BncSessionClient) (w : World)
        → Holds others c w
        → Returns Rewrites (rewrite o k command word words c w)
    unfolding rewrite rewrite_port rewrite_eprt
    rewrite-Rewrites auth_command command word words c w h = h
    rewrite-Rewrites pasv_command command word words c w h = rewrite_pasv-Rewrites c w h
    rewrite-Rewrites epsv_command command word words c w h = rewrite_epsv-Rewrites command c w h
    rewrite-Rewrites port_command command word words c w h =
        Returns-then Rewrites (or_undefined (get_elem? words 1)) _ (λ text.
          Returns-then Rewrites (tried (from_pasv_string text)) _
            (λ a. port_caught-Rewrites word c w a h))
    rewrite-Rewrites eprt_command command word words c w h =
        Returns-then Rewrites (or_undefined (get_elem? words 1)) _ (λ text.
          Returns-then Rewrites (tried (from_extended_pasv_string text)) _
            (λ a. eprt_caught-Rewrites word c w a h))
    rewrite-Rewrites other_command command word words c w h = h

    rewritten-Rewrites :
        (c : BncSessionClient) (w : World) → Holds others c w → Returns Rewrites (rewritten o c w)
    unfolding rewritten
    rewritten-Rewrites c w h =
        Returns-then Rewrites
          (or_endless (split (get_command_trimmed_upper c.commandparser) (codes " "))) _
          (λ words.
            Returns-then Rewrites (or_undefined (get_elem? words 0)) _
              (λ word. rewrite-Rewrites _ _ word words c w h))

    forwarded-Holds : (r : Rewrite) → Rewrites r → Holds others (forwarded o r).1 (forwarded o r).2
    unfolding forwarded
    forwarded-Holds (c, modified, w) h = h

    abbrev Sends : Bool × BncSessionClient × World → Type 0
    Sends (sent, c, w) = Holds others c w

    gathered-Sends :
        (c : BncSessionClient) (w : World) (p : Option (Bool × CommandParser))
        → Holds others c w
        → Returns Sends (gathered o c w p)
    gathered-Sends c w none h = tt
    gathered-Sends c w (some (false, p)) h = h
    gathered-Sends c w (some (true, p)) h =
        let parsed = record c { commandparser = p } in
        Returns-bind Rewrites Sends (rewritten o parsed w) _ (rewritten-Rewrites parsed w h)
          (λ r k. forwarded-Holds r k)

-- Whatever a client sends, when the call returns the client listens on one port at most, that port
-- and those of the others are the ones on the ledger, and no other port of the pool is lost.
pub send_command-Holds :
    (o : Outside) (data_bytes : Bytes) (c : BncSessionClient) (others : List ℕ) (w : World)
    → Holds others c w
    → Returns (λ r. Holds others r.1 r.2) (send_command o data_bytes c w)
unfolding send_command
send_command-Holds o data_bytes c others w h =
    Returns-if (λ r. Holds others r.1 r.2) (c.identreceived || c.noidnt) _ _
      (Returns-if (λ r. Holds others r.1 r.2) c.traffic _ _ (gathered-Sends others o c w _ h) h) tt
