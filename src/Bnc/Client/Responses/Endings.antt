-- ===== src/Bnc/Client/Responses/Endings.antt =====
-- `FDData` comes to an end.
use cbbncd.Base.{
  ℕ, ◌≡◌, ◌≢◌, ◌+◌, ◌≤◌, ◌^◌, Bool, true, false, ◌&&◌, List, ◌∷◌, Option, none, some, length, ◌==◌,
}
use cbbncd.Base.Int.{ℤ}
use cbbncd.Base.Text.{Bytes}
use cbbncd.Types.{AddressFamily}
use cbbncd.Ftp.PasvString.{to_pasv_string, from_pasv_string, from_extended_pasv_string}
use cbbncd.Ftp.Buffer.{contents}
use cbbncd.Ftp.Buffer.Contents.{IsValid}
use cbbncd.Ftp.ResponseParser.{ResponseParser}
use cbbncd.Ftp.ResponseParser.Status.{Judges, parse-Judges}
use cbbncd.Traffic.World.{World}
use cbbncd.Traffic.Session.{TrafficBncSession}
use cbbncd.Bnc.Client.{
  ResponseCatch, no_catch, catch_auth_tls, catch_pasv, catch_epsv, catch_port, catch_eprt,
  BncSessionClient, Outside, endless, or_endless, tried,
}
use cbbncd.Bnc.Client.Brackets.{text_start, text_end, between, behind, with_host}
use cbbncd.Bnc.Client.Responses.{
  is_caught, pasv_bound, pasv_reply, is_origin_pasv, is_origin_port, interface_address, epsv_bound,
  epsv_reply, caught, answered, fd_data,
}
use cbbncd.Bnc.Client.Endings.{
  Ends, Ends-bind, Ends-if, Ends-ne, tried-Ends, behind-Ends, printed-Ends,
}

pasv_bound-Ends :
    (response : Bytes) (c : BncSessionClient) (r : Option ℕ × List TrafficBncSession × World)
    → Ends (pasv_bound response (text_start response) (text_end response) c r)
unfolding pasv_bound
pasv_bound-Ends response c (none, ss, w) = tt
pasv_bound-Ends response c (some port, ss, w) =
    Ends-bind (or_endless (to_pasv_string c.ifaddr4 port)) _ (printed-Ends c.ifaddr4 port) (λ pasv.
      Ends-bind (behind response (text_end response)) _ (behind-Ends response (text_end response))
        (λ rest. tt))

pasv_reply-Ends :
    (o : Outside) (response : Bytes) (c : BncSessionClient) (w : World) (a : Option (Bytes × ℤ))
    → Ends (pasv_reply o response c w a)
pasv_reply-Ends o response c w none = tt
pasv_reply-Ends o response c w (some (addr, port)) = pasv_bound-Ends response c _

epsv_bound-Ends :
    (response : Bytes) (own : Bool) (f : AddressFamily) (c : BncSessionClient)
    (r : Option ℕ × List TrafficBncSession × World)
    → Ends (epsv_bound response (text_start response) (text_end response) own f c r)
unfolding epsv_bound
epsv_bound-Ends response own f c (none, ss, w) = tt
epsv_bound-Ends response own f c (some port, ss, w) =
    Ends-if (is_origin_pasv c.origincatch) _ _
      (Ends-bind (or_endless (to_pasv_string (interface_address c f) port)) _
        (printed-Ends (interface_address c f) port) (λ pasv. tt))
      (Ends-bind (behind response (text_end response)) _ (behind-Ends response (text_end response))
        (λ rest. tt))

epsv_reply-Ends :
    (o : Outside) (response : Bytes) (c : BncSessionClient) (w : World)
    (a : Option (AddressFamily × Bytes × ℤ))
    → Ends (epsv_reply o response c w a)
epsv_reply-Ends o response c w none = tt
epsv_reply-Ends o response c w (some (addrfam, addr, port)) = epsv_bound-Ends response _ _ c _

caught-Ends :
    (o : Outside) (k : ResponseCatch) (code : ℕ) (response : Bytes) (c : BncSessionClient)
    (w : World)
    → Ends (caught o k code response c w)
unfolding caught
caught-Ends o no_catch code response c w = tt
caught-Ends o catch_auth_tls code response c w = Ends-if (code == 234) _ _ tt tt
caught-Ends o catch_pasv code response c w =
    let text = with_host c.sitehost (between response (text_start response) (text_end response)) in
    Ends-if (code == 227) _ _
      (Ends-bind (tried (from_pasv_string text)) _ (tried-Ends (from_pasv_string text))
        (λ a. pasv_reply-Ends o response c w a))
      tt
caught-Ends o catch_epsv code response c w =
    let text = between response (text_start response) (text_end response) in
    Ends-if (code == 229) _ _
      (Ends-bind (tried (from_extended_pasv_string text)) _
        (tried-Ends (from_extended_pasv_string text)) (λ a. epsv_reply-Ends o response c w a))
      tt
caught-Ends o catch_port code response c w = tt
caught-Ends o catch_eprt code response c w = Ends-if (is_origin_port c.origincatch) _ _ tt tt

answered-Ends :
    (o : Outside) (parent x : ℕ) (chunk : Bytes) (c : BncSessionClient) (w : World)
    (p : Option (Bool × ResponseParser))
    → Judges c.responseparser x chunk p
    → Ends (answered o parent c w p)
answered-Ends o parent x chunk c w none j = j
answered-Ends o parent x chunk c w (some (false, p)) j = tt
answered-Ends o parent x chunk c w (some (true, p)) j =
    Ends-bind (caught o c.responsecatch p.databufcode (contents p.buffer) _ w) _
      (caught-Ends o c.responsecatch p.databufcode (contents p.buffer) _ w) (λ r. tt)

module _ (o : Outside) (malloc_length : (n : ℕ) → length (o.malloc n) ≡ n) where
  -- No chunk of the site that is not empty makes the call run for ever, as long as the gathered
  -- response stays below two gigabytes.
  pub fd_data_ends :
      (parent x : ℕ) (chunk : Bytes) (c : BncSessionClient) (w : World)
      → IsValid c.responseparser.buffer
      → c.responseparser.databufpos + length (x ∷ chunk) ≤ 2 ^ 31
      → fd_data o parent (x ∷ chunk) c w ≢ endless
  unfolding fd_data
  fd_data_ends parent x chunk c w v small =
      let j = parse-Judges o.malloc malloc_length c.responseparser x chunk v small in
      Ends-ne _ (
        Ends-if (c.traffic && is_caught c.responsecatch) _ _
          (answered-Ends o parent x chunk c w _ j) tt)
