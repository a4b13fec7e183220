-- ===== src/Bnc/Client/Commands/Endings.antt =====
-- `sendData` comes to an end.
use cbbncd.Base.{
  ℕ, ◌≡◌, ◌≢◌, ◌+◌, ◌≤◌, ◌^◌, Bool, true, false, ◌||◌, List, ◌∷◌, Option, none, some, length,
  get_elem?,
}
use cbbncd.Base.Int.{ℤ}
use cbbncd.Base.Text.{Bytes, codes}
use cbbncd.Types.{AddressFamily, is_ipv4}
use cbbncd.Util.{split}
use cbbncd.Ftp.PasvString.{to_pasv_string, from_pasv_string, from_extended_pasv_string}
use cbbncd.Ftp.Buffer.Contents.{IsValid}
use cbbncd.Ftp.CommandParser.{CommandParser, get_command_trimmed_upper}
use cbbncd.Ftp.CommandParser.Lines.{Gathers, parse-Gathers}
use cbbncd.Traffic.World.{World}
use cbbncd.Traffic.Session.{TrafficBncSession}
use cbbncd.Bnc.Client.{BncSessionClient, Outside, endless, or_endless, or_undefined, tried}
use cbbncd.Bnc.Client.Commands.{
  port_bound, port_caught, eprt_caught, Kind, auth_command, pasv_command, epsv_command,
  port_command, eprt_command, other_command, rewrite, rewrite_port, rewrite_eprt, rewritten,
  gathered, send_command,
}
use cbbncd.Bnc.Client.Endings.{
  Ends, Ends-bind, Ends-if, Ends-ne, tried-Ends, or_undefined-Ends, printed-Ends, words-Ends,
}

port_bound-Ends :
    (word : Bytes) (c : BncSessionClient) (r : Option ℕ × List TrafficBncSession × World)
    → Ends (port_bound word c r)
unfolding port_bound
port_bound-Ends word c (none, ss, w) = tt
port_bound-Ends word c (some port, ss, w) =
    Ends-if (is_ipv4 c.siteaddrfam) _ _
      (Ends-bind (or_endless (to_pasv_string c.siteifaddr port)) _ (printed-Ends c.siteifaddr port)
        (λ pasv. tt))
      tt

port_caught-Ends :
    (o : Outside) (word : Bytes) (c : BncSessionClient) (w : World) (a : Option (Bytes × ℤ))
    → Ends (port_caught o word c w a)
port_caught-Ends o word c w none = tt
port_caught-Ends o word c w (some (addr, port)) = port_bound-Ends word c _

eprt_caught-Ends :
    (o : Outside) (word : Bytes) (c : BncSessionClient) (w : World)
    (a : Option (AddressFamily × Bytes × ℤ))
    → Ends (eprt_caught o word c w a)
eprt_caught-Ends o word c w none = tt
eprt_caught-Ends o word c w (some (addrfam, addr, port)) = tt

rewrite-Ends :
    (o : Outside) (k : Kind) (command word : Bytes) (words : List Bytes) (c : BncSessionClient)
    (w : World)
    → Ends (rewrite o k command word words c w)
unfolding rewrite rewrite_port rewrite_eprt
rewrite-Ends o auth_command command word words c w = tt
rewrite-Ends o pasv_command command word words c w = tt
rewrite-Ends o epsv_command command word words c w = tt
rewrite-Ends o port_command command word words c w =
    Ends-bind (or_undefined (get_elem? words 1)) _ (or_undefined-Ends (get_elem? words 1)) (λ text.
      Ends-bind (tried (from_pasv_string text)) _ (tried-Ends (from_pasv_string text))
        (λ a. port_caught-Ends o word c w a))
rewrite-Ends o eprt_command command word words c w =
    Ends-bind (or_undefined (get_elem? words 1)) _ (or_undefined-Ends (get_elem? words 1)) (λ text.
      Ends-bind (tried (from_extended_pasv_string text)) _
        (tried-Ends (from_extended_pasv_string text)) (λ a. eprt_caught-Ends o word c w a))
rewrite-Ends o other_command command word words c w = tt

rewritten-Ends : (o : Outside) (c : BncSessionClient) (w : World) → Ends (rewritten o c w)
unfolding rewritten
rewritten-Ends o c w =
    let command = get_command_trimmed_upper c.commandparser in
    Ends-bind (or_endless (split command (codes " "))) _ (words-Ends command) (λ words.
      Ends-bind (or_undefined (get_elem? words 0)) _ (or_undefined-Ends (get_elem? words 0))
        (λ word. rewrite-Ends o _ command word words c w))

gathered-Ends :
    (o : Outside) (x : ℕ) (chunk : Bytes) (c : BncSessionClient) (w : World)
    (p : Option (Bool × CommandParser))
    → Gathers c.commandparser x chunk p
    → Ends (gathered o c w p)
gathered-Ends o x chunk c w none g = g
gathered-Ends o x chunk c w (some (false, p)) g = tt
gathered-Ends o x chunk c w (some (true, p)) g =
    Ends-bind (rewritten o (record c { commandparser = p }) w) _ (rewritten-Ends o _ w) (λ r. tt)

module _ (o : Outside) (malloc_length : (n : ℕ) → length (o.malloc n) ≡ n) where
  -- No chunk that is not empty makes the call run for ever, as long as the gathered command stays
  -- below two gigabytes.
  pub send_command_ends :
      (x : ℕ) (chunk : Bytes) (c : BncSessionClient) (w : World)
      → IsValid c.commandparser.buffer
      → c.commandparser.databufpos + length (x ∷ chunk) ≤ 2 ^ 31
      → send_command o (x ∷ chunk) c w ≢ endless
  unfolding send_command
  send_command_ends x chunk c w v small =
      let g = parse-Gathers o.malloc malloc_length c.commandparser x chunk v small in
      Ends-ne _ (
        Ends-if (c.identreceived || c.noidnt) _ _
          (Ends-if c.traffic _ _ (gathered-Ends o x chunk c w _ g) tt) tt)
