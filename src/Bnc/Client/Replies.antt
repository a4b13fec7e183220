-- ===== src/Bnc/Client/Replies.antt =====
-- What a client gets for the response to PASV or EPSV.
use cbbncd.Base.{
  ℕ, ◌≡◌, refl, ◌+◌, Bool, true, false, List, [], ◌∷◌, ◌++◌, Option, none, some, length,
  if◌then◌else◌, Bool-cases, inl, inr, ap, sym, subst,
}
use cbbncd.Base.Int.{ℤ}
use cbbncd.Base.Text.{Bytes, codes, to_string}
use cbbncd.Types.{AddressFamily, no_family, ipv4, ipv6, ipv4_ipv6}
use cbbncd.Util.{is_empty}
use cbbncd.Ftp.PasvString.{
  parsed, from_pasv_string, to_pasv_string, from_extended_pasv_string, to_extended_pasv_string,
  to_extended_pasv_string_port,
}
use cbbncd.Traffic.World.{World}
use cbbncd.Traffic.Session.{TrafficBncSession}
use cbbncd.Traffic.Sessions.{activate_any}
use cbbncd.Bnc.Client.{
  OriginCatch, no_origin, origin_pasv, origin_epsv_1, origin_epsv_2, origin_port, BncSessionClient,
  Outside, Outcome, done,
}
use cbbncd.Bnc.Client.Brackets.{with_host}
use cbbncd.Bnc.Client.Responses.{
  Reply, exhausted_response, pasv_bound, caught_pasv, is_origin_pasv, interface_address, pasv_text,
  original_family, epsv_bound, caught_epsv,
}
use cbbncd.Bnc.Client.Bracketed.{
  bracketed, IsBracketed, text_start-bracketed, text_end-bracketed, before-bracketed,
  after-bracketed, between-bracketed, rejoined, to_pasv_string-some,
}

-- What comes of a response to PASV when the transfer is prepared: its text names the port that is
-- bound, and the rest of it stays; without a port it is the message of an exhausted range.
abbrev pub PasvAnswer :
    Bytes
    → Bytes
    → BncSessionClient
    → Option ℕ × List TrafficBncSession × World
    → Outcome Reply
    → Type 0
PasvAnswer head tail c (none, ss, w) r =
    r ≡ done (exhausted_response, false, record c { tbncsessions = ss }, w)
PasvAnswer head tail c (some port, ss, w) r =
    (pasv : Bytes) × (to_pasv_string c.ifaddr4 port ≡ some pasv)
    × (r ≡ done (bracketed head pasv tail, false, record c { tbncsessions = ss }, w))

pasv_bound-PasvAnswer :
    (head text tail : Bytes) (c : BncSessionClient) (x : Option ℕ × List TrafficBncSession × World)
    → IsBracketed head text
    → PasvAnswer head tail c x (
        pasv_bound
          (bracketed head text tail)
          (length head + 1)
          (some (length head + 1 + length text))
          c
          x)
unfolding pasv_bound
pasv_bound-PasvAnswer head text tail c (none, ss, w) h = refl
pasv_bound-PasvAnswer head text tail c (some port, ss, w) h =
    let (pasv, e) = to_pasv_string-some c.ifaddr4 port in
    let rest = after-bracketed head text tail h in
    let front = before-bracketed head text tail h in
    (pasv, e, rw (e, rest, front, rejoined head text tail h pasv) refl)

-- A response whose text in brackets is a PASV address, if need be with the host of the site put in
-- front, prepares a transfer to that address over IPv4. The client gets the same response with the
-- bouncer's own address and the bound port in the brackets, or the message of an exhausted range.
pub caught_pasv-PasvAnswer :
    (o : Outside) (head text tail addr : Bytes) (port : ℤ) (c : BncSessionClient) (w : World)
    → IsBracketed head text
    → from_pasv_string (with_host c.sitehost text) ≡ parsed (addr, port)
    → PasvAnswer head tail c
        (activate_any o.answers ipv4 ipv4 addr port c.tbncsessions w)
        (caught_pasv o (bracketed head text tail) c w)
unfolding caught_pasv
caught_pasv-PasvAnswer o head text tail addr port c w h e =
    rw
      (
        text_start-bracketed head text tail h,
        text_end-bracketed head text tail h,
        between-bracketed head text tail h,
        e,
      )
      (rw (text_start-bracketed head text tail h, text_end-bracketed head text tail h)
        (pasv_bound-PasvAnswer head text tail c
          (activate_any o.answers ipv4 ipv4 addr port c.tbncsessions w) h))

-- Where a client is to connect: over IPv4 if it sent PASV or EPSV 1 and over IPv6 if it sent EPSV 2,
-- else over the family of the site's address; and to the bouncer's own address of that family.
abbrev pub client_side : OriginCatch → AddressFamily → BncSessionClient → AddressFamily × Bytes
client_side origin_pasv fam c = (ipv4, c.ifaddr4)
client_side origin_epsv_1 fam c = (ipv4, c.ifaddr4)
client_side origin_epsv_2 fam c = (ipv6, c.ifaddr6)
client_side no_origin ipv4 c = (ipv4, c.ifaddr4)
client_side no_origin fam c = (fam, c.ifaddr6)
client_side origin_port ipv4 c = (ipv4, c.ifaddr4)
client_side origin_port fam c = (fam, c.ifaddr6)

client_side-lem :
    (o : OriginCatch) (fam : AddressFamily) (c : BncSessionClient)
    → client_side o fam c ≡ (original_family o fam, interface_address c (original_family o fam))
client_side-lem origin_pasv fam c = refl
client_side-lem origin_epsv_1 fam c = refl
client_side-lem origin_epsv_2 fam c = refl
client_side-lem no_origin ipv4 c = refl
client_side-lem no_origin ipv6 c = refl
client_side-lem no_origin no_family c = refl
client_side-lem no_origin ipv4_ipv6 c = refl
client_side-lem origin_port ipv4 c = refl
client_side-lem origin_port ipv6 c = refl
client_side-lem origin_port no_family c = refl
client_side-lem origin_port ipv4_ipv6 c = refl

-- What the client reads of a response to EPSV: for a client that sent PASV, the response to that
-- one; otherwise the same response with another text in its brackets, which names just the port if
-- the site's one had no address.
abbrev epsv_text : OriginCatch → Bytes → Bytes → Bytes → AddressFamily × Bytes → ℕ → Bytes → Bytes
epsv_text origin_pasv head tail addr side port pasv =
    codes "227 Entering Passive Mode (" ++ (pasv ++ codes ")\r\n")
epsv_text _ head tail [] side port pasv =
    bracketed head (codes "|||" ++ (to_string port ++ codes "|")) tail
epsv_text _ head tail (a ∷ addr) side port pasv =
    bracketed head (to_extended_pasv_string side.0 side.1 port) tail

abbrev pub EpsvAnswer :
    Bytes
    → Bytes
    → Bytes
    → AddressFamily × Bytes
    → BncSessionClient
    → Option ℕ × List TrafficBncSession × World
    → Outcome Reply
    → Type 0
EpsvAnswer head tail addr side c (none, ss, w) r =
    r
    ≡ done (
      codes "502 cbbncd: passive port range exhausted.\r\n",
      false,
      record c { tbncsessions = ss },
      w,
    )
EpsvAnswer head tail addr side c (some port, ss, w) r =
    (pasv : Bytes) × (to_pasv_string side.1 port ≡ some pasv)
    × (r
        ≡ done (
          epsv_text c.origincatch head tail addr side port pasv,
          false,
          record c { tbncsessions = ss },
          w,
        ))

if_true : (b : Bool) (x y z : Bytes) → b ≡ true → (if b then x else y) ≡ z → x ≡ z
if_true true x y z k e = e
if_true false x y z k e = cc

if_false : (b : Bool) (x y z : Bytes) → b ≡ false → (if b then x else y) ≡ z → y ≡ z
if_false true x y z k e = cc
if_false false x y z k e = e

-- What `epsv_bound` puts together is that text.
epsv_text-lem :
    (o : OriginCatch) (head tail addr : Bytes) (side : AddressFamily × Bytes) (port : ℕ)
    (pasv : Bytes)
    → (if is_origin_pasv o
        then pasv_text pasv
        else bracketed head
            (if is_empty addr
              then to_extended_pasv_string_port port
              else to_extended_pasv_string side.0 side.1 port)
            tail)
      ≡ epsv_text o head tail addr side port pasv
unfolding to_extended_pasv_string_port to_extended_pasv_string
epsv_text-lem origin_pasv head tail addr side port pasv = refl
epsv_text-lem no_origin head tail [] side port pasv = refl
epsv_text-lem no_origin head tail (a ∷ addr) side port pasv = refl
epsv_text-lem origin_epsv_1 head tail [] side port pasv = refl
epsv_text-lem origin_epsv_1 head tail (a ∷ addr) side port pasv = refl
epsv_text-lem origin_epsv_2 head tail [] side port pasv = refl
epsv_text-lem origin_epsv_2 head tail (a ∷ addr) side port pasv = refl
epsv_text-lem origin_port head tail [] side port pasv = refl
epsv_text-lem origin_port head tail (a ∷ addr) side port pasv = refl

epsv_bound-EpsvAnswer :
    (head text tail addr : Bytes) (originfam : AddressFamily) (c : BncSessionClient)
    (x : Option ℕ × List TrafficBncSession × World)
    → IsBracketed head text
    → EpsvAnswer head tail addr
        (originfam, interface_address c originfam)
        c
        x
        (epsv_bound
          (bracketed head text tail)
          (length head + 1)
          (some (length head + 1 + length text))
          (is_empty addr)
          originfam
          c
          x)
unfolding epsv_bound
epsv_bound-EpsvAnswer head text tail addr originfam c (none, ss, w) h = refl
epsv_bound-EpsvAnswer head text tail addr originfam c (some port, ss, w) h =
    let (pasv, e) = to_pasv_string-some (interface_address c originfam) port in
    let rest = after-bracketed head text tail h in
    let front = before-bracketed head text tail h in
    let shown =
      epsv_text-lem c.origincatch head tail addr (originfam, interface_address c originfam) port
        pasv in
    let reply : Bytes → Outcome Reply =
      λ text. done (text, false, record c { tbncsessions = ss }, w) in
    elim (Bool-cases (is_origin_pasv c.origincatch)) [
      | inl k ↦ (pasv, e, rw (k, e) (ap reply (if_true _ _ _ _ k shown)))
      | inr k ↦ (
        pasv,
        e,
        rw (k, rest, front, rejoined head text tail h _) (ap reply (if_false _ _ _ _ k shown)),
      )
    ]

-- A response whose text in brackets is an extended address prepares a transfer to that address, or
-- to the site where the address is empty; the client is to connect over IPv4 if it sent PASV or
-- EPSV 1, over IPv6 if it sent EPSV 2, and else over the family of that address. A client that sent
-- PASV gets a response to PASV that names the bouncer's address of that family and the bound port;
-- another client gets the same response with that port in the brackets, and with the bouncer's
-- address if the site's had one; without a port the answer is the message of an exhausted range.
pub caught_epsv-EpsvAnswer :
    (o : Outside) (head text tail addr : Bytes) (addrfam : AddressFamily) (port : ℤ)
    (c : BncSessionClient) (w : World)
    → IsBracketed head text
    → from_extended_pasv_string text ≡ parsed (addrfam, addr, port)
    → let usefam = if is_empty addr then c.siteaddrfam else addrfam in
      let useaddr = if is_empty addr then c.sitehost else addr in
      let side = client_side c.origincatch usefam c in
      EpsvAnswer head tail addr side c
        (activate_any o.answers side.0 usefam useaddr port c.tbncsessions w)
        (caught_epsv o (bracketed head text tail) c w)
unfolding caught_epsv
caught_epsv-EpsvAnswer o head text tail addr addrfam port c w h e =
    rw
      (
        text_start-bracketed head text tail h,
        text_end-bracketed head text tail h,
        between-bracketed head text tail h,
        e,
      )
      (rw (text_start-bracketed head text tail h, text_end-bracketed head text tail h)
        (let usefam = if is_empty addr then c.siteaddrfam else addrfam in
          let useaddr = if is_empty addr then c.sitehost else addr in
          let originfam = original_family c.origincatch usefam in
          let Answers : AddressFamily × Bytes → Type 0 = λ side.
            EpsvAnswer head tail addr side c
              (activate_any o.answers side.0 usefam useaddr port c.tbncsessions w)
              (epsv_bound (bracketed head text tail) (length head + 1)
                (some (length head + 1 + length text)) (is_empty addr) originfam c
                (activate_any o.answers originfam usefam useaddr port c.tbncsessions w)) in
          subst Answers (sym (client_side-lem c.origincatch usefam c)) (
            epsv_bound-EpsvAnswer head text tail addr originfam c
              (activate_any o.answers originfam usefam useaddr port c.tbncsessions w) h)))
